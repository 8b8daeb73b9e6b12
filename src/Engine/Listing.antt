-- ===== src/Engine/Listing.antt =====
-- core/directory_operations.go: `ListDirectory` and `ListDirectoryRecursive`. The recursion is on the
-- levels that are left, `maxDepth - currentDepth + 1`. A subdirectory that cannot be listed is left out.
pub mod Below
mod Examples
use callfs.Prelude.{
  ℕ, zero, suc, ℤ, pos, negsuc, Text, text_eq, if◌then◌else◌, List, [], ◌∷◌, ◌++◌, Result, ok, err,
  message, wrap,
}
use callfs.Metadata.{Metadata, directory}
use callfs.Raft.{State}
use callfs.Raft.Store.{get, list_children}

-- ListDirectory; over this store `ListChildren` does not fail
listed : Text → State → Result Metadata → Result (List Metadata)
listed path s (err e) = err (wrap "failed to get directory metadata" e)
listed path s (ok md) =
    if text_eq md.type directory
    then ok (list_children path s)
    else err (message "path is not a directory")

unfoldable pub list_directory : Text → State → Result (List Metadata)
unfolding listed
list_directory path s = listed path s (get path s)

-- what a subdirectory adds
unfoldable pub or_nothing : Result (List Metadata) → List Metadata
or_nothing (ok items) = items
or_nothing (err _) = []

-- the loop over the children; `sub` is the recursive call
subdirectories : (Text → Result (List Metadata)) → List Metadata → List Metadata
unfolding or_nothing
subdirectories sub [] = []
subdirectories sub (child ∷ children) =
    let rest = subdirectories sub children in
    if text_eq child.type directory then or_nothing (sub child.path) ++ rest else rest

with_subdirectories :
    (Text → Result (List Metadata)) → Result (List Metadata) → Result (List Metadata)
unfolding subdirectories
with_subdirectories sub (err e) = err (wrap "failed to list directory" e)
with_subdirectories sub (ok children) = ok (children ++ subdirectories sub children)

-- listDirectoryRecursiveHelper
unfoldable pub list_levels : ℕ → Text → State → Result (List Metadata)
unfolding with_subdirectories
list_levels zero path s = ok []
list_levels (suc levels) path s =
    with_subdirectories (λ child. list_levels levels child s) (list_directory path s)

-- ListDirectoryRecursive
unfoldable pub list_directory_recursive : Text → ℤ → State → Result (List Metadata)
list_directory_recursive path (pos max_depth) s = list_levels (suc max_depth) path s
list_directory_recursive path (negsuc _) s = list_levels 101 path s
