-- ===== src/FileHandlers/List/Depth.antt =====
-- server/handlers/list_directory.go: what a listing that is answered holds, and who gets one.
use mathlib.Core.Path.{subst}
use callfs.Prelude.{
  ℕ, ℤ, suc, pos, negsuc, ◌≡◌, ◌↔◌, ◌≤◌, inl, inr, refl, sym, ap, ◌∙◌, arith, Text, text_eq, codes,
  Bool, true, false, Option, none, some, List, ◌∷◌, [], ◌++◌, Result, ok, err, atoi, if◌then◌else◌,
  length,
}
use callfs.Metadata.{Metadata, directory}
use callfs.Raft.{State}
use callfs.Paths.{root}
use callfs.Paths.Parse.{parse_file_path}
use callfs.Auth.{read_perm}
use callfs.Links.Handlers.{engine_path}
use callfs.Engine.{EngineConfig, World, get_metadata}
use callfs.Engine.Update.{get_metadata-store}
use callfs.Engine.Listing.{list_directory, or_nothing}
use callfs.Engine.Listing.Below.{In, Under, list_directory_recursive-Under}
use callfs.FileHandlers.{authorized}
use callfs.FileHandlers.List.{
  response, DirectoryListingResponse, ListAnswer, file_infos, max_depth_of, children_of,
  list_answered, list_found, list_allowed, list_as, list_handler, limited,
}

limited_at_most : (n : Option ℤ) → limited n ≤ 1000
unfolding limited
limited_at_most none = omega arith
limited_at_most (some (pos n)) = ground arith
limited_at_most (some (negsuc n)) = omega arith

-- Whatever the query asks for, the depth is 1000 at most.
max_depth_of-Small : (s : Text) → max_depth_of s ≤ 1000
unfolding max_depth_of
max_depth_of-Small [] = omega arith
max_depth_of-Small (c ∷ s) = limited_at_most (atoi (c ∷ s))

-- exactly what stands below the path, down to so many levels
abbrev pub Holds : State → Text → List Metadata → Type 0
Holds s path children =
    (levels : ℕ) × (levels ≤ 1001) × ((md : Metadata) → In md children ↔ Under s levels path md)

children_of-Holds :
    (path : Text) (recursive : Bool) (depth : ℕ) (s : State) (children : List Metadata)
    → depth ≤ 1000
    → children_of path recursive depth s ≡ ok children
    → Holds s path children
unfolding children_of or_nothing
children_of-Holds path true depth s children le h = (
  suc depth,
  omega (arith, le),
  λ md.
      subst (λ r. In md (or_nothing r) ↔ Under s (suc depth) path md) h
        (list_directory_recursive-Under s path depth md).0,
)
children_of-Holds path false depth s children le h =
    (1, omega arith, λ md. (λ i. (children, h, inl i), back md))
  where
    same : (others : List Metadata) → list_directory path s ≡ ok others → others ≡ children
    same others e = ground arith

    back : (md : Metadata) → Under s 1 path md → In md children
    back md (others, e, inl i) = subst (In md) (same others e) i
    back md (others, e, inr (child, i, d, u)) = elim u [ ]

length-file_infos : (children : List Metadata) → length (file_infos children) ≡ length children
unfolding length file_infos
length-file_infos [] = refl
length-file_infos (c ∷ cs) = ap suc (length-file_infos cs)

-- an answer that has a body, whose items are what stands below the path
abbrev pub Lists : DirectoryListingResponse → Text → State → ListAnswer → Type 0
Lists r path s answer =
    (answer.0 ≡ 200)
    × (r.path ≡ path)
    × ((children : List Metadata) × (r.items ≡ file_infos children)
        × (r.count ≡ length children)
        × Holds s path children)

module _ (r : DirectoryListingResponse) (path : Text) (recursive : Bool) (depth : ℕ)
    (le : depth ≤ 1000) where
  answered-Lists :
      (s : State) (found : Result (List Metadata))
      → children_of path recursive depth s ≡ found
      → (list_answered path recursive depth found).1 ≡ some r
      → Lists r path s (list_answered path recursive depth found)
  unfolding list_answered
  answered-Lists s (err e) from h = absurd (ground arith)
  answered-Lists s (ok children) from h = (
    refl,
    sym (ap (λ x. x.path) same),
    (
      children,
      sym (ap (λ x. x.items) same),
      sym (ap (λ x. x.count) same) ∙ length-file_infos children,
      children_of-Holds path recursive depth s children le from,
    ),
  )
    where
      same : response path recursive depth children ≡ r
      same = ground arith

  module _ {Disk : Type 0} where
    abbrev if_directory : Bool → World Disk → ListAnswer × World Disk
    if_directory is_directory w =
        if is_directory
        then (list_answered path recursive depth (children_of path recursive depth w.store), w)
        else ((400, none), w)

    directory-Lists :
        (w : World Disk) (is_directory : Bool)
        → (if_directory is_directory w).0.1 ≡ some r
        → Lists r path w.store (if_directory is_directory w).0
    directory-Lists w true h =
        answered-Lists w.store (children_of path recursive depth w.store) refl h
    directory-Lists w false h = absurd (ground arith)

    found-Lists :
        (found : Result Metadata × World Disk)
        → (list_found path recursive depth found).0.1 ≡ some r
        → Lists r path found.1.store (list_found path recursive depth found).0
    unfolding list_found
    found-Lists (err e, w) h = absurd (ground arith)
    found-Lists (ok md, w) h = directory-Lists w (text_eq md.type directory) h

    allowed-Lists :
        (now set_at : ℕ) (w : World Disk) (may : Result (Unit {0}))
        → (list_allowed path recursive depth now set_at w may).0.1 ≡ some r
        → (may ≡ ok tt)
          × Lists r path w.store (list_allowed path recursive depth now set_at w may).0
    unfolding list_allowed
    allowed-Lists now set_at w (err e) h = absurd (ground arith)
    allowed-Lists now set_at w (ok t) h = (
      refl,
      subst
          (λ s. Lists r path s (list_found path recursive depth (get_metadata path now set_at w)).0)
          (get_metadata-store path now set_at w) (found-Lists (get_metadata path now set_at w) h),
    )

-- what an answer with a body rests on, once the path is valid
abbrev pub Permitted :
    {Disk : Type 0}
    → EngineConfig
    → Option Text
    → Text
    → World Disk
    → DirectoryListingResponse
    → ListAnswer
    → Type 0
Permitted cfg user path w r answer =
    (name : Text) × (user ≡ some name)
    × (authorized cfg name path read_perm w ≡ ok tt)
    × Lists r path w.store answer

module _ {Disk : Type 0} (cfg : EngineConfig) (r : DirectoryListingResponse) (path : Text)
    (recursive : Bool) (depth : ℕ) (le : depth ≤ 1000) (now set_at : ℕ) (w : World Disk) where
  as-Permitted :
      (user : Option Text)
      → (list_as cfg user path recursive depth now set_at w).0.1 ≡ some r
      → Permitted cfg user path w r (list_as cfg user path recursive depth now set_at w).0
  unfolding list_as
  as-Permitted none h = absurd (ground arith)
  as-Permitted (some name) h =
      let (may, lists) =
        allowed-Lists r path recursive depth le now set_at w (authorized cfg name path read_perm w)
          h in
      (name, refl, may, lists)

  abbrev unless_invalid : Bool → Option Text → ListAnswer × World Disk
  unless_invalid is_invalid user =
      if is_invalid then ((400, none), w) else list_as cfg user path recursive depth now set_at w

  unless-Permitted :
      (user : Option Text) (is_invalid : Bool)
      → (unless_invalid is_invalid user).0.1 ≡ some r
      → (is_invalid ≡ false) × Permitted cfg user path w r (unless_invalid is_invalid user).0
  unless-Permitted user true h = absurd (ground arith)
  unless-Permitted user false h = (refl, as-Permitted user h)

-- A listing is answered with 200, to an authenticated user, of a valid path that this user may read by
-- the store's records. Its items are exactly what the store has below the path, down to a number of
-- levels that is 1001 at most, whatever depth the query asks for, and its count is their number.
pub list_handler-Permitted :
    {Disk : Type 0} (cfg : EngineConfig) (user : Option Text) (url recursive max_depth : Text)
    (now set_at : ℕ) (w : World Disk) (r : DirectoryListingResponse)
    → (list_handler cfg user url recursive max_depth now set_at w).0.1 ≡ some r
    → ((parse_file_path (root ++ url)).is_invalid ≡ false)
      × Permitted cfg user
          (engine_path (parse_file_path (root ++ url)))
          w
          r
          (list_handler cfg user url recursive max_depth now set_at w).0
unfolding list_handler
list_handler-Permitted cfg user url recursive max_depth now set_at w r h =
    unless-Permitted cfg r (engine_path (parse_file_path (root ++ url)))
      (text_eq recursive (codes "true")) (max_depth_of max_depth) (max_depth_of-Small max_depth) now
      set_at w user (parse_file_path (root ++ url)).is_invalid h
