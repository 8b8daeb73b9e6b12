-- ===== src/Engine/Listing/Examples.antt =====
-- A directory with a file in it (core/directory_operations.go).
use callfs.Prelude.{◌≡◌, ◌↔◌, refl, codes, Text, pos, negsuc, [], ◌∷◌, ok}
use callfs.Metadata.{Metadata, directory}
use callfs.Paths.{root}
use callfs.Raft.{State, empty}
use callfs.Engine.Examples.{old}
use callfs.Engine.Listing.{list_directory_recursive, or_nothing}
use callfs.Engine.Listing.Below.{In, Under, list_directory_recursive-Under}

abbrev entry : Text → Text → Metadata
entry path type = record old { path = path; type = type }

abbrev top : Metadata
top = entry root directory

abbrev folder : Metadata
folder = entry (codes "/d") directory

abbrev leaf : Metadata
leaf = entry (codes "/d/a") (codes "file")

abbrev state : State
state = record empty {
  metadata_by_path = (root, top) ∷ (folder.path, folder) ∷ (leaf.path, leaf) ∷ [];
}

lists_both : list_directory_recursive root (pos 1) state ≡ ok (folder ∷ leaf ∷ [])
unfolding list_directory_recursive callfs.Engine.Listing.list_levels
    callfs.Engine.Listing.list_directory callfs.Raft.Store.get callfs.Prelude.Map.get
    callfs.Prelude.text_eq callfs.Raft.Store.list_children callfs.Raft.Store.children_of
    callfs.Prelude.cut_last callfs.Raft.Store.insert_by_path
lists_both = refl

lists_one : list_directory_recursive root (pos 0) state ≡ ok (folder ∷ [])
unfolding list_directory_recursive callfs.Engine.Listing.list_levels
    callfs.Engine.Listing.list_directory callfs.Raft.Store.get callfs.Prelude.Map.get
    callfs.Prelude.text_eq callfs.Raft.Store.list_children callfs.Raft.Store.children_of
    callfs.Prelude.cut_last callfs.Raft.Store.insert_by_path
lists_one = refl

list_directory_recursive-Under_example :
    (In leaf (or_nothing (list_directory_recursive root (pos 1) state)) ↔ Under state 2 root leaf)
    × (In leaf (or_nothing (list_directory_recursive root (negsuc 1) state))
        ↔ Under state 101 root leaf)
list_directory_recursive-Under_example = list_directory_recursive-Under state root 1 leaf
