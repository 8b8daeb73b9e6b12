-- ===== src/Engine/Create/Examples.antt =====
-- A file below a directory that is not there yet (core/file_operations.go).
use callfs.Prelude.{arith, Text, codes, Option, none, some, [], Result, ok}
use callfs.Cache
use callfs.Cache.{new_metadata_cache}
use callfs.Prelude.Map
use callfs.Raft.{empty}
use callfs.Engine.{Backend, Call, World}
use callfs.Engine.Examples.{old, cfg, Disk, open_file, write, call, remove_blob}
use callfs.Engine.Directories.{Answer, create_directory}
use callfs.Engine.Directories.Terminates.{Returns}
use callfs.Engine.Tree.{IsTree}
use callfs.Engine.Create.{create_file, create_erasure_metadata}
use callfs.Engine.Create.Terminates.{create-Returns}
use callfs.Engine.Create.Tree.{ReturnsTree, create-IsTree}

abbrev path : Text
path = codes "/d/a"

abbrev make_dir : Backend → Text → Disk → Result (Unit {0}) × Disk
make_dir _ name disk = (ok tt, Map.put name [] disk)

abbrev calls : Text → Call
calls parent = call

abbrev blank : World Disk
blank = record { store = empty; cache = new_metadata_cache 300 10; locks = []; disk = [] }

abbrev world_of : Option (Answer Disk) → World Disk
world_of none = blank
world_of (some (r, w)) = w

abbrev made : World Disk
made = world_of (
    create_file cfg open_file write write make_dir remove_blob calls call path (codes "x") 1 old
      blank)

create-Returns_example :
    Returns (
      create_file cfg open_file write write make_dir remove_blob calls call path
        (codes "x")
        1
        old
        blank)
    × Returns (create_directory cfg make_dir remove_blob calls path old blank)
    × Returns (
        create_erasure_metadata cfg open_file write write make_dir remove_blob calls call path old
          blank)
create-Returns_example =
    create-Returns cfg open_file write write make_dir remove_blob calls call path (codes "x") 1 old
      blank

nothing_there : IsTree blank.store
unfolding Map.get
nothing_there k (md, e) = absurd (ground arith)

create-IsTree_example :
    ReturnsTree cfg open_file write write make_dir remove_blob calls call (
      create_file cfg open_file write write make_dir remove_blob calls call path
        (codes "x")
        1
        old
        blank)
    × ReturnsTree cfg open_file write write make_dir remove_blob calls call
        (create_directory cfg make_dir remove_blob calls path old blank)
    × ReturnsTree cfg open_file write write make_dir remove_blob calls call (
        create_erasure_metadata cfg open_file write write make_dir remove_blob calls call path old
          blank)
create-IsTree_example =
    create-IsTree cfg open_file write write make_dir remove_blob calls call path (codes "x") 1 old
      blank nothing_there
