-- ===== src/Engine/Create/Tree.antt =====
-- core/file_operations.go and core/directory_operations.go: the store's tree under the operations that
-- create, and what a client reads after `CreateFile`.
use callfs.Prelude.{ℕ, suc, ◌≡◌, refl, arith, Text, length, Option, none, some, Result, ok, err}
use callfs.Metadata.{Metadata, localfs}
use callfs.Cache
use callfs.Raft.{State}
use callfs.Raft.Store.{create}
use callfs.Engine.{EngineConfig, Backend, Call, World}
use callfs.Engine.Directories.{Answer, stamped, create_directory, ensure_parents}
use callfs.Engine.Tree.{Grows, Grows-trans, IsTree, create-Grows}
use callfs.Engine.Directories.Tree.{
  Holds, Ensured, Created, create_directory_with-Created, ensure_parents-Ensured,
}
use callfs.Engine.Directories.Terminates.{Returns}
use callfs.Engine.Create.Terminates.{create-Returns}
use callfs.Engine.Create.{create_file, erasure_stored, erasure_parented, create_erasure_metadata}
use callfs.Engine.Create.Made.{Made, create_file-Made}

module _ {Disk : Type 0} (cfg : EngineConfig) (open_file : Backend → Text → Disk → Result Text)
    (update_blob create_blob : Backend → Text → Text → ℕ → Disk → Result (Unit {0}) × Disk)
    (make_dir remove_blob : Backend → Text → Disk → Result (Unit {0}) × Disk) (calls : Text → Call)
    (call : Call) where
  erasure_stored-Grows :
      (path : Text) (w : World Disk) (r : Result (Unit {0}) × State)
      → Grows w.store r.1
      → Grows w.store
          (erasure_stored cfg open_file update_blob create_blob make_dir remove_blob calls call path
            w r).1.store
  unfolding erasure_stored
  erasure_stored-Grows path w (err e, s) g = g
  erasure_stored-Grows path w (ok t, s) g = g

  coded-Grows :
      (path : Text) (md : Metadata) (w : World Disk) (o : Option (Answer Disk))
      → Holds (Ensured path w) o
      → Holds
          (λ a. Grows w.store a.1.store)
          (erasure_parented cfg open_file update_blob create_blob make_dir remove_blob calls call
            path md o)
  unfolding erasure_parented
  coded-Grows path md w none h = tt
  coded-Grows path md w (some (err e, v)) ((g, same), there) = g
  coded-Grows path md w (some (ok t, v)) ((g, same), there) =
      let new : Metadata = record md {
        path = path;
        created_at = call.mtime;
        updated_at = call.updated_at;
      } in
      Grows-trans g (
        erasure_stored-Grows path v (create call.outcome new v.store)
          (create-Grows call.outcome new v.store (there refl)))

  -- the call returns, with a store in which every record's parent has a record
  abbrev pub ReturnsTree : Option (Answer Disk) → Type 0
  ReturnsTree o = (a : Answer Disk) × (o ≡ some a) × IsTree a.1.store

  with_tree :
      (w : World Disk) (o : Option (Answer Disk))
      → IsTree w.store
      → Returns o
      → Holds (λ a. Grows w.store a.1.store) o
      → ReturnsTree o
  with_tree w none t (a, e) h = absurd (ground arith)
  with_tree w (some a) t r h = (a, refl, h.tree t)

  Made-Grows :
      (path : Text) (md : Metadata) (w : World Disk) (o : Option (Answer Disk))
      → Holds
          (Made cfg open_file update_blob create_blob make_dir remove_blob calls call path md w)
          o
      → Holds (λ a. Grows w.store a.1.store) o
  Made-Grows path md w none h = tt
  Made-Grows path md w (some a) h = h.0

  Created-Grows :
      (path : Text) (w : World Disk) (o : Option (Answer Disk))
      → Holds (Created path w) o
      → Holds (λ a. Grows w.store a.1.store) o
  Created-Grows path w none h = tt
  Created-Grows path w (some a) h = h.0.0

  -- In a store where the directory of every record's path has a record, "/" and "." apart, `CreateFile`,
  -- `CreateDirectory` and `CreateErasureMetadata` leave such a store, whatever they answer and whatever the
  -- locks, the backends and Raft answer on the way.
  pub create-IsTree :
      (path bytes : Text) (size : ℕ) (md : Metadata) (w : World Disk)
      → IsTree w.store
      → ReturnsTree (
          create_file cfg open_file update_blob create_blob make_dir remove_blob calls call path
            bytes size md w)
        × ReturnsTree (create_directory cfg make_dir remove_blob calls path md w)
        × ReturnsTree (
            create_erasure_metadata cfg open_file update_blob create_blob make_dir remove_blob calls
              call path md w)
  unfolding create_directory create_erasure_metadata
  create-IsTree path bytes size md w t =
      let (file_back, dir_back, coded_back) =
        create-Returns cfg open_file update_blob create_blob make_dir remove_blob calls call path
          bytes size md w in
      (
        with_tree w _ t file_back (
            Made-Grows path (stamped cfg call path size md) w _ (
              create_file-Made cfg open_file update_blob create_blob make_dir remove_blob calls call
                path size md bytes w)),
        with_tree w _ t dir_back (
            Created-Grows path w _ (
              create_directory_with-Created cfg make_dir remove_blob calls
                (ensure_parents cfg make_dir remove_blob calls (suc (length path)) md.backend_type
                  path)
                path
                (λ w'.
                  ensure_parents-Ensured cfg make_dir remove_blob calls (suc (length path))
                    md.backend_type path w')
                md w)),
        with_tree w _ t coded_back (
            coded-Grows path md w _ (
              ensure_parents-Ensured cfg make_dir remove_blob calls (suc (length path)) localfs path
                w)),
      )
