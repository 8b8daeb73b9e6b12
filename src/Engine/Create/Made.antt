-- ===== src/Engine/Create/Made.antt =====
-- core/file_operations.go: what `CreateFile` does to the store and the cache, on every branch.
use callfs.Prelude.{
  ℕ, suc, ◌≡◌, refl, ap, ◌∙◌, arith, Text, length, Bool, true, false, Option, none, inl, inr, some,
  Result, ok, err,
}
use callfs.Prelude.Map
use callfs.Metadata.{Metadata}
use callfs.Paths.{dir}
use callfs.Cache
use callfs.Cache.{MetadataCache}
use callfs.Locks.{Locks}
use callfs.Raft.{State}
use callfs.Raft.Store.{get, create}
use callfs.Engine.{
  EngineConfig, Backend, Call, World, lock_key, replicate_file, relative, select_backend_by_type,
}
use callfs.Engine.Directories.{Answer, unlocked, stamped}
use callfs.Engine.Tree.{Grows, Grows-refl, Grows-trans, HasParent, create-Grows, create-Present}
use callfs.Engine.Directories.Tree.{Holds, Ensured, ensure_parents-Ensured}
use callfs.Engine.Create.{
  file_replicated, file_stored, file_written, file_parented, file_locked, on_file_lock, create_file,
}

kept : (path : Text) {s t : State} → Grows s t → HasParent path s → HasParent path t
kept path g (inl top) = inl top
kept path g (inr there) = inr (g.keeps (dir path) there)

module _ {Disk : Type 0} (cfg : EngineConfig) (open_file : Backend → Text → Disk → Result Text)
    (update_blob create_blob : Backend → Text → Text → ℕ → Disk → Result (Unit {0}) × Disk)
    (make_dir remove_blob : Backend → Text → Disk → Result (Unit {0}) × Disk) (calls : Text → Call)
    (call : Call) where
  -- what a creation that answers without an error has left behind
  pub record Stored (path : Text) (md : Metadata) (cache : MetadataCache) (w : World Disk)
      : Type 0 where
    pub known : Map.get path w.store.metadata_by_path ≡ some md
    pub parent : HasParent path w.store
    pub dropped : w.cache ≡ Cache.invalidate_prefix (dir path) cache

  abbrev pub Made : Text → Metadata → World Disk → Answer Disk → Type 0
  Made path md w a = Grows w.store a.1.store × (a.0 ≡ ok tt → Stored path md w.cache a.1)

  with_cache :
      {path : Text} {md : Metadata} {c d : MetadataCache} {w : World Disk}
      → c ≡ d
      → Stored path md c w
      → Stored path md d w
  with_cache {path = path} same st = record {
    known = st.known;
    parent = st.parent;
    dropped = st.dropped ∙ ap (λ c. Cache.invalidate_prefix (dir path) c) same;
  }

  replicated-Made :
      (path : Text) (md : Metadata) (w : World Disk) (r : Result (Unit {0}) × Disk)
      → HasParent path w.store
      → Map.get path w.store.metadata_by_path ≡ some md
      → Made path md w (
          file_replicated cfg open_file update_blob create_blob make_dir remove_blob calls call path
            w r)
  unfolding file_replicated
  replicated-Made path md w (err e, disk) parent known =
      (Grows-refl w.store, λ q. absurd (ground arith))
  replicated-Made path md w (ok t, disk) parent known =
      (Grows-refl w.store, λ q. record { known = known; parent = parent; dropped = refl })

  module _ (path : Text) (size : ℕ) (md : Metadata) where
    stored-Made :
        (w : World Disk)
        → HasParent path w.store
        → Made path (stamped cfg call path size md) w (
            file_stored cfg open_file update_blob create_blob make_dir remove_blob calls call path
              size md w
              (create call.outcome (stamped cfg call path size md) w.store))
    unfolding file_stored stamped
    stored-Made w parent =
        let new = stamped cfg call path size md in
        by_answer (create call.outcome new w.store) (create-Grows call.outcome new w.store parent)
          (λ q. create-Present call.outcome new w.store q)
      where
        by_answer :
            (r : Result (Unit {0}) × State)
            → Grows w.store r.1
            → (r.0 ≡ ok tt
                → Map.get path r.1.metadata_by_path ≡ some (stamped cfg call path size md))
            → Made path (stamped cfg call path size md) w (
                file_stored cfg open_file update_blob create_blob make_dir remove_blob calls call
                  path size md w r)
        by_answer (err e, s) g there = (g, λ q. absurd (ground arith))
        by_answer (ok t, s) g there =
            let m =
              replicated-Made path (stamped cfg call path size md) (record w { store = s })
                (replicate_file cfg open_file update_blob create_blob path size md.backend_type
                  w.disk)
                (kept path g parent) (there refl) in
            (Grows-trans g m.0, m.1)

    written-Made :
        (w : World Disk) (r : Result (Unit {0}) × Disk)
        → HasParent path w.store
        → Made path (stamped cfg call path size md) w (
            file_written cfg open_file update_blob create_blob make_dir remove_blob calls call path
              size md w r)
    unfolding file_written
    written-Made w (err e, disk) parent = (Grows-refl w.store, λ q. absurd (ground arith))
    written-Made w (ok t, disk) parent = stored-Made (record w { disk = disk }) parent

    parented-Made :
        (bytes : Text) (w : World Disk) (o : Option (Answer Disk))
        → Holds (Ensured path w) o
        → Holds (Made path (stamped cfg call path size md) w) (
            file_parented cfg open_file update_blob create_blob make_dir remove_blob calls call path
              bytes size md o)
    unfolding file_parented
    parented-Made bytes w none h = tt
    parented-Made bytes w (some (err e, v)) (g, there) = (g.0, λ q. absurd (ground arith))
    parented-Made bytes w (some (ok t, v)) ((g, same), there) =
        let m =
          written-Made v
            (create_blob (select_backend_by_type md.backend_type) (relative path) bytes size v.disk)
            (there refl) in
        (Grows-trans g m.0, λ q. with_cache same (m.1 q))

    locked-Made :
        (bytes : Text) (w : World Disk) (found : Result Metadata)
        → Holds (Made path (stamped cfg call path size md) w) (
            file_locked cfg open_file update_blob create_blob make_dir remove_blob calls call path
              bytes size md w found)
    unfolding file_locked
    locked-Made bytes w (ok x) = (Grows-refl w.store, λ q. absurd (ground arith))
    locked-Made bytes w (err x) = parented-Made bytes w _ (
        ensure_parents-Ensured cfg make_dir remove_blob calls (suc (length path)) md.backend_type
          path w)

    unlocked-Made :
        (w : World Disk) (o : Option (Answer Disk))
        → Holds (Made path (stamped cfg call path size md) w) o
        → Holds (Made path (stamped cfg call path size md) w) (unlocked (lock_key path) call o)
    unfolding unlocked
    unlocked-Made w none h = tt
    unlocked-Made w (some (r, v)) (g, m) = (
      g,
      λ q. let st = m q in record { known = st.known; parent = st.parent; dropped = st.dropped },
    )

    on_lock-Made :
        (bytes : Text) (w : World Disk) (r : Result Bool × Locks)
        → Holds (Made path (stamped cfg call path size md) w) (
            on_file_lock cfg open_file update_blob create_blob make_dir remove_blob calls call path
              bytes size md w r)
    unfolding on_file_lock
    on_lock-Made bytes w (err e, l) = (Grows-refl w.store, λ q. absurd (ground arith))
    on_lock-Made bytes w (ok false, l) = (Grows-refl w.store, λ q. absurd (ground arith))
    on_lock-Made bytes w (ok true, l) =
        unlocked-Made w _ (locked-Made bytes (record w { locks = l }) (get path w.store))

    pub create_file-Made :
        (bytes : Text) (w : World Disk)
        → Holds (Made path (stamped cfg call path size md) w) (
            create_file cfg open_file update_blob create_blob make_dir remove_blob calls call path
              bytes size md w)
    unfolding create_file
    create_file-Made bytes w = on_lock-Made bytes w _
