-- ===== src/Engine/Directories/Terminates.antt =====
-- core/backend_selection.go: the recursion of `ensureParentDirectories`, through `CreateDirectory` too,
-- ends: every path that it comes to is shorter than the one before.
use callfs.Prelude.{
  ℕ, zero, suc, ◌<◌, ◌≡◌, refl, arith, Text, text_eq, text_eq_iff, ◌⊎◌, Result-cases, length, Bool,
  Bool-cases, true, false, Option, none, some, inl, inr, Result, ok, err,
}
use callfs.Metadata.{Metadata}
use callfs.Paths.{root, dot, dir}
use callfs.Paths.Shorter.{dir-shorter}
use callfs.Locks.{Locks}
use callfs.Raft.Store
use callfs.Engine.{EngineConfig, Backend, Call, World}
use callfs.Engine.Directories.{
  Answer, unlocked, exists_now, is_top, parent_metadata, or_localfs, directory_parented,
  directory_locked, on_directory_lock, create_directory_with, then_create, ensure_parents, dir_key,
}

abbrev pub Returns {ℓ} : {A : Type ℓ} → Option A → Type ℓ
Returns {A = A} o = (a : A) × (o ≡ some a)

below_top :
    (parent : Text) (n : ℕ)
    → is_top parent ≡ false
    → (parent ≡ root) ⊎ ((parent ≡ dot) ⊎ (length parent < n))
    → length parent < n
unfolding is_top text_eq
below_top parent n below (inl e) = absurd (ground (arith, text_eq_iff parent root))
below_top parent n below (inr (inl e)) = absurd (ground (arith, text_eq_iff parent dot))
below_top parent n below (inr (inr l)) = l

module _ {Disk : Type 0} where
  pub unlocked-Returns :
      (key : Text) (call : Call) (o : Option (Answer Disk))
      → Returns o
      → Returns (unlocked key call o)
  unfolding unlocked
  unlocked-Returns key call none (a, e) = absurd (ground arith)
  unlocked-Returns key call (some (r, w)) h = (_, refl)

  exists_now-Returns : (o : Option (Answer Disk)) → Returns o → Returns (exists_now o)
  unfolding exists_now
  exists_now-Returns none (a, e) = absurd (ground arith)
  exists_now-Returns (some (ok t, w)) h = (_, refl)
  exists_now-Returns (some (err e, w)) h = (_, refl)

module _ {Disk : Type 0} (cfg : EngineConfig)
    (make_dir remove_blob : Backend → Text → Disk → Result (Unit {0}) × Disk)
    (calls : Text → Call) where
  parented-Returns :
      (path : Text) (md : Metadata) (o : Option (Answer Disk))
      → Returns o
      → Returns (directory_parented cfg make_dir remove_blob calls path md o)
  unfolding directory_parented
  parented-Returns path md none (a, e) = absurd (ground arith)
  parented-Returns path md (some (err e, w)) h = (_, refl)
  parented-Returns path md (some (ok t, w)) h = (_, refl)

  module _ (parents : World Disk → Option (Answer Disk))
      (returns : (w : World Disk) → Returns (parents w)) where
    locked-Returns :
        (path : Text) (md : Metadata) (w : World Disk) (found : Result Metadata)
        → Returns (directory_locked cfg make_dir remove_blob calls parents path md w found)
    unfolding directory_locked
    locked-Returns path md w (ok x) = (_, refl)
    locked-Returns path md w (err e) = parented-Returns path md (parents w) (returns w)

    on_lock-Returns :
        (path : Text) (md : Metadata) (w : World Disk) (r : Result Bool × Locks)
        → Returns (on_directory_lock cfg make_dir remove_blob calls parents path md w r)
    unfolding on_directory_lock
    on_lock-Returns path md w (err e, l) = (_, refl)
    on_lock-Returns path md w (ok false, l) = (_, refl)
    on_lock-Returns path md w (ok true, l) =
        unlocked-Returns (dir_key path) (calls path) _
          (locked-Returns path md (record w { locks = l }) (Store.get path w.store))

    pub create_directory_with-Returns :
        (path : Text) (md : Metadata) (w : World Disk)
        → Returns (create_directory_with cfg make_dir remove_blob calls parents path md w)
    unfolding create_directory_with
    create_directory_with-Returns path md w = on_lock-Returns path md w _

    then_create-Returns :
        (backend_type parent : Text) (o : Option (Answer Disk))
        → Returns o
        → Returns (then_create cfg make_dir remove_blob calls parents backend_type parent o)
    unfolding then_create
    then_create-Returns backend_type parent none (a, e) = absurd (ground arith)
    then_create-Returns backend_type parent (some (err e, w)) h = (_, refl)
    then_create-Returns backend_type parent (some (ok t, w)) h =
        exists_now-Returns _
          (create_directory_with-Returns parent (parent_metadata parent backend_type) w)

  -- With more fuel than the path has runes, `ensureParentDirectories` returns.
  pub ensure_parents-Returns :
      (fuel : ℕ) (backend_type path : Text) (w : World Disk)
      → length path < fuel
      → Returns (ensure_parents cfg make_dir remove_blob calls fuel backend_type path w)
  unfolding ensure_parents
  ensure_parents-Returns zero backend_type path w h = absurd (omega arith)
  ensure_parents-Returns (suc fuel) backend_type path w h = elim (Bool-cases (is_top (dir path))) [
    | inl top ↦ rw (top, ensure_parents) (_, refl)
    | inr below ↦ elim (Result-cases (Store.get (dir path) w.store)) [
      | inl (md, there) ↦ rw (below, ensure_parents, there) (_, refl)
      | inr (e, missing) ↦
          let less : length (dir path) < fuel =
            omega (arith, below_top (dir path) (length path) below (dir-shorter path)) in
          rw (below, ensure_parents, missing)
            (then_create-Returns
              (ensure_parents cfg make_dir remove_blob calls fuel (or_localfs backend_type)
                (dir path))
              (λ w'. ensure_parents-Returns fuel (or_localfs backend_type) (dir path) w' less)
              (or_localfs backend_type) (dir path) _
              (ensure_parents-Returns fuel backend_type (dir path) w less))
    ]
  ]
