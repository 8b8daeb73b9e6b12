-- ===== src/Engine/Directories/Tree.antt =====
-- core/backend_selection.go and core/directory_operations.go: what `ensureParentDirectories` and
-- `CreateDirectory` keep of the store's shape, the parent of every record being there, on every branch.
use callfs.Prelude.{
  ℕ, zero, suc, ◌≡◌, ◌∙◌, refl, arith, Text, if◌then◌else◌, Bool, Bool-cases, true, false, Option,
  none, some, inl, inr, Result, ok, err, eq_already_exists, Result-cases, Error,
}
use callfs.Prelude.Map
use callfs.Metadata.{Metadata}
use callfs.Paths.{dir}
use callfs.Cache.{MetadataCache}
use callfs.Locks.{Locks}
use callfs.Raft.{State}
use callfs.Raft.Store.{Outcome, get, create}
use callfs.Engine.{EngineConfig, Backend, Call, World}
use callfs.Engine.Update.{get_found}
use callfs.Engine.Directories.{
  Answer, unlocked, exists_now, is_top, parent_metadata, or_localfs, stamped, stamped_dir,
  directory_stored, directory_made, directory_parented, directory_locked, on_directory_lock,
  create_directory_with, then_create, ensure_parents, dir_key,
}
use callfs.Engine.Tree.{
  Present, HasParent, Grows, Grows-refl, Grows-trans, create-Grows, create-Present,
}

abbrev pub Holds {ℓ κ} : {A : Type ℓ} → (A → Type κ) → Option A → Type κ
Holds P none = Unit
Holds P (some a) = P a

-- the directory itself is there: it was created, or stood there before
abbrev stands : Result (Unit {0}) → Bool
stands (ok _) = true
stands (err e) = eq_already_exists e

pub Extends-trans :
    {s t u : State} {a b c : MetadataCache}
    → Grows s t × (b ≡ a)
    → Grows t u × (c ≡ b)
    → Grows s u × (c ≡ a)
Extends-trans (g, c) (h, d) = (Grows-trans g h, d ∙ c)

module _ {Disk : Type 0} where
  -- what was there is there, the tree is kept, and the cache is as it was
  abbrev pub Extends : World Disk → World Disk → Type 0
  Extends w w' = Grows w.store w'.store × (w'.cache ≡ w.cache)

  pub Extends-refl : (w : World Disk) → Extends w w
  Extends-refl w = (Grows-refl w.store, refl)

  abbrev pub Ensured : Text → World Disk → Answer Disk → Type 0
  Ensured path w a = Extends w a.1 × (a.0 ≡ ok tt → HasParent path a.1.store)

  abbrev pub Created : Text → World Disk → Answer Disk → Type 0
  Created path w a = Extends w a.1 × (stands a.0 ≡ true → Present path a.1.store)

  abbrev Standing : Text → World Disk → Answer Disk → Type 0
  Standing path w a = Extends w a.1 × (a.0 ≡ ok tt → Present path a.1.store)

  unlocked-Created :
      (path key : Text) (call : Call) (w : World Disk) (o : Option (Answer Disk))
      → Holds (Created path w) o
      → Holds (Created path w) (unlocked key call o)
  unfolding unlocked
  unlocked-Created path key call w none h = tt
  unlocked-Created path key call w (some (r, v)) h = h

  exists_now-Standing :
      (path : Text) (w v : World Disk) (o : Option (Answer Disk))
      → Extends w v
      → Holds (Created path v) o
      → Holds (Standing path w) (exists_now o)
  unfolding exists_now
  exists_now-Standing path w v none g h = tt
  exists_now-Standing path w v (some (ok tt, w')) g (more, there) =
      (Extends-trans g more, λ _. there refl)
  exists_now-Standing path w v (some (err e, w')) g (more, there) =
      (Extends-trans g more, λ q. there (exists_only e q))
    where
      exists_only :
          (x : Error)
          → (if eq_already_exists x then ok tt else err x) ≡ ok (tt {0})
          → eq_already_exists x ≡ true
      exists_only x q = elim (Bool-cases (eq_already_exists x)) [
        | inl t ↦ t
        | inr f ↦ absurd (ground arith)
      ]

module _ {Disk : Type 0} (cfg : EngineConfig)
    (make_dir remove_blob : Backend → Text → Disk → Result (Unit {0}) × Disk)
    (calls : Text → Call) where
  stored-Created :
      (path : Text) (md : Metadata) (w : World Disk)
      → HasParent path w.store
      → (o : Outcome)
      → Created path w (
          directory_stored cfg make_dir remove_blob calls path md w
            (create o (stamped_dir cfg (calls path) path md) w.store))
  unfolding directory_stored stamped
  stored-Created path md w parent o =
      by_answer (create o (stamped_dir cfg (calls path) path md) w.store)
        (create-Grows o (stamped_dir cfg (calls path) path md) w.store parent)
        (λ q. create-Present o (stamped_dir cfg (calls path) path md) w.store q)
    where
      by_answer :
          (r : Result (Unit {0}) × State)
          → Grows w.store r.1
          → (r.0 ≡ ok tt
              → Map.get path r.1.metadata_by_path ≡ some (stamped_dir cfg (calls path) path md))
          → Created path w (directory_stored cfg make_dir remove_blob calls path md w r)
      by_answer (ok tt, s) g there = ((g, refl), λ _. (_, there refl))
      by_answer (err e, s) g there = ((g, refl), λ q. absurd (ground arith))

  made-Created :
      (path : Text) (md : Metadata) (w : World Disk) (r : Result (Unit {0}) × Disk)
      → HasParent path w.store
      → Created path w (directory_made cfg make_dir remove_blob calls path md w r)
  unfolding directory_made
  made-Created path md w (err e, disk) parent = (Extends-refl w, λ q. absurd (ground arith))
  made-Created path md w (ok tt, disk) parent =
      stored-Created path md (record w { disk = disk }) parent (calls path).outcome

  parented-Created :
      (path : Text) (md : Metadata) (w : World Disk) (o : Option (Answer Disk))
      → Holds (Ensured path w) o
      → Holds (Created path w) (directory_parented cfg make_dir remove_blob calls path md o)
  unfolding directory_parented
  parented-Created path md w none h = tt
  parented-Created path md w (some (err e, v)) (g, there) = (g, λ q. absurd (ground arith))
  parented-Created path md w (some (ok tt, v)) (g, there) =
      let c =
        made-Created path md v
          (make_dir (callfs.Engine.select_backend_by_type md.backend_type)
            (callfs.Engine.relative path) v.disk)
          (there refl) in
      (Extends-trans g c.0, c.1)

  module _ (parents : World Disk → Option (Answer Disk)) (path : Text)
      (ensures : (w : World Disk) → Holds (Ensured path w) (parents w)) where
    locked-Created :
        (md : Metadata) (w : World Disk) (found : Result Metadata)
        → get path w.store ≡ found
        → Holds
            (Created path w)
            (directory_locked cfg make_dir remove_blob calls parents path md w found)
    unfolding directory_locked
    locked-Created md w (ok x) e = (Extends-refl w, λ _. (x, get_found path w.store e))
    locked-Created md w (err x) e = parented-Created path md w (parents w) (ensures w)

    on_lock-Created :
        (md : Metadata) (w : World Disk) (r : Result Bool × Locks)
        → Holds
            (Created path w)
            (on_directory_lock cfg make_dir remove_blob calls parents path md w r)
    unfolding on_directory_lock
    on_lock-Created md w (err e, l) = (Extends-refl w, λ q. absurd (ground arith))
    on_lock-Created md w (ok false, l) = (Extends-refl w, λ q. absurd (ground arith))
    on_lock-Created md w (ok true, l) =
        unlocked-Created path (dir_key path) (calls path) w _
          (locked-Created md (record w { locks = l }) (get path w.store) refl)

    pub create_directory_with-Created :
        (md : Metadata) (w : World Disk)
        → Holds
            (Created path w)
            (create_directory_with cfg make_dir remove_blob calls parents path md w)
    unfolding create_directory_with
    create_directory_with-Created md w = on_lock-Created md w _

    then_create-Standing :
        (backend_type : Text) (w : World Disk) (o : Option (Answer Disk))
        → Holds (Ensured path w) o
        → Holds
            (Standing path w)
            (then_create cfg make_dir remove_blob calls parents backend_type path o)
    unfolding then_create
    then_create-Standing backend_type w none h = tt
    then_create-Standing backend_type w (some (err e, v)) (g, there) =
        (g, λ q. absurd (ground arith))
    then_create-Standing backend_type w (some (ok tt, v)) (g, there) =
        exists_now-Standing path w v _ g
          (create_directory_with-Created (parent_metadata path backend_type) v)

  -- `ensureParentDirectories` keeps what is there and the tree, whatever it answers; without an error, the
  -- parent is there.
  pub ensure_parents-Ensured :
      (fuel : ℕ) (backend_type path : Text) (w : World Disk)
      → Holds
          (Ensured path w)
          (ensure_parents cfg make_dir remove_blob calls fuel backend_type path w)
  unfolding ensure_parents
  ensure_parents-Ensured zero backend_type path w = tt
  ensure_parents-Ensured (suc fuel) backend_type path w = elim (Bool-cases (is_top (dir path))) [
    | inl top ↦ rw (top, ensure_parents) (Extends-refl w, λ _. inl top)
    | inr below ↦ elim (Result-cases (get (dir path) w.store)) [
      | inl (md, there) ↦
          rw (below, ensure_parents, there)
            (Extends-refl w, λ _. inr (md, get_found (dir path) w.store there))
      | inr (e, missing) ↦
          rw (below, ensure_parents, missing)
            (parent_standing _ (
              then_create-Standing
                (ensure_parents cfg make_dir remove_blob calls fuel (or_localfs backend_type)
                  (dir path))
                (dir path)
                (λ w'. ensure_parents-Ensured fuel (or_localfs backend_type) (dir path) w')
                (or_localfs backend_type) w _
                (ensure_parents-Ensured fuel backend_type (dir path) w)))
    ]
  ]
    where
      parent_standing :
          (o : Option (Answer Disk)) → Holds (Standing (dir path) w) o → Holds (Ensured path w) o
      parent_standing none h = tt
      parent_standing (some a) (g, there) = (g, λ q. inr (there q))
