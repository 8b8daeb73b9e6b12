-- ===== src/Locks/Examples.antt =====
-- Two clients after one lock of locks/local_manager.go.
use callfs.Prelude.{
  ◌+◌, ◌≡◌, refl, arith, Text, text_eq, codes, false, not, if◌then◌else◌, some, List, [], ◌∷◌, ok,
}
use callfs.Prelude.Map
use callfs.Locks.{
  LockEntry, Locks, local_lock_ttl, is_held, acquire, release, Action, acquiring, releasing,
  ticking,
}
use callfs.Locks.Exclusion.{grants, acquired_excludes, acquire_lem, release_ignores_owner}
use callfs.Prelude.{true}

abbrev key : Text
key = codes "file:/a"

abbrev first_holder : LockEntry
first_holder = record { expiry = 10; owner_id = codes "01" }

abbrev ran_out : Locks
ran_out = (key, first_holder) ∷ []

abbrev others : List Action
others =
    acquiring false (some (codes "03")) key 30 31
    ∷ releasing (codes "file:/b") 35
    ∷ ticking 40
    ∷ acquiring false (some (codes "04")) key 41 42
    ∷ []

acquired_excludes_example :
    grants key others (acquire false (some (codes "02")) key 20 21 ran_out).1 ≡ 0
unfolding acquire text_eq Map.get
acquired_excludes_example =
    acquired_excludes key false (some (codes "02")) 20 21 ran_out others (refl, tt) refl
      (omega arith, (refl, (omega arith, (omega arith, tt))))

second_after_expiry :
    ((acquire false (some (codes "02")) key 5 6 ran_out).0
      ≡ ok (not (is_held (Map.get key ran_out) 5)))
    × (Map.get key (acquire false (some (codes "02")) key 5 6 ran_out).1 ≡ (
        if is_held (Map.get key ran_out) 5
        then Map.get key ran_out
        else some (record { expiry = 6 + local_lock_ttl; owner_id = codes "02" })))
second_after_expiry = acquire_lem (codes "02") key 5 6 ran_out

release_ignores_owner_example :
    ((acquire false (some (codes "02")) key 20 20 ran_out).0 ≡ ok true)
    × ((acquire false
          (some (codes "03"))
          key
          22
          22
          (release key 21 (acquire false (some (codes "02")) key 20 20 ran_out).1)).0
        ≡ ok true)
unfolding Map.get text_eq
release_ignores_owner_example =
    release_ignores_owner key (codes "02") (codes "03") ran_out 20 21 22 {first = first_holder} refl
      (omega arith) (omega arith)
