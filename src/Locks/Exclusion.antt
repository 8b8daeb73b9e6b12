-- ===== src/Locks/Exclusion.antt =====
-- locks/local_manager.go: a lock that is held is granted to nobody else until it is released or its
-- expiry comes.
use callfs.Prelude.{
  ℕ, suc, ◌+◌, ◌≤◌, ◌<◌, ◌≡◌, refl, arith, Text, text_eq, text_eq_iff, text_eq_refl, if◌then◌else◌,
  Bool, Bool-cases, true, false, not, ◌&&◌, Option, none, some, inl, inr, List, [], ◌∷◌, Result, ok,
  err,
}
use callfs.Prelude.Map
use callfs.Prelude.Map.{
  get-put, get-remove, get-sweep, Distinct-put, Distinct-remove, Distinct-sweep,
}
use callfs.Locks.{
  LockEntry, Locks, local_lock_ttl, is_held, is_expired, acquire, release, cleanup, Action,
  acquiring, releasing, ticking, step,
}

-- Whether a step hands the lock `key` out.
abbrev pub granted : Result Bool → Bool
granted (ok b) = b
granted (err e) = false

abbrev pub hands_out : Text → Action → Locks → Bool
hands_out key (acquiring cancelled id k now later) locks =
    text_eq k key && granted (acquire cancelled id k now later locks).0
hands_out key (releasing k now) locks = false
hands_out key (ticking now) locks = false

unfoldable pub grants : Text → List Action → Locks → ℕ
grants key [] locks = 0
grants key (a ∷ actions) locks =
    if hands_out key a locks
    then suc (grants key actions (step a locks).1)
    else grants key actions (step a locks).1

-- The steps read the clock before `until`, and none of them releases `key`.
abbrev pub Quiet : Text → ℕ → Action → Type 0
Quiet key until (acquiring cancelled id k now later) = now < until
Quiet key until (releasing k now) = text_eq k key ≡ false
Quiet key until (ticking now) = now < until

abbrev pub AllQuiet : Text → ℕ → List Action → Type 0
AllQuiet key until [] = Unit
AllQuiet key until (a ∷ actions) = Quiet key until a × AllQuiet key until actions

abbrev pub HeldUntil : Text → ℕ → Locks → Type 0
HeldUntil key until locks = (e : LockEntry) × (Map.get key locks ≡ some e) × (e.expiry ≡ until)

acquire-Distinct :
    (cancelled : Bool) (id : Option Text) (k : Text) (now later : ℕ) (locks : Locks)
    → Map.Distinct locks
    → Map.Distinct (acquire cancelled id k now later locks).1
unfolding acquire
acquire-Distinct cancelled none k now later locks d = ground arith
acquire-Distinct cancelled (some id) k now later locks d =
    ground
      (arith, Distinct-put k (record { expiry = later + local_lock_ttl; owner_id = id }) locks d)

release-Distinct :
    (k : Text) (now : ℕ) (locks : Locks) → Map.Distinct locks → Map.Distinct (release k now locks)
unfolding release
release-Distinct k now locks d = ground (arith, Distinct-remove k locks d)

step-Distinct : (a : Action) (locks : Locks) → Map.Distinct locks → Map.Distinct (step a locks).1
unfolding step cleanup
step-Distinct (acquiring cancelled id k now later) locks d =
    acquire-Distinct cancelled id k now later locks d
step-Distinct (releasing k now) locks d = release-Distinct k now locks d
step-Distinct (ticking now) locks d = Distinct-sweep (is_expired now) locks d

-- One step while the lock is held: nobody gets it, and it stays held.
held_refuses :
    (key : Text) (until : ℕ) (a : Action) (locks : Locks)
    → HeldUntil key until locks
    → Quiet key until a
    → hands_out key a locks ≡ false
unfolding acquire
held_refuses key until (acquiring cancelled id k now later) locks (e, here, same) q =
    elim (Bool-cases (text_eq k key)) [
      | inl mine ↦ let k_is : k ≡ key = (text_eq_iff k key).0 mine in rw k_is (ground arith)
      | inr other ↦ rw other
    ]
held_refuses key until (releasing k now) locks h q = refl
held_refuses key until (ticking now) locks h q = refl

acquire-get :
    (key : Text) (cancelled : Bool) (id : Option Text) (k : Text) (now later : ℕ) (locks : Locks)
    → {e : LockEntry} → Map.get key locks ≡ some e
    → now < e.expiry
    → Map.get key (acquire cancelled id k now later locks).1 ≡ some e
unfolding acquire
acquire-get key cancelled none k now later locks here lt = ground arith
acquire-get key cancelled (some id) k now later locks {e} here lt =
    let new : LockEntry = record { expiry = later + local_lock_ttl; owner_id = id } in
    elim (Bool-cases (text_eq k key)) [
      | inl mine ↦ let k_is : k ≡ key = (text_eq_iff k key).0 mine in rw k_is (ground arith)
      | inr other ↦ ground (arith, get-put k key new locks)
    ]

held_stays :
    (key : Text) (until : ℕ) (a : Action) (locks : Locks)
    → Map.Distinct locks
    → HeldUntil key until locks
    → Quiet key until a
    → HeldUntil key until (step a locks).1
unfolding step acquire release cleanup
held_stays key until (acquiring cancelled id k now later) locks d (e, here, same) q =
    (e, acquire-get key cancelled id k now later locks here (ground arith), same)
held_stays key until (releasing k now) locks d (e, here, same) q =
    (e, ground (arith, get-remove k key locks), same)
held_stays key until (ticking now) locks d (e, here, same) q =
    (e, ground (arith, get-sweep (is_expired now) key locks d), same)

acquired_holds :
    (cancelled : Bool) (id : Option Text) (key : Text) (now later : ℕ) (locks : Locks)
    → (acquire cancelled id key now later locks).0 ≡ ok true
    → HeldUntil key (later + local_lock_ttl) (acquire cancelled id key now later locks).1
unfolding acquire
acquired_holds cancelled none key now later locks won = absurd (ground arith)
acquired_holds cancelled (some id) key now later locks won =
    let new : LockEntry = record { expiry = later + local_lock_ttl; owner_id = id } in
    (new, ground (arith, get-put key key new locks, text_eq_refl key), refl)

held_excludes :
    (key : Text) (until : ℕ) (actions : List Action) (locks : Locks)
    → Map.Distinct locks
    → HeldUntil key until locks
    → AllQuiet key until actions
    → grants key actions locks ≡ 0
unfolding grants
held_excludes key until [] locks d h q = refl
held_excludes key until (a ∷ actions) locks d h (q, qs) = rw (held_refuses key until a locks h q) (
    held_excludes key until actions (step a locks).1 (step-Distinct a locks d)
      (held_stays key until a locks d h q) qs)

-- After an acquisition has succeeded, no step that reads the clock before the new expiry gets the same
-- lock, however many clients try and whatever else they do, as long as nobody releases it.
pub acquired_excludes :
    (key : Text) (cancelled : Bool) (id : Option Text) (now later : ℕ) (locks : Locks)
    (actions : List Action)
    → Map.Distinct locks
    → (acquire cancelled id key now later locks).0 ≡ ok true
    → AllQuiet key (later + local_lock_ttl) actions
    → grants key actions (acquire cancelled id key now later locks).1 ≡ 0
acquired_excludes key cancelled id now later locks actions d won quiet =
    held_excludes key (later + local_lock_ttl) actions (acquire cancelled id key now later locks).1
      (acquire-Distinct cancelled id key now later locks d)
      (acquired_holds cancelled id key now later locks won) quiet

-- An acquisition that is not cancelled and has an owner id answers true exactly if the lock is free or
-- its expiry has come, and then holds the lock for the time to live.
pub acquire_lem :
    (id key : Text) (now later : ℕ) (locks : Locks)
    → ((acquire false (some id) key now later locks).0 ≡ ok (not (is_held (Map.get key locks) now)))
      × (Map.get key (acquire false (some id) key now later locks).1 ≡ (
          if is_held (Map.get key locks) now
          then Map.get key locks
          else some (record { expiry = later + local_lock_ttl; owner_id = id })))
unfolding acquire
acquire_lem id key now later locks =
    let new : LockEntry = record { expiry = later + local_lock_ttl; owner_id = id } in
    ground (arith, get-put key key new locks, text_eq_refl key)

-- A holder whose lock ran out and was taken by another client can release that client's lock: the
-- owner ids play no part. The next client is then let in while the second one still holds the lock.
pub release_ignores_owner :
    (key second third : Text) (locks : Locks) (t2 t3 t4 : ℕ) {first : LockEntry}
    → Map.get key locks ≡ some first
    → first.expiry ≤ t2
    → t3 ≤ t2 + local_lock_ttl
    → (acquire false (some second) key t2 t2 locks).0 ≡ ok true
      × ((acquire false
            (some third)
            key
            t4
            t4
            (release key t3 (acquire false (some second) key t2 t2 locks).1)).0
          ≡ ok true)
unfolding acquire release
release_ignores_owner key second third locks t2 t3 t4 {first} here over soon =
    let held : LockEntry = record { expiry = t2 + local_lock_ttl; owner_id = second } in
    let put = get-put key key held locks in
    let gone = get-remove key key (Map.put key held locks) in
    ground (arith, put, gone, text_eq_refl key)
