-- ===== src/FileHandlers/Delete.antt =====
-- server/handlers/cross_server_handlers.go: what a DELETE that answers 204 rests on and leaves behind.
use callfs.Prelude.{
  ℕ, ◌≡◌, refl, arith, Text, Bool, true, false, Option, none, some, Result, ok, err, Error,
  not_found, already_exists, authentication_failed, permission_denied, forbidden, link_invalid,
  link_expired, link_not_found, insufficient_shards, shard_corrupted, invalid_profile,
  shard_not_found, message, wrap, if◌then◌else◌,
}
use callfs.Metadata.{Metadata}
use callfs.Paths.Parse.{parse_file_path}
use callfs.Auth.{delete_perm}
use callfs.Links.Handlers.{status_of, engine_path}
use callfs.Raft.{State}
use callfs.Engine.{EngineConfig, Backend, Call, World, get_metadata}
use callfs.Engine.Delete.{delete_file, delete-get_metadata}
use callfs.Engine.Remote.{delete_file_on_instance}
use callfs.FileHandlers.{
  remote_owner, authorized, remote_deleted, local_deleted, delete_located, delete_found,
  delete_allowed, delete_as, delete_handler,
}

-- no error has the status 204
status_not_204 : (e : Error) (n : ℕ) → status_of e n ≡ 204 → n ≡ 204
unfolding status_of
status_not_204 not_found n h = absurd (omega arith)
status_not_204 already_exists n h = absurd (omega arith)
status_not_204 authentication_failed n h = absurd (omega arith)
status_not_204 permission_denied n h = absurd (omega arith)
status_not_204 forbidden n h = h
status_not_204 link_invalid n h = h
status_not_204 link_expired n h = h
status_not_204 link_not_found n h = h
status_not_204 insufficient_shards n h = h
status_not_204 shard_corrupted n h = h
status_not_204 invalid_profile n h = h
status_not_204 shard_not_found n h = h
status_not_204 (message m) n h = h
status_not_204 (wrap m e) n h = h

-- an answer that is not the refusal of an invalid path
valid_or :
    {A : Type 0} (Good : ℕ × A → Type 0) (w : A) (is_invalid : Bool) (r : ℕ × A)
    → (if is_invalid then (400, w) else r).0 ≡ 204
    → (r.0 ≡ 204 → Good r)
    → (is_invalid ≡ false) × Good (if is_invalid then (400, w) else r)
valid_or Good w true r h good = absurd (omega (arith, h))
valid_or Good w false r h good = (refl, good h)

module _ {Disk : Type 0} (cfg : EngineConfig)
    (erasure_delete : Option (Text → State × Disk → Result (Unit {0}) × (State × Disk)))
    (remove_blob : Backend → Text → Disk → Result (Unit {0}) × Disk)
    (delete_on : Option (Text → Text → Disk → Result (Unit {0}) × Disk)) (call : Call)
    (path : Text) where
  -- the owner has deleted the file, or the next look-up here does not find it
  abbrev pub Gone : Option Text → World Disk → World Disk → Type 0
  Gone (some id) v w' = (delete_file_on_instance delete_on id path v).0 ≡ ok tt
  Gone none v w' = (later set_later : ℕ) → (get_metadata path later set_later w').0 ≡ err not_found

  located-Gone :
      (owner : Option Text) (v : World Disk)
      → (delete_located cfg erasure_delete remove_blob delete_on call path owner v).0 ≡ 204
      → Gone owner v (delete_located cfg erasure_delete remove_blob delete_on call path owner v).1
  unfolding delete_located remote_deleted local_deleted
  located-Gone (some id) v h = by_answer (delete_file_on_instance delete_on id path v) h
    where
      by_answer :
          (r : Result (Unit {0}) × World Disk)
          → (remote_deleted cfg erasure_delete remove_blob delete_on r).0 ≡ 204
          → r.0 ≡ ok tt
      by_answer (err e, w) q =
          absurd (
            omega (arith, status_not_204 (wrap "failed to proxy request to owning server" e) 502 q))
      by_answer (ok t, w) q = refl
  located-Gone none v h = λ later set_later.
      by_answer later set_later (delete_file cfg erasure_delete remove_blob call path v) h
        (delete-get_metadata cfg erasure_delete remove_blob call path later set_later v)
    where
      by_answer :
          (later set_later : ℕ) (r : Result (Unit {0}) × World Disk)
          → (local_deleted cfg erasure_delete remove_blob delete_on r).0 ≡ 204
          → (r.0 ≡ ok tt → (get_metadata path later set_later r.1).0 ≡ err not_found)
          → (get_metadata path later set_later
              (local_deleted cfg erasure_delete remove_blob delete_on r).1).0
            ≡ err not_found
      by_answer later set_later (err e, w) q gone = absurd (omega (arith, status_not_204 e 500 q))
      by_answer later set_later (ok t, w) q gone = gone refl

  -- the record was found, and the file is gone from where it lay
  abbrev pub FoundGone : ℕ → ℕ → World Disk → World Disk → Type 0
  FoundGone now set_at w w' =
      (md : Metadata) × (v : World Disk) × (get_metadata path now set_at w ≡ (ok md, v))
      × Gone (remote_owner cfg md) v w'

  found-Gone :
      (now set_at : ℕ) (w : World Disk) (r : Result Metadata × World Disk)
      → get_metadata path now set_at w ≡ r
      → (delete_found cfg erasure_delete remove_blob delete_on call path r).0 ≡ 204
      → FoundGone now set_at w (delete_found cfg erasure_delete remove_blob delete_on call path r).1
  unfolding delete_found
  found-Gone now set_at w (err e, v) same h = absurd (omega (arith, status_not_204 e 404 h))
  found-Gone now set_at w (ok md, v) same h = (md, v, same, located-Gone (remote_owner cfg md) v h)

  allowed-Gone :
      (now set_at : ℕ) (w : World Disk) (r : Result (Unit {0}))
      → (delete_allowed cfg erasure_delete remove_blob delete_on call path now set_at w r).0 ≡ 204
      → (r ≡ ok tt)
        × FoundGone now set_at w
            (delete_allowed cfg erasure_delete remove_blob delete_on call path now set_at w r).1
  unfolding delete_allowed
  allowed-Gone now set_at w (err e) h = absurd (omega (arith, status_not_204 e 403 h))
  allowed-Gone now set_at w (ok t) h =
      (refl, found-Gone now set_at w (get_metadata path now set_at w) refl h)

  as-Gone :
      (user : Option Text) (now set_at : ℕ) (w : World Disk)
      → (delete_as cfg erasure_delete remove_blob delete_on user call path now set_at w).0 ≡ 204
      → (name : Text) × (user ≡ some name)
        × (authorized cfg name path delete_perm w ≡ ok tt)
        × FoundGone now set_at w
            (delete_as cfg erasure_delete remove_blob delete_on user call path now set_at w).1
  unfolding delete_as
  as-Gone none now set_at w h = absurd (omega (arith, status_not_204 authentication_failed 401 h))
  as-Gone (some name) now set_at w h =
      let (may, gone) = allowed-Gone now set_at w (authorized cfg name path delete_perm w) h in
      (name, refl, may, gone)

-- A DELETE that answers 204 was sent by an authenticated user, with a valid path that this user may
-- delete by the store's records; the record was found; and the file is gone: the owning instance has
-- deleted it without an error, or it lay here and the next look-up of the path does not find it.
pub delete_handler_sound :
    {Disk : Type 0} (cfg : EngineConfig)
    (erasure_delete : Option (Text → State × Disk → Result (Unit {0}) × (State × Disk)))
    (remove_blob : Backend → Text → Disk → Result (Unit {0}) × Disk)
    (delete_on : Option (Text → Text → Disk → Result (Unit {0}) × Disk)) (user : Option Text)
    (url : Text) (call : Call) (now set_at : ℕ) (w : World Disk)
    → (delete_handler cfg erasure_delete remove_blob delete_on user url call now set_at w).0 ≡ 204
    → ((parse_file_path url).is_invalid ≡ false)
      × ((name : Text) × (user ≡ some name)
          × (authorized cfg name (engine_path (parse_file_path url)) delete_perm w ≡ ok tt)
          × FoundGone cfg erasure_delete remove_blob delete_on call
              (engine_path (parse_file_path url))
              now
              set_at
              w
              (delete_handler cfg erasure_delete remove_blob delete_on user url call now set_at
                w).1)
unfolding delete_handler
delete_handler_sound cfg erasure_delete remove_blob delete_on user url call now set_at w h =
    valid_or
      (λ r.
        (name : Text) × (user ≡ some name)
        × (authorized cfg name (engine_path (parse_file_path url)) delete_perm w ≡ ok tt)
        × FoundGone cfg erasure_delete remove_blob delete_on call
            (engine_path (parse_file_path url)) now set_at w r.1)
      w (parse_file_path url).is_invalid
      (delete_as cfg erasure_delete remove_blob delete_on user call
        (engine_path (parse_file_path url)) now set_at w)
      h
      (as-Gone cfg erasure_delete remove_blob delete_on call (engine_path (parse_file_path url))
        user now set_at w)
