-- ===== src/Links.antt =====
-- links/manager.go and links/background_cleanup.go: single-use download links over the metadata store.
-- `sign` stands for the base64 text of the HMAC with the manager's key; the token id, which the random
-- source gives, and the clock readings are arguments. A token id of `none` is a source that fails.
mod Examples
pub mod Manager
pub mod Failed
pub mod Handlers
use callfs.Prelude.{
  ℕ, ◌+◌, ◌-◌, ◌*◌, ◌^◌, Text, text_eq, cut_first, ltb, if◌then◌else◌, Bool, false, not, Option,
  none, some, ◌∷◌, ◌++◌, Result, ok, err, link_invalid, link_expired, link_not_found, is_not_found,
  message, wrap,
}
use callfs.Metadata.{SingleUseLink, active, used}
use callfs.Raft.{State}
use callfs.Raft.Store.{
  Outcome, get_single_use_link, create_single_use_link, update_single_use_link, cleanup_expired,
  cleanup_used,
}

abbrev pub period : ℕ
period = b'.'

module _ (sign : Text → Text) where
  -- the token: its id, a period, and the signature of the id and the path
  abbrev pub token_of : Text → Text → Text
  token_of token_id path = token_id ++ period ∷ sign (token_id ++ path)

  abbrev pub new_link : Text → Text → ℕ → ℕ → ℕ → SingleUseLink
  new_link token_id path expiry_duration now later = record {
    id = 0;
    token = token_of token_id path;
    file_path = path;
    status = active;
    expires_at = now + expiry_duration;
    used_at = none;
    used_by_ip = none;
    hmac_signature = sign (token_id ++ path);
    created_at = later;
    updated_at = 0;
  }

  stored : Text → Result (Unit {0}) × State → Result Text × State
  stored token (ok _, s) = (ok token, s)
  stored token (err e, s) = (err (wrap "failed to store link" e), s)

  -- GenerateLink
  unfoldable pub generate_link :
      Option Text → Text → ℕ → ℕ → ℕ → Outcome → State → Result Text × State
  unfolding stored
  generate_link none path expiry_duration now later o s =
      (err (wrap "failed to generate token" (message "random source")), s)
  generate_link (some token_id) path expiry_duration now later o s =
      stored (token_of token_id path)
        (create_single_use_link o (new_link token_id path expiry_duration now later) s)

  -- verifySignature
  unfoldable pub verify_signature : Text → Text → Bool
  verify_signature token path = elim (cut_first period token) [
    | none ↦ false
    | some (token_id, signature) ↦ text_eq signature (sign (token_id ++ path))
  ]

  marked : Text → Result (Unit {0}) × State → Result Text × State
  marked path (ok _, s) = (ok path, s)
  marked path (err e, s) = (err link_invalid, s)

  pub consume : Text → Text → ℕ → Outcome → State → SingleUseLink → Result Text × State
  unfolding marked
  consume token ip later o s link =
      marked link.file_path (update_single_use_link o token used (some later) (some ip) s)

  pub check_link : Text → Text → ℕ → ℕ → Outcome → State → SingleUseLink → Result Text × State
  unfolding consume
  check_link token ip now later o s link =
      if ltb link.expires_at now
      then (err link_expired, s)
      else if not (text_eq link.status active)
      then (err link_invalid, s)
      else if not (verify_signature token link.file_path)
      then (err link_invalid, s)
      else consume token ip later o s link

  pub on_link : Result SingleUseLink → Text → Text → ℕ → ℕ → Outcome → State → Result Text × State
  unfolding check_link
  on_link (ok link) token ip now later o s = check_link token ip now later o s link
  on_link (err e) token ip now later o s =
      if is_not_found e
      then (err link_not_found, s)
      else (err (wrap "failed to retrieve link" e), s)

  -- ValidateAndInvalidateLink
  unfoldable pub validate_and_invalidate_link :
      Text → Text → ℕ → ℕ → Outcome → State → Result Text × State
  unfolding on_link
  validate_and_invalidate_link token ip now later o s =
      on_link (get_single_use_link token s) token ip now later o s

-- cleanupLinks: both cleanups are tried, whatever the first one answers. The second one keeps a used
-- link for 24 hours.
abbrev pub retention : ℕ
retention = 24 * 3600 * 10 ^ 9

unfoldable pub cleanup_links : ℕ → ℕ → Outcome → Outcome → State → State
unfolding cleanup_expired cleanup_used
cleanup_links now later o1 o2 s =
    (cleanup_used o2 (later - retention) (cleanup_expired o1 now s).1).1
