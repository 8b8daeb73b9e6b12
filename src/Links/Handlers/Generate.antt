-- ===== src/Links/Handlers/Generate.antt =====
-- server/handlers/links/generate.go: what must hold before a link is handed out, and what is stored.
use mathlib.Core.Path.{subst}
use callfs.Prelude.{
  ℕ, ◌*◌, ◌^◌, ◌≤◌, ◌≡◌, refl, sym, ap, ◌∙◌, arith, ℤ, pos, negsuc, Text, text_eq, trim_prefix,
  Bool-cases, false, Option, none, some, inl, inr, [], Result, ok, err,
}
use callfs.Raft.{State}
use callfs.Raft.Store.{Outcome}
use callfs.Paths.{root}
use callfs.Paths.Parse.{parse_file_path}
use callfs.Auth.{Permission, read_perm}
use callfs.Links.{generate_link}
use callfs.Links.Handlers.{
  created, GenerateLinkRequest, engine_path, expiry_of, generate_handler, generate_request,
  authorized, with_expiry, linked,
}

expiry_of-bounds : (z : ℤ) {n : ℕ} → expiry_of z ≡ some n → (z ≡ pos n) × (1 ≤ n) × (n ≤ 86400)
unfolding expiry_of
expiry_of-bounds (negsuc m) h = absurd (ground arith)
expiry_of-bounds (pos m) h = ground arith

module _ (sign : Text → Text) (authorize : Text → Text → Permission → Result (Unit {0}))
    (api_host : Text) (user : Text) (id : Option Text) (now later : ℕ) (o : Outcome)
    (s : State) where
  abbrev pub stored_path : GenerateLinkRequest → Text
  stored_path req = engine_path (parse_file_path (trim_prefix req.path root))

  -- What a created link rests on.
  pub record Granted (req : GenerateLinkRequest) (token : Text) (s' : State) : Type 0 where
    pub valid : (parse_file_path (trim_prefix req.path root)).is_invalid ≡ false
    pub may_read : authorize user (stored_path req) read_perm ≡ ok tt
    pub seconds : ℕ
    pub asked : req.expiry_seconds ≡ pos seconds
    pub at_least : 1 ≤ seconds
    pub at_most : seconds ≤ 86400
    pub stored_as :
        generate_link sign id (stored_path req) (seconds * 10 ^ 9) now later o s ≡ (ok token, s')

  linked_created :
      (r : Result Text × State) {url token : Text}
      → (linked sign authorize api_host r).0 ≡ created url token
      → r ≡ (ok token, (linked sign authorize api_host r).1)
  unfolding linked
  linked_created (err e, s') h = absurd (ground arith)
  linked_created (ok t, s') h = ground arith

  expiry-Granted :
      (req : GenerateLinkRequest) (e : Option ℕ) {url token : Text}
      → expiry_of req.expiry_seconds ≡ e
      → (parse_file_path (trim_prefix req.path root)).is_invalid ≡ false
      → authorize user (stored_path req) read_perm ≡ ok tt
      → (with_expiry sign authorize api_host e (stored_path req) id now later o s).0
        ≡ created url token
      → Granted req token
          (with_expiry sign authorize api_host e (stored_path req) id now later o s).1
  unfolding with_expiry
  expiry-Granted req none q valid may h = absurd (ground arith)
  expiry-Granted req (some n) q valid may h =
      let (asked, least, most) = expiry_of-bounds req.expiry_seconds q in
      record {
        valid = valid;
        may_read = may;
        seconds = n;
        asked = asked;
        at_least = least;
        at_most = most;
        stored_as =
            linked_created (generate_link sign id (stored_path req) (n * 10 ^ 9) now later o s) h;
      }

  authorized-Granted :
      (req : GenerateLinkRequest) (r : Result (Unit {0})) {url token : Text}
      → authorize user (stored_path req) read_perm ≡ r
      → (parse_file_path (trim_prefix req.path root)).is_invalid ≡ false
      → (authorized sign authorize api_host r req.expiry_seconds
          (stored_path req)
          id
          now
          later
          o
          s).0
        ≡ created url token
      → Granted req token
          (authorized sign authorize api_host r req.expiry_seconds
            (stored_path req)
            id
            now
            later
            o
            s).1
  unfolding authorized
  authorized-Granted req (err e) may valid h = absurd (ground arith)
  authorized-Granted req (ok tt) may valid h =
      expiry-Granted req (expiry_of req.expiry_seconds) refl valid may h

  created-Granted :
      (req : GenerateLinkRequest) {url token : Text}
      → (generate_request sign authorize api_host user (some req) id now later o s).0
        ≡ created url token
      → Granted req token
          (generate_request sign authorize api_host user (some req) id now later o s).1
  unfolding generate_request
  created-Granted req {url} {token} h = elim (Bool-cases (text_eq req.path [])) [
    | inl e ↦ absurd (ground arith)
    | inr e ↦ elim (Bool-cases (parse_file_path (trim_prefix req.path root)).is_invalid) [
      | inl bad ↦ absurd (ground arith)
      | inr good ↦
          let path = stored_path req in
          let verdict = authorize user path read_perm in
          let step : generate_request sign authorize api_host user (some req) id now later o s
              ≡ authorized sign authorize api_host verdict req.expiry_seconds path id now later o
                  s =
            ground arith in
          subst (λ r. Granted req token r.1) (sym step)
            (authorized-Granted req verdict refl good (ap (λ r. r.0) (sym step) ∙ h))
    ]
  ]

-- A link is handed out only for a path that `ParseFilePath` lets pass and that the user may read, for 1
-- to 86400 seconds; what the manager then stores is a link to exactly that path and for that time.
pub generate_handler_sound :
    (sign : Text → Text) (authorize : Text → Text → Permission → Result (Unit {0}))
    (api_host user : Text) (req : GenerateLinkRequest) (id : Option Text) (now later : ℕ)
    (o : Outcome) (s : State) {url token : Text}
    → (generate_handler sign authorize api_host (some user) (some req) id now later o s).0
      ≡ created url token
    → Granted sign authorize api_host user id now later o s req token
        (generate_handler sign authorize api_host (some user) (some req) id now later o s).1
unfolding generate_handler
generate_handler_sound sign authorize api_host user req id now later o s h =
    created-Granted sign authorize api_host user id now later o s req h
