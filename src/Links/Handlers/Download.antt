-- ===== src/Links/Handlers/Download.antt =====
-- server/handlers/links/download.go: what becomes of a link that server/handlers/links/generate.go made.
use mathlib.Core.Path.{subst, ap₂}
use callfs.Prelude.{
  ◌*◌, ◌^◌, text_eq_refl, ℕ, ◌≡◌, ◌≢◌, refl, sym, ap, ◌∙◌, arith, Text, text_eq, text_eq_iff,
  has_prefix, trim_prefix, trim_suffix-append, Bool, Bool-cases, true, false, Option, some, inl,
  inr, [], ◌∷◌, ◌++◌, Result, ok, err, Error, forbidden,
}
use callfs.Prelude.Map
use callfs.Prelude.Map.{get-put}
use callfs.Metadata.{SingleUseLink}
use callfs.Auth.{Permission}
use callfs.Raft.{State}
use callfs.Raft.Store.{Outcome}
use callfs.Paths.{slash, root, is_abs, clean, validate_path}
use callfs.Paths.Parse.{PathInfo, closing, parse_file_path, parse_file_path-framed}
use callfs.Raft.Store.Committed.{with_link}
use callfs.Links.{validate_and_invalidate_link, new_link, token_of}
use callfs.Links.Manager.{validate_sound, generated}
use callfs.Links.Handlers.Generate.{generate_handler_sound}
use callfs.Links.Handlers.{
  GenerateLinkRequest, generate_handler, created, failed, content, status_of, engine_path,
  download_handler, revalidated, validated, link_failure,
}

-- `ValidatePath` refuses every path from the root but the root itself.
validate_path_absolute :
    (path : Text) → is_abs path ≡ true → path ≢ root → validate_path path ≡ err forbidden
unfolding validate_path clean has_prefix
validate_path_absolute [] a n = absurd (ground arith)
validate_path_absolute (c ∷ path) a n =
    ground (arith, text_eq_iff (c ∷ path) root, text_eq_iff (c ∷ path) [])

-- The download of a link whose stored path starts at the root answers 500, whatever the file holds, and
-- the link is used up all the same. "/" alone is excepted.
pub download_refuses_absolute :
    (sign : Text → Text) (get_file : Text → Result Text) (token ip path : Text) (now later : ℕ)
    (o : Outcome) (s : State)
    → text_eq token [] ≡ false
    → (validate_and_invalidate_link sign token ip now later o s).0 ≡ ok path
    → is_abs path ≡ true
    → path ≢ root
    → download_handler sign get_file token ip now later o s
      ≡ (failed 500, (validate_and_invalidate_link sign token ip now later o s).1)
unfolding download_handler validated revalidated status_of
download_refuses_absolute sign get_file token ip path now later o s t h a n =
    ground (arith, validate_path_absolute path a n)

engine_path-framed :
    (info : PathInfo) (path : Text) (d : Bool)
    → d ≡ info.is_directory
    → info.full_path ≡ (slash ∷ path) ++ closing d
    → is_abs (engine_path info) ≡ true
unfolding engine_path has_prefix
engine_path-framed info path false same e = rw (sym same, e) refl
engine_path-framed info path true same e = elim (Bool-cases (text_eq info.full_path root)) [
  | inl whole ↦ rw (sym same, whole, e) refl
  | inr longer ↦ rw (sym same, longer, e, trim_suffix-append (slash ∷ path) root) refl
]

engine_path-is_abs :
    (url : Text)
    → (parse_file_path url).is_invalid ≡ false
    → is_abs (engine_path (parse_file_path url)) ≡ true
unfolding engine_path has_prefix text_eq
engine_path-is_abs url h = elim (parse_file_path-framed url h) [
  | inl e ↦ rw e refl
  | inr (path, e) ↦
      engine_path-framed (parse_file_path url) path (parse_file_path url).is_directory refl e
]

validates_to_link :
    (sign : Text → Text) (token ip path : Text) (now later : ℕ) (o : Outcome) (s : State)
    {link : SingleUseLink}
    → Map.get token s.links_by_token ≡ some link
    → (validate_and_invalidate_link sign token ip now later o s).0 ≡ ok path
    → path ≡ link.file_path
validates_to_link sign token ip path now later o s e h =
    let found = validate_sound sign token ip path now later o s h in
    found.own_path ∙ ap (λ l. l.file_path) (same_link (sym found.known ∙ e))
  where
    same_link : {a b : SingleUseLink} → ◌≡◌ {A = Option SingleUseLink} (some a) (some b) → a ≡ b
    same_link q = cc

failure_is_not_content :
    (sign : Text → Text) (get_file : Text → Result Text) (x : Error) {bytes : Text}
    → link_failure sign get_file x ≢ content bytes
unfolding link_failure status_of
failure_is_not_content sign get_file Error.link_not_found h = ground arith
failure_is_not_content sign get_file Error.link_expired h = ground arith
failure_is_not_content sign get_file Error.link_invalid h = ground arith
failure_is_not_content sign get_file _ h = ground arith

not_content :
    (sign : Text → Text) (get_file : Text → Result Text) (token ip : Text) (now later : ℕ)
    (o : Outcome) (s : State) {bytes : Text}
    → (download_handler sign get_file token ip now later o s).0 ≡ content bytes
    → (path : Text) × ((validate_and_invalidate_link sign token ip now later o s).0 ≡ ok path)
      × (text_eq token [] ≡ false)
unfolding download_handler validated link_failure status_of
not_content sign get_file token ip now later o s {bytes = bytes} h =
    by_result (validate_and_invalidate_link sign token ip now later o s) refl
  where
    by_result :
        (r : Result Text × State)
        → validate_and_invalidate_link sign token ip now later o s ≡ r
        → (path : Text) × ((validate_and_invalidate_link sign token ip now later o s).0 ≡ ok path)
          × (text_eq token [] ≡ false)
    by_result (ok path, s') e = (path, ap (λ r. r.0) e, ground arith)
    by_result (err x, s') e =
        absurd (failure_is_not_content sign get_file x {bytes = bytes} (ground arith))

-- After the generate handler has handed out a link for a path other than "/", the download handler, in the
-- state that results, never answers with the content of a file, whatever the files, the clocks and the
-- store's answers are.
pub generated_never_served :
    (sign : Text → Text) (authorize : Text → Text → Permission → Result (Unit {0}))
    (api_host user : Text) (req : GenerateLinkRequest) (id : Text) (now later : ℕ) (o : Outcome)
    (s : State) {url token : Text} (get_file : Text → Result Text) (ip bytes : Text)
    (now' later' : ℕ) (o' : Outcome)
    → (generate_handler sign authorize api_host (some user) (some req) (some id) now later o s).0
      ≡ created url token
    → engine_path (parse_file_path (trim_prefix req.path root)) ≢ root
    → (download_handler sign get_file token ip now' later' o'
        (generate_handler sign authorize api_host
          (some user)
          (some req)
          (some id)
          now
          later
          o
          s).1).0
      ≢ content bytes
generated_never_served sign authorize api_host user req id now later o s {token = token} get_file ip
      bytes now' later' o' h n served =
    let g = generate_handler_sound sign authorize api_host user req (some id) now later o s h in
    let path = engine_path (parse_file_path (trim_prefix req.path root)) in
    let s' =
      (generate_handler sign authorize api_host (some user) (some req) (some id) now later o s).1 in
    let (found, good, filled) = not_content sign get_file token ip now' later' o' s' served in
    let (is_token, is_state) =
      generated sign id path (g.seconds * 10 ^ 9) now later o s (ap (λ r. r.0) g.stored_as) in
    let link : SingleUseLink = new_link sign id path (g.seconds * 10 ^ 9) now later in
    let stored : s' ≡ with_link (token_of sign id path) link s =
      ap (λ r. r.1) (sym g.stored_as) ∙ is_state in
    let known : Map.get token s'.links_by_token ≡ some link =
      ap₂ (λ k z. Map.get k z.links_by_token) is_token stored
      ∙ stored_link (token_of sign id path) link s in
    let own : found ≡ path = validates_to_link sign token ip found now' later' o' s' known good in
    let refused =
      download_refuses_absolute sign get_file token ip found now' later' o' s' filled good
        (subst (λ p. is_abs p ≡ true) (sym own)
          (engine_path-is_abs (trim_prefix req.path root) g.valid))
        (λ whole. n (sym own ∙ whole)) in
    failed_is_not_content (sym (ap (λ r. r.0) refused) ∙ served)
  where
    failed_is_not_content : {n : ℕ} → failed n ≢ content bytes
    failed_is_not_content q = ground arith

    stored_link :
        (k : Text) (l : SingleUseLink) (z : State)
        → Map.get k (with_link k l z).links_by_token ≡ some l
    stored_link k l z = ground (arith, get-put k k l z.links_by_token, text_eq_refl k)
