-- ===== src/Links/Manager.antt =====
-- links/manager.go: what the two operations on single-use links promise together.
use mathlib.Core.Path.{subst, ap₂}
use callfs.Prelude.{
  ℕ, ◌+◌, ◌≤◌, ◌≡◌, refl, sym, ap, ◌∙◌, arith, Text, text_eq, text_eq_refl, contains_rune,
  cut_first-append, ltb, true, false, Option-cases, none, some, inl, inr, ◌++◌, ok, err, Error,
  is_ok, link_invalid,
}
use callfs.Prelude.Map
use callfs.Prelude.Map.{get-put}
use callfs.Metadata.{SingleUseLink, active, used}
use callfs.Raft.{State, consumed}
use callfs.Raft.Store.{
  Outcome, committed, refused, given_up, get_single_use_link, update_link_command,
}
use callfs.Raft.Store.Committed.{with_link, create_single_use_link_lem, update_single_use_link_lem}
use callfs.Links.{
  period, token_of, new_link, generate_link, stored, verify_signature, consume, marked, check_link,
  on_link, validate_and_invalidate_link,
}

abbrev pub used_by : Text → Text → ℕ → ℕ → SingleUseLink → SingleUseLink
used_by token ip later t link =
    consumed (update_link_command token used (some later) (some ip)) t link

module _ (sign : Text → Text) where
  verify_signature-token_of :
      (id path : Text)
      → contains_rune period id ≡ false
      → verify_signature sign (token_of sign id path) path ≡ true
  unfolding verify_signature
  verify_signature-token_of id path h =
      rw (cut_first-append period id (sign (id ++ path)) h, verify_signature)
        (text_eq_refl (sign (id ++ path)))

  -- What holds of a link that a successful validation has found, and of the state behind it.
  pub record Consumed (token ip path : Text) (now later : ℕ) (s s' : State) : Type 0 where
    pub link : SingleUseLink
    pub known : Map.get token s.links_by_token ≡ some link
    pub own_path : path ≡ link.file_path
    pub was_active : text_eq link.status active ≡ true
    pub in_time : now ≤ link.expires_at
    pub signed : verify_signature sign token link.file_path ≡ true
    pub clock : ℕ
    pub marked_used : s' ≡ with_link token (used_by token ip later clock link) s

  pub consume_ok :
      (token ip : Text) (later t : ℕ) (s : State) (link : SingleUseLink)
      → Map.get token s.links_by_token ≡ some link
      → text_eq link.status active ≡ true
      → consume sign token ip later (committed t) s link
        ≡ (ok link.file_path, with_link token (used_by token ip later t link) s)
  unfolding consume marked
  consume_ok token ip later t s link e a =
      rw (update_single_use_link_lem (committed t) token used (some later) (some ip) s, e, a)

  pub consume_refused :
      (token ip : Text) (later : ℕ) (x : Error) (s : State) (link : SingleUseLink)
      → consume sign token ip later (refused x) s link ≡ (err link_invalid, s)
  unfolding consume marked
  consume_refused token ip later x s link =
      rw (update_single_use_link_lem (refused x) token used (some later) (some ip) s)

  pub consume_given_up :
      (token ip : Text) (later t : ℕ) (x : Error) (s : State) (link : SingleUseLink)
      → Map.get token s.links_by_token ≡ some link
      → text_eq link.status active ≡ true
      → consume sign token ip later (given_up x t) s link
        ≡ (err link_invalid, with_link token (used_by token ip later t link) s)
  unfolding consume marked
  consume_given_up token ip later t x s link e a =
      rw (update_single_use_link_lem (given_up x t) token used (some later) (some ip) s, e, a)

  pub validate_known :
      (token ip : Text) (now later : ℕ) (o : Outcome) (s : State) {link : SingleUseLink}
      → Map.get token s.links_by_token ≡ some link
      → validate_and_invalidate_link sign token ip now later o s
        ≡ check_link sign token ip now later o s link
  unfolding validate_and_invalidate_link on_link get_single_use_link
  validate_known token ip now later o s e = rw e

  pub validate_unknown :
      (token ip : Text) (now later : ℕ) (o : Outcome) (s : State)
      → Map.get token s.links_by_token ≡ none
      → validate_and_invalidate_link sign token ip now later o s ≡ (err Error.link_not_found, s)
  unfolding validate_and_invalidate_link on_link get_single_use_link
  validate_unknown token ip now later o s e = rw e

  check_ok :
      (token ip path : Text) (now later : ℕ) (o : Outcome) (s : State) (link : SingleUseLink)
      → Map.get token s.links_by_token ≡ some link
      → (check_link sign token ip now later o s link).0 ≡ ok path
      → Consumed token ip path now later s (check_link sign token ip now later o s link).1
  unfolding check_link
  check_ok token ip path now later (refused x) s link e h =
      absurd (ground (arith, consume_refused token ip later x s link))
  check_ok token ip path now later (given_up x t) s link e h =
      let a : text_eq link.status active ≡ true = ground arith in
      absurd (ground (arith, consume_given_up token ip later t x s link e a))
  check_ok token ip path now later (committed t) s link e h =
      let a : text_eq link.status active ≡ true = ground arith in
      let consumes = consume_ok token ip later t s link e a in
      record {
        link = link;
        known = e;
        own_path = ground (arith, consumes);
        was_active = a;
        in_time = ground arith;
        signed = ground arith;
        clock = t;
        marked_used = ground (arith, consumes);
      }

  pub generated :
      (id path : Text) (duration now later : ℕ) (o : Outcome) (s : State) {token : Text}
      → (generate_link sign (some id) path duration now later o s).0 ≡ ok token
      → (token ≡ token_of sign id path)
        × ((generate_link sign (some id) path duration now later o s).1
            ≡ with_link (token_of sign id path) (new_link sign id path duration now later) s)
  unfolding generate_link stored
  generated id path duration now later (refused x) s h =
      let created =
        create_single_use_link_lem (refused x) (new_link sign id path duration now later) s in
      absurd (ground (arith, created))
  generated id path duration now later (given_up x t) s h =
      let link : SingleUseLink = new_link sign id path duration now later in
      let created = create_single_use_link_lem (given_up x t) link s in
      elim (Option-cases (Map.get (token_of sign id path) s.links_by_token)) [
        | inl e ↦ absurd (ground (arith, created))
        | inr (l, e) ↦ absurd (ground (arith, created))
      ]
  generated id path duration now later (committed t) s h =
      let link : SingleUseLink = new_link sign id path duration now later in
      let created = create_single_use_link_lem (committed t) link s in
      elim (Option-cases (Map.get (token_of sign id path) s.links_by_token)) [
        | inl e ↦ (ground (arith, created), ground (arith, created))
        | inr (l, e) ↦ absurd (ground (arith, created))
      ]

  check_new :
      (id path ip : Text) (duration now later now' later' t : ℕ) (s : State)
      → contains_rune period id ≡ false
      → Map.get (token_of sign id path) s.links_by_token
        ≡ some (new_link sign id path duration now later)
      → now' ≤ now + duration
      → (check_link sign
          (token_of sign id path)
          ip
          now'
          later'
          (committed t)
          s
          (new_link sign id path duration now later)).0
        ≡ ok path
  unfolding check_link text_eq
  check_new id path ip duration now later now' later' t s free e soon =
      let link : SingleUseLink = new_link sign id path duration now later in
      let token = token_of sign id path in
      let consumes = consume_ok token ip later' t s link e refl in
      let in_time : ltb (now + duration) now' ≡ false = ground arith in
      rw (in_time, verify_signature-token_of id path free, consumes)

-- After a link has been generated, with a token id that holds no period, the validation of its token in
-- the state that results answers the path, if the link has not expired and the store commits the update.
pub generate-validate :
    (sign : Text → Text) (id path ip : Text) (duration now later now' later' t : ℕ) (o : Outcome)
    (s : State) {token : Text}
    → contains_rune period id ≡ false
    → (generate_link sign (some id) path duration now later o s).0 ≡ ok token
    → now' ≤ now + duration
    → (validate_and_invalidate_link sign token ip now' later'
        (committed t)
        (generate_link sign (some id) path duration now later o s).1).0
      ≡ ok path
generate-validate sign id path ip duration now later now' later' t o s {token} free h soon =
    let (is_token, is_state) = generated sign id path duration now later o s h in
    let link : SingleUseLink = new_link sign id path duration now later in
    let s' : State = with_link (token_of sign id path) link s in
    let known : Map.get (token_of sign id path) s'.links_by_token ≡ some link = ground (
      arith,
      get-put (token_of sign id path) (token_of sign id path) link s.links_by_token,
      text_eq_refl (token_of sign id path),
    ) in
    ap₂ (λ k z. (validate_and_invalidate_link sign k ip now' later' (committed t) z).0) is_token
      is_state
    ∙ ap (λ r. r.0)
        (validate_known sign (token_of sign id path) ip now' later' (committed t) s' known)
    ∙ check_new sign id path ip duration now later now' later' t s' free known soon

-- A validation that answers a path has found a link under the token with that path, active, not
-- expired, and signed by the manager's key; it leaves the state with that link marked as used by the
-- client's address, and nothing else changed.
pub validate_sound :
    (sign : Text → Text) (token ip path : Text) (now later : ℕ) (o : Outcome) (s : State)
    → (validate_and_invalidate_link sign token ip now later o s).0 ≡ ok path
    → Consumed sign token ip path now later s
        (validate_and_invalidate_link sign token ip now later o s).1
validate_sound sign token ip path now later o s h =
    elim (Option-cases (Map.get token s.links_by_token)) [
      | inl e ↦ absurd (ground (arith, validate_unknown sign token ip now later o s e))
      | inr (link, e) ↦
          let same = validate_known sign token ip now later o s e in
          let good : (check_link sign token ip now later o s link).0 ≡ ok path =
            ap (λ r. r.0) (sym same) ∙ h in
          subst (λ r. Consumed sign token ip path now later s r.1) (sym same)
            (check_ok sign token ip path now later o s link e good)
    ]

spent_refused :
    (sign : Text → Text) (token ip : Text) (now later : ℕ) (o : Outcome) (s : State)
    {link : SingleUseLink}
    → Map.get token s.links_by_token ≡ some link
    → text_eq link.status active ≡ false
    → is_ok (validate_and_invalidate_link sign token ip now later o s).0 ≡ false
unfolding check_link
spent_refused sign token ip now later o s {link} e b =
    rw (validate_known sign token ip now later o s e) (ground arith)

-- After one validation of a token has answered a path, the next one is refused, whoever asks, whenever,
-- and whatever the store answers.
pub validate_twice :
    (sign : Text → Text) (token ip ip' path : Text) (now later now' later' : ℕ) (o o' : Outcome)
    (s : State)
    → (validate_and_invalidate_link sign token ip now later o s).0 ≡ ok path
    → is_ok
        (validate_and_invalidate_link sign token ip' now' later' o'
          (validate_and_invalidate_link sign token ip now later o s).1).0
      ≡ false
unfolding text_eq
validate_twice sign token ip ip' path now later now' later' o o' s h =
    let found = validate_sound sign token ip path now later o s h in
    let link : SingleUseLink = used_by token ip later found.clock found.link in
    let known : Map.get token (with_link token link s).links_by_token ≡ some link =
      ground (arith, get-put token token link s.links_by_token, text_eq_refl token) in
    subst (λ z. is_ok (validate_and_invalidate_link sign token ip' now' later' o' z).0 ≡ false)
      (sym found.marked_used)
      (spent_refused sign token ip' now' later' o' (with_link token link s) known refl)
