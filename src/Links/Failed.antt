-- ===== src/Links/Failed.antt =====
-- links/manager.go: what a validation that does not answer a path leaves behind.
use callfs.Prelude.{
  ℕ, ◌≤◌, ◌≡◌, ◌⊎◌, refl, arith, Text, text_eq, ltb, Bool-cases, true, Option-cases, inl, inr, some,
  err, Error,
}
use callfs.Prelude.Map
use callfs.Metadata.{SingleUseLink, active}
use callfs.Raft.{State}
use callfs.Raft.Store.{Outcome, committed, refused, given_up}
use callfs.Links.{verify_signature, consume, check_link, validate_and_invalidate_link}
use callfs.Links.Manager.{
  Consumed, consume_ok, consume_refused, consume_given_up, validate_known, validate_unknown,
}

module _ (sign : Text → Text) (token ip : Text) (now later : ℕ) (s : State) where
  -- Raft gave up on an entry that was applied, and the link is used up
  abbrev pub Lost : Outcome → State → Type 0
  Lost o s' =
      (e : Error) × (t : ℕ) × (path : Text) × (o ≡ given_up e t)
      × Consumed sign token ip path now later s s'

  consume_failed :
      (o : Outcome) (link : SingleUseLink) {x : Error}
      → Map.get token s.links_by_token ≡ some link
      → now ≤ link.expires_at
      → text_eq link.status active ≡ true
      → verify_signature sign token link.file_path ≡ true
      → (consume sign token ip later o s link).0 ≡ err x
      → ((consume sign token ip later o s link).1 ≡ s)
        ⊎ Lost o (consume sign token ip later o s link).1
  consume_failed (refused e) link known in_time a signed h =
      inl (rw (consume_refused sign token ip later e s link) refl)
  consume_failed (committed t) link known in_time a signed h =
      absurd (ground (arith, consume_ok sign token ip later t s link known a))
  consume_failed (given_up e t) link known in_time a signed h = inr (
    e,
    t,
    link.file_path,
    refl,
    record {
      link = link;
      known = known;
      own_path = refl;
      was_active = a;
      in_time = in_time;
      signed = signed;
      clock = t;
      marked_used = ground (arith, consume_given_up sign token ip later t e s link known a);
    },
  )

  check_failed :
      (o : Outcome) (link : SingleUseLink) {x : Error}
      → Map.get token s.links_by_token ≡ some link
      → (check_link sign token ip now later o s link).0 ≡ err x
      → ((check_link sign token ip now later o s link).1 ≡ s)
        ⊎ Lost o (check_link sign token ip now later o s link).1
  unfolding check_link
  check_failed o link {x} known h = elim (Bool-cases (ltb link.expires_at now)) [
    | inl late ↦ inl (rw (late, check_link) refl)
    | inr in_time ↦ elim (Bool-cases (text_eq link.status active)) [
      | inr spent ↦ inl (rw (in_time, spent, check_link) refl)
      | inl a ↦ elim (Bool-cases (verify_signature sign token link.file_path)) [
        | inr forged ↦ inl (rw (in_time, a, forged, check_link) refl)
        | inl signed ↦
            rw (in_time, a, signed, check_link)
              (consume_failed o link {x = x} known (ground (arith, in_time)) a signed
                (ground arith))
      ]
    ]
  ]

-- A validation that does not answer a path leaves the state as it was, with one exception: where Raft gives
-- up on an entry that is applied all the same, the link, which was there, active, not expired and signed by
-- the manager's key, is used up by an attempt that did not get its path.
pub validate_failed-Lost :
    (sign : Text → Text) (token ip : Text) (now later : ℕ) (o : Outcome) (s : State) {x : Error}
    → (validate_and_invalidate_link sign token ip now later o s).0 ≡ err x
    → ((validate_and_invalidate_link sign token ip now later o s).1 ≡ s)
      ⊎ Lost sign token ip now later s o
          (validate_and_invalidate_link sign token ip now later o s).1
validate_failed-Lost sign token ip now later o s {x} h =
    elim (Option-cases (Map.get token s.links_by_token)) [
      | inl e ↦ inl (rw (validate_unknown sign token ip now later o s e) refl)
      | inr (link, e) ↦ rw (validate_known sign token ip now later o s e) (
          check_failed sign token ip now later s o link {x = x} e
            (ground (arith, validate_known sign token ip now later o s e)))
    ]
