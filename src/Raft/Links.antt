-- ===== src/Raft/Links.antt =====
-- Single-use links in the state machine: an entry that has left the status "active" stays as it is
-- until a cleanup deletes it, so at most one command of a log consumes a link.
use callfs.Prelude.{
  ◌&&◌, ℕ, ◌+◌, Text, ◌≡◌, ◌⊎◌, inl, inr, refl, arith, Option, none, some, List, [], ◌∷◌, Bool,
  true, false, if◌then◌else◌, text_eq, text_eq_iff, Option-cases,
}
use callfs.Prelude.Map
use callfs.Metadata.{SingleUseLink, active}
use callfs.Raft.{
  Op, Command, State, CommandResult, apply_create_link, apply_update_link, consumed, is_expired,
  is_spent, apply_cleanup_expired_links, apply_cleanup_used_links, apply_op, apply, create_metadata,
  update_metadata, delete_metadata, create_link, update_link, cleanup_expired_links,
  cleanup_used_links, cleanup,
}

abbrev pub link_at : Text → State → Option SingleUseLink
link_at t s = Map.get t s.links_by_token

-- The entry is there and cannot be consumed, or is not there.
abbrev pub Spent : Option SingleUseLink → Type 0
Spent none = Unit
Spent (some l) = text_eq l.status active ≡ false

-- The command would put a link under the token.
abbrev pub created_as : Option SingleUseLink → Text → Bool
created_as none t = false
created_as (some l) t = text_eq l.token t

abbrev pub creates : Text → Option Command → Bool
creates t none = false
creates t (some c) = elim c.op [ create_link ↦ created_as c.link t | _ ↦ false ]

-- The command asks to consume the link.
abbrev pub consumes_op : Text → Op → Command → Bool
consumes_op t update_link c = text_eq c.token t
consumes_op t _ c = false

abbrev pub consumes : Text → Option Command → Bool
consumes t none = false
consumes t (some c) = consumes_op t c.op c

link-create :
    (t : Text) (o : Option SingleUseLink) (s : State)
    → created_as o t ≡ false
    → link_at t (apply_create_link o s).1 ≡ link_at t s
unfolding apply_create_link
link-create t none s n = refl
link-create t (some l) s n = ground (arith, Map.get-put l.token t l s.links_by_token)

link-update :
    (t : Text) (c : Command) (now : ℕ) (s : State)
    → Spent (link_at t s)
    → link_at t (apply_update_link c now s).1 ≡ link_at t s
unfolding apply_update_link
link-update t c now s h = elim (Option-cases (Map.get c.token s.links_by_token)) [
  | inl e ↦ rw (e, apply_update_link)
  | inr (l, e) ↦
      ground
        (arith, text_eq_iff c.token t, Map.get-put c.token t (consumed c now l) s.links_by_token)
]

link-cleanup :
    (t : Text) (p : SingleUseLink → Bool) (s : State)
    → Map.Distinct s.links_by_token
    → link_at t (cleanup p s).1 ≡ Map.drop_if p (link_at t s)
unfolding cleanup
link-cleanup t p s d = Map.get-sweep p t s.links_by_token d

or_gone :
    (p : SingleUseLink → Bool) (o : Option SingleUseLink)
    → (Map.drop_if p o ≡ o) ⊎ (Map.drop_if p o ≡ none)
or_gone p o = ground arith

link-expired :
    (t : Text) (o : Option ℕ) (s : State)
    → Map.Distinct s.links_by_token
    → (link_at t (apply_cleanup_expired_links o s).1 ≡ link_at t s)
      ⊎ (link_at t (apply_cleanup_expired_links o s).1 ≡ none)
unfolding apply_cleanup_expired_links
link-expired t none s d = inl refl
link-expired t (some b) s d = rw (link-cleanup t _ s d) (or_gone (is_expired b) (link_at t s))

link-spent :
    (t : Text) (o : Option ℕ) (s : State)
    → Map.Distinct s.links_by_token
    → (link_at t (apply_cleanup_used_links o s).1 ≡ link_at t s)
      ⊎ (link_at t (apply_cleanup_used_links o s).1 ≡ none)
unfolding apply_cleanup_used_links
link-spent t none s d = inl refl
link-spent t (some b) s d = rw (link-cleanup t _ s d) (or_gone (is_spent b) (link_at t s))

-- What one command can do to an entry that is spent: nothing, or delete it.
Spent-apply_op :
    (t : Text) (o : Op) (c : Command) (now : ℕ) (s : State)
    → Map.Distinct s.links_by_token
    → Spent (link_at t s)
    → (o ≡ create_link → created_as c.link t ≡ false)
    → (link_at t (apply_op o c now s).1 ≡ link_at t s) ⊎ (link_at t (apply_op o c now s).1 ≡ none)
unfolding apply_op
Spent-apply_op t create_metadata c now s d h n = inl (ground arith)
Spent-apply_op t update_metadata c now s d h n = inl (ground arith)
Spent-apply_op t delete_metadata c now s d h n = inl (ground arith)
Spent-apply_op t create_link c now s d h n = inl (link-create t c.link s (n refl))
Spent-apply_op t update_link c now s d h n = inl (link-update t c now s h)
Spent-apply_op t cleanup_expired_links c now s d h n = link-expired t c.before s d
Spent-apply_op t cleanup_used_links c now s d h n = link-spent t c.older_than s d
Spent-apply_op t _ c now s d h n = inl (ground arith)

pub Spent-step :
    (t : Text) (c : Option Command) (now : ℕ) (s : State)
    → Map.Distinct s.links_by_token
    → Spent (link_at t s)
    → creates t c ≡ false
    → Spent (link_at t (apply c now s).1)
unfolding apply
Spent-step t none now s d h n = h
Spent-step t (some c) now s d h n = elim (Spent-apply_op t c.op c now s d h (λ e. ground arith)) [
  | inl same ↦ rw same h
  | inr gone ↦ rw gone tt
]

abbrev pub succeeded : CommandResult → Bool
succeeded r = elim r.fault [ none ↦ true | some _ ↦ false ]

abbrev pub Deactivates : Option Command → Type 0
Deactivates none = Unit
Deactivates (some c) = text_eq c.status active ≡ false

-- how many entries of the log consume the link `t` with success
unfoldable pub consumptions : Text → List (Option Command × ℕ) → State → ℕ
consumptions t [] s = 0
consumptions t ((c, now) ∷ log) s =
    (if consumes t c && succeeded (apply c now s).0 then 1 else 0)
    + consumptions t log (apply c now s).1

-- A log that does not put a new link under `t`, and asks for no link to become active.
abbrev pub Consuming : Text → List (Option Command × ℕ) → Type 0
Consuming t [] = Unit
Consuming t ((c, now) ∷ log) = (creates t c ≡ false) × Deactivates c × Consuming t log

pub update_fails :
    (c : Command) (now : ℕ) (s : State)
    → Spent (link_at c.token s)
    → succeeded (apply_update_link c now s).0 ≡ false
unfolding apply_update_link
update_fails c now s h = ground arith

pub update_spends :
    (c : Command) (now : ℕ) (s : State)
    → text_eq c.status active ≡ false
    → succeeded (apply_update_link c now s).0 ≡ true
    → Spent (link_at c.token (apply_update_link c now s).1)
unfolding apply_update_link
update_spends c now s q h = elim (Option-cases (Map.get c.token s.links_by_token)) [
  | inl e ↦ ground arith
  | inr (l, e) ↦ ground (
    arith,
    text_eq_iff c.token c.token,
    Map.get-put c.token c.token (consumed c now l) s.links_by_token,
  )
]
