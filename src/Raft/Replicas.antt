-- ===== src/Raft/Replicas.antt =====
-- Nodes that apply one log (metadata/raft/store.go, `fsm.Apply`). `Apply` reads the clock of its own
-- node when it consumes a link, so the nodes' states agree up to the field `updated_at` of links.
use mathlib.Core.Option
use mathlib.Core.Path.{ap₂}
use callfs.Prelude.{
  ℕ, Text, text_eq, ◌≡◌, refl, sym, ap, ◌∙◌, arith, Option, none, some, Option-cases, inl, inr,
  List, [], ◌∷◌, Bool, Bool-cases, map,
}
use callfs.Prelude.Map
use callfs.Prelude.Map.{Map}
use callfs.Metadata.{SingleUseLink, active}
use callfs.Raft.{
  Op, Command, State, CommandResult, apply_op, apply, replay, create_link, update_link, cleanup,
  apply_create_link, apply_update_link, apply_cleanup_expired_links, apply_cleanup_used_links,
  cleanup_expired_links, cleanup_used_links, is_expired, is_spent,
}

-- A link, a table, a state and an outcome without the stamp that depends on the node's clock.
abbrev pub unstamped : SingleUseLink → SingleUseLink
unstamped l = record l { updated_at = 0 }

pub unstamped_links : Map SingleUseLink → Map SingleUseLink
unstamped_links [] = []
unstamped_links ((t, l) ∷ m) = (t, unstamped l) ∷ unstamped_links m

abbrev pub unstamped_state : State → State
unstamped_state s = record s { links_by_token = unstamped_links s.links_by_token }

abbrev unstamped_outcome : CommandResult × State → CommandResult × State
unstamped_outcome (r, s) = (r, unstamped_state s)

unstamped_idem : (m : Map SingleUseLink) → unstamped_links (unstamped_links m) ≡ unstamped_links m
unfolding unstamped_links
unstamped_idem [] = refl
unstamped_idem ((j, l) ∷ m) = ground (arith, unstamped_idem m)

get-unstamped :
    (t : Text) (m : Map SingleUseLink)
    → Map.get t (unstamped_links m) ≡ Option.map unstamped (Map.get t m)
unfolding Map.get unstamped_links
get-unstamped t [] = refl
get-unstamped t ((j, l) ∷ m) = ground (arith, get-unstamped t m)

put-unstamped :
    (t : Text) (l : SingleUseLink) (m : Map SingleUseLink)
    → unstamped_links (Map.put t l m) ≡ Map.put t (unstamped l) (unstamped_links m)
unfolding Map.put unstamped_links
put-unstamped t l [] = refl
put-unstamped t l ((j, k) ∷ m) = ground (arith, put-unstamped t l m)

module _ (p : SingleUseLink → Bool) (blind : (l : SingleUseLink) → p (unstamped l) ≡ p l) where
  sweep-unstamped :
      (m : Map SingleUseLink) → unstamped_links (Map.sweep p m) ≡ Map.sweep p (unstamped_links m)
  unfolding Map.sweep unstamped_links
  sweep-unstamped [] = refl
  sweep-unstamped ((j, l) ∷ m) = ground (arith, blind l, sweep-unstamped m)

  count-unstamped : (m : Map SingleUseLink) → Map.count p (unstamped_links m) ≡ Map.count p m
  unfolding Map.count unstamped_links
  count-unstamped [] = refl
  count-unstamped ((j, l) ∷ m) = ground (arith, blind l, count-unstamped m)

  cleanup-unstamped :
      (s : State)
      → unstamped_outcome (cleanup p s) ≡ unstamped_outcome (cleanup p (unstamped_state s))
  unfolding cleanup
  cleanup-unstamped s = simp (sweep-unstamped, count-unstamped, unstamped_idem)

update-unstamped :
    (c : Command) (now : ℕ) (s : State)
    → unstamped_outcome (apply_update_link c now s)
      ≡ unstamped_outcome (apply_update_link c 0 (unstamped_state s))
unfolding apply_update_link
update-unstamped c now s = elim (Option-cases (Map.get c.token s.links_by_token)) [
  | inl e ↦ rw (get-unstamped, e, apply_update_link, unstamped_idem)
  | inr (l, e) ↦
      rw (get-unstamped, e, apply_update_link)
        (elim (Bool-cases (text_eq l.status active)) [
          | inl a ↦ rw a (simp (put-unstamped, unstamped_idem))
          | inr b ↦ rw b (simp unstamped_idem)
        ])
]

create_link-unstamped :
    (o : Option SingleUseLink) (s : State)
    → unstamped_outcome (apply_create_link o s)
      ≡ unstamped_outcome (apply_create_link o (unstamped_state s))
unfolding apply_create_link
create_link-unstamped none s = simp unstamped_idem
create_link-unstamped (some l) s = elim (Option-cases (Map.get l.token s.links_by_token)) [
  | inl e ↦ rw (get-unstamped, e, apply_create_link) (simp (put-unstamped, unstamped_idem))
  | inr (x, e) ↦ rw (get-unstamped, e, apply_create_link) (simp unstamped_idem)
]

expired-unstamped :
    (o : Option ℕ) (s : State)
    → unstamped_outcome (apply_cleanup_expired_links o s)
      ≡ unstamped_outcome (apply_cleanup_expired_links o (unstamped_state s))
unfolding apply_cleanup_expired_links
expired-unstamped none s = simp unstamped_idem
expired-unstamped (some b) s = cleanup-unstamped (is_expired b) (λ l. refl) s

spent-unstamped :
    (o : Option ℕ) (s : State)
    → unstamped_outcome (apply_cleanup_used_links o s)
      ≡ unstamped_outcome (apply_cleanup_used_links o (unstamped_state s))
unfolding apply_cleanup_used_links
spent-unstamped none s = simp unstamped_idem
spent-unstamped (some b) s = cleanup-unstamped (is_spent b) (λ l. refl) s

op-unstamped :
    (o : Op) (c : Command) (now : ℕ) (s : State)
    → unstamped_outcome (apply_op o c now s)
      ≡ unstamped_outcome (apply_op o c 0 (unstamped_state s))
unfolding apply_op
op-unstamped create_link c now s = create_link-unstamped c.link s
op-unstamped update_link c now s = update-unstamped c now s
op-unstamped cleanup_expired_links c now s = expired-unstamped c.before s
op-unstamped cleanup_used_links c now s = spent-unstamped c.older_than s
op-unstamped _ c now s = ground (arith, unstamped_idem s.links_by_token)

apply-unstamped :
    (c : Option Command) (now : ℕ) (s : State)
    → unstamped_outcome (apply c now s) ≡ unstamped_outcome (apply c 0 (unstamped_state s))
unfolding apply
apply-unstamped none now s = simp unstamped_idem
apply-unstamped (some c) now s = op-unstamped c.op c now s

apply_agrees :
    (c : Option Command) (a b : ℕ) (s t : State)
    → unstamped_state s ≡ unstamped_state t
    → unstamped_outcome (apply c a s) ≡ unstamped_outcome (apply c b t)
apply_agrees c a b s t h =
    apply-unstamped c a s
    ∙ ap (λ u. unstamped_outcome (apply c 0 u)) h
    ∙ sym (apply-unstamped c b t)

-- the answers that a node gives along a log
pub answers : List (Option Command × ℕ) → State → List CommandResult
answers [] s = []
answers ((c, now) ∷ log) s = (apply c now s).0 ∷ answers log (apply c now s).1

-- One log with the clocks of two nodes, and what each node applies.
abbrev pub first_node : Option Command × ℕ × ℕ → Option Command × ℕ
first_node (c, a, b) = (c, a)

abbrev pub second_node : Option Command × ℕ × ℕ → Option Command × ℕ
second_node (c, a, b) = (c, b)

-- Two nodes that start from states alike up to the links' `updated_at`, and apply the same log with
-- any clocks, give the same answer to every command and end in states alike up to that field.
pub replicas_agree :
    (log : List (Option Command × ℕ × ℕ)) (s t : State)
    → unstamped_state s ≡ unstamped_state t
    → (answers (map first_node log) s ≡ answers (map second_node log) t)
      × (unstamped_state (replay (map first_node log) s)
          ≡ unstamped_state (replay (map second_node log) t))
unfolding replay answers
replicas_agree [] s t h = (refl, h)
replicas_agree ((c, a, b) ∷ log) s t h =
    let step = apply_agrees c a b s t h in
    let (same, later) = replicas_agree log (apply c a s).1 (apply c b t).1 (ap (λ o. o.1) step) in
    (ap₂ (λ r rs. r ∷ rs) (ap (λ o. o.0) step) same, later)
