-- ===== src/Raft/SingleUse.antt =====
-- Over a whole log, at most one command consumes a link (metadata/raft/store.go, "update_link").
use callfs.Prelude.{
  ◌&&◌, ℕ, ◌≤◌, Text, ◌≡◌, inl, inr, refl, sym, arith, Option, none, some, List, [], ◌∷◌, true,
  false, text_eq, text_eq_iff, Bool-cases,
}
use callfs.Raft.{Command, State, apply_update_link, apply_op, apply, Op, update_link}
use callfs.Metadata.{active}
use mathlib.Core.Path.{subst}
use callfs.Raft.Keys.{IsKeyed, apply-IsKeyed}
use callfs.Raft.Links.{
  link_at, Spent, Spent-step, consumes_op, consumes, succeeded, consumptions, Consuming,
  Deactivates, update_fails, update_spends,
}

-- one entry of a log, seen from the link `t`
op_fails :
    (t : Text) (o : Op) (c : Command) (now : ℕ) (s : State)
    → Spent (link_at t s)
    → (consumes_op t o c && succeeded (apply_op o c now s).0) ≡ false
unfolding apply_op
op_fails t update_link c now s h = elim (Bool-cases (text_eq c.token t)) [
  | inl e ↦
      let same : c.token ≡ t = (text_eq_iff c.token t).0 e in
      rw e (update_fails c now s (subst (λ k. Spent (link_at k s)) (sym same) h))
  | inr e ↦ rw e refl
]
op_fails t _ c now s h = refl

op_spends :
    (t : Text) (o : Op) (c : Command) (now : ℕ) (s : State)
    → text_eq c.status active ≡ false
    → (consumes_op t o c && succeeded (apply_op o c now s).0) ≡ true
    → Spent (link_at t (apply_op o c now s).1)
unfolding apply_op
op_spends t update_link c now s q h =
    let e : c.token ≡ t = ground (arith, text_eq_iff c.token t) in
    subst (λ k. Spent (link_at k (apply_update_link c now s).1)) e
      (update_spends c now s q (ground arith))
op_spends t _ c now s q h = cc

entry_fails :
    (t : Text) (c : Option Command) (now : ℕ) (s : State)
    → Spent (link_at t s)
    → (consumes t c && succeeded (apply c now s).0) ≡ false
unfolding apply
entry_fails t none now s h = refl
entry_fails t (some c) now s h = op_fails t c.op c now s h

entry_spends :
    (t : Text) (c : Option Command) (now : ℕ) (s : State)
    → Deactivates c
    → (consumes t c && succeeded (apply c now s).0) ≡ true
    → Spent (link_at t (apply c now s).1)
unfolding apply
entry_spends t none now s q h = cc
entry_spends t (some c) now s q h = op_spends t c.op c now s q h

Spent-consumptions :
    (t : Text) (log : List (Option Command × ℕ)) (s : State)
    → IsKeyed s
    → Consuming t log
    → Spent (link_at t s)
    → consumptions t log s ≡ 0
unfolding consumptions
Spent-consumptions t [] s v q h = refl
Spent-consumptions t ((c, now) ∷ log) s v q h =
    let rest =
      Spent-consumptions t log (apply c now s).1 (apply-IsKeyed v c now) q.2
        (Spent-step t c now s v.tokens_distinct h q.0) in
    rw (entry_fails t c now s h) (omega (arith, rest))

-- In every log that puts no new link under the token and asks for no link to become active, at most
-- one command consumes the link with success, whatever else the log does.
pub consumptions-le-one :
    (t : Text) (log : List (Option Command × ℕ)) (s : State)
    → IsKeyed s
    → Consuming t log
    → consumptions t log s ≤ 1
unfolding consumptions
consumptions-le-one t [] s v q = omega arith
consumptions-le-one t ((c, now) ∷ log) s v q =
    let s' : State = (apply c now s).1 in
    let v' : IsKeyed s' = apply-IsKeyed v c now in
    elim (Bool-cases (consumes t c && succeeded (apply c now s).0)) [
      | inl won ↦
          rw won
            (omega (arith, Spent-consumptions t log s' v' q.2 (entry_spends t c now s q.1 won)))
      | inr lost ↦ rw lost (omega (arith, consumptions-le-one t log s' v' q.2))
    ]
