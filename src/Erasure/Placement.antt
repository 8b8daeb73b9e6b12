-- ===== src/Erasure/Placement.antt =====
-- erasure/placement.go: every shard has an instance, in turn, the current one first.
use mathlib.Core.Path.{subst}
use callfs.Prelude.{
  ℕ, suc, zero, ◌+◌, ◌%◌, ◌<◌, ◌≡◌, refl, sym, ap, ◌∙◌, arith, inl, inr, Text, text_eq, text_eq_iff,
  Bool-cases, List, [], ◌∷◌, length,
}
use callfs.Erasure.{at, others, ordered, deal, repeat, assign_shards}

length-deal :
    (left i : ℕ) (current : Text) (order : List Text) → length (deal left i current order) ≡ left
unfolding deal length
length-deal zero i current order = refl
length-deal (suc left) i current order = omega (arith, length-deal left (suc i) current order)

pub length-repeat : (n : ℕ) (inst : Text) → length (repeat n inst) ≡ n
unfolding repeat length
length-repeat zero inst = refl
length-repeat (suc n) inst = omega (arith, length-repeat n inst)

at-deal :
    (left i k : ℕ) (current : Text) (order : List Text)
    → k < left
    → at k current (deal left i current order) ≡ at ((i + k) % length order) current order
unfolding deal at
at-deal zero i k current order h = absurd (omega arith)
at-deal (suc left) i zero current order h = let same : i + 0 ≡ i = omega arith in rw same refl
at-deal (suc left) i (suc k) current order h =
    let same : i + suc k ≡ suc i + k = omega arith in
    rw same (at-deal left (suc i) k current order (omega arith))

at-repeat : (n k : ℕ) (inst : Text) → at k inst (repeat n inst) ≡ inst
unfolding repeat at
at-repeat zero k inst = refl
at-repeat (suc n) zero inst = refl
at-repeat (suc n) (suc k) inst = at-repeat n k inst

at-singleton : (k : ℕ) (inst : Text) → at k inst (inst ∷ []) ≡ inst
unfolding at
at-singleton zero inst = refl
at-singleton (suc k) inst = refl

-- The second list is the first without the current instance, in the same order.
pub data Others (current : Text) : List Text → List Text → Type 0 where
  nobody : Others current [] []
  itself :
      {insts rest : List Text} → Others current insts rest → Others current (current ∷ insts) rest
  other :
      {insts rest : List Text} (inst : Text)
      → ¬ (inst ≡ current)
      → Others current insts rest
      → Others current (inst ∷ insts) (inst ∷ rest)

others-Others :
    (current : Text) (available : List Text) → Others current available (others current available)
unfolding others
others-Others current [] = nobody
others-Others current (inst ∷ insts) = elim (Bool-cases (text_eq inst current)) [
  | inl same ↦ rw same (
      subst (λ i. Others current (i ∷ insts) (others current insts))
        (sym ((text_eq_iff inst current).0 same)) (itself (others-Others current insts)))
  | inr differs ↦ rw differs (
      other inst (λ e. absurd (ground (arith, (text_eq_iff inst current).1 e)))
        (others-Others current insts))
]

-- `AssignShards` gives one instance to each shard, in turn: there is a list that holds the available
-- instances but the current one, in their order, and shard k goes to the current instance if k is a
-- multiple of one more than that list's length, and otherwise to the entry of the list that the
-- remainder counts from one. That there may be no available instance makes no exception.
pub assign_shards-Others :
    (total k : ℕ) (current : Text) (available : List Text)
    → k < total
    → (length (assign_shards total current available) ≡ total)
      × ((rest : List Text) × Others current available rest
          × (at k current (assign_shards total current available)
              ≡ at (k % suc (length rest)) current (current ∷ rest)))
unfolding assign_shards ordered length
assign_shards-Others total k current [] h =
    (length-repeat total current, ([], nobody, rw (at-repeat total k current, at-singleton) refl))
assign_shards-Others total k current (inst ∷ insts) h =
    let order = ordered current (inst ∷ insts) in
    let start : 0 + k ≡ k = omega arith in
    (
      length-deal total 0 current order,
      (
        others current (inst ∷ insts),
        others-Others current (inst ∷ insts),
        at-deal total 0 k current order h ∙ ap (λ i. at (i % length order) current order) start,
      ),
    )
