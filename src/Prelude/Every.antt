-- ===== src/Prelude/Every.antt =====
-- A predicate on every item of a list, and the number of its items.
use Prim.Native.Nat.{ℕ, suc}
use mathlib.Core.List.{List, [], ◌∷◌}

abbrev pub All {ℓ κ} : {A : Type ℓ} → (A → Type κ) → List A → Type κ
All P [] = Unit
All P (x ∷ xs) = P x × All P xs

-- Go's `len`
unfoldable pub length {ℓ} : {A : Type ℓ} → List A → ℕ
length [] = 0
length (a ∷ xs) = suc (length xs)
