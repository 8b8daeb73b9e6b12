-- ===== src/Prelude/Map.antt =====
-- Go maps with text keys, as association lists. The order of the list stands for the order, left
-- open by Go, in which `range` visits a map. `Distinct` says that no key stands twice.
use Prim.Native.Nat.{ℕ, suc, ◌+◌, ◌≤◌}
use mathlib.Core.Path.{◌≡◌, refl, subst}
use mathlib.Core.Bool.{Bool, true, false}
use mathlib.Core.Logic.{inl, inr}
use mathlib.Core.Option.{Option, none, some}
use mathlib.Core.List.{List, [], ◌∷◌}
use native.Mathlib.Omega.{arith}
use callfs.Prelude.Tests.{if◌then◌else◌, Bool-cases}
use callfs.Prelude.Strings.{Text, text_eq, text_eq_iff}

abbrev pub Map {ℓ} : Type ℓ → Type ℓ
Map V = List (Text × V)

module _ {ℓ} {V : Type ℓ} where
  unfoldable pub get : Text → Map V → Option V
  get k [] = none
  get k ((j, v) ∷ m) = if text_eq j k then some v else get k m

  unfoldable pub put : Text → V → Map V → Map V
  put k v [] = (k, v) ∷ []
  put k v ((j, w) ∷ m) = if text_eq j k then (k, v) ∷ m else (j, w) ∷ put k v m

  unfoldable pub remove : Text → Map V → Map V
  remove k [] = []
  remove k ((j, w) ∷ m) = let rest = remove k m in if text_eq j k then rest else (j, w) ∷ rest

  -- `for k, v := range m { if p(v) { delete(m, k) } }`
  unfoldable pub sweep : (V → Bool) → Map V → Map V
  sweep p [] = []
  sweep p ((j, w) ∷ m) = let rest = sweep p m in if p w then rest else (j, w) ∷ rest

  -- the count that such a loop keeps
  unfoldable pub count : (V → Bool) → Map V → ℕ
  count p [] = 0
  count p ((j, w) ∷ m) = if p w then suc (count p m) else count p m

  unfoldable pub size : Map V → ℕ
  size [] = 0
  size (e ∷ m) = suc (size m)

  abbrev pub Distinct : Map V → Type ℓ
  Distinct [] = Unit
  Distinct ((j, w) ∷ m) = (get j m ≡ none) × Distinct m

  abbrev pub unless : Bool → Option V → Option V
  unless true o = none
  unless false o = o

  abbrev pub drop_if : (V → Bool) → Option V → Option V
  drop_if p none = none
  drop_if p (some v) = if p v then none else some v

module _ {ℓ} {V : Type ℓ} where
  pub get-put :
      (k j : Text) (v : V) (m : Map V)
      → get j (put k v m) ≡ (if text_eq k j then some v else get j m)
  unfolding get put
  get-put k j v [] = refl
  get-put k j v ((i, w) ∷ m) =
      ground (arith, text_eq_iff k j, text_eq_iff i k, text_eq_iff i j, get-put k j v m)

  pub get-remove :
      (k j : Text) (m : Map V) → get j (remove k m) ≡ (if text_eq k j then none else get j m)
  unfolding get remove
  get-remove k j [] = ground arith
  get-remove k j ((i, w) ∷ m) =
      ground (arith, text_eq_iff k j, text_eq_iff i k, text_eq_iff i j, get-remove k j m)

  get-sweep-none : (p : V → Bool) (j : Text) (m : Map V) → get j m ≡ none → get j (sweep p m) ≡ none
  unfolding get sweep
  get-sweep-none p j [] h = refl
  get-sweep-none p j ((i, w) ∷ m) h = ground (arith, get-sweep-none p j m)

  pub get-sweep :
      (p : V → Bool) (j : Text) (m : Map V) → Distinct m → get j (sweep p m) ≡ drop_if p (get j m)
  unfolding get sweep
  get-sweep p j [] d = refl
  get-sweep p j ((i, w) ∷ m) (new, d) =
      ground (arith, text_eq_iff i j, get-sweep p j m d, get-sweep-none p j m)

  pub Distinct-put : (k : Text) (v : V) (m : Map V) → Distinct m → Distinct (put k v m)
  unfolding get put
  Distinct-put k v [] d = (refl, tt)
  Distinct-put k v ((i, w) ∷ m) (new, d) =
      ground (arith, text_eq_iff i k, text_eq_iff k i, get-put k i v m, Distinct-put k v m d)

  get-remove-none : (k j : Text) (m : Map V) → get j m ≡ none → get j (remove k m) ≡ none
  get-remove-none k j m h = rw (get-remove, h) (ground arith)

  pub Distinct-remove : (k : Text) (m : Map V) → Distinct m → Distinct (remove k m)
  unfolding get remove
  Distinct-remove k [] d = tt
  Distinct-remove k ((i, w) ∷ m) (new, d) =
      ground (arith, get-remove-none k i m, Distinct-remove k m d)

  pub Distinct-sweep : (p : V → Bool) (m : Map V) → Distinct m → Distinct (sweep p m)
  unfolding get sweep
  Distinct-sweep p [] d = tt
  Distinct-sweep p ((i, w) ∷ m) (new, d) =
      ground (arith, get-sweep-none p i m, Distinct-sweep p m d)

  -- The loop deletes as many entries as it counts.
  pub size-sweep : (p : V → Bool) (m : Map V) → size (sweep p m) + count p m ≡ size m
  unfolding size sweep count
  size-sweep p [] = refl
  size-sweep p ((i, w) ∷ m) = ground (arith, size-sweep p m)

  pub size-put : (k : Text) (v : V) (m : Map V) → size (put k v m) ≤ size m + 1
  unfolding size put
  size-put k v [] = omega arith
  size-put k v ((i, w) ∷ m) = ground (arith, size-put k v m)

  pub size-put_present :
      (k : Text) (v w : V) (m : Map V) → get k m ≡ some w → size (put k v m) ≡ size m
  unfolding size put get
  size-put_present k v w [] h = cc
  size-put_present k v w ((i, x) ∷ m) h = ground (arith, size-put_present k v w m)

  pub size-remove : (k : Text) (m : Map V) → size (remove k m) ≤ size m
  unfolding size remove
  size-remove k [] = omega arith
  size-remove k ((i, w) ∷ m) = ground (arith, size-remove k m)

  pub size-remove_present :
      (k : Text) (w : V) (m : Map V) → get k m ≡ some w → size (remove k m) + 1 ≤ size m
  unfolding size remove get
  size-remove_present k w [] h = cc
  size-remove_present k w ((i, x) ∷ m) h =
      ground (arith, size-remove k m, size-remove_present k w m)

  -- What holds of every value in a map.
  abbrev pub AllValues {κ} : (Text → V → Type κ) → Map V → Type (ℓ ⊔ κ)
  AllValues P m = (k : Text) (v : V) → get k m ≡ some v → P k v

  pub AllValues-put {κ} :
      (P : Text → V → Type κ) (k : Text) (v : V) (m : Map V)
      → P k v
      → AllValues P m
      → AllValues P (put k v m)
  AllValues-put P k v m pv h j w e = elim (Bool-cases (text_eq k j)) [
    | inl same ↦
        let found : v ≡ w = ground (arith, get-put k j v m) in
        subst (λ x. P x w) ((text_eq_iff k j).0 same) (subst (P k) found pv)
    | inr other ↦ h j w (ground (arith, get-put k j v m))
  ]

  pub AllValues-remove {κ} :
      (P : Text → V → Type κ) (k : Text) (m : Map V) → AllValues P m → AllValues P (remove k m)
  AllValues-remove P k m h j w e = h j w (ground (arith, get-remove k j m))

  pub AllValues-sweep {κ} :
      (P : Text → V → Type κ) (p : V → Bool) (m : Map V)
      → Distinct m
      → AllValues P m
      → AllValues P (sweep p m)
  AllValues-sweep P p m d h j w e = h j w (ground (arith, get-sweep p j m d))
