-- ===== src/Prelude/Numbers.antt =====
-- Decimal and octal texts: what the program uses of the package `strconv`, and `%d` of `fmt`.
use Prim.Native.Nat.{ℕ, zero, suc, ◌+◌, ◌-◌, ◌*◌, ◌/◌, ◌%◌, ◌^◌, ◌<◌, ◌≤◌}
use mathlib.Core.Path.{◌≡◌, refl, ◌∙◌}
use mathlib.Core.Logic.{inl, inr}
use mathlib.Core.Bool.{◌&&◌, false}
use mathlib.Core.Option.{Option, none, some}
use mathlib.Core.List.{[], ◌∷◌}
use native.Mathlib.Omega.{arith}
use callfs.Prelude.Tests.{◌==◌, ltb, leb, if◌then◌else◌, Bool-cases}
use callfs.Prelude.Every.{All}
use callfs.Prelude.Strings.{Text, contains_rune}
use callfs.Prelude.Int.{ℤ, pos, negsuc}

-- The value of a text of digits in a base up to ten, read on from `acc`.
unfoldable pub digits_value : ℕ → ℕ → Text → Option ℕ
digits_value base acc [] = some acc
digits_value base acc (c ∷ s) =
    let rest = digits_value base (acc * base + (c - 48)) s in
    if leb 48 c && ltb c (48 + base) then rest else none

below_limit : ℕ → Option ℕ → Option ℕ
below_limit limit none = none
below_limit limit (some n) = if ltb n limit then some n else none

-- strconv.ParseUint(s, base, bits), for a base up to ten
unfoldable pub parse_uint : ℕ → ℕ → Text → Option ℕ
unfolding digits_value below_limit
parse_uint base bits [] = none
parse_uint base bits (c ∷ s) = below_limit (2 ^ bits) (digits_value base 0 (c ∷ s))

negate : Option ℕ → Option ℤ
negate none = none
negate (some zero) = some (pos 0)
negate (some (suc n)) = if leb (suc n) (2 ^ 63) then some (negsuc n) else none

positive : Option ℕ → Option ℤ
positive none = none
positive (some n) = if ltb n (2 ^ 63) then some (pos n) else none

nonempty_value : Text → Option ℕ
unfolding digits_value
nonempty_value [] = none
nonempty_value (c ∷ s) = digits_value 10 0 (c ∷ s)

-- strconv.Atoi, where `int` has 64 bits
unfoldable pub atoi : Text → Option ℤ
unfolding nonempty_value positive negate
atoi [] = none
atoi (c ∷ s) =
    if c == b'-'
    then negate (nonempty_value s)
    else if c == b'+'
    then positive (nonempty_value s)
    else positive (nonempty_value (c ∷ s))

-- `%d`, on fuel; a number has at most as many digits as its value and one.
show_from : ℕ → ℕ → Text → Text
show_from zero n rest = rest
show_from (suc f) n rest =
    let more = show_from f (n / 10) ((48 + n % 10) ∷ rest) in
    if ltb n 10 then (48 + n) ∷ rest else more

unfoldable pub show : ℕ → Text
unfolding show_from
show n = show_from (suc n) n []

digits_value-digit :
    (acc d : ℕ) (rest : Text)
    → d < 10
    → digits_value 10 acc ((48 + d) ∷ rest) ≡ digits_value 10 (acc * 10 + d) rest
unfolding digits_value
digits_value-digit acc d rest h =
    let same : acc * 10 + (48 + d - 48) ≡ acc * 10 + d = omega arith in rw same (ground arith)

show_from-value :
    (f n : ℕ) (rest : Text)
    → n < f
    → digits_value 10 0 (show_from f n rest) ≡ digits_value 10 n rest
unfolding show_from
show_from-value zero n rest h = absurd (omega arith)
show_from-value (suc f) n rest h = elim (Bool-cases (ltb n 10)) [
  | inl small ↦
      let same : 0 * 10 + n ≡ n = omega arith in
      rw (small, digits_value-digit 0 n rest (ground arith), same)
  | inr large ↦
      let last : n % 10 < 10 = omega arith in
      let same : n / 10 * 10 + n % 10 ≡ n = omega arith in
      rw (
        large,
        show_from-value f (n / 10) ((48 + n % 10) ∷ rest) (ground arith),
        digits_value-digit (n / 10) (n % 10) rest last,
        same,
      )
]

abbrev StartsWithDigit : Text → Type 0
StartsWithDigit [] = ⊥
StartsWithDigit (c ∷ s) = 48 ≤ c

show_from-StartsWithDigit : (f n : ℕ) (rest : Text) → n < f → StartsWithDigit (show_from f n rest)
unfolding show_from
show_from-StartsWithDigit zero n rest h = absurd (omega arith)
show_from-StartsWithDigit (suc f) n rest h = elim (Bool-cases (ltb n 10)) [
  | inl small ↦ rw small (omega arith)
  | inr large ↦
      rw large (show_from-StartsWithDigit f (n / 10) ((48 + n % 10) ∷ rest) (ground arith))
]

atoi_digits :
    (s : Text) (n : ℕ)
    → StartsWithDigit s
    → digits_value 10 0 s ≡ some n
    → n < 2 ^ 63
    → atoi s ≡ some (pos n)
unfolding atoi
atoi_digits [] n h e lt = elim h [ ]
atoi_digits (c ∷ s) n h e lt = ground arith

-- A printed number is read back.
pub atoi-show : (n : ℕ) → n < 2 ^ 63 → atoi (show n) ≡ some (pos n)
unfolding show digits_value
atoi-show n lt =
    atoi_digits (show_from (suc n) n []) n (show_from-StartsWithDigit (suc n) n [] (omega arith))
      (show_from-value (suc n) n [] (omega arith) ∙ done n) lt
  where
    done : (k : ℕ) → digits_value 10 k [] ≡ some k
    done k = refl

show_from-no_slash :
    (f n : ℕ) (rest : Text)
    → contains_rune 47 rest ≡ false
    → contains_rune 47 (show_from f n rest) ≡ false
unfolding show_from contains_rune
show_from-no_slash zero n rest h = h
show_from-no_slash (suc f) n rest h = elim (Bool-cases (ltb n 10)) [
  | inl small ↦ rw small (ground arith)
  | inr large ↦ rw large (show_from-no_slash f (n / 10) ((48 + n % 10) ∷ rest) (ground arith))
]

-- A printed number holds no slash.
pub show-no_slash : (n : ℕ) → contains_rune 47 (show n) ≡ false
unfolding show contains_rune
show-no_slash n = show_from-no_slash (suc n) n [] refl

show_from-All :
    (f n : ℕ) (rest : Text)
    → All (λ c. (48 ≤ c) × (c ≤ 57)) rest
    → All (λ c. (48 ≤ c) × (c ≤ 57)) (show_from f n rest)
unfolding show_from
show_from-All zero n rest h = h
show_from-All (suc f) n rest h = elim (Bool-cases (ltb n 10)) [
  | inl small ↦ rw small ((omega arith, ground arith), h)
  | inr large ↦
      rw large (show_from-All f (n / 10) ((48 + n % 10) ∷ rest) ((omega arith, omega arith), h))
]

-- A printed number is made of digits.
pub show-All : (n : ℕ) → All (λ c. (48 ≤ c) × (c ≤ 57)) (show n)
unfolding show
show-All n = show_from-All (suc n) n [] tt
