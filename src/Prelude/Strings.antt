-- ===== src/Prelude/Strings.antt =====
-- Go strings. A text is the list of its runes; `codes` reads a literal.
-- The functions are those of the package `strings` and `unicode` that the program calls.
use Prim.Native.Nat.{ℕ, ◌+◌}
use Prim.Native.Char.{code}
use Prim.Native.String.{String}
use mathlib.Core.Path.{◌≡◌, refl, ap₂}
use mathlib.Core.Logic.{◌↔◌}
use mathlib.Core.Bool.{Bool, true, false, ◌&&◌, ◌||◌}
use mathlib.Core.Option.{Option, none, some}
use mathlib.Core.List.{List, [], ◌∷◌, ◌++◌, reverse, map, reverse-append, reverse-reverse}
use native.Mathlib.Omega.{arith}
use callfs.Prelude.Tests.{◌==◌, leb, if◌then◌else◌}

abbrev pub Text : Type 0
Text = List ℕ

abbrev pub codes : String → Text
codes String.[] = []
codes (String.◌∷◌ c s) = code c ∷ codes s

unfoldable pub text_eq : Text → Text → Bool
text_eq [] [] = true
text_eq (a ∷ s) (b ∷ t) = (a == b) && text_eq s t
text_eq [] (_ ∷ _) = false
text_eq (_ ∷ _) [] = false

pub text_eq_iff : (s t : Text) → (text_eq s t ≡ true) ↔ (s ≡ t)
unfolding text_eq
text_eq_iff [] [] = ground arith
text_eq_iff (a ∷ s) (b ∷ t) = ground (arith, text_eq_iff s t)
text_eq_iff [] (_ ∷ _) = ground arith
text_eq_iff (_ ∷ _) [] = ground arith

pub text_eq_refl : (s : Text) → text_eq s s ≡ true
text_eq_refl s = (text_eq_iff s s).1 refl

-- strings.HasPrefix
unfoldable pub has_prefix : Text → Text → Bool
has_prefix s [] = true
has_prefix [] (_ ∷ _) = false
has_prefix (a ∷ s) (b ∷ p) = (a == b) && has_prefix s p

-- strings.TrimPrefix: what follows the prefix, or the whole text
after_prefix : Text → Text → Option Text
after_prefix s [] = some s
after_prefix [] (_ ∷ _) = none
after_prefix (a ∷ s) (b ∷ p) = if a == b then after_prefix s p else none

or_whole : Text → Option Text → Text
or_whole s none = s
or_whole s (some r) = r

unfoldable pub trim_prefix : Text → Text → Text
unfolding after_prefix or_whole
trim_prefix s p = or_whole s (after_prefix s p)

after_prefix-none : (s p : Text) → has_prefix s p ≡ false → after_prefix s p ≡ none
unfolding has_prefix after_prefix
after_prefix-none s [] h = cc
after_prefix-none [] (_ ∷ _) h = refl
after_prefix-none (a ∷ s) (b ∷ p) h = ground (arith, after_prefix-none s p)

pub trim_prefix_absent : (s p : Text) → has_prefix s p ≡ false → trim_prefix s p ≡ s
unfolding trim_prefix
trim_prefix_absent s p h = rw (after_prefix-none s p h)

pub has_prefix-rest : (s p : Text) → has_prefix s p ≡ true → (rest : Text) × (s ≡ p ++ rest)
unfolding has_prefix
has_prefix-rest s [] h = (s, refl)
has_prefix-rest [] (b ∷ p) h = absurd (ground arith)
has_prefix-rest (a ∷ s) (b ∷ p) h =
    let (rest, e) = has_prefix-rest s p (ground arith) in
    (rest, ap₂ (λ x xs. x ∷ xs) (ground arith) e)

pub has_prefix-append : (p s : Text) → has_prefix (p ++ s) p ≡ true
unfolding has_prefix
has_prefix-append [] s = none_wanted s
  where
    none_wanted : (t : Text) → has_prefix t [] ≡ true
    none_wanted [] = refl
    none_wanted (a ∷ t) = refl
has_prefix-append (a ∷ p) s = ground (arith, has_prefix-append p s)

after_prefix-append : (p s : Text) → after_prefix (p ++ s) p ≡ some s
unfolding after_prefix
after_prefix-append [] s = nothing_off s
  where
    nothing_off : (t : Text) → after_prefix t [] ≡ some t
    nothing_off [] = refl
    nothing_off (a ∷ t) = refl
after_prefix-append (a ∷ p) s = ground (arith, after_prefix-append p s)

pub trim_prefix-append : (p s : Text) → trim_prefix (p ++ s) p ≡ s
unfolding trim_prefix
trim_prefix-append p s = rw (after_prefix-append p s)

-- strings.TrimSuffix and strings.HasSuffix
unfoldable pub has_suffix : Text → Text → Bool
unfolding has_prefix
has_suffix s p = has_prefix (reverse s) (reverse p)

unfoldable pub trim_suffix : Text → Text → Text
unfolding trim_prefix
trim_suffix s p = reverse (trim_prefix (reverse s) (reverse p))

pub trim_suffix-append : (s p : Text) → trim_suffix (s ++ p) p ≡ s
unfolding trim_suffix
trim_suffix-append s p =
    rw (reverse-append s p, trim_prefix-append (reverse p) (reverse s)) (reverse-reverse s)

-- strings.Contains, for one rune
unfoldable pub contains_rune : ℕ → Text → Bool
contains_rune c [] = false
contains_rune c (a ∷ s) = (a == c) || contains_rune c s

-- strings.Split at one rune
unfoldable pub push_rune : Bool → ℕ → List Text → List Text
push_rune true a parts = [] ∷ parts
push_rune false a [] = (a ∷ []) ∷ []
push_rune false a (p ∷ parts) = (a ∷ p) ∷ parts

unfoldable pub split : ℕ → Text → List Text
unfolding push_rune
split c [] = [] ∷ []
split c (a ∷ s) = push_rune (a == c) a (split c s)

-- What stands before and behind the first or the last place of a rune: the two slices that the
-- program takes by the index of strings.Index and strings.LastIndex. `none` is the index -1.
unfoldable pub cut_step : Bool → ℕ → Text → Option (Text × Text) → Option (Text × Text)
cut_step here a s (some (before, behind)) = some (a ∷ before, behind)
cut_step true a s none = some ([], s)
cut_step false a s none = none

unfoldable pub cut_last : ℕ → Text → Option (Text × Text)
unfolding cut_step
cut_last c [] = none
cut_last c (a ∷ s) = cut_step (a == c) a s (cut_last c s)

longer : ℕ → Option (Text × Text) → Option (Text × Text)
longer a none = none
longer a (some (before, behind)) = some (a ∷ before, behind)

unfoldable pub cut_first : ℕ → Text → Option (Text × Text)
unfolding longer
cut_first c [] = none
cut_first c (a ∷ s) = if a == c then some ([], s) else longer a (cut_first c s)

pub cut_first-append :
    (c : ℕ) (before behind : Text)
    → contains_rune c before ≡ false
    → cut_first c (before ++ c ∷ behind) ≡ some (before, behind)
unfolding cut_first contains_rune longer
cut_first-append c [] behind h = ground arith
cut_first-append c (a ∷ before) behind h = ground (arith, cut_first-append c before behind)

cut_last-none : (c : ℕ) (s : Text) → contains_rune c s ≡ false → cut_last c s ≡ none
unfolding cut_last contains_rune
cut_last-none c [] h = refl
cut_last-none c (a ∷ s) h = ground (arith, cut_last-none c s)

pub cut_last-append :
    (c : ℕ) (before behind : Text)
    → contains_rune c behind ≡ false
    → cut_last c (before ++ c ∷ behind) ≡ some (before, behind)
unfolding cut_last
cut_last-append c [] behind h = ground (arith, cut_last-none c behind h)
cut_last-append c (a ∷ before) behind h = rw (cut_last-append c before behind h) refl

unfoldable pub drop_while : (ℕ → Bool) → Text → Text
drop_while p [] = []
drop_while p (a ∷ s) = let rest = drop_while p s in if p a then rest else a ∷ s

-- unicode.IsSpace
unfoldable pub is_space : ℕ → Bool
is_space c =
    (leb 9 c && leb c 13)
    || c == 32
    || c == 0x85
    || c == 0xA0
    || c == 0x1680
    || (leb 0x2000 c && leb c 0x200a)
    || c == 0x2028
    || c == 0x2029
    || c == 0x202f
    || c == 0x205f
    || c == 0x3000

-- strings.TrimSpace
unfoldable pub trim_space : Text → Text
unfolding drop_while is_space
trim_space s = reverse (drop_while is_space (reverse (drop_while is_space s)))

-- strings.TrimRight at one rune
unfoldable pub trim_right : ℕ → Text → Text
unfolding drop_while
trim_right c s = reverse (drop_while (λ a. a == c) (reverse s))

-- strings.ToLower. The two runes outside ASCII whose lower case is an ASCII letter are U+0130 and
-- U+212A; the case of other letters plays no part in a comparison with an ASCII name.
lower_rune : ℕ → ℕ
lower_rune c =
    if leb 65 c && leb c 90
    then c + 32
    else if c == 0x130
    then 105
    else if c == 0x212A
    then 107
    else c

unfoldable pub to_lower : Text → Text
unfolding lower_rune
to_lower s = map lower_rune s

-- strings.Join
unfoldable pub join : Text → List Text → Text
join sep [] = []
join sep (p ∷ []) = p
join sep (p ∷ q ∷ ps) = p ++ sep ++ join sep (q ∷ ps)
