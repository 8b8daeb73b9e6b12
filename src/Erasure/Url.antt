-- ===== src/Erasure/Url.antt =====
-- erasure/manager.go, which makes URLs out of shards' prefixes: what the packages net/url and net/http make
-- of the path of such a URL on its way to the peer.
use callfs.Prelude.{
  ℕ, ◌+◌, ◌-◌, ◌*◌, ◌≤◌, ◌≡◌, ◌⊎◌, refl, arith, inl, inr, Text, ltb, leb, ◌==◌, ◌&&◌, ◌||◌,
  if◌then◌else◌, Option, none, some, [], ◌∷◌, ◌++◌, All,
}

-- What a rune does in the path of a URL: it ends the path, starts an escape, is refused, or is itself.
pub data Role : Type 0 where
  ends : Role
  escapes : Role
  refused_rune : Role
  itself : Role

unfoldable pub role : ℕ → Role
role c =
    if (c == b'?') || (c == b'#')
    then ends
    else if c == b'%'
    then escapes
    else if ltb c 32 || (c == 127)
    then refused_rune
    else itself

hex_value : ℕ → Option ℕ
hex_value c =
    if leb b'0' c && leb c b'9'
    then some (c - 48)
    else if leb b'a' c && leb c b'f'
    then some (c - 87)
    else if leb b'A' c && leb c b'F'
    then some (c - 55)
    else none

pushed : ℕ → Option Text → Option Text
pushed c none = none
pushed c (some s) = some (c ∷ s)

-- Where the reader stands: outside an escape, behind its "%", or behind its first digit.
pub data Place : Type 0 where
  outside : Place
  first_digit : Place
  second_digit : ℕ → Place

-- The path with its escapes undone; `none` is a URL that is refused. An escaped byte stands as it is, and
-- what follows the path is not read.
url_from : Place → Text → Option Text
unfolding role hex_value pushed
url_from outside [] = some []
url_from first_digit [] = none
url_from (second_digit h) [] = none
url_from outside (c ∷ s) = elim (role c) [
  | ends ↦ some []
  | escapes ↦ url_from first_digit s
  | refused_rune ↦ none
  | itself ↦ pushed c (url_from outside s)
]
url_from first_digit (c ∷ s) = elim (hex_value c) [
  | none ↦ none
  | some h ↦ url_from (second_digit h) s
]
url_from (second_digit h) (c ∷ s) = elim (hex_value c) [
  | none ↦ none
  | some l ↦ pushed (16 * h + l) (url_from outside s)
]

unfoldable pub url_path : Text → Option Text
unfolding url_from
url_path s = url_from outside s

-- Digits, small letters, slashes and hyphens stand for themselves.
abbrev pub IsOrdinary : ℕ → Type 0
IsOrdinary c = ((45 ≤ c) × (c ≤ 57)) ⊎ ((97 ≤ c) × (c ≤ 122))

ordinary_itself : (c : ℕ) → IsOrdinary c → role c ≡ itself
unfolding role
ordinary_itself c (inl (low, high)) = ground arith
ordinary_itself c (inr (low, high)) = ground arith

url_from-All : (s : Text) → All IsOrdinary s → url_from outside s ≡ some s
unfolding url_from pushed
url_from-All [] h = refl
url_from-All (c ∷ s) (plain, h) = rw (ordinary_itself c plain, url_from, url_from-All s h) refl

pub url_path-All : (s : Text) → All IsOrdinary s → url_path s ≡ some s
unfolding url_path
url_path-All s h = url_from-All s h

pub All-append : (s t : Text) → All IsOrdinary s → All IsOrdinary t → All IsOrdinary (s ++ t)
All-append [] t h k = k
All-append (c ∷ s) t (plain, h) k = (plain, All-append s t h k)
