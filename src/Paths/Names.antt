-- ===== src/Paths/Names.antt =====
-- The names that `pathutil.Clean` leaves in a path (internal/pathutil/sanitize.go): none of them is
-- empty, "." or "..", and none holds a slash, so the path stays below the root of a backend.
use callfs.Prelude.{
  ℕ, ◌≡◌, refl, arith, Text, text_eq, trim_prefix, split, join, push_rune, contains_rune, ◌==◌,
  Bool, Bool-cases, true, false, inl, inr, List, [], ◌∷◌, ok, All,
}
use callfs.Paths.{slash, root, is_here, is_up, enter, resolve, rooted_path, clean}
use callfs.Paths.Resolve.{lexical_clean-slash}

abbrev pub IsPlain : Text → Type 0
IsPlain part = (is_here part ≡ false) × (is_up part ≡ false) × (contains_rune slash part ≡ false)

abbrev NoSlash : Text → Type 0
NoSlash part = contains_rune slash part ≡ false

push_rune-NoSlash :
    (here : Bool) (a : ℕ) (parts : List Text)
    → (a == slash) ≡ here
    → All NoSlash parts
    → All NoSlash (push_rune here a parts)
unfolding push_rune contains_rune
push_rune-NoSlash true a parts e h = (refl, h)
push_rune-NoSlash false a [] e h = ground arith
push_rune-NoSlash false a (part ∷ parts) e h = ground arith

split-NoSlash : (s : Text) → All NoSlash (split slash s)
unfolding split contains_rune
split-NoSlash [] = (refl, tt)
split-NoSlash (a ∷ s) = push_rune-NoSlash (a == slash) a (split slash s) refl (split-NoSlash s)

enter-IsPlain :
    (stack : List Text) (part : Text)
    → All IsPlain stack
    → NoSlash part
    → All IsPlain (enter true stack part)
unfolding enter
enter-IsPlain [] part h n = ground arith
enter-IsPlain (top ∷ stack) part h n = ground arith

resolve-IsPlain :
    (stack parts : List Text)
    → All IsPlain stack
    → All NoSlash parts
    → All IsPlain (resolve true stack parts)
unfolding resolve
resolve-IsPlain stack [] h n = h
resolve-IsPlain stack (part ∷ parts) h (q, n) =
    resolve-IsPlain (enter true stack part) parts (enter-IsPlain stack part h q) n

-- Every path that `Clean` lets pass comes back as "/" followed by names, joined by "/", none of which
-- is "", "." or ".." or holds a slash.
pub clean-IsPlain :
    (path cleaned : Text)
    → clean path ≡ ok cleaned
    → (stack : List Text) × (cleaned ≡ rooted_path stack) × All IsPlain stack
unfolding clean join
clean-IsPlain path cleaned h = elim (Bool-cases (text_eq path [])) [
  | inl e ↦ ([], ground arith, tt)
  | inr e ↦ (
    resolve true [] (split slash (trim_prefix path root)),
    ground (arith, lexical_clean-slash (trim_prefix path root)),
    resolve-IsPlain [] (split slash (trim_prefix path root)) tt
        (split-NoSlash (trim_prefix path root)),
  )
]
