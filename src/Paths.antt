-- ===== src/Paths.antt =====
-- internal/pathutil/sanitize.go (`Clean`, `ValidatePath`), the functions of the package `filepath` that
-- it and the engine call, with Unix separators, and server/handlers/path_utils.go (`ParseFilePath`).
pub mod Resolve
pub mod Names
pub mod Parse
pub mod Shorter
mod Examples
use mathlib.Core.List.{tail}
use callfs.Prelude.{
  ℕ, ◌+◌, ◌-◌, Text, text_eq, codes, has_prefix, trim_prefix, split, join, contains_rune, cut_last,
  leb, ltb, ◌==◌, if◌then◌else◌, Bool, true, false, not, ◌&&◌, ◌||◌, Option, none, some, List, [],
  ◌∷◌, ◌++◌, reverse, Result, ok, err, forbidden, message,
}

abbrev pub slash : ℕ
slash = b'/'

abbrev pub root : Text
root = slash ∷ []

abbrev pub dot : Text
dot = codes "."

abbrev pub dotdot : Text
dotdot = codes ".."

-- "" and "." name the directory itself, ".." its parent.
unfoldable pub is_here : Text → Bool
is_here part = text_eq part [] || text_eq part dot

unfoldable pub is_up : Text → Bool
is_up part = text_eq part dotdot

-- filepath.Clean, one element; the stack has its top at the head. An element ".." goes up, stays at
-- the root of a rooted path, and is kept where an unrooted path has nothing to go up from.
top_is_up : List Text → Bool
unfolding is_up
top_is_up [] = true
top_is_up (top ∷ stack) = is_up top

climb : Bool → Text → List Text → List Text
unfolding top_is_up
climb rooted part stack =
    if rooted then tail stack else if top_is_up stack then part ∷ stack else tail stack

unfoldable pub enter : Bool → List Text → Text → List Text
unfolding climb is_here is_up
enter rooted stack part =
    if is_here part then stack else if is_up part then climb rooted part stack else part ∷ stack

unfoldable pub resolve : Bool → List Text → List Text → List Text
resolve rooted stack [] = stack
resolve rooted stack (part ∷ parts) = resolve rooted (enter rooted stack part) parts

abbrev pub rooted_path : List Text → Text
rooted_path stack = slash ∷ join root (reverse stack)

unrooted_path : List Text → Text
unrooted_path [] = dot
unrooted_path (part ∷ stack) = join root (reverse (part ∷ stack))

abbrev pub is_abs : Text → Bool
is_abs path = has_prefix path root

-- filepath.Clean
unfoldable pub lexical_clean : Text → Text
unfolding unrooted_path
lexical_clean path =
    if is_abs path
    then rooted_path (resolve true [] (split slash path))
    else unrooted_path (resolve false [] (split slash path))

-- filepath.Dir: what stands up to the last slash, cleaned
unfoldable pub dir : Text → Text
dir path = elim (cut_last slash path) [
  | none ↦ dot
  | some (before, _) ↦ lexical_clean (before ++ root)
]

-- The loop of `Clean` that counts the depth; `none` is the return with ErrForbidden.
unfoldable pub deepen : ℕ → Text → Option ℕ
unfolding is_here is_up
deepen depth part =
    if is_here part
    then some depth
    else if is_up part
    then (if depth == 0 then none else some (depth - 1))
    else some (depth + 1)

unfoldable pub stays_inside : ℕ → List Text → Bool
stays_inside depth [] = true
stays_inside depth (part ∷ parts) = elim (deepen depth part) [
  | none ↦ false
  | some depth' ↦ stays_inside depth' parts
]

-- pathutil.Clean
unfoldable pub clean : Text → Result Text
clean path =
    if text_eq path []
    then ok root
    else if is_abs path && not (text_eq path root)
    then err forbidden
    else let cleaned = lexical_clean (slash ∷ trim_prefix path root) in
      if not (has_prefix cleaned root)
      then err forbidden
      else if text_eq cleaned root
      then ok cleaned
      else if stays_inside 0 (split slash (trim_prefix path root))
      then ok cleaned
      else err forbidden

-- The runes that `ValidatePath` refuses: control characters but the tab, and bidirectional overrides.
unfoldable pub is_refused : ℕ → Bool
is_refused c =
    (ltb c 32 && not (c == 9)) || (leb 0x202A c && leb c 0x202E) || (leb 0x2066 c && leb c 0x2069)

unfoldable pub any_refused : Text → Bool
unfolding is_refused
any_refused [] = false
any_refused (c ∷ s) = is_refused c || any_refused s

-- pathutil.ValidatePath
unfoldable pub validate_path : Text → Result (Unit {0})
validate_path path =
    if text_eq path []
    then err (message "path cannot be empty")
    else if contains_rune 0 path
    then err forbidden
    else if any_refused path
    then err forbidden
    else elim (clean path) [ ok _ ↦ ok tt | err e ↦ err e ]
