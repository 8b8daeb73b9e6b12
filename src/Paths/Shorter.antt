-- ===== src/Paths/Shorter.antt =====
-- filepath.Dir, as internal/pathutil and core/backend_selection.go call it: the directory of a path is
-- shorter than the path, so that a recursion on it ends.
use mathlib.Core.List.{reverse-cons}
use mathlib.Core.Path.{subst}
use callfs.Prelude.{
  ℕ, suc, ◌+◌, ◌<◌, ◌≤◌, ◌≡◌, ◌⊎◌, inl, inr, refl, sym, ap, arith, Text, length, split, join,
  push_rune, cut_last, Bool, Bool-cases, true, false, Option, none, some, List, [], ◌∷◌, ◌++◌,
  reverse, ◌==◌, ==_iff,
}
use callfs.Paths.{
  slash, root, dot, dir, enter, resolve, rooted_path, unrooted_path, lexical_clean, is_abs,
}
use callfs.Paths.Parse.{Cuts, cut_last-Cuts}
use callfs.Paths.Resolve.{lexical_clean-slash}

-- the runes of the names, each with one slash
weight : List Text → ℕ
weight [] = 0
weight (part ∷ parts) = suc (length part + weight parts)

weight-push_rune :
    (here : Bool) (a : ℕ) (parts : List Text)
    → 1 ≤ weight parts
    → weight (push_rune here a parts) ≡ suc (weight parts)
unfolding weight push_rune length
weight-push_rune true a parts h = omega arith
weight-push_rune false a [] h = absurd (omega arith)
weight-push_rune false a (part ∷ parts) h = omega arith

weight-split : (s : Text) → weight (split slash s) ≡ suc (length s)
unfolding weight split length
weight-split [] = refl
weight-split (a ∷ s) = omega (
  arith,
  weight-split s,
  weight-push_rune (a == slash) a (split slash s) (omega (arith, weight-split s)),
)

weight-enter :
    (rooted : Bool) (stack : List Text) (part : Text)
    → weight (enter rooted stack part) ≤ weight stack + suc (length part)
unfolding weight enter
weight-enter rooted [] part = ground arith
weight-enter rooted (top ∷ stack) part = ground arith

weight-resolve :
    (rooted : Bool) (stack parts : List Text)
    → weight (resolve rooted stack parts) ≤ weight stack + weight parts
unfolding weight resolve
weight-resolve rooted stack [] = omega arith
weight-resolve rooted stack (part ∷ parts) =
    omega
      (arith, weight-enter rooted stack part, weight-resolve rooted (enter rooted stack part) parts)

weight-append : (parts more : List Text) → weight (parts ++ more) ≡ weight parts + weight more
unfolding weight
weight-append [] more = omega arith
weight-append (part ∷ parts) more = omega (arith, weight-append parts more)

pub length-append : (s t : Text) → length (s ++ t) ≡ length s + length t
unfolding length
length-append [] t = omega arith
length-append (a ∷ s) t = omega (arith, length-append s t)

length-join : (parts : List Text) → 1 ≤ weight parts → suc (length (join root parts)) ≡ weight parts
unfolding weight join length
length-join [] h = absurd (omega arith)
length-join (part ∷ []) h = omega arith
length-join (part ∷ next ∷ parts) h = omega (
  arith,
  spelled part next parts,
  length-append (part ++ root) (join root (next ∷ parts)),
  length-append part root,
  length-join (next ∷ parts) (omega arith),
)
  where
    spelled :
        (p n : Text) (ps : List Text)
        → length (join root (p ∷ n ∷ ps)) ≡ length ((p ++ root) ++ join root (n ∷ ps))
    spelled p n ps = refl

push_rune-append :
    (here : Bool) (a : ℕ) (parts more : List Text)
    → 1 ≤ weight parts
    → push_rune here a (parts ++ more) ≡ push_rune here a parts ++ more
unfolding weight push_rune
push_rune-append true a parts more h = refl
push_rune-append false a [] more h = absurd (omega arith)
push_rune-append false a (part ∷ parts) more h = refl

split-slash_last : (s : Text) → split slash (s ++ root) ≡ split slash s ++ ([] ∷ [])
unfolding split push_rune
split-slash_last [] = refl
split-slash_last (a ∷ s) =
    rw (split-slash_last s)
      (push_rune-append (a == slash) a (split slash s) ([] ∷ []) (omega (arith, weight-split s)))

resolve-empty_last :
    (rooted : Bool) (stack parts : List Text)
    → resolve rooted stack (parts ++ ([] ∷ [])) ≡ resolve rooted stack parts
unfolding resolve enter callfs.Paths.is_here callfs.Prelude.text_eq
resolve-empty_last rooted stack [] = refl
resolve-empty_last rooted stack (part ∷ parts) =
    resolve-empty_last rooted (enter rooted stack part) parts

resolve-slash_last :
    (rooted : Bool) (s : Text)
    → resolve rooted [] (split slash (s ++ root)) ≡ resolve rooted [] (split slash s)
resolve-slash_last rooted s = rw (split-slash_last s) (resolve-empty_last rooted [] (split slash s))

weight-reverse : (parts : List Text) → weight (reverse parts) ≡ weight parts
unfolding weight
weight-reverse [] = refl
weight-reverse (part ∷ parts) =
    rw (reverse-cons part parts)
      (omega (arith, weight-append (reverse parts) (part ∷ []), weight-reverse parts))

-- `Dir` of what stands before a slash, which is not empty
abbrev IsShort : ℕ → Text → Type 0
IsShort n path = (path ≡ root) ⊎ ((path ≡ dot) ⊎ (length path ≤ n))

rooted_path-IsShort : (stack : List Text) (n : ℕ) → weight stack ≤ n → IsShort n (rooted_path stack)
unfolding join weight length
rooted_path-IsShort [] n h = inl refl
rooted_path-IsShort (top ∷ stack) n h = inr (
    inr (
      omega (
        arith,
        weight-reverse (top ∷ stack),
        length-join (reverse (top ∷ stack)) (omega (arith, weight-reverse (top ∷ stack))),
      )))

unrooted_path-IsShort :
    (stack : List Text) (n : ℕ) → weight stack ≤ suc n → IsShort n (unrooted_path stack)
unfolding unrooted_path weight length
unrooted_path-IsShort [] n h = inr (inl refl)
unrooted_path-IsShort (top ∷ stack) n h = inr (
    inr (
      omega (
        arith,
        weight-reverse (top ∷ stack),
        length-join (reverse (top ∷ stack)) (omega (arith, weight-reverse (top ∷ stack))),
      )))

lexical_clean-unrooted :
    (path : Text)
    → is_abs path ≡ false
    → lexical_clean path ≡ unrooted_path (resolve false [] (split slash path))
unfolding lexical_clean
lexical_clean-unrooted path e = rw e refl

weight-resolve-split :
    (rooted : Bool) (s : Text)
    → weight (resolve rooted [] (split slash (s ++ root))) ≤ suc (length s)
unfolding weight
weight-resolve-split rooted s =
    rw (resolve-slash_last rooted s)
      (omega (arith, weight-resolve rooted [] (split slash s), weight-split s))

lexical_clean-IsShort :
    (a : ℕ) (s : Text) → IsShort (suc (length s)) (lexical_clean (a ∷ (s ++ root)))
unfolding length callfs.Prelude.has_prefix
lexical_clean-IsShort a s = elim (Bool-cases (a == slash)) [
  | inl e ↦
      subst (λ c. IsShort (suc (length s)) (lexical_clean (c ∷ (s ++ root))))
        (sym ((==_iff a slash).0 e))
        (rw (lexical_clean-slash (s ++ root)) (
          rooted_path-IsShort (resolve true [] (split slash (s ++ root))) (suc (length s))
            (weight-resolve-split true s)))
  | inr e ↦ rw (lexical_clean-unrooted (a ∷ (s ++ root)) (ground arith)) (
      unrooted_path-IsShort (resolve false [] (split slash (a ∷ (s ++ root)))) (suc (length s))
        (weight-resolve-split false (a ∷ s)))
]

lexical_clean-root : lexical_clean root ≡ root
unfolding lexical_clean resolve split enter callfs.Paths.is_here callfs.Prelude.text_eq push_rune
    callfs.Prelude.has_prefix join
lexical_clean-root = refl

dir-cut :
    (path : Text) (o : Option (Text × Text))
    → Cuts slash path o
    → cut_last slash path ≡ o
    → (dir path ≡ root) ⊎ ((dir path ≡ dot) ⊎ (length (dir path) < length path))
unfolding dir length
dir-cut path none c e = inr (inl (rw (e, dir) refl))
dir-cut path (some ([], name)) c e = inl (rw (e, dir, lexical_clean-root))
dir-cut path (some (a ∷ before, name)) (same, free) e = elim (lexical_clean-IsShort a before) [
  | inl r ↦ inl (rw (e, dir, r))
  | inr (inl d) ↦ inr (inl (rw (e, dir, d)))
  | inr (inr l) ↦ inr (
      inr
        (rw (e, dir) (omega (arith, l, ap length same, length-append (a ∷ before) (slash ∷ name)))))
]

-- `Dir` answers "/", "." or a path that is shorter than the one it is given.
pub dir-shorter :
    (path : Text) → (dir path ≡ root) ⊎ ((dir path ≡ dot) ⊎ (length (dir path) < length path))
dir-shorter path = dir-cut path (cut_last slash path) (cut_last-Cuts slash path) refl
