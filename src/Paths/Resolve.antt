-- ===== src/Paths/Resolve.antt =====
-- `pathutil.Clean` of internal/pathutil/sanitize.go: the shape of what it returns, and which paths it
-- refuses, against a resolver that fails above the root.
use callfs.Prelude.{
  ℕ, suc, ◌≡◌, ◌≢◌, refl, arith, Text, text_eq, text_eq_iff, has_prefix, trim_prefix_absent, split,
  Bool, true, false, if◌then◌else◌, Option, Option-cases, none, some, inl, inr, List, [], ◌∷◌,
  Result, ok, err, forbidden,
}
use callfs.Paths.{
  slash, root, is_here, is_up, enter, resolve, rooted_path, is_abs, lexical_clean, deepen,
  stays_inside, clean,
}

-- The names of a path from the root, the last one first; `none` is a path that goes above the root.
walk_step : Text → List Text → Option (List Text)
walk_step part stack =
    if is_here part
    then some stack
    else if is_up part
    then elim stack [ [] ↦ none | top ∷ below ↦ some below ]
    else some (part ∷ stack)

pub walk : List Text → List Text → Option (List Text)
walk stack [] = some stack
walk stack (part ∷ parts) = elim (walk_step part stack) [
  | none ↦ none
  | some stack' ↦ walk stack' parts
]

depth : List Text → ℕ
depth [] = 0
depth (part ∷ stack) = suc (depth stack)

depth_of : Option (List Text) → Option ℕ
depth_of none = none
depth_of (some stack) = some (depth stack)

-- The loop's counter is the number of names that the walk holds.
deepen-walk_step :
    (part : Text) (stack : List Text) → deepen (depth stack) part ≡ depth_of (walk_step part stack)
unfolding deepen depth walk_step depth_of
deepen-walk_step part [] = ground arith
deepen-walk_step part (top ∷ stack) = ground arith

-- and the path that `filepath.Clean` makes of a rooted path is the walk's, where that succeeds
enter-walk_step :
    (part : Text) (stack stack' : List Text)
    → walk_step part stack ≡ some stack'
    → enter true stack part ≡ stack'
unfolding enter walk_step
enter-walk_step part [] stack' e = ground arith
enter-walk_step part (top ∷ stack) stack' e = ground arith

pub is_inside : Option (List Text) → Bool
is_inside none = false
is_inside (some _) = true

stays_inside-walk :
    (stack parts : List Text) → stays_inside (depth stack) parts ≡ is_inside (walk stack parts)
unfolding stays_inside walk is_inside depth_of
stays_inside-walk stack [] = refl
stays_inside-walk stack (part ∷ parts) = elim (Option-cases (walk_step part stack)) [
  | inl e ↦ ground (arith, deepen-walk_step part stack)
  | inr (stack', e) ↦ ground (arith, deepen-walk_step part stack, stays_inside-walk stack' parts)
]

resolve-walk :
    (stack parts final : List Text)
    → walk stack parts ≡ some final
    → resolve true stack parts ≡ final
unfolding resolve walk
resolve-walk stack [] final h = cc
resolve-walk stack (part ∷ parts) final h = elim (Option-cases (walk_step part stack)) [
  | inl e ↦ absurd (ground arith)
  | inr (stack', e) ↦
      rw (enter-walk_step part stack stack' e) (resolve-walk stack' parts final (ground arith))
]

-- The answer of `Clean`, from the cleaned path and the walk.
abbrev pub verdict : Text → Option (List Text) → Result Text
verdict cleaned none = if text_eq cleaned root then ok root else err forbidden
verdict cleaned (some stack) = ok (rooted_path stack)

pub lexical_clean-slash :
    (path : Text) → lexical_clean (slash ∷ path) ≡ rooted_path (resolve true [] (split slash path))
unfolding lexical_clean has_prefix split resolve enter is_here text_eq
lexical_clean-slash path = refl

inside_root : (stack : List Text) → has_prefix (rooted_path stack) root ≡ true
unfolding has_prefix
inside_root stack = refl

-- `Clean` on a relative path that is not empty: the path that the names spell from the root, if no
-- step goes above the root; ErrForbidden if one does; but a path that comes back to the root is the
-- root, although some step of it went above.
pub clean-walk :
    (path : Text)
    → path ≢ []
    → is_abs path ≡ false
    → clean path
      ≡ verdict (rooted_path (resolve true [] (split slash path))) (walk [] (split slash path))
unfolding clean depth is_inside
clean-walk path n r =
    let inside = stays_inside-walk [] (split slash path) in
    let stack = resolve true [] (split slash path) in
    rw (trim_prefix_absent path root r, lexical_clean-slash, inside_root stack)
      (elim (Option-cases (walk [] (split slash path))) [
        | inl e ↦ ground (arith, text_eq_iff path [], text_eq_iff (rooted_path stack) root, inside)
        | inr (final, e) ↦ ground (
          arith,
          text_eq_iff path [],
          text_eq_iff (rooted_path stack) root,
          inside,
          resolve-walk [] (split slash path) final e,
        )
      ])
