-- ===== src/Paths/Parse.antt =====
-- server/handlers/path_utils.go: `ParseFilePath`, and what a path that it lets pass is made of.
use callfs.Prelude.{
  ℕ, ◌≡◌, ◌⊎◌, Error, refl, ap, arith, Text, text_eq, has_suffix, trim_prefix, trim_suffix,
  contains_rune, cut_last, cut_step, ◌==◌, ==_iff, Bool, Bool-cases, true, false, ◌||◌,
  if◌then◌else◌, Option, none, some, inl, inr, [], ◌∷◌, ◌++◌, Result, ok, err,
}
use callfs.Paths.{slash, root, dot, validate_path, any_refused}

pub record PathInfo : Type 0 where
  pub full_path : Text
  pub parent_path : Text
  pub name : Text
  pub is_directory : Bool
  pub is_invalid : Bool

abbrev pub root_info : PathInfo
root_info = record {
  full_path = root;
  parent_path = root;
  name = [];
  is_directory = true;
  is_invalid = false;
}

abbrev pub invalid_info : PathInfo
invalid_info = record root_info { is_invalid = true }

abbrev pub parent_of : Option (Text × Text) → Text
parent_of none = root
parent_of (some (before, name)) = if text_eq before [] then root else slash ∷ before

abbrev pub name_of : Text → Option (Text × Text) → Text
name_of path none = path
name_of path (some (before, name)) = name

abbrev pub closing : Bool → Text
closing true = root
closing false = []

path_info : Bool → Text → PathInfo
path_info is_directory clean_path = record {
  full_path = (slash ∷ clean_path) ++ closing is_directory;
  parent_path = parent_of (cut_last slash clean_path);
  name = name_of clean_path (cut_last slash clean_path);
  is_directory = is_directory;
  is_invalid = false;
}

parse_clean : Bool → Text → PathInfo
parse_clean is_directory clean_path =
    if text_eq clean_path [] || text_eq clean_path dot
    then root_info
    else if contains_rune b'\\' clean_path
    then invalid_info
    else elim (validate_path clean_path) [
      | ok _ ↦ path_info is_directory clean_path
      | err _ ↦ invalid_info
    ]

-- ParseFilePath
unfoldable pub parse_file_path : Text → PathInfo
unfolding parse_clean path_info
parse_file_path url =
    let url_path = trim_prefix url root in
    parse_clean (has_suffix url_path root) (trim_suffix url_path root)

-- `strings.LastIndex` cuts a text in two around the last place of the rune, if it has one.
abbrev pub Cuts : ℕ → Text → Option (Text × Text) → Type 0
Cuts c s none = contains_rune c s ≡ false
Cuts c s (some (before, behind)) = (s ≡ before ++ c ∷ behind) × (contains_rune c behind ≡ false)

cut_step-Cuts :
    (here : Bool) (a c : ℕ) (s : Text) (o : Option (Text × Text))
    → (a == c) ≡ here
    → Cuts c s o
    → Cuts c (a ∷ s) (cut_step here a s o)
unfolding cut_step contains_rune
cut_step-Cuts here a c s (some (before, behind)) e (same, free) = (ap (λ t. a ∷ t) same, free)
cut_step-Cuts true a c s none e free = (ap (λ b. b ∷ s) ((==_iff a c).0 e), free)
cut_step-Cuts false a c s none e free = ground arith

pub cut_last-Cuts : (c : ℕ) (s : Text) → Cuts c s (cut_last c s)
unfolding cut_last contains_rune
cut_last-Cuts c [] = refl
cut_last-Cuts c (a ∷ s) = cut_step-Cuts (a == c) a c s (cut_last c s) refl (cut_last-Cuts c s)

-- A directory's path and the slash behind it.
abbrev pub below : Text → Text
below parent = if text_eq parent root then root else parent ++ root

validate-cases :
    (path : Text) → (validate_path path ≡ ok tt) ⊎ ((e : Error) × (validate_path path ≡ err e))
validate-cases path = go (validate_path path) refl
  where
    go :
        (r : Result (Unit {0}))
        → validate_path path ≡ r
        → (validate_path path ≡ ok tt) ⊎ ((e : Error) × (validate_path path ≡ err e))
    go (ok tt) e = inl e
    go (err x) e = inr (x, e)

-- What `ParseFilePath` promises of a path other than the root: its parts spell it, the name holds no
-- slash, and no rune in it is a backslash, NUL, a control character or a bidirectional override.
pub record IsParsed (info : PathInfo) : Type 0 where
  pub spelled : info.full_path ≡ below info.parent_path ++ info.name ++ closing info.is_directory
  pub name_free : contains_rune slash info.name ≡ false
  pub path : Text
  pub framed : info.full_path ≡ (slash ∷ path) ++ closing info.is_directory
  pub no_backslash : contains_rune b'\\' path ≡ false
  pub no_null : contains_rune 0 path ≡ false
  pub no_refused : any_refused path ≡ false

parse_clean-framed :
    (d : Bool) (path : Text)
    → (parse_clean d path).is_invalid ≡ false
    → (parse_clean d path ≡ root_info)
      ⊎ ((parse_clean d path).full_path
          ≡ (slash ∷ path) ++ closing (parse_clean d path).is_directory)
unfolding parse_clean path_info
parse_clean-framed d path h = elim (Bool-cases (text_eq path [] || text_eq path dot)) [
  | inl e ↦ inl (rw e)
  | inr e ↦ elim (Bool-cases (contains_rune b'\\' path)) [
    | inl back ↦ absurd (ground arith)
    | inr free ↦ elim (validate-cases path) [
      | inr bad ↦ absurd (ground arith)
      | inl good ↦ rw (e, free, good) (inr refl)
    ]
  ]
]

pub parse_file_path-framed :
    (url : Text)
    → (parse_file_path url).is_invalid ≡ false
    → (parse_file_path url ≡ root_info)
      ⊎ ((path : Text) × ((parse_file_path url).full_path
            ≡ (slash ∷ path) ++ closing (parse_file_path url).is_directory))
unfolding parse_file_path
parse_file_path-framed url h =
    elim (parse_clean-framed (has_suffix (trim_prefix url root) root)
      (trim_suffix (trim_prefix url root) root) h) [
        | inl e ↦ inl e
        | inr e ↦ inr (trim_suffix (trim_prefix url root) root, e)
      ]
