-- ===== src/Paths/Examples.antt =====
-- Paths on which the theorems on internal/pathutil/sanitize.go and path_utils.go are applied.
use callfs.Prelude.{
  ◌≡◌, refl, Text, text_eq, codes, has_prefix, trim_prefix, split, List, [], All, true, arith,
}
use callfs.Paths.{slash, clean, resolve, rooted_path}
use callfs.Paths.Resolve.{verdict, walk, clean-walk}
use callfs.Paths.Names.{IsPlain, clean-IsPlain}

abbrev dotted : Text
dotted = codes "a/../../b"

clean-walk_example :
    clean dotted
    ≡ verdict (rooted_path (resolve true [] (split slash dotted))) (walk [] (split slash dotted))
unfolding has_prefix
clean-walk_example = clean-walk dotted (λ e. ground arith) refl

clean-IsPlain_example : (stack : List Text) × (codes "/a/c" ≡ rooted_path stack) × All IsPlain stack
unfolding clean text_eq has_prefix callfs.Paths.lexical_clean callfs.Prelude.join resolve split
    trim_prefix callfs.Paths.enter callfs.Paths.stays_inside callfs.Paths.deepen
clean-IsPlain_example = clean-IsPlain (codes "a/./b/../c") (codes "/a/c") refl
