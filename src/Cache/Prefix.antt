-- ===== src/Cache/Prefix.antt =====
-- core/cache.go: which paths `InvalidatePrefix` takes out of the cache.
use callfs.Prelude.{
  ℕ, ◌≡◌, ◌⊎◌, refl, arith, Text, text_eq, text_eq_iff, codes, Bool-cases, true, none, inl, inr,
  ◌++◌, has_prefix-append, has_prefix-rest,
}
use callfs.Cache.{MetadataCache, get, is_under, invalidate_prefix}
use callfs.Cache.Freshness.{get-invalidate_prefix}

-- The path is the prefix, or it goes on behind the prefix with a slash.
abbrev pub IsBelow : Text → Text → Type 0
IsBelow prefix path = (path ≡ prefix) ⊎ ((rest : Text) × (path ≡ (prefix ++ codes "/") ++ rest))

is_under_sound : (prefix path : Text) → is_under prefix path ≡ true → IsBelow prefix path
unfolding is_under
is_under_sound prefix path h = elim (Bool-cases (text_eq path prefix)) [
  | inl same ↦ inl ((text_eq_iff path prefix).0 same)
  | inr other ↦ inr (has_prefix-rest path (prefix ++ codes "/") (ground arith))
]

is_under_complete : (prefix path : Text) → IsBelow prefix path → is_under prefix path ≡ true
unfolding is_under
is_under_complete prefix path (inl e) = rw ((text_eq_iff path prefix).1 e) refl
is_under_complete prefix path (inr (rest, e)) =
    rw e (ground (arith, has_prefix-append (prefix ++ codes "/") rest))

-- After `InvalidatePrefix` no path that is the prefix, or goes on behind it with a slash, is answered from
-- the cache; every other path, one that only starts with the same letters included, is answered as before.
pub invalidate_prefix-IsBelow :
    (prefix path : Text) (now : ℕ) (c : MetadataCache)
    → (IsBelow prefix path → get path now (invalidate_prefix prefix c) ≡ none)
      × (¬ IsBelow prefix path → get path now (invalidate_prefix prefix c) ≡ get path now c)
invalidate_prefix-IsBelow prefix path now c = (
  λ b. rw (get-invalidate_prefix prefix path now c, is_under_complete prefix path b) refl,
  λ apart. elim (Bool-cases (is_under prefix path)) [
    | inl under ↦ absurd (apart (is_under_sound prefix path under))
    | inr outside ↦ rw (get-invalidate_prefix prefix path now c, outside) refl
  ],
)
