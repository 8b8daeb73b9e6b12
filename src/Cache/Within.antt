-- ===== src/Cache/Within.antt =====
-- core/cache.go: what evictions, removals and another order of the map leave of its entries.
use mathlib.Core.Path.{subst}
use callfs.Prelude.{
  ℕ, ◌≡◌, refl, sym, arith, Text, text_eq, text_eq_iff, text_eq_refl, if◌then◌else◌, Bool-cases,
  Option, Option-cases, none, some, inl, inr, [], ◌∷◌,
}
use callfs.Prelude.Map
use callfs.Prelude.Map.{
  Map, get-put, get-remove, get-sweep, Distinct-put, Distinct-remove, Distinct-sweep,
}
use callfs.Cache.{
  CacheEntry, is_expired, evict_first, evict_expired, evict_one_entry, is_under, drop_under,
  moved_first,
}

-- Nothing appears and no key comes twice: what an eviction and a prefix's removal leave of a map.
abbrev pub Within : Map CacheEntry → Map CacheEntry → Type 0
Within m' m = (path : Text) (e : CacheEntry) → Map.get path m' ≡ some e → Map.get path m ≡ some e

Within-none :
    (m' m : Map CacheEntry) (path : Text)
    → Within m' m
    → Map.get path m ≡ none
    → Map.get path m' ≡ none
Within-none m' m path w h = elim (Option-cases (Map.get path m')) [
  | inl e ↦ e
  | inr (x, e) ↦ let found = w path x e in absurd (ground arith)
]

Within-cons :
    (path : Text) (entry : CacheEntry) (m' m : Map CacheEntry)
    → Within m' m
    → Within ((path, entry) ∷ m') ((path, entry) ∷ m)
unfolding Map.get
Within-cons path entry m' m w p e h = ground (arith, w p e)

Within-tail :
    (path : Text) (entry : CacheEntry) (m : Map CacheEntry)
    → Map.get path m ≡ none
    → Within m ((path, entry) ∷ m)
unfolding Map.get
Within-tail path entry m new p e h = elim (Bool-cases (text_eq path p)) [
  | inl same ↦
      let gone : Map.get p m ≡ none =
        subst (λ k. Map.get k m ≡ none) ((text_eq_iff path p).0 same) new in
      absurd (ground arith)
  | inr other ↦ ground arith
]

evict_expired-Within :
    (now : ℕ) (m : Map CacheEntry) {m' : Map CacheEntry}
    → Map.Distinct m
    → evict_expired now m ≡ some m'
    → Map.Distinct m' × Within m' m
unfolding evict_expired
evict_expired-Within now [] d e = absurd (ground arith)
evict_expired-Within now ((path, entry) ∷ m) {m'} (new, d) e =
    elim (Bool-cases (is_expired now entry)) [
      | inl over ↦
          let same : m ≡ m' = ground arith in
          subst (λ k. Map.Distinct k × Within k ((path, entry) ∷ m)) same
            (d, Within-tail path entry m new)
      | inr fresh ↦ elim (Option-cases (evict_expired now m)) [
        | inl nothing ↦ absurd (ground arith)
        | inr (r, found) ↦
            let same : (path, entry) ∷ r ≡ m' = ground arith in
            let rest = evict_expired-Within now m d found in
            subst (λ k. Map.Distinct k × Within k ((path, entry) ∷ m)) same
              ((Within-none r m path rest.1 new, rest.0), Within-cons path entry r m rest.1)
      ]
    ]

pub evict_one_entry-Within :
    (now : ℕ) (m : Map CacheEntry)
    → Map.Distinct m
    → Map.Distinct (evict_one_entry now m) × Within (evict_one_entry now m) m
unfolding evict_one_entry evict_first
evict_one_entry-Within now m d = elim (Option-cases (evict_expired now m)) [
  | inr (m', e) ↦ rw (e, evict_one_entry) (evict_expired-Within now m d e)
  | inl e ↦ rw (e, evict_one_entry) (first m d)
]
  where
    first :
        (m : Map CacheEntry)
        → Map.Distinct m
        → Map.Distinct (evict_first m) × Within (evict_first m) m
    first [] d = (tt, λ p e h. h)
    first ((path, entry) ∷ m) (new, d) = (d, Within-tail path entry m new)

pub drop_under-get :
    (prefix path : Text) (m : Map CacheEntry)
    → Map.get path (drop_under prefix m) ≡ (if is_under prefix path then none else Map.get path m)
unfolding drop_under Map.get
drop_under-get prefix path [] = ground arith
drop_under-get prefix path ((p, entry) ∷ m) = elim (Bool-cases (text_eq p path)) [
  | inl same ↦
      let is_path : p ≡ path = (text_eq_iff p path).0 same in
      rw is_path (ground (arith, text_eq_refl path, drop_under-get prefix path m))
  | inr other ↦ ground (arith, drop_under-get prefix path m)
]

pub drop_under-Distinct :
    (prefix : Text) (m : Map CacheEntry) → Map.Distinct m → Map.Distinct (drop_under prefix m)
unfolding drop_under
drop_under-Distinct prefix [] d = tt
drop_under-Distinct prefix ((p, entry) ∷ m) (new, d) =
    ground (arith, drop_under-get prefix p m, drop_under-Distinct prefix m d)

pub moved_first-get :
    (p path : Text) (o : Option CacheEntry) (m : Map CacheEntry)
    → Map.get p m ≡ o
    → Map.get path (moved_first p o m) ≡ Map.get path m
unfolding moved_first Map.get
moved_first-get p path none m e = refl
moved_first-get p path (some entry) m e = elim (Bool-cases (text_eq p path)) [
  | inl same ↦ rw same (sym (subst (λ k. Map.get k m ≡ some entry) ((text_eq_iff p path).0 same) e))
  | inr other ↦ ground (arith, get-remove p path m)
]

pub moved_first-Distinct :
    (p : Text) (o : Option CacheEntry) (m : Map CacheEntry)
    → Map.Distinct m
    → Map.Distinct (moved_first p o m)
unfolding moved_first
moved_first-Distinct p none m d = d
moved_first-Distinct p (some entry) m d =
    (ground (arith, get-remove p p m, text_eq_refl p), Distinct-remove p m d)
