-- ===== src/Engine/Listing/Below.antt =====
-- core/directory_operations.go: which records `ListDirectoryRecursive` lists.
use mathlib.Core.Path.{subst}
use callfs.Prelude.{
  ℕ, zero, suc, pos, negsuc, ◌≡◌, ◌↔◌, ◌⊎◌, refl, sym, arith, inl, inr, Text, text_eq, Bool,
  if◌then◌else◌, true, false, List, [], ◌∷◌, ◌++◌, Result, ok, err,
}
use callfs.Metadata.{Metadata, directory}
use callfs.Raft.{State}
use callfs.Engine.Listing.{
  list_directory, or_nothing, subdirectories, with_subdirectories, list_levels,
  list_directory_recursive,
}

abbrev pub In : {A : Type 0} → A → List A → Type 0
In x [] = ⊥
In x (y ∷ ys) = (y ≡ x) ⊎ In x ys

-- what stands in a directory, or in a directory that stands there, down to so many levels
abbrev pub Under : State → ℕ → Text → Metadata → Type 0
Under s zero path md = ⊥
Under s (suc levels) path md =
    (children : List Metadata) × (list_directory path s ≡ ok children)
    × (In md children
        ⊎ ((child : Metadata) × In child children
            × (text_eq child.type directory ≡ true)
            × Under s levels child.path md))

In-append_left : {A : Type 0} (x : A) (xs ys : List A) → In x xs → In x (xs ++ ys)
In-append_left x [] ys h = elim h [ ]
In-append_left x (z ∷ xs) ys (inl e) = inl e
In-append_left x (z ∷ xs) ys (inr h) = inr (In-append_left x xs ys h)

In-append_right : {A : Type 0} (x : A) (xs ys : List A) → In x ys → In x (xs ++ ys)
In-append_right x [] ys h = h
In-append_right x (z ∷ xs) ys h = inr (In-append_right x xs ys h)

In-append : {A : Type 0} (x : A) (xs ys : List A) → In x (xs ++ ys) → In x xs ⊎ In x ys
In-append x [] ys h = inr h
In-append x (z ∷ xs) ys (inl e) = inl (inl e)
In-append x (z ∷ xs) ys (inr h) = elim (In-append x xs ys h) [ inl a ↦ inl (inr a) | inr b ↦ inr b ]

module _ (sub : Text → Result (List Metadata)) (md : Metadata) where
  abbrev InSome : List Metadata → Type 0
  InSome children =
      (child : Metadata) × In child children
      × (text_eq child.type directory ≡ true)
      × In md (or_nothing (sub child.path))

  in_tail : (c : Metadata) (cs : List Metadata) → InSome cs → InSome (c ∷ cs)
  in_tail c cs (child, i, d, h) = (child, inr i, d, h)

  subdirectories-InSome : (cs : List Metadata) → In md (subdirectories sub cs) → InSome cs
  unfolding subdirectories
  subdirectories-InSome [] h = elim h [ ]
  subdirectories-InSome (c ∷ cs) h =
      by_type (text_eq c.type directory) refl (subdirectories-InSome cs) h
    where
      by_type :
          (b : Bool)
          → text_eq c.type directory ≡ b
          → (In md (subdirectories sub cs) → InSome cs)
          → In md (
              if b then or_nothing (sub c.path) ++ subdirectories sub cs else subdirectories sub cs)
          → InSome (c ∷ cs)
      by_type true e rest q =
          elim (In-append md (or_nothing (sub c.path)) (subdirectories sub cs) q) [
            | inl a ↦ (c, inl refl, e, a)
            | inr b ↦ in_tail c cs (rest b)
          ]
      by_type false e rest q = in_tail c cs (rest q)

  In-head :
      (c child : Metadata) (more : List Metadata)
      → c ≡ child
      → text_eq child.type directory ≡ true
      → In md (or_nothing (sub child.path))
      → In md (if text_eq c.type directory then or_nothing (sub c.path) ++ more else more)
  In-head c child more e d h =
      subst
        (λ x. In md (if text_eq x.type directory then or_nothing (sub x.path) ++ more else more))
        (sym e) (rw d (In-append_left md (or_nothing (sub child.path)) more h))

  In-rest :
      (c : Metadata) (more : List Metadata) (b : Bool)
      → In md more
      → In md (if b then or_nothing (sub c.path) ++ more else more)
  In-rest c more true q = In-append_right md (or_nothing (sub c.path)) more q
  In-rest c more false q = q

  InSome-subdirectories : (cs : List Metadata) → InSome cs → In md (subdirectories sub cs)
  unfolding subdirectories
  InSome-subdirectories [] (child, i, d, h) = elim i [ ]
  InSome-subdirectories (c ∷ cs) (child, inl e, d, h) =
      In-head c child (subdirectories sub cs) e d h
  InSome-subdirectories (c ∷ cs) (child, inr i, d, h) =
      In-rest c (subdirectories sub cs) (text_eq c.type directory)
        (InSome-subdirectories cs (child, i, d, h))

-- the records that a listing of so many levels holds
list_levels-Under :
    (s : State) (levels : ℕ) (path : Text) (md : Metadata)
    → In md (or_nothing (list_levels levels path s)) ↔ Under s levels path md
unfolding list_levels or_nothing
list_levels-Under s zero path md = (λ h. h, λ h. h)
list_levels-Under s (suc levels) path md =
    by_listing (list_directory path s) refl (λ child. (list_levels-Under s levels child md).0)
      (λ child. (list_levels-Under s levels child md).1)
  where
    sub : Text → Result (List Metadata)
    sub child = list_levels levels child s

    by_listing :
        (r : Result (List Metadata))
        → list_directory path s ≡ r
        → ((child : Text) → In md (or_nothing (sub child)) → Under s levels child md)
        → ((child : Text) → Under s levels child md → In md (or_nothing (sub child)))
        → In md (or_nothing (with_subdirectories sub r)) ↔ (
            (children : List Metadata) × (r ≡ ok children)
            × (In md children
                ⊎ ((child : Metadata) × In child children
                    × (text_eq child.type directory ≡ true)
                    × Under s levels child.path md)))
    by_listing (err e) l to back = (λ h. elim h [ ], λ (children, q, h). absurd (ground arith))
    by_listing (ok cs) l to back = (
      λ h. elim (In-append md cs (subdirectories sub cs) h) [
        | inl here ↦ (cs, refl, inl here)
        | inr deeper ↦
            let (child, i, d, q) = subdirectories-InSome sub md cs deeper in
            (cs, refl, inr (child, i, d, to child.path q))
      ],
      λ (children, same, h). spread (subst OneOf (sym (children_of same)) h),
    )
      where
        OneOf : List Metadata → Type 0
        OneOf xs =
            In md xs
            ⊎ ((child : Metadata) × In child xs
                × (text_eq child.type directory ≡ true)
                × Under s levels child.path md)

        children_of : {xs : List Metadata} → ok cs ≡ ok xs → cs ≡ xs
        children_of e = ground arith

        spread : OneOf cs → In md (cs ++ subdirectories sub cs)
        spread (inl here) = In-append_left md cs (subdirectories sub cs) here
        spread (inr (child, i, d, u)) =
            In-append_right md cs (subdirectories sub cs)
              (InSome-subdirectories sub md cs (child, i, d, back child.path u))

-- `ListDirectoryRecursive` lists the children of the directory, and below every directory among them
-- again, down to the depth asked for; a negative depth stands for 100. It lists nothing else. A path
-- that has no directory's record, below or at the top, has no children.
pub list_directory_recursive-Under :
    (s : State) (path : Text) (depth : ℕ) (md : Metadata)
    → (In md (or_nothing (list_directory_recursive path (pos depth) s))
        ↔ Under s (suc depth) path md)
      × (In md (or_nothing (list_directory_recursive path (negsuc depth) s)) ↔ Under s 101 path md)
unfolding list_directory_recursive
list_directory_recursive-Under s path depth md =
    (list_levels-Under s (suc depth) path md, list_levels-Under s 101 path md)
