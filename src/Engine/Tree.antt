-- ===== src/Engine/Tree.antt =====
-- metadata/store.go, as the engine uses it: the store's records as a tree, in which the directory of a
-- record's path has a record, and what `Create` keeps of it.
use mathlib.Core.Path.{subst}
use callfs.Prelude.{
  ◌≡◌, arith, Text, text_eq, text_eq_iff, Bool-cases, true, Option-cases, some, ◌⊎◌, inl, inr, ok,
}
use callfs.Prelude.Map
use callfs.Prelude.Map.{get-put}
use callfs.Metadata.{Metadata}
use callfs.Paths.{dir}
use callfs.Raft.{State}
use callfs.Raft.Store.{Outcome, committed, refused, given_up, create}
use callfs.Raft.Store.Committed.{create_lem}
use callfs.Engine.Directories.{is_top}

abbrev pub Present : Text → State → Type 0
Present path s = (md : Metadata) × (Map.get path s.metadata_by_path ≡ some md)

-- "/" and "." need no record
abbrev pub HasParent : Text → State → Type 0
HasParent path s = (is_top (dir path) ≡ true) ⊎ Present (dir path) s

abbrev pub IsTree : State → Type 0
IsTree s = (path : Text) → Present path s → HasParent path s

pub record Grows (s s' : State) : Type 0 where
  pub keeps : (path : Text) → Present path s → Present path s'
  pub tree : IsTree s → IsTree s'

pub Grows-refl : (s : State) → Grows s s
Grows-refl s = record { keeps = λ path h. h; tree = λ h. h }

pub Grows-trans : {s t u : State} → Grows s t → Grows t u → Grows s u
Grows-trans g h = record {
  keeps = λ path p. h.keeps path (g.keeps path p);
  tree = λ t. h.tree (g.tree t);
}

-- A record is put under a path whose parent is there.
put-Present :
    (path k : Text) (md : Metadata) (s : State)
    → Present k s
    → Present k (record s { metadata_by_path = Map.put path md s.metadata_by_path })
put-Present path k md s (x, e) = elim (Bool-cases (text_eq path k)) [
  | inl same ↦ (md, ground (arith, get-put path k md s.metadata_by_path))
  | inr other ↦ (x, ground (arith, get-put path k md s.metadata_by_path))
]

put-HasParent :
    (path k : Text) (md : Metadata) (s : State)
    → HasParent k s
    → HasParent k (record s { metadata_by_path = Map.put path md s.metadata_by_path })
put-HasParent path k md s (inl top) = inl top
put-HasParent path k md s (inr there) = inr (put-Present path (dir k) md s there)

put-Grows :
    (path : Text) (md : Metadata) (s : State)
    → HasParent path s
    → Grows s (record s { metadata_by_path = Map.put path md s.metadata_by_path })
put-Grows path md s parent = record {
  keeps = λ k h. put-Present path k md s h;
  tree = λ t k (x, e). elim (Bool-cases (text_eq path k)) [
    | inl same ↦
        subst
          (λ j. HasParent j (record s { metadata_by_path = Map.put path md s.metadata_by_path }))
          ((text_eq_iff path k).0 same) (put-HasParent path path md s parent)
    | inr other ↦
        put-HasParent path k md s (t k (x, ground (arith, get-put path k md s.metadata_by_path)))
  ];
}

pub create-Grows :
    (o : Outcome) (md : Metadata) (s : State) → HasParent md.path s → Grows s (create o md s).1
create-Grows (refused e) md s h = rw (create_lem (refused e) md s) (Grows-refl s)
create-Grows (given_up x t) md s h = elim (Option-cases (Map.get md.path s.metadata_by_path)) [
  | inl e ↦ rw (create_lem (given_up x t) md s, e) (put-Grows md.path md s h)
  | inr (y, e) ↦ rw (create_lem (given_up x t) md s, e) (Grows-refl s)
]
create-Grows (committed t) md s h = elim (Option-cases (Map.get md.path s.metadata_by_path)) [
  | inl e ↦ rw (create_lem (committed t) md s, e) (put-Grows md.path md s h)
  | inr (x, e) ↦ rw (create_lem (committed t) md s, e) (Grows-refl s)
]

pub create-Present :
    (o : Outcome) (md : Metadata) (s : State)
    → (create o md s).0 ≡ ok tt
    → Map.get md.path (create o md s).1.metadata_by_path ≡ some md
create-Present (refused e) md s h = absurd (ground (arith, create_lem (refused e) md s))
create-Present (given_up x t) md s h = absurd (ground (arith, create_lem (given_up x t) md s))
create-Present (committed t) md s h = elim (Option-cases (Map.get md.path s.metadata_by_path)) [
  | inl e ↦
      rw (create_lem (committed t) md s, e)
        (ground (arith, get-put md.path md.path md s.metadata_by_path, text_eq_iff md.path md.path))
  | inr (x, e) ↦ absurd (ground (arith, create_lem (committed t) md s))
]
