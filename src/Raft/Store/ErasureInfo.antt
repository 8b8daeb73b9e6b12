-- ===== src/Raft/Store/ErasureInfo.antt =====
-- metadata/raft/erasure.go: the records of erasure-coded files in the replicated state.
use callfs.Prelude.{
  ◌≡◌, refl, arith, Text, text_eq, text_eq_refl, Option-cases, false, inl, inr, ok, err, not_found,
}
use callfs.Prelude.Map
use callfs.Prelude.Map.{get-put, get-remove}
use callfs.Metadata.{ErasureFileInfo}
use callfs.Raft.{State, apply, apply_op, apply_create_erasure_info, apply_delete_erasure_info}
use callfs.Raft.Store.{
  Outcome, committed, refused, given_up, apply_as_leader, answered, answer_of, error_of, found,
  create_erasure, get_erasure_info, delete_erasure,
}

created_table :
    (o : Outcome) (path : Text) (info : ErasureFileInfo) (s : State)
    → (create_erasure o path info s).0 ≡ ok tt
    → (create_erasure o path info s).1.erasure_by_path ≡ Map.put path info s.erasure_by_path
unfolding create_erasure apply_as_leader answered answer_of error_of apply apply_op
    apply_create_erasure_info
created_table (refused e) path info s h = absurd (ground arith)
created_table (given_up e t) path info s h = absurd (ground arith)
created_table (committed t) path info s h = elim (Option-cases (Map.get path s.erasure_by_path)) [
  | inl e ↦ rw (e, apply_create_erasure_info)
  | inr (old, e) ↦ absurd (ground arith)
]

deleted_table :
    (o : Outcome) (path : Text) (s : State)
    → (delete_erasure o path s).0 ≡ ok tt
    → (delete_erasure o path s).1.erasure_by_path ≡ Map.remove path s.erasure_by_path
unfolding delete_erasure apply_as_leader answered answer_of error_of apply apply_op
    apply_delete_erasure_info
deleted_table (refused e) path s h = absurd (ground arith)
deleted_table (given_up e t) path s h = absurd (ground arith)
deleted_table (committed t) path s h = refl

pub create_erasure-get :
    (o : Outcome) (path : Text) (info : ErasureFileInfo) (s : State)
    → (create_erasure o path info s).0 ≡ ok tt
    → get_erasure_info path (create_erasure o path info s).1 ≡ ok info
unfolding get_erasure_info found
create_erasure-get o path info s h = ground (
  arith,
  created_table o path info s h,
  get-put path path info s.erasure_by_path,
  text_eq_refl path,
)

-- A record of an erasure-coded file that has been created is read back, and once it is deleted it is not
-- found; the records of other paths are read as before, after each of the two.
pub create-get-delete_erasure :
    (o o' : Outcome) (path other : Text) (info : ErasureFileInfo) (s : State)
    → text_eq path other ≡ false
    → (create_erasure o path info s).0 ≡ ok tt
    → (delete_erasure o' path (create_erasure o path info s).1).0 ≡ ok tt
    → (get_erasure_info path (create_erasure o path info s).1 ≡ ok info)
      × (get_erasure_info other (create_erasure o path info s).1 ≡ get_erasure_info other s)
      × (get_erasure_info path (delete_erasure o' path (create_erasure o path info s).1).1
          ≡ err not_found)
      × (get_erasure_info other (delete_erasure o' path (create_erasure o path info s).1).1
          ≡ get_erasure_info other s)
unfolding get_erasure_info found
create-get-delete_erasure o o' path other info s ne h h' =
    let s1 = (create_erasure o path info s).1 in
    let made = created_table o path info s h in
    let gone = deleted_table o' path s1 h' in
    let put = get-put path path info s.erasure_by_path in
    let put_other = get-put path other info s.erasure_by_path in
    let del = get-remove path path s1.erasure_by_path in
    let del_other = get-remove path other s1.erasure_by_path in
    (
      ground (arith, made, put, text_eq_refl path),
      ground (arith, made, put_other),
      ground (arith, gone, del, text_eq_refl path),
      ground (arith, made, gone, put_other, del_other),
    )
