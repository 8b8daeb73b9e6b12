-- ===== src/Raft/Store/Committed.antt =====
-- metadata/raft/store.go: the answers of the store's link operations, case by case.
use mathlib.Core.Path.{subst}
use callfs.Prelude.Map.{get-remove}
use callfs.Prelude.{
  arith, text_eq_refl, ℕ, ◌≡◌, refl, Text, text_eq, if◌then◌else◌, Bool-cases, Option, Option-cases,
  none, some, inl, inr, Result, ok, err, not_found, already_exists, wrap,
}
use callfs.Prelude.Map
use callfs.Metadata.{Metadata, SingleUseLink, active}
use callfs.Raft.{
  State, Command, apply, apply_op, apply_create_link, apply_update_link, apply_update_metadata,
  apply_create_metadata, apply_delete_metadata, consumed,
}
use callfs.Raft.Store.{
  Outcome, committed, refused, given_up, apply_as_leader, answered, answer_of, error_of,
  create_single_use_link, update_single_use_link, update_link_command, create, update, delete,
}

abbrev pub with_link : Text → SingleUseLink → State → State
with_link token link s = record s { links_by_token = Map.put token link s.links_by_token }

-- CreateSingleUseLink: what it answers, from what stands under the token.
abbrev pub create_result :
    Outcome → Option SingleUseLink → SingleUseLink → State → Result (Unit {0}) × State
create_result (refused e) before link s = (err (wrap "raft apply failed" e), s)
create_result (given_up e t) none link s =
    (err (wrap "raft apply failed" e), with_link link.token link s)
create_result (given_up e t) (some _) link s = (err (wrap "raft apply failed" e), s)
create_result (committed t) none link s = (ok tt, with_link link.token link s)
create_result (committed t) (some _) link s = (err already_exists, s)

pub create_single_use_link_lem :
    (o : Outcome) (link : SingleUseLink) (s : State)
    → create_single_use_link o link s ≡ create_result o (Map.get link.token s.links_by_token) link s
unfolding create_single_use_link apply_as_leader answered answer_of error_of apply apply_op
    apply_create_link
create_single_use_link_lem (refused e) link s = refl
create_single_use_link_lem (given_up x t) link s =
    elim (Option-cases (Map.get link.token s.links_by_token)) [
      | inl e ↦ rw (e, apply_create_link)
      | inr (l, e) ↦ rw (e, apply_create_link)
    ]
create_single_use_link_lem (committed t) link s =
    elim (Option-cases (Map.get link.token s.links_by_token)) [
      | inl e ↦ rw (e, apply_create_link)
      | inr (l, e) ↦ rw (e, apply_create_link)
    ]

-- UpdateSingleUseLink
abbrev pub update_result :
    Outcome → Option SingleUseLink → Command → State → Result (Unit {0}) × State
update_result (refused e) before cmd s = (err (wrap "raft apply failed" e), s)
update_result (given_up e t) none cmd s = (err (wrap "raft apply failed" e), s)
update_result (given_up e t) (some link) cmd s = (
  err (wrap "raft apply failed" e),
  if text_eq link.status active then with_link cmd.token (consumed cmd t link) s else s,
)
update_result (committed t) none cmd s = (err not_found, s)
update_result (committed t) (some link) cmd s =
    if text_eq link.status active
    then (ok tt, with_link cmd.token (consumed cmd t link) s)
    else (err not_found, s)

pub update_single_use_link_lem :
    (o : Outcome) (token status : Text) (at : Option ℕ) (ip : Option Text) (s : State)
    → update_single_use_link o token status at ip s
      ≡ update_result o (Map.get token s.links_by_token) (update_link_command token status at ip) s
unfolding update_single_use_link apply_as_leader answered answer_of error_of apply apply_op
    apply_update_link
update_single_use_link_lem (refused e) token status at ip s = refl
update_single_use_link_lem (given_up x t) token status at ip s =
    elim (Option-cases (Map.get token s.links_by_token)) [
      | inl e ↦ rw (e, apply_update_link)
      | inr (l, e) ↦
          rw (e, apply_update_link)
            (elim (Bool-cases (text_eq l.status active)) [ inl a ↦ rw a | inr b ↦ rw b ])
    ]
update_single_use_link_lem (committed t) token status at ip s =
    elim (Option-cases (Map.get token s.links_by_token)) [
      | inl e ↦ rw (e, apply_update_link)
      | inr (l, e) ↦
          rw (e, apply_update_link)
            (elim (Bool-cases (text_eq l.status active)) [ inl a ↦ rw a | inr b ↦ rw b ])
    ]

-- Create
abbrev pub create_metadata_result :
    Outcome → Option Metadata → Metadata → State → Result (Unit {0}) × State
create_metadata_result (refused e) before md s = (err (wrap "raft apply failed" e), s)
create_metadata_result (given_up e t) none md s = (
  err (wrap "raft apply failed" e),
  record s { metadata_by_path = Map.put md.path md s.metadata_by_path },
)
create_metadata_result (given_up e t) (some _) md s = (err (wrap "raft apply failed" e), s)
create_metadata_result (committed t) none md s =
    (ok tt, record s { metadata_by_path = Map.put md.path md s.metadata_by_path })
create_metadata_result (committed t) (some _) md s = (err already_exists, s)

pub create_lem :
    (o : Outcome) (md : Metadata) (s : State)
    → create o md s ≡ create_metadata_result o (Map.get md.path s.metadata_by_path) md s
unfolding create apply_as_leader answered answer_of error_of apply apply_op apply_create_metadata
create_lem (refused e) md s = refl
create_lem (given_up x t) md s = elim (Option-cases (Map.get md.path s.metadata_by_path)) [
  | inl e ↦ rw (e, apply_create_metadata)
  | inr (x, e) ↦ rw (e, apply_create_metadata)
]
create_lem (committed t) md s = elim (Option-cases (Map.get md.path s.metadata_by_path)) [
  | inl e ↦ rw (e, apply_create_metadata)
  | inr (x, e) ↦ rw (e, apply_create_metadata)
]

-- Update
abbrev pub update_metadata_result :
    Outcome → Option Metadata → Metadata → State → Result (Unit {0}) × State
update_metadata_result (refused e) before md s = (err (wrap "raft apply failed" e), s)
update_metadata_result (given_up e t) none md s = (err (wrap "raft apply failed" e), s)
update_metadata_result (given_up e t) (some _) md s = (
  err (wrap "raft apply failed" e),
  record s { metadata_by_path = Map.put md.path md s.metadata_by_path },
)
update_metadata_result (committed t) none md s = (err not_found, s)
update_metadata_result (committed t) (some _) md s =
    (ok tt, record s { metadata_by_path = Map.put md.path md s.metadata_by_path })

pub update_lem :
    (o : Outcome) (md : Metadata) (s : State)
    → update o md s ≡ update_metadata_result o (Map.get md.path s.metadata_by_path) md s
unfolding update apply_as_leader answered answer_of error_of apply apply_op apply_update_metadata
update_lem (refused e) md s = refl
update_lem (given_up x t) md s = elim (Option-cases (Map.get md.path s.metadata_by_path)) [
  | inl e ↦ rw (e, apply_update_metadata)
  | inr (x, e) ↦ rw (e, apply_update_metadata)
]
update_lem (committed t) md s = elim (Option-cases (Map.get md.path s.metadata_by_path)) [
  | inl e ↦ rw (e, apply_update_metadata)
  | inr (x, e) ↦ rw (e, apply_update_metadata)
]

-- Delete
pub delete_removes :
    (o : Outcome) (path : Text) (s s' : State)
    → delete o path s ≡ (ok tt, s')
    → Map.get path s'.metadata_by_path ≡ none
unfolding delete apply_as_leader answered answer_of error_of apply apply_op apply_delete_metadata
delete_removes (refused e) path s s' h = absurd (ground arith)
delete_removes (given_up e t) path s s' h = absurd (ground arith)
delete_removes (committed t) path s s' h = elim (Option-cases (Map.get path s.metadata_by_path)) [
  | inl e ↦ absurd (ground arith)
  | inr (x, e) ↦
      let gone : record s { metadata_by_path = Map.remove path s.metadata_by_path } ≡ s' =
        ground arith in
      subst (λ z. Map.get path z.metadata_by_path ≡ none) gone
        (ground (arith, get-remove path path s.metadata_by_path, text_eq_refl path))
]
