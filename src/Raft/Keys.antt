-- ===== src/Raft/Keys.antt =====
-- The shape of the state machine's maps (metadata/raft/store.go, `fsm.Apply`): no key stands twice,
-- and a record stands under the path or the token that it names.
use callfs.Prelude.{
  ℕ, Text, ◌≡◌, refl, Option, none, some, Option-cases, inl, inr, List, [], ◌∷◌, Bool, text_eq,
  Bool-cases,
}
use callfs.Prelude.Map
use callfs.Prelude.Map.{
  Distinct-put, Distinct-remove, Distinct-sweep, AllValues-put, AllValues-remove, AllValues-sweep,
}
use callfs.Metadata.{Metadata, SingleUseLink, ErasureFileInfo, active}
use callfs.Raft.{
  Op, Command, State, apply_create_metadata, apply_update_metadata, apply_delete_metadata,
  apply_create_link, apply_update_link, apply_cleanup_expired_links, apply_cleanup_used_links,
  apply_create_erasure_info, apply_delete_erasure_info, apply_op, apply, replay, consumed,
  create_metadata, update_metadata, delete_metadata, create_link, update_link,
  cleanup_expired_links, cleanup_used_links, create_erasure_info, delete_erasure_info, other,
  cleanup,
}

abbrev pub OwnPath : Text → Metadata → Type 0
OwnPath k md = md.path ≡ k

abbrev pub OwnToken : Text → SingleUseLink → Type 0
OwnToken k l = l.token ≡ k

pub record IsKeyed (s : State) : Type 0 where
  pub paths_distinct : Map.Distinct s.metadata_by_path
  pub tokens_distinct : Map.Distinct s.links_by_token
  pub erasure_distinct : Map.Distinct s.erasure_by_path
  pub own_path : Map.AllValues OwnPath s.metadata_by_path
  pub own_token : Map.AllValues OwnToken s.links_by_token

module _ {s : State} (v : IsKeyed s) where
  put_metadata-IsKeyed :
      (md : Metadata)
      → IsKeyed (record s { metadata_by_path = Map.put md.path md s.metadata_by_path })
  put_metadata-IsKeyed md = record {
    paths_distinct = Distinct-put _ _ _ v.paths_distinct;
    tokens_distinct = v.tokens_distinct;
    erasure_distinct = v.erasure_distinct;
    own_path = AllValues-put OwnPath _ _ _ refl v.own_path;
    own_token = v.own_token;
  }

  put_link-IsKeyed :
      (k : Text) (l : SingleUseLink)
      → l.token ≡ k
      → IsKeyed (record s { links_by_token = Map.put k l s.links_by_token })
  put_link-IsKeyed k l own = record {
    paths_distinct = v.paths_distinct;
    tokens_distinct = Distinct-put _ _ _ v.tokens_distinct;
    erasure_distinct = v.erasure_distinct;
    own_path = v.own_path;
    own_token = AllValues-put OwnToken _ _ _ own v.own_token;
  }

  cleanup-IsKeyed : (p : SingleUseLink → Bool) → IsKeyed (cleanup p s).1
  unfolding cleanup
  cleanup-IsKeyed p = record {
    paths_distinct = v.paths_distinct;
    tokens_distinct = Distinct-sweep _ _ v.tokens_distinct;
    erasure_distinct = v.erasure_distinct;
    own_path = v.own_path;
    own_token = AllValues-sweep OwnToken _ _ v.tokens_distinct v.own_token;
  }

  create_metadata-IsKeyed : (o : Option Metadata) → IsKeyed (apply_create_metadata o s).1
  unfolding apply_create_metadata
  create_metadata-IsKeyed none = v
  create_metadata-IsKeyed (some md) = elim (Option-cases (Map.get md.path s.metadata_by_path)) [
    | inl e ↦ rw (e, apply_create_metadata) (put_metadata-IsKeyed md)
    | inr (x, e) ↦ rw (e, apply_create_metadata) v
  ]

  update_metadata-IsKeyed : (o : Option Metadata) → IsKeyed (apply_update_metadata o s).1
  unfolding apply_update_metadata
  update_metadata-IsKeyed none = v
  update_metadata-IsKeyed (some md) = elim (Option-cases (Map.get md.path s.metadata_by_path)) [
    | inl e ↦ rw (e, apply_update_metadata) v
    | inr (x, e) ↦ rw (e, apply_update_metadata) (put_metadata-IsKeyed md)
  ]

  delete_metadata-IsKeyed : (path : Text) → IsKeyed (apply_delete_metadata path s).1
  unfolding apply_delete_metadata
  delete_metadata-IsKeyed path = elim (Option-cases (Map.get path s.metadata_by_path)) [
    | inl e ↦ rw (e, apply_delete_metadata) v
    | inr (x, e) ↦
        rw (e, apply_delete_metadata)
          (record {
            paths_distinct = Distinct-remove _ _ v.paths_distinct;
            tokens_distinct = v.tokens_distinct;
            erasure_distinct = v.erasure_distinct;
            own_path = AllValues-remove OwnPath _ _ v.own_path;
            own_token = v.own_token;
          })
  ]

  create_link-IsKeyed : (o : Option SingleUseLink) → IsKeyed (apply_create_link o s).1
  unfolding apply_create_link
  create_link-IsKeyed none = v
  create_link-IsKeyed (some l) = elim (Option-cases (Map.get l.token s.links_by_token)) [
    | inl e ↦ rw (e, apply_create_link) (put_link-IsKeyed l.token l refl)
    | inr (x, e) ↦ rw (e, apply_create_link) v
  ]

  update_link-IsKeyed : (c : Command) (now : ℕ) → IsKeyed (apply_update_link c now s).1
  unfolding apply_update_link
  update_link-IsKeyed c now = elim (Option-cases (Map.get c.token s.links_by_token)) [
    | inl e ↦ rw (e, apply_update_link) v
    | inr (l, e) ↦
        rw (e, apply_update_link)
          (elim (Bool-cases (text_eq l.status active)) [
            | inl a ↦ rw a (put_link-IsKeyed c.token (consumed c now l) (v.own_token c.token l e))
            | inr b ↦ rw b v
          ])
  ]

  create_erasure-IsKeyed :
      (path : Text) (o : Option ErasureFileInfo) → IsKeyed (apply_create_erasure_info path o s).1
  unfolding apply_create_erasure_info
  create_erasure-IsKeyed path none = v
  create_erasure-IsKeyed path (some info) = elim (Option-cases (Map.get path s.erasure_by_path)) [
    | inr (x, e) ↦ rw (e, apply_create_erasure_info) v
    | inl e ↦
        rw (e, apply_create_erasure_info)
          (record {
            paths_distinct = v.paths_distinct;
            tokens_distinct = v.tokens_distinct;
            erasure_distinct = Distinct-put _ _ _ v.erasure_distinct;
            own_path = v.own_path;
            own_token = v.own_token;
          })
  ]

  delete_erasure-IsKeyed : (path : Text) → IsKeyed (apply_delete_erasure_info path s).1
  unfolding apply_delete_erasure_info
  delete_erasure-IsKeyed path = record {
    paths_distinct = v.paths_distinct;
    tokens_distinct = v.tokens_distinct;
    erasure_distinct = Distinct-remove _ _ v.erasure_distinct;
    own_path = v.own_path;
    own_token = v.own_token;
  }

  expired-IsKeyed : (o : Option ℕ) → IsKeyed (apply_cleanup_expired_links o s).1
  unfolding apply_cleanup_expired_links
  expired-IsKeyed none = v
  expired-IsKeyed (some t) = cleanup-IsKeyed _

  spent-IsKeyed : (o : Option ℕ) → IsKeyed (apply_cleanup_used_links o s).1
  unfolding apply_cleanup_used_links
  spent-IsKeyed none = v
  spent-IsKeyed (some t) = cleanup-IsKeyed _

  apply_op-IsKeyed : (o : Op) (c : Command) (now : ℕ) → IsKeyed (apply_op o c now s).1
  unfolding apply_op
  apply_op-IsKeyed create_metadata c now = create_metadata-IsKeyed c.metadata
  apply_op-IsKeyed update_metadata c now = update_metadata-IsKeyed c.metadata
  apply_op-IsKeyed delete_metadata c now = delete_metadata-IsKeyed c.path
  apply_op-IsKeyed create_link c now = create_link-IsKeyed c.link
  apply_op-IsKeyed update_link c now = update_link-IsKeyed c now
  apply_op-IsKeyed cleanup_expired_links c now = expired-IsKeyed c.before
  apply_op-IsKeyed cleanup_used_links c now = spent-IsKeyed c.older_than
  apply_op-IsKeyed create_erasure_info c now = create_erasure-IsKeyed c.path c.erasure_info
  apply_op-IsKeyed delete_erasure_info c now = delete_erasure-IsKeyed c.path
  apply_op-IsKeyed (other name) c now = v

  pub apply-IsKeyed : (c : Option Command) (now : ℕ) → IsKeyed (apply c now s).1
  unfolding apply
  apply-IsKeyed none now = v
  apply-IsKeyed (some c) now = apply_op-IsKeyed c.op c now

-- Whatever log is replayed from a state whose maps are well keyed, the state that results is well
-- keyed: no path, token or erasure path stands twice, every metadata record stands under its own
-- path, and every link under its own token.
pub replay-IsKeyed :
    (log : List (Option Command × ℕ)) (s : State) → IsKeyed s → IsKeyed (replay log s)
unfolding replay
replay-IsKeyed [] s v = v
replay-IsKeyed ((c, now) ∷ log) s v = replay-IsKeyed log (apply c now s).1 (apply-IsKeyed v c now)
