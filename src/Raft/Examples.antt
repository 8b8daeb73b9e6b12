-- ===== src/Raft/Examples.antt =====
-- A log with two downloads of one link, and what the theorems on metadata/raft/store.go say of it.
use callfs.Prelude.{
  ℕ, ◌≤◌, ◌≡◌, refl, arith, Text, text_eq, text_eq_iff, codes, pos, Option, none, some, false, List,
  [], ◌∷◌, map,
}
use callfs.Prelude.Map
use callfs.Metadata.{Metadata, SingleUseLink, active, used, file, localfs}
use callfs.Raft.{
  Command, State, no_such_entry, empty, apply, replay, create_metadata, cleanup_used_links,
}
use callfs.Metadata.{ErasureFileInfo}
use callfs.Prelude.{ok, err, not_found}
use callfs.Raft.Store.ErasureInfo.{create-get-delete_erasure}
use callfs.Raft.Store.{
  committed, create_erasure, get_erasure_info, delete_erasure, bare, update_link_command,
}
use callfs.Raft.Effects.{failed_changes_nothing}
use callfs.Raft.Keys.{IsKeyed, replay-IsKeyed}
use callfs.Raft.Links.{consumptions}
use callfs.Raft.SingleUse.{consumptions-le-one}
use callfs.Raft.Spec.{apply_refines_spec, observe, spec, tables}
use callfs.Raft.Replicas.{replicas_agree, answers, first_node, second_node, unstamped_state}

abbrev token : Text
token = codes "t"

abbrev link : SingleUseLink
link = record {
  id = 0;
  token = token;
  file_path = codes "/a";
  status = active;
  expires_at = 100;
  used_at = none;
  used_by_ip = none;
  hmac_signature = [];
  created_at = 1;
  updated_at = 0;
}

abbrev entry : Metadata
entry = record {
  id = 0;
  parent_id = none;
  name = codes "a";
  path = codes "/a";
  type = file;
  size = 3;
  mode = codes "0644";
  uid = pos 1000;
  gid = pos 1000;
  atime = 1;
  mtime = 1;
  ctime = 1;
  backend_type = localfs;
  erasure_coded = false;
  callfs_instance_id = none;
  symlink_target = none;
  created_at = 1;
  updated_at = 1;
}

abbrev linked : State
linked = record empty { links_by_token = (token, link) ∷ [] }

abbrev consume : Command
consume = update_link_command token used (some 5) (some (codes "10.0.0.1"))

abbrev add_entry : Command
add_entry = record (bare create_metadata) { metadata = some entry }

abbrev sweep_used : Command
sweep_used = record (bare cleanup_used_links) { older_than = some 50 }

abbrev log : List (Option Command × ℕ)
log =
    (some consume, 5)
    ∷ (some add_entry, 6)
    ∷ (some consume, 7)
    ∷ (some sweep_used, 60)
    ∷ (none, 61)
    ∷ []

abbrev two_clocks : List (Option Command × ℕ × ℕ)
two_clocks = (some consume, 5, 6) ∷ (some add_entry, 6, 8) ∷ (some consume, 7, 9) ∷ []

linked-IsKeyed : IsKeyed linked
unfolding Map.get
linked-IsKeyed = record {
  paths_distinct = tt;
  tokens_distinct = (refl, tt);
  erasure_distinct = tt;
  own_path = λ k v e. absurd (ground arith);
  own_token = λ k v e. ground (arith, text_eq_iff token k);
}

consumptions-le-one_example : consumptions token log linked ≤ 1
unfolding text_eq
consumptions-le-one_example =
    consumptions-le-one token log linked linked-IsKeyed
      (refl, refl, (refl, refl, (refl, refl, (refl, refl, (refl, tt, tt)))))

apply_refines_spec_example :
    observe (apply (some consume) 5 linked) ≡ spec (some consume) 5 (tables linked)
apply_refines_spec_example = apply_refines_spec (some consume) 5 linked linked-IsKeyed

replay-IsKeyed_example : IsKeyed (replay log linked)
replay-IsKeyed_example = replay-IsKeyed log linked linked-IsKeyed

failed_changes_nothing_example : (apply (some consume) 5 empty).1 ≡ empty
unfolding apply Map.get
failed_changes_nothing_example =
    failed_changes_nothing (some consume) 5 empty {f = no_such_entry} refl

replicas_agree_example :
    (answers (map first_node two_clocks) linked ≡ answers (map second_node two_clocks) linked)
    × (unstamped_state (replay (map first_node two_clocks) linked)
        ≡ unstamped_state (replay (map second_node two_clocks) linked))
replicas_agree_example = replicas_agree two_clocks linked linked refl

abbrev coded : ErasureFileInfo
coded = record {
  file_path = codes "/a";
  original_size = 3;
  data_shards = 2;
  parity_shards = 1;
  shard_size = 2;
  shards = [];
}

create-get-delete_erasure_example :
    (get_erasure_info (codes "/a") (create_erasure (committed 1) (codes "/a") coded empty).1
      ≡ ok coded)
    × (get_erasure_info (codes "/b") (create_erasure (committed 1) (codes "/a") coded empty).1
        ≡ get_erasure_info (codes "/b") empty)
    × (get_erasure_info
          (codes "/a")
          (delete_erasure
            (committed 2)
            (codes "/a")
            (create_erasure (committed 1) (codes "/a") coded empty).1).1
        ≡ err not_found)
    × (get_erasure_info
          (codes "/b")
          (delete_erasure
            (committed 2)
            (codes "/a")
            (create_erasure (committed 1) (codes "/a") coded empty).1).1
        ≡ get_erasure_info (codes "/b") empty)
unfolding create_erasure delete_erasure text_eq Map.get
create-get-delete_erasure_example =
    create-get-delete_erasure (committed 1) (committed 2) (codes "/a") (codes "/b") coded empty refl
      refl refl
