-- ===== src/Erasure/Examples.antt =====
-- Three shards on two instances (erasure/). The checksum is instantiated by the data itself.
use callfs.Prelude.{
  length, ℕ, zero, suc, ◌%◌, ◌≡◌, refl, arith, Text, text_eq, codes, true, none, some, List, [],
  ◌∷◌, Result, ok, err, message,
}
use callfs.Metadata.{ErasureShardInfo, ErasureFileInfo, localfs}
use callfs.Erasure.{at, assign_shards, collect, empty_slots, set_slot}
use callfs.Erasure.Placement.{Others, assign_shards-Others}
use callfs.Erasure.Retrieve.{slot, Vouched, retrieve-Vouched}

abbrev instances : List Text
instances = codes "n2" ∷ codes "n1" ∷ codes "n3" ∷ []

assign_shards-Others_example :
    (length (assign_shards 6 (codes "n1") instances) ≡ 6)
    × ((rest : List Text) × Others (codes "n1") instances rest
        × (at 4 (codes "n1") (assign_shards 6 (codes "n1") instances)
            ≡ at (4 % suc (length rest)) (codes "n1") (codes "n1" ∷ rest)))
assign_shards-Others_example = assign_shards-Others 6 4 (codes "n1") instances (omega arith)

abbrev shard : ℕ → Text → ErasureShardInfo
shard i sum = record {
  index = i;
  instance_id = codes "n1";
  backend_type = localfs;
  path = codes ".erasure/ab/0";
  size = 2;
  checksum = sum;
}

abbrev info : ErasureFileInfo
info = record {
  file_path = codes "/a";
  original_size = 4;
  data_shards = 2;
  parity_shards = 1;
  shard_size = 2;
  shards = shard 0 (codes "ab") ∷ shard 1 (codes "cd") ∷ shard 2 (codes "xy") ∷ [];
}

-- The second shard cannot be read, and what comes in for the third one is damaged.
abbrev fetch_at : ℕ → Result Text
fetch_at zero = ok (codes "ab")
fetch_at (suc zero) = err (message "unreachable")
fetch_at _ = ok (codes "xz")

abbrev fetch : ErasureShardInfo → Result Text
fetch si = fetch_at si.index

retrieve-Vouched_example : Vouched (λ d. d) info.shards 0 (codes "ab")
unfolding collect text_eq set_slot empty_slots slot
retrieve-Vouched_example =
    retrieve-Vouched fetch (λ d. d) (λ k m. none) (λ k m s. ok s) (λ k m s. ok true) info 1
      (some (codes "ab") ∷ none ∷ none ∷ []) 0 (codes "ab") refl refl
