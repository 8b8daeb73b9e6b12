-- ===== src/Erasure/Files/Examples.antt =====
-- A file kept as three copies, one data shard and two parity shards, of which the first is lost
-- (erasure/manager.go). The code is instantiated by repetition, the checksum by the bytes themselves.
use mathlib.Core.Path.{subst}
use callfs.Prelude.{
  ℕ, zero, suc, ◌+◌, ◌≤◌, ◌≡◌, refl, sym, ap, ◌∙◌, arith, length, pos, Text, codes, Bool, true,
  Option, none, some, List, [], ◌∷◌, ◌++◌, Result, ok, err, Error, message,
}
use callfs.Prelude.Map
use callfs.Prelude.Map.{Map}
use callfs.Metadata.{ErasureShardInfo, ErasureFileInfo, localfs}
use callfs.Raft.{State, empty}
use callfs.Raft.Store.{committed, get_erasure_info}
use callfs.Erasure.{Slots, repeat, retrieve_file}
use callfs.Erasure.Placement.{length-repeat}
use callfs.Erasure.Store.{ManagerConfig, encode}
use callfs.Erasure.Files.{store_file, shard_infos}
use callfs.Erasure.Files.Recovery.{
  Agrees, Coded, ReedSolomon, first_shards, got_all, present, whole,
}
use callfs.Erasure.Files.Stored.{store-retrieve}

abbrev one_data_shard : Error
one_data_shard = message "one data shard only"

abbrev split_data : ℕ → ℕ → Text → Result (List Text)
split_data (suc zero) p bytes = ok (bytes ∷ [])
split_data _ p bytes = err one_data_shard

abbrev head_of : List Text → Text
head_of [] = []
head_of (s ∷ shards) = s

abbrev encode_parity : ℕ → ℕ → List Text → Result (List Text)
encode_parity d p raw = ok (repeat (suc p) (head_of raw))

abbrev first : Slots → Option Text
first [] = none
first (none ∷ slots) = first slots
first (some b ∷ slots) = some b

abbrev copies : ℕ → Option Text → Result Slots
copies p none = err one_data_shard
copies p (some b) = ok (whole (repeat (suc p) b))

abbrev reconstruct : ℕ → ℕ → Slots → Result Slots
reconstruct d p slots = copies p (first slots)

abbrev verify : ℕ → ℕ → Slots → Result Bool
verify d p slots = ok true

ok_injective : {A : Type 0} {a b : A} → ok a ≡ ok b → a ≡ b
ok_injective {a = a} e = ap (λ r. elim r [ ok x ↦ x | err _ ↦ a ]) e

first-repeat :
    (n : ℕ) (bytes : Text) (slots : Slots)
    → Agrees slots (repeat n bytes)
    → 1 ≤ present slots
    → first slots ≡ some bytes
unfolding repeat
first-repeat n bytes [] a h = absurd (omega arith)
first-repeat zero bytes (none ∷ slots) a h = elim a [ ]
first-repeat zero bytes (some b ∷ slots) a h = elim a [ ]
first-repeat (suc n) bytes (none ∷ slots) a h = first-repeat n bytes slots a h
first-repeat (suc n) bytes (some b ∷ slots) (same, a) h = ap some same

Coded-copies :
    (d p : ℕ) (bytes : Text) (shards : List Text)
    → Coded split_data encode_parity reconstruct verify d p bytes shards
    → (d ≡ 1) × (repeat (suc p) bytes ≡ shards)
Coded-copies zero p bytes shards (raw, e, f) = absurd (ground arith)
Coded-copies (suc zero) p bytes shards (raw, e, f) =
    (refl, ap (λ r. repeat (suc p) (head_of r)) (ok_injective e) ∙ ok_injective f)
Coded-copies (suc (suc d)) p bytes shards (raw, e, f) = absurd (ground arith)

count_copies :
    (d p : ℕ) (bytes : Text) (shards : List Text)
    → (d ≡ 1) × (repeat (suc p) bytes ≡ shards)
    → length shards ≡ d + p
count_copies d p bytes shards (one, same) =
    omega (arith, one, ap length same, length-repeat (suc p) bytes)

recover_copies :
    (d p : ℕ) (bytes : Text) (shards : List Text) (slots : Slots)
    → (d ≡ 1) × (repeat (suc p) bytes ≡ shards)
    → Agrees slots shards
    → d ≤ present slots
    → reconstruct d p slots ≡ ok (whole shards)
recover_copies d p bytes shards slots (one, same) a h =
    let there : first slots ≡ some bytes =
      first-repeat (suc p) bytes slots (subst (Agrees slots) (sym same) a)
        (omega (arith, one, h)) in
    ap (copies p) there ∙ ap (λ x. ok (whole x)) same

pad_copies :
    (d p : ℕ) (bytes : Text) (shards : List Text)
    → (d ≡ 1) × (repeat (suc p) bytes ≡ shards)
    → (padding : Text) × (first_shards d shards ≡ bytes ++ padding)
unfolding repeat
pad_copies d p bytes shards (one, same) =
    ([], ap (λ n. first_shards n shards) one ∙ ap (first_shards 1) (sym same))

by_copies : ReedSolomon split_data encode_parity reconstruct verify
by_copies = record {
  counted = λ d p bytes shards c. count_copies d p bytes shards (Coded-copies d p bytes shards c);
  recovers = λ d p bytes shards slots c a h.
      recover_copies d p bytes shards slots (Coded-copies d p bytes shards c) a h;
  consistent = λ d p bytes shards c. refl;
  systematic = λ d p bytes shards c. pad_copies d p bytes shards (Coded-copies d p bytes shards c);
}

abbrev manager : ManagerConfig
manager = record {
  data_shards = pos 1;
  parity_shards = pos 0;
  shard_backend = localfs;
  instance_id = codes "n1";
  self_endpoint = [];
  peer_endpoints = [];
}

abbrev Net : Type 0
Net = Map Text

abbrev put_local : Text → Text → Net → Result (Unit {0}) × Net
put_local path bytes net = (ok tt, Map.put path bytes net)

abbrev remove_local : Text → Net → Result (Unit {0}) × Net
remove_local path net = (ok tt, Map.remove path net)

abbrev request : Text → Text → Text → Net → Result ℕ × Net
request method url body net = (ok 404, net)

abbrev prefix_of : Text → Text
prefix_of bytes = codes "ab"

abbrev bytes : Text
bytes = codes "data"

abbrev info : ErasureFileInfo
info = record {
  file_path = codes "/a";
  original_size = 4;
  data_shards = 1;
  parity_shards = 2;
  shard_size = 4;
  shards =
      shard_infos manager put_local remove_local request (λ d p. none) split_data encode_parity
        (λ b. b) prefix_of (codes "ab") (repeat 3 (codes "n1")) 0 (repeat 3 bytes);
}

abbrev after : State
after = record empty { erasure_by_path = (codes "/a", info) ∷ [] }

abbrev fetch_at : ℕ → Result Text
fetch_at zero = err (message "unreachable")
fetch_at _ = ok bytes

abbrev fetch : ErasureShardInfo → Result Text
fetch si = fetch_at si.index

abbrev net_after : Net
net_after =
    (store_file manager put_local remove_local request (λ d p. none) split_data encode_parity
      (λ b. b) prefix_of (committed 5) (codes "/a") bytes 4 none (empty, [])).1.1

goes_through :
    store_file manager put_local remove_local request
      (λ d p. none)
      split_data
      encode_parity
      (λ b. b)
      prefix_of
      (committed 5)
      (codes "/a")
      bytes
      4
      none
      (empty, [])
    ≡ (ok info, (after, net_after))
unfolding store_file length encode callfs.Erasure.Store.data_shards_of
    callfs.Erasure.Store.parity_shards_of repeat callfs.Erasure.Store.write_shard
    callfs.Prelude.text_eq callfs.Erasure.at callfs.Erasure.assign_shards
    callfs.Erasure.Store.available callfs.Prelude.show callfs.Raft.Store.create_erasure shard_infos
    Map.put callfs.Erasure.Store.shard_path callfs.Erasure.ordered Map.get callfs.Erasure.deal
    callfs.Erasure.others
goes_through = refl

two_left : 1 ≤ present (got_all fetch (λ b. b) (λ d p. none) reconstruct verify info.shards)
unfolding got_all shard_infos repeat callfs.Erasure.checked callfs.Prelude.text_eq
two_left = omega arith

right_ones :
    (shards : List Text)
    → encode (λ d p. none) split_data encode_parity 1 2 bytes ≡ ok shards
    → Agrees (got_all fetch (λ b. b) (λ d p. none) reconstruct verify info.shards) shards
unfolding got_all shard_infos repeat callfs.Erasure.checked callfs.Prelude.text_eq encode
right_ones shards e =
    subst (Agrees (none ∷ some bytes ∷ some bytes ∷ [])) (ok_injective e) (refl, (refl, tt))

store-retrieve_example :
    (get_erasure_info (codes "/a") after ≡ ok info)
    × (retrieve_file fetch (λ b. b) (λ d p. none) reconstruct verify info ≡ ok bytes)
store-retrieve_example =
    store-retrieve manager put_local remove_local request (λ d p. none) split_data encode_parity
      (λ b. b) prefix_of reconstruct verify fetch (committed 5) (codes "/a") bytes 4 none empty
      after [] net_after info by_copies goes_through right_ones two_left
