-- ===== src/Erasure.antt =====
-- erasure/placement.go, erasure/codec.go and erasure/manager.go: where shards are put, and how a file is
-- put together from the shards that can be had. A block of bytes is a `Text`, a missing shard `none`.
-- `checksum`, `reconstruct` and `verify` stand for SHA-256 and the Reed-Solomon library; `fetch` for
-- reading one shard from the local backend or from a peer, in the order in which the answers come in; a
-- read that is cancelled because enough shards are in is one that fails.
mod Examples
pub mod Placement
pub mod Retrieve
pub mod Store
pub mod Url
pub mod Files
use callfs.Prelude.{
  ℕ, suc, zero, ◌+◌, ◌%◌, length, Text, text_eq, codes, trim_prefix, cut_last, ltb, ◌==◌,
  if◌then◌else◌, Bool, true, false, ◌&&◌, ◌||◌, Option, none, some, List, [], ◌∷◌, ◌++◌, Result, ok,
  err, Error, insufficient_shards, shard_corrupted, invalid_profile, shard_not_found, message, wrap,
}
use callfs.Prelude.Map
use callfs.Paths.{slash}
use callfs.Metadata.{ErasureShardInfo, ErasureFileInfo}

-- a slice's element at an index that is in range
unfoldable pub at : {A : Type 0} → ℕ → A → List A → A
at i default [] = default
at zero default (a ∷ xs) = a
at (suc i) default (a ∷ xs) = at i default xs

-- `bytes[:n]`
pub take : ℕ → Text → Text
take zero bytes = []
take (suc n) [] = []
take (suc n) (b ∷ bytes) = b ∷ take n bytes

-- AssignShards. The list starts with the current instance, so the index is in range.
pub others : Text → List Text → List Text
others current [] = []
others current (inst ∷ insts) =
    let rest = others current insts in if text_eq inst current then rest else inst ∷ rest

unfoldable pub ordered : Text → List Text → List Text
ordered current available = current ∷ others current available

pub deal : ℕ → ℕ → Text → List Text → List Text
deal zero i current order = []
deal (suc left) i current order =
    at (i % length order) current order ∷ deal left (suc i) current order

unfoldable pub repeat : ℕ → Text → List Text
repeat zero inst = []
repeat (suc n) inst = inst ∷ repeat n inst

unfoldable pub assign_shards : ℕ → Text → List Text → List Text
assign_shards total current [] = repeat total current
assign_shards total current (inst ∷ insts) = deal total 0 current (ordered current (inst ∷ insts))

-- extractShardPrefix
unfoldable pub extract_shard_prefix : Text → Text
extract_shard_prefix shard_path =
    let trimmed = trim_prefix shard_path (codes ".erasure/") in
    elim (cut_last slash trimmed) [ none ↦ trimmed | some (before, _) ↦ before ]

-- Shards by index: nil where none has come in.
abbrev pub Slots : Type 0
Slots = List (Option Text)

unfoldable pub empty_slots : ℕ → Slots
empty_slots zero = []
empty_slots (suc n) = none ∷ empty_slots n

-- `shards[i] = data`; `none` is an index out of range, where the program stops
unfoldable pub set_slot : ℕ → Text → Slots → Option Slots
set_slot i data_ [] = none
set_slot zero data_ (s ∷ slots) = some (some data_ ∷ slots)
set_slot (suc i) data_ (s ∷ slots) = elim (set_slot i data_ slots) [
  | none ↦ none
  | some slots' ↦ some (s ∷ slots')
]

module _ (fetch : ErasureShardInfo → Result Text) (checksum : Text → Text)
    (new_codec : ℕ → ℕ → Option Error) (reconstruct : ℕ → ℕ → Slots → Result Slots)
    (verify : ℕ → ℕ → Slots → Result Bool) where
  -- one shard's goroutine: the data, if it came in and its checksum is the recorded one
  unfoldable pub checked : ErasureShardInfo → Result Text → Option Text
  checked si (err e) = none
  checked si (ok data_) = if text_eq (checksum data_) si.checksum then some data_ else none

  pub collect : List ErasureShardInfo → ℕ → Slots → Option (ℕ × Slots)
  unfolding checked
  collect [] count slots = some (count, slots)
  collect (si ∷ infos) count slots = elim (checked si (fetch si)) [
    | none ↦ collect infos count slots
    | some data_ ↦ elim (set_slot si.index data_ slots) [
      | none ↦ none
      | some slots' ↦ collect infos (suc count) slots'
    ]
  ]

  -- the bytes of the data shards, one after the other
  pub joined : ℕ → Slots → Text
  joined zero slots = []
  joined (suc n) [] = []
  joined (suc n) (none ∷ slots) = joined n slots
  joined (suc n) (some bytes ∷ slots) = bytes ++ joined n slots

  pub cut : ℕ → Text → Result Text
  cut size bytes = if ltb (length bytes) size then err insufficient_shards else ok (take size bytes)

  verified : ℕ → ℕ → Slots → Result Bool → Result Text
  unfolding joined cut
  verified data_shards size slots (err e) = err (wrap "erasure: verification failed" e)
  verified data_shards size slots (ok false) = err shard_corrupted
  verified data_shards size slots (ok true) = cut size (joined data_shards slots)

  reconstructed : ℕ → ℕ → ℕ → Result Slots → Result Text
  unfolding verified
  reconstructed data_shards parity_shards size (err e) =
      err (wrap "erasure: reconstruction failed" e)
  reconstructed data_shards parity_shards size (ok slots) =
      verified data_shards size slots (verify data_shards parity_shards slots)

  -- Decode
  unfoldable pub decode : Slots → ℕ → ℕ → ℕ → Result Text
  unfolding reconstructed
  decode slots data_shards parity_shards size =
      if ltb data_shards 1 || ltb parity_shards 1
      then err invalid_profile
      else elim (new_codec data_shards parity_shards) [
        | some e ↦ err (wrap "erasure: failed to create decoder" e)
        | none ↦
            reconstructed data_shards parity_shards size
              (reconstruct data_shards parity_shards slots)
      ]

  pub assemble : ErasureFileInfo → Option (ℕ × Slots) → Result Text
  unfolding decode
  assemble info none = err (message "index out of range")
  assemble info (some (count, slots)) =
      if ltb count info.data_shards
      then err insufficient_shards
      else decode slots info.data_shards info.parity_shards info.original_size

  -- RetrieveFile, behind the lookup of the file's record
  unfoldable pub retrieve_file : ErasureFileInfo → Result Text
  unfolding assemble collect
  retrieve_file info =
      assemble info (collect info.shards 0 (empty_slots (info.data_shards + info.parity_shards)))

  local_shard : ErasureShardInfo → Result Text → Result Text
  local_shard si (err e) = err e
  local_shard si (ok data_) =
      if text_eq (checksum data_) si.checksum
      then ok data_
      else err (message "checksum mismatch: data corrupted on disk")

  -- GetShard, behind the lookup of the file's record
  unfoldable pub get_shard : Text → ℕ → List ErasureShardInfo → Result Text
  unfolding local_shard
  get_shard instance_id index [] = err shard_not_found
  get_shard instance_id index (si ∷ infos) =
      let rest = get_shard instance_id index infos in
      if (si.index == index) && text_eq si.instance_id instance_id
      then local_shard si (fetch si)
      else rest
