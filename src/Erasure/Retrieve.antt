-- ===== src/Erasure/Retrieve.antt =====
-- erasure/manager.go, `RetrieveFile`: which data the decoder gets.
use callfs.Prelude.{
  ℕ, suc, zero, ◌+◌, ◌≡◌, refl, ap, ◌∙◌, arith, Text, text_eq_iff, Bool, Option, Option-cases, none,
  some, ◌⊎◌, inl, inr, List, [], ◌∷◌, Result, ok, err, Error,
}
use callfs.Metadata.{ErasureShardInfo, ErasureFileInfo}
use callfs.Erasure.{Slots, empty_slots, set_slot, checked, collect}

-- what stands at an index
unfoldable pub slot : ℕ → Slots → Option Text
slot i [] = none
slot zero (s ∷ slots) = s
slot (suc i) (s ∷ slots) = slot i slots

slot-empty : (i n : ℕ) → slot i (empty_slots n) ≡ none
unfolding slot empty_slots
slot-empty i zero = refl
slot-empty zero (suc n) = refl
slot-empty (suc i) (suc n) = slot-empty i n

set_slot-slot :
    (i j : ℕ) (data_ : Text) (slots : Slots) {slots' : Slots} {d : Text}
    → set_slot i data_ slots ≡ some slots'
    → slot j slots' ≡ some d
    → ((i ≡ j) × (d ≡ data_)) ⊎ (slot j slots ≡ some d)
unfolding set_slot slot
set_slot-slot i j data_ [] h e = absurd (ground arith)
set_slot-slot zero zero data_ (s ∷ slots) h e = inl (refl, ground arith)
set_slot-slot zero (suc j) data_ (s ∷ slots) h e = inr (ground arith)
set_slot-slot (suc i) zero data_ (s ∷ slots) h e = elim (Option-cases (set_slot i data_ slots)) [
  | inl q ↦ absurd (ground arith)
  | inr (rest, q) ↦ inr (ground arith)
]
set_slot-slot (suc i) (suc j) data_ (s ∷ slots) {slots' = slots'} {d = d} h e =
    elim (Option-cases (set_slot i data_ slots)) [
      | inl q ↦ absurd (ground arith)
      | inr (rest, q) ↦ elim (set_slot-slot i j data_ slots {d = d} q (ground arith)) [
        | inl (same, is_data) ↦ inl (omega (arith, same), is_data)
        | inr before ↦ inr before
      ]
    ]

-- Some record of the file vouches for data at an index: it has the index and the data's checksum.
abbrev pub Vouched : (Text → Text) → List ErasureShardInfo → ℕ → Text → Type 0
Vouched checksum [] i d = ⊥
Vouched checksum (si ∷ infos) i d =
    ((si.index ≡ i) × (checksum d ≡ si.checksum)) ⊎ Vouched checksum infos i d

module _ (fetch : ErasureShardInfo → Result Text) (checksum : Text → Text)
    (new_codec : ℕ → ℕ → Option Error) (reconstruct : ℕ → ℕ → Slots → Result Slots)
    (verify : ℕ → ℕ → Slots → Result Bool) where
  checked-checksum :
      (si : ErasureShardInfo) (r : Result Text) {d : Text}
      → checked fetch checksum new_codec reconstruct verify si r ≡ some d
      → checksum d ≡ si.checksum
  unfolding checked
  checked-checksum si (err e) h = absurd (ground arith)
  checked-checksum si (ok data_) {d = d} h =
      ground (arith, text_eq_iff (checksum data_) si.checksum)

  collect-Vouched :
      (infos : List ErasureShardInfo) (count : ℕ) (slots : Slots) (n : ℕ) (slots' : Slots) (i : ℕ)
      (d : Text)
      → collect fetch checksum new_codec reconstruct verify infos count slots ≡ some (n, slots')
      → slot i slots' ≡ some d
      → (slot i slots ≡ some d) ⊎ Vouched checksum infos i d
  unfolding collect
  collect-Vouched [] count slots n slots' i d h e = inl (ground arith)
  collect-Vouched (si ∷ infos) count slots n slots' i d h e =
      elim (Option-cases (checked fetch checksum new_codec reconstruct verify si (fetch si))) [
        | inl q ↦ elim (collect-Vouched infos count slots n slots' i d (ground arith) e) [
          | inl before ↦ inl before
          | inr v ↦ inr (inr v)
        ]
        | inr (data_, q) ↦ elim (Option-cases (set_slot si.index data_ slots)) [
          | inl outside ↦ absurd (ground arith)
          | inr (next, inside) ↦
              elim (collect-Vouched infos (suc count) next n slots' i d (ground arith) e) [
                | inr v ↦ inr (inr v)
                | inl here ↦ elim (set_slot-slot si.index i data_ slots {d = d} inside here) [
                  | inr before ↦ inl before
                  | inl (same, is_data) ↦
                      inr (inl (same, ap checksum is_data ∙ checked-checksum si (fetch si) q))
                ]
              ]
        ]
      ]

-- However the reads of the shards end, the decoder gets at each index nothing, or data whose checksum is
-- the one that the file's record states for a shard of that index.
pub retrieve-Vouched :
    (fetch : ErasureShardInfo → Result Text) (checksum : Text → Text)
    (new_codec : ℕ → ℕ → Option Error) (reconstruct : ℕ → ℕ → Slots → Result Slots)
    (verify : ℕ → ℕ → Slots → Result Bool) (info : ErasureFileInfo) (n : ℕ) (slots : Slots) (i : ℕ)
    (d : Text)
    → collect fetch checksum new_codec reconstruct verify info.shards 0
        (empty_slots (info.data_shards + info.parity_shards))
      ≡ some (n, slots)
    → slot i slots ≡ some d
    → Vouched checksum info.shards i d
retrieve-Vouched fetch checksum new_codec reconstruct verify info n slots i d h e =
    elim (collect-Vouched fetch checksum new_codec reconstruct verify info.shards 0
      (empty_slots (info.data_shards + info.parity_shards)) n slots i d h e) [
        | inl never ↦ absurd (ground (arith, slot-empty i (info.data_shards + info.parity_shards)))
        | inr v ↦ v
      ]
