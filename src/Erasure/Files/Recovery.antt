-- ===== src/Erasure/Files/Recovery.antt =====
-- erasure/manager.go: a file that `StoreFile` has stored comes back from `RetrieveFile`, although shards
-- are lost or damaged.
use mathlib.Core.Path.{subst}
use callfs.Prelude.{
  ℕ, zero, suc, ◌+◌, ◌≤◌, ◌≡◌, inl, inr, refl, sym, ap, ◌∙◌, arith, length, Text, ltb, Bool, true,
  false, ◌||◌, Option, Option-cases, none, some, List, [], ◌∷◌, ◌++◌, Result, Result-cases, ok,
  Error,
}
use callfs.Metadata.{ErasureShardInfo, ErasureFileInfo}
use callfs.Erasure.{
  Slots, empty_slots, set_slot, checked, collect, joined, cut, take, verified, reconstructed,
  decode, assemble, retrieve_file,
}
use callfs.Erasure.Store.{encode, parity_added}

length-snoc : {A : Type 0} (xs : List A) (x : A) → length (xs ++ (x ∷ [])) ≡ suc (length xs)
unfolding length
length-snoc [] x = refl
length-snoc (y ∷ xs) x = omega (arith, length-snoc xs x)

-- setting the slot behind those that are done
set_slot-append :
    (done rest : Slots) (bytes : Text)
    → set_slot (length done) bytes (done ++ none ∷ rest) ≡ some (done ++ some bytes ∷ rest)
unfolding set_slot length
set_slot-append [] rest bytes = refl
set_slot-append (s ∷ done) rest bytes = rw (set_slot-append done rest bytes) refl

append_one :
    {A : Type 0} (xs : List A) (x : A) (ys : List A) → xs ++ x ∷ ys ≡ (xs ++ (x ∷ [])) ++ ys
append_one [] x ys = refl
append_one (z ∷ xs) x ys = ap (λ r. z ∷ r) (append_one xs x ys)

-- how many shards are there, and that those are the right ones
abbrev pub present : Slots → ℕ
present [] = 0
present (none ∷ slots) = present slots
present (some _ ∷ slots) = suc (present slots)

abbrev pub Agrees : Slots → List Text → Type 0
Agrees [] [] = Unit
Agrees (none ∷ slots) (_ ∷ shards) = Agrees slots shards
Agrees (some b ∷ slots) (s ∷ shards) = (b ≡ s) × Agrees slots shards
Agrees _ _ = ⊥

abbrev pub whole : List Text → Slots
whole [] = []
whole (s ∷ shards) = some s ∷ whole shards

-- records that stand in the order of their indices, from one on
abbrev pub Indexed : ℕ → List ErasureShardInfo → Type 0
Indexed i [] = Unit
Indexed i (si ∷ infos) = (si.index ≡ i) × Indexed (suc i) infos

module _ (fetch : ErasureShardInfo → Result Text) (checksum : Text → Text)
    (new_codec : ℕ → ℕ → Option Error) (reconstruct : ℕ → ℕ → Slots → Result Slots)
    (verify : ℕ → ℕ → Slots → Result Bool) where
  -- a record's shard, if it can be had and its checksum is right
  abbrev pub got : ErasureShardInfo → Option Text
  got si = checked fetch checksum new_codec reconstruct verify si (fetch si)

  unfoldable pub got_all : List ErasureShardInfo → Slots
  got_all [] = []
  got_all (si ∷ infos) = got si ∷ got_all infos

  collect-got_all :
      (infos : List ErasureShardInfo) (count : ℕ) (done : Slots)
      → Indexed (length done) infos
      → collect fetch checksum new_codec reconstruct verify infos count
          (done ++ empty_slots (length infos))
        ≡ some (count + present (got_all infos), done ++ got_all infos)
  unfolding collect got_all length empty_slots
  collect-got_all [] count done h = ap (λ n. some (n, done ++ [])) (omega arith)
  collect-got_all (si ∷ infos) count done (same, h) = elim (Option-cases (got si)) [
    | inl e ↦
        rw
          (
            e,
            collect,
            append_one done none (empty_slots (length infos)),
            append_one done none (got_all infos),
          )
          (collect-got_all infos count (done ++ none ∷ [])
            (subst (λ n. Indexed n infos) (sym (length-snoc done none)) h))
    | inr (b, e) ↦
        rw
          (
            e,
            collect,
            same,
            set_slot-append done (empty_slots (length infos)) b,
            append_one done (some b) (empty_slots (length infos)),
            append_one done (some b) (got_all infos),
          )
          (collect-got_all infos (suc count) (done ++ some b ∷ [])
              (subst (λ n. Indexed n infos) (sym (length-snoc done (some b))) h)
            ∙ ap (λ n. some (n, (done ++ some b ∷ []) ++ got_all infos)) (omega arith))
  ]

take-length : (s rest : Text) → take (length s) (s ++ rest) ≡ s
unfolding take length
take-length [] rest = refl
take-length (b ∷ s) rest = ap (λ t. b ∷ t) (take-length s rest)

length-prefix : (s rest : Text) → length s ≤ length (s ++ rest)
unfolding length
length-prefix [] rest = omega arith
length-prefix (b ∷ s) rest = omega (arith, length-prefix s rest)

-- the first shards, one after the other
abbrev pub first_shards : ℕ → List Text → Text
first_shards zero shards = []
first_shards (suc n) [] = []
first_shards (suc n) (s ∷ shards) = s ++ first_shards n shards

-- What the Reed-Solomon library documents: a profile's shards are so many, the data shards carry the
-- data and some padding, and any of them as many as the data shards give them all back.
module _ (split_data : ℕ → ℕ → Text → Result (List Text))
    (encode_parity : ℕ → ℕ → List Text → Result (List Text))
    (reconstruct : ℕ → ℕ → Slots → Result Slots) (verify : ℕ → ℕ → Slots → Result Bool) where
  abbrev pub Coded : ℕ → ℕ → Text → List Text → Type 0
  Coded d p bytes shards =
      (raw : List Text) × (split_data d p bytes ≡ ok raw) × (encode_parity d p raw ≡ ok shards)

  pub record ReedSolomon : Type 0 where
    pub counted :
        (d p : ℕ) (bytes : Text) (shards : List Text)
        → Coded d p bytes shards
        → length shards ≡ d + p
    pub recovers :
        (d p : ℕ) (bytes : Text) (shards : List Text) (slots : Slots)
        → Coded d p bytes shards
        → Agrees slots shards
        → d ≤ present slots
        → reconstruct d p slots ≡ ok (whole shards)
    pub consistent :
        (d p : ℕ) (bytes : Text) (shards : List Text)
        → Coded d p bytes shards
        → verify d p (whole shards) ≡ ok true
    pub systematic :
        (d p : ℕ) (bytes : Text) (shards : List Text)
        → Coded d p bytes shards
        → (padding : Text) × (first_shards d shards ≡ bytes ++ padding)

encode_ok :
    (new_codec : ℕ → ℕ → Option Error) (split_data : ℕ → ℕ → Text → Result (List Text))
    (encode_parity : ℕ → ℕ → List Text → Result (List Text)) (d p : ℕ) (bytes : Text)
    (shards : List Text)
    → encode new_codec split_data encode_parity d p bytes ≡ ok shards
    → ((ltb d 1 || ltb p 1) ≡ false)
      × (new_codec d p ≡ none)
      × ((raw : List Text) × (split_data d p bytes ≡ ok raw) × (encode_parity d p raw ≡ ok shards))
unfolding encode parity_added
encode_ok new_codec split_data encode_parity d p bytes shards h =
    elim (Option-cases (new_codec d p)) [
      | inr (e, bad) ↦ absurd (ground arith)
      | inl fine ↦ elim (Result-cases (split_data d p bytes)) [
        | inr (e, bad) ↦ absurd (ground arith)
        | inl (raw, e) ↦ elim (Result-cases (encode_parity d p raw)) [
          | inr (x, bad) ↦ absurd (ground arith)
          | inl (coded, f) ↦ (ground arith, fine, (raw, e, ground arith))
        ]
      ]
    ]

module _ (fetch : ErasureShardInfo → Result Text) (checksum : Text → Text)
    (new_codec : ℕ → ℕ → Option Error) (split_data : ℕ → ℕ → Text → Result (List Text))
    (encode_parity : ℕ → ℕ → List Text → Result (List Text))
    (reconstruct : ℕ → ℕ → Slots → Result Slots) (verify : ℕ → ℕ → Slots → Result Bool)
    (law : ReedSolomon split_data encode_parity reconstruct verify) where
  joined-whole :
      (n : ℕ) (shards : List Text)
      → joined fetch checksum new_codec reconstruct verify n (whole shards) ≡ first_shards n shards
  unfolding joined
  joined-whole zero shards = refl
  joined-whole (suc n) [] = refl
  joined-whole (suc n) (s ∷ shards) = ap (λ t. s ++ t) (joined-whole n shards)

  cut_whole :
      (bytes padding : Text)
      → cut fetch checksum new_codec reconstruct verify (length bytes) (bytes ++ padding) ≡ ok bytes
  unfolding cut
  cut_whole bytes padding =
      let long : ltb (length (bytes ++ padding)) (length bytes) ≡ false =
        ground (arith, length-prefix bytes padding) in
      rw (long, take-length bytes padding) refl

  decode_coded :
      (d p : ℕ) (bytes : Text) (shards : List Text) (slots : Slots)
      → encode new_codec split_data encode_parity d p bytes ≡ ok shards
      → Agrees slots shards
      → d ≤ present slots
      → decode fetch checksum new_codec reconstruct verify slots d p (length bytes) ≡ ok bytes
  unfolding decode reconstructed verified
  decode_coded d p bytes shards slots h agrees enough =
      let (fit, fine, coded) = encode_ok new_codec split_data encode_parity d p bytes shards h in
      let (padding, same) = law.systematic d p bytes shards coded in
      rw
        (
          fit,
          decode,
          fine,
          law.recovers d p bytes shards slots coded agrees enough,
          law.consistent d p bytes shards coded,
          joined-whole d shards,
          same,
        )
        (cut_whole bytes padding)

  -- A record of shards that were coded together gives the bytes back, from any shards that are enough.
  pub retrieve-encode :
      (info : ErasureFileInfo) (bytes : Text) (shards : List Text)
      → encode new_codec split_data encode_parity info.data_shards info.parity_shards bytes
        ≡ ok shards
      → info.original_size ≡ length bytes
      → Indexed 0 info.shards
      → length info.shards ≡ length shards
      → Agrees (got_all fetch checksum new_codec reconstruct verify info.shards) shards
      → info.data_shards ≤ present (got_all fetch checksum new_codec reconstruct verify info.shards)
      → retrieve_file fetch checksum new_codec reconstruct verify info ≡ ok bytes
  unfolding retrieve_file assemble length
  retrieve-encode info bytes shards h size indexed many agrees enough =
      let g = got_all fetch checksum new_codec reconstruct verify info.shards in
      let (fit, fine, coded) =
        encode_ok new_codec split_data encode_parity info.data_shards info.parity_shards bytes
          shards h in
      let total : info.data_shards + info.parity_shards ≡ length info.shards =
        sym (law.counted info.data_shards info.parity_shards bytes shards coded) ∙ sym many in
      let all_in : collect fetch checksum new_codec reconstruct verify info.shards 0
            (empty_slots (info.data_shards + info.parity_shards))
          ≡ some (0 + present g, g) =
        rw total
          (collect-got_all fetch checksum new_codec reconstruct verify info.shards 0 [] indexed) in
      let enough' : ltb (0 + present g) info.data_shards ≡ false = ground arith in
      rw (all_in, enough')
        (ap
            (λ n.
              decode fetch checksum new_codec reconstruct verify g info.data_shards
                info.parity_shards n)
            size
          ∙ decode_coded info.data_shards info.parity_shards bytes shards g h agrees enough)
