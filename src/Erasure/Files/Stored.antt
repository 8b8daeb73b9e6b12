-- ===== src/Erasure/Files/Stored.antt =====
-- erasure/manager.go: what `StoreFile` records, and that `RetrieveFile` gives the bytes back.
use mathlib.Core.Path.{subst}
use callfs.Prelude.{
  ℕ, suc, ◌+◌, ◌≤◌, ◌≡◌, inl, inr, refl, sym, ap, ◌∙◌, arith, length, Text, ◌==◌, ==_iff, Bool,
  Bool-cases, true, Option, Option-cases, none, List, [], ◌∷◌, Result, ok, err, Error,
}
use callfs.Metadata.{ErasureShardInfo, ErasureFileInfo}
use callfs.Raft.{State}
use callfs.Raft.Store.{Outcome, create_erasure, get_erasure_info}
use callfs.Raft.Store.ErasureInfo.{create_erasure-get}
use callfs.Erasure.{Slots, at, assign_shards, retrieve_file}
use callfs.Erasure.Store.{
  ManagerConfig, StoreOptions, data_shards_of, parity_shards_of, available, encode, write_shard,
}
use callfs.Erasure.Files.{
  shard_info, shard_infos, Written, noted, write_shards, recorded, file_info, first_size,
  all_written, distributed, store_file,
}
use callfs.Erasure.Files.Recovery.{ReedSolomon, Agrees, Indexed, got_all, present, retrieve-encode}

module _ {Net : Type 0} (m : ManagerConfig)
    (put_local : Text → Text → Net → Result (Unit {0}) × Net)
    (remove_local : Text → Net → Result (Unit {0}) × Net)
    (request : Text → Text → Text → Net → Result ℕ × Net) (new_codec : ℕ → ℕ → Option Error)
    (split_data : ℕ → ℕ → Text → Result (List Text))
    (encode_parity : ℕ → ℕ → List Text → Result (List Text))
    (checksum prefix_of : Text → Text) where
  infos_of : Text → List Text → ℕ → List Text → List ErasureShardInfo
  infos_of =
      shard_infos m put_local remove_local request new_codec split_data encode_parity checksum
        prefix_of

  infos_of-Indexed :
      (prefix : Text) (assignments : List Text) (i : ℕ) (shards : List Text)
      → Indexed i (infos_of prefix assignments i shards)
  unfolding infos_of shard_infos
  infos_of-Indexed prefix assignments i [] = tt
  infos_of-Indexed prefix assignments i (s ∷ shards) =
      (refl, infos_of-Indexed prefix assignments (suc i) shards)

  length-infos_of :
      (prefix : Text) (assignments : List Text) (i : ℕ) (shards : List Text)
      → length (infos_of prefix assignments i shards) ≡ length shards
  unfolding infos_of shard_infos length
  length-infos_of prefix assignments i [] = refl
  length-infos_of prefix assignments i (s ∷ shards) =
      omega (arith, length-infos_of prefix assignments (suc i) shards)

  written : Text → List Text → ℕ → List Text → Net → Written Net
  written =
      write_shards m put_local remove_local request new_codec split_data encode_parity checksum
        prefix_of

  noted_ok :
      (si : ErasureShardInfo) (r : Result (Unit {0})) (rest : Written Net)
      → (noted si r rest).failure ≡ none
      → (rest.failure ≡ none) × ((noted si r rest).infos ≡ si ∷ rest.infos)
  unfolding noted
  noted_ok si (ok t) rest h = (h, refl)
  noted_ok si (err e) rest h = absurd (ground arith)

  -- without a failure, every shard is recorded
  written_infos :
      (prefix : Text) (assignments : List Text) (i : ℕ) (shards : List Text) (net : Net)
      → (written prefix assignments i shards net).failure ≡ none
      → (written prefix assignments i shards net).infos ≡ infos_of prefix assignments i shards
  unfolding written write_shards infos_of shard_infos
  written_infos prefix assignments i [] net h = refl
  written_infos prefix assignments i (s ∷ shards) net h =
      let r =
        write_shard m put_local remove_local request (at i m.instance_id assignments) prefix i s
          net in
      let (rest, same) =
        noted_ok
          (shard_info m put_local remove_local request new_codec split_data encode_parity checksum
            prefix_of prefix assignments i s)
          r.0 (written prefix assignments (suc i) shards r.1) h in
      same
      ∙ ap
          (λ infos.
            shard_info m put_local remove_local request new_codec split_data encode_parity checksum
              prefix_of prefix assignments i s
            ∷ infos)
          (written_infos prefix assignments (suc i) shards r.1 rest)

  -- what a successful StoreFile has coded and recorded
  record Stored (path bytes : Text) (size : ℕ) (opts : Option StoreOptions) (info : ErasureFileInfo)
      (s : State) : Type 0 where
    shards : List Text
    coded :
        encode new_codec split_data encode_parity
          (data_shards_of m opts)
          (parity_shards_of m opts)
          bytes
        ≡ ok shards
    assignments : List Text
    shape :
        info
        ≡ file_info m put_local remove_local request new_codec split_data encode_parity checksum
            prefix_of path size
            (data_shards_of m opts)
            (parity_shards_of m opts)
            (first_size m put_local remove_local request new_codec split_data encode_parity checksum
              prefix_of shards)
            (infos_of (prefix_of bytes) assignments 0 shards)
    table : get_erasure_info path s ≡ ok info

  recorded_ok :
      (o : Outcome) (path : Text) (made info : ErasureFileInfo) (net net' : Net) (s s' : State)
      → recorded m put_local remove_local request new_codec split_data encode_parity checksum
          prefix_of made net
          (create_erasure o path made s)
        ≡ (ok info, (s', net'))
      → (info ≡ made) × (get_erasure_info path s' ≡ ok made)
  unfolding recorded
  recorded_ok o path made info net net' s s' h =
      by_answer (create_erasure o path made s) (create_erasure-get o path made s) h
    where
      by_answer :
          (r : Result (Unit {0}) × State)
          → (r.0 ≡ ok tt → get_erasure_info path r.1 ≡ ok made)
          → recorded m put_local remove_local request new_codec split_data encode_parity checksum
              prefix_of made net r
            ≡ (ok info, (s', net'))
          → (info ≡ made) × (get_erasure_info path s' ≡ ok made)
      by_answer (ok t, s1) g q = (
        ground arith,
        subst (λ z. get_erasure_info path z ≡ ok made) (ap (λ z. z.1.0) q) (g refl),
      )
      by_answer (err e, s1) g q = absurd (ground arith)

  all_written-recorded :
      (o : Outcome) (path : Text) (size d p shard_size : ℕ) (s : State) (w : Written Net)
      → w.failure ≡ none
      → all_written m put_local remove_local request new_codec split_data encode_parity checksum
          prefix_of o path size d p shard_size s w
        ≡ recorded m put_local remove_local request new_codec split_data encode_parity checksum
            prefix_of
            (file_info m put_local remove_local request new_codec split_data encode_parity checksum
              prefix_of path size d p shard_size w.infos)
            w.net
            (create_erasure o path
              (file_info m put_local remove_local request new_codec split_data encode_parity
                checksum prefix_of path size d p shard_size w.infos)
              s)
  unfolding all_written
  all_written-recorded o path size d p shard_size s w e = rw (e, all_written) refl

  distributed_ok :
      (o : Outcome) (path bytes : Text) (size : ℕ) (opts : Option StoreOptions) (s s' : State)
      (net net' : Net) (info : ErasureFileInfo) (r : Result (List Text))
      → encode new_codec split_data encode_parity
          (data_shards_of m opts)
          (parity_shards_of m opts)
          bytes
        ≡ r
      → distributed m put_local remove_local request new_codec split_data encode_parity checksum
          prefix_of o path bytes size opts
          (s, net)
          r
        ≡ (ok info, (s', net'))
      → Stored path bytes size opts info s'
  unfolding distributed all_written written
  distributed_ok o path bytes size opts s s' net net' info (err e) c h = absurd (ground arith)
  distributed_ok o path bytes size opts s s' net net' info (ok shards) c h =
      let assigned =
        assign_shards (data_shards_of m opts + parity_shards_of m opts) m.instance_id
          (available m opts) in
      let w = written (prefix_of bytes) assigned 0 shards net in
      elim (Option-cases w.failure) [
        | inr (e, bad) ↦ absurd (ground arith)
        | inl good ↦
            let made =
              file_info m put_local remove_local request new_codec split_data encode_parity checksum
                prefix_of path size (data_shards_of m opts) (parity_shards_of m opts)
                (first_size m put_local remove_local request new_codec split_data encode_parity
                  checksum prefix_of shards)
                w.infos in
            let (same, table) = recorded_ok o path made info w.net net' s s' (
              sym (
                all_written-recorded o path size (data_shards_of m opts) (parity_shards_of m opts)
                  (first_size m put_local remove_local request new_codec split_data encode_parity
                    checksum prefix_of shards)
                  s w good)
              ∙ h) in
            record {
              shards = shards;
              coded = c;
              assignments = assigned;
              shape =
                  same
                  ∙ ap
                      (λ infos.
                        file_info m put_local remove_local request new_codec split_data
                          encode_parity checksum prefix_of path size (data_shards_of m opts)
                          (parity_shards_of m opts)
                          (first_size m put_local remove_local request new_codec split_data
                            encode_parity checksum prefix_of shards)
                          infos)
                      (written_infos (prefix_of bytes) assigned 0 shards net good);
              table = table ∙ ap ok (sym same);
            }
      ]

  store_file-distributed :
      (o : Outcome) (path bytes : Text) (size : ℕ) (opts : Option StoreOptions) (s : State)
      (net : Net)
      → (size == length bytes) ≡ true
      → store_file m put_local remove_local request new_codec split_data encode_parity checksum
          prefix_of o path bytes size opts
          (s, net)
        ≡ distributed m put_local remove_local request new_codec split_data encode_parity checksum
            prefix_of o path bytes size opts
            (s, net)
            (encode new_codec split_data encode_parity
              (data_shards_of m opts)
              (parity_shards_of m opts)
              bytes)
  unfolding store_file
  store_file-distributed o path bytes size opts s net e = rw e refl

-- A file that `StoreFile` has stored without an error is on record, and `RetrieveFile` gives its bytes
-- back whenever as many shards as the data shards can be had and the shards that pass their checksums are
-- those that were written: however many of the others are lost or damaged. The Reed-Solomon library is
-- taken to do what it documents.
pub store-retrieve :
    {Net : Type 0} (m : ManagerConfig) (put_local : Text → Text → Net → Result (Unit {0}) × Net)
    (remove_local : Text → Net → Result (Unit {0}) × Net)
    (request : Text → Text → Text → Net → Result ℕ × Net) (new_codec : ℕ → ℕ → Option Error)
    (split_data : ℕ → ℕ → Text → Result (List Text))
    (encode_parity : ℕ → ℕ → List Text → Result (List Text)) (checksum prefix_of : Text → Text)
    (reconstruct : ℕ → ℕ → Slots → Result Slots) (verify : ℕ → ℕ → Slots → Result Bool)
    (fetch : ErasureShardInfo → Result Text) (o : Outcome) (path bytes : Text) (size : ℕ)
    (opts : Option StoreOptions) (s s' : State) (net net' : Net) (info : ErasureFileInfo)
    → ReedSolomon split_data encode_parity reconstruct verify
    → store_file m put_local remove_local request new_codec split_data encode_parity checksum
        prefix_of o path bytes size opts
        (s, net)
      ≡ (ok info, (s', net'))
    → ((shards : List Text)
        → encode new_codec split_data encode_parity info.data_shards info.parity_shards bytes
          ≡ ok shards
        → Agrees (got_all fetch checksum new_codec reconstruct verify info.shards) shards)
    → info.data_shards ≤ present (got_all fetch checksum new_codec reconstruct verify info.shards)
    → (get_erasure_info path s' ≡ ok info)
      × (retrieve_file fetch checksum new_codec reconstruct verify info ≡ ok bytes)
unfolding store_file
store-retrieve m put_local remove_local request new_codec split_data encode_parity checksum
      prefix_of reconstruct verify fetch o path bytes size opts s s' net net' info law h agrees
      enough =
    elim (Bool-cases (size == length bytes)) [
      | inr other ↦ absurd (ground arith)
      | inl same ↦
          let st =
            distributed_ok m put_local remove_local request new_codec split_data encode_parity
              checksum prefix_of o path bytes size opts s s' net net' info _ refl
              (sym (
                  store_file-distributed m put_local remove_local request new_codec split_data
                    encode_parity checksum prefix_of o path bytes size opts s net same)
                ∙ h) in
          (
            st.table,
            subst Recovered (sym st.shape)
                (recovered st.shards st.assignments ((==_iff size (length bytes)).0 same) st.coded)
                agrees enough,
          )
    ]
  where
    Recovered : ErasureFileInfo → Type 0
    Recovered info =
        ((shards : List Text)
          → encode new_codec split_data encode_parity info.data_shards info.parity_shards bytes
            ≡ ok shards
          → Agrees (got_all fetch checksum new_codec reconstruct verify info.shards) shards)
        → info.data_shards
          ≤ present (got_all fetch checksum new_codec reconstruct verify info.shards)
        → retrieve_file fetch checksum new_codec reconstruct verify info ≡ ok bytes

    recovered :
        (shards assignments : List Text)
        → size ≡ length bytes
        → encode new_codec split_data encode_parity
            (data_shards_of m opts)
            (parity_shards_of m opts)
            bytes
          ≡ ok shards
        → Recovered (
            file_info m put_local remove_local request new_codec split_data encode_parity checksum
              prefix_of path size
              (data_shards_of m opts)
              (parity_shards_of m opts)
              (first_size m put_local remove_local request new_codec split_data encode_parity
                checksum prefix_of shards)
              (infos_of m put_local remove_local request new_codec split_data encode_parity checksum
                prefix_of
                (prefix_of bytes)
                assignments
                0
                shards))
    recovered shards assignments size_same coded agrees enough =
        retrieve-encode fetch checksum new_codec split_data encode_parity reconstruct verify law
          (file_info m put_local remove_local request new_codec split_data encode_parity checksum
            prefix_of path size (data_shards_of m opts) (parity_shards_of m opts)
            (first_size m put_local remove_local request new_codec split_data encode_parity checksum
              prefix_of shards)
            (infos_of m put_local remove_local request new_codec split_data encode_parity checksum
              prefix_of (prefix_of bytes) assignments 0 shards))
          bytes shards coded size_same
          (infos_of-Indexed m put_local remove_local request new_codec split_data encode_parity
            checksum prefix_of (prefix_of bytes) assignments 0 shards)
          (length-infos_of m put_local remove_local request new_codec split_data encode_parity
            checksum prefix_of (prefix_of bytes) assignments 0 shards)
          (agrees shards coded) enough
