-- ===== src/FileHandlers/Get/Served.antt =====
-- server/handlers/get_file.go: what the answer to a GET is made of, once the record is found.
use callfs.Prelude.{
  ℕ, ◌≡◌, ◌≤◌, inl, inr, refl, ap, arith, Text, text_eq, codes, Bool, true, false, Bool-cases,
  if◌then◌else◌, Option, none, some, List, Result, ok, err, Error, not_found, already_exists,
  authentication_failed, permission_denied, forbidden, link_invalid, link_expired, link_not_found,
  insufficient_shards, shard_corrupted, invalid_profile, shard_not_found, message, wrap,
}
use callfs.Metadata.{Metadata, file, directory}
use callfs.Links.Handlers.{status_of}
use callfs.Engine.{EngineConfig, Backend, World, get_file}
use callfs.Engine.Listing.{list_directory}
use callfs.Erasure.Files.{ChunkManifest, get_manifest}
use callfs.FileHandlers.List.{file_infos}
use callfs.FileHandlers.Get.{
  GetAnswer, failed, content, reassembled, manifest, entries, nothing, Manager, manifest_answered,
  download_answered, entries_answered, content_answered, retrieve_of, streamed, coded,
  file_answered, get_found,
}

pub status_of_at_least : (e : Error) (n : ℕ) → 400 ≤ n → 400 ≤ status_of e n
unfolding status_of
status_of_at_least not_found n h = omega arith
status_of_at_least already_exists n h = omega arith
status_of_at_least authentication_failed n h = omega arith
status_of_at_least permission_denied n h = omega arith
status_of_at_least forbidden n h = h
status_of_at_least link_invalid n h = h
status_of_at_least link_expired n h = h
status_of_at_least link_not_found n h = h
status_of_at_least insufficient_shards n h = h
status_of_at_least shard_corrupted n h = h
status_of_at_least invalid_profile n h = h
status_of_at_least shard_not_found n h = h
status_of_at_least (message m) n h = h
status_of_at_least (wrap m e) n h = h

module _ {Disk : Type 0} (cfg : EngineConfig) (open_file : Backend → Text → Disk → Result Text)
    (update_blob create_blob : Backend → Text → Text → ℕ → Disk → Result (Unit {0}) × Disk)
    (em : Option Manager) (query : Text) (reads_at sets_at : ℕ) (path : Text) where
  -- what an answer is made of, once the record is found
  abbrev pub Serves : Metadata → World Disk → GetAnswer → Type 0
  Serves md v (failed n) = 400 ≤ n
  Serves md v (content shown bytes) =
      (shown ≡ md)
      × (text_eq md.type file ≡ true)
      × ((get_file cfg open_file update_blob create_blob (retrieve_of em) path reads_at sets_at v).0
          ≡ ok bytes)
  Serves md v (reassembled bytes) =
      (text_eq md.type file ≡ true)
      × (md.erasure_coded ≡ true)
      × ((m : Manager) × (em ≡ some m) × (m.1 path ≡ ok bytes))
  Serves md v (manifest k) =
      (text_eq md.type file ≡ true)
      × (md.erasure_coded ≡ true)
      × ((m : Manager) × (em ≡ some m) × (get_manifest m.0 path v.store ≡ ok k))
  Serves md v (entries shown infos) =
      (shown ≡ md)
      × (text_eq md.type directory ≡ true)
      × ((children : List Metadata) × (list_directory path v.store ≡ ok children)
          × (infos ≡ file_infos children))
  Serves md v nothing = (text_eq md.type file ≡ false) × (text_eq md.type directory ≡ false)

  abbrev opened : World Disk → Result Text × World Disk
  opened v = get_file cfg open_file update_blob create_blob (retrieve_of em) path reads_at sets_at v

  streamed-Serves :
      (md : Metadata) (v : World Disk)
      → text_eq md.type file ≡ true
      → Serves md v
          (streamed cfg open_file update_blob create_blob em query reads_at sets_at path md v).0
  unfolding streamed content_answered
  streamed-Serves md v is_file = by_content (opened v) refl
    where
      by_content :
          (r : Result Text × World Disk) → opened v ≡ r → Serves md v (content_answered md r).0
      by_content (err e, w) same = status_of_at_least e 500 (omega arith)
      by_content (ok bytes, w) same = (refl, is_file, ap (λ x. x.0) same)

  manifest-Serves :
      (m : Manager) (md : Metadata) (v : World Disk)
      → text_eq md.type file ≡ true
      → md.erasure_coded ≡ true
      → em ≡ some m
      → Serves md v (manifest_answered (get_manifest m.0 path v.store))
  unfolding manifest_answered
  manifest-Serves m md v is_file is_coded set_ = by_manifest (get_manifest m.0 path v.store) refl
    where
      by_manifest :
          (r : Result ChunkManifest)
          → get_manifest m.0 path v.store ≡ r
          → Serves md v (manifest_answered r)
      by_manifest (err e) same = status_of_at_least e 500 (omega arith)
      by_manifest (ok k) same = (is_file, is_coded, (m, set_, same))

  download-Serves :
      (m : Manager) (md : Metadata) (v : World Disk)
      → text_eq md.type file ≡ true
      → md.erasure_coded ≡ true
      → em ≡ some m
      → Serves md v (download_answered (m.1 path))
  unfolding download_answered
  download-Serves m md v is_file is_coded set_ = by_download (m.1 path) refl
    where
      by_download : (r : Result Text) → m.1 path ≡ r → Serves md v (download_answered r)
      by_download (err e) same = status_of_at_least e 500 (omega arith)
      by_download (ok bytes) same = (is_file, is_coded, (m, set_, same))

  coded-Serves :
      (manager : Option Manager) (md : Metadata) (v : World Disk)
      → em ≡ manager
      → text_eq md.type file ≡ true
      → md.erasure_coded ≡ true
      → Serves md v
          (coded cfg open_file update_blob create_blob em query reads_at sets_at manager path md
            v).0
  unfolding coded
  coded-Serves none md v same is_file is_coded = streamed-Serves md v is_file
  coded-Serves (some m) md v same is_file is_coded =
      elim (Bool-cases (text_eq query (codes "true"))) [
        | inl e ↦ rw (e, coded) (manifest-Serves m md v is_file is_coded same)
        | inr e ↦ rw (e, coded) (download-Serves m md v is_file is_coded same)
      ]

  abbrev if_coded : Bool → Metadata → World Disk → GetAnswer × World Disk
  if_coded is_coded md v =
      if is_coded
      then coded cfg open_file update_blob create_blob em query reads_at sets_at em path md v
      else streamed cfg open_file update_blob create_blob em query reads_at sets_at path md v

  file-Serves :
      (md : Metadata) (v : World Disk)
      → text_eq md.type file ≡ true
      → Serves md v
          (file_answered cfg open_file update_blob create_blob em query reads_at sets_at path md
            v).0
  unfolding file_answered
  file-Serves md v is_file = by_code md.erasure_coded refl
    where
      by_code : (b : Bool) → md.erasure_coded ≡ b → Serves md v (if_coded b md v).0
      by_code true e = coded-Serves em md v refl is_file e
      by_code false e = streamed-Serves md v is_file

  entries-Serves :
      (md : Metadata) (v : World Disk)
      → text_eq md.type directory ≡ true
      → Serves md v (entries_answered md (list_directory path v.store))
  unfolding entries_answered
  entries-Serves md v is_directory = by_children (list_directory path v.store) refl
    where
      by_children :
          (r : Result (List Metadata))
          → list_directory path v.store ≡ r
          → Serves md v (entries_answered md r)
      by_children (err e) same = status_of_at_least e 500 (omega arith)
      by_children (ok children) same = (refl, is_directory, (children, same, refl))

  pub found-Serves :
      (md : Metadata) (v : World Disk)
      → Serves md v
          (get_found cfg open_file update_blob create_blob em query reads_at sets_at path
            (ok md, v)).0
  unfolding get_found
  found-Serves md v = elim (Bool-cases (text_eq md.type file)) [
    | inl f ↦ rw (f, get_found) (file-Serves md v f)
    | inr f ↦ elim (Bool-cases (text_eq md.type directory)) [
      | inl d ↦ rw (f, d, get_found) (entries-Serves md v d)
      | inr d ↦ rw (f, d, get_found) (f, d)
    ]
  ]
