-- ===== src/FileHandlers/Shards.antt =====
-- server/handlers/internal_shard_handlers.go: the handlers that a peer's shards come in by. `create`,
-- `update`, `open_file` and `remove` are the local backend's operations; a body that cannot be read, or is
-- longer than 256 MB, is `none`.
use mathlib.Core.List.{append_assoc}
use callfs.Prelude.{
  ℕ, suc, ◌^◌, ◌<◌, ◌≤◌, ◌⊎◌, ◌≡◌, refl, ap, ◌∙◌, arith, ℤ, pos, negsuc, length, Text, text_eq,
  text_eq_iff, codes, trim_prefix, trim_prefix-append, trim_space, cut_last, cut_last-append, atoi,
  atoi-show, show, show-no_slash, show-All, All, if◌then◌else◌, Bool, Bool-cases, false, not, ◌&&◌,
  Option, none, some, inl, inr, [], ◌∷◌, ◌++◌, Result, ok, err, message, wrap,
}
use callfs.Paths.{slash, validate_path}
use callfs.Paths.Shorter.{length-append}
use callfs.Erasure.{extract_shard_prefix}
use callfs.Erasure.Url.{IsOrdinary, url_path, url_path-All, All-append}
use callfs.Erasure.Store.{shard_path, shard_route}

-- authorizeInternal
unfoldable pub authorize_internal : Text → Text → Bool
authorize_internal header secret =
    not (text_eq secret []) && text_eq (trim_space (trim_prefix header (codes "Bearer "))) secret

-- `%d` of an `int`
shown : ℤ → Text
shown (pos n) = show n
shown (negsuc n) = b'-' ∷ show (suc n)

shard_checked : Text → Option ℤ → Result (Unit {0}) → Result (Text × ℤ)
unfolding shown
shard_checked file_path none valid = err (message "invalid shard index")
shard_checked file_path (some index) (err e) = err (wrap "invalid shard file path" e)
shard_checked file_path (some index) (ok _) =
    ok ((codes ".erasure/" ++ file_path) ++ slash ∷ shown index, index)

-- parseShardPath
unfoldable pub parse_shard_path : Text → Result (Text × ℤ)
unfolding shard_checked
parse_shard_path url_path =
    let trimmed = trim_prefix url_path (codes "/v1/internal/shards/") in
    if text_eq trimmed url_path
    then err (message "invalid shard path")
    else elim (cut_last slash trimmed) [
      | none ↦ err (message "invalid shard path: missing index")
      | some (file_path, index) ↦ shard_checked file_path (atoi index) (validate_path file_path)
    ]

module _ {Disk : Type 0} (secret : Text) where
  module _ (create update : Text → Text → Disk → Result (Unit {0}) × Disk) where
    shard_updated : Result (Unit {0}) × Disk → ℕ × Disk
    shard_updated (ok _, disk) = (201, disk)
    shard_updated (err e, disk) = (500, disk)

    shard_created : Text → Text → Result (Unit {0}) × Disk → ℕ × Disk
    unfolding shard_updated
    shard_created path bytes (ok _, disk) = (201, disk)
    shard_created path bytes (err e, disk) = shard_updated (update path bytes disk)

    shard_body : Option Text → Disk → Result (Text × ℤ) → ℕ × Disk
    unfolding shard_created
    shard_body body disk (err e) = (400, disk)
    shard_body none disk (ok (path, index)) = (400, disk)
    shard_body (some bytes) disk (ok (path, index)) =
        shard_created path bytes (create path bytes disk)

    -- InternalStoreShardHandler
    unfoldable pub internal_store_shard : Text → Text → Option Text → Disk → ℕ × Disk
    unfolding shard_body
    internal_store_shard header url_path body disk =
        if authorize_internal header secret
        then shard_body body disk (parse_shard_path url_path)
        else (401, disk)

  -- InternalGetShardHandler
  module _ (open_file : Text → Disk → Result Text) where
    shard_opened : Result Text → ℕ × Text
    shard_opened (err e) = (404, [])
    shard_opened (ok bytes) = (200, bytes)

    shard_read : Disk → Result (Text × ℤ) → ℕ × Text
    unfolding shard_opened
    shard_read disk (err e) = (400, [])
    shard_read disk (ok (path, index)) = shard_opened (open_file path disk)

    unfoldable pub internal_get_shard : Text → Text → Disk → ℕ × Text
    unfolding shard_read
    internal_get_shard header url_path disk =
        if authorize_internal header secret
        then shard_read disk (parse_shard_path url_path)
        else (401, [])

  -- InternalDeleteShardHandler; the backend's error is only logged
  module _ (remove : Text → Disk → Result (Unit {0}) × Disk) where
    shard_removed : Disk → Result (Text × ℤ) → ℕ × Disk
    shard_removed disk (err e) = (400, disk)
    shard_removed disk (ok (path, index)) = (204, (remove path disk).1)

    unfoldable pub internal_delete_shard : Text → Text → Disk → ℕ × Disk
    unfolding shard_removed
    internal_delete_shard header url_path disk =
        if authorize_internal header secret
        then shard_removed disk (parse_shard_path url_path)
        else (401, disk)

longer_route : (s : Text) → text_eq s (codes "/v1/internal/shards/" ++ s) ≡ false
unfolding length
longer_route s = elim (Bool-cases (text_eq s (codes "/v1/internal/shards/" ++ s))) [
  | inr differs ↦ differs
  | inl same ↦
      let e = ap length ((text_eq_iff s (codes "/v1/internal/shards/" ++ s)).0 same) in
      absurd (omega (arith, e, length-append (codes "/v1/internal/shards/") s))
]

parsed_route :
    (prefix : Text) (index : ℕ)
    → index < 2 ^ 63
    → validate_path prefix ≡ ok tt
    → parse_shard_path (codes "/v1/internal/shards/" ++ (prefix ++ slash ∷ show index))
      ≡ ok (shard_path prefix index, pos index)
unfolding parse_shard_path shard_checked shown shard_path
parsed_route prefix index small valid =
    let s = prefix ++ slash ∷ show index in
    rw
      (
        trim_prefix-append (codes "/v1/internal/shards/") s,
        longer_route s,
        cut_last-append slash prefix (show index) (show-no_slash index),
        atoi-show index small,
        valid,
      )
      refl

stored_prefix :
    (prefix : Text) (index : ℕ)
    → extract_shard_prefix (codes ".erasure/" ++ (prefix ++ slash ∷ show index)) ≡ prefix
unfolding extract_shard_prefix
stored_prefix prefix index =
    rw
      (
        extract_shard_prefix,
        trim_prefix-append (codes ".erasure/") (prefix ++ slash ∷ show index),
        cut_last-append slash prefix (show index) (show-no_slash index),
      )
      refl

-- What `StoreFile` makes a prefix of: hexadecimal digits.
abbrev pub IsHex : ℕ → Type 0
IsHex c = ((48 ≤ c) × (c ≤ 57)) ⊎ ((97 ≤ c) × (c ≤ 102))

All-IsHex : (s : Text) → All IsHex s → All IsOrdinary s
All-IsHex [] h = tt
All-IsHex (c ∷ s) (inl (low, high), h) = (inl (omega (arith, low), high), All-IsHex s h)
All-IsHex (c ∷ s) (inr (low, high), h) = (inr (low, omega (arith, high)), All-IsHex s h)

All-digits : (s : Text) → All (λ c. (48 ≤ c) × (c ≤ 57)) s → All IsOrdinary s
All-digits [] h = tt
All-digits (c ∷ s) ((low, high), h) = (inl (omega (arith, low), high), All-digits s h)

route_start : All IsOrdinary (codes "/v1/internal/shards/")
route_start = ground arith

-- The path of the URL under which one instance sends a shard to another is not changed by the escaping rules
-- of URLs, and is parsed there into
-- the very path that the sender records for the shard, and into its index; and from that path the sender
-- finds the prefix of the URL again. The prefix is of hexadecimal digits, as `StoreFile` makes it, and one
-- that `ValidatePath` lets pass; the index is below 2^63.
pub shard_route-url_path-parse_shard_path :
    (prefix : Text) (index : ℕ)
    → index < 2 ^ 63
    → All IsHex prefix
    → validate_path prefix ≡ ok tt
    → ((seen : Text) × (url_path (shard_route prefix index) ≡ some seen)
        × (parse_shard_path seen ≡ ok (shard_path prefix index, pos index)))
      × (extract_shard_prefix (shard_path prefix index) ≡ prefix)
unfolding shard_path
shard_route-url_path-parse_shard_path prefix index small hex valid =
    let tail = slash ∷ show index in
    let plain : All IsOrdinary (shard_route prefix index) =
      All-append (codes "/v1/internal/shards/" ++ prefix) tail
        (All-append (codes "/v1/internal/shards/") prefix route_start (All-IsHex prefix hex))
        (inl (omega arith, omega arith), All-digits (show index) (show-All index)) in
    (
      (
        shard_route prefix index,
        url_path-All (shard_route prefix index) plain,
        ap parse_shard_path (append_assoc (codes "/v1/internal/shards/") prefix tail)
            ∙ parsed_route prefix index small valid,
      ),
      ap extract_shard_prefix (append_assoc (codes ".erasure/") prefix tail)
          ∙ stored_prefix prefix index,
    )
