-- ===== src/Cache/Examples.antt =====
-- A cache for two entries (core/cache.go).
use callfs.Prelude.{
  ℕ, ◌≤◌, ◌≡◌, refl, arith, Text, text_eq, codes, pos, false, none, some, List, [], ◌∷◌,
}
use callfs.Prelude.Map
use callfs.Metadata.{Metadata, file, localfs}
use callfs.Cache.{
  CacheEntry, MetadataCache, new_metadata_cache, get, set, invalidate_prefix, Action, setting,
  invalidating, cleaning, reordering, run,
}
use callfs.Cache.Size.{Fits, run-Fits}
use callfs.Cache.Freshness.{newest, get_is_newest, get-set}
use callfs.Cache.Prefix.{IsBelow, invalidate_prefix-IsBelow}

abbrev file_at : Text → Metadata
file_at path = record {
  id = 0;
  parent_id = none;
  name = path;
  path = path;
  type = file;
  size = 3;
  mode = codes "0644";
  uid = pos 1000;
  gid = pos 1000;
  atime = 1;
  mtime = 1;
  ctime = 1;
  backend_type = localfs;
  erasure_coded = false;
  callfs_instance_id = none;
  symlink_target = none;
  created_at = 1;
  updated_at = 1;
}

abbrev a : Text
a = codes "/a"

abbrev actions : List Action
actions =
    setting (codes "/d/b") (file_at (codes "/d/b")) 1
    ∷ setting (codes "/c") (file_at (codes "/c")) 2
    ∷ setting a (file_at a) 3
    ∷ invalidating (codes "/c")
    ∷ cleaning 4
    ∷ reordering a
    ∷ []

abbrev small : MetadataCache
small = new_metadata_cache 300 2

abbrev filled : MetadataCache
filled = record small {
  cache =
      (codes "/d/b", record { metadata = file_at (codes "/d/b"); expires_at = 301 })
      ∷ (codes "/c", record { metadata = file_at (codes "/c"); expires_at = 302 })
      ∷ [];
}

run-Fits_example : Fits (run actions small)
unfolding Map.size
run-Fits_example = run-Fits actions small (omega arith) (omega arith)

get_is_newest_example :
    (until : ℕ) × (newest 300 a actions none
      ≡ some (record { metadata = file_at a; expires_at = until }))
    × (5 ≤ until)
unfolding get run Map.get callfs.Cache.step Map.sweep Map.remove Map.put Map.size text_eq
    callfs.Cache.evict_one_entry callfs.Cache.evict_expired callfs.Cache.evict_first
get_is_newest_example = get_is_newest 300 2 a actions 5 (file_at a) refl

set_then_got :
    (get a 9 (set a (file_at a) 3 filled) ≡ some (file_at a))
    × (text_eq a (codes "/c") ≡ false
        → (e : CacheEntry) → Map.get (codes "/c") (set a (file_at a) 3 filled).cache ≡ some e
        → Map.get (codes "/c") filled.cache ≡ some e)
unfolding Map.get text_eq
set_then_got = get-set a (codes "/c") (file_at a) 3 9 filled (refl, (refl, tt)) (omega arith)

-- "/dx" only starts with the same letters as "/d".
invalidate_prefix-IsBelow_example :
    (IsBelow (codes "/d") (codes "/dx")
      → get (codes "/dx") 5 (invalidate_prefix (codes "/d") filled) ≡ none)
    × (¬ IsBelow (codes "/d") (codes "/dx")
        → get (codes "/dx") 5 (invalidate_prefix (codes "/d") filled) ≡ get (codes "/dx") 5 filled)
invalidate_prefix-IsBelow_example = invalidate_prefix-IsBelow (codes "/d") (codes "/dx") 5 filled
