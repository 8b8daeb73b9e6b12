-- ===== src/Engine/Remote.antt =====
-- core/cross_instance_operations.go. `update_on`, `delete_on` and `stat_on` are the internal proxy's
-- operations on an instance; the last two are `none` where no proxy is configured.
use callfs.Prelude.{ℕ, Text, Option, none, some, Result, ok, err, message}
use callfs.Metadata.{Metadata}
use callfs.Cache
use callfs.Engine.{World, relative}

module _ {Disk : Type 0} where
  -- UpdateFileOnInstance, DeleteFileOnInstance: the cache follows only without an error
  unfoldable pub remote_changed :
      Text → World Disk → Result (Unit {0}) × Disk → Result (Unit {0}) × World Disk
  remote_changed path w (err e, disk) = (err e, record w { disk = disk })
  remote_changed path w (ok _, disk) =
      (ok tt, record w { disk = disk; cache = Cache.invalidate path w.cache })

  unfoldable pub update_file_on_instance :
      (Text → Text → Text → ℕ → Disk → Result (Unit {0}) × Disk)
      → Text
      → Text
      → Text
      → ℕ
      → World Disk
      → Result (Unit {0}) × World Disk
  unfolding remote_changed
  update_file_on_instance update_on instance_id path bytes size w =
      remote_changed path w (update_on instance_id (relative path) bytes size w.disk)

  unfoldable pub delete_file_on_instance :
      Option (Text → Text → Disk → Result (Unit {0}) × Disk)
      → Text
      → Text
      → World Disk
      → Result (Unit {0}) × World Disk
  unfolding remote_changed
  delete_file_on_instance none instance_id path w =
      (err (message "internal proxy not configured: no peer endpoints available"), w)
  delete_file_on_instance (some delete_on) instance_id path w =
      remote_changed path w (delete_on instance_id (relative path) w.disk)

  unfoldable pub stat_file_on_instance :
      Option (Text → Text → Disk → Result Metadata) → Text → Text → World Disk → Result Metadata
  stat_file_on_instance none instance_id path w =
      err (message "internal proxy not configured: no peer endpoints available")
  stat_file_on_instance (some stat_on) instance_id path w =
      stat_on instance_id (relative path) w.disk
