-- ===== src/Lib.antt =====
-- CallFS is a file service over several nodes: HTTP handlers take a request, an engine reads and writes
-- the metadata store and a storage backend under a lock, files may be spread over the nodes as coded
-- shards, and single-use links let a file be downloaded once without a key. This library models the parts
-- that decide: who may do what, which path is meant, what the replicated state becomes, what the engine
-- leaves behind on every branch, and what a cache, a lock, a link or a coded file promises.
--
-- From the bottom up:
--
-- Prelude: numbers, texts (lists of runes), errors as values, Go maps as association lists.
-- Config (config/defaults.go, config/loader.go): the configuration's records, the default one, and
--   `validate_config`, which answers the configuration with the defaults filled in.
-- Metadata (metadata/store.go): the records that are stored.
-- Raft (metadata/raft/store.go): `apply` is `fsm.Apply`, a function from a command and the clock to the
--   answer and the next state; `replay` runs a log. Raft.Store has the operations of `Store` as the leader
--   runs them; whether the Raft library commits an entry, and whether the leader learns of it, is an
--   argument, `Outcome`.
-- Paths (internal/pathutil/sanitize.go, server/handlers/path_utils.go): `clean`, `validate_path` and
--   `parse_file_path`, with filepath.Clean and filepath.Dir written out for Unix separators.
-- Auth (auth/unix_authorizer.go, auth/apikey_authenticator.go): `authorize` asks the metadata store through
--   a parameter; `authenticate` scans the table that `valid_keys` builds.
-- Locks (locks/local_manager.go): each operation under the mutex is one step; clock readings and owner
--   ids are arguments.
-- Cache (core/cache.go): the metadata cache of the engine; the order in which Go visits a map is the order
--   of the list, and a step may change that order.
-- Engine (core/): a `World` is the replicated state, the cache, the locks and what the backends keep. The
--   root has `UpdateFile`, `GetMetadata`, `GetFile` and `UpdateMetadataOnly` (core/file_operations.go,
--   core/backend_selection.go), Engine.Create `CreateFile` and `CreateErasureMetadata`, Engine.Delete
--   `DeleteFile`, Engine.Directories `CreateDirectory`, `ensureParentDirectories` and
--   `EnsureRootDirectory`, Engine.Listing the two listings (core/directory_operations.go), Engine.Remote
--   the operations on another instance (core/cross_instance_operations.go). Engine.Tree is the store's
--   shape that these keep. The backends and the proxy are parameters.
-- Erasure (erasure/): the root has the placement of shards and how `RetrieveFile` collects and decodes
--   them, Erasure.Store the requests to peers and the coding, Erasure.Url what becomes of a URL's path on
--   its way to a peer, Erasure.Files `StoreFile`, `DeleteFile` and `GetManifest` over the replicated state.
--   SHA-256, the Reed-Solomon library, the network and the local backend are parameters.
-- Links (links/manager.go, links/background_cleanup.go): links over Raft.Store, with the signature, the
--   token id and the clock as parameters. Links.Handlers (server/handlers/links/): the two handlers
--   from the decoded request to the status code.
-- RateLimit (server/middleware/ratelimit.go): the table of limiters by address.
-- FileHandlers (server/handlers/): the DELETE and HEAD handlers (cross_server_handlers.go), over Paths, Auth
--   and Engine; FileHandlers.Get the GET handler (get_file.go, erasure_handlers.go), FileHandlers.Put the
--   PUT handler (put_file_enhanced.go), FileHandlers.List the listing of a directory (list_directory.go),
--   FileHandlers.Shards the handlers of the shards that peers send (internal_shard_handlers.go).
--
-- Instants are numbers of nanoseconds. Sizes and counts stay far below 2 ^ 63 and have no wrap-around,
-- but the user number 1000 + N of an API user, which is computed on 64 bits, and the sum of shard counts
-- that the configuration's validation compares. There are two fuels. Printing a number in decimal has its
-- value and one, which is more than its digits. `ensureParentDirectories` and `CreateDirectory`, which call
-- each other up the path, have one more than the runes of the path; each call's path is shorter than the one
-- before (Paths/Shorter.antt), so that the operations return on every path.
--
-- Not modelled: input and output (HTTP, JSON, files, S3, SQL, Redis), loading the configuration from files
-- and the environment, the POST handler and the one for shards that clients read, the Raft cluster's
-- membership, forwarding and snapshots, the client's commands, logging and metrics, start-up, and what the
-- notes of each file leave out. Concurrency is modelled where a component has a mutex or a log, as
-- sequences of steps.
pub mod Prelude
pub mod Metadata
pub mod Raft
pub mod Paths
pub mod Auth
pub mod Locks
pub mod Cache
pub mod Links
pub mod RateLimit
pub mod Erasure
pub mod Engine
pub mod Config
pub mod FileHandlers
