-- ===== src/Erasure/Store.antt =====
-- erasure/manager.go: `StoreFile`, `DeleteFile` and `GetManifest`, with the requests to peers;
-- erasure/codec.go: `Encode`. `Net` is all that the local backend and the peers keep; `put_local` and
-- `remove_local` are the backend's `Create` and `Delete`, `request` one HTTP exchange, with the status
-- of its answer. The shards, which goroutines write in parallel, are written in the order of their
-- indices. The Reed-Solomon library's `Split` answers as many shards as the profile has, so that the
-- loop runs over them; `prefix_of` stands for the first eight bytes of the SHA-256 sum, in hexadecimal.
use callfs.Prelude.{
  String, ℕ, zero, suc, ℤ, pos, negsuc, Text, text_eq, codes, trim_right, show, ltb, ◌==◌,
  if◌then◌else◌, ◌||◌, Option, none, some, List, [], ◌∷◌, ◌++◌, Result, ok, err, Error,
  invalid_profile, message, wrap,
}
use callfs.Prelude.Map
use callfs.Prelude.Map.{Map}
use callfs.Paths.{slash}
use callfs.Metadata.{ErasureShardInfo}
use callfs.Erasure.{extract_shard_prefix}

-- the part of the manager that is set once
pub record ManagerConfig : Type 0 where
  pub data_shards : ℤ
  pub parity_shards : ℤ
  pub shard_backend : Text
  pub instance_id : Text
  pub self_endpoint : Text
  pub peer_endpoints : Map Text

pub record StoreOptions : Type 0 where
  pub data_shards : ℤ
  pub parity_shards : ℤ
  pub instances : List Text

-- a count, or what stands in for one that is not positive
abbrev pub positive_or : ℕ → ℤ → ℕ
positive_or default (pos zero) = default
positive_or default (pos (suc n)) = suc n
positive_or default (negsuc _) = default

abbrev pub chosen : ℕ → ℤ → Option ℤ → ℕ
chosen default configured none = positive_or default configured
chosen default configured (some asked) = positive_or (positive_or default configured) asked

option_map : {A B : Type 0} → (A → B) → Option A → Option B
option_map f none = none
option_map f (some a) = some (f a)

unfoldable pub data_shards_of : ManagerConfig → Option StoreOptions → ℕ
unfolding option_map
data_shards_of m opts = chosen 4 m.data_shards (option_map (λ o. o.data_shards) opts)

unfoldable pub parity_shards_of : ManagerConfig → Option StoreOptions → ℕ
unfolding option_map
parity_shards_of m opts = chosen 2 m.parity_shards (option_map (λ o. o.parity_shards) opts)

-- the instance itself and its peers, or the instances that the request names
peers : Text → Map Text → List Text
peers self [] = []
peers self ((id, endpoint) ∷ endpoints) =
    let rest = peers self endpoints in if text_eq id self then rest else id ∷ rest

all_instances : ManagerConfig → List Text
unfolding peers
all_instances m = m.instance_id ∷ peers m.instance_id m.peer_endpoints

named_or_all : ManagerConfig → List Text → List Text
unfolding all_instances
named_or_all m [] = all_instances m
named_or_all m (i ∷ is) = i ∷ is

unfoldable pub available : ManagerConfig → Option StoreOptions → List Text
unfolding named_or_all
available m none = all_instances m
available m (some opts) = named_or_all m opts.instances

-- ".erasure/<prefix>/<index>"
unfoldable pub shard_path : Text → ℕ → Text
shard_path prefix index = (codes ".erasure/" ++ prefix) ++ slash ∷ show index

-- Encode; `new_codec`, `split_data` and `encode_parity` are the library's
module _ (new_codec : ℕ → ℕ → Option Error) (split_data : ℕ → ℕ → Text → Result (List Text))
    (encode_parity : ℕ → ℕ → List Text → Result (List Text)) where
  unfoldable pub parity_added : ℕ → ℕ → Result (List Text) → Result (List Text)
  parity_added d p (err e) = err (wrap "erasure: failed to split data" e)
  parity_added d p (ok shards) = elim (encode_parity d p shards) [
    | err e ↦ err (wrap "erasure: failed to encode parity" e)
    | ok coded ↦ ok coded
  ]

  unfoldable pub encode : ℕ → ℕ → Text → Result (List Text)
  unfolding parity_added
  encode d p bytes = if ltb d 1 || ltb p 1 then err invalid_profile else elim (new_codec d p) [
    | some e ↦ err (wrap "erasure: failed to create encoder" e)
    | none ↦ parity_added d p (split_data d p bytes)
  ]

-- the path of a shard's URL at a peer
abbrev pub shard_route : Text → ℕ → Text
shard_route prefix index = (codes "/v1/internal/shards/" ++ prefix) ++ slash ∷ show index

module _ {Net : Type 0} (m : ManagerConfig)
    (put_local : Text → Text → Net → Result (Unit {0}) × Net)
    (remove_local : Text → Net → Result (Unit {0}) × Net)
    (request : Text → Text → Text → Net → Result ℕ × Net) where
  -- storeRemoteShard and deleteRemoteShard
  abbrev pub shard_url : Text → Text → ℕ → Text
  shard_url endpoint prefix index = trim_right slash endpoint ++ shard_route prefix index

  answered : ℕ → String → Result ℕ × Net → Result (Unit {0}) × Net
  answered good what (err e, net) = (err e, net)
  answered good what (ok status, net) =
      (if status == 200 || status == good then ok tt else err (message what), net)

  store_remote_shard : Text → Text → ℕ → Text → Net → Result (Unit {0}) × Net
  unfolding answered
  store_remote_shard inst prefix index bytes net = elim (Map.get inst m.peer_endpoints) [
    | none ↦ (err (message "no endpoint for instance"), net)
    | some endpoint ↦
        answered 201 "remote shard store failed"
          (request (codes "PUT") (shard_url endpoint prefix index) bytes net)
  ]

  delete_remote_shard : Text → Text → ℕ → Net → Result (Unit {0}) × Net
  unfolding answered
  delete_remote_shard inst prefix index net = elim (Map.get inst m.peer_endpoints) [
    | none ↦ (err (message "no endpoint for instance"), net)
    | some endpoint ↦
        answered 204 "remote shard delete failed"
          (request (codes "DELETE") (shard_url endpoint prefix index) [] net)
  ]

  -- one goroutine's write, and one deletion, whose error is only logged
  unfoldable pub write_shard : Text → Text → ℕ → Text → Net → Result (Unit {0}) × Net
  unfolding store_remote_shard
  write_shard inst prefix index bytes net =
      if text_eq inst m.instance_id
      then put_local (shard_path prefix index) bytes net
      else store_remote_shard inst prefix index bytes net

  unfoldable pub delete_shard : ErasureShardInfo → Net → Net
  unfolding delete_remote_shard
  delete_shard si net =
      if text_eq si.instance_id m.instance_id
      then (remove_local si.path net).1
      else (delete_remote_shard si.instance_id (extract_shard_prefix si.path) si.index net).1

  unfoldable pub delete_shards : List ErasureShardInfo → Net → Net
  delete_shards [] net = net
  delete_shards (si ∷ infos) net = delete_shards infos (delete_shard si net)
