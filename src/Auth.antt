-- ===== src/Auth.antt =====
-- auth/: the Unix authorizer and the API key authenticator.
mod Examples
pub mod Rights
pub mod Keys
use Prim.Native.Nat.{bit_and}
use callfs.Prelude.{
  ℕ, ◌+◌, ◌-◌, ◌/◌, ◌^◌, ℤ, pos, negsuc, int_eq, add_ℕ, Text, text_eq, codes, has_prefix,
  trim_prefix, trim_space, cut_last, parse_uint, atoi, show, ltb, ◌==◌, if◌then◌else◌, Option, none,
  some, List, [], ◌∷◌, ◌++◌, Result, ok, err, not_found, eq_not_found, authentication_failed,
  permission_denied, message, wrap,
}
use callfs.Prelude.Map
use callfs.Prelude.Map.{Map}
use callfs.Metadata.{Metadata}
use callfs.Paths.{slash, root}

-- auth/interfaces.go
pub data Permission : Type 0 where
  read_perm write_perm delete_perm : Permission

-- parseModeBits: four common modes, and strconv.ParseUint for the others
unfoldable pub parse_mode_bits : Text → Option ℕ
parse_mode_bits mode =
    if text_eq mode (codes "0644")
    then some 0o644
    else if text_eq mode (codes "0755")
    then some 0o755
    else if text_eq mode (codes "0777")
    then some 0o777
    else if text_eq mode (codes "0600")
    then some 0o600
    else parse_uint 8 32 (trim_prefix mode (codes "0"))

abbrev pub api_user_prefix : Text
api_user_prefix = codes "api-user-"

-- 1000 + n on 64-bit integers, which wraps around at the top
offset : ℤ → ℤ
offset (pos n) =
    if ltb (1000 + n) (2 ^ 63) then pos (1000 + n) else negsuc (2 ^ 64 - (1000 + n) - 1)
offset (negsuc n) = add_ℕ 1000 (negsuc n)

numbered : Option ℤ → ℤ
unfolding offset
numbered none = pos 1000
numbered (some n) = offset n

-- The user and group number that `checkUnixPermissions` derives from a user id.
unfoldable pub user_number : Text → ℤ
unfolding numbered
user_number user =
    if text_eq user (codes "root")
    then pos 0
    else if has_prefix user api_user_prefix
    then numbered (atoi (trim_prefix user api_user_prefix))
    else pos 1000

-- `mode >> 6 & bit` for the owner, `mode >> 3 & bit` for the group, `mode & bit` for the others
unfoldable pub class_bits : ℤ → Metadata → ℕ → ℕ → ℕ
class_bits user md mode bit =
    if int_eq user md.uid
    then bit_and (mode / 2 ^ 6) bit
    else if int_eq user md.gid
    then bit_and (mode / 2 ^ 3) bit
    else bit_and mode bit

abbrev pub wanted_bit : Permission → ℕ
wanted_bit read_perm = 4
wanted_bit write_perm = 2
wanted_bit delete_perm = 2

check_mode : Option ℕ → ℤ → Metadata → Permission → Result (Unit {0})
unfolding class_bits
check_mode none user md perm = err (message "invalid mode format")
check_mode (some mode) user md perm =
    if int_eq user (pos 0)
    then ok tt
    else if class_bits user md mode (wanted_bit perm) == 0
    then err permission_denied
    else ok tt

-- checkUnixPermissions
unfoldable pub check_unix_permissions : Metadata → Text → Permission → Result (Unit {0})
unfolding check_mode
check_unix_permissions md user perm =
    check_mode (parse_mode_bits md.mode) (user_number user) md perm

-- The metadata store that the authorizer asks, as the answers of its `Get`.
module _ (get : Text → Result Metadata) where
  on_root : Result Metadata → Text → Permission → Result (Unit {0})
  on_root (ok md) user perm = check_unix_permissions md user perm
  on_root (err e) user perm =
      if eq_not_found e then ok tt else err (wrap "failed to get root metadata" e)

  on_parent : Result Metadata → Text → Permission → Result (Unit {0})
  on_parent (ok md) user perm = check_unix_permissions md user perm
  on_parent (err e) user perm =
      if eq_not_found e then err not_found else err (wrap "failed to get parent metadata" e)

  -- checkParentPermission; a slash at the front or none is the test `lastSlash <= 0`
  unfoldable pub check_parent_permission : Text → Text → Permission → Result (Unit {0})
  unfolding on_root on_parent
  check_parent_permission user path perm = elim (cut_last slash path) [
    | none ↦ on_root (get root) user perm
    | some (before, _) ↦
        if text_eq before [] then on_root (get root) user perm else on_parent (get before) user perm
  ]

  missing : Text → Text → Permission → Result (Unit {0})
  unfolding check_parent_permission
  missing user path write_perm = check_parent_permission user path write_perm
  missing user path _ = err not_found

  on_entry : Result Metadata → Text → Text → Permission → Result (Unit {0})
  unfolding missing
  on_entry (ok md) user path perm = check_unix_permissions md user perm
  on_entry (err e) user path perm =
      if eq_not_found e
      then missing user path perm
      else err (wrap "failed to get metadata for authorization" e)

  -- Authorize
  unfoldable pub authorize : Text → Text → Permission → Result (Unit {0})
  unfolding on_entry
  authorize user path perm = on_entry (get path) user path perm

-- NewAPIKeyAuthenticator
abbrev pub internal_proxy : Text
internal_proxy = codes "internal-proxy"

unfoldable pub api_user : ℕ → Text
api_user n = api_user_prefix ++ show n

number_keys : ℕ → List Text → Map Text → Map Text
number_keys n [] valid = valid
number_keys n (key ∷ keys) valid =
    number_keys (if text_eq key [] then n else n + 1) keys
      (if text_eq key [] then valid else Map.put key (api_user n) valid)

unfoldable pub valid_keys : List Text → Text → Map Text
unfolding number_keys
valid_keys keys secret =
    if text_eq secret []
    then number_keys 1 keys []
    else Map.put secret internal_proxy (number_keys 1 keys [])

-- the loop over all keys, which goes on behind a match
scan_keys : Text → Option Text → Map Text → Option Text
scan_keys token found [] = found
scan_keys token found ((key, uid) ∷ keys) =
    scan_keys token (if text_eq token key then some uid else found) keys

abbrev pub bare_token : Text → Text
bare_token token = trim_space (trim_prefix token (codes "Bearer "))

-- Authenticate
unfoldable pub authenticate : Map Text → Text → Result Text
unfolding scan_keys
authenticate valid header =
    let token = bare_token header in
    if text_eq token []
    then err authentication_failed
    else elim (scan_keys token none valid) [ none ↦ err authentication_failed | some uid ↦ ok uid ]
