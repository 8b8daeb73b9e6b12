-- ===== src/Auth/Examples.antt =====
-- The first user of an API key and a record with the mode of new files (auth/).
use callfs.Prelude.{
  ◌≡◌, ◌≢◌, refl, arith, Text, codes, pos, none, false, List, [], ◌∷◌, ok, err, permission_denied,
  trim_prefix, parse_uint,
}
use callfs.Metadata.{Metadata, file, localfs}
use callfs.Auth.{
  read_perm, write_perm, delete_perm, parse_mode_bits, user_number, check_unix_permissions,
  api_user, authenticate, valid_keys, bare_token,
}
use callfs.Auth.Rights.{
  parse_mode_bits_lem, octal_verdict, check_unix_permissions_lem, new_file_is_read_only,
}
use callfs.Auth.Keys.{Stands, authenticate_sound}

abbrev new_file : Metadata
new_file = record {
  id = 0;
  parent_id = none;
  name = codes "a";
  path = codes "/a";
  type = file;
  size = 3;
  mode = codes "0644";
  uid = pos 1000;
  gid = pos 1000;
  atime = 1;
  mtime = 1;
  ctime = 1;
  backend_type = localfs;
  erasure_coded = false;
  callfs_instance_id = none;
  symlink_target = none;
  created_at = 1;
  updated_at = 1;
}

abbrev keys : List Text
keys = codes "k1" ∷ codes "k2" ∷ []

check_unix_permissions_lem_example :
    check_unix_permissions new_file (codes "api-user-1") write_perm
    ≡ octal_verdict
        (parse_uint 8 32 (trim_prefix (codes "0644") (codes "0")))
        (user_number (codes "api-user-1"))
        new_file
        write_perm
check_unix_permissions_lem_example =
    check_unix_permissions_lem new_file (codes "api-user-1") write_perm

open_to_readers :
    (check_unix_permissions new_file (api_user 1) write_perm ≡ err permission_denied)
    × (check_unix_permissions new_file (api_user 1) delete_perm ≡ err permission_denied)
    × (check_unix_permissions new_file (api_user 1) read_perm ≡ ok tt)
open_to_readers = new_file_is_read_only new_file 1 refl refl refl (omega arith) (omega arith)

mode_bits_agree :
    parse_mode_bits (codes "0755") ≡ parse_uint 8 32 (trim_prefix (codes "0755") (codes "0"))
mode_bits_agree = parse_mode_bits_lem (codes "0755")

authenticate_sound_example :
    (bare_token (codes "Bearer k2") ≢ [])
    × Stands keys (codes "secret") (bare_token (codes "Bearer k2")) (codes "api-user-2")
unfolding authenticate callfs.Prelude.text_eq callfs.Prelude.trim_space trim_prefix valid_keys
    callfs.Prelude.Map.put api_user callfs.Prelude.show
authenticate_sound_example =
    authenticate_sound keys (codes "secret") (codes "Bearer k2") (codes "api-user-2") refl
