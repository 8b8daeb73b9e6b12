-- ===== src/Auth/Rights.antt =====
-- auth/unix_authorizer.go: the mode bits against the usual reading of an octal mode.
use mathlib.Core.Path.{ap₂}
use callfs.Prelude.{
  ℕ, ◌+◌, ◌/◌, ◌%◌, ◌<◌, ◌^◌, ◌≡◌, refl, sym, ap, ◌∙◌, arith, ℤ, pos, int_eq, Text, text_eq,
  text_eq_iff, codes, trim_prefix, trim_prefix-append, has_prefix-append, parse_uint, atoi-show,
  show, leb, ◌==◌, if◌then◌else◌, Bool, Bool-cases, true, false, ◌||◌, Option, none, some, inl, inr,
  Result, ok, err, permission_denied, message,
}
use callfs.Prelude.Bits.{bit_and_two, bit_and_four}
use callfs.Metadata.{Metadata}
use callfs.Auth.{
  authorize, on_entry, Permission, read_perm, write_perm, delete_perm, parse_mode_bits, user_number,
  class_bits, wanted_bit, check_mode, check_unix_permissions, api_user, api_user_prefix,
}

-- The four modes that `parseModeBits` answers at once are those that parsing would give.
pub parse_mode_bits_lem :
    (mode : Text) → parse_mode_bits mode ≡ parse_uint 8 32 (trim_prefix mode (codes "0"))
unfolding parse_mode_bits parse_uint text_eq trim_prefix
parse_mode_bits_lem mode = elim (Bool-cases (text_eq mode (codes "0644"))) [
  | inl e ↦ at_literal (codes "0644") ((text_eq_iff _ _).0 e) refl
  | inr a ↦ elim (Bool-cases (text_eq mode (codes "0755"))) [
    | inl e ↦ at_literal (codes "0755") ((text_eq_iff _ _).0 e) refl
    | inr b ↦ elim (Bool-cases (text_eq mode (codes "0777"))) [
      | inl e ↦ at_literal (codes "0777") ((text_eq_iff _ _).0 e) refl
      | inr c ↦ elim (Bool-cases (text_eq mode (codes "0600"))) [
        | inl e ↦ at_literal (codes "0600") ((text_eq_iff _ _).0 e) refl
        | inr d ↦ rw (a, b, c, d)
      ]
    ]
  ]
]
  where
    at_literal :
        (m : Text)
        → mode ≡ m
        → parse_mode_bits m ≡ parse_uint 8 32 (trim_prefix m (codes "0"))
        → parse_mode_bits mode ≡ parse_uint 8 32 (trim_prefix mode (codes "0"))
    at_literal m e h = rw e h

-- The octal digit of the class that the user falls into.
abbrev pub class_digit : ℤ → Metadata → ℕ → ℕ
class_digit user md mode =
    if int_eq user md.uid
    then mode / 64 % 8
    else if int_eq user md.gid
    then mode / 8 % 8
    else mode % 8

-- rwx: reading wants the 4, writing and deleting the 2
abbrev pub grants : Permission → ℕ → Bool
grants read_perm digit = leb 4 digit
grants write_perm digit = leb 2 (digit % 4)
grants delete_perm digit = leb 2 (digit % 4)

class_bits-grants :
    (user : ℤ) (md : Metadata) (mode : ℕ) (perm : Permission)
    → (class_bits user md mode (wanted_bit perm) == 0)
      ≡ (if grants perm (class_digit user md mode) then false else true)
unfolding class_bits
class_bits-grants user md mode read_perm =
    ground (arith, bit_and_four (mode / 64), bit_and_four (mode / 8), bit_and_four mode)
class_bits-grants user md mode write_perm =
    ground (arith, bit_and_two (mode / 64), bit_and_two (mode / 8), bit_and_two mode)
class_bits-grants user md mode delete_perm =
    ground (arith, bit_and_two (mode / 64), bit_and_two (mode / 8), bit_and_two mode)

-- The verdict of an octal mode; `none` is a mode that is no octal number below 2 ^ 32.
abbrev pub octal_verdict : Option ℕ → ℤ → Metadata → Permission → Result (Unit {0})
octal_verdict none user md perm = err (message "invalid mode format")
octal_verdict (some mode) user md perm =
    if int_eq user (pos 0) || grants perm (class_digit user md mode)
    then ok tt
    else err permission_denied

-- `checkUnixPermissions` lets a user pass exactly if it is root or the octal digit of its class (owner,
-- else group, else others) holds the bit: 4 to read, 2 to write or delete. It refuses all other users
-- with "permission denied", and every mode that is no octal number with an error, root's too.
pub check_unix_permissions_lem :
    (md : Metadata) (user : Text) (perm : Permission)
    → check_unix_permissions md user perm
      ≡ octal_verdict (parse_uint 8 32 (trim_prefix md.mode (codes "0"))) (user_number user) md perm
unfolding check_unix_permissions
check_unix_permissions_lem md user perm =
    rw (sym (parse_mode_bits_lem md.mode)) (by_mode (parse_mode_bits md.mode))
  where
    by_mode :
        (o : Option ℕ)
        → check_mode o (user_number user) md perm ≡ octal_verdict o (user_number user) md perm
    by_mode none = refl
    by_mode (some mode) = ground (arith, class_bits-grants (user_number user) md mode perm)

user_number-api_user : (n : ℕ) → 0 < n → n < 2 ^ 62 → user_number (api_user n) ≡ pos (1000 + n)
unfolding user_number api_user text_eq
user_number-api_user n p lt =
    let small : n < 2 ^ 63 = omega arith in
    rw
      (
        has_prefix-append api_user_prefix (show n),
        trim_prefix-append api_user_prefix (show n),
        atoi-show n small,
      )
      (ground arith)

octal_0644 : parse_uint 8 32 (trim_prefix (codes "0644") (codes "0")) ≡ some 0o644
unfolding parse_uint trim_prefix
octal_0644 = refl

outsider :
    (md : Metadata) (n : ℕ) (perm : Permission)
    → md.uid ≡ pos 1000
    → md.gid ≡ pos 1000
    → 0 < n
    → octal_verdict (some 0o644) (pos (1000 + n)) md perm
      ≡ (if grants perm 4 then ok tt else err permission_denied)
outsider md n perm u g p =
    let not_owner : int_eq (pos (1000 + n)) md.uid ≡ false = ground arith in
    let not_group : int_eq (pos (1000 + n)) md.gid ≡ false = ground arith in ground arith

-- Of a record that is there, `Authorize` asks only its mode bits.
pub authorize_found :
    (get : Text → Result Metadata) (user path : Text) (perm : Permission) {md : Metadata}
    → get path ≡ ok md
    → authorize get user path perm ≡ check_unix_permissions md user perm
unfolding authorize on_entry
authorize_found get user path perm {md} found = rw found refl

-- A record with the mode "0644" that user and group 1000 own may be read by every user that an API key
-- stands for, and written or deleted by none of them.
pub new_file_is_read_only :
    (md : Metadata) (n : ℕ)
    → md.mode ≡ codes "0644"
    → md.uid ≡ pos 1000
    → md.gid ≡ pos 1000
    → 0 < n
    → n < 2 ^ 62
    → (check_unix_permissions md (api_user n) write_perm ≡ err permission_denied)
      × (check_unix_permissions md (api_user n) delete_perm ≡ err permission_denied)
      × (check_unix_permissions md (api_user n) read_perm ≡ ok tt)
new_file_is_read_only md n m u g p lt =
    (verdict write_perm refl, verdict delete_perm refl, verdict read_perm refl)
  where
    number : user_number (api_user n) ≡ pos (1000 + n)
    number = user_number-api_user n p lt

    mode : parse_uint 8 32 (trim_prefix md.mode (codes "0")) ≡ some 0o644
    mode = ap (λ mo. parse_uint 8 32 (trim_prefix mo (codes "0"))) m ∙ octal_0644

    verdict :
        (perm : Permission) {r : Result (Unit {0})}
        → (if grants perm 4 then ok tt else err permission_denied) ≡ r
        → check_unix_permissions md (api_user n) perm ≡ r
    verdict perm {r} e =
        check_unix_permissions_lem md (api_user n) perm
        ∙ ap₂ (λ o user. octal_verdict o user md perm) mode number
        ∙ outsider md n perm u g p
        ∙ e
