-- ===== src/FileHandlers/Get/Permitted.antt =====
-- server/handlers/get_file.go: what a GET answers, and to whom.
use callfs.Prelude.{
  ℕ, ◌≡◌, ◌≤◌, ◌⊎◌, inl, inr, refl, arith, Text, Bool, true, false, if◌then◌else◌, Option, none,
  some, Result, ok, err, Error, authentication_failed,
}
use callfs.Metadata.{Metadata}
use callfs.Paths.Parse.{parse_file_path}
use callfs.Auth.{read_perm}
use callfs.Links.Handlers.{status_of, engine_path}
use callfs.Engine.{EngineConfig, Backend, World, get_metadata}
use callfs.FileHandlers.{authorized}
use callfs.FileHandlers.Get.Served.{Serves, found-Serves, status_of_at_least}
use callfs.FileHandlers.Get.{
  GetAnswer, failed, Manager, refusal, get_found, get_allowed, get_as, get_handler,
}

abbrev pub Failure : GetAnswer → Type 0
Failure a = (n : ℕ) × (a ≡ failed n) × (400 ≤ n)

module _ {Disk : Type 0} (cfg : EngineConfig) (open_file : Backend → Text → Disk → Result Text)
    (update_blob create_blob : Backend → Text → Text → ℕ → Disk → Result (Unit {0}) × Disk)
    (em : Option Manager) (query : Text) (reads_at sets_at : ℕ) (path : Text) where
  -- the answer is a failure, or the user may read the path, its record was found, and the answer serves it
  abbrev pub Readable : Option Text → ℕ → ℕ → World Disk → GetAnswer → Type 0
  Readable user now set_at w a =
      Failure a
      ⊎ ((name : Text) × (user ≡ some name)
          × (authorized cfg name path read_perm w ≡ ok tt)
          × ((md : Metadata) × (v : World Disk) × (get_metadata path now set_at w ≡ (ok md, v))
              × Serves cfg open_file update_blob create_blob em query reads_at sets_at path md v a))

  refused-Readable :
      (user : Option Text) (now set_at : ℕ) (w : World Disk) (e : Error) (n : ℕ)
      → 400 ≤ n
      → Readable user now set_at w (refusal e n)
  refused-Readable user now set_at w e n h = inl (status_of e n, refl, status_of_at_least e n h)

  as-Readable :
      (user : Option Text) (now set_at : ℕ) (w : World Disk)
      → Readable user now set_at w
          (get_as cfg open_file update_blob create_blob em query reads_at sets_at user path now
            set_at w).0
  unfolding get_as get_allowed get_found
  as-Readable none now set_at w =
      refused-Readable none now set_at w authentication_failed 401 (omega arith)
  as-Readable (some name) now set_at w = by_right (authorized cfg name path read_perm w) refl
    where
      by_record :
          (r : Result Metadata × World Disk)
          → get_metadata path now set_at w ≡ r
          → authorized cfg name path read_perm w ≡ ok tt
          → Readable
              (some name)
              now
              set_at
              w
              (get_found cfg open_file update_blob create_blob em query reads_at sets_at path r).0
      by_record (err e, v) same may = refused-Readable (some name) now set_at w e 404 (omega arith)
      by_record (ok md, v) same may = inr (
        name,
        refl,
        may,
        (
          md,
          v,
          same,
          found-Serves cfg open_file update_blob create_blob em query reads_at sets_at path md v,
        ),
      )

      by_right :
          (r : Result (Unit {0}))
          → authorized cfg name path read_perm w ≡ r
          → Readable
              (some name)
              now
              set_at
              w
              (get_allowed cfg open_file update_blob create_blob em query reads_at sets_at path now
                set_at w r).0
      by_right (err e) same = refused-Readable (some name) now set_at w e 403 (omega arith)
      by_right (ok t) same = by_record (get_metadata path now set_at w) refl same

  abbrev pub Answered : Option Text → ℕ → ℕ → World Disk → Bool → GetAnswer → Type 0
  Answered user now set_at w is_invalid a =
      Failure a ⊎ ((is_invalid ≡ false) × Readable user now set_at w a)

  abbrev unless_invalid : Bool → Option Text → ℕ → ℕ → World Disk → GetAnswer × World Disk
  unless_invalid is_invalid user now set_at w =
      if is_invalid
      then (failed 400, w)
      else get_as cfg open_file update_blob create_blob em query reads_at sets_at user path now
          set_at w

  unless-Answered :
      (user : Option Text) (now set_at : ℕ) (w : World Disk) (is_invalid : Bool)
      → Answered user now set_at w is_invalid (unless_invalid is_invalid user now set_at w).0
  unless-Answered user now set_at w true = inl (400, refl, omega arith)
  unless-Answered user now set_at w false = inr (refl, as-Readable user now set_at w)

-- The answer to a GET is a failure, with a status of at least 400, or all of this holds: the path is
-- valid, the user is authenticated and may read the path by the store's records, its record was found,
-- and the answer is made of that record: of a file the bytes that `GetFile` reads, or of an erasure-coded
-- one the manager's bytes or the manifest, of a directory its children, and nothing of any other type.
pub get_handler-Readable :
    {Disk : Type 0} (cfg : EngineConfig) (open_file : Backend → Text → Disk → Result Text)
    (update_blob create_blob : Backend → Text → Text → ℕ → Disk → Result (Unit {0}) × Disk)
    (em : Option Manager) (query : Text) (reads_at sets_at : ℕ) (user : Option Text) (url : Text)
    (now set_at : ℕ) (w : World Disk)
    → Answered cfg open_file update_blob create_blob em query reads_at sets_at
        (engine_path (parse_file_path url))
        user
        now
        set_at
        w
        (parse_file_path url).is_invalid
        (get_handler cfg open_file update_blob create_blob em query reads_at sets_at user url now
          set_at w).0
unfolding get_handler
get_handler-Readable cfg open_file update_blob create_blob em query reads_at sets_at user url now
      set_at w =
    unless-Answered cfg open_file update_blob create_blob em query reads_at sets_at
      (engine_path (parse_file_path url)) user now set_at w (parse_file_path url).is_invalid
