-- ===== src/FileHandlers/Put/Owner.antt =====
-- server/handlers/put_file_enhanced.go: who may do what with a file that the PUT handler has made.
use mathlib.Core.Path.{subst}
use callfs.Prelude.{
  ℕ, ◌<◌, ◌≤◌, ◌^◌, ◌≡◌, refl, ap, ◌∙◌, arith, inl, inr, pos, length, Text, text_eq, codes,
  Bool-cases, Option, Option-cases, none, some, Result, ok, err, wrap, eq_not_found,
  authentication_failed, permission_denied, ◌==◌,
}
use callfs.Prelude.Map
use callfs.Metadata.{Metadata, file}
use callfs.Raft.{State}
use callfs.Raft.Store
use callfs.Paths.Parse.{PathInfo, parse_file_path}
use callfs.Auth.{Permission, read_perm, write_perm, delete_perm, check_unix_permissions, api_user}
use callfs.Auth.Rights.{new_file_is_read_only, authorize_found}
use callfs.Links.Handlers.{engine_path}
use callfs.Engine.{
  EngineConfig, Backend, Call, World, get_metadata, update_file, update_metadata_only,
}
use callfs.Engine.Directories.{Answer, stamped}
use callfs.Engine.Directories.Tree.{Holds}
use callfs.Engine.Create.Made.{Made, create_file-Made}
use callfs.Engine.Remote
use callfs.FileHandlers.{remote_owner, authorized}
use callfs.FileHandlers.Get.Served.{status_of_at_least}
use callfs.FileHandlers.Put.{
  Upload, Correction, stated_size, resized, new_metadata, correct_size, local_put, remote_put,
  created_put, put_owned, put_existing, put_new, put_found, put_allowed, put_as, put_handler,
}
use callfs.FileHandlers.Put.Recorded.{Recorded, update_metadata_only-Recorded}

-- The record of a path in a store is one that user and group 1000 own, with the mode "0644".
abbrev pub Fresh : Text → State → Type 0
Fresh path s =
    (md : Metadata) × (Map.get path s.metadata_by_path ≡ some md)
    × (md.mode ≡ codes "0644")
    × (md.uid ≡ pos 1000)
    × (md.gid ≡ pos 1000)

module _ {Disk : Type 0} where
  correct_size-Fresh :
      (c : Correction) (u : Upload) (md : Metadata) (w : World Disk)
      → md.mode ≡ codes "0644"
      → md.uid ≡ pos 1000
      → md.gid ≡ pos 1000
      → Map.get md.path w.store.metadata_by_path ≡ some md
      → Fresh md.path (correct_size c u md w).store
  unfolding correct_size
  correct_size-Fresh c u md w m i g there = elim (Option-cases u.content_length) [
    | inr (n, stated) ↦ rw (stated, correct_size) (md, there, m, i, g)
    | inl chunked ↦ elim (Bool-cases (length u.body == 0)) [
      | inl empty ↦ rw (chunked, correct_size, empty) (md, there, m, i, g)
      | inr full ↦
          rw (chunked, correct_size, full)
            (by_update (update_metadata_only-Recorded c.outcome (resized c (length u.body) md) w))
    ]
  ]
    where
      by_update :
          Recorded
            (resized c (length u.body) md)
            w.store
            (update_metadata_only c.outcome (resized c (length u.body) md) w).1.store
          → Fresh md.path (update_metadata_only c.outcome (resized c (length u.body) md) w).1.store
      by_update (inl stored) = (resized c (length u.body) md, stored, m, i, g)
      by_update (inr same) =
          (md, ap (λ s. Map.get md.path s.metadata_by_path) same ∙ there, m, i, g)

-- an answer of 201 leaves such a record
abbrev pub MadeFresh : {Disk : Type 0} → Text → ℕ × World Disk → Type 0
MadeFresh path answer = answer.0 ≡ 201 → Fresh path answer.1.store

failed-MadeFresh :
    {Disk : Type 0} (path : Text) (n : ℕ) (w : World Disk) → 400 ≤ n → MadeFresh path (n, w)
failed-MadeFresh path n w le h = absurd (omega (arith, le, h))

module _ {Disk : Type 0} (cfg : EngineConfig) (default_backend : Text)
    (open_file : Backend → Text → Disk → Result Text)
    (update_blob create_blob : Backend → Text → Text → ℕ → Disk → Result (Unit {0}) × Disk)
    (make_dir remove_blob : Backend → Text → Disk → Result (Unit {0}) × Disk)
    (update_on : Text → Text → Text → ℕ → Disk → Result (Unit {0}) × Disk) (calls : Text → Call)
    (call : Call) (c : Correction) (u : Upload) (atime mtime ctime : ℕ) where
  owned-MadeFresh :
      (path : Text) (md : Metadata) (owner : Option Text) (w : World Disk)
      → MadeFresh path (
          put_owned cfg default_backend open_file update_blob create_blob make_dir remove_blob
            update_on calls call c u atime mtime ctime path md owner w)
  unfolding put_owned
  owned-MadeFresh path md (some id) w =
      by_answer
        (callfs.Engine.Remote.update_file_on_instance update_on id path u.body (stated_size u) w)
    where
      by_answer : (r : Result (Unit {0}) × World Disk) → MadeFresh path (remote_put c u md r)
      by_answer (err e, v) =
          failed-MadeFresh path _ v
            (status_of_at_least (wrap "failed to update file on remote server" e) 502 (omega arith))
      by_answer (ok t, v) = λ h. absurd (omega (arith, h))
  owned-MadeFresh path md none w =
      by_answer
        (update_file cfg open_file update_blob create_blob call path u.body (stated_size u) w)
    where
      by_answer : (r : Result (Unit {0}) × World Disk) → MadeFresh path (local_put 200 c u md r)
      by_answer (err e, v) = failed-MadeFresh path _ v (status_of_at_least e 500 (omega arith))
      by_answer (ok t, v) = λ h. absurd (omega (arith, h))

  existing-MadeFresh :
      (path : Text) (md : Metadata) (w : World Disk)
      → MadeFresh path (
          put_existing cfg default_backend open_file update_blob create_blob make_dir remove_blob
            update_on calls call c u atime mtime ctime path md w)
  unfolding put_existing
  existing-MadeFresh path md w = elim (Bool-cases (text_eq md.type file)) [
    | inl is_file ↦ rw (is_file, put_existing) (owned-MadeFresh path md (remote_owner cfg md) w)
    | inr other ↦ rw (other, put_existing) (λ h. absurd (omega (arith, h)))
  ]

  created-MadeFresh :
      (path name : Text) (w : World Disk) (r : Option (Answer Disk))
      → Holds
          (Made cfg open_file update_blob create_blob make_dir remove_blob calls call path
            (stamped cfg call path
              (stated_size u)
              (new_metadata name default_backend atime mtime ctime))
            w)
          r
      → Holds (MadeFresh path) (
          created_put c u
            (stamped cfg call path
              (stated_size u)
              (new_metadata name default_backend atime mtime ctime))
            r)
  unfolding created_put local_put stamped
  created-MadeFresh path name w none made = tt
  created-MadeFresh path name w (some (err e, v)) made =
      failed-MadeFresh path _ v (status_of_at_least e 500 (omega arith))
  created-MadeFresh path name w (some (ok tt, v)) made = λ h.
      correct_size-Fresh c u
        (stamped cfg call path (stated_size u)
          (new_metadata name default_backend atime mtime ctime))
        v refl refl refl (made.1 refl).known

  found-MadeFresh :
      (path name : Text) (r : Result Metadata × World Disk)
      → Holds (MadeFresh path) (
          put_found cfg default_backend open_file update_blob create_blob make_dir remove_blob
            update_on calls call c u atime mtime ctime path name r)
  unfolding put_found put_new
  found-MadeFresh path name (ok md, w) = existing-MadeFresh path md w
  found-MadeFresh path name (err e, w) = elim (Bool-cases (eq_not_found e)) [
    | inl missing ↦
        rw (missing, put_found)
          (created-MadeFresh path name w _ (
            create_file-Made cfg open_file update_blob create_blob make_dir remove_blob calls call
              path (stated_size u) (new_metadata name default_backend atime mtime ctime) u.body w))
    | inr other ↦
        rw (other, put_found) (failed-MadeFresh path _ w (status_of_at_least e 500 (omega arith)))
  ]

  as-MadeFresh :
      (user : Option Text) (info : PathInfo) (now set_at : ℕ) (w : World Disk)
      → Holds (MadeFresh (engine_path info)) (
          put_as cfg default_backend open_file update_blob create_blob make_dir remove_blob
            update_on calls call c u atime mtime ctime user info now set_at w)
  unfolding put_as put_allowed
  as-MadeFresh none info now set_at w =
      failed-MadeFresh (engine_path info) _ w
        (status_of_at_least authentication_failed 401 (omega arith))
  as-MadeFresh (some user) info now set_at w =
      by_right (authorized cfg user (engine_path info) write_perm w)
    where
      by_right :
          (may : Result (Unit {0}))
          → Holds (MadeFresh (engine_path info)) (
              put_allowed cfg default_backend open_file update_blob create_blob make_dir remove_blob
                update_on calls call c u atime mtime ctime
                (engine_path info)
                info.name
                now
                set_at
                w
                may)
      by_right (err e) =
          failed-MadeFresh (engine_path info) _ w (status_of_at_least e 403 (omega arith))
      by_right (ok t) =
          found-MadeFresh (engine_path info) info.name
            (get_metadata (engine_path info) now set_at w)

-- What the authorizer makes of such a record, for the users that API keys stand for.
Fresh-read_only :
    {Disk : Type 0} (cfg : EngineConfig) (path : Text) (n : ℕ) (w : World Disk)
    → 0 < n
    → n < 2 ^ 62
    → Fresh path w.store
    → (authorized cfg (api_user n) path write_perm w ≡ err permission_denied)
      × (authorized cfg (api_user n) path delete_perm w ≡ err permission_denied)
      × (authorized cfg (api_user n) path read_perm w ≡ ok tt)
unfolding Store.get
Fresh-read_only cfg path n w positive small (md, there, m, i, g) =
    let stored : Store.get path w.store ≡ ok md = rw there refl in
    let (may_write, may_delete, may_read) = new_file_is_read_only md n m i g positive small in
    (
      by_record stored write_perm ∙ may_write,
      by_record stored delete_perm ∙ may_delete,
      by_record stored read_perm ∙ may_read,
    )
  where
    by_record :
        Store.get path w.store ≡ ok md
        → (perm : Permission)
        → authorized cfg (api_user n) path perm w ≡ check_unix_permissions md (api_user n) perm
    by_record stored perm = authorize_found (λ p. Store.get p w.store) (api_user n) path perm stored

-- After a PUT that has made a file, answered with 201, no user that an API key stands for may write or
-- delete the file, the one who made it included; all of them may read it. The users' numbers are those from
-- 1 up, below 2^62.
pub put_file_is_read_only :
    {Disk : Type 0} (cfg : EngineConfig) (default_backend : Text)
    (open_file : Backend → Text → Disk → Result Text)
    (update_blob create_blob : Backend → Text → Text → ℕ → Disk → Result (Unit {0}) × Disk)
    (make_dir remove_blob : Backend → Text → Disk → Result (Unit {0}) × Disk)
    (update_on : Text → Text → Text → ℕ → Disk → Result (Unit {0}) × Disk) (calls : Text → Call)
    (call : Call) (c : Correction) (u : Upload) (atime mtime ctime : ℕ) (user : Option Text)
    (url : Text) (now set_at n : ℕ) (w w' : World Disk)
    → 0 < n
    → n < 2 ^ 62
    → put_handler cfg default_backend open_file update_blob create_blob make_dir remove_blob
        update_on calls call c u atime mtime ctime user url now set_at w
      ≡ some (201, w')
    → (authorized cfg (api_user n) (engine_path (parse_file_path url)) write_perm w'
        ≡ err permission_denied)
      × (authorized cfg (api_user n) (engine_path (parse_file_path url)) delete_perm w'
          ≡ err permission_denied)
      × (authorized cfg (api_user n) (engine_path (parse_file_path url)) read_perm w' ≡ ok tt)
unfolding put_handler
put_file_is_read_only cfg default_backend open_file update_blob create_blob make_dir remove_blob
      update_on calls call c u atime mtime ctime user url now set_at n w w' positive small h =
    elim (Bool-cases (parse_file_path url).is_invalid) [
      | inl bad ↦ absurd (ground arith)
      | inr good ↦ elim (Bool-cases (parse_file_path url).is_directory) [
        | inl bad ↦ absurd (ground arith)
        | inr plain ↦
            let answered : put_as cfg default_backend open_file update_blob create_blob make_dir
                  remove_blob update_on calls call c u atime mtime ctime user (parse_file_path url)
                  now set_at w
                ≡ some (201, w') =
              ground arith in
            Fresh-read_only cfg (engine_path (parse_file_path url)) n w' positive small (
              subst (Holds (MadeFresh (engine_path (parse_file_path url)))) answered
                (as-MadeFresh cfg default_backend open_file update_blob create_blob make_dir
                  remove_blob update_on calls call c u atime mtime ctime user (parse_file_path url)
                  now set_at w)
                refl)
      ]
    ]
