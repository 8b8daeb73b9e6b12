-- ===== src/Links/Handlers.antt =====
-- server/handlers/links/generate.go and server/handlers/links/download.go, with the status codes of
-- server/handlers/error_response.go. The JSON body and the HTTP headers are outside: `none` is a body
-- that does not decode. `get_file` stands for `Engine.GetFile`, `authorize` for the authorizer.
pub mod Generate
pub mod Download
use callfs.Prelude.{
  ℕ, ◌*◌, ◌^◌, ℤ, pos, negsuc, Text, text_eq, codes, ◌++◌, trim_prefix, trim_suffix, trim_space,
  contains_rune, leb, if◌then◌else◌, not, ◌&&◌, ◌||◌, Option, none, some, [], Result, ok, err,
  Error, not_found, already_exists, authentication_failed, permission_denied, link_not_found,
  link_expired, link_invalid, message,
}
use callfs.Raft.{State}
use callfs.Raft.Store.{Outcome}
use callfs.Paths.{slash, root, validate_path}
use callfs.Paths.Parse.{PathInfo, parse_file_path}
use callfs.Auth.{Permission, read_perm}
use callfs.Links.{generate_link, validate_and_invalidate_link}

-- SendErrorResponse: the status code of an error, with the handler's own for the others
unfoldable pub status_of : Error → ℕ → ℕ
status_of not_found default_status = 404
status_of already_exists default_status = 409
status_of authentication_failed default_status = 401
status_of permission_denied default_status = 403
status_of _ default_status = default_status

pub data Response : Type 0 where
  failed : ℕ → Response
  created : Text → Text → Response
  content : Text → Response

abbrev pub respond : Error → ℕ → Response
respond e default_status = failed (status_of e default_status)

pub record GenerateLinkRequest : Type 0 where
  pub path : Text
  pub expiry_seconds : ℤ

-- enginePath
unfoldable pub engine_path : PathInfo → Text
engine_path info =
    if info.is_directory && not (text_eq info.full_path root)
    then trim_suffix info.full_path root
    else info.full_path

-- 1 to 86400 seconds
unfoldable pub expiry_of : ℤ → Option ℕ
expiry_of (negsuc n) = none
expiry_of (pos n) = if leb n 0 || not (leb n 86400) then none else some n

module _ (sign : Text → Text) where
  module _ (authorize : Text → Text → Permission → Result (Unit {0})) (api_host : Text) where
    url_of : Text → Text
    url_of token = codes "https://" ++ trim_space api_host ++ codes "/download/" ++ token

    -- the answer, once the link is stored
    linked : Result Text × State → Response × State
    unfolding url_of
    linked (err e, s) = (failed 500, s)
    linked (ok token, s) =
        if contains_rune slash (trim_space api_host)
        then (failed 500, s)
        else (created (url_of token) token, s)

    with_expiry : Option ℕ → Text → Option Text → ℕ → ℕ → Outcome → State → Response × State
    unfolding linked
    with_expiry none path id now later o s = (failed 400, s)
    with_expiry (some seconds) path id now later o s =
        linked (generate_link sign id path (seconds * 10 ^ 9) now later o s)

    authorized :
        Result (Unit {0}) → ℤ → Text → Option Text → ℕ → ℕ → Outcome → State → Response × State
    unfolding with_expiry
    authorized (err e) seconds path id now later o s = (respond e 403, s)
    authorized (ok _) seconds path id now later o s =
        with_expiry (expiry_of seconds) path id now later o s

    generate_request :
        Text → Option GenerateLinkRequest → Option Text → ℕ → ℕ → Outcome → State → Response × State
    unfolding authorized
    generate_request user none id now later o s = (failed 400, s)
    generate_request user (some req) id now later o s =
        if text_eq req.path []
        then (failed 400, s)
        else let info = parse_file_path (trim_prefix req.path root) in
          if info.is_invalid
          then (failed 400, s)
          else authorized (authorize user (engine_path info) read_perm) req.expiry_seconds
              (engine_path info) id now later o s

    -- V1GenerateLinkHandler; the user is `none` where authentication has set none
    unfoldable pub generate_handler :
        Option Text
        → Option GenerateLinkRequest
        → Option Text
        → ℕ
        → ℕ
        → Outcome
        → State
        → Response × State
    unfolding generate_request
    generate_handler none req id now later o s = (respond authentication_failed 401, s)
    generate_handler (some user) req id now later o s = generate_request user req id now later o s

  module _ (get_file : Text → Result Text) where
    -- the statuses of the manager's errors
    unfoldable pub link_failure : Error → Response
    link_failure link_not_found = respond link_not_found 404
    link_failure link_expired = respond link_expired 410
    link_failure link_invalid = respond link_invalid 410
    link_failure _ = respond (message "link validation failed") 500

    serve : Text → Result Text → Response
    serve path (ok bytes) = content bytes
    serve path (err e) = respond e 500

    revalidated : Text → Result (Unit {0}) → Response
    unfolding serve
    revalidated path (err _) = respond (message "link validation failed") 500
    revalidated path (ok _) = serve path (get_file path)

    validated : Result Text × State → Response × State
    unfolding revalidated link_failure
    validated (err e, s) = (link_failure e, s)
    validated (ok path, s) = (revalidated path (validate_path path), s)

    -- V1DownloadLinkHandler
    unfoldable pub download_handler : Text → Text → ℕ → ℕ → Outcome → State → Response × State
    unfolding validated
    download_handler token ip now later o s =
        if text_eq token []
        then (respond (message "missing token") 400, s)
        else validated (validate_and_invalidate_link sign token ip now later o s)
