-- ===== src/Links/Examples.antt =====
-- One link from its creation to its second download (links/manager.go, server/handlers/links/). The
-- signature is instantiated by a text that depends on its argument.
use callfs.Prelude.{
  ◌≡◌, ◌≢◌, refl, arith, Text, text_eq, codes, trim_prefix, pos, false, some, ◌++◌, Result, ok,
  is_ok, link_expired, link_invalid, ◌⊎◌,
}
use callfs.Prelude.Map
use callfs.Raft.{State, empty}
use callfs.Raft.Store.{Outcome, committed, given_up}
use callfs.Paths.{root}
use callfs.Auth.{Permission}
use callfs.Links.{token_of, generate_link, validate_and_invalidate_link}
use callfs.Links.Manager.{Consumed, generate-validate, validate_sound, validate_twice}
use callfs.Links.Failed.{Lost, validate_failed-Lost}
use callfs.Links.Handlers.{
  GenerateLinkRequest, generate_handler, created, content, download_handler, engine_path,
}
use callfs.Links.Handlers.Generate.{Granted, generate_handler_sound}
use callfs.Links.Handlers.Download.{generated_never_served}

abbrev sign : Text → Text
sign message_ = codes "s" ++ message_

abbrev id : Text
id = codes "id"

abbrev path : Text
path = codes "/a"

abbrev token : Text
token = token_of sign id path

abbrev ip : Text
ip = codes "10.0.0.1"

abbrev after_generate : State
after_generate = (generate_link sign (some id) path 300 1 1 (committed 2) empty).1

abbrev after_download : State
after_download = (validate_and_invalidate_link sign token ip 5 6 (committed 7) after_generate).1

generate-validate_example :
    (validate_and_invalidate_link sign token ip 5 6 (committed 7) after_generate).0 ≡ ok path
unfolding generate_link callfs.Prelude.contains_rune callfs.Raft.Store.create_single_use_link
    Map.get
generate-validate_example =
    generate-validate sign id path ip 300 1 1 5 6 7 (committed 2) empty {token = token} refl refl
      (omega arith)

validate_sound_example : Consumed sign token ip path 5 6 after_generate after_download
unfolding generate_link validate_and_invalidate_link callfs.Raft.Store.get_single_use_link Map.get
    callfs.Raft.Store.create_single_use_link Map.put text_eq callfs.Links.verify_signature
    callfs.Prelude.cut_first callfs.Raft.Store.update_single_use_link
validate_sound_example = validate_sound sign token ip path 5 6 (committed 7) after_generate refl

validate_twice_example :
    is_ok
      (validate_and_invalidate_link sign token
        (codes "10.0.0.2")
        8
        9
        (committed 9)
        after_download).0
    ≡ false
unfolding generate_link validate_and_invalidate_link callfs.Raft.Store.get_single_use_link Map.get
    callfs.Raft.Store.create_single_use_link Map.put text_eq callfs.Links.verify_signature
    callfs.Prelude.cut_first callfs.Raft.Store.update_single_use_link
validate_twice_example =
    validate_twice sign token ip (codes "10.0.0.2") path 5 6 8 9 (committed 7) (committed 9)
      after_generate refl

-- The first download's entry is applied, but the leader gives up on it.
abbrev timeout : Outcome
timeout = given_up link_expired 7

validate_failed-Lost_example :
    ((validate_and_invalidate_link sign token ip 5 6 timeout after_generate).1 ≡ after_generate)
    ⊎ Lost sign token ip 5 6 after_generate timeout
        (validate_and_invalidate_link sign token ip 5 6 timeout after_generate).1
unfolding generate_link validate_and_invalidate_link callfs.Raft.Store.get_single_use_link Map.get
    callfs.Raft.Store.create_single_use_link Map.put text_eq callfs.Links.verify_signature
    callfs.Prelude.cut_first callfs.Raft.Store.update_single_use_link
validate_failed-Lost_example =
    validate_failed-Lost sign token ip 5 6 timeout after_generate {x = link_invalid} refl

abbrev everyone : Text → Text → Permission → Result (Unit {0})
everyone user name perm = ok tt

abbrev request : GenerateLinkRequest
request = record { path = codes "/a"; expiry_seconds = pos 60 }

abbrev url : Text
url = codes "https://h:8443/download/" ++ token

abbrev after_request : State
after_request =
    (generate_handler sign everyone (codes "h:8443") (some (codes "api-user-1")) (some request)
      (some id) 1 1 (committed 2) empty).1

handed_out :
    (generate_handler sign everyone
      (codes "h:8443")
      (some (codes "api-user-1"))
      (some request)
      (some id)
      1
      1
      (committed 2)
      empty).0
    ≡ created url token
unfolding generate_handler text_eq callfs.Paths.Parse.parse_file_path callfs.Prelude.trim_suffix
    callfs.Prelude.contains_rune callfs.Paths.validate_path callfs.Paths.any_refused
    callfs.Paths.clean callfs.Prelude.has_prefix callfs.Paths.lexical_clean callfs.Prelude.join
    callfs.Paths.resolve callfs.Prelude.split callfs.Paths.enter callfs.Paths.stays_inside
    callfs.Paths.deepen callfs.Links.Handlers.expiry_of generate_link engine_path Map.get
    callfs.Prelude.has_suffix trim_prefix callfs.Prelude.trim_space callfs.Prelude.cut_last
    callfs.Prelude.push_rune callfs.Raft.Store.create_single_use_link
handed_out = refl

generate_handler_sound_example :
    Granted sign everyone
      (codes "h:8443")
      (codes "api-user-1")
      (some id)
      1
      1
      (committed 2)
      empty
      request
      token
      after_request
generate_handler_sound_example =
    generate_handler_sound sign everyone (codes "h:8443") (codes "api-user-1") request (some id) 1 1
      (committed 2) empty {url = url} {token = token} handed_out

stored_elsewhere :
    engine_path (callfs.Paths.Parse.parse_file_path (trim_prefix request.path root)) ≡ path
unfolding text_eq callfs.Paths.Parse.parse_file_path callfs.Prelude.trim_suffix
    callfs.Prelude.contains_rune callfs.Paths.validate_path callfs.Paths.any_refused
    callfs.Paths.clean callfs.Prelude.has_prefix callfs.Paths.lexical_clean callfs.Prelude.join
    callfs.Paths.resolve callfs.Prelude.split callfs.Paths.enter callfs.Paths.stays_inside
    callfs.Paths.deepen callfs.Links.Handlers.expiry_of generate_link engine_path Map.get
    callfs.Prelude.has_suffix trim_prefix callfs.Prelude.trim_space callfs.Prelude.cut_last
    callfs.Prelude.push_rune callfs.Raft.Store.create_single_use_link
stored_elsewhere = refl

generated_never_served_example :
    (download_handler sign (λ name. ok (codes "hi")) token ip 5 6 (committed 7) after_request).0
    ≢ content (codes "hi")
generated_never_served_example =
    generated_never_served sign everyone (codes "h:8443") (codes "api-user-1") request id 1 1
      (committed 2) empty {url = url} {token = token} (λ name. ok (codes "hi")) ip (codes "hi") 5 6
      (committed 7) handed_out (λ e. ground (arith, stored_elsewhere))
