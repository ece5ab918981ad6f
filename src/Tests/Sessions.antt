-- ===== src/Tests/Sessions.antt =====
-- The theorems on sessions, devices and the steps of the service, applied to a session that waits and
-- to one that is active.
use multi_desk.Tests.Coding.{same_bytes, standard}
use multi_desk.Security.{device_message, verify_device}
use multi_desk.Platform.World.{next_u64, random_id}
use multi_desk.Platform.Session.{announce, end_session, ended, live, owns, present, tell, visible}
use multi_desk.Platform.Proof.{fits, proof}
use multi_desk.Platform.Permissions.{all_new, contains, controls, subset, valid_permissions}
use multi_desk.Platform.Devices.{revoke_device, revoke_owned}
use multi_desk.Dict.{adjust, any_value, count_values, delete, insert, lookup}
use multi_desk.Base.{none, [], ◌∷◌, true, false, ◌≡◌, refl, leb, all, if◌then◌else◌}
use multi_desk.Platform.State.{body}
use multi_desk.Platform.Session.Invariant.{Inv}
use multi_desk.Platform.Session.Handlers.{
  Decision, SessionQuery, change_session, controller_busy, decide_found, decide_session,
  disarm_rivals, handover, handover_found, is_open_of, new_session, request_proved, request_query,
  request_session, start_session, stop_session, target_device, target_session, with_target,
}
use multi_desk.Platform.Session.Outcome.{
  IsApproved, IsHandedOver, decide_session-IsApproved, handover-IsHandedOver, is_success,
}
use multi_desk.Platform.Session.Started.{
  IsStarted, IsStopped, request_session-IsStarted, stop_session-IsStopped,
}
use multi_desk.Platform.Step.{step, decides, request}
use multi_desk.Platform.Step.Preserved.{step-Inv}
use multi_desk.Platform.Devices.Laws.{IsRevoked, revoke_device-IsRevoked}
use multi_desk.Platform.Proof.Laws.{proof-replay}
use multi_desk.Platform.Admission.{expire, admit}
use multi_desk.Platform.Admission.Laws.{IsFresh, expire-IsFresh, admit-flood, flood}
use multi_desk.Platform.Ice.{configure_ice, ice_configuration, ice_error, ice_for}
use multi_desk.Platform.Ice.Laws.{
  IsServed, is_allowed, ice_configuration-IsServed, configure_ice_lem,
}
use multi_desk.Platform.Wire.{enqueue, notify, record_audit, trim_audit}
use multi_desk.Tests.Fixtures.{world, idle, waiting, viewing, signed, waiting-Inv, viewing-Inv}

abbrev approval : Decision
approval = record { approve = true; permissions = "view" ∷ "mouse" ∷ [] }

abbrev wish : SessionQuery
wish = record { source_id = "laptop"; target_id = "desktop"; permissions = "view" ∷ [] }

decide_session-success :
    is_success (decide_session world 10 (signed "nb") "bob" "s" (body approval) waiting).1 ≡ true
unfolding adjust announce change_session delete device_message ended enqueue fits insert is_success
    live lookup next_u64 notify present proof random_id record_audit same_bytes standard
    target_device target_session tell trim_audit verify_device with_target contains controls
    any_value controller_busy decide_found decide_session all_new subset valid_permissions
    end_session
decide_session-success = refl

decide_session-IsApproved_example :
    IsApproved world 10
      (signed "nb")
      "bob"
      "s"
      ("view" ∷ "mouse" ∷ [])
      waiting
      (decide_session world 10 (signed "nb") "bob" "s" (body approval) waiting).0
decide_session-IsApproved_example =
    decide_session-IsApproved world 10 (signed "nb") "bob" "s" approval waiting refl
      decide_session-success

handover-success : is_success (handover world 10 (signed "nb") "bob" "s" viewing).1 ≡ true
unfolding adjust announce change_session delete device_message ended enqueue fits insert is_success
    live lookup next_u64 notify present proof random_id record_audit same_bytes standard
    target_device target_session tell trim_audit verify_device with_target contains controls
    handover handover_found disarm_rivals
handover-success = refl

handover-IsHandedOver_example :
    IsHandedOver world 10
      (signed "nb")
      "bob"
      "s"
      viewing
      (handover world 10 (signed "nb") "bob" "s" viewing).0
handover-IsHandedOver_example =
    handover-IsHandedOver world 10 (signed "nb") "bob" "s" viewing viewing-Inv handover-success

request_session-success :
    is_success (request_session world 10 (signed "na") "alice" (body wish) idle).1 ≡ true
unfolding adjust announce change_session delete device_message ended enqueue fits insert is_success
    live lookup next_u64 notify present proof random_id record_audit same_bytes standard
    target_device target_session tell trim_audit verify_device with_target contains controls
    request_session request_query request_proved start_session new_session any_value count_values
    is_open_of valid_permissions all_new
request_session-success = refl

request_session-IsStarted_example :
    IsStarted world 10
      (signed "na")
      "alice"
      wish
      idle
      (request_session world 10 (signed "na") "alice" (body wish) idle)
request_session-IsStarted_example =
    request_session-IsStarted world 10 (signed "na") "alice" wish idle request_session-success

stop_session-success : is_success (stop_session world 10 "alice" "s" viewing).1 ≡ true
unfolding lookup is_success stop_session visible owns end_session
stop_session-success = refl

stop_session-IsStopped_example :
    IsStopped world 10 "alice" "s" viewing (stop_session world 10 "alice" "s" viewing).0
stop_session-IsStopped_example =
    stop_session-IsStopped world 10 "alice" "s" viewing stop_session-success

revoke_device-success : is_success (revoke_device world 10 "bob" "desktop" viewing).1 ≡ true
unfolding lookup is_success revoke_device revoke_owned
revoke_device-success = refl

revoke_device-IsRevoked_example :
    IsRevoked world 10 "bob" "desktop" viewing (revoke_device world 10 "bob" "desktop" viewing).0
revoke_device-IsRevoked_example =
    revoke_device-IsRevoked world 10 "bob" "desktop" viewing revoke_device-success

step-Inv_example :
    Inv (
      step world 10 (request "host" "Bearer x" (signed "nb") (decides "s" (body approval))) waiting)
step-Inv_example =
    step-Inv world 10 (request "host" "Bearer x" (signed "nb") (decides "s" (body approval)))
      waiting waiting-Inv

proof-replay_example :
    (proof world 20
      (signed "nb")
      "bob"
      "key"
      (proof world 10 (signed "nb") "bob" "key" waiting).0).1
    ≡ false
proof-replay_example =
    proof-replay world 10 20 (signed "nb") (signed "nb") "bob" "bob" "key" "key" waiting refl

expire-IsFresh_example : IsFresh 2000 (expire world 2000 viewing)
expire-IsFresh_example = expire-IsFresh world 2000 viewing

ice_configuration-success : is_success (ice_configuration world 10 "alice" "s" viewing).1 ≡ true
unfolding lookup is_success ice_configuration ice_for visible owns
ice_configuration-success = refl

ice_configuration-IsServed_example :
    IsServed world 10 "alice" "s" viewing (ice_configuration world 10 "alice" "s" viewing).1
ice_configuration-IsServed_example =
    ice_configuration-IsServed world 10 "alice" "s" viewing ice_configuration-success

configure_ice_lem_example : configure_ice ("stun:a" ∷ []) "" idle ≡ (
    if all (is_allowed "") ("stun:a" ∷ [])
    then (record idle { ice_urls = "stun:a" ∷ []; turn_secret = "" }, none)
    else (idle, ice_error ("stun:a" ∷ []) ""))
configure_ice_lem_example = configure_ice_lem ("stun:a" ∷ []) "" idle

no_other_window : lookup "guest" idle.rates ≡ none
unfolding lookup
no_other_window = refl

admit-flood_example :
    (admit world 59 "guest" "/v1/me"
      (flood world "guest" ((10, "/v1/devices") ∷ (30, "/v1/audit") ∷ []) idle)).1
    ≡ leb 3 300
admit-flood_example =
    admit-flood world false 10 59 "guest" "/v1/devices" "/v1/me" ((30, "/v1/audit") ∷ []) idle
      no_other_window refl refl refl
