-- ===== src/Platform/Step/Preserved.antt =====
-- Every event keeps the invariant of the sessions.
use multi_desk.Base.{ℕ, String, Option-cases, if_rule, inl, inr, ◌⊎◌, not}
use multi_desk.Dict.{lookup}
use multi_desk.Platform.World.{World}
use multi_desk.Platform.State.{Service, Request, Reply}
use multi_desk.Platform.Proof.{new_challenge}
use multi_desk.Platform.Ice.{ice_configuration}
use multi_desk.Platform.Lists.{list_devices, list_sessions, list_audit}
use multi_desk.Platform.Session.{visible}
use multi_desk.Platform.Session.Invariant.{Inv, Keeps, kept}
use multi_desk.Platform.Session.Preserved.{
  request_session-Inv, decide_session-Inv, change_permissions-Inv, handover-Inv, stop_session-Inv,
}
use multi_desk.Platform.Auth.Handlers.{authenticate}
use multi_desk.Platform.Auth.Preserved.{
  register-Keeps, login-Keeps, rotate-Keeps, logout-Keeps, me-Keeps,
}
use multi_desk.Platform.Devices.Preserved.{
  register_device-Keeps, lookup_device-Keeps, revoke_device-Keeps,
}
use multi_desk.Platform.Admission.{admit}
use multi_desk.Platform.Admission.Preserved.{admit-Inv}
use multi_desk.Platform.Step.{
  OpenCall, registers, logs_in, rotates, Call, logs_out, asks_profile, asks_challenge,
  registers_device, looks_up_device, lists_devices, revokes_device, requests_session,
  lists_sessions, asks_ice, decides, changes_permissions, hands_over, stops_session, lists_audit,
  Event, open_request, request, joins, leaves, relays, writes_out, run_open, run, run_as, step,
}

module _ (w : World) (now : ℕ) where
  ice_configuration-Keeps :
      (user id : String) (s : Service) → Inv s → Keeps (ice_configuration w now user id s)
  unfolding ice_configuration
  ice_configuration-Keeps user id s i = elim (Option-cases (lookup id s.sessions)) [
    | inl e ↦ rw (e, ice_configuration) (kept _ _ i)
    | inr (v, e) ↦
        rw (e, ice_configuration) (if_rule Keeps (not (visible s v user)) (kept _ _ i) (kept _ _ i))
  ]

  run_open-Inv : (c : OpenCall) (s : Service) → Inv s → Inv (run_open w now c s).0
  unfolding run_open
  run_open-Inv (registers q) s i = (register-Keeps w now q s i).inv
  run_open-Inv (logs_in q) s i = (login-Keeps w now q s i).inv
  run_open-Inv (rotates q) s i = (rotate-Keeps w now q s i).inv

  run-Inv :
      (r : Request) (user : String) (c : Call) (s : Service) → Inv s → Inv (run w now r user c s).0
  unfolding run new_challenge list_devices list_sessions list_audit
  run-Inv r user logs_out s i = (logout-Keeps w now user s i).inv
  run-Inv r user asks_profile s i = (me-Keeps w now user s i).inv
  run-Inv r user asks_challenge s i = i
  run-Inv r user (registers_device q) s i = (register_device-Keeps w now r user q s i).inv
  run-Inv r user (looks_up_device code) s i = (lookup_device-Keeps w now code s i).inv
  run-Inv r user lists_devices s i = i
  run-Inv r user (revokes_device id) s i = (revoke_device-Keeps w now user id s i).inv
  run-Inv r user (requests_session q) s i = request_session-Inv w now r user q s i
  run-Inv r user lists_sessions s i = i
  run-Inv r user (asks_ice id) s i = (ice_configuration-Keeps user id s i).inv
  run-Inv r user (decides id q) s i = decide_session-Inv w now r user id q s i
  run-Inv r user (changes_permissions id q) s i = change_permissions-Inv w now r user id q s i
  run-Inv r user (hands_over id) s i = handover-Inv w now r user id s i
  run-Inv r user (stops_session id) s i = stop_session-Inv w now user id s i
  run-Inv r user lists_audit s i = i

  run_as-Inv :
      (a : Reply ⊎ String) (r : Request) (c : Call) (s : Service)
      → Inv s
      → Inv (run_as w now a r c s).0
  unfolding run_as
  run_as-Inv (inl reply) r c s i = i
  run_as-Inv (inr user) r c s i = run-Inv r user c s i

  -- From a state in order, any event at any time leads to a state in order: each session stands under
  -- its own key, has two different parties of which the target is a registered device, asks for valid
  -- permissions, holds only permissions that it asked for, and none unless it is active; no two active
  -- sessions hold mouse or keyboard of one target; and each device stands under its key.
  pub step-Inv : (e : Event) (s : Service) → Inv s → Inv (step w now e s)
  unfolding step
  step-Inv (open_request host path c) s i =
      let j = admit-Inv w now host path s i in
      if_rule Inv (admit w now host path s).1 (run_open-Inv c _ j) j
  step-Inv (request host authorization r c) s i =
      let j = admit-Inv w now host r.path s i in
      if_rule Inv (admit w now host r.path s).1
        (run_as-Inv (authenticate w now authorization (admit w now host r.path s).0) r c _ j) j
  step-Inv (joins host id socket) s i =
      let j = admit-Inv w now host "/v1/signalling" s i in
      if_rule Inv (admit w now host "/v1/signalling" s).1 j j
  step-Inv (leaves id socket) s i = i
  step-Inv (relays id socket m) s i = i
  step-Inv (writes_out id) s i = i
