-- ===== src/Platform/Moves/Refined.antt =====
-- Every event of the service as moves of its board.
use multi_desk.Base.{ℕ, refl, String, Option-cases, if_rule, inl, inr, ◌⊎◌, not}
use multi_desk.Dict.{lookup}
use multi_desk.Platform.World.{World}
use multi_desk.Platform.State.{Service, Request, Reply}
use multi_desk.Platform.Proof.{new_challenge}
use multi_desk.Platform.Ice.{ice_configuration}
use multi_desk.Platform.Lists.{list_devices, list_sessions, list_audit}
use multi_desk.Platform.Session.{visible}
use multi_desk.Platform.Moves.{Board, board, Moves, here, Leads, led}
use multi_desk.Platform.Moves.Sessions.{
  request_session-Moves, decide_session-Moves, change_permissions-Moves, handover-Moves,
  stop_session-Moves,
}
use multi_desk.Platform.Auth.Handlers.{authenticate}
use multi_desk.Platform.Moves.Accounts.{
  register-Leads, login-Leads, rotate-Leads, logout-Leads, me-Leads,
}
use multi_desk.Platform.Moves.Devices.{
  register_device-Leads, lookup_device-Leads, revoke_device-Leads,
}
use multi_desk.Platform.Admission.{admit}
use multi_desk.Platform.Moves.Admission.{admit-Moves}
use multi_desk.Platform.Step.{
  OpenCall, registers, logs_in, rotates, Call, logs_out, asks_profile, asks_challenge,
  registers_device, looks_up_device, lists_devices, revokes_device, requests_session,
  lists_sessions, asks_ice, decides, changes_permissions, hands_over, stops_session, lists_audit,
  Event, open_request, request, joins, leaves, relays, writes_out, run_open, run, run_as, step,
}

module _ (w : World) (now : ℕ) (a : Board) where
  ice_configuration-Leads :
      (user id : String) (s : Service)
      → Moves a (board s)
      → Leads a (ice_configuration w now user id s)
  unfolding ice_configuration
  ice_configuration-Leads user id s i = elim (Option-cases (lookup id s.sessions)) [
    | inl e ↦ rw (e, ice_configuration) (led _ _ i)
    | inr (v, e) ↦
        rw (e, ice_configuration)
          (if_rule (Leads a) (not (visible s v user)) (led _ _ i) (led _ _ i))
  ]

  pub run_open-Moves :
      (c : OpenCall) (s : Service) → Moves a (board s) → Moves a (board (run_open w now c s).0)
  unfolding run_open
  run_open-Moves (registers q) s i = (register-Leads w now a q s i).by
  run_open-Moves (logs_in q) s i = (login-Leads w now a q s i).by
  run_open-Moves (rotates q) s i = (rotate-Leads w now a q s i).by

  pub run-Moves :
      (r : Request) (user : String) (c : Call) (s : Service)
      → Moves a (board s)
      → Moves a (board (run w now r user c s).0)
  unfolding run new_challenge list_devices list_sessions list_audit
  run-Moves r user logs_out s i = (logout-Leads w now a user s i).by
  run-Moves r user asks_profile s i = (me-Leads w now a user s i).by
  run-Moves r user asks_challenge s i = i
  run-Moves r user (registers_device q) s i = (register_device-Leads w now a r user q s i).by
  run-Moves r user (looks_up_device code) s i = (lookup_device-Leads w now a code s i).by
  run-Moves r user lists_devices s i = i
  run-Moves r user (revokes_device id) s i = (revoke_device-Leads w now a user id s i).by
  run-Moves r user (requests_session q) s i = request_session-Moves w now a r user q s i
  run-Moves r user lists_sessions s i = i
  run-Moves r user (asks_ice id) s i = (ice_configuration-Leads user id s i).by
  run-Moves r user (decides id q) s i = decide_session-Moves w now a r user id q s i
  run-Moves r user (changes_permissions id q) s i = change_permissions-Moves w now a r user id q s i
  run-Moves r user (hands_over id) s i = handover-Moves w now a r user id s i
  run-Moves r user (stops_session id) s i = stop_session-Moves w now a user id s i
  run-Moves r user lists_audit s i = i

  run_as-Moves :
      (answer : Reply ⊎ String) (r : Request) (c : Call) (s : Service)
      → Moves a (board s)
      → Moves a (board (run_as w now answer r c s).0)
  unfolding run_as
  run_as-Moves (inl reply) r c s i = i
  run_as-Moves (inr user) r c s i = run-Moves r user c s i

  step_from-Moves : (e : Event) (s : Service) → Moves a (board s) → Moves a (board (step w now e s))
  unfolding step
  step_from-Moves (open_request host path c) s i =
      let j = admit-Moves w now a host path s i in
      if_rule (λ t. Moves a (board t)) (admit w now host path s).1 (run_open-Moves c _ j) j
  step_from-Moves (request host authorization r c) s i =
      let j = admit-Moves w now a host r.path s i in
      if_rule (λ t. Moves a (board t)) (admit w now host r.path s).1
        (run_as-Moves (authenticate w now authorization (admit w now host r.path s).0) r c _ j) j
  step_from-Moves (joins host id socket) s i =
      let j = admit-Moves w now a host "/v1/signalling" s i in
      if_rule (λ t. Moves a (board t)) (admit w now host "/v1/signalling" s).1 j j
  step_from-Moves (leaves id socket) s i = i
  step_from-Moves (relays id socket m) s i = i
  step_from-Moves (writes_out id) s i = i

-- What an event does at any time and in any state to the devices and the sessions is a sequence of moves.
pub step-Moves :
    (w : World) (now : ℕ) (e : Event) (s : Service) → Moves (board s) (board (step w now e s))
step-Moves w now e s = step_from-Moves w now (board s) e s (here refl)
