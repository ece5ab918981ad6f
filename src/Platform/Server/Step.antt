-- ===== src/Platform/Server/Step.antt =====
-- `Handler` of server/internal/platform/service.go with all its routes: those of the step function of
-- the service, and those of email.go, totp.go, teams.go, workflows.go and ai.go, which use the store.
pub mod Preserved
use multi_desk.Base.{ℕ, String, ◌⊎◌, inl, inr, if◌then◌else◌}
use multi_desk.Store.Interface.{Backend}
use multi_desk.Platform.World.{World}
use multi_desk.Platform.State.{Service, Request, Reply, Decoded}
use multi_desk.Platform.Auth.Handlers.{authenticate}
use multi_desk.Platform.Admission.{admit}
use multi_desk.Platform.Step.{OpenCall, Call, Event, run_open, run, step}
use multi_desk.Platform.Signalling.{Inbound}
use multi_desk.Platform.Server.{Server}
use multi_desk.Platform.Server.Email.{
  NewPassword, send_verify_email, confirm_verify_email, request_password_reset,
  confirm_password_reset,
}
use multi_desk.Platform.Server.TwoFactor.{
  CodeLogin, set_up_2fa, confirm_2fa, verify_2fa_login, disable_2fa,
}
use multi_desk.Platform.Server.Teams.{
  Invitation, create_organization, list_organizations, list_members, invite_member, change_role,
  remove_member,
}
use multi_desk.Platform.Server.Workflows.{
  WorkflowQuery, create_workflow, list_workflows, run_workflow, get_workflow_run,
}
use multi_desk.Platform.Server.Analysis.{Question, Upstream, analyze_session}

-- the routes that need no account
pub data OpenRoute : Type 0 where
  open_call : OpenCall → OpenRoute
  asks_reset : Decoded String → OpenRoute
  confirms_reset : Decoded NewPassword → OpenRoute
  verifies_login : Decoded CodeLogin → OpenRoute

-- the routes behind `auth`
pub data Route : Type 0 where
  call : Call → Route
  asks_code : Route
  confirms_code : Decoded String → Route
  sets_up_2fa : Route
  confirms_2fa : Decoded String → Route
  disables_2fa : Decoded String → Route
  creates_organization : Decoded String → Route
  lists_organizations : Route
  lists_members : (org : String) → Route
  invites_member : (org : String) → Decoded Invitation → Route
  changes_role : (org member : String) → Decoded String → Route
  removes_member : (org member : String) → Route
  creates_workflow : (org : String) → Decoded WorkflowQuery → Route
  lists_workflows : (org : String) → Route
  runs_workflow : (session workflow : String) → Route
  gets_workflow_run : (id : String) → Route
  analyzes : (id : String) → Decoded Question → Route

-- A request to one of the routes, or an event of a signalling connection.
pub data ServerEvent : Type 0 where
  open_request : (host path : String) → OpenRoute → ServerEvent
  request : (host authorization : String) → Request → Route → ServerEvent
  joins : (host id : String) → (socket : ℕ) → ServerEvent
  leaves : (id : String) → (socket : ℕ) → ServerEvent
  relays : (id : String) → (socket : ℕ) → Inbound → ServerEvent
  writes_out : (id : String) → ServerEvent

-- The API key of the external service, and the calls of it.
pub record Analyst : Type 0 where
  pub api_key : String
  pub ask : String → String → Upstream

-- a handler of the service within the server
abbrev pub with_service : {S B : Type 0} → Server S → Service × B → Server S × B
with_service s (t, reply) = (record s { service = t }, reply)

module _ {S : Type 0} (b : Backend S) (o : Analyst) (w : World) (now : ℕ) where
  unfoldable pub serve_open : OpenRoute → Server S → Server S × Reply
  serve_open (open_call c) s = with_service s (run_open w now c s.service)
  serve_open (asks_reset q) s = request_password_reset b w now q s
  serve_open (confirms_reset q) s = confirm_password_reset b w now q s
  serve_open (verifies_login q) s = verify_2fa_login b w now q s

  unfoldable pub serve : Request → String → Route → Server S → Server S × Reply
  serve r user (call c) s = with_service s (run w now r user c s.service)
  serve r user asks_code s = send_verify_email b w now user s
  serve r user (confirms_code q) s = confirm_verify_email b w now user q s
  serve r user sets_up_2fa s = set_up_2fa b w now user s
  serve r user (confirms_2fa q) s = confirm_2fa b w now user q s
  serve r user (disables_2fa q) s = disable_2fa b w now user q s
  serve r user (creates_organization q) s = create_organization b w now user q s
  serve r user lists_organizations s = list_organizations b w now user s
  serve r user (lists_members org) s = list_members b w now org s
  serve r user (invites_member org q) s = invite_member b w now user org q s
  serve r user (changes_role org member q) s = change_role b w now user org member q s
  serve r user (removes_member org member) s = remove_member b w now user org member s
  serve r user (creates_workflow org q) s = create_workflow b w now user org q s
  serve r user (lists_workflows org) s = list_workflows b w now org s
  serve r user (runs_workflow session workflow) s = run_workflow b w now user session workflow s
  serve r user (gets_workflow_run id) s = get_workflow_run b w now id s
  serve r user (analyzes id q) s = analyze_session w now o.api_key o.ask user id q s

  -- the handler behind the middleware `auth`
  unfoldable pub serve_as : Reply ⊎ String → Request → Route → Server S → Server S × Reply
  serve_as (inl reply) r c s = (s, reply)
  serve_as (inr user) r c s = serve r user c s

  unfoldable pub serve_step : ServerEvent → Server S → Server S
  serve_step (open_request host path c) s =
      let (t, admitted) = admit w now host path s.service in
      let u : Server S = record s { service = t } in if admitted then (serve_open c u).0 else u
  serve_step (request host authorization r c) s =
      let (t, admitted) = admit w now host r.path s.service in
      let u : Server S = record s { service = t } in
      if admitted then (serve_as (authenticate w now authorization t) r c u).0 else u
  serve_step (joins host id socket) s = record s {
    service = step w now (Event.joins host id socket) s.service;
  }
  serve_step (leaves id socket) s = record s {
    service = step w now (Event.leaves id socket) s.service;
  }
  serve_step (relays id socket m) s = record s {
    service = step w now (Event.relays id socket m) s.service;
  }
  serve_step (writes_out id) s = record s { service = step w now (Event.writes_out id) s.service }
