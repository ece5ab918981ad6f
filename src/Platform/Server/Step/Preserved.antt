-- ===== src/Platform/Server/Step/Preserved.antt =====
-- The events of the whole server as moves of its devices and sessions.
use multi_desk.Base.{Bool, true, false, ◌≡◌, ℕ, String, refl, ◌⊎◌, inl, inr, if_rule}
use multi_desk.Store.Interface.{Backend}
use multi_desk.Platform.World.{World}
use multi_desk.Platform.State.{Request, Reply}
use multi_desk.Platform.Auth.Handlers.{authenticate}
use multi_desk.Platform.Admission.{admit, expire}
use multi_desk.Platform.Moves.{board, Moves, Moves-Moves, here}
use multi_desk.Platform.Moves.Admission.{admit-Moves}
use multi_desk.Platform.Moves.Refined.{step-Moves, run-Moves, run_open-Moves}
use multi_desk.Platform.Moves.Limit.{IsLimited, Moves-IsLimited}
use multi_desk.Platform.Step.{Event, step}
use multi_desk.Platform.Server.{Server}
use multi_desk.Platform.Server.TwoFactor.{set_up_2fa}
use multi_desk.Platform.Server.Teams.{remove_member}
use multi_desk.Platform.Server.Workflows.{run_workflow}
use multi_desk.Platform.Server.Boards.Email.{
  send_verify_email-KeepsBoard, confirm_verify_email-KeepsBoard, request_password_reset-KeepsBoard,
  confirm_password_reset-KeepsBoard,
}
use multi_desk.Platform.Server.Boards.Stored.{
  analyze_session-KeepsBoard, change_role-KeepsBoard, confirm_2fa-KeepsBoard,
  create_organization-KeepsBoard, create_workflow-KeepsBoard, disable_2fa-KeepsBoard,
  get_workflow_run-KeepsBoard, invite_member-KeepsBoard, list_members-KeepsBoard,
  list_organizations-KeepsBoard, list_workflows-KeepsBoard, verify_2fa_login-KeepsBoard,
}
use multi_desk.Platform.Server.Step.{
  OpenRoute, open_call, asks_reset, confirms_reset, verifies_login, Route, call, asks_code,
  confirms_code, sets_up_2fa, confirms_2fa, disables_2fa, creates_organization, lists_organizations,
  lists_members, invites_member, changes_role, removes_member, creates_workflow, lists_workflows,
  runs_workflow, gets_workflow_run, analyzes, ServerEvent, open_request, request, joins, leaves,
  relays, writes_out, Analyst, serve_open, serve, serve_as, serve_step,
}

-- the routes of email.go, totp.go, teams.go, workflows.go and ai.go
abbrev is_stored_open : OpenRoute → Bool
is_stored_open (open_call c) = false
is_stored_open _ = true

abbrev is_stored_route : Route → Bool
is_stored_route (call c) = false
is_stored_route _ = true

abbrev pub is_stored : ServerEvent → Bool
is_stored (open_request host path c) = is_stored_open c
is_stored (request host authorization r c) = is_stored_route c
is_stored _ = false

module _ {S : Type 0} (b : Backend S) (o : Analyst) (w : World) (now : ℕ) where
  serve_open-stored :
      (c : OpenRoute) (s : Server S)
      → is_stored_open c ≡ true
      → board (serve_open b o w now c s).0.service ≡ board s.service
  unfolding serve_open
  serve_open-stored (open_call c) s own = cc
  serve_open-stored (asks_reset q) s own = request_password_reset-KeepsBoard b w now q s
  serve_open-stored (confirms_reset q) s own = confirm_password_reset-KeepsBoard b w now q s
  serve_open-stored (verifies_login q) s own = verify_2fa_login-KeepsBoard b w now q s

  serve-stored :
      (r : Request) (user : String) (c : Route) (s : Server S)
      → is_stored_route c ≡ true
      → board (serve b o w now r user c s).0.service ≡ board s.service
  unfolding serve set_up_2fa run_workflow remove_member
  serve-stored r user (call c) s own = cc
  serve-stored r user asks_code s own = send_verify_email-KeepsBoard b w now user s
  serve-stored r user (confirms_code q) s own = confirm_verify_email-KeepsBoard b w now user q s
  serve-stored r user sets_up_2fa s own = refl
  serve-stored r user (confirms_2fa q) s own = confirm_2fa-KeepsBoard b w now user q s
  serve-stored r user (disables_2fa q) s own = disable_2fa-KeepsBoard b w now user q s
  serve-stored r user (creates_organization q) s own =
      create_organization-KeepsBoard b w now user q s
  serve-stored r user lists_organizations s own = list_organizations-KeepsBoard b w now user s
  serve-stored r user (lists_members org) s own = list_members-KeepsBoard b w now org s
  serve-stored r user (invites_member org q) s own = invite_member-KeepsBoard b w now user org q s
  serve-stored r user (changes_role org member q) s own =
      change_role-KeepsBoard b w now user org member q s
  serve-stored r user (removes_member org member) s own = refl
  serve-stored r user (creates_workflow org q) s own =
      create_workflow-KeepsBoard b w now user org q s
  serve-stored r user (lists_workflows org) s own = list_workflows-KeepsBoard b w now org s
  serve-stored r user (runs_workflow session workflow) s own = refl
  serve-stored r user (gets_workflow_run id) s own = get_workflow_run-KeepsBoard b w now id s
  serve-stored r user (analyzes id q) s own =
      analyze_session-KeepsBoard w now o.api_key o.ask user id q s

  serve_as-stored :
      (answer : Reply ⊎ String) (r : Request) (c : Route) (s : Server S)
      → is_stored_route c ≡ true
      → board (serve_as b o w now answer r c s).0.service ≡ board s.service
  unfolding serve_as
  serve_as-stored (inl reply) r c s own = refl
  serve_as-stored (inr user) r c s own = serve-stored r user c s own

  serve_open-Moves :
      (c : OpenRoute) (s : Server S)
      → Moves (board s.service) (board (serve_open b o w now c s).0.service)
  unfolding serve_open
  serve_open-Moves (open_call c) s = run_open-Moves w now (board s.service) c s.service (here refl)
  serve_open-Moves (asks_reset q) s = here (request_password_reset-KeepsBoard b w now q s)
  serve_open-Moves (confirms_reset q) s = here (confirm_password_reset-KeepsBoard b w now q s)
  serve_open-Moves (verifies_login q) s = here (verify_2fa_login-KeepsBoard b w now q s)

  serve-Moves :
      (r : Request) (user : String) (c : Route) (s : Server S)
      → Moves (board s.service) (board (serve b o w now r user c s).0.service)
  unfolding serve set_up_2fa run_workflow remove_member
  serve-Moves r user (call c) s = run-Moves w now (board s.service) r user c s.service (here refl)
  serve-Moves r user asks_code s = here (send_verify_email-KeepsBoard b w now user s)
  serve-Moves r user (confirms_code q) s = here (confirm_verify_email-KeepsBoard b w now user q s)
  serve-Moves r user sets_up_2fa s = here refl
  serve-Moves r user (confirms_2fa q) s = here (confirm_2fa-KeepsBoard b w now user q s)
  serve-Moves r user (disables_2fa q) s = here (disable_2fa-KeepsBoard b w now user q s)
  serve-Moves r user (creates_organization q) s =
      here (create_organization-KeepsBoard b w now user q s)
  serve-Moves r user lists_organizations s = here (list_organizations-KeepsBoard b w now user s)
  serve-Moves r user (lists_members org) s = here (list_members-KeepsBoard b w now org s)
  serve-Moves r user (invites_member org q) s = here (invite_member-KeepsBoard b w now user org q s)
  serve-Moves r user (changes_role org member q) s =
      here (change_role-KeepsBoard b w now user org member q s)
  serve-Moves r user (removes_member org member) s = here refl
  serve-Moves r user (creates_workflow org q) s =
      here (create_workflow-KeepsBoard b w now user org q s)
  serve-Moves r user (lists_workflows org) s = here (list_workflows-KeepsBoard b w now org s)
  serve-Moves r user (runs_workflow session workflow) s = here refl
  serve-Moves r user (gets_workflow_run id) s = here (get_workflow_run-KeepsBoard b w now id s)
  serve-Moves r user (analyzes id q) s =
      here (analyze_session-KeepsBoard w now o.api_key o.ask user id q s)

  serve_as-Moves :
      (answer : Reply ⊎ String) (r : Request) (c : Route) (s : Server S)
      → Moves (board s.service) (board (serve_as b o w now answer r c s).0.service)
  unfolding serve_as
  serve_as-Moves (inl reply) r c s = here refl
  serve_as-Moves (inr user) r c s = serve-Moves r user c s

  -- What a request to any route of the server, or any step of a signalling connection, does to devices
  -- and sessions is a sequence of moves.
  pub serve_step-Moves :
      (e : ServerEvent) (s : Server S)
      → Moves (board s.service) (board (serve_step b o w now e s).service)
  unfolding serve_step step
  serve_step-Moves (open_request host path c) s =
      let j = admit-Moves w now (board s.service) host path s.service (here refl) in
      if_rule (λ (t : Server S). Moves (board s.service) (board t.service))
        (admit w now host path s.service).1 (Moves-Moves j (serve_open-Moves c _)) j
  serve_step-Moves (request host authorization r c) s =
      let j = admit-Moves w now (board s.service) host r.path s.service (here refl) in
      if_rule (λ (t : Server S). Moves (board s.service) (board t.service))
        (admit w now host r.path s.service).1
        (Moves-Moves j (
          serve_as-Moves (authenticate w now authorization (admit w now host r.path s.service).0) r
            c _))
        j
  serve_step-Moves (joins host id socket) s =
      step-Moves w now (Event.joins host id socket) s.service
  serve_step-Moves (leaves id socket) s = here refl
  serve_step-Moves (relays id socket m) s = here refl
  serve_step-Moves (writes_out id) s = here refl

  -- A request to a route of e-mail, second factor, teams, workflows or analysis leaves devices and
  -- sessions as the expiry before it leaves them.
  pub serve_step-stored :
      (e : ServerEvent) (s : Server S)
      → is_stored e ≡ true
      → board (serve_step b o w now e s).service ≡ board (expire w now s.service)
  unfolding serve_step admit
  serve_step-stored (open_request host path c) s own =
      let u : Server S = record s { service = (admit w now host path s.service).0 } in
      if_rule (λ (t : Server S). board t.service ≡ board (expire w now s.service))
        (admit w now host path s.service).1 (serve_open-stored c u own) refl
  serve_step-stored (request host authorization r c) s own =
      let u : Server S = record s { service = (admit w now host r.path s.service).0 } in
      if_rule (λ (t : Server S). board t.service ≡ board (expire w now s.service))
        (admit w now host r.path s.service).1
        (serve_as-stored (authenticate w now authorization (admit w now host r.path s.service).0) r
          c u own)
        refl
  serve_step-stored (joins host id socket) s own = cc
  serve_step-stored (leaves id socket) s own = cc
  serve_step-stored (relays id socket m) s own = cc
  serve_step-stored (writes_out id) s own = cc

  -- Where no operator has more than ten pending or active sessions, nor two with one target, any request
  -- to the server and any step of a connection, at any time, leaves it so.
  pub serve_step-IsLimited :
      (e : ServerEvent) (s : Server S)
      → IsLimited s.service.sessions
      → IsLimited (serve_step b o w now e s).service.sessions
  serve_step-IsLimited e s l = Moves-IsLimited (serve_step-Moves e s) l
