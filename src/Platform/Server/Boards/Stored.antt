-- ===== src/Platform/Server/Boards/Stored.antt =====
-- The handlers of totp.go, teams.go, workflows.go and ai.go of server/internal/platform leave devices
-- and sessions alone.
use Prim.Native.String.{len}
use multi_desk.Base.{
  ℕ, String, Option, none, some, [], ◌∷◌, not, ◌&&◌, ◌||◌, ◌==◌, ◌≡◌, refl, ltb, num_eq, inl, inr,
  if_rule,
}
use multi_desk.Base.Text.{trim_space}
use multi_desk.Store.Types.{Result-cases}
use multi_desk.Store.Interface.{Backend}
use multi_desk.Platform.World.{World, random_id}
use multi_desk.Platform.State.{Service, Tokens, Decoded, malformed, trailing, body}
use multi_desk.Platform.Auth.{issue, issue_in, reply_tokens}
use multi_desk.Platform.Moves.{board}
use multi_desk.Platform.Server.{Server, draw_of}
use multi_desk.Platform.Server.TwoFactor.{
  CodeLogin, confirm_factor, confirm_2fa, verify_code, verify_2fa_login, disable_2fa, matches_code,
}
use multi_desk.Platform.Server.Teams.{
  Invitation, create_named, create_organization, list_organizations, list_members, invite_as,
  invite_member, change_role, is_role,
}
use multi_desk.Platform.Server.Workflows.{
  WorkflowQuery, create_titled, create_workflow, list_workflows, get_workflow_run,
}
use multi_desk.Platform.Server.Analysis.{
  Question, Upstream, unsendable, unreachable, unreadable, choices, answered, analyze,
  analyze_session,
}
use multi_desk.Platform.Server.Boards.{KeepsBoard}

module _ {S : Type 0} (b : Backend S) (w : World) (now : ℕ) where
  confirm_factor-KeepsBoard :
      (user code : String) (s : Server S) → KeepsBoard s (confirm_factor b w now user code s)
  unfolding confirm_factor
  confirm_factor-KeepsBoard user code s =
      if_rule (KeepsBoard s) (not (num_eq (len code) 6)) refl
        (elim (Result-cases (b.get_second_factor user s.store)) [
          | inl (e, h) ↦ rw h refl
          | inr (f, h) ↦ rw h refl
        ])

  pub confirm_2fa-KeepsBoard :
      (user : String) (q : Decoded String) (s : Server S)
      → KeepsBoard s (confirm_2fa b w now user q s)
  unfolding confirm_2fa
  confirm_2fa-KeepsBoard user malformed s = refl
  confirm_2fa-KeepsBoard user trailing s = refl
  confirm_2fa-KeepsBoard user (body code) s = confirm_factor-KeepsBoard user (trim_space code) s

  pub disable_2fa-KeepsBoard :
      (user : String) (q : Decoded String) (s : Server S)
      → KeepsBoard s (disable_2fa b w now user q s)
  unfolding disable_2fa
  disable_2fa-KeepsBoard user malformed s = refl
  disable_2fa-KeepsBoard user trailing s = refl
  disable_2fa-KeepsBoard user (body password) s = refl

  reply_tokens-board :
      (n : ℕ) (r : Service × Option Tokens) → board (reply_tokens w now n r).0 ≡ board r.0
  reply_tokens-board n (s, none) = refl
  reply_tokens-board n (s, some t) = refl

  verify_code-KeepsBoard :
      (user code : String) (s : Server S) → KeepsBoard s (verify_code b w now user code s)
  unfolding verify_code issue issue_in
  verify_code-KeepsBoard user code s =
      if_rule (KeepsBoard s) (ltb (len code) 6 || ltb 8 (len code)) refl (
        if_rule (KeepsBoard s) (not (matches_code code) && not (num_eq (len code) 6)) refl
          (reply_tokens-board 200 _))

  pub verify_2fa_login-KeepsBoard :
      (q : Decoded CodeLogin) (s : Server S) → KeepsBoard s (verify_2fa_login b w now q s)
  unfolding verify_2fa_login
  verify_2fa_login-KeepsBoard malformed s = refl
  verify_2fa_login-KeepsBoard trailing s = refl
  verify_2fa_login-KeepsBoard (body q) s = verify_code-KeepsBoard q.user_id (trim_space q.code) s

  create_named-KeepsBoard :
      (user name : String) (s : Server S) → KeepsBoard s (create_named b w now user name s)
  unfolding create_named
  create_named-KeepsBoard user name s =
      if_rule (KeepsBoard s) (ltb (len name) 2 || ltb 80 (len name)) refl
        (elim (Result-cases (
          b.create_organization
            (record {
              id = random_id w (draw_of s) 16;
              name = name;
              owner_id = user;
              created_at = now;
            })
            s.store)) [ inl (e, h) ↦ rw h refl | inr (t, h) ↦ rw h refl ])

  pub create_organization-KeepsBoard :
      (user : String) (q : Decoded String) (s : Server S)
      → KeepsBoard s (create_organization b w now user q s)
  unfolding create_organization
  create_organization-KeepsBoard user malformed s = refl
  create_organization-KeepsBoard user trailing s = refl
  create_organization-KeepsBoard user (body name) s =
      create_named-KeepsBoard user (trim_space name) s

  pub list_organizations-KeepsBoard :
      (user : String) (s : Server S) → KeepsBoard s (list_organizations b w now user s)
  unfolding list_organizations
  list_organizations-KeepsBoard user s =
      elim (Result-cases (b.list_user_organizations user s.store)) [
        | inl (e, h) ↦ rw (h, list_organizations) refl
        | inr (t, h) ↦ rw (h, list_organizations) refl
      ]

  pub list_members-KeepsBoard :
      (org : String) (s : Server S) → KeepsBoard s (list_members b w now org s)
  unfolding list_members
  list_members-KeepsBoard org s =
      if_rule (KeepsBoard s) (org == "") refl (elim (Result-cases (b.list_members org s.store)) [
        | inl (e, h) ↦ rw h refl
        | inr (t, h) ↦ rw h refl
      ])

  pub invite_member-KeepsBoard :
      (user org : String) (q : Decoded Invitation) (s : Server S)
      → KeepsBoard s (invite_member b w now user org q s)
  unfolding invite_member invite_as
  invite_member-KeepsBoard user org malformed s = refl
  invite_member-KeepsBoard user org trailing s = refl
  invite_member-KeepsBoard user org (body q) s =
      if_rule (KeepsBoard s) (w.to_lower (trim_space q.email) == "" || not (is_role q.role)) refl
        refl

  pub change_role-KeepsBoard :
      (user org member : String) (q : Decoded String) (s : Server S)
      → KeepsBoard s (change_role b w now user org member q s)
  unfolding change_role
  change_role-KeepsBoard user org member malformed s = refl
  change_role-KeepsBoard user org member trailing s = refl
  change_role-KeepsBoard user org member (body role) s = refl

  create_titled-KeepsBoard :
      (user org name : String) (q : WorkflowQuery) (s : Server S)
      → KeepsBoard s (create_titled b w now user org name q s)
  unfolding create_titled
  create_titled-KeepsBoard user org name q s =
      if_rule (KeepsBoard s) (ltb (len name) 2 || ltb 100 (len name)) refl
        (elim (Result-cases (
          b.create_workflow
            (record {
              id = random_id w (draw_of s) 16;
              organization_id = org;
              name = name;
              definition = q.definition;
              required_permissions = q.required_permissions;
              enabled = q.enabled;
              created_by = user;
            })
            s.store)) [ inl (e, h) ↦ rw h refl | inr (t, h) ↦ rw h refl ])

  pub create_workflow-KeepsBoard :
      (user org : String) (q : Decoded WorkflowQuery) (s : Server S)
      → KeepsBoard s (create_workflow b w now user org q s)
  unfolding create_workflow
  create_workflow-KeepsBoard user org malformed s = refl
  create_workflow-KeepsBoard user org trailing s = refl
  create_workflow-KeepsBoard user org (body q) s =
      create_titled-KeepsBoard user org (trim_space q.name) q s

  pub list_workflows-KeepsBoard :
      (org : String) (s : Server S) → KeepsBoard s (list_workflows b w now org s)
  unfolding list_workflows
  list_workflows-KeepsBoard org s = elim (Result-cases (b.list_workflows org s.store)) [
    | inl (e, h) ↦ rw (h, list_workflows) refl
    | inr (t, h) ↦ rw (h, list_workflows) refl
  ]

  pub get_workflow_run-KeepsBoard :
      (id : String) (s : Server S) → KeepsBoard s (get_workflow_run b w now id s)
  unfolding get_workflow_run
  get_workflow_run-KeepsBoard id s = elim (Result-cases (b.get_workflow_run id s.store)) [
    | inl (e, h) ↦ rw (h, get_workflow_run) refl
    | inr (t, h) ↦ rw (h, get_workflow_run) refl
  ]

module _ {S : Type 0} (w : World) (now : ℕ) where
  answered-KeepsBoard :
      (user id : String) (u : Upstream) (s : Server S) → KeepsBoard s (answered w now user id u s)
  unfolding answered
  answered-KeepsBoard user id unsendable s = refl
  answered-KeepsBoard user id unreachable s = refl
  answered-KeepsBoard user id unreadable s = refl
  answered-KeepsBoard user id (choices []) s = refl
  answered-KeepsBoard user id (choices (text ∷ more)) s = refl

  pub analyze_session-KeepsBoard :
      (api_key : String) (ask : String → String → Upstream) (user id : String)
      (q : Decoded Question) (s : Server S)
      → KeepsBoard s (analyze_session w now api_key ask user id q s)
  unfolding analyze_session analyze
  analyze_session-KeepsBoard api_key ask user id malformed s =
      if_rule (KeepsBoard s) (id == "") refl refl
  analyze_session-KeepsBoard api_key ask user id trailing s =
      if_rule (KeepsBoard s) (id == "") refl refl
  analyze_session-KeepsBoard api_key ask user id (body q) s =
      if_rule (KeepsBoard s) (id == "") refl (
        if_rule (KeepsBoard s)
          (num_eq (len q.prompt) 0 || ltb 2048 (len q.prompt) || ltb 4096 (len q.context)) refl
          (if_rule (KeepsBoard s) (api_key == "") refl (answered-KeepsBoard user id _ s)))
