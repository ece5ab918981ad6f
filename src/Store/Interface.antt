-- ===== src/Store/Interface.antt =====
-- The interface `Store` of server/internal/store/store.go. A method that writes returns the new state,
-- and the caller keeps the old one where it returns an error; a method that reads the clock takes the
-- time.
use multi_desk.Base.{ℕ, String, Option, List, Bool}
use multi_desk.Store.Types.{
  Account, RefreshToken, Device, Session, AuditEvent, SecondFactor, EmailToken, Organization,
  Membership, OrgInvite, Workflow, WorkflowRun, TransferRecord, Result,
}

pub record Backend (S : Type 0) : Type 0 where
  pub create_account : ℕ → String → String → String → List ℕ → S → Result S
  pub get_account_by_id : String → S → Result Account
  pub get_account_by_email : String → S → Result Account
  pub update_account_version : String → S → Result S
  pub set_email_verified : String → ℕ → S → Result S
  pub update_password : String → List ℕ → S → Result S
  pub create_refresh_token : String → String → String → ℕ → S → Result S
  pub get_refresh_token : String → S → Result RefreshToken
  pub mark_refresh_token_used : String → ℕ → S → Result S
  pub revoke_family : ℕ → String → S → Result S
  pub create_device : Device → S → Result S
  pub get_device : String → S → Result Device
  pub get_device_by_public_key : String → S → Result Device
  pub list_devices_by_owner : String → S → Result (List Device)
  pub update_device : Device → S → Result S
  pub revoke_device : String → ℕ → S → Result S
  pub create_session : Session → S → Result S
  pub get_session : String → S → Result Session
  pub update_session : Session → S → Result S
  pub list_active_sessions_by_device : String → S → Result (List Session)
  pub list_sessions_by_operator : String → S → Result (List Session)
  pub create_transfer_record : TransferRecord → S → Result S
  pub update_transfer_record : TransferRecord → S → Result S
  pub create_audit : AuditEvent → S → Result S
  pub list_audit : String → ℕ → S → Result (List AuditEvent)
  pub set_online : ℕ → String → ℕ → S → Result S
  pub is_online : ℕ → String → S → Result Bool
  pub create_second_factor : String → String → String → List ℕ → S → Result S
  pub get_second_factor : String → S → Result SecondFactor
  pub verify_second_factor : String → ℕ → S → Result S
  pub delete_second_factor : String → S → Result S
  pub create_email_token : String → String → String → ℕ → S → Result S
  pub get_email_token : String → S → Result EmailToken
  pub delete_email_token : String → S → Result S
  pub create_organization : Organization → S → Result S
  pub get_organization : String → S → Result Organization
  pub list_user_organizations : String → S → Result (List Organization)
  pub create_membership : String → String → String → Option ℕ → S → Result S
  pub get_membership : String → String → S → Result Membership
  pub list_members : String → S → Result (List Membership)
  pub update_member_role : String → String → String → S → Result S
  pub remove_membership : String → String → S → Result S
  pub create_invite : OrgInvite → S → Result S
  pub get_invite_by_token : String → S → Result OrgInvite
  pub accept_invite : String → ℕ → S → Result S
  pub create_workflow : Workflow → S → Result S
  pub get_workflow : String → S → Result Workflow
  pub list_workflows : String → S → Result (List Workflow)
  pub update_workflow : Workflow → S → Result S
  pub create_workflow_run : WorkflowRun → S → Result S
  pub get_workflow_run : String → S → Result WorkflowRun
  pub update_workflow_run : WorkflowRun → S → Result S
