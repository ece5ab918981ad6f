-- ===== src/Store/Memory/Backend.antt =====
-- `MemoryStore` of server/internal/store/memory.go as an implementation of the interface `Store`.
pub mod Laws
use multi_desk.Store.Types.{ok}
use multi_desk.Store.Interface.{Backend}
use multi_desk.Store.Memory.{Memory}
use multi_desk.Store.Memory.Accounts.{
  create_account, get_account_by_id, get_account_by_email, update_account_version,
  set_email_verified, update_password, create_refresh_token, get_refresh_token,
  mark_refresh_token_used, revoke_family,
}
use multi_desk.Store.Memory.Devices.{
  create_device, get_device, get_device_by_public_key, list_devices_by_owner, update_device,
  revoke_device,
}
use multi_desk.Store.Memory.Sessions.{
  create_session, get_session, update_session, list_active_sessions_by_device,
  list_sessions_by_operator, create_transfer_record, update_transfer_record,
}
use multi_desk.Store.Memory.Log.{create_audit, list_audit, set_online, is_online}
use multi_desk.Store.Memory.Factors.{
  create_second_factor, get_second_factor, verify_second_factor, delete_second_factor,
  create_email_token, get_email_token, delete_email_token,
}
use multi_desk.Store.Memory.Teams.{
  create_organization, get_organization, list_user_organizations, create_membership, get_membership,
  list_members, update_member_role, remove_membership, create_invite, get_invite_by_token,
  accept_invite,
}
use multi_desk.Store.Memory.Workflows.{
  create_workflow, get_workflow, list_workflows, update_workflow, create_workflow_run,
  get_workflow_run, update_workflow_run,
}

abbrev pub memory : Backend Memory
memory = record {
  create_account = create_account;
  get_account_by_id = get_account_by_id;
  get_account_by_email = get_account_by_email;
  update_account_version = update_account_version;
  set_email_verified = set_email_verified;
  update_password = update_password;
  create_refresh_token = λ a b c d m. ok (create_refresh_token a b c d m);
  get_refresh_token = get_refresh_token;
  mark_refresh_token_used = mark_refresh_token_used;
  revoke_family = λ a b m. ok (revoke_family a b m);
  create_device = create_device;
  get_device = get_device;
  get_device_by_public_key = get_device_by_public_key;
  list_devices_by_owner = λ a m. ok (list_devices_by_owner a m);
  update_device = update_device;
  revoke_device = revoke_device;
  create_session = create_session;
  get_session = get_session;
  update_session = update_session;
  list_active_sessions_by_device = λ a m. ok (list_active_sessions_by_device a m);
  list_sessions_by_operator = λ a m. ok (list_sessions_by_operator a m);
  create_transfer_record = λ a m. ok (create_transfer_record a m);
  update_transfer_record = update_transfer_record;
  create_audit = λ a m. ok (create_audit a m);
  list_audit = λ a b m. ok (list_audit a b m);
  set_online = λ a b c m. ok (set_online a b c m);
  is_online = λ a b m. ok (is_online a b m);
  create_second_factor = λ a b c d m. ok (create_second_factor a b c d m);
  get_second_factor = get_second_factor;
  verify_second_factor = verify_second_factor;
  delete_second_factor = delete_second_factor;
  create_email_token = λ a b c d m. ok (create_email_token a b c d m);
  get_email_token = get_email_token;
  delete_email_token = λ a m. ok (delete_email_token a m);
  create_organization = create_organization;
  get_organization = get_organization;
  list_user_organizations = λ a m. ok (list_user_organizations a m);
  create_membership = λ a b c d m. ok (create_membership a b c d m);
  get_membership = get_membership;
  list_members = λ a m. ok (list_members a m);
  update_member_role = update_member_role;
  remove_membership = remove_membership;
  create_invite = λ a m. ok (create_invite a m);
  get_invite_by_token = get_invite_by_token;
  accept_invite = accept_invite;
  create_workflow = create_workflow;
  get_workflow = get_workflow;
  list_workflows = λ a m. ok (list_workflows a m);
  update_workflow = update_workflow;
  create_workflow_run = create_workflow_run;
  get_workflow_run = get_workflow_run;
  update_workflow_run = update_workflow_run;
}
