-- ===== src/Store/Redis/Decorated.antt =====
-- `RedisStore` of server/internal/store/redis.go as an implementation of the interface `Store`: it embeds
-- another one, and puts its own presence in place of the embedded.
use Prim.Native.String.{◌++◌}
use multi_desk.Base.{String, Option, none, some, ◌≡◌, ap}
use multi_desk.Store.Types.{Result, ok, err, other, ok-injective}
use multi_desk.Store.Interface.{Backend}
use multi_desk.Platform.Server.Email.Laws.{IsForgetful}
use multi_desk.Store.Redis.{Client, presence_prefix, is_online}

pub record RedisStore (S R : Type 0) : Type 0 where
  pub base : S
  pub rdb : R

module _ {S R : Type 0} where
  -- what a method of the embedded store leaves
  unfoldable pub over : RedisStore S R → Result S → Result (RedisStore S R)
  over r (ok s) = ok (record r { base = s })
  over r (err e) = err e

  -- what `SetOnline` leaves
  unfoldable pub stored_online : RedisStore S R → R × Option String → Result (RedisStore S R)
  stored_online r (d, none) = ok (record r { rdb = d })
  stored_online r (d, some e) = err (other e)

  abbrev pub decorated : Backend S → Client R → Backend (RedisStore S R)
  decorated b c = record {
    create_account = λ u v x y z r. over r (b.create_account u v x y z r.base);
    get_account_by_id = λ u r. b.get_account_by_id u r.base;
    get_account_by_email = λ u r. b.get_account_by_email u r.base;
    update_account_version = λ u r. over r (b.update_account_version u r.base);
    set_email_verified = λ u v r. over r (b.set_email_verified u v r.base);
    update_password = λ u v r. over r (b.update_password u v r.base);
    create_refresh_token = λ u v x y r. over r (b.create_refresh_token u v x y r.base);
    get_refresh_token = λ u r. b.get_refresh_token u r.base;
    mark_refresh_token_used = λ u v r. over r (b.mark_refresh_token_used u v r.base);
    revoke_family = λ u v r. over r (b.revoke_family u v r.base);
    create_device = λ u r. over r (b.create_device u r.base);
    get_device = λ u r. b.get_device u r.base;
    get_device_by_public_key = λ u r. b.get_device_by_public_key u r.base;
    list_devices_by_owner = λ u r. b.list_devices_by_owner u r.base;
    update_device = λ u r. over r (b.update_device u r.base);
    revoke_device = λ u v r. over r (b.revoke_device u v r.base);
    create_session = λ u r. over r (b.create_session u r.base);
    get_session = λ u r. b.get_session u r.base;
    update_session = λ u r. over r (b.update_session u r.base);
    list_active_sessions_by_device = λ u r. b.list_active_sessions_by_device u r.base;
    list_sessions_by_operator = λ u r. b.list_sessions_by_operator u r.base;
    create_transfer_record = λ u r. over r (b.create_transfer_record u r.base);
    update_transfer_record = λ u r. over r (b.update_transfer_record u r.base);
    create_audit = λ u r. over r (b.create_audit u r.base);
    list_audit = λ u v r. b.list_audit u v r.base;
    set_online =
        λ now device ttl r. stored_online r (c.set (presence_prefix ++ device) "1" ttl r.rdb);
    is_online = λ now device r. is_online c device r.rdb;
    create_second_factor = λ u v x y r. over r (b.create_second_factor u v x y r.base);
    get_second_factor = λ u r. b.get_second_factor u r.base;
    verify_second_factor = λ u v r. over r (b.verify_second_factor u v r.base);
    delete_second_factor = λ u r. over r (b.delete_second_factor u r.base);
    create_email_token = λ u v x y r. over r (b.create_email_token u v x y r.base);
    get_email_token = λ u r. b.get_email_token u r.base;
    delete_email_token = λ u r. over r (b.delete_email_token u r.base);
    create_organization = λ u r. over r (b.create_organization u r.base);
    get_organization = λ u r. b.get_organization u r.base;
    list_user_organizations = λ u r. b.list_user_organizations u r.base;
    create_membership = λ u v x y r. over r (b.create_membership u v x y r.base);
    get_membership = λ u v r. b.get_membership u v r.base;
    list_members = λ u r. b.list_members u r.base;
    update_member_role = λ u v x r. over r (b.update_member_role u v x r.base);
    remove_membership = λ u v r. over r (b.remove_membership u v r.base);
    create_invite = λ u r. over r (b.create_invite u r.base);
    get_invite_by_token = λ u r. b.get_invite_by_token u r.base;
    accept_invite = λ u v r. over r (b.accept_invite u v r.base);
    create_workflow = λ u r. over r (b.create_workflow u r.base);
    get_workflow = λ u r. b.get_workflow u r.base;
    list_workflows = λ u r. b.list_workflows u r.base;
    update_workflow = λ u r. over r (b.update_workflow u r.base);
    create_workflow_run = λ u r. over r (b.create_workflow_run u r.base);
    get_workflow_run = λ u r. b.get_workflow_run u r.base;
    update_workflow_run = λ u r. over r (b.update_workflow_run u r.base);
  }

  over-ok :
      (r : RedisStore S R) (o : Result S) (t : RedisStore S R) → over r o ≡ ok t → o ≡ ok t.base
  unfolding over
  over-ok r (ok s) t h = ap (λ x. ok x.base) (ok-injective _ t h)
  over-ok r (err e) t h = cc

  -- What the password reset relies on of a store holds of it with Redis before it as well.
  decorated-IsForgetful :
      (b : Backend S) (c : Client R) → IsForgetful b → IsForgetful (decorated b c)
  unfolding over
  decorated-IsForgetful b c f = record {
    deletes =
        λ hash r. let (t, e) = f.deletes hash r.base in (record r { base = t }, ap (over r) e);
    gone = λ hash r t e. f.gone hash r.base t.base (over-ok r _ t e);
    audit_keeps = λ hash event r t e h. f.audit_keeps hash event r.base t.base (over-ok r _ t e) h;
  }
