-- ===== src/Store/Memory/Backend/Laws.antt =====
-- The store in memory keeps what the password reset relies on.
use multi_desk.Base.{refl}
use multi_desk.Dict.Laws.{lookup-delete_self}
use multi_desk.Store.Types.{or_not_found, ok-injective}
use multi_desk.Store.Memory.Log.{create_audit}
use multi_desk.Store.Memory.Factors.{get_email_token, delete_email_token}
use multi_desk.Store.Memory.Backend.{memory}
use multi_desk.Platform.Server.Email.Laws.{IsForgetful}

pub memory-IsForgetful : IsForgetful memory
unfolding get_email_token delete_email_token create_audit
memory-IsForgetful = record {
  deletes = λ hash s. (delete_email_token hash s, refl);
  gone = λ hash s t e.
      rw (← ok-injective _ t e) (rw (lookup-delete_self hash s.email_tokens, or_not_found) refl);
  audit_keeps = λ hash event s t e h. rw (← ok-injective _ t e) h;
}
