-- ===== src/Platform/Server/Email/Laws.antt =====
-- What a password reset does: its token serves once, and the accounts of the service stay as they are.

use Prim.Native.String.{len}
use multi_desk.Base.{ℕ, String, true, false, ◌||◌, ltb, ◌≡◌, refl, arith, Bool-cases, inl, inr}
use multi_desk.Store.Types.{AuditEvent, EmailToken, Result, Result-cases, ok, err, not_found}
use multi_desk.Store.Interface.{Backend}
use multi_desk.Platform.World.{World}
use multi_desk.Platform.State.{body}
use multi_desk.Platform.Session.Outcome.{is_success}
use multi_desk.Platform.Server.{Server, or_keep, record_event, draw_of}
use multi_desk.Platform.Auth.{hash_password}
use multi_desk.Platform.Server.Passwords.{encode_password}
use multi_desk.Platform.Server.Email.{
  NewPassword, confirm_password_reset, reset_found, forget, is_reset,
}

-- What the reset relies on of a store: the deletion of a token never fails, a token that was deleted is
-- gone, and an audit event brings none back.
pub record IsForgetful {S : Type 0} (b : Backend S) : Type 0 where
  pub deletes : (hash : String) (s : S) → (t : S) × (b.delete_email_token hash s ≡ ok t)
  pub gone :
      (hash : String) (s t : S)
      → b.delete_email_token hash s ≡ ok t
      → b.get_email_token hash t ≡ err not_found
  pub audit_keeps :
      (hash : String) (e : AuditEvent) (s t : S)
      → b.create_audit e s ≡ ok t
      → b.get_email_token hash s ≡ err not_found
      → b.get_email_token hash t ≡ err not_found

or_keep_rule {ℓ} :
    {S : Type 0} (P : S → Type ℓ) (s : S) (r : Result S)
    → P s
    → ((t : S) → r ≡ ok t → P t)
    → P (or_keep s r)
unfolding or_keep
or_keep_rule P s (ok t) same next = next t refl
or_keep_rule P s (err e) same next = same

module _ {S : Type 0} (b : Backend S) (f : IsForgetful b) (w : World) (now : ℕ) where
  get_email_token-forget :
      (hash : String) (s : Server S)
      → b.get_email_token hash (forget b w now hash s).store ≡ err not_found
  unfolding forget or_keep
  get_email_token-forget hash s =
      let (t, e) = f.deletes hash s.store in rw e (f.gone hash s.store t e)

  get_email_token-record_event :
      (hash actor action resource : String) (s : Server S)
      → b.get_email_token hash s.store ≡ err not_found
      → b.get_email_token hash (record_event b w now actor action resource s).store ≡ err not_found
  unfolding record_event
  get_email_token-record_event hash actor action resource s h =
      or_keep_rule (λ t. b.get_email_token hash t ≡ err not_found) s.store _ h
        (λ t e. f.audit_keeps hash _ s.store t e h)

  reset_found-forgets :
      (password hash : String) (t : EmailToken) (s : Server S)
      → is_success (reset_found b w now password hash t s).1 ≡ true
      → b.get_email_token hash (reset_found b w now password hash t s).0.store ≡ err not_found
  unfolding reset_found is_success
  reset_found-forgets password hash t s = elim (Bool-cases (is_reset now t)) [
    | inr over ↦ rw over (λ h. cc)
    | inl fits ↦
        rw fits
          (elim (Result-cases (
            b.update_password t.user_id (encode_password (hash_password w (draw_of s) password))
              s.store)) [
                | inl (e, bad) ↦ rw bad (λ h. cc)
                | inr (st, good) ↦
                    rw good (λ h.
                      get_email_token-record_event hash _ _ _ _ (get_email_token-forget hash _))
              ])
  ]

  reset-forgets :
      (q : NewPassword) (s : Server S)
      → is_success (confirm_password_reset b w now (body q) s).1 ≡ true
      → b.get_email_token (w.sha256_hex q.token) (confirm_password_reset b w now (body q) s).0.store
        ≡ err not_found
  unfolding confirm_password_reset is_success
  reset-forgets q s =
      elim (Bool-cases (ltb (len q.new_password) 12 || ltb 256 (len q.new_password))) [
        | inl bad ↦ rw bad (λ h. cc)
        | inr fine ↦
            rw fine (elim (Result-cases (b.get_email_token (w.sha256_hex q.token) s.store)) [
              | inl (e, bad) ↦ rw bad (λ h. cc)
              | inr (t, good) ↦
                  rw good (reset_found-forgets q.new_password (w.sha256_hex q.token) t s)
            ])
      ]

  unknown-fails :
      (q : NewPassword) (s : Server S)
      → b.get_email_token (w.sha256_hex q.token) s.store ≡ err not_found
      → is_success (confirm_password_reset b w now (body q) s).1 ≡ false
  unfolding confirm_password_reset is_success
  unknown-fails q s gone = rw gone (ground arith)

-- Over a store in which the deletion of a token never fails, a deleted token is not found, and an
-- audit event brings none back, a reset token serves once: where a reset has succeeded, another with
-- the same token fails at any time, whatever password it brings. The handler discards the error of the
-- deletion, so nothing is said of a store whose deletion fails.
pub reset-once :
    {S : Type 0} (b : Backend S) (w : World) (now later : ℕ) (q r : NewPassword) (s : Server S)
    → IsForgetful b
    → is_success (confirm_password_reset b w now (body q) s).1 ≡ true
    → r.token ≡ q.token
    → is_success
        (confirm_password_reset b w later (body r) (confirm_password_reset b w now (body q) s).0).1
      ≡ false
reset-once b w now later q r s f h same =
    unknown-fails b f w later r _ (rw same (reset-forgets b f w now q s h))

-- the parts of the service that `login` and `rotate` read
pub record SameLogins {S : Type 0} (s t : Server S) : Type 0 where
  pub accounts : t.service.accounts ≡ s.service.accounts
  pub emails : t.service.emails ≡ s.service.emails
  pub refresh : t.service.refresh ≡ s.service.refresh

reset_found-SameLogins :
    {S : Type 0} (b : Backend S) (w : World) (now : ℕ) (password hash : String) (t : EmailToken)
    (s : Server S)
    → SameLogins s (reset_found b w now password hash t s).0
unfolding reset_found forget record_event
reset_found-SameLogins b w now password hash t s = elim (Bool-cases (is_reset now t)) [
  | inr over ↦ rw over (record { accounts = refl; emails = refl; refresh = refl })
  | inl fits ↦
      rw fits
        (elim (Result-cases (
          b.update_password t.user_id (encode_password (hash_password w (draw_of s) password))
            s.store)) [
              | inl (e, bad) ↦ rw bad (record { accounts = refl; emails = refl; refresh = refl })
              | inr (st, good) ↦ rw good (record { accounts = refl; emails = refl; refresh = refl })
            ])
]

-- A password reset, successful or not, changes no account, no address and no refresh token of the
-- service: the password that logs in is the one from before, and no token is withdrawn.
pub confirm_password_reset-SameLogins :
    {S : Type 0} (b : Backend S) (w : World) (now : ℕ) (q : NewPassword) (s : Server S)
    → SameLogins s (confirm_password_reset b w now (body q) s).0
unfolding confirm_password_reset
confirm_password_reset-SameLogins b w now q s =
    elim (Bool-cases (ltb (len q.new_password) 12 || ltb 256 (len q.new_password))) [
      | inl bad ↦ rw bad (record { accounts = refl; emails = refl; refresh = refl })
      | inr fine ↦ rw fine (elim (Result-cases (b.get_email_token (w.sha256_hex q.token) s.store)) [
        | inl (e, bad) ↦ rw bad (record { accounts = refl; emails = refl; refresh = refl })
        | inr (t, good) ↦
            rw good (reset_found-SameLogins b w now q.new_password (w.sha256_hex q.token) t s)
      ])
    ]
