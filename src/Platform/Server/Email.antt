-- ===== src/Platform/Server/Email.antt =====
-- server/internal/platform/email.go: the handlers that verify an address and reset a password.
pub mod Laws
use Prim.Native.String.{◌++◌, len, slice}
use multi_desk.Base.{
  ℕ, zero, suc, ◌+◌, ◌*◌, ◌/◌, ◌%◌, String, Option, none, some, List, [], ◌∷◌, Bool, true, false,
  not, ◌&&◌, ◌||◌, ◌==◌, ltb, num_eq, if◌then◌else◌,
}
use multi_desk.Base.Text.{trim_space}
use multi_desk.Security.{minute}
use multi_desk.Store.Types.{EmailToken, Error, nil_pointer, Result, ok, err}
use multi_desk.Store.Interface.{Backend}
use multi_desk.Platform.World.{World, random_id}
use multi_desk.Platform.State.{
  Reply, failed, sent, crashed, Body, Decoded, malformed, trailing, body,
}
use multi_desk.Platform.Session.Handlers.{bad_body, two_bodies}
use multi_desk.Platform.Auth.{hash_password}
use multi_desk.Platform.Server.{Server, or_keep, draw_of, draws, with_store, posted, record_event}
use multi_desk.Platform.Server.Passwords.{encode_password}

-- `b[i]` of a byte slice that is long enough
unfoldable pub byte_at : ℕ → List ℕ → ℕ
byte_at n [] = 0
byte_at zero (x ∷ xs) = x
byte_at (suc n) (x ∷ xs) = byte_at n xs

-- so many decimal digits of a number, before a text
unfoldable pub put_digits : ℕ → ℕ → String → String
put_digits zero n s = s
put_digits (suc k) n s = put_digits k (n / 10) (slice "0123456789" (n % 10) (n % 10 + 1) ++ s)

-- `fmt.Sprintf("%06d", (int(b[0])<<16|int(b[1])<<8|int(b[2]))%1000000)`
unfoldable pub email_code : List ℕ → String
email_code b =
    put_digits 6 ((byte_at 0 b * 65536 + byte_at 1 b * 256 + byte_at 2 b) % 1000000) String.[]

-- `et.UserID != userID || et.Kind != "verify"`, negated
unfoldable pub is_code_of : String → EmailToken → Bool
is_code_of user t = t.user_id == user && t.kind == "verify"

-- `et.Kind != "reset" || !s.now().Before(et.ExpiresAt)`, negated
unfoldable pub is_reset : ℕ → EmailToken → Bool
is_reset now t = t.kind == "reset" && ltb now t.expires_at

pub record NewPassword : Type 0 where
  pub token : String
  pub new_password : String

abbrev pub sent_if_known : Reply
sent_if_known = sent 200 (Body.told "if the account exists, a reset link has been sent")

abbrev pub bad_reset : Reply
bad_reset = failed 400 "invalid or expired reset token"

module _ {S : Type 0} (b : Backend S) (w : World) (now : ℕ) where
  -- `_ = s.store.DeleteEmailToken(r.Context(), tokenHash)`
  unfoldable pub forget : String → Server S → Server S
  forget hash s = with_store s (or_keep s.store (b.delete_email_token hash s.store))

  unfoldable pub send_verify_email : String → Server S → Server S × Reply
  send_verify_email user s =
      let code = email_code (w.random (draw_of s) 4) in
      let t = draws 1 s in
      elim (b.create_email_token (w.sha256_hex code) user "verify" (now + 15 * minute) t.store) [
        | err e ↦ (t, failed 500 "failed to create verification token")
        | ok st ↦ elim (b.get_account_by_id user st) [
          | err e ↦ (with_store t st, failed 500 "account not found")
          | ok a ↦ (
            posted a.email "MuiltDesk — email verification code"
                ("Your verification code is: " ++ (code ++ "\n\nThis code expires in 15 minutes."))
                (with_store t st),
            sent 200 (Body.told_for "verification code sent" 900),
          )
        ]
      ]

  -- `confirmVerifyEmail` for the token found under the hash
  unfoldable pub confirm_found : String → String → EmailToken → Server S → Server S × Reply
  confirm_found user hash t s =
      if not (is_code_of user t)
      then (s, failed 400 "invalid or expired code")
      else if not (ltb now t.expires_at)
      then (forget hash s, failed 400 "code has expired")
      else elim (b.set_email_verified user now s.store) [
        | err e ↦ (s, failed 500 "failed to mark email as verified")
        | ok st ↦ (
          record_event b w now user "email.verified" user (forget hash (with_store s st)),
          sent 200 Body.done,
        )
      ]

  -- `confirmVerifyEmail` for the trimmed code
  unfoldable pub confirm_code : String → String → Server S → Server S × Reply
  confirm_code user code s =
      if num_eq (len code) 0
      then (s, failed 400 "code is required")
      else elim (b.get_email_token (w.sha256_hex code) s.store) [
        | err e ↦ (s, failed 400 "invalid or expired code")
        | ok t ↦ confirm_found user (w.sha256_hex code) t s
      ]

  unfoldable pub confirm_verify_email : String → Decoded String → Server S → Server S × Reply
  confirm_verify_email user malformed s = (s, bad_body)
  confirm_verify_email user trailing s = (s, two_bodies)
  confirm_verify_email user (body code) s = confirm_code user (trim_space code) s

  -- `requestPasswordReset` for an address that parses
  unfoldable pub reset_for : String → Server S → Server S × Reply
  reset_for email s =
      let raw = random_id w (draw_of s) 32 in
      let t = draws 1 s in
      elim (b.get_account_by_email email t.store) [
        | err nil_pointer ↦ (t, crashed)
        | err _ ↦ (t, sent_if_known)
        | ok a ↦
            elim (b.create_email_token (w.sha256_hex raw) a.id "reset" (now + 30 * minute)
              t.store) [
                | err e ↦ (t, sent_if_known)
                | ok st ↦ (
                  posted a.email "MuiltDesk — password reset"
                      ("A password reset has been requested for your MuiltDesk account.\n\nReset token: "
                        ++ (raw
                            ++ "\n\nThis token expires in 30 minutes.\n\nIf you did not request this, ignore this email."))
                      (with_store t st),
                  sent_if_known,
                )
              ]
      ]

  unfoldable pub request_password_reset : Decoded String → Server S → Server S × Reply
  request_password_reset malformed s = (s, bad_body)
  request_password_reset trailing s = (s, two_bodies)
  request_password_reset (body raw) s =
      let email = w.to_lower (trim_space raw) in
      elim (w.parse_address email) [ none ↦ (s, sent_if_known) | some a ↦ reset_for email s ]

  -- `confirmPasswordReset` for the token found under the hash
  unfoldable pub reset_found : String → String → EmailToken → Server S → Server S × Reply
  reset_found password hash t s =
      if not (is_reset now t)
      then (forget hash s, bad_reset)
      else let u = draws 1 s in
        elim (b.update_password t.user_id (encode_password (hash_password w (draw_of s) password))
          u.store) [
            | err e ↦ (u, failed 500 "failed to update password")
            | ok st ↦ (
              record_event b w now t.user_id "account.password_reset" t.user_id
                  (forget hash (with_store u st)),
              sent 200 Body.done,
            )
          ]

  unfoldable pub confirm_password_reset : Decoded NewPassword → Server S → Server S × Reply
  confirm_password_reset malformed s = (s, bad_body)
  confirm_password_reset trailing s = (s, two_bodies)
  confirm_password_reset (body q) s =
      if ltb (len q.new_password) 12 || ltb 256 (len q.new_password)
      then (s, failed 400 "password must be 12–256 bytes")
      else elim (b.get_email_token (w.sha256_hex q.token) s.store) [
        | err e ↦ (s, bad_reset)
        | ok t ↦ reset_found q.new_password (w.sha256_hex q.token) t s
      ]
