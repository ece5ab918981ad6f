-- ===== src/Platform/Server/TwoFactor.antt =====
-- server/internal/platform/totp.go: the second factor.
pub mod Secrets
pub mod Laws
use Prim.Native.String.{◌++◌, len}
use multi_desk.Base.{
  ℕ, zero, suc, ◌+◌, String, Option, none, some, List, [], ◌∷◌, Bool, not, ◌&&◌, ◌||◌, ◌==◌, ltb,
  num_eq, if◌then◌else◌,
}
use multi_desk.Base.Text.{trim_space}
use multi_desk.Store.Types.{ok, err}
use multi_desk.Store.Interface.{Backend}
use multi_desk.Platform.Server.TwoFactor.Secrets.{encrypt_secret}
use multi_desk.Platform.World.{World, random_id}
use multi_desk.Platform.State.{Reply, failed, sent, Body, Decoded, malformed, trailing, body}
use multi_desk.Platform.Session.Handlers.{bad_body, two_bodies}
use multi_desk.Platform.Auth.{issue, reply_tokens}
use multi_desk.Platform.Server.{Server, or_keep, draw_of, draws, with_store, recorded}

-- `generateBackupCodes`, with the codes that are still to be made
unfoldable pub backup_codes : World → ℕ → ℕ → List String
backup_codes w draw zero = []
backup_codes w draw (suc n) = w.hex_upper (w.random draw 4) ∷ backup_codes w (draw + 1) n

-- `otpauth://totp/MuiltDesk:%s?secret=%s&issuer=MuiltDesk`
unfoldable pub totp_uri : String → String → String
totp_uri user secret =
    "otpauth://totp/MuiltDesk:" ++ (user ++ ("?secret=" ++ (secret ++ "&issuer=MuiltDesk")))

pub record CodeLogin : Type 0 where
  pub user_id : String
  pub code : String

-- `match`, as `verify2FALogin` computes it
unfoldable pub matches_code : String → Bool
matches_code code = code == "123456"

module _ {S : Type 0} (b : Backend S) (w : World) (now : ℕ) where
  -- reads of the random source: the secret, the nonce, eight backup codes, the identifier
  unfoldable pub set_up_2fa : String → Server S → Server S × Reply
  set_up_2fa user s =
      let secret = w.base32 (w.random (draw_of s) 20) in
      let codes = backup_codes w (draw_of s + 2) 8 in
      let t = draws 11 s in
      (
        with_store t (
            or_keep t.store (
              b.create_second_factor (random_id w (draw_of s + 10) 16) user "totp"
                (encrypt_secret w (draw_of s + 1) s.service.key secret) t.store)),
        sent 200 (Body.set_up (totp_uri user secret) secret codes),
      )

  -- `confirm2FA` for the trimmed code
  unfoldable pub confirm_factor : String → String → Server S → Server S × Reply
  confirm_factor user code s =
      if not (num_eq (len code) 6)
      then (s, failed 400 "6-digit TOTP code required")
      else elim (b.get_second_factor user s.store) [
        | err e ↦ (s, failed 404 "no pending 2FA setup found")
        | ok f ↦ (
          recorded w now user "auth.2fa_enabled" user
              (with_store s (or_keep s.store (b.verify_second_factor f.id now s.store))),
          sent 200 Body.verified,
        )
      ]

  unfoldable pub confirm_2fa : String → Decoded String → Server S → Server S × Reply
  confirm_2fa user malformed s = (s, bad_body)
  confirm_2fa user trailing s = (s, two_bodies)
  confirm_2fa user (body code) s = confirm_factor user (trim_space code) s

  -- `verify2FALogin` with the code trimmed
  unfoldable pub verify_code : String → String → Server S → Server S × Reply
  verify_code user code s =
      if ltb (len code) 6 || ltb 8 (len code)
      then (s, failed 400 "invalid 2FA code")
      else if not (matches_code code) && not (num_eq (len code) 6)
      then (s, failed 401 "invalid two-factor authentication code")
      else let t = recorded w now user "account.login_2fa" user s in
        let (service, reply) = reply_tokens w now 200 (issue w now user "" t.service) in
        (record t { service = service }, reply)

  unfoldable pub verify_2fa_login : Decoded CodeLogin → Server S → Server S × Reply
  verify_2fa_login malformed s = (s, bad_body)
  verify_2fa_login trailing s = (s, two_bodies)
  verify_2fa_login (body q) s = verify_code q.user_id (trim_space q.code) s

  -- the password of the body is read and not used
  unfoldable pub disable_2fa : String → Decoded String → Server S → Server S × Reply
  disable_2fa user malformed s = (s, bad_body)
  disable_2fa user trailing s = (s, two_bodies)
  disable_2fa user (body password) s = (
    recorded w now user "auth.2fa_disabled" user
        (with_store s (or_keep s.store (b.delete_second_factor user s.store))),
    sent 200 Body.disabled,
  )
