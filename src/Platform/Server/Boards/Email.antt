-- ===== src/Platform/Server/Boards/Email.antt =====
-- The handlers of server/internal/platform/email.go leave devices and sessions alone.
use Prim.Native.String.{len}
use multi_desk.Base.{
  ℕ, ◌+◌, ◌*◌, String, not, ◌||◌, refl, ltb, num_eq, inl, inr, if_rule, Option-cases,
}
use multi_desk.Base.Text.{trim_space}
use multi_desk.Store.Types.{EmailToken, nil_pointer, not_found, conflict, other, Result-cases}
use multi_desk.Security.{minute}
use multi_desk.Store.Interface.{Backend}
use multi_desk.Platform.World.{World, random_id}
use multi_desk.Platform.State.{Decoded, malformed, trailing, body}
use multi_desk.Platform.Auth.{hash_password}
use multi_desk.Platform.Server.Boards.{KeepsBoard}
use multi_desk.Platform.Server.{Server, record_event, draw_of}
use multi_desk.Platform.Server.Passwords.{encode_password}
use multi_desk.Platform.Server.Email.{
  NewPassword, email_code, forget, send_verify_email, confirm_found, confirm_code,
  confirm_verify_email, reset_for, request_password_reset, reset_found, confirm_password_reset,
  is_code_of, is_reset,
}

module _ {S : Type 0} (b : Backend S) (w : World) (now : ℕ) where
  pub send_verify_email-KeepsBoard :
      (user : String) (s : Server S) → KeepsBoard s (send_verify_email b w now user s)
  unfolding send_verify_email
  send_verify_email-KeepsBoard user s =
      elim (Result-cases (
        b.create_email_token (w.sha256_hex (email_code (w.random (draw_of s) 4))) user "verify"
          (now + 15 * minute) s.store)) [
            | inl (e, h) ↦ rw (h, send_verify_email) refl
            | inr (t, h) ↦
                rw (h, send_verify_email)
                  (elim (Result-cases (b.get_account_by_id user t)) [
                    | inl (e, g) ↦ rw (g, send_verify_email) refl
                    | inr (a, g) ↦ rw (g, send_verify_email) refl
                  ])
          ]

  confirm_found-KeepsBoard :
      (user hash : String) (t : EmailToken) (s : Server S)
      → KeepsBoard s (confirm_found b w now user hash t s)
  unfolding confirm_found forget record_event
  confirm_found-KeepsBoard user hash t s = if_rule (KeepsBoard s) (not (is_code_of user t)) refl (
      if_rule (KeepsBoard s) (not (ltb now t.expires_at)) refl
        (elim (Result-cases (b.set_email_verified user now s.store)) [
          | inl (e, h) ↦ rw h refl
          | inr (a, h) ↦ rw h refl
        ]))

  confirm_code-KeepsBoard :
      (user code : String) (s : Server S) → KeepsBoard s (confirm_code b w now user code s)
  unfolding confirm_code
  confirm_code-KeepsBoard user code s =
      if_rule (KeepsBoard s) (num_eq (len code) 0) refl
        (elim (Result-cases (b.get_email_token (w.sha256_hex code) s.store)) [
          | inl (e, h) ↦ rw h refl
          | inr (t, h) ↦ rw h (confirm_found-KeepsBoard user (w.sha256_hex code) t s)
        ])

  reset_for-KeepsBoard : (email : String) (s : Server S) → KeepsBoard s (reset_for b w now email s)
  unfolding reset_for
  reset_for-KeepsBoard email s = elim (Result-cases (b.get_account_by_email email s.store)) [
    | inl (nil_pointer, h) ↦ rw (h, reset_for) refl
    | inl (not_found, h) ↦ rw (h, reset_for) refl
    | inl (conflict, h) ↦ rw (h, reset_for) refl
    | inl (other e, h) ↦ rw (h, reset_for) refl
    | inr (a, h) ↦
        rw (h, reset_for)
          (elim (Result-cases (
            b.create_email_token (w.sha256_hex (random_id w (draw_of s) 32)) a.id "reset"
              (now + 30 * minute) s.store)) [
                | inl (e, g) ↦ rw (g, reset_for) refl
                | inr (t, g) ↦ rw (g, reset_for) refl
              ])
  ]

  reset_found-KeepsBoard :
      (password hash : String) (t : EmailToken) (s : Server S)
      → KeepsBoard s (reset_found b w now password hash t s)
  unfolding reset_found forget record_event
  reset_found-KeepsBoard password hash t s =
      if_rule (KeepsBoard s) (not (is_reset now t)) refl
        (elim (Result-cases (
          b.update_password t.user_id (encode_password (hash_password w (draw_of s) password))
            s.store)) [ inl (e, h) ↦ rw h refl | inr (a, h) ↦ rw h refl ])

  pub confirm_password_reset-KeepsBoard :
      (q : Decoded NewPassword) (s : Server S) → KeepsBoard s (confirm_password_reset b w now q s)
  unfolding confirm_password_reset
  confirm_password_reset-KeepsBoard malformed s = refl
  confirm_password_reset-KeepsBoard trailing s = refl
  confirm_password_reset-KeepsBoard (body q) s =
      if_rule (KeepsBoard s) (ltb (len q.new_password) 12 || ltb 256 (len q.new_password)) refl
        (elim (Result-cases (b.get_email_token (w.sha256_hex q.token) s.store)) [
          | inl (e, h) ↦ rw h refl
          | inr (t, h) ↦ rw h (reset_found-KeepsBoard q.new_password (w.sha256_hex q.token) t s)
        ])

  pub confirm_verify_email-KeepsBoard :
      (user : String) (q : Decoded String) (s : Server S)
      → KeepsBoard s (confirm_verify_email b w now user q s)
  unfolding confirm_verify_email
  confirm_verify_email-KeepsBoard user malformed s = refl
  confirm_verify_email-KeepsBoard user trailing s = refl
  confirm_verify_email-KeepsBoard user (body code) s =
      confirm_code-KeepsBoard user (trim_space code) s

  pub request_password_reset-KeepsBoard :
      (q : Decoded String) (s : Server S) → KeepsBoard s (request_password_reset b w now q s)
  unfolding request_password_reset
  request_password_reset-KeepsBoard malformed s = refl
  request_password_reset-KeepsBoard trailing s = refl
  request_password_reset-KeepsBoard (body raw) s =
      elim (Option-cases (w.parse_address (w.to_lower (trim_space raw)))) [
        | inl e ↦ rw (e, request_password_reset) refl
        | inr (a, e) ↦
            rw (e, request_password_reset) (reset_for-KeepsBoard (w.to_lower (trim_space raw)) s)
      ]
