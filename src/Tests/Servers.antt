-- ===== src/Tests/Servers.antt =====
-- The theorems on the server with its store, applied at the store in memory.
use multi_desk.Base.{ℕ, ◌*◌, ◌&&◌, num_eq, none, some, [], ◌∷◌, true, false, ◌≡◌, refl, arith, List}
use Prim.Native.String.{len}
use multi_desk.Base.Text.{trim_space}
use multi_desk.Dict.{lookup, count_values}
use multi_desk.Store.Memory.{Memory, new_memory, modify}
use multi_desk.Store.Memory.Factors.{get_email_token}
use multi_desk.Store.Memory.Accounts.{update_password}
use multi_desk.Store.Memory.Backend.{memory}
use multi_desk.Store.Memory.Backend.Laws.{memory-IsForgetful}
use multi_desk.Platform.State.{Service, Password, body, failed}
use multi_desk.Platform.Permissions.{contains, subset, valid_permissions, view, permissions}
use multi_desk.Platform.Permissions.Valid.{is_distinct, valid_permissions_lem}
use multi_desk.Platform.Session.{present}
use multi_desk.Platform.Session.Outcome.{is_success}
use multi_desk.Platform.Session.Handlers.{SessionQuery, request_session}
use multi_desk.Platform.Step.{decides, start, next, init, Event, step}
use multi_desk.Platform.Moves.{board, Moves}
use multi_desk.Platform.Moves.Limit.{IsLimited}
use multi_desk.Platform.Moves.Unseen.{Reach-request_session}
use multi_desk.Platform.Admission.{expire}
use multi_desk.Platform.Server.{Server}
use multi_desk.Platform.Server.Passwords.{
  decode_password, encode_password, decode_password-encode_password,
}
use multi_desk.Platform.Server.Email.{NewPassword, confirm_password_reset, reset_found, is_reset}
use multi_desk.Platform.Server.Email.Laws.{
  reset-once, SameLogins, confirm_password_reset-SameLogins,
}
use multi_desk.Platform.Server.TwoFactor.{CodeLogin, verify_2fa_login}
use multi_desk.Platform.Server.TwoFactor.Laws.{verify_2fa_login_iff}
use multi_desk.Platform.Server.Analysis.{unreachable}
use multi_desk.Platform.Server.Step.{
  Analyst, ServerEvent, request, call, confirms_reset, serve_step,
}
use multi_desk.Platform.Server.Step.Preserved.{
  serve_step-Moves, serve_step-stored, serve_step-IsLimited,
}
use multi_desk.Security.{second}
use multi_desk.Tests.Fixtures.{world, idle, waiting, viewing, signed}

-- an empty store, but for an account and a token that resets its password
abbrev stored : Memory
stored = record new_memory {
  accounts =
      (
        "alice",
        record {
          id = "alice";
          email = "alice";
          name = "alice";
          password_hash = [];
          token_version = 0;
          email_verified_at = none;
          created_at = 0;
        },
      )
      ∷ [];
  email_tokens =
      (
        "token",
        record { token_hash = "token"; user_id = "alice"; kind = "reset"; expires_at = 900 },
      )
      ∷ [];
}

abbrev server : Service → Server Memory
server s = record { service = s; store = stored; mailed = [] }

abbrev analyst : Analyst
analyst = record { api_key = ""; ask = λ key question. unreachable }

abbrev decision : ServerEvent
decision =
    request "host" "Bearer t" (signed "nb")
      (call (decides "s" (body (record { approve = true; permissions = "view" ∷ [] }))))

serve_step-Moves_example :
    Moves
      (board waiting)
      (board (serve_step memory analyst world 10 decision (server waiting)).service)
serve_step-Moves_example = serve_step-Moves memory analyst world 10 decision (server waiting)

waiting-IsLimited : IsLimited waiting.sessions
unfolding count_values
waiting-IsLimited = record { ten = λ user. ground arith; single = λ user target. ground arith }

abbrev renewal : NewPassword
renewal = record { token = "token"; new_password = "correct horse" }

abbrev reset_request : ServerEvent
reset_request =
    ServerEvent.open_request "host" "/v1/auth/password-reset/confirm"
      (confirms_reset (body renewal))

serve_step-stored_example :
    board (serve_step memory analyst world 10 reset_request (server viewing)).service
    ≡ board (expire world 10 viewing)
serve_step-stored_example =
    serve_step-stored memory analyst world 10 reset_request (server viewing) refl

serve_step-IsLimited_example :
    IsLimited (serve_step memory analyst world 10 decision (server waiting)).service.sessions
serve_step-IsLimited_example =
    serve_step-IsLimited memory analyst world 10 decision (server waiting) waiting-IsLimited

abbrev asked : SessionQuery
asked = record { source_id = "laptop"; target_id = "desktop"; permissions = "view" ∷ [] }

Reach-request_session_example :
    request_session world
      (60 * second)
      (signed "na")
      "alice"
      (body asked)
      (step world 10 (Event.joins "host" "laptop" 1) (init (1 ∷ [])))
    ≡ (
      step world 10 (Event.joins "host" "laptop" 1) (init (1 ∷ [])),
      failed 404 "available source and target devices required",
    )
Reach-request_session_example =
    Reach-request_session world (1 ∷ []) (next 10 (Event.joins "host" "laptop" 1) (start refl) refl)
      (60 * second) (signed "na") "alice" asked (omega arith)

renewal-success :
    is_success (confirm_password_reset memory world 10 (body renewal) (server idle)).1 ≡ true
unfolding is_success confirm_password_reset get_email_token lookup reset_found is_reset
    update_password modify
renewal-success = refl

reset-once_example :
    is_success
      (confirm_password_reset memory world 20
        (body renewal)
        (confirm_password_reset memory world 10 (body renewal) (server idle)).0).1
    ≡ false
reset-once_example =
    reset-once memory world 10 20 renewal renewal (server idle) memory-IsForgetful renewal-success
      refl

confirm_password_reset-SameLogins_example :
    SameLogins (server idle) (confirm_password_reset memory world 10 (body renewal) (server idle)).0
confirm_password_reset-SameLogins_example =
    confirm_password_reset-SameLogins memory world 10 renewal (server idle)

abbrev second_step : CodeLogin
second_step = record { user_id = "alice"; code = " 000000 " }

verify_2fa_login_iff_example :
    is_success (verify_2fa_login memory world 10 (body second_step) (server idle)).1
    ≡ (num_eq (len (trim_space second_step.code)) 6 && present (lookup "alice" idle.accounts))
verify_2fa_login_iff_example = verify_2fa_login_iff memory world 10 second_step (server idle)

abbrev sixteen : List ℕ
sixteen = 1 ∷ 2 ∷ 3 ∷ 4 ∷ 5 ∷ 6 ∷ 7 ∷ 8 ∷ 9 ∷ 10 ∷ 11 ∷ 12 ∷ 13 ∷ 14 ∷ 15 ∷ 16 ∷ []

abbrev password : Password
password = record {
  salt = sixteen;
  hash = 17 ∷ 18 ∷ 19 ∷ 20 ∷ 21 ∷ 22 ∷ 23 ∷ 24 ∷ 25 ∷ 26 ∷ 27 ∷ 28 ∷ 29 ∷ 30 ∷ 31 ∷ 32 ∷ sixteen;
}

decode_password-encode_password_example : decode_password (encode_password password) ≡ some password
decode_password-encode_password_example = decode_password-encode_password password refl refl

valid_permissions_lem_example : valid_permissions ("view" ∷ "mouse" ∷ []) ≡ (
    contains ("view" ∷ "mouse" ∷ []) view
    && subset ("view" ∷ "mouse" ∷ []) permissions
    && is_distinct ("view" ∷ "mouse" ∷ []))
valid_permissions_lem_example = valid_permissions_lem ("view" ∷ "mouse" ∷ [])
