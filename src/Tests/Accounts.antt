-- ===== src/Tests/Accounts.antt =====
-- The theorems on tokens and accounts, applied to a concrete coding and to two accounts.
use multi_desk.Platform.World.{random_id}
use multi_desk.Platform.Wire.{record_audit}
use multi_desk.Platform.Session.Outcome.{is_success}
use multi_desk.Platform.Auth.{close_owned, invalidate, invalidate_known, issue, issue_in, matches}
use multi_desk.Dict.{insert, lookup}
use multi_desk.Base.Text.{trim_space}
use Prim.Native.String.{len}
use multi_desk.Base.{
  ℕ, ◌≤◌, String, none, some, [], ◌∷◌, true, false, ◌≡◌, ◌≢◌, refl, arith, ltb-false→le, eq_iff,
}
use multi_desk.Security.{unix}
use multi_desk.Security.Token.{claims_of, sign, verify}
use multi_desk.Security.Token.RoundTrip.{verify-sign_window}
use multi_desk.Security.Token.Sound.{IsAccepted, verify_sound}
use multi_desk.Platform.State.{body, sent, Body, Tokens}
use multi_desk.Platform.Auth.Handlers.{
  Login, Registration, id_or_empty, is_address, is_registrable, is_taken, login, login_found,
  logout, register, register_free, rotate, rotate_found, verify_access,
}
use multi_desk.Platform.Auth.Laws.{IsInvalidated, logout-IsInvalidated, logout-verify_access}
use multi_desk.Platform.Auth.Login.{IsLogin, login-IsLogin, register-login}
use multi_desk.Platform.Auth.Rotation.{IsRotated, rotate-IsRotated, rotate-once}
use multi_desk.Tests.Coding.{
  codes, coding, coding-IsFaithful, marshal, put_int, put_text, put_unary, same_bytes,
  same_bytes_self, unary,
}
use multi_desk.Tests.Fixtures.{world, idle, account}

-- 1970, and five minutes later
abbrev dawn : ℕ
dawn = 62135596800000000000

abbrev later : ℕ
later = 62135597100000000000

alice≢empty : ◌≢◌ {A = String} "alice" ""
alice≢empty h = ground (arith, eq_iff "alice" "")

sign-short : len (sign coding (1 ∷ []) "alice" 0 dawn) ≤ 4096
unfolding sign unary put_unary marshal put_int put_text unix
sign-short = ltb-false→le 4096 (len (sign coding (1 ∷ []) "alice" 0 dawn)) refl

verify-sign_window_example :
    verify coding (1 ∷ []) (sign coding (1 ∷ []) "alice" 0 dawn) later
    ≡ some (claims_of "alice" 0 dawn)
verify-sign_window_example =
    verify-sign_window coding (1 ∷ []) coding-IsFaithful "alice" 0 dawn later sign-short alice≢empty
      (omega arith)

signed_token :
    verify coding (1 ∷ []) (sign coding (1 ∷ []) "alice" 0 dawn) later
    ≡ some (claims_of "alice" 0 dawn)
signed_token =
    verify-sign_window coding (1 ∷ []) coding-IsFaithful "alice" 0 dawn later sign-short alice≢empty
      (omega arith)

verify_sound_example :
    IsAccepted coding
      (1 ∷ [])
      (sign coding (1 ∷ []) "alice" 0 dawn)
      later
      (claims_of "alice" 0 dawn)
verify_sound_example =
    verify_sound coding (1 ∷ []) (sign coding (1 ∷ []) "alice" 0 dawn) later
      (claims_of "alice" 0 dawn) signed_token

abbrev credentials : Login
credentials = record { email = "alice"; password = "correct horse" }

login-success : is_success (login world 10 (body credentials) idle).1 ≡ true
unfolding login login_found matches issue issue_in lookup id_or_empty is_success same_bytes codes
    put_text trim_space
login-success = refl

login-IsLogin_example : IsLogin world 10 credentials idle
login-IsLogin_example = login-IsLogin world 10 credentials idle login-success

abbrev newcomer : Registration
newcomer = record { email = "carol"; name = "Carol"; password = "battery staple" }

register-success : is_success (register world 10 (body newcomer) idle).1 ≡ true
unfolding register register_free is_registrable is_address is_taken issue issue_in lookup insert
    is_success trim_space random_id unary put_unary record_audit
register-success = refl

register-login_example :
    is_success
      (login world 20
        (body (record { email = "carol"; password = "battery staple" }))
        (register world 10 (body newcomer) idle).0).1
    ≡ true
register-login_example = register-login world 10 20 newcomer idle same_bytes_self register-success

logout-success : is_success (logout world 10 "alice" idle).1 ≡ true
unfolding logout invalidate invalidate_known close_owned lookup is_success
logout-success = refl

logout-IsInvalidated_example : IsInvalidated world 10 "alice" idle (logout world 10 "alice" idle).0
logout-IsInvalidated_example = logout-IsInvalidated world 10 "alice" idle logout-success

alice_known : lookup "alice" idle.accounts ≡ some (account "alice")
unfolding lookup
alice_known = refl

logout-verify_access_example :
    verify_access world later (sign coding (1 ∷ []) "alice" 0 dawn) (logout world 10 "alice" idle).0
    ≡ none
logout-verify_access_example =
    logout-verify_access world 10 "alice" (sign coding (1 ∷ []) "alice" 0 dawn) later idle
      (account "alice") (claims_of "alice" 0 dawn) logout-success alice_known signed_token refl refl

abbrev fresh : Tokens
fresh = record {
  access_token = sign coding (1 ∷ []) "alice" 0 10;
  refresh_token = "aaab";
  expires_in = 600;
  token_type = "Bearer";
}

rotate-success : (rotate world 10 (body "old") idle).1 ≡ sent 200 (Body.issued fresh)
unfolding rotate rotate_found issue issue_in lookup random_id unary put_unary
rotate-success = refl

rotate-IsRotated_example : IsRotated world 10 "old" fresh idle (rotate world 10 (body "old") idle).0
rotate-IsRotated_example = rotate-IsRotated world 10 "old" fresh idle rotate-success

fresh≢old : ◌≢◌ {A = String} "aaab" "old"
fresh≢old h = ground (arith, eq_iff "aaab" "old")

rotate-once_example :
    is_success (rotate world 20 (body "old") (rotate world 10 (body "old") idle).0).1 ≡ false
rotate-once_example = rotate-once world 10 20 "old" fresh idle rotate-success fresh≢old
