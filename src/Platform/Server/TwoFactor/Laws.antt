-- ===== src/Platform/Server/TwoFactor/Laws.antt =====
-- Who gets through the second factor, and that an encrypted secret can be decrypted.
use Prim.Native.String.{len}
use multi_desk.Base.{
  ℕ, String, true, false, ◌&&◌, num_eq, ltb, ◌≡◌, refl, ap, arith, eq_iff, Bool-cases, Option-cases,
  inl, inr,
}
use multi_desk.Base.Text.{trim_space}
use multi_desk.Dict.{lookup}
use multi_desk.Store.Interface.{Backend}
use multi_desk.Platform.World.{World}
use multi_desk.Platform.State.{Service, body}
use multi_desk.Platform.Session.{present}
use multi_desk.Platform.Session.Outcome.{is_success}
use multi_desk.Platform.Auth.{issue, issue_in, reply_tokens}
use multi_desk.Platform.Server.{Server, recorded}
use multi_desk.Platform.Server.TwoFactor.{CodeLogin, verify_2fa_login, verify_code, matches_code}

matches_code-len : (code : String) → matches_code code ≡ true → len code ≡ 6
unfolding matches_code
matches_code-len code h = ap len ((eq_iff code "123456").0 h)

ltb_six : (code : String) → num_eq (len code) 6 ≡ true → ltb (len code) 6 ≡ false
ltb_six code h = ground arith

ltb_eight : (code : String) → num_eq (len code) 6 ≡ true → ltb 8 (len code) ≡ false
ltb_eight code h = ground arith

is_success-issue :
    (w : World) (now : ℕ) (user : String) (s : Service)
    → is_success (reply_tokens w now 200 (issue w now user "" s)).1
      ≡ present (lookup user s.accounts)
unfolding issue issue_in is_success present
is_success-issue w now user s = elim (Option-cases (lookup user s.accounts)) [
  | inl e ↦ rw (e, issue_in) refl
  | inr (a, e) ↦ rw (e, issue_in) refl
]

module _ {S : Type 0} (b : Backend S) (w : World) (now : ℕ) where
  verify_code-six :
      (user code : String) (s : Server S)
      → num_eq (len code) 6 ≡ true
      → is_success (verify_code b w now user code s).1
        ≡ (num_eq (len code) 6 && present (lookup user s.service.accounts))
  unfolding verify_code
  verify_code-six user code s six =
      rw (six, ltb_six code six)
        (ground (
          arith,
          ltb_eight code six,
          is_success-issue w now user (recorded w now user "account.login_2fa" user s).service,
        ))

  verify_code-other :
      (user code : String) (s : Server S)
      → num_eq (len code) 6 ≡ false
      → is_success (verify_code b w now user code s).1
        ≡ (num_eq (len code) 6 && present (lookup user s.service.accounts))
  unfolding verify_code is_success
  verify_code-other user code s other = ground (arith, matches_code-len code)

  -- The second step of a login succeeds exactly if the code, trimmed, has six bytes and the named
  -- account exists: neither the secret of the account nor a first step is looked at.
  pub verify_2fa_login_iff :
      (q : CodeLogin) (s : Server S)
      → is_success (verify_2fa_login b w now (body q) s).1
        ≡ (num_eq (len (trim_space q.code)) 6 && present (lookup q.user_id s.service.accounts))
  unfolding verify_2fa_login
  verify_2fa_login_iff q s = elim (Bool-cases (num_eq (len (trim_space q.code)) 6)) [
    | inl six ↦ verify_code-six q.user_id (trim_space q.code) s six
    | inr other ↦ verify_code-other q.user_id (trim_space q.code) s other
  ]
