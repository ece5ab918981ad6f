-- ===== src/Platform/Auth/Login.antt =====
-- Who is let in: a login needs the password of the account, and the account that a registration made
-- can log in.

use Prim.Native.String.{len}
use multi_desk.Base.{
  ℕ, ◌≤◌, String, Option, none, some, List, true, ltb, ◌≡◌, refl, ap, ◌∙◌, arith, Bool-cases, inl,
  inr, le→ltb-false, lt→ltb, ◌<◌,
}
use multi_desk.Base.Text.{trim_space}
use multi_desk.Dict.{lookup}
use multi_desk.Dict.Laws.{lookup-insert_self}
use multi_desk.Platform.World.{World}
use multi_desk.Platform.State.{Account, Password, Service, Reply, body}
use multi_desk.Platform.Session.Outcome.{is_success}
use multi_desk.Platform.Auth.{drawn, issue, issue_in, reply_tokens, matches, hash_password}
use multi_desk.Platform.Auth.Handlers.{
  Login, Registration, login, login_found, register, register_free, id_or_empty, auth_capacity,
  is_taken, is_registrable,
}

module _ (w : World) (now : ℕ) where
  -- what the service knows about a caller who has logged in
  pub record IsLogin (q : Login) (s : Service) : Type 0 where
    pub account : Account
    pub indexed :
        lookup (id_or_empty (lookup (w.to_lower (trim_space q.email)) s.emails)) s.accounts
        ≡ some account
    pub right_password :
        w.bytes_equal (w.argon2 q.password account.password.salt) account.password.hash ≡ true
    pub free_slot : s.auth_slots < auth_capacity

  login_found-IsLogin :
      (q : Login) (s : Service) (o : Option Account)
      → lookup (id_or_empty (lookup (w.to_lower (trim_space q.email)) s.emails)) s.accounts ≡ o
      → s.auth_slots < auth_capacity
      → is_success (login_found w now q.password o s).1 ≡ true
      → IsLogin q s
  unfolding login_found is_success matches
  login_found-IsLogin q s none e slot = λ h. cc
  login_found-IsLogin q s (some a) e slot = elim (Bool-cases (matches w a.password q.password)) [
    | inr wrong ↦ rw (wrong, matches) (λ h. cc)
    | inl right ↦ λ h. record { account = a; indexed = e; right_password = right; free_slot = slot }
  ]

  -- A login that succeeds found an account under the address of the request, and the hash of the
  -- password with the account's salt is the stored one; fewer than two hashes were being computed.
  pub login-IsLogin :
      (q : Login) (s : Service) → is_success (login w now (body q) s).1 ≡ true → IsLogin q s
  unfolding login is_success
  login-IsLogin q s = elim (Bool-cases (ltb 256 (len q.password))) [
    | inl long ↦ rw long (λ h. cc)
    | inr short ↦ rw short (elim (Bool-cases (ltb s.auth_slots auth_capacity)) [
      | inr busy ↦ rw busy (λ h. cc)
      | inl free ↦ rw free (λ h. login_found-IsLogin q s _ refl (ground arith) h)
    ])
  ]

  is_success-issue_in :
      (id family : String) (a : Account) (s : Service)
      → lookup id s.accounts ≡ some a
      → is_success (reply_tokens w now 200 (issue_in w now id family s)).1 ≡ true
  unfolding issue_in is_success
  is_success-issue_in id family a s e = rw (e, issue_in) refl

  is_success-login :
      (q : Login) (id : String) (a : Account) (s : Service)
      → len q.password ≤ 256
      → s.auth_slots < auth_capacity
      → lookup (w.to_lower (trim_space q.email)) s.emails ≡ some id
      → lookup id s.accounts ≡ some a
      → a.id ≡ id
      → matches w a.password q.password ≡ true
      → is_success (login w now (body q) s).1 ≡ true
  unfolding login login_found id_or_empty issue
  is_success-login q id a s short slot e f same right =
      rw (le→ltb-false 256 (len q.password) short) (
        rw (lt→ltb s.auth_slots auth_capacity slot) (
          rw (e, login)
            (rw (f, login)
              (rw right
                (is_success-issue_in a.id _ a _ (ap (λ i. lookup i s.accounts) same ∙ f))))))

  -- what a registration that succeeded has left
  pub record IsRegistered (q : Registration) (t : Service) : Type 0 where
    pub account : Account
    pub indexed : lookup (w.to_lower (trim_space q.email)) t.emails ≡ some account.id
    pub stored : lookup account.id t.accounts ≡ some account
    pub hashed : account.password.hash ≡ w.argon2 q.password account.password.salt
    pub short : len q.password ≤ 256
    pub slot : t.auth_slots < auth_capacity

  abbrev Registers : (q : Registration) → Service × Reply → Type 0
  Registers q o = is_success o.1 ≡ true → IsRegistered q o.0

  register_free-IsRegistered :
      (q : Registration) (n : ℕ) (s : Service)
      → len q.password ≤ 256
      → s.auth_slots < auth_capacity
      → Registers q (
          register_free w now
            (w.to_lower (trim_space q.email))
            q.name
            (hash_password w n q.password)
            s)
  unfolding register_free hash_password issue issue_in is_success
  register_free-IsRegistered q n s short slot =
      elim (Bool-cases (is_taken (lookup (w.to_lower (trim_space q.email)) s.emails))) [
        | inl taken ↦ rw taken (λ h. cc)
        | inr free ↦ rw free (
            rw (lookup-insert_self _ _ _) (λ h. record {
              account = _;
              indexed = lookup-insert_self _ _ _;
              stored = lookup-insert_self _ _ _;
              hashed = refl;
              short = short;
              slot = slot;
            }))
      ]

  register-IsRegistered : (q : Registration) (s : Service) → Registers q (register w now (body q) s)
  unfolding register is_success is_registrable
  register-IsRegistered q s =
      elim (Bool-cases (is_registrable w now (w.to_lower (trim_space q.email)) q.name q.password)) [
        | inr bad ↦ rw bad (λ h. cc)
        | inl good ↦ rw good (elim (Bool-cases (ltb s.auth_slots auth_capacity)) [
          | inr busy ↦ rw busy (λ h. cc)
          | inl free ↦
              rw free (
                register_free-IsRegistered q s.wire.draws (drawn 1 s) (ground arith) (ground arith))
        ])
      ]

matches-hashed :
    (w : World) (p : Password) (raw : String)
    → ((x : List ℕ) → w.bytes_equal x x ≡ true)
    → p.hash ≡ w.argon2 raw p.salt
    → matches w p raw ≡ true
unfolding matches
matches-hashed w p raw same e = rw (← e, matches) (same p.hash)

-- Where comparing a byte string with itself gives true, a registration that succeeded can be
-- followed, from the state that it leaves and at any time, by a login with the same address and
-- password, which succeeds.
pub register-login :
    (w : World) (now later : ℕ) (q : Registration) (s : Service)
    → ((x : List ℕ) → w.bytes_equal x x ≡ true)
    → is_success (register w now (body q) s).1 ≡ true
    → is_success
        (login w later
          (body (record { email = q.email; password = q.password }))
          (register w now (body q) s).0).1
      ≡ true
register-login w now later q s same h =
    let i = register-IsRegistered w now q s h in
    is_success-login w later (record { email = q.email; password = q.password }) i.account.id
      i.account _ i.short i.slot i.indexed i.stored refl
      (matches-hashed w i.account.password q.password same i.hashed)
