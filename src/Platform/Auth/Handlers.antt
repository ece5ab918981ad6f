-- ===== src/Platform/Auth/Handlers.antt =====
-- The account handlers of server/internal/platform/service.go and the access check of auth.go.
use Prim.Native.String.{len, slice}
use text.Mathlib.Text.{starts_with}
use multi_desk.Base.{
  ℕ, String, Option, none, some, Bool, false, not, ◌&&◌, ◌==◌, ltb, num_eq, if◌then◌else◌, ◌⊎◌, inl,
  inr,
}
use multi_desk.Base.Text.{trim_space}
use multi_desk.Dict.{lookup, insert, adjust, map_values}
use multi_desk.Security.Token.{verify}
use multi_desk.Platform.World.{World, random_id}
use multi_desk.Platform.State.{
  Account, Password, RefreshToken, Service, Reply, failed, sent, crashed, Body, Decoded, malformed,
  trailing, body,
}
use multi_desk.Platform.Auth.{
  drawn, logged, mark_used, hash_password, matches, issue, reply_tokens, invalidate,
}
use multi_desk.Platform.Session.Handlers.{bad_body, two_bodies}

pub record Registration : Type 0 where
  pub email : String
  pub name : String
  pub password : String

pub record Login : Type 0 where
  pub email : String
  pub password : String

-- `make(chan struct{}, 2)`: so many password hashes at once. The slot that a handler takes is free
-- again when it returns, so what counts is the slots that other requests hold.
abbrev pub auth_capacity : ℕ
auth_capacity = 2

abbrev pub auth_busy : Reply
auth_busy = failed 429 "authentication busy; retry shortly"

-- `s.emails[email] != ""`
unfoldable pub is_taken : Option String → Bool
is_taken none = false
is_taken (some id) = not (id == "")

-- `s.emails[email]`, the empty text where the key is missing
unfoldable pub id_or_empty : Option String → String
id_or_empty none = ""
id_or_empty (some id) = id

-- `e != nil || a.Address != email`, negated
unfoldable pub is_address : Option String → String → Bool
is_address none email = false
is_address (some a) email = a == email

module _ (w : World) (now : ℕ) where
  unfoldable pub is_registrable : String → String → String → Bool
  is_registrable email name password =
      is_address (w.parse_address email) email
      && not (ltb 254 (len email))
      && not (ltb (len name) 1)
      && not (ltb 80 (len name))
      && not (ltb (len password) 12)
      && not (ltb 256 (len password))

  -- `register` from the lock on; `p` is the hash of the password, drawn before
  unfoldable pub register_free : String → String → Password → Service → Service × Reply
  register_free email name p s =
      if is_taken (lookup email s.emails)
      then (s, failed 409 "account cannot be registered")
      else let id = random_id w s.wire.draws 18 in
        reply_tokens w now 201 (
          issue w now id "" (
            logged w now id "account.registered" id (record (drawn 1 s) {
              accounts =
                  insert id
                    (record { id = id; email = email; name = name; password = p; version = 0 })
                    s.accounts;
              emails = insert email id s.emails;
            })))

  unfoldable pub register : Decoded Registration → Service → Service × Reply
  register malformed s = (s, bad_body)
  register trailing s = (s, two_bodies)
  register (body q) s =
      let email = w.to_lower (trim_space q.email) in
      if not (is_registrable email q.name q.password)
      then (s, failed 400 "valid email, name and password of 12–256 bytes required")
      else if not (ltb s.auth_slots auth_capacity)
      then (s, auth_busy)
      else register_free email q.name (hash_password w s.wire.draws q.password) (drawn 1 s)

  -- `login` from the look-up of the account on; a missing account fails whatever the password is
  unfoldable pub login_found : String → Option Account → Service → Service × Reply
  login_found password none s = (s, failed 401 "invalid credentials")
  login_found password (some a) s =
      if not (matches w a.password password)
      then (s, failed 401 "invalid credentials")
      else reply_tokens w now 200 (issue w now a.id "" (logged w now a.id "account.login" a.id s))

  unfoldable pub login : Decoded Login → Service → Service × Reply
  login malformed s = (s, bad_body)
  login trailing s = (s, two_bodies)
  login (body q) s =
      if ltb 256 (len q.password)
      then (s, failed 400 "invalid credentials")
      else if not (ltb s.auth_slots auth_capacity)
      then (s, auth_busy)
      else login_found q.password
          (lookup (id_or_empty (lookup (w.to_lower (trim_space q.email)) s.emails)) s.accounts) s

  -- the loop of `rotate` over the family of a reused token, and what follows it
  unfoldable pub punish_reuse : RefreshToken → Service → Service × Reply
  punish_reuse t s =
      let (s', lost) = invalidate w now t.user_id (record s {
        refresh = map_values (λ x. if x.family == t.family then mark_used x else x) s.refresh;
      }) in
      if lost then (s', crashed) else (
        logged w now t.user_id "auth.refresh_reuse" t.family s',
        failed 401 "refresh token reuse; sign in again",
      )

  -- `rotate` for the token found under its digest
  unfoldable pub rotate_found : String → RefreshToken → Service → Service × Reply
  rotate_found hash t s =
      if not (ltb now t.expires)
      then (s, failed 401 "invalid refresh token")
      else if t.used
      then punish_reuse t s
      else reply_tokens w now 200
          (issue w now t.user_id t.family (record s { refresh = adjust mark_used hash s.refresh }))

  unfoldable pub rotate : Decoded String → Service → Service × Reply
  rotate malformed s = (s, bad_body)
  rotate trailing s = (s, two_bodies)
  rotate (body token) s = elim (lookup (w.sha256_hex token) s.refresh) [
    | none ↦ (s, failed 401 "invalid refresh token")
    | some t ↦ rotate_found (w.sha256_hex token) t s
  ]

  unfoldable pub logout : String → Service → Service × Reply
  logout user s =
      let (s', lost) = invalidate w now user s in
      if lost
      then (s', crashed)
      else (logged w now user "account.logout" user s', sent 200 Body.done)

  unfoldable pub me : String → Service → Service × Reply
  me user s = elim (lookup user s.accounts) [
    | none ↦ (s, crashed)
    | some a ↦ (s, sent 200 (Body.profile a.id a.name a.email))
  ]

  -- `a == nil || a.Version != c.Version`, negated
  unfoldable pub is_current : Option Account → ℕ → Bool
  is_current none version = false
  is_current (some a) version = num_eq a.version version

  -- `verifyAccess(token)`
  unfoldable pub verify_access : String → Service → Option String
  verify_access token s = elim (verify w.crypto s.key token now) [
    | none ↦ none
    | some c ↦ if is_current (lookup c.subject s.accounts) c.version then some c.subject else none
  ]

  -- what the middleware `auth` makes of the header `Authorization`: the reply, or the account
  unfoldable pub authenticate : String → Service → Reply ⊎ String
  authenticate raw s =
      if not (starts_with raw "Bearer ")
      then inl (failed 401 "authentication required")
      else elim (verify_access (slice raw 7 (len raw)) s) [
        | none ↦ inl (failed 401 "invalid or expired access token")
        | some user ↦ elim (lookup user s.accounts) [
          | none ↦ inl (failed 401 "account unavailable")
          | some a ↦ inr user
        ]
      ]
