-- ===== src/Platform/Auth/Preserved.antt =====
-- The account handlers keep the invariant of the sessions: they end sessions, and touch no other.
use Prim.Native.String.{len}
use multi_desk.Base.Text.{trim_space}
use multi_desk.Base.{
  ltb, ℕ, String, Option, none, some, not, ◌==◌, refl, Option-cases, if◌then◌else◌, if_rule, inl,
  inr,
}
use multi_desk.Dict.{lookup, map_values}
use multi_desk.Platform.World.{World}
use multi_desk.Platform.State.{
  Service, Account, Tokens, Password, RefreshToken, closed, Decoded, malformed, trailing, body,
}
use multi_desk.Platform.Session.Invariant.{Inv, Keeps, kept}
use multi_desk.Platform.Session.Writes.{end_where-Inv}
use multi_desk.Platform.Auth.{
  drawn, mark_used, issue, issue_in, reply_tokens, invalidate, invalidate_known, matches,
}
use multi_desk.Platform.Auth.Handlers.{
  Registration, Login, register, register_free, login, login_found, rotate, rotate_found,
  punish_reuse, logout, me, is_taken, is_registrable, auth_capacity,
}

module _ (w : World) (now : ℕ) where
  issue-Keeps : (user family : String) (s : Service) → Inv s → Keeps (issue w now user family s)
  unfolding issue issue_in
  issue-Keeps user family s i = if_rule Keeps (family == "") (kept _ _ i) (kept _ _ i)

  reply_tokens-Keeps :
      (n : ℕ) (r : Service × Option Tokens) → Keeps r → Keeps (reply_tokens w now n r)
  reply_tokens-Keeps n (s, none) i = kept _ _ i.inv
  reply_tokens-Keeps n (s, some t) i = kept _ _ i.inv

  invalidate-Keeps : (user : String) (s : Service) → Inv s → Keeps (invalidate w now user s)
  unfolding invalidate invalidate_known
  invalidate-Keeps user s i = elim (Option-cases (lookup user s.accounts)) [
    | inl e ↦ rw (e, invalidate) (kept _ _ i)
    | inr (a, e) ↦ rw (e, invalidate) (kept _ _ (end_where-Inv w now _ closed user _ refl i))
  ]

  register_free-Keeps :
      (email name : String) (p : Password) (s : Service)
      → Inv s
      → Keeps (register_free w now email name p s)
  unfolding register_free
  register_free-Keeps email name p s i =
      if_rule Keeps (is_taken (lookup email s.emails)) (kept _ _ i)
        (reply_tokens-Keeps 201 _ (issue-Keeps _ "" _ i))

  pub register-Keeps : (q : Decoded Registration) (s : Service) → Inv s → Keeps (register w now q s)
  unfolding register
  register-Keeps malformed s i = kept _ _ i
  register-Keeps trailing s i = kept _ _ i
  register-Keeps (body q) s i =
      if_rule Keeps (not (is_registrable w now (w.to_lower (trim_space q.email)) q.name q.password))
        (kept _ _ i)
        (if_rule Keeps (not (ltb s.auth_slots auth_capacity)) (kept _ _ i)
          (register_free-Keeps _ q.name _ (drawn 1 s) i))

  login_found-Keeps :
      (password : String) (a : Option Account) (s : Service)
      → Inv s
      → Keeps (login_found w now password a s)
  unfolding login_found
  login_found-Keeps password none s i = kept _ _ i
  login_found-Keeps password (some a) s i =
      if_rule Keeps (not (matches w a.password password)) (kept _ _ i)
        (reply_tokens-Keeps 200 _ (issue-Keeps a.id "" _ i))

  pub login-Keeps : (q : Decoded Login) (s : Service) → Inv s → Keeps (login w now q s)
  unfolding login
  login-Keeps malformed s i = kept _ _ i
  login-Keeps trailing s i = kept _ _ i
  login-Keeps (body q) s i = if_rule Keeps (ltb 256 (len q.password)) (kept _ _ i) (
      if_rule Keeps (not (ltb s.auth_slots auth_capacity)) (kept _ _ i)
        (login_found-Keeps q.password _ s i))

  punish_reuse-Keeps : (t : RefreshToken) (s : Service) → Inv s → Keeps (punish_reuse w now t s)
  unfolding punish_reuse
  punish_reuse-Keeps t s i =
      let u = record s {
        refresh = map_values (λ x. if x.family == t.family then mark_used x else x) s.refresh;
      } in
      let j = (invalidate-Keeps t.user_id u i).inv in
      if_rule Keeps (invalidate w now t.user_id u).1 (kept _ _ j) (kept _ _ j)

  rotate_found-Keeps :
      (hash : String) (t : RefreshToken) (s : Service) → Inv s → Keeps (rotate_found w now hash t s)
  unfolding rotate_found
  rotate_found-Keeps hash t s i = if_rule Keeps (not (ltb now t.expires)) (kept _ _ i) (
      if_rule Keeps t.used (punish_reuse-Keeps t s i)
        (reply_tokens-Keeps 200 _ (issue-Keeps t.user_id t.family _ i)))

  pub rotate-Keeps : (q : Decoded String) (s : Service) → Inv s → Keeps (rotate w now q s)
  unfolding rotate
  rotate-Keeps malformed s i = kept _ _ i
  rotate-Keeps trailing s i = kept _ _ i
  rotate-Keeps (body token) s i = elim (Option-cases (lookup (w.sha256_hex token) s.refresh)) [
    | inl e ↦ rw (e, rotate) (kept _ _ i)
    | inr (t, e) ↦ rw (e, rotate) (rotate_found-Keeps _ t s i)
  ]

  pub logout-Keeps : (user : String) (s : Service) → Inv s → Keeps (logout w now user s)
  unfolding logout
  logout-Keeps user s i =
      let j = (invalidate-Keeps user s i).inv in
      if_rule Keeps (invalidate w now user s).1 (kept _ _ j) (kept _ _ j)

  pub me-Keeps : (user : String) (s : Service) → Inv s → Keeps (me w now user s)
  unfolding me
  me-Keeps user s i = elim (Option-cases (lookup user s.accounts)) [
    | inl e ↦ rw (e, me) (kept _ _ i)
    | inr (a, e) ↦ rw (e, me) (kept _ _ i)
  ]
