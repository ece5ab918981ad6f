-- ===== src/Platform/Moves/Accounts.antt =====
-- The account handlers as moves: they end sessions.
use Prim.Native.String.{len}
use multi_desk.Base.Text.{trim_space}
use multi_desk.Base.{
  ltb, ℕ, String, Option, none, some, not, ◌==◌, refl, Option-cases, if◌then◌else◌, if_rule, inl,
  inr,
}
use multi_desk.Dict.{lookup, map_values}
use multi_desk.Platform.World.{World}
use multi_desk.Platform.State.{
  Service, Account, Tokens, Password, RefreshToken, closed, Decoded, malformed, trailing, body,
}
use multi_desk.Platform.Moves.{Board, board, Moves, Leads, led}
use multi_desk.Platform.Moves.Sessions.{end_where-Moves}
use multi_desk.Platform.Auth.{
  drawn, mark_used, issue, issue_in, reply_tokens, invalidate, invalidate_known, matches,
}
use multi_desk.Platform.Auth.Handlers.{
  Registration, Login, register, register_free, login, login_found, rotate, rotate_found,
  punish_reuse, logout, me, is_taken, is_registrable, auth_capacity,
}

module _ (w : World) (now : ℕ) (a : Board) where
  issue-Leads :
      (user family : String) (s : Service) → Moves a (board s) → Leads a (issue w now user family s)
  unfolding issue issue_in
  issue-Leads user family s i = if_rule (Leads a) (family == "") (led _ _ i) (led _ _ i)

  reply_tokens-Leads :
      (n : ℕ) (r : Service × Option Tokens) → Leads a r → Leads a (reply_tokens w now n r)
  reply_tokens-Leads n (s, none) i = led _ _ i.by
  reply_tokens-Leads n (s, some t) i = led _ _ i.by

  invalidate-Leads :
      (user : String) (s : Service) → Moves a (board s) → Leads a (invalidate w now user s)
  unfolding invalidate invalidate_known
  invalidate-Leads user s i = elim (Option-cases (lookup user s.accounts)) [
    | inl e ↦ rw (e, invalidate) (led _ _ i)
    | inr (x, e) ↦ rw (e, invalidate) (led _ _ (end_where-Moves w now a _ closed user _ refl i))
  ]

  register_free-Leads :
      (email name : String) (p : Password) (s : Service)
      → Moves a (board s)
      → Leads a (register_free w now email name p s)
  unfolding register_free
  register_free-Leads email name p s i =
      if_rule (Leads a) (is_taken (lookup email s.emails)) (led _ _ i)
        (reply_tokens-Leads 201 _ (issue-Leads _ "" _ i))

  pub register-Leads :
      (q : Decoded Registration) (s : Service) → Moves a (board s) → Leads a (register w now q s)
  unfolding register
  register-Leads malformed s i = led _ _ i
  register-Leads trailing s i = led _ _ i
  register-Leads (body q) s i =
      if_rule (Leads a)
        (not (is_registrable w now (w.to_lower (trim_space q.email)) q.name q.password)) (led _ _ i)
        (if_rule (Leads a) (not (ltb s.auth_slots auth_capacity)) (led _ _ i)
          (register_free-Leads _ q.name _ (drawn 1 s) i))

  login_found-Leads :
      (password : String) (o : Option Account) (s : Service)
      → Moves a (board s)
      → Leads a (login_found w now password o s)
  unfolding login_found
  login_found-Leads password none s i = led _ _ i
  login_found-Leads password (some b) s i =
      if_rule (Leads a) (not (matches w b.password password)) (led _ _ i)
        (reply_tokens-Leads 200 _ (issue-Leads b.id "" _ i))

  pub login-Leads :
      (q : Decoded Login) (s : Service) → Moves a (board s) → Leads a (login w now q s)
  unfolding login
  login-Leads malformed s i = led _ _ i
  login-Leads trailing s i = led _ _ i
  login-Leads (body q) s i = if_rule (Leads a) (ltb 256 (len q.password)) (led _ _ i) (
      if_rule (Leads a) (not (ltb s.auth_slots auth_capacity)) (led _ _ i)
        (login_found-Leads q.password _ s i))

  punish_reuse-Leads :
      (t : RefreshToken) (s : Service) → Moves a (board s) → Leads a (punish_reuse w now t s)
  unfolding punish_reuse
  punish_reuse-Leads t s i =
      let u = record s {
        refresh = map_values (λ x. if x.family == t.family then mark_used x else x) s.refresh;
      } in
      let j = (invalidate-Leads t.user_id u i).by in
      if_rule (Leads a) (invalidate w now t.user_id u).1 (led _ _ j) (led _ _ j)

  rotate_found-Leads :
      (hash : String) (t : RefreshToken) (s : Service)
      → Moves a (board s)
      → Leads a (rotate_found w now hash t s)
  unfolding rotate_found
  rotate_found-Leads hash t s i = if_rule (Leads a) (not (ltb now t.expires)) (led _ _ i) (
      if_rule (Leads a) t.used (punish_reuse-Leads t s i)
        (reply_tokens-Leads 200 _ (issue-Leads t.user_id t.family _ i)))

  pub rotate-Leads :
      (q : Decoded String) (s : Service) → Moves a (board s) → Leads a (rotate w now q s)
  unfolding rotate
  rotate-Leads malformed s i = led _ _ i
  rotate-Leads trailing s i = led _ _ i
  rotate-Leads (body token) s i = elim (Option-cases (lookup (w.sha256_hex token) s.refresh)) [
    | inl e ↦ rw (e, rotate) (led _ _ i)
    | inr (t, e) ↦ rw (e, rotate) (rotate_found-Leads _ t s i)
  ]

  pub logout-Leads :
      (user : String) (s : Service) → Moves a (board s) → Leads a (logout w now user s)
  unfolding logout
  logout-Leads user s i =
      let j = (invalidate-Leads user s i).by in
      if_rule (Leads a) (invalidate w now user s).1 (led _ _ j) (led _ _ j)

  pub me-Leads : (user : String) (s : Service) → Moves a (board s) → Leads a (me w now user s)
  unfolding me
  me-Leads user s i = elim (Option-cases (lookup user s.accounts)) [
    | inl e ↦ rw (e, me) (led _ _ i)
    | inr (x, e) ↦ rw (e, me) (led _ _ i)
  ]
