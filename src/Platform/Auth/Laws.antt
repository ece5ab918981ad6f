-- ===== src/Platform/Auth/Laws.antt =====
-- Accounts: who logs in, what a logout withdraws, and what the reuse of a refresh token costs.

use multi_desk.Base.{
  ℕ, String, none, some, true, false, not, ◌&&◌, ◌==◌, if◌then◌else◌, ◌≡◌, ◌≢◌, refl, arith,
  Bool-cases, Option-cases, inl, inr,
}
use multi_desk.Dict.{lookup}
use multi_desk.Dict.Laws.{Every, lookup-adjust_self}
use multi_desk.Dict.Every.{lookup-map_values_cases}
use multi_desk.Security.{Claims}
use multi_desk.Security.Token.{verify}
use multi_desk.Platform.World.{World, next_u64}
use multi_desk.Platform.State.{Account, RefreshToken, Session, Service, closed}
use multi_desk.Platform.Session.{is_open, ended, end_where, visible}
use multi_desk.Platform.Session.Outcome.{is_success}
use multi_desk.Platform.Auth.{bump_version, mark_used, invalidate_known, invalidate, logged}
use multi_desk.Platform.Auth.Handlers.{logout, verify_access, is_current}

next_u64-≢ : (n : ℕ) → next_u64 n ≢ n
unfolding next_u64
next_u64-≢ n = omega arith

module _ (w : World) (now : ℕ) where
  -- what `invalidate` has done to the account
  pub record IsInvalidated (user : String) (s t : Service) : Type 0 where
    pub account : Account
    pub found : lookup user s.accounts ≡ some account
    pub bumped : lookup user t.accounts ≡ some (bump_version account)
    pub used : Every (λ k x. (x.user_id == user && not x.used) ≡ false) t.refresh
    pub closed : Every (λ k v. (visible s v user && is_open v.state) ≡ false) t.sessions
    pub same_key : t.key ≡ s.key

  used-mark_used :
      (user : String) (x : RefreshToken)
      → ((if x.user_id == user then mark_used x else x).user_id == user
          && not (if x.user_id == user then mark_used x else x).used)
        ≡ false
  unfolding mark_used
  used-mark_used user x = ground arith

  is_closed-ended :
      (user : String) (s : Service) (v : Session)
      → (visible s (if visible s v user && is_open v.state then ended closed v else v) user
          && is_open (if visible s v user && is_open v.state then ended closed v else v).state)
        ≡ false
  unfolding ended visible
  is_closed-ended user s v = ground arith

  invalidate_known-IsInvalidated :
      (user : String) (s : Service) (a : Account)
      → lookup user s.accounts ≡ some a
      → IsInvalidated user s (invalidate_known w now user s).0
  unfolding invalidate_known end_where
  invalidate_known-IsInvalidated user s a e = record {
    account = a;
    found = e;
    bumped = ground (arith, lookup-adjust_self bump_version user s.accounts);
    used = λ k x h.
        let (u, found, value) = lookup-map_values_cases _ k s.refresh x h in
        rw (← value) (used-mark_used user u);
    closed = λ k v h.
        let (u, found, value) = lookup-map_values_cases _ k s.sessions v h in
        rw (← value) (is_closed-ended user s u);
    same_key = refl;
  }

  logged-IsInvalidated :
      (user : String) (s : Service) (t : Service) (action resource : String)
      → IsInvalidated user s t
      → IsInvalidated user s (logged w now user action resource t)
  logged-IsInvalidated user s t action resource i = record {
    account = i.account;
    found = i.found;
    bumped = i.bumped;
    used = i.used;
    closed = i.closed;
    same_key = i.same_key;
  }

  -- Where `logout` answers with success, the account's version has gone up, each of its refresh
  -- tokens is used, and no session that the account could see is pending or active.
  pub logout-IsInvalidated :
      (user : String) (s : Service)
      → is_success (logout w now user s).1 ≡ true
      → IsInvalidated user s (logout w now user s).0
  unfolding logout invalidate is_success
  logout-IsInvalidated user s = elim (Option-cases (lookup user s.accounts)) [
    | inl e ↦ rw (e, invalidate) (λ h. cc)
    | inr (a, e) ↦
        rw (e, invalidate)
          (elim (Bool-cases (invalidate_known w now user s).1) [
            | inl lost ↦ rw lost (λ h. cc)
            | inr fine ↦
                rw fine (λ h.
                  logged-IsInvalidated user s _ _ _ (invalidate_known-IsInvalidated user s a e))
          ])
  ]

  -- After a successful `logout`, an access token of the account's version before is refused at any time.
  pub logout-verify_access :
      (user token : String) (later : ℕ) (s : Service) (a : Account) (c : Claims)
      → is_success (logout w now user s).1 ≡ true
      → lookup user s.accounts ≡ some a
      → verify w.crypto s.key token later ≡ some c
      → c.subject ≡ user
      → c.version ≡ a.version
      → verify_access w later token (logout w now user s).0 ≡ none
  unfolding verify_access is_current bump_version
  logout-verify_access user token later s a c h e v same old =
      let i = logout-IsInvalidated user s h in
      rw (i.same_key, verify_access)
        (rw (v, verify_access)
          (rw (same, verify_access)
            (rw (i.bumped, verify_access) ground (arith, i.found, next_u64-≢ a.version))))
