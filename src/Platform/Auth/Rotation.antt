-- ===== src/Platform/Auth/Rotation.antt =====
-- Refresh tokens: each serves once, and a token that is offered again costs the account its tokens.
use mathlib.Core.Option
use multi_desk.Base.{
  ℕ, ◌+◌, ◌*◌, String, some, true, false, ◌==◌, ltb, if◌then◌else◌, ◌≡◌, ◌≢◌, refl, ap, ◌∙◌, arith,
  Bool-cases, if_rule, Option-cases, inl, inr,
}
use multi_desk.Dict.{lookup, adjust, map_values, insert}
use multi_desk.Dict.Laws.{lookup-adjust_self, lookup-insert_other}
use multi_desk.Security.{hour}
use multi_desk.Platform.World.{World, random_id}
use multi_desk.Platform.State.{RefreshToken, Service, Reply, sent, Body, body, Tokens}
use multi_desk.Platform.Session.Outcome.{is_success}
use multi_desk.Platform.Auth.{mark_used, invalidate, issue, issue_in, reply_tokens}
use multi_desk.Platform.Auth.Handlers.{punish_reuse, rotate, rotate_found}

issued-injective : (a b : Tokens) → sent 200 (Body.issued a) ≡ sent 200 (Body.issued b) → a ≡ b
issued-injective a b h = cc

module _ (w : World) (now : ℕ) where
  -- `issue` draws a family where the token has none.
  unfoldable pub family_of : RefreshToken → Service → String
  family_of old s = if old.family == "" then random_id w s.wire.draws 24 else old.family

  -- what a successful rotation has found and left
  pub record IsRotated (token : String) (x : Tokens) (s t : Service) : Type 0 where
    pub old : RefreshToken
    pub found : lookup (w.sha256_hex token) s.refresh ≡ some old
    pub unexpired : ltb now old.expires ≡ true
    pub unused : old.used ≡ false
    pub after :
        t.refresh
        ≡ insert
            (w.sha256_hex x.refresh_token)
            (record {
              user_id = old.user_id;
              family = family_of old s;
              expires = now + 7 * 24 * hour;
              used = false;
            })
            (adjust mark_used (w.sha256_hex token) s.refresh)

  abbrev Rotates : String → Tokens → Service → Service × Reply → Type 0
  Rotates token x s o = o.1 ≡ sent 200 (Body.issued x) → IsRotated token x s o.0

  issued-IsRotated :
      (token : String) (x : Tokens) (old : RefreshToken) (s mid : Service) (family : String)
      → lookup (w.sha256_hex token) s.refresh ≡ some old
      → ltb now old.expires ≡ true
      → old.used ≡ false
      → family ≡ family_of old s
      → mid.refresh ≡ adjust mark_used (w.sha256_hex token) s.refresh
      → Rotates token x s (reply_tokens w now 200 (issue_in w now old.user_id family mid))
  unfolding issue_in
  issued-IsRotated token x old s mid family e g u same marked =
      elim (Option-cases (lookup old.user_id mid.accounts)) [
        | inl gone ↦ rw (gone, issue_in) (λ h. cc)
        | inr (a, there) ↦
            rw (there, issue_in)
              (λ h. record {
                old = old;
                found = e;
                unexpired = g;
                unused = u;
                after = rw (← issued-injective _ x h, ← same, ← marked) refl;
              })
      ]

  punish_reuse-fails :
      (t : RefreshToken) (s : Service) → is_success (punish_reuse w now t s).1 ≡ false
  unfolding punish_reuse is_success
  punish_reuse-fails t s =
      if_rule (λ (o : Service × Reply). is_success o.1 ≡ false)
        (invalidate w now t.user_id (record s {
          refresh = map_values (λ x. if x.family == t.family then mark_used x else x) s.refresh;
        })).1
        refl refl

  punish_reuse-Rotates :
      (token : String) (x : Tokens) (t : RefreshToken) (s : Service)
      → Rotates token x s (punish_reuse w now t s)
  unfolding is_success
  punish_reuse-Rotates token x t s h =
      absurd (ground (arith, punish_reuse-fails t s, ap is_success h))

  -- A rotation that succeeds found the token unexpired and unused; it marks it used and stores
  -- the new token for a week, unused, for the same account and in the same
  -- family, or in a new one where the token names none.
  pub rotate-IsRotated :
      (token : String) (x : Tokens) (s : Service)
      → (rotate w now (body token) s).1 ≡ sent 200 (Body.issued x)
      → IsRotated token x s (rotate w now (body token) s).0
  unfolding rotate rotate_found issue family_of
  rotate-IsRotated token x s = elim (Option-cases (lookup (w.sha256_hex token) s.refresh)) [
    | inl e ↦ rw (e, rotate) (λ h. cc)
    | inr (old, e) ↦
        rw (e, rotate)
          (elim (Bool-cases (ltb now old.expires)) [
            | inr over ↦ rw over (λ h. cc)
            | inl on ↦ rw on (elim (Bool-cases old.used) [
              | inl used ↦ rw used (punish_reuse-Rotates token x _ s)
              | inr unused ↦ rw unused (elim (Bool-cases (old.family == "")) [
                | inl blank ↦ rw blank (
                    issued-IsRotated token x old s _ _ e on unused (rw (blank, family_of) refl)
                      refl)
                | inr family ↦ rw family (
                    issued-IsRotated token x old s _ _ e on unused (rw (family, family_of) refl)
                      refl)
              ])
            ])
          ])
  ]

used-rotate :
    (w : World) (now : ℕ) (token : String) (old : RefreshToken) (s : Service)
    → lookup (w.sha256_hex token) s.refresh ≡ some old
    → old.used ≡ true
    → is_success (rotate w now (body token) s).1 ≡ false
unfolding rotate rotate_found is_success
used-rotate w now token old s e used =
    rw (e, rotate)
      (elim (Bool-cases (ltb now old.expires)) [
        | inr over ↦ rw over refl
        | inl on ↦ rw on (rw used (punish_reuse-fails w now _ s))
      ])

-- A token that was rotated cannot be rotated a second time, at any time, unless the new token has
-- the same digest.
pub rotate-once :
    (w : World) (now later : ℕ) (token : String) (x : Tokens) (s : Service)
    → (rotate w now (body token) s).1 ≡ sent 200 (Body.issued x)
    → w.sha256_hex x.refresh_token ≢ w.sha256_hex token
    → is_success (rotate w later (body token) (rotate w now (body token) s).0).1 ≡ false
unfolding mark_used
rotate-once w now later token x s h fresh =
    let i = rotate-IsRotated w now token x s h in
    used-rotate w later token (mark_used i.old) _
      (rw i.after (
        lookup-insert_other _ _ _ _ fresh
        ∙ lookup-adjust_self mark_used (w.sha256_hex token) s.refresh
        ∙ ap (Option.map mark_used) i.found))
      refl
