-- ===== src/Platform/Ice/Laws.antt =====
-- Which relay credentials are handed out, to whom and for how long, and which settings are taken.

use Prim.Native.Char.{code}
use Prim.Native.String.{len}
use text.Mathlib.Text.{starts_with, find?}
use multi_desk.Base.{
  leb, num_eq, ◌||◌, ℕ, ◌+◌, ◌*◌, ◌≤◌, ◌<◌, String, none, some, List, [], ◌∷◌, Bool, true, not,
  ◌&&◌, ltb, if◌then◌else◌, ◌≡◌, refl, all, ◌⊎◌, arith, Bool-cases, Option-cases, inl, inr,
}
use multi_desk.Dict.{lookup}
use multi_desk.Security.{minute, turn_credential}
use multi_desk.Platform.World.{World}
use multi_desk.Platform.State.{Session, Service, Reply, sent, Body}
use multi_desk.Platform.Session.{is_active, visible, present}
use multi_desk.Platform.Session.Outcome.{is_success}
use multi_desk.Platform.Ice.{
  has_forbidden, is_relay, is_ice_url, is_weak, ice_error, configure_ice, credential_end, ice_for,
  ice_configuration, ice_entries,
}

-- The character with this code does not stand in the text.
unfoldable pub avoids : ℕ → String → Bool
avoids n String.[] = true
avoids n (String.◌∷◌ c s) = not (num_eq (code c) n) && avoids n s

-- A URL of a STUN or TURN server, without blank, line feed, carriage return and at sign; with TURN, the
-- secret has at least 32 bytes and does not contain the placeholder.
unfoldable pub is_allowed : String → String → Bool
is_allowed secret url =
    (starts_with url "stun:"
      || starts_with url "stuns:"
      || starts_with url "turn:"
      || starts_with url "turns:")
    && (not (starts_with url "turn:" || starts_with url "turns:")
        || (leb 32 (len secret) && not (present (find? secret "REPLACE"))))
    && (avoids 32 url && avoids 10 url && avoids 13 url && avoids 64 url)

has_forbidden-avoids :
    (s : String) → has_forbidden s ≡ not (avoids 32 s && avoids 10 s && avoids 13 s && avoids 64 s)
unfolding has_forbidden avoids
has_forbidden-avoids String.[] = refl
has_forbidden-avoids (String.◌∷◌ c s) = ground (arith, has_forbidden-avoids s)

strong-is_weak :
    (secret : String)
    → (leb 32 (len secret) && not (present (find? secret "REPLACE"))) ≡ not (is_weak secret)
unfolding is_weak present
strong-is_weak secret = ground arith

regrouped_tests :
    (a b c d weak free : Bool)
    → ((a || b || c || d) && (not (c || d) || not weak) && free)
      ≡ (((a || b || (c || d)) && not (not free)) && not ((c || d) && weak))
regrouped_tests a b c d weak free = ground arith

-- The description against the two tests of the loop.
is_allowed_lem :
    (secret url : String)
    → is_allowed secret url ≡ (is_ice_url url && not (is_relay url && is_weak secret))
unfolding is_allowed is_ice_url is_relay
is_allowed_lem secret url =
    rw (strong-is_weak secret, has_forbidden-avoids url)
      (regrouped_tests (starts_with url "stun:") (starts_with url "stuns:")
        (starts_with url "turn:") (starts_with url "turns:") (is_weak secret)
        (avoids 32 url && avoids 10 url && avoids 13 url && avoids 64 url))

pub allowed-ice_error :
    (urls : List String) (secret : String)
    → all (is_allowed secret) urls ≡ not (present (ice_error urls secret))
unfolding ice_error present
allowed-ice_error [] secret = refl
allowed-ice_error (url ∷ urls) secret =
    ground (arith, allowed-ice_error urls secret, is_allowed_lem secret url)

List-cases {ℓ} :
    {A : Type ℓ} (xs : List A) → (xs ≡ []) ⊎ ((x : A) × ((ys : List A) × (xs ≡ x ∷ ys)))
List-cases [] = inl refl
List-cases (x ∷ xs) = inr (x, (xs, refl))

-- `ConfigureICE` takes the settings exactly if every URL begins with `stun:`, `stuns:`, `turn:` or
-- `turns:`, and holds no blank, line feed, carriage return or at sign, and the secret has at least 32
-- bytes and no `REPLACE` in it where one begins with `turn:` or `turns:`; otherwise it changes nothing and gives an error.
pub configure_ice_lem :
    (urls : List String) (secret : String) (s : Service)
    → configure_ice urls secret s ≡ (
        if all (is_allowed secret) urls
        then (record s { ice_urls = urls; turn_secret = secret }, none)
        else (s, ice_error urls secret))
unfolding configure_ice present
configure_ice_lem urls secret s = elim (Option-cases (ice_error urls secret)) [
  | inl e ↦ rw (e, configure_ice) (rw (allowed-ice_error urls secret) (rw e refl))
  | inr (m, e) ↦ rw (e, configure_ice) (rw (allowed-ice_error urls secret) (rw e refl))
]

module _ (w : World) (now : ℕ) where
  -- what stands behind an answer with credentials
  pub record IsServed (user id : String) (s : Service) (reply : Reply) : Type 0 where
    pub session : Session
    pub found : lookup id s.sessions ≡ some session
    pub seen : visible s session user ≡ true
    pub runs : is_active session.state ≡ true
    pub not_over : now < credential_end now session
    pub short : credential_end now session ≤ now + 10 * minute
    pub within : credential_end now session ≤ session.expires
    pub answer :
        reply
        ≡ sent 200 (
            Body.ice
              (ice_entries
                (turn_credential w.crypto s.turn_secret user (credential_end now session))
                s.ice_urls)
              (credential_end now session))

  ice_for-IsServed :
      (user id : String) (v : Session) (s : Service)
      → lookup id s.sessions ≡ some v
      → visible s v user ≡ true
      → is_success (ice_for w now user v s) ≡ true
      → IsServed user id s (ice_for w now user v s)
  unfolding ice_for is_success credential_end visible
  ice_for-IsServed user id v s e seen = elim (Bool-cases (is_active v.state)) [
    | inr idle ↦ rw idle (λ h. cc)
    | inl runs ↦ rw runs (elim (Bool-cases (ltb now v.expires)) [
      | inr over ↦ rw over (λ h. cc)
      | inl on ↦ rw on (elim (List-cases s.ice_urls) [
        | inl none_set ↦ rw (none_set, ice_for) (λ h. cc)
        | inr (url, (urls, set)) ↦
            rw (set, ice_for)
              (λ h. record {
                session = v;
                found = e;
                seen = seen;
                runs = runs;
                not_over = ground arith;
                short = ground arith;
                within = ground arith;
                answer = rw set refl;
              })
      ])
    ])
  ]

  -- Relay credentials are answered only to a party of an active session that is not over, and
  -- they end after the present, with the session at the latest, and within ten minutes.
  pub ice_configuration-IsServed :
      (user id : String) (s : Service)
      → is_success (ice_configuration w now user id s).1 ≡ true
      → IsServed user id s (ice_configuration w now user id s).1
  unfolding ice_configuration is_success
  ice_configuration-IsServed user id s = elim (Option-cases (lookup id s.sessions)) [
    | inl e ↦ rw (e, ice_configuration) (λ h. cc)
    | inr (v, e) ↦
        rw (e, ice_configuration)
          (elim (Bool-cases (visible s v user)) [
            | inr hidden ↦ rw hidden (λ h. cc)
            | inl seen ↦ rw seen (ice_for-IsServed user id v s e seen)
          ])
  ]
