-- ===== src/Platform/Admission/Laws.antt =====
-- What `expire` leaves, and what the rate limit lets through.

use Prim.Native.String.{◌++◌}
use text.Mathlib.Text.{starts_with}
use multi_desk.Security.{second}
use multi_desk.Base.{
  ℕ, ◌+◌, ◌<◌, String, some, [], ◌∷◌, Bool, true, false, ltb, leb, lt→ltb, if◌then◌else◌, ◌≡◌,
  arith, ap, sym, ◌∙◌, refl, none, not, ◌&&◌, ◌*◌, List, all, length,
}
use multi_desk.Dict.{Dict, lookup, retain}
use multi_desk.Dict.Laws.{Every, lookup-insert_self, lookup-retain}
use multi_desk.Dict.Every.{lookup-map_values_cases}
use multi_desk.Platform.World.{World}
use multi_desk.Platform.State.{
  Service, Session, pending, active, expired, Rate, RefreshToken, Challenge,
}
use multi_desk.Platform.Session.{is_open, ended, end_where}
use multi_desk.Platform.Admission.{is_overdue, expire, rate_key, rate_limit, counted, admit}

-- what `expire` promises of the state that it leaves at the given time
pub record IsFresh (now : ℕ) (s : Service) : Type 0 where
  pub pending_sessions : Every (λ k v. v.state ≡ pending → now < v.expires) s.sessions
  pub active_sessions : Every (λ k v. v.state ≡ active → now < v.expires) s.sessions
  pub challenges : Every (λ k c. now < c.expires) s.challenges
  pub rates : Every (λ k r. now < r.until) s.rates
  pub refresh : Every (λ k r. now < r.expires) s.refresh

ended-not_overdue :
    (now : ℕ) (v : Session)
    → is_overdue now (if is_overdue now v then ended expired v else v) ≡ false
unfolding is_overdue ended
ended-not_overdue now v = ground arith

not_overdue-open :
    (now : ℕ) (v : Session) → is_open v.state ≡ true → is_overdue now v ≡ false → now < v.expires
unfolding is_overdue
not_overdue-open now v runs h = ground (arith, runs, h)

-- After `expire` no session that is pending or active has passed its end, and no challenge, no
-- rate window and no refresh token is past its time.
pub expire-IsFresh : (w : World) (now : ℕ) (s : Service) → IsFresh now (expire w now s)
unfolding expire end_where
expire-IsFresh w now s = record {
  pending_sessions = λ k v e h.
      let (u, found, value) = lookup-map_values_cases _ k s.sessions v e in
      not_overdue-open now v (ap is_open h) (rw (← value) (ended-not_overdue now u));
  active_sessions = λ k v e h.
      let (u, found, value) = lookup-map_values_cases _ k s.sessions v e in
      not_overdue-open now v (ap is_open h) (rw (← value) (ended-not_overdue now u));
  challenges = λ k c e.
      ground (arith, lookup-retain (λ (c : Challenge). ltb now c.expires) k s.challenges c e);
  rates = λ k c e. ground (arith, lookup-retain (λ (c : Rate). ltb now c.until) k s.rates c e);
  refresh = λ k c e.
      ground (arith, lookup-retain (λ (c : RefreshToken). ltb now c.expires) k s.refresh c e);
}

lookup-retain_kept {ℓ} :
    {V : Type ℓ} (p : V → Bool) (j : String) (m : Dict V) (v : V)
    → lookup j m ≡ some v
    → p v ≡ true
    → lookup j (retain p m) ≡ some v
unfolding lookup retain
lookup-retain_kept p j [] v h q = h
lookup-retain_kept p j ((i, w) ∷ m) v h q = ground (arith, lookup-retain_kept p j m v)

admit-window :
    (w : World) (now : ℕ) (host path : String) (s : Service) (v : Rate)
    → lookup (rate_key host path) s.rates ≡ some v
    → now < v.until
    → (lookup (rate_key host path) (admit w now host path s).0.rates
        ≡ some (record v { count = v.count + 1 }))
      × ((admit w now host path s).1 ≡ leb (v.count + 1) (rate_limit path))
unfolding admit expire end_where counted
admit-window w now host path s v e soon =
    rw
      (lookup-retain_kept (λ (r : Rate). ltb now r.until) (rate_key host path) s.rates v e
        (lt→ltb _ _ soon))
      (rw (lt→ltb now v.until soon) (lookup-insert_self _ _ _, ground arith))

lookup-retain-none {ℓ} :
    {V : Type ℓ} (p : V → Bool) (j : String) (m : Dict V)
    → lookup j m ≡ none
    → lookup j (retain p m) ≡ none
unfolding lookup retain
lookup-retain-none p j [] h = refl
lookup-retain-none p j ((i, w) ∷ m) h = ground (arith, lookup-retain-none p j m)

admit-first :
    (w : World) (now : ℕ) (host path : String) (s : Service)
    → lookup (rate_key host path) s.rates ≡ none
    → lookup (rate_key host path) (admit w now host path s).0.rates
      ≡ some (record { count = 1; until = now + 60 * second })
unfolding admit expire end_where counted
admit-first w now host path s e =
    rw (lookup-retain-none (λ (r : Rate). ltb now r.until) (rate_key host path) s.rates e)
      (lookup-insert_self _ _ _)

-- requests of one host, each with its time and path, in their order
abbrev pub flood : World → String → List (ℕ × String) → Service → Service
flood w host [] s = s
flood w host ((now, path) ∷ rest) s = flood w host rest (admit w now host path s).0

-- The request comes within sixty seconds from the start, to an authentication route or to another as
-- the flag says.
abbrev pub is_near : Bool → ℕ → ℕ × String → Bool
is_near auth start (now, path) =
    leb start now
    && ltb now (start + 60 * second)
    && (if auth then starts_with path "/v1/auth/" else not (starts_with path "/v1/auth/"))

abbrev class_key : Bool → String → String
class_key auth host = if auth then host ++ "/auth" else host

near-rate_key :
    (auth : Bool) (start now : ℕ) (host path : String)
    → is_near auth start (now, path) ≡ true
    → rate_key host path ≡ class_key auth host
unfolding rate_key
near-rate_key true start now host path h = ground (arith, h)
near-rate_key false start now host path h = ground (arith, h)

near-rate_limit :
    (auth : Bool) (start now : ℕ) (path : String)
    → is_near auth start (now, path) ≡ true
    → rate_limit path ≡ (if auth then 15 else 300)
unfolding rate_limit
near-rate_limit true start now path h = ground (arith, h)
near-rate_limit false start now path h = ground (arith, h)

near-soon :
    (auth : Bool) (start now : ℕ) (path : String)
    → is_near auth start (now, path) ≡ true
    → now < start + 60 * second
near-soon auth start now path h = ground (arith, h)

module _ (w : World) (auth : Bool) (start : ℕ) (host : String) where
  -- one more request of the window
  near-admit :
      (now : ℕ) (path : String) (n : ℕ) (s : Service)
      → is_near auth start (now, path) ≡ true
      → lookup (class_key auth host) s.rates
        ≡ some (record { count = n; until = start + 60 * second })
      → (lookup (class_key auth host) (admit w now host path s).0.rates
          ≡ some (record { count = n + 1; until = start + 60 * second }))
        × ((admit w now host path s).1 ≡ leb (n + 1) (if auth then 15 else 300))
  near-admit now path n s near e =
      let key = near-rate_key auth start now host path near in
      let (count, passes) =
        admit-window w now host path s (record { count = n; until = start + 60 * second })
          (ap (λ k. lookup k s.rates) key ∙ e) (near-soon auth start now path near) in
      (
        ap (λ k. lookup k (admit w now host path s).0.rates) (sym key) ∙ count,
        passes ∙ ap (leb (n + 1)) (near-rate_limit auth start now path near),
      )

  flood-counted :
      (rs : List (ℕ × String)) (n : ℕ) (s : Service)
      → all (is_near auth start) rs ≡ true
      → lookup (class_key auth host) s.rates
        ≡ some (record { count = n; until = start + 60 * second })
      → lookup (class_key auth host) (flood w host rs s).rates
        ≡ some (record { count = n + length rs; until = start + 60 * second })
  flood-counted [] n s near e =
      e ∙ ap (λ m. some (record { count = m; until = start + 60 * second })) (omega arith)
  flood-counted ((now, path) ∷ rs) n s near e =
      flood-counted rs (n + 1) (admit w now host path s).0 (ground (arith, near))
        (near-admit now path n s (ground (arith, near)) e).0
      ∙ ap (λ m. some (record { count = m; until = start + 60 * second })) (omega arith)

-- When a host that has no window yet sends a first request, then any others within sixty seconds, all
-- to authentication routes or all to others, one more request of this kind within the sixty seconds is
-- admitted exactly if it is among the first fifteen, or among the first three hundred for the others.
pub admit-flood :
    (w : World) (auth : Bool) (start now : ℕ) (host first path : String) (rs : List (ℕ × String))
    (s : Service)
    → lookup (if auth then host ++ "/auth" else host) s.rates ≡ none
    → is_near auth start (start, first) ≡ true
    → all (is_near auth start) rs ≡ true
    → is_near auth start (now, path) ≡ true
    → (admit w now host path (flood w host ((start, first) ∷ rs) s)).1
      ≡ leb (length rs + 2) (if auth then 15 else 300)
admit-flood w auth start now host first path rs s fresh near_first near near_last =
    let key = near-rate_key auth start start host first near_first in
    let one =
      ap (λ k. lookup k (admit w start host first s).0.rates) (sym key)
      ∙ admit-first w start host first s (ap (λ k. lookup k s.rates) key ∙ fresh) in
    (near-admit w auth start host now path (1 + length rs) _ near_last
      (flood-counted w auth start host rs 1 (admit w start host first s).0 near one)).1
    ∙ ap (λ m. leb m (if auth then 15 else 300)) (omega arith)
