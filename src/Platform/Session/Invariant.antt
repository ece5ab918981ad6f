-- ===== src/Platform/Session/Invariant.antt =====
-- What the service keeps true of its sessions: each stands under its own key, names a registered
-- target, holds no permission that was not requested, and holds none unless it is active; and no
-- two sessions control one device. Preservation by the writes that the handlers are made of.

use multi_desk.Base.{
  String, some, [], Bool, true, false, ◌&&◌, ◌≡◌, ◌≢◌, refl, sym, ◌∙◌, ap, inl, inr,
}
use multi_desk.Dict.{Dict, lookup, insert, adjust, map_values}
use multi_desk.Dict.Laws.{Every}
use multi_desk.Dict.Every.{lookup-insert_cases, lookup-map_values_cases, lookup-adjust_cases}
use multi_desk.Platform.State.{Device, Session, Service}
use multi_desk.Platform.Permissions.{controls, subset, valid_permissions}
use multi_desk.Platform.Session.{is_active, present}

abbrev pub in_control : Session → Bool
in_control v = is_active v.state && controls v.granted

pub record IsSound (devices : Dict Device) (k : String) (v : Session) : Type 0 where
  pub keyed : v.id ≡ k
  pub known : present (lookup v.target_id devices) ≡ true
  pub apart : v.source_id ≢ v.target_id
  pub valid : valid_permissions v.requested ≡ true
  pub within : subset v.granted v.requested ≡ true
  pub idle : is_active v.state ≡ false → v.granted ≡ []

abbrev pub IsExclusive : Dict Session → Type 0
IsExclusive m =
    (j k : String) (u v : Session)
    → lookup j m ≡ some u
    → lookup k m ≡ some v
    → in_control u ≡ true
    → in_control v ≡ true
    → u.target_id ≡ v.target_id
    → j ≡ k

pub record IsOrderly (devices : Dict Device) (sessions : Dict Session) : Type 0 where
  pub sound : Every (IsSound devices) sessions
  pub exclusive : IsExclusive sessions
  pub devices_keyed : Every (λ k d. d.id ≡ k) devices

abbrev pub Inv : Service → Type 0
Inv s = IsOrderly s.devices s.sessions

-- of the result of a handler or of a part of one: its state is in order
pub record Keeps {B : Type 0} (r : Service × B) : Type 0 where
  pub inv : Inv r.0

pub kept : {B : Type 0} (s : Service) (b : B) → Inv s → Keeps (s, b)
kept s b i = record { inv = i }

-- Changes of one session that keep its name and parties, and give no control.
pub record IsTame (f : Session → Session) : Type 0 where
  pub same_id : (v : Session) → (f v).id ≡ v.id
  pub same_target : (v : Session) → (f v).target_id ≡ v.target_id
  pub same_source : (v : Session) → (f v).source_id ≡ v.source_id
  pub same_requested : (v : Session) → (f v).requested ≡ v.requested
  pub shrinks :
      (v : Session) → subset v.granted v.requested ≡ true → subset (f v).granted v.requested ≡ true
  pub stays_idle :
      (v : Session)
      → (is_active v.state ≡ false → v.granted ≡ [])
      → is_active (f v).state ≡ false
      → (f v).granted ≡ []
  pub gains_no_control : (v : Session) → in_control (f v) ≡ true → in_control v ≡ true

module _ (f : Session → Session) (tame : IsTame f) where
  pub IsSound-tame :
      (devices : Dict Device) (k : String) (v : Session)
      → IsSound devices k v
      → IsSound devices k (f v)
  IsSound-tame devices k v i = record {
    keyed = tame.same_id v ∙ i.keyed;
    known = rw (tame.same_target v) i.known;
    apart = rw (tame.same_source v, tame.same_target v) i.apart;
    valid = rw (tame.same_requested v) i.valid;
    within = rw (tame.same_requested v) (tame.shrinks v i.within);
    idle = tame.stays_idle v i.idle;
  }

  pub IsExclusive-map_values : (m : Dict Session) → IsExclusive m → IsExclusive (map_values f m)
  IsExclusive-map_values m one j k u v hu hv cu cv same =
      let (u', fu, eu) = lookup-map_values_cases f j m u hu in
      let (v', fv, ev) = lookup-map_values_cases f k m v hv in
      one j k u' v' fu fv (tame.gains_no_control u' (rw eu cu))
        (tame.gains_no_control v' (rw ev cv))
        (sym (tame.same_target u')
          ∙ ap (λ (x : Session). x.target_id) eu
          ∙ same
          ∙ sym (ap (λ (x : Session). x.target_id) ev)
          ∙ tame.same_target v')

-- What a lookup finds behind a tame change at one key was there before, with as much control.
lookup-adjust_tame :
    (f : Session → Session) (k j : String) (m : Dict Session) (u : Session)
    → IsTame f
    → lookup j (adjust f k m) ≡ some u
    → (v : Session) × (lookup j m ≡ some v)
      × (u.target_id ≡ v.target_id)
      × (in_control u ≡ true → in_control v ≡ true)
lookup-adjust_tame f k j m u tame h = elim (lookup-adjust_cases f k j m u h) [
  | inl (same, (v, found, value)) ↦
      (v, found, rw (← value) (tame.same_target v), rw (← value) (tame.gains_no_control v))
  | inr (other, found) ↦ (u, found, refl, λ c. c)
]

pub IsExclusive-adjust :
    (f : Session → Session) (k : String) (m : Dict Session)
    → IsTame f
    → IsExclusive m
    → IsExclusive (adjust f k m)
IsExclusive-adjust f k m tame one i j u v hu hv cu cv same =
    let (u', fu, tu, gu) = lookup-adjust_tame f k i m u tame hu in
    let (v', fv, tv, gv) = lookup-adjust_tame f k j m v tame hv in
    one i j u' v' fu fv (gu cu) (gv cv) (sym tu ∙ same ∙ tv)

-- No other session controls the target of `v`.
abbrev pub IsFree : Dict Session → String → Session → Type 0
IsFree m k v =
    (j : String) (u : Session)
    → lookup j m ≡ some u
    → in_control u ≡ true
    → u.target_id ≡ v.target_id
    → j ≡ k

-- A session may be written where it takes no control, or where its target is free.
pub IsExclusive-insert :
    (k : String) (v : Session) (m : Dict Session)
    → IsExclusive m
    → (in_control v ≡ true → IsFree m k v)
    → IsExclusive (insert k v m)
IsExclusive-insert k v m one free i j x y hx hy cx cy same =
    elim (lookup-insert_cases k i v m x hx) [
      | inl (ei, vx) ↦ elim (lookup-insert_cases k j v m y hy) [
        | inl (ej, vy) ↦ sym ei ∙ ej
        | inr (oj, fy) ↦ absurd (
            oj (
              sym (
                free (rw vx cx) j y fy cy (sym same ∙ ap (λ (z : Session). z.target_id) (sym vx)))))
      ]
      | inr (oi, fx) ↦ elim (lookup-insert_cases k j v m y hy) [
        | inl (ej, vy) ↦ absurd (
            oi
              (sym (free (rw vy cy) i x fx cx (same ∙ ap (λ (z : Session). z.target_id) (sym vy)))))
        | inr (oj, fy) ↦ one i j x y fx fy cx cy same
      ]
    ]
