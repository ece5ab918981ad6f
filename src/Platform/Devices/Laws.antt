-- ===== src/Platform/Devices/Laws.antt =====
-- What a revoked device leaves: the device is marked, and no open session involves it.

use multi_desk.Base.{
  ℕ, String, some, true, false, ◌==◌, if◌then◌else◌, ◌≡◌, ◌≢◌, ◌⊎◌, refl, ap, arith, eq_iff,
  Bool-cases, Option-cases, inl, inr,
}
use multi_desk.Dict.{lookup}
use multi_desk.Dict.Laws.{Every, lookup-adjust_self}
use multi_desk.Dict.Every.{lookup-map_values_cases}
use multi_desk.Platform.World.{World}
use multi_desk.Platform.State.{Device, Session, SessionState, pending, active, revoked, Service}
use multi_desk.Platform.Session.{is_open, ended, end_where}
use multi_desk.Platform.Session.Outcome.{is_success}
use multi_desk.Platform.Devices.{involves, revoke, revoke_owned, revoke_device}

module _ (w : World) (now : ℕ) where
  -- what `revokeDevice` has done when it answers with success
  pub record IsRevoked (user id : String) (s t : Service) : Type 0 where
    pub device : Device
    pub found : lookup id s.devices ≡ some device
    pub owned : device.owner_id ≡ user
    pub after : Device
    pub there : lookup id t.devices ≡ some after
    pub marked : after.revoked ≡ true
    pub same : after ≡ record device { revoked = true }
    -- no session with the device as source or target is pending or active
    pub cut :
        Every
          (λ k v.
            (v.source_id ≡ device.id) ⊎ (v.target_id ≡ device.id)
            → (v.state ≢ pending) × (v.state ≢ active))
          t.sessions

  ended-involves :
      (d : Device) (v : Session) → involves d (if involves d v then ended revoked v else v) ≡ false
  unfolding involves ended
  ended-involves d v = ground arith

  not_open : (state : SessionState) → is_open state ≡ false → (state ≢ pending) × (state ≢ active)
  not_open state shut =
      ((λ h. ground (arith, shut, ap is_open h)), (λ h. ground (arith, shut, ap is_open h)))

  involves-apart :
      (d : Device) (v : Session)
      → involves d v ≡ false
      → (v.source_id ≡ d.id) ⊎ (v.target_id ≡ d.id)
      → (v.state ≢ pending) × (v.state ≢ active)
  unfolding involves
  involves-apart d v apart (inl source) =
      not_open v.state (ground (arith, apart, (eq_iff v.source_id d.id).1 source))
  involves-apart d v apart (inr target) =
      not_open v.state (ground (arith, apart, (eq_iff v.target_id d.id).1 target))

  revoke_owned-IsRevoked :
      (user id : String) (d : Device) (s : Service)
      → lookup id s.devices ≡ some d
      → d.owner_id ≡ user
      → IsRevoked user id s (revoke_owned w now user id d s).0
  unfolding revoke_owned end_where revoke
  revoke_owned-IsRevoked user id d s e own = record {
    device = d;
    found = e;
    owned = own;
    after = record d { revoked = true };
    there = ground (arith, lookup-adjust_self revoke id s.devices);
    marked = refl;
    same = refl;
    cut = λ k v h.
        let (u, found, value) = lookup-map_values_cases _ k s.sessions v h in
        involves-apart d v (rw (← value) (ended-involves d u));
  }

  -- Where `revokeDevice` answers with success, the caller owns the device, the device is now
  -- revoked and otherwise as before, and no session with it as source or target is pending or active.
  pub revoke_device-IsRevoked :
      (user id : String) (s : Service)
      → is_success (revoke_device w now user id s).1 ≡ true
      → IsRevoked user id s (revoke_device w now user id s).0
  unfolding revoke_device is_success
  revoke_device-IsRevoked user id s = elim (Option-cases (lookup id s.devices)) [
    | inl e ↦ rw (e, revoke_device) (λ h. cc)
    | inr (d, e) ↦
        rw (e, revoke_device)
          (elim (Bool-cases (d.owner_id == user)) [
            | inr other ↦ rw other (λ h. cc)
            | inl own ↦
                rw own (λ h. revoke_owned-IsRevoked user id d s e ((eq_iff d.owner_id user).0 own))
          ])
  ]
