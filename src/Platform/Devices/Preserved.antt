-- ===== src/Platform/Devices/Preserved.antt =====
-- The device handlers keep the invariant of the sessions: no device is ever taken out.
use mathlib.Core.Option
use Prim.Native.String.{len}
use multi_desk.Base.{
  ℕ, String, Option, none, some, Bool, true, not, ◌||◌, ◌==◌, ◌≡◌, refl, sym, ◌∙◌, ap, arith,
  Option-cases, ltb, leb, if_rule, inl, inr,
}
use multi_desk.Base.Text.{strip_spaces}
use multi_desk.Dict.{Dict, lookup, insert, adjust, adjust_first, find_value, count_values}
use multi_desk.Dict.Laws.{Every, lookup-insert, lookup-adjust, lookup-adjust_first}
use multi_desk.Dict.Every.{Every-insert, Every-adjust, map-eq-some}
use multi_desk.Platform.World.{World}
use multi_desk.Platform.State.{
  Service, Device, Session, revoked, Request, Decoded, malformed, trailing, body,
}
use multi_desk.Platform.Proof.{proof}
use multi_desk.Platform.Session.{present, end_where}
use multi_desk.Platform.Session.Invariant.{Inv, IsOrderly, Keeps, kept}
use multi_desk.Platform.Session.Writes.{end_where-Inv}
use multi_desk.Platform.Devices.{
  DeviceQuery, with_type, valid_os, renamed, has_key, counts_for, revoke, involves, new_device,
  register_new, register_again, register_proved, register_typed, register_device, lookup_device,
  revoke_owned, revoke_device,
}

-- The devices may change, as long as each stays and stands under its own key.
abbrev Extends : Dict Device → Dict Device → Type 0
Extends d d' = (k : String) → present (lookup k d) ≡ true → present (lookup k d') ≡ true

extended_IsOrderly :
    (d d' : Dict Device) (m : Dict Session)
    → Extends d d'
    → Every (λ k x. x.id ≡ k) d'
    → IsOrderly d m
    → IsOrderly d' m
extended_IsOrderly d d' m more keyed i = record {
  sound = λ k v h. record {
    keyed = (i.sound k v h).keyed;
    known = more v.target_id (i.sound k v h).known;
    apart = (i.sound k v h).apart;
    valid = (i.sound k v h).valid;
    within = (i.sound k v h).within;
    idle = (i.sound k v h).idle;
  };
  exclusive = i.exclusive;
  devices_keyed = keyed;
}

insert-Extends : (k : String) (x : Device) (d : Dict Device) → Extends d (insert k x d)
unfolding present
insert-Extends k x d j h = ground (arith, lookup-insert k j x d)

adjust-Extends : (f : Device → Device) (k : String) (d : Dict Device) → Extends d (adjust f k d)
unfolding present
adjust-Extends f k d j h = ground (arith, lookup-adjust f k j d)

present-map :
    {A : Type 0} {B : Type 0} (g : A → B) (o : Option A) → present (Option.map g o) ≡ present o
unfolding present
present-map g none = refl
present-map g (some a) = refl

module _ (p : Device → Bool) (f : Device → Device) (same : (x : Device) → (f x).id ≡ x.id) where
  adjust_first-Extends : (d : Dict Device) → Extends d (adjust_first p f d)
  adjust_first-Extends d j h =
      sym (present-map (λ (x : Device). x.id) (lookup j (adjust_first p f d)))
      ∙ ap present (lookup-adjust_first (λ (x : Device). x.id) p f j d same)
      ∙ present-map (λ (x : Device). x.id) (lookup j d)
      ∙ h

  adjust_first-keyed :
      (d : Dict Device) → Every (λ k x. x.id ≡ k) d → Every (λ k x. x.id ≡ k) (adjust_first p f d)
  adjust_first-keyed d keyed k x h =
      let (y, found, id) =
        map-eq-some (λ (z : Device). z.id) (lookup k d) x.id
          (sym (lookup-adjust_first (λ (z : Device). z.id) p f k d same)
            ∙ ap (Option.map (λ (z : Device). z.id)) h) in
      sym id ∙ keyed k y found

module _ (w : World) (now : ℕ) where
  register_new-Keeps :
      (user : String) (q : DeviceQuery) (s : Service) → Inv s → Keeps (register_new w now user q s)
  unfolding register_new new_device
  register_new-Keeps user q s i =
      let d = new_device w now s.wire.draws user q in
      if_rule Keeps (leb 100 (count_values (counts_for user) s.devices)) (kept _ _ i) (
        kept _ _ (
          extended_IsOrderly s.devices (insert d.id d s.devices) s.sessions
            (insert-Extends d.id d s.devices)
            (Every-insert (λ k (x : Device). x.id ≡ k) d.id d s.devices i.devices_keyed refl) i))

  register_again-Keeps :
      (user : String) (q : DeviceQuery) (d : Device) (s : Service)
      → Inv s
      → Keeps (register_again w now user q d s)
  unfolding register_again renamed
  register_again-Keeps user q d s i = if_rule Keeps (not (d.owner_id == user)) (kept _ _ i) (
      if_rule Keeps d.revoked (kept _ _ i) (
        kept _ _ (
          extended_IsOrderly s.devices _ s.sessions
            (adjust_first-Extends (has_key q.public_key) (renamed q) (λ x. refl) s.devices)
            (adjust_first-keyed (has_key q.public_key) (renamed q) (λ x. refl) s.devices
              i.devices_keyed)
            i)))

  register_proved-Keeps :
      (user : String) (q : DeviceQuery) (s : Service)
      → Inv s
      → Keeps (register_proved w now user q s)
  unfolding register_proved
  register_proved-Keeps user q s i =
      elim (Option-cases (find_value (has_key q.public_key) s.devices)) [
        | inl e ↦ rw (e, register_proved) (register_new-Keeps user q s i)
        | inr (d, e) ↦ rw (e, register_proved) (register_again-Keeps user q d s i)
      ]

  register_typed-Keeps :
      (r : Request) (user : String) (q : DeviceQuery) (s : Service)
      → Inv s
      → Keeps (register_typed w now r user q s)
  unfolding register_typed proof
  register_typed-Keeps r user q s i =
      let t = (proof w now r user q.public_key s).0 in
      if_rule Keeps (ltb (len q.name) 1 || ltb 80 (len q.name) || not (valid_os q)) (kept _ _ i) (
        if_rule Keeps (not (proof w now r user q.public_key s).1) (kept t _ i)
          (register_proved-Keeps user q t i))

  pub register_device-Keeps :
      (r : Request) (user : String) (q : Decoded DeviceQuery) (s : Service)
      → Inv s
      → Keeps (register_device w now r user q s)
  unfolding register_device
  register_device-Keeps r user malformed s i = kept _ _ i
  register_device-Keeps r user trailing s i = kept _ _ i
  register_device-Keeps r user (body q) s i = register_typed-Keeps r user (with_type q) s i

  pub lookup_device-Keeps :
      (code : String) (s : Service) → Inv s → Keeps (lookup_device w now code s)
  unfolding lookup_device
  lookup_device-Keeps code s i = elim (Option-cases (lookup (strip_spaces code) s.devices)) [
    | inl e ↦ rw (e, lookup_device) (kept _ _ i)
    | inr (d, e) ↦ rw (e, lookup_device) (if_rule Keeps d.revoked (kept _ _ i) (kept _ _ i))
  ]

  revoke_owned-Keeps :
      (user id : String) (d : Device) (s : Service) → Inv s → Keeps (revoke_owned w now user id d s)
  unfolding revoke_owned end_where revoke
  revoke_owned-Keeps user id d s i = kept _ _ (
      end_where-Inv w now (involves d) revoked user
        (record s { devices = adjust revoke id s.devices }) refl
        (extended_IsOrderly s.devices _ s.sessions (adjust-Extends revoke id s.devices)
          (Every-adjust (λ k (x : Device). x.id ≡ k) revoke id s.devices (λ x h. h) i.devices_keyed)
          i))

  pub revoke_device-Keeps :
      (user id : String) (s : Service) → Inv s → Keeps (revoke_device w now user id s)
  unfolding revoke_device
  revoke_device-Keeps user id s i = elim (Option-cases (lookup id s.devices)) [
    | inl e ↦ rw (e, revoke_device) (kept _ _ i)
    | inr (d, e) ↦
        rw (e, revoke_device)
          (if_rule Keeps (not (d.owner_id == user)) (kept _ _ i) (revoke_owned-Keeps user id d s i))
  ]
