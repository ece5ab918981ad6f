-- ===== src/Platform/Moves/Devices.antt =====
-- The device handlers as moves.

use Prim.Native.String.{len}
use multi_desk.Base.{ℕ, String, not, ◌||◌, ◌==◌, refl, Option-cases, ltb, leb, if_rule, inl, inr}
use multi_desk.Base.Text.{strip_spaces}
use multi_desk.Dict.{lookup, find_value, count_values}
use multi_desk.Platform.World.{World}
use multi_desk.Platform.State.{
  Service, Device, revoked, Request, Decoded, malformed, trailing, body,
}
use multi_desk.Platform.Proof.{proof}
use multi_desk.Platform.Session.{end_where}
use multi_desk.Platform.Moves.{
  Board, board, Moves, next, ends, registers, renames, revokes, Leads, led,
}
use multi_desk.Platform.Devices.{
  DeviceQuery, with_type, valid_os, renamed, has_key, counts_for, revoke, involves, new_device,
  register_new, register_again, register_proved, register_typed, register_device, lookup_device,
  revoke_owned, revoke_device,
}

module _ (w : World) (now : ℕ) (a : Board) where
  register_new-Leads :
      (user : String) (q : DeviceQuery) (s : Service)
      → Moves a (board s)
      → Leads a (register_new w now user q s)
  unfolding register_new new_device
  register_new-Leads user q s i =
      if_rule (Leads a) (leb 100 (count_values (counts_for user) s.devices)) (led _ _ i)
        (led _ _ (next i (registers (new_device w now s.wire.draws user q) refl refl)))

  register_again-Leads :
      (user : String) (q : DeviceQuery) (d : Device) (s : Service)
      → Moves a (board s)
      → Leads a (register_again w now user q d s)
  unfolding register_again renamed
  register_again-Leads user q d s i = if_rule (Leads a) (not (d.owner_id == user)) (led _ _ i) (
      if_rule (Leads a) d.revoked (led _ _ i)
        (led _ _ (next i (renames (has_key q.public_key) q refl))))

  register_proved-Leads :
      (user : String) (q : DeviceQuery) (s : Service)
      → Moves a (board s)
      → Leads a (register_proved w now user q s)
  unfolding register_proved
  register_proved-Leads user q s i =
      elim (Option-cases (find_value (has_key q.public_key) s.devices)) [
        | inl e ↦ rw (e, register_proved) (register_new-Leads user q s i)
        | inr (d, e) ↦ rw (e, register_proved) (register_again-Leads user q d s i)
      ]

  register_typed-Leads :
      (r : Request) (user : String) (q : DeviceQuery) (s : Service)
      → Moves a (board s)
      → Leads a (register_typed w now r user q s)
  unfolding register_typed proof
  register_typed-Leads r user q s i =
      let t = (proof w now r user q.public_key s).0 in
      if_rule (Leads a) (ltb (len q.name) 1 || ltb 80 (len q.name) || not (valid_os q)) (led _ _ i)
        (if_rule (Leads a) (not (proof w now r user q.public_key s).1) (led t _ i)
          (register_proved-Leads user q t i))

  pub register_device-Leads :
      (r : Request) (user : String) (q : Decoded DeviceQuery) (s : Service)
      → Moves a (board s)
      → Leads a (register_device w now r user q s)
  unfolding register_device
  register_device-Leads r user malformed s i = led _ _ i
  register_device-Leads r user trailing s i = led _ _ i
  register_device-Leads r user (body q) s i = register_typed-Leads r user (with_type q) s i

  pub lookup_device-Leads :
      (code : String) (s : Service) → Moves a (board s) → Leads a (lookup_device w now code s)
  unfolding lookup_device
  lookup_device-Leads code s i = elim (Option-cases (lookup (strip_spaces code) s.devices)) [
    | inl e ↦ rw (e, lookup_device) (led _ _ i)
    | inr (d, e) ↦ rw (e, lookup_device) (if_rule (Leads a) d.revoked (led _ _ i) (led _ _ i))
  ]

  revoke_owned-Leads :
      (user id : String) (d : Device) (s : Service)
      → Moves a (board s)
      → Leads a (revoke_owned w now user id d s)
  unfolding revoke_owned end_where revoke
  revoke_owned-Leads user id d s i =
      led _ _ (next (next i (revokes id refl)) (ends (involves d) revoked refl refl))

  pub revoke_device-Leads :
      (user id : String) (s : Service) → Moves a (board s) → Leads a (revoke_device w now user id s)
  unfolding revoke_device
  revoke_device-Leads user id s i = elim (Option-cases (lookup id s.devices)) [
    | inl e ↦ rw (e, revoke_device) (led _ _ i)
    | inr (d, e) ↦
        rw (e, revoke_device)
          (if_rule (Leads a) (not (d.owner_id == user)) (led _ _ i)
            (revoke_owned-Leads user id d s i))
  ]
