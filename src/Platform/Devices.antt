-- ===== src/Platform/Devices.antt =====
-- The device handlers of server/internal/platform/service.go: `registerDevice`, `lookupDevice` and
-- `revokeDevice`.
pub mod Preserved
pub mod Laws
use Prim.Native.String.{len}
use multi_desk.Base.{
  ℕ, ◌+◌, String, Option, none, some, List, [], ◌∷◌, ◌++◌, Bool, true, false, not, ◌&&◌, ◌||◌, ◌==◌,
  ltb, leb, if◌then◌else◌,
}
use multi_desk.Base.Text.{strip_spaces}
use multi_desk.Dict.{Dict, lookup, insert, adjust, adjust_first, find_value, count_values}
use multi_desk.Platform.World.{World, random_id}
use multi_desk.Platform.State.{
  Device, Session, revoked, Peer, Wire, Service, Request, Reply, failed, sent, Body, Decoded,
  malformed, trailing, body,
}
use multi_desk.Platform.Wire.{record_audit}
use multi_desk.Platform.Proof.{proof}
use multi_desk.Platform.Session.{is_open, live, end_where}
use multi_desk.Platform.Session.Handlers.{bad_body, two_bodies}
use multi_desk.Platform.Auth.{drawn, logged}

pub record DeviceQuery : Type 0 where
  pub name : String
  pub public_key : String
  pub os : String
  pub device_type : String

-- `if q.DeviceType == "" { q.DeviceType = "pc" }`
unfoldable pub with_type : DeviceQuery → DeviceQuery
with_type q = if q.device_type == "" then record q { device_type = "pc" } else q

unfoldable pub valid_os : DeviceQuery → Bool
valid_os q =
    (q.device_type == "pc" && (q.os == "Windows 10" || q.os == "Windows 11"))
    || (q.device_type == "android" && not (q.os == ""))

-- the assignments to a device that is registered again
unfoldable pub renamed : DeviceQuery → Device → Device
renamed q d = record d { name = q.name; os = q.os; device_type = q.device_type }

unfoldable pub has_key : String → Device → Bool
has_key public_key d = d.public_key == public_key

-- a device that counts against the limit
unfoldable pub counts_for : String → Device → Bool
counts_for user d = d.owner_id == user && not d.revoked

unfoldable pub revoke : Device → Device
revoke d = record d { revoked = true }

-- the test of the loop of `revokeDevice`
unfoldable pub involves : Device → Session → Bool
involves d v = (v.source_id == d.id || v.target_id == d.id) && is_open v.state

-- `p.socket.Close(websocket.StatusPolicyViolation, "device revoked")`, where there is a socket
unfoldable pub close_revoked : Option Peer → Wire → Wire
close_revoked none s = s
close_revoked (some p) s = elim p.socket [
  | none ↦ s
  | some c ↦ record s { closing = s.closing ++ (some c, "device revoked") ∷ [] }
]

module _ (w : World) (now : ℕ) where
  -- the device that `registerDevice` makes; its `LastSeen` is the zero time
  unfoldable pub new_device : ℕ → String → DeviceQuery → Device
  new_device draws user q = record {
    id = random_id w draws 12;
    name = q.name;
    owner_id = user;
    public_key = q.public_key;
    os = q.os;
    device_type = q.device_type;
    last_seen = 0;
    revoked = false;
    online = false;
    unattended = false;
  }

  -- the loop of `registerDevice` found no device with this key
  unfoldable pub register_new : String → DeviceQuery → Service → Service × Reply
  register_new user q s =
      if leb 100 (count_values (counts_for user) s.devices)
      then (s, failed 409 "device registration limit reached")
      else let d = new_device s.wire.draws user q in
        (
          logged w now user "device.registered" d.id
              (record (drawn 1 s) { devices = insert d.id d s.devices }),
          sent 201 (Body.device d),
        )

  -- the loop of `registerDevice` found a device with this key
  unfoldable pub register_again : String → DeviceQuery → Device → Service → Service × Reply
  register_again user q d s =
      if not (d.owner_id == user)
      then (s, failed 409 "device identity already registered")
      else if d.revoked
      then (s, failed 403 "device identity has been revoked")
      else (
        logged w now user "device.registration_confirmed" d.id
            (record s { devices = adjust_first (has_key q.public_key) (renamed q) s.devices }),
        sent 200 (Body.device (renamed q d)),
      )

  unfoldable pub register_proved : String → DeviceQuery → Service → Service × Reply
  register_proved user q s = elim (find_value (has_key q.public_key) s.devices) [
    | none ↦ register_new user q s
    | some d ↦ register_again user q d s
  ]

  -- `registerDevice` with the device type filled in
  unfoldable pub register_typed : Request → String → DeviceQuery → Service → Service × Reply
  register_typed r user q s =
      if ltb (len q.name) 1 || ltb 80 (len q.name) || not (valid_os q)
      then (s, failed 400 "device name and supported OS required")
      else let (s', proved) = proof w now r user q.public_key s in
        if not proved
        then (s', failed 403 "device identity proof required")
        else register_proved user q s'

  unfoldable pub register_device :
      Request → String → Decoded DeviceQuery → Service → Service × Reply
  register_device r user malformed s = (s, bad_body)
  register_device r user trailing s = (s, two_bodies)
  register_device r user (body q) s = register_typed r user (with_type q) s

  unfoldable pub lookup_device : String → Service → Service × Reply
  lookup_device code s = elim (lookup (strip_spaces code) s.devices) [
    | none ↦ (s, failed 404 "device not found")
    | some d ↦
        if d.revoked
        then (s, failed 404 "device not found")
        else (s, sent 200 (Body.found_device d.id d.name d.device_type (live now s (some d))))
  ]

  -- `revokeDevice` from the write on; `id` is the key of the device
  unfoldable pub revoke_owned : String → String → Device → Service → Service × Reply
  revoke_owned user id d s =
      let cut =
        end_where w now (involves d) revoked user
          (record s { devices = adjust revoke id s.devices }) in
      (
        logged w now user "device.revoked" d.id
            (record cut { wire = close_revoked (lookup d.id cut.wire.peers) cut.wire }),
        sent 200 Body.done,
      )

  unfoldable pub revoke_device : String → String → Service → Service × Reply
  revoke_device user id s = elim (lookup id s.devices) [
    | none ↦ (s, failed 404 "device not found")
    | some d ↦
        if not (d.owner_id == user)
        then (s, failed 404 "device not found")
        else revoke_owned user id d s
  ]
