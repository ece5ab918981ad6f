-- ===== src/Platform/Moves.antt =====
-- What the requests do to devices and sessions, as a relation that forgets wire, accounts, tokens and
-- challenges: a specification of `Service` of server/internal/platform/service.go.
pub mod Sessions
pub mod Accounts
pub mod Devices
pub mod Admission
pub mod Refined
pub mod Unseen
pub mod Limit
use multi_desk.Base.{
  ℕ, String, Option, none, some, List, [], Bool, true, false, ◌&&◌, ◌==◌, ◌<◌, ◌≡◌, if◌then◌else◌,
}
use multi_desk.Dict.{
  Dict, lookup, insert, adjust, adjust_first, map_values, any_value, count_values,
}
use multi_desk.Platform.State.{Device, Session, SessionState, Service, pending}
use multi_desk.Platform.Permissions.{valid_permissions, subset}
use multi_desk.Platform.Session.{is_pending, is_active, is_open, ended}
use multi_desk.Platform.Session.Handlers.{
  is_open_of, activated, regranted, in_command, is_rival, disarmed, controller_busy,
}
use multi_desk.Platform.Devices.{DeviceQuery, renamed, revoke}

pub record Board : Type 0 where
  pub devices : Dict Device
  pub sessions : Dict Session

abbrev pub board : Service → Board
board s = record { devices = s.devices; sessions = s.sessions }

pub data Move (a b : Board) : Type 0 where
  -- sessions that pass a test end
  ends :
      (test : Session → Bool) (state : SessionState)
      → is_open state ≡ false
      → b ≡ record a { sessions = map_values (λ v. if test v then ended state v else v) a.sessions }
      → Move a b
  ends_one :
      (id : String) (state : SessionState)
      → is_open state ≡ false
      → b ≡ record a { sessions = adjust (ended state) id a.sessions }
      → Move a b
  -- an operator with fewer than ten open sessions asks for a target for which it has none
  starts :
      (v : Session)
      → v.state ≡ pending
      → v.granted ≡ []
      → valid_permissions v.requested ≡ true
      → any_value (λ u. is_open_of v.operator_id u && u.target_id == v.target_id) a.sessions ≡ false
      → count_values (is_open_of v.operator_id) a.sessions < 10
      → b ≡ record a { sessions = insert v.id v a.sessions }
      → Move a b
  -- a pending session is approved
  activates :
      (id : String) (v : Session) (now : ℕ) (permissions : List String)
      → lookup id a.sessions ≡ some v
      → is_pending v.state ≡ true
      → subset permissions v.requested ≡ true
      → b ≡ record a { sessions = insert id (activated now permissions v) a.sessions }
      → Move a b
  -- the grants of an active session change
  regrants :
      (id : String) (v : Session) (permissions : List String)
      → lookup id a.sessions ≡ some v
      → is_active v.state ≡ true
      → subset permissions v.requested ≡ true
      → b ≡ record a { sessions = insert id (regranted permissions v) a.sessions }
      → Move a b
  -- an active session takes the control of its target from every other
  commands :
      (id : String) (v : Session)
      → lookup id a.sessions ≡ some v
      → is_active v.state ≡ true
      → b ≡ record a {
        sessions =
            insert id
              (in_command v)
              (map_values (λ u. if is_rival v u then disarmed u else u) a.sessions);
      }
      → Move a b
  -- a device comes in that was never seen, takes new names, or is revoked
  registers :
      (d : Device) → d.last_seen ≡ 0 → b ≡ record a { devices = insert d.id d a.devices } → Move a b
  renames :
      (test : Device → Bool) (q : DeviceQuery)
      → b ≡ record a { devices = adjust_first test (renamed q) a.devices }
      → Move a b
  revokes : (id : String) → b ≡ record a { devices = adjust revoke id a.devices } → Move a b

pub data Moves (a : Board) : Board → Type 0 where
  here : {b : Board} → b ≡ a → Moves a b
  next : {b c : Board} → Moves a b → Move b c → Moves a c

pub Moves-Moves : {a b c : Board} → Moves a b → Moves b c → Moves a c
Moves-Moves {a} m (here e) = rw e m
Moves-Moves m (next n x) = next (Moves-Moves m n) x

-- of the result of a handler or of a part of one: its board is reached from the given one
pub record Leads {B : Type 0} (a : Board) (r : Service × B) : Type 0 where
  pub by : Moves a (board r.0)

pub led : {B : Type 0} {a : Board} (s : Service) (b : B) → Moves a (board s) → Leads a (s, b)
led s b m = record { by = m }
