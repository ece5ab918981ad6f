-- ===== src/Platform/Wire.antt =====
-- `notify` and `record` of server/internal/platform/service.go, the two effects of a state change:
-- a message to a device's peer, and an audit event.
pub mod Laws
use multi_desk.Base.{
  ℕ, ◌+◌, ◌-◌, String, Option, none, some, List, [], ◌∷◌, ◌++◌, ltb, length, drop, if◌then◌else◌,
}
use multi_desk.Dict.{lookup, adjust}
use multi_desk.Platform.World.{World, random_id}
use multi_desk.Platform.State.{Wire, Peer, Message, Audit}

-- `make(chan []byte, 1024)` in `signalling`
abbrev pub send_capacity : ℕ
send_capacity = 1024

abbrev pub audit_limit : ℕ
audit_limit = 10000

unfoldable pub enqueue : Message → Peer → Peer
enqueue m p = record p { send = p.send ++ m ∷ [] }

-- A full channel closes the peer's socket, and the message is lost.
unfoldable pub notify : String → Message → Wire → Wire
notify device m s = elim (lookup device s.peers) [
  | none ↦ s
  | some p ↦
      if ltb (length p.send) send_capacity
      then record s { peers = adjust (enqueue m) device s.peers }
      else record s { closing = s.closing ++ (p.socket, "slow consumer") ∷ [] }
]

-- The newest ten thousand events.
unfoldable pub trim_audit : List Audit → List Audit
trim_audit audit =
    if ltb audit_limit (length audit) then drop (length audit - audit_limit) audit else audit

-- `record(user, action, resource)`
unfoldable pub record_audit : World → ℕ → String → String → String → Wire → Wire
record_audit w now user action resource s = record s {
  audit = trim_audit (s.audit ++ event ∷ []);
  draws = s.draws + 1;
}
  where
    event : Audit
    event = record {
      id = random_id w s.draws 12;
      actor = user;
      action = action;
      resource = resource;
      at = now;
    }
