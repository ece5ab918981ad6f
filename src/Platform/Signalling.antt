-- ===== src/Platform/Signalling.antt =====
-- `signalling` of server/internal/platform/service.go, as the steps of a connection: it joins under
-- a device identifier, relays the messages that it reads, and leaves. The writer goroutine takes
-- messages out of a peer's channel.
use multi_desk.Base.{
  ℕ, String, Option, none, some, List, [], ◌∷◌, ◌++◌, Bool, false, not, ◌&&◌, ◌==◌, ltb, length,
  num_eq, if◌then◌else◌,
}
use multi_desk.Base.Text.{strip_spaces, trim_space}
use multi_desk.Dict.{lookup, insert, delete, adjust}
use multi_desk.Platform.State.{Peer, Wire, Message, relayed, target_offline}
use multi_desk.Platform.Wire.{send_capacity, enqueue}

-- `strings.ReplaceAll(strings.TrimSpace(id), " ", "")`
unfoldable pub normal_id : String → String
normal_id id = strip_spaces (trim_space id)

-- The device that a connection names: by the header, or by the query; `none` is the status 400.
unfoldable pub connection_id : String → String → Option String
connection_id header query =
    let id = if header == "" then query else header in
    if id == "" then none else some (normal_id id)

-- The new peer replaces the one that the device had, whose socket is closed.
unfoldable pub join : String → ℕ → Wire → Wire
join id socket s = elim (lookup id s.peers) [
  | none ↦ record s { peers = insert id fresh s.peers }
  | some old ↦ record s {
    peers = insert id fresh s.peers;
    closing = s.closing ++ (old.socket, "replaced by new session") ∷ [];
  }
]
  where
    fresh : Peer
    fresh = record { socket = some socket; send = [] }

-- `s.peers[normID] == p`: two peers are one if their connections are
unfoldable pub is_peer : ℕ → Option Peer → Bool
is_peer socket none = false
is_peer socket (some p) = elim p.socket [ none ↦ false | some c ↦ num_eq c socket ]

unfoldable pub leave : String → ℕ → Wire → Wire
leave id socket s =
    if is_peer socket (lookup id s.peers) then record s { peers = delete id s.peers } else s

-- The payload of a message, where it is a JSON object with such fields.
pub record SubPayload : Type 0 where
  pub target_id : String
  pub session_target : String
  pub session_source : String

pub record Inbound : Type 0 where
  pub kind : String
  pub target_id : String
  pub payload : Option SubPayload
  pub raw : String

-- the target of a message whose own field is empty
unfoldable pub payload_target : String → Option SubPayload → String
payload_target id none = ""
payload_target id (some p) =
    if not (p.target_id == "")
    then p.target_id
    else if not (p.session_target == "")
    then (if strip_spaces p.session_target == id then p.session_source else p.session_target)
    else ""

unfoldable pub message_target : String → Inbound → String
message_target id m = if m.target_id == "" then payload_target id m.payload else m.target_id

-- `select { case p.send <- m: default: }`: a full channel drops the message
unfoldable pub offer : Message → Peer → Peer
offer m p = if ltb (length p.send) send_capacity then enqueue m p else p

-- the loop of `signalling` for one text message of the connection that is known as `id`
unfoldable pub relay : String → ℕ → Inbound → Wire → Wire
relay id socket m s =
    let target = message_target id m in
    let key = normal_id target in
    if m.kind == "heartbeat" then s else if key == "" then s else elim (lookup key s.peers) [
      | some p ↦ record s { peers = adjust (offer (relayed m.raw)) key s.peers }
      | none ↦
          if m.kind == "session.requested" && is_peer socket (lookup id s.peers)
          then record s { peers = adjust (offer (target_offline target)) id s.peers }
          else s
    ]

-- the messages behind the oldest
unfoldable pub behind_oldest : List Message → List Message
behind_oldest [] = []
behind_oldest (m ∷ ms) = ms

-- `data := <-p.send` in the writer goroutine of the device's peer
unfoldable pub write_out : String → Wire → Wire
write_out id s = record s {
  peers = adjust (λ p. record p { send = behind_oldest p.send }) id s.peers;
}
