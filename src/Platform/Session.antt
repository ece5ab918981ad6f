-- ===== src/Platform/Session.antt =====
-- The sessions of server/internal/platform/service.go: `live`, `visible`, `end` and the loops that
-- end sessions. The handlers stand in the modules below.
pub mod Handlers
pub mod Invariant
pub mod Writes
pub mod Cases
pub mod RequestCases
pub mod Preserved
pub mod Outcome
pub mod Started
use Prim.Native.String.{◌++◌}
use multi_desk.Base.{
  ℕ, ◌+◌, ◌*◌, String, Option, none, some, List, [], ◌∷◌, Bool, true, false, not, ◌&&◌, ◌||◌, ◌==◌,
  ltb, if◌then◌else◌,
}
use multi_desk.Dict.{Dict, lookup, adjust, map_values}
use multi_desk.Security.{second}
use multi_desk.Platform.World.{World, next_u64}
use multi_desk.Platform.State.{
  Device, Session, SessionState, pending, active, rejected, closed, expired, revoked, state_name,
  Peer, Wire, Service, session_updated,
}
use multi_desk.Platform.Wire.{notify, record_audit}

-- `session.State == "pending"`, `session.State == "active"`, and their disjunction
abbrev pub is_pending : SessionState → Bool
is_pending pending = true
is_pending _ = false

abbrev pub is_active : SessionState → Bool
is_active active = true
is_active _ = false

abbrev pub is_open : SessionState → Bool
is_open s = is_pending s || is_active s

unfoldable pub present : {V : Type 0} → Option V → Bool
present none = false
present (some v) = true

-- `now.Sub(d.LastSeen) < 45*time.Second` is tested by a sum, since `-` on ℕ stops at 0.
unfoldable pub live : ℕ → Service → Option Device → Bool
unfolding present
live now s none = false
live now s (some d) =
    not d.revoked && present (lookup d.id s.wire.peers) && ltb now (d.last_seen + 45 * second)

unfoldable pub owns : Option Device → String → Bool
owns none user = false
owns (some d) user = d.owner_id == user

unfoldable pub visible : Service → Session → String → Bool
unfolding owns
visible s v user = v.operator_id == user || owns (lookup v.target_id s.devices) user

-- the three assignments of `end`
unfoldable pub ended : SessionState → Session → Session
ended state v = record v { state = state; granted = []; epoch = next_u64 v.epoch }

-- both notifications that follow each change of a session
unfoldable pub tell : Session → Wire → Wire
tell v s = notify v.target_id (session_updated v) (notify v.source_id (session_updated v) s)

module _ (w : World) (now : ℕ) where
  -- what `end` sends and records, for the session as it has become
  unfoldable pub announce : Session → String → Wire → Wire
  announce v actor s = record_audit w now actor ("session." ++ state_name v.state) v.id (tell v s)

  -- `end(session, state, actor)`, for the session under the given key
  unfoldable pub end_session : String → Session → SessionState → String → Service → Service
  end_session key v state actor s = record s {
    sessions = adjust (ended state) key s.sessions;
    wire = announce (ended state v) actor s.wire;
  }

  -- what a loop over the sessions sends and records when it ends those that pass a test
  unfoldable pub announce_where :
      (Session → Bool) → SessionState → String → Dict Session → Wire → Wire
  announce_where test state actor [] s = s
  announce_where test state actor ((k, v) ∷ rest) s =
      announce_where test state actor rest (if test v then announce (ended state v) actor s else s)

  -- a loop over the sessions that calls `end` for those that pass a test
  unfoldable pub end_where : (Session → Bool) → SessionState → String → Service → Service
  end_where test state actor s = record s {
    sessions = map_values (λ v. if test v then ended state v else v) s.sessions;
    wire = announce_where test state actor s.sessions s.wire;
  }
