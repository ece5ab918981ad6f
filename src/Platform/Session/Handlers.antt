-- ===== src/Platform/Session/Handlers.antt =====
-- The session handlers of server/internal/platform/service.go that a target device's owner calls.
use multi_desk.Base.{
  ℕ, ◌+◌, ◌*◌, String, Option, none, some, List, [], ◌∷◌, Bool, not, ◌&&◌, ◌||◌, ◌==◌, leb, num_eq,
  length, if◌then◌else◌,
}
use multi_desk.Dict.{Dict, lookup, insert, map_values, any_value, count_values}
use multi_desk.Security.{minute, hour}
use multi_desk.Platform.World.{World, next_u64, random_id}
use multi_desk.Platform.State.{
  Device, Session, pending, active, rejected, closed, revoked, Wire, Service, session_requested,
  Request, Reply, failed, sent, crashed, session, Decoded, malformed, trailing, body,
}
use multi_desk.Platform.Permissions.{
  controls, valid_permissions, subset, drop_control, take_control,
}
use multi_desk.Platform.Wire.{notify, record_audit}
use multi_desk.Platform.Proof.{proof}
use multi_desk.Platform.Session.{
  is_pending, is_active, is_open, live, visible, ended, tell, end_session,
}

pub record SessionQuery : Type 0 where
  pub source_id : String
  pub target_id : String
  pub permissions : List String

pub record Decision : Type 0 where
  pub approve : Bool
  pub permissions : List String

-- what `decode` sends where it returns false
abbrev pub bad_body : Reply
bad_body = failed 400 "invalid request body"

abbrev pub two_bodies : Reply
two_bodies = failed 400 "expected one JSON object"

-- The outcome of `targetSession`: the reply that it has sent, or the session.
pub data Target : Type 0 where
  refused : Reply → Target
  approved_by_target : Session → Target

unfoldable pub controller_busy : Session → Service → Bool
controller_busy v s =
    any_value
      (λ other.
        not (other.id == v.id)
        && other.target_id == v.target_id
        && is_active other.state
        && controls other.granted)
      s.sessions

-- `v.OperatorID == user` and the session is pending or active
unfoldable pub is_open_of : String → Session → Bool
is_open_of user v = v.operator_id == user && is_open v.state

-- the session as `decideSession` approves it
abbrev pub activated : ℕ → List String → Session → Session
activated now permissions v = record v {
  granted = permissions;
  state = active;
  expires = now + 8 * hour;
  epoch = next_u64 v.epoch;
}

-- the session as `changePermissions` leaves it
abbrev pub regranted : List String → Session → Session
regranted permissions v = record v { granted = permissions; epoch = next_u64 v.epoch }

-- the session as `handover` leaves it
abbrev pub in_command : Session → Session
in_command v = record v { granted = take_control v.requested v.granted; epoch = next_u64 v.epoch }

-- the test of the loop of `handover`
unfoldable pub is_rival : Session → Session → Bool
is_rival v old = old.target_id == v.target_id && is_active old.state && not (old.id == v.id)

unfoldable pub disarmed : Session → Session
disarmed old = record old { granted = drop_control old.granted; epoch = next_u64 old.epoch }

-- what the loop of `handover` sends
unfoldable pub tell_rivals : Session → Dict Session → Wire → Wire
tell_rivals v [] s = s
tell_rivals v ((k, old) ∷ rest) s =
    tell_rivals v rest (if is_rival v old then tell (disarmed old) s else s)

unfoldable pub disarm_rivals : Session → Service → Service
disarm_rivals v s = record s {
  sessions = map_values (λ old. if is_rival v old then disarmed old else old) s.sessions;
  wire = tell_rivals v s.sessions s.wire;
}

-- the handlers go on with the session that `targetSession` returns
unfoldable pub with_target :
    (Session → Service → Service × Reply) → Service × Target → Service × Reply
with_target next (s, refused reply) = (s, reply)
with_target next (s, approved_by_target v) = next v s

module _ (w : World) (now : ℕ) where
  -- the session that `requestSession` makes, at the given read of the random source
  unfoldable pub new_session : ℕ → String → Device → Device → List String → Session
  new_session draws user source target permissions = record {
    id = random_id w draws 18;
    operator_id = user;
    source_id = source.id;
    target_id = target.id;
    state = pending;
    requested = permissions;
    granted = [];
    created = now;
    expires = now + 2 * minute;
    epoch = 1;
    source_public_key = source.public_key;
    target_public_key = target.public_key;
  }

  -- the changes of `requestSession`, after its tests
  unfoldable pub start_session : String → Device → Device → List String → Service → Service × Reply
  start_session user source target permissions s = elim (lookup user s.accounts) [
    | none ↦ (stored, crashed)
    | some a ↦ (
      record stored {
        wire =
            record_audit w now user "session.requested" v.id
              (notify v.target_id (session_requested v a.name) drawn);
      },
      sent 201 (session v),
    )
  ]
    where
      v : Session
      v = new_session s.wire.draws user source target permissions

      drawn : Wire
      drawn = record (s.wire) { draws = s.wire.draws + 1 }

      stored : Service
      stored = record s { sessions = insert v.id v s.sessions; wire = drawn }

  -- `requestSession` from the proof on
  unfoldable pub request_proved :
      Request → String → Device → Device → List String → Service → Service × Reply
  request_proved r user source target permissions s =
      let (s', proved) = proof w now r user source.public_key s in
      if not proved
      then (s', failed 403 "source device proof required")
      else if not (valid_permissions permissions)
      then (s', failed 400 "valid permissions including view required")
      else if any_value (λ v. is_open_of user v && v.target_id == target.id) s'.sessions
      then (s', failed 409 "a session for this target already exists")
      else if leb 10 (count_values (is_open_of user) s'.sessions)
      then (s', failed 409 "maximum 10 pending or active sessions")
      else start_session user source target permissions s'

  unfoldable pub request_query : Request → String → SessionQuery → Service → Service × Reply
  request_query r user q s = elim (lookup q.source_id s.devices) [
    | none ↦ (s, unavailable)
    | some source ↦ elim (lookup q.target_id s.devices) [
      | none ↦ (s, unavailable)
      | some target ↦
          if not (source.owner_id == user)
            || not (live now s (some source))
            || not (live now s (some target))
            || q.source_id == q.target_id
          then (s, unavailable)
          else request_proved r user source target q.permissions s
    ]
  ]
    where
      unavailable : Reply
      unavailable = failed 404 "available source and target devices required"

  unfoldable pub request_session :
      Request → String → Decoded SessionQuery → Service → Service × Reply
  request_session r user malformed s = (s, bad_body)
  request_session r user trailing s = (s, two_bodies)
  request_session r user (body q) s = request_query r user q s

  -- `targetSession` for the session found, with the device that it names
  unfoldable pub target_device :
      Request → String → Session → Option Device → Service → Service × Target
  target_device r user v none s = (s, refused crashed)
  target_device r user v (some d) s =
      if not (d.owner_id == user)
      then (s, refused (failed 404 "session not found"))
      else if not (live now s (some d))
      then (s, refused (failed 403 "online target device proof required"))
      else let (s', proved) = proof w now r user d.public_key s in
        (
          s',
          if proved
              then approved_by_target v
              else refused (failed 403 "online target device proof required"),
        )

  unfoldable pub target_session : Request → String → String → Service → Service × Target
  target_session r user id s = elim (lookup id s.sessions) [
    | none ↦ (s, refused (failed 404 "session not found"))
    | some v ↦ target_device r user v (lookup v.target_id s.devices) s
  ]

  -- a change of the session under the key, with its two notifications and its audit event
  unfoldable pub change_session : String → Session → String → String → Service → Service × Reply
  change_session id v' user action s = (
    record s {
      sessions = insert id v' s.sessions;
      wire = record_audit w now user action v'.id (tell v' s.wire);
    },
    sent 200 (session v'),
  )

  -- `decideSession` from the test of the state on
  unfoldable pub decide_found : String → String → Decision → Session → Service → Service × Reply
  decide_found id user q v s =
      if not (is_pending v.state)
      then (s, failed 409 "session is not pending")
      else if not q.approve
      then (end_session w now id v rejected user s, sent 200 (session (ended rejected v)))
      else if not (valid_permissions q.permissions) || not (subset q.permissions v.requested)
      then (s, failed 400 "grants must be a subset of requested permissions")
      else if controls q.permissions && controller_busy v s
      then (s, failed 409 "another operator controls this device; approve view-only then hand over")
      else change_session id (activated now q.permissions v) user "session.approved" s

  -- `changePermissions` from the test of the state on
  unfoldable pub change_found : String → String → List String → Session → Service → Service × Reply
  change_found id user permissions v s =
      if not (is_active v.state)
      then (s, failed 409 "session is not active")
      else if num_eq (length permissions) 0
      then (end_session w now id v revoked user s, sent 200 (session (ended revoked v)))
      else if not (valid_permissions permissions) || not (subset permissions v.requested)
      then (s, failed 400 "invalid grants")
      else if controls permissions && controller_busy v s
      then (s, failed 409 "control handover required")
      else change_session id (regranted permissions v) user "session.permissions_changed" s

  -- `handover` from the test of the state on
  unfoldable pub handover_found : String → String → Session → Service → Service × Reply
  handover_found id user v s =
      if not (is_active v.state) || not (controls v.requested)
      then (s, failed 409 "active session with requested control required")
      else change_session id (in_command v) user "session.control_handover" (disarm_rivals v s)

  unfoldable pub decide_session :
      Request → String → String → Decoded Decision → Service → Service × Reply
  decide_session r user id malformed s = (s, bad_body)
  decide_session r user id trailing s = (s, two_bodies)
  decide_session r user id (body q) s =
      with_target (decide_found id user q) (target_session r user id s)

  unfoldable pub change_permissions :
      Request → String → String → Decoded (List String) → Service → Service × Reply
  change_permissions r user id malformed s = (s, bad_body)
  change_permissions r user id trailing s = (s, two_bodies)
  change_permissions r user id (body permissions) s =
      with_target (change_found id user permissions) (target_session r user id s)

  unfoldable pub handover : Request → String → String → Service → Service × Reply
  handover r user id s = with_target (handover_found id user) (target_session r user id s)

  unfoldable pub stop_session : String → String → Service → Service × Reply
  stop_session user id s = elim (lookup id s.sessions) [
    | none ↦ (s, failed 404 "session not found")
    | some v ↦
        if not (visible s v user)
        then (s, failed 404 "session not found")
        else if is_open v.state
        then (end_session w now id v closed user s, sent 200 (session (ended closed v)))
        else (s, sent 200 (session v))
  ]
