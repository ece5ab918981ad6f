-- ===== src/Platform/Step.antt =====
-- `Handler` of server/internal/platform/service.go as a step function: a request passes the rate
-- limit, then, but for the open routes, the middleware `auth`, and then runs its handler. The steps
-- of the signalling connections stand beside the requests.
pub mod Preserved
use multi_desk.Base.{
  ℕ, String, Option, none, some, List, [], ◌∷◌, Bool, true, false, ◌⊎◌, inl, inr, ◌≡◌,
  if◌then◌else◌,
}
use multi_desk.Platform.World.{World}
use multi_desk.Platform.State.{Service, Wire, Request, Reply, failed, Decoded}
use multi_desk.Platform.Proof.{new_challenge}
use multi_desk.Platform.Session.Handlers.{
  Decision, SessionQuery, request_session, decide_session, change_permissions, handover,
  stop_session,
}
use multi_desk.Platform.Auth.Handlers.{
  Registration, Login, register, login, rotate, logout, me, authenticate,
}
use multi_desk.Platform.Devices.{DeviceQuery, register_device, lookup_device, revoke_device}
use multi_desk.Platform.Admission.{admit}
use multi_desk.Platform.Ice.{ice_configuration}
use multi_desk.Platform.Lists.{list_devices, list_sessions, list_audit}
use multi_desk.Platform.Signalling.{Inbound, join, leave, relay, write_out}

-- the routes that need no account
pub data OpenCall : Type 0 where
  registers : Decoded Registration → OpenCall
  logs_in : Decoded Login → OpenCall
  rotates : Decoded String → OpenCall

-- the routes behind `auth`, with the path values and the decoded body
pub data Call : Type 0 where
  logs_out : Call
  asks_profile : Call
  asks_challenge : Call
  registers_device : Decoded DeviceQuery → Call
  looks_up_device : String → Call
  lists_devices : Call
  revokes_device : String → Call
  requests_session : Decoded SessionQuery → Call
  lists_sessions : Call
  asks_ice : String → Call
  decides : String → Decoded Decision → Call
  changes_permissions : String → Decoded (List String) → Call
  hands_over : String → Call
  stops_session : String → Call
  lists_audit : Call

pub data Event : Type 0 where
  open_request : (host path : String) → OpenCall → Event
  request : (host authorization : String) → Request → Call → Event
  joins : (host id : String) → (socket : ℕ) → Event
  leaves : (id : String) → (socket : ℕ) → Event
  relays : (id : String) → (socket : ℕ) → Inbound → Event
  writes_out : (id : String) → Event

module _ (w : World) (now : ℕ) where
  unfoldable pub run_open : OpenCall → Service → Service × Reply
  run_open (registers q) s = register w now q s
  run_open (logs_in q) s = login w now q s
  run_open (rotates q) s = rotate w now q s

  unfoldable pub run : Request → String → Call → Service → Service × Reply
  run r user logs_out s = logout w now user s
  run r user asks_profile s = me w now user s
  run r user asks_challenge s = new_challenge w now user s
  run r user (registers_device q) s = register_device w now r user q s
  run r user (looks_up_device code) s = lookup_device w now code s
  run r user lists_devices s = list_devices now user s
  run r user (revokes_device id) s = revoke_device w now user id s
  run r user (requests_session q) s = request_session w now r user q s
  run r user lists_sessions s = list_sessions user s
  run r user (asks_ice id) s = ice_configuration w now user id s
  run r user (decides id q) s = decide_session w now r user id q s
  run r user (changes_permissions id q) s = change_permissions w now r user id q s
  run r user (hands_over id) s = handover w now r user id s
  run r user (stops_session id) s = stop_session w now user id s
  run r user lists_audit s = list_audit user s

  abbrev pub too_many : Reply
  too_many = failed 429 "too many requests"

  -- the handler behind the middleware `auth`
  unfoldable pub run_as : Reply ⊎ String → Request → Call → Service → Service × Reply
  run_as (inl reply) r c s = (s, reply)
  run_as (inr user) r c s = run r user c s

  unfoldable pub step : Event → Service → Service
  step (open_request host path c) s =
      let (t, admitted) = admit w now host path s in if admitted then (run_open c t).0 else t
  step (request host authorization r c) s =
      let (t, admitted) = admit w now host r.path s in
      if admitted then (run_as (authenticate w now authorization t) r c t).0 else t
  step (joins host id socket) s =
      let (t, admitted) = admit w now host "/v1/signalling" s in
      if admitted then record t { wire = join id socket t.wire } else t
  step (leaves id socket) s = record s { wire = leave id socket s.wire }
  step (relays id socket m) s = record s { wire = relay id socket m s.wire }
  step (writes_out id) s = record s { wire = write_out id s.wire }

-- `NewWithStore(key, store)` for a key of at least 32 bytes
unfoldable pub init : List ℕ → Service
init key = record {
  key = key;
  wire = record { peers = []; audit = []; draws = 0; closing = [] };
  accounts = [];
  emails = [];
  refresh = [];
  devices = [];
  sessions = [];
  challenges = [];
  rates = [];
  auth_slots = 0;
  ice_urls = [];
  turn_secret = "";
}

-- the states that the service reaches by events, each at a time of its own
pub data Reach (w : World) (key : List ℕ) : Service → Type 0 where
  start : {s : Service} → s ≡ init key → Reach w key s
  next : {s t : Service} (now : ℕ) (e : Event) → Reach w key s → t ≡ step w now e s → Reach w key t
