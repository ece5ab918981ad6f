-- ===== src/Tests/Fixtures.antt =====
-- A concrete world, and services in which a session waits for its target and in which it is active.
use mathlib.Core.Option
use multi_desk.Base.{ℕ, String, some, List, [], ◌∷◌, true, false, ◌≡◌, refl, arith, eq_iff}
use multi_desk.Dict.{Dict, lookup, insert}
use multi_desk.Dict.Laws.{Every}
use multi_desk.Dict.Every.{Every-insert}
use multi_desk.Platform.World.{World}
use multi_desk.Platform.State.{
  Account, Device, Session, SessionState, pending, active, Peer, Service, Request,
}
use multi_desk.Platform.Session.Invariant.{Inv, IsSound, IsExclusive-insert}
use multi_desk.Platform.Permissions.{subset, valid_permissions, all_new, contains}
use multi_desk.Platform.Session.{is_active, present}
use multi_desk.Tests.Coding.{coding, codes, unary, read_text}

abbrev pub world : World
world = record {
  crypto = coding;
  random = λ draw n. draw ∷ [];
  sha256_hex = λ s. s;
  argon2 = λ raw salt. codes raw;
  to_lower = λ s. s;
  parse_address = λ s. some s;
  hex_upper = unary;
  base32 = unary;
  seal = λ key nonce secret. codes secret;
  unseal = λ key nonce payload. Option.map (λ p. p.0) (read_text payload);
  rfc3339 = λ t. "now";
}

abbrev pub device : String → String → Device
device id owner = record {
  id = id;
  name = "desk";
  owner_id = owner;
  public_key = "key";
  os = "Windows 11";
  device_type = "pc";
  last_seen = 5;
  revoked = false;
  online = true;
  unattended = false;
}

abbrev pub session_in : SessionState → List String → Session
session_in state granted = record {
  id = "s";
  operator_id = "alice";
  source_id = "laptop";
  target_id = "desktop";
  state = state;
  requested = "view" ∷ "mouse" ∷ [];
  granted = granted;
  created = 1;
  expires = 1000;
  epoch = 1;
  source_public_key = "key";
  target_public_key = "key";
}

abbrev pub peer : ℕ → Peer
peer socket = record { socket = some socket; send = [] }

abbrev pub account : String → Account
account id = record {
  id = id;
  email = id;
  name = id;
  password = record { salt = []; hash = codes "correct horse" };
  version = 0;
}

-- Alice owns the laptop, Bob the desktop; both have a challenge.
abbrev pub service : Dict Session → Service
service sessions = record {
  key = 1 ∷ [];
  wire = record {
    peers = ("laptop", peer 1) ∷ ("desktop", peer 2) ∷ [];
    audit = [];
    draws = 3;
    closing = [];
  };
  accounts = ("alice", account "alice") ∷ ("bob", account "bob") ∷ [];
  emails = ("alice", "alice") ∷ ("bob", "bob") ∷ [];
  refresh = ("old", record { user_id = "alice"; family = "f"; expires = 900; used = false }) ∷ [];
  devices = ("laptop", device "laptop" "alice") ∷ ("desktop", device "desktop" "bob") ∷ [];
  sessions = sessions;
  challenges =
      ("na", record { user = "alice"; expires = 500 })
      ∷ ("nb", record { user = "bob"; expires = 500 })
      ∷ [];
  rates = ("host", record { count = 3; until = 700 }) ∷ [];
  auth_slots = 0;
  ice_urls = "turn:relay" ∷ [];
  turn_secret = "secret";
}

abbrev pub idle : Service
idle = service []

abbrev pub waiting : Service
waiting = service (("s", session_in pending []) ∷ [])

abbrev pub viewing : Service
viewing = service (("s", session_in active ("view" ∷ [])) ∷ [])

abbrev pub signed : String → Request
signed nonce = record { method = "POST"; path = "/v1/x"; nonce = nonce; signature = "signed" }

device-keyed : Every (λ k d. d.id ≡ k) idle.devices
unfolding lookup
device-keyed k d h = ground (arith, eq_iff "laptop" k, eq_iff "desktop" k)

session-IsSound :
    (state : SessionState) (granted : List String)
    → subset granted ("view" ∷ "mouse" ∷ []) ≡ true
    → (is_active state ≡ false → granted ≡ [])
    → IsSound idle.devices "s" (session_in state granted)
unfolding lookup present valid_permissions all_new contains
session-IsSound state granted within rests = record {
  keyed = refl;
  known = refl;
  apart = λ h. ground (arith, eq_iff "laptop" "desktop");
  valid = refl;
  within = within;
  idle = rests;
}

service-Inv :
    (state : SessionState) (granted : List String)
    → IsSound idle.devices "s" (session_in state granted)
    → Inv (service (("s", session_in state granted) ∷ []))
unfolding lookup insert
service-Inv state granted sound = record {
  sound = Every-insert (IsSound idle.devices) "s" (session_in state granted) [] (λ k v h. cc) sound;
  exclusive =
      IsExclusive-insert "s" (session_in state granted) [] (λ j k u v h. cc) (λ c j u h. cc);
  devices_keyed = device-keyed;
}

pub waiting-Inv : Inv waiting
waiting-Inv =
    service-Inv pending [] (session-IsSound pending [] (unfold subset in refl) (λ h. refl))

pub viewing-Inv : Inv viewing
viewing-Inv =
    service-Inv active ("view" ∷ [])
      (session-IsSound active ("view" ∷ []) (unfold subset contains in refl) (λ h. cc))
