-- ===== src/Platform/State.antt =====
-- The state of server/internal/platform/service.go and auth.go: the structs `Device`, `Session`,
-- `Audit`, `challenge`, `rate`, `peer`, `account`, `refreshToken`, `tokens` and `Service`. The
-- fields that every notification and every audit event change are grouped as `Wire`.
use multi_desk.Base.{ℕ, String, Option, List, Bool}
use multi_desk.Dict.{Dict}
use multi_desk.Store.Types.{Organization, Membership, Workflow, WorkflowRun}

-- The values that `Session.State` takes.
pub data SessionState : Type 0 where
  pending active rejected closed expired revoked : SessionState

abbrev pub state_name : SessionState → String
state_name pending = "pending"
state_name active = "active"
state_name rejected = "rejected"
state_name closed = "closed"
state_name expired = "expired"
state_name revoked = "revoked"

pub record Device : Type 0 where
  pub id : String
  pub name : String
  pub owner_id : String
  pub public_key : String
  pub os : String
  pub device_type : String
  pub last_seen : ℕ
  pub revoked : Bool
  pub online : Bool
  pub unattended : Bool

pub record Session : Type 0 where
  pub id : String
  pub operator_id : String
  pub source_id : String
  pub target_id : String
  pub state : SessionState
  pub requested : List String
  pub granted : List String
  pub created : ℕ
  pub expires : ℕ
  pub epoch : ℕ
  pub source_public_key : String
  pub target_public_key : String

pub record Audit : Type 0 where
  pub id : String
  pub actor : String
  pub action : String
  pub resource : String
  pub at : ℕ

pub record Challenge : Type 0 where
  pub user : String
  pub expires : ℕ

pub record Rate : Type 0 where
  pub count : ℕ
  pub until : ℕ

pub record Password : Type 0 where
  pub salt : List ℕ
  pub hash : List ℕ

pub record Account : Type 0 where
  pub id : String
  pub email : String
  pub name : String
  pub password : Password
  pub version : ℕ

pub record RefreshToken : Type 0 where
  pub user_id : String
  pub family : String
  pub expires : ℕ
  pub used : Bool

-- What is written to a peer's channel: a session as it was when it was marshalled, or text that
-- another device sent.
pub data Message : Type 0 where
  session_updated : Session → Message
  session_requested : Session → String → Message
  relayed : String → Message
  target_offline : String → Message

-- `socket` is the identity of the connection, `none` where a peer has none.
pub record Peer : Type 0 where
  pub socket : Option ℕ
  pub send : List Message

-- `draws` counts the reads of the random source; `closing` lists the sockets that were told to
-- close, with the reason.
pub record Wire : Type 0 where
  pub peers : Dict Peer
  pub audit : List Audit
  pub draws : ℕ
  pub closing : List (Option ℕ × String)

pub record Service : Type 0 where
  pub key : List ℕ
  pub wire : Wire
  pub accounts : Dict Account
  pub emails : Dict String
  pub refresh : Dict RefreshToken
  pub devices : Dict Device
  pub sessions : Dict Session
  pub challenges : Dict Challenge
  pub rates : Dict Rate
  pub auth_slots : ℕ
  pub ice_urls : List String
  pub turn_secret : String

pub record Tokens : Type 0 where
  pub access_token : String
  pub refresh_token : String
  pub expires_in : ℕ
  pub token_type : String

-- The bodies that the handlers send. The confidence of an analysis is in percent.
pub data Body : Type 0 where
  done : Body
  session : Session → Body
  sessions : List Session → Body
  device : Device → Body
  devices : List Device → Body
  found_device : (id name device_type : String) → (online : Bool) → Body
  issued : Tokens → Body
  profile : (id name email : String) → Body
  nonce : String → Body
  events : List Audit → Body
  ice : List (String × Option (String × String)) → (expires_at : ℕ) → Body
  told : String → Body
  told_for : String → (expires_in : ℕ) → Body
  set_up : (uri secret_key : String) (backup_codes : List String) → Body
  verified : Body
  disabled : Body
  organization : Organization → Body
  organizations : List Organization → Body
  members : List Membership → Body
  invited : (id url : String) → Body
  workflow : Workflow → Body
  workflows : List Workflow → Body
  workflow_run : WorkflowRun → Body
  analysis : (text : String) (steps : List String) (confidence : ℕ) (created_at : String) → Body

-- `fail(w, status, message)`, `sendJSON(w, status, body)`, or a panic of the handler, which the HTTP
-- server recovers: what the handler had changed stays changed.
pub data Reply : Type 0 where
  failed : ℕ → String → Reply
  sent : ℕ → Body → Reply
  crashed : Reply

-- The outcome of `decode`: the reply is sent where the body is no request, or more than one.
pub data Decoded (Q : Type 0) : Type 0 where
  malformed : Decoded Q
  trailing : Decoded Q
  body : Q → Decoded Q

-- The parts of a request that `proof` reads.
pub record Request : Type 0 where
  pub method : String
  pub path : String
  pub nonce : String
  pub signature : String
