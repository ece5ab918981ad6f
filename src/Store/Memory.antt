-- ===== src/Store/Memory.antt =====
-- `MemoryStore` of server/internal/store/memory.go: its maps, and an empty store. Each method runs
-- under the store's lock, so it is a function of the state. The methods stand in the modules below.
pub mod Accounts
pub mod Devices
pub mod Sessions
pub mod Log
pub mod Factors
pub mod Teams
pub mod Workflows
pub mod Backend
use multi_desk.Base.{ℕ, String, List, [], Option, none, some, Bool, true, false}
use multi_desk.Dict.{Dict, lookup, insert}
use multi_desk.Store.Types.{
  Account, RefreshToken, Device, Session, AuditEvent, SecondFactor, EmailToken, Organization,
  Membership, OrgInvite, Workflow, WorkflowRun, TransferRecord, Result, ok, err, not_found,
  conflict,
}

pub record Memory : Type 0 where
  pub accounts : Dict Account
  pub emails : Dict String
  pub refresh : Dict RefreshToken
  pub devices : Dict Device
  pub sessions : Dict Session
  pub audit : List AuditEvent
  pub second_factor : Dict SecondFactor
  pub email_tokens : Dict EmailToken
  pub orgs : Dict Organization
  pub memberships : Dict Membership
  pub invites : Dict OrgInvite
  pub workflows : Dict Workflow
  pub wf_runs : Dict WorkflowRun
  pub transfers : Dict TransferRecord
  pub online : Dict ℕ

-- `NewMemoryStore()`
unfoldable pub new_memory : Memory
new_memory = record {
  accounts = [];
  emails = [];
  refresh = [];
  devices = [];
  sessions = [];
  audit = [];
  second_factor = [];
  email_tokens = [];
  orgs = [];
  memberships = [];
  invites = [];
  workflows = [];
  wf_runs = [];
  transfers = [];
  online = [];
}

module _ {V : Type 0} where
  -- `if _, exists := m[k]; exists { return ErrConflict }; m[k] = v`
  unfoldable pub create : String → V → Dict V → Result (Dict V)
  create k v m = elim (lookup k m) [ some old ↦ err conflict | none ↦ ok (insert k v m) ]

  -- `if _, ok := m[k]; !ok { return ErrNotFound }; m[k] = v`
  unfoldable pub replace : String → V → Dict V → Result (Dict V)
  replace k v m = elim (lookup k m) [ some old ↦ ok (insert k v m) | none ↦ err not_found ]

  -- `v, ok := m[k]; if !ok { return ErrNotFound }; *v = f(*v)`
  unfoldable pub modify : (V → V) → String → Dict V → Result (Dict V)
  modify f k m = elim (lookup k m) [ some old ↦ ok (insert k (f old) m) | none ↦ err not_found ]
