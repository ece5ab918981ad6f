-- ===== src/Store/Postgres/Rows.antt =====
-- The `Scan` calls of server/internal/store/postgres.go: a row of columns read into a record, `none`
-- where it does not fit.
use mathlib.Core.Option
use multi_desk.Base.{ℕ, String, Option, none, some, List, [], ◌∷◌, Bool}
use multi_desk.Store.Types.{
  Account, RefreshToken, Device, Session, AuditEvent, SecondFactor, EmailToken, Organization,
  Membership, OrgInvite, Workflow, WorkflowRun,
}
use multi_desk.Store.Postgres.Database.{
  Value, text, bytes, number, flag, instant, texts, pairs, null,
}
use multi_desk.Store.Postgres.Base64.{to_base64}
use multi_desk.Platform.Session.{present}

-- a nullable column read through a pointer
unfoldable pub time? : Value → Option (Option ℕ)
time? null = some none
time? (instant t) = some (some t)
time? _ = none

unfoldable pub text? : Value → Option (Option String)
text? null = some none
text? (text s) = some (some s)
text? _ = none

-- a nullable column as an argument
unfoldable pub of_time : Option ℕ → Value
of_time none = null
of_time (some t) = instant t

unfoldable pub of_text : Option String → Value
of_text none = null
of_text (some s) = text s

-- `scanAccount` but for the decoding of the password hash, which is hexadecimal in the database
unfoldable pub account_row : (String → Option (List ℕ)) → List Value → Option Account
account_row unhex
      (text id
        ∷ text email
        ∷ text name
        ∷ text hash
        ∷ number version
        ∷ verified
        ∷ instant created
        ∷ []) =
    elim (time? verified) [
      | none ↦ none
      | some v ↦
          Option.map
            (λ raw. record {
              id = id;
              email = email;
              name = name;
              password_hash = raw;
              token_version = version;
              email_verified_at = v;
              created_at = created;
            })
            (unhex hash)
    ]
account_row unhex _ = none

unfoldable pub token_row : List Value → Option RefreshToken
token_row (text hash ∷ text user ∷ text family ∷ instant expires ∷ used ∷ revoked ∷ []) =
    elim (time? used) [
      | none ↦ none
      | some u ↦
          Option.map
            (λ r. record {
              hash = hash;
              user_id = user;
              family_id = family;
              expires_at = expires;
              used_at = u;
              revoked_at = r;
            })
            (time? revoked)
    ]
token_row _ = none

-- a row of `scanDevice` and `collectDevices`; the fields that are not read keep their zero values
unfoldable pub device_row : List Value → Option Device
device_row
      (text id ∷ text name ∷ text owner ∷ bytes key ∷ text os ∷ revoked ∷ instant created ∷ []) =
    Option.map
      (λ r. record {
        id = id;
        name = name;
        owner_id = owner;
        organization_id = none;
        public_key = to_base64 key;
        os = os;
        last_seen = 0;
        revoked_at = r;
        revoked = present r;
        online = Bool.false;
        unattended = Bool.false;
        created_at = created;
      })
      (time? revoked)
device_row _ = none

-- a row of `scanSession` and `collectSessions`; the public keys keep their zero values
unfoldable pub session_row : List Value → Option Session
session_row
      (text id
        ∷ text operator
        ∷ text source
        ∷ text target
        ∷ text state
        ∷ texts requested
        ∷ texts granted
        ∷ number epoch
        ∷ instant created
        ∷ instant expires
        ∷ ended
        ∷ flag consent
        ∷ flag chat
        ∷ number notes
        ∷ []) =
    Option.map
      (λ e. record {
        id = id;
        operator_id = operator;
        source_device_id = source;
        target_device_id = target;
        state = state;
        requested_perms = requested;
        granted_perms = granted;
        epoch = epoch;
        source_public_key = "";
        target_public_key = "";
        recording_consent = consent;
        chat_enabled = chat;
        notes_count = notes;
        created_at = created;
        expires_at = expires;
        ended_at = e;
      })
      (time? ended)
session_row _ = none

unfoldable pub audit_row : List Value → Option AuditEvent
audit_row
      (text id
        ∷ text actor
        ∷ org
        ∷ text action
        ∷ text resource
        ∷ pairs metadata
        ∷ instant at
        ∷ []) =
    Option.map
      (λ o. record {
        id = id;
        actor_id = actor;
        organization_id = o;
        action = action;
        resource_id = resource;
        metadata = metadata;
        occurred_at = at;
      })
      (text? org)
audit_row _ = none

unfoldable pub factor_row : List Value → Option SecondFactor
factor_row (text id ∷ text user ∷ text kind ∷ bytes secret ∷ verified ∷ []) =
    Option.map
      (λ v. record {
        id = id;
        user_id = user;
        kind = kind;
        encrypted_secret = secret;
        verified_at = v;
      })
      (time? verified)
factor_row _ = none

unfoldable pub email_token_row : List Value → Option EmailToken
email_token_row (text hash ∷ text user ∷ text kind ∷ instant expires ∷ []) =
    some (record { token_hash = hash; user_id = user; kind = kind; expires_at = expires })
email_token_row _ = none

unfoldable pub organization_row : List Value → Option Organization
organization_row (text id ∷ text name ∷ text owner ∷ instant created ∷ []) =
    some (record { id = id; name = name; owner_id = owner; created_at = created })
organization_row _ = none

unfoldable pub membership_row : List Value → Option Membership
membership_row (text org ∷ text user ∷ text role ∷ expires ∷ []) =
    Option.map (λ e. record { organization_id = org; user_id = user; role = role; expires_at = e })
      (time? expires)
membership_row _ = none

unfoldable pub invite_row : List Value → Option OrgInvite
invite_row
      (text id ∷ text org ∷ text email ∷ text role ∷ text hash ∷ instant expires ∷ accepted ∷ []) =
    Option.map
      (λ a. record {
        id = id;
        org_id = org;
        email = email;
        role = role;
        token_hash = hash;
        expires_at = expires;
        accepted_at = a;
      })
      (time? accepted)
invite_row _ = none

unfoldable pub workflow_row : List Value → Option Workflow
workflow_row
      (text id
        ∷ text org
        ∷ text name
        ∷ bytes definition
        ∷ texts required
        ∷ flag enabled
        ∷ text creator
        ∷ []) =
    some (record {
      id = id;
      organization_id = org;
      name = name;
      definition = definition;
      required_permissions = required;
      enabled = enabled;
      created_by = creator;
    })
workflow_row _ = none

unfoldable pub run_row : List Value → Option WorkflowRun
run_row (text id ∷ text workflow ∷ text session ∷ approved ∷ text state ∷ started ∷ finished ∷ []) =
    elim (text? approved) [
      | none ↦ none
      | some a ↦ elim (time? started) [
        | none ↦ none
        | some s ↦
            Option.map
              (λ f. record {
                id = id;
                workflow_id = workflow;
                session_id = session;
                approved_by = a;
                state = state;
                started_at = s;
                finished_at = f;
              })
              (time? finished)
      ]
    ]
run_row _ = none
