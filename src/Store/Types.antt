-- ===== src/Store/Types.antt =====
-- The domain types and errors of server/internal/store/store.go. Byte slices are lists of numbers,
-- a pointer to a time or a text is an option, and a time is in nanoseconds since Go's zero time.
use multi_desk.Base.{ℕ, String, Option, List, Bool, ◌≡◌, refl, ◌⊎◌, inl, inr}

-- `ErrNotFound`, `ErrConflict`, the panic of a read through a nil pointer, and any other error with its
-- text.
pub data Error : Type 0 where
  not_found conflict nil_pointer : Error
  other : String → Error

pub data Result (A : Type 0) : Type 0 where
  ok : A → Result A
  err : Error → Result A

pub Result-cases :
    {A : Type 0} (r : Result A) → ((e : Error) × (r ≡ err e)) ⊎ ((a : A) × (r ≡ ok a))
Result-cases (ok a) = inr (a, refl)
Result-cases (err e) = inl (e, refl)

pub ok-injective : {A : Type 0} (a b : A) → ok a ≡ ok b → a ≡ b
ok-injective a b h = cc

infixl 5 ◌>>=◌
abbrev pub ◌>>=◌ : {A B : Type 0} → Result A → (A → Result B) → Result B
ok a >>= f = f a
err e >>= f = err e

-- a value that the map must hold
abbrev pub or_not_found : {A : Type 0} → Option A → Result A
or_not_found Option.none = err not_found
or_not_found (Option.some a) = ok a

pub record Account : Type 0 where
  pub id : String
  pub email : String
  pub name : String
  pub password_hash : List ℕ
  pub token_version : ℕ
  pub email_verified_at : Option ℕ
  pub created_at : ℕ

pub record RefreshToken : Type 0 where
  pub hash : String
  pub user_id : String
  pub family_id : String
  pub expires_at : ℕ
  pub used_at : Option ℕ
  pub revoked_at : Option ℕ

pub record Device : Type 0 where
  pub id : String
  pub name : String
  pub owner_id : String
  pub organization_id : Option String
  pub public_key : String
  pub os : String
  pub last_seen : ℕ
  pub revoked_at : Option ℕ
  pub revoked : Bool
  pub online : Bool
  pub unattended : Bool
  pub created_at : ℕ

pub record Session : Type 0 where
  pub id : String
  pub operator_id : String
  pub source_device_id : String
  pub target_device_id : String
  pub state : String
  pub requested_perms : List String
  pub granted_perms : List String
  pub epoch : ℕ
  pub source_public_key : String
  pub target_public_key : String
  pub recording_consent : Bool
  pub chat_enabled : Bool
  pub notes_count : ℕ
  pub created_at : ℕ
  pub expires_at : ℕ
  pub ended_at : Option ℕ

-- The metadata, a map to values of any type that the server never fills, is kept as pairs of texts.
pub record AuditEvent : Type 0 where
  pub id : String
  pub actor_id : String
  pub organization_id : Option String
  pub action : String
  pub resource_id : String
  pub metadata : List (String × String)
  pub occurred_at : ℕ

pub record SecondFactor : Type 0 where
  pub id : String
  pub user_id : String
  pub kind : String
  pub encrypted_secret : List ℕ
  pub verified_at : Option ℕ

pub record EmailToken : Type 0 where
  pub token_hash : String
  pub user_id : String
  pub kind : String
  pub expires_at : ℕ

pub record Organization : Type 0 where
  pub id : String
  pub name : String
  pub owner_id : String
  pub created_at : ℕ

pub record Membership : Type 0 where
  pub organization_id : String
  pub user_id : String
  pub role : String
  pub expires_at : Option ℕ

pub record OrgInvite : Type 0 where
  pub id : String
  pub org_id : String
  pub email : String
  pub role : String
  pub token_hash : String
  pub expires_at : ℕ
  pub accepted_at : Option ℕ

pub record Workflow : Type 0 where
  pub id : String
  pub organization_id : String
  pub name : String
  pub definition : List ℕ
  pub required_permissions : List String
  pub enabled : Bool
  pub created_by : String

pub record WorkflowRun : Type 0 where
  pub id : String
  pub workflow_id : String
  pub session_id : String
  pub approved_by : Option String
  pub state : String
  pub started_at : Option ℕ
  pub finished_at : Option ℕ

pub record TransferRecord : Type 0 where
  pub id : String
  pub session_id : String
  pub basename : String
  pub size_bytes : ℕ
  pub sha256 : List ℕ
  pub state : String
  pub created_at : ℕ
