-- ===== src/Config/Tables.antt =====
-- The rows that the services of a tenant's configuration read and write
-- (backend/enterprise_rag/infrastructure/orm.py, domain/tenant_config.py), and the code outside the
-- repository that they call. Columns that the services only carry along are left out.
use Prim.Native.String.{String}
use llama_index_rag.Base.{Key, Time, ℕ, Bool, Option, List}
use llama_index_rag.Domain.Lifecycle.{TenantState}
use llama_index_rag.Domain.Message.{Value, Payload}
use llama_index_rag.Outbox.{OutboxRecord}
use llama_index_rag.Audit.{Body, AuditEvent}

pub data QuotaResource : Type 0 where
  members groups knowledge_spaces documents stored_bytes provider_units : QuotaResource

pub record DurableQuotas : Type 0 where
  pub members : ℕ
  pub groups : ℕ
  pub knowledge_spaces : ℕ
  pub documents : ℕ
  pub stored_bytes : ℕ
  pub provider_units : ℕ
  pub warning_percent : ℕ

-- `allowed_profile_ids` stands in `provider_policy`, `default_rag_policy_ids` is the list of the
-- dictionary's values, and `settings` is all the rest.
pub record TenantConfiguration : Type 0 where
  pub schema_version : ℕ
  pub quotas : DurableQuotas
  pub secret_binding_ids : List Key
  pub allowed_profile_ids : List Key
  pub default_rag_policy_ids : List Key
  pub settings : Payload

pub record TenantRecord : Type 0 where
  pub id : Key
  pub name : String
  pub state : TenantState
  pub state_reason : String
  pub suspended_at : Option Time
  pub archived_at : Option Time
  pub revision : ℕ
  pub acl_epoch : ℕ
  pub active_config_version_id : Option Key

-- The states of a version.
pub data VersionState : Type 0 where
  draft active superseded invalid : VersionState

pub record ConfigVersion : Type 0 where
  pub id : Key
  pub tenant_id : Key
  pub version : ℕ
  pub schema_version : ℕ
  pub state : VersionState
  pub config : Payload
  pub config_hash : Key
  pub previous_version_id : Option Key
  pub created_by_subject : Key
  pub activated_at : Option Time

pub record SecretBinding : Type 0 where
  pub id : Key
  pub tenant_id : Key
  pub valid : Bool

pub record ProviderProfile : Type 0 where
  pub id : Key
  pub tenant_id : Key
  pub enabled : Bool

-- `active` says that its state is "active".
pub record PolicyVersion : Type 0 where
  pub id : Key
  pub tenant_id : Key
  pub active : Bool

-- The tables, and the tenants whose entries the coordination store was told to forget.
pub record Store : Type 0 where
  pub tenants : List TenantRecord
  pub versions : List ConfigVersion
  pub secret_bindings : List SecretBinding
  pub provider_profiles : List ProviderProfile
  pub policies : List PolicyVersion
  pub audit : List AuditEvent
  pub outbox : List OutboxRecord
  pub invalidated : List Key

-- What is computed outside the repository: `TenantConfiguration.model_validate` and `model_dump`
-- (the library pydantic on the declared fields), `str`, the hashes, and the numbers that stand for
-- texts and for the details of an audit event.
pub record Outside : Type 0 where
  pub model_validate : Payload → Option TenantConfiguration
  pub model_dump : TenantConfiguration → Payload
  pub str : Value → Key
  pub stable_json_hash : Payload → Key
  pub event_hash : Body → Key
  pub text : String → Key
  pub details : Payload → Key
  pub coordinated : Bool

-- What one call is given: its correlation, the identifiers from `new_id`, and the time.
pub record Call : Type 0 where
  pub correlation_id : Key
  pub version_id : Key
  pub audit_id : Key
  pub outbox_id : Key
  pub now : Time
