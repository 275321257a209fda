-- ===== src/Config/Sample.antt =====
-- A tenant and its configuration, for the examples.
use llama_index_rag.Base.{Key, ◌∷◌, [], some, none, true, length}
use llama_index_rag.Domain.Lifecycle.{TenantState}
use llama_index_rag.Domain.Message.{Value, word}
use llama_index_rag.Access.Identity.{RequestIdentity, administrator}
use llama_index_rag.Config.{
  TenantRecord, ConfigVersion, VersionState, Store, Outside, Call, TenantConfiguration,
  DurableQuotas,
}

abbrev pub quotas : DurableQuotas
quotas = record {
  members = 10;
  groups = 5;
  knowledge_spaces = 3;
  documents = 100;
  stored_bytes = 1000;
  provider_units = 0;
  warning_percent = 80;
}

abbrev pub config : TenantConfiguration
config = record {
  schema_version = 1;
  quotas = quotas;
  secret_binding_ids = [];
  allowed_profile_ids = [];
  default_rag_policy_ids = [];
  settings = [];
}

abbrev pub text_of : Value → Key
text_of (word k) = k
text_of _ = 0

-- The empty dictionary is the dump of the one configuration that is valid.
abbrev pub outside : Outside
outside = record {
  model_validate = λ raw. elim raw [ [] ↦ some config | _ ∷ _ ↦ none ];
  model_dump = λ _. [];
  str = text_of;
  stable_json_hash = λ raw. length raw;
  event_hash = λ body. body.created_at;
  text = λ _. 1;
  details = λ raw. length raw;
  coordinated = true;
}

abbrev pub identity : RequestIdentity
identity = record {
  tenant_id = 1;
  user_id = 7;
  groups = [];
  roles = administrator ∷ [];
  token_id = none;
  principal_id = some 7;
  membership_id = some 8;
  authorization_epoch = 1;
  configuration_version_id = some 50;
  tenant_state = TenantState.active;
}

abbrev pub call : Call
call = record { correlation_id = 90; version_id = 51; audit_id = 91; outbox_id = 92; now = 1000 }

abbrev pub tenant : TenantRecord
tenant = record {
  id = 1;
  name = "first";
  state = TenantState.active;
  state_reason = "";
  suspended_at = none;
  archived_at = none;
  revision = 4;
  acl_epoch = 1;
  active_config_version_id = some 50;
}

abbrev pub version : ConfigVersion
version = record {
  id = 50;
  tenant_id = 1;
  version = 1;
  schema_version = 1;
  state = VersionState.active;
  config = [];
  config_hash = 0;
  previous_version_id = none;
  created_by_subject = 7;
  activated_at = some 10;
}

abbrev pub store : Store
store = record {
  tenants = tenant ∷ [];
  versions = version ∷ [];
  secret_bindings = [];
  provider_profiles = [];
  policies = [];
  audit = [];
  outbox = [];
  invalidated = [];
}
