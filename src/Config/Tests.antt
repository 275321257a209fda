-- ===== src/Config/Tests.antt =====
-- Examples of configurations.
use llama_index_rag.Base.{
  ◌≡◌, refl, true, some, List, [], ◌∷◌, ok, err, Error, sorted_set, get_elem?,
}
use llama_index_rag.Domain.Message.{get}
use llama_index_rag.Access.Identity.{Role-discrete}
use llama_index_rag.Outbox.{add}
use llama_index_rag.Access.Permission.{require_tenant_permission, tenant_permission_matrix}
use llama_index_rag.Config.{
  TenantRecord, ConfigVersion, VersionState, Store, load_active, create_version, locked_tenant,
  validate_references, record_change, activated_tables, activate, rollback,
}
use llama_index_rag.Config.Sample.{outside, identity, call, config, store}
use llama_index_rag.Config.Active.{IsSettled}
use llama_index_rag.Config.Requests.{
  Request, creates, rolls_back, serve, serve_all, one_version_active, second_request_refused,
}
use llama_index_rag.Config.Reading.{created_configuration_is_active}

abbrev create : Request
create = creates call identity [] 4 true

abbrev stale : Request
stale = rolls_back (record call { version_id = 52 }) identity 50 4

-- The store once the version 51 is active.
abbrev after : Store
unfolding serve create_version locked_tenant validate_references activate require_tenant_permission
    tenant_permission_matrix Role-discrete sorted_set add get
after = elim (serve outside create store) [ err _ ↦ store | ok made ↦ made ]

store-IsSettled : IsSettled store
unfolding IsSettled
store-IsSettled = ((λ active. refl), tt)

served : serve outside create store ≡ ok after
unfolding serve create_version locked_tenant validate_references activate require_tenant_permission
    tenant_permission_matrix Role-discrete sorted_set add get
served = refl

second_request_refused_example : (e : Error) × (serve outside stale after ≡ err e)
second_request_refused_example = second_request_refused outside create stale store served refl refl

created_configuration_is_active_example :
    (t : TenantRecord) × ((v : ConfigVersion) × ((load_active outside after 1 ≡ ok (t, v, config))
        × (v.id ≡ 51)))
unfolding create_version serve after
created_configuration_is_active_example =
    created_configuration_is_active outside call identity [] 4 store config refl refl served

-- Two versions are made active one after the other, and one request is refused.
abbrev requests : List Request
requests = create ∷ stale ∷ rolls_back (record call { version_id = 53 }) identity 50 5 ∷ []

abbrev rolled_back : ConfigVersion
rolled_back = record {
  id = 53;
  tenant_id = 1;
  version = 3;
  schema_version = 1;
  state = VersionState.active;
  config = [];
  config_hash = 0;
  previous_version_id = some 51;
  created_by_subject = 7;
  activated_at = some 1000;
}

last_is_rolled_back : get_elem? (serve_all outside requests store).versions 0 ≡ some rolled_back
unfolding serve serve_all create_version rollback locked_tenant validate_references activate
    require_tenant_permission tenant_permission_matrix Role-discrete sorted_set add get
    record_change activated_tables
last_is_rolled_back = refl

one_version_active_example : rolled_back.id ≡ rolled_back.id
one_version_active_example =
    one_version_active outside requests store store-IsSettled 0 0 rolled_back rolled_back
      last_is_rolled_back last_is_rolled_back refl refl refl
