-- ===== src/Platform/Tests.antt =====
-- Examples of the platform's changes of a tenant.
use Prim.Native.String.{String}
use llama_index_rag.Base.{
  Key, ◌≡◌, refl, some, none, [], ◌∷◌, map, ok, err, Error, app_error, tenant_not_active,
}
use llama_index_rag.Domain.Lifecycle.{
  TenantState, TenantState-discrete, require_tenant_transition, tenant_state_transitions,
}
use llama_index_rag.Domain.Message.{get as get_entry}
use llama_index_rag.Access.Identity.{AuthenticatedSubject, platform_administrator}
use llama_index_rag.Access.Permission.{require_platform_permission, platform_permission_matrix}
use llama_index_rag.Access.Context.{Database, resolve_tenant_context}
use llama_index_rag.Outbox.{add}
use llama_index_rag.Config.{Store}
use llama_index_rag.Config.Sample.{outside, call, store}
use llama_index_rag.Platform.{locked, record_lifecycle, transition}
use llama_index_rag.Platform.Moves.{seen, suspended_tenant_refuses}
use llama_index_rag.Platform.Revisions.{
  PlatformRequest, moves, renames, perform, second_change_refused,
}

abbrev actor : AuthenticatedSubject
actor = record {
  subject_id = 99;
  platform_roles = platform_administrator ∷ [];
  tenant_hint = none;
  token_id = none;
}

abbrev login : AuthenticatedSubject
login = record { subject_id = 70; platform_roles = []; tenant_hint = some 1; token_id = none }

abbrev strip : String → String
strip s = s

abbrev same_key : Key → Key
same_key k = k

abbrev suspend : PlatformRequest
suspend = moves call actor 1 TenantState.suspended 4 "overdue"

abbrev rename : PlatformRequest
rename = renames call actor 1 4 (some "second")

abbrev suspended : Store
unfolding perform transition locked require_tenant_transition tenant_state_transitions
    TenantState-discrete record_lifecycle add get_entry require_platform_permission
    platform_permission_matrix
suspended = elim (perform outside strip suspend store) [ err _ ↦ store | ok after ↦ after ]

suspends : perform outside strip suspend store ≡ ok suspended
unfolding suspended perform transition locked require_tenant_transition tenant_state_transitions
    TenantState-discrete record_lifecycle add get_entry require_platform_permission
    platform_permission_matrix
suspends = refl

second_change_refused_example : (e : Error) × (perform outside strip rename suspended ≡ err e)
second_change_refused_example =
    second_change_refused outside strip suspend rename store suspends refl refl

abbrev nobody : Database
nobody = record {
  tenants = [];
  principals = [];
  memberships = [];
  groups = [];
  principal_groups = [];
  group_roles = [];
}

suspended_tenant_refuses_example :
    resolve_tenant_context same_key
      (record nobody { tenants = map seen suspended.tenants })
      login
      none
    ≡ err (app_error tenant_not_active 423)
unfolding perform
suspended_tenant_refuses_example =
    suspended_tenant_refuses outside strip call actor 1 4 "overdue" store same_key nobody login none
      suspends refl refl
