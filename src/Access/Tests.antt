-- ===== src/Access/Tests.antt =====
-- Examples of permissions and of logins.
use llama_index_rag.Base.{
  Key, ◌≡◌, ◌≢◌, refl, List, [], ◌∷◌, none, some, is_none, not, keep, ◌==◌, All, ok, err, app_error,
  forbidden, require, true, false, sorted_set,
}
use llama_index_rag.Domain.Lifecycle.{TenantState, MembershipState}
use llama_index_rag.Access.Identity.{
  Role, Role-discrete, administrator, editor, reader, quality, parse_role, AuthenticatedSubject,
  RequestIdentity,
}
use llama_index_rag.Access.Permission.{
  allowed_for, tenant_permission_matrix, require_tenant_permission,
}
use llama_index_rag.Access.Permission.Denial.{
  permission_monotone, administrative, administrative_denied, administrator_granted,
}
use llama_index_rag.Access.Context.{
  Tenant, Database, first_text, is_active, effective_roles, resolve_member, resolve_tenant_context,
}
use llama_index_rag.Access.Context.Isolation.{own_rows, resolve_isolated, inactive_member_refused}

abbrev identity_with : List Role → RequestIdentity
identity_with roles = record {
  tenant_id = 1;
  user_id = 2;
  groups = [];
  roles = roles;
  token_id = none;
  principal_id = some 3;
  membership_id = some 4;
  authorization_epoch = 1;
  configuration_version_id = none;
  tenant_state = TenantState.active;
}

reader_queries : require_tenant_permission (identity_with (reader ∷ [])) "query.execute" ≡ ok tt
unfolding require_tenant_permission tenant_permission_matrix Role-discrete
reader_queries = refl

permission_monotone_test :
    require_tenant_permission (identity_with (reader ∷ quality ∷ [])) "query.execute" ≡ ok tt
permission_monotone_test =
    permission_monotone (identity_with (reader ∷ [])) (quality ∷ []) "query.execute" reader_queries

no_administrator : All (λ r. r ≢ administrator) (reader ∷ editor ∷ [])
no_administrator = ((λ e. cc), ((λ e. cc), tt))

administrative_denied_example :
    All
      (λ operation.
        require_tenant_permission (identity_with (reader ∷ editor ∷ [])) operation
        ≡ err (app_error forbidden 403))
      administrative
administrative_denied_example =
    administrative_denied (identity_with (reader ∷ editor ∷ [])) no_administrator

administrator_granted_test :
    require_tenant_permission (identity_with (administrator ∷ [])) "audit.read"
    ≡ require
        (not (is_none (allowed_for tenant_permission_matrix "audit.read")))
        (app_error forbidden 403)
administrator_granted_test =
    administrator_granted (identity_with (administrator ∷ [])) [] "audit.read" refl

-- Two tenants with the same login: a reader of tenant 1, whose membership of tenant 2 is suspended.
abbrev two_tenants : Database
two_tenants = record {
  tenants =
      record { id = 1; state = TenantState.active; acl_epoch = 5; active_config_version_id = none }
      ∷ record {
        id = 2;
        state = TenantState.active;
        acl_epoch = 6;
        active_config_version_id = none;
      }
      ∷ [];
  principals =
      record {
        id = 11;
        tenant_id = 1;
        external_id = 100;
        active = true;
        revision = 1;
        state = MembershipState.active;
      }
      ∷ record {
        id = 12;
        tenant_id = 2;
        external_id = 100;
        active = true;
        revision = 1;
        state = MembershipState.active;
      }
      ∷ [];
  memberships =
      record {
        id = 21;
        tenant_id = 1;
        principal_id = 11;
        state = MembershipState.active;
        revision = 1;
        state_reason = "";
        direct_roles = "reader" ∷ [];
      }
      ∷ record {
        id = 22;
        tenant_id = 2;
        principal_id = 12;
        state = MembershipState.suspended;
        revision = 1;
        state_reason = "";
        direct_roles = "administrator" ∷ [];
      }
      ∷ [];
  groups =
      record {
        id = 31;
        tenant_id = 1;
        external_id = 200;
        revision = 1;
        state = MembershipState.active;
      }
      ∷ [];
  principal_groups =
      record {
        tenant_id = 1;
        group_id = 31;
        principal_id = 11;
        revision = 1;
        state = MembershipState.active;
      }
      ∷ [];
  group_roles =
      record {
        tenant_id = 1;
        group_id = 31;
        id = 41;
        revision = 1;
        role = "quality";
        state = MembershipState.active;
      }
      ∷ [];
}

abbrev login : AuthenticatedSubject
login = record { subject_id = 100; platform_roles = []; tenant_hint = some 1; token_id = none }

abbrev unpadded : Key → Key
unpadded k = k

-- The login enters tenant 1 with its direct role and the role of its group.
enters_tenant :
    resolve_tenant_context unpadded two_tenants login none
    ≡ ok (record {
      tenant_id = 1;
      user_id = 100;
      groups = sorted_set (200 ∷ []);
      roles = reader ∷ quality ∷ [];
      token_id = none;
      principal_id = some 11;
      membership_id = some 21;
      authorization_epoch = 5;
      configuration_version_id = none;
      tenant_state = TenantState.active;
    })
unfolding resolve_tenant_context resolve_member effective_roles parse_role
enters_tenant = refl

resolve_isolated_example :
    resolve_tenant_context unpadded
      (own_rows (unpadded (first_text none login.tenant_hint)) two_tenants)
      login
      none
    ≡ resolve_tenant_context unpadded two_tenants login none
resolve_isolated_example = resolve_isolated two_tenants login unpadded none

abbrev second_tenant : Tenant
second_tenant = record {
  id = 2;
  state = TenantState.active;
  acl_epoch = 6;
  active_config_version_id = none;
}

all_suspended :
    All
      (λ m. is_active m.state ≡ false)
      (keep (λ m. m.tenant_id == second_tenant.id) two_tenants.memberships)
all_suspended = (refl, tt)

inactive_member_refused_test :
    resolve_member two_tenants login second_tenant ≢ ok (identity_with (administrator ∷ []))
inactive_member_refused_test =
    inactive_member_refused two_tenants login second_tenant (identity_with (administrator ∷ []))
      all_suspended
