-- ===== src/Members/Tests.antt =====
-- Examples of members, invitations and recovery.
use llama_index_rag.Base.{
  Key, suc, ◌+◌, ◌≡◌, refl, true, false, ◌==◌, some, none, List, [], ◌∷◌, ok, err, app_error,
  not_found, All,
}
use llama_index_rag.Domain.Lifecycle.{TenantState, MembershipState, InvitationState}
use llama_index_rag.Domain.Message.{get}
use llama_index_rag.Access.Identity.{
  Role-discrete, parse_role, platform_administrator, AuthenticatedSubject, RequestIdentity,
}
use llama_index_rag.Access.Permission.{
  require_tenant_permission, tenant_permission_matrix, require_platform_permission,
  platform_permission_matrix,
}
use llama_index_rag.Access.Context.{Tenant, Principal, Membership, effective_roles, joined_rows}
use llama_index_rag.Retrieval.Scope.{bump_acl_epoch}
use llama_index_rag.Outbox.{add}
use llama_index_rag.Config.Sample.{outside, identity, store}
use llama_index_rag.Members.{
  Directory, Invitation, Given, Texts, validate_roles, updated_roles, updated_state, update_member,
  guarded_change, require_active_administrator, authorization_changed, active_administrator_count,
  audited,
}
use llama_index_rag.Members.Invitations.{accept_invitation, join_tenant}
use llama_index_rag.Members.Recovery.{recover_administrator}
use llama_index_rag.Members.Requests.{Change, updates, carry_out}
use llama_index_rag.Members.Administrators.{
  Request, IsGuardedIn, carry_out_all, administrator_remains,
}
use llama_index_rag.Members.Changes.{tenant_row}
use llama_index_rag.Members.Epoch.{change_raises_epoch}
use llama_index_rag.Members.Settled.{invitation_accepted_once, recovery_leaves_administrator}

abbrev tenant : Tenant
tenant = record {
  id = 1;
  state = TenantState.active;
  acl_epoch = 3;
  active_config_version_id = none;
}

abbrev principal : Principal
principal = record {
  id = 7;
  tenant_id = 1;
  external_id = 70;
  active = true;
  state = MembershipState.active;
  revision = 1;
}

abbrev membership : Membership
membership = record {
  id = 8;
  tenant_id = 1;
  principal_id = 7;
  state = MembershipState.active;
  direct_roles = "administrator" ∷ [];
  revision = 1;
  state_reason = "";
}

abbrev invitation : Invitation
invitation = record {
  id = 20;
  tenant_id = 1;
  destination = 55;
  token_hash = 1000;
  roles = "reader" ∷ [];
  state = InvitationState.pending;
  revision = 1;
  expires_at = 500;
  accepted_at = none;
  accepted_by_principal_id = none;
  created_by_subject = 7;
}

abbrev dir : Directory
dir = record {
  db = record {
    tenants = tenant ∷ [];
    principals = principal ∷ [];
    memberships = membership ∷ [];
    groups = [];
    principal_groups = [];
    group_roles = [];
  };
  invitations = invitation ∷ [];
  usage = [];
  audit = [];
  outbox = [];
}

abbrev given : Given
given = record {
  correlation_id = 90;
  session_tenant = some 1;
  principal_id = 30;
  membership_id = 31;
  group_id = 32;
  group_role_id = 33;
  invitation_id = 34;
  audit_id = 35;
  outbox_id = 36;
  now = 400;
}

abbrev texts : Texts
texts = record { strip = λ k. k; casefold = λ k. k; len = λ k. 1; strip_text = λ s. s }

abbrev hash : Key → Key
hash k = k + 990

abbrev pair : Key → Key → Key
pair a b = a + b

-- The last administrator is asked to leave, and then gets another role besides.
abbrev leave : Change
leave = updates 8 1 none (some MembershipState.removed) "leaves"

abbrev widen : Change
widen = updates 8 1 (some ("reader" ∷ "administrator" ∷ [])) none "reads"

abbrev requests : List Request
requests = (given, identity, leave) ∷ (given, identity, widen) ∷ []

requests-guarded : All (IsGuardedIn 1) requests
requests-guarded = ((refl, refl), ((refl, refl), tt))

has_administrator : (active_administrator_count dir.db 1 == 0) ≡ false
unfolding active_administrator_count effective_roles joined_rows parse_role Role-discrete
has_administrator = refl

administrator_remains_example :
    (active_administrator_count (carry_out_all outside texts store pair requests dir).db 1 == 0)
    ≡ false
administrator_remains_example =
    administrator_remains outside texts store pair 1 requests dir requests-guarded has_administrator

abbrev widened : Directory
unfolding carry_out update_member validate_roles updated_roles updated_state guarded_change
    require_active_administrator active_administrator_count authorization_changed audited
    bump_acl_epoch add get effective_roles joined_rows parse_role Role-discrete
    require_tenant_permission tenant_permission_matrix
widened = elim (carry_out outside texts store pair given identity widen dir) [
  | err _ ↦ dir
  | ok after ↦ after
]

widens : carry_out outside texts store pair given identity widen dir ≡ ok widened
unfolding widened carry_out update_member validate_roles updated_roles updated_state guarded_change
    require_active_administrator active_administrator_count authorization_changed audited
    bump_acl_epoch add get effective_roles joined_rows parse_role Role-discrete
    require_tenant_permission tenant_permission_matrix
widens = refl

change_raises_epoch_example :
    (t : Tenant) × ((tenant_row 1 dir ≡ some t)
      × (tenant_row 1 widened ≡ some (record t { acl_epoch = suc t.acl_epoch })))
change_raises_epoch_example =
    change_raises_epoch outside texts store pair given identity widen dir widens

abbrev login : AuthenticatedSubject
login = record {
  subject_id = 71;
  platform_roles = platform_administrator ∷ [];
  tenant_hint = none;
  token_id = none;
}

abbrev accepted : RequestIdentity × Directory
unfolding accept_invitation join_tenant bump_acl_epoch
accepted = elim (accept_invitation outside hash given login 55 10 dir) [
  | err _ ↦ (identity, dir)
  | ok result ↦ result
]

accepts : accept_invitation outside hash given login 55 10 dir ≡ ok (accepted.0, accepted.1)
unfolding accepted accept_invitation join_tenant bump_acl_epoch
accepts = refl

invitation_accepted_once_example :
    accept_invitation outside hash given login 55 10 accepted.1 ≡ err (app_error not_found 404)
invitation_accepted_once_example =
    invitation_accepted_once outside hash given given login login 55 55 10 dir accepts

may_recover : require_platform_permission login "platform.tenant.recovery" ≡ ok tt
unfolding require_platform_permission platform_permission_matrix
may_recover = refl

recovery_leaves_administrator_example :
    (after : Directory) × ((recover_administrator outside hash given login 1 70 dir ≡ ok after)
      × ((active_administrator_count after.db 1 == 0) ≡ false))
recovery_leaves_administrator_example =
    recovery_leaves_administrator outside hash given login 1 70 dir tenant may_recover refl
