-- ===== src/Members/Recovery.antt =====
-- The recovery of a tenant's administrator by the platform
-- (backend/enterprise_rag/application/tenant_membership.py:recover_administrator).
use Prim.Native.String.{String, compare}
use Prim.Native.Nat.{gt}
use text.Mathlib.Text.{◌==◌ as str_eq}
use llama_index_rag.Base.{
  Key, suc, ◌==◌, Option, none, some, List, [], ◌∷◌, find_first, update_where, if◌then◌else◌,
  Result, ok, app_error, not_found, ◌>>=◌, ◌>>◌, or_raise,
}
use llama_index_rag.Domain.Lifecycle.{TenantState, MembershipState}
use llama_index_rag.Domain.Message.{word}
use llama_index_rag.Access.Identity.{AuthenticatedSubject, RequestIdentity}
use llama_index_rag.Access.Permission.{require_platform_permission}
use llama_index_rag.Access.Context.{Membership, principal_test, membership_test}
use llama_index_rag.Retrieval.Scope.{bump_acl_epoch}
use llama_index_rag.Config.{Outside}
use llama_index_rag.Members.{Directory, Given, audited, with_tenants, enroll, new_membership}

-- A text among texts that are sorted and different.
unfoldable pub insert_text : String → List String → List String
insert_text a [] = a ∷ []
insert_text a (x ∷ xs) =
    let rest = insert_text a xs in
    if str_eq x a then x ∷ xs else (elim (compare a x) [ gt ↦ x ∷ rest | _ ↦ a ∷ x ∷ xs ])

-- `sorted(set(texts))`.
unfoldable pub sorted_texts : List String → List String
unfolding insert_text
sorted_texts [] = []
sorted_texts (x ∷ xs) = insert_text x (sorted_texts xs)

-- `sorted(set(direct_roles) | {"administrator"})`; a stored text that is no role stays.
abbrev pub with_administrator : List String → List String
with_administrator roles = insert_text "administrator" (sorted_texts roles)

abbrev pub restore : Membership → Membership
restore m = record m {
  state = MembershipState.active;
  direct_roles = with_administrator m.direct_roles;
  revision = suc m.revision;
}

-- The two branches, with the identifier of the membership.
abbrev pub restore_row :
    Given → Key → Key → List Membership → Option Membership → Key × List Membership
restore_row given tenant_id principal_id memberships none = (
  given.membership_id,
  new_membership given tenant_id principal_id ("administrator" ∷ [])
        "platform administrator recovery"
      ∷ memberships,
)
restore_row given tenant_id principal_id memberships (some m) =
    (m.id, update_where (λ x. x.id == m.id) restore memberships)

unfoldable pub recover_administrator :
    Outside → (Key → Key) → Given → AuthenticatedSubject → Key → Key → Directory → Result Directory
recover_administrator outside hash given subject tenant_id external_id dir =
    require_platform_permission subject "platform.tenant.recovery" >> (do
      _ ← or_raise (find_first (λ t. t.id == tenant_id) dir.db.tenants) (app_error not_found 404)
      let actor : RequestIdentity = record {
        tenant_id = tenant_id;
        user_id = subject.subject_id;
        groups = [];
        roles = [];
        token_id = none;
        principal_id = none;
        membership_id = none;
        authorization_epoch = 0;
        configuration_version_id = none;
        tenant_state = TenantState.active;
      }
      let (principal, principals) =
          enroll given tenant_id external_id dir.db.principals
            (find_first (principal_test tenant_id external_id) dir.db.principals)
      let (membership_id, memberships) =
          restore_row given tenant_id principal.id dir.db.memberships
            (find_first (membership_test tenant_id principal.id) dir.db.memberships)
      (_, tenants) ← bump_acl_epoch dir.db.tenants tenant_id
      ok (
          audited outside given actor "membership.platform_recovery" "tenant_membership"
            membership_id (("recovered_subject_hash", word (hash external_id)) ∷ [])
            (with_tenants tenants (record dir {
              db = record dir.db { principals = principals; memberships = memberships };
            }))))
