-- ===== src/Access/Permission/Denial.antt =====
-- Refusals and grants of the permission guard
-- (backend/enterprise_rag/application/tenant_context.py:require_tenant_permission).
use Prim.Native.String.{String}
use llama_index_rag.Base.{
  ◌≡◌, ◌≢◌, ap, not, is_none, require, refl, true, false, ◌||◌, List, [], ◌∷◌, ◌++◌, ok, err,
  app_error, forbidden, All, arith, Option-cases,
}
use llama_index_rag.Domain.Lifecycle.{among}
use llama_index_rag.Access.Identity.{Role, administrator, Role-discrete, RequestIdentity}
use llama_index_rag.Access.Permission.{
  permitted, allowed_for, shares_role, tenant_permission_matrix, require_tenant_permission,
}

shares_role-append :
    (rs qs allowed : List Role)
    → shares_role (rs ++ qs) allowed ≡ (shares_role rs allowed || shares_role qs allowed)
shares_role-append [] qs allowed = refl
shares_role-append (r ∷ rs) qs allowed = ground (arith, shares_role-append rs qs allowed)

-- An identity with more roles is granted whatever one with fewer is.
pub permission_monotone :
    (identity : RequestIdentity) (more : List Role) (operation : String)
    → require_tenant_permission identity operation ≡ ok tt
    → require_tenant_permission (record identity { roles = identity.roles ++ more }) operation
      ≡ ok tt
unfolding require_tenant_permission
permission_monotone identity more operation h =
    grind (arith, Option-cases (allowed_for tenant_permission_matrix operation), shares_role-append)

-- The operations that only an administrator is granted.
abbrev pub administrative : List String
administrative =
    "tenant.admin" ∷ "membership.read" ∷ "membership.write" ∷ "configuration.write"
    ∷ "knowledge.admin" ∷ "assistant.admin" ∷ []

only_administrator :
    (rs : List Role) → All (λ r. r ≢ administrator) rs → shares_role rs (administrator ∷ []) ≡ false
unfolding Role-discrete
only_administrator [] h = refl
only_administrator (administrator ∷ rs) h = absurd (h.0 refl)
only_administrator (r ∷ rs) h = only_administrator rs h.1

-- Whoever is not an administrator is denied each administrative operation.
pub administrative_denied :
    (identity : RequestIdentity)
    → All (λ r. r ≢ administrator) identity.roles
    → All
        (λ operation. require_tenant_permission identity operation ≡ err (app_error forbidden 403))
        administrative
unfolding require_tenant_permission tenant_permission_matrix
administrative_denied identity h =
    let no : shares_role identity.roles (administrator ∷ []) ≡ false =
      only_administrator identity.roles h in
    rw no (refl, (refl, (refl, (refl, (refl, (refl, tt))))))

abbrev NamesAdministrator : String × List Role → Type 0
NamesAdministrator (name, roles) = among Role-discrete administrator roles ≡ true

administrator_permitted :
    (matrix : List (String × List Role)) (rest : List Role) (operation : String)
    → All NamesAdministrator matrix
    → permitted matrix (administrator ∷ rest) operation
      ≡ not (is_none (allowed_for matrix operation))
administrator_permitted [] rest operation h = refl
administrator_permitted ((name, roles) ∷ matrix) rest operation h =
    ground (arith, administrator_permitted matrix rest operation h.1)

matrix-NamesAdministrator : All NamesAdministrator tenant_permission_matrix
unfolding tenant_permission_matrix Role-discrete
matrix-NamesAdministrator = ground arith

-- An administrator is granted each operation that the matrix names, and no other.
pub administrator_granted :
    (identity : RequestIdentity) (rest : List Role) (operation : String)
    → identity.roles ≡ administrator ∷ rest
    → require_tenant_permission identity operation
      ≡ require
          (not (is_none (allowed_for tenant_permission_matrix operation)))
          (app_error forbidden 403)
unfolding require_tenant_permission
administrator_granted identity rest operation h = rw h (
    ap (λ b. require b (app_error forbidden 403))
      (administrator_permitted tenant_permission_matrix rest operation matrix-NamesAdministrator))
