-- ===== src/Access/Permission.antt =====
-- The permission matrices and their guards
-- (backend/enterprise_rag/application/tenant_context.py).
pub mod Denial
use Prim.Native.String.{String}
use text.Mathlib.Text.{◌==◌ as str_eq}
use llama_index_rag.Base.{
  Bool, true, false, ◌||◌, Option, none, some, List, [], ◌∷◌, Result, app_error, forbidden, require,
  holds, if◌then◌else◌,
}
use llama_index_rag.Domain.Lifecycle.{among}
use llama_index_rag.Access.Identity.{
  Role, administrator, editor, reader, quality, operator, Role-discrete, PlatformRole,
  platform_administrator, AuthenticatedSubject, RequestIdentity,
}

-- `matrix.get(operation)`.
abbrev pub allowed_for {ℓ} : {R : Type ℓ} → List (String × List R) → String → Option (List R)
allowed_for [] operation = none
allowed_for ((name, roles) ∷ rest) operation =
    let found = allowed_for rest operation in if str_eq operation name then some roles else found

-- `roles.intersection(allowed)` is not empty.
abbrev pub shares_role : List Role → List Role → Bool
shares_role [] allowed = false
shares_role (r ∷ rs) allowed = among Role-discrete r allowed || shares_role rs allowed

unfoldable pub tenant_permission_matrix : List (String × List Role)
tenant_permission_matrix =
    ("tenant.read", reader ∷ editor ∷ quality ∷ operator ∷ administrator ∷ [])
    ∷ ("tenant.admin", administrator ∷ [])
    ∷ ("membership.read", administrator ∷ [])
    ∷ ("membership.write", administrator ∷ [])
    ∷ ("configuration.read", operator ∷ administrator ∷ [])
    ∷ ("configuration.write", administrator ∷ [])
    ∷ ("usage.read", operator ∷ administrator ∷ [])
    ∷ ("knowledge.read", reader ∷ editor ∷ administrator ∷ [])
    ∷ ("knowledge.write", editor ∷ administrator ∷ [])
    ∷ ("knowledge.admin", administrator ∷ [])
    ∷ ("assistant.read", reader ∷ editor ∷ administrator ∷ [])
    ∷ ("assistant.write", editor ∷ administrator ∷ [])
    ∷ ("assistant.admin", administrator ∷ [])
    ∷ ("ingestion.execute", editor ∷ administrator ∷ [])
    ∷ ("query.execute", reader ∷ editor ∷ administrator ∷ [])
    ∷ ("evaluation.read", quality ∷ operator ∷ administrator ∷ [])
    ∷ ("evaluation.write", quality ∷ administrator ∷ [])
    ∷ ("telemetry.read", operator ∷ administrator ∷ [])
    ∷ ("audit.read", operator ∷ administrator ∷ [])
    ∷ ("export.read", operator ∷ administrator ∷ [])
    ∷ []

unfoldable pub platform_permission_matrix : List (String × List PlatformRole)
platform_permission_matrix =
    ("platform.tenant.read", platform_administrator ∷ [])
    ∷ ("platform.tenant.write", platform_administrator ∷ [])
    ∷ ("platform.tenant.lifecycle", platform_administrator ∷ [])
    ∷ ("platform.tenant.recovery", platform_administrator ∷ [])
    ∷ ("platform.fleet.read", platform_administrator ∷ [])
    ∷ []

-- `allowed is not None and roles.intersection(allowed)`.
abbrev pub permitted : List (String × List Role) → List Role → String → Bool
permitted matrix roles operation = holds (shares_role roles) (allowed_for matrix operation)

unfoldable pub require_tenant_permission : RequestIdentity → String → Result (Unit {0})
require_tenant_permission identity operation =
    require (permitted tenant_permission_matrix identity.roles operation) (app_error forbidden 403)

-- There is one platform role, so two sets of them meet if neither is empty.
abbrev pub shares_platform_role : List PlatformRole → List PlatformRole → Bool
shares_platform_role (platform_administrator ∷ _) (platform_administrator ∷ _) = true
shares_platform_role _ _ = false

unfoldable pub require_platform_permission : AuthenticatedSubject → String → Result (Unit {0})
require_platform_permission subject operation =
    require
      (holds (shares_platform_role subject.platform_roles)
        (allowed_for platform_permission_matrix operation))
      (app_error forbidden 403)
