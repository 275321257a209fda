-- ===== src/Access/Identity.antt =====
-- Roles and identities (backend/enterprise_rag/domain/types.py). A `frozenset` is a list that is
-- only asked for its members.
use Prim.Native.String.{String}
use text.Mathlib.Text.{◌==◌ as str_eq}
use llama_index_rag.Base.{Key, ℕ, Option, none, some, List, if◌then◌else◌}
use llama_index_rag.Domain.Lifecycle.{TenantState}

pub data PlatformRole : Type 0 where
  platform_administrator : PlatformRole

pub data Role : Type 0 where
  administrator editor reader quality operator : Role

unfoldable pub Role-discrete : Discrete Role
Role-discrete = hlevel

-- `Role(value)`, which raises for a text that is no role.
unfoldable pub parse_role : String → Option Role
parse_role value =
    if str_eq value "administrator"
    then some administrator
    else if str_eq value "editor"
    then some editor
    else if str_eq value "reader"
    then some reader
    else if str_eq value "quality"
    then some quality
    else if str_eq value "operator"
    then some operator
    else none

-- `groups` and `claims` are left out: authorization does not read them.
pub record AuthenticatedSubject : Type 0 where
  pub subject_id : Key
  pub platform_roles : List PlatformRole
  pub tenant_hint : Option Key
  pub token_id : Option Key

pub record RequestIdentity : Type 0 where
  pub tenant_id : Key
  pub user_id : Key
  pub groups : List Key
  pub roles : List Role
  pub token_id : Option Key
  pub principal_id : Option Key
  pub membership_id : Option Key
  pub authorization_epoch : ℕ
  pub configuration_version_id : Option Key
  pub tenant_state : TenantState
