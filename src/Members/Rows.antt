-- ===== src/Members/Rows.antt =====
-- The authorization rows of a tenant, and what every change of them does
-- (backend/enterprise_rag/application/tenant_membership.py). Display names, sources and
-- provenance are carried along by the code and left out.
use Prim.Native.String.{String}
use text.Mathlib.Text.{◌==◌ as str_eq}
use llama_index_rag.Base.{
  Key, Time, ℕ, pos, Bool, ◌&&◌, ◌==◌, Option, none, some, is_none, List, [], ◌∷◌, keep, any,
  count_if, Result, ok, app_error, conflict, not_found, invalid_request, ◌>>=◌, ◌>>◌, raise_if,
  or_raise, find_first,
}
use llama_index_rag.Domain.Lifecycle.{InvitationState, among}
use llama_index_rag.Domain.Message.{Payload, word, number}
use llama_index_rag.Access.Identity.{
  Role, administrator, Role-discrete, parse_role, RequestIdentity,
}
use llama_index_rag.Access.Context.{
  Tenant, Group, Membership, Database, effective_roles, is_active, is_empty,
}
use llama_index_rag.Retrieval.Scope.{bump_acl_epoch}
use llama_index_rag.Outbox.{OutboxRecord, Draft, add}
use llama_index_rag.Audit.{AuditEventInput, AuditEvent, record_event}
use llama_index_rag.Config.{Outside}
use llama_index_rag.Quota.{UsageRecord}

pub record Invitation : Type 0 where
  pub id : Key
  pub tenant_id : Key
  pub destination : Key
  pub token_hash : Key
  pub roles : List String
  pub state : InvitationState
  pub revision : ℕ
  pub expires_at : Time
  pub accepted_at : Option Time
  pub accepted_by_principal_id : Option Key
  pub created_by_subject : Key

pub record Directory : Type 0 where
  pub db : Database
  pub invitations : List Invitation
  pub usage : List UsageRecord
  pub audit : List AuditEvent
  pub outbox : List OutboxRecord

-- What one call is given: its correlation, the tenant in `session.info`, the identifiers from
-- `new_id`, and the time.
pub record Given : Type 0 where
  pub correlation_id : Key
  pub session_tenant : Option Key
  pub principal_id : Key
  pub membership_id : Key
  pub group_id : Key
  pub group_role_id : Key
  pub invitation_id : Key
  pub audit_id : Key
  pub outbox_id : Key
  pub now : Time

-- Python's operations on texts, of which 0 is the empty one.
pub record Texts : Type 0 where
  pub strip : Key → Key
  pub casefold : Key → Key
  pub len : Key → ℕ
  pub strip_text : String → String

-- The names of the roles, in the order of `sorted`.
abbrev pub role_names : List String
role_names = "administrator" ∷ "editor" ∷ "operator" ∷ "quality" ∷ "reader" ∷ []

-- `sorted({Role(value).value for value in values})`, where every value is a role.
abbrev pub canonical_roles : List String → List String
canonical_roles values = keep (λ name. any (λ value. str_eq value name) values) role_names

-- `validate_roles`.
unfoldable pub validate_roles : List String → Result (List String)
validate_roles values =
    raise_if (any (λ value. is_none (parse_role value)) values) (app_error invalid_request 422)
    >> raise_if (is_empty (canonical_roles values)) (app_error invalid_request 422)
    >> ok (canonical_roles values)

-- `Role.ADMINISTRATOR in roles`.
abbrev pub is_administrator : List Role → Bool
is_administrator roles = among Role-discrete administrator roles

-- The test in the loop of `_active_administrator_count`.
abbrev pub administers : Database → Key → Membership → Bool
administers db tenant_id m =
    is_administrator (effective_roles db tenant_id m.principal_id m.direct_roles).0

unfoldable pub active_administrator_count : Database → Key → ℕ
active_administrator_count db tenant_id =
    count_if (administers db tenant_id)
      (keep (λ m. m.tenant_id == tenant_id && is_active m.state) db.memberships)

-- `_require_active_administrator`: without a tenant in `session.info` it looks for one among the
-- changed rows, of which none is left after the flush.
unfoldable pub require_active_administrator : Option Key → Database → Result (Unit {0})
require_active_administrator none db = ok tt
require_active_administrator (some tenant_id) db =
    raise_if (active_administrator_count db tenant_id == 0) (app_error conflict 409)

-- `_audit`.
unfoldable pub audited :
    Outside → Given → RequestIdentity → String → String → Key → Payload → Directory → Directory
audited outside given identity action resource_type resource_id details dir =
    let event : AuditEventInput = record {
      action = outside.text action;
      resource_type = outside.text resource_type;
      resource_id = resource_id;
      authorization_result = outside.text "allowed";
      outcome = outside.text "success";
      correlation_id = given.correlation_id;
      details = outside.details details;
    } in
    record dir {
      audit =
          record_event outside.event_hash given.audit_id identity.tenant_id identity.user_id event
            given.now dir.audit;
    }

-- The event of `_authorization_changed`.
abbrev pub authorization_event : Given → Key → ℕ → Key → Key → Draft
authorization_event given tenant_id epoch resource_type resource_id = record {
  tenant_id = tenant_id;
  kind = "tenant.authorization.changed";
  correlation_id = given.correlation_id;
  payload =
      ("tenant_id", word tenant_id)
      ∷ ("authorization_epoch", number epoch)
      ∷ ("resource_type", word resource_type)
      ∷ ("resource_id", word resource_id)
      ∷ [];
  priority = pos 100;
  max_attempts = 3;
}

-- The tables with other tenants, or with another outbox.
abbrev pub with_tenants : List Tenant → Directory → Directory
with_tenants tenants dir = record dir { db = record dir.db { tenants = tenants } }

abbrev pub with_outbox : Directory → OutboxRecord × List OutboxRecord → Result Directory
with_outbox dir (_, outbox) = ok (record dir { outbox = outbox })

-- `_authorization_changed`.
unfoldable pub authorization_changed :
    Outside
    → Given
    → RequestIdentity
    → String
    → String
    → Key
    → Payload
    → Directory
    → Result Directory
authorization_changed outside given identity action resource_type resource_id details dir = do
  (epoch, tenants) ← bump_acl_epoch dir.db.tenants identity.tenant_id
  let recorded =
      audited outside given identity action resource_type resource_id
        (("authorization_epoch", number epoch) ∷ details) (with_tenants tenants dir)
  added ←
      add outside.str given.outbox_id given.now
        (authorization_event given identity.tenant_id epoch (outside.text resource_type)
          resource_id)
        recorded.outbox
  with_outbox recorded added

-- `_group`.
unfoldable pub group_of : Database → Key → Key → Result Group
group_of db tenant_id group_id =
    or_raise (find_first (λ g. g.id == group_id && g.tenant_id == tenant_id) db.groups)
      (app_error not_found 404)
