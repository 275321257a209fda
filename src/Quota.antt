-- ===== src/Quota.antt =====
-- Durable quotas of tenants
-- (backend/enterprise_rag/application/tenant_configuration.py:TenantQuotaService, and
-- tenant_bootstrap.py:calculate_tenant_usage). The table of usage is the list of its rows; a row
-- that is locked is read and written by one transaction at a time.
pub mod Ledger
pub mod Runs
pub mod Bounds
pub mod Reservations
pub mod Settling
pub mod Reconcile
pub mod Counting
mod Tests
use Prim.Native.String.{String}
use llama_index_rag.Base.{
  Key, Time, ℕ, suc, ◌+◌, ◌-◌, ◌*◌, ℤ, pos, pos_part, neg_part, Bool, true, false, not, ◌&&◌, ◌==◌,
  ltb, leb, ltb_ℤ, if◌then◌else◌, Option, none, some, List, [], ◌∷◌, ◌++◌, find_first, keep,
  update_where, count_if, Result, ok, app_error, invalid_request, conflict, quota_exceeded, ◌>>=◌,
  ◌>>◌, raise_if,
}
use llama_index_rag.Base.Sort.{sort_by}
use llama_index_rag.Domain.Message.{word, number, Payload}
use llama_index_rag.Domain.Lifecycle.{MembershipState}
use llama_index_rag.Access.Identity.{RequestIdentity}
use llama_index_rag.Access.Permission.{require_tenant_permission}
use llama_index_rag.Access.Context.{Membership, Group, is_active}
use llama_index_rag.Outbox.{OutboxRecord, Draft, add}
use llama_index_rag.Config.{
  QuotaResource, members, groups, knowledge_spaces, documents, stored_bytes, provider_units,
  DurableQuotas, TenantConfiguration, Store, Outside, load_active,
}

-- `resource.value`, as a number; the numbers have the order of the texts.
abbrev pub value : QuotaResource → Key
value documents = 0
value groups = 1
value knowledge_spaces = 2
value members = 3
value provider_units = 4
value stored_bytes = 5

-- `getattr(config.quotas, resource.value)`.
abbrev pub quota_of : DurableQuotas → QuotaResource → ℕ
quota_of quotas members = quotas.members
quota_of quotas groups = quotas.groups
quota_of quotas knowledge_spaces = quotas.knowledge_spaces
quota_of quotas documents = quotas.documents
quota_of quotas stored_bytes = quotas.stored_bytes
quota_of quotas provider_units = quotas.provider_units

pub record UsageRecord : Type 0 where
  pub tenant_id : Key
  pub resource : Key
  pub used : ℕ
  pub reserved : ℕ
  pub revision : ℕ
  pub reconciled_at : Option Time

pub record QuotaReservation : Type 0 where
  pub tenant_id : Key
  pub resource : QuotaResource
  pub amount : ℕ
  pub usage_revision : ℕ

abbrev pub usage_test : Key → Key → UsageRecord → Bool
usage_test tenant_id resource u = u.tenant_id == tenant_id && u.resource == resource

abbrev pub new_usage : Key → Key → UsageRecord
new_usage tenant_id resource = record {
  tenant_id = tenant_id;
  resource = resource;
  used = 0;
  reserved = 0;
  revision = 1;
  reconciled_at = none;
}

-- `_locked_usage`, given the row that the query finds: the row, and the table that holds it.
abbrev pub lock_row :
    Key → Key → List UsageRecord → Option UsageRecord → UsageRecord × List UsageRecord
lock_row tenant_id resource table none =
    (new_usage tenant_id resource, new_usage tenant_id resource ∷ table)
lock_row tenant_id resource table (some u) = (u, table)

unfoldable pub locked_usage : Key → Key → List UsageRecord → UsageRecord × List UsageRecord
locked_usage tenant_id resource table =
    lock_row tenant_id resource table (find_first (usage_test tenant_id resource) table)

-- The columns that a reservation and its release change.
abbrev pub add_reserved : ℕ → UsageRecord → UsageRecord
add_reserved amount u = record u { reserved = u.reserved + amount; revision = suc u.revision }

abbrev pub drop_reserved : ℕ → Bool → UsageRecord → UsageRecord
drop_reserved amount consume u = record u {
  reserved = u.reserved - amount;
  used = if consume then u.used + amount else u.used;
  revision = suc u.revision;
}

-- What `reserve` does once it knows the limit.
unfoldable pub reserve_within :
    ℕ → Key → QuotaResource → ℕ → List UsageRecord → Result (QuotaReservation × List UsageRecord)
unfolding locked_usage
reserve_within limit tenant_id resource amount table =
    let (usage, held) = locked_usage tenant_id (value resource) table in
    let made : QuotaReservation = record {
      tenant_id = tenant_id;
      resource = resource;
      amount = amount;
      usage_revision = suc usage.revision;
    } in
    raise_if (ltb limit (usage.used + usage.reserved + amount)) (app_error quota_exceeded 429)
    >> ok (made, update_where (usage_test tenant_id (value resource)) (add_reserved amount) held)

-- The limit that the active configuration gives.
unfoldable pub limit_of : Outside → Store → Key → QuotaResource → Result ℕ
limit_of outside store tenant_id resource = do
  (_, _, config) ← load_active outside store tenant_id
  ok (quota_of config.quotas resource)

unfoldable pub reserve :
    Outside
    → Store
    → RequestIdentity
    → QuotaResource
    → ℤ
    → List UsageRecord
    → Result (QuotaReservation × List UsageRecord)
unfolding limit_of reserve_within
reserve outside store identity resource amount table =
    raise_if (not (ltb_ℤ (pos 0) amount)) (app_error invalid_request 422) >> (do
      limit ← limit_of outside store identity.tenant_id resource
      reserve_within limit identity.tenant_id resource (pos_part amount) table)

unfoldable pub release :
    QuotaReservation → Bool → List UsageRecord → Result (UsageRecord × List UsageRecord)
unfolding locked_usage
release reservation consume table =
    let test = usage_test reservation.tenant_id (value reservation.resource) in
    let (usage, held) = locked_usage reservation.tenant_id (value reservation.resource) table in
    raise_if (ltb usage.reserved reservation.amount) (app_error conflict 409)
    >> ok (
      drop_reserved reservation.amount consume usage,
      update_where test (drop_reserved reservation.amount consume) held,
    )
