-- ===== src/Quota/Tests.antt =====
-- Examples of quotas.
use llama_index_rag.Base.{
  Key, ◌+◌, ◌≤◌, ◌≡◌, refl, pos, negsuc, true, false, ◌==◌, some, none, List, [], ◌∷◌, get_elem?,
  ok, err, arith,
}
use llama_index_rag.Domain.Lifecycle.{MembershipState}
use llama_index_rag.Access.Identity.{Role-discrete}
use llama_index_rag.Access.Context.{Membership}
use llama_index_rag.Access.Permission.{require_tenant_permission, tenant_permission_matrix}
use llama_index_rag.Config.{QuotaResource, members, groups, tenant_of, load_active}
use llama_index_rag.Config.Sample.{outside, identity, store}
use llama_index_rag.Quota.{
  value, UsageRecord, QuotaReservation, limit_of, reserve, reserve_within, release, locked_usage,
}
use llama_index_rag.Quota.Ledger.{view}
use llama_index_rag.Quota.Runs.{Move, reserves, releases, play, account_play, play_refines}
use llama_index_rag.Quota.Bounds.{quota_not_exceeded}
use llama_index_rag.Quota.Reservations.{Turn, asks, settles, take_turn, take_turns, held_of}
use llama_index_rag.Quota.Settling.{reserved_is_held, held_can_be_released}
use llama_index_rag.Quota.Reconcile.{
  Owned, Pulse, Pass, calculate_tenant_usage, reconcile, reconcile_each,
}
use llama_index_rag.Quota.Counting.{owned_of, reconcile_counts}

abbrev row : UsageRecord
row = record {
  tenant_id = 1;
  resource = value members;
  used = 6;
  reserved = 0;
  revision = 3;
  reconciled_at = none;
}

abbrev reservation : QuotaReservation
reservation = record { tenant_id = 1; resource = members; amount = 3; usage_revision = 4 }

-- The second reservation is over the limit of 10 members, and the third is of no positive amount.
abbrev moves : List Move
moves =
    reserves identity members (pos 3)
    ∷ reserves identity members (pos 2)
    ∷ reserves identity groups (negsuc 0)
    ∷ releases reservation true
    ∷ []

play_refines_example :
    view (play outside store moves (row ∷ [])) 1 (value members)
    ≡ account_play outside store 1 (value members) moves (view (row ∷ []) 1 (value members))
play_refines_example = play_refines outside store moves (row ∷ []) 1 (value members)

quota_not_exceeded_example :
    (view (play outside store moves (row ∷ [])) 1 (value members)).used
      + (view (play outside store moves (row ∷ [])) 1 (value members)).reserved
    ≤ 10
unfolding limit_of load_active tenant_of
quota_not_exceeded_example =
    quota_not_exceeded outside store 1 members 10 moves (row ∷ []) refl (omega arith)

abbrev turns : List Turn
turns =
    asks identity members (pos 3)
    ∷ asks identity groups (pos 2)
    ∷ asks identity members (pos 4)
    ∷ settles 1 true
    ∷ []

reserved_is_held_test :
    (view (take_turns outside store turns ([], [])).0 1 (value members)).reserved
    ≡ held_of 1 (value members) (take_turns outside store turns ([], [])).1
reserved_is_held_test = reserved_is_held outside store turns 1 (value members)

abbrev first_held : QuotaReservation
first_held = record { tenant_id = 1; resource = members; amount = 4; usage_revision = 3 }

first_is_held : get_elem? (take_turns outside store turns ([], [])).1 0 ≡ some first_held
unfolding take_turns take_turn reserve reserve_within release locked_usage limit_of load_active
    tenant_of
first_is_held = refl

held_can_be_released_example :
    (after : UsageRecord × List UsageRecord) × (release first_held false
        (take_turns outside store turns ([], [])).0
      ≡ ok after)
held_can_be_released_example =
    held_can_be_released outside store turns 0 first_held false first_is_held

abbrev member : Membership
member = record {
  id = 8;
  tenant_id = 1;
  principal_id = 7;
  state = MembershipState.active;
  direct_roles = "administrator" ∷ [];
  revision = 1;
  state_reason = "";
}

abbrev owned : Owned
owned = record {
  memberships = member ∷ record member { id = 9; principal_id = 10 } ∷ [];
  groups = [];
  knowledge_spaces = [];
  documents = [];
  document_versions = [];
}

abbrev pulse : Pulse
pulse = record { correlation_id = 90; outbox_id = λ k. 100 + k; now = 2000 }

abbrev pass : Pass
unfolding reconcile reconcile_each calculate_tenant_usage locked_usage load_active tenant_of
    require_tenant_permission tenant_permission_matrix Role-discrete
pass = elim (reconcile outside pulse store owned identity (row ∷ []) []) [
  | err _ ↦ ([], ([], []))
  | ok p ↦ p
]

reconciles : reconcile outside pulse store owned identity (row ∷ []) [] ≡ ok pass
unfolding reconcile reconcile_each calculate_tenant_usage locked_usage load_active tenant_of
    require_tenant_permission tenant_permission_matrix Role-discrete pass
reconciles = refl

reconcile_counts_example :
    ((resource : QuotaResource)
      → view pass.1.0 1 (value resource)
        ≡ record (view (row ∷ []) 1 (value resource)) { used = owned_of owned 1 resource })
    × ((k q : Key) → (k == 1) ≡ false → view pass.1.0 k q ≡ view (row ∷ []) k q)
reconcile_counts_example =
    reconcile_counts outside pulse store owned identity (row ∷ []) [] reconciles
