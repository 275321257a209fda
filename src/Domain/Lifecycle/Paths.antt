-- ===== src/Domain/Lifecycle/Paths.antt =====
-- What sequences of allowed transitions can do.
use llama_index_rag.Base.{ℕ, suc, ◌≤◌, ◌≡◌, refl, ◌≢◌, List, [], ◌∷◌, ok, err, Result, arith}
use llama_index_rag.Domain.Lifecycle.{
  TenantState, MembershipState, InvitationState, require_tenant_transition,
  require_membership_transition, require_invitation_transition,
}

-- The states that a record takes when the targets are requested one after the other: a refused
-- request leaves the state as it was.
abbrev pub attempt {ℓ} : {S : Type ℓ} → (S → S → Result (Unit {0})) → S → S → S
attempt check current target = elim (check current target) [ ok _ ↦ target | err _ ↦ current ]

abbrev pub attempts {ℓ} : {S : Type ℓ} → (S → S → Result (Unit {0})) → S → List S → S
attempts check current [] = current
attempts check current (t ∷ ts) = attempts check (attempt check current t) ts

tenant_step_out :
    (s t : TenantState)
    → s ≢ TenantState.provisioning
    → attempt require_tenant_transition s t ≢ TenantState.provisioning
unfolding require_tenant_transition
tenant_step_out TenantState.provisioning t h e = h refl
tenant_step_out s TenantState.provisioning h e = ground arith
tenant_step_out s t h e = ground arith

-- A tenant that has left provisioning never returns to it, whatever is requested.
pub provisioning_is_left_for_good :
    (s : TenantState) (ts : List TenantState)
    → s ≢ TenantState.provisioning
    → attempts require_tenant_transition s ts ≢ TenantState.provisioning
provisioning_is_left_for_good s [] h = h
provisioning_is_left_for_good s (t ∷ ts) h =
    provisioning_is_left_for_good (attempt require_tenant_transition s t) ts (tenant_step_out s t h)

-- How many of the requests are granted.
abbrev pub granted {ℓ} : {S : Type ℓ} → (S → S → Result (Unit {0})) → S → List S → ℕ
granted check current [] = 0
granted check current (t ∷ ts) =
    let rest = granted check (attempt check current t) ts in
    elim (check current t) [ ok _ ↦ suc rest | err _ ↦ rest ]

settled_grants_none :
    (s : InvitationState) (ts : List InvitationState)
    → s ≢ InvitationState.pending
    → granted require_invitation_transition s ts ≡ 0
unfolding require_invitation_transition
settled_grants_none s [] h = refl
settled_grants_none InvitationState.pending (t ∷ ts) h = absurd (h refl)
settled_grants_none InvitationState.accepted (t ∷ ts) h =
    settled_grants_none InvitationState.accepted ts h
settled_grants_none InvitationState.revoked (t ∷ ts) h =
    settled_grants_none InvitationState.revoked ts h
settled_grants_none InvitationState.expired (t ∷ ts) h =
    settled_grants_none InvitationState.expired ts h

-- An invitation is settled at most once: of any sequence of requests at most one is granted.
pub invitation_granted_once :
    (s : InvitationState) (ts : List InvitationState)
    → granted require_invitation_transition s ts ≤ 1
unfolding require_invitation_transition
invitation_granted_once InvitationState.pending [] = omega arith
invitation_granted_once InvitationState.pending (InvitationState.pending ∷ ts) =
    invitation_granted_once InvitationState.pending ts
invitation_granted_once InvitationState.pending (t ∷ ts) = ground (arith, settled_grants_none t ts)
invitation_granted_once s ts = omega (arith, settled_grants_none s ts (λ e. cc))

-- A removed member stays removed under every sequence of requested transitions.
pub removed_is_final :
    (ts : List MembershipState)
    → (attempts require_membership_transition MembershipState.removed ts ≡ MembershipState.removed)
      × (granted require_membership_transition MembershipState.removed ts ≡ 0)
unfolding require_membership_transition
removed_is_final [] = (refl, refl)
removed_is_final (t ∷ ts) = removed_is_final ts
