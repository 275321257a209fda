-- ===== src/Domain/Lifecycle.antt =====
-- The state machines of tenants, memberships and invitations
-- (backend/enterprise_rag/domain/types.py). A `frozenset` of targets is the list of its elements.
pub mod Paths
use mathlib.Core.Logic.{ite}
use llama_index_rag.Base.{◌≡◌, refl, Bool, true, false, List, [], ◌∷◌, Result, value_error, require}

pub data TenantState : Type 0 where
  provisioning active suspended archived : TenantState

pub data MembershipState : Type 0 where
  invited active suspended removed : MembershipState

pub data InvitationState : Type 0 where
  pending accepted revoked expired : InvitationState

unfoldable pub TenantState-discrete : Discrete TenantState
TenantState-discrete = hlevel

pub MembershipState-discrete : Discrete MembershipState
MembershipState-discrete = hlevel

pub InvitationState-discrete : Discrete InvitationState
InvitationState-discrete = hlevel

-- `target in targets`.
abbrev pub among {ℓ} : {A : Type ℓ} → Discrete A → A → List A → Bool
among same a [] = false
among same a (x ∷ xs) = let rest = among same a xs in ite (same a x) true rest

unfoldable pub tenant_state_transitions : TenantState → List TenantState
tenant_state_transitions TenantState.provisioning = TenantState.active ∷ TenantState.archived ∷ []
tenant_state_transitions TenantState.active = TenantState.suspended ∷ TenantState.archived ∷ []
tenant_state_transitions TenantState.suspended = TenantState.active ∷ TenantState.archived ∷ []
tenant_state_transitions TenantState.archived = TenantState.active ∷ []

unfoldable pub require_tenant_transition : TenantState → TenantState → Result (Unit {0})
unfolding tenant_state_transitions TenantState-discrete
require_tenant_transition current target =
    require (among TenantState-discrete target (tenant_state_transitions current)) value_error

unfoldable pub membership_state_transitions : MembershipState → List MembershipState
membership_state_transitions MembershipState.invited =
    MembershipState.active ∷ MembershipState.suspended ∷ MembershipState.removed ∷ []
membership_state_transitions MembershipState.active =
    MembershipState.suspended ∷ MembershipState.removed ∷ []
membership_state_transitions MembershipState.suspended =
    MembershipState.active ∷ MembershipState.removed ∷ []
membership_state_transitions MembershipState.removed = []

unfoldable pub require_membership_transition : MembershipState → MembershipState → Result (Unit {0})
unfolding membership_state_transitions MembershipState-discrete
require_membership_transition current target =
    require (among MembershipState-discrete target (membership_state_transitions current))
      value_error

unfoldable pub invitation_state_transitions : InvitationState → List InvitationState
invitation_state_transitions InvitationState.pending =
    InvitationState.accepted ∷ InvitationState.revoked ∷ InvitationState.expired ∷ []
invitation_state_transitions InvitationState.accepted = []
invitation_state_transitions InvitationState.revoked = []
invitation_state_transitions InvitationState.expired = []

unfoldable pub require_invitation_transition : InvitationState → InvitationState → Result (Unit {0})
unfolding invitation_state_transitions InvitationState-discrete
require_invitation_transition current target =
    require (among InvitationState-discrete target (invitation_state_transitions current))
      value_error
