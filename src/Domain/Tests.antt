-- ===== src/Domain/Tests.antt =====
-- Examples of transitions and messages.
use llama_index_rag.Base.{Key, ◌≡◌, ◌≢◌, ◌⊎◌, refl, pos, List, [], ◌∷◌, ok, ◌≤◌, true}
use llama_index_rag.Domain.Lifecycle.{
  TenantState, MembershipState, InvitationState, require_tenant_transition,
  require_membership_transition, require_invitation_transition,
}
use llama_index_rag.Domain.Lifecycle.Paths.{
  attempts, granted, provisioning_is_left_for_good, invitation_granted_once, removed_is_final,
}
use llama_index_rag.Domain.Message.{
  Value, null, word, get, contains, JobMessage, post_init, post_init-tenant,
}

abbrev wanted_states : List TenantState
wanted_states = TenantState.suspended ∷ TenantState.provisioning ∷ TenantState.active ∷ []

active_is_not_provisioning : TenantState.active ≢ TenantState.provisioning
active_is_not_provisioning = λ e. cc

provisioning_is_left_for_good_test :
    attempts require_tenant_transition TenantState.active wanted_states ≢ TenantState.provisioning
provisioning_is_left_for_good_test =
    provisioning_is_left_for_good TenantState.active wanted_states active_is_not_provisioning

abbrev wanted_settlings : List InvitationState
wanted_settlings =
    InvitationState.accepted ∷ InvitationState.revoked ∷ InvitationState.accepted ∷ []

invitation_granted_once_test :
    granted require_invitation_transition InvitationState.pending wanted_settlings ≤ 1
invitation_granted_once_test = invitation_granted_once InvitationState.pending wanted_settlings

abbrev wanted_memberships : List MembershipState
wanted_memberships = MembershipState.active ∷ MembershipState.invited ∷ []

removed_is_final_test :
    (attempts require_membership_transition MembershipState.removed wanted_memberships
      ≡ MembershipState.removed)
    × (granted require_membership_transition MembershipState.removed wanted_memberships ≡ 0)
removed_is_final_test = removed_is_final wanted_memberships

abbrev text_of : Value → Key
text_of (word k) = k
text_of _ = 0

abbrev plain_message : JobMessage
plain_message = record {
  id = 1;
  kind = "ingestion.process";
  tenant_id = 7;
  correlation_id = 2;
  payload = ("job_id", word 3) ∷ [];
  priority = pos 0;
  attempt = 0;
  max_attempts = 3;
  created_at = 10;
}

abbrev built_message : JobMessage
built_message = record plain_message { payload = ("tenant_id", word 7) ∷ ("job_id", word 3) ∷ [] }

builds_plain_message : post_init text_of plain_message ≡ ok built_message
unfolding post_init get contains
builds_plain_message = refl

post_init-tenant_test :
    (built_message ≡ record plain_message { payload = built_message.payload })
    × ((text_of (get "tenant_id" built_message.payload) ≡ plain_message.tenant_id)
        ⊎ ((contains "tenant_id" plain_message.payload ≡ true)
            × (get "tenant_id" built_message.payload ≡ null)))
post_init-tenant_test =
    post_init-tenant text_of plain_message {built = built_message} (λ k. refl) builds_plain_message
