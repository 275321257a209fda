-- ===== src/Members/Invitations.antt =====
-- Invitations to a tenant
-- (backend/enterprise_rag/application/tenant_membership.py:TenantMembershipService).
use Prim.Native.String.{String}
use llama_index_rag.Base.{
  Key, Time, ℕ, suc, ◌+◌, ◌*◌, min, max, ℤ, pos_part, Bool, true, false, not, ◌&&◌, ◌||◌, ◌==◌, ltb,
  leb, Option, none, some, List, [], ◌∷◌, map, find_first, update_where, Result, ok, app_error,
  invalid_request, conflict, not_found, ◌>>=◌, ◌>>◌, raise_if, or_raise, as_error,
}
use llama_index_rag.Domain.Lifecycle.{
  TenantState, MembershipState, InvitationState, require_invitation_transition,
}
use llama_index_rag.Domain.Message.{word, words}
use llama_index_rag.Access.Identity.{AuthenticatedSubject, RequestIdentity}
use llama_index_rag.Access.Permission.{require_tenant_permission}
use llama_index_rag.Access.Context.{
  Principal, Membership, Database, principal_test, membership_test, effective_roles,
}
use llama_index_rag.Retrieval.Scope.{bump_acl_epoch}
use llama_index_rag.Config.{Outside}
use llama_index_rag.Members.{
  Directory, Invitation, Given, Texts, validate_roles, audited, with_tenants, enroll,
  new_membership,
}

-- `normalize_destination`.
unfoldable pub normalize_destination : Texts → Key → Result Key
normalize_destination texts value =
    let destination = texts.casefold (texts.strip value) in
    raise_if (destination == 0 || ltb 320 (texts.len destination)) (app_error invalid_request 422)
    >> ok destination

-- `min(max(hours, 1), 720)` hours, in seconds.
abbrev pub lifetime : ℤ → ℕ
lifetime hours = min (max (pos_part hours) 1) 720 * 3600

-- The token is what `secrets.token_urlsafe` gives, `hash` is `stable_hash`.
unfoldable pub issue_invitation :
    Outside
    → Texts
    → (Key → Key)
    → Given
    → RequestIdentity
    → Key
    → List String
    → ℤ
    → Key
    → Directory
    → Result (Invitation × Directory)
issue_invitation outside texts hash given identity destination roles expires_in_hours token dir =
    require_tenant_permission identity "membership.write" >> (do
      normalized ← normalize_destination texts destination
      canonical ← validate_roles roles
      let row : Invitation = record {
        id = given.invitation_id;
        tenant_id = identity.tenant_id;
        destination = normalized;
        token_hash = hash token;
        roles = canonical;
        state = InvitationState.pending;
        revision = 1;
        expires_at = given.now + lifetime expires_in_hours;
        accepted_at = none;
        accepted_by_principal_id = none;
        created_by_subject = identity.user_id;
      }
      ok (
        row,
        audited outside given identity "invitation.issue" "tenant_invitation" row.id
            (("destination_hash", word (hash normalized))
              ∷ ("roles", words (map outside.text canonical))
              ∷ [])
            (record dir { invitations = row ∷ dir.invitations }),
      ))

unfoldable pub revoke_invitation :
    Outside → Given → RequestIdentity → Key → ℕ → Directory → Result Directory
revoke_invitation outside given identity invitation_id expected_revision dir =
    require_tenant_permission identity "membership.write" >> (do
      invitation ←
          or_raise
            (find_first (λ i. i.id == invitation_id && i.tenant_id == identity.tenant_id)
              dir.invitations)
            (app_error not_found 404)
      _ ← raise_if (not (invitation.revision == expected_revision)) (app_error conflict 409)
      _ ←
          as_error (app_error conflict 409)
            (require_invitation_transition invitation.state InvitationState.revoked)
      ok (
          audited outside given identity "invitation.revoke" "tenant_invitation" invitation.id []
            (record dir {
              invitations =
                  update_where (λ i. i.id == invitation.id)
                    (λ i. record i { state = InvitationState.revoked; revision = suc i.revision })
                    dir.invitations;
            })))

-- `state != "pending"`.
abbrev pub is_pending : InvitationState → Bool
is_pending InvitationState.pending = true
is_pending _ = false

-- The membership that accepting gives, and the tables that hold it.
abbrev pub join_row :
    Given
    → Invitation
    → Principal
    → List Membership
    → Option Membership
    → Membership × List Membership
join_row given invitation principal memberships none =
    let row =
      new_membership given invitation.tenant_id principal.id invitation.roles
        "invitation accepted" in
    (row, row ∷ memberships)
join_row given invitation principal memberships (some m) =
    let change : Membership → Membership = λ x. record x {
      state = MembershipState.active;
      direct_roles = invitation.roles;
      revision = suc x.revision;
    } in
    (change m, update_where (λ x. x.id == m.id) change memberships)

-- The invitation once it is accepted.
abbrev pub settle_row : Time → Key → Invitation → Invitation
settle_row now principal_id i = record i {
  state = InvitationState.accepted;
  accepted_at = some now;
  accepted_by_principal_id = some principal_id;
  revision = suc i.revision;
}

-- The part of `accept_invitation` that writes.
unfoldable pub join_tenant :
    Outside
    → Given
    → AuthenticatedSubject
    → Invitation
    → Directory
    → Result (RequestIdentity × Directory)
join_tenant outside given subject invitation dir =
    let tenant_id = invitation.tenant_id in
    let (principal, principals) =
      enroll given tenant_id subject.subject_id dir.db.principals
        (find_first (principal_test tenant_id subject.subject_id) dir.db.principals) in
    let (membership, memberships) =
      join_row given invitation principal dir.db.memberships
        (find_first (membership_test tenant_id principal.id) dir.db.memberships) in
    let db : Database = record dir.db { principals = principals; memberships = memberships } in
    let (roles, groups) = effective_roles db tenant_id principal.id membership.direct_roles in
    let joined : Directory = record dir {
      db = db;
      invitations =
          update_where (λ i. i.id == invitation.id) (settle_row given.now principal.id)
            dir.invitations;
    } in
    do
      (epoch, tenants) ← bump_acl_epoch db.tenants tenant_id
      let identity : RequestIdentity = record {
        tenant_id = tenant_id;
        user_id = subject.subject_id;
        groups = groups;
        roles = roles;
        token_id = subject.token_id;
        principal_id = some principal.id;
        membership_id = some membership.id;
        authorization_epoch = epoch;
        configuration_version_id = none;
        tenant_state = TenantState.active;
      }
      ok (
        identity,
        audited outside given identity "invitation.accept" "tenant_invitation" invitation.id []
            (with_tenants tenants joined),
      )

-- `claim` is the casefolded address, or subject, of the login. An expired invitation is marked as
-- such before the call raises, and the mark is rolled back with the rest.
unfoldable pub accept_invitation :
    Outside
    → (Key → Key)
    → Given
    → AuthenticatedSubject
    → Key
    → Key
    → Directory
    → Result (RequestIdentity × Directory)
accept_invitation outside hash given subject claim token dir = do
  invitation ←
      or_raise (find_first (λ i. i.token_hash == hash token) dir.invitations)
        (app_error not_found 404)
  _ ← raise_if (not (is_pending invitation.state)) (app_error not_found 404)
  _ ← raise_if (leb invitation.expires_at given.now) (app_error not_found 404)
  _ ← raise_if (not (claim == invitation.destination)) (app_error not_found 404)
  join_tenant outside given subject invitation dir
