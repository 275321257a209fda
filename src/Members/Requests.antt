-- ===== src/Members/Requests.antt =====
-- Changes of the authorization of tenants, one after the other.
use Prim.Native.String.{String}
use llama_index_rag.Base.{
  Key, ℕ, ◌≡◌, refl, Bool, true, false, not, ◌&&◌, ◌==◌, Option, List, [], ◌∷◌, find_first, Result,
  ok, app_error, not_found, conflict, >>=-ok, >>-ok, or_raise, raise_if,
}
use llama_index_rag.Domain.Lifecycle.{MembershipState}
use llama_index_rag.Domain.Message.{Payload}
use llama_index_rag.Access.Identity.{RequestIdentity}
use llama_index_rag.Access.Permission.{require_tenant_permission}
use llama_index_rag.Config.{Outside, Store}
use llama_index_rag.Members.{
  Directory, Given, Texts, validate_roles, group_of, assign_member, update_member, row_test,
  updated_roles, updated_state, guarded_change,
}
use llama_index_rag.Members.Groups.{
  create_group, update_group, group_state, set_group_member, set_group_role,
}
use llama_index_rag.Members.Changes.{tenant_row}

pub data Change : Type 0 where
  assigns : Key → List String → Change
  updates : Key → ℕ → Option (List String) → Option MembershipState → String → Change
  makes_group : Key → Change
  updates_group : Key → ℕ → Option String → Change
  sets_member : Key → Key → Bool → Change
  sets_role : Key → String → Bool → Change

-- The changes that are checked for a remaining administrator.
abbrev pub is_guarded : Change → Bool
is_guarded (assigns external_id roles) = false
is_guarded (makes_group external_id) = false
is_guarded _ = true

module _ (outside : Outside) (texts : Texts) (settings : Store) (pair : Key → Key → Key) where
  unfoldable pub carry_out : Given → RequestIdentity → Change → Directory → Result Directory
  carry_out given identity (assigns external_id roles) dir =
      assign_member outside texts settings given identity external_id roles dir
  carry_out given identity (updates membership_id expected roles state reason) dir =
      update_member outside texts given identity membership_id expected roles state reason dir
  carry_out given identity (makes_group external_id) dir =
      create_group outside texts settings given identity external_id dir
  carry_out given identity (updates_group group_id expected state) dir =
      update_group outside given identity group_id expected state dir
  carry_out given identity (sets_member group_id principal_id active) dir =
      set_group_member outside pair given identity group_id principal_id active dir
  carry_out given identity (sets_role group_id role active) dir =
      set_group_role outside given identity group_id role active dir

  -- A guarded change ends with the check on a directory with the same tenants.
  unfoldable pub Guarded : Given → RequestIdentity → Directory → Directory → Type 0
  Guarded given identity dir after =
      (action : String) × ((kind : String) × ((id : Key) × ((details : Payload)
            × ((changed : Directory) × ((tenant_row identity.tenant_id changed
                    ≡ tenant_row identity.tenant_id dir)
                  × (guarded_change outside given identity action kind id details changed
                      ≡ ok after))))))

  update_member-Guarded :
      (given : Given) (identity : RequestIdentity) (membership_id : Key) (expected : ℕ)
      (roles : Option (List String)) (state : Option MembershipState) (reason : String)
      (dir : Directory) {after : Directory}
      → update_member outside texts given identity membership_id expected roles state reason dir
        ≡ ok after
      → Guarded given identity dir after
  unfolding update_member Guarded
  update_member-Guarded given identity membership_id expected roles state reason dir h =
      let permitted = >>-ok (require_tenant_permission identity "membership.write") _ h in
      let (m, (_, fresh)) =
        >>=-ok
          (or_raise (find_first (row_test identity.tenant_id membership_id) dir.db.memberships)
            (app_error not_found 404))
          _ permitted in
      let (_, (_, roled)) =
        >>=-ok (raise_if (not (m.revision == expected)) (app_error conflict 409)) _ fresh in
      let (new_roles, (_, stated)) = >>=-ok (updated_roles roles m.direct_roles) _ roled in
      let (new_state, (_, guarded)) = >>=-ok (updated_state state m.state) _ stated in
      (_, (_, (_, (_, (_, (refl, guarded))))))

  update_group-Guarded :
      (given : Given) (identity : RequestIdentity) (group_id : Key) (expected : ℕ)
      (state : Option String) (dir : Directory) {after : Directory}
      → update_group outside given identity group_id expected state dir ≡ ok after
      → Guarded given identity dir after
  unfolding update_group Guarded
  update_group-Guarded given identity group_id expected state dir h =
      let permitted = >>-ok (require_tenant_permission identity "membership.write") _ h in
      let (group, (_, fresh)) = >>=-ok (group_of dir.db identity.tenant_id group_id) _ permitted in
      let (_, (_, stated)) =
        >>=-ok (raise_if (not (group.revision == expected)) (app_error conflict 409)) _ fresh in
      let (new_state, (_, guarded)) = >>=-ok (group_state state group.state) _ stated in
      (_, (_, (_, (_, (_, (refl, guarded))))))

  set_group_member-Guarded :
      (given : Given) (identity : RequestIdentity) (group_id principal_id : Key) (active : Bool)
      (dir : Directory) {after : Directory}
      → set_group_member outside pair given identity group_id principal_id active dir ≡ ok after
      → Guarded given identity dir after
  unfolding set_group_member Guarded
  set_group_member-Guarded given identity group_id principal_id active dir h =
      let permitted = >>-ok (require_tenant_permission identity "membership.write") _ h in
      let (group, (_, grouped)) =
        >>=-ok (group_of dir.db identity.tenant_id group_id) _ permitted in
      let (principal, (_, guarded)) =
        >>=-ok
          (or_raise
            (find_first (λ p. p.id == principal_id && p.tenant_id == identity.tenant_id)
              dir.db.principals)
            (app_error not_found 404))
          _ grouped in
      (_, (_, (_, (_, (_, (refl, guarded))))))

  set_group_role-Guarded :
      (given : Given) (identity : RequestIdentity) (group_id : Key) (role : String) (active : Bool)
      (dir : Directory) {after : Directory}
      → set_group_role outside given identity group_id role active dir ≡ ok after
      → Guarded given identity dir after
  unfolding set_group_role Guarded
  set_group_role-Guarded given identity group_id role active dir h =
      let permitted = >>-ok (require_tenant_permission identity "membership.write") _ h in
      let (group, (_, grouped)) =
        >>=-ok (group_of dir.db identity.tenant_id group_id) _ permitted in
      let (roles, (_, guarded)) = >>=-ok (validate_roles (role ∷ [])) _ grouped in
      (_, (_, (_, (_, (_, (refl, guarded))))))

  pub carry_out-Guarded :
      (given : Given) (identity : RequestIdentity) (change : Change) (dir : Directory)
      {after : Directory}
      → is_guarded change ≡ true
      → carry_out given identity change dir ≡ ok after
      → Guarded given identity dir after
  unfolding carry_out
  carry_out-Guarded given identity (assigns external_id roles) dir g h = cc
  carry_out-Guarded given identity (makes_group external_id) dir g h = cc
  carry_out-Guarded given identity (updates membership_id expected roles state reason) dir g h =
      update_member-Guarded given identity membership_id expected roles state reason dir h
  carry_out-Guarded given identity (updates_group group_id expected state) dir g h =
      update_group-Guarded given identity group_id expected state dir h
  carry_out-Guarded given identity (sets_member group_id principal_id active) dir g h =
      set_group_member-Guarded given identity group_id principal_id active dir h
  carry_out-Guarded given identity (sets_role group_id role active) dir g h =
      set_group_role-Guarded given identity group_id role active dir h
