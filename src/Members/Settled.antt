-- ===== src/Members/Settled.antt =====
-- What accepting an invitation and recovering an administrator leave.
use Prim.Native.String.{String, compare}
use Prim.Native.Nat.{Ordering, lt, eq, gt}
use text.Mathlib.Text.{◌==◌ as str_eq}
use llama_index_rag.Base.{
  ◌++◌, Option-cases, Key, ℕ, ◌≡◌, refl, sym, ◌∙◌, ap, subst, inl, inr, Bool, true, false, not,
  ◌&&◌, ◌==◌, leb, Option, none, some, List, [], ◌∷◌, find_first, find_first_test,
  find_first-update_where, update_where, keep, count_if, ok, err, app_error, not_found, arith,
  Bool-cases, ==_refl, and_left, >>=-ok, >>-ok, or_raise-ok, ok-injective, is_ok-result, or_raise,
  raise_if,
}
use llama_index_rag.Access.Identity.{
  Role, administrator, editor, reader, quality, operator, Role-discrete, parse_role,
  AuthenticatedSubject, RequestIdentity,
}
use llama_index_rag.Access.Permission.{require_platform_permission}
use llama_index_rag.Access.Context.{
  Tenant, Membership, Database, principal_test, membership_test, parse_roles, effective_roles,
  is_active,
}
use llama_index_rag.Retrieval.Scope.{bump_acl_epoch}
use llama_index_rag.Config.{Outside}
use llama_index_rag.Members.{
  Directory, Invitation, Given, audited, enroll, is_administrator, administers,
  active_administrator_count,
}
use llama_index_rag.Members.Invitations.{is_pending, settle_row, join_tenant, accept_invitation}
use llama_index_rag.Members.Recovery.{
  insert_text, sorted_texts, restore, restore_row, recover_administrator,
}

-- The invitation is settled by the writing part.
join_tenant-invitations :
    (outside : Outside) (given : Given) (subject : AuthenticatedSubject) (invitation : Invitation)
    (dir : Directory) {identity : RequestIdentity} {after : Directory}
    → join_tenant outside given subject invitation dir ≡ ok (identity, after)
    → (principal_id : Key) × (after.invitations
        ≡ update_where
            (λ i. i.id == invitation.id)
            (settle_row given.now principal_id)
            dir.invitations)
unfolding join_tenant audited
join_tenant-invitations outside given subject invitation dir h =
    let t = invitation.tenant_id in
    let principal =
      (enroll given t subject.subject_id dir.db.principals
        (find_first (principal_test t subject.subject_id) dir.db.principals)).0 in
    let (_, (_, made)) = >>=-ok (bump_acl_epoch dir.db.tenants t) _ h in
    (
      principal.id,
      ap (λ (r : RequestIdentity × Directory). r.1.invitations) (sym (ok-injective made)),
    )

-- A token that was accepted is refused when it is presented again to the rows that the acceptance
-- leaves, at any time and by any subject.
pub invitation_accepted_once :
    (outside : Outside) (hash : Key → Key) (given later : Given)
    (subject other : AuthenticatedSubject) (claim other_claim token : Key) (dir : Directory)
    {identity : RequestIdentity} {after : Directory}
    → accept_invitation outside hash given subject claim token dir ≡ ok (identity, after)
    → accept_invitation outside hash later other other_claim token after
      ≡ err (app_error not_found 404)
unfolding accept_invitation
invitation_accepted_once outside hash given later subject other claim other_claim token dir
      {identity} {after} h =
    let wanted = λ (i : Invitation). i.token_hash == hash token in
    let (invitation, (known, pending)) =
      >>=-ok (or_raise (find_first wanted dir.invitations) (app_error not_found 404)) _ h in
    let (_, (_, timely)) =
      >>=-ok (raise_if (not (is_pending invitation.state)) (app_error not_found 404)) _ pending in
    let (_, (_, addressed)) =
      >>=-ok (raise_if (leb invitation.expires_at given.now) (app_error not_found 404)) _ timely in
    let (_, (_, joined)) =
      >>=-ok (raise_if (not (claim == invitation.destination)) (app_error not_found 404)) _
        addressed in
    let (principal_id, rows) =
      join_tenant-invitations outside given subject invitation dir joined in
    let there : find_first wanted dir.invitations ≡ some invitation =
      or_raise-ok (find_first wanted dir.invitations) (app_error not_found 404) known in
    let settled : find_first wanted after.invitations
        ≡ some (settle_row given.now principal_id invitation) =
      ap (find_first wanted) rows
      ∙ (find_first-update_where wanted (λ i. i.id == invitation.id)
            (settle_row given.now principal_id) (λ i. refl) dir.invitations invitation there
          ∙ rw (==_refl invitation.id) refl) in
    rw settled refl

-- A row that a query finds is counted where it satisfies the tests of the count.
count-find_first :
    (q k p : Membership → Bool) (rows : List Membership) (m : Membership)
    → find_first q rows ≡ some m
    → k m ≡ true
    → p m ≡ true
    → (count_if p (keep k rows) == 0) ≡ false
count-find_first q k p [] m found kept counted = cc
count-find_first q k p (x ∷ rows) m found kept counted = elim (Bool-cases (q x)) [
  | inl hit ↦
      let same : x ≡ m = ground (arith, found, hit) in
      let here : k x ≡ true = ap k same ∙ kept in
      let there : p x ≡ true = ap p same ∙ counted in rw (here, there) (ground arith)
  | inr miss ↦
      let below : find_first q rows ≡ some m = ground (arith, found, miss) in
      ground (arith, count-find_first q k p rows m below kept counted)
]

among_behind :
    (role : Role) (roles : List Role)
    → is_administrator roles ≡ true
    → is_administrator (role ∷ roles) ≡ true
unfolding Role-discrete
among_behind administrator roles h = refl
among_behind editor roles h = h
among_behind reader roles h = h
among_behind quality roles h = h
among_behind operator roles h = h

-- A text in front takes no role away.
administrator_behind :
    (x : String) (texts : List String)
    → is_administrator (parse_roles texts) ≡ true
    → is_administrator (parse_roles (x ∷ texts)) ≡ true
administrator_behind x texts h = elim (Option-cases (parse_role x)) [
  | inl skipped ↦ ground (arith, skipped, h)
  | inr (role, parsed) ↦ ground (arith, parsed, among_behind role (parse_roles texts) h)
]

-- A text that is equal to the name of the role gives the role.
administrator_first :
    (x : String) (texts : List String)
    → str_eq x "administrator" ≡ true
    → is_administrator (parse_roles (x ∷ texts)) ≡ true
unfolding parse_role Role-discrete
administrator_first x texts h =
    let parsed : parse_role x ≡ some administrator = rw h refl in ground (arith, parsed)

-- The role is among those of the texts, wherever it is inserted.
insert_text-administrator :
    (texts more : List String)
    → is_administrator (parse_roles (insert_text "administrator" texts ++ more)) ≡ true
unfolding insert_text
insert_text-administrator [] more = administrator_first "administrator" more refl
insert_text-administrator (x ∷ texts) more = elim (Bool-cases (str_eq x "administrator")) [
  | inl here ↦ rw here (administrator_first x (texts ++ more) here)
  | inr elsewhere ↦
      let below = insert_text-administrator texts more in
      rw elsewhere (ordered (compare "administrator" x) below)
]
  where
    ordered :
        (o : Ordering)
        → is_administrator (parse_roles (insert_text "administrator" texts ++ more)) ≡ true
        → is_administrator (
            parse_roles (
              (elim o [
                | gt ↦ x ∷ insert_text "administrator" texts
                | _ ↦ "administrator" ∷ x ∷ texts
              ])
              ++ more))
          ≡ true
    ordered lt below = administrator_first "administrator" (x ∷ (texts ++ more)) refl
    ordered eq below = administrator_first "administrator" (x ∷ (texts ++ more)) refl
    ordered gt below = administrator_behind x (insert_text "administrator" texts ++ more) below

-- A membership with the role among its texts administers.
restored-administers :
    (db : Database) (t : Key) (m : Membership) → administers db t (restore m) ≡ true
unfolding effective_roles
restored-administers db t m = insert_text-administrator (sorted_texts m.direct_roles) _

-- The count of `_active_administrator_count`, on any rows.
abbrev counted_in : Database → Key → List Membership → ℕ
counted_in db t rows =
    count_if (administers db t) (keep (λ m. m.tenant_id == t && is_active m.state) rows)

restore_row-counted :
    (db : Database) (given : Given) (t principal_id : Key) (rows : List Membership)
    (o : Option Membership)
    → find_first (membership_test t principal_id) rows ≡ o
    → (counted_in db t (restore_row given t principal_id rows o).1 == 0) ≡ false
unfolding effective_roles parse_role Role-discrete
restore_row-counted db given t principal_id rows none missing =
    count-find_first (λ m. true) (λ m. m.tenant_id == t && is_active m.state) (administers db t)
      (restore_row given t principal_id rows none).1 _ refl (rw (==_refl t) refl) refl
restore_row-counted db given t principal_id rows (some m) found =
    let own = find_first_test (membership_test t principal_id) rows found in
    count-find_first (membership_test t principal_id) (λ m. m.tenant_id == t && is_active m.state)
      (administers db t) (update_where (λ x. x.id == m.id) restore rows) (restore m)
      (find_first-update_where (membership_test t principal_id) (λ x. x.id == m.id) restore
          (λ x. refl) rows m found
        ∙ rw (==_refl m.id) refl)
      (rw (and_left (m.tenant_id == t) (m.principal_id == principal_id) own) refl)
      (restored-administers db t m)

recovered-administrator :
    (outside : Outside) (hash : Key → Key) (given : Given) (subject : AuthenticatedSubject)
    (t external_id : Key) (dir : Directory) {after : Directory}
    → recover_administrator outside hash given subject t external_id dir ≡ ok after
    → (active_administrator_count after.db t == 0) ≡ false
unfolding recover_administrator audited active_administrator_count
recovered-administrator outside hash given subject t external_id dir {after} h =
    let permitted = >>-ok (require_platform_permission subject "platform.tenant.recovery") _ h in
    let (_, (_, exists)) =
      >>=-ok (or_raise (find_first (λ t'. t'.id == t) dir.db.tenants) (app_error not_found 404)) _
        permitted in
    let (_, (_, made)) = >>=-ok (bump_acl_epoch dir.db.tenants t) _ exists in
    let principal =
      (enroll given t external_id dir.db.principals
        (find_first (principal_test t external_id) dir.db.principals)).0 in
    let found = find_first (membership_test t principal.id) dir.db.memberships in
    subst (λ (d : Directory). (counted_in d.db t d.db.memberships == 0) ≡ false) (ok-injective made)
      (restore_row-counted _ given t principal.id dir.db.memberships found refl)

-- The platform can recover an administrator of a tenant that exists, and then the tenant has one
-- that is active, whatever the states and the roles of its members were.
pub recovery_leaves_administrator :
    (outside : Outside) (hash : Key → Key) (given : Given) (subject : AuthenticatedSubject)
    (t external_id : Key) (dir : Directory) (tenant : Tenant)
    → require_platform_permission subject "platform.tenant.recovery" ≡ ok tt
    → find_first (λ x. x.id == t) dir.db.tenants ≡ some tenant
    → (after : Directory) × ((recover_administrator outside hash given subject t external_id dir
          ≡ ok after)
        × ((active_administrator_count after.db t == 0) ≡ false))
unfolding recover_administrator bump_acl_epoch
recovery_leaves_administrator outside hash given subject t external_id dir tenant permitted exists =
    let (after, done) =
      is_ok-result (recover_administrator outside hash given subject t external_id dir)
        (rw (permitted, exists) refl) in
    (after, (done, recovered-administrator outside hash given subject t external_id dir done))
