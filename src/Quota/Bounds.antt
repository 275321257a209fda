-- ===== src/Quota/Bounds.antt =====
-- The limit of a quota under the moves of all tenants.
use llama_index_rag.Base.{
  Key, ℕ, ◌+◌, ◌≤◌, ◌≡◌, refl, sym, ◌∙◌, ap, subst, inl, inr, ℤ, pos, pos_part, Bool, true, false,
  ◌&&◌, ◌==◌, ltb, ltb_ℤ, if◌then◌else◌, List, [], ◌∷◌, Result, ok, arith, Bool-cases, eq_of_==,
  and_left, and_right,
}
use llama_index_rag.Config.{
  QuotaResource, members, groups, knowledge_spaces, documents, stored_bytes, provider_units, Store,
  Outside,
}
use llama_index_rag.Quota.{value, UsageRecord, limit_of}
use llama_index_rag.Quota.Ledger.{Account, view, spend_on, settle_on, claim_on}
use llama_index_rag.Quota.Runs.{
  Move, reserves, releases, play, account_after, account_step, account_play, play_refines,
}

-- On one account, reserving and releasing keep the sum within the limit.
spend_on_bounded :
    (limit amount : ℕ) (a : Account)
    → a.used + a.reserved ≤ limit
    → (account_after (spend_on limit amount a) a).used
        + (account_after (spend_on limit amount a) a).reserved
      ≤ limit
unfolding spend_on
spend_on_bounded limit amount a h = elim (Bool-cases (ltb limit (a.used + a.reserved + amount))) [
  | inl over ↦ rw over h
  | inr within ↦ rw within (ground (arith, within))
]

settle_on_bounded :
    (limit amount : ℕ) (consume : Bool) (a : Account)
    → a.used + a.reserved ≤ limit
    → (account_after (settle_on amount consume a) a).used
        + (account_after (settle_on amount consume a) a).reserved
      ≤ limit
unfolding settle_on
settle_on_bounded limit amount true a h = elim (Bool-cases (ltb a.reserved amount)) [
  | inl stale ↦ rw stale h
  | inr covered ↦ rw covered (ground (arith, covered))
]
settle_on_bounded limit amount false a h = elim (Bool-cases (ltb a.reserved amount)) [
  | inl stale ↦ rw stale h
  | inr covered ↦ rw covered (ground (arith, covered))
]

-- The resource that a number stands for.
abbrev resource_of : Key → QuotaResource
resource_of k =
    if k == 0
    then documents
    else if k == 1
    then groups
    else if k == 2
    then knowledge_spaces
    else if k == 3
    then members
    else if k == 4
    then provider_units
    else stored_bytes

resource_of-value : (resource : QuotaResource) → resource_of (value resource) ≡ resource
resource_of-value members = refl
resource_of-value groups = refl
resource_of-value knowledge_spaces = refl
resource_of-value documents = refl
resource_of-value stored_bytes = refl
resource_of-value provider_units = refl

pub value_injective : (a b : QuotaResource) → (value a == value b) ≡ true → a ≡ b
value_injective a b h =
    sym (resource_of-value a)
    ∙ (ap resource_of (eq_of_== (value a) (value b) h) ∙ resource_of-value b)

claim_on_bounded :
    (limit : Result ℕ) (n : ℕ) (amount : ℤ) (a : Account)
    → limit ≡ ok n
    → a.used + a.reserved ≤ n
    → (account_after (claim_on limit amount a) a).used
        + (account_after (claim_on limit amount a) a).reserved
      ≤ n
unfolding claim_on
claim_on_bounded limit n amount a known h = elim (Bool-cases (ltb_ℤ (pos 0) amount)) [
  | inl positive ↦ rw (positive, known) (spend_on_bounded n (pos_part amount) a h)
  | inr refused ↦ rw refused h
]

account_step_bounded :
    (outside : Outside) (store : Store) (k : Key) (resource : QuotaResource) (n : ℕ) (move : Move)
    (a : Account)
    → limit_of outside store k resource ≡ ok n
    → a.used + a.reserved ≤ n
    → (account_step outside store k (value resource) move a).used
        + (account_step outside store k (value resource) move a).reserved
      ≤ n
account_step_bounded outside store k resource n (reserves identity asked amount) a known h =
    elim (Bool-cases (k == identity.tenant_id && value resource == value asked)) [
      | inr other ↦ rw other h
      | inl same ↦
          let tenant_eq : k ≡ identity.tenant_id =
            eq_of_== k identity.tenant_id
              (and_left (k == identity.tenant_id) (value resource == value asked) same) in
          let resource_eq : resource ≡ asked =
            value_injective resource asked
              (and_right (k == identity.tenant_id) (value resource == value asked) same) in
          let limit : limit_of outside store identity.tenant_id asked ≡ ok n =
            subst (λ x. limit_of outside store x asked ≡ ok n) tenant_eq
              (subst (λ y. limit_of outside store k y ≡ ok n) resource_eq known) in
          rw same
            (claim_on_bounded (limit_of outside store identity.tenant_id asked) n amount a limit h)
    ]
account_step_bounded outside store k resource n (releases reservation consume) a known h =
    elim (Bool-cases (k == reservation.tenant_id && value resource == value reservation.resource)) [
      | inr other ↦ rw other h
      | inl same ↦ rw same (settle_on_bounded n reservation.amount consume a h)
    ]

account_play_bounded :
    (outside : Outside) (store : Store) (k : Key) (resource : QuotaResource) (n : ℕ)
    (moves : List Move) (a : Account)
    → limit_of outside store k resource ≡ ok n
    → a.used + a.reserved ≤ n
    → (account_play outside store k (value resource) moves a).used
        + (account_play outside store k (value resource) moves a).reserved
      ≤ n
unfolding account_play
account_play_bounded outside store k resource n [] a known h = h
account_play_bounded outside store k resource n (move ∷ moves) a known h =
    account_play_bounded outside store k resource n moves
      (account_step outside store k (value resource) move a) known
      (account_step_bounded outside store k resource n move a known h)

-- With the limit that the active configuration of a tenant gives a resource, no moves of any
-- tenants make what is used and reserved of it exceed that limit, if it does not do so at first.
pub quota_not_exceeded :
    (outside : Outside) (store : Store) (k : Key) (resource : QuotaResource) (n : ℕ)
    (moves : List Move) (table : List UsageRecord)
    → limit_of outside store k resource ≡ ok n
    → (view table k (value resource)).used + (view table k (value resource)).reserved ≤ n
    → (view (play outside store moves table) k (value resource)).used
        + (view (play outside store moves table) k (value resource)).reserved
      ≤ n
quota_not_exceeded outside store k resource n moves table known h =
    subst (λ (a : Account). a.used + a.reserved ≤ n)
      (sym (play_refines outside store moves table k (value resource)))
      (account_play_bounded outside store k resource n moves (view table k (value resource)) known
        h)
