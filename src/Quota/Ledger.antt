-- ===== src/Quota/Ledger.antt =====
-- What the quota service promises: an account of each tenant and resource, apart from the others.
use llama_index_rag.Base.{
  Key, ℕ, ◌+◌, ◌-◌, ◌≡◌, refl, sym, ◌∙◌, ap, subst, inl, inr, ℤ, pos, pos_part, Bool, false, ◌&&◌,
  ◌==◌, ltb, ltb_ℤ, if◌then◌else◌, Option, none, some, List, [], ◌∷◌, find_first, find_first_test,
  update_where, Result, ok, err, ◌>>=◌, arith, Bool-cases, ==_refl, eq_of_==, and_left, and_right,
  find_first-update_where,
}
use llama_index_rag.Access.Identity.{RequestIdentity}
use llama_index_rag.Config.{QuotaResource, Store, Outside}
use llama_index_rag.Quota.{
  value, UsageRecord, QuotaReservation, usage_test, lock_row, locked_usage, add_reserved,
  drop_reserved, reserve_within, limit_of, reserve, release,
}

-- An account: what is used and what is reserved.
pub record Account : Type 0 where
  pub used : ℕ
  pub reserved : ℕ

abbrev pub nothing : Account
nothing = record { used = 0; reserved = 0 }

-- The account that the table holds; one without a row is empty.
abbrev pub account_of : Option UsageRecord → Account
account_of none = nothing
account_of (some u) = record { used = u.used; reserved = u.reserved }

abbrev pub view : List UsageRecord → Key → Key → Account
view table tenant_id resource = account_of (find_first (usage_test tenant_id resource) table)

-- Reserving and releasing on an account; `none` says that it is refused.
unfoldable pub spend_on : ℕ → ℕ → Account → Option Account
spend_on limit amount a =
    if ltb limit (a.used + a.reserved + amount)
    then none
    else some (record a { reserved = a.reserved + amount })

unfoldable pub settle_on : ℕ → Bool → Account → Option Account
settle_on amount consume a =
    if ltb a.reserved amount
    then none
    else some (record {
      used = if consume then a.used + amount else a.used;
      reserved = a.reserved - amount;
    })

-- Locking a row changes no account, and the row that it gives is the one the table finds.
pub view-locked_usage :
    (t r : Key) (table : List UsageRecord) (k q : Key)
    → view (locked_usage t r table).1 k q ≡ view table k q
unfolding locked_usage
view-locked_usage t r table k q = by_row (find_first (usage_test t r) table) refl
  where
    by_row :
        (o : Option UsageRecord)
        → find_first (usage_test t r) table ≡ o
        → view (lock_row t r table o).1 k q ≡ view table k q
    by_row (some u) found = refl
    by_row none missing = elim (Bool-cases (t == k && r == q)) [
      | inl same ↦
          let here : t ≡ k = eq_of_== t k (and_left (t == k) (r == q) same) in
          let there : r ≡ q = eq_of_== r q (and_right (t == k) (r == q) same) in
          rw same (
            subst (λ x. nothing ≡ view table x q) here
              (subst (λ y. nothing ≡ view table t y) there (ap account_of (sym missing))))
      | inr other ↦ rw other refl
    ]

pub find_first-locked_usage :
    (t r : Key) (table : List UsageRecord)
    → find_first (usage_test t r) (locked_usage t r table).1 ≡ some (locked_usage t r table).0
unfolding locked_usage
find_first-locked_usage t r table = by_row (find_first (usage_test t r) table) refl
  where
    by_row :
        (o : Option UsageRecord)
        → find_first (usage_test t r) table ≡ o
        → find_first (usage_test t r) (lock_row t r table o).1 ≡ some (lock_row t r table o).0
    by_row (some u) found = found
    by_row none missing = rw (==_refl t, ==_refl r) refl

-- A change of the row changes its own account.
pub view-update_self :
    (t r : Key) (f : UsageRecord → UsageRecord) (table : List UsageRecord) (u : UsageRecord)
    → ((x : UsageRecord) → usage_test t r (f x) ≡ usage_test t r x)
    → find_first (usage_test t r) table ≡ some u
    → view (update_where (usage_test t r) f table) t r ≡ account_of (some (f u))
view-update_self t r f table u same found =
    ap account_of (find_first-update_where (usage_test t r) (usage_test t r) f same table u found)
    ∙ rw (find_first_test (usage_test t r) table found) refl

pub view-update_other :
    (t r k q : Key) (f : UsageRecord → UsageRecord) (table : List UsageRecord)
    → ((x : UsageRecord) → usage_test k q (f x) ≡ usage_test k q x)
    → (k == t && q == r) ≡ false
    → view (update_where (usage_test t r) f table) k q ≡ view table k q
view-update_other t r k q f [] same other = refl
view-update_other t r k q f (x ∷ xs) same other = elim (Bool-cases (usage_test k q x)) [
  | inl hit ↦
      let apart : usage_test t r x ≡ false = ground (arith, hit, other) in rw (apart, hit) refl
  | inr miss ↦
      let rest = view-update_other t r k q f xs same other in
      elim (Bool-cases (usage_test t r x)) [
        | inl changed ↦ rw (changed, same x ∙ miss, miss) rest
        | inr kept ↦ rw (kept, miss) rest
      ]
]

-- What an operation leaves: the account of its tenant and resource as the specification says, the
-- others as they were; a refused operation is one that the specification refuses.
abbrev pub Implements {ℓ} :
    {A : Type ℓ}
    → Result (A × List UsageRecord)
    → Option Account
    → Key
    → Key
    → List UsageRecord
    → Type 0
Implements (ok (_, after)) promised t r table =
    (promised ≡ some (view after t r))
    × ((k q : Key) → (k == t && q == r) ≡ false → view after k q ≡ view table k q)
Implements (err e) promised t r table = promised ≡ none

-- The view of the row that is locked.
view-row :
    (t r : Key) (table : List UsageRecord)
    → view table t r ≡ account_of (some (locked_usage t r table).0)
view-row t r table =
    sym (view-locked_usage t r table t r) ∙ ap account_of (find_first-locked_usage t r table)

reserve_within-Implements :
    (limit : ℕ) (t : Key) (resource : QuotaResource) (amount : ℕ) (table : List UsageRecord)
    → Implements
        (reserve_within limit t resource amount table)
        (spend_on limit amount (view table t (value resource)))
        t
        (value resource)
        table
unfolding reserve_within spend_on
reserve_within-Implements limit t resource amount table =
    let u = (locked_usage t (value resource) table).0 in
    let held = (locked_usage t (value resource) table).1 in
    rw (view-row t (value resource) table)
      (elim (Bool-cases (ltb limit (u.used + u.reserved + amount))) [
        | inl over ↦ rw over refl
        | inr within ↦ rw within (
          ap some (
              sym (
                view-update_self t (value resource) (add_reserved amount) held u (λ x. refl)
                  (find_first-locked_usage t (value resource) table))),
          λ k q other.
              view-update_other t (value resource) k q (add_reserved amount) held (λ x. refl) other
              ∙ view-locked_usage t (value resource) table k q,
        )
      ])

pub release-Implements :
    (reservation : QuotaReservation) (consume : Bool) (table : List UsageRecord)
    → Implements
        (release reservation consume table)
        (settle_on reservation.amount consume
          (view table reservation.tenant_id (value reservation.resource)))
        reservation.tenant_id
        (value reservation.resource)
        table
unfolding release settle_on
release-Implements reservation consume table =
    let t = reservation.tenant_id in
    let r = value reservation.resource in
    let u = (locked_usage t r table).0 in
    let held = (locked_usage t r table).1 in
    let change = drop_reserved reservation.amount consume in
    rw (view-row t r table) (elim (Bool-cases (ltb u.reserved reservation.amount)) [
      | inl stale ↦ rw stale refl
      | inr covered ↦ rw covered (
        ap some (
            sym
              (view-update_self t r change held u (λ x. refl) (find_first-locked_usage t r table))),
        λ k q other.
            view-update_other t r k q change held (λ x. refl) other
            ∙ view-locked_usage t r table k q,
      )
    ])

-- `reserve` on an account: the amount has to be positive and a limit known.
unfoldable pub claim_on : Result ℕ → ℤ → Account → Option Account
claim_on limit amount a =
    if ltb_ℤ (pos 0) amount
    then elim limit [ err _ ↦ none | ok n ↦ spend_on n (pos_part amount) a ]
    else none

pub reserve-Implements :
    (outside : Outside) (store : Store) (identity : RequestIdentity) (resource : QuotaResource)
    (amount : ℤ) (table : List UsageRecord)
    → Implements
        (reserve outside store identity resource amount table)
        (claim_on
          (limit_of outside store identity.tenant_id resource)
          amount
          (view table identity.tenant_id (value resource)))
        identity.tenant_id
        (value resource)
        table
unfolding reserve claim_on
reserve-Implements outside store identity resource amount table =
    elim (Bool-cases (ltb_ℤ (pos 0) amount)) [
      | inr refused ↦ rw refused refl
      | inl positive ↦ rw positive (by_limit (limit_of outside store identity.tenant_id resource))
    ]
  where
    by_limit :
        (limit : Result ℕ)
        → Implements
            (limit >>= (λ n. reserve_within n identity.tenant_id resource (pos_part amount) table))
            (elim limit [
              | err _ ↦ none
              | ok n ↦ spend_on n (pos_part amount) (view table identity.tenant_id (value resource))
            ])
            identity.tenant_id
            (value resource)
            table
    by_limit (err e) = refl
    by_limit (ok n) =
        reserve_within-Implements n identity.tenant_id resource (pos_part amount) table
