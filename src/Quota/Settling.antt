-- ===== src/Quota/Settling.antt =====
-- Reservations that are held while all tenants reserve and release.
use llama_index_rag.Base.{
  Key, ℕ, ◌+◌, ◌≤◌, ◌≡◌, refl, sym, ◌∙◌, ap, subst, inl, inr, ℤ, pos_part, Bool, true, false, ◌&&◌,
  ◌==◌, ltb, if◌then◌else◌, none, some, List, [], ◌∷◌, get_elem?, erase_at, ok, arith, Bool-cases,
  Option-cases, Result-cases, ==_refl,
}
use llama_index_rag.Access.Identity.{RequestIdentity}
use llama_index_rag.Config.{QuotaResource, Store, Outside}
use llama_index_rag.Quota.{value, UsageRecord, QuotaReservation, limit_of, reserve, release}
use llama_index_rag.Quota.Ledger.{
  Account, view, settle_on, claim_on, Implements, reserve-Implements, release-Implements,
}
use llama_index_rag.Quota.Runs.{on_account}
use llama_index_rag.Quota.Reservations.{
  Turn, asks, settles, Held, after_ask, after_settle, take_turn, take_turns, is_of, held_of,
  held_of-erase_at, IsCounted, claim_on-reserved, settle_on-reserved, reserve-made,
}

ask-IsCounted :
    (outside : Outside) (store : Store) (identity : RequestIdentity) (resource : QuotaResource)
    (amount : ℤ) (table : List UsageRecord) (held : List QuotaReservation)
    → IsCounted (table, held)
    → IsCounted (after_ask (table, held) (reserve outside store identity resource amount table))
unfolding IsCounted
ask-IsCounted outside store identity resource amount table held h =
    elim (Result-cases (reserve outside store identity resource amount table)) [
      | inr (e, refused) ↦ rw refused h
      | inl ((made, after), done) ↦
          let t = identity.tenant_id in
          let r = value resource in
          let promised = claim_on (limit_of outside store t resource) amount (view table t r) in
          let (kept, others) =
            subst (λ result. Implements result promised t r table) done
              (reserve-Implements outside store identity resource amount table) in
          let (tenant_eq, (resource_eq, amount_eq)) =
            reserve-made outside store identity resource amount table done in
          let of_made : (k q : Key) → is_of k q made ≡ (k == t && q == r) = λ k q.
            ap (λ x. k == x && q == value made.resource) tenant_eq
            ∙ ap (λ x. k == t && q == value x) resource_eq in
          let grown : (view after t r).reserved ≡ (view table t r).reserved + pos_part amount =
            claim_on-reserved (limit_of outside store t resource) amount (view table t r) kept in
          rw done (λ k q. elim (Bool-cases (k == t && q == r)) [
            | inl same ↦
                rw (of_made k q, same)
                  (on_account t r k q
                      (λ x y.
                        (view after x y).reserved ≡ (view table x y).reserved + pos_part amount)
                      same grown
                    ∙ rw (h k q, amount_eq) refl)
            | inr other ↦
                rw (of_made k q, other)
                  (ap (λ (a : Account). a.reserved) (others k q other) ∙ h k q)
          ])
    ]

settle_on-IsCounted :
    (table : List UsageRecord) (held : List QuotaReservation) (i : ℕ) (consume : Bool)
    (r : QuotaReservation)
    → get_elem? held i ≡ some r
    → IsCounted (table, held)
    → IsCounted (after_settle (table, held) i (release r consume table))
unfolding IsCounted
settle_on-IsCounted table held i consume r at_i h = elim (Result-cases (release r consume table)) [
  | inr (e, refused) ↦ rw refused h
  | inl ((usage, after), done) ↦
      let t = r.tenant_id in
      let v = value r.resource in
      let (kept, others) =
        subst (λ result. Implements result (settle_on r.amount consume (view table t v)) t v table)
          done (release-Implements r consume table) in
      let less : (view after t v).reserved + r.amount ≡ (view table t v).reserved =
        settle_on-reserved r.amount consume (view table t v) kept in
      rw done (λ k q.
        let counted : (view table k q).reserved ≡ held_of k q held = h k q in
        let erased = held_of-erase_at k q held i r at_i in
        elim (Bool-cases (k == t && q == v)) [
          | inl same ↦
              let here : (view after k q).reserved + r.amount ≡ (view table k q).reserved =
                on_account t v k q
                  (λ x y. (view after x y).reserved + r.amount ≡ (view table x y).reserved) same
                  less in
              let gone : held_of k q (erase_at held i) + r.amount ≡ held_of k q held =
                subst
                  (λ b.
                    held_of k q (erase_at held i) + (if b then r.amount else 0) ≡ held_of k q held)
                  same erased in
              omega (arith, here, gone, counted)
          | inr other ↦
              let gone : held_of k q (erase_at held i) + 0 ≡ held_of k q held =
                subst
                  (λ b.
                    held_of k q (erase_at held i) + (if b then r.amount else 0) ≡ held_of k q held)
                  other erased in
              let unchanged = ap (λ (a : Account). a.reserved) (others k q other) in
              omega (arith, unchanged, gone, counted)
        ])
]

turn-IsCounted :
    (outside : Outside) (store : Store) (turn : Turn) (s : Held)
    → IsCounted s
    → IsCounted (take_turn outside store turn s)
unfolding take_turn
turn-IsCounted outside store (asks identity resource amount) (table, held) h =
    ask-IsCounted outside store identity resource amount table held h
turn-IsCounted outside store (settles i consume) (table, held) h =
    elim (Option-cases (get_elem? held i)) [
      | inl missing ↦ rw missing h
      | inr (r, found) ↦ rw found (settle_on-IsCounted table held i consume r found h)
    ]

turns-IsCounted :
    (outside : Outside) (store : Store) (turns : List Turn) (s : Held)
    → IsCounted s
    → IsCounted (take_turns outside store turns s)
unfolding take_turns
turns-IsCounted outside store [] s h = h
turns-IsCounted outside store (turn ∷ turns) s h =
    turns-IsCounted outside store turns (take_turn outside store turn s)
      (turn-IsCounted outside store turn s h)

-- Starting from an empty table, after any turns of any tenants: what is reserved in an account is
-- the sum of the reservations that are held of it.
pub reserved_is_held :
    (outside : Outside) (store : Store) (turns : List Turn) (k q : Key)
    → (view (take_turns outside store turns ([], [])).0 k q).reserved
      ≡ held_of k q (take_turns outside store turns ([], [])).1
unfolding IsCounted
reserved_is_held outside store turns = turns-IsCounted outside store turns ([], []) (λ k q. refl)

held_of-get_elem? :
    (rs : List QuotaReservation) (i : ℕ) (r : QuotaReservation)
    → get_elem? rs i ≡ some r
    → r.amount ≤ held_of r.tenant_id (value r.resource) rs
held_of-get_elem? rs i r found =
    let erased = held_of-erase_at r.tenant_id (value r.resource) rs i r found in
    let own : is_of r.tenant_id (value r.resource) r ≡ true =
      rw (==_refl r.tenant_id, ==_refl (value r.resource)) refl in
    let sum =
      subst
        (λ b.
          held_of r.tenant_id (value r.resource) (erase_at rs i) + (if b then r.amount else 0)
          ≡ held_of r.tenant_id (value r.resource) rs)
        own erased in
    omega (arith, sum)

-- Starting from an empty table, after any turns of any tenants: the release of each reservation
-- that is held succeeds, whether it is consumed or not.
pub held_can_be_released :
    (outside : Outside) (store : Store) (turns : List Turn) (i : ℕ) (r : QuotaReservation)
    (consume : Bool)
    → get_elem? (take_turns outside store turns ([], [])).1 i ≡ some r
    → (after : UsageRecord × List UsageRecord) × (release r consume
          (take_turns outside store turns ([], [])).0
        ≡ ok after)
unfolding settle_on
held_can_be_released outside store turns i r consume found =
    let table = (take_turns outside store turns ([], [])).0 in
    let held = (take_turns outside store turns ([], [])).1 in
    let t = r.tenant_id in
    let v = value r.resource in
    elim (Result-cases (release r consume table)) [
      | inl done ↦ done
      | inr (e, refused) ↦
          let enough : r.amount ≤ (view table t v).reserved =
            subst (λ n. r.amount ≤ n) (sym (reserved_is_held outside store turns t v))
              (held_of-get_elem? held i r found) in
          let covered : ltb (view table t v).reserved r.amount ≡ false = ground (arith, enough) in
          let never =
            subst
              (λ result. Implements result (settle_on r.amount consume (view table t v)) t v table)
              refused (release-Implements r consume table) in
          absurd (settled_none _ (ltb (view table t v).reserved r.amount) covered never)
    ]
  where
    settled_none : (x : Account) (b : Bool) → b ≡ false → (if b then none else some x) ≡ none → ⊥
    settled_none x true h e = cc
    settled_none x false h e = cc
