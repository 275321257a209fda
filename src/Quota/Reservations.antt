-- ===== src/Quota/Reservations.antt =====
-- Who holds which reservation, while all tenants reserve and release.
use llama_index_rag.Base.{
  Key, ℕ, zero, suc, ◌+◌, ◌-◌, ◌≡◌, refl, sym, ap, subst, ℤ, pos, pos_part, Bool, true, false, not,
  ◌&&◌, ◌==◌, ltb, ltb_ℤ, if◌then◌else◌, Option, none, some, List, [], ◌∷◌, get_elem?, erase_at,
  Result, ok, err, app_error, invalid_request, quota_exceeded, arith, ok-injective, >>-ok, >>=-ok,
  raise_if,
}
use llama_index_rag.Access.Identity.{RequestIdentity}
use llama_index_rag.Config.{QuotaResource, Store, Outside}
use llama_index_rag.Quota.{
  value, UsageRecord, QuotaReservation, limit_of, locked_usage, reserve_within, reserve, release,
}
use llama_index_rag.Quota.Ledger.{Account, view, spend_on, settle_on, claim_on}

-- A caller reserves, or one settles the reservation it holds at a place of the list.
pub data Turn : Type 0 where
  asks : RequestIdentity → QuotaResource → ℤ → Turn
  settles : ℕ → Bool → Turn

-- The table, and the reservations that are held.
abbrev pub Held : Type 0
Held = List UsageRecord × List QuotaReservation

abbrev pub after_ask : Held → Result (QuotaReservation × List UsageRecord) → Held
after_ask (table, held) (ok (made, after)) = (after, made ∷ held)
after_ask (table, held) (err _) = (table, held)

abbrev pub after_settle : Held → ℕ → Result (UsageRecord × List UsageRecord) → Held
after_settle (table, held) i (ok (_, after)) = (after, erase_at held i)
after_settle (table, held) i (err _) = (table, held)

abbrev pub settle_held : Held → ℕ → Bool → Option QuotaReservation → Held
settle_held (table, held) i consume none = (table, held)
settle_held (table, held) i consume (some r) =
    after_settle (table, held) i (release r consume table)

unfoldable pub take_turn : Outside → Store → Turn → Held → Held
take_turn outside store (asks identity resource amount) (table, held) =
    after_ask (table, held) (reserve outside store identity resource amount table)
take_turn outside store (settles i consume) (table, held) =
    settle_held (table, held) i consume (get_elem? held i)

unfoldable pub take_turns : Outside → Store → List Turn → Held → Held
unfolding take_turn
take_turns outside store [] s = s
take_turns outside store (turn ∷ turns) s =
    take_turns outside store turns (take_turn outside store turn s)

-- What is held of an account.
abbrev pub is_of : Key → Key → QuotaReservation → Bool
is_of k q r = k == r.tenant_id && q == value r.resource

abbrev pub held_of : Key → Key → List QuotaReservation → ℕ
held_of k q [] = 0
held_of k q (r ∷ rs) = let rest = held_of k q rs in if is_of k q r then rest + r.amount else rest

pub held_of-erase_at :
    (k q : Key) (rs : List QuotaReservation) (i : ℕ) (r : QuotaReservation)
    → get_elem? rs i ≡ some r
    → held_of k q (erase_at rs i) + (if is_of k q r then r.amount else 0) ≡ held_of k q rs
held_of-erase_at k q [] i r h = cc
held_of-erase_at k q (x ∷ rs) zero r h =
    let same : x ≡ r = cc in
    subst (λ y. held_of k q rs + (if is_of k q y then y.amount else 0) ≡ held_of k q (x ∷ rs)) same
      (ground arith)
held_of-erase_at k q (x ∷ rs) (suc i) r h = ground (arith, held_of-erase_at k q rs i r h)

unfoldable pub IsCounted : Held → Type 0
IsCounted s = (k q : Key) → (view s.0 k q).reserved ≡ held_of k q s.1

-- A step that an account accepts.
accepted :
    (refused : Bool) {x b : Account}
    → (if refused then none else some x) ≡ some b
    → (refused ≡ false) × (x ≡ b)
accepted true h = cc
accepted false h = (refl, cc)

spend_on-reserved :
    (n amount : ℕ) (a : Account) {b : Account}
    → spend_on n amount a ≡ some b
    → b.reserved ≡ a.reserved + amount
unfolding spend_on
spend_on-reserved n amount a {b} h =
    sym (ap (λ (x : Account). x.reserved) (accepted (ltb n (a.used + a.reserved + amount)) h).1)

pub claim_on-reserved :
    (limit : Result ℕ) (amount : ℤ) (a : Account) {b : Account}
    → claim_on limit amount a ≡ some b
    → b.reserved ≡ a.reserved + pos_part amount
unfolding claim_on
claim_on-reserved limit amount a {b} h = by_test (ltb_ℤ (pos 0) amount) limit h
  where
    by_test :
        (positive : Bool) (l : Result ℕ)
        → (if positive
            then elim l [ err _ ↦ none | ok n ↦ spend_on n (pos_part amount) a ]
            else none)
          ≡ some b
        → b.reserved ≡ a.reserved + pos_part amount
    by_test true (ok n) h = spend_on-reserved n (pos_part amount) a h
    by_test true (err e) h = cc
    by_test false l h = cc

pub settle_on-reserved :
    (amount : ℕ) (consume : Bool) (a : Account) {b : Account}
    → settle_on amount consume a ≡ some b
    → b.reserved + amount ≡ a.reserved
unfolding settle_on
settle_on-reserved amount consume a {b} h =
    let (covered, same) = accepted (ltb a.reserved amount) h in
    let left : a.reserved - amount ≡ b.reserved = ap (λ (x : Account). x.reserved) same in
    ground (arith, covered, left)

-- What a reservation that was made says.
pub reserve-made :
    (outside : Outside) (store : Store) (identity : RequestIdentity) (resource : QuotaResource)
    (amount : ℤ) (table : List UsageRecord) {made : QuotaReservation} {after : List UsageRecord}
    → reserve outside store identity resource amount table ≡ ok (made, after)
    → (made.tenant_id ≡ identity.tenant_id)
      × ((made.resource ≡ resource) × (made.amount ≡ pos_part amount))
unfolding reserve reserve_within
reserve-made outside store identity resource amount table {made} {after} h =
    let positive =
      >>-ok (raise_if (not (ltb_ℤ (pos 0) amount)) (app_error invalid_request 422)) _ h in
    let (n, (_, within)) = >>=-ok (limit_of outside store identity.tenant_id resource) _ positive in
    let usage = (locked_usage identity.tenant_id (value resource) table).0 in
    let same = ok-injective (
      >>-ok
        (raise_if (ltb n (usage.used + usage.reserved + pos_part amount))
          (app_error quota_exceeded 429))
        _ within) in
    (
      sym (ap (λ (x : QuotaReservation × List UsageRecord). x.0.tenant_id) same),
      (
        sym (ap (λ (x : QuotaReservation × List UsageRecord). x.0.resource) same),
        sym (ap (λ (x : QuotaReservation × List UsageRecord). x.0.amount) same),
      ),
    )
