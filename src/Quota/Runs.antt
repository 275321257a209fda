-- ===== src/Quota/Runs.antt =====
-- Reservations and releases of all tenants, one after the other.
use llama_index_rag.Base.{
  Key, ◌≡◌, refl, sym, ◌∙◌, ap, subst, inl, inr, ℤ, Bool, true, ◌&&◌, ◌==◌, if◌then◌else◌, Option,
  none, some, List, [], ◌∷◌, Result, ok, err, Bool-cases, eq_of_==, and_left, and_right,
}
use llama_index_rag.Access.Identity.{RequestIdentity}
use llama_index_rag.Config.{QuotaResource, Store, Outside}
use llama_index_rag.Quota.{value, UsageRecord, QuotaReservation, limit_of, reserve, release}
use llama_index_rag.Quota.Ledger.{
  Account, view, settle_on, claim_on, Implements, reserve-Implements, release-Implements,
}

pub data Move : Type 0 where
  reserves : RequestIdentity → QuotaResource → ℤ → Move
  releases : QuotaReservation → Bool → Move

-- The table that a call leaves; one that raises leaves the table.
abbrev pub table_of {ℓ} :
    {A : Type ℓ} → Result (A × List UsageRecord) → List UsageRecord → List UsageRecord
table_of (ok (_, after)) table = after
table_of (err _) table = table

unfoldable pub play : Outside → Store → List Move → List UsageRecord → List UsageRecord
play outside store [] table = table
play outside store (reserves identity resource amount ∷ moves) table =
    play outside store moves (table_of (reserve outside store identity resource amount table) table)
play outside store (releases reservation consume ∷ moves) table =
    play outside store moves (table_of (release reservation consume table) table)

-- The same moves on one account.
abbrev pub account_after : Option Account → Account → Account
account_after none a = a
account_after (some b) a = b

abbrev pub account_step : Outside → Store → Key → Key → Move → Account → Account
account_step outside store k q (reserves identity resource amount) a =
    if k == identity.tenant_id && q == value resource
    then account_after (claim_on (limit_of outside store identity.tenant_id resource) amount a) a
    else a
account_step outside store k q (releases reservation consume) a =
    if k == reservation.tenant_id && q == value reservation.resource
    then account_after (settle_on reservation.amount consume a) a
    else a

unfoldable pub account_play : Outside → Store → Key → Key → List Move → Account → Account
account_play outside store k q [] a = a
account_play outside store k q (move ∷ moves) a =
    account_play outside store k q moves (account_step outside store k q move a)

pub on_account {ℓ} :
    (t r k q : Key) (P : Key → Key → Type ℓ) → (k == t && q == r) ≡ true → P t r → P k q
on_account t r k q P same h =
    subst (λ x. P x q) (sym (eq_of_== k t (and_left (k == t) (q == r) same)))
      (subst (λ y. P t y) (sym (eq_of_== q r (and_right (k == t) (q == r) same))) h)

-- An operation that implements a step of an account does it in the view of every account.
view-Implements {ℓ} :
    {A : Type ℓ} (result : Result (A × List UsageRecord)) (promised : Account → Option Account)
    (t r : Key) (table : List UsageRecord) (k q : Key)
    → Implements result (promised (view table t r)) t r table
    → view (table_of result table) k q ≡ (
        if k == t && q == r
        then account_after (promised (view table k q)) (view table k q)
        else view table k q)
view-Implements (err e) promised t r table k q h = elim (Bool-cases (k == t && q == r)) [
  | inr other ↦ rw other refl
  | inl same ↦ rw same (
      on_account t r k q
        (λ x y. view table x y ≡ account_after (promised (view table x y)) (view table x y)) same
        (rw h refl))
]
view-Implements (ok (_, after)) promised t r table k q h = elim (Bool-cases (k == t && q == r)) [
  | inr other ↦ rw other (h.1 k q other)
  | inl same ↦ rw same (
      on_account t r k q
        (λ x y. view after x y ≡ account_after (promised (view table x y)) (view table x y)) same
        (rw h.0 refl))
]

-- The table of usage, after any moves of any tenants, holds in every account what the same moves
-- leave on that account alone.
pub play_refines :
    (outside : Outside) (store : Store) (moves : List Move) (table : List UsageRecord) (k q : Key)
    → view (play outside store moves table) k q
      ≡ account_play outside store k q moves (view table k q)
unfolding play account_play
play_refines outside store [] table k q = refl
play_refines outside store (reserves identity resource amount ∷ moves) table k q =
    play_refines outside store moves
      (table_of (reserve outside store identity resource amount table) table) k q
    ∙ ap (account_play outside store k q moves) (
        view-Implements (reserve outside store identity resource amount table)
          (claim_on (limit_of outside store identity.tenant_id resource) amount) identity.tenant_id
          (value resource) table k q
          (reserve-Implements outside store identity resource amount table))
play_refines outside store (releases reservation consume ∷ moves) table k q =
    play_refines outside store moves (table_of (release reservation consume table) table) k q
    ∙ ap (account_play outside store k q moves) (
        view-Implements (release reservation consume table) (settle_on reservation.amount consume)
          reservation.tenant_id (value reservation.resource) table k q
          (release-Implements reservation consume table))
