-- ===== src/Limits/Slots.antt =====
-- The counter of concurrency slots under any moves of its users
-- (backend/enterprise_rag/infrastructure/cache.py:MemoryCoordinationStore).
use llama_index_rag.Base.{
  ℕ, zero, suc, ◌≤◌, ◌+◌, ◌≡◌, refl, leb, if◌then◌else◌, List, [], ◌∷◌, arith, Bool-cases, inl, inr,
}
use llama_index_rag.Limits.{acquire_concurrency, release_concurrency}

-- A task asks for a slot, or one that holds a slot gives it back.
pub data Move : Type 0 where
  asks gives_back : Move

-- The counter of the store, and how many tasks hold a slot.
pub play : ℕ → List Move → ℕ × ℕ → ℕ × ℕ
play limit [] s = s
play limit (asks ∷ moves) (used, holders) =
    let (granted, after) = acquire_concurrency limit used in
    play limit moves (after, if granted then holders + 1 else holders)
play limit (gives_back ∷ moves) (used, zero) = play limit moves (used, zero)
play limit (gives_back ∷ moves) (used, suc holders) =
    play limit moves (release_concurrency used, holders)

play_keeps :
    (limit : ℕ) (moves : List Move) (used : ℕ)
    → used ≤ limit
    → ((play limit moves (used, used)).0 ≡ (play limit moves (used, used)).1)
      × ((play limit moves (used, used)).1 ≤ limit)
unfolding play acquire_concurrency release_concurrency
play_keeps limit [] used h = (refl, h)
play_keeps limit (asks ∷ moves) used h = elim (Bool-cases (leb limit used)) [
  | inl full ↦ ground (arith, full, play_keeps limit moves used h)
  | inr free ↦ ground (arith, free, play_keeps limit moves (suc used))
]
play_keeps limit (gives_back ∷ moves) zero h = play_keeps limit moves zero h
play_keeps limit (gives_back ∷ moves) (suc used) h = play_keeps limit moves used (omega arith)

-- Whatever tasks ask for slots and give theirs back, in any order, the counter is the number of
-- tasks that hold one, and never more than the limit.
pub slots_are_counted :
    (limit : ℕ) (moves : List Move)
    → ((play limit moves (0, 0)).0 ≡ (play limit moves (0, 0)).1)
      × ((play limit moves (0, 0)).1 ≤ limit)
slots_are_counted limit moves = play_keeps limit moves 0 (omega arith)
