-- ===== src/Limits/Tests.antt =====
-- Examples of limits.
use llama_index_rag.Base.{Time, ◌≤◌, ◌≡◌, List, [], ◌∷◌, count_if, arith}
use llama_index_rag.Limits.Window.{admitted, IsAscending, within, rate_is_limited}
use llama_index_rag.Limits.Slots.{Move, asks, gives_back, play, slots_are_counted}

abbrev calls : List Time
calls = 1 ∷ 5 ∷ 6 ∷ 30 ∷ 62 ∷ []

calls-IsAscending : IsAscending calls
calls-IsAscending = ground arith

rate_is_limited_example : count_if (within 3 60) (admitted 2 60 calls []) ≤ 2
rate_is_limited_example = rate_is_limited 2 60 3 calls calls-IsAscending

abbrev moves : List Move
moves = asks ∷ asks ∷ asks ∷ gives_back ∷ asks ∷ []

slots_are_counted_example :
    ((play 2 moves (0, 0)).0 ≡ (play 2 moves (0, 0)).1) × ((play 2 moves (0, 0)).1 ≤ 2)
slots_are_counted_example = slots_are_counted 2 moves
