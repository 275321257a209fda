-- ===== src/Limits.antt =====
-- Limits of rate and concurrency (backend/enterprise_rag/infrastructure/limits.py and cache.py:
-- MemoryCoordinationStore). The deque of one key is a list, oldest first; the time of a call is an
-- argument.
pub mod Window
pub mod Slots
mod Tests
use llama_index_rag.Base.{
  Key, Time, ℕ, zero, suc, ◌+◌, ◌-◌, Bool, true, false, leb, if◌then◌else◌, List, [], ◌∷◌, ◌++◌,
  length, Result, ok, app_error, rate_limited, err,
}

-- The loop that drops what is as old as the window is long: `now - t >= span`.
unfoldable pub drop_old : ℕ → Time → List Time → List Time
drop_old span now [] = []
drop_old span now (t ∷ ts) =
    let rest = drop_old span now ts in if leb (t + span) now then rest else t ∷ ts

-- `check_rate` of one key, and also `_check_rate_limit` of the model gateway: whether the call is
-- admitted, and the deque.
unfoldable pub check_rate : ℕ → ℕ → Time → List Time → Bool × List Time
check_rate limit span now window =
    let live = drop_old span now window in
    if leb limit (length live) then (false, live) else (true, live ++ now ∷ [])

-- `SlidingWindowRateLimiter.check` of one key: the deque stays, the exception is the result.
unfoldable pub check : ℕ → ℕ → Time → List Time → Result (Unit {0}) × List Time
unfolding check_rate
check limit span now window =
    let (admitted, after) = check_rate limit span now window in
    (if admitted then ok tt else err (app_error rate_limited 429), after)

-- `acquire_concurrency` and `release_concurrency` of one key.
unfoldable pub acquire_concurrency : ℕ → ℕ → Bool × ℕ
acquire_concurrency limit used = if leb limit used then (false, used) else (true, suc used)

-- `max(0, used - 1)`.
unfoldable pub release_concurrency : ℕ → ℕ
release_concurrency zero = zero
release_concurrency (suc used) = used
