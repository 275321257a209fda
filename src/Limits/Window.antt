-- ===== src/Limits/Window.antt =====
-- The calls that a rate window admits over time (backend/enterprise_rag/infrastructure/cache.py).
use llama_index_rag.Base.{
  Time, ℕ, ◌+◌, ◌≤◌, ◌<◌, ◌≡◌, refl, inl, inr, Bool, ◌&&◌, leb, ltb, if◌then◌else◌, List, [], ◌∷◌,
  ◌++◌, length, length-append, All, All-map, count_if, count_if-append, arith, Bool-cases,
}
use llama_index_rag.Limits.{drop_old, check_rate}

-- The calls that are admitted, of calls at the given times, from the given deque on.
pub admitted : ℕ → ℕ → List Time → List Time → List Time
admitted limit span [] window = []
admitted limit span (now ∷ times) window =
    let rest = admitted limit span times (check_rate limit span now window).1 in
    if (check_rate limit span now window).0 then now ∷ rest else rest

abbrev pub IsAscending : List Time → Type 0
IsAscending [] = Unit {0}
IsAscending (t ∷ ts) = All (λ u. t ≤ u) ts × IsAscending ts

-- The time lies in the window of the given length from `from` on.
abbrev pub within : Time → ℕ → Time → Bool
within from span t = leb from t && ltb t (from + span)

none_within_late :
    (limit span : ℕ) (from : Time) (times window : List Time)
    → All (λ t. from + span ≤ t) times
    → count_if (within from span) (admitted limit span times window) ≡ 0
unfolding admitted
none_within_late limit span from [] window late = refl
none_within_late limit span from (now ∷ times) window late =
    ground
      (arith, none_within_late limit span from times (check_rate limit span now window).1 late.1)

count_if-length-le : (p : Time → Bool) (ts : List Time) → count_if p ts ≤ length ts
count_if-length-le p [] = omega arith
count_if-length-le p (t ∷ ts) = ground (arith, count_if-length-le p ts)

drop_old-length-le :
    (span : ℕ) (now : Time) (ts : List Time) → length (drop_old span now ts) ≤ length ts
unfolding drop_old
drop_old-length-le span now [] = omega arith
drop_old-length-le span now (t ∷ ts) = ground (arith, drop_old-length-le span now ts)

-- What is dropped lies before the window.
drop_old-count_if :
    (span : ℕ) (from now : Time) (ts : List Time)
    → now < from + span
    → count_if (within from span) (drop_old span now ts) ≡ count_if (within from span) ts
unfolding drop_old
drop_old-count_if span from now [] early = refl
drop_old-count_if span from now (t ∷ ts) early = ground (arith, drop_old-count_if span from now ts)

late_times :
    (span : ℕ) (from now : Time) (times : List Time)
    → from + span ≤ now
    → All (λ t. now ≤ t) times
    → All (λ t. from + span ≤ t) (now ∷ times)
late_times span from now times late up =
    (late, All-map (λ t. now ≤ t) (λ t. from + span ≤ t) times (λ t h. omega arith) up)

-- The deque and the calls admitted after it stay together within the limit.
admitted_within_from :
    (limit span : ℕ) (from : Time) (times window : List Time)
    → IsAscending times
    → length window ≤ limit
    → count_if (within from span) window
        + count_if (within from span) (admitted limit span times window)
      ≤ limit
unfolding admitted check_rate
admitted_within_from limit span from [] window up room =
    omega (arith, count_if-length-le (within from span) window)
admitted_within_from limit span from (now ∷ times) window up room =
    elim (Bool-cases (leb (from + span) now)) [
      | inl late ↦
          let none_left : count_if (within from span) (admitted limit span (now ∷ times) window)
              ≡ 0 =
            none_within_late limit span from (now ∷ times) window
              (late_times span from now times (ground (arith, late)) up.0) in
          omega (arith, none_left, count_if-length-le (within from span) window)
      | inr early ↦
          let live : List Time = drop_old span now window in
          let before : now < from + span = ground (arith, early) in
          let same = drop_old-count_if span from now window before in
          let small = drop_old-length-le span now window in
          elim (Bool-cases (leb limit (length live))) [
            | inl full ↦ ground (
              arith,
              full,
              same,
              admitted_within_from limit span from times live up.1 (omega (arith, small, room)),
            )
            | inr free ↦
                let more : length (live ++ now ∷ []) ≤ limit =
                  ground (arith, free, length-append live (now ∷ [])) in
                ground (
                  arith,
                  free,
                  same,
                  count_if-append (within from span) live (now ∷ []),
                  admitted_within_from limit span from times (live ++ now ∷ []) up.1 more,
                )
          ]
    ]

-- Of calls at ascending times, of which the first finds an empty deque, no window of the given
-- length contains more admitted ones than the limit, wherever the window starts.
pub rate_is_limited :
    (limit span : ℕ) (from : Time) (times : List Time)
    → IsAscending times
    → count_if (within from span) (admitted limit span times []) ≤ limit
rate_is_limited limit span from times up =
    omega (arith, admitted_within_from limit span from times [] up (omega arith))
