-- ===== src/Gateway/Circuit.antt =====
-- The circuit of the gateway: when it opens, what an open one does, and what a call costs.
use llama_index_rag.Base.{
  Time, ℕ, zero, suc, ◌+◌, ◌≤◌, ◌<◌, ◌≡◌, refl, Bool, true, false, ◌&&◌, leb, is_none, none, some,
  arith,
}
use llama_index_rag.Limits.{check_rate}
use llama_index_rag.Gateway.{
  Reply, answers, fails, raises, request_failed, raised, Settings, Gateway, circuit_open,
  count_failure, try_primary, use_fallback, after_attempts, complete_traced, complete,
}

use_fallback-circuit : (other : Reply) (g : Gateway) → (use_fallback other g).1.circuit ≡ g.circuit
use_fallback-circuit (answers r) g = refl
use_fallback-circuit fails g = refl
use_fallback-circuit (raises e) g = refl

-- While the circuit is open, a complete call does not depend on the primary adapter.
open_circuit_skips_primary :
    (s : Settings) (allow_fallback : Bool) (other : Reply) (reply reply' : ℕ → Reply)
    (clock clock' : ℕ → Time) (now opened : Time) (g : Gateway)
    → g.circuit.opened_at ≡ some opened
    → now < opened + s.recovery_seconds
    → (complete s allow_fallback other reply clock now g
        ≡ complete s allow_fallback other reply' clock' now g)
      × ((complete s allow_fallback other reply clock now g).1.circuit ≡ g.circuit)
unfolding complete complete_traced circuit_open
open_circuit_skips_primary s allow_fallback other reply reply' clock clock' now opened g o early = (
  ground (arith, o, early),
  ground (
    arith,
    o,
    early,
    use_fallback-circuit other
        (record g { request_times = (check_rate s.requests_per_minute 60 now g.request_times).1 }),
  ),
)

-- All attempts fail: the failures are counted, and nothing else changes.
try_primary-failing :
    (s : Settings) (reply : ℕ → Reply) (clock : ℕ → Time) (left attempt : ℕ) (g : Gateway)
    → ((i : ℕ) → reply i ≡ fails)
    → ((try_primary s reply clock left attempt g).0 ≡ none)
      × (((try_primary s reply clock left attempt g).1.circuit.failures ≡ left + g.circuit.failures)
          × ((try_primary s reply clock left attempt g).1.total_usage ≡ g.total_usage))
unfolding try_primary
try_primary-failing s reply clock zero attempt g down = (refl, (omega arith, refl))
try_primary-failing s reply clock (suc left) attempt g down = ground (
  arith,
  down attempt,
  try_primary-failing s reply clock left (suc attempt) (count_failure s (clock attempt) g) down,
)

-- The circuit is open after attempts that failed and reached the threshold, since no earlier than
-- the first of them.
try_primary-opened :
    (s : Settings) (reply : ℕ → Reply) (clock : ℕ → Time) (now : Time) (left attempt : ℕ)
    (g : Gateway)
    → ((i : ℕ) → reply i ≡ fails)
    → ((i : ℕ) → now ≤ clock i)
    → s.failure_threshold ≤ suc left + g.circuit.failures
    → (opened : Time) × (((try_primary s reply clock (suc left) attempt g).1.circuit.opened_at
          ≡ some opened)
        × (now ≤ opened))
unfolding try_primary
try_primary-opened s reply clock now zero attempt g down later enough =
    (clock attempt, (ground (arith, down attempt, enough), later attempt))
try_primary-opened s reply clock now (suc left) attempt g down later enough =
    let (opened, (rest, after)) =
      try_primary-opened s reply clock now left (suc attempt) (count_failure s (clock attempt) g)
        down later (ground (arith, enough)) in
    (opened, (ground (arith, down attempt, rest), after))

-- The circuit is open after attempts that failed and reached the threshold.
try_primary-opens :
    (s : Settings) (reply : ℕ → Reply) (clock : ℕ → Time) (left attempt : ℕ) (g : Gateway)
    → ((i : ℕ) → reply i ≡ fails)
    → s.failure_threshold ≤ suc left + g.circuit.failures
    → is_none (try_primary s reply clock (suc left) attempt g).1.circuit.opened_at ≡ false
unfolding try_primary
try_primary-opens s reply clock zero attempt g down enough = ground (arith, down attempt, enough)
try_primary-opens s reply clock (suc left) attempt g down enough = ground (
  arith,
  down attempt,
  try_primary-opens s reply clock left (suc attempt) (count_failure s (clock attempt) g) down
      (ground (arith, enough)),
)

-- A call on a closed circuit whose attempts all fail, without a fallback, ends with the error that
-- the request failed; it has counted `retries + 1` failures and no usage, and if the failures have
-- reached the threshold, the circuit is open.
pub failed_call_is_counted :
    (s : Settings) (other : Reply) (reply : ℕ → Reply) (clock : ℕ → Time) (now : Time) (g : Gateway)
    → ((i : ℕ) → reply i ≡ fails)
    → g.circuit.opened_at ≡ none
    → ((complete_traced s false other reply clock now g).0 ≡ raised request_failed)
      × (((complete_traced s false other reply clock now g).1.circuit.failures
            ≡ suc s.retries + g.circuit.failures)
          × (((complete_traced s false other reply clock now g).1.total_usage ≡ g.total_usage)
              × ((leb s.failure_threshold (suc s.retries + g.circuit.failures)
                    && is_none
                        (complete_traced s false other reply clock now g).1.circuit.opened_at)
                  ≡ false)))
unfolding complete_traced circuit_open after_attempts
failed_call_is_counted s other reply clock now g down shut =
    let tried = try_primary-failing s reply clock (suc s.retries) 0 g down in
    ground (arith, shut, tried, try_primary-opens s reply clock s.retries 0 g down)

-- A complete call that the rate limit admits on a closed circuit, without a fallback, whose attempts
-- all fail and bring the failures to the threshold, ends with the error that the request failed.
-- Until `recovery_seconds` after the time at which it was made, a next complete call does not depend
-- on what the primary adapter would reply or when, with or without a fallback, and leaves the
-- circuit as it is.
pub failing_call_opens_circuit :
    (s : Settings) (other : Reply) (reply : ℕ → Reply) (clock : ℕ → Time) (now : Time) (g : Gateway)
    → ((i : ℕ) → reply i ≡ fails)
    → ((i : ℕ) → now ≤ clock i)
    → g.circuit.opened_at ≡ none
    → s.failure_threshold ≤ suc s.retries + g.circuit.failures
    → (check_rate s.requests_per_minute 60 now g.request_times).0 ≡ true
    → (after : Gateway) × ((complete s false other reply clock now g
          ≡ (raised request_failed, after))
        × ((allow_fallback : Bool) (other' : Reply) (next next' : ℕ → Reply)
              (clock' clock'' : ℕ → Time) (later : Time)
            → later < now + s.recovery_seconds
            → (complete s allow_fallback other' next clock' later after
                ≡ complete s allow_fallback other' next' clock'' later after)
              × ((complete s allow_fallback other' next clock' later after).1.circuit
                  ≡ after.circuit)))
unfolding complete complete_traced circuit_open after_attempts
failing_call_opens_circuit s other reply clock now g down since shut enough admitted =
    let admitted_one = record g {
      request_times = (check_rate s.requests_per_minute 60 now g.request_times).1;
    } in
    let tried = try_primary-failing s reply clock (suc s.retries) 0 admitted_one down in
    let (opened, (open_, after)) =
      try_primary-opened s reply clock now s.retries 0 admitted_one down since enough in
    (
      (try_primary s reply clock (suc s.retries) 0 admitted_one).1,
      (
        ground (arith, admitted, shut, tried.0),
        λ allow_fallback other' next next' clock' clock'' later early.
            open_circuit_skips_primary s allow_fallback other' next next' clock' clock'' later
              opened (try_primary s reply clock (suc s.retries) 0 admitted_one).1 open_
              (omega (arith, early, after)),
      ),
    )
