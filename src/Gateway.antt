-- ===== src/Gateway.antt =====
-- The gateway to a language model (backend/enterprise_rag/application/providers.py:ModelGateway).
-- The adapters are services: `reply` tells what each attempt at the primary one gives, and `clock`
-- the time when it has failed. A moment is a number of seconds; a cost is a number of its smallest
-- unit. The semaphore, the time limit of an attempt (an error that is retried) and the pause between
-- attempts have no other effect on the state.
pub mod Circuit
mod Tests
use llama_index_rag.Base.{
  Time, Key, ℕ, zero, suc, ◌+◌, Bool, true, false, not, ◌&&◌, leb, if◌then◌else◌, Option, none,
  some, List, [],
}
use llama_index_rag.Limits.{check_rate}

pub record ModelUsage : Type 0 where
  pub input_tokens : ℕ
  pub output_tokens : ℕ
  pub cost : Option ℕ

-- The name of the provider is left out.
pub record ModelResponse : Type 0 where
  pub content : Key
  pub usage : ModelUsage

-- What an adapter does: it answers, fails with a TimeoutError, ConnectionError, OSError or
-- HTTPError, or raises anything else.
pub data Reply : Type 0 where
  answers : ModelResponse → Reply
  fails : Reply
  raises : Key → Reply

pub data CallError : Type 0 where
  rate_limit_exceeded circuit_is_open request_failed : CallError
  -- What the fallback adapter raised, or the primary one without a retry.
  adapter_failure : CallError
  adapter_error : Key → CallError

pub data Called : Type 0 where
  returned : ModelResponse → Called
  raised : CallError → Called

pub record CircuitState : Type 0 where
  pub failures : ℕ
  pub opened_at : Option Time

pub record Settings : Type 0 where
  pub retries : ℕ
  pub failure_threshold : ℕ
  pub recovery_seconds : ℕ
  pub requests_per_minute : ℕ
  pub has_fallback : Bool

pub record Gateway : Type 0 where
  pub circuit : CircuitState
  pub total_usage : ModelUsage
  pub request_times : List Time

abbrev pub closed_circuit : CircuitState
closed_circuit = record { failures = 0; opened_at = none }

abbrev pub add_costs : Option ℕ → Option ℕ → Option ℕ
add_costs (some a) (some b) = some (a + b)
add_costs _ _ = none

-- `_record_usage`.
abbrev pub record_usage : ModelUsage → Gateway → Gateway
record_usage usage g = record g {
  total_usage = record {
    input_tokens = g.total_usage.input_tokens + usage.input_tokens;
    output_tokens = g.total_usage.output_tokens + usage.output_tokens;
    cost = add_costs g.total_usage.cost usage.cost;
  };
}

-- `_circuit_open`: `now - opened_at >= recovery_seconds` closes the circuit.
unfoldable pub circuit_open : Settings → Time → Gateway → Bool × Gateway
circuit_open s now g = elim g.circuit.opened_at [
  | none ↦ (false, g)
  | some opened ↦
      if leb (opened + s.recovery_seconds) now
      then (false, record g { circuit = closed_circuit })
      else (true, g)
]

-- The handler of a failed attempt.
abbrev pub count_failure : Settings → Time → Gateway → Gateway
count_failure s now g = record g {
  circuit = record {
    failures = suc g.circuit.failures;
    opened_at =
        if leb s.failure_threshold (suc g.circuit.failures) then some now else g.circuit.opened_at;
  };
}

-- The loop over the attempts; `none` when all of them have failed. `attempt` counts from 0.
unfoldable pub try_primary :
    Settings → (ℕ → Reply) → (ℕ → Time) → ℕ → ℕ → Gateway → Option Called × Gateway
try_primary s reply clock zero attempt g = (none, g)
try_primary s reply clock (suc left) attempt g = elim (reply attempt) [
  | answers r ↦ (some (returned r), record_usage r.usage (record g { circuit = closed_circuit }))
  | fails ↦ try_primary s reply clock left (suc attempt) (count_failure s (clock attempt) g)
  | raises e ↦ (some (raised (adapter_error e)), g)
]

abbrev pub use_fallback : Reply → Gateway → Called × Gateway
use_fallback (answers r) g = (returned r, record_usage r.usage g)
use_fallback fails g = (raised adapter_failure, g)
use_fallback (raises e) g = (raised (adapter_error e), g)

-- What follows when the primary adapter is not available.
abbrev pub fall_back : Settings → Bool → Reply → CallError → Gateway → Called × Gateway
fall_back s allow_fallback other error g =
    if allow_fallback && s.has_fallback then use_fallback other g else (raised error, g)

unfoldable pub after_attempts : Settings → Bool → Reply → Option Called × Gateway → Called × Gateway
after_attempts s allow_fallback other (some called, g) = (called, g)
after_attempts s allow_fallback other (none, g) = fall_back s allow_fallback other request_failed g

-- `_complete_traced`.
unfoldable pub complete_traced :
    Settings → Bool → Reply → (ℕ → Reply) → (ℕ → Time) → Time → Gateway → Called × Gateway
complete_traced s allow_fallback other reply clock now g =
    let (is_open, g') = circuit_open s now g in
    let closed =
      after_attempts s allow_fallback other (try_primary s reply clock (suc s.retries) 0 g') in
    if is_open then fall_back s allow_fallback other circuit_is_open g' else closed

-- `complete`.
unfoldable pub complete :
    Settings → Bool → Reply → (ℕ → Reply) → (ℕ → Time) → Time → Gateway → Called × Gateway
complete s allow_fallback other reply clock now g =
    let (admitted, times) = check_rate s.requests_per_minute 60 now g.request_times in
    let g' = record g { request_times = times } in
    let called = complete_traced s allow_fallback other reply clock now g' in
    if admitted then called else (raised rate_limit_exceeded, g')
