-- ===== src/Gateway/Tests.antt =====
-- Examples of model calls.
use llama_index_rag.Base.{
  ℕ, Time, Bool, ◌<◌, suc, ◌+◌, ◌≡◌, refl, true, false, ◌&&◌, leb, is_none, none, some, [], arith,
}
use llama_index_rag.Limits.{check_rate, drop_old}
use llama_index_rag.Gateway.{
  Reply, answers, fails, raised, request_failed, Settings, Gateway, closed_circuit, complete_traced,
  complete,
}
use llama_index_rag.Gateway.Circuit.{failing_call_opens_circuit, failed_call_is_counted}

abbrev settings : Settings
settings = record {
  retries = 2;
  failure_threshold = 3;
  recovery_seconds = 30;
  requests_per_minute = 60;
  has_fallback = false;
}

abbrev fresh : Gateway
fresh = record {
  circuit = closed_circuit;
  total_usage = record { input_tokens = 0; output_tokens = 0; cost = some 0 };
  request_times = [];
}

abbrev opened : Gateway
opened = record fresh { circuit = record { failures = 3; opened_at = some 100 } }

abbrev down : ℕ → Reply
down i = fails

abbrev up : ℕ → Reply
up i =
    answers
      (record { content = 1; usage = record { input_tokens = 2; output_tokens = 3; cost = none } })

abbrev at_time : Time → ℕ → Time
at_time t i = t

admits_first : (check_rate 60 60 9 fresh.request_times).0 ≡ true
unfolding check_rate drop_old
admits_first = refl

failing_call_opens_circuit_example :
    (after : Gateway) × ((complete settings false fails down (at_time 10) 9 fresh
        ≡ (raised request_failed, after))
      × ((allow_fallback : Bool) (other' : Reply) (next next' : ℕ → Reply)
            (clock' clock'' : ℕ → Time) (later : Time)
          → later < 9 + 30
          → (complete settings allow_fallback other' next clock' later after
              ≡ complete settings allow_fallback other' next' clock'' later after)
            × ((complete settings allow_fallback other' next clock' later after).1.circuit
                ≡ after.circuit)))
failing_call_opens_circuit_example =
    failing_call_opens_circuit settings fails down (at_time 10) 9 fresh (λ i. refl)
      (λ i. omega arith) refl (omega arith) admits_first

failed_call_is_counted_test :
    ((complete_traced settings false fails down (at_time 10) 9 fresh).0 ≡ raised request_failed)
    × (((complete_traced settings false fails down (at_time 10) 9 fresh).1.circuit.failures
          ≡ suc 2 + fresh.circuit.failures)
        × (((complete_traced settings false fails down (at_time 10) 9 fresh).1.total_usage
              ≡ fresh.total_usage)
            × ((leb 3 (suc 2 + fresh.circuit.failures)
                  && is_none
                      (complete_traced settings false fails down
                        (at_time 10)
                        9
                        fresh).1.circuit.opened_at)
                ≡ false)))
failed_call_is_counted_test =
    failed_call_is_counted settings fails down (at_time 10) 9 fresh (λ i. refl) refl
