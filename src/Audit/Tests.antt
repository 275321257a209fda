-- ===== src/Audit/Tests.antt =====
-- Examples of audit chains. The hash is the time and the principal together.
use llama_index_rag.Base.{Key, ◌+◌, ◌<◌, refl, List, [], All, arith}
use llama_index_rag.Audit.{
  AuditEventInput, Body, AuditEvent, record_event, new_event, verify_chain, check_from,
}
use llama_index_rag.Base.Sort.{sort_by}
use llama_index_rag.Audit.Chain.{IsIntact, record_event-IsIntact}

abbrev event : AuditEventInput
event = record {
  action = 1;
  resource_type = 2;
  resource_id = 3;
  authorization_result = 4;
  outcome = 5;
  correlation_id = 6;
  details = 7;
}

abbrev hash : Body → Key
hash body = body.created_at + body.principal_id

empty-IsIntact : IsIntact hash []
unfolding IsIntact verify_chain check_from sort_by
empty-IsIntact = (tt, λ t. refl)

abbrev first_event : List AuditEvent
first_event = record_event hash 11 1 100 event 20 []

first-IsIntact : IsIntact hash first_event
first-IsIntact = record_event-IsIntact hash 11 1 100 event 20 [] empty-IsIntact tt

first_earlier : All (λ x. x.body.created_at < 21) first_event
unfolding record_event new_event
first_earlier = (omega arith, tt)

record_event-IsIntact_example : IsIntact hash (record_event hash 12 1 100 event 21 first_event)
record_event-IsIntact_example =
    record_event-IsIntact hash 12 1 100 event 21 first_event first-IsIntact first_earlier
