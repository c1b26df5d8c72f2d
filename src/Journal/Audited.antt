-- ===== src/Journal/Audited.antt =====
-- Concrete runs of an audit capability.
use proofos.Prelude.{◌≡◌, refl, none, some, [], ◌∷◌, ◌++◌}
use proofos.Prelude.Int.{pos}
use proofos.Prelude.Assoc.{get}
use proofos.Samples.{joined}
use proofos.Journal.Events.{claim_received, info, ExecutionEvent}
use proofos.Journal.Sink.{empty_sink, or_nil}
use proofos.Journal.Record.{
  AuditCapability, Entry, new_journal, or_fresh, audit_record, audited_identity,
}

abbrev auditor : AuditCapability
auditor = record {
  journal = record { execution_id = "exec"; task_id = "task"; trace_id = "trace" };
  agent_id = "orchestrator";
}

abbrev claimed : Entry
claimed = record {
  event = claim_received;
  status = "OK";
  severity = info;
  event_id = none;
  payload = [];
}

opens : new_journal (some "exec") "task" (some "") "fresh" "trace" ≡ auditor.journal
unfolding new_journal
opens = refl

unseen : get (or_fresh claimed.event_id "evt") (or_nil (get "exec" empty_sink.event_ids)) ≡ none
unfolding get
unseen = refl

abbrev audited : ExecutionEvent
audited = (audit_record joined auditor (pos 3) "evt" claimed empty_sink).1

audited_identity_example :
    (audited.agent ≡ "orchestrator")
    × (audited.execution_id ≡ "exec")
    × (audited.task_id ≡ "task")
    × (audited.trace_id ≡ "trace")
    × (or_nil (get "exec" ((audit_record joined auditor (pos 3) "evt" claimed empty_sink).0).events)
        ≡ or_nil (get "exec" empty_sink.events) ++ audited ∷ [])
audited_identity_example = audited_identity joined auditor (pos 3) "evt" claimed empty_sink unseen
