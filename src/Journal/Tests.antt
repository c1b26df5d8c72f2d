-- ===== src/Journal/Tests.antt =====
-- The journal on concrete drafts.
use proofos.Prelude.{◌≡◌, refl, true, List, [], ◌∷◌}
use proofos.Prelude.Int.{pos}
use proofos.Samples.{joined}
use proofos.Journal.Events.{
  EventDraft, ExecutionEvent, claim_received, execution_start, info, genesis_hash, intact, finalize,
}
use proofos.Journal.Check.{verify_events, missing_sequences}
use proofos.Journal.Sink.{empty_sink, append, verify_chain}
use proofos.Journal.Appends.{append_all, appended_chains_verify, append_idempotent}
use proofos.Journal.Tamper.{repeated_sequence_accepted}
use proofos.Journal.Replica.{fanout_all, replica_in_step}

abbrev start : EventDraft
start = record {
  event_id = "evt_1";
  execution_id = "exec_1";
  task_id = "t1";
  event = execution_start;
  agent = "orchestrator-v1";
  status = "STARTED";
  trace_id = "trace";
  timestamp = pos 10;
  severity = info;
  payload = ("goal", "patch") ∷ [];
}

abbrev claim : EventDraft
claim = record start { event_id = "evt_2"; event = claim_received; status = "CLAIMED_SUCCESS" }

abbrev drafts : List EventDraft
drafts = start ∷ claim ∷ start ∷ []

appended_chains_verify_example :
    verify_chain joined "exec_1" (append_all joined drafts empty_sink) ≡ (true, [])
appended_chains_verify_example = appended_chains_verify joined drafts "exec_1"

append_idempotent_example :
    append joined start (append joined start empty_sink).0 ≡ append joined start empty_sink
append_idempotent_example = append_idempotent joined start start empty_sink refl refl

replica_in_step_example :
    ((fanout_all joined drafts (record { primary = empty_sink; replica = empty_sink })).primary
      ≡ append_all joined drafts empty_sink)
    × ((fanout_all joined drafts (record { primary = empty_sink; replica = empty_sink })).replica
        ≡ append_all joined drafts empty_sink)
replica_in_step_example = replica_in_step joined drafts

abbrev first : ExecutionEvent
first = finalize joined start 0 genesis_hash

abbrev second : ExecutionEvent
second = finalize joined claim 1 first.content_hash

abbrev log : List ExecutionEvent
log = second ∷ first ∷ []

gap_found :
    (verify_events joined (finalize joined claim 2 (first.content_hash) ∷ first ∷ [])).1
    ≡ missing_sequences (1 ∷ []) ∷ []
unfolding verify_events finalize
gap_found = refl

-- The first event's id and sequence once more, behind it.
abbrev again : ExecutionEvent
again = finalize joined (record start { status = "FORGED" }) 0 first.content_hash

repeated_sequence_accepted_example : verify_events joined (first ∷ again ∷ []) ≡ (true, [])
unfolding finalize intact
repeated_sequence_accepted_example =
    repeated_sequence_accepted joined first again refl refl refl refl refl refl refl
