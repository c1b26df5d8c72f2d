-- ===== src/Journal/Record.antt =====
-- proofos/journal.py, class Journal, and proofos/capabilities.py, AuditCapability: recording one
-- execution under a fixed identity. The sink is passed along; the clock reading and the fresh ids
-- are arguments.
use proofos.Prelude.{String, ◌≡◌, refl, Bool, Option, none, some, List, [], ◌∷◌, ◌++◌}
use proofos.Prelude.Tests.{◌==◌, if◌then◌else◌}
use proofos.Prelude.Int.{ℤ}
use proofos.Prelude.Assoc.{Dict, get, get-put_self}
use proofos.Integrity.{Hash}
use proofos.Journal.Events.{EventType, Severity, EventDraft, ExecutionEvent}
use proofos.Journal.Check.{Problem}
use proofos.Journal.Sink.{
  ChainingSink, or_nil, append, next_event, add_event, list_execution, verify_chain,
}
use proofos.Journal.Appends.{append_fresh}

pub record Journal : Type 0 where
  pub execution_id : String
  pub task_id : String
  pub trace_id : String

-- given or fresh()
unfoldable pub or_fresh : Option String → String → String
or_fresh none fresh = fresh
or_fresh (some s) fresh = if s == "" then fresh else s

unfoldable pub new_journal : Option String → String → Option String → String → String → Journal
unfolding or_fresh
new_journal execution_id task_id trace_id fresh_execution fresh_trace = record {
  execution_id = or_fresh execution_id fresh_execution;
  task_id = task_id;
  trace_id = or_fresh trace_id fresh_trace;
}

-- The call of `record`, its defaults written out.
pub record Entry : Type 0 where
  pub event : EventType
  pub status : String
  pub severity : Severity
  pub event_id : Option String
  pub payload : Dict String

unfoldable pub draft_of : Journal → ℤ → String → String → Entry → EventDraft
unfolding or_fresh
draft_of j clock fresh agent entry = record {
  event_id = or_fresh entry.event_id fresh;
  execution_id = j.execution_id;
  task_id = j.task_id;
  event = entry.event;
  agent = agent;
  status = entry.status;
  trace_id = j.trace_id;
  timestamp = clock;
  severity = entry.severity;
  payload = entry.payload;
}

-- Journal.record
unfoldable pub record_event :
    Hash → Journal → ℤ → String → String → Entry → ChainingSink → ChainingSink × ExecutionEvent
unfolding draft_of append
record_event content_hash j clock fresh agent entry sink =
    append content_hash (draft_of j clock fresh agent entry) sink

unfoldable pub journal_events : Journal → ChainingSink → List ExecutionEvent
unfolding list_execution
journal_events j sink = list_execution j.execution_id sink

unfoldable pub journal_verify : Hash → Journal → ChainingSink → Bool × List Problem
unfolding verify_chain
journal_verify content_hash j sink = verify_chain content_hash j.execution_id sink

pub record AuditCapability : Type 0 where
  pub journal : Journal
  pub agent_id : String

-- AuditCapability.record: an `event_id` among the keywords is the event's
unfoldable pub audit_record :
    Hash → AuditCapability → ℤ → String → Entry → ChainingSink → ChainingSink × ExecutionEvent
unfolding record_event
audit_record content_hash cap clock fresh entry sink =
    record_event content_hash cap.journal clock fresh cap.agent_id entry sink

module _ (content_hash : Hash) (cap : AuditCapability) (clock : ℤ) (fresh : String) (entry : Entry)
    (sink : ChainingSink) where
  abbrev drafted : EventDraft
  drafted = draft_of cap.journal clock fresh cap.agent_id entry

  -- If the event's id is new in its execution, an audit capability adds one event at the end of the
  -- execution's chain, under the capability's own identity and the journal's execution, task and
  -- trace.
  pub audited_identity :
      get (or_fresh entry.event_id fresh) (or_nil (get (cap.journal).execution_id sink.event_ids))
        ≡ none
      → (((audit_record content_hash cap clock fresh entry sink).1).agent ≡ cap.agent_id)
        × (((audit_record content_hash cap clock fresh entry sink).1).execution_id
            ≡ (cap.journal).execution_id)
        × (((audit_record content_hash cap clock fresh entry sink).1).task_id
            ≡ (cap.journal).task_id)
        × (((audit_record content_hash cap clock fresh entry sink).1).trace_id
            ≡ (cap.journal).trace_id)
        × (or_nil (
              get
                (cap.journal).execution_id
                ((audit_record content_hash cap clock fresh entry sink).0).events)
            ≡ or_nil (get (cap.journal).execution_id sink.events)
              ++ (audit_record content_hash cap clock fresh entry sink).1 ∷ [])
  unfolding audit_record draft_of next_event add_event
  audited_identity new =
      rw (append_fresh content_hash drafted sink new)
        (refl, refl, refl, refl, rw (get-put_self (cap.journal).execution_id) refl)
