-- ===== src/Journal/Events.antt =====
-- proofos/journal.py: drafts, events and their digests. A sequence is a natural number; a payload is
-- its texts by key.
use proofos.Prelude.{ℕ, String, Bool, not, List, [], ◌∷◌}
use proofos.Prelude.Tests.{◌==◌, if◌then◌else◌}
use proofos.Prelude.Int.{ℤ, pos}
use proofos.Prelude.Lists.{any, select}
use proofos.Prelude.Assoc.{Dict}
use proofos.Integrity.{text, number, object, Fields, Hash}

abbrev pub genesis_hash : String
genesis_hash = "0000000000000000000000000000000000000000000000000000000000000000"

pub data EventType : Type 0 where
  execution_start claim_received agent_turn agent_turn_started agent_tool_called : EventType
  agent_tool_result agent_turn_completed model_noncompliance tool_call verifier_decision : EventType
  recovery_start collection_requested collector_response_received attestation_accepted : EventType
  attestation_rejected evidence_collected evidence_rejected execution_complete : EventType

-- str(event)
unfoldable pub event_name : EventType → String
event_name execution_start = "EXECUTION_START"
event_name claim_received = "CLAIM_RECEIVED"
event_name agent_turn = "AGENT_TURN"
event_name agent_turn_started = "AGENT_TURN_STARTED"
event_name agent_tool_called = "AGENT_TOOL_CALLED"
event_name agent_tool_result = "AGENT_TOOL_RESULT"
event_name agent_turn_completed = "AGENT_TURN_COMPLETED"
event_name model_noncompliance = "MODEL_NONCOMPLIANCE"
event_name tool_call = "TOOL_CALL"
event_name verifier_decision = "VERIFIER_DECISION"
event_name recovery_start = "RECOVERY_START"
event_name collection_requested = "COLLECTION_REQUESTED"
event_name collector_response_received = "COLLECTOR_RESPONSE_RECEIVED"
event_name attestation_accepted = "ATTESTATION_ACCEPTED"
event_name attestation_rejected = "ATTESTATION_REJECTED"
event_name evidence_collected = "EVIDENCE_COLLECTED"
event_name evidence_rejected = "EVIDENCE_REJECTED"
event_name execution_complete = "EXECUTION_COMPLETE"

pub data Severity : Type 0 where
  info warning error : Severity

unfoldable pub severity_name : Severity → String
severity_name info = "INFO"
severity_name warning = "WARNING"
severity_name error = "ERROR"

pub record EventDraft : Type 0 where
  pub event_id : String
  pub execution_id : String
  pub task_id : String
  pub event : EventType
  pub agent : String
  pub status : String
  pub trace_id : String
  pub timestamp : ℤ
  pub severity : Severity
  pub payload : Dict String

pub record ExecutionEvent : Type 0 where
  pub event_id : String
  pub execution_id : String
  pub task_id : String
  pub sequence : ℕ
  pub event : EventType
  pub agent : String
  pub status : String
  pub trace_id : String
  pub timestamp : ℤ
  pub severity : Severity
  pub payload : Dict String
  pub previous_hash : String
  pub content_hash : String

unfoldable pub event_fields : ExecutionEvent → Fields
unfolding event_name severity_name
event_fields e =
    ("event_id", text e.event_id)
    ∷ ("execution_id", text e.execution_id)
    ∷ ("task_id", text e.task_id)
    ∷ ("sequence", number (pos e.sequence))
    ∷ ("event", text (event_name e.event))
    ∷ ("agent", text e.agent)
    ∷ ("status", text e.status)
    ∷ ("trace_id", text e.trace_id)
    ∷ ("timestamp", number e.timestamp)
    ∷ ("severity", text (severity_name e.severity))
    ∷ ("payload", object e.payload)
    ∷ ("previous_hash", text e.previous_hash)
    ∷ []

unfoldable pub compute_hash : Hash → ExecutionEvent → String
unfolding event_fields
compute_hash content_hash e = content_hash (event_fields e)

unfoldable pub intact : Hash → ExecutionEvent → Bool
unfolding compute_hash
intact content_hash e = e.content_hash == compute_hash content_hash e

-- __post_init__
unfoldable pub with_hash : Hash → ExecutionEvent → ExecutionEvent
unfolding compute_hash
with_hash content_hash e =
    if e.content_hash == "" then record e { content_hash = compute_hash content_hash e } else e

unfoldable pub finalize : Hash → EventDraft → ℕ → String → ExecutionEvent
unfolding with_hash
finalize content_hash draft sequence previous_hash = with_hash content_hash (record {
  event_id = draft.event_id;
  execution_id = draft.execution_id;
  task_id = draft.task_id;
  sequence = sequence;
  event = draft.event;
  agent = draft.agent;
  status = draft.status;
  trace_id = draft.trace_id;
  timestamp = draft.timestamp;
  severity = draft.severity;
  payload = draft.payload;
  previous_hash = previous_hash;
  content_hash = "";
})

-- A copy without the named payload keys, with a digest of its own.
unfoldable pub redacted : Hash → ExecutionEvent → List String → ExecutionEvent
unfolding with_hash select any
redacted content_hash e keys = with_hash content_hash (record e {
  payload = select (λ kv. not (any (λ k. k == kv.0) keys)) e.payload;
  content_hash = "";
})
