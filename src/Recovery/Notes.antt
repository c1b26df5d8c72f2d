-- ===== src/Recovery/Notes.antt =====
-- The turns, notes and collections of proofos_agent/recovery.py. The model's turns and the collectors'
-- answers are functions of the attempt, and the journal's sink tells for each note, after the notes before
-- it, whether it raises JournalUnavailableError, with which message. Texts that only report a reason are
-- constructors.
use proofos.Prelude.{ℕ, String, Bool, false, Option, none, some, List, [], ◌∷◌, ◌++◌}
use proofos.Prelude.Tests.{if◌then◌else◌}
use proofos.Prelude.Assoc.{Dict, get}
use proofos.Journal.Events.{
  EventType, tool_call, evidence_collected, evidence_rejected, Severity, info, warning,
}

-- What a model called, with the text of its arguments.
pub record ToolCall : Type 0 where
  pub name : Option String
  pub args : Option String

pub record Decision : Type 0 where
  pub status : Option String
  pub failure : Option String
  pub missing : Option (List String)
  pub reason : Option String

pub record Turn : Type 0 where
  pub tool_calls : List ToolCall
  pub tool_results : List Decision
  pub final_text : String

-- turn.decision: the last result, if there is one
unfoldable pub last_result : List Decision → Option Decision
last_result [] = none
last_result (d ∷ []) = some d
last_result (d ∷ e ∷ ds) = last_result (e ∷ ds)

abbrev pub decision : Turn → Option Decision
decision t = last_result t.tool_results

-- A collector's result, with the attributes that it may lack, and what `_collector_detail` says of it.
pub record Collected : Type 0 where
  pub outcome : Option String
  pub observed_response : Option Bool
  pub healthy : Option Bool
  pub detail : Option String

pub data Detail : Type 0 where
  no_result : Detail
  described : String → Bool → Bool → String → Detail

abbrev or_false : Option Bool → Bool
or_false none = false
or_false (some b) = b

abbrev pub or_text : String → Option String → String
or_text d none = d
or_text d (some s) = s

unfoldable pub collector_detail : Option Collected → Detail
collector_detail none = no_result
collector_detail (some r) =
    described (or_text "UNKNOWN" r.outcome) (or_false r.observed_response) (or_false r.healthy)
      (or_text "" r.detail)

abbrev pub detail_outcome : Detail → String
detail_outcome no_result = "NONE"
detail_outcome (described outcome recorded satisfies detail) = outcome

abbrev pub detail_recorded : Detail → Bool
detail_recorded no_result = false
detail_recorded (described outcome recorded satisfies detail) = recorded

pub data RunFailure : Type 0 where
  retry_exhausted no_noncompliance model_noncompliance collector_unavailable audit_unavailable :
      RunFailure

pub data Reason : Type 0 where
  no_attempt not_called : Reason
  exhausted : ℕ → Reason
  no_collector : List String → Reason
  decided : String → Reason
  unrecorded : String → Reason

-- The payload of a note.
pub data Payload : Type 0 where
  starting : ℕ → List String → Payload
  turned : ℕ → ℕ → Payload
  called : ℕ → ToolCall → Payload
  undecided : ℕ → Payload
  judged : ℕ → Decision → Payload
  collecting : ℕ → List String → Payload
  collected : ℕ → String → Detail → Payload
  completing : RunFailure → Reason → ℕ → Payload

pub record Note : Type 0 where
  pub event : EventType
  pub agent : String
  pub status : String
  pub severity : Severity
  pub payload : Payload

-- The sink: the notes before, and this one. `none` is a note that was appended.
abbrev pub JournalSink : Type 0
JournalSink = List Note → Note → Option String

-- The notes that were tried, and audit_failures.
pub record Audit : Type 0 where
  pub tried : List Note
  pub failures : List String

abbrev pub note_result : Note → Option String → Audit → Audit
note_result n none a = record a { tried = a.tried ++ n ∷ [] }
note_result n (some e) a = record { tried = a.tried ++ n ∷ []; failures = a.failures ++ e ∷ [] }

-- note(...); without a journal, nothing
unfoldable pub note : Option JournalSink → Note → Audit → Audit
note none n a = a
note (some sink) n a = note_result n (sink a.tried n) a

unfoldable pub note_calls : Option JournalSink → ℕ → List ToolCall → Audit → Audit
unfolding note
note_calls journal attempt [] a = a
note_calls journal attempt (c ∷ cs) a = note_calls journal attempt cs (
    note journal
      (record {
        event = tool_call;
        agent = "executor";
        status = "INVOKED";
        severity = info;
        payload = called attempt c;
      })
      a)

abbrev pub Collectors : Type 0
Collectors = Dict (ℕ → Option Collected)

abbrev pub run_collector : Option (ℕ → Option Collected) → ℕ → Detail
run_collector none attempt = no_result
run_collector (some c) attempt = collector_detail (c attempt)

abbrev pub collection_note : ℕ → String → Detail → Note
collection_note attempt kind d = record {
  event = if detail_recorded d then evidence_collected else evidence_rejected;
  agent = "collector";
  status = detail_outcome d;
  severity = if detail_recorded d then info else warning;
  payload = collected attempt kind d;
}

-- The loop over the missing kinds, each of which has a collector.
unfoldable pub collect_all : Option JournalSink → Collectors → ℕ → List String → Audit → Audit
unfolding get note collector_detail
collect_all journal collectors attempt [] a = a
collect_all journal collectors attempt (k ∷ ks) a =
    collect_all journal collectors attempt ks
      (note journal (collection_note attempt k (run_collector (get k collectors) attempt)) a)
