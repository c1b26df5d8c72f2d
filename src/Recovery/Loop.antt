-- ===== src/Recovery/Loop.antt =====
-- run_verification_loop of proofos_agent/recovery.py, in its attempts.
use proofos.Prelude.{
  ℕ, zero, suc, ◌+◌, String, Bool, false, Option, none, some, List, [], ◌∷◌, ◌++◌,
}
use proofos.Prelude.Tests.{◌==◌, nat_eq, if◌then◌else◌}
use proofos.Prelude.Lists.{length}
use proofos.Prelude.Sets.{minus}
use proofos.Prelude.Sort.{leb_text, sorted_by}
use proofos.Prelude.Text.{strip, is_empty}
use proofos.Prelude.Assoc.{keys}
use proofos.Journal.Events.{
  execution_start, agent_turn, verifier_decision, recovery_start, execution_complete, info, warning,
}
use proofos.Recovery.Notes.{
  Audit, Collectors, Decision, JournalSink, Note, Reason, RunFailure, ToolCall, Turn,
  audit_unavailable, collect_all, collecting, collector_unavailable, completing, decided, decision,
  exhausted, judged, last_result, model_noncompliance, no_attempt, no_collector, no_noncompliance,
  not_called, note, note_calls, or_text, retry_exhausted, starting, turned, undecided, unrecorded,
}

pub record TranscriptEntry : Type 0 where
  pub attempt : ℕ
  pub tool_calls : List ToolCall
  pub verifier_decision : Option Decision
  pub agent_final_text : String

pub record Run : Type 0 where
  pub audit : Audit
  pub transcript : List TranscriptEntry
  pub final_status : String
  pub terminal_reason : Reason
  pub failure_class : RunFailure

abbrev pub ended : Run → Reason → RunFailure → Run
ended s reason failure = record s { terminal_reason = reason; failure_class = failure }

-- The notes of a turn and of its calls, and its entry in the transcript.
unfoldable pub turn_taken : Option JournalSink → ℕ → Turn → Run → Run
unfolding note note_calls strip is_empty
turn_taken journal attempt t s = record s {
  audit = note_calls journal attempt t.tool_calls (
      note journal
        (record {
          event = agent_turn;
          agent = "executor";
          status = if is_empty t.final_text then "RESPONDED" else "CLAIMED_SUCCESS";
          severity = info;
          payload = turned attempt (length t.tool_calls);
        })
        s.audit);
  transcript =
      s.transcript
      ++ record {
        attempt = attempt;
        tool_calls = t.tool_calls;
        verifier_decision = decision t;
        agent_final_text = strip t.final_text;
      }
        ∷ [];
}

abbrev pub says_verified : Option String → Bool
says_verified none = false
says_verified (some s) = s == "VERIFIED"

abbrev pub decision_note : ℕ → Decision → Note
decision_note attempt d = record {
  event = verifier_decision;
  agent = "verifier";
  status = or_text "UNKNOWN" d.status;
  severity = if says_verified d.status then info else warning;
  payload = judged attempt d;
}

abbrev pub undecided_note : ℕ → Note
undecided_note attempt = record {
  event = verifier_decision;
  agent = "verifier";
  status = "ABSTAIN";
  severity = warning;
  payload = undecided attempt;
}

abbrev pub recovery_note : ℕ → List String → Note
recovery_note attempt kinds = record {
  event = recovery_start;
  agent = "orchestrator";
  status = "COLLECTING";
  severity = info;
  payload = collecting attempt kinds;
}

abbrev pub or_none_missing : Option (List String) → List String
or_none_missing none = []
or_none_missing (some ks) = ks

-- A step ends the loop, or goes on to the next attempt.
pub data Progress : Type 0 where
  stop go_on : Run → Progress

-- The kinds that no collector observes end the loop; else all are collected.
abbrev pub recover :
    Option JournalSink → Collectors → ℕ → List String → List String → Run → Progress
recover journal collectors attempt kinds (k ∷ ks) s =
    stop (ended s (no_collector (k ∷ ks)) collector_unavailable)
recover journal collectors attempt kinds [] s = go_on (record s {
  audit =
      collect_all journal collectors attempt kinds
        (note journal (recovery_note attempt kinds) s.audit);
})

-- One attempt after its turn, by its decision.
unfoldable pub decide_next :
    Option JournalSink → Collectors → ℕ → ℕ → Option Decision → Run → Progress
unfolding note minus collect_all
decide_next journal collectors max_attempts attempt none s = stop (
    ended (record s { audit = note journal (undecided_note attempt) s.audit }) not_called
      model_noncompliance)
decide_next journal collectors max_attempts attempt (some d) s =
    let noted = record s { audit = note journal (decision_note attempt d) s.audit } in
    let kinds = or_none_missing d.missing in
    if says_verified d.status
    then stop (
        ended (record noted { final_status = "VERIFIED" }) (decided (or_text "" d.reason))
          no_noncompliance)
    else if nat_eq attempt max_attempts
    then stop (ended noted (exhausted max_attempts) retry_exhausted)
    else recover journal collectors attempt kinds (minus kinds (keys collectors)) noted

unfoldable pub attempt_once : Option JournalSink → Collectors → (ℕ → Turn) → ℕ → ℕ → Run → Progress
unfolding turn_taken decide_next last_result
attempt_once journal collectors run_turn max_attempts attempt s =
    decide_next journal collectors max_attempts attempt (decision (run_turn attempt))
      (turn_taken journal attempt (run_turn attempt) s)

-- `break`, or the attempts that are left
abbrev pub proceed : (Run → Run) → Progress → Run
proceed rest (stop s) = s
proceed rest (go_on s) = rest s

-- for attempt in range(attempt, max_attempts + 1), with the number of attempts left
unfoldable pub attempts : Option JournalSink → Collectors → (ℕ → Turn) → ℕ → ℕ → ℕ → Run → Run
unfolding attempt_once
attempts journal collectors run_turn max_attempts attempt zero s = s
attempts journal collectors run_turn max_attempts attempt (suc left) s =
    proceed (attempts journal collectors run_turn max_attempts (attempt + 1) left)
      (attempt_once journal collectors run_turn max_attempts attempt s)

abbrev pub fresh_run : Run
fresh_run = record {
  audit = record { tried = []; failures = [] };
  transcript = [];
  final_status = "ABSTAIN";
  terminal_reason = no_attempt;
  failure_class = retry_exhausted;
}

abbrev pub start_note : Collectors → ℕ → Note
start_note collectors max_attempts = record {
  event = execution_start;
  agent = "orchestrator";
  status = "STARTED";
  severity = info;
  payload = starting max_attempts (sorted_by leb_text (keys collectors));
}

-- `if audit_failures:` the downgrade
abbrev pub downgraded : List String → Run → Run
downgraded [] s = s
downgraded (e ∷ es) s = record (ended s (unrecorded e) audit_unavailable) {
  final_status = "ABSTAIN";
}

abbrev pub complete_note : Run → Note
complete_note s = record {
  event = execution_complete;
  agent = "orchestrator";
  status = s.final_status;
  severity = if s.final_status == "VERIFIED" then info else warning;
  payload = completing s.failure_class s.terminal_reason (length s.transcript);
}

abbrev pub completed : Option JournalSink → Run → Run
completed journal s = record s { audit = note journal (complete_note s) s.audit }

abbrev pub looped : Option JournalSink → Collectors → (ℕ → Turn) → ℕ → Run
looped journal collectors run_turn max_attempts =
    attempts journal collectors run_turn max_attempts 1 max_attempts (record fresh_run {
      audit = note journal (start_note collectors max_attempts) (fresh_run.audit);
    })

-- run_verification_loop
unfoldable pub run_loop : Option JournalSink → Collectors → (ℕ → Turn) → ℕ → Run
unfolding attempts note sorted_by
run_loop journal collectors run_turn max_attempts =
    let s = looped journal collectors run_turn max_attempts in
    completed journal (downgraded (s.audit).failures s)
