-- ===== src/Resume/Tests.antt =====
-- Concrete runs of resuming an operation.
use proofos.Prelude.{String, ◌≡◌, ◌≢◌, refl, true, some, List, [], ◌∷◌}
use proofos.Prelude.Tests.{◌==◌, if◌then◌else◌}
use proofos.Prelude.Assoc.{get}
use proofos.Journal.Check.{verify_events}
use proofos.Prelude.Lists.{◌∈◌}
use proofos.Prelude.Int.{pos}
use proofos.Prelude.Results.{Result, ok, err}
use proofos.Samples.{joined}
use proofos.Journal.Events.{tool_call, info, ExecutionEvent, genesis_hash, finalize}
use proofos.Checkpoint.{planned, awaiting_independent_evidence, OperationCheckpoint}
use proofos.Catalog.Tests.{one_card}
use proofos.Continuity.{integrity_error, unknown_operation, open_operation}
use proofos.Resume.{action_executed, execute, collect, ResumePlan, resume}
use proofos.Resume.Once.{resume_never_repeats}
use proofos.Resume.Grounded.{Grounded, resume-Grounded}

abbrev fresh : OperationCheckpoint
fresh = open_operation joined "op" "exec" "task" [] (("worker", "v1") ∷ []) [] (pos 5)

abbrev acted : ExecutionEvent
acted =
    finalize joined
      (record {
        event_id = "evt";
        execution_id = "exec";
        task_id = "task";
        event = tool_call;
        agent = "worker";
        status = "ACTION_EXECUTED";
        trace_id = "trace";
        timestamp = pos 6;
        severity = info;
        payload = [];
      })
      0 genesis_hash

abbrev empty_journal : String → Result (Unit {0}) (List ExecutionEvent)
empty_journal k = ok []

abbrev acted_journal : String → Result (Unit {0}) (List ExecutionEvent)
acted_journal k = ok (acted ∷ [])

abbrev started : ExecutionEvent
started =
    finalize joined
      (record {
        event_id = "evt0";
        execution_id = "exec";
        task_id = "task";
        event = tool_call;
        agent = "worker";
        status = "STARTED";
        trace_id = "trace";
        timestamp = pos 4;
        severity = info;
        payload = [];
      })
      0 genesis_hash

-- The execution has started; another one has acted.
abbrev two_journals : String → Result (Unit {0}) (List ExecutionEvent)
two_journals k = ok (if k == "exec" then started ∷ [] else acted ∷ [])

-- A checkpoint at the position of the journal's event.
abbrev positioned : OperationCheckpoint
positioned = record fresh {
  last_journal_sequence = pos 0;
  last_journal_hash = started.content_hash;
}

abbrev positioned_plan : ResumePlan
positioned_plan = record {
  checkpoint = positioned;
  next_step = execute;
  action_executions = 0;
  agent_versions = ("worker", "v1") ∷ [];
  journal_events = started ∷ [];
}

positioned_resumes :
    resume joined (("op", positioned) ∷ []) one_card two_journals "op" ≡ ok positioned_plan
unfolding resume open_operation finalize
positioned_resumes = refl

abbrev first_plan : ResumePlan
first_plan = record {
  checkpoint = fresh;
  next_step = execute;
  action_executions = 0;
  agent_versions = ("worker", "v1") ∷ [];
  journal_events = [];
}

resumes : resume joined (("op", fresh) ∷ []) one_card empty_journal "op" ≡ ok first_plan
unfolding resume open_operation
resumes = refl

-- The checkpoint says PLANNED, but the journal says that the action ran.
refuses : resume joined (("op", fresh) ∷ []) one_card acted_journal "op" ≡ err integrity_error
unfolding resume open_operation finalize
refuses = refl

collects :
    resume joined
      (("op", record fresh { phase = awaiting_independent_evidence }) ∷ [])
      one_card
      acted_journal
      "op"
    ≡ ok (record {
      checkpoint = record fresh { phase = awaiting_independent_evidence };
      next_step = collect;
      action_executions = 1;
      agent_versions = ("worker", "v1") ∷ [];
      journal_events = acted ∷ [];
    })
unfolding resume open_operation finalize
collects = refl

unknown : resume joined [] one_card empty_journal "op" ≡ err unknown_operation
unfolding resume
unknown = refl

resume_never_repeats_example :
    (get "op" (("op", positioned) ∷ []) ≡ some positioned)
    × (positioned.phase ≡ planned)
    × (events : List ExecutionEvent) × (two_journals positioned.execution_id ≡ ok events)
    × ((verify_events joined events).0 ≡ true)
    × ((e : ExecutionEvent) → e ∈ events → e.status ≢ action_executed)
resume_never_repeats_example =
    resume_never_repeats joined (("op", positioned) ∷ []) one_card two_journals "op" positioned_plan
      positioned_resumes refl

resume-Grounded_example : Grounded joined one_card two_journals positioned_plan
resume-Grounded_example =
    resume-Grounded joined (("op", positioned) ∷ []) one_card two_journals "op" positioned_plan
      positioned_resumes
