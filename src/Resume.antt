-- ===== src/Resume.antt =====
-- proofos/resume.py: which step an operation may take next. The store, the catalog and the journal
-- are arguments; the journal's reader is a function that may raise.
pub mod Grounded
pub mod Once
mod Tests
use proofos.Prelude.{
  ℕ, zero, suc, ◌+◌, String, Bool, true, false, not, ◌&&◌, Option, none, some, List, [], ◌∷◌,
}
use proofos.Prelude.Tests.{◌==◌, nat_eq, ltb, if◌then◌else◌}
use proofos.Prelude.Int.{ℤ, pos, negsuc, leb_ℤ}
use proofos.Prelude.Sort.{sorted_by}
use proofos.Prelude.Assoc.{Dict, put}
use proofos.Prelude.Results.{Result, ok, err, ◌>>=◌, ◌>>◌, raise_if}
use proofos.Integrity.{Hash}
use proofos.Journal.Events.{ExecutionEvent}
use proofos.Journal.Check.{Problem, verify_events}
use proofos.Checkpoint.{
  Phase, planned, action_complete, awaiting_independent_evidence, verifying, completed, abstained,
  OperationCheckpoint,
}
use proofos.Catalog.{AgentCard, AgentCatalog, CatalogError, require_card}
use proofos.Continuity.{
  ContinuityFailure, unknown_operation, integrity_error, agent_version_unavailable,
  agent_version_mismatch, terminal, may_execute, policy_digest, journal_head, leb_pair,
  ContinuityStore, get_checkpoint,
}

abbrev pub action_executed : String
action_executed = "ACTION_EXECUTED"

pub data NextStep : Type 0 where
  execute collect verify_step do_nothing : NextStep

pub record ResumePlan : Type 0 where
  pub checkpoint : OperationCheckpoint
  pub next_step : NextStep
  pub action_executions : ℕ
  pub agent_versions : Dict String
  pub journal_events : List ExecutionEvent

unfoldable pub count_actions : List ExecutionEvent → ℕ
count_actions [] = 0
count_actions (e ∷ es) =
    if e.status == action_executed then suc (count_actions es) else count_actions es

abbrev pub is_verifying : Phase → Bool
is_verifying verifying = true
is_verifying planned = false
is_verifying action_complete = false
is_verifying awaiting_independent_evidence = false
is_verifying completed = false
is_verifying abstained = false

-- `_next_step`
unfoldable pub next_step_of : Phase → NextStep
unfolding terminal may_execute
next_step_of phase =
    if terminal phase
    then do_nothing
    else if may_execute phase
    then execute
    else if is_verifying phase
    then verify_step
    else collect

abbrev pub is_execute : NextStep → Bool
is_execute execute = true
is_execute collect = false
is_execute verify_step = false
is_execute do_nothing = false

unfoldable pub check_policy : Hash → OperationCheckpoint → Result ContinuityFailure (Unit {0})
unfolding policy_digest
check_policy content_hash c =
    raise_if
      (not (policy_digest content_hash c.requirements c.assigned_agent_versions == c.policy_digest))
      integrity_error

abbrev pub readable :
    Result (Unit {0}) (List ExecutionEvent) → Result ContinuityFailure (List ExecutionEvent)
readable (ok events) = ok events
readable (err e) = err integrity_error

-- `_load_journal`
unfoldable pub load_journal :
    Hash
    → (String → Result (Unit {0}) (List ExecutionEvent))
    → OperationCheckpoint
    → Result ContinuityFailure (List ExecutionEvent)
unfolding verify_events
load_journal content_hash reader c = readable (reader c.execution_id) >>= λ events.
    (raise_if (not (verify_events content_hash events).0) integrity_error >> ok events)

abbrev pub or_else : Option String → Option String → Option String
or_else none later = later
or_else (some h) later = some h

-- {event.sequence: event.content_hash}.get(n): the last event with this sequence
unfoldable pub recorded_hash : ℕ → List ExecutionEvent → Option String
recorded_hash n [] = none
recorded_hash n (e ∷ es) =
    or_else (recorded_hash n es) (if nat_eq e.sequence n then some e.content_hash else none)

abbrev pub check_hash : OperationCheckpoint → Option String → Result ContinuityFailure (Unit {0})
check_hash c none = err integrity_error
check_hash c (some h) = raise_if (not (h == c.last_journal_hash)) integrity_error

-- A negative position has no event, and nothing is compared.
abbrev pub check_position :
    OperationCheckpoint → List ExecutionEvent → ℤ → Result ContinuityFailure (Unit {0})
check_position c events (negsuc n) = ok tt
check_position c events (pos n) = check_hash c (recorded_hash n events)

-- `_check_binding`
unfoldable pub check_journal :
    OperationCheckpoint → List ExecutionEvent → Result ContinuityFailure (Unit {0})
unfolding journal_head recorded_hash
check_journal c events = do
  raise_if (not (leb_ℤ c.last_journal_sequence (journal_head events).0)) integrity_error
  check_position c events c.last_journal_sequence

abbrev pub offered : Result CatalogError AgentCard → Result ContinuityFailure AgentCard
offered (ok card) = ok card
offered (err e) = err agent_version_unavailable

-- The loop of `_resolve_agents`.
unfoldable pub resolve_all :
    AgentCatalog → Dict String → Dict String → Result ContinuityFailure (Dict String)
unfolding require_card put
resolve_all cat [] resolved = ok resolved
resolve_all cat ((agent_id, version) ∷ rest) resolved =
    offered (require_card agent_id version cat) >>= λ card.
    (raise_if (not (card.version == version)) agent_version_mismatch
      >> resolve_all cat rest (put agent_id card.version resolved))

unfoldable pub resolve_agents :
    AgentCatalog → OperationCheckpoint → Result ContinuityFailure (Dict String)
unfolding resolve_all sorted_by
resolve_agents cat c = resolve_all cat (sorted_by leb_pair c.assigned_agent_versions) []

abbrev pub some_operation :
    Option OperationCheckpoint → Result ContinuityFailure OperationCheckpoint
some_operation none = err unknown_operation
some_operation (some c) = ok c

-- The end of `resume`.
abbrev pub plan_of :
    OperationCheckpoint → List ExecutionEvent → Dict String → Result ContinuityFailure ResumePlan
plan_of c events versions =
    raise_if (ltb 0 (count_actions events) && is_execute (next_step_of c.phase)) integrity_error
    >> ok (record {
      checkpoint = c;
      next_step = next_step_of c.phase;
      action_executions = count_actions events;
      agent_versions = versions;
      journal_events = events;
    })

-- What `resume` does with the checkpoint that it loaded.
abbrev pub resume_from :
    Hash
    → AgentCatalog
    → (String → Result (Unit {0}) (List ExecutionEvent))
    → OperationCheckpoint
    → Result ContinuityFailure ResumePlan
resume_from content_hash cat reader c =
    check_policy content_hash c
    >> (load_journal content_hash reader c >>= λ events.
        (check_journal c events >> (resolve_agents cat c >>= plan_of c events)))

unfoldable pub resume :
    Hash
    → ContinuityStore
    → AgentCatalog
    → (String → Result (Unit {0}) (List ExecutionEvent))
    → String
    → Result ContinuityFailure ResumePlan
unfolding get_checkpoint check_policy load_journal check_journal resolve_agents count_actions
    next_step_of
resume content_hash store cat reader operation_id = get_checkpoint operation_id store >>= λ o.
    some_operation o >>= resume_from content_hash cat reader
