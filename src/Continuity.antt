-- ===== src/Continuity.antt =====
-- proofos/continuity.py: opening and advancing an operation, and the in-memory store. The store keeps
-- checkpoints, where the source keeps their fields: `from_dict` is modelled on what `as_dict` wrote.
-- Two requirements of one kind, one of them without a horizon, which Python refuses to sort, are
-- sorted here.
pub mod Store
mod Tests
use proofos.Prelude.{ℕ, ◌+◌, String, Bool, true, false, not, Option, none, some, List, [], ◌∷◌, map}
use proofos.Prelude.Tests.{◌==◌, nat_eq, if◌then◌else◌}
use proofos.Prelude.Int.{ℤ, pos, negsuc, leb_ℤ}
use proofos.Prelude.Sort.{leb_text, sorted_by}
use proofos.Prelude.Assoc.{Dict, get, put}
use proofos.Prelude.Results.{Result, ok, err, ◌>>=◌, ◌>>◌, raise_if}
use proofos.Integrity.{requirement_list, pair_list, Hash}
use proofos.Verifier.Types.{Requirement}
use proofos.Journal.Events.{ExecutionEvent}
use proofos.Journal.Check.{ordered}
use proofos.Checkpoint.{
  Phase, planned, action_complete, awaiting_independent_evidence, verifying, completed, abstained,
  OperationCheckpoint,
}

pub data ContinuityFailure : Type 0 where
  unknown_operation stale_checkpoint integrity_error agent_version_unavailable : ContinuityFailure
  agent_version_mismatch schema_unsupported operation_terminal : ContinuityFailure

abbrev pub checkpoint_schema : ℕ
checkpoint_schema = 1

-- phase in TERMINAL
unfoldable pub terminal : Phase → Bool
terminal completed = true
terminal abstained = true
terminal planned = false
terminal action_complete = false
terminal awaiting_independent_evidence = false
terminal verifying = false

-- phase in MAY_EXECUTE
unfoldable pub may_execute : Phase → Bool
may_execute planned = true
may_execute action_complete = false
may_execute awaiting_independent_evidence = false
may_execute verifying = false
may_execute completed = false
may_execute abstained = false

abbrev pub leb_age : Option ℤ → Option ℤ → Bool
leb_age none b = true
leb_age (some a) none = false
leb_age (some a) (some b) = leb_ℤ a b

abbrev pub leb_requirement : String × Option ℤ → String × Option ℤ → Bool
leb_requirement (k, a) (j, b) = if k == j then leb_age a b else leb_text k j

abbrev pub leb_pair : String × String → String × String → Bool
leb_pair (k, v) (j, w) = if k == j then leb_text v w else leb_text k j

unfoldable pub policy_digest : Hash → List Requirement → Dict String → String
unfolding sorted_by
policy_digest content_hash requirements assigned = content_hash (
    (
      "requirements",
      requirement_list
          (sorted_by leb_requirement (map (λ r. (r.kind, r.max_age_seconds)) requirements)),
    )
    ∷ ("assigned", pair_list (sorted_by leb_pair assigned))
    ∷ [])

-- ordered[-1], for events after a first one
unfoldable pub last_event : ExecutionEvent → List ExecutionEvent → ExecutionEvent
last_event e [] = e
last_event e (x ∷ xs) = last_event x xs

abbrev pub head_of : List ExecutionEvent → ℤ × String
head_of [] = (negsuc 0, "")
head_of (e ∷ es) = (pos (last_event e es).sequence, (last_event e es).content_hash)

unfoldable pub journal_head : List ExecutionEvent → ℤ × String
unfolding ordered last_event
journal_head events = head_of (ordered events)

unfoldable pub open_operation :
    Hash
    → String
    → String
    → String
    → List Requirement
    → Dict String
    → List ExecutionEvent
    → ℤ
    → OperationCheckpoint
unfolding journal_head policy_digest
open_operation content_hash operation_id execution_id task_id requirements assigned events stamp =
    record {
      operation_id = operation_id;
      execution_id = execution_id;
      task_id = task_id;
      phase = planned;
      assigned_agent_versions = assigned;
      requirements = requirements;
      policy_digest = policy_digest content_hash requirements assigned;
      evidence_refs = [];
      last_journal_sequence = (journal_head events).0;
      last_journal_hash = (journal_head events).1;
      created_at = stamp;
      updated_at = stamp;
      checkpoint_version = 1;
      schema = checkpoint_schema;
    }

abbrev pub refs_or : Option (List String) → List String → List String
refs_or none old = old
refs_or (some refs) old = refs

unfoldable pub advance :
    OperationCheckpoint
    → Phase
    → List ExecutionEvent
    → Option (List String)
    → ℤ
    → Result ContinuityFailure OperationCheckpoint
unfolding terminal journal_head
advance c phase events evidence_refs stamp = do
  raise_if (terminal c.phase) operation_terminal
  raise_if (not (leb_ℤ c.last_journal_sequence (journal_head events).0)) integrity_error
  ok (record c {
    phase = phase;
    evidence_refs = refs_or evidence_refs c.evidence_refs;
    last_journal_sequence = (journal_head events).0;
    last_journal_hash = (journal_head events).1;
    updated_at = stamp;
    checkpoint_version = c.checkpoint_version + 1;
  })

-- InMemoryContinuityStore
abbrev pub ContinuityStore : Type 0
ContinuityStore = Dict OperationCheckpoint

-- OperationCheckpoint.from_dict
unfoldable pub restored : OperationCheckpoint → Result ContinuityFailure OperationCheckpoint
restored c = raise_if (not (nat_eq c.schema checkpoint_schema)) schema_unsupported >> ok c

abbrev pub loaded :
    Option OperationCheckpoint → Result ContinuityFailure (Option OperationCheckpoint)
loaded none = ok none
loaded (some c) = restored c >>= λ d. ok (some d)

unfoldable pub get_checkpoint :
    String → ContinuityStore → Result ContinuityFailure (Option OperationCheckpoint)
unfolding get restored
get_checkpoint operation_id store = loaded (get operation_id store)

abbrev pub check_base :
    OperationCheckpoint → Option OperationCheckpoint → Result ContinuityFailure (Unit {0})
check_base c none = ok tt
check_base c (some existing) =
    raise_if (not (nat_eq c.checkpoint_version (existing.checkpoint_version + 1))) stale_checkpoint

unfoldable pub put_checkpoint :
    OperationCheckpoint → ContinuityStore → Result ContinuityFailure ContinuityStore
unfolding get put
put_checkpoint c store = do check_base c (get c.operation_id store); ok (put c.operation_id c store)
