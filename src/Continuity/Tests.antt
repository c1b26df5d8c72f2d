-- ===== src/Continuity/Tests.antt =====
-- Concrete runs of opening, advancing and storing an operation.
use proofos.Prelude.{◌≡◌, refl, false, none, [], ◌∷◌, arith}
use proofos.Prelude.Int.{pos, negsuc, ◌≤ℤ◌}
use proofos.Prelude.Results.{ok, err}
use proofos.Samples.{joined}
use proofos.Checkpoint.{planned, awaiting_independent_evidence, completed, OperationCheckpoint}
use proofos.Continuity.{
  stale_checkpoint, schema_unsupported, operation_terminal, terminal, journal_head, open_operation,
  advance, put_checkpoint, get_checkpoint,
}
use proofos.Continuity.Store.{one_writer_wins, advance_to_planned}

abbrev opened : OperationCheckpoint
opened = record {
  operation_id = "op";
  execution_id = "exec";
  task_id = "task";
  phase = planned;
  assigned_agent_versions = ("worker", "v1") ∷ [];
  requirements = [];
  policy_digest = "requirements,pairs,";
  evidence_refs = [];
  last_journal_sequence = negsuc 0;
  last_journal_hash = "";
  created_at = pos 5;
  updated_at = pos 5;
  checkpoint_version = 1;
  schema = 1;
}

opens :
    open_operation joined "op" "exec" "task" [] (("worker", "v1") ∷ []) [] (pos 5) ≡ record opened {
      policy_digest = joined (
          ("requirements", proofos.Integrity.requirement_list [])
          ∷ ("assigned", proofos.Integrity.pair_list (("worker", "v1") ∷ []))
          ∷ []);
    }
unfolding open_operation
opens = refl

abbrev waiting : OperationCheckpoint
waiting = record opened {
  phase = awaiting_independent_evidence;
  updated_at = pos 6;
  checkpoint_version = 2;
}

advances : advance opened awaiting_independent_evidence [] none (pos 6) ≡ ok waiting
unfolding advance
advances = refl

finished :
    advance (record opened { phase = completed }) planned [] none (pos 6) ≡ err operation_terminal
unfolding advance
finished = refl

stores : put_checkpoint waiting (("op", opened) ∷ []) ≡ ok (("op", waiting) ∷ [])
unfolding put_checkpoint
stores = refl

reads : get_checkpoint "op" (("op", record opened { schema = 2 }) ∷ []) ≡ err schema_unsupported
unfolding get_checkpoint
reads = refl

one_writer_wins_example :
    put_checkpoint (record waiting { phase = completed }) (("op", waiting) ∷ [])
    ≡ err stale_checkpoint
one_writer_wins_example =
    one_writer_wins waiting (record waiting { phase = completed }) (("op", opened) ∷ [])
      (("op", waiting) ∷ []) stores refl refl

still_open : terminal awaiting_independent_evidence ≡ false
unfolding terminal
still_open = refl

at_head : waiting.last_journal_sequence ≤ℤ (journal_head []).0
unfolding journal_head
at_head = omega arith

advance_to_planned_example :
    (d : OperationCheckpoint) × (advance waiting planned [] none (pos 7) ≡ ok d)
    × (d.phase ≡ planned)
advance_to_planned_example = advance_to_planned waiting [] none (pos 7) still_open at_head
