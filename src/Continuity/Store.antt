-- ===== src/Continuity/Store.antt =====
-- Who wins a race for an operation, and what `advance` allows.
use proofos.Prelude.{◌+◌, String, ◌≡◌, refl, sym, ap, ◌∙◌, false, Option, some, List, arith}
use proofos.Prelude.Tests.{nat_eq_iff}
use proofos.Prelude.Int.{ℤ, ◌≤ℤ◌, leb_ℤ_iff}
use proofos.Prelude.Assoc.{get, put, get-put_self}
use proofos.Prelude.Results.{ok, err, then-ok, ok_inj}
use proofos.Journal.Events.{ExecutionEvent}
use proofos.Checkpoint.{planned, OperationCheckpoint}
use proofos.Continuity.{
  stale_checkpoint, terminal, journal_head, refs_or, advance, ContinuityStore, check_base,
  put_checkpoint,
}

-- What was written is what is read.
put_checkpoint-written :
    (c : OperationCheckpoint) (store after : ContinuityStore)
    → put_checkpoint c store ≡ ok after
    → get c.operation_id after ≡ some c
unfolding put_checkpoint
put_checkpoint-written c store after h =
    let w = then-ok (check_base c (get c.operation_id store)) (ok (put c.operation_id c store)) h in
    ap (get c.operation_id) (sym (ok_inj w.1)) ∙ get-put_self c.operation_id c store

-- Of two writers with checkpoints of one version for one operation, the second is refused as stale,
-- whatever the store held and whatever the checkpoints say.
pub one_writer_wins :
    (a b : OperationCheckpoint) (store after : ContinuityStore)
    → put_checkpoint a store ≡ ok after
    → b.operation_id ≡ a.operation_id
    → b.checkpoint_version ≡ a.checkpoint_version
    → put_checkpoint b after ≡ err stale_checkpoint
unfolding put_checkpoint
one_writer_wins a b store after h same_operation same_version =
    rw (ap (λ (k : String). get k after) same_operation ∙ put_checkpoint-written a store after h)
      (ground (arith, same_version, nat_eq_iff b.checkpoint_version (a.checkpoint_version + 1)))

-- From every phase that is not terminal, an operation advances to PLANNED, if the journal has not
-- shrunk: no phase is refused.
pub advance_to_planned :
    (c : OperationCheckpoint) (events : List ExecutionEvent) (refs : Option (List String))
    (stamp : ℤ)
    → terminal c.phase ≡ false
    → c.last_journal_sequence ≤ℤ (journal_head events).0
    → (d : OperationCheckpoint) × (advance c planned events refs stamp ≡ ok d) × (d.phase ≡ planned)
unfolding advance
advance_to_planned c events refs stamp t h = (
  record c {
    phase = planned;
    evidence_refs = refs_or refs c.evidence_refs;
    last_journal_sequence = (journal_head events).0;
    last_journal_hash = (journal_head events).1;
    updated_at = stamp;
    checkpoint_version = c.checkpoint_version + 1;
  },
  rw (t, (leb_ℤ_iff c.last_journal_sequence (journal_head events).0).1 h) refl,
  refl,
)
