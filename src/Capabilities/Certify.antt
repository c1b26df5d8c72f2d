-- ===== src/Capabilities/Certify.antt =====
-- Who can make a task VERIFIED: nobody without a grant, and nobody by claims.
use proofos.Prelude.{ℕ, String, ◌≡◌, refl, sym, ap, ◌∙◌, false, none, some, List, [], map}
use proofos.Prelude.Int.{ℤ}
use proofos.Prelude.Lists.{◌∈◌}
use proofos.Prelude.Results.{Result, ok, ◌>>=◌, bind-ok, then-ok, ok_inj}
use proofos.Prelude.Text.{strip, blank}
use proofos.Prelude.Assoc.{get}
use proofos.Integrity.{Hash}
use proofos.Verifier.Types.{
  verified, Evidence, observed, Requirement, VerificationResult, requirement, item,
}
use proofos.Verifier.Verify.{reference_time, verify_completion}
use proofos.Verifier.Settled.{Settled}
use proofos.Verifier.Declared.{IsFirst, declared-IsFirst, IsFirst-requirement, mem-map_requirement}
use proofos.Verifier.Independence.{verified-Settled}
use proofos.Ledger
use proofos.Ledger.{
  LedgerError, ObservationGrant, TaskRecord, EvidenceLedger, new_ledger, require, record_evidence,
}
use proofos.Ledger.Authority.{World, Reach, Covers, require-ok}
use proofos.Ledger.Provenance.{Reach-HasProvenance}
use proofos.Capabilities.{verify_task}

-- What a VERIFIED task has: its record, and for each requirement that is the first of its kind an
-- item that counts.
pub record Certified (l : EvidenceLedger) (task_id : String) (now : ℤ) : Type 0 where
  pub task : TaskRecord
  pub known : get task_id l.tasks ≡ some task
  pub first : Requirement
  pub first_declared : IsFirst (map requirement task.required_kinds) first
  pub settled :
      (r : Requirement)
      → IsFirst (map requirement task.required_kinds) r
      → Settled r now task.evidence

evidence-ok :
    (content_hash : Hash) (task_id : String) (l : EvidenceLedger) {items : List Evidence}
    → Ledger.evidence content_hash task_id l ≡ ok items
    → (t : TaskRecord) × (require task_id l ≡ ok t) × (items ≡ t.evidence)
unfolding Ledger.evidence
evidence-ok content_hash task_id l {items} h =
    let b =
      bind-ok (require task_id l)
        (λ t. Ledger.check_intact content_hash task_id t.evidence >>= λ _. ok t.evidence) h in
    let c =
      then-ok (Ledger.check_intact content_hash task_id (b.0).evidence) (ok (b.0).evidence) b.2 in
    (b.0, b.1, sym (ok_inj c.1))

module _ (content_hash : Hash) (clock : ℤ) (task_id claim : String) (l : EvidenceLedger) where
  verify_task-ok :
      {v : VerificationResult}
      → verify_task content_hash clock task_id claim l ≡ ok v
      → (t : TaskRecord) × (get task_id l.tasks ≡ some t)
        × (verify_completion content_hash
              (some claim)
              (ok (map item t.evidence))
              (ok (map requirement t.required_kinds))
              none
              clock
            ≡ v)
  unfolding verify_task Ledger.requirements
  verify_task-ok {v} h =
      let e =
        bind-ok (Ledger.evidence content_hash task_id l)
          (λ items. Ledger.requirements task_id l >>= λ required. answer items required) h in
      let r = bind-ok (Ledger.requirements task_id l) (answer e.0) e.2 in
      let q = bind-ok (require task_id l) (λ t. ok t.required_kinds) r.1 in
      let t = evidence-ok content_hash task_id l e.1 in
      let same : q.0 ≡ t.0 = ok_inj (sym q.1 ∙ t.1) in
      (
        t.0,
        require-ok task_id l t.1,
        ok_inj (
            ap (λ (items : List Evidence). answer items (t.0).required_kinds) (sym t.2)
            ∙ ap (answer e.0) (ap (λ (u : TaskRecord). u.required_kinds) (sym same) ∙ ok_inj q.2)
            ∙ r.2),
      )
    where
      answer : List Evidence → List Requirement → Result LedgerError VerificationResult
      answer items required = ok (
          verify_completion content_hash (some claim) (ok (map item items))
            (ok (map requirement required)) none clock)

  -- A task that is VERIFIED has requirements, and each is settled.
  pub verified-Certified :
      {v : VerificationResult}
      → verify_task content_hash clock task_id claim l ≡ ok v
      → v.status ≡ verified
      → Certified l task_id clock
  unfolding reference_time
  verified-Certified {v} h s =
      let t = verify_task-ok h in
      let j =
        verified-Settled content_hash (some claim) (t.0).evidence
          (map requirement (t.0).required_kinds) none clock
          (ap (λ (r : VerificationResult). r.status) t.2 ∙ s) in
      record { task = t.0; known = t.1; first = j.0; first_declared = j.1; settled = j.2 }

-- From a new ledger, whatever its methods were called with: a task that is VERIFIED requires a kind
-- that is not blank, and for each requirement of the task whose kind is not blank there is an
-- observation of this kind in the task, written under a grant that the ledger issued, which covers
-- that kind and belongs to the collector that it names.
pub verified_needs_grants :
    (content_hash : Hash) (clock : ℤ) (task_id claim : String) (marker : ℕ) {w : World}
    {v : VerificationResult}
    → Reach (record { ledger = new_ledger marker; issued = [] }) w
    → verify_task content_hash clock task_id claim w.ledger ≡ ok v
    → v.status ≡ verified
    → (t : TaskRecord) × (get task_id w.ledger.tasks ≡ some t)
      × ((r : Requirement) × (r ∈ t.required_kinds) × (blank r.kind ≡ false))
      × ((r : Requirement)
          → r ∈ t.required_kinds
          → blank r.kind ≡ false
          → (e : Evidence) × (e ∈ t.evidence)
            × (e.source ≡ observed)
            × (strip e.kind ≡ r.kind)
            × ((g : ObservationGrant) × (g ∈ w.issued) × Covers g e))
verified_needs_grants content_hash clock task_id claim marker {w} reach h s =
    let c = verified-Certified content_hash clock task_id claim w.ledger h s in
    (
      c.task,
      c.known,
      (
        c.first,
        (IsFirst-requirement (c.task).required_kinds c.first c.first_declared).0,
        (IsFirst-requirement (c.task).required_kinds c.first c.first_declared).1,
      ),
      λ r m text.
          let f =
            declared-IsFirst (map requirement (c.task).required_kinds) (requirement r) r
              (mem-map_requirement (c.task).required_kinds r m) (refl, text) in
          let z = c.settled f.0 f.1 in
          (
            z.witness,
            z.witness_mem,
            (z.witness_counts).from_observer,
            (z.witness_counts).same_kind ∙ f.2,
            (Reach-HasProvenance marker reach).of_evidence task_id c.task c.known z.witness
                z.witness_mem (z.witness_counts).from_observer,
          ),
    )
