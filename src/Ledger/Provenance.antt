-- ===== src/Ledger/Provenance.antt =====
-- Every observation in the ledger was written under a grant that the ledger issued; a sealed ledger
-- issues no more.
use proofos.Prelude.{ℕ, String, ◌≡◌, refl, ap, ◌∙◌, ◌⊎◌, inl, inr, true, some, [], ◌∷◌, ◌++◌}
use proofos.Prelude.Lists.{◌∈◌}
use proofos.Prelude.Results.{◌>>=◌}
use proofos.Prelude.Assoc.{get, get-put_cases}
use proofos.Verifier.Types.{Evidence}
use proofos.Ledger
use proofos.Ledger.{
  ObservationGrant, TaskRecord, EvidenceLedger, new_ledger, grant_observation, seal, reset,
}
use proofos.Ledger.Authority.{
  World, Step, granting, sealing, opening, recording, resetting, Reach, here, next, Authorised,
  HasProvenance, record_evidence-ok, check_source-Authorised, mem-snoc,
}

-- Evidence of the task that was written to, or of another.
written :
    (w : World) (k j : String) (t u : TaskRecord) (d e : Evidence)
    → HasProvenance w
    → get k w.ledger.tasks ≡ some u
    → Authorised w.issued e
    → ((k ≡ j) × (record u { evidence = u.evidence ++ e ∷ [] } ≡ t))
      ⊎ (get j w.ledger.tasks ≡ some t)
    → d ∈ t.evidence
    → Authorised w.issued d
written w k j t u d e p at a (inr old) m = p.of_evidence j t old d m
written w k j t u d e p at a (inl (_, q)) m = elim (mem-snoc u.evidence e d (rw (← q) at m)) [
  | inl before ↦ p.of_evidence k u at d before
  | inr same ↦ rw same a
]

Step-HasProvenance : {w v : World} → Step w v → HasProvenance w → HasProvenance v
unfolding seal Ledger.open_task reset get
Step-HasProvenance (granting c ks g h) p = record {
  of_evidence = λ k t at e m s. let a = p.of_evidence k t at e m s in (a.0, inr a.1, a.2);
}
Step-HasProvenance sealing p = record { of_evidence = p.of_evidence }
Step-HasProvenance {w} (opening k required) p = record {
  of_evidence = λ j t at e m s. elim (get-put_cases k j _ w.ledger.tasks at) [
    | inl (_, q) ↦ absurd (rw (← q) at m)
    | inr old ↦ p.of_evidence j t old e m s
  ];
}
Step-HasProvenance {w} (recording k e grant l q h) p = record {
  of_evidence = λ j t at d m s.
      let c = record_evidence-ok k e grant w.ledger h in
      written w k j t c.0 d e p c.1 (check_source-Authorised w e.source e grant q c.2)
        (get-put_cases k j (record c.0 { evidence = (c.0).evidence ++ e ∷ [] }) w.ledger.tasks
          (rw c.3 at at))
        m s;
}
Step-HasProvenance resetting p = record { of_evidence = λ k t at e m s. cc }

-- From a new ledger, whatever its methods are called with, every stored observation was written
-- under a grant that the ledger issued, which covers its kind and is held by its collector.
pub Reach-HasProvenance :
    (marker : ℕ) {w : World}
    → Reach (record { ledger = new_ledger marker; issued = [] }) w
    → HasProvenance w
unfolding new_ledger get
Reach-HasProvenance marker here = record { of_evidence = λ k t at e m s. cc }
Reach-HasProvenance marker (next r st) = Step-HasProvenance st (Reach-HasProvenance marker r)

sealed-Step :
    {w v : World}
    → Step w v
    → w.ledger.sealed ≡ true
    → (v.ledger.sealed ≡ true) × (v.issued ≡ w.issued)
unfolding seal Ledger.open_task reset grant_observation
sealed-Step {w} (granting c ks g h) s = cc (rw (s, ◌>>=◌) at h)
sealed-Step sealing s = (refl, refl)
sealed-Step (opening k required) s = (s, refl)
sealed-Step {w} (recording k e grant l q h) s =
    (ap (λ (m : EvidenceLedger). m.sealed) (record_evidence-ok k e grant w.ledger h).3 ∙ s, refl)
sealed-Step resetting s = (s, refl)

-- A sealed ledger stays sealed and has the grants that it had, whatever is called.
pub sealed-Reach :
    {w v : World}
    → Reach w v
    → w.ledger.sealed ≡ true
    → (v.ledger.sealed ≡ true) × (v.issued ≡ w.issued)
sealed-Reach here h = (h, refl)
sealed-Reach (next r st) h =
    let before = sealed-Reach r h in
    let step = sealed-Step st before.0 in (step.0, step.1 ∙ before.1)
