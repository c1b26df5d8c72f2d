-- ===== src/Capabilities/Claims.antt =====
-- An executor's claims never certify a task; a collector's healthy observation does.
use proofos.Prelude.{ℕ, String, ◌≡◌, ◌≢◌, refl, ◌⊎◌, inl, inr, none, some, List, [], ◌∷◌, ◌++◌}
use proofos.Prelude.Int.{ℤ}
use proofos.Prelude.Lists.{◌∈◌}
use proofos.Prelude.Results.{Result, ok, err, ◌>>=◌}
use proofos.Prelude.Assoc.{get, get-put_cases}
use proofos.Integrity.{Hash}
use proofos.Verifier.Types.{verified, Evidence, observed, executor, VerificationResult}
use proofos.Ledger.{LedgerError, TaskRecord, EvidenceLedger, record_evidence}
use proofos.Ledger.Authority.{record_evidence-ok, mem-snoc}
use proofos.Capabilities.{ClaimCapability, claim_evidence, record_claim, verify_task}
use proofos.Capabilities.Certify.{verified-Certified}

-- One call of `record_claim`.
pub record Claim : Type 0 where
  pub clock : ℤ
  pub ident : ℕ
  pub task_id : String
  pub kind : String
  pub value : String

abbrev after : EvidenceLedger → Result LedgerError (Evidence × EvidenceLedger) → EvidenceLedger
after l (ok (e, l')) = l'
after l (err x) = l

-- Any claims, in any order, about any tasks; one that raises leaves the ledger as it was.
unfoldable pub run_claims : Hash → ClaimCapability → List Claim → EvidenceLedger → EvidenceLedger
run_claims content_hash cap [] l = l
run_claims content_hash cap (c ∷ cs) l =
    run_claims content_hash cap cs
      (after l (record_claim content_hash cap c.clock c.ident c.task_id c.kind c.value l))

-- No task of the ledger has an observation.
abbrev pub Unobserved : EvidenceLedger → Type 0
Unobserved l =
    (task_id : String) (t : TaskRecord)
    → get task_id l.tasks ≡ some t
    → (e : Evidence) → e ∈ t.evidence
    → e.source ≢ observed

claim_evidence-source :
    (content_hash : Hash) (cap : ClaimCapability) (clock : ℤ) (ident : ℕ) (kind value : String)
    → (claim_evidence content_hash cap clock ident kind value).source ≡ executor
unfolding claim_evidence
claim_evidence-source content_hash cap clock ident kind value = refl

snoc-Unobserved :
    (l : EvidenceLedger) (k j : String) (t u : TaskRecord) (e d : Evidence)
    → Unobserved l
    → get k l.tasks ≡ some u
    → e.source ≢ observed
    → ((k ≡ j) × (record u { evidence = u.evidence ++ e ∷ [] } ≡ t)) ⊎ (get j l.tasks ≡ some t)
    → d ∈ t.evidence
    → d.source ≢ observed
snoc-Unobserved l k j t u e d un at ne (inr old) m = un j t old d m
snoc-Unobserved l k j t u e d un at ne (inl (_, q)) m =
    elim (mem-snoc u.evidence e d (rw (← q) at m)) [
      | inl before ↦ un k u at d before
      | inr same ↦ rw same ne
    ]

record_claim-Unobserved :
    (content_hash : Hash) (cap : ClaimCapability) (c : Claim) (l : EvidenceLedger)
    → Unobserved l
    → Unobserved
        (after l (record_claim content_hash cap c.clock c.ident c.task_id c.kind c.value l))
unfolding record_claim
record_claim-Unobserved content_hash cap c l un =
    by_result (record_evidence c.task_id e none l) refl
  where
    e : Evidence
    e = claim_evidence content_hash cap c.clock c.ident c.kind c.value

    by_result :
        (r : Result LedgerError EvidenceLedger)
        → record_evidence c.task_id e none l ≡ r
        → Unobserved (after l (r >>= λ l'. ok (e, l')))
    by_result (err x) p = un
    by_result (ok l') p = λ j t at d m.
        let w = record_evidence-ok c.task_id e none l p in
        snoc-Unobserved l c.task_id j t w.0 e d un w.1
          (λ s. cc (claim_evidence-source content_hash cap c.clock c.ident c.kind c.value, s))
          (get-put_cases c.task_id j (record w.0 { evidence = (w.0).evidence ++ e ∷ [] }) l.tasks
            (rw w.3 at at))
          m

run_claims-Unobserved :
    (content_hash : Hash) (cap : ClaimCapability) (cs : List Claim) (l : EvidenceLedger)
    → Unobserved l
    → Unobserved (run_claims content_hash cap cs l)
unfolding run_claims
run_claims-Unobserved content_hash cap [] l un = un
run_claims-Unobserved content_hash cap (c ∷ cs) l un =
    run_claims-Unobserved content_hash cap cs
      (after l (record_claim content_hash cap c.clock c.ident c.task_id c.kind c.value l))
      (record_claim-Unobserved content_hash cap c l un)

-- From a ledger that holds no observation, whatever an executor claims, and however often, no task
-- is VERIFIED.
pub claims_never_certify :
    (content_hash : Hash) (cap : ClaimCapability) (claims : List Claim) (l : EvidenceLedger)
    (clock : ℤ) (task_id claim : String) {v : VerificationResult}
    → Unobserved l
    → verify_task content_hash clock task_id claim (run_claims content_hash cap claims l) ≡ ok v
    → v.status ≢ verified
claims_never_certify content_hash cap claims l clock task_id claim un h s =
    let c =
      verified-Certified content_hash clock task_id claim (run_claims content_hash cap claims l) h
        s in
    let z = c.settled c.first c.first_declared in
    run_claims-Unobserved content_hash cap claims l un task_id c.task c.known z.witness
      z.witness_mem (z.witness_counts).from_observer
