-- ===== src/Capabilities.antt =====
-- proofos/capabilities.py: what each role holds. The backing ledger is passed along; a clock reading
-- and the identity of a new object are arguments. AuditCapability is in Journal.
pub mod Certify
pub mod Claims
pub mod Recover
mod Tests
use proofos.Prelude.{ℕ, String, Bool, true, false, Option, none, some, List, [], ◌∷◌, map}
use proofos.Prelude.Int.{ℤ}
use proofos.Prelude.Time.{Time, tick}
use proofos.Prelude.Results.{Result, ok, err, ◌>>=◌, ◌>>◌, raise_if}
use proofos.Integrity.{Hash}
use proofos.Verifier.Types.{
  Evidence, observed, executor, Requirement, VerificationResult, requirement, item, with_hash,
}
use proofos.Verifier.Verify.{verify_completion}
use proofos.Ledger
use proofos.Ledger.{
  LedgerError, capability_denied, no_requirements, ObservationGrant, EvidenceLedger,
  grant_observation, record_evidence,
}

pub record ClaimCapability : Type 0 where
  pub agent_id : String

-- The evidence that `record_claim` makes.
unfoldable pub claim_evidence : Hash → ClaimCapability → ℤ → ℕ → String → String → Evidence
unfolding with_hash
claim_evidence content_hash cap clock ident kind value = with_hash content_hash (record {
  ident = ident;
  kind = kind;
  value = value;
  source = executor;
  valid = true;
  collected_at = some (tick clock);
  collector = cap.agent_id;
  content_hash = "";
})

unfoldable pub record_claim :
    Hash
    → ClaimCapability
    → ℤ
    → ℕ
    → String
    → String
    → String
    → EvidenceLedger
    → Result LedgerError (Evidence × EvidenceLedger)
unfolding claim_evidence record_evidence
record_claim content_hash cap clock ident task_id kind value l =
    let e = claim_evidence content_hash cap clock ident kind value in
    record_evidence task_id e none l >>= λ l'. ok (e, l')

pub record ObservationCapability : Type 0 where
  pub agent_id : String
  pub grant : ObservationGrant

unfoldable pub new_observation_capability :
    String → List String → EvidenceLedger → Result LedgerError ObservationCapability
unfolding grant_observation
new_observation_capability agent_id allowed_kinds l =
    grant_observation agent_id allowed_kinds l >>= λ grant.
    ok (record { agent_id = agent_id; grant = grant })

-- `time.time() if collected_at is None else collected_at`
unfoldable pub collection_time : Option Time → ℤ → Time
collection_time none clock = tick clock
collection_time (some t) clock = t

-- The evidence that `record_observation` makes.
unfoldable pub observation_evidence :
    Hash → ObservationCapability → ℤ → ℕ → String → String → Bool → Option Time → Evidence
unfolding with_hash collection_time
observation_evidence content_hash cap clock ident kind value satisfies collected_at =
    with_hash content_hash (record {
      ident = ident;
      kind = kind;
      value = value;
      source = observed;
      valid = satisfies;
      collected_at = some (collection_time collected_at clock);
      collector = cap.agent_id;
      content_hash = "";
    })

unfoldable pub record_observation :
    Hash
    → ObservationCapability
    → ℤ
    → ℕ
    → String
    → String
    → String
    → Bool
    → Option Time
    → EvidenceLedger
    → Result LedgerError (Evidence × EvidenceLedger)
unfolding observation_evidence record_evidence
record_observation content_hash cap clock ident task_id kind value satisfies collected_at l =
    let e = observation_evidence content_hash cap clock ident kind value satisfies collected_at in
    record_evidence task_id e (some cap.grant) l >>= λ l'. ok (e, l')

-- VerificationCapability.verify: the evidence is read before the requirements.
unfoldable pub verify_task :
    Hash → ℤ → String → String → EvidenceLedger → Result LedgerError VerificationResult
unfolding Ledger.evidence Ledger.requirements
verify_task content_hash clock task_id claim l = Ledger.evidence content_hash task_id l >>= λ items.
    Ledger.requirements task_id l >>= λ required. ok (
      verify_completion content_hash (some claim) (ok (map item items))
        (ok (map requirement required)) none clock)

-- TaskAdminCapability.open_task, for the holder `agent_id`
unfoldable pub admin_open_task :
    String → String → List Requirement → EvidenceLedger → Result LedgerError EvidenceLedger
unfolding Ledger.open_task
admin_open_task agent_id task_id [] l = err (capability_denied agent_id no_requirements)
admin_open_task agent_id task_id (r ∷ rs) l = ok (Ledger.open_task task_id (r ∷ rs) l)
