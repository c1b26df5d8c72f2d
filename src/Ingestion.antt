-- ===== src/Ingestion.antt =====
-- proofos/ingestion.py: where a signed attestation becomes OBSERVED evidence, or nothing. The state
-- is the nonce ledger and the evidence ledger; the collectors, the capabilities and the request are
-- arguments. `tolerance` is CLOCK_SKEW_TOLERANCE_SECONDS in ticks, and `reads_unknown` says whether
-- the text of an identity error has "unknown" or "not active" in it. Details are not kept.
pub mod Checks
pub mod Accepted
pub mod Later
pub mod Nonces
pub mod Lost
mod Tests
use Prim.Native.String.{◌++◌ as str_append}
use proofos.Prelude.{ℕ, String, Bool, true, false, not, Option, none, some, List, [], ◌∷◌}
use proofos.Prelude.Tests.{◌==◌, if◌then◌else◌}
use proofos.Prelude.Int.{ℤ, ◌+ℤ◌, ◌-ℤ◌}
use proofos.Prelude.Time.{Time, tick, gt_time}
use proofos.Prelude.Assoc.{Dict, get, put}
use proofos.Prelude.Results.{Result, ok, err, ◌>>=◌, ◌>>◌, raise_if}
use proofos.Integrity.{Hash}
use proofos.Verifier.Types.{Evidence}
use proofos.Ledger.{EvidenceLedger, LedgerError}
use proofos.Capabilities.{ObservationCapability, record_observation}
use proofos.Attestation.{
  Outcome, outcome_name, satisfies, ObservationAttestation, AttestationError, Value, from_dict,
  verify_attestation, attestation_version,
}
use proofos.Collectors.{CollectorRecord, CollectorRegistry, IdentityError, require_scope}

pub data RejectionReason : Type 0 where
  malformed unsupported_version unknown_collector collector_scope signature_invalid :
      RejectionReason
  execution_mismatch task_mismatch kind_mismatch profile_mismatch : RejectionReason
  nonce_unknown nonce_reused nonce_binding stale future_dated : RejectionReason

pub record NonceRecord : Type 0 where
  pub nonce : String
  pub execution_id : String
  pub task_id : String
  pub kind : String
  pub issued_at : ℤ
  pub consumed_by : String

-- NonceLedger.issue, given the fresh nonce and the clock's reading
unfoldable pub issue : String → ℤ → String → String → String → Dict NonceRecord → Dict NonceRecord
unfolding put
issue nonce clock execution_id task_id kind nonces =
    put nonce
      (record {
        nonce = nonce;
        execution_id = execution_id;
        task_id = task_id;
        kind = kind;
        issued_at = clock;
        consumed_by = "";
      })
      nonces

abbrev pub spend :
    String
    → NonceRecord
    → String
    → Dict NonceRecord
    → Result RejectionReason (Bool × Dict NonceRecord)
spend nonce r signature nonces =
    if r.consumed_by == ""
    then ok (false, put nonce (record r { consumed_by = signature }) nonces)
    else (if r.consumed_by == signature then ok (true, nonces) else err nonce_reused)

abbrev pub consume_record :
    String
    → String
    → String
    → String
    → String
    → Dict NonceRecord
    → Option NonceRecord
    → Result RejectionReason (Bool × Dict NonceRecord)
consume_record nonce execution_id task_id kind signature nonces none = err nonce_unknown
consume_record nonce execution_id task_id kind signature nonces (some r) = do
  raise_if (not (r.execution_id == execution_id)) nonce_binding
  raise_if (not (r.task_id == task_id)) nonce_binding
  raise_if (not (r.kind == kind)) nonce_binding
  spend nonce r signature nonces

-- NonceLedger.consume: whether this is a replay, and the nonces afterwards
unfoldable pub consume :
    String
    → String
    → String
    → String
    → String
    → Dict NonceRecord
    → Result RejectionReason (Bool × Dict NonceRecord)
unfolding get put
consume nonce execution_id task_id kind signature nonces =
    consume_record nonce execution_id task_id kind signature nonces (get nonce nonces)

-- What the runtime asked for.
pub record Request : Type 0 where
  pub execution_id : String
  pub task_id : String
  pub kind : String
  pub profile : String
  pub nonce : String
  pub max_age_seconds : Option ℤ

pub record Ingestor : Type 0 where
  pub capabilities : Dict ObservationCapability
  pub collectors : CollectorRegistry

pub record IngestState : Type 0 where
  pub nonces : Dict NonceRecord
  pub ledger : EvidenceLedger

pub data IngestionResult : Type 0 where
  accepted : Outcome → Option Evidence → Bool → IngestionResult
  rejected : RejectionReason → IngestionResult

abbrev pub or_reject {ℓ} :
    {E : Type 0} {A : Type ℓ} → Result E A → (E → RejectionReason) → Result RejectionReason A
or_reject (ok a) reason = ok a
or_reject (err e) reason = err (reason e)

-- No comparison with NaN is true, so an answer dated NaN is neither future nor old.
unfoldable pub too_old : Option ℤ → ℤ → Time → Bool
unfolding gt_time
too_old none now observed_at = false
too_old (some age) now observed_at = gt_time (tick (now -ℤ age)) observed_at

-- Steps 6 to 10: the signed fields against the request, and freshness.
unfoldable pub check_request :
    ℤ → Request → ℤ → ObservationAttestation → Result RejectionReason (Unit {0})
unfolding ◌+ℤ◌ ◌-ℤ◌ gt_time too_old
check_request tolerance req now a = do
  raise_if (not (a.execution_id == req.execution_id)) execution_mismatch
  raise_if (not (a.task_id == req.task_id)) task_mismatch
  raise_if (not (a.kind == req.kind)) kind_mismatch
  raise_if (not (a.profile_id == req.profile)) profile_mismatch
  raise_if (not (a.request_nonce == req.nonce)) nonce_binding
  raise_if (gt_time a.observed_at (tick (now +ℤ tolerance))) future_dated
  raise_if (too_old req.max_age_seconds now a.observed_at) stale

-- Steps 1 to 10.
unfoldable pub check_attestation :
    (IdentityError → Bool)
    → ℤ
    → Ingestor
    → Request
    → ℤ
    → Option (Dict Value)
    → Result RejectionReason ObservationAttestation
unfolding from_dict require_scope verify_attestation check_request
check_attestation reads_unknown tolerance ing req now raw =
    or_reject (from_dict raw) (λ e. malformed) >>= λ a.
    (raise_if (not (a.version == attestation_version)) unsupported_version
      >> (or_reject (require_scope a.collector_id a.kind a.profile_id ing.collectors)
            (λ e. if reads_unknown e then unknown_collector else collector_scope)
          >>= λ r.
              (or_reject (verify_attestation r.verifier a) (λ e. signature_invalid)
                >> (check_request tolerance req now a >> ok a))))

-- f"attested {outcome} via {profile}: {detail}"
abbrev pub attested_value : ObservationAttestation → String
attested_value a = str_append "attested " (
    str_append (outcome_name a.outcome)
      (str_append " via " (str_append a.profile_id (str_append ": " a.detail))))

-- An exception of `record_observation` goes through; the nonce is spent by then.
abbrev pub recorded :
    Outcome
    → Dict NonceRecord
    → EvidenceLedger
    → Result LedgerError (Evidence × EvidenceLedger)
    → IngestState × Result LedgerError IngestionResult
recorded outcome nonces ledger (ok (e, l)) =
    (record { nonces = nonces; ledger = l }, ok (accepted outcome (some e) false))
recorded outcome nonces ledger (err x) = (record { nonces = nonces; ledger = ledger }, err x)

-- Step 12.
abbrev pub record_attestation :
    Hash
    → ℤ
    → ℕ
    → Request
    → ObservationAttestation
    → Dict NonceRecord
    → EvidenceLedger
    → Option ObservationCapability
    → IngestState × Result LedgerError IngestionResult
record_attestation content_hash clock ident req a nonces ledger none =
    (record { nonces = nonces; ledger = ledger }, ok (rejected unknown_collector))
record_attestation content_hash clock ident req a nonces ledger (some cap) =
    recorded a.outcome nonces ledger (
      record_observation content_hash cap clock ident req.task_id a.kind (attested_value a)
        (satisfies a.outcome) (some a.observed_at) ledger)

-- What follows step 11.
abbrev pub after_consume :
    Hash
    → ℤ
    → ℕ
    → Ingestor
    → Request
    → IngestState
    → ObservationAttestation
    → Result RejectionReason (Bool × Dict NonceRecord)
    → IngestState × Result LedgerError IngestionResult
after_consume content_hash clock ident ing req st a (err reason) = (st, ok (rejected reason))
after_consume content_hash clock ident ing req st a (ok (true, nonces)) =
    (record st { nonces = nonces }, ok (accepted a.outcome none true))
after_consume content_hash clock ident ing req st a (ok (false, nonces)) =
    record_attestation content_hash clock ident req a nonces st.ledger
      (get a.collector_id ing.capabilities)

abbrev pub after_checks :
    Hash
    → ℤ
    → ℕ
    → Ingestor
    → Request
    → IngestState
    → Result RejectionReason ObservationAttestation
    → IngestState × Result LedgerError IngestionResult
after_checks content_hash clock ident ing req st (err reason) = (st, ok (rejected reason))
after_checks content_hash clock ident ing req st (ok a) =
    after_consume content_hash clock ident ing req st a
      (consume a.request_nonce req.execution_id req.task_id a.kind a.signature st.nonces)

-- ingest, at the time `now`, with the identity of the evidence that it may make
unfoldable pub ingest :
    Hash
    → (IdentityError → Bool)
    → ℤ
    → Ingestor
    → Request
    → ℤ
    → ℕ
    → Option (Dict Value)
    → IngestState
    → IngestState × Result LedgerError IngestionResult
unfolding check_attestation consume get outcome_name satisfies record_observation
ingest content_hash reads_unknown tolerance ing req now ident raw st =
    after_checks content_hash now ident ing req st
      (check_attestation reads_unknown tolerance ing req now raw)
