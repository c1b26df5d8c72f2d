-- ===== src/Ingestion/Accepted.antt =====
-- What an accepted attestation has passed.
use proofos.Prelude.{ℕ, ◌≡◌, refl, Bool, true, false, not, Option, none, some}
use mathlib.Core.Path.{subst}
use proofos.Prelude.Tests.{◌==◌, eq_iff, if◌then◌else◌}
use proofos.Prelude.Int.{ℤ}
use proofos.Prelude.Assoc.{Dict, get}
use proofos.Prelude.Results.{
  Result, ok, err, ◌>>=◌, ◌>>◌, raise_if, bind-ok, then-ok, passed_check, ok_inj,
}
use proofos.Integrity.{Hash}
use proofos.Verifier.Types.{Evidence}
use proofos.Ledger.{EvidenceLedger, LedgerError}
use proofos.Capabilities.{ObservationCapability, record_observation}
use proofos.Attestation.{
  Outcome, satisfies, ObservationAttestation, Value, from_dict, verify_attestation,
  attestation_version,
}
use proofos.Collectors.{CollectorRecord, IdentityError, require_scope}
use proofos.Ingestion.{
  RejectionReason, NonceRecord, Request, Ingestor, IngestState, accepted, or_reject, check_request,
  ingest, after_checks, after_consume, record_attestation, recorded, attested_value, consume,
  check_attestation, malformed, unsupported_version, unknown_collector, collector_scope,
  signature_invalid,
}
use proofos.Ingestion.Checks.{
  or_reject-ok, InScope, require_scope-InScope, AttestationHolds, check_bytes-ok, Answers,
  check_request-Answers,
}

-- What the steps before the nonce have checked.
pub record Checked (tolerance : ℤ) (ing : Ingestor) (req : Request) (now : ℤ)
    (raw : Option (Dict Value)) (a : ObservationAttestation) : Type 0 where
  pub parsed : from_dict raw ≡ ok a
  pub supported : a.version ≡ attestation_version
  pub collector : CollectorRecord
  pub scoped : InScope ing.collectors a collector
  pub signed : AttestationHolds collector.verifier a
  pub answers : Answers tolerance req now a

module _ (reads_unknown : IdentityError → Bool) (tolerance : ℤ) (ing : Ingestor) (req : Request)
    (now : ℤ) (raw : Option (Dict Value)) where
  pub check_attestation-Checked :
      {a : ObservationAttestation}
      → check_attestation reads_unknown tolerance ing req now raw ≡ ok a
      → Checked tolerance ing req now raw a
  unfolding check_attestation verify_attestation
  check_attestation-Checked {a} h =
      let p = bind-ok (or_reject (from_dict raw) (λ e. malformed)) after_parse h in
      let v =
        then-ok (raise_if (not ((p.0).version == attestation_version)) unsupported_version)
          (or_reject (require_scope (p.0).collector_id (p.0).kind (p.0).profile_id ing.collectors)
              scope_reason
            >>= after_scope p.0)
          p.2 in
      let s =
        bind-ok
          (or_reject (require_scope (p.0).collector_id (p.0).kind (p.0).profile_id ing.collectors)
            scope_reason)
          (after_scope p.0) v.1 in
      let g =
        then-ok (or_reject (verify_attestation (s.0).verifier p.0) (λ e. signature_invalid))
          (check_request tolerance req now p.0 >> ok p.0) s.2 in
      let q = then-ok (check_request tolerance req now p.0) (ok p.0) g.1 in
      subst (Checked tolerance ing req now raw) (ok_inj q.1) (record {
        parsed = or_reject-ok (from_dict raw) (λ e. malformed) p.1;
        supported = (eq_iff (p.0).version attestation_version).0 (passed_check _ _ v.0);
        collector = s.0;
        scoped = require_scope-InScope ing.collectors p.0 (
            or_reject-ok
              (require_scope (p.0).collector_id (p.0).kind (p.0).profile_id ing.collectors)
              scope_reason s.1);
        signed =
            check_bytes-ok (s.0).verifier p.0 ((s.0).verifier.decode (p.0).signature)
              (or_reject-ok (verify_attestation (s.0).verifier p.0) (λ e. signature_invalid) g.0);
        answers = check_request-Answers tolerance req now p.0 q.0;
      })
    where
      scope_reason : IdentityError → RejectionReason
      scope_reason e = if reads_unknown e then unknown_collector else collector_scope

      after_scope :
          ObservationAttestation → CollectorRecord → Result RejectionReason ObservationAttestation
      after_scope a r =
          or_reject (verify_attestation r.verifier a) (λ e. signature_invalid)
          >> (check_request tolerance req now a >> ok a)

      after_parse : ObservationAttestation → Result RejectionReason ObservationAttestation
      after_parse a =
          raise_if (not (a.version == attestation_version)) unsupported_version
          >> (or_reject (require_scope a.collector_id a.kind a.profile_id ing.collectors)
                scope_reason
              >>= after_scope a)

  -- Whatever the ingestor accepts, as new or as a repetition, was parsed under the strict schema,
  -- comes from an active collector within its scope, carries a signature that the collector's key
  -- accepts, and answers this request; and the time that it states is NaN, or it is no later than now
  -- plus the tolerance and, if the request names a maximal age, no older than that.
  pub accepted-Checked :
      (content_hash : Hash) (ident : ℕ) (st : IngestState) {o : Outcome} {e : Option Evidence}
      {again : Bool}
      → (ingest content_hash reads_unknown tolerance ing req now ident raw st).1
        ≡ ok (accepted o e again)
      → (a : ObservationAttestation) × (a.outcome ≡ o) × Checked tolerance ing req now raw a
  unfolding ingest
  accepted-Checked content_hash ident st {o} {e} {again} h =
      by_checks (check_attestation reads_unknown tolerance ing req now raw) refl h
    where
      by_capability :
          (a : ObservationAttestation) (nonces : Dict NonceRecord)
          (c : Option ObservationCapability)
          → (record_attestation content_hash now ident req a nonces st.ledger c).1
            ≡ ok (accepted o e again)
          → a.outcome ≡ o
      by_capability a nonces none q = cc
      by_capability a nonces (some cap) q =
          by_record
            (record_observation content_hash cap now ident req.task_id a.kind (attested_value a)
              (satisfies a.outcome) (some a.observed_at) st.ledger)
            q
        where
          by_record :
              (m : Result LedgerError (Evidence × EvidenceLedger))
              → (recorded a.outcome nonces st.ledger m).1 ≡ ok (accepted o e again)
              → a.outcome ≡ o
          by_record (ok (x, l)) q = cc
          by_record (err x) q = cc

      by_consume :
          (a : ObservationAttestation) (m : Result RejectionReason (Bool × Dict NonceRecord))
          → (after_consume content_hash now ident ing req st a m).1 ≡ ok (accepted o e again)
          → a.outcome ≡ o
      by_consume a (err reason) q = cc
      by_consume a (ok (true, nonces)) q = cc
      by_consume a (ok (false, nonces)) q =
          by_capability a nonces (get a.collector_id ing.capabilities) q

      by_checks :
          (m : Result RejectionReason ObservationAttestation)
          → check_attestation reads_unknown tolerance ing req now raw ≡ m
          → (after_checks content_hash now ident ing req st m).1 ≡ ok (accepted o e again)
          → (a : ObservationAttestation) × (a.outcome ≡ o) × Checked tolerance ing req now raw a
      by_checks (err reason) k q = cc
      by_checks (ok a) k q = (
        a,
        by_consume a
            (consume a.request_nonce req.execution_id req.task_id a.kind a.signature st.nonces) q,
        check_attestation-Checked k,
      )
