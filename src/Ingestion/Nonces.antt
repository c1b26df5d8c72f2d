-- ===== src/Ingestion/Nonces.antt =====
-- What a nonce is good for: one observation.
use mathlib.Core.Path.{subst}
use proofos.Prelude.{
  ℕ, String, ◌≡◌, refl, sym, ap, ◌∙◌, ◌≢◌, inl, inr, Bool, true, false, Option, none, some, List,
  [], ◌∷◌, arith,
}
use proofos.Prelude.Tests.{◌==◌, eq_iff, Bool-cases}
use proofos.Prelude.Lists.{length}
use proofos.Prelude.Int.{ℤ}
use proofos.Prelude.Assoc.{Dict, get, get-put_self}
use proofos.Prelude.Results.{Result, ok, err}
use proofos.Integrity.{Hash}
use proofos.Verifier.Types.{Evidence}
use proofos.Ledger.{EvidenceLedger, LedgerError}
use proofos.Capabilities.{ObservationCapability, record_observation}
use proofos.Attestation.{Outcome, satisfies, ObservationAttestation, Value}
use proofos.Collectors.{CollectorRecord, IdentityError}
use proofos.Ingestion.{
  RejectionReason, NonceRecord, Request, Ingestor, IngestState, accepted, consume_record, consume,
  check_attestation, attested_value, recorded, record_attestation, after_consume, after_checks,
  ingest,
}
use proofos.Ingestion.Accepted.{check_attestation-Checked}
use proofos.Ingestion.Later.{Event, NotReissued, happen_all, happen_all-Spent}

-- A nonce that was spent is not spent again.
spent_again :
    (nonce execution_id task_id kind signature : String) (nonces after : Dict NonceRecord)
    (r : NonceRecord)
    → r.consumed_by ≢ ""
    → consume_record nonce execution_id task_id kind signature nonces (some r) ≢ ok (false, after)
spent_again nonce execution_id task_id kind signature nonces after r spent h =
    elim (Bool-cases (r.consumed_by == "")) [
      | inl e ↦ spent ((eq_iff r.consumed_by "").0 e)
      | inr e ↦ ground arith
    ]

module _ (content_hash : Hash) (reads_unknown : IdentityError → Bool) (tolerance : ℤ)
    (ing : Ingestor) (req : Request) where
  -- A request with a nonce that was spent writes no evidence, whatever the answer.
  pub spent_nonce_writes_nothing :
      (now : ℤ) (ident : ℕ) (raw : Option (Dict Value)) (st : IngestState) (r : NonceRecord)
      → get req.nonce st.nonces ≡ some r
      → r.consumed_by ≢ ""
      → ((ingest content_hash reads_unknown tolerance ing req now ident raw st).0).ledger
        ≡ st.ledger
  unfolding ingest consume
  spent_nonce_writes_nothing now ident raw st r at spent =
      by_checks (check_attestation reads_unknown tolerance ing req now raw) refl
    where
      by_consume :
          (a : ObservationAttestation) (m : Result RejectionReason (Bool × Dict NonceRecord))
          → consume a.request_nonce req.execution_id req.task_id a.kind a.signature st.nonces ≡ m
          → a.request_nonce ≡ req.nonce
          → ((after_consume content_hash now ident ing req st a m).0).ledger ≡ st.ledger
      by_consume a (err reason) q same = refl
      by_consume a (ok (true, nonces)) q same = refl
      by_consume a (ok (false, nonces)) q same = absurd (
          spent_again a.request_nonce req.execution_id req.task_id a.kind a.signature st.nonces
            nonces r spent
            (ap
                (consume_record a.request_nonce req.execution_id req.task_id a.kind a.signature
                  st.nonces)
                (sym (ap (λ (k : String). get k st.nonces) same ∙ at))
              ∙ q))

      by_checks :
          (m : Result RejectionReason ObservationAttestation)
          → check_attestation reads_unknown tolerance ing req now raw ≡ m
          → ((after_checks content_hash now ident ing req st m).0).ledger ≡ st.ledger
      by_checks (err reason) k = refl
      by_checks (ok a) k =
          by_consume a
            (consume a.request_nonce req.execution_id req.task_id a.kind a.signature st.nonces) refl
            ((check_attestation-Checked reads_unknown tolerance ing req now raw k).answers
              ).same_nonce

-- A nonce that is spent now bears the signature.
spent_now :
    (nonce execution_id task_id kind signature : String) (nonces after : Dict NonceRecord)
    (o : Option NonceRecord)
    → consume_record nonce execution_id task_id kind signature nonces o ≡ ok (false, after)
    → (r : NonceRecord) × (get nonce after ≡ some r) × (r.consumed_by ≡ signature)
spent_now nonce execution_id task_id kind signature nonces after none h = cc
spent_now nonce execution_id task_id kind signature nonces after (some r) h =
    elim (Bool-cases (r.consumed_by == "")) [
      | inl e ↦ (
        record r { consumed_by = signature },
        subst (λ (d : Dict NonceRecord). get nonce d ≡ some (record r { consumed_by = signature }))
            (ground arith) (get-put_self nonce (record r { consumed_by = signature }) nonces),
        refl,
      )
      | inr e ↦ absurd (ground arith)
    ]

-- The text of no signature is empty, if base64 decodes the empty text to no bytes.
signature_nonempty :
    (decode : String → Option (List ℕ)) (signature : String) (bytes : List ℕ)
    → decode "" ≡ some []
    → decode signature ≡ some bytes
    → length bytes ≡ 64
    → signature ≢ ""
signature_nonempty decode signature [] z d n e = absurd (omega (arith, n))
signature_nonempty decode signature (b ∷ bs) z d n e = cc (sym (ap decode e) ∙ d, z)

module _ (content_hash : Hash) (reads_unknown : IdentityError → Bool) (tolerance : ℤ)
    (ing : Ingestor)
    (decodes_empty : (k : String) (c : CollectorRecord)
      → get k (ing.collectors).records ≡ some c
      → (c.verifier).decode "" ≡ some [])
    (req : Request) where
  recorded-spends :
      (now : ℤ) (ident : ℕ) (raw : Option (Dict Value)) (st : IngestState) {o : Outcome}
      {e : Evidence}
      → (ingest content_hash reads_unknown tolerance ing req now ident raw st).1
        ≡ ok (accepted o (some e) false)
      → (r : NonceRecord) × (get req.nonce
            ((ingest content_hash reads_unknown tolerance ing req now ident raw st).0).nonces
          ≡ some r)
        × (r.consumed_by ≢ "")
  unfolding ingest consume
  recorded-spends now ident raw st {o} {e} h =
      by_checks (check_attestation reads_unknown tolerance ing req now raw) refl h
    where
      kept_nonces :
          (a : ObservationAttestation) (nonces : Dict NonceRecord)
          (c : Option ObservationCapability)
          → ((record_attestation content_hash now ident req a nonces st.ledger c).0).nonces ≡ nonces
      kept_nonces a nonces none = refl
      kept_nonces a nonces (some cap) = by_record (
          record_observation content_hash cap now ident req.task_id a.kind (attested_value a)
            (satisfies a.outcome) (some a.observed_at) st.ledger)
        where
          by_record :
              (m : Result LedgerError (Evidence × EvidenceLedger))
              → ((recorded a.outcome nonces st.ledger m).0).nonces ≡ nonces
          by_record (ok (x, l)) = refl
          by_record (err x) = refl

      by_consume :
          (a : ObservationAttestation) (m : Result RejectionReason (Bool × Dict NonceRecord))
          → consume a.request_nonce req.execution_id req.task_id a.kind a.signature st.nonces ≡ m
          → (after_consume content_hash now ident ing req st a m).1 ≡ ok (accepted o (some e) false)
          → (r : NonceRecord) × (get a.request_nonce
                ((after_consume content_hash now ident ing req st a m).0).nonces
              ≡ some r)
            × (r.consumed_by ≡ a.signature)
      by_consume a (err reason) k q = cc
      by_consume a (ok (true, nonces)) k q = cc
      by_consume a (ok (false, nonces)) k q =
          rw (kept_nonces a nonces (get a.collector_id ing.capabilities)) (
            spent_now a.request_nonce req.execution_id req.task_id a.kind a.signature st.nonces
              nonces (get a.request_nonce st.nonces) k)

      by_checks :
          (m : Result RejectionReason ObservationAttestation)
          → check_attestation reads_unknown tolerance ing req now raw ≡ m
          → (after_checks content_hash now ident ing req st m).1 ≡ ok (accepted o (some e) false)
          → (r : NonceRecord) × (get req.nonce
                ((after_checks content_hash now ident ing req st m).0).nonces
              ≡ some r)
            × (r.consumed_by ≢ "")
      by_checks (err reason) k q = cc
      by_checks (ok a) k q =
          let c = check_attestation-Checked reads_unknown tolerance ing req now raw k in
          let s =
            by_consume a
              (consume a.request_nonce req.execution_id req.task_id a.kind a.signature st.nonces)
              refl q in
          (
            s.0,
            subst
                (λ (n : String).
                  get n ((after_checks content_hash now ident ing req st (ok a)).0).nonces
                  ≡ some s.0)
                (c.answers).same_nonce s.1,
            λ empty.
                signature_nonempty ((c.collector).verifier).decode a.signature (c.signed).0
                  (decodes_empty a.collector_id c.collector (c.scoped).registered) (c.signed).1
                  (c.signed).2 (sym s.2 ∙ empty),
          )

  -- If base64 decodes the empty text to no bytes: once an answer to a request was recorded as
  -- evidence, then after whatever happens later (answers to any requests, other nonces issued, writes
  -- to the evidence ledger), unless the request's nonce is issued again, no answer to a request with
  -- this nonce writes evidence.
  pub one_observation_per_nonce :
      (now later : ℤ) (ident ident' : ℕ) (raw raw' : Option (Dict Value)) (st : IngestState)
      (es : List Event) (other : Ingestor) (req' : Request) {o : Outcome} {e : Evidence}
      → (ingest content_hash reads_unknown tolerance ing req now ident raw st).1
        ≡ ok (accepted o (some e) false)
      → NotReissued req.nonce es
      → req'.nonce ≡ req.nonce
      → ((ingest content_hash reads_unknown tolerance other req' later ident' raw' (
          happen_all content_hash reads_unknown tolerance es
            (ingest content_hash reads_unknown tolerance ing req now ident raw st).0)).0
        ).ledger
        ≡ (happen_all content_hash reads_unknown tolerance es
            (ingest content_hash reads_unknown tolerance ing req now ident raw st).0).ledger
  one_observation_per_nonce now later ident ident' raw raw' st es other req' h n same =
      let (r, at, s) =
        happen_all-Spent content_hash reads_unknown tolerance es req.nonce
          (ingest content_hash reads_unknown tolerance ing req now ident raw st).0 n
          (recorded-spends now ident raw st h) in
      spent_nonce_writes_nothing content_hash reads_unknown tolerance other req' later ident' raw'
        (happen_all content_hash reads_unknown tolerance es
          (ingest content_hash reads_unknown tolerance ing req now ident raw st).0)
        r (rw same at) s
