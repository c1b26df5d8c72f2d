-- ===== src/Ingestion/Lost.antt =====
-- An answer that spends its nonce and then finds no capability.
use proofos.Prelude.{ℕ, ◌≡◌, refl, ◌≢◌, inl, inr, Bool, true, false, Option, none, some}
use proofos.Prelude.Tests.{◌==◌, eq_iff, eq_refl, Bool-cases}
use proofos.Prelude.Int.{ℤ}
use proofos.Prelude.Assoc.{Dict, get, put, get-put_self}
use proofos.Prelude.Results.{ok}
use proofos.Integrity.{Hash}
use proofos.Attestation.{ObservationAttestation, Value}
use proofos.Collectors.{IdentityError}
use proofos.Ingestion.{
  unknown_collector, NonceRecord, Request, Ingestor, IngestState, accepted, rejected, consume,
  check_attestation, ingest,
}

-- The nonce was issued for this request and was not spent.
pub record Fresh (req : Request) (a : ObservationAttestation) (r : NonceRecord) : Type 0 where
  pub unspent : r.consumed_by ≡ ""
  pub same_execution : r.execution_id ≡ req.execution_id
  pub same_task : r.task_id ≡ req.task_id
  pub same_kind : r.kind ≡ a.kind

module _ (req : Request) (a : ObservationAttestation) (r : NonceRecord)
    (nonces : Dict NonceRecord) where
  abbrev spent : NonceRecord
  spent = record r { consumed_by = a.signature }

  consume-Fresh :
      Fresh req a r
      → get a.request_nonce nonces ≡ some r
      → consume a.request_nonce req.execution_id req.task_id a.kind a.signature nonces
        ≡ ok (false, put a.request_nonce spent nonces)
  unfolding consume
  consume-Fresh f at = rw (
    at,
    (eq_iff r.execution_id req.execution_id).1 f.same_execution,
    (eq_iff r.task_id req.task_id).1 f.same_task,
    (eq_iff r.kind a.kind).1 f.same_kind,
    (eq_iff r.consumed_by "").1 f.unspent,
  )

  not_empty : a.signature ≢ "" → (a.signature == "") ≡ false
  not_empty n = elim (Bool-cases (a.signature == "")) [
    | inl e ↦ absurd (n ((eq_iff a.signature "").0 e))
    | inr e ↦ e
  ]

  consume-spent :
      Fresh req a r
      → a.signature ≢ ""
      → consume a.request_nonce req.execution_id req.task_id a.kind a.signature
          (put a.request_nonce spent nonces)
        ≡ ok (true, put a.request_nonce spent nonces)
  unfolding consume
  consume-spent f n = rw (
    get-put_self a.request_nonce spent nonces,
    (eq_iff r.execution_id req.execution_id).1 f.same_execution,
    (eq_iff r.task_id req.task_id).1 f.same_task,
    (eq_iff r.kind a.kind).1 f.same_kind,
    not_empty n,
    eq_refl,
  )

-- If an attestation passes every check, its nonce was issued for the request and not spent, and the
-- collector has no capability, then it is rejected and recorded nowhere, and the same attestation
-- presented again is reported as accepted, as a repetition, with the ledger as it was.
pub lost_observation_accepted :
    (content_hash : Hash) (reads_unknown : IdentityError → Bool) (tolerance : ℤ) (ing : Ingestor)
    (req : Request) (now : ℤ) (ident : ℕ) (raw : Option (Dict Value)) (st : IngestState)
    (a : ObservationAttestation) (r : NonceRecord)
    → check_attestation reads_unknown tolerance ing req now raw ≡ ok a
    → get a.request_nonce st.nonces ≡ some r
    → Fresh req a r
    → a.signature ≢ ""
    → get a.collector_id ing.capabilities ≡ none
    → ((ingest content_hash reads_unknown tolerance ing req now ident raw st).1
        ≡ ok (rejected unknown_collector))
      × ((ingest content_hash reads_unknown tolerance ing req now ident raw
            (ingest content_hash reads_unknown tolerance ing req now ident raw st).0).1
          ≡ ok (accepted a.outcome none true))
      × (((ingest content_hash reads_unknown tolerance ing req now ident raw
              (ingest content_hash reads_unknown tolerance ing req now ident raw st).0).0
            ).ledger
          ≡ st.ledger)
unfolding ingest
lost_observation_accepted content_hash reads_unknown tolerance ing req now ident raw st a r checks
      at f n no_capability =
    rw
      (
        checks,
        consume-Fresh req a r st.nonces f at,
        no_capability,
        consume-spent req a r st.nonces f n,
      )
      (refl, refl, refl)
