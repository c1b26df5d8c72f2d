-- ===== src/Ingestion/Later.antt =====
-- What happens around the ingestor between two answers, and that a spent nonce stays spent.
use mathlib.Core.Path.{subst}
use proofos.Prelude.{
  ℕ, String, ◌≡◌, refl, sym, ap, ◌∙◌, ◌≢◌, inl, inr, Bool, true, false, not, Option, none, some,
  List, [], ◌∷◌,
}
use proofos.Prelude.Tests.{◌==◌, eq_iff, Bool-cases, if◌then◌else◌}
use proofos.Prelude.Int.{ℤ}
use proofos.Prelude.Assoc.{Dict, get, put, get-put}
use proofos.Prelude.Results.{Result, ok, err, ◌>>◌, raise_if, then-ok, ok_inj}
use proofos.Integrity.{Hash}
use proofos.Verifier.Types.{Evidence}
use proofos.Ledger.{EvidenceLedger, LedgerError}
use proofos.Capabilities.{ObservationCapability, record_observation}
use proofos.Attestation.{satisfies, ObservationAttestation, Value}
use proofos.Collectors.{IdentityError}
use proofos.Ingestion.{
  RejectionReason, NonceRecord, Request, Ingestor, IngestState, nonce_binding, issue, spend,
  consume_record, consume, check_attestation, attested_value, recorded, record_attestation,
  after_consume, after_checks, ingest,
}

-- A nonce is issued, an answer is ingested, for any request, or another holder writes the evidence
-- ledger.
pub data Event : Type 0 where
  nonce_issued : String → ℤ → String → String → String → Event
  answer_ingested : Ingestor → Request → ℤ → ℕ → Option (Dict Value) → Event
  ledger_written : EvidenceLedger → Event

-- The nonce is not issued once more: nonces are random.
abbrev pub NotReissued : String → List Event → Type 0
NotReissued nonce [] = Unit
NotReissued nonce (nonce_issued n clock execution_id task_id kind ∷ es) =
    (n ≢ nonce) × NotReissued nonce es
NotReissued nonce (answer_ingested ing req now ident raw ∷ es) = NotReissued nonce es
NotReissued nonce (ledger_written l ∷ es) = NotReissued nonce es

-- The nonce was issued and is spent.
abbrev pub Spent : String → Dict NonceRecord → Type 0
Spent nonce nonces = (r : NonceRecord) × (get nonce nonces ≡ some r) × (r.consumed_by ≢ "")

Spent-put :
    (k nonce : String) (v : NonceRecord) (nonces : Dict NonceRecord)
    → k ≢ nonce
    → Spent nonce nonces
    → Spent nonce (put k v nonces)
Spent-put k nonce v nonces n (r, at, s) = elim (Bool-cases (k == nonce)) [
  | inl e ↦ absurd (n ((eq_iff k nonce).0 e))
  | inr e ↦ (r, rw (get-put, e) at, s)
]

-- Spending a nonce, this one or another, leaves it spent.
spend-Spent :
    (k nonce signature : String) (nonces after : Dict NonceRecord) (again : Bool) (x : NonceRecord)
    → get k nonces ≡ some x
    → spend k x signature nonces ≡ ok (again, after)
    → Spent nonce nonces
    → Spent nonce after
spend-Spent k nonce signature nonces after again x at h s =
    elim (Bool-cases (x.consumed_by == "")) [
      | inl e ↦
          let same : put k (record x { consumed_by = signature }) nonces ≡ after =
            ap (λ (p : Bool × Dict NonceRecord). p.1) (ok_inj (rw (e, if◌then◌else◌) at h)) in
          subst (Spent nonce) same (
            Spent-put k nonce (record x { consumed_by = signature }) nonces
              (λ q. s.2 (
                ap (λ (r : NonceRecord). r.consumed_by)
                  (some_inj (sym s.1 ∙ ap (λ (j : String). get j nonces) (sym q) ∙ at))
                ∙ (eq_iff x.consumed_by "").0 e))
              s)
      | inr e ↦ elim (Bool-cases (x.consumed_by == signature)) [
        | inl m ↦
            subst (Spent nonce)
              (ap (λ (p : Bool × Dict NonceRecord). p.1) (ok_inj (rw (e, m, if◌then◌else◌) at h))) s
        | inr m ↦ cc (rw (e, m, if◌then◌else◌) at h)
      ]
    ]
  where
    some_inj : {r q : NonceRecord} → some r ≡ some q → r ≡ q
    some_inj p = cc

consume-Spent :
    (k nonce execution_id task_id kind signature : String) (nonces after : Dict NonceRecord)
    (again : Bool)
    → consume k execution_id task_id kind signature nonces ≡ ok (again, after)
    → Spent nonce nonces
    → Spent nonce after
unfolding consume
consume-Spent k nonce execution_id task_id kind signature nonces after again h s =
    by_record (get k nonces) refl h
  where
    by_record :
        (o : Option NonceRecord)
        → get k nonces ≡ o
        → consume_record k execution_id task_id kind signature nonces o ≡ ok (again, after)
        → Spent nonce after
    by_record none at g = cc
    by_record (some x) at g =
        let a =
          then-ok (raise_if (not (x.execution_id == execution_id)) nonce_binding) from_task g in
        let b = then-ok (raise_if (not (x.task_id == task_id)) nonce_binding) from_kind a.1 in
        let c =
          then-ok (raise_if (not (x.kind == kind)) nonce_binding) (spend k x signature nonces)
            b.1 in
        spend-Spent k nonce signature nonces after again x at c.1 s
      where
        from_kind : Result RejectionReason (Bool × Dict NonceRecord)
        from_kind = raise_if (not (x.kind == kind)) nonce_binding >> spend k x signature nonces

        from_task : Result RejectionReason (Bool × Dict NonceRecord)
        from_task = raise_if (not (x.task_id == task_id)) nonce_binding >> from_kind

module _ (content_hash : Hash) (reads_unknown : IdentityError → Bool) (tolerance : ℤ) where
  -- An answer, to any request, leaves a spent nonce spent.
  ingest-Spent :
      (ing : Ingestor) (req : Request) (now : ℤ) (ident : ℕ) (raw : Option (Dict Value))
      (st : IngestState) (nonce : String)
      → Spent nonce st.nonces
      → Spent nonce
          ((ingest content_hash reads_unknown tolerance ing req now ident raw st).0).nonces
  unfolding ingest
  ingest-Spent ing req now ident raw st nonce s =
      by_checks (check_attestation reads_unknown tolerance ing req now raw)
    where
      by_capability :
          (a : ObservationAttestation) (nonces : Dict NonceRecord)
          (c : Option ObservationCapability)
          → Spent nonce nonces
          → Spent nonce
              ((record_attestation content_hash now ident req a nonces st.ledger c).0).nonces
      by_capability a nonces none k = k
      by_capability a nonces (some cap) k = by_record (
          record_observation content_hash cap now ident req.task_id a.kind (attested_value a)
            (satisfies a.outcome) (some a.observed_at) st.ledger)
        where
          by_record :
              (m : Result LedgerError (Evidence × EvidenceLedger))
              → Spent nonce ((recorded a.outcome nonces st.ledger m).0).nonces
          by_record (ok (x, l)) = k
          by_record (err x) = k

      by_consume :
          (a : ObservationAttestation) (m : Result RejectionReason (Bool × Dict NonceRecord))
          → consume a.request_nonce req.execution_id req.task_id a.kind a.signature st.nonces ≡ m
          → Spent nonce ((after_consume content_hash now ident ing req st a m).0).nonces
      by_consume a (err reason) q = s
      by_consume a (ok (true, nonces)) q =
          consume-Spent a.request_nonce nonce req.execution_id req.task_id a.kind a.signature
            st.nonces nonces true q s
      by_consume a (ok (false, nonces)) q =
          by_capability a nonces (get a.collector_id ing.capabilities) (
            consume-Spent a.request_nonce nonce req.execution_id req.task_id a.kind a.signature
              st.nonces nonces false q s)

      by_checks :
          (m : Result RejectionReason ObservationAttestation)
          → Spent nonce ((after_checks content_hash now ident ing req st m).0).nonces
      by_checks (err reason) = s
      by_checks (ok a) =
          by_consume a
            (consume a.request_nonce req.execution_id req.task_id a.kind a.signature st.nonces) refl

  abbrev pub happens : Event → IngestState → IngestState
  happens (nonce_issued nonce clock execution_id task_id kind) st = record st {
    nonces = issue nonce clock execution_id task_id kind st.nonces;
  }
  happens (answer_ingested ing req now ident raw) st =
      (ingest content_hash reads_unknown tolerance ing req now ident raw st).0
  happens (ledger_written l) st = record st { ledger = l }

  unfoldable pub happen_all : List Event → IngestState → IngestState
  unfolding issue ingest
  happen_all [] st = st
  happen_all (e ∷ es) st = happen_all es (happens e st)

  -- A spent nonce stays spent, whatever happens, unless it is issued again.
  pub happen_all-Spent :
      (es : List Event) (nonce : String) (st : IngestState)
      → NotReissued nonce es
      → Spent nonce st.nonces
      → Spent nonce (happen_all es st).nonces
  unfolding happen_all issue
  happen_all-Spent [] nonce st n s = s
  happen_all-Spent (nonce_issued k clock execution_id task_id kind ∷ es) nonce st n s =
      happen_all-Spent es nonce (happens (nonce_issued k clock execution_id task_id kind) st) n.1
        (Spent-put k nonce _ st.nonces n.0 s)
  happen_all-Spent (answer_ingested ing req now ident raw ∷ es) nonce st n s =
      happen_all-Spent es nonce (happens (answer_ingested ing req now ident raw) st) n
        (ingest-Spent ing req now ident raw st nonce s)
  happen_all-Spent (ledger_written l ∷ es) nonce st n s =
      happen_all-Spent es nonce (happens (ledger_written l) st) n s
