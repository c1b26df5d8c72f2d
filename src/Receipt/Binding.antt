-- ===== src/Receipt/Binding.antt =====
-- What a verified receipt says of the record.
use proofos.Prelude.{String, ◌≡◌, refl, true, not, arith}
use proofos.Prelude.Tests.{◌==◌, eq_iff, nat_eq_iff}
use proofos.Prelude.Results.{Result, ok, err, ◌>>◌, raise_if, then-ok, passed_check}
use proofos.Integrity.{Hash}
use proofos.Signing.{
  SignatureLibrary, SignatureFault, SignedBy, check_signed, check_signed-SignedBy,
}
use proofos.Witness.Observe.{WitnessRecord, record_intact}
use proofos.Receipt.{
  WitnessReceipt, ReceiptVerifier, ReceiptError, receipt_fields, wrong_version, wrong_witness,
  record_damaged, signature_error, check_receipt_fields, verify_receipt, witness_receipt_version,
}

-- The receipt is the verifier's witness's, signed by its key, for exactly this intact record.
pub record ReceiptBinds (content_hash : Hash) (key_of : String → SignatureLibrary)
    (v : ReceiptVerifier) (r : WitnessReceipt) (record_ : WitnessRecord) : Type 0 where
  pub own_witness : r.witness_id ≡ v.witness_id
  pub intact_record : record_intact content_hash record_ ≡ true
  pub signed_receipt : SignedBy (key_of v.public_key_b64) r.signature (receipt_fields r)
  pub same_witness : r.witness_id ≡ record_.witness_id
  pub same_operation : r.operation_id ≡ record_.operation_id
  pub same_execution : r.execution_id ≡ record_.execution_id
  pub same_version : r.checkpoint_version ≡ record_.checkpoint_version
  pub same_digest : r.checkpoint_digest ≡ record_.checkpoint_digest
  pub same_record : r.witness_record_hash ≡ record_.record_hash

signature_error-ok : (m : Result SignatureFault (Unit {0})) → signature_error m ≡ ok tt → m ≡ ok tt
signature_error-ok (ok tt) h = refl
signature_error-ok (err e) h = cc

-- A verified receipt is its verifier's witness's, carries a signature of this witness's key over
-- exactly its fields, and agrees with an intact record.
pub verify_receipt-ReceiptBinds :
    (content_hash : Hash) (key_of : String → SignatureLibrary) (v : ReceiptVerifier)
    (r : WitnessReceipt) (record_ : WitnessRecord)
    → verify_receipt content_hash key_of v r record_ ≡ ok tt
    → ReceiptBinds content_hash key_of v r record_
unfolding verify_receipt check_receipt_fields
verify_receipt-ReceiptBinds content_hash key_of v r record_ h =
    let a =
      then-ok (raise_if (not (r.version == witness_receipt_version)) wrong_version) from_witness
        h in
    let w = then-ok (raise_if (not (r.witness_id == v.witness_id)) wrong_witness) from_record a.1 in
    let d =
      then-ok (raise_if (not (record_intact content_hash record_)) record_damaged) from_signature
        w.1 in
    let s =
      then-ok
        (signature_error (check_signed (key_of v.public_key_b64) r.signature (receipt_fields r)))
        (check_receipt_fields r record_) d.1 in
    let f = s.1 in
    record {
      own_witness = (eq_iff r.witness_id v.witness_id).0 (passed_check _ _ w.0);
      intact_record = passed_check _ _ d.0;
      signed_receipt =
          check_signed-SignedBy (key_of v.public_key_b64) r.signature (receipt_fields r)
            (signature_error-ok _ s.0);
      same_witness = (eq_iff r.witness_id record_.witness_id).0 (ground (arith, f));
      same_operation = (eq_iff r.operation_id record_.operation_id).0 (ground (arith, f));
      same_execution = (eq_iff r.execution_id record_.execution_id).0 (ground (arith, f));
      same_version =
          (nat_eq_iff r.checkpoint_version record_.checkpoint_version).0 (ground (arith, f));
      same_digest = (eq_iff r.checkpoint_digest record_.checkpoint_digest).0 (ground (arith, f));
      same_record = (eq_iff r.witness_record_hash record_.record_hash).0 (ground (arith, f));
    }
  where
    from_signature : Result ReceiptError (Unit {0})
    from_signature =
        signature_error (check_signed (key_of v.public_key_b64) r.signature (receipt_fields r))
        >> check_receipt_fields r record_

    from_record : Result ReceiptError (Unit {0})
    from_record =
        raise_if (not (record_intact content_hash record_)) record_damaged >> from_signature

    from_witness : Result ReceiptError (Unit {0})
    from_witness = raise_if (not (r.witness_id == v.witness_id)) wrong_witness >> from_record
