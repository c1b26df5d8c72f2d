-- ===== src/Receipt.antt =====
-- proofos/witness_receipt.py: a witness's signed receipt for one record. `key_of` gives the key of a
-- public key's base64 text. The parser of receipts is not modelled.
pub mod Binding
use proofos.Prelude.{ℕ, String, Bool, true, false, not, Option, none, some, List, [], ◌∷◌}
use proofos.Prelude.Tests.{◌==◌, nat_eq}
use proofos.Prelude.Int.{ℤ, pos, leb_ℤ}
use proofos.Prelude.Results.{Result, ok, err, ◌>>=◌, ◌>>◌, raise_if}
use proofos.Integrity.{text, number, Fields, Hash}
use proofos.Signing.{SignatureLibrary, SignatureFault, check_signed, sign_fields}
use proofos.Checkpoint.{Stamp, finite, not_finite, stamp_of}
use proofos.Witness.Observe.{WitnessRecord, record_intact}

abbrev pub witness_receipt_version : String
witness_receipt_version = "proofos.witness-receipt.v1"

pub record WitnessReceipt : Type 0 where
  pub version : String
  pub witness_id : String
  pub operation_id : String
  pub execution_id : String
  pub checkpoint_version : ℕ
  pub checkpoint_digest : String
  pub witness_record_hash : String
  pub issued_at : ℤ
  pub signature : String

unfoldable pub receipt_fields : WitnessReceipt → Fields
receipt_fields r =
    ("version", text r.version)
    ∷ ("witness_id", text r.witness_id)
    ∷ ("operation_id", text r.operation_id)
    ∷ ("execution_id", text r.execution_id)
    ∷ ("checkpoint_version", number (pos r.checkpoint_version))
    ∷ ("checkpoint_digest", text r.checkpoint_digest)
    ∷ ("witness_record_hash", text r.witness_record_hash)
    ∷ ("issued_at", number r.issued_at)
    ∷ []

pub data ReceiptError : Type 0 where
  wrong_version wrong_witness record_damaged stamp_not_finite predates_observation : ReceiptError
  bad_signature : SignatureFault → ReceiptError
  receipt_differs : String → ReceiptError

abbrev pub unsigned_receipt : WitnessRecord → ℤ → String → WitnessReceipt
unsigned_receipt record_ stamp signature = record {
  version = witness_receipt_version;
  witness_id = record_.witness_id;
  operation_id = record_.operation_id;
  execution_id = record_.execution_id;
  checkpoint_version = record_.checkpoint_version;
  checkpoint_digest = record_.checkpoint_digest;
  witness_record_hash = record_.record_hash;
  issued_at = stamp;
  signature = signature;
}

abbrev pub sign_receipt_at :
    SignatureLibrary → WitnessRecord → Stamp → Result ReceiptError WitnessReceipt
sign_receipt_at key record_ not_finite = err stamp_not_finite
sign_receipt_at key record_ (finite t) =
    raise_if (not (leb_ℤ record_.observed_at t)) predates_observation
    >> ok (
        unsigned_receipt record_ t
          (sign_fields key (receipt_fields (unsigned_receipt record_ t ""))))

-- WitnessReceiptSigner.sign
unfoldable pub sign_receipt :
    Hash
    → SignatureLibrary
    → String
    → ℤ
    → WitnessRecord
    → Option Stamp
    → Result ReceiptError WitnessReceipt
unfolding record_intact stamp_of receipt_fields
sign_receipt content_hash key witness_id clock record_ issued_at = do
  raise_if (not (record_.witness_id == witness_id)) wrong_witness
  raise_if (not (record_intact content_hash record_)) record_damaged
  sign_receipt_at key record_ (stamp_of issued_at clock)

-- The public half: the witness and its public key's text.
pub record ReceiptVerifier : Type 0 where
  pub witness_id : String
  pub public_key_b64 : String

abbrev pub signature_error : Result SignatureFault (Unit {0}) → Result ReceiptError (Unit {0})
signature_error (ok u) = ok u
signature_error (err e) = err (bad_signature e)

-- The loop over the expected fields.
unfoldable pub check_receipt_fields :
    WitnessReceipt → WitnessRecord → Result ReceiptError (Unit {0})
check_receipt_fields r record_ = do
  raise_if (not (r.witness_id == record_.witness_id)) (receipt_differs "witness_id")
  raise_if (not (r.operation_id == record_.operation_id)) (receipt_differs "operation_id")
  raise_if (not (r.execution_id == record_.execution_id)) (receipt_differs "execution_id")
  raise_if (not (nat_eq r.checkpoint_version record_.checkpoint_version))
      (receipt_differs "checkpoint_version")
  raise_if (not (r.checkpoint_digest == record_.checkpoint_digest))
      (receipt_differs "checkpoint_digest")
  raise_if (not (r.witness_record_hash == record_.record_hash))
      (receipt_differs "witness_record_hash")
  raise_if (not (leb_ℤ record_.observed_at r.issued_at)) predates_observation

-- WitnessReceiptVerifier.verify
unfoldable pub verify_receipt :
    Hash
    → (String → SignatureLibrary)
    → ReceiptVerifier
    → WitnessReceipt
    → WitnessRecord
    → Result ReceiptError (Unit {0})
unfolding record_intact receipt_fields check_signed check_receipt_fields
verify_receipt content_hash key_of v r record_ = do
  raise_if (not (r.version == witness_receipt_version)) wrong_version
  raise_if (not (r.witness_id == v.witness_id)) wrong_witness
  raise_if (not (record_intact content_hash record_)) record_damaged
  signature_error (check_signed (key_of v.public_key_b64) r.signature (receipt_fields r))
  check_receipt_fields r record_
