-- ===== src/Certificate.antt =====
-- proofos/quorum_certificate.py: a signed certificate for a quorum that was recomputed. The parser
-- of certificates is not modelled.
pub mod Binding
mod Tests
use proofos.Prelude.{ℕ, String, Bool, true, false, not, ◌&&◌, Option, none, some, List, [], ◌∷◌}
use proofos.Prelude.Tests.{◌==◌, nat_eq, ltb}
use proofos.Prelude.Lists.{length}
use proofos.Prelude.Int.{ℤ, pos}
use proofos.Prelude.Results.{Result, ok, err, ◌>>=◌, ◌>>◌, raise_if}
use proofos.Integrity.{text, texts, number, Fields, Hash}
use proofos.Signing.{SignatureLibrary, SignatureFault, check_signed, sign_fields}
use proofos.Checkpoint.{Stamp, finite, not_finite, stamp_of}
use proofos.Quorum.Evaluate.{QuorumState, quorum, insufficient, split_view, QuorumResult}

abbrev pub quorum_certificate_version : String
quorum_certificate_version = "proofos.quorum-certificate.v1"

-- str(result.state), and result.quorum_met
unfoldable pub state_name : QuorumState → String
state_name quorum = "QUORUM"
state_name insufficient = "INSUFFICIENT"
state_name split_view = "SPLIT_VIEW"

abbrev pub quorum_met : QuorumResult → Bool
quorum_met r = is_quorum r.state
  where
    is_quorum : QuorumState → Bool
    is_quorum quorum = true
    is_quorum insufficient = false
    is_quorum split_view = false

unfoldable pub digest_quorum_result : Hash → QuorumResult → String
unfolding state_name
digest_quorum_result content_hash r = content_hash (
    ("state", text (state_name r.state))
    ∷ ("policy_digest", text r.policy_digest)
    ∷ ("operation_id", text r.operation_id)
    ∷ ("execution_id", text r.execution_id)
    ∷ ("checkpoint_version", number (pos r.checkpoint_version))
    ∷ ("checkpoint_digest", text r.checkpoint_digest)
    ∷ ("counted_witnesses", texts r.counted_witnesses)
    ∷ ("required", number (pos r.required))
    ∷ ("conflicting_commitment_hashes", texts r.conflicting_commitment_hashes)
    ∷ [])

pub record QuorumCertificate : Type 0 where
  pub version : String
  pub signer_id : String
  pub policy_digest : String
  pub operation_id : String
  pub execution_id : String
  pub checkpoint_version : ℕ
  pub checkpoint_digest : String
  pub counted_witnesses : List String
  pub required : ℕ
  pub quorum_result_digest : String
  pub issued_at : ℤ
  pub signature : String

unfoldable pub certificate_fields : QuorumCertificate → Fields
certificate_fields c =
    ("version", text c.version)
    ∷ ("signer_id", text c.signer_id)
    ∷ ("policy_digest", text c.policy_digest)
    ∷ ("operation_id", text c.operation_id)
    ∷ ("execution_id", text c.execution_id)
    ∷ ("checkpoint_version", number (pos c.checkpoint_version))
    ∷ ("checkpoint_digest", text c.checkpoint_digest)
    ∷ ("counted_witnesses", texts c.counted_witnesses)
    ∷ ("required", number (pos c.required))
    ∷ ("quorum_result_digest", text c.quorum_result_digest)
    ∷ ("issued_at", number c.issued_at)
    ∷ []

pub data CertificateError : Type 0 where
  not_a_quorum too_few_witnesses stamp_not_finite wrong_version wrong_signer : CertificateError
  bad_signature : SignatureFault → CertificateError
  certificate_differs : String → CertificateError

abbrev pub unsigned_certificate : Hash → String → QuorumResult → ℤ → String → QuorumCertificate
unsigned_certificate content_hash signer_id r stamp signature = record {
  version = quorum_certificate_version;
  signer_id = signer_id;
  policy_digest = r.policy_digest;
  operation_id = r.operation_id;
  execution_id = r.execution_id;
  checkpoint_version = r.checkpoint_version;
  checkpoint_digest = r.checkpoint_digest;
  counted_witnesses = r.counted_witnesses;
  required = r.required;
  quorum_result_digest = digest_quorum_result content_hash r;
  issued_at = stamp;
  signature = signature;
}

abbrev pub sign_certificate_at :
    Hash
    → SignatureLibrary
    → String
    → QuorumResult
    → Stamp
    → Result CertificateError QuorumCertificate
sign_certificate_at content_hash key signer_id r not_finite = err stamp_not_finite
sign_certificate_at content_hash key signer_id r (finite t) = ok (
    unsigned_certificate content_hash signer_id r t
      (sign_fields key (certificate_fields (unsigned_certificate content_hash signer_id r t ""))))

-- QuorumCertificateSigner.sign
unfoldable pub sign_certificate :
    Hash
    → SignatureLibrary
    → String
    → ℤ
    → QuorumResult
    → Option Stamp
    → Result CertificateError QuorumCertificate
unfolding stamp_of digest_quorum_result certificate_fields
sign_certificate content_hash key signer_id clock r issued_at = do
  raise_if (not (quorum_met r)) not_a_quorum
  raise_if (ltb (length r.counted_witnesses) r.required) too_few_witnesses
  sign_certificate_at content_hash key signer_id r (stamp_of issued_at clock)

abbrev pub certificate_signature :
    Result SignatureFault (Unit {0}) → Result CertificateError (Unit {0})
certificate_signature (ok u) = ok u
certificate_signature (err e) = err (bad_signature e)

-- Equality of two tuples of texts.
unfoldable pub same_texts : List String → List String → Bool
same_texts [] [] = true
same_texts [] (y ∷ ys) = false
same_texts (x ∷ xs) [] = false
same_texts (x ∷ xs) (y ∷ ys) = x == y && same_texts xs ys

-- The loop over `expected`.
unfoldable pub check_certificate_fields :
    Hash → QuorumCertificate → QuorumResult → Result CertificateError (Unit {0})
unfolding digest_quorum_result same_texts
check_certificate_fields content_hash c r = do
  raise_if (not (c.policy_digest == r.policy_digest)) (certificate_differs "policy_digest")
  raise_if (not (c.operation_id == r.operation_id)) (certificate_differs "operation_id")
  raise_if (not (c.execution_id == r.execution_id)) (certificate_differs "execution_id")
  raise_if (not (nat_eq c.checkpoint_version r.checkpoint_version))
      (certificate_differs "checkpoint_version")
  raise_if (not (c.checkpoint_digest == r.checkpoint_digest))
      (certificate_differs "checkpoint_digest")
  raise_if (not (same_texts c.counted_witnesses r.counted_witnesses))
      (certificate_differs "counted_witnesses")
  raise_if (not (nat_eq c.required r.required)) (certificate_differs "required")
  raise_if (not (c.quorum_result_digest == digest_quorum_result content_hash r))
      (certificate_differs "quorum_result_digest")

-- QuorumCertificateVerifier.verify
unfoldable pub verify_certificate :
    Hash
    → SignatureLibrary
    → String
    → QuorumCertificate
    → QuorumResult
    → Result CertificateError (Unit {0})
unfolding check_signed certificate_fields check_certificate_fields
verify_certificate content_hash key signer_id c r = do
  raise_if (not (c.version == quorum_certificate_version)) wrong_version
  raise_if (not (c.signer_id == signer_id)) wrong_signer
  raise_if (not (quorum_met r)) not_a_quorum
  certificate_signature (check_signed key c.signature (certificate_fields c))
  check_certificate_fields content_hash c r
