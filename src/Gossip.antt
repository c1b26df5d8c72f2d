-- ===== src/Gossip.antt =====
-- proofos/witness_gossip.py: a signed bundle of a quorum claim with its votes, which the receiver
-- evaluates again. `valid_key` stands for the parser of public keys. A stamp in a bundle is finite, which
-- the parser of bundles asserts; that parser is not modelled.
pub mod Recomputed
mod Tests
use proofos.Prelude.{
  ℕ, String, Bool, true, false, not, ◌&&◌, Option, none, some, List, [], ◌∷◌, map,
}
use proofos.Prelude.Tests.{◌==◌, nat_eq}
use proofos.Prelude.Int.{ℤ, pos}
use proofos.Prelude.Text.{blank}
use proofos.Prelude.Assoc.{Dict, put}
use proofos.Prelude.Results.{Result, ok, err, ◌>>=◌, ◌>>◌, raise_if}
use proofos.Integrity.{
  Scalar, scalar_text, scalar_number, text, texts, number, policy, vote_list, Fields, Hash,
}
use proofos.Signing.{SignatureLibrary, SignatureFault, check_signed, sign_fields}
use proofos.Checkpoint.{Stamp, finite, not_finite, stamp_of}
use proofos.Witness.Observe.{WitnessRecord}
use proofos.Receipt.{WitnessReceipt, ReceiptVerifier}
use proofos.Quorum.Policy.{QuorumPolicy, QuorumError}
use proofos.Quorum.Evaluate.{WitnessVote, QuorumResult, evaluate_quorum}
use proofos.Certificate.{state_name, same_texts}

abbrev pub witness_gossip_version : String
witness_gossip_version = "proofos.witness-gossip.v1"

pub record GossipBundle : Type 0 where
  pub version : String
  pub publisher_id : String
  pub policy_ : QuorumPolicy
  pub operation_id : String
  pub execution_id : String
  pub checkpoint_version : ℕ
  pub checkpoint_digest : String
  pub quorum_state : String
  pub required : ℕ
  pub counted_witnesses : List String
  pub conflicting_commitment_hashes : List String
  pub votes : List WitnessVote
  pub issued_at : ℤ
  pub signature : String

-- receipt.to_dict(), and record.to_dict()
unfoldable pub receipt_dict : WitnessReceipt → Dict Scalar
receipt_dict r =
    ("version", scalar_text r.version)
    ∷ ("witness_id", scalar_text r.witness_id)
    ∷ ("operation_id", scalar_text r.operation_id)
    ∷ ("execution_id", scalar_text r.execution_id)
    ∷ ("checkpoint_version", scalar_number (pos r.checkpoint_version))
    ∷ ("checkpoint_digest", scalar_text r.checkpoint_digest)
    ∷ ("witness_record_hash", scalar_text r.witness_record_hash)
    ∷ ("issued_at", scalar_number r.issued_at)
    ∷ ("signature", scalar_text r.signature)
    ∷ []

unfoldable pub record_dict : WitnessRecord → Dict Scalar
record_dict r =
    ("version", scalar_text r.version)
    ∷ ("witness_id", scalar_text r.witness_id)
    ∷ ("signer_id", scalar_text r.signer_id)
    ∷ ("operation_id", scalar_text r.operation_id)
    ∷ ("execution_id", scalar_text r.execution_id)
    ∷ ("checkpoint_version", scalar_number (pos r.checkpoint_version))
    ∷ ("checkpoint_digest", scalar_text r.checkpoint_digest)
    ∷ ("last_journal_sequence", scalar_number r.last_journal_sequence)
    ∷ ("last_journal_hash", scalar_text r.last_journal_hash)
    ∷ ("checkpoint_signature", scalar_text r.checkpoint_signature)
    ∷ ("observed_at", scalar_number r.observed_at)
    ∷ ("previous_record_hash", scalar_text r.previous_record_hash)
    ∷ ("record_hash", scalar_text r.record_hash)
    ∷ []

unfoldable pub bundle_fields : GossipBundle → Fields
unfolding receipt_dict record_dict
bundle_fields b =
    ("version", text b.version)
    ∷ ("publisher_id", text b.publisher_id)
    ∷ ("policy", policy (b.policy_).policy_id (b.policy_).witnesses (pos (b.policy_).threshold))
    ∷ ("operation_id", text b.operation_id)
    ∷ ("execution_id", text b.execution_id)
    ∷ ("checkpoint_version", number (pos b.checkpoint_version))
    ∷ ("checkpoint_digest", text b.checkpoint_digest)
    ∷ ("quorum_state", text b.quorum_state)
    ∷ ("required", number (pos b.required))
    ∷ ("counted_witnesses", texts b.counted_witnesses)
    ∷ ("conflicting_commitment_hashes", texts b.conflicting_commitment_hashes)
    ∷ (
      "votes",
      vote_list
          (map (λ (v : WitnessVote). (receipt_dict v.receipt, record_dict v.record_)) b.votes),
    )
    ∷ ("issued_at", number b.issued_at)
    ∷ []

pub data GossipError : Type 0 where
  stamp_not_finite wrong_version wrong_publisher claim_differs : GossipError
  bad_signature : SignatureFault → GossipError
  invalid_public_key empty_witness_id : String → GossipError
  quorum_refused : QuorumError → GossipError

abbrev pub unsigned_bundle :
    String → QuorumPolicy → QuorumResult → List WitnessVote → ℤ → String → GossipBundle
unsigned_bundle publisher_id p r votes stamp signature = record {
  version = witness_gossip_version;
  publisher_id = publisher_id;
  policy_ = p;
  operation_id = r.operation_id;
  execution_id = r.execution_id;
  checkpoint_version = r.checkpoint_version;
  checkpoint_digest = r.checkpoint_digest;
  quorum_state = state_name r.state;
  required = r.required;
  counted_witnesses = r.counted_witnesses;
  conflicting_commitment_hashes = r.conflicting_commitment_hashes;
  votes = votes;
  issued_at = stamp;
  signature = signature;
}

abbrev pub signed_bundle :
    SignatureLibrary → String → QuorumPolicy → QuorumResult → List WitnessVote → ℤ → GossipBundle
signed_bundle key publisher_id p r votes t =
    unsigned_bundle publisher_id p r votes t
      (sign_fields key (bundle_fields (unsigned_bundle publisher_id p r votes t "")))

abbrev pub sign_bundle_at :
    SignatureLibrary
    → String
    → QuorumPolicy
    → QuorumResult
    → List WitnessVote
    → Stamp
    → Result GossipError GossipBundle
sign_bundle_at key publisher_id p r votes not_finite = err stamp_not_finite
sign_bundle_at key publisher_id p r votes (finite t) =
    ok (signed_bundle key publisher_id p r votes t)

-- WitnessGossipSigner.sign
unfoldable pub sign_bundle :
    SignatureLibrary
    → String
    → ℤ
    → QuorumPolicy
    → QuorumResult
    → List WitnessVote
    → Option Stamp
    → Result GossipError GossipBundle
unfolding stamp_of bundle_fields state_name
sign_bundle key publisher_id clock p r votes issued_at =
    sign_bundle_at key publisher_id p r votes (stamp_of issued_at clock)

abbrev pub bundle_signature : Result SignatureFault (Unit {0}) → Result GossipError (Unit {0})
bundle_signature (ok u) = ok u
bundle_signature (err e) = err (bad_signature e)

-- WitnessReceiptVerifier.from_b64 for each witness of the policy, in a dict by witness
abbrev pub receipt_verifier : (String → Bool) → String × String → Result GossipError ReceiptVerifier
receipt_verifier valid_key (w, k) = do
  raise_if (not (valid_key k)) (invalid_public_key w)
  raise_if (blank w) (empty_witness_id w)
  ok (record { witness_id = w; public_key_b64 = k })

unfoldable pub policy_verifiers :
    (String → Bool)
    → List (String × String)
    → Dict ReceiptVerifier
    → Result GossipError (Dict ReceiptVerifier)
unfolding put blank
policy_verifiers valid_key [] d = ok d
policy_verifiers valid_key ((w, k) ∷ ws) d =
    receipt_verifier valid_key (w, k) >>= λ v. policy_verifiers valid_key ws (put w v d)

abbrev pub quorum_refusal : Result QuorumError QuorumResult → Result GossipError QuorumResult
quorum_refusal (ok r) = ok r
quorum_refusal (err e) = err (quorum_refused e)

-- actual == expected
unfoldable pub same_claim : GossipBundle → QuorumResult → Bool
unfolding state_name same_texts
same_claim b r =
    b.operation_id == r.operation_id
    && b.execution_id == r.execution_id
    && nat_eq b.checkpoint_version r.checkpoint_version
    && b.checkpoint_digest == r.checkpoint_digest
    && b.quorum_state == state_name r.state
    && nat_eq b.required r.required
    && same_texts b.counted_witnesses r.counted_witnesses
    && same_texts b.conflicting_commitment_hashes r.conflicting_commitment_hashes

abbrev pub accept_claim : GossipBundle → QuorumResult → Result GossipError QuorumResult
accept_claim b r = raise_if (not (same_claim b r)) claim_differs >> ok r

-- WitnessGossipVerifier.verify
unfoldable pub verify_bundle :
    Hash
    → (String → SignatureLibrary)
    → (String → Bool)
    → SignatureLibrary
    → String
    → GossipBundle
    → String
    → Result GossipError QuorumResult
unfolding check_signed bundle_fields policy_verifiers evaluate_quorum same_claim
verify_bundle content_hash key_of valid_key key publisher_id b expected_policy_digest = do
  raise_if (not (b.version == witness_gossip_version)) wrong_version
  raise_if (not (b.publisher_id == publisher_id)) wrong_publisher
  bundle_signature (check_signed key b.signature (bundle_fields b))
  verifiers ← policy_verifiers valid_key (b.policy_).witnesses []
  r ←
      quorum_refusal
        (evaluate_quorum content_hash key_of b.votes verifiers b.policy_ expected_policy_digest)
  accept_claim b r
