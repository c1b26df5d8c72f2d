-- ===== src/Transparency.antt =====
-- proofos/transparency_gate.py: gossip and a quorum certificate, put together.
pub mod Accepted
mod Tests
use proofos.Prelude.{ℕ, String, Bool, Option, none, some, List}
use proofos.Prelude.Results.{Result, ok, err, ◌>>=◌, ◌>>◌}
use proofos.Integrity.{Hash}
use proofos.Signing.{SignatureLibrary}
use proofos.Quorum.Evaluate.{QuorumState, quorum, insufficient, split_view, QuorumResult}
use proofos.Certificate.{QuorumCertificate, CertificateError, verify_certificate}
use proofos.Gossip.{GossipBundle, GossipError, verify_bundle}

pub data TransparencyState : Type 0 where
  accepted hold_insufficient hold_certificate_required rejected_split_view : TransparencyState

pub data TransparencyError : Type 0 where
  split_with_certificate insufficient_with_certificate : TransparencyError
  gossip_refused : GossipError → TransparencyError
  certificate_refused : CertificateError → TransparencyError

pub record TransparencyResult : Type 0 where
  pub state : TransparencyState
  pub policy_digest : String
  pub operation_id : String
  pub execution_id : String
  pub checkpoint_version : ℕ
  pub checkpoint_digest : String
  pub counted_witnesses : List String
  pub required : ℕ
  pub gossip_publisher_id : String
  pub certificate_signer_id : Option String

-- A verifier is the key and the identity that it expects.
abbrev pub Verifier : Type 0
Verifier = SignatureLibrary × String

-- The result with the fields of `base`.
abbrev pub based :
    GossipBundle → QuorumResult → TransparencyState → Option String → TransparencyResult
based b r state signer = record {
  state = state;
  policy_digest = r.policy_digest;
  operation_id = r.operation_id;
  execution_id = r.execution_id;
  checkpoint_version = r.checkpoint_version;
  checkpoint_digest = r.checkpoint_digest;
  counted_witnesses = r.counted_witnesses;
  required = r.required;
  gossip_publisher_id = b.publisher_id;
  certificate_signer_id = signer;
}

abbrev pub uncertified :
    Option QuorumCertificate
    → TransparencyError
    → TransparencyResult
    → Result TransparencyError TransparencyResult
uncertified none e t = ok t
uncertified (some c) e t = err e

abbrev pub certificate_refusal :
    Result CertificateError (Unit {0})
    → TransparencyResult
    → Result TransparencyError TransparencyResult
certificate_refusal (ok u) t = ok t
certificate_refusal (err e) t = err (certificate_refused e)

-- A quorum, with both the certificate and its verifier, or without one of them.
unfoldable pub certified :
    Hash
    → GossipBundle
    → QuorumResult
    → Option QuorumCertificate
    → Option Verifier
    → Result TransparencyError TransparencyResult
unfolding verify_certificate
certified content_hash b r none v = ok (based b r hold_certificate_required none)
certified content_hash b r (some c) none = ok (based b r hold_certificate_required none)
certified content_hash b r (some c) (some (key, signer)) =
    certificate_refusal (verify_certificate content_hash key signer c r)
      (based b r accepted (some c.signer_id))

unfoldable pub by_quorum_state :
    Hash
    → GossipBundle
    → Option QuorumCertificate
    → Option Verifier
    → QuorumState
    → QuorumResult
    → Result TransparencyError TransparencyResult
unfolding certified
by_quorum_state content_hash b certificate v split_view r =
    uncertified certificate split_with_certificate (based b r rejected_split_view none)
by_quorum_state content_hash b certificate v insufficient r =
    uncertified certificate insufficient_with_certificate (based b r hold_insufficient none)
by_quorum_state content_hash b certificate v quorum r = certified content_hash b r certificate v

abbrev pub gossip_refusal : Result GossipError QuorumResult → Result TransparencyError QuorumResult
gossip_refusal (ok r) = ok r
gossip_refusal (err e) = err (gossip_refused e)

-- evaluate_transparency
unfoldable pub evaluate_transparency :
    Hash
    → (String → SignatureLibrary)
    → (String → Bool)
    → GossipBundle
    → Verifier
    → String
    → Option QuorumCertificate
    → Option Verifier
    → Result TransparencyError TransparencyResult
unfolding verify_bundle by_quorum_state
evaluate_transparency content_hash key_of valid_key b (key, publisher) expected_policy_digest
      certificate v =
    gossip_refusal
      (verify_bundle content_hash key_of valid_key key publisher b expected_policy_digest)
    >>= λ r. by_quorum_state content_hash b certificate v r.state r
