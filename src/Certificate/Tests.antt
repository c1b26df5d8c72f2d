-- ===== src/Certificate/Tests.antt =====
-- Concrete runs: the certificate of two witnesses, and none for one.
use proofos.Prelude.{◌≤◌, String, ◌≡◌, refl, true, none}
use proofos.Prelude.Lists.{length}
use proofos.Prelude.Sets.{has, distinct}
use proofos.Prelude.Int.{pos}
use proofos.Prelude.Results.{ok, err}
use proofos.Samples.{joined}
use proofos.Checkpoint.Tests.{toy_library, toy_library-IsSignatureLibrary}
use proofos.Quorum.Policy.{digest}
use proofos.Quorum.Evaluate.{quorum, QuorumResult, no_quorum, evaluate_quorum}
use proofos.Quorum.Backed.{Backed}
use proofos.Quorum.Tests.{
  two_of_three, toy_keys, toy_verifiers, agreed, run, result_of, agreed_quorum,
}
use proofos.Certificate.{
  QuorumCertificate, not_a_quorum, certificate_differs, unsigned_certificate, sign_certificate,
  verify_certificate,
}
use proofos.Certificate.Binding.{sign_certificate-verify_certificate, certificate_is_Backed}

abbrev agreed_result : QuorumResult
agreed_result = result_of (run agreed)

abbrev certificate : QuorumCertificate
certificate = unsigned_certificate joined "transport" agreed_result (pos 12) "signature"

certifies :
    sign_certificate joined toy_library "transport" (pos 12) agreed_result none ≡ ok certificate
unfolding sign_certificate evaluate_quorum proofos.Receipt.sign_receipt
    proofos.Witness.Observe.compute_record_hash length
certifies = refl

refuses :
    sign_certificate joined toy_library "transport" (pos 12) (no_quorum joined two_of_three) none
    ≡ err not_a_quorum
unfolding sign_certificate
refuses = refl

another_digest :
    verify_certificate joined toy_library "transport"
      (record certificate { checkpoint_digest = "e" })
      agreed_result
    ≡ err (certificate_differs "checkpoint_digest")
unfolding verify_certificate evaluate_quorum proofos.Receipt.sign_receipt
    proofos.Witness.Observe.compute_record_hash length
another_digest = refl

sign_certificate-verify_certificate_example :
    (agreed_result.state ≡ quorum)
    × (agreed_result.required ≤ length agreed_result.counted_witnesses)
    × (verify_certificate joined toy_library "transport" certificate agreed_result ≡ ok tt)
sign_certificate-verify_certificate_example =
    sign_certificate-verify_certificate joined toy_library "transport" (pos 12) agreed_result none
      certificate toy_library-IsSignatureLibrary certifies

verifies : verify_certificate joined toy_library "transport" certificate agreed_result ≡ ok tt
unfolding verify_certificate evaluate_quorum proofos.Receipt.sign_receipt
    proofos.Witness.Observe.compute_record_hash length
verifies = refl

certificate_is_Backed_example :
    (distinct certificate.counted_witnesses ≡ true)
    × (2 ≤ length certificate.counted_witnesses)
    × ((w : String)
        → has w certificate.counted_witnesses ≡ true
        → Backed joined toy_keys two_of_three agreed certificate.checkpoint_digest w)
certificate_is_Backed_example =
    certificate_is_Backed joined toy_keys agreed toy_verifiers two_of_three
      (digest joined two_of_three) agreed_result toy_library "transport" certificate agreed_quorum
      verifies
