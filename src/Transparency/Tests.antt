-- ===== src/Transparency/Tests.antt =====
-- Concrete runs of the gate: it accepts, and waits for a certificate.
use proofos.Prelude.{◌≤◌, String, ◌≡◌, refl, Bool, true, Option, none, some}
use proofos.Prelude.Lists.{length}
use proofos.Prelude.Sets.{has, distinct}
use proofos.Prelude.Int.{pos}
use proofos.Prelude.Results.{Result, ok}
use proofos.Samples.{joined}
use proofos.Checkpoint.Tests.{toy_library}
use proofos.Quorum.Policy.{digest}
use proofos.Quorum.Evaluate.{QuorumResult, evaluate_quorum}
use proofos.Quorum.Backed.{Backed}
use proofos.Quorum.Tests.{two_of_three, toy_keys, agreed, run, result_of}
use proofos.Certificate.{QuorumCertificate, unsigned_certificate}
use proofos.Gossip.{GossipBundle, signed_bundle}
use proofos.Gossip.Recomputed.{Recomputed}
use proofos.Transparency.{
  accepted, hold_certificate_required, TransparencyError, TransparencyResult, based,
  evaluate_transparency,
}
use proofos.Transparency.Accepted.{Certified, accepted_is_Backed}

abbrev every_key : String → Bool
every_key k = true

abbrev agreed_result : QuorumResult
agreed_result = result_of (run agreed)

abbrev bundle : GossipBundle
bundle = signed_bundle toy_library "publisher" two_of_three agreed_result agreed (pos 12)

abbrev certificate : QuorumCertificate
certificate = unsigned_certificate joined "transport" agreed_result (pos 12) "signature"

abbrev gate : Option QuorumCertificate → Result TransparencyError TransparencyResult
gate c =
    evaluate_transparency joined toy_keys every_key bundle (toy_library, "publisher")
      (digest joined two_of_three) c (some (toy_library, "transport"))

abbrev statement : TransparencyResult
statement = based bundle agreed_result accepted (some "transport")

accepts : gate (some certificate) ≡ ok statement
unfolding evaluate_transparency evaluate_quorum proofos.Receipt.sign_receipt
    proofos.Witness.Observe.compute_record_hash length
accepts = refl

waits : gate none ≡ ok (based bundle agreed_result hold_certificate_required none)
unfolding evaluate_transparency evaluate_quorum proofos.Receipt.sign_receipt
    proofos.Witness.Observe.compute_record_hash length
waits = refl

accepted_is_Backed_example :
    ((r : QuorumResult) × Recomputed joined toy_keys every_key toy_library "publisher" bundle
        (digest joined two_of_three)
        r
      × Certified joined bundle (some certificate) (some (toy_library, "transport")) r statement)
    × (digest joined two_of_three ≡ digest joined two_of_three)
    × (distinct statement.counted_witnesses ≡ true)
    × (2 ≤ length statement.counted_witnesses)
    × ((w : String)
        → has w statement.counted_witnesses ≡ true
        → Backed joined toy_keys two_of_three agreed statement.checkpoint_digest w)
accepted_is_Backed_example =
    accepted_is_Backed joined toy_keys every_key bundle (toy_library, "publisher")
      (digest joined two_of_three) (some certificate) (some (toy_library, "transport")) statement
      accepts refl
