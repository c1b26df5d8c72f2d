-- ===== src/Gossip/Tests.antt =====
-- Concrete runs: a bundle with its votes, and one whose claim its votes do not bear out.
use proofos.Prelude.{◌≤◌, String, ◌≡◌, refl, Bool, true, none, [], ◌∷◌}
use proofos.Prelude.Lists.{length}
use proofos.Prelude.Sets.{has, distinct}
use proofos.Prelude.Int.{pos}
use proofos.Prelude.Results.{ok, err}
use proofos.Samples.{joined}
use proofos.Checkpoint.Tests.{toy_library, toy_library-IsSignatureLibrary}
use proofos.Quorum.Policy.{digest}
use proofos.Quorum.Evaluate.{QuorumResult, evaluate_quorum}
use proofos.Quorum.Backed.{Backed}
use proofos.Quorum.Tests.{
  two_of_three, toy_keys, toy_verifiers, agreed, run, result_of, agreed_quorum, vote_of,
}
use proofos.Gossip.{
  GossipBundle, claim_differs, signed_bundle, sign_bundle, policy_verifiers, verify_bundle,
}
use proofos.Gossip.Recomputed.{publisher_cannot_claim, sign_bundle-verify_bundle}

abbrev every_key : String → Bool
every_key k = true

abbrev agreed_result : QuorumResult
agreed_result = result_of (run agreed)

abbrev bundle : GossipBundle
bundle = signed_bundle toy_library "publisher" two_of_three agreed_result agreed (pos 12)

signs :
    sign_bundle toy_library "publisher" (pos 12) two_of_three agreed_result agreed none ≡ ok bundle
unfolding sign_bundle
signs = refl

made_verifiers : policy_verifiers every_key two_of_three.witnesses [] ≡ ok toy_verifiers
unfolding policy_verifiers
made_verifiers = refl

sign_bundle-verify_bundle_example :
    verify_bundle joined toy_keys every_key toy_library "publisher" bundle
      (digest joined two_of_three)
    ≡ ok agreed_result
sign_bundle-verify_bundle_example =
    sign_bundle-verify_bundle joined toy_keys every_key toy_library "publisher" (pos 12)
      two_of_three agreed_result agreed none bundle toy_verifiers (digest joined two_of_three)
      toy_library-IsSignatureLibrary made_verifiers agreed_quorum signs

verifies :
    verify_bundle joined toy_keys every_key toy_library "publisher" bundle
      (digest joined two_of_three)
    ≡ ok agreed_result
unfolding verify_bundle evaluate_quorum proofos.Receipt.sign_receipt
    proofos.Witness.Observe.compute_record_hash length
verifies = refl

-- The publisher signs a quorum for one vote.
lying :
    verify_bundle joined toy_keys every_key toy_library "publisher"
      (record bundle { votes = vote_of "w1" "d" ∷ [] })
      (digest joined two_of_three)
    ≡ err claim_differs
unfolding verify_bundle evaluate_quorum proofos.Receipt.sign_receipt
    proofos.Witness.Observe.compute_record_hash length
lying = refl

claims_quorum : bundle.quorum_state ≡ "QUORUM"
unfolding evaluate_quorum proofos.Receipt.sign_receipt proofos.Witness.Observe.compute_record_hash
    length proofos.Certificate.state_name
claims_quorum = refl

publisher_cannot_claim_example :
    (digest joined two_of_three ≡ digest joined two_of_three)
    × (distinct bundle.counted_witnesses ≡ true)
    × (2 ≤ length bundle.counted_witnesses)
    × ((w : String)
        → has w bundle.counted_witnesses ≡ true
        → Backed joined toy_keys two_of_three agreed bundle.checkpoint_digest w)
publisher_cannot_claim_example =
    publisher_cannot_claim joined toy_keys every_key toy_library "publisher" bundle
      (digest joined two_of_three) agreed_result verifies claims_quorum
