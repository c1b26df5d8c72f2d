-- ===== src/Quorum/Overlap.antt =====
-- Two quorums of one policy: the witness that they share.
use proofos.Prelude.{◌+◌, ◌<◌, String, ◌≡◌, List, arith}
use proofos.Prelude.Lists.{length}
use proofos.Prelude.Assoc.{Dict}
use proofos.Prelude.Pigeonhole.{pigeonhole}
use proofos.Prelude.Results.{ok}
use proofos.Integrity.{Hash}
use proofos.Signing.{SignatureLibrary}
use proofos.Receipt.{ReceiptVerifier}
use proofos.Quorum.Policy.{QuorumPolicy, witness_ids}
use proofos.Quorum.Evaluate.{WitnessVote, quorum, QuorumResult, evaluate_quorum}
use proofos.Quorum.Backed.{Backed, quorum_is_Backed}

-- If more than half of the witnesses are needed, then two quorums of one policy, on whatever votes
-- and by whatever verifiers, share a witness, and for each of the two checkpoint digests this witness has
-- a receipt that verifies under the key that the policy pins for it.
pub quorums_share_witness :
    (content_hash : Hash) (key_of : String → SignatureLibrary) (p : QuorumPolicy)
    (votes other_votes : List WitnessVote) (verifiers other_verifiers : Dict ReceiptVerifier)
    (expected other_expected : String) (result other : QuorumResult)
    → length (witness_ids p) < p.threshold + p.threshold
    → evaluate_quorum content_hash key_of votes verifiers p expected ≡ ok result
    → evaluate_quorum content_hash key_of other_votes other_verifiers p other_expected ≡ ok other
    → result.state ≡ quorum
    → other.state ≡ quorum
    → (w : String) × Backed content_hash key_of p votes result.checkpoint_digest w
      × Backed content_hash key_of p other_votes other.checkpoint_digest w
quorums_share_witness content_hash key_of p votes other_votes verifiers other_verifiers expected
      other_expected result other majority h k q r =
    let (_, d, enough, backed) =
      quorum_is_Backed content_hash key_of votes verifiers p expected result h q in
    let (_, e, also_enough, also_backed) =
      quorum_is_Backed content_hash key_of other_votes other_verifiers p other_expected other k r in
    let (w, m, n) =
      pigeonhole result.counted_witnesses other.counted_witnesses (witness_ids p) d e
        (λ w m. (backed w m).named) (λ w m. (also_backed w m).named) (omega arith) in
    (w, backed w m, also_backed w n)
