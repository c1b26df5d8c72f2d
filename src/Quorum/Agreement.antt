-- ===== src/Quorum/Agreement.antt =====
-- A quorum is unanimous: what a split view cannot become.
use proofos.Prelude.{String, ◌≡◌, sym, ◌∙◌, List}
use proofos.Prelude.Lists.{◌∈◌}
use proofos.Prelude.Assoc.{Dict, values}
use proofos.Prelude.Keys.{get-values}
use proofos.Prelude.Results.{ok}
use proofos.Integrity.{Hash}
use proofos.Signing.{SignatureLibrary}
use proofos.Receipt.{ReceiptVerifier}
use proofos.Quorum.Policy.{QuorumPolicy}
use proofos.Quorum.Evaluate.{
  WitnessVote, voter, commitment, quorum, QuorumResult, no_votes, tally, evaluate_quorum,
}
use proofos.Quorum.Tally.{tally-counted, commitments_agree}
use proofos.Quorum.Steps.{evaluate-Evaluated, conclude_quorum-Counted}

-- If the evaluation concludes a quorum, then all its votes commit to one and the same thing: also a
-- witness that votes twice, and a witness in the minority.
pub quorum_is_unanimous :
    (content_hash : Hash) (key_of : String → SignatureLibrary) (votes : List WitnessVote)
    (verifiers : Dict ReceiptVerifier) (p : QuorumPolicy) (expected : String)
    (result : QuorumResult) (v w : WitnessVote)
    → evaluate_quorum content_hash key_of votes verifiers p expected ≡ ok result
    → result.state ≡ quorum
    → v ∈ votes
    → w ∈ votes
    → commitment v.record_ ≡ commitment w.record_
quorum_is_unanimous content_hash key_of votes verifiers p expected result v w h q m n =
    let e = evaluate-Evaluated content_hash key_of verifiers p votes expected result h in
    let c = conclude_quorum-Counted content_hash key_of verifiers p votes result e.conclusion q in
    let a = tally-counted content_hash votes no_votes v m c.unanimous in
    let b = tally-counted content_hash votes no_votes w n c.unanimous in
    sym a.2
    ∙ commitments_agree (values (tally content_hash votes no_votes).by_witness) a.0 b.0
        c.one_commitment (get-values (voter v) (tally content_hash votes no_votes).by_witness a.1)
        (get-values (voter w) (tally content_hash votes no_votes).by_witness b.1)
    ∙ b.2
