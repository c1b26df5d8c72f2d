-- ===== src/Quorum/Tests.antt =====
-- Concrete runs: two of three witnesses, a split view, and the two quorums of one witness.
use proofos.Prelude.{
  ◌<◌, ◌≤◌, String, ◌≡◌, refl, inl, inr, true, Option, none, some, List, [], ◌∷◌, arith,
}
use proofos.Prelude.Sets.{has, distinct}
use proofos.Prelude.Lists.{length}
use proofos.Prelude.Int.{pos}
use proofos.Prelude.Assoc.{Dict}
use proofos.Prelude.Results.{Result, ok, err}
use proofos.Signing.{SignatureLibrary}
use proofos.Samples.{joined}
use proofos.Checkpoint.Tests.{toy_library}
use proofos.Witness.Observe.{WitnessRecord, compute_record_hash}
use proofos.Receipt.{WitnessReceipt, ReceiptError, ReceiptVerifier, sign_receipt, unsigned_receipt}
use proofos.Quorum.Policy.{
  QuorumPolicy, QuorumError, digest, new_policy, duplicate_witnesses, threshold_out_of_range,
}
use proofos.Quorum.Evaluate.{
  WitnessVote, commitment, quorum, insufficient, split_view, QuorumState, QuorumResult,
  evaluate_quorum,
}
use proofos.Quorum.Backed.{Backed, quorum_is_Backed}
use proofos.Quorum.Agreement.{quorum_is_unanimous}
use proofos.Quorum.Overlap.{quorums_share_witness}

abbrev unhashed : String → String → WitnessRecord
unhashed w d = record {
  version = "proofos.witness.v1";
  witness_id = w;
  signer_id = "signer";
  operation_id = "op";
  execution_id = "exec";
  checkpoint_version = 1;
  checkpoint_digest = d;
  last_journal_sequence = pos 0;
  last_journal_hash = "head";
  checkpoint_signature = "signature";
  observed_at = pos 5;
  previous_record_hash = "";
  record_hash = "";
}

-- What a witness recorded of a checkpoint, and its vote.
abbrev pub record_of : String → String → WitnessRecord
record_of w d = record (unhashed w d) { record_hash = compute_record_hash joined (unhashed w d) }

abbrev pub receipt_of : WitnessRecord → Result ReceiptError WitnessReceipt → WitnessReceipt
receipt_of r (ok receipt) = receipt
receipt_of r (err e) = unsigned_receipt r (pos 0) ""

abbrev pub vote_of : String → String → WitnessVote
vote_of w d = record {
  receipt =
      receipt_of (record_of w d) (sign_receipt joined toy_library w (pos 9) (record_of w d) none);
  record_ = record_of w d;
}

abbrev pub two_of_three : QuorumPolicy
two_of_three = record {
  policy_id = "policy";
  witnesses = ("w1", "k1") ∷ ("w2", "k2") ∷ ("w3", "k3") ∷ [];
  threshold = 2;
}

abbrev pub toy_keys : String → SignatureLibrary
toy_keys k = toy_library

abbrev verifier_of : String → String → String × ReceiptVerifier
verifier_of w k = (w, record { witness_id = w; public_key_b64 = k })

abbrev pub toy_verifiers : Dict ReceiptVerifier
toy_verifiers = verifier_of "w1" "k1" ∷ verifier_of "w2" "k2" ∷ verifier_of "w3" "k3" ∷ []

abbrev pub run : List WitnessVote → Result QuorumError QuorumResult
run votes =
    evaluate_quorum joined toy_keys votes toy_verifiers two_of_three (digest joined two_of_three)

abbrev state_of : Result QuorumError QuorumResult → Option QuorumState
state_of (ok r) = some r.state
state_of (err e) = none

abbrev pub result_of : Result QuorumError QuorumResult → QuorumResult
result_of (ok r) = r
result_of (err e) = proofos.Quorum.Evaluate.no_quorum joined two_of_three

abbrev pub agreed : List WitnessVote
agreed = vote_of "w3" "d" ∷ vote_of "w1" "d" ∷ vote_of "w3" "d" ∷ []

abbrev others : List WitnessVote
others = vote_of "w3" "e" ∷ vote_of "w2" "e" ∷ []

valid_policy : new_policy (λ k. true) two_of_three ≡ ok two_of_three
unfolding new_policy distinct
valid_policy = refl

too_many_needed :
    new_policy (λ k. true) (record two_of_three { threshold = 4 }) ≡ err threshold_out_of_range
unfolding new_policy distinct
too_many_needed = refl

listed_twice :
    new_policy (λ k. true) (record two_of_three { witnesses = ("w1", "k1") ∷ ("w1", "k2") ∷ [] })
    ≡ err duplicate_witnesses
unfolding new_policy distinct
listed_twice = refl

pub agreed_quorum : run agreed ≡ ok (result_of (run agreed))
unfolding evaluate_quorum sign_receipt compute_record_hash length
agreed_quorum = refl

agreed_state : (result_of (run agreed)).state ≡ quorum
unfolding evaluate_quorum sign_receipt compute_record_hash length
agreed_state = refl

agreed_counted : (result_of (run agreed)).counted_witnesses ≡ "w1" ∷ "w3" ∷ []
unfolding evaluate_quorum sign_receipt compute_record_hash length
agreed_counted = refl

others_quorum : run others ≡ ok (result_of (run others))
unfolding evaluate_quorum sign_receipt compute_record_hash length
others_quorum = refl

others_state : (result_of (run others)).state ≡ quorum
unfolding evaluate_quorum sign_receipt compute_record_hash length
others_state = refl

-- One witness is not enough, and a witness that contradicts itself splits the view.
alone : state_of (run (vote_of "w1" "d" ∷ [])) ≡ some insufficient
unfolding evaluate_quorum sign_receipt compute_record_hash length
alone = refl

contradiction :
    state_of (run (vote_of "w1" "d" ∷ vote_of "w2" "d" ∷ vote_of "w1" "e" ∷ [])) ≡ some split_view
unfolding evaluate_quorum sign_receipt compute_record_hash length
contradiction = refl

nobody : state_of (run []) ≡ some insufficient
unfolding evaluate_quorum sign_receipt compute_record_hash length
nobody = refl

quorum_is_Backed_example :
    (digest joined two_of_three ≡ digest joined two_of_three)
    × (distinct (result_of (run agreed)).counted_witnesses ≡ true)
    × (2 ≤ length (result_of (run agreed)).counted_witnesses)
    × ((w : String)
        → has w (result_of (run agreed)).counted_witnesses ≡ true
        → Backed joined toy_keys two_of_three agreed (result_of (run agreed)).checkpoint_digest w)
quorum_is_Backed_example =
    quorum_is_Backed joined toy_keys agreed toy_verifiers two_of_three (digest joined two_of_three)
      (result_of (run agreed)) agreed_quorum agreed_state

quorum_is_unanimous_example : commitment (record_of "w3" "d") ≡ commitment (record_of "w1" "d")
quorum_is_unanimous_example =
    quorum_is_unanimous joined toy_keys agreed toy_verifiers two_of_three
      (digest joined two_of_three) (result_of (run agreed)) (vote_of "w3" "d") (vote_of "w1" "d")
      agreed_quorum agreed_state (inl refl) (inr (inl refl))

more_than_half : 3 < 4
more_than_half = omega arith

quorums_share_witness_example :
    (w : String) × Backed joined toy_keys two_of_three agreed
      (result_of (run agreed)).checkpoint_digest
      w
    × Backed joined toy_keys two_of_three others (result_of (run others)).checkpoint_digest w
quorums_share_witness_example =
    quorums_share_witness joined toy_keys two_of_three agreed others toy_verifiers toy_verifiers
      (digest joined two_of_three) (digest joined two_of_three) (result_of (run agreed))
      (result_of (run others)) more_than_half agreed_quorum others_quorum agreed_state others_state
