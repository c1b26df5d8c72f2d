-- ===== src/Quorum/Backed.antt =====
-- What stands behind a quorum: enough different witnesses of the policy, each with a vote whose
-- receipt its pinned key signed.
use mathlib.Core.Path.{subst}
use proofos.Prelude.{
  ◌≤◌, String, ◌≡◌, refl, sym, ap, ◌∙◌, inl, inr, true, false, Option, some, List, [], ◌∷◌,
}
use proofos.Prelude.Tests.{ltb}
use proofos.Prelude.Lists.{◌∈◌, length}
use proofos.Prelude.Sets.{has, distinct}
use proofos.Prelude.Sort.{leb_text}
use proofos.Prelude.Assoc.{Dict, get, keys, values}
use proofos.Prelude.Keys.{
  length-keys, get-keys, get-values, has-sorted, distinct-sorted, length-sorted,
}
use proofos.Prelude.Results.{ok}
use proofos.Integrity.{Hash}
use proofos.Signing.{SignatureLibrary}
use proofos.Receipt.{ReceiptVerifier}
use proofos.Receipt.Binding.{ReceiptBinds}
use proofos.Quorum.Policy.{QuorumPolicy, witness_ids, public_key_for, digest}
use proofos.Quorum.Evaluate.{
  WitnessVote, voter, quorum, QuorumResult, no_votes, tally, commitments, first_digest,
  evaluate_quorum,
}
use proofos.Quorum.Tally.{tally-distinct, tally-get, commitments_agree}
use proofos.Quorum.Steps.{
  Evaluated, Counted, evaluate-Evaluated, conclude_quorum-Counted, check_verifiers-found,
  check_votes-found,
}

-- A vote that counts for a witness of the policy: its own, for an intact record, signed by the key
-- that the policy pins for it.
pub record Backed (content_hash : Hash) (key_of : String → SignatureLibrary) (p : QuorumPolicy)
    (votes : List WitnessVote) (checkpoint_digest witness_id : String) : Type 0 where
  pub vote : WitnessVote
  pub cast : vote ∈ votes
  pub own_vote : voter vote ≡ witness_id
  pub named : has witness_id (witness_ids p) ≡ true
  pub verifier : ReceiptVerifier
  pub pinned_key : public_key_for witness_id p ≡ ok verifier.public_key_b64
  pub bound : ReceiptBinds content_hash key_of verifier vote.receipt vote.record_
  pub same_digest : (vote.record_).checkpoint_digest ≡ checkpoint_digest

same_verifier :
    (o : Option ReceiptVerifier) (v w : ReceiptVerifier) → o ≡ some v → o ≡ some w → v ≡ w
same_verifier o v w a b = cc

first-digest :
    (vs : List WitnessVote) (v : WitnessVote)
    → ltb 1 (length (commitments vs)) ≡ false
    → v ∈ vs
    → (v.record_).checkpoint_digest ≡ first_digest vs
first-digest [] v h m = absurd m
first-digest (x ∷ vs) v h m = ap (λ c. c.3) (commitments_agree (x ∷ vs) v x h m (inl refl))

-- If the evaluation concludes a quorum, then the policy is the one pinned from outside, the counted
-- witnesses are different and at least as many as its threshold, and each of them is in the policy and has
-- a vote of its own whose receipt verifies under the key that the policy pins for it, for an intact
-- record of the checkpoint digest of the result.
pub quorum_is_Backed :
    (content_hash : Hash) (key_of : String → SignatureLibrary) (votes : List WitnessVote)
    (verifiers : Dict ReceiptVerifier) (p : QuorumPolicy) (expected : String)
    (result : QuorumResult)
    → evaluate_quorum content_hash key_of votes verifiers p expected ≡ ok result
    → result.state ≡ quorum
    → (expected ≡ digest content_hash p)
      × (distinct result.counted_witnesses ≡ true)
      × (p.threshold ≤ length result.counted_witnesses)
      × ((w : String)
          → has w result.counted_witnesses ≡ true
          → Backed content_hash key_of p votes result.checkpoint_digest w)
unfolding distinct get
quorum_is_Backed content_hash key_of votes verifiers p expected result h q =
    let e = evaluate-Evaluated content_hash key_of verifiers p votes expected result h in
    let c = conclude_quorum-Counted content_hash key_of verifiers p votes result e.conclusion q in
    (
      e.pinned_policy,
      ap distinct c.counted_sorted
          ∙ distinct-sorted leb_text (keys by)
          ∙ tally-distinct content_hash votes no_votes refl,
      rw (c.counted_sorted, length-sorted leb_text (keys by), length-keys by) c.enough,
      λ w m. backed w e c (
          get-keys w by
            (sym (has-sorted leb_text w (keys by)) ∙ (ap (has w) (sym c.counted_sorted) ∙ m))),
    )
  where
    by : Dict WitnessVote
    by = (tally content_hash votes no_votes).by_witness

    backed :
        (w : String)
        → Evaluated content_hash key_of votes verifiers p expected result
        → Counted content_hash p votes result
        → (v : WitnessVote) × (get w by ≡ some v)
        → Backed content_hash key_of p votes result.checkpoint_digest w
    backed w e c (v, g) = elim (tally-get content_hash w votes no_votes g) [
      | inr none_yet ↦ cc
      | inl (m, own) ↦
          let s = check_votes-found content_hash key_of verifiers p votes v e.votes_checked m in
          let named = subst (λ k. has k (witness_ids p) ≡ true) own s.0 in
          let f =
            check_verifiers-found content_hash key_of verifiers p (witness_ids p) w
              e.verifiers_checked named in
          let same =
            same_verifier (get w verifiers) f.0 s.1.0 f.1
              (subst (λ k. get k verifiers ≡ some s.1.0) own s.1.1) in
          record {
            vote = v;
            cast = m;
            own_vote = own;
            named = named;
            verifier = s.1.0;
            pinned_key =
                subst (λ (x : ReceiptVerifier). public_key_for w p ≡ ok x.public_key_b64) same f.3;
            bound = s.1.2;
            same_digest =
                first-digest (values by) v c.one_commitment (get-values w by g)
                ∙ sym c.digest_of_first;
          }
    ]
