-- ===== src/Quorum/Steps.antt =====
-- What a successful evaluation has checked, step by step.
use mathlib.Core.Path.{subst}
use proofos.Prelude.{
  ◌≤◌, String, ◌≡◌, refl, sym, ap, ◌∙◌, inl, inr, true, false, not, Option, none, some, List, [],
  ◌∷◌, arith,
}
use proofos.Prelude.Tests.{◌==◌, eq_iff, ltb, leb, Bool-cases}
use proofos.Prelude.Lists.{◌∈◌, length}
use proofos.Prelude.Sets.{has}
use proofos.Prelude.Sort.{leb_text, sorted_by}
use proofos.Prelude.Assoc.{Dict, get, keys, values}
use proofos.Prelude.Results.{
  Result, ok, err, ◌>>=◌, ◌>>◌, raise_if, bind-ok, then-ok, passed_check, ok_inj,
}
use proofos.Integrity.{Hash}
use proofos.Signing.{SignatureLibrary}
use proofos.Witness.Observe.{WitnessRecord}
use proofos.Receipt.{ReceiptError, ReceiptVerifier, verify_receipt}
use proofos.Receipt.Binding.{ReceiptBinds, verify_receipt-ReceiptBinds}
use proofos.Quorum.Policy.{
  policy_digest_differs, not_allowed, wrong_verifier, wrong_verifier_key, QuorumPolicy, witness_ids,
  public_key_for, digest,
}
use proofos.Quorum.Evaluate.{
  WitnessVote, voter, quorum, QuorumResult, Votes, no_votes, check_verifier, check_verifiers,
  receipt_refusal, check_with, check_votes, check_scopes, tally, commitments, first_digest, split,
  concluded, conclude_quorum, evaluate_quorum,
}

-- What `evaluate_quorum` has checked, and its conclusion.
pub record Evaluated (content_hash : Hash) (key_of : String → SignatureLibrary)
    (votes : List WitnessVote) (verifiers : Dict ReceiptVerifier) (p : QuorumPolicy)
    (expected : String) (result : QuorumResult) : Type 0 where
  pub pinned_policy : expected ≡ digest content_hash p
  pub verifiers_checked : check_verifiers p verifiers (witness_ids p) ≡ ok tt
  pub votes_checked : check_votes content_hash key_of p verifiers votes ≡ ok tt
  pub conclusion : conclude_quorum content_hash p votes ≡ ok result

-- What a quorum says of the counted votes.
pub record Counted (content_hash : Hash) (p : QuorumPolicy) (votes : List WitnessVote)
    (result : QuorumResult) : Type 0 where
  pub counted_sorted :
      result.counted_witnesses
      ≡ sorted_by leb_text (keys (tally content_hash votes no_votes).by_witness)
  pub unanimous : (tally content_hash votes no_votes).duplicate_conflict ≡ false
  pub one_commitment :
      ltb 1 (length (commitments (values (tally content_hash votes no_votes).by_witness))) ≡ false
  pub enough : p.threshold ≤ length (tally content_hash votes no_votes).by_witness
  pub digest_of_first :
      result.checkpoint_digest
      ≡ first_digest (values (tally content_hash votes no_votes).by_witness)

module _ (content_hash : Hash) (key_of : String → SignatureLibrary)
    (verifiers : Dict ReceiptVerifier) (p : QuorumPolicy) where
  pub evaluate-Evaluated :
      (votes : List WitnessVote) (expected : String) (result : QuorumResult)
      → evaluate_quorum content_hash key_of votes verifiers p expected ≡ ok result
      → Evaluated content_hash key_of votes verifiers p expected result
  unfolding evaluate_quorum
  evaluate-Evaluated votes expected result h =
      let d =
        then-ok (raise_if (not (expected == digest content_hash p)) policy_digest_differs)
          (check_verifiers p verifiers (witness_ids p)
            >> (check_votes content_hash key_of p verifiers votes
                >> conclude_quorum content_hash p votes))
          h in
      let v =
        then-ok (check_verifiers p verifiers (witness_ids p))
          (check_votes content_hash key_of p verifiers votes
            >> conclude_quorum content_hash p votes)
          d.1 in
      let w =
        then-ok (check_votes content_hash key_of p verifiers votes)
          (conclude_quorum content_hash p votes) v.1 in
      record {
        pinned_policy = (eq_iff expected (digest content_hash p)).0 (passed_check _ _ d.0);
        verifiers_checked = v.0;
        votes_checked = w.0;
        conclusion = w.1;
      }

  concluded-Counted :
      (votes : List WitnessVote) (scope : WitnessRecord) (result : QuorumResult)
      → concluded content_hash p scope (tally content_hash votes no_votes) ≡ result
      → result.state ≡ quorum
      → Counted content_hash p votes result
  unfolding concluded
  concluded-Counted votes scope result e q = elim (Bool-cases (split t)) [
    | inl s ↦ cc (ap (λ (r : QuorumResult). r.state) (rw s at e), q)
    | inr s ↦ elim (Bool-cases (leb p.threshold (length t.by_witness))) [
      | inl l ↦ record {
        counted_sorted = ap (λ (r : QuorumResult). r.counted_witnesses) (sym (rw s at e));
        unanimous = ground arith;
        one_commitment = ground arith;
        enough = ground arith;
        digest_of_first = ap (λ (r : QuorumResult). r.checkpoint_digest) (sym (rw s at e));
      }
      | inr l ↦ cc (ap (λ (r : QuorumResult). r.state) (rw (s, l) at e), q)
    ]
  ]
    where
      t : Votes
      t = tally content_hash votes no_votes

  pub conclude_quorum-Counted :
      (votes : List WitnessVote) (result : QuorumResult)
      → conclude_quorum content_hash p votes ≡ ok result
      → result.state ≡ quorum
      → Counted content_hash p votes result
  conclude_quorum-Counted [] result h q = cc (ok_inj h, q)
  conclude_quorum-Counted (v ∷ vs) result h q =
      let c =
        then-ok (check_scopes v.record_ vs)
          (ok (concluded content_hash p v.record_ (tally content_hash (v ∷ vs) no_votes))) h in
      concluded-Counted (v ∷ vs) v.record_ result (ok_inj c.1) q

  -- A verifier that was checked is this witness's, and has the key that the policy pins.
  pub check_verifiers-found :
      (ws : List String) (w : String)
      → check_verifiers p verifiers ws ≡ ok tt
      → has w ws ≡ true
      → (v : ReceiptVerifier) × (get w verifiers ≡ some v)
        × (v.witness_id ≡ w)
        × (public_key_for w p ≡ ok v.public_key_b64)
  unfolding check_verifiers has
  check_verifiers-found [] w h m = cc
  check_verifiers-found (x ∷ ws) w h m =
      let c = then-ok (check_verifier p x (get x verifiers)) (check_verifiers p verifiers ws) h in
      elim (Bool-cases (w == x)) [
        | inl e ↦
            subst
              (λ k.
                (v : ReceiptVerifier) × (get k verifiers ≡ some v)
                × (v.witness_id ≡ k)
                × (public_key_for k p ≡ ok v.public_key_b64))
              (sym ((eq_iff w x).0 e)) (found x (get x verifiers) refl c.0)
        | inr e ↦ check_verifiers-found ws w c.1 (rw e at m)
      ]
    where
      found :
          (x : String) (o : Option ReceiptVerifier)
          → get x verifiers ≡ o
          → check_verifier p x o ≡ ok tt
          → (v : ReceiptVerifier) × (get x verifiers ≡ some v)
            × (v.witness_id ≡ x)
            × (public_key_for x p ≡ ok v.public_key_b64)
      found x none g h = cc
      found x (some v) g h =
          let i =
            then-ok (raise_if (not (v.witness_id == x)) (wrong_verifier x))
              (public_key_for x p >>= λ k.
                raise_if (not (v.public_key_b64 == k)) (wrong_verifier_key x))
              h in
          let k =
            bind-ok (public_key_for x p)
              (λ k. raise_if (not (v.public_key_b64 == k)) (wrong_verifier_key x)) i.1 in
          (
            v,
            g,
            (eq_iff v.witness_id x).0 (passed_check _ _ i.0),
            k.1 ∙ ap ok (sym ((eq_iff v.public_key_b64 k.0).0 (passed_check _ _ k.2))),
          )

  check_with-ok :
      (vote : WitnessVote) (o : Option ReceiptVerifier)
      → check_with content_hash key_of vote o ≡ ok tt
      → (v : ReceiptVerifier) × (o ≡ some v)
        × ReceiptBinds content_hash key_of v vote.receipt vote.record_
  check_with-ok vote none h = cc
  check_with-ok vote (some v) h = (
    v,
    refl,
    verify_receipt-ReceiptBinds content_hash key_of v vote.receipt vote.record_
        (unrefused (verify_receipt content_hash key_of v vote.receipt vote.record_) h),
  )
    where
      unrefused : (m : Result ReceiptError (Unit {0})) → receipt_refusal m ≡ ok tt → m ≡ ok tt
      unrefused (ok tt) h = refl
      unrefused (err e) h = cc

  -- The voter is one of the policy's, and its verifier accepts the receipt.
  abbrev pub Sound : WitnessVote → Type 0
  Sound vote =
      (has (voter vote) (witness_ids p) ≡ true)
      × ((v : ReceiptVerifier) × (get (voter vote) verifiers ≡ some v)
          × ReceiptBinds content_hash key_of v vote.receipt vote.record_)

  check_votes-cons :
      (x : WitnessVote) (vs : List WitnessVote)
      → check_votes content_hash key_of p verifiers (x ∷ vs) ≡ ok tt
      → Sound x × (check_votes content_hash key_of p verifiers vs ≡ ok tt)
  unfolding check_votes
  check_votes-cons x vs h =
      let a =
        then-ok (raise_if (not (has (voter x) (witness_ids p))) (not_allowed (voter x)))
          (check_with content_hash key_of x (get (voter x) verifiers)
            >> check_votes content_hash key_of p verifiers vs)
          h in
      let c =
        then-ok (check_with content_hash key_of x (get (voter x) verifiers))
          (check_votes content_hash key_of p verifiers vs) a.1 in
      ((passed_check _ _ a.0, check_with-ok x (get (voter x) verifiers) c.0), c.1)

  pub check_votes-found :
      (vs : List WitnessVote) (vote : WitnessVote)
      → check_votes content_hash key_of p verifiers vs ≡ ok tt
      → vote ∈ vs
      → Sound vote
  check_votes-found [] vote h m = absurd m
  check_votes-found (x ∷ vs) vote h (inl q) = subst Sound (sym q) (check_votes-cons x vs h).0
  check_votes-found (x ∷ vs) vote h (inr m) =
      check_votes-found vs vote (check_votes-cons x vs h).1 m
