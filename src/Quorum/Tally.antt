-- ===== src/Quorum/Tally.antt =====
-- The dictionary of counted votes: what it holds, and what it says of the votes it does not hold.
use proofos.Prelude.{
  String, ◌≡◌, refl, sym, ap, ◌∙◌, ◌⊎◌, inl, inr, true, false, Option, none, some, List, [], ◌∷◌,
  arith,
}
use proofos.Prelude.Tests.{◌==◌, eq_iff, nat_eq_iff, ltb, Bool-cases}
use proofos.Prelude.Lists.{◌∈◌, length, any, any-true}
use proofos.Prelude.Sets.{distinct}
use proofos.Prelude.Int.{same_ℤ_iff}
use proofos.Prelude.Assoc.{get, keys, get-put, get-put_cases, get-put_self}
use proofos.Prelude.Keys.{distinct-put}
use proofos.Integrity.{Hash}
use proofos.Witness.Observe.{WitnessRecord}
use proofos.Quorum.Evaluate.{
  WitnessVote, voter, same_commitment, commitment, Votes, count_vote, tally, commitments,
}

pub same_commitment_iff :
    (a b : WitnessRecord) → same_commitment a b ≡ true → commitment a ≡ commitment b
same_commitment_iff a b h =
    let o = (eq_iff a.operation_id b.operation_id).0 (ground (arith, h)) in
    let e = (eq_iff a.execution_id b.execution_id).0 (ground (arith, h)) in
    let v = (nat_eq_iff a.checkpoint_version b.checkpoint_version).0 (ground (arith, h)) in
    let d = (eq_iff a.checkpoint_digest b.checkpoint_digest).0 (ground (arith, h)) in
    let s = (eq_iff a.signer_id b.signer_id).0 (ground (arith, h)) in
    let q = (same_ℤ_iff a.last_journal_sequence b.last_journal_sequence).0 (ground (arith, h)) in
    let j = (eq_iff a.last_journal_hash b.last_journal_hash).0 (ground (arith, h)) in
    rw (o, e, v, d, s, q, j)

module _ (content_hash : Hash) where
  count-distinct :
      (v : WitnessVote) (o : Option WitnessVote) (t : Votes)
      → distinct (keys t.by_witness) ≡ true
      → distinct (keys (count_vote content_hash v o t).by_witness) ≡ true
  count-distinct v none t h = distinct-put (voter v) v t.by_witness h
  count-distinct v (some prior) t h = elim (Bool-cases (same_commitment prior.record_ v.record_)) [
    | inl e ↦ rw e h
    | inr e ↦ rw e h
  ]

  -- No witness is counted twice.
  pub tally-distinct :
      (vs : List WitnessVote) (t : Votes)
      → distinct (keys t.by_witness) ≡ true
      → distinct (keys (tally content_hash vs t).by_witness) ≡ true
  unfolding tally
  tally-distinct [] t h = h
  tally-distinct (v ∷ vs) t h =
      tally-distinct vs (count_vote content_hash v (get (voter v) t.by_witness) t)
        (count-distinct v (get (voter v) t.by_witness) t h)

  count-get :
      (w : String) (v : WitnessVote) (o : Option WitnessVote) (t : Votes) {u : WitnessVote}
      → get w (count_vote content_hash v o t).by_witness ≡ some u
      → ((voter v ≡ w) × (v ≡ u)) ⊎ (get w t.by_witness ≡ some u)
  count-get w v none t h = get-put_cases (voter v) w v t.by_witness h
  count-get w v (some prior) t h = elim (Bool-cases (same_commitment prior.record_ v.record_)) [
    | inl e ↦ inr (rw e at h)
    | inr e ↦ inr (rw e at h)
  ]

  -- A counted vote is one of the votes, of the witness that it is counted for.
  pub tally-get :
      (w : String) (vs : List WitnessVote) (t : Votes) {u : WitnessVote}
      → get w (tally content_hash vs t).by_witness ≡ some u
      → ((u ∈ vs) × (voter u ≡ w)) ⊎ (get w t.by_witness ≡ some u)
  unfolding tally
  tally-get w [] t h = inr h
  tally-get w (v ∷ vs) t h =
      elim (tally-get w vs (count_vote content_hash v (get (voter v) t.by_witness) t) h) [
        | inl (m, e) ↦ inl (inr m, e)
        | inr g ↦ elim (count-get w v (get (voter v) t.by_witness) t g) [
          | inl (e, s) ↦ inl (inl (sym s), ap voter (sym s) ∙ e)
          | inr g' ↦ inr g'
        ]
      ]

  count-kept :
      (w : String) (v : WitnessVote) (t : Votes) {u : WitnessVote} (o : Option WitnessVote)
      → get (voter v) t.by_witness ≡ o
      → get w t.by_witness ≡ some u
      → get w (count_vote content_hash v o t).by_witness ≡ some u
  count-kept w v t none q h = elim (Bool-cases (voter v == w)) [
    | inl e ↦ cc (q, h, (eq_iff (voter v) w).0 e)
    | inr e ↦ rw (get-put, e) h
  ]
  count-kept w v t (some prior) q h = elim (Bool-cases (same_commitment prior.record_ v.record_)) [
    | inl e ↦ rw e h
    | inr e ↦ rw e h
  ]

  tally-kept :
      (w : String) (vs : List WitnessVote) (t : Votes) {u : WitnessVote}
      → get w t.by_witness ≡ some u
      → get w (tally content_hash vs t).by_witness ≡ some u
  unfolding tally
  tally-kept w [] t h = h
  tally-kept w (v ∷ vs) t h =
      tally-kept w vs (count_vote content_hash v (get (voter v) t.by_witness) t)
        (count-kept w v t (get (voter v) t.by_witness) refl h)

  count-conflict :
      (v : WitnessVote) (o : Option WitnessVote) (t : Votes)
      → (count_vote content_hash v o t).duplicate_conflict ≡ false
      → t.duplicate_conflict ≡ false
  count-conflict v none t h = h
  count-conflict v (some prior) t h = elim (Bool-cases (same_commitment prior.record_ v.record_)) [
    | inl e ↦ rw e at h
    | inr e ↦ cc (rw e at h)
  ]

  tally-conflict :
      (vs : List WitnessVote) (t : Votes)
      → (tally content_hash vs t).duplicate_conflict ≡ false
      → t.duplicate_conflict ≡ false
  unfolding tally
  tally-conflict [] t h = h
  tally-conflict (v ∷ vs) t h =
      count-conflict v (get (voter v) t.by_witness) t
        (tally-conflict vs (count_vote content_hash v (get (voter v) t.by_witness) t) h)

  count-counted :
      (v : WitnessVote) (o : Option WitnessVote) (t : Votes)
      → get (voter v) t.by_witness ≡ o
      → (count_vote content_hash v o t).duplicate_conflict ≡ false
      → (u : WitnessVote) × (get (voter v) (count_vote content_hash v o t).by_witness ≡ some u)
        × (commitment u.record_ ≡ commitment v.record_)
  count-counted v none t q h = (v, get-put_self (voter v) v t.by_witness, refl)
  count-counted v (some prior) t q h = elim (Bool-cases (same_commitment prior.record_ v.record_)) [
    | inl e ↦ (prior, rw e q, same_commitment_iff prior.record_ v.record_ e)
    | inr e ↦ cc (rw e at h)
  ]

  -- Without a conflict, the witness of each vote is counted, with the same commitment.
  pub tally-counted :
      (vs : List WitnessVote) (t : Votes) (v : WitnessVote)
      → v ∈ vs
      → (tally content_hash vs t).duplicate_conflict ≡ false
      → (u : WitnessVote) × (get (voter v) (tally content_hash vs t).by_witness ≡ some u)
        × (commitment u.record_ ≡ commitment v.record_)
  unfolding tally
  tally-counted [] t v m h = absurd m
  tally-counted (x ∷ vs) t v (inr m) h =
      tally-counted vs (count_vote content_hash x (get (voter x) t.by_witness) t) v m h
  tally-counted (x ∷ vs) t v (inl q) h =
      let after = count_vote content_hash x (get (voter x) t.by_witness) t in
      let c = count-counted x (get (voter x) t.by_witness) t refl (tally-conflict vs after h) in
      (
        c.0,
        ap (λ y. get (voter y) (tally content_hash vs after).by_witness) q
            ∙ tally-kept (voter x) vs after c.1,
        c.2 ∙ ap (λ (y : WitnessVote). commitment y.record_) (sym q),
      )

-- The commitment of each vote is in the set.
commitments-mem :
    (vs : List WitnessVote) (v : WitnessVote)
    → v ∈ vs
    → (c : WitnessRecord) × (c ∈ commitments vs) × (commitment v.record_ ≡ commitment c)
unfolding commitments
commitments-mem [] v m = absurd m
commitments-mem (x ∷ vs) v (inl q) =
    elim (Bool-cases (any (same_commitment x.record_) (commitments vs))) [
      | inl e ↦
          let a = any-true (same_commitment x.record_) (commitments vs) e in
          (
            a.0,
            rw e a.1,
            ap (λ (y : WitnessVote). commitment y.record_) q
                ∙ same_commitment_iff x.record_ a.0 a.2,
          )
      | inr e ↦ (x.record_, rw e (inl refl), ap (λ (y : WitnessVote). commitment y.record_) q)
    ]
commitments-mem (x ∷ vs) v (inr m) =
    elim (Bool-cases (any (same_commitment x.record_) (commitments vs))) [
      | inl e ↦ let r = commitments-mem vs v m in (r.0, rw e r.1, r.2)
      | inr e ↦ let r = commitments-mem vs v m in (r.0, rw e (inr r.1), r.2)
    ]

short_agree :
    (cs : List WitnessRecord) (a b : WitnessRecord)
    → ltb 1 (length cs) ≡ false
    → a ∈ cs
    → b ∈ cs
    → a ≡ b
short_agree [] a b h m n = absurd m
short_agree (c ∷ []) a b h (inl p) (inl q) = p ∙ sym q
short_agree (c ∷ []) a b h (inr m) n = absurd m
short_agree (c ∷ []) a b h (inl p) (inr n) = absurd n
short_agree (c ∷ d ∷ cs) a b h m n = ground arith

-- If the set of commitments has at most one element, any two votes have the same commitment.
pub commitments_agree :
    (vs : List WitnessVote) (v w : WitnessVote)
    → ltb 1 (length (commitments vs)) ≡ false
    → v ∈ vs
    → w ∈ vs
    → commitment v.record_ ≡ commitment w.record_
commitments_agree vs v w h m n =
    let a = commitments-mem vs v m in
    let b = commitments-mem vs w n in
    a.2 ∙ ap commitment (short_agree (commitments vs) a.0 b.0 h a.1 b.1) ∙ sym b.2
