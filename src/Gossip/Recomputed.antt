-- ===== src/Gossip/Recomputed.antt =====
-- What a receiver of a bundle knows without trusting its publisher, and that an honest publisher's
-- bundles are accepted.
use mathlib.Core.Path.{subst}
use proofos.Prelude.{◌≤◌, String, ◌≡◌, refl, sym, ap, ◌∙◌, Bool, true, not, Option, List, [], arith}
use proofos.Prelude.Tests.{◌==◌, eq_iff, eq_refl, nat_eq_iff}
use proofos.Prelude.Lists.{length}
use proofos.Prelude.Sets.{has, distinct}
use proofos.Prelude.Assoc.{Dict}
use proofos.Prelude.Int.{ℤ}
use proofos.Prelude.Results.{
  Result, ok, err, ◌>>=◌, ◌>>◌, raise_if, bind-ok, then-ok, passed_check, ok_inj,
}
use proofos.Integrity.{Hash}
use proofos.Signing.{
  SignatureLibrary, IsSignatureLibrary, SignatureFault, SignedBy, check_signed,
  check_signed-SignedBy, check_signed-sign_fields, sign_fields,
}
use proofos.Checkpoint.{Stamp, finite, not_finite, stamp_of}
use proofos.Receipt.{ReceiptVerifier}
use proofos.Quorum.Policy.{QuorumPolicy, QuorumError, digest}
use proofos.Quorum.Evaluate.{
  QuorumState, quorum, insufficient, split_view, QuorumResult, WitnessVote, evaluate_quorum,
}
use proofos.Quorum.Backed.{Backed, quorum_is_Backed}
use proofos.Certificate.{state_name}
use proofos.Certificate.Binding.{same_texts_iff, same_texts_refl}
use proofos.Gossip.{
  witness_gossip_version, GossipBundle, bundle_fields, GossipError, wrong_version, wrong_publisher,
  claim_differs, unsigned_bundle, signed_bundle, sign_bundle_at, sign_bundle, bundle_signature,
  policy_verifiers, quorum_refusal, same_claim, accept_claim, verify_bundle,
}

-- The claim of a bundle is this result.
pub record ClaimHolds (b : GossipBundle) (r : QuorumResult) : Type 0 where
  pub same_operation : b.operation_id ≡ r.operation_id
  pub same_execution : b.execution_id ≡ r.execution_id
  pub same_version : b.checkpoint_version ≡ r.checkpoint_version
  pub same_digest : b.checkpoint_digest ≡ r.checkpoint_digest
  pub same_state : b.quorum_state ≡ state_name r.state
  pub same_required : b.required ≡ r.required
  pub same_witnesses : b.counted_witnesses ≡ r.counted_witnesses
  pub same_conflicts : b.conflicting_commitment_hashes ≡ r.conflicting_commitment_hashes

same_claim-ClaimHolds :
    (b : GossipBundle) (r : QuorumResult) → same_claim b r ≡ true → ClaimHolds b r
unfolding same_claim
same_claim-ClaimHolds b r h = record {
  same_operation = (eq_iff b.operation_id r.operation_id).0 (ground (arith, h));
  same_execution = (eq_iff b.execution_id r.execution_id).0 (ground (arith, h));
  same_version = (nat_eq_iff b.checkpoint_version r.checkpoint_version).0 (ground (arith, h));
  same_digest = (eq_iff b.checkpoint_digest r.checkpoint_digest).0 (ground (arith, h));
  same_state = (eq_iff b.quorum_state (state_name r.state)).0 (ground (arith, h));
  same_required = (nat_eq_iff b.required r.required).0 (ground (arith, h));
  same_witnesses = same_texts_iff b.counted_witnesses r.counted_witnesses (ground (arith, h));
  same_conflicts =
      same_texts_iff b.conflicting_commitment_hashes r.conflicting_commitment_hashes
        (ground (arith, h));
}

bundle_signature-ok :
    (m : Result SignatureFault (Unit {0})) → bundle_signature m ≡ ok tt → m ≡ ok tt
bundle_signature-ok (ok tt) h = refl
bundle_signature-ok (err e) h = cc

quorum_refusal-ok :
    (m : Result QuorumError QuorumResult) {r : QuorumResult} → quorum_refusal m ≡ ok r → m ≡ ok r
quorum_refusal-ok (ok r) h = ap ok (ok_inj h)
quorum_refusal-ok (err e) h = cc

named-quorum : (s : QuorumState) → state_name s ≡ "QUORUM" → s ≡ quorum
unfolding state_name
named-quorum quorum h = refl
named-quorum insufficient h = absurd (ground (arith, (eq_iff "INSUFFICIENT" "QUORUM").1 h))
named-quorum split_view h = absurd (ground (arith, (eq_iff "SPLIT_VIEW" "QUORUM").1 h))

module _ (content_hash : Hash) (key_of : String → SignatureLibrary) (valid_key : String → Bool)
    (key : SignatureLibrary) (publisher_id : String) where
  -- The bundle is the publisher's, signed by its key, and its claim is the evaluation's own result
  -- on its votes, under the pinned policy.
  pub record Recomputed (b : GossipBundle) (expected : String) (r : QuorumResult) : Type 0 where
    pub own_publisher : b.publisher_id ≡ publisher_id
    pub signed : SignedBy key b.signature (bundle_fields b)
    pub verifiers : Dict ReceiptVerifier
    pub own_verifiers : policy_verifiers valid_key (b.policy_).witnesses [] ≡ ok verifiers
    pub evaluated : evaluate_quorum content_hash key_of b.votes verifiers b.policy_ expected ≡ ok r
    pub claim : ClaimHolds b r

  pub verify_bundle-Recomputed :
      (b : GossipBundle) (expected : String) (r : QuorumResult)
      → verify_bundle content_hash key_of valid_key key publisher_id b expected ≡ ok r
      → Recomputed b expected r
  unfolding verify_bundle
  verify_bundle-Recomputed b expected r h =
      let v =
        then-ok (raise_if (not (b.version == witness_gossip_version)) wrong_version) from_publisher
          h in
      let p =
        then-ok (raise_if (not (b.publisher_id == publisher_id)) wrong_publisher) from_signature
          v.1 in
      let s =
        then-ok (bundle_signature (check_signed key b.signature (bundle_fields b))) from_verifiers
          p.1 in
      let d = bind-ok (policy_verifiers valid_key (b.policy_).witnesses []) from_evaluation s.1 in
      let q =
        bind-ok
          (quorum_refusal (evaluate_quorum content_hash key_of b.votes d.0 b.policy_ expected))
          (accept_claim b) d.2 in
      let c = then-ok (raise_if (not (same_claim b q.0)) claim_differs) (ok q.0) q.2 in
      let same = ok_inj c.1 in
      record {
        own_publisher = (eq_iff b.publisher_id publisher_id).0 (passed_check _ _ p.0);
        signed =
            check_signed-SignedBy key b.signature (bundle_fields b) (bundle_signature-ok _ s.0);
        verifiers = d.0;
        own_verifiers = d.1;
        evaluated = quorum_refusal-ok _ (q.1 ∙ ap ok same);
        claim = subst (ClaimHolds b) same (same_claim-ClaimHolds b q.0 (passed_check _ _ c.0));
      }
    where
      from_evaluation : Dict ReceiptVerifier → Result GossipError QuorumResult
      from_evaluation d =
          quorum_refusal (evaluate_quorum content_hash key_of b.votes d b.policy_ expected)
          >>= accept_claim b

      from_verifiers : Result GossipError QuorumResult
      from_verifiers = policy_verifiers valid_key (b.policy_).witnesses [] >>= from_evaluation

      from_signature : Result GossipError QuorumResult
      from_signature =
          bundle_signature (check_signed key b.signature (bundle_fields b)) >> from_verifiers

      from_publisher : Result GossipError QuorumResult
      from_publisher =
          raise_if (not (b.publisher_id == publisher_id)) wrong_publisher >> from_signature

  -- If a receiver accepts a bundle that claims a quorum, then the bundle's policy is the pinned one,
  -- and the claimed witnesses are different, enough, and each of them has a vote in the bundle, under the
  -- key that the policy pins for it, for the claimed checkpoint digest, whoever signed the bundle.
  pub publisher_cannot_claim :
      (b : GossipBundle) (expected : String) (r : QuorumResult)
      → verify_bundle content_hash key_of valid_key key publisher_id b expected ≡ ok r
      → b.quorum_state ≡ "QUORUM"
      → (expected ≡ digest content_hash b.policy_)
        × (distinct b.counted_witnesses ≡ true)
        × ((b.policy_).threshold ≤ length b.counted_witnesses)
        × ((w : String)
            → has w b.counted_witnesses ≡ true
            → Backed content_hash key_of b.policy_ b.votes b.checkpoint_digest w)
  publisher_cannot_claim b expected r h claimed =
      let g = verify_bundle-Recomputed b expected r h in
      let c = g.claim in
      let (pinned, d, enough, backed) =
        quorum_is_Backed content_hash key_of b.votes g.verifiers b.policy_ expected r g.evaluated
          (named-quorum r.state (sym c.same_state ∙ claimed)) in
      (
        pinned,
        rw c.same_witnesses d,
        rw c.same_witnesses enough,
        rw (c.same_witnesses, c.same_digest) backed,
      )

  same_claim-signed :
      (p : QuorumPolicy) (r : QuorumResult) (votes : List WitnessVote) (t : ℤ) (signature : String)
      → same_claim (unsigned_bundle publisher_id p r votes t signature) r ≡ true
  unfolding same_claim
  same_claim-signed p r votes t signature = rw (
    eq_refl r.operation_id,
    eq_refl r.execution_id,
    (nat_eq_iff r.checkpoint_version r.checkpoint_version).1 refl,
    eq_refl r.checkpoint_digest,
    eq_refl (state_name r.state),
    (nat_eq_iff r.required r.required).1 refl,
    same_texts_refl r.counted_witnesses,
    same_texts_refl r.conflicting_commitment_hashes,
  )

  made_bundle :
      (p : QuorumPolicy) (r : QuorumResult) (votes : List WitnessVote) (s : Stamp)
      (b : GossipBundle)
      → sign_bundle_at key publisher_id p r votes s ≡ ok b
      → (t : ℤ) × (b ≡ signed_bundle key publisher_id p r votes t)
  made_bundle p r votes not_finite b h = cc
  made_bundle p r votes (finite t) b h = (t, sym (ok_inj h))

  -- A bundle that the publisher signs for what the evaluation gives on its votes is accepted, with
  -- this result.
  pub sign_bundle-verify_bundle :
      (clock : ℤ) (p : QuorumPolicy) (r : QuorumResult) (votes : List WitnessVote)
      (issued_at : Option Stamp) (b : GossipBundle) (verifiers : Dict ReceiptVerifier)
      (expected : String)
      → IsSignatureLibrary key
      → policy_verifiers valid_key p.witnesses [] ≡ ok verifiers
      → evaluate_quorum content_hash key_of votes verifiers p expected ≡ ok r
      → sign_bundle key publisher_id clock p r votes issued_at ≡ ok b
      → verify_bundle content_hash key_of valid_key key publisher_id b expected ≡ ok r
  unfolding sign_bundle verify_bundle
  sign_bundle-verify_bundle clock p r votes issued_at b verifiers expected is_library v e h =
      let m = made_bundle p r votes (stamp_of issued_at clock) b h in
      let fields = bundle_fields (unsigned_bundle publisher_id p r votes m.0 "") in
      subst (λ x. verify_bundle content_hash key_of valid_key key publisher_id x expected ≡ ok r)
        (sym m.1)
        (rw (
          eq_refl publisher_id,
          check_signed-sign_fields key
              (bundle_fields (signed_bundle key publisher_id p r votes m.0)) is_library,
          v,
          e,
          same_claim-signed p r votes m.0 (sign_fields key fields),
        ))
