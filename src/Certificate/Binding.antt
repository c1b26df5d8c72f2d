-- ===== src/Certificate/Binding.antt =====
-- What a verified certificate says of the quorum, and that the signer's certificates verify.
use mathlib.Core.Path.{subst}
use proofos.Prelude.{◌≤◌, String, ◌≡◌, refl, sym, true, not, Option, List, [], ◌∷◌, arith}
use proofos.Prelude.Tests.{◌==◌, eq_iff, eq_refl, nat_eq_iff, ltb}
use proofos.Prelude.Lists.{length}
use proofos.Prelude.Sets.{has, distinct}
use proofos.Prelude.Assoc.{Dict}
use proofos.Prelude.Int.{ℤ}
use proofos.Prelude.Results.{Result, ok, err, ◌>>◌, raise_if, then-ok, passed_check, ok_inj}
use proofos.Integrity.{Hash}
use proofos.Signing.{
  SignatureLibrary, IsSignatureLibrary, SignatureFault, SignedBy, check_signed,
  check_signed-SignedBy, check_signed-sign_fields, sign_fields,
}
use proofos.Checkpoint.{Stamp, finite, not_finite, stamp_of}
use proofos.Receipt.{ReceiptVerifier}
use proofos.Quorum.Policy.{QuorumPolicy}
use proofos.Quorum.Evaluate.{
  QuorumState, quorum, insufficient, split_view, QuorumResult, WitnessVote, evaluate_quorum,
}
use proofos.Quorum.Backed.{Backed, quorum_is_Backed}
use proofos.Certificate.{
  quorum_certificate_version, quorum_met, digest_quorum_result, QuorumCertificate,
  certificate_fields, CertificateError, not_a_quorum, too_few_witnesses, wrong_version,
  wrong_signer, unsigned_certificate, sign_certificate_at, sign_certificate, certificate_signature,
  same_texts, check_certificate_fields, verify_certificate,
}

-- The certificate is the signer's, signed by its key, for exactly this quorum.
pub record CertificateBinds (content_hash : Hash) (key : SignatureLibrary) (signer_id : String)
    (c : QuorumCertificate) (r : QuorumResult) : Type 0 where
  pub own_signer : c.signer_id ≡ signer_id
  pub a_quorum : r.state ≡ quorum
  pub signed_certificate : SignedBy key c.signature (certificate_fields c)
  pub same_policy : c.policy_digest ≡ r.policy_digest
  pub same_operation : c.operation_id ≡ r.operation_id
  pub same_execution : c.execution_id ≡ r.execution_id
  pub same_version : c.checkpoint_version ≡ r.checkpoint_version
  pub same_digest : c.checkpoint_digest ≡ r.checkpoint_digest
  pub same_witnesses : c.counted_witnesses ≡ r.counted_witnesses
  pub same_required : c.required ≡ r.required
  pub same_result : c.quorum_result_digest ≡ digest_quorum_result content_hash r

met-quorum : (r : QuorumResult) → quorum_met r ≡ true → r.state ≡ quorum
met-quorum r h = by_state r.state refl h
  where
    by_state : (s : QuorumState) → r.state ≡ s → quorum_met r ≡ true → r.state ≡ quorum
    by_state quorum e h = e
    by_state insufficient e h = cc (rw e at h)
    by_state split_view e h = cc (rw e at h)

pub same_texts_iff : (xs ys : List String) → same_texts xs ys ≡ true → xs ≡ ys
unfolding same_texts
same_texts_iff [] [] h = refl
same_texts_iff [] (y ∷ ys) h = cc
same_texts_iff (x ∷ xs) [] h = cc
same_texts_iff (x ∷ xs) (y ∷ ys) h =
    rw ((eq_iff x y).0 (ground arith), same_texts_iff xs ys (ground arith))

pub same_texts_refl : (xs : List String) → same_texts xs xs ≡ true
unfolding same_texts
same_texts_refl [] = refl
same_texts_refl (x ∷ xs) = rw (eq_refl, same_texts_refl xs)

certificate_signature-ok :
    (m : Result SignatureFault (Unit {0})) → certificate_signature m ≡ ok tt → m ≡ ok tt
certificate_signature-ok (ok tt) h = refl
certificate_signature-ok (err e) h = cc

module _ (content_hash : Hash) (key : SignatureLibrary) (signer_id : String) where
  -- A certificate that verifies against a result is the signer's, for a quorum, and equal to it in
  -- every field that both have.
  pub verify_certificate-CertificateBinds :
      (c : QuorumCertificate) (r : QuorumResult)
      → verify_certificate content_hash key signer_id c r ≡ ok tt
      → CertificateBinds content_hash key signer_id c r
  unfolding verify_certificate check_certificate_fields
  verify_certificate-CertificateBinds c r h =
      let v =
        then-ok (raise_if (not (c.version == quorum_certificate_version)) wrong_version) from_signer
          h in
      let s = then-ok (raise_if (not (c.signer_id == signer_id)) wrong_signer) from_state v.1 in
      let q = then-ok (raise_if (not (quorum_met r)) not_a_quorum) from_signature s.1 in
      let g =
        then-ok (certificate_signature (check_signed key c.signature (certificate_fields c)))
          (check_certificate_fields content_hash c r) q.1 in
      let f = g.1 in
      record {
        own_signer = (eq_iff c.signer_id signer_id).0 (passed_check _ _ s.0);
        a_quorum = met-quorum r (passed_check _ _ q.0);
        signed_certificate =
            check_signed-SignedBy key c.signature (certificate_fields c)
              (certificate_signature-ok _ g.0);
        same_policy = (eq_iff c.policy_digest r.policy_digest).0 (ground (arith, f));
        same_operation = (eq_iff c.operation_id r.operation_id).0 (ground (arith, f));
        same_execution = (eq_iff c.execution_id r.execution_id).0 (ground (arith, f));
        same_version = (nat_eq_iff c.checkpoint_version r.checkpoint_version).0 (ground (arith, f));
        same_digest = (eq_iff c.checkpoint_digest r.checkpoint_digest).0 (ground (arith, f));
        same_witnesses = same_texts_iff c.counted_witnesses r.counted_witnesses (ground (arith, f));
        same_required = (nat_eq_iff c.required r.required).0 (ground (arith, f));
        same_result =
            (eq_iff c.quorum_result_digest (digest_quorum_result content_hash r)).0
              (ground (arith, f));
      }
    where
      from_signature : Result CertificateError (Unit {0})
      from_signature =
          certificate_signature (check_signed key c.signature (certificate_fields c))
          >> check_certificate_fields content_hash c r

      from_state : Result CertificateError (Unit {0})
      from_state = raise_if (not (quorum_met r)) not_a_quorum >> from_signature

      from_signer : Result CertificateError (Unit {0})
      from_signer = raise_if (not (c.signer_id == signer_id)) wrong_signer >> from_state

  check_certificate_fields_same :
      (r : QuorumResult) (t : ℤ) (signature : String)
      → check_certificate_fields content_hash
          (unsigned_certificate content_hash signer_id r t signature)
          r
        ≡ ok tt
  unfolding check_certificate_fields
  check_certificate_fields_same r t signature = rw (
    eq_refl r.policy_digest,
    eq_refl r.operation_id,
    eq_refl r.execution_id,
    (nat_eq_iff r.checkpoint_version r.checkpoint_version).1 refl,
    eq_refl r.checkpoint_digest,
    same_texts_refl r.counted_witnesses,
    (nat_eq_iff r.required r.required).1 refl,
    eq_refl (digest_quorum_result content_hash r),
  )

  made_certificate :
      (r : QuorumResult) (s : Stamp) (c : QuorumCertificate)
      → sign_certificate_at content_hash key signer_id r s ≡ ok c
      → (t : ℤ) × (c
          ≡ unsigned_certificate content_hash signer_id r t (
              sign_fields key
                (certificate_fields (unsigned_certificate content_hash signer_id r t ""))))
  made_certificate r not_finite c h = cc
  made_certificate r (finite t) c h = (t, sym (ok_inj h))

  -- What the signer certifies is a quorum with enough witnesses, and verifies against it.
  pub sign_certificate-verify_certificate :
      (clock : ℤ) (r : QuorumResult) (issued_at : Option Stamp) (c : QuorumCertificate)
      → IsSignatureLibrary key
      → sign_certificate content_hash key signer_id clock r issued_at ≡ ok c
      → (r.state ≡ quorum)
        × (r.required ≤ length r.counted_witnesses)
        × (verify_certificate content_hash key signer_id c r ≡ ok tt)
  unfolding sign_certificate verify_certificate
  sign_certificate-verify_certificate clock r issued_at c is_library h =
      let q = then-ok (raise_if (not (quorum_met r)) not_a_quorum) from_count h in
      let n =
        then-ok (raise_if (ltb (length r.counted_witnesses) r.required) too_few_witnesses) signed
          q.1 in
      let m = made_certificate r (stamp_of issued_at clock) c n.1 in
      let met = passed_check (quorum_met r) not_a_quorum q.0 in
      (
        met-quorum r met,
        ground (arith, n.0),
        subst (λ x. verify_certificate content_hash key signer_id x r ≡ ok tt) (sym m.1)
            (rw (eq_refl signer_id, met, check_signed-sign_fields key _ is_library)
              (check_certificate_fields_same r m.0 (
                sign_fields key
                  (certificate_fields (unsigned_certificate content_hash signer_id r m.0 ""))))),
      )
    where
      signed : Result CertificateError QuorumCertificate
      signed = sign_certificate_at content_hash key signer_id r (stamp_of issued_at clock)

      from_count : Result CertificateError QuorumCertificate
      from_count =
          raise_if (ltb (length r.counted_witnesses) r.required) too_few_witnesses >> signed

-- A certificate that verifies against a recomputed evaluation names enough different witnesses of
-- the pinned policy, and each of them has a vote, under its pinned key, for the certificate's checkpoint digest.
pub certificate_is_Backed :
    (content_hash : Hash) (key_of : String → SignatureLibrary) (votes : List WitnessVote)
    (verifiers : Dict ReceiptVerifier) (p : QuorumPolicy) (expected : String) (r : QuorumResult)
    (key : SignatureLibrary) (signer_id : String) (c : QuorumCertificate)
    → evaluate_quorum content_hash key_of votes verifiers p expected ≡ ok r
    → verify_certificate content_hash key signer_id c r ≡ ok tt
    → (distinct c.counted_witnesses ≡ true)
      × (p.threshold ≤ length c.counted_witnesses)
      × ((w : String)
          → has w c.counted_witnesses ≡ true
          → Backed content_hash key_of p votes c.checkpoint_digest w)
certificate_is_Backed content_hash key_of votes verifiers p expected r key signer_id c h k =
    let b = verify_certificate-CertificateBinds content_hash key signer_id c r k in
    let (_, d, enough, backed) =
      quorum_is_Backed content_hash key_of votes verifiers p expected r h b.a_quorum in
    (rw b.same_witnesses d, rw b.same_witnesses enough, rw (b.same_witnesses, b.same_digest) backed)
