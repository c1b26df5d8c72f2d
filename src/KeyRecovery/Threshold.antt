-- ===== src/KeyRecovery/Threshold.antt =====
-- What a verified recovery has behind it: enough authorities, none of them revoked.
use mathlib.Core.Path.{subst}
use proofos.Prelude.{
  ℕ, ◌≤◌, String, ◌≡◌, refl, sym, ap, inl, inr, true, false, not, Option, none, some, List, [], ◌∷◌,
  arith,
}
use proofos.Prelude.Tests.{◌==◌, eq_iff, eq_refl, nat_eq, nat_eq_iff, ltb, Bool-cases}
use proofos.Prelude.Lists.{◌∈◌, length}
use proofos.Prelude.Sets.{has, distinct}
use proofos.Prelude.Text.{blank}
use proofos.Prelude.Assoc.{Dict, get}
use proofos.Prelude.Results.{
  Result, ok, ◌>>=◌, ◌>>◌, raise_if, bind-ok, then-ok, raise_if-ok, passed_check,
}
use proofos.Integrity.{Fields, Hash}
use proofos.Signing.{SignatureLibrary, SignedBy}
use proofos.AuditorKeys.{KeyTexts}
use proofos.KeyRecovery.Policy.{
  RecoveryError, too_few_approvals, policy_not_bound, policy_not_pinned, bad_public_key,
  duplicate_approval, authority_not_allowed, authority_revoked, blank_signature,
  wrong_signature_length, uncanonical_signature, wrong_signature, unsupported_recovery,
  not_replaced, RecoveryPolicy, authority_ids, authority_key_for, recovery_digest_of,
  RecoveryApproval, KeyRecovery, auditor_key_recovery_version, recovery_fields,
}
use proofos.KeyRecovery.Verify.{
  check_bytes_of, verify_recovery_signature, revoked_for, check_approval, check_approvals,
  verify_recovery,
}

verify_signature-SignedBy :
    (key : SignatureLibrary) (encoded : String) (fields : Fields) (label : String)
    → verify_recovery_signature key encoded fields label ≡ ok tt
    → SignedBy key encoded fields
unfolding verify_recovery_signature
verify_signature-SignedBy key encoded fields label h =
    by_bytes (key.decode encoded)
      (then-ok (raise_if (blank encoded) (blank_signature label))
        (check_bytes_of key encoded fields label (key.decode encoded)) h).1
  where
    by_bytes :
        (o : Option (List ℕ))
        → check_bytes_of key encoded fields label o ≡ ok tt
        → (bytes : List ℕ) × (o ≡ some bytes)
          × (length bytes ≡ 64)
          × (key.verify_bytes bytes fields ≡ true)
    by_bytes none g = cc
    by_bytes (some bytes) g =
        let n =
          then-ok (raise_if (not (nat_eq (length bytes) 64)) (wrong_signature_length label))
            canonical g in
        let c =
          then-ok (raise_if (not (key.encode bytes == encoded)) (uncanonical_signature label))
            (raise_if (not (key.verify_bytes bytes fields)) (wrong_signature label)) n.1 in
        (bytes, refl, (nat_eq_iff (length bytes) 64).0 (passed_check _ _ n.0), passed_check _ _ c.1)
      where
        canonical : Result RecoveryError (Unit {0})
        canonical =
            raise_if (not (key.encode bytes == encoded)) (uncanonical_signature label)
            >> raise_if (not (key.verify_bytes bytes fields)) (wrong_signature label)

-- An approval that counts: of an authority of the policy that is not revoked for this generation,
-- signed by the key that the policy pins for it.
pub record Approves (key_of : String → SignatureLibrary) (p : RecoveryPolicy) (revoked : Dict ℕ)
    (r : KeyRecovery) (a : RecoveryApproval) : Type 0 where
  pub named : has a.authority_id (authority_ids p) ≡ true
  pub not_revoked : revoked_for r.generation (get a.authority_id revoked) ≡ false
  pub key_text : String
  pub pinned_key : authority_key_for a.authority_id p ≡ ok key_text
  pub approved : SignedBy (key_of key_text) a.signature (recovery_fields r)

abbrev pub approval_ids : List RecoveryApproval → List String
approval_ids [] = []
approval_ids (a ∷ as_) = a.authority_id ∷ approval_ids as_

module _ (key_of : String → SignatureLibrary) (keys : KeyTexts) (p : RecoveryPolicy)
    (revoked : Dict ℕ) (r : KeyRecovery) where
  check_approval-Approves :
      (seen : List String) (a : RecoveryApproval)
      → check_approval key_of keys p revoked r seen a ≡ ok tt
      → (has a.authority_id seen ≡ false) × Approves key_of p revoked r a
  unfolding check_approval
  check_approval-Approves seen a h =
      let d =
        then-ok (raise_if (has a.authority_id seen) (duplicate_approval a.authority_id)) from_named
          h in
      let n =
        then-ok
          (raise_if (not (has a.authority_id (authority_ids p)))
            (authority_not_allowed a.authority_id))
          from_revoked d.1 in
      let v =
        then-ok
          (raise_if (revoked_for r.generation (get a.authority_id revoked))
            (authority_revoked a.authority_id r.generation))
          from_key n.1 in
      let k = bind-ok (authority_key_for a.authority_id p) with_key v.1 in
      let s =
        then-ok (raise_if (not (keys.decodes k.0)) (bad_public_key a.authority_id))
          (verify_recovery_signature (key_of k.0) a.signature (recovery_fields r) a.authority_id)
          k.2 in
      (
        raise_if-ok (has a.authority_id seen) (duplicate_approval a.authority_id) d.0,
        record {
          named = passed_check _ _ n.0;
          not_revoked =
              raise_if-ok (revoked_for r.generation (get a.authority_id revoked))
                (authority_revoked a.authority_id r.generation) v.0;
          key_text = k.0;
          pinned_key = k.1;
          approved =
              verify_signature-SignedBy (key_of k.0) a.signature (recovery_fields r) a.authority_id
                s.1;
        },
      )
    where
      with_key : String → Result RecoveryError (Unit {0})
      with_key k =
          raise_if (not (keys.decodes k)) (bad_public_key a.authority_id)
          >> verify_recovery_signature (key_of k) a.signature (recovery_fields r) a.authority_id

      from_key : Result RecoveryError (Unit {0})
      from_key = authority_key_for a.authority_id p >>= with_key

      from_revoked : Result RecoveryError (Unit {0})
      from_revoked =
          raise_if (revoked_for r.generation (get a.authority_id revoked))
            (authority_revoked a.authority_id r.generation)
          >> from_key

      from_named : Result RecoveryError (Unit {0})
      from_named =
          raise_if (not (has a.authority_id (authority_ids p)))
            (authority_not_allowed a.authority_id)
          >> from_revoked

  check_approvals-distinct :
      (seen : List String) (as_ : List RecoveryApproval)
      → check_approvals key_of keys p revoked r seen as_ ≡ ok tt
      → (distinct (approval_ids as_) ≡ true)
        × ((w : String) → has w seen ≡ true → has w (approval_ids as_) ≡ false)
  unfolding check_approvals distinct has
  check_approvals-distinct seen [] h = (refl, λ w m. refl)
  check_approvals-distinct seen (a ∷ as_) h =
      let c =
        then-ok (check_approval key_of keys p revoked r seen a)
          (check_approvals key_of keys p revoked r (a.authority_id ∷ seen) as_) h in
      let f = (check_approval-Approves seen a c.0).0 in
      let i = check_approvals-distinct (a.authority_id ∷ seen) as_ c.1 in
      let fresh = i.1 a.authority_id (rw eq_refl) in
      (
        rw (fresh, i.0),
        λ w m. elim (Bool-cases (w == a.authority_id)) [
          | inl e ↦ cc (ap (λ x. has x seen) ((eq_iff w a.authority_id).0 e), m, f)
          | inr e ↦ rw (e, i.1 w (rw e m))
        ],
      )

  check_approvals-Approves :
      (seen : List String) (as_ : List RecoveryApproval) (a : RecoveryApproval)
      → check_approvals key_of keys p revoked r seen as_ ≡ ok tt
      → a ∈ as_
      → Approves key_of p revoked r a
  unfolding check_approvals
  check_approvals-Approves seen [] a h m = absurd m
  check_approvals-Approves seen (x ∷ as_) a h (inl q) =
      subst (Approves key_of p revoked r) (sym q)
        (check_approval-Approves seen x
          (then-ok (check_approval key_of keys p revoked r seen x)
            (check_approvals key_of keys p revoked r (x.authority_id ∷ seen) as_) h).0).1
  check_approvals-Approves seen (x ∷ as_) a h (inr m) =
      check_approvals-Approves (x.authority_id ∷ seen) as_ a
        (then-ok (check_approval key_of keys p revoked r seen x)
          (check_approvals key_of keys p revoked r (x.authority_id ∷ seen) as_) h).1
        m

-- What a verified recovery has: the pinned policy, different authorities, enough of them, and each
-- of them with an approval that counts, and the replacement key's own signature.
pub record RecoveryApproved (content_hash : Hash) (key_of : String → SignatureLibrary)
    (p : RecoveryPolicy) (expected : String) (revoked : Dict ℕ) (r : KeyRecovery) : Type 0 where
  pub bound_policy : r.recovery_policy_digest ≡ recovery_digest_of content_hash p
  pub pinned_policy : expected ≡ recovery_digest_of content_hash p
  pub different : distinct (approval_ids r.approvals) ≡ true
  pub enough : p.threshold ≤ length r.approvals
  pub approvals_count : (a : RecoveryApproval) → a ∈ r.approvals → Approves key_of p revoked r a
  pub by_replacement :
      SignedBy (key_of r.replacement_public_key) r.replacement_key_signature (recovery_fields r)

-- A verified recovery is bound to the pinned policy, and has approvals of different authorities, at
-- least as many as the threshold, each of an authority of the policy that is not revoked for the
-- recovery's generation, signed by the key that the policy pins for it, and the signature of the new key.
pub verify_recovery-RecoveryApproved :
    (content_hash : Hash) (key_of : String → SignatureLibrary) (keys : KeyTexts) (r : KeyRecovery)
    (p : RecoveryPolicy) (expected : String) (revoked : Dict ℕ)
    → verify_recovery content_hash key_of keys r p expected revoked ≡ ok tt
    → RecoveryApproved content_hash key_of p expected revoked r
unfolding verify_recovery
verify_recovery-RecoveryApproved content_hash key_of keys r p expected revoked h =
    let v =
      then-ok (raise_if (not (r.version == auditor_key_recovery_version)) unsupported_recovery)
        from_bound h in
    let b =
      then-ok
        (raise_if (not (r.recovery_policy_digest == recovery_digest_of content_hash p))
          policy_not_bound)
        from_pinned v.1 in
    let q =
      then-ok (raise_if (not (expected == recovery_digest_of content_hash p)) policy_not_pinned)
        from_replaced b.1 in
    let n =
      then-ok (raise_if (r.compromised_public_key == r.replacement_public_key) not_replaced)
        from_count q.1 in
    let c =
      then-ok (raise_if (ltb (length r.approvals) p.threshold) too_few_approvals) from_approvals
        n.1 in
    let a = then-ok (check_approvals key_of keys p revoked r [] r.approvals) from_decoded c.1 in
    let d =
      then-ok
        (raise_if (not (keys.decodes r.replacement_public_key)) (bad_public_key "replacement"))
        signed a.1 in
    record {
      bound_policy =
          (eq_iff r.recovery_policy_digest (recovery_digest_of content_hash p)).0
            (passed_check _ _ b.0);
      pinned_policy =
          (eq_iff expected (recovery_digest_of content_hash p)).0 (passed_check _ _ q.0);
      different = (check_approvals-distinct key_of keys p revoked r [] r.approvals a.0).0;
      enough =
          ground (arith, raise_if-ok (ltb (length r.approvals) p.threshold) too_few_approvals c.0);
      approvals_count =
          λ x m. check_approvals-Approves key_of keys p revoked r [] r.approvals x a.0 m;
      by_replacement =
          verify_signature-SignedBy (key_of r.replacement_public_key) r.replacement_key_signature
            (recovery_fields r) "replacement" d.1;
    }
  where
    signed : Result RecoveryError (Unit {0})
    signed =
        verify_recovery_signature (key_of r.replacement_public_key) r.replacement_key_signature
          (recovery_fields r) "replacement"

    from_decoded : Result RecoveryError (Unit {0})
    from_decoded =
        raise_if (not (keys.decodes r.replacement_public_key)) (bad_public_key "replacement")
        >> signed

    from_approvals : Result RecoveryError (Unit {0})
    from_approvals = check_approvals key_of keys p revoked r [] r.approvals >> from_decoded

    from_count : Result RecoveryError (Unit {0})
    from_count = raise_if (ltb (length r.approvals) p.threshold) too_few_approvals >> from_approvals

    from_replaced : Result RecoveryError (Unit {0})
    from_replaced =
        raise_if (r.compromised_public_key == r.replacement_public_key) not_replaced >> from_count

    from_pinned : Result RecoveryError (Unit {0})
    from_pinned =
        raise_if (not (expected == recovery_digest_of content_hash p)) policy_not_pinned
        >> from_replaced

    from_bound : Result RecoveryError (Unit {0})
    from_bound =
        raise_if (not (r.recovery_policy_digest == recovery_digest_of content_hash p))
          policy_not_bound
        >> from_pinned
