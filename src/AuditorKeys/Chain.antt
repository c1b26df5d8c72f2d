-- ===== src/AuditorKeys/Chain.antt =====
-- What a verified chain of key transitions says: an unbroken succession, fixed by its last digest.
use proofos.Prelude.{
  ℕ, ◌+◌, String, ◌≡◌, refl, sym, ap, ◌∙◌, true, not, Option, none, some, List, [], ◌∷◌, arith,
}
use proofos.Prelude.Tests.{◌==◌, eq_iff, nat_eq, nat_eq_iff, ltb}
use proofos.Prelude.Lists.{length}
use proofos.Prelude.Hex.{is_digest}
use proofos.Prelude.Results.{
  Result, ok, ◌>>=◌, ◌>>◌, raise_if, bind-ok, then-ok, passed_check, ok_inj,
}
use proofos.Integrity.{Fields, Hash}
use proofos.Signing.{SignatureLibrary, SignedBy}
use proofos.AuditorKeys.{
  KeyTransition, transition_fields, transition_digest, TransitionError, not_a_digest, same_key,
  generation_zero, unsupported_version, invalid_public_key, wrong_auditor, wrong_generation,
  wrong_key, wrong_digest, wrong_count, head_differs, signature_length, signature_not_canonical,
  signature_mismatch, check_key_bytes, verify_key_signature, KeyTexts, verify_transition,
  auditor_key_transition_version, key_transition_genesis, ChainState, follow, follow_all,
  first_state, check_head, verify_transition_chain,
}

-- The transition is signed by the key that it leaves and by the key that it names.
pub record DualSigned (key_of : String → SignatureLibrary) (t : KeyTransition) : Type 0 where
  pub by_previous :
      SignedBy (key_of t.previous_public_key) t.previous_key_signature (transition_fields t)
  pub by_next : SignedBy (key_of t.next_public_key) t.next_key_signature (transition_fields t)

-- Each transition is the auditor's, has the next generation, leaves the key that the one before it
-- named, follows its digest, and is signed by both keys.
abbrev pub Succession :
    Hash
    → (String → SignatureLibrary)
    → String
    → ℕ
    → String
    → String
    → List KeyTransition
    → String
    → Type 0
Succession content_hash key_of auditor_id n digest key [] final = key ≡ final
Succession content_hash key_of auditor_id n digest key (t ∷ ts) final =
    (t.auditor_id ≡ auditor_id)
    × (t.generation ≡ n)
    × (t.previous_transition_digest ≡ digest)
    × (t.previous_public_key ≡ key)
    × DualSigned key_of t
    × Succession content_hash key_of auditor_id (n + 1) (transition_digest content_hash t)
        t.next_public_key ts final

-- The digest that a chain ends in.
abbrev pub last_digest : Hash → String → List KeyTransition → String
last_digest content_hash digest [] = digest
last_digest content_hash digest (t ∷ ts) =
    last_digest content_hash (transition_digest content_hash t) ts

verify_key_signature-SignedBy :
    (key : SignatureLibrary) (signature : String) (fields : Fields) (label : String)
    → verify_key_signature key signature fields label ≡ ok tt
    → SignedBy key signature fields
verify_key_signature-SignedBy key signature fields label h = by_bytes (key.decode signature) h
  where
    by_bytes :
        (o : Option (List ℕ))
        → check_key_bytes key signature fields label o ≡ ok tt
        → (bytes : List ℕ) × (o ≡ some bytes)
          × (length bytes ≡ 64)
          × (key.verify_bytes bytes fields ≡ true)
    by_bytes none g = cc
    by_bytes (some bytes) g =
        let n =
          then-ok (raise_if (not (nat_eq (length bytes) 64)) (signature_length label)) canonical
            g in
        let c =
          then-ok (raise_if (not (key.encode bytes == signature)) (signature_not_canonical label))
            (raise_if (not (key.verify_bytes bytes fields)) (signature_mismatch label)) n.1 in
        (bytes, refl, (nat_eq_iff (length bytes) 64).0 (passed_check _ _ n.0), passed_check _ _ c.1)
      where
        canonical : Result TransitionError (Unit {0})
        canonical =
            raise_if (not (key.encode bytes == signature)) (signature_not_canonical label)
            >> raise_if (not (key.verify_bytes bytes fields)) (signature_mismatch label)

module _ (content_hash : Hash) (key_of : String → SignatureLibrary) (keys : KeyTexts) where
  pub verify_transition-DualSigned :
      (t : KeyTransition) → verify_transition key_of keys t ≡ ok tt → DualSigned key_of t
  unfolding verify_transition
  verify_transition-DualSigned t h =
      let v =
        then-ok (raise_if (not (t.version == auditor_key_transition_version)) unsupported_version)
          from_generation h in
      let g = then-ok (raise_if (ltb t.generation 1) generation_zero) from_same v.1 in
      let s =
        then-ok (raise_if (t.previous_public_key == t.next_public_key) same_key) from_digest g.1 in
      let d =
        then-ok (raise_if (not (is_digest t.previous_transition_digest)) not_a_digest) from_previous
          s.1 in
      let p =
        then-ok
          (raise_if (not (keys.decodes t.previous_public_key)) (invalid_public_key "previous"))
          from_next d.1 in
      let n =
        then-ok (raise_if (not (keys.decodes t.next_public_key)) (invalid_public_key "next"))
          signatures p.1 in
      let b = then-ok previous_signature next_signature n.1 in
      record {
        by_previous =
            verify_key_signature-SignedBy (key_of t.previous_public_key) t.previous_key_signature
              (transition_fields t) "previous" b.0;
        by_next =
            verify_key_signature-SignedBy (key_of t.next_public_key) t.next_key_signature
              (transition_fields t) "next" b.1;
      }
    where
      previous_signature : Result TransitionError (Unit {0})
      previous_signature =
          verify_key_signature (key_of t.previous_public_key) t.previous_key_signature
            (transition_fields t) "previous"

      next_signature : Result TransitionError (Unit {0})
      next_signature =
          verify_key_signature (key_of t.next_public_key) t.next_key_signature (transition_fields t)
            "next"

      signatures : Result TransitionError (Unit {0})
      signatures = previous_signature >> next_signature

      from_next : Result TransitionError (Unit {0})
      from_next =
          raise_if (not (keys.decodes t.next_public_key)) (invalid_public_key "next") >> signatures

      from_previous : Result TransitionError (Unit {0})
      from_previous =
          raise_if (not (keys.decodes t.previous_public_key)) (invalid_public_key "previous")
          >> from_next

      from_digest : Result TransitionError (Unit {0})
      from_digest =
          raise_if (not (is_digest t.previous_transition_digest)) not_a_digest >> from_previous

      from_same : Result TransitionError (Unit {0})
      from_same = raise_if (t.previous_public_key == t.next_public_key) same_key >> from_digest

      from_generation : Result TransitionError (Unit {0})
      from_generation = raise_if (ltb t.generation 1) generation_zero >> from_same

  -- The state after one transition, and what it has checked.
  abbrev stepped : KeyTransition → ChainState → ChainState
  stepped t s = record {
    current_key = t.next_public_key;
    previous_digest = transition_digest content_hash t;
    next_generation = s.next_generation + 1;
    verified_count = s.verified_count + 1;
  }

  follow-ok :
      (auditor_id : String) (t : KeyTransition) (s after : ChainState)
      → follow content_hash key_of keys auditor_id t s ≡ ok after
      → (t.auditor_id ≡ auditor_id)
        × (t.generation ≡ s.next_generation)
        × (t.previous_transition_digest ≡ s.previous_digest)
        × (t.previous_public_key ≡ s.current_key)
        × DualSigned key_of t
        × (after ≡ stepped t s)
  unfolding follow
  follow-ok auditor_id t s after h =
      let v = then-ok (verify_transition key_of keys t) from_auditor h in
      let a =
        then-ok (raise_if (not (t.auditor_id == auditor_id)) wrong_auditor) from_generation v.1 in
      let g =
        then-ok
          (raise_if (not (nat_eq t.generation s.next_generation)) (wrong_generation t.generation))
          from_key a.1 in
      let k =
        then-ok (raise_if (not (t.previous_public_key == s.current_key)) (wrong_key t.generation))
          from_digest g.1 in
      let d =
        then-ok
          (raise_if (not (t.previous_transition_digest == s.previous_digest))
            (wrong_digest t.generation))
          (ok (stepped t s)) k.1 in
      (
        (eq_iff t.auditor_id auditor_id).0 (passed_check _ _ a.0),
        (nat_eq_iff t.generation s.next_generation).0 (passed_check _ _ g.0),
        (eq_iff t.previous_transition_digest s.previous_digest).0 (passed_check _ _ d.0),
        (eq_iff t.previous_public_key s.current_key).0 (passed_check _ _ k.0),
        verify_transition-DualSigned t v.0,
        sym (ok_inj d.1),
      )
    where
      from_digest : Result TransitionError ChainState
      from_digest =
          raise_if (not (t.previous_transition_digest == s.previous_digest))
            (wrong_digest t.generation)
          >> ok (stepped t s)

      from_key : Result TransitionError ChainState
      from_key =
          raise_if (not (t.previous_public_key == s.current_key)) (wrong_key t.generation)
          >> from_digest

      from_generation : Result TransitionError ChainState
      from_generation =
          raise_if (not (nat_eq t.generation s.next_generation)) (wrong_generation t.generation)
          >> from_key

      from_auditor : Result TransitionError ChainState
      from_auditor = raise_if (not (t.auditor_id == auditor_id)) wrong_auditor >> from_generation

  follow_all-Succession :
      (auditor_id : String) (ts : List KeyTransition) (s final : ChainState)
      → follow_all content_hash key_of keys auditor_id ts s ≡ ok final
      → Succession content_hash key_of auditor_id s.next_generation s.previous_digest s.current_key
          ts final.current_key
        × (final.previous_digest ≡ last_digest content_hash s.previous_digest ts)
        × (final.verified_count ≡ s.verified_count + length ts)
  unfolding follow_all
  follow_all-Succession auditor_id [] s final h =
      let e = ok_inj h in
      (
        ap (λ (x : ChainState). x.current_key) e,
        ap (λ (x : ChainState). x.previous_digest) (sym e),
        omega (arith, ap (λ (x : ChainState). x.verified_count) e),
      )
  follow_all-Succession auditor_id (t ∷ ts) s final h =
      let o =
        bind-ok (follow content_hash key_of keys auditor_id t s)
          (follow_all content_hash key_of keys auditor_id ts) h in
      let (a, g, d, k, signed, same) = follow-ok auditor_id t s o.0 o.1 in
      let r =
        follow_all-Succession auditor_id ts (stepped t s) final
          (ap (follow_all content_hash key_of keys auditor_id ts) (sym same) ∙ o.2) in
      ((a, g, d, k, signed, r.0), r.1, omega (arith, r.2))

  -- A chain that verifies is an unbroken succession from the initial key to the key that is
  -- returned, of exactly the expected number of transitions, and ends in the pinned digest.
  pub verified_chain-Succession :
      (auditor_id initial : String) (ts : List KeyTransition) (n : ℕ) (head final : String)
      → verify_transition_chain content_hash key_of keys auditor_id initial ts n head ≡ ok final
      → Succession content_hash key_of auditor_id 1 key_transition_genesis initial ts final
        × (length ts ≡ n)
        × (last_digest content_hash key_transition_genesis ts ≡ head)
  unfolding verify_transition_chain
  verified_chain-Succession auditor_id initial ts n head final h =
      let d = then-ok (raise_if (not (is_digest head)) not_a_digest) from_initial h in
      let i =
        then-ok (raise_if (not (keys.canonical initial)) (invalid_public_key "initial")) from_loop
          d.1 in
      let o =
        bind-ok (follow_all content_hash key_of keys auditor_id ts (first_state initial))
          (check_head n head) i.1 in
      let c =
        then-ok (raise_if (not (nat_eq (o.0).verified_count n)) wrong_count)
          (raise_if (not ((o.0).previous_digest == head)) head_differs >> ok (o.0).current_key)
          o.2 in
      let e =
        then-ok (raise_if (not ((o.0).previous_digest == head)) head_differs) (ok (o.0).current_key)
          c.1 in
      let r = follow_all-Succession auditor_id ts (first_state initial) o.0 o.1 in
      (
        rw (sym (ok_inj e.1)) r.0,
        omega (arith, r.2, (nat_eq_iff (o.0).verified_count n).0 (passed_check _ _ c.0)),
        sym r.1 ∙ (eq_iff (o.0).previous_digest head).0 (passed_check _ _ e.0),
      )
    where
      from_loop : Result TransitionError String
      from_loop =
          follow_all content_hash key_of keys auditor_id ts (first_state initial)
          >>= check_head n head

      from_initial : Result TransitionError String
      from_initial =
          raise_if (not (keys.canonical initial)) (invalid_public_key "initial") >> from_loop
