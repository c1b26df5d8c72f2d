-- ===== src/KeyRecovery/History.antt =====
-- What a verified key history says: who authorised each change of the auditor's key.
use proofos.Prelude.{ℕ, ◌+◌, String, ◌≡◌, refl, sym, ap, ◌∙◌, not, none, some, List, [], ◌∷◌, arith}
use proofos.Prelude.Tests.{◌==◌, eq_iff, nat_eq, nat_eq_iff}
use proofos.Prelude.Lists.{length}
use proofos.Prelude.Hex.{is_digest}
use proofos.Prelude.Assoc.{Dict}
use proofos.Prelude.Results.{
  Result, ok, err, ◌>>=◌, ◌>>◌, raise_if, bind-ok, then-ok, passed_check, ok_inj,
}
use proofos.Integrity.{Hash}
use proofos.Signing.{SignatureLibrary}
use proofos.AuditorKeys.{
  KeyTexts, TransitionError, verify_transition, key_transition_genesis, ChainState, first_state,
}
use proofos.AuditorKeys.Chain.{DualSigned, verify_transition-DualSigned}
use proofos.KeyRecovery.Policy.{
  RecoveryError, bad_public_key, wrong_owner, unexpected_generation, unexpected_key,
  unexpected_digest, wrong_history_length, wrong_history_head, history_not_a_digest, RecoveryPolicy,
}
use proofos.KeyRecovery.Verify.{
  HistoryEntry, rotates, recovers, EntryClaim, claim_of, rotation_refusal, Pinned, verify_entry,
  next_state, check_claim, follow_history, check_history_head, verify_key_history,
}
use proofos.KeyRecovery.Threshold.{RecoveryApproved, verify_recovery-RecoveryApproved}

rotation_refusal-ok :
    (m : Result TransitionError (Unit {0})) → rotation_refusal m ≡ ok tt → m ≡ ok tt
rotation_refusal-ok (ok tt) h = refl
rotation_refusal-ok (err e) h = cc

-- A rotation is signed by the key that it ends and by the new one; a recovery is approved under the
-- pinned policy.
abbrev pub Authorised : Hash → (String → SignatureLibrary) → Pinned → Dict ℕ → HistoryEntry → Type 0
Authorised content_hash key_of pinned revoked (rotates t) = DualSigned key_of t
Authorised content_hash key_of pinned revoked (recovers r) =
    (p : RecoveryPolicy) × (expected : String) × (pinned ≡ some (p, expected))
    × RecoveryApproved content_hash key_of p expected revoked r

module _ (content_hash : Hash) (key_of : String → SignatureLibrary) (pinned : Pinned)
    (revoked : Dict ℕ) (auditor_id : String) where
  -- From one key to another: each entry is the auditor's, has the next generation, ends the key in
  -- force, follows the digest of the entry before it, and is authorised.
  abbrev pub KeyHistory : ℕ → String → String → List HistoryEntry → String → Type 0
  KeyHistory n digest key [] final = key ≡ final
  KeyHistory n digest key (e ∷ es) final =
      ((claim_of content_hash e).owner ≡ auditor_id)
      × ((claim_of content_hash e).generation ≡ n)
      × ((claim_of content_hash e).followed_digest ≡ digest)
      × ((claim_of content_hash e).ended_key ≡ key)
      × Authorised content_hash key_of pinned revoked e
      × KeyHistory (n + 1) (claim_of content_hash e).own_digest (claim_of content_hash e).new_key es
          final

  abbrev pub history_head : String → List HistoryEntry → String
  history_head digest [] = digest
  history_head digest (e ∷ es) = history_head (claim_of content_hash e).own_digest es

  module _ (keys : KeyTexts) where
    verify_entry-Authorised :
        (e : HistoryEntry)
        → verify_entry content_hash key_of keys pinned revoked e ≡ ok tt
        → Authorised content_hash key_of pinned revoked e
    unfolding verify_entry
    verify_entry-Authorised (rotates t) h =
        verify_transition-DualSigned content_hash key_of keys t
          (rotation_refusal-ok (verify_transition key_of keys t) h)
    verify_entry-Authorised (recovers r) h = by_policy pinned refl h
      where
        by_policy :
            (o : Pinned)
            → pinned ≡ o
            → verify_entry content_hash key_of keys o revoked (recovers r) ≡ ok tt
            → Authorised content_hash key_of pinned revoked (recovers r)
        by_policy none q g = cc
        by_policy (some (p, expected)) q g = (
          p,
          expected,
          q,
          verify_recovery-RecoveryApproved content_hash key_of keys r p expected revoked g,
        )

    check_claim-ok :
        (c : EntryClaim) (s after : ChainState)
        → check_claim auditor_id c s ≡ ok after
        → (c.owner ≡ auditor_id)
          × (c.generation ≡ s.next_generation)
          × (c.followed_digest ≡ s.previous_digest)
          × (c.ended_key ≡ s.current_key)
          × (after ≡ next_state c s)
    check_claim-ok c s after h =
        let a = then-ok (raise_if (not (c.owner == auditor_id)) wrong_owner) from_generation h in
        let g =
          then-ok
            (raise_if (not (nat_eq c.generation s.next_generation))
              (unexpected_generation c.generation))
            from_key a.1 in
        let k =
          then-ok (raise_if (not (c.ended_key == s.current_key)) (unexpected_key c.generation))
            from_digest g.1 in
        let d =
          then-ok
            (raise_if (not (c.followed_digest == s.previous_digest))
              (unexpected_digest c.generation))
            (ok (next_state c s)) k.1 in
        (
          (eq_iff c.owner auditor_id).0 (passed_check _ _ a.0),
          (nat_eq_iff c.generation s.next_generation).0 (passed_check _ _ g.0),
          (eq_iff c.followed_digest s.previous_digest).0 (passed_check _ _ d.0),
          (eq_iff c.ended_key s.current_key).0 (passed_check _ _ k.0),
          sym (ok_inj d.1),
        )
      where
        from_digest : Result RecoveryError ChainState
        from_digest =
            raise_if (not (c.followed_digest == s.previous_digest)) (unexpected_digest c.generation)
            >> ok (next_state c s)

        from_key : Result RecoveryError ChainState
        from_key =
            raise_if (not (c.ended_key == s.current_key)) (unexpected_key c.generation)
            >> from_digest

        from_generation : Result RecoveryError ChainState
        from_generation =
            raise_if (not (nat_eq c.generation s.next_generation))
              (unexpected_generation c.generation)
            >> from_key

    follow_history-KeyHistory :
        (es : List HistoryEntry) (s final : ChainState)
        → follow_history content_hash key_of keys pinned revoked auditor_id es s ≡ ok final
        → KeyHistory s.next_generation s.previous_digest s.current_key es final.current_key
          × (final.previous_digest ≡ history_head s.previous_digest es)
          × (final.verified_count ≡ s.verified_count + length es)
    unfolding follow_history
    follow_history-KeyHistory [] s final h =
        let e = ok_inj h in
        (
          ap (λ (x : ChainState). x.current_key) e,
          ap (λ (x : ChainState). x.previous_digest) (sym e),
          omega (arith, ap (λ (x : ChainState). x.verified_count) e),
        )
    follow_history-KeyHistory (e ∷ es) s final h =
        let v =
          then-ok (verify_entry content_hash key_of keys pinned revoked e)
            (check_claim auditor_id (claim_of content_hash e) s
              >>= follow_history content_hash key_of keys pinned revoked auditor_id es)
            h in
        let o =
          bind-ok (check_claim auditor_id (claim_of content_hash e) s)
            (follow_history content_hash key_of keys pinned revoked auditor_id es) v.1 in
        let (a, g, d, k, same) = check_claim-ok (claim_of content_hash e) s o.0 o.1 in
        let r = follow_history-KeyHistory es (next_state (claim_of content_hash e) s) final (
          ap (follow_history content_hash key_of keys pinned revoked auditor_id es) (sym same)
          ∙ o.2) in
        ((a, g, d, k, verify_entry-Authorised e v.0, r.0), r.1, omega (arith, r.2))

    -- A key history that verifies leads from the initial key to the returned one by exactly the
    -- expected number of entries, each authorised by the key that it ends or, under the pinned policy, by
    -- enough authorities that are not revoked, and ends in the pinned digest.
    pub verify_key_history-KeyHistory :
        (initial : String) (es : List HistoryEntry) (n : ℕ) (head final : String)
        → verify_key_history content_hash key_of keys auditor_id initial es n head pinned revoked
          ≡ ok final
        → KeyHistory 1 key_transition_genesis initial es final
          × (length es ≡ n)
          × (history_head key_transition_genesis es ≡ head)
    unfolding verify_key_history
    verify_key_history-KeyHistory initial es n head final h =
        let d = then-ok (raise_if (not (is_digest head)) history_not_a_digest) from_initial h in
        let i =
          then-ok (raise_if (not (keys.canonical initial)) (bad_public_key "initial")) from_loop
            d.1 in
        let o =
          bind-ok
            (follow_history content_hash key_of keys pinned revoked auditor_id es
              (first_state initial))
            (check_history_head n head) i.1 in
        let c =
          then-ok (raise_if (not (nat_eq (o.0).verified_count n)) wrong_history_length)
            (raise_if (not ((o.0).previous_digest == head)) wrong_history_head
              >> ok (o.0).current_key)
            o.2 in
        let e =
          then-ok (raise_if (not ((o.0).previous_digest == head)) wrong_history_head)
            (ok (o.0).current_key) c.1 in
        let r = follow_history-KeyHistory es (first_state initial) o.0 o.1 in
        (
          rw (sym (ok_inj e.1)) r.0,
          omega (arith, r.2, (nat_eq_iff (o.0).verified_count n).0 (passed_check _ _ c.0)),
          sym r.1 ∙ (eq_iff (o.0).previous_digest head).0 (passed_check _ _ e.0),
        )
      where
        from_loop : Result RecoveryError String
        from_loop =
            follow_history content_hash key_of keys pinned revoked auditor_id es
              (first_state initial)
            >>= check_history_head n head

        from_initial : Result RecoveryError String
        from_initial =
            raise_if (not (keys.canonical initial)) (bad_public_key "initial") >> from_loop
