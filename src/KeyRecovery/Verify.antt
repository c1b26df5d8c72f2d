-- ===== src/KeyRecovery/Verify.antt =====
-- verify_recovery and verify_auditor_key_history of proofos/auditor_key_recovery.py.
use proofos.Prelude.{ℕ, ◌+◌, String, Bool, false, not, Option, none, some, List, [], ◌∷◌}
use proofos.Prelude.Tests.{◌==◌, nat_eq, ltb, leb}
use proofos.Prelude.Lists.{length}
use proofos.Prelude.Sets.{has}
use proofos.Prelude.Text.{blank}
use proofos.Prelude.Hex.{is_digest}
use proofos.Prelude.Assoc.{Dict, get}
use proofos.Prelude.Results.{Result, ok, err, ◌>>=◌, ◌>>◌, raise_if}
use proofos.Integrity.{Fields, Hash}
use proofos.Signing.{SignatureLibrary}
use proofos.AuditorKeys.{
  KeyTexts, KeyTransition, TransitionError, verify_transition, transition_digest, ChainState,
  first_state,
}
use proofos.KeyRecovery.Policy.{
  RecoveryError, too_few_approvals, policy_not_bound, policy_not_pinned, no_policy, bad_public_key,
  duplicate_approval, authority_not_allowed, authority_revoked, blank_signature,
  undecodable_signature, wrong_signature_length, uncanonical_signature, wrong_signature,
  unsupported_recovery, not_replaced, history_not_a_digest, wrong_owner, unexpected_generation,
  unexpected_key, unexpected_digest, wrong_history_length, wrong_history_head, rotation_refused,
  RecoveryPolicy, authority_ids, authority_key_for, recovery_digest_of, RecoveryApproval,
  KeyRecovery, auditor_key_recovery_version, recovery_fields, recovery_digest,
}

abbrev pub check_bytes_of :
    SignatureLibrary → String → Fields → String → Option (List ℕ) → Result RecoveryError (Unit {0})
check_bytes_of key encoded fields label none = err (undecodable_signature label)
check_bytes_of key encoded fields label (some bytes) = do
  raise_if (not (nat_eq (length bytes) 64)) (wrong_signature_length label)
  raise_if (not (key.encode bytes == encoded)) (uncanonical_signature label)
  raise_if (not (key.verify_bytes bytes fields)) (wrong_signature label)

-- _verify_signature, with _canonical_signature
unfoldable pub verify_recovery_signature :
    SignatureLibrary → String → Fields → String → Result RecoveryError (Unit {0})
unfolding blank
verify_recovery_signature key encoded fields label = do
  raise_if (blank encoded) (blank_signature label)
  check_bytes_of key encoded fields label (key.decode encoded)

-- revoked_authorities: from which generation on
abbrev pub revoked_for : ℕ → Option ℕ → Bool
revoked_for generation none = false
revoked_for generation (some effective_from) = leb effective_from generation

-- One approval, behind the ids that were seen.
unfoldable pub check_approval :
    (String → SignatureLibrary)
    → KeyTexts
    → RecoveryPolicy
    → Dict ℕ
    → KeyRecovery
    → List String
    → RecoveryApproval
    → Result RecoveryError (Unit {0})
unfolding has get recovery_fields verify_recovery_signature
check_approval key_of keys p revoked r seen a = do
  raise_if (has a.authority_id seen) (duplicate_approval a.authority_id)
  raise_if (not (has a.authority_id (authority_ids p))) (authority_not_allowed a.authority_id)
  raise_if (revoked_for r.generation (get a.authority_id revoked))
      (authority_revoked a.authority_id r.generation)
  k ← authority_key_for a.authority_id p
  raise_if (not (keys.decodes k)) (bad_public_key a.authority_id)
  verify_recovery_signature (key_of k) a.signature (recovery_fields r) a.authority_id

unfoldable pub check_approvals :
    (String → SignatureLibrary)
    → KeyTexts
    → RecoveryPolicy
    → Dict ℕ
    → KeyRecovery
    → List String
    → List RecoveryApproval
    → Result RecoveryError (Unit {0})
unfolding check_approval
check_approvals key_of keys p revoked r seen [] = ok tt
check_approvals key_of keys p revoked r seen (a ∷ as_) =
    check_approval key_of keys p revoked r seen a
    >> check_approvals key_of keys p revoked r (a.authority_id ∷ seen) as_

unfoldable pub verify_recovery :
    Hash
    → (String → SignatureLibrary)
    → KeyTexts
    → KeyRecovery
    → RecoveryPolicy
    → String
    → Dict ℕ
    → Result RecoveryError (Unit {0})
unfolding recovery_digest_of check_approvals
verify_recovery content_hash key_of keys r p expected_policy_digest revoked = do
  raise_if (not (r.version == auditor_key_recovery_version)) unsupported_recovery
  raise_if (not (r.recovery_policy_digest == recovery_digest_of content_hash p)) policy_not_bound
  raise_if (not (expected_policy_digest == recovery_digest_of content_hash p)) policy_not_pinned
  raise_if (r.compromised_public_key == r.replacement_public_key) not_replaced
  raise_if (ltb (length r.approvals) p.threshold) too_few_approvals
  check_approvals key_of keys p revoked r [] r.approvals
  raise_if (not (keys.decodes r.replacement_public_key)) (bad_public_key "replacement")
  verify_recovery_signature (key_of r.replacement_public_key) r.replacement_key_signature
      (recovery_fields r) "replacement"

pub data HistoryEntry : Type 0 where
  rotates : KeyTransition → HistoryEntry
  recovers : KeyRecovery → HistoryEntry

-- What an entry says: owner, generation, the key it ends, the digest it follows, the new key, and
-- its own digest.
pub record EntryClaim : Type 0 where
  pub owner : String
  pub generation : ℕ
  pub ended_key : String
  pub followed_digest : String
  pub new_key : String
  pub own_digest : String

abbrev pub claim_of : Hash → HistoryEntry → EntryClaim
claim_of content_hash (rotates t) = record {
  owner = t.auditor_id;
  generation = t.generation;
  ended_key = t.previous_public_key;
  followed_digest = t.previous_transition_digest;
  new_key = t.next_public_key;
  own_digest = transition_digest content_hash t;
}
claim_of content_hash (recovers r) = record {
  owner = r.auditor_id;
  generation = r.generation;
  ended_key = r.compromised_public_key;
  followed_digest = r.previous_history_digest;
  new_key = r.replacement_public_key;
  own_digest = recovery_digest content_hash r;
}

abbrev pub rotation_refusal : Result TransitionError (Unit {0}) → Result RecoveryError (Unit {0})
rotation_refusal (ok u) = ok u
rotation_refusal (err e) = err (rotation_refused e)

-- The policy and its pinned digest, if both were given.
abbrev pub Pinned : Type 0
Pinned = Option (RecoveryPolicy × String)

unfoldable pub verify_entry :
    Hash
    → (String → SignatureLibrary)
    → KeyTexts
    → Pinned
    → Dict ℕ
    → HistoryEntry
    → Result RecoveryError (Unit {0})
unfolding verify_recovery verify_transition
verify_entry content_hash key_of keys pinned revoked (rotates t) =
    rotation_refusal (verify_transition key_of keys t)
verify_entry content_hash key_of keys none revoked (recovers r) = err no_policy
verify_entry content_hash key_of keys (some (p, expected)) revoked (recovers r) =
    verify_recovery content_hash key_of keys r p expected revoked

abbrev pub next_state : EntryClaim → ChainState → ChainState
next_state c s = record {
  current_key = c.new_key;
  previous_digest = c.own_digest;
  next_generation = s.next_generation + 1;
  verified_count = s.verified_count + 1;
}

abbrev pub check_claim : String → EntryClaim → ChainState → Result RecoveryError ChainState
check_claim auditor_id c s = do
  raise_if (not (c.owner == auditor_id)) wrong_owner
  raise_if (not (nat_eq c.generation s.next_generation)) (unexpected_generation c.generation)
  raise_if (not (c.ended_key == s.current_key)) (unexpected_key c.generation)
  raise_if (not (c.followed_digest == s.previous_digest)) (unexpected_digest c.generation)
  ok (next_state c s)

-- The loop over the entries.
unfoldable pub follow_history :
    Hash
    → (String → SignatureLibrary)
    → KeyTexts
    → Pinned
    → Dict ℕ
    → String
    → List HistoryEntry
    → ChainState
    → Result RecoveryError ChainState
unfolding verify_entry transition_digest recovery_digest
follow_history content_hash key_of keys pinned revoked auditor_id [] s = ok s
follow_history content_hash key_of keys pinned revoked auditor_id (e ∷ es) s =
    verify_entry content_hash key_of keys pinned revoked e
    >> (check_claim auditor_id (claim_of content_hash e) s
        >>= follow_history content_hash key_of keys pinned revoked auditor_id es)

abbrev pub check_history_head : ℕ → String → ChainState → Result RecoveryError String
check_history_head expected_generation expected_head s = do
  raise_if (not (nat_eq s.verified_count expected_generation)) wrong_history_length
  raise_if (not (s.previous_digest == expected_head)) wrong_history_head
  ok s.current_key

-- verify_auditor_key_history
unfoldable pub verify_key_history :
    Hash
    → (String → SignatureLibrary)
    → KeyTexts
    → String
    → String
    → List HistoryEntry
    → ℕ
    → String
    → Pinned
    → Dict ℕ
    → Result RecoveryError String
unfolding is_digest follow_history
verify_key_history content_hash key_of keys auditor_id initial es expected_generation expected_head
      pinned revoked =
    do
      raise_if (not (is_digest expected_head)) history_not_a_digest
      raise_if (not (keys.canonical initial)) (bad_public_key "initial")
      follow_history content_hash key_of keys pinned revoked auditor_id es (first_state initial)
          >>= check_history_head expected_generation expected_head
