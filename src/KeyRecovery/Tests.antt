-- ===== src/KeyRecovery/Tests.antt =====
-- Concrete runs: a rotation and a recovery by two of three authorities, and a revoked authority.
use proofos.Prelude.{ℕ, String, ◌≡◌, refl, true, none, some, List, [], ◌∷◌}
use proofos.Prelude.Tests.{◌==◌, if◌then◌else◌}
use proofos.Prelude.Lists.{length}
use proofos.Prelude.Int.{pos}
use proofos.Prelude.Assoc.{Dict}
use proofos.Prelude.Results.{Result, ok, err}
use proofos.Integrity.{Fields}
use proofos.Samples.{joined}
use proofos.Signing.{SignatureLibrary}
use proofos.Checkpoint.Tests.{toy_library}
use proofos.AuditorKeys.{
  KeyTransition, KeyPair, KeyTexts, key_transition_genesis, transition_dict, unsigned_transition,
  countersign,
}
use proofos.KeyRecovery.Policy.{
  RecoveryError, authority_revoked, too_few_approvals, duplicate_approval, RecoveryPolicy,
  KeyRecovery, new_recovery_policy, recovery_digest_of,
}
use proofos.KeyRecovery.Verify.{
  HistoryEntry, rotates, recovers, Pinned, verify_recovery, verify_key_history,
}
use proofos.KeyRecovery.Sign.{RecoveryRequest, unsigned_recovery, sign_recovery}
use proofos.KeyRecovery.Threshold.{RecoveryApproved, verify_recovery-RecoveryApproved}
use proofos.KeyRecovery.History.{KeyHistory, history_head, verify_key_history-KeyHistory}

abbrev ones : String
ones = "1111111111111111111111111111111111111111111111111111111111111111"

abbrev twos : String
twos = "2222222222222222222222222222222222222222222222222222222222222222"

abbrev pair_of : String → KeyPair
pair_of k = record { library = toy_library; public_key = k }

abbrev first : KeyTransition
first =
    countersign (pair_of "k0") (pair_of "k1")
      (unsigned_transition "auditor" 1 "k0" "k1" key_transition_genesis (pos 3))

abbrev toy_digest : Fields → String
toy_digest f = if joined f == joined (transition_dict first) then ones else twos

abbrev toy_keys : String → SignatureLibrary
toy_keys k = toy_library

abbrev toy_texts : KeyTexts
toy_texts = record { decodes = λ k. true; canonical = λ k. true }

abbrev policy_of_three : RecoveryPolicy
policy_of_three = record {
  policy_id = "recovery";
  authorities = ("a1", "p1") ∷ ("a2", "p2") ∷ ("a3", "p3") ∷ [];
  threshold = 2;
}

valid_policy : new_recovery_policy toy_texts policy_of_three ≡ ok policy_of_three
unfolding new_recovery_policy
valid_policy = refl

abbrev request : RecoveryRequest
request = record {
  auditor_id = "auditor";
  generation = 2;
  compromised_public_key = "k1";
  previous_history_digest = ones;
  incident_id = "incident";
}

abbrev recovery : KeyRecovery
recovery = record (unsigned_recovery toy_digest request (pair_of "k2") policy_of_three (pos 7)) {
  approvals =
      record { authority_id = "a1"; signature = "signature" }
      ∷ record { authority_id = "a3"; signature = "signature" }
      ∷ [];
  replacement_key_signature = "signature";
}

signs :
    sign_recovery toy_digest toy_texts
      (pos 7)
      request
      (pair_of "k2")
      policy_of_three
      (("a3", pair_of "p3") ∷ ("a1", pair_of "p1") ∷ [])
      none
    ≡ ok recovery
unfolding sign_recovery length
signs = refl

one_authority :
    sign_recovery toy_digest toy_texts
      (pos 7)
      request
      (pair_of "k2")
      policy_of_three
      (("a3", pair_of "p3") ∷ [])
      none
    ≡ err too_few_approvals
unfolding sign_recovery length
one_authority = refl

abbrev checked : KeyRecovery → Dict ℕ → Result RecoveryError (Unit {0})
checked r revoked =
    verify_recovery toy_digest toy_keys toy_texts r policy_of_three
      (recovery_digest_of toy_digest policy_of_three) revoked

verified : checked recovery (("a3", 3) ∷ []) ≡ ok tt
unfolding verify_recovery transition_dict length
verified = refl

-- An authority that is revoked from the recovery's generation on does not count.
revoked_now : checked recovery (("a3", 2) ∷ []) ≡ err (authority_revoked "a3" 2)
unfolding verify_recovery transition_dict length
revoked_now = refl

twice :
    checked
      (record recovery {
        approvals =
            record { authority_id = "a1"; signature = "signature" }
            ∷ record { authority_id = "a1"; signature = "signature" }
            ∷ [];
      })
      []
    ≡ err (duplicate_approval "a1")
unfolding verify_recovery transition_dict length
twice = refl

verify_recovery-RecoveryApproved_example :
    RecoveryApproved toy_digest toy_keys policy_of_three
      (recovery_digest_of toy_digest policy_of_three)
      (("a3", 3) ∷ [])
      recovery
verify_recovery-RecoveryApproved_example =
    verify_recovery-RecoveryApproved toy_digest toy_keys toy_texts recovery policy_of_three
      (recovery_digest_of toy_digest policy_of_three) (("a3", 3) ∷ []) verified

abbrev entries : List HistoryEntry
entries = rotates first ∷ recovers recovery ∷ []

abbrev pinned_policy : Pinned
pinned_policy = some (policy_of_three, recovery_digest_of toy_digest policy_of_three)

whole :
    verify_key_history toy_digest toy_keys toy_texts "auditor" "k0" entries 2 twos pinned_policy []
    ≡ ok "k2"
unfolding verify_key_history transition_dict length
whole = refl

verify_key_history-KeyHistory_example :
    KeyHistory toy_digest toy_keys pinned_policy [] "auditor" 1 key_transition_genesis "k0" entries
      "k2"
    × (length entries ≡ 2)
    × (history_head toy_digest toy_keys pinned_policy [] "auditor" key_transition_genesis entries
        ≡ twos)
verify_key_history-KeyHistory_example =
    verify_key_history-KeyHistory toy_digest toy_keys pinned_policy [] "auditor" toy_texts "k0"
      entries 2 twos "k2" whole
