-- ===== src/KeyRecovery/Sign.antt =====
-- AuditorKeyRecoverySigner.sign of proofos/auditor_key_recovery.py.
use proofos.Prelude.{ℕ, String, Bool, not, ◌||◌, Option, List, [], ◌∷◌}
use proofos.Prelude.Tests.{◌==◌, ltb}
use proofos.Prelude.Lists.{length}
use proofos.Prelude.Sets.{has}
use proofos.Prelude.Sort.{leb_text, sorted_by}
use proofos.Prelude.Int.{ℤ}
use proofos.Prelude.Text.{blank}
use proofos.Prelude.Hex.{is_digest}
use proofos.Prelude.Assoc.{Dict, get}
use proofos.Prelude.Results.{Result, ok, err, ◌>>=◌, ◌>>◌, raise_if}
use proofos.Integrity.{Fields, Hash}
use proofos.Signing.{sign_fields}
use proofos.Checkpoint.{Stamp, finite, not_finite, stamp_of}
use proofos.AuditorKeys.{KeyTexts, KeyPair}
use proofos.KeyRecovery.Policy.{
  RecoveryError, recovery_generation_zero, empty_recovery_name, bad_public_key,
  history_not_a_digest, not_replaced, recovery_stamp_not_finite, authority_not_allowed,
  key_mismatch, too_few_approvals, RecoveryPolicy, authority_ids, authority_key_for,
  recovery_digest_of, RecoveryApproval, KeyRecovery, auditor_key_recovery_version, recovery_fields,
}

-- One authority's approval, if the policy names it with this key.
abbrev pub approve :
    RecoveryPolicy → Fields → String × KeyPair → Result RecoveryError RecoveryApproval
approve p payload (authority_id, key) = do
  raise_if (not (has authority_id (authority_ids p))) (authority_not_allowed authority_id)
  k ← authority_key_for authority_id p
  raise_if (not (key.public_key == k)) (key_mismatch authority_id)
  ok (record { authority_id = authority_id; signature = sign_fields key.library payload })

unfoldable pub approve_all :
    RecoveryPolicy → Fields → Dict KeyPair → Result RecoveryError (List RecoveryApproval)
unfolding has get
approve_all p payload [] = ok []
approve_all p payload (a ∷ as_) = do
  x ← approve p payload a
  xs ← approve_all p payload as_
  ok (x ∷ xs)

abbrev pub leb_authority : String × KeyPair → String × KeyPair → Bool
leb_authority (a, k) (b, l) = leb_text a b

-- What is recovered, for whom, and why.
pub record RecoveryRequest : Type 0 where
  pub auditor_id : String
  pub generation : ℕ
  pub compromised_public_key : String
  pub previous_history_digest : String
  pub incident_id : String

abbrev pub unsigned_recovery : Hash → RecoveryRequest → KeyPair → RecoveryPolicy → ℤ → KeyRecovery
unsigned_recovery content_hash q replacement p stamp = record {
  version = auditor_key_recovery_version;
  auditor_id = q.auditor_id;
  generation = q.generation;
  compromised_public_key = q.compromised_public_key;
  replacement_public_key = replacement.public_key;
  previous_history_digest = q.previous_history_digest;
  recovery_policy_digest = recovery_digest_of content_hash p;
  incident_id = q.incident_id;
  issued_at = stamp;
  approvals = [];
  replacement_key_signature = "";
}

abbrev pub approved_recovery :
    RecoveryPolicy
    → KeyPair
    → KeyRecovery
    → List RecoveryApproval
    → Result RecoveryError KeyRecovery
approved_recovery p replacement unsigned approvals = do
  raise_if (ltb (length approvals) p.threshold) too_few_approvals
  ok (record unsigned {
    approvals = approvals;
    replacement_key_signature = sign_fields replacement.library (recovery_fields unsigned);
  })

abbrev pub sign_recovery_at :
    Hash
    → RecoveryRequest
    → KeyPair
    → RecoveryPolicy
    → Dict KeyPair
    → Stamp
    → Result RecoveryError KeyRecovery
sign_recovery_at content_hash q replacement p authority_keys not_finite =
    err recovery_stamp_not_finite
sign_recovery_at content_hash q replacement p authority_keys (finite t) =
    approve_all p (recovery_fields (unsigned_recovery content_hash q replacement p t))
      (sorted_by leb_authority authority_keys)
    >>= approved_recovery p replacement (unsigned_recovery content_hash q replacement p t)

unfoldable pub sign_recovery :
    Hash
    → KeyTexts
    → ℤ
    → RecoveryRequest
    → KeyPair
    → RecoveryPolicy
    → Dict KeyPair
    → Option Stamp
    → Result RecoveryError KeyRecovery
unfolding blank is_digest stamp_of recovery_digest_of recovery_fields approve_all sorted_by
sign_recovery content_hash keys clock q replacement p authority_keys issued_at = do
  raise_if (ltb q.generation 1) recovery_generation_zero
  raise_if (blank q.auditor_id || blank q.incident_id) empty_recovery_name
  raise_if (not (keys.canonical q.compromised_public_key)) (bad_public_key "compromised")
  raise_if (not (is_digest q.previous_history_digest)) history_not_a_digest
  raise_if (replacement.public_key == q.compromised_public_key) not_replaced
  sign_recovery_at content_hash q replacement p authority_keys (stamp_of issued_at clock)
