-- ===== src/KeyRecovery/Policy.antt =====
-- RecoveryPolicy, the recovery statement and its errors, of proofos/auditor_key_recovery.py. `keys`
-- stands for the tests of a public key's text, and thresholds and generations are natural numbers. The
-- parsers are not modelled.
use proofos.Prelude.{
  ℕ, String, Bool, true, false, not, ◌||◌, Option, none, some, List, [], ◌∷◌, map,
}
use proofos.Prelude.Tests.{ltb}
use proofos.Prelude.Lists.{length}
use proofos.Prelude.Sets.{distinct}
use proofos.Prelude.Sort.{sorted_by}
use proofos.Prelude.Int.{ℤ, pos}
use proofos.Prelude.Text.{blank}
use proofos.Prelude.Assoc.{get}
use proofos.Prelude.Results.{Result, ok, err, ◌>>◌, raise_if}
use proofos.Integrity.{text, number, pair_list, Fields, Hash}
use proofos.Quorum.Policy.{leb_entry}
use proofos.AuditorKeys.{KeyTexts, TransitionError}

pub data RecoveryError : Type 0 where
  empty_policy_id no_authorities empty_authority_id duplicate_authorities shared_key : RecoveryError
  threshold_out_of_range too_few_approvals policy_not_bound policy_not_pinned no_policy :
      RecoveryError
  bad_public_key duplicate_approval authority_not_allowed : String → RecoveryError
  authority_revoked : String → ℕ → RecoveryError
  key_mismatch blank_signature undecodable_signature wrong_signature_length : String → RecoveryError
  uncanonical_signature wrong_signature : String → RecoveryError
  unsupported_recovery not_replaced empty_recovery_name recovery_generation_zero : RecoveryError
  history_not_a_digest recovery_stamp_not_finite : RecoveryError
  wrong_owner : RecoveryError
  unexpected_generation unexpected_key unexpected_digest : ℕ → RecoveryError
  wrong_history_length wrong_history_head : RecoveryError
  rotation_refused : TransitionError → RecoveryError

pub record RecoveryPolicy : Type 0 where
  pub policy_id : String
  pub authorities : List (String × String)
  pub threshold : ℕ

abbrev pub authority_ids : RecoveryPolicy → List String
authority_ids p = map (λ (a : String × String). a.0) p.authorities

abbrev pub authority_keys : RecoveryPolicy → List String
authority_keys p = map (λ (a : String × String). a.1) p.authorities

abbrev pub check_authority : KeyTexts → String × String → Result RecoveryError (Unit {0})
check_authority keys (authority_id, public_key) = do
  raise_if (blank authority_id) empty_authority_id
  raise_if (not (keys.canonical public_key)) (bad_public_key authority_id)

unfoldable pub check_authorities :
    KeyTexts → List (String × String) → Result RecoveryError (Unit {0})
unfolding blank
check_authorities keys [] = ok tt
check_authorities keys (a ∷ as_) = check_authority keys a >> check_authorities keys as_

abbrev pub no_authority : List (String × String) → Bool
no_authority [] = true
no_authority (a ∷ as_) = false

-- RecoveryPolicy, with __post_init__
unfoldable pub new_recovery_policy : KeyTexts → RecoveryPolicy → Result RecoveryError RecoveryPolicy
unfolding check_authorities blank distinct
new_recovery_policy keys p = do
  raise_if (blank p.policy_id) empty_policy_id
  raise_if (no_authority p.authorities) no_authorities
  check_authorities keys p.authorities
  raise_if (not (distinct (authority_ids p))) duplicate_authorities
  raise_if (not (distinct (authority_keys p))) shared_key
  raise_if (ltb p.threshold 1 || ltb (length p.authorities) p.threshold) threshold_out_of_range
  ok p

abbrev pub found_authority : String → Option String → Result RecoveryError String
found_authority authority_id none = err (authority_not_allowed authority_id)
found_authority authority_id (some k) = ok k

-- public_key_for: the first entry of this name
abbrev pub authority_key_for : String → RecoveryPolicy → Result RecoveryError String
authority_key_for authority_id p = found_authority authority_id (get authority_id p.authorities)

unfoldable pub recovery_digest_of : Hash → RecoveryPolicy → String
unfolding sorted_by
recovery_digest_of content_hash p = content_hash (
    ("policy_id", text p.policy_id)
    ∷ ("authorities", pair_list (sorted_by leb_entry p.authorities))
    ∷ ("threshold", number (pos p.threshold))
    ∷ [])

pub record RecoveryApproval : Type 0 where
  pub authority_id : String
  pub signature : String

pub record KeyRecovery : Type 0 where
  pub version : String
  pub auditor_id : String
  pub generation : ℕ
  pub compromised_public_key : String
  pub replacement_public_key : String
  pub previous_history_digest : String
  pub recovery_policy_digest : String
  pub incident_id : String
  pub issued_at : ℤ
  pub approvals : List RecoveryApproval
  pub replacement_key_signature : String

abbrev pub auditor_key_recovery_version : String
auditor_key_recovery_version = "proofos.auditor-key-recovery.v1"

unfoldable pub recovery_fields : KeyRecovery → Fields
recovery_fields r =
    ("version", text r.version)
    ∷ ("auditor_id", text r.auditor_id)
    ∷ ("generation", number (pos r.generation))
    ∷ ("compromised_public_key", text r.compromised_public_key)
    ∷ ("replacement_public_key", text r.replacement_public_key)
    ∷ ("previous_history_digest", text r.previous_history_digest)
    ∷ ("recovery_policy_digest", text r.recovery_policy_digest)
    ∷ ("incident_id", text r.incident_id)
    ∷ ("issued_at", number r.issued_at)
    ∷ []

-- to_dict, with an approval as its two texts
unfoldable pub recovery_dict : KeyRecovery → Fields
recovery_dict r =
    ("version", text r.version)
    ∷ ("auditor_id", text r.auditor_id)
    ∷ ("generation", number (pos r.generation))
    ∷ ("compromised_public_key", text r.compromised_public_key)
    ∷ ("replacement_public_key", text r.replacement_public_key)
    ∷ ("previous_history_digest", text r.previous_history_digest)
    ∷ ("recovery_policy_digest", text r.recovery_policy_digest)
    ∷ ("incident_id", text r.incident_id)
    ∷ ("issued_at", number r.issued_at)
    ∷ (
      "approvals",
      pair_list (map (λ (a : RecoveryApproval). (a.authority_id, a.signature)) r.approvals),
    )
    ∷ ("replacement_key_signature", text r.replacement_key_signature)
    ∷ []

unfoldable pub recovery_digest : Hash → KeyRecovery → String
unfolding recovery_dict
recovery_digest content_hash r = content_hash (recovery_dict r)
