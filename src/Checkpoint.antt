-- ===== src/Checkpoint.antt =====
-- proofos/continuity.py, the checkpoint of an operation, and proofos/checkpoint_attestation.py, its
-- signed envelope. Base64 and Ed25519 are third-party code, so they are parameters.
pub mod Binding
pub mod Tests
use proofos.Prelude.{
  ℕ, String, ◌≡◌, Bool, true, false, not, ◌&&◌, Option, none, some, List, [], ◌∷◌, map,
}
use proofos.Prelude.Tests.{◌==◌, nat_eq, if◌then◌else◌}
use proofos.Prelude.Lists.{length}
use proofos.Prelude.Int.{ℤ, pos, leb_ℤ}
use proofos.Prelude.Text.{blank}
use proofos.Prelude.Assoc.{Dict}
use proofos.Prelude.Results.{Result, ok, err, ◌>>=◌, ◌>>◌, raise_if}
use proofos.Integrity.{text, number, object, texts, requirement_list, Json, Fields, Hash}
pub use proofos.Signing.{SignatureLibrary, IsSignatureLibrary}
use proofos.Verifier.Types.{Requirement}

pub data Phase : Type 0 where
  planned action_complete awaiting_independent_evidence verifying completed abstained : Phase

-- str(phase)
unfoldable pub phase_name : Phase → String
phase_name planned = "PLANNED"
phase_name action_complete = "ACTION_COMPLETE"
phase_name awaiting_independent_evidence = "AWAITING_INDEPENDENT_EVIDENCE"
phase_name verifying = "VERIFYING"
phase_name completed = "COMPLETED"
phase_name abstained = "ABSTAINED"

-- The version counts from 1; the last sequence is -1 for an empty journal.
pub record OperationCheckpoint : Type 0 where
  pub operation_id : String
  pub execution_id : String
  pub task_id : String
  pub phase : Phase
  pub assigned_agent_versions : Dict String
  pub requirements : List Requirement
  pub policy_digest : String
  pub evidence_refs : List String
  pub last_journal_sequence : ℤ
  pub last_journal_hash : String
  pub created_at : ℤ
  pub updated_at : ℤ
  pub checkpoint_version : ℕ
  pub schema : ℕ

unfoldable pub as_dict : OperationCheckpoint → Fields
unfolding phase_name
as_dict c =
    ("operation_id", text c.operation_id)
    ∷ ("execution_id", text c.execution_id)
    ∷ ("task_id", text c.task_id)
    ∷ ("phase", text (phase_name c.phase))
    ∷ ("assigned_agent_versions", object c.assigned_agent_versions)
    ∷ ("requirements", requirement_list (map (λ r. (r.kind, r.max_age_seconds)) c.requirements))
    ∷ ("policy_digest", text c.policy_digest)
    ∷ ("evidence_refs", texts c.evidence_refs)
    ∷ ("last_journal_sequence", number c.last_journal_sequence)
    ∷ ("last_journal_hash", text c.last_journal_hash)
    ∷ ("created_at", number c.created_at)
    ∷ ("updated_at", number c.updated_at)
    ∷ ("checkpoint_version", number (pos c.checkpoint_version))
    ∷ ("schema", number (pos c.schema))
    ∷ []

unfoldable pub digest_checkpoint : Hash → OperationCheckpoint → String
unfolding as_dict
digest_checkpoint content_hash c = content_hash (as_dict c)

pub record SignedCheckpoint : Type 0 where
  pub version : String
  pub signer_id : String
  pub operation_id : String
  pub execution_id : String
  pub checkpoint_version : ℕ
  pub last_journal_sequence : ℤ
  pub last_journal_hash : String
  pub checkpoint_digest : String
  pub issued_at : ℤ
  pub signature : String

abbrev pub checkpoint_signature_version : String
checkpoint_signature_version = "proofos.checkpoint.v1"

unfoldable pub signed_fields : SignedCheckpoint → Fields
signed_fields s =
    ("version", text s.version)
    ∷ ("signer_id", text s.signer_id)
    ∷ ("operation_id", text s.operation_id)
    ∷ ("execution_id", text s.execution_id)
    ∷ ("checkpoint_version", number (pos s.checkpoint_version))
    ∷ ("last_journal_sequence", number s.last_journal_sequence)
    ∷ ("last_journal_hash", text s.last_journal_hash)
    ∷ ("checkpoint_digest", text s.checkpoint_digest)
    ∷ ("issued_at", number s.issued_at)
    ∷ []

pub data CheckpointError : Type 0 where
  unsupported_version bad_encoding bad_length signature_mismatch predates_checkpoint :
      CheckpointError
  does_not_match : String → CheckpointError
  signed_too_early stamp_not_finite : CheckpointError

-- A float: finite, in ticks, or not finite
pub data Stamp : Type 0 where
  finite : ℤ → Stamp
  not_finite : Stamp

-- time.time() if given is None else float(given)
unfoldable pub stamp_of : Option Stamp → ℤ → Stamp
stamp_of none clock = finite clock
stamp_of (some s) clock = s

abbrev pub envelope_of : Hash → String → OperationCheckpoint → ℤ → String → SignedCheckpoint
envelope_of content_hash signer_id c stamp signature = record {
  version = checkpoint_signature_version;
  signer_id = signer_id;
  operation_id = c.operation_id;
  execution_id = c.execution_id;
  checkpoint_version = c.checkpoint_version;
  last_journal_sequence = c.last_journal_sequence;
  last_journal_hash = c.last_journal_hash;
  checkpoint_digest = digest_checkpoint content_hash c;
  issued_at = stamp;
  signature = signature;
}

abbrev pub sign_at :
    SignatureLibrary
    → Hash
    → String
    → OperationCheckpoint
    → Stamp
    → Result CheckpointError SignedCheckpoint
sign_at lib content_hash signer_id c not_finite = err stamp_not_finite
sign_at lib content_hash signer_id c (finite t) =
    raise_if (not (leb_ℤ c.updated_at t)) signed_too_early
    >> ok (
        envelope_of content_hash signer_id c t
          (lib.encode (lib.sign_bytes (signed_fields (envelope_of content_hash signer_id c t "")))))

-- CheckpointSigner.sign, for the signer `signer_id`
unfoldable pub sign :
    SignatureLibrary
    → Hash
    → String
    → ℤ
    → OperationCheckpoint
    → Option Stamp
    → Result CheckpointError SignedCheckpoint
unfolding stamp_of signed_fields
sign lib content_hash signer_id clock c issued_at =
    sign_at lib content_hash signer_id c (stamp_of issued_at clock)

-- The base64 text, its length, the key's answer.
abbrev pub check_signature :
    SignatureLibrary → SignedCheckpoint → Option (List ℕ) → Result CheckpointError (Unit {0})
check_signature lib s none = err bad_encoding
check_signature lib s (some bytes) = do
  raise_if (not (nat_eq (length bytes) 64)) bad_length
  raise_if (not (lib.verify_bytes bytes (signed_fields s))) signature_mismatch

-- The loop over the expected fields.
unfoldable pub check_binding :
    Hash → SignedCheckpoint → OperationCheckpoint → Result CheckpointError (Unit {0})
unfolding digest_checkpoint
check_binding content_hash s c = do
  raise_if (not (s.operation_id == c.operation_id)) (does_not_match "operation_id")
  raise_if (not (s.execution_id == c.execution_id)) (does_not_match "execution_id")
  raise_if (not (nat_eq s.checkpoint_version c.checkpoint_version))
      (does_not_match "checkpoint_version")
  raise_if
      (not (
        leb_ℤ s.last_journal_sequence c.last_journal_sequence
        && leb_ℤ c.last_journal_sequence s.last_journal_sequence))
      (does_not_match "last_journal_sequence")
  raise_if (not (s.last_journal_hash == c.last_journal_hash)) (does_not_match "last_journal_hash")
  raise_if (not (s.checkpoint_digest == digest_checkpoint content_hash c))
      (does_not_match "checkpoint_digest")
  raise_if (not (leb_ℤ c.updated_at s.issued_at)) predates_checkpoint

-- CheckpointVerifier.verify
unfoldable pub verify_checkpoint :
    SignatureLibrary
    → Hash
    → SignedCheckpoint
    → OperationCheckpoint
    → Result CheckpointError (Unit {0})
unfolding signed_fields check_binding
verify_checkpoint lib content_hash s c = do
  raise_if (not (s.version == checkpoint_signature_version)) unsupported_version
  check_signature lib s (lib.decode s.signature)
  check_binding content_hash s c
