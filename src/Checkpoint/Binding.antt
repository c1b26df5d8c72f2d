-- ===== src/Checkpoint/Binding.antt =====
-- What a verified envelope says of the checkpoint.
use proofos.Prelude.{
  ℕ, String, ◌≡◌, refl, sym, Bool, true, false, not, ◌&&◌, Option, none, some, List, arith,
}
use proofos.Prelude.Tests.{◌==◌, eq_iff, eq_refl, nat_eq, nat_eq_iff}
use proofos.Prelude.Lists.{length}
use proofos.Prelude.Int.{ℤ, ◌≤ℤ◌, leb_ℤ, leb_ℤ_iff}
use proofos.Prelude.Results.{ok, ◌>>◌, raise_if, then-ok, passed_check, ok_inj}
use proofos.Integrity.{Hash}
use proofos.Checkpoint.{
  OperationCheckpoint, SignedCheckpoint, SignatureLibrary, IsSignatureLibrary, digest_checkpoint,
  signed_fields, Stamp, finite, not_finite, signed_too_early, stamp_of, sign, sign_at,
  check_signature, check_binding, verify_checkpoint, bad_length, signature_mismatch,
  unsupported_version, envelope_of, checkpoint_signature_version,
}

-- A signature is valid base64, has 64 bytes, and the key accepts it for the envelope's fields.
abbrev pub SignatureHolds : SignatureLibrary → SignedCheckpoint → Type 0
SignatureHolds lib s =
    (bytes : List ℕ) × (lib.decode s.signature ≡ some bytes)
    × (length bytes ≡ 64)
    × (lib.verify_bytes bytes (signed_fields s) ≡ true)

check_signature-ok :
    (lib : SignatureLibrary) (s : SignedCheckpoint) (o : Option (List ℕ))
    → check_signature lib s o ≡ ok tt
    → (bytes : List ℕ) × (o ≡ some bytes)
      × (length bytes ≡ 64)
      × (lib.verify_bytes bytes (signed_fields s) ≡ true)
check_signature-ok lib s none h = cc
check_signature-ok lib s (some bytes) h =
    let c =
      then-ok (raise_if (not (nat_eq (length bytes) 64)) bad_length)
        (raise_if (not (lib.verify_bytes bytes (signed_fields s))) signature_mismatch) h in
    (bytes, refl, (nat_eq_iff (length bytes) 64).0 (passed_check _ _ c.0), passed_check _ _ c.1)

-- What the envelope and the checkpoint have in common.
pub record Binds (content_hash : Hash) (s : SignedCheckpoint) (c : OperationCheckpoint)
    : Type 0 where
  pub same_operation : s.operation_id ≡ c.operation_id
  pub same_execution : s.execution_id ≡ c.execution_id
  pub same_version : s.checkpoint_version ≡ c.checkpoint_version
  pub not_before : s.last_journal_sequence ≤ℤ c.last_journal_sequence
  pub not_after : c.last_journal_sequence ≤ℤ s.last_journal_sequence
  pub same_journal_hash : s.last_journal_hash ≡ c.last_journal_hash
  pub same_digest : s.checkpoint_digest ≡ digest_checkpoint content_hash c
  pub issued_later : c.updated_at ≤ℤ s.issued_at

both : (a b : Bool) → (a && b) ≡ true → (a ≡ true) × (b ≡ true)
both true b h = (refl, h)
both false b h = cc

check_binding-Binds :
    (content_hash : Hash) (s : SignedCheckpoint) (c : OperationCheckpoint)
    → check_binding content_hash s c ≡ ok tt
    → Binds content_hash s c
unfolding check_binding
check_binding-Binds content_hash s c h = record {
  same_operation = (eq_iff s.operation_id c.operation_id).0 (ground arith);
  same_execution = (eq_iff s.execution_id c.execution_id).0 (ground arith);
  same_version = (nat_eq_iff s.checkpoint_version c.checkpoint_version).0 (ground arith);
  not_before = (leb_ℤ_iff s.last_journal_sequence c.last_journal_sequence).0 (ground arith);
  not_after = (leb_ℤ_iff c.last_journal_sequence s.last_journal_sequence).0 (ground arith);
  same_journal_hash = (eq_iff s.last_journal_hash c.last_journal_hash).0 (ground arith);
  same_digest = (eq_iff s.checkpoint_digest (digest_checkpoint content_hash c)).0 (ground arith);
  issued_later = (leb_ℤ_iff c.updated_at s.issued_at).0 (ground arith);
}

-- A verified envelope carries a signature that the key accepts for exactly its fields, and agrees
-- with the checkpoint in its operation, execution, version, journal position and digest.
pub verify_checkpoint-Binds :
    (lib : SignatureLibrary) (content_hash : Hash) (s : SignedCheckpoint) (c : OperationCheckpoint)
    → verify_checkpoint lib content_hash s c ≡ ok tt
    → (s.version ≡ checkpoint_signature_version) × SignatureHolds lib s × Binds content_hash s c
unfolding verify_checkpoint
verify_checkpoint-Binds lib content_hash s c h =
    let a =
      then-ok (raise_if (not (s.version == checkpoint_signature_version)) unsupported_version)
        (check_signature lib s (lib.decode s.signature) >> check_binding content_hash s c) h in
    let b =
      then-ok (check_signature lib s (lib.decode s.signature)) (check_binding content_hash s c)
        a.1 in
    (
      (eq_iff s.version checkpoint_signature_version).0 (passed_check _ _ a.0),
      check_signature-ok lib s (lib.decode s.signature) b.0,
      check_binding-Binds content_hash s c b.1,
    )

module _ (lib : SignatureLibrary) (is_library : IsSignatureLibrary lib) (content_hash : Hash) where
  envelope_verifies :
      (signer_id : String) (c : OperationCheckpoint) (t : ℤ) (s : SignedCheckpoint)
      → c.updated_at ≤ℤ t
      → s
        ≡ envelope_of content_hash signer_id c t (
            lib.encode (lib.sign_bytes (signed_fields (envelope_of content_hash signer_id c t ""))))
      → verify_checkpoint lib content_hash s c ≡ ok tt
  unfolding verify_checkpoint check_binding signed_fields
  envelope_verifies signer_id c t s later e = rw (
    e,
    is_library.decode_encode (signed_fields (envelope_of content_hash signer_id c t "")),
    is_library.length_signature (signed_fields (envelope_of content_hash signer_id c t "")),
    is_library.verify_sign (signed_fields (envelope_of content_hash signer_id c t "")),
    eq_refl,
    eq_refl,
    eq_refl,
    eq_refl,
    (leb_ℤ_iff c.updated_at t).1 later,
    (nat_eq_iff c.checkpoint_version c.checkpoint_version).1 refl,
    (leb_ℤ_iff c.last_journal_sequence c.last_journal_sequence).1 (omega arith),
  )

  sign_at-verifies :
      (signer_id : String) (c : OperationCheckpoint) (stamp : Stamp) (s : SignedCheckpoint)
      → sign_at lib content_hash signer_id c stamp ≡ ok s
      → verify_checkpoint lib content_hash s c ≡ ok tt
  sign_at-verifies signer_id c not_finite s h = cc
  sign_at-verifies signer_id c (finite t) s h =
      let a =
        then-ok (raise_if (not (leb_ℤ c.updated_at t)) signed_too_early)
          (ok (
            envelope_of content_hash signer_id c t (
              lib.encode
                (lib.sign_bytes (signed_fields (envelope_of content_hash signer_id c t ""))))))
          h in
      envelope_verifies signer_id c t s ((leb_ℤ_iff c.updated_at t).0 (passed_check _ _ a.0))
        (sym (ok_inj a.1))

  -- With a signature library that keeps its promises, what `sign` signs, `verify` accepts for the
  -- same checkpoint.
  pub sign-verify_checkpoint :
      (signer_id : String) (clock : ℤ) (c : OperationCheckpoint) (issued_at : Option Stamp)
      (s : SignedCheckpoint)
      → sign lib content_hash signer_id clock c issued_at ≡ ok s
      → verify_checkpoint lib content_hash s c ≡ ok tt
  unfolding sign
  sign-verify_checkpoint signer_id clock c issued_at s h =
      sign_at-verifies signer_id c (stamp_of issued_at clock) s h
