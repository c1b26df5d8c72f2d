-- ===== src/Checkpoint/Tests.antt =====
-- Concrete runs.
use proofos.Prelude.{ℕ, ◌≡◌, refl, none, some, List, [], ◌∷◌}
use proofos.Prelude.Tests.{◌==◌, nat_eq, if◌then◌else◌}
use proofos.Prelude.Lists.{length}
use proofos.Prelude.Int.{pos, negsuc}
use proofos.Prelude.Results.{ok, err}
use proofos.Samples.{joined}
use proofos.Checkpoint.{
  planned, OperationCheckpoint, SignedCheckpoint, SignatureLibrary, IsSignatureLibrary, finite,
  envelope_of, sign, verify_checkpoint, does_not_match, bad_encoding, signed_too_early,
  checkpoint_signature_version,
}
use proofos.Checkpoint.Binding.{
  SignatureHolds, Binds, verify_checkpoint-Binds, sign-verify_checkpoint,
}

abbrev sixty_four_bytes : List ℕ
sixty_four_bytes =
    0 ∷ 0 ∷ 0 ∷ 0 ∷ 0 ∷ 0 ∷ 0 ∷ 0 ∷ 0 ∷ 0 ∷ 0 ∷ 0 ∷ 0 ∷ 0 ∷ 0 ∷ 0 ∷ 0 ∷ 0 ∷ 0 ∷ 0 ∷ 0 ∷ 0 ∷ 0 ∷ 0
    ∷ 0 ∷ 0 ∷ 0 ∷ 0 ∷ 0 ∷ 0 ∷ 0 ∷ 0 ∷ 0 ∷ 0 ∷ 0 ∷ 0 ∷ 0 ∷ 0 ∷ 0 ∷ 0 ∷ 0 ∷ 0 ∷ 0 ∷ 0 ∷ 0 ∷ 0 ∷ 0 ∷ 0
    ∷ 0 ∷ 0 ∷ 0 ∷ 0 ∷ 0 ∷ 0 ∷ 0 ∷ 0 ∷ 0 ∷ 0 ∷ 0 ∷ 0 ∷ 0 ∷ 0 ∷ 0 ∷ 0 ∷ []

-- One signature, for everything.
abbrev pub toy_library : SignatureLibrary
toy_library = record {
  decode =
      λ s. if s == "signature" then some sixty_four_bytes else (if s == "" then some [] else none);
  encode = λ b. "signature";
  sign_bytes = λ f. sixty_four_bytes;
  verify_bytes = λ b f. nat_eq (length b) 64;
}

pub toy_library-IsSignatureLibrary : IsSignatureLibrary toy_library
unfolding length
toy_library-IsSignatureLibrary = record {
  decode_encode = λ f. refl;
  length_signature = λ f. refl;
  verify_sign = λ f. refl;
}

abbrev pub checkpoint_at : ℕ → OperationCheckpoint
checkpoint_at n = record {
  operation_id = "op";
  execution_id = "exec";
  task_id = "task";
  phase = planned;
  assigned_agent_versions = ("agent", "v1") ∷ [];
  requirements = [];
  policy_digest = "policy";
  evidence_refs = [];
  last_journal_sequence = negsuc 0;
  last_journal_hash = "";
  created_at = pos 5;
  updated_at = pos 5;
  checkpoint_version = n;
  schema = 1;
}

abbrev pub envelope_at : ℕ → SignedCheckpoint
envelope_at n = envelope_of joined "signer" (checkpoint_at n) (pos 7) "signature"

signs : sign toy_library joined "signer" (pos 7) (checkpoint_at 1) none ≡ ok (envelope_at 1)
unfolding sign
signs = refl

too_early :
    sign toy_library joined "signer" (pos 7) (checkpoint_at 1) (some (finite (pos 4)))
    ≡ err signed_too_early
unfolding sign
too_early = refl

accepts : verify_checkpoint toy_library joined (envelope_at 1) (checkpoint_at 1) ≡ ok tt
unfolding verify_checkpoint length
accepts = refl

another_version :
    verify_checkpoint toy_library joined (envelope_at 1) (checkpoint_at 2)
    ≡ err (does_not_match "checkpoint_version")
unfolding verify_checkpoint length
another_version = refl

not_base64 :
    verify_checkpoint toy_library joined
      (record (envelope_at 1) { signature = "?" })
      (checkpoint_at 1)
    ≡ err bad_encoding
unfolding verify_checkpoint length
not_base64 = refl

verify_checkpoint-Binds_example :
    ((envelope_at 1).version ≡ checkpoint_signature_version)
    × SignatureHolds toy_library (envelope_at 1)
    × Binds joined (envelope_at 1) (checkpoint_at 1)
verify_checkpoint-Binds_example =
    verify_checkpoint-Binds toy_library joined (envelope_at 1) (checkpoint_at 1) accepts

sign-verify_checkpoint_example :
    verify_checkpoint toy_library joined (envelope_at 1) (checkpoint_at 1) ≡ ok tt
sign-verify_checkpoint_example =
    sign-verify_checkpoint toy_library toy_library-IsSignatureLibrary joined "signer" (pos 7)
      (checkpoint_at 1) none (envelope_at 1) signs
