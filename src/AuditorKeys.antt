-- ===== src/AuditorKeys.antt =====
-- proofos/auditor_key_rotation.py: transitions of an auditor's key, signed by both keys, in a chain.
-- `key_of` gives the key of a public key's text, and `keys` stands for the tests of such a text: base64
-- and the key's own parser. A generation is a natural number. The parser of transitions is not modelled.
pub mod Chain
pub mod Pinned
mod Tests
use proofos.Prelude.{
  ℕ, suc, ◌+◌, String, Bool, true, false, not, ◌&&◌, ◌||◌, Option, none, some, List, [], ◌∷◌,
}
use proofos.Prelude.Tests.{◌==◌, nat_eq, ltb, leb}
use proofos.Prelude.Lists.{length}
use proofos.Prelude.Int.{ℤ, pos}
use proofos.Prelude.Text.{blank}
use proofos.Prelude.Results.{Result, ok, err, ◌>>=◌, ◌>>◌, raise_if}
use proofos.Prelude.Hex.{is_digest}
use proofos.Integrity.{text, number, Fields, Hash}
use proofos.Signing.{SignatureLibrary, sign_fields}
use proofos.Checkpoint.{Stamp, finite, not_finite, stamp_of}

abbrev pub auditor_key_transition_version : String
auditor_key_transition_version = "proofos.auditor-key-transition.v1"

abbrev pub key_transition_genesis : String
key_transition_genesis = "0000000000000000000000000000000000000000000000000000000000000000"

pub record KeyTransition : Type 0 where
  pub version : String
  pub auditor_id : String
  pub generation : ℕ
  pub previous_public_key : String
  pub next_public_key : String
  pub previous_transition_digest : String
  pub issued_at : ℤ
  pub previous_key_signature : String
  pub next_key_signature : String

unfoldable pub transition_fields : KeyTransition → Fields
transition_fields t =
    ("version", text t.version)
    ∷ ("auditor_id", text t.auditor_id)
    ∷ ("generation", number (pos t.generation))
    ∷ ("previous_public_key", text t.previous_public_key)
    ∷ ("next_public_key", text t.next_public_key)
    ∷ ("previous_transition_digest", text t.previous_transition_digest)
    ∷ ("issued_at", number t.issued_at)
    ∷ []

-- {**signed_fields, ...}
unfoldable pub transition_dict : KeyTransition → Fields
transition_dict t =
    ("version", text t.version)
    ∷ ("auditor_id", text t.auditor_id)
    ∷ ("generation", number (pos t.generation))
    ∷ ("previous_public_key", text t.previous_public_key)
    ∷ ("next_public_key", text t.next_public_key)
    ∷ ("previous_transition_digest", text t.previous_transition_digest)
    ∷ ("issued_at", number t.issued_at)
    ∷ ("previous_key_signature", text t.previous_key_signature)
    ∷ ("next_key_signature", text t.next_key_signature)
    ∷ []

unfoldable pub transition_digest : Hash → KeyTransition → String
unfolding transition_dict
transition_digest content_hash t = content_hash (transition_dict t)

pub data TransitionError : Type 0 where
  empty_auditor generation_zero not_a_digest same_key stamp_not_finite unsupported_version :
      TransitionError
  invalid_public_key : String → TransitionError
  signature_not_base64 signature_length signature_not_canonical signature_mismatch :
      String → TransitionError
  wrong_auditor : TransitionError
  wrong_generation wrong_key wrong_digest : ℕ → TransitionError
  wrong_count head_differs : TransitionError

abbrev pub unsigned_transition : String → ℕ → String → String → String → ℤ → KeyTransition
unsigned_transition auditor_id generation previous next digest stamp = record {
  version = auditor_key_transition_version;
  auditor_id = auditor_id;
  generation = generation;
  previous_public_key = previous;
  next_public_key = next;
  previous_transition_digest = digest;
  issued_at = stamp;
  previous_key_signature = "";
  next_key_signature = "";
}

-- A private key, with the text of its public key.
pub record KeyPair : Type 0 where
  pub library : SignatureLibrary
  pub public_key : String

abbrev pub countersign : KeyPair → KeyPair → KeyTransition → KeyTransition
countersign previous next t = record t {
  previous_key_signature = sign_fields previous.library (transition_fields t);
  next_key_signature = sign_fields next.library (transition_fields t);
}

abbrev pub sign_transition_at :
    String → ℕ → KeyPair → KeyPair → String → Stamp → Result TransitionError KeyTransition
sign_transition_at auditor_id generation previous next digest not_finite = err stamp_not_finite
sign_transition_at auditor_id generation previous next digest (finite t) = ok (
    countersign previous next
      (unsigned_transition auditor_id generation previous.public_key next.public_key digest t))

-- AuditorKeyTransitionSigner.sign
unfoldable pub sign_transition :
    ℤ
    → String
    → ℕ
    → KeyPair
    → KeyPair
    → String
    → Option Stamp
    → Result TransitionError KeyTransition
unfolding blank is_digest transition_fields stamp_of
sign_transition clock auditor_id generation previous next digest issued_at = do
  raise_if (blank auditor_id) empty_auditor
  raise_if (ltb generation 1) generation_zero
  raise_if (not (is_digest digest)) not_a_digest
  raise_if (previous.public_key == next.public_key) same_key
  sign_transition_at auditor_id generation previous next digest (stamp_of issued_at clock)

abbrev pub check_key_bytes :
    SignatureLibrary
    → String
    → Fields
    → String
    → Option (List ℕ)
    → Result TransitionError (Unit {0})
check_key_bytes key signature fields label none = err (signature_not_base64 label)
check_key_bytes key signature fields label (some bytes) = do
  raise_if (not (nat_eq (length bytes) 64)) (signature_length label)
  raise_if (not (key.encode bytes == signature)) (signature_not_canonical label)
  raise_if (not (key.verify_bytes bytes fields)) (signature_mismatch label)

-- _verify_signature
abbrev pub verify_key_signature :
    SignatureLibrary → String → Fields → String → Result TransitionError (Unit {0})
verify_key_signature key signature fields label =
    check_key_bytes key signature fields label (key.decode signature)

-- Whether a public key's text decodes to a key (_decode_public_key), and whether it is canonical too
-- (_public_key).
pub record KeyTexts : Type 0 where
  pub decodes : String → Bool
  pub canonical : String → Bool

unfoldable pub verify_transition :
    (String → SignatureLibrary) → KeyTexts → KeyTransition → Result TransitionError (Unit {0})
unfolding is_digest transition_fields
verify_transition key_of keys t = do
  raise_if (not (t.version == auditor_key_transition_version)) unsupported_version
  raise_if (ltb t.generation 1) generation_zero
  raise_if (t.previous_public_key == t.next_public_key) same_key
  raise_if (not (is_digest t.previous_transition_digest)) not_a_digest
  raise_if (not (keys.decodes t.previous_public_key)) (invalid_public_key "previous")
  raise_if (not (keys.decodes t.next_public_key)) (invalid_public_key "next")
  verify_key_signature (key_of t.previous_public_key) t.previous_key_signature (transition_fields t)
      "previous"
  verify_key_signature (key_of t.next_public_key) t.next_key_signature (transition_fields t) "next"

-- The loop's variables.
pub record ChainState : Type 0 where
  pub current_key : String
  pub previous_digest : String
  pub next_generation : ℕ
  pub verified_count : ℕ

unfoldable pub follow :
    Hash
    → (String → SignatureLibrary)
    → KeyTexts
    → String
    → KeyTransition
    → ChainState
    → Result TransitionError ChainState
unfolding verify_transition transition_digest
follow content_hash key_of keys auditor_id t s = do
  verify_transition key_of keys t
  raise_if (not (t.auditor_id == auditor_id)) wrong_auditor
  raise_if (not (nat_eq t.generation s.next_generation)) (wrong_generation t.generation)
  raise_if (not (t.previous_public_key == s.current_key)) (wrong_key t.generation)
  raise_if (not (t.previous_transition_digest == s.previous_digest)) (wrong_digest t.generation)
  ok (record {
    current_key = t.next_public_key;
    previous_digest = transition_digest content_hash t;
    next_generation = s.next_generation + 1;
    verified_count = s.verified_count + 1;
  })

unfoldable pub follow_all :
    Hash
    → (String → SignatureLibrary)
    → KeyTexts
    → String
    → List KeyTransition
    → ChainState
    → Result TransitionError ChainState
unfolding follow
follow_all content_hash key_of keys auditor_id [] s = ok s
follow_all content_hash key_of keys auditor_id (t ∷ ts) s =
    follow content_hash key_of keys auditor_id t s
    >>= follow_all content_hash key_of keys auditor_id ts

abbrev pub first_state : String → ChainState
first_state key = record {
  current_key = key;
  previous_digest = key_transition_genesis;
  next_generation = 1;
  verified_count = 0;
}

abbrev pub check_head : ℕ → String → ChainState → Result TransitionError String
check_head expected_generation expected_head s = do
  raise_if (not (nat_eq s.verified_count expected_generation)) wrong_count
  raise_if (not (s.previous_digest == expected_head)) head_differs
  ok s.current_key

-- verify_transition_chain, with a generation that is a natural number
unfoldable pub verify_transition_chain :
    Hash
    → (String → SignatureLibrary)
    → KeyTexts
    → String
    → String
    → List KeyTransition
    → ℕ
    → String
    → Result TransitionError String
unfolding is_digest follow_all
verify_transition_chain content_hash key_of keys auditor_id initial ts expected_generation
      expected_head =
    do
      raise_if (not (is_digest expected_head)) not_a_digest
      raise_if (not (keys.canonical initial)) (invalid_public_key "initial")
      follow_all content_hash key_of keys auditor_id ts (first_state initial)
          >>= check_head expected_generation expected_head
