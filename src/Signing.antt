-- ===== src/Signing.antt =====
-- Signatures: base64 and Ed25519 are third-party code, so they are parameters, and each module of
-- the source that checks a signature does it in these steps.
use proofos.Prelude.{ℕ, String, ◌≡◌, refl, Bool, true, not, Option, none, some, List}
use proofos.Prelude.Tests.{nat_eq, nat_eq_iff}
use proofos.Prelude.Lists.{length}
use proofos.Prelude.Results.{Result, ok, err, ◌>>◌, raise_if, then-ok, passed_check}
use proofos.Integrity.{Fields}

-- base64.b64decode and b64encode, and the private and public halves of one Ed25519 key. Bytes are
-- lists of numbers; what is signed is given by its fields.
pub record SignatureLibrary : Type 0 where
  pub decode : String → Option (List ℕ)
  pub encode : List ℕ → String
  pub sign_bytes : Fields → List ℕ
  pub verify_bytes : List ℕ → Fields → Bool

-- What their documentation says: decoding undoes the encoding of a signature, a signature has 64 bytes, and the public
-- key accepts what the private key signed.
pub record IsSignatureLibrary (lib : SignatureLibrary) : Type 0 where
  pub decode_encode :
      (f : Fields) → lib.decode (lib.encode (lib.sign_bytes f)) ≡ some (lib.sign_bytes f)
  pub length_signature : (f : Fields) → length (lib.sign_bytes f) ≡ 64
  pub verify_sign : (f : Fields) → lib.verify_bytes (lib.sign_bytes f) f ≡ true

pub data SignatureFault : Type 0 where
  not_base64 not_64_bytes not_accepted : SignatureFault

abbrev pub check_decoded :
    SignatureLibrary → Fields → Option (List ℕ) → Result SignatureFault (Unit {0})
check_decoded lib fields none = err not_base64
check_decoded lib fields (some bytes) = do
  raise_if (not (nat_eq (length bytes) 64)) not_64_bytes
  raise_if (not (lib.verify_bytes bytes fields)) not_accepted

-- The base64 text of a signature, its length, and the key's answer on the signed fields.
unfoldable pub check_signed : SignatureLibrary → String → Fields → Result SignatureFault (Unit {0})
check_signed lib signature fields = check_decoded lib fields (lib.decode signature)

-- base64.b64encode(key.sign(fields))
abbrev pub sign_fields : SignatureLibrary → Fields → String
sign_fields lib fields = lib.encode (lib.sign_bytes fields)

-- The key accepts the text as a signature of exactly these fields.
abbrev pub SignedBy : SignatureLibrary → String → Fields → Type 0
SignedBy lib signature fields =
    (bytes : List ℕ) × (lib.decode signature ≡ some bytes)
    × (length bytes ≡ 64)
    × (lib.verify_bytes bytes fields ≡ true)

check_decoded-ok :
    (lib : SignatureLibrary) (fields : Fields) (o : Option (List ℕ))
    → check_decoded lib fields o ≡ ok tt
    → (bytes : List ℕ) × (o ≡ some bytes)
      × (length bytes ≡ 64)
      × (lib.verify_bytes bytes fields ≡ true)
check_decoded-ok lib fields none h = cc
check_decoded-ok lib fields (some bytes) h =
    let c =
      then-ok (raise_if (not (nat_eq (length bytes) 64)) not_64_bytes)
        (raise_if (not (lib.verify_bytes bytes fields)) not_accepted) h in
    (bytes, refl, (nat_eq_iff (length bytes) 64).0 (passed_check _ _ c.0), passed_check _ _ c.1)

pub check_signed-SignedBy :
    (lib : SignatureLibrary) (signature : String) (fields : Fields)
    → check_signed lib signature fields ≡ ok tt
    → SignedBy lib signature fields
unfolding check_signed
check_signed-SignedBy lib signature fields h = check_decoded-ok lib fields (lib.decode signature) h

-- What the private key signs, the public key accepts.
pub check_signed-sign_fields :
    (lib : SignatureLibrary) (fields : Fields)
    → IsSignatureLibrary lib
    → check_signed lib (sign_fields lib fields) fields ≡ ok tt
unfolding check_signed
check_signed-sign_fields lib fields is_library = rw (
  is_library.decode_encode fields,
  is_library.length_signature fields,
  is_library.verify_sign fields,
)
