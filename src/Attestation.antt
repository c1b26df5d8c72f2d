-- ===== src/Attestation.antt =====
-- proofos/attestation.py: a collector's signed statement about one observation, its strict parser and
-- its signature. Signatures are as in Checkpoint. A float may be NaN or infinite.
use proofos.Prelude.{ℕ, String, Bool, true, false, not, Option, none, some, List, [], ◌∷◌}
use proofos.Prelude.Tests.{◌==◌, nat_eq, if◌then◌else◌}
use proofos.Prelude.Lists.{length}
use proofos.Prelude.Int.{ℤ}
use proofos.Prelude.Time.{Time, tick}
use proofos.Prelude.Sets.{minus}
use proofos.Prelude.Assoc.{keys, Dict, get}
use proofos.Prelude.Results.{Result, ok, err, ◌>>=◌, ◌>>◌, raise_if}
use proofos.Integrity.{Json, null, text, number, Fields}
use proofos.Verifier.Types.{time_json}
use proofos.Checkpoint.{SignatureLibrary}

abbrev pub attestation_version : String
attestation_version = "proofos.observation.v1"

pub data Outcome : Type 0 where
  healthy unhealthy_status malformed_response redirected timeout unreachable : Outcome

unfoldable pub outcome_name : Outcome → String
outcome_name healthy = "HEALTHY"
outcome_name unhealthy_status = "UNHEALTHY_STATUS"
outcome_name malformed_response = "MALFORMED_RESPONSE"
outcome_name redirected = "REDIRECTED"
outcome_name timeout = "TIMEOUT"
outcome_name unreachable = "UNREACHABLE"

-- outcome.satisfies
unfoldable pub satisfies : Outcome → Bool
satisfies healthy = true
satisfies unhealthy_status = false
satisfies malformed_response = false
satisfies redirected = false
satisfies timeout = false
satisfies unreachable = false

pub record ObservationAttestation : Type 0 where
  pub version : String
  pub execution_id : String
  pub task_id : String
  pub kind : String
  pub collector_id : String
  pub profile_id : String
  pub request_nonce : String
  pub observed_at : Time
  pub outcome : Outcome
  pub status_code : Option ℤ
  pub response_digest : String
  pub detail : String
  pub signature : String

abbrev pub code_field : Option ℤ → Json
code_field none = null
code_field (some n) = number n

unfoldable pub attested_fields : ObservationAttestation → Fields
unfolding outcome_name
attested_fields a =
    ("version", text a.version)
    ∷ ("execution_id", text a.execution_id)
    ∷ ("task_id", text a.task_id)
    ∷ ("kind", text a.kind)
    ∷ ("collector_id", text a.collector_id)
    ∷ ("profile_id", text a.profile_id)
    ∷ ("request_nonce", text a.request_nonce)
    ∷ ("observed_at", time_json a.observed_at)
    ∷ ("outcome", text (outcome_name a.outcome))
    ∷ ("status_code", code_field a.status_code)
    ∷ ("response_digest", text a.response_digest)
    ∷ []

-- What a decoded message holds under its keys.
pub data Value : Type 0 where
  string : String → Value
  integer : ℤ → Value
  real : Time → Value
  boolean : Bool → Value
  nothing structure : Value

-- The fields of an error stand in the order of the message, where the source sorts them.
pub data AttestationError : Type 0 where
  not_an_object unknown_outcome : AttestationError
  unexpected_fields missing_fields : List String → AttestationError
  wrong_type : String → AttestationError
  bad_encoding bad_length signature_mismatch : AttestationError

-- ENVELOPE_FIELDS
abbrev pub envelope_fields : List String
envelope_fields =
    "version" ∷ "execution_id" ∷ "task_id" ∷ "kind" ∷ "collector_id" ∷ "profile_id"
    ∷ "request_nonce" ∷ "observed_at" ∷ "outcome" ∷ "status_code" ∷ "response_digest" ∷ "detail"
    ∷ "signature" ∷ []

abbrev pub raise_fields :
    List String → (List String → AttestationError) → Result AttestationError (Unit {0})
raise_fields [] e = ok tt
raise_fields (k ∷ ks) e = err (e (k ∷ ks))

abbrev pub as_string : String → Option Value → Result AttestationError String
as_string k (some (string s)) = ok s
as_string k (some (integer n)) = err (wrong_type k)
as_string k (some (real n)) = err (wrong_type k)
as_string k (some (boolean b)) = err (wrong_type k)
as_string k (some nothing) = err (wrong_type k)
as_string k (some structure) = err (wrong_type k)
as_string k none = err (missing_fields (k ∷ []))

abbrev pub as_float : String → Option Value → Result AttestationError Time
as_float k (some (string s)) = err (wrong_type k)
as_float k (some (integer n)) = ok (tick n)
as_float k (some (real t)) = ok t
as_float k (some (boolean b)) = err (wrong_type k)
as_float k (some nothing) = err (wrong_type k)
as_float k (some structure) = err (wrong_type k)
as_float k none = err (missing_fields (k ∷ []))

-- None if status is None else _as_int(status)
abbrev pub as_code : String → Option Value → Result AttestationError (Option ℤ)
as_code k (some (string s)) = err (wrong_type k)
as_code k (some (integer n)) = ok (some n)
as_code k (some (real n)) = err (wrong_type k)
as_code k (some (boolean b)) = err (wrong_type k)
as_code k (some nothing) = ok none
as_code k (some structure) = err (wrong_type k)
as_code k none = err (missing_fields (k ∷ []))

-- Outcome(name)
unfoldable pub outcome_of : String → Result AttestationError Outcome
outcome_of s =
    if s == "HEALTHY"
    then ok healthy
    else if s == "UNHEALTHY_STATUS"
    then ok unhealthy_status
    else if s == "MALFORMED_RESPONSE"
    then ok malformed_response
    else if s == "REDIRECTED"
    then ok redirected
    else if s == "TIMEOUT"
    then ok timeout
    else if s == "UNREACHABLE"
    then ok unreachable
    else err unknown_outcome

abbrev pub as_outcome : Option Value → Result AttestationError Outcome
as_outcome (some (string s)) = outcome_of s
as_outcome (some (integer n)) = err unknown_outcome
as_outcome (some (real n)) = err unknown_outcome
as_outcome (some (boolean b)) = err unknown_outcome
as_outcome (some nothing) = err unknown_outcome
as_outcome (some structure) = err unknown_outcome
as_outcome none = err (missing_fields ("outcome" ∷ []))

-- The constructor call, its arguments in order.
abbrev pub parse_fields : Dict Value → Result AttestationError ObservationAttestation
parse_fields d = do
  version ← as_string "version" (get "version" d)
  execution_id ← as_string "execution_id" (get "execution_id" d)
  task_id ← as_string "task_id" (get "task_id" d)
  kind ← as_string "kind" (get "kind" d)
  collector_id ← as_string "collector_id" (get "collector_id" d)
  profile_id ← as_string "profile_id" (get "profile_id" d)
  request_nonce ← as_string "request_nonce" (get "request_nonce" d)
  observed_at ← as_float "observed_at" (get "observed_at" d)
  outcome ← as_outcome (get "outcome" d)
  status_code ← as_code "status_code" (get "status_code" d)
  response_digest ← as_string "response_digest" (get "response_digest" d)
  detail ← as_string "detail" (get "detail" d)
  signature ← as_string "signature" (get "signature" d)
  ok (record {
    version = version;
    execution_id = execution_id;
    task_id = task_id;
    kind = kind;
    collector_id = collector_id;
    profile_id = profile_id;
    request_nonce = request_nonce;
    observed_at = observed_at;
    outcome = outcome;
    status_code = status_code;
    response_digest = response_digest;
    detail = detail;
    signature = signature;
  })

-- from_dict: `none` is a value that is no mapping.
unfoldable pub from_dict : Option (Dict Value) → Result AttestationError ObservationAttestation
unfolding minus get outcome_of
from_dict none = err not_an_object
from_dict (some d) = do
  raise_fields (minus (keys d) envelope_fields) unexpected_fields
  raise_fields (minus envelope_fields (keys d)) missing_fields
  parse_fields d

abbrev pub check_bytes :
    SignatureLibrary → ObservationAttestation → Option (List ℕ) → Result AttestationError (Unit {0})
check_bytes lib a none = err bad_encoding
check_bytes lib a (some bytes) = do
  raise_if (not (nat_eq (length bytes) 64)) bad_length
  raise_if (not (lib.verify_bytes bytes (attested_fields a))) signature_mismatch

-- AttestationVerifier.verify
unfoldable pub verify_attestation :
    SignatureLibrary → ObservationAttestation → Result AttestationError (Unit {0})
unfolding attested_fields
verify_attestation lib a = check_bytes lib a (lib.decode a.signature)
