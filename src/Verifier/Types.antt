-- ===== src/Verifier/Types.antt =====
-- proofos/verifier.py: the records and enumerations of the kernel. A time is a float, in clock ticks.
use proofos.Prelude.{ℕ, String, Bool, Option, none, some, List, [], ◌∷◌}
use proofos.Prelude.Tests.{◌==◌, if◌then◌else◌}
use proofos.Prelude.Int.{ℤ}
use proofos.Prelude.Time.{Time, tick, infinite, minus_infinite, not_a_number}
use proofos.Integrity.{Json, text, flag, number, literal, null, Fields, Hash}

pub data VerificationStatus : Type 0 where
  verified abstained : VerificationStatus

pub data EvidenceSource : Type 0 where
  observed executor model : EvidenceSource

-- TRUSTED_SOURCES
unfoldable pub trusted_source : EvidenceSource → Bool
trusted_source observed = Bool.true
trusted_source executor = Bool.false
trusted_source model = Bool.false

-- str(source)
unfoldable pub source_name : EvidenceSource → String
source_name observed = "OBSERVED"
source_name executor = "EXECUTOR"
source_name model = "MODEL"

-- NONE of FailureClass is `no_failure`.
pub data FailureClass : Type 0 where
  no_failure evidence_missing evidence_invalid evidence_untrusted evidence_stale : FailureClass
  evidence_tampered malformed_input verifier_failure : FailureClass

-- `ident` is the identity of the Python object, its `id(item)`.
pub record Evidence : Type 0 where
  pub ident : ℕ
  pub kind : String
  pub value : String
  pub source : EvidenceSource
  pub valid : Bool
  pub collected_at : Option Time
  pub collector : String
  pub content_hash : String

-- A float in JSON, which Python writes with NaN and the infinities.
abbrev pub time_json : Time → Json
time_json (tick t) = number t
time_json infinite = literal "Infinity"
time_json minus_infinite = literal "-Infinity"
time_json not_a_number = literal "NaN"

unfoldable pub optional_number : Option Time → Json
optional_number none = null
optional_number (some t) = time_json t

unfoldable pub evidence_fields : Evidence → Fields
unfolding optional_number source_name
evidence_fields e =
    ("kind", text e.kind)
    ∷ ("value", text e.value)
    ∷ ("source", text (source_name e.source))
    ∷ ("valid", flag e.valid)
    ∷ ("collected_at", optional_number e.collected_at)
    ∷ ("collector", text e.collector)
    ∷ []

unfoldable pub compute_hash : Hash → Evidence → String
unfolding evidence_fields
compute_hash content_hash e = content_hash (evidence_fields e)

unfoldable pub intact : Hash → Evidence → Bool
unfolding compute_hash
intact content_hash e = e.content_hash == compute_hash content_hash e

-- __post_init__: an item made with no digest is given its own.
unfoldable pub with_hash : Hash → Evidence → Evidence
unfolding compute_hash
with_hash content_hash e =
    if e.content_hash == "" then record e { content_hash = compute_hash content_hash e } else e

pub record Requirement : Type 0 where
  pub kind : String
  pub max_age_seconds : Option ℤ

pub record EvidenceAssessment : Type 0 where
  pub evidence_id : String
  pub kind : String
  pub source : String
  pub collector : String
  pub integrity_valid : Bool
  pub accepted_by_verifier : Bool
  pub satisfies_requirement : Bool
  pub rejection_reason : String

pub record VerificationResult : Type 0 where
  pub status : VerificationStatus
  pub reason : String
  pub missing : List String
  pub failure : FailureClass
  pub assessments : List EvidenceAssessment

-- What a caller hands over where a requirement or an evidence item is expected.
pub data RawRequirement : Type 0 where
  requirement : Requirement → RawRequirement
  name : String → RawRequirement
  other : RawRequirement

pub data RawItem : Type 0 where
  item : Evidence → RawItem
  other : RawItem
