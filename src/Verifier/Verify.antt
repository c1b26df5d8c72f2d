-- ===== src/Verifier/Verify.antt =====
-- proofos/verifier.py, `verify_completion`. Going through an iterable gives its items, or the name
-- of the exception that it raised.
use Prim.Native.String.{◌++◌ as str_append}
use proofos.Prelude.{String, Bool, true, false, not, Option, none, some, List, [], ◌∷◌, map}
use proofos.Prelude.Tests.{◌==◌, if◌then◌else◌}
use proofos.Prelude.Int.{ℤ}
use proofos.Prelude.Lists.{any}
use proofos.Prelude.Results.{Result, ok, err, ◌>>=◌}
use proofos.Prelude.Text.{strip, blank}
use proofos.Prelude.Assoc.{Dict}
use proofos.Integrity.{Hash}
use proofos.Verifier.Types.{
  verified, abstained, FailureClass, no_failure, evidence_missing, evidence_tampered,
  malformed_input, verifier_failure, Evidence, Requirement, EvidenceAssessment, VerificationResult,
  RawRequirement, RawItem, requirement, name, item, intact,
}
use proofos.Verifier.Evaluate.{Outcome, evaluate}
use proofos.Verifier.Assess.{assess, failure_name}

unfoldable pub abstain :
    String → FailureClass → List String → List EvidenceAssessment → VerificationResult
abstain reason failure missing assessments = record {
  status = abstained;
  reason = reason;
  missing = missing;
  failure = failure;
  assessments = assessments;
}

-- A requirement object keeps its kind as it is; a text is stripped.
unfoldable pub as_requirement : RawRequirement → Option Requirement
unfolding blank strip
as_requirement (requirement r) = if blank r.kind then none else some r
as_requirement (name s) =
    if blank s then none else some (record { kind = strip s; max_age_seconds = none })
as_requirement RawRequirement.other = none

-- The loop over `required_kinds`: the first requirement of each kind.
unfoldable pub collect : List String → List RawRequirement → List Requirement
unfolding as_requirement any
collect seen [] = []
collect seen (raw ∷ raws) = elim (as_requirement raw) [
  | none ↦ collect seen raws
  | some r ↦ elim (any (λ k. k == r.kind) seen) [
    | true ↦ collect seen raws
    | false ↦ r ∷ collect (r.kind ∷ seen) raws
  ]
]

-- `none` if an item is no Evidence
unfoldable pub as_evidence : List RawItem → Option (List Evidence)
as_evidence [] = some []
as_evidence (item e ∷ items) = elim (as_evidence items) [ none ↦ none | some es ↦ some (e ∷ es) ]
as_evidence (RawItem.other ∷ items) = none

unfoldable pub kinds : List Requirement → List String
kinds rs = map (λ r. r.kind) rs

-- `outcomes`: the kinds are distinct, so the dict is filled in order.
unfoldable pub outcomes_of : List Requirement → List Evidence → ℤ → Dict Outcome
unfolding evaluate
outcomes_of rs items now = map (λ r. (r.kind, evaluate r items now)) rs

-- `unsatisfied` and `failures`, as one list
unfoldable pub unsatisfied : Dict Outcome → List (String × FailureClass)
unsatisfied [] = []
unsatisfied ((k, o) ∷ d) = elim o.failure [ none ↦ unsatisfied d | some f ↦ (k, f) ∷ unsatisfied d ]

-- A StrEnum is compared as its text.
unfoldable pub same_failure : FailureClass → FailureClass → Bool
unfolding failure_name
same_failure f g = failure_name f == failure_name g

-- failures[0] if len(set(failures)) == 1 else EVIDENCE_MISSING, for a first failure `f`
unfoldable pub common_failure : FailureClass → List (String × FailureClass) → FailureClass
unfolding same_failure any
common_failure f rest = if any (λ kf. not (same_failure f kf.1)) rest then evidence_missing else f

abbrev pub conclude : List (String × FailureClass) → List EvidenceAssessment → VerificationResult
conclude [] assessments = record {
  status = verified;
  reason = "All required evidence is present, valid, fresh, and independently sourced.";
  missing = [];
  failure = no_failure;
  assessments = assessments;
}
conclude ((k, f) ∷ rest) assessments =
    abstain "Required evidence is missing, stale, invalid, or self-reported."
      (common_failure f rest) (k ∷ map (λ kf. kf.0) rest) assessments

-- `_verify` once the items are known to be evidence
unfoldable pub judge : Hash → List Requirement → List Evidence → ℤ → VerificationResult
unfolding any intact abstain kinds assess outcomes_of unsatisfied common_failure
judge content_hash rs items now =
    if any (λ e. not (intact content_hash e)) items
    then abstain "An evidence record no longer matches its own content hash." evidence_tampered
        (kinds rs) (assess content_hash items [])
    else let outcomes = outcomes_of rs items now in
      conclude (unsatisfied outcomes) (assess content_hash items outcomes)

abbrev pub judge_items : Hash → List Requirement → Option (List Evidence) → ℤ → VerificationResult
judge_items content_hash rs none now =
    abstain "Evidence set contains a malformed item." malformed_input (kinds rs) []
judge_items content_hash rs (some items) now = judge content_hash rs items now

-- With no requirement the evidence is not looked at.
abbrev pub judge_requirements :
    Hash → List Requirement → Result String (List RawItem) → ℤ → Result String VerificationResult
judge_requirements content_hash [] evidence now =
    ok (abstain "No verification requirements were declared." evidence_missing [] [])
judge_requirements content_hash (r ∷ rs) evidence now =
    evidence >>= λ items. ok (judge_items content_hash (r ∷ rs) (as_evidence items) now)

-- `none`: the claim is no text
abbrev pub empty_claim : Option String → Bool
empty_claim none = true
empty_claim (some s) = blank s

-- `time.time() if now is None else now`, for a reading `clock`
unfoldable pub reference_time : Option ℤ → ℤ → ℤ
reference_time none clock = clock
reference_time (some t) clock = t

unfoldable pub verify :
    Hash
    → Option String
    → Result String (List RawItem)
    → Result String (List RawRequirement)
    → Option ℤ
    → ℤ
    → Result String VerificationResult
unfolding blank abstain collect as_evidence judge reference_time kinds
verify content_hash claim evidence required now clock =
    if empty_claim claim
    then ok (abstain "Completion claim is empty or malformed." malformed_input [] [])
    else required >>= λ raws.
        judge_requirements content_hash (collect [] raws) evidence (reference_time now clock)

-- A verifier that raises abstains.
abbrev pub fail_closed : Result String VerificationResult → VerificationResult
fail_closed (ok r) = r
fail_closed (err exc) =
    abstain (str_append "Verifier failed with an unexpected error: " (str_append exc "."))
      verifier_failure [] []

unfoldable pub verify_completion :
    Hash
    → Option String
    → Result String (List RawItem)
    → Result String (List RawRequirement)
    → Option ℤ
    → ℤ
    → VerificationResult
unfolding verify abstain
verify_completion content_hash claim evidence required now clock =
    fail_closed (verify content_hash claim evidence required now clock)
