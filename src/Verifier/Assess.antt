-- ===== src/Verifier/Assess.antt =====
-- proofos/verifier.py, `_assess`: what the decision says of each evidence item.
use Prim.Native.String.{◌++◌ as str_append}
use proofos.Prelude.{
  ℕ, String, ◌++◌, Bool, true, false, not, ◌&&◌, Option, none, some, List, [], ◌∷◌, map,
}
use proofos.Prelude.Tests.{nat_eq, if◌then◌else◌}
use proofos.Prelude.Lists.{any}
use proofos.Prelude.Text.{strip, blank}
use proofos.Prelude.Assoc.{Dict, get}
use proofos.Integrity.{Hash}
use proofos.Verifier.Types.{
  FailureClass, no_failure, evidence_missing, evidence_invalid, evidence_untrusted, evidence_stale,
  evidence_tampered, malformed_input, verifier_failure, Evidence, EvidenceAssessment, intact,
  trusted_source, source_name,
}
use proofos.Verifier.Evaluate.{Outcome, unsound}

-- str(failure)
unfoldable pub failure_name : FailureClass → String
failure_name no_failure = "NONE"
failure_name evidence_missing = "EVIDENCE_MISSING"
failure_name evidence_invalid = "EVIDENCE_INVALID"
failure_name evidence_untrusted = "EVIDENCE_UNTRUSTED"
failure_name evidence_stale = "EVIDENCE_STALE"
failure_name evidence_tampered = "EVIDENCE_TAMPERED"
failure_name malformed_input = "MALFORMED_INPUT"
failure_name verifier_failure = "VERIFIER_FAILURE"

unfoldable pub optional_failure_name : Option FailureClass → String
unfolding failure_name
optional_failure_name none = "None"
optional_failure_name (some f) = failure_name f

unfoldable pub is_stale : Option FailureClass → Bool
is_stale (some evidence_stale) = true
is_stale _ = false

unfoldable pub succeeded : Option FailureClass → Bool
succeeded none = true
succeeded (some f) = false

-- `accepted_ids`
unfoldable pub accepted_ids : Dict Outcome → List ℕ
accepted_ids [] = []
accepted_ids ((k, o) ∷ d) = map (λ e. e.ident) o.accepted ++ accepted_ids d

-- `governing_ids`
unfoldable pub governing_ids : Dict Outcome → List ℕ
unfolding succeeded
governing_ids [] = []
governing_ids ((k, o) ∷ d) =
    (if succeeded o.failure then map (λ e. e.ident) o.governing else []) ++ governing_ids d

unfoldable pub integrity_valid : Hash → Evidence → Bool
unfolding intact blank
integrity_valid content_hash e = intact content_hash e && e.valid && not (blank e.value)

-- `_rejection_reason`, past its first two returns
reason_of : Hash → Evidence → Outcome → Bool → String
unfolding intact trusted_source source_name unsound is_stale optional_failure_name
reason_of content_hash e o accepted =
    if not (intact content_hash e)
    then "The record no longer matches its own content hash."
    else if not (trusted_source e.source)
    then str_append "Provenance is " (
        str_append (source_name e.source)
          "; only OBSERVED evidence originates outside the agent under scrutiny.")
    else if unsound e
    then "Marked invalid or empty, so it cannot settle the requirement."
    else if not accepted
    then (if is_stale o.failure
        then "Outside the freshness horizon declared by the requirement."
        else str_append "Not accepted for this requirement: "
            (str_append (optional_failure_name o.failure) "."))
    else "Superseded by a more recent observation of the same kind."

abbrev reason_for : Hash → Evidence → Option Outcome → Bool → String
reason_for content_hash e none accepted = "No requirement of this kind was declared for this task."
reason_for content_hash e (some o) accepted = reason_of content_hash e o accepted

unfoldable pub rejection_reason : Hash → Evidence → Option Outcome → Bool → Bool → String
unfolding reason_of
rejection_reason content_hash e outcome accepted satisfies =
    if satisfies then "" else reason_for content_hash e outcome accepted

-- The body of the loop over the items.
unfoldable pub assess_item : Hash → Dict Outcome → Evidence → EvidenceAssessment
unfolding accepted_ids governing_ids any integrity_valid get strip rejection_reason source_name
assess_item content_hash outcomes e =
    let accepted = any (nat_eq e.ident) (accepted_ids outcomes) && integrity_valid content_hash e in
    let satisfies = any (nat_eq e.ident) (governing_ids outcomes) in
    record {
      evidence_id = e.content_hash;
      kind = e.kind;
      source = source_name e.source;
      collector = e.collector;
      integrity_valid = integrity_valid content_hash e;
      accepted_by_verifier = accepted;
      satisfies_requirement = satisfies;
      rejection_reason =
          rejection_reason content_hash e (get (strip e.kind) outcomes) accepted satisfies;
    }

unfoldable pub assess : Hash → List Evidence → Dict Outcome → List EvidenceAssessment
unfolding assess_item
assess content_hash items outcomes = map (assess_item content_hash outcomes) items
