-- ===== src/Verifier/Reports.antt =====
-- What the result says beside its status: the failure class and the missing kinds.
use proofos.Prelude.{
  String, ◌≡◌, ◌≢◌, refl, sym, ap, ◌∙◌, ◌↔◌, inl, inr, not, Option, none, some, List, [], ◌∷◌,
  arith,
}
use proofos.Prelude.Tests.{Bool-cases, Option-cases}
use proofos.Prelude.Int.{ℤ}
use proofos.Prelude.Lists.{◌∈◌, any}
use proofos.Prelude.Results.{Result, ok, err}
use proofos.Integrity.{Hash}
use proofos.Verifier.Types.{
  verified, FailureClass, no_failure, evidence_missing, evidence_untrusted, Evidence, Requirement,
  EvidenceAssessment, VerificationResult, RawRequirement, RawItem, intact,
}
use proofos.Verifier.Evaluate.{govern, govern_fresh, when_any, evaluate}
use proofos.Verifier.Verify.{
  abstain, collect, as_evidence, outcomes_of, unsatisfied, common_failure, conclude, judge,
  judge_items, judge_requirements, empty_claim, reference_time, verify, fail_closed,
  verify_completion,
}
use proofos.Verifier.Settled.{Settled}
use proofos.Verifier.Decides.{pool}

-- A status and a failure class that agree.
abbrev pub Agrees : VerificationResult → Type 0
Agrees v = (v.status ≡ verified) ↔ (v.failure ≡ no_failure)

govern-failure : (x : Evidence) (xs : List Evidence) → (govern x xs).failure ≢ some no_failure
unfolding govern
govern-failure x xs h = ground arith

chain-failure :
    (m t f : List Evidence)
    → (when_any m evidence_missing (when_any t evidence_untrusted (govern_fresh f))).failure
      ≢ some no_failure
chain-failure [] t f h = cc
chain-failure (a ∷ m) [] f h = cc
chain-failure (a ∷ m) (b ∷ t) [] h = cc
chain-failure (a ∷ m) (b ∷ t) (x ∷ xs) h = govern-failure x xs h

evaluate-failure :
    (r : Requirement) (items : List Evidence) (now : ℤ)
    → (evaluate r items now).failure ≢ some no_failure
unfolding evaluate
evaluate-failure r items now h = chain-failure _ _ (pool r items now) h

-- Where an entry of the unsatisfied list comes from.
abbrev Comes : List Requirement → List Evidence → ℤ → String × FailureClass → Type 0
Comes rs items now x =
    (r : Requirement) × (r ∈ rs) × (r.kind ≡ x.0) × ((evaluate r items now).failure ≡ some x.1)

Comes-cons :
    (q : Requirement) (rs : List Requirement) (items : List Evidence) (now : ℤ)
    (x : String × FailureClass)
    → Comes rs items now x
    → Comes (q ∷ rs) items now x
Comes-cons q rs items now x (r, m, k, e) = (r, inr m, k, e)

Comes-head :
    (q : Requirement) (rs : List Requirement) (items : List Evidence) (now : ℤ)
    (u : List (String × FailureClass)) (f : FailureClass) (x : String × FailureClass)
    → (evaluate q items now).failure ≡ some f
    → (x ∈ u → Comes rs items now x)
    → x ∈ ((q.kind, f) ∷ u)
    → Comes (q ∷ rs) items now x
Comes-head q rs items now u f x e h (inl p) =
    (q, inl refl, ap (λ t. t.0) (sym p), e ∙ ap (λ t. some t.1) (sym p))
Comes-head q rs items now u f x e h (inr m) = Comes-cons q rs items now x (h m)

mem-unsatisfied :
    (rs : List Requirement) (items : List Evidence) (now : ℤ) (x : String × FailureClass)
    → x ∈ unsatisfied (outcomes_of rs items now)
    → Comes rs items now x
unfolding outcomes_of unsatisfied
mem-unsatisfied [] items now x m = absurd m
mem-unsatisfied (q ∷ rs) items now x m = elim (Option-cases (evaluate q items now).failure) [
  | inl e ↦ Comes-cons q rs items now x (mem-unsatisfied rs items now x (rw (e, unsatisfied) at m))
  | inr (f, e) ↦
      Comes-head q rs items now (unsatisfied (outcomes_of rs items now)) f x e
        (mem-unsatisfied rs items now x) (rw (e, unsatisfied) at m)
]

common-failure :
    (f : FailureClass) (u : List (String × FailureClass))
    → f ≢ no_failure
    → common_failure f u ≢ no_failure
unfolding common_failure
common-failure f u h e = ground (arith, h)

conclude-Agrees :
    (u : List (String × FailureClass)) (a : List EvidenceAssessment)
    → ((x : String × FailureClass) → x ∈ u → x.1 ≢ no_failure)
    → Agrees (conclude u a)
unfolding abstain
conclude-Agrees [] a h = (λ _. refl, λ _. refl)
conclude-Agrees ((k, f) ∷ u) a h =
    (λ e. cc, λ e. absurd (common-failure f u (h (k, f) (inl refl)) e))

judge-Agrees :
    (content_hash : Hash) (rs : List Requirement) (items : List Evidence) (now : ℤ)
    → Agrees (judge content_hash rs items now)
unfolding judge
judge-Agrees content_hash rs items now =
    elim (Bool-cases (any (λ e. not (intact content_hash e)) items)) [
      | inl t ↦ rw t ((λ e. cc), (λ e. cc))
      | inr t ↦ rw t (
          conclude-Agrees (unsatisfied (outcomes_of rs items now)) _ (λ x m e.
            let c = mem-unsatisfied rs items now x m in
            evaluate-failure c.0 items now (c.3 ∙ ap some e)))
    ]

-- The failure class is NONE exactly when the status is VERIFIED, whatever the verifier was given,
-- and whether or not the iterables raised.
pub status-failure :
    (content_hash : Hash) (claim : Option String) (evidence : Result String (List RawItem))
    (required : Result String (List RawRequirement)) (now : Option ℤ) (clock : ℤ)
    → Agrees (verify_completion content_hash claim evidence required now clock)
unfolding verify_completion verify abstain
status-failure content_hash claim evidence (err e) now clock =
    elim (Bool-cases (empty_claim claim)) [
      | inl t ↦ rw t ((λ e. cc), (λ e. cc))
      | inr t ↦ rw t ((λ e. cc), (λ e. cc))
    ]
status-failure content_hash claim evidence (ok raws) now clock =
    elim (Bool-cases (empty_claim claim)) [
      | inl t ↦ rw t ((λ e. cc), (λ e. cc))
      | inr t ↦ rw t (by_requirements (collect [] raws) evidence)
    ]
  where
    by_items :
        (rs : List Requirement) (o : Option (List Evidence))
        → Agrees (judge_items content_hash rs o (reference_time now clock))
    by_items rs none = ((λ e. cc), (λ e. cc))
    by_items rs (some items) = judge-Agrees content_hash rs items (reference_time now clock)

    by_requirements :
        (rs : List Requirement) (ev : Result String (List RawItem))
        → Agrees (fail_closed (judge_requirements content_hash rs ev (reference_time now clock)))
    by_requirements [] ev = ((λ e. cc), (λ e. cc))
    by_requirements (r ∷ rs) (err e) = ((λ e. cc), (λ e. cc))
    by_requirements (r ∷ rs) (ok raw) = by_items (r ∷ rs) (as_evidence raw)
