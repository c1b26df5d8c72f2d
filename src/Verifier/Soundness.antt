-- ===== src/Verifier/Soundness.antt =====
-- `verify_completion` says VERIFIED exactly when the claim is justified.
use proofos.Prelude.{
  String, ◌≡◌, refl, sym, ap, ◌∙◌, ◌⊎◌, inl, inr, Bool, true, false, not, Option, none, some, List,
  [], ◌∷◌, arith,
}
use proofos.Prelude.Tests.{if◌then◌else◌, Bool-cases, Option-cases}
use proofos.Prelude.Int.{ℤ}
use proofos.Prelude.Lists.{◌∈◌, any, any-false, any-false_of}
use proofos.Prelude.Results.{Result, ok, err, ◌>>=◌}
use proofos.Prelude.Text.{blank}
use proofos.Integrity.{Hash}
use proofos.Verifier.Types.{
  VerificationStatus, verified, abstained, FailureClass, Evidence, Requirement, EvidenceAssessment,
  VerificationResult, RawRequirement, RawItem, observed, item, intact,
}
use proofos.Prelude.Time.{IsNumber}
use proofos.Verifier.Evaluate.{timestamp, evaluate}
use proofos.Verifier.Assess.{assess}
use proofos.Verifier.Verify.{
  abstain, collect, as_evidence, outcomes_of, unsatisfied, conclude, judge, judge_items,
  judge_requirements, empty_claim, reference_time, verify, fail_closed, verify_completion,
}
use proofos.Verifier.Settled.{Settled, IsTimed}
use proofos.Verifier.Declared.{IsFirst, collect_iff}
use proofos.Verifier.Decides.{evaluate-Settled, Settled-evaluate}

some_inj : {A : Type 0} {x y : A} → some x ≡ some y → x ≡ y
some_inj e = cc

unsatisfied-nil :
    (rs : List Requirement) (items : List Evidence) (now : ℤ)
    → unsatisfied (outcomes_of rs items now) ≡ []
    → (r : Requirement) → r ∈ rs
    → (evaluate r items now).failure ≡ none
unfolding outcomes_of unsatisfied
unsatisfied-nil [] items now h r m = absurd m
unsatisfied-nil (q ∷ rs) items now h r (inl e) = rw e (ground arith)
unsatisfied-nil (q ∷ rs) items now h r (inr m) = unsatisfied-nil rs items now (ground arith) r m

unsatisfied-nil_of :
    (rs : List Requirement) (items : List Evidence) (now : ℤ)
    → ((r : Requirement) → r ∈ rs → (evaluate r items now).failure ≡ none)
    → unsatisfied (outcomes_of rs items now) ≡ []
unfolding outcomes_of unsatisfied
unsatisfied-nil_of [] items now h = refl
unsatisfied-nil_of (q ∷ rs) items now h =
    rw (h q (inl refl), unsatisfied) (unsatisfied-nil_of rs items now (λ r m. h r (inr m)))

conclude-verified :
    (u : List (String × FailureClass)) (a : List EvidenceAssessment)
    → (conclude u a).status ≡ verified
    → u ≡ []
unfolding abstain
conclude-verified [] a h = refl
conclude-verified (x ∷ u) a h = cc

-- What the items must be for the kernel to accept the requirements.
pub record Proves (content_hash : Hash) (rs : List Requirement) (items : List Evidence) (now : ℤ)
    : Type 0 where
  pub all_intact : (e : Evidence) → e ∈ items → intact content_hash e ≡ true
  pub all_settled : (r : Requirement) → r ∈ rs → Settled r now items

module _ (content_hash : Hash) (rs : List Requirement) (items : List Evidence) (now : ℤ) where
  abbrev tampered : Bool
  tampered = any (λ e. not (intact content_hash e)) items

  judge-untampered : (judge content_hash rs items now).status ≡ verified → tampered ≡ false
  unfolding judge
  judge-untampered h = elim (Bool-cases tampered) [
    | inl e ↦ cc (rw (e, if◌then◌else◌) at h)
    | inr e ↦ e
  ]

  judge-conclude :
      tampered ≡ false
      → (a : List EvidenceAssessment) × (judge content_hash rs items now
          ≡ conclude (unsatisfied (outcomes_of rs items now)) a)
  unfolding judge
  judge-conclude h = (assess content_hash items (outcomes_of rs items now), rw h)

  not-false : (b : Bool) → not b ≡ false → b ≡ true
  not-false b h = ground arith

  judge-Proves :
      (judge content_hash rs items now).status ≡ verified → Proves content_hash rs items now
  judge-Proves h =
      let t = judge-untampered h in
      let c = judge-conclude t in
      let u = conclude-verified (unsatisfied (outcomes_of rs items now)) c.0 (rw c.1 at h) in
      record {
        all_intact = λ e m.
            not-false (intact content_hash e)
              (any-false (λ d. not (intact content_hash d)) items t m);
        all_settled = λ r m. evaluate-Settled r items now (unsatisfied-nil rs items now u r m);
      }

  Proves-judge :
      IsTimed items
      → Proves content_hash rs items now
      → (judge content_hash rs items now).status ≡ verified
  Proves-judge timed p =
      let c = judge-conclude (
        any-false_of (λ d. not (intact content_hash d)) items (λ e m. ap not (p.all_intact e m))) in
      rw (
        c.1,
        unsatisfied-nil_of rs items now
            (λ r m. Settled-evaluate r items now timed (p.all_settled r m)),
      )

-- A claim that the kernel may accept: a text, with evidence that is intact, and with requirements,
-- of which the first of each kind is settled.
pub record Justified (content_hash : Hash) (claim : Option String)
    (evidence : Result String (List RawItem)) (required : Result String (List RawRequirement))
    (now : ℤ) : Type 0 where
  pub words : String
  pub claimed : claim ≡ some words
  pub not_blank : blank words ≡ false
  pub raws : List RawRequirement
  pub declared : required ≡ ok raws
  pub first : Requirement
  pub first_declared : IsFirst raws first
  pub raw_items : List RawItem
  pub offered : evidence ≡ ok raw_items
  pub items : List Evidence
  pub all_evidence : as_evidence raw_items ≡ some items
  pub all_intact : (e : Evidence) → e ∈ items → intact content_hash e ≡ true
  pub all_settled : (r : Requirement) → IsFirst raws r → Settled r now items

fail_closed-verified :
    (r : Result String VerificationResult)
    → (fail_closed r).status ≡ verified
    → (v : VerificationResult) × (r ≡ ok v) × (v.status ≡ verified)
unfolding abstain
fail_closed-verified (ok v) h = (v, refl, h)
fail_closed-verified (err e) h = cc

-- The accepting run of the code after the claim, in steps.
judge_items-verified :
    (content_hash : Hash) (rs : List Requirement) (o : Option (List Evidence)) (now : ℤ)
    → (judge_items content_hash rs o now).status ≡ verified
    → (items : List Evidence) × (o ≡ some items) × Proves content_hash rs items now
unfolding abstain
judge_items-verified content_hash rs none now h = cc
judge_items-verified content_hash rs (some items) now h =
    (items, refl, judge-Proves content_hash rs items now h)

judge_requirements-verified :
    (content_hash : Hash) (rs : List Requirement) (evidence : Result String (List RawItem))
    (now : ℤ) {v : VerificationResult}
    → judge_requirements content_hash rs evidence now ≡ ok v
    → v.status ≡ verified
    → (first : Requirement) × (first ∈ rs)
      × (raw_items : List RawItem) × (evidence ≡ ok raw_items)
      × (items : List Evidence) × (as_evidence raw_items ≡ some items)
      × Proves content_hash rs items now
unfolding abstain
judge_requirements-verified content_hash [] evidence now h k = cc
judge_requirements-verified content_hash (r ∷ rs) (err e) now h k = cc
judge_requirements-verified content_hash (r ∷ rs) (ok raw) now {v} h k =
    let i =
      judge_items-verified content_hash (r ∷ rs) (as_evidence raw) now (ap status_of (h) ∙ k) in
    (r, inl refl, raw, refl, i.0, i.1, i.2)
  where
    status_of : Result String VerificationResult → VerificationStatus
    status_of (ok w) = w.status
    status_of (err e) = abstained

-- No observation among what was handed over has NaN as its time.
abbrev pub TimedEvidence : Result String (List RawItem) → Type 0
TimedEvidence (ok raws) =
    (e : Evidence) → item e ∈ raws → e.source ≡ observed → IsNumber (timestamp e)
TimedEvidence (err x) = Unit

as_evidence-mem :
    (raws : List RawItem) (items : List Evidence) (e : Evidence)
    → as_evidence raws ≡ some items
    → e ∈ items
    → item e ∈ raws
unfolding as_evidence
as_evidence-mem [] items e h m = absurd (rw (sym (some_inj h)) at m)
as_evidence-mem (item x ∷ raws) items e h m = elim (Option-cases (as_evidence raws)) [
  | inl n ↦ cc (rw n at h)
  | inr (es, n) ↦ by_place es n (rw (sym (some_inj (rw n at h))) at m) (as_evidence-mem raws es e n)
]
  where
    by_place :
        (es : List Evidence)
        → as_evidence raws ≡ some es
        → (e ≡ x) ⊎ (e ∈ es)
        → (e ∈ es → item e ∈ raws)
        → item e ∈ (item x ∷ raws)
    by_place es n (inl same) rec = inl (ap item same)
    by_place es n (inr k) rec = inr (rec k)
as_evidence-mem (RawItem.other ∷ raws) items e h m = cc

accepting :
    (content_hash : Hash) (rs : List Requirement) (raw : List RawItem) (now : ℤ)
    (first : Requirement) {items : List Evidence}
    → first ∈ rs
    → as_evidence raw ≡ some items
    → IsTimed items
    → Proves content_hash rs items now
    → (fail_closed (judge_requirements content_hash rs (ok raw) now)).status ≡ verified
accepting content_hash [] raw now first m e timed p = absurd m
accepting content_hash (r ∷ rs) raw now first {items} m e timed p =
    rw e (Proves-judge content_hash (r ∷ rs) items now timed p)

module _ (content_hash : Hash) (claim : Option String) (evidence : Result String (List RawItem))
    (required : Result String (List RawRequirement)) (now : Option ℤ) (clock : ℤ) where
  abbrev after_claim : Result String (List RawRequirement) → Result String VerificationResult
  after_claim q = q >>= λ raws.
      judge_requirements content_hash (collect [] raws) evidence (reference_time now clock)

  claim-text : empty_claim claim ≡ false → (s : String) × (claim ≡ some s) × (blank s ≡ false)
  claim-text h = by_claim claim h
    where
      by_claim :
          (c : Option String)
          → empty_claim c ≡ false
          → (s : String) × (c ≡ some s) × (blank s ≡ false)
      by_claim none e = cc
      by_claim (some s) e = (s, refl, e)

  verify-claimed :
      {v : VerificationResult}
      → verify content_hash claim evidence required now clock ≡ ok v
      → v.status ≡ verified
      → (empty_claim claim ≡ false) × (after_claim required ≡ ok v)
  unfolding verify
  verify-claimed h k = elim (Bool-cases (empty_claim claim)) [
    | inl e ↦ cc (rw (e, if◌then◌else◌) at h)
    | inr e ↦ (e, rw (e, if◌then◌else◌) at h)
  ]

  after_claim-ok :
      (q : Result String (List RawRequirement)) {v : VerificationResult}
      → after_claim q ≡ ok v
      → (raws : List RawRequirement) × (q ≡ ok raws)
        × (judge_requirements content_hash (collect [] raws) evidence (reference_time now clock)
            ≡ ok v)
  after_claim-ok (ok raws) h = (raws, refl, h)
  after_claim-ok (err e) h = cc

  -- If `verify_completion` says VERIFIED, then the claim is a text that is not blank, a requirement
  -- was declared, every evidence item is intact, and of each kind the requirement that was declared
  -- first is settled: some observation of its kind within its horizon exists, and each one that is at
  -- least as recent as all of them is valid and not blank. With a time that is NaN among them no
  -- observation is as recent as all, and this last part says nothing.
  pub verified-Justified :
      (verify_completion content_hash claim evidence required now clock).status ≡ verified
      → Justified content_hash claim evidence required (reference_time now clock)
  unfolding verify_completion
  verified-Justified h =
      let f = fail_closed-verified (verify content_hash claim evidence required now clock) h in
      let c = verify-claimed f.1 f.2 in
      let t = claim-text c.0 in
      let a = after_claim-ok required c.1 in
      let j =
        judge_requirements-verified content_hash (collect [] a.0) evidence
          (reference_time now clock) a.2 f.2 in
      record {
        words = t.0;
        claimed = t.1;
        not_blank = t.2;
        raws = a.0;
        declared = a.1;
        first = j.0;
        first_declared = (collect_iff a.0 j.0).0 j.1;
        raw_items = j.2;
        offered = j.3;
        items = j.4;
        all_evidence = j.5;
        all_intact = (j.6).all_intact;
        all_settled = λ r f. (j.6).all_settled r ((collect_iff a.0 r).1 f);
      }

  -- Conversely, a claim that is justified in this sense is VERIFIED, if no observation has NaN as its
  -- time.
  pub Justified-verified :
      Justified content_hash claim evidence required (reference_time now clock)
      → TimedEvidence evidence
      → (verify_completion content_hash claim evidence required now clock).status ≡ verified
  unfolding verify_completion
  Justified-verified j timed =
      rw (j.claimed, verify, j.not_blank, j.declared, j.offered)
        (accepting content_hash (collect [] j.raws) j.raw_items (reference_time now clock) j.first
          ((collect_iff j.raws j.first).1 j.first_declared) j.all_evidence
          (λ e m. rw j.offered at timed e (as_evidence-mem j.raw_items j.items e j.all_evidence m))
          (record {
            all_intact = j.all_intact;
            all_settled = λ r m. j.all_settled r ((collect_iff j.raws r).0 m);
          }))
