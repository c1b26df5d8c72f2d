-- ===== src/Verifier/Honest.antt =====
-- The assessments of a decision agree with it.
use proofos.Prelude.{ℕ, ◌≡◌, refl, ap, Bool, true, false, ◌&&◌, List, arith}
use proofos.Prelude.Tests.{nat_eq, nat_eq_iff}
use proofos.Prelude.Int.{ℤ}
use proofos.Prelude.Lists.{◌∈◌, any, any-true, any-true_of}
use proofos.Integrity.{Hash}
use proofos.Verifier.Types.{Evidence, Requirement, EvidenceAssessment, intact, source_name}
use proofos.Verifier.Evaluate.{unsound}
use proofos.Verifier.Assess.{
  accepted_ids, governing_ids, integrity_valid, rejection_reason, assess_item,
}
use proofos.Verifier.Verify.{outcomes_of}
use proofos.Verifier.Settled.{Counts, Settled}
use proofos.Verifier.Decides.{evaluate-Settled}
use proofos.Verifier.Assessed.{
  evaluate-accepted, evaluate-governing, evaluate_sound, mem-accepted_ids, mem-accepted_ids_of,
  mem-governing_ids,
}

any-ident : (i : ℕ) (ids : List ℕ) → any (nat_eq i) ids ≡ true → i ∈ ids
any-ident i ids h = let r = any-true (nat_eq i) ids h in rw ((nat_eq_iff i r.0).0 r.2) r.1

and_left : (a b : Bool) → (a && b) ≡ true → a ≡ true
and_left a b h = ground arith

and_right : (a b : Bool) → (a && b) ≡ true → b ≡ true
and_right a b h = ground arith

-- An identity belongs to one object.
abbrev pub UniqueIdent : List Evidence → Type 0
UniqueIdent items = (d e : Evidence) → d ∈ items → e ∈ items → d.ident ≡ e.ident → d ≡ e

module _ (content_hash : Hash) (rs : List Requirement) (items : List Evidence) (now : ℤ)
    (e : Evidence) (unique : UniqueIdent items) (mem : e ∈ items) where
  abbrev assessment : EvidenceAssessment
  assessment = assess_item content_hash (outcomes_of rs items now) e

  integrity_parts :
      integrity_valid content_hash e ≡ true → (intact content_hash e ≡ true) × (e.valid ≡ true)
  unfolding integrity_valid
  integrity_parts h = (ground arith, ground arith)

  integrity_of :
      intact content_hash e ≡ true → unsound e ≡ false → integrity_valid content_hash e ≡ true
  unfolding integrity_valid unsound
  integrity_of i s = ground arith

  -- Evidence that the report shows as accepted is an intact and valid observation, which speaks for
  -- a declared requirement.
  pub accepted_is_observation :
      assessment.accepted_by_verifier ≡ true
      → (assessment.source ≡ "OBSERVED")
        × (intact content_hash e ≡ true)
        × (e.valid ≡ true)
        × ((r : Requirement) × (r ∈ rs) × Counts r now e)
  unfolding assess_item
  accepted_is_observation h =
      let a =
        mem-accepted_ids rs items now e.ident
          (any-ident e.ident (accepted_ids (outcomes_of rs items now)) (and_left _ _ h)) in
      let c = evaluate-accepted a.0 items now a.2.0 a.2.1 in
      let same : e ≡ a.2.0 = unique e a.2.0 mem c.0 a.2.2 in
      let v = integrity_parts (and_right _ _ h) in
      (rw same (ap source_name (c.1).from_observer), v.0, v.1, (a.0, a.1, rw same c.1))

  -- Intact evidence that the report shows as satisfying has settled a declared requirement, for
  -- which it is an observation; and the report shows it as accepted too, with no reason against it.
  pub satisfying_is_accepted :
      intact content_hash e ≡ true
      → assessment.satisfies_requirement ≡ true
      → ((r : Requirement) × (r ∈ rs) × Settled r now items × Counts r now e)
        × (assessment.accepted_by_verifier ≡ true)
        × (assessment.rejection_reason ≡ "")
  unfolding assess_item
  satisfying_is_accepted unchanged h =
      let g =
        mem-governing_ids rs items now e.ident
          (any-ident e.ident (governing_ids (outcomes_of rs items now)) h) in
      let c = evaluate-governing g.0 items now g.3.0 g.3.1 in
      let same : e ≡ g.3.0 = unique e g.3.0 mem c.0 g.3.2 in
      let s = evaluate_sound g.0 items now g.3.0 g.2 g.3.1 in
      let counted = mem-accepted_ids_of rs items now g.0 g.3.0 g.1 s.1 in
      (
        (g.0, g.1, evaluate-Settled g.0 items now g.2, rw same c.1),
        rw
            (any-true_of (nat_eq e.ident) (accepted_ids (outcomes_of rs items now)) {x = e.ident}
              (rw same counted) ((nat_eq_iff e.ident e.ident).1 refl))
            (integrity_of unchanged (rw same s.0)),
        rw (h, rejection_reason),
      )
