-- ===== src/Verifier/Declared.antt =====
-- Which requirements count, read off the list that is declared, without the loop of
-- `verify_completion` and its set of kinds.
use proofos.Prelude.{
  String, ◌≡◌, ◌≢◌, refl, sym, ap, ◌∙◌, ◌↔◌, ◌⊎◌, inl, inr, Bool, true, false, none, some, List, [],
  ◌∷◌, map,
}
use proofos.Prelude.Tests.{◌==◌, eq_iff, Bool-cases, Option-cases}
use proofos.Prelude.Lists.{◌∈◌, any}
use proofos.Prelude.Text.{strip, blank}
use proofos.Verifier.Types.{Requirement, RawRequirement, requirement, name}
use proofos.Verifier.Verify.{as_requirement, collect}

-- What one entry declares; an entry that is blank, or neither a requirement nor a text, nothing.
abbrev pub Declares : RawRequirement → Requirement → Type 0
Declares (requirement q) r = (q ≡ r) × (blank q.kind ≡ false)
Declares (name s) r = (record { kind = strip s; max_age_seconds = none } ≡ r) × (blank s ≡ false)
Declares RawRequirement.other r = ⊥

-- The requirement is declared, and by no earlier entry was one of its kind.
abbrev pub IsFirst : List RawRequirement → Requirement → Type 0
IsFirst [] r = ⊥
IsFirst (raw ∷ raws) r =
    Declares raw r ⊎ (IsFirst raws r × ((q : Requirement) → Declares raw q → q.kind ≢ r.kind))

as_requirement-Declares :
    (raw : RawRequirement) (r : Requirement) → as_requirement raw ≡ some r → Declares raw r
unfolding as_requirement
as_requirement-Declares (requirement q) r h = elim (Bool-cases (blank q.kind)) [
  | inl e ↦ cc (rw e at h)
  | inr e ↦ (cc (rw e at h), e)
]
as_requirement-Declares (name s) r h = elim (Bool-cases (blank s)) [
  | inl e ↦ cc (rw e at h)
  | inr e ↦ (cc (rw e at h), e)
]
as_requirement-Declares RawRequirement.other r h = cc

Declares-as_requirement :
    (raw : RawRequirement) (r : Requirement) → Declares raw r → as_requirement raw ≡ some r
unfolding as_requirement
Declares-as_requirement (requirement q) r (e, b) = rw b (ap some e)
Declares-as_requirement (name s) r (e, b) = rw b (ap some e)
Declares-as_requirement RawRequirement.other r d = absurd d

abbrev kept_out : Requirement → List String → Bool
kept_out r seen = any (λ k. k == r.kind) seen

-- Two requirements that one entry declares are the same.
declared_kind :
    (raw : RawRequirement) (p q : Requirement)
    → as_requirement raw ≡ some p
    → Declares raw q
    → p.kind ≡ q.kind
declared_kind raw p q e d =
    let same : p ≡ q = cc (e, Declares-as_requirement raw q d) in
    ap (λ (x : Requirement). x.kind) same

unseen :
    (k j : String) (seen : List String)
    → any (λ i. i == j) (k ∷ seen) ≡ false
    → ((k == j) ≡ false) × (any (λ i. i == j) seen ≡ false)
unfolding any
unseen k j seen h = elim (Bool-cases (k == j)) [ inl e ↦ cc (rw e at h) | inr e ↦ (e, rw e at h) ]

-- One round of the loop that keeps its entry.
kept-IsFirst :
    (seen : List String) (raw : RawRequirement) (raws : List RawRequirement) (p r : Requirement)
    → as_requirement raw ≡ some p
    → kept_out p seen ≡ false
    → (r ≡ p) ⊎ (IsFirst raws r × (kept_out r (p.kind ∷ seen) ≡ false))
    → IsFirst (raw ∷ raws) r × (kept_out r seen ≡ false)
kept-IsFirst seen raw raws p r e s (inl same) = (
  inl (as_requirement-Declares raw r (e ∙ ap some (sym same))),
  ap (λ (x : Requirement). kept_out x seen) same ∙ s,
)
kept-IsFirst seen raw raws p r e s (inr (first, fresh)) = (
  inr (
    first,
    λ q d same. cc (
      (unseen p.kind r.kind seen fresh).0,
      (eq_iff p.kind r.kind).1 (declared_kind raw p q e d ∙ same),
    ),
  ),
  (unseen p.kind r.kind seen fresh).1,
)

-- One round, by what the entry declares.
collect-none :
    (seen : List String) (raw : RawRequirement) (raws : List RawRequirement)
    → as_requirement raw ≡ none
    → collect seen (raw ∷ raws) ≡ collect seen raws
unfolding collect
collect-none seen raw raws e = rw (collect, e)

collect-seen :
    (seen : List String) (raw : RawRequirement) (raws : List RawRequirement) (p : Requirement)
    → as_requirement raw ≡ some p
    → kept_out p seen ≡ true
    → collect seen (raw ∷ raws) ≡ collect seen raws
unfolding collect
collect-seen seen raw raws p e s = rw (collect, e, s)

collect-kept :
    (seen : List String) (raw : RawRequirement) (raws : List RawRequirement) (p : Requirement)
    → as_requirement raw ≡ some p
    → kept_out p seen ≡ false
    → collect seen (raw ∷ raws) ≡ p ∷ collect (p.kind ∷ seen) raws
unfolding collect
collect-kept seen raw raws p e s = rw (collect, e, s)

-- The loop keeps the first requirement of each kind that was not seen before it, and no other.
collect-IsFirst :
    (seen : List String) (raws : List RawRequirement) (r : Requirement)
    → r ∈ collect seen raws
    → IsFirst raws r × (kept_out r seen ≡ false)
unfolding collect
collect-IsFirst seen [] r m = absurd m
collect-IsFirst seen (raw ∷ raws) r m = elim (Option-cases (as_requirement raw)) [
  | inl e ↦
      let i = collect-IsFirst seen raws r (rw (collect-none seen raw raws e) at m) in
      (inr (i.0, λ q d. cc (Declares-as_requirement raw q d, e)), i.1)
  | inr (p, e) ↦ elim (Bool-cases (kept_out p seen)) [
    | inl s ↦
        let i = collect-IsFirst seen raws r (rw (collect-seen seen raw raws p e s) at m) in
        (
          inr (
            i.0,
            λ q d same. cc (
              ap (λ (k : String). any (λ j. j == k) seen) (declared_kind raw p q e d ∙ same),
              s,
              i.1,
            ),
          ),
          i.1,
        )
    | inr s ↦ kept-IsFirst seen raw raws p r e s (
        by_place p (rw (collect-kept seen raw raws p e s) at m)
          (collect-IsFirst (p.kind ∷ seen) raws r))
  ]
]
  where
    by_place :
        (p : Requirement)
        → (r ≡ p) ⊎ (r ∈ collect (p.kind ∷ seen) raws)
        → (r ∈ collect (p.kind ∷ seen) raws → IsFirst raws r × (kept_out r (p.kind ∷ seen) ≡ false))
        → (r ≡ p) ⊎ (IsFirst raws r × (kept_out r (p.kind ∷ seen) ≡ false))
    by_place p (inl same) i = inl same
    by_place p (inr m) i = inr (i m)

IsFirst-collect :
    (seen : List String) (raws : List RawRequirement) (r : Requirement)
    → IsFirst raws r
    → kept_out r seen ≡ false
    → r ∈ collect seen raws
unfolding collect
IsFirst-collect seen [] r f fresh = absurd f
IsFirst-collect seen (raw ∷ raws) r (inl d) fresh =
    rw (collect-kept seen raw raws r (Declares-as_requirement raw r d) fresh) (inl refl)
IsFirst-collect seen (raw ∷ raws) r (inr (f, other)) fresh =
    elim (Option-cases (as_requirement raw)) [
      | inl e ↦ rw (collect-none seen raw raws e) (IsFirst-collect seen raws r f fresh)
      | inr (p, e) ↦ elim (Bool-cases (kept_out p seen)) [
        | inl s ↦ rw (collect-seen seen raw raws p e s) (IsFirst-collect seen raws r f fresh)
        | inr s ↦ rw (collect-kept seen raw raws p e s) (
            inr (
              IsFirst-collect (p.kind ∷ seen) raws r f (elim (Bool-cases (p.kind == r.kind)) [
                | inl same ↦
                    absurd
                      (other p (as_requirement-Declares raw p e) ((eq_iff p.kind r.kind).0 same))
                | inr differs ↦ rw (differs, fresh)
              ])))
      ]
    ]

-- What `collect` keeps is what is declared first of its kind.
pub collect_iff :
    (raws : List RawRequirement) (r : Requirement) → (r ∈ collect [] raws) ↔ IsFirst raws r
unfolding any
collect_iff raws r = (λ m. (collect-IsFirst [] raws r m).0, λ f. IsFirst-collect [] raws r f refl)

-- Every kind that is declared has a first requirement.
pub declared-IsFirst :
    (raws : List RawRequirement) (raw : RawRequirement) (q : Requirement)
    → raw ∈ raws
    → Declares raw q
    → (r : Requirement) × IsFirst raws r × (r.kind ≡ q.kind)
declared-IsFirst [] raw q m d = absurd m
declared-IsFirst (x ∷ raws) raw q (inl same) d = (q, inl (rw (sym same) d), refl)
declared-IsFirst (x ∷ raws) raw q (inr m) d =
    let i = declared-IsFirst raws raw q m d in
    elim (Option-cases (as_requirement x)) [
      | inl e ↦ (i.0, inr (i.1, λ p dp. cc (Declares-as_requirement x p dp, e)), i.2)
      | inr (p, e) ↦ elim (Bool-cases (p.kind == i.0.kind)) [
        | inl same ↦ (p, inl (as_requirement-Declares x p e), (eq_iff p.kind i.0.kind).0 same ∙ i.2)
        | inr differs ↦ (
          i.0,
          inr (
            i.1,
            λ o d' same. cc ((eq_iff p.kind i.0.kind).1 (declared_kind x p o e d' ∙ same), differs),
          ),
          i.2,
        )
      ]
    ]

-- Requirement objects declare themselves, unless their kind is blank.
pub IsFirst-requirement :
    (rs : List Requirement) (r : Requirement)
    → IsFirst (map requirement rs) r
    → (r ∈ rs) × (blank r.kind ≡ false)
IsFirst-requirement [] r f = absurd f
IsFirst-requirement (q ∷ rs) r (inl (e, b)) =
    (inl (sym e), ap (λ (x : Requirement). blank x.kind) (sym e) ∙ b)
IsFirst-requirement (q ∷ rs) r (inr (f, other)) =
    let i = IsFirst-requirement rs r f in (inr i.0, i.1)

pub mem-map_requirement :
    (rs : List Requirement) (r : Requirement) → r ∈ rs → requirement r ∈ map requirement rs
mem-map_requirement [] r m = absurd m
mem-map_requirement (q ∷ rs) r (inl e) = inl (ap requirement e)
mem-map_requirement (q ∷ rs) r (inr m) = inr (mem-map_requirement rs r m)
