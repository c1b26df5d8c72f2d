-- ===== src/Verifier/Independence.antt =====
-- What the verdict depends on: the observations, as a set.
use proofos.Prelude.{
  String, ◌≡◌, ◌≢◌, refl, sym, ap, ◌∙◌, ◌↔◌, inl, inr, true, false, Option, some, List, [], ◌∷◌,
  map,
}
use proofos.Prelude.Int.{ℤ}
use proofos.Prelude.Lists.{◌∈◌}
use proofos.Prelude.Results.{Result, ok, ok_inj}
use proofos.Prelude.Text.{strip, blank, strip-strip}
use proofos.Integrity.{Hash}
use proofos.Verifier.Types.{
  verified, observed, Evidence, Requirement, RawRequirement, RawItem, requirement, item, intact,
}
use proofos.Verifier.Verify.{as_evidence, reference_time, verify_completion}
use proofos.Verifier.Settled.{Settled, IsTimed}
use proofos.Verifier.Declared.{IsFirst, declared-IsFirst}
use proofos.Verifier.Soundness.{TimedEvidence, verified-Justified, Justified-verified}

-- Two sets of evidence with the same observations.
abbrev pub SameObservations : List Evidence → List Evidence → Type 0
SameObservations xs ys = (e : Evidence) → e.source ≡ observed → (e ∈ xs) ↔ (e ∈ ys)

Settled-same :
    (r : Requirement) (now : ℤ) (xs ys : List Evidence)
    → SameObservations xs ys
    → Settled r now xs
    → Settled r now ys
Settled-same r now xs ys same s = record {
  witness = s.witness;
  witness_mem = (same s.witness (s.witness_counts).from_observer).0 s.witness_mem;
  witness_counts = s.witness_counts;
  latest_sound = λ e m c latest.
      s.latest_sound e ((same e c.from_observer).1 m) c
        (λ d dm k. latest d ((same d k.from_observer).0 dm) k);
}

pub as_evidence-map : (xs : List Evidence) → as_evidence (map item xs) ≡ some xs
unfolding as_evidence
as_evidence-map [] = refl
as_evidence-map (x ∷ xs) = rw (as_evidence-map xs, as_evidence)

some_inj : {A : Type 0} {x y : A} → some x ≡ some y → x ≡ y
some_inj e = cc

-- VERIFIED on a list of evidence, for a list of requirements.
pub verified-Settled :
    (content_hash : Hash) (claim : Option String) (xs : List Evidence) (raws : List RawRequirement)
    (now : Option ℤ) (clock : ℤ)
    → (verify_completion content_hash claim (ok (map item xs)) (ok raws) now clock).status
      ≡ verified
    → (first : Requirement) × IsFirst raws first
      × ((r : Requirement) → IsFirst raws r → Settled r (reference_time now clock) xs)
verified-Settled content_hash claim xs raws now clock h =
    let j = verified-Justified content_hash claim (ok (map item xs)) (ok raws) now clock h in
    let e : j.items ≡ xs =
      some_inj
        (sym j.all_evidence ∙ ap as_evidence (sym (ok_inj j.offered)) ∙ as_evidence-map xs) in
    (
      j.first,
      rw (ok_inj j.declared) j.first_declared,
      λ r m. rw e at (j.all_settled r (rw (ok_inj j.declared) at m)),
    )

mem-map_item : (xs : List Evidence) (e : Evidence) → item e ∈ map item xs → e ∈ xs
mem-map_item [] e m = absurd m
mem-map_item (x ∷ xs) e (inl same) = inl (cc same)
mem-map_item (x ∷ xs) e (inr m) = inr (mem-map_item xs e m)

pub timed_map : (xs : List Evidence) → IsTimed xs → TimedEvidence (ok (map item xs))
timed_map xs timed e m s = timed e (mem-map_item xs e m) s

-- The verdict VERIFIED depends on the set of observations alone: if two sets of intact evidence
-- have the same OBSERVED items, none of them with NaN as its time, in any order, with any repetition
-- and any other items among them, then a claim that is VERIFIED on the one is VERIFIED on the other.
pub observations_decide :
    (content_hash : Hash) (claim : Option String) (required : Result String (List RawRequirement))
    (now : Option ℤ) (clock : ℤ) (xs ys : List Evidence)
    → SameObservations xs ys
    → ((e : Evidence) → e ∈ ys → intact content_hash e ≡ true)
    → IsTimed ys
    → (verify_completion content_hash claim (ok (map item xs)) required now clock).status ≡ verified
    → (verify_completion content_hash claim (ok (map item ys)) required now clock).status ≡ verified
observations_decide content_hash claim required now clock xs ys same unchanged timed h =
    let j = verified-Justified content_hash claim (ok (map item xs)) required now clock h in
    let e : j.items ≡ xs =
      some_inj
        (sym j.all_evidence ∙ ap as_evidence (sym (ok_inj j.offered)) ∙ as_evidence-map xs) in
    Justified-verified content_hash claim (ok (map item ys)) required now clock
      (record {
        words = j.words;
        claimed = j.claimed;
        not_blank = j.not_blank;
        raws = j.raws;
        declared = j.declared;
        first = j.first;
        first_declared = j.first_declared;
        raw_items = map item ys;
        offered = refl;
        items = ys;
        all_evidence = as_evidence-map ys;
        all_intact = unchanged;
        all_settled = λ r m.
            Settled-same r (reference_time now clock) xs ys same (rw e at (j.all_settled r m));
      })
      (timed_map ys timed)

-- A requirement object whose kind has spaces around it is never settled: the kinds of the
-- evidence are stripped before they are compared, and its own is not.
padded-Settled :
    (r : Requirement) (now : ℤ) (items : List Evidence)
    → Settled r now items
    → strip r.kind ≡ r.kind
padded-Settled r now items s =
    ap strip (sym (s.witness_counts).same_kind)
    ∙ strip-strip s.witness.kind
    ∙ (s.witness_counts).same_kind

-- If a requirement object among the declared ones has a kind that is not blank and has spaces around
-- it, every claim abstains, whatever the evidence.
pub padded_requirement_abstains :
    (content_hash : Hash) (claim : Option String) (evidence : Result String (List RawItem))
    (raws : List RawRequirement) (now : Option ℤ) (clock : ℤ) (r : Requirement)
    → requirement r ∈ raws
    → blank r.kind ≡ false
    → strip r.kind ≢ r.kind
    → (verify_completion content_hash claim evidence (ok raws) now clock).status ≢ verified
padded_requirement_abstains content_hash claim evidence raws now clock r m text padded h =
    let j = verified-Justified content_hash claim evidence (ok raws) now clock h in
    let f = declared-IsFirst raws (requirement r) r m (refl, text) in
    let s =
      padded-Settled f.0 (reference_time now clock) j.items
        (j.all_settled f.0 (rw (ok_inj j.declared) at f.1)) in
    padded (ap strip (sym f.2) ∙ s ∙ f.2)
