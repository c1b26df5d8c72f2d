-- ===== src/Verifier/Evaluate.antt =====
-- proofos/verifier.py, `_evaluate`: the verdict for one requirement.
use proofos.Prelude.{Bool, false, not, ◌||◌, Option, none, some, List, [], ◌∷◌}
use proofos.Prelude.Tests.{◌==◌, if◌then◌else◌}
use proofos.Prelude.Int.{ℤ, ◌-ℤ◌}
use proofos.Prelude.Time.{Time, tick, minus_infinite, leb_time, eq_time, gt_time}
use proofos.Prelude.Lists.{select, any}
use proofos.Prelude.Text.{strip, blank}
use proofos.Verifier.Types.{
  FailureClass, evidence_missing, evidence_untrusted, evidence_stale, evidence_invalid, Evidence,
  Requirement, trusted_source,
}

-- `_timestamp`: undated evidence is older than any other.
unfoldable pub timestamp : Evidence → Time
timestamp e = elim e.collected_at [ none ↦ minus_infinite | some t ↦ t ]

-- max(_timestamp(x) for x in items), for items after a first one: a later one replaces the maximum
-- only if it is greater, so NaN stays if it comes first, and is passed over if not.
unfoldable pub max_time : Time → List Evidence → Time
unfolding timestamp gt_time
max_time t [] = t
max_time t (x ∷ xs) = max_time (if gt_time (timestamp x) t then timestamp x else t) xs

pub record Outcome : Type 0 where
  pub failure : Option FailureClass
  pub accepted : List Evidence
  pub governing : List Evidence

-- item.kind.strip() == requirement.kind
unfoldable pub matches : Requirement → Evidence → Bool
unfolding strip
matches r e = strip e.kind == r.kind

-- item.collected_at is not None and item.collected_at >= horizon
unfoldable pub fresh_at : ℤ → Option Time → Bool
unfolding leb_time
fresh_at horizon none = false
fresh_at horizon (some t) = leb_time (tick horizon) t

-- not item.valid or not item.value.strip()
unfoldable pub unsound : Evidence → Bool
unfolding blank
unsound e = not e.valid || blank e.value

-- The end of `_evaluate`: the most recent observation governs.
unfoldable pub govern : Evidence → List Evidence → Outcome
unfolding max_time eq_time select any unsound timestamp
govern x xs =
    let latest = max_time (timestamp x) xs in
    let governing = select (λ e. eq_time (timestamp e) latest) (x ∷ xs) in
    record {
      failure = if any unsound governing then some evidence_invalid else none;
      accepted = x ∷ xs;
      governing = governing;
    }

abbrev pub refused : FailureClass → Outcome
refused f = record { failure = some f; accepted = []; governing = [] }

-- `fresh` and `trusted` of the source: the items that a requirement's horizon leaves.
unfoldable pub within_horizon : Option ℤ → ℤ → List Evidence → List Evidence
unfolding select fresh_at
within_horizon none now trusted = trusted
within_horizon (some age) now trusted = select (λ e. fresh_at (now -ℤ age) e.collected_at) trusted

-- `if not items: return _RequirementOutcome(f)`
abbrev pub when_any : List Evidence → FailureClass → Outcome → Outcome
when_any [] f o = refused f
when_any (x ∷ xs) f o = o

-- The last of the early returns, and what follows it.
abbrev pub govern_fresh : List Evidence → Outcome
govern_fresh [] = refused evidence_stale
govern_fresh (x ∷ xs) = govern x xs

unfoldable pub evaluate : Requirement → List Evidence → ℤ → Outcome
unfolding select matches trusted_source within_horizon govern
evaluate r items now =
    let matching = select (matches r) items in
    let trusted = select (λ e. trusted_source e.source) matching in
    when_any matching evidence_missing (
      when_any trusted evidence_untrusted
        (govern_fresh (within_horizon r.max_age_seconds now trusted)))
