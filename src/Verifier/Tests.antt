-- ===== src/Verifier/Tests.antt =====
-- The kernel on concrete evidence.
use proofos.Prelude.{
  String, ◌≡◌, ◌≢◌, refl, sym, ap, ◌∙◌, ◌↔◌, ◌⊎◌, inl, inr, true, false, none, some, List, [], ◌∷◌,
  arith,
}
use proofos.Prelude.Tests.{eq_iff}
use proofos.Prelude.Int.{pos, ◌-ℤ◌}
use proofos.Prelude.Time.{tick, not_a_number, gt_time, eq_time}
use proofos.Prelude.Lists.{◌∈◌}
use proofos.Prelude.Results.{Result, ok, err}
use proofos.Prelude.Text.{strip, blank}
use proofos.Samples.{joined}
use proofos.Verifier.Types.{
  verified, evidence_untrusted, evidence_stale, verifier_failure, Evidence, observed, executor,
  Requirement, RawRequirement, name, requirement, item, intact,
}
use proofos.Verifier.Assess.{assess_item}
use proofos.Verifier.Verify.{verify_completion, outcomes_of, reference_time}
use proofos.Verifier.Evaluate.{timestamp}
use proofos.Verifier.Settled.{Settled, Counts, IsTimed}
use proofos.Verifier.Soundness.{Justified, verified-Justified, Justified-verified}
use proofos.Verifier.Independence.{timed_map, observations_decide, padded_requirement_abstains}
use proofos.Verifier.Reports.{status-failure, Agrees}
use proofos.Verifier.Honest.{accepted_is_observation, satisfying_is_accepted}

-- A healthy probe, and the executor's own report.
abbrev probe : Evidence
probe = record {
  ident = 1;
  kind = "runtime";
  value = "probe HEALTHY";
  source = observed;
  valid = true;
  collected_at = some (tick (pos 100));
  collector = "collector-http-v1";
  content_hash = "runtime,probe HEALTHY,OBSERVED,true,number,collector-http-v1,";
}

abbrev self_report : Evidence
self_report = record {
  ident = 2;
  kind = "runtime";
  value = "I verified it";
  source = executor;
  valid = true;
  collected_at = some (tick (pos 120));
  collector = "executor-v1";
  content_hash = "runtime,I verified it,EXECUTOR,true,number,executor-v1,";
}

abbrev runtime : Requirement
runtime = record { kind = "runtime"; max_age_seconds = some (pos 60) }

abbrev required : Result String (List RawRequirement)
required = ok (requirement runtime ∷ name "  " ∷ [])

observed_is_verified :
    (verify_completion joined
      (some "done")
      (ok (item self_report ∷ item probe ∷ []))
      required
      (some (pos 130))
      (pos 0)).status
    ≡ verified
unfolding verify_completion ◌-ℤ◌
observed_is_verified = refl

self_report_abstains :
    (verify_completion joined
      (some "done")
      (ok (item self_report ∷ []))
      required
      none
      (pos 130)).failure
    ≡ evidence_untrusted
unfolding verify_completion
self_report_abstains = refl

stale_abstains :
    (verify_completion joined (some "done") (ok (item probe ∷ [])) required none (pos 161)).failure
    ≡ evidence_stale
unfolding verify_completion ◌-ℤ◌
stale_abstains = refl

raising_abstains :
    (verify_completion joined (some "done") (err "OSError") required none (pos 130)).failure
    ≡ verifier_failure
unfolding verify_completion
raising_abstains = refl

verified-Justified_example :
    Justified joined (some "done") (ok (item self_report ∷ item probe ∷ [])) required (pos 130)
unfolding reference_time
verified-Justified_example =
    verified-Justified joined (some "done") (ok (item self_report ∷ item probe ∷ [])) required
      (some (pos 130)) (pos 0) observed_is_verified

probe-IsTimed : IsTimed (self_report ∷ probe ∷ [])
unfolding timestamp
probe-IsTimed e (inl p) s = cc (ap (λ (d : Evidence). d.source) p)
probe-IsTimed e (inr (inl p)) s = rw p tt
probe-IsTimed e (inr (inr m)) s = absurd m

Justified-verified_example :
    (verify_completion joined
      (some "done")
      (ok (item self_report ∷ item probe ∷ []))
      required
      (some (pos 130))
      (pos 0)).status
    ≡ verified
unfolding reference_time
Justified-verified_example =
    Justified-verified joined (some "done") (ok (item self_report ∷ item probe ∷ [])) required
      (some (pos 130)) (pos 0) verified-Justified_example
      (timed_map (self_report ∷ probe ∷ []) probe-IsTimed)

-- The self-report is dropped, and the probe comes twice.
same_observations :
    (e : Evidence)
    → e.source ≡ observed
    → (e ∈ (self_report ∷ probe ∷ [])) ↔ (e ∈ (probe ∷ probe ∷ []))
same_observations e h = (forward, backward)
  where
    forward : (e ≡ self_report) ⊎ ((e ≡ probe) ⊎ ⊥) → (e ≡ probe) ⊎ ((e ≡ probe) ⊎ ⊥)
    forward (inl p) = cc (ap (λ (d : Evidence). d.source) p)
    forward (inr m) = inr m

    backward : (e ≡ probe) ⊎ ((e ≡ probe) ⊎ ⊥) → (e ≡ self_report) ⊎ ((e ≡ probe) ⊎ ⊥)
    backward (inl p) = inr (inl p)
    backward (inr m) = inr m

probes_intact : (e : Evidence) → e ∈ (probe ∷ probe ∷ []) → intact joined e ≡ true
unfolding intact
probes_intact e (inl p) = rw p
probes_intact e (inr (inl p)) = rw p
probes_intact e (inr (inr m)) = absurd m

probes-IsTimed : IsTimed (probe ∷ probe ∷ [])
unfolding timestamp
probes-IsTimed e (inl p) s = rw p tt
probes-IsTimed e (inr (inl p)) s = rw p tt
probes-IsTimed e (inr (inr m)) s = absurd m

observations_decide_example :
    (verify_completion joined
      (some "done")
      (ok (item probe ∷ item probe ∷ []))
      required
      (some (pos 130))
      (pos 0)).status
    ≡ verified
observations_decide_example =
    observations_decide joined (some "done") required (some (pos 130)) (pos 0)
      (self_report ∷ probe ∷ []) (probe ∷ probe ∷ []) same_observations probes_intact probes-IsTimed
      observed_is_verified

-- A refusal dated NaN: an observation that says the contract was not met, with no horizon, governs
-- nothing, and the claim is VERIFIED.
abbrev refusal : Evidence
refusal = record {
  ident = 3;
  kind = "runtime";
  value = "probe UNHEALTHY_STATUS";
  source = observed;
  valid = false;
  collected_at = some not_a_number;
  collector = "collector-http-v1";
  content_hash = "runtime,probe UNHEALTHY_STATUS,OBSERVED,false,NaN,collector-http-v1,";
}

nan_refusal-verified :
    (verify_completion joined
      (some "done")
      (ok (item refusal ∷ []))
      (ok (name "runtime" ∷ []))
      none
      (pos 130)).status
    ≡ verified
unfolding verify_completion timestamp gt_time eq_time
nan_refusal-verified = refl

-- A second requirement of one kind, with a shorter horizon, is passed over.
second_passed_over :
    (verify_completion joined
      (some "done")
      (ok (item probe ∷ []))
      (ok (
        requirement runtime ∷ requirement (record runtime { max_age_seconds = some (pos 1) }) ∷ []))
      none
      (pos 130)).status
    ≡ verified
unfolding verify_completion ◌-ℤ◌
second_passed_over = refl

abbrev padded : Requirement
padded = record { kind = " runtime"; max_age_seconds = none }

padded_text : blank padded.kind ≡ false
unfolding blank
padded_text = refl

padded_kind : strip padded.kind ≢ padded.kind
unfolding strip
padded_kind h = ground (arith, eq_iff "runtime" " runtime")

padded_requirement_abstains_example :
    (verify_completion joined
      (some "done")
      (ok (item probe ∷ []))
      (ok (requirement padded ∷ []))
      none
      (pos 130)).status
    ≢ verified
padded_requirement_abstains_example =
    padded_requirement_abstains joined (some "done") (ok (item probe ∷ []))
      (requirement padded ∷ []) none (pos 130) padded (inl refl) padded_text padded_kind

status-failure_example :
    Agrees (verify_completion joined (some "done") (err "OSError") required none (pos 130))
status-failure_example = status-failure joined (some "done") (err "OSError") required none (pos 130)

both_unique :
    (d e : Evidence)
    → d ∈ (self_report ∷ probe ∷ [])
    → e ∈ (self_report ∷ probe ∷ [])
    → d.ident ≡ e.ident
    → d ≡ e
both_unique d e (inl p) (inl q) h = p ∙ sym q
both_unique d e (inl p) (inr (inl q)) h =
    absurd (omega (arith, ap (λ (x : Evidence). x.ident) p, ap (λ (x : Evidence). x.ident) q))
both_unique d e (inr (inl p)) (inl q) h =
    absurd (omega (arith, ap (λ (x : Evidence). x.ident) p, ap (λ (x : Evidence). x.ident) q))
both_unique d e (inr (inl p)) (inr (inl q)) h = p ∙ sym q
both_unique d e (inr (inr m)) k h = absurd m
both_unique d e (inl p) (inr (inr m)) h = absurd m
both_unique d e (inr (inl p)) (inr (inr m)) h = absurd m

probe_accepted :
    (assess_item joined
      (outcomes_of (runtime ∷ []) (self_report ∷ probe ∷ []) (pos 130))
      probe).accepted_by_verifier
    ≡ true
unfolding assess_item outcomes_of ◌-ℤ◌
probe_accepted = refl

accepted_is_observation_example :
    ((assess_item joined
        (outcomes_of (runtime ∷ []) (self_report ∷ probe ∷ []) (pos 130))
        probe).source
      ≡ "OBSERVED")
    × (intact joined probe ≡ true)
    × (probe.valid ≡ true)
    × ((r : Requirement) × (r ∈ (runtime ∷ [])) × Counts r (pos 130) probe)
unfolding assess_item
accepted_is_observation_example =
    accepted_is_observation joined (runtime ∷ []) (self_report ∷ probe ∷ []) (pos 130) probe
      both_unique (inr (inl refl)) probe_accepted

probe_satisfies :
    (assess_item joined
      (outcomes_of (runtime ∷ []) (self_report ∷ probe ∷ []) (pos 130))
      probe).satisfies_requirement
    ≡ true
unfolding assess_item outcomes_of ◌-ℤ◌
probe_satisfies = refl

satisfying_is_accepted_example :
    ((r : Requirement) × (r ∈ (runtime ∷ []))
      × Settled r (pos 130) (self_report ∷ probe ∷ [])
      × Counts r (pos 130) probe)
    × ((assess_item joined
          (outcomes_of (runtime ∷ []) (self_report ∷ probe ∷ []) (pos 130))
          probe).accepted_by_verifier
        ≡ true)
    × ((assess_item joined
          (outcomes_of (runtime ∷ []) (self_report ∷ probe ∷ []) (pos 130))
          probe).rejection_reason
        ≡ "")
satisfying_is_accepted_example =
    satisfying_is_accepted joined (runtime ∷ []) (self_report ∷ probe ∷ []) (pos 130) probe
      both_unique (inr (inl refl)) (probes_intact probe (inl refl)) probe_satisfies
