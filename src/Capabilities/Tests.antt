-- ===== src/Capabilities/Tests.antt =====
-- The roles on a concrete task.
use proofos.Prelude.{◌≡◌, ◌≢◌, refl, ap, true, false, none, some, List, [], ◌∷◌, inl, inr, arith}
use proofos.Prelude.Int.{pos, ◌-ℤ◌}
use proofos.Prelude.Time.{tick}
use proofos.Prelude.Lists.{◌∈◌}
use proofos.Prelude.Results.{ok}
use proofos.Prelude.Text.{strip, blank}
use proofos.Prelude.Assoc.{get}
use proofos.Samples.{joined}
use proofos.Verifier.Types.{
  verified, Evidence, observed, executor, Requirement, VerificationResult, requirement, intact,
  item,
}
use proofos.Verifier.Verify.{verify_completion}
use proofos.Ledger
use proofos.Ledger.{
  ObservationGrant, TaskRecord, EvidenceLedger, new_ledger, grant_observation, record_evidence,
  seal,
}
use proofos.Ledger.Authority.{Reach, here, next, granting, opening, sealing, recording, Covers}
use proofos.Capabilities.{
  ClaimCapability, claim_evidence, ObservationCapability, record_observation, observation_evidence,
  collection_time, verify_task, record_claim,
}
use proofos.Capabilities.Certify.{verified_needs_grants}
use proofos.Capabilities.Claims.{Claim, run_claims, Unobserved, claims_never_certify}
use proofos.Capabilities.Recover.{Awaits, Holds, observation_certifies, observed_ledger}

abbrev runtime : Requirement
runtime = record { kind = "runtime"; max_age_seconds = some (pos 60) }

abbrev self_report : Evidence
self_report = record {
  ident = 2;
  kind = "runtime";
  value = "I verified it";
  source = executor;
  valid = true;
  collected_at = some (tick (pos 120));
  collector = "executor-v1";
  content_hash = "runtime,I verified it,EXECUTOR,true,number,executor-v1,";
}

abbrev probe : Evidence
probe = record {
  ident = 1;
  kind = "runtime";
  value = "probe HEALTHY";
  source = observed;
  valid = true;
  collected_at = some (tick (pos 100));
  collector = "collector-http-v1";
  content_hash = "runtime,probe HEALTHY,OBSERVED,true,number,collector-http-v1,";
}

abbrev waiting : TaskRecord
waiting = record { required_kinds = runtime ∷ []; evidence = self_report ∷ [] }

abbrev ledger_with : TaskRecord → EvidenceLedger
ledger_with t = record { tasks = ("t1", t) ∷ []; marker = 7; sealed = true }

abbrev http_grant : ObservationGrant
http_grant = record { issuer = 7; collector_id = "collector-http-v1"; kinds = "runtime" ∷ [] }

abbrev collector : ObservationCapability
collector = record { agent_id = "collector-http-v1"; grant = http_grant }

-- A task that was opened, claimed and observed.
abbrev settled : TaskRecord
settled = record { required_kinds = runtime ∷ []; evidence = self_report ∷ probe ∷ [] }

run :
    Reach
      (record { ledger = new_ledger 7; issued = [] })
      (record { ledger = ledger_with settled; issued = http_grant ∷ [] })
unfolding grant_observation record_evidence seal Ledger.open_task new_ledger
run =
    next
      (next
        (next
          (next (next here (granting "collector-http-v1" ("runtime" ∷ []) http_grant refl))
            (opening "t1" (runtime ∷ [])))
          sealing)
        (recording "t1" self_report none (ledger_with waiting) tt refl))
      (recording "t1" probe (some http_grant) (ledger_with settled) (λ _. inl refl) refl)

abbrev verdict : VerificationResult
verdict =
    verify_completion joined (some "done") (ok (item self_report ∷ item probe ∷ []))
      (ok (requirement runtime ∷ [])) none (pos 130)

run_verdict : verify_task joined (pos 130) "t1" "done" (ledger_with settled) ≡ ok verdict
unfolding verify_task
run_verdict = refl

run_verified : verdict.status ≡ verified
unfolding verify_completion ◌-ℤ◌
run_verified = refl

verified_needs_grants_example :
    (t : TaskRecord) × (get "t1" (ledger_with settled).tasks ≡ some t)
    × ((r : Requirement) × (r ∈ t.required_kinds) × (blank r.kind ≡ false))
    × ((r : Requirement)
        → r ∈ t.required_kinds
        → blank r.kind ≡ false
        → (e : Evidence) × (e ∈ t.evidence)
          × (e.source ≡ observed)
          × (strip e.kind ≡ r.kind)
          × ((g : ObservationGrant) × (g ∈ (http_grant ∷ [])) × Covers g e))
verified_needs_grants_example =
    verified_needs_grants joined (pos 130) "t1" "done" 7 run run_verdict run_verified

abbrev boasts : List Claim
boasts =
    record { clock = pos 1; ident = 3; task_id = "t1"; kind = "runtime"; value = "done" }
    ∷ record { clock = pos 2; ident = 4; task_id = "t2"; kind = "runtime"; value = "done" }
    ∷ []

waiting-Unobserved : Unobserved (ledger_with waiting)
unfolding get
waiting-Unobserved k t at e m s = ground (arith)

abbrev boaster : ClaimCapability
boaster = record { agent_id = "executor-v1" }

abbrev boast_verdict : VerificationResult
boast_verdict =
    verify_completion joined (some "done")
      (ok (item self_report ∷ item (claim_evidence joined boaster (pos 1) 3 "runtime" "done") ∷ []))
      (ok (requirement runtime ∷ [])) none (pos 3)

boasts_judged :
    verify_task joined (pos 3) "t1" "done" (run_claims joined boaster boasts (ledger_with waiting))
    ≡ ok boast_verdict
unfolding verify_task run_claims record_claim
boasts_judged = refl

claims_never_certify_example : boast_verdict.status ≢ verified
claims_never_certify_example =
    claims_never_certify joined boaster boasts (ledger_with waiting) (pos 3) "t1" "done"
      waiting-Unobserved boasts_judged

waiting-Awaits : Awaits joined (ledger_with waiting) "t1" waiting runtime
unfolding get strip blank intact
waiting-Awaits = record {
  known = refl;
  only = refl;
  kind_stripped = refl;
  kind_text = refl;
  unchanged = unchanged;
  unobserved = unobserved;
}
  where
    unchanged : (e : Evidence) → e ∈ (self_report ∷ []) → intact joined e ≡ true
    unchanged e (inl p) = rw p
    unchanged e (inr m) = absurd m

    unobserved : (e : Evidence) → e ∈ (self_report ∷ []) → e.source ≢ observed
    unobserved e (inl p) s = cc (ap (λ (d : Evidence). d.source) p, s)
    unobserved e (inr m) s = absurd m

collector_Holds : Holds collector (ledger_with waiting) "runtime"
collector_Holds = record { issued_here = refl; covers = inl refl; own_name = refl }

abbrev new_ledger_state : EvidenceLedger
new_ledger_state =
    observed_ledger joined collector (pos 125) 9 "t1" "probe HEALTHY" none (ledger_with waiting)
      waiting runtime waiting-Awaits collector_Holds

observation_certifies_example :
    (record_observation joined collector
        (pos 125)
        9
        "t1"
        "runtime"
        "probe HEALTHY"
        true
        none
        (ledger_with waiting)
      ≡ ok (
        observation_evidence joined collector (pos 125) 9 "runtime" "probe HEALTHY" true none,
        new_ledger_state,
      ))
    × ((v : VerificationResult) × (verify_task joined (pos 130) "t1" "done" new_ledger_state ≡ ok v)
        × (v.status ≡ verified))
unfolding blank collection_time ◌-ℤ◌
observation_certifies_example =
    observation_certifies joined collector (pos 125) 9 "t1" "probe HEALTHY" none
      (ledger_with waiting) waiting runtime waiting-Awaits collector_Holds (pos 130) refl
      (omega arith) tt "done" refl
