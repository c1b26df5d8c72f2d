-- ===== src/Recovery/Tests.antt =====
-- Concrete runs of the loop: it collects what is missing, and gives up.
use mathlib.Core.Bool.{true}
use proofos.Prelude.{
  ℕ, zero, suc, ◌≤◌, ◌<◌, String, ◌≡◌, refl, sym, ap, Option, none, some, List, [], ◌∷◌, arith,
}
use proofos.Prelude.Lists.{length}
use proofos.Prelude.Tests.{◌==◌, if◌then◌else◌}
use proofos.Recovery.Notes.{
  Decision, Turn, JournalSink, Collectors, Collected, Audit, Note, Reason, exhausted, no_collector,
  not_called,
}
use proofos.Recovery.Loop.{complete_note, looped, run_loop}
use proofos.Recovery.Outcome.{Decided, run_loop-Decided, attempts_bounded, entries_from}
use proofos.Recovery.Completion.{Recoverable, recovery_succeeds, unrecorded_completion}

abbrev abstention : Decision
abstention = record {
  status = some "ABSTAIN";
  failure = some "MISSING_EVIDENCE";
  missing = some ("health" ∷ []);
  reason = some "no evidence";
}

abbrev verdict : Decision
verdict = record {
  status = some "VERIFIED";
  failure = none;
  missing = none;
  reason = some "all satisfied";
}

abbrev turn_with : List Decision → Turn
turn_with ds = record {
  tool_calls = record { name = some "verify_task_completion"; args = none } ∷ [];
  tool_results = ds;
  final_text = "done";
}

-- The first turn lacks evidence, the later ones have it.
abbrev second_time : ℕ → Turn
second_time zero = turn_with (abstention ∷ [])
second_time (suc zero) = turn_with (abstention ∷ [])
second_time (suc (suc n)) = turn_with (verdict ∷ [])

abbrev probe : Collectors
probe =
    (
      "health",
      λ n. some (record {
        outcome = some "HEALTHY";
        observed_response = some true;
        healthy = some true;
        detail = none;
      }),
    )
    ∷ []

abbrev quiet : JournalSink
quiet notes n = none

abbrev no_completion : JournalSink
no_completion notes n = if n.agent == "orchestrator" then refused n.status else none
  where
    refused : String → Option String
    refused s = if s == "VERIFIED" then some "EXECUTION_COMPLETE: sink is down" else none

gives_up : (run_loop (some quiet) [] second_time 2).terminal_reason ≡ no_collector ("health" ∷ [])
unfolding run_loop
gives_up = refl

one_try : (run_loop (some quiet) probe second_time 1).terminal_reason ≡ exhausted 1
unfolding run_loop
one_try = refl

silent : (run_loop none probe (λ n. turn_with []) 2).terminal_reason ≡ not_called
unfolding run_loop
silent = refl

every_note : length ((run_loop (some quiet) probe second_time 2).audit).tried ≡ 10
unfolding run_loop length
every_note = refl

attempts_bounded_example :
    (n : ℕ) × (n ≤ 2)
    × ((run_loop (some quiet) probe second_time 2).transcript ≡ entries_from second_time 1 n)
    × (length (run_loop (some quiet) probe second_time 2).transcript ≡ n)
attempts_bounded_example = attempts_bounded (some quiet) probe second_time 2

verifies : (run_loop (some quiet) probe second_time 2).final_status ≡ "VERIFIED"
unfolding run_loop
verifies = refl

run_loop-Decided_example :
    (((looped (some quiet) probe second_time 2).audit).failures ≡ [])
    × ((n : ℕ) × (n ≤ 2)
        × ((run_loop (some quiet) probe second_time 2).transcript ≡ entries_from second_time 1 n)
        × ((i : ℕ) × (1 ≤ i) × (i ≤ n) × Decided second_time i))
run_loop-Decided_example = run_loop-Decided (some quiet) probe second_time 2 verifies

first-Recoverable : (i : ℕ) → 1 ≤ i → i < 2 → Recoverable probe second_time i
unfolding proofos.Recovery.Notes.last_result proofos.Prelude.Sets.minus
first-Recoverable zero l h = absurd (omega arith)
first-Recoverable (suc zero) l h = record {
  verdict = abstention;
  from_verifier = refl;
  abstains = refl;
  collectable = refl;
}
first-Recoverable (suc (suc n)) l h = absurd (omega arith)

second_decides : Decided second_time 2
unfolding proofos.Recovery.Notes.last_result
second_decides = record { verdict = verdict; from_verifier = refl; says = refl }

all_recorded : ((looped (some quiet) probe second_time 2).audit).failures ≡ []
unfolding run_loop
all_recorded = refl

recovery_succeeds_example :
    ((run_loop (some quiet) probe second_time 2).final_status ≡ "VERIFIED")
    × (length (run_loop (some quiet) probe second_time 2).transcript ≡ 2)
recovery_succeeds_example =
    recovery_succeeds (some quiet) probe second_time 2 2 (omega arith) (omega arith)
      first-Recoverable second_decides all_recorded

up_to_completion : ((looped (some no_completion) probe second_time 2).audit).failures ≡ []
unfolding run_loop
up_to_completion = refl

reached_verified : (looped (some no_completion) probe second_time 2).final_status ≡ "VERIFIED"
unfolding run_loop
reached_verified = refl

completion_refused :
    no_completion
      ((looped (some no_completion) probe second_time 2).audit).tried
      (complete_note (looped (some no_completion) probe second_time 2))
    ≡ some "EXECUTION_COMPLETE: sink is down"
unfolding run_loop
completion_refused = refl

unrecorded_completion_example :
    ((run_loop (some no_completion) probe second_time 2).final_status ≡ "VERIFIED")
    × (((run_loop (some no_completion) probe second_time 2).audit).failures
        ≡ "EXECUTION_COMPLETE: sink is down" ∷ [])
unrecorded_completion_example =
    unrecorded_completion no_completion probe second_time 2 "EXECUTION_COMPLETE: sink is down"
      up_to_completion reached_verified completion_refused
