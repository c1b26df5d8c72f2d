-- ===== src/Witness/Tests.antt =====
-- Concrete runs: a witness sees versions 1 and 2, and refuses what it should.
use proofos.Prelude.{ℕ, ◌≡◌, refl, ◌⊎◌, inl, true, Option, none, some, List, [], ◌∷◌, ◌++◌}
use proofos.Prelude.Lists.{◌∈◌, length}
use proofos.Prelude.Int.{pos}
use proofos.Prelude.Results.{Result, ok, err}
use proofos.Samples.{joined}
use proofos.Checkpoint.{finite}
use proofos.Checkpoint.Tests.{toy_library, checkpoint_at, envelope_at}
use proofos.Witness.Observe.{
  WitnessError, WitnessRecord, WitnessLedger, history, verify_history, rollback, gap,
  observed_too_early, observe,
}
use proofos.Witness.Sequence.{Observation, observe_one, observe_all, observed_histories_verify}
use proofos.Witness.Promises.{no_equivocation, Signed, witnessed-Signed, history_only_grows}

abbrev shown_at : ℕ → Observation
shown_at n = record {
  library = toy_library;
  clock = pos 9;
  envelope = envelope_at n;
  checkpoint = checkpoint_at n;
  observed_at = none;
}

abbrev nothing_seen : WitnessLedger
nothing_seen = record { witness_id = "witness"; records = [] }

abbrev two_calls : List Observation
two_calls = shown_at 1 ∷ shown_at 2 ∷ shown_at 2 ∷ []

abbrev failure : Result WitnessError (WitnessRecord × WitnessLedger) → Option WitnessError
failure (ok r) = none
failure (err e) = some e

two_records : length (history "op" (observe_all joined two_calls nothing_seen)) ≡ 2
unfolding observe_all observe length
two_records = refl

rolled_back :
    failure (observe_one joined (shown_at 1) (observe_all joined two_calls nothing_seen))
    ≡ some (rollback 1 2)
unfolding observe_all observe length
rolled_back = refl

left_gap :
    failure (observe_one joined (shown_at 4) (observe_all joined two_calls nothing_seen))
    ≡ some (gap 3 4)
unfolding observe_all observe length
left_gap = refl

too_early :
    failure (
      observe_one joined (record (shown_at 1) { observed_at = some (finite (pos 6)) }) nothing_seen)
    ≡ some observed_too_early
unfolding observe_all observe length
too_early = refl

observed_histories_verify_example :
    verify_history joined "op" (observe_all joined two_calls nothing_seen) ≡ (true, [])
observed_histories_verify_example = observed_histories_verify joined "witness" two_calls "op"

abbrev first_of : List WitnessRecord → WitnessRecord → WitnessRecord
first_of [] d = d
first_of (r ∷ rs) d = r

abbrev blank_record : WitnessRecord
blank_record = record {
  version = "";
  witness_id = "";
  signer_id = "";
  operation_id = "";
  execution_id = "";
  checkpoint_version = 0;
  checkpoint_digest = "";
  last_journal_sequence = pos 0;
  last_journal_hash = "";
  checkpoint_signature = "";
  observed_at = pos 0;
  previous_record_hash = "";
  record_hash = "";
}

abbrev recorded : WitnessRecord
recorded = first_of (history "op" (observe_all joined two_calls nothing_seen)) blank_record

recorded_mem : recorded ∈ history "op" (observe_all joined two_calls nothing_seen)
unfolding observe_all observe length
recorded_mem = inl refl

no_equivocation_example : recorded ≡ recorded
no_equivocation_example =
    no_equivocation joined "witness" two_calls "op" recorded recorded recorded_mem recorded_mem refl

witnessed-Signed_example :
    (recorded ∈ history "op" nothing_seen)
    ⊎ ((o : Observation) × (o ∈ two_calls)
        × ((o.envelope).operation_id ≡ "op")
        × Signed joined o recorded)
witnessed-Signed_example = witnessed-Signed joined two_calls nothing_seen "op" recorded recorded_mem

history_only_grows_example :
    (more : List WitnessRecord) × (history "op" (observe_all joined two_calls nothing_seen)
      ≡ history "op" nothing_seen ++ more)
history_only_grows_example = history_only_grows joined two_calls nothing_seen "op"
