-- ===== src/Recovery/Completion.antt =====
-- When the recovery loop succeeds, and what its last note cannot take back.
use mathlib.Core.Path.{subst}
use proofos.Prelude.{
  ℕ, zero, suc, ◌+◌, ◌≤◌, ◌<◌, String, ◌≡◌, refl, ap, ◌∙◌, false, Option, some, List, [], ◌∷◌, ◌++◌,
  arith,
}
use proofos.Prelude.Tests.{nat_eq}
use proofos.Prelude.Lists.{length}
use proofos.Prelude.Sets.{minus}
use proofos.Prelude.Assoc.{keys}
use proofos.Recovery.Notes.{Decision, Turn, decision, JournalSink, Collectors, note}
use proofos.Recovery.Loop.{
  Run, Progress, stop, go_on, or_none_missing, says_verified, decide_next, attempt_once, attempts,
  proceed, fresh_run, looped, complete_note, run_loop, start_note,
}
use proofos.Recovery.Outcome.{Decided, entry_of, reached, attempt_once-keeps}

length-snoc : {A : Type 0} (xs : List A) (x : A) → length (xs ++ x ∷ []) ≡ length xs + 1
length-snoc [] x = refl
length-snoc (y ∷ ys) x = ground (arith, length-snoc ys x)

module _ (collectors : Collectors) (run_turn : ℕ → Turn) where
  -- The verifier did not decide VERIFIED, and each kind that it misses has a collector.
  pub record Recoverable (a : ℕ) : Type 0 where
    pub verdict : Decision
    pub from_verifier : decision (run_turn a) ≡ some verdict
    pub abstains : says_verified verdict.status ≡ false
    pub collectable : minus (or_none_missing verdict.missing) (keys collectors) ≡ []

-- The loop ends with VERIFIED, and it goes on.
abbrev EndsVerified : Progress → Type 0
EndsVerified (stop s) = s.final_status ≡ "VERIFIED"
EndsVerified (go_on s) = ⊥

abbrev GoesOn : Progress → Type 0
GoesOn (stop s) = ⊥
GoesOn (go_on s) = Unit

module _ (journal : Option JournalSink) (collectors : Collectors) (run_turn : ℕ → Turn)
    (max_attempts : ℕ) where
  attempt_once-Decided :
      (a : ℕ) (s : Run)
      → Decided run_turn a
      → EndsVerified (attempt_once journal collectors run_turn max_attempts a s)
  unfolding attempt_once decide_next
  attempt_once-Decided a s d = rw (d.from_verifier, d.says) refl

  attempt_once_recovers :
      (a : ℕ) (s : Run)
      → Recoverable collectors run_turn a
      → a < max_attempts
      → GoesOn (attempt_once journal collectors run_turn max_attempts a s)
  unfolding attempt_once decide_next
  attempt_once_recovers a s r l =
      let differ : nat_eq a max_attempts ≡ false = ground arith in
      rw (r.from_verifier, r.abstains, differ, r.collectable) tt

  attempts_succeed :
      (a k left : ℕ) (s : Run)
      → suc k ≤ left
      → a + k < max_attempts + 1
      → ((i : ℕ) → a ≤ i → i < a + k → Recoverable collectors run_turn i)
      → Decided run_turn (a + k)
      → ((attempts journal collectors run_turn max_attempts a left s).final_status ≡ "VERIFIED")
        × (length (attempts journal collectors run_turn max_attempts a left s).transcript
            ≡ length s.transcript + suc k)
  unfolding attempts
  attempts_succeed a k zero s l m earlier d = absurd (omega arith)
  attempts_succeed a zero (suc left) s l m earlier d =
      by_progress (attempt_once journal collectors run_turn max_attempts a s)
        (attempt_once-keeps journal collectors run_turn max_attempts a s).0
        (attempt_once-Decided a s (subst (Decided run_turn) (omega arith) d))
    where
      by_progress :
          (p : Progress)
          → (reached p).transcript ≡ s.transcript ++ entry_of run_turn a ∷ []
          → EndsVerified p
          → ((proceed
                (attempts journal collectors run_turn max_attempts (a + 1) left)
                p).final_status
              ≡ "VERIFIED")
            × (length
                  (proceed
                    (attempts journal collectors run_turn max_attempts (a + 1) left)
                    p).transcript
                ≡ length s.transcript + 1)
      by_progress (stop t) e v = (v, ap length e ∙ length-snoc s.transcript (entry_of run_turn a))
      by_progress (go_on t) e v = absurd v
  attempts_succeed a (suc k) (suc left) s l m earlier d =
      by_progress (attempt_once journal collectors run_turn max_attempts a s)
        (attempt_once-keeps journal collectors run_turn max_attempts a s).0
        (attempt_once_recovers a s (earlier a (omega arith) (omega arith)) (omega arith))
        (λ t.
          attempts_succeed (a + 1) k left t (omega arith) (omega arith)
            (λ i lo hi. earlier i (omega arith) (omega arith))
            (subst (Decided run_turn) (omega arith) d))
    where
      by_progress :
          (p : Progress)
          → (reached p).transcript ≡ s.transcript ++ entry_of run_turn a ∷ []
          → GoesOn p
          → ((t : Run)
              → ((attempts journal collectors run_turn max_attempts (a + 1) left t).final_status
                  ≡ "VERIFIED")
                × (length
                      (attempts journal collectors run_turn max_attempts (a + 1) left t).transcript
                    ≡ length t.transcript + suc k))
          → ((proceed
                (attempts journal collectors run_turn max_attempts (a + 1) left)
                p).final_status
              ≡ "VERIFIED")
            × (length
                  (proceed
                    (attempts journal collectors run_turn max_attempts (a + 1) left)
                    p).transcript
                ≡ length s.transcript + suc (suc k))
      by_progress (stop t) e g ih = absurd g
      by_progress (go_on t) e g ih = (
        (ih t).0,
        omega (arith, (ih t).1, ap length e, length-snoc s.transcript (entry_of run_turn a)),
      )

  -- If the verifier decides VERIFIED in an attempt within the bound, each kind that it missed in an
  -- earlier attempt has a collector, and the journal takes every note up to the last one, then the outcome
  -- is VERIFIED after exactly so many attempts.
  pub recovery_succeeds :
      (a : ℕ)
      → 1 ≤ a
      → a ≤ max_attempts
      → ((i : ℕ) → 1 ≤ i → i < a → Recoverable collectors run_turn i)
      → Decided run_turn a
      → ((looped journal collectors run_turn max_attempts).audit).failures ≡ []
      → ((run_loop journal collectors run_turn max_attempts).final_status ≡ "VERIFIED")
        × (length (run_loop journal collectors run_turn max_attempts).transcript ≡ a)
  unfolding run_loop
  recovery_succeeds zero l m earlier d intact = absurd (omega arith)
  recovery_succeeds (suc k) l m earlier d intact =
      let r =
        attempts_succeed 1 k max_attempts
          (record fresh_run {
            audit = note journal (start_note collectors max_attempts) fresh_run.audit;
          })
          m (omega arith) (λ i lo hi. earlier i lo (omega arith))
          (subst (Decided run_turn) (omega arith) d) in
      rw intact (r.0, omega (arith, r.1))

-- The last note comes after the journal's failures were looked at: if it is the only one that the
-- journal refuses, the outcome stays VERIFIED, with this failure in it.
pub unrecorded_completion :
    (sink : JournalSink) (collectors : Collectors) (run_turn : ℕ → Turn) (max_attempts : ℕ)
    (message : String)
    → ((looped (some sink) collectors run_turn max_attempts).audit).failures ≡ []
    → (looped (some sink) collectors run_turn max_attempts).final_status ≡ "VERIFIED"
    → sink
        ((looped (some sink) collectors run_turn max_attempts).audit).tried
        (complete_note (looped (some sink) collectors run_turn max_attempts))
      ≡ some message
    → ((run_loop (some sink) collectors run_turn max_attempts).final_status ≡ "VERIFIED")
      × (((run_loop (some sink) collectors run_turn max_attempts).audit).failures ≡ message ∷ [])
unfolding run_loop note
unrecorded_completion sink collectors run_turn max_attempts message intact verified refused =
    rw (intact, refused, intact) (verified, refl)
