-- ===== src/Recovery/Outcome.antt =====
-- The bound of the recovery loop, and what a VERIFIED outcome has behind it.
use proofos.Prelude.{
  ℕ, zero, suc, ◌+◌, ◌≤◌, ◌<◌, String, ◌≡◌, refl, sym, ap, ◌∙◌, ◌⊎◌, inl, inr, true, Option, none,
  some, List, [], ◌∷◌, ◌++◌, arith,
}
use proofos.Prelude.Tests.{eq_iff, nat_eq, Bool-cases}
use proofos.Prelude.Lists.{length}
use proofos.Prelude.Sets.{minus}
use proofos.Prelude.Text.{strip}
use proofos.Prelude.Assoc.{keys}
use proofos.Recovery.Notes.{Decision, Turn, decision, JournalSink, Collectors, note}
use proofos.Recovery.Loop.{
  TranscriptEntry, Run, Progress, stop, go_on, turn_taken, recover, or_none_missing, says_verified,
  decide_next, attempt_once, attempts, proceed, fresh_run, downgraded, looped, run_loop,
  decision_note,
}

-- The transcript's entry of one attempt, and of the next n.
abbrev pub entry_of : (ℕ → Turn) → ℕ → TranscriptEntry
entry_of run_turn a = record {
  attempt = a;
  tool_calls = (run_turn a).tool_calls;
  verifier_decision = decision (run_turn a);
  agent_final_text = strip (run_turn a).final_text;
}

unfoldable pub entries_from : (ℕ → Turn) → ℕ → ℕ → List TranscriptEntry
entries_from run_turn a zero = []
entries_from run_turn a (suc n) = entry_of run_turn a ∷ entries_from run_turn (a + 1) n

-- The attempt's turn ended with the verifier's decision VERIFIED.
pub record Decided (run_turn : ℕ → Turn) (a : ℕ) : Type 0 where
  pub verdict : Decision
  pub from_verifier : decision (run_turn a) ≡ some verdict
  pub says : says_verified verdict.status ≡ true

abbrev pub reached : Progress → Run
reached (stop s) = s
reached (go_on s) = s

append_assoc : (xs ys zs : List TranscriptEntry) → (xs ++ ys) ++ zs ≡ xs ++ (ys ++ zs)
append_assoc [] ys zs = refl
append_assoc (x ∷ xs) ys zs = ap (◌∷◌ x) (append_assoc xs ys zs)

append-empty : (xs : List TranscriptEntry) → xs ++ [] ≡ xs
append-empty [] = refl
append-empty (x ∷ xs) = ap (◌∷◌ x) (append-empty xs)

module _ (journal : Option JournalSink) (collectors : Collectors) (run_turn : ℕ → Turn)
    (max_attempts : ℕ) where
  recover-keeps :
      (a : ℕ) (kinds uncollectable : List String) (s : Run)
      → ((reached (recover journal collectors a kinds uncollectable s)).transcript ≡ s.transcript)
        × ((reached (recover journal collectors a kinds uncollectable s)).final_status
            ≡ s.final_status)
  recover-keeps a kinds [] s = (refl, refl)
  recover-keeps a kinds (k ∷ ks) s = (refl, refl)

  decide_next-keeps :
      (a : ℕ) (o : Option Decision) (s : Run)
      → ((reached (decide_next journal collectors max_attempts a o s)).transcript ≡ s.transcript)
        × (((reached (decide_next journal collectors max_attempts a o s)).final_status
              ≡ s.final_status)
            ⊎ ((d : Decision) × (o ≡ some d) × (says_verified d.status ≡ true)))
  unfolding decide_next
  decide_next-keeps a none s = (refl, inl refl)
  decide_next-keeps a (some d) s = elim (Bool-cases (says_verified d.status)) [
    | inl v ↦ (rw v, inr (d, refl, v))
    | inr v ↦ elim (Bool-cases (nat_eq a max_attempts)) [
      | inl m ↦ (rw (v, m), inl (rw (v, m)))
      | inr m ↦ (
        rw (v, m)
            (recover-keeps a (or_none_missing d.missing)
              (minus (or_none_missing d.missing) (keys collectors)) _).0,
        inl (
            rw (v, m)
              (recover-keeps a (or_none_missing d.missing)
                (minus (or_none_missing d.missing) (keys collectors)) _).1),
      )
    ]
  ]

  -- One attempt adds its entry, and reports VERIFIED only if the verifier decided so.
  pub attempt_once-keeps :
      (a : ℕ) (s : Run)
      → ((reached (attempt_once journal collectors run_turn max_attempts a s)).transcript
          ≡ s.transcript ++ entry_of run_turn a ∷ [])
        × (((reached (attempt_once journal collectors run_turn max_attempts a s)).final_status
              ≡ s.final_status)
            ⊎ Decided run_turn a)
  unfolding attempt_once turn_taken
  attempt_once-keeps a s =
      let k = decide_next-keeps a (decision (run_turn a)) (turn_taken journal a (run_turn a) s) in
      (
        k.0,
        elim k.1 [
          | inl same ↦ inl same
          | inr (d, e, v) ↦ inr (record { verdict = d; from_verifier = e; says = v })
        ],
      )

  -- The runs that `attempts` leads to: some of the attempts left were made, in order, and VERIFIED
  -- was decided in one of them.
  pub record Attempted (a left : ℕ) (s final : Run) : Type 0 where
    pub made : ℕ
    pub within : made ≤ left
    pub in_order : final.transcript ≡ s.transcript ++ entries_from run_turn a made
    pub status_from :
        (final.final_status ≡ s.final_status)
        ⊎ ((i : ℕ) × (a ≤ i) × (i < a + made) × Decided run_turn i)

  attempts-Attempted :
      (a left : ℕ) (s : Run)
      → Attempted a left s (attempts journal collectors run_turn max_attempts a left s)
  unfolding attempts entries_from
  attempts-Attempted a zero s = record {
    made = 0;
    within = omega arith;
    in_order = sym (append-empty s.transcript);
    status_from = inl refl;
  }
  attempts-Attempted a (suc left) s =
      by_progress (attempt_once journal collectors run_turn max_attempts a s)
        (attempt_once-keeps a s) (attempts-Attempted (a + 1) left)
    where
      by_progress :
          (p : Progress)
          → ((reached p).transcript ≡ s.transcript ++ entry_of run_turn a ∷ [])
            × (((reached p).final_status ≡ s.final_status) ⊎ Decided run_turn a)
          → ((t : Run)
              → Attempted
                  (a + 1)
                  left
                  t
                  (attempts journal collectors run_turn max_attempts (a + 1) left t))
          → Attempted a
              (suc left)
              s
              (proceed (attempts journal collectors run_turn max_attempts (a + 1) left) p)
      by_progress (stop t) (e, d) ih = record {
        made = 1;
        within = omega arith;
        in_order = e;
        status_from = elim d [ inl same ↦ inl same | inr v ↦ inr (a, omega arith, omega arith, v) ];
      }
      by_progress (go_on t) (e, d) ih =
          let r = ih t in
          record {
            made = suc r.made;
            within = omega (arith, r.within);
            in_order =
                r.in_order
                ∙ (ap (λ xs. xs ++ entries_from run_turn (a + 1) r.made) e
                    ∙ append_assoc s.transcript (entry_of run_turn a ∷ [])
                        (entries_from run_turn (a + 1) r.made));
            status_from = elim r.status_from [
              | inr (i, lo, hi, v) ↦ inr (i, omega arith, omega arith, v)
              | inl same ↦ elim d [
                | inl old ↦ inl (same ∙ old)
                | inr v ↦ inr (a, omega arith, omega arith, v)
              ]
            ];
          }

  length-entries_from : (a n : ℕ) → length (entries_from run_turn a n) ≡ n
  unfolding entries_from
  length-entries_from a zero = refl
  length-entries_from a (suc n) = ap suc (length-entries_from (a + 1) n)

  pub loop-Attempted :
      Attempted 1 max_attempts fresh_run (looped journal collectors run_turn max_attempts)
  loop-Attempted =
      let r = attempts-Attempted 1 max_attempts (record fresh_run {
        audit =
            note journal (proofos.Recovery.Loop.start_note collectors max_attempts) fresh_run.audit;
      }) in
      record {
        made = r.made;
        within = r.within;
        in_order = r.in_order;
        status_from = r.status_from;
      }

  downgraded-transcript : (es : List String) (s : Run) → (downgraded es s).transcript ≡ s.transcript
  downgraded-transcript [] s = refl
  downgraded-transcript (e ∷ es) s = refl

  -- The loop makes at most `max_attempts` attempts, whatever the model, the collectors and the
  -- journal do, and its transcript is the turns of the attempts made, in order.
  pub attempts_bounded :
      (n : ℕ) × (n ≤ max_attempts)
      × ((run_loop journal collectors run_turn max_attempts).transcript ≡ entries_from run_turn 1 n)
      × (length (run_loop journal collectors run_turn max_attempts).transcript ≡ n)
  unfolding run_loop
  attempts_bounded =
      let r = loop-Attempted in
      let e =
        downgraded-transcript ((looped journal collectors run_turn max_attempts).audit).failures
          (looped journal collectors run_turn max_attempts)
        ∙ r.in_order in
      (r.made, r.within, e, ap length e ∙ length-entries_from 1 r.made)

  downgraded-verified :
      (es : List String) (s : Run)
      → (downgraded es s).final_status ≡ "VERIFIED"
      → (es ≡ []) × (s.final_status ≡ "VERIFIED")
  downgraded-verified [] s h = (refl, h)
  downgraded-verified (e ∷ es) s h = absurd (ground (arith, (eq_iff "ABSTAIN" "VERIFIED").1 h))

  -- If the outcome is VERIFIED, then the transcript is the turns of the attempts 1 to n, for an n that
  -- is at most the maximum, in one of these attempts the verifier decided VERIFIED, and the journal
  -- refused none of the notes before the last one.
  pub run_loop-Decided :
      (run_loop journal collectors run_turn max_attempts).final_status ≡ "VERIFIED"
      → (((looped journal collectors run_turn max_attempts).audit).failures ≡ [])
        × ((n : ℕ) × (n ≤ max_attempts)
            × ((run_loop journal collectors run_turn max_attempts).transcript
                ≡ entries_from run_turn 1 n)
            × ((i : ℕ) × (1 ≤ i) × (i ≤ n) × Decided run_turn i))
  unfolding run_loop
  run_loop-Decided h =
      let v =
        downgraded-verified ((looped journal collectors run_turn max_attempts).audit).failures
          (looped journal collectors run_turn max_attempts) h in
      let r = loop-Attempted in
      (
        v.0,
        (
          r.made,
          r.within,
          downgraded-transcript ((looped journal collectors run_turn max_attempts).audit).failures
                (looped journal collectors run_turn max_attempts)
              ∙ r.in_order,
          elim r.status_from [
            | inl same ↦ absurd (ground (arith, (eq_iff "ABSTAIN" "VERIFIED").1 (sym same ∙ v.1)))
            | inr (i, lo, hi, d) ↦ (i, lo, omega arith, d)
          ],
        ),
      )
