-- ===== src/Verifier/Assessed.antt =====
-- What the assessments of a decision promise.
use proofos.Prelude.{
  ℕ, ◌≡◌, refl, ap, ◌⊎◌, inl, inr, true, false, Option, none, some, List, [], ◌∷◌, ◌++◌, map, arith,
}
use proofos.Prelude.Tests.{Bool-cases}
use proofos.Prelude.Int.{ℤ}
use proofos.Prelude.Lists.{◌∈◌, select, any-false, mem-select}
use proofos.Verifier.Types.{
  FailureClass, evidence_missing, evidence_untrusted, Evidence, Requirement,
}
use proofos.Prelude.Time.{eq_time}
use proofos.Verifier.Evaluate.{
  timestamp, max_time, unsound, govern_fresh, govern, when_any, evaluate,
}
use proofos.Verifier.Assess.{accepted_ids, governing_ids, succeeded}
use proofos.Verifier.Verify.{outcomes_of}
use proofos.Verifier.Settled.{Counts}
use proofos.Verifier.Decides.{pool, mem-pool}

chain-accepted :
    (m t f : List Evidence) (e : Evidence)
    → e ∈ (when_any m evidence_missing (when_any t evidence_untrusted (govern_fresh f))).accepted
    → e ∈ f
unfolding govern
chain-accepted [] t f e h = absurd h
chain-accepted (a ∷ m) [] f e h = absurd h
chain-accepted (a ∷ m) (b ∷ t) [] e h = absurd h
chain-accepted (a ∷ m) (b ∷ t) (x ∷ xs) e h = h

govern-governing :
    (x : Evidence) (xs : List Evidence) (e : Evidence) → e ∈ (govern x xs).governing → e ∈ (x ∷ xs)
unfolding govern
govern-governing x xs e h =
    (mem-select (λ d. eq_time (timestamp d) (max_time (timestamp x) xs)) (x ∷ xs) h).0

chain-governing :
    (m t f : List Evidence) (e : Evidence)
    → e ∈ (when_any m evidence_missing (when_any t evidence_untrusted (govern_fresh f))).governing
    → e ∈ f
chain-governing [] t f e h = absurd h
chain-governing (a ∷ m) [] f e h = absurd h
chain-governing (a ∷ m) (b ∷ t) [] e h = absurd h
chain-governing (a ∷ m) (b ∷ t) (x ∷ xs) e h = govern-governing x xs e h

module _ (r : Requirement) (items : List Evidence) (now : ℤ) (e : Evidence) where
  pub evaluate-accepted : e ∈ (evaluate r items now).accepted → (e ∈ items) × Counts r now e
  unfolding evaluate
  evaluate-accepted h = mem-pool r items now e (chain-accepted _ _ (pool r items now) e h)

  pub evaluate-governing : e ∈ (evaluate r items now).governing → (e ∈ items) × Counts r now e
  unfolding evaluate
  evaluate-governing h = mem-pool r items now e (chain-governing _ _ (pool r items now) e h)

-- Identities.
abbrev pub HasIdent : ℕ → List Evidence → Type 0
HasIdent i xs = (e : Evidence) × (e ∈ xs) × (i ≡ e.ident)

mem-idents :
    (i : ℕ) (xs : List Evidence) (rest : List ℕ)
    → i ∈ (map (λ e. e.ident) xs ++ rest)
    → HasIdent i xs ⊎ (i ∈ rest)
mem-idents i [] rest m = inr m
mem-idents i (x ∷ xs) rest (inl e) = inl (x, inl refl, e)
mem-idents i (x ∷ xs) rest (inr m) = elim (mem-idents i xs rest m) [
  | inl (d, k, e) ↦ inl (d, inr k, e)
  | inr k ↦ inr k
]

abbrev pub Accepts : List Requirement → List Evidence → ℤ → ℕ → Type 0
Accepts rs items now i = (r : Requirement) × (r ∈ rs) × HasIdent i (evaluate r items now).accepted

pub mem-accepted_ids :
    (rs : List Requirement) (items : List Evidence) (now : ℤ) (i : ℕ)
    → i ∈ accepted_ids (outcomes_of rs items now)
    → Accepts rs items now i
unfolding accepted_ids outcomes_of
mem-accepted_ids [] items now i m = absurd m
mem-accepted_ids (q ∷ rs) items now i m =
    elim (mem-idents i (evaluate q items now).accepted (accepted_ids (outcomes_of rs items now))
      m) [
        | inl h ↦ (q, inl refl, h)
        | inr k ↦ let h = mem-accepted_ids rs items now i k in (h.0, inr h.1, h.2)
      ]

abbrev pub Governs : List Requirement → List Evidence → ℤ → ℕ → Type 0
Governs rs items now i =
    (r : Requirement) × (r ∈ rs)
    × ((evaluate r items now).failure ≡ none)
    × HasIdent i (evaluate r items now).governing

succeeded-none : (o : Option FailureClass) → succeeded o ≡ true → o ≡ none
unfolding succeeded
succeeded-none none h = refl
succeeded-none (some f) h = cc

pub mem-governing_ids :
    (rs : List Requirement) (items : List Evidence) (now : ℤ) (i : ℕ)
    → i ∈ governing_ids (outcomes_of rs items now)
    → Governs rs items now i
unfolding governing_ids outcomes_of
mem-governing_ids [] items now i m = absurd m
mem-governing_ids (q ∷ rs) items now i m =
    elim (Bool-cases (succeeded (evaluate q items now).failure)) [
      | inl s ↦
          by_head s
            (mem-idents i (evaluate q items now).governing
              (governing_ids (outcomes_of rs items now)) (rw s at m))
            (mem-governing_ids rs items now i)
      | inr s ↦ later (mem-governing_ids rs items now i (rw s at m))
    ]
  where
    later : Governs rs items now i → Governs (q ∷ rs) items now i
    later (r, k, e, h) = (r, inr k, e, h)

    by_head :
        succeeded (evaluate q items now).failure ≡ true
        → HasIdent i (evaluate q items now).governing
          ⊎ (i ∈ governing_ids (outcomes_of rs items now))
        → (i ∈ governing_ids (outcomes_of rs items now) → Governs rs items now i)
        → Governs (q ∷ rs) items now i
    by_head s (inl h) rec = (q, inl refl, succeeded-none _ s, h)
    by_head s (inr k) rec = later (rec k)

chain_sound :
    (m t f : List Evidence) (e : Evidence)
    → (when_any m evidence_missing (when_any t evidence_untrusted (govern_fresh f))).failure ≡ none
    → e ∈ (when_any m evidence_missing (when_any t evidence_untrusted (govern_fresh f))).governing
    → (unsound e ≡ false)
      × (e
          ∈ (when_any m evidence_missing (when_any t evidence_untrusted (govern_fresh f))).accepted)
unfolding govern
chain_sound [] t f e n h = absurd h
chain_sound (a ∷ m) [] f e n h = absurd h
chain_sound (a ∷ m) (b ∷ t) [] e n h = absurd h
chain_sound (a ∷ m) (b ∷ t) (x ∷ xs) e n h = (
  any-false unsound (select (λ d. eq_time (timestamp d) (max_time (timestamp x) xs)) (x ∷ xs))
      (ground arith) h,
  (mem-select (λ d. eq_time (timestamp d) (max_time (timestamp x) xs)) (x ∷ xs) h).0,
)

pub evaluate_sound :
    (r : Requirement) (items : List Evidence) (now : ℤ) (e : Evidence)
    → (evaluate r items now).failure ≡ none
    → e ∈ (evaluate r items now).governing
    → (unsound e ≡ false) × (e ∈ (evaluate r items now).accepted)
unfolding evaluate
evaluate_sound r items now e n h = chain_sound _ _ (pool r items now) e n h

ident-append :
    (e : Evidence) (xs : List Evidence) (rest : List ℕ)
    → e ∈ xs
    → e.ident ∈ (map (λ d. d.ident) xs ++ rest)
ident-append e [] rest m = absurd m
ident-append e (x ∷ xs) rest (inl q) = inl (ap (λ (d : Evidence). d.ident) q)
ident-append e (x ∷ xs) rest (inr m) = inr (ident-append e xs rest m)

mem_append_right : {A : Type 0} (xs ys : List A) (x : A) → x ∈ ys → x ∈ (xs ++ ys)
mem_append_right [] ys x m = m
mem_append_right (y ∷ xs) ys x m = inr (mem_append_right xs ys x m)

pub mem-accepted_ids_of :
    (rs : List Requirement) (items : List Evidence) (now : ℤ) (r : Requirement) (e : Evidence)
    → r ∈ rs
    → e ∈ (evaluate r items now).accepted
    → e.ident ∈ accepted_ids (outcomes_of rs items now)
unfolding accepted_ids outcomes_of
mem-accepted_ids_of [] items now r e m h = absurd m
mem-accepted_ids_of (q ∷ rs) items now r e (inl p) h =
    ident-append e (evaluate q items now).accepted (accepted_ids (outcomes_of rs items now))
      (rw p at h)
mem-accepted_ids_of (q ∷ rs) items now r e (inr m) h =
    mem_append_right (map (λ d. d.ident) (evaluate q items now).accepted)
      (accepted_ids (outcomes_of rs items now)) e.ident (mem-accepted_ids_of rs items now r e m h)
