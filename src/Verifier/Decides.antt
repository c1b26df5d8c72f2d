-- ===== src/Verifier/Decides.antt =====
-- `evaluate` finds no failure exactly when the requirement is settled.
use mathlib.Core.Bool.{false≢true}
use proofos.Prelude.{
  ◌≡◌, refl, ◌↔◌, inl, inr, Bool, true, false, Option, none, some, List, [], ◌∷◌, arith,
}
use proofos.Prelude.Tests.{eq_iff}
use proofos.Prelude.Int.{ℤ, ◌-ℤ◌}
use proofos.Prelude.Time.{
  Time, tick, eq_time, IsNumber, IsBefore, leb_time_iff, eq_time_iff, IsNumber-before,
  IsBefore-trans,
}
use proofos.Prelude.Lists.{◌∈◌, select, mem-select, mem-select_of, any-false, any-false_of}
use proofos.Prelude.Text.{strip, blank}
use proofos.Verifier.Types.{
  EvidenceSource, FailureClass, Evidence, Requirement, observed, executor, model, trusted_source,
}
use proofos.Verifier.Evaluate.{
  timestamp, max_time, matches, unsound, fresh_at, within_horizon, when_any, govern_fresh, govern,
  evaluate,
}
use proofos.Verifier.Settled.{
  IsFresh, Counts, Settled, IsTimed, max_time-above, max_time-bounds, max_time-attained,
}

-- The evidence that the code lets settle the requirement.
abbrev pub pool : Requirement → List Evidence → ℤ → List Evidence
pool r items now =
    within_horizon r.max_age_seconds now
      (select (λ e. trusted_source e.source) (select (matches r) items))

trusted_source_iff : (s : EvidenceSource) → (trusted_source s ≡ true) ↔ (s ≡ observed)
unfolding trusted_source
trusted_source_iff observed = (λ _. refl, λ _. refl)
trusted_source_iff executor = (λ h. absurd (false≢true h), λ h. cc)
trusted_source_iff model = (λ h. absurd (false≢true h), λ h. cc)

mem-within_horizon :
    (o : Option ℤ) (now : ℤ) (xs : List Evidence) (e : Evidence)
    → (e ∈ within_horizon o now xs) ↔ ((e ∈ xs) × IsFresh o now e.collected_at)
unfolding within_horizon
mem-within_horizon none now xs e = (λ m. (m, tt), λ h. h.0)
mem-within_horizon (some age) now xs e = (forward, backward)
  where
    test : (at : Option Time) → (fresh_at (now -ℤ age) at ≡ true) ↔ IsFresh (some age) now at
    test none = (λ h. absurd (false≢true h), λ h. absurd h)
    test (some t) = leb_time_iff (tick (now -ℤ age)) t

    forward :
        e ∈ select (λ d. fresh_at (now -ℤ age) d.collected_at) xs
        → (e ∈ xs) × IsFresh (some age) now e.collected_at
    forward m =
        let r = mem-select (λ d. fresh_at (now -ℤ age) d.collected_at) xs m in
        (r.0, (test e.collected_at).0 r.1)

    backward :
        (e ∈ xs) × IsFresh (some age) now e.collected_at
        → e ∈ select (λ d. fresh_at (now -ℤ age) d.collected_at) xs
    backward h =
        mem-select_of (λ d. fresh_at (now -ℤ age) d.collected_at) xs h.0
          ((test e.collected_at).1 h.1)

module _ (r : Requirement) (items : List Evidence) (now : ℤ) (e : Evidence) where
  pub mem-pool : e ∈ pool r items now → (e ∈ items) × Counts r now e
  unfolding matches
  mem-pool m =
      let f =
        (mem-within_horizon r.max_age_seconds now
            (select (λ d. trusted_source d.source) (select (matches r) items)) e).0
          m in
      let t = mem-select (λ d. trusted_source d.source) (select (matches r) items) f.0 in
      let k = mem-select (matches r) items t.0 in
      (
        k.0,
        record {
          same_kind = (eq_iff (strip e.kind) r.kind).0 k.1;
          from_observer = (trusted_source_iff e.source).0 t.1;
          in_time = f.1;
        },
      )

  pub mem-pool_of : e ∈ items → Counts r now e → e ∈ pool r items now
  unfolding matches
  mem-pool_of m c =
      (mem-within_horizon r.max_age_seconds now
          (select (λ d. trusted_source d.source) (select (matches r) items)) e).1
        (
          mem-select_of (λ d. trusted_source d.source) (select (matches r) items)
              (mem-select_of (matches r) items m ((eq_iff (strip e.kind) r.kind).1 c.same_kind))
              ((trusted_source_iff e.source).1 c.from_observer),
          c.in_time,
        )

unsound_iff : (e : Evidence) → (unsound e ≡ false) ↔ ((e.valid ≡ true) × (blank e.value ≡ false))
unfolding unsound
unsound_iff e = (λ h. (ground arith, ground arith), λ h. rw (h.0, h.1))

-- Of a pool, the most recent.
abbrev IsNewest : List Evidence → Evidence → Type 0
IsNewest xs e = (d : Evidence) → d ∈ xs → IsBefore (timestamp d) (timestamp e)

abbrev AllNumbers : List Evidence → Type 0
AllNumbers xs = (d : Evidence) → d ∈ xs → IsNumber (timestamp d)

module _ (x : Evidence) (xs : List Evidence) where
  newest-AllNumbers : (e : Evidence) → IsNewest (x ∷ xs) e → AllNumbers (x ∷ xs)
  newest-AllNumbers e h d m = IsNumber-before (timestamp d) (timestamp e) (h d m)

  latest-IsNewest :
      (e : Evidence)
      → e ∈ (x ∷ xs)
      → IsNewest (x ∷ xs) e
      → eq_time (timestamp e) (max_time (timestamp x) xs) ≡ true
  latest-IsNewest e m h = (eq_time_iff (timestamp e) (max_time (timestamp x) xs)).1 (below m, above)
    where
      below : e ∈ (x ∷ xs) → IsBefore (timestamp e) (max_time (timestamp x) xs)
      below (inl q) = rw q (
          max_time-above (timestamp x) xs (newest-AllNumbers e h x (inl refl))
            (λ d k. newest-AllNumbers e h d (inr k)))
      below (inr k) =
          max_time-bounds (timestamp x) xs e (newest-AllNumbers e h x (inl refl))
            (λ d n. newest-AllNumbers e h d (inr n)) k

      above : IsBefore (max_time (timestamp x) xs) (timestamp e)
      above = elim (max_time-attained (timestamp x) xs) [
        | inl q ↦ rw q (h x (inl refl))
        | inr (d, k, q) ↦ rw q (h d (inr k))
      ]

  IsNewest-latest :
      (e : Evidence)
      → AllNumbers (x ∷ xs)
      → eq_time (timestamp e) (max_time (timestamp x) xs) ≡ true
      → IsNewest (x ∷ xs) e
  IsNewest-latest e ns h d (inl q) = rw q (
      IsBefore-trans (timestamp x) (max_time (timestamp x) xs) (timestamp e)
        (max_time-above (timestamp x) xs (ns x (inl refl)) (λ c k. ns c (inr k)))
        ((eq_time_iff (timestamp e) (max_time (timestamp x) xs)).0 h).1)
  IsNewest-latest e ns h d (inr k) =
      IsBefore-trans (timestamp d) (max_time (timestamp x) xs) (timestamp e)
        (max_time-bounds (timestamp x) xs d (ns x (inl refl)) (λ c n. ns c (inr n)) k)
        ((eq_time_iff (timestamp e) (max_time (timestamp x) xs)).0 h).1

  abbrev AllSound : Type 0
  AllSound =
      (e : Evidence)
      → e ∈ (x ∷ xs)
      → IsNewest (x ∷ xs) e
      → (e.valid ≡ true) × (blank e.value ≡ false)

  govern-sound : (govern x xs).failure ≡ none → AllSound
  unfolding govern
  govern-sound h e m n = (unsound_iff e).0 (
      any-false unsound (select test (x ∷ xs)) (ground arith)
        (mem-select_of test (x ∷ xs) m (latest-IsNewest e m n)))
    where
      test : Evidence → Bool
      test d = eq_time (timestamp d) (max_time (timestamp x) xs)

  sound-govern : AllNumbers (x ∷ xs) → AllSound → (govern x xs).failure ≡ none
  unfolding govern
  sound-govern ns h = rw (
      any-false_of unsound (select test (x ∷ xs)) (λ e m.
        let k = mem-select test (x ∷ xs) m in
        (unsound_iff e).1 (h e k.0 (IsNewest-latest e ns k.1))))
    where
      test : Evidence → Bool
      test d = eq_time (timestamp d) (max_time (timestamp x) xs)

-- The chain of early returns succeeds only at its end, where all three lists have items.
chain-govern :
    (m t f : List Evidence)
    → (when_any m FailureClass.evidence_missing
        (when_any t FailureClass.evidence_untrusted (govern_fresh f))).failure
      ≡ none
    → (x : Evidence) × (xs : List Evidence) × (f ≡ x ∷ xs) × ((govern x xs).failure ≡ none)
chain-govern [] t f h = cc
chain-govern (a ∷ m) [] f h = cc
chain-govern (a ∷ m) (b ∷ t) [] h = cc
chain-govern (a ∷ m) (b ∷ t) (x ∷ xs) h = (x, xs, refl, h)

govern-chain :
    (m t f : List Evidence) (x : Evidence) (xs : List Evidence)
    → f ≡ x ∷ xs
    → (govern x xs).failure ≡ none
    → x ∈ m
    → x ∈ t
    → (when_any m FailureClass.evidence_missing
        (when_any t FailureClass.evidence_untrusted (govern_fresh f))).failure
      ≡ none
govern-chain [] t f x xs e h a b = absurd a
govern-chain (c ∷ m) [] f x xs e h a b = absurd b
govern-chain (c ∷ m) (d ∷ t) f x xs e h a b = rw e h

nonempty :
    (xs : List Evidence) (e : Evidence)
    → e ∈ xs
    → (y : Evidence) × (ys : List Evidence) × (xs ≡ y ∷ ys)
nonempty [] e m = absurd m
nonempty (y ∷ ys) e m = (y, ys, refl)

module _ (r : Requirement) (items : List Evidence) (e : Evidence) (m : e ∈ items) where
  matching_mem : strip e.kind ≡ r.kind → e ∈ select (matches r) items
  unfolding matches
  matching_mem k = mem-select_of (matches r) items m ((eq_iff (strip e.kind) r.kind).1 k)

  trusted_mem :
      strip e.kind ≡ r.kind
      → e.source ≡ observed
      → e ∈ select (λ d. trusted_source d.source) (select (matches r) items)
  trusted_mem k s =
      mem-select_of (λ d. trusted_source d.source) (select (matches r) items) (matching_mem k)
        ((trusted_source_iff e.source).1 s)

module _ (r : Requirement) (items : List Evidence) (now : ℤ) where
  -- A requirement that `evaluate` lets pass is settled.
  pub evaluate-Settled : (evaluate r items now).failure ≡ none → Settled r now items
  unfolding evaluate
  evaluate-Settled h =
      let c =
        chain-govern (select (matches r) items)
          (select (λ e. trusted_source e.source) (select (matches r) items)) (pool r items now) h in
      let w = mem-pool r items now c.0 (rw c.2 (inl refl)) in
      record {
        witness = c.0;
        witness_mem = w.0;
        witness_counts = w.1;
        latest_sound = λ e m k latest.
            govern-sound c.0 c.1 c.3 e (rw c.2 at (mem-pool_of r items now e m k))
              (λ d dm. let p = mem-pool r items now d (rw c.2 dm) in latest d p.0 p.1);
      }

  -- A settled requirement passes, if no observation has NaN as its time.
  pub Settled-evaluate : IsTimed items → Settled r now items → (evaluate r items now).failure ≡ none
  unfolding evaluate
  Settled-evaluate timed s =
      let n =
        nonempty (pool r items now) s.witness
          (mem-pool_of r items now s.witness s.witness_mem s.witness_counts) in
      let first = mem-pool r items now n.0 (rw n.2 (inl refl)) in
      govern-chain (select (matches r) items)
        (select (λ e. trusted_source e.source) (select (matches r) items)) (pool r items now) n.0
        n.1 n.2
        (sound-govern n.0 n.1
          (λ e m. let p = mem-pool r items now e (rw n.2 m) in timed e p.0 (p.1).from_observer)
          (λ e m newest.
            let p = mem-pool r items now e (rw n.2 m) in
            s.latest_sound e p.0 p.1
              (λ d dm k. newest d (rw n.2 at (mem-pool_of r items now d dm k)))))
        (matching_mem r items n.0 first.0 (first.1).same_kind)
        (trusted_mem r items n.0 first.0 (first.1).same_kind (first.1).from_observer)
