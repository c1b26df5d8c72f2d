-- ===== src/Verifier/Settled.antt =====
-- When one requirement is settled, said without the code's filters and maximum.
use proofos.Prelude.{◌≡◌, refl, ◌⊎◌, inl, inr, true, false, Option, none, some, List, [], ◌∷◌}
use proofos.Prelude.Tests.{Bool-cases}
use proofos.Prelude.Int.{ℤ, ◌-ℤ◌}
use proofos.Prelude.Lists.{◌∈◌}
use proofos.Prelude.Text.{strip, blank}
use proofos.Verifier.Types.{Evidence, Requirement, observed}
use proofos.Prelude.Time.{
  Time, tick, gt_time, IsNumber, IsBefore, IsBefore-refl, IsBefore-trans, gt_time-IsBefore,
  not_gt_time,
}
use proofos.Verifier.Evaluate.{timestamp, max_time}

-- Within the horizon, if there is one.
abbrev pub IsFresh : Option ℤ → ℤ → Option Time → Type 0
IsFresh none now at = Unit
IsFresh (some age) now none = ⊥
IsFresh (some age) now (some t) = IsBefore (tick (now -ℤ age)) t

-- An observation that speaks for the requirement.
pub record Counts (r : Requirement) (now : ℤ) (e : Evidence) : Type 0 where
  pub same_kind : strip e.kind ≡ r.kind
  pub from_observer : e.source ≡ observed
  pub in_time : IsFresh r.max_age_seconds now e.collected_at

-- No observation that speaks for the requirement is more recent.
abbrev pub IsLatest : Requirement → ℤ → List Evidence → Evidence → Type 0
IsLatest r now items e =
    (d : Evidence) → d ∈ items → Counts r now d → IsBefore (timestamp d) (timestamp e)

pub record Settled (r : Requirement) (now : ℤ) (items : List Evidence) : Type 0 where
  pub witness : Evidence
  pub witness_mem : witness ∈ items
  pub witness_counts : Counts r now witness
  pub latest_sound :
      (e : Evidence)
      → e ∈ items
      → Counts r now e
      → IsLatest r now items e
      → (e.valid ≡ true) × (blank e.value ≡ false)

-- No observation has NaN as its time.
abbrev pub IsTimed : List Evidence → Type 0
IsTimed items = (e : Evidence) → e ∈ items → e.source ≡ observed → IsNumber (timestamp e)

-- What the maximum of the code is, of times that are numbers.
pub max_time-above :
    (t : Time) (xs : List Evidence)
    → IsNumber t
    → ((e : Evidence) → e ∈ xs → IsNumber (timestamp e))
    → IsBefore t (max_time t xs)
unfolding max_time
max_time-above t [] n ns = IsBefore-refl t n
max_time-above t (x ∷ xs) n ns = elim (Bool-cases (gt_time (timestamp x) t)) [
  | inl e ↦ rw e (
      IsBefore-trans t (timestamp x) (max_time (timestamp x) xs)
        (gt_time-IsBefore (timestamp x) t e)
        (max_time-above (timestamp x) xs (ns x (inl refl)) (λ d m. ns d (inr m))))
  | inr e ↦ rw e (max_time-above t xs n (λ d m. ns d (inr m)))
]

pub max_time-bounds :
    (t : Time) (xs : List Evidence) (e : Evidence)
    → IsNumber t
    → ((d : Evidence) → d ∈ xs → IsNumber (timestamp d))
    → e ∈ xs
    → IsBefore (timestamp e) (max_time t xs)
unfolding max_time
max_time-bounds t [] e n ns m = absurd m
max_time-bounds t (x ∷ xs) e n ns (inl q) = elim (Bool-cases (gt_time (timestamp x) t)) [
  | inl h ↦ rw (h, q) (max_time-above (timestamp x) xs (ns x (inl refl)) (λ d m. ns d (inr m)))
  | inr h ↦
      rw (h, q)
        (IsBefore-trans (timestamp x) t (max_time t xs)
          (not_gt_time (timestamp x) t (ns x (inl refl)) n h)
          (max_time-above t xs n (λ d m. ns d (inr m))))
]
max_time-bounds t (x ∷ xs) e n ns (inr m) = elim (Bool-cases (gt_time (timestamp x) t)) [
  | inl h ↦ rw h (max_time-bounds (timestamp x) xs e (ns x (inl refl)) (λ d k. ns d (inr k)) m)
  | inr h ↦ rw h (max_time-bounds t xs e n (λ d k. ns d (inr k)) m)
]

pub max_time-attained :
    (t : Time) (xs : List Evidence)
    → (max_time t xs ≡ t) ⊎ ((e : Evidence) × (e ∈ xs) × (max_time t xs ≡ timestamp e))
unfolding max_time
max_time-attained t [] = inl refl
max_time-attained t (x ∷ xs) = elim (Bool-cases (gt_time (timestamp x) t)) [
  | inr h ↦
      rw h (elim (max_time-attained t xs) [ inl q ↦ inl q | inr (e, m, q) ↦ inr (e, inr m, q) ])
  | inl h ↦ rw h (elim (max_time-attained (timestamp x) xs) [
    | inl q ↦ inr (x, inl refl, q)
    | inr (e, m, q) ↦ inr (e, inr m, q)
  ])
]
