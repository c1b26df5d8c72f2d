-- ===== src/Prelude/Lists.antt =====
-- Lists by native numbers and Boolean tests, membership, and what the tests say of it.
use Prim.Native.Nat.{ℕ, suc}
use mathlib.Core.Path.{◌≡◌, refl, sym, ap, ◌∙◌}
use mathlib.Core.Logic.{◌⊎◌, inl, inr}
use mathlib.Core.Bool.{Bool, true, false, ◌||◌}
use mathlib.Core.List.{List, [], ◌∷◌}
use native.Mathlib.Omega.{arith}
use proofos.Prelude.Tests.{if◌then◌else◌, Bool-cases}

module _ {ℓ} {A : Type ℓ} where
  abbrev pub length : List A → ℕ
  length [] = 0
  length (x ∷ xs) = suc (length xs)

  -- [x for x in xs if p x]
  unfoldable pub select : (A → Bool) → List A → List A
  select p [] = []
  select p (x ∷ xs) = if p x then x ∷ select p xs else select p xs

  -- any(p x for x in xs)
  unfoldable pub any : (A → Bool) → List A → Bool
  any p [] = false
  any p (x ∷ xs) = p x || any p xs

-- The library's `Mem` is truncated; this one computes.
infix 50 ◌∈◌
abbrev pub ◌∈◌ : {A : Type 0} → A → List A → Type 0
x ∈ [] = ⊥
x ∈ (y ∷ ys) = (x ≡ y) ⊎ (x ∈ ys)

module _ {A : Type 0} (p : A → Bool) where
  mem-select_head :
      {x y : A} (xs rest : List A)
      → p y ≡ true
      → (x ∈ rest → (x ∈ xs) × (p x ≡ true))
      → (x ≡ y) ⊎ (x ∈ rest)
      → ((x ≡ y) ⊎ (x ∈ xs)) × (p x ≡ true)
  mem-select_head xs rest e h (inl q) = (inl q, ap p q ∙ e)
  mem-select_head xs rest e h (inr q) = (inr (h q).0, (h q).1)

  pub mem-select : (xs : List A) {x : A} → x ∈ select p xs → (x ∈ xs) × (p x ≡ true)
  unfolding select
  mem-select [] m = absurd m
  mem-select (y ∷ ys) {x} m = elim (Bool-cases (p y)) [
    | inl e ↦ mem-select_head ys (select p ys) e (mem-select ys) (rw e at m)
    | inr e ↦ let r = mem-select ys {x = x} (rw e at m) in (inr r.0, r.1)
  ]

  pub mem-select_of : (xs : List A) {x : A} → x ∈ xs → p x ≡ true → x ∈ select p xs
  unfolding select
  mem-select_of [] m h = m
  mem-select_of (y ∷ ys) (inl q) h = rw (sym (ap p q) ∙ h) (inl q)
  mem-select_of (y ∷ ys) {x} (inr q) h = elim (Bool-cases (p y)) [
    | inl e ↦ rw e (inr (mem-select_of ys q h))
    | inr e ↦ rw e (mem-select_of ys q h)
  ]

  pub any-false : (xs : List A) {x : A} → any p xs ≡ false → x ∈ xs → p x ≡ false
  unfolding any
  any-false [] h m = absurd m
  any-false (y ∷ ys) h (inl q) = ap p q ∙ ground arith
  any-false (y ∷ ys) h (inr q) = any-false ys (ground arith) q

  pub any-false_of : (xs : List A) → ((x : A) → x ∈ xs → p x ≡ false) → any p xs ≡ false
  unfolding any
  any-false_of [] h = refl
  any-false_of (y ∷ ys) h = rw (h y (inl refl)) (any-false_of ys (λ x m. h x (inr m)))

  pub any-true : (xs : List A) → any p xs ≡ true → (x : A) × (x ∈ xs) × (p x ≡ true)
  unfolding any
  any-true [] h = cc
  any-true (y ∷ ys) h = elim (Bool-cases (p y)) [
    | inl e ↦ (y, inl refl, e)
    | inr e ↦ let r = any-true ys (rw e at h) in (r.0, inr r.1, r.2)
  ]

  pub any-true_of : (xs : List A) {x : A} → x ∈ xs → p x ≡ true → any p xs ≡ true
  unfolding any
  any-true_of [] m h = absurd m
  any-true_of (y ∷ ys) (inl q) h = rw (sym (ap p q) ∙ h)
  any-true_of (y ∷ ys) (inr q) h = rw (any-true_of ys q h) (ground arith)
