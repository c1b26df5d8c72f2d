-- ===== src/Prelude/Sets.antt =====
-- Python sets of texts, as lists.
use Prim.Native.String.{String}
use mathlib.Core.Path.{◌≡◌, refl}
use mathlib.Core.Logic.{inl, inr}
use mathlib.Core.Bool.{Bool, true, false, not, ◌||◌, ◌&&◌}
use mathlib.Core.List.{List, [], ◌∷◌, ◌++◌}
use native.Mathlib.Omega.{arith}
use proofos.Prelude.Tests.{◌==◌, eq_iff, if◌then◌else◌, Bool-cases}

-- x in xs
unfoldable pub has : String → List String → Bool
has x [] = false
has x (y ∷ ys) = x == y || has x ys

-- xs - ys
unfoldable pub minus : List String → List String → List String
unfolding has
minus [] ys = []
minus (x ∷ xs) ys = if has x ys then minus xs ys else x ∷ minus xs ys

-- xs & ys
unfoldable pub common : List String → List String → List String
unfolding has
common [] ys = []
common (x ∷ xs) ys = if has x ys then x ∷ common xs ys else common xs ys

-- A set without the names of another is empty if it is a part of it.
pub minus-has :
    (x : String) (xs ys : List String) → minus xs ys ≡ [] → has x xs ≡ true → has x ys ≡ true
unfolding has minus
minus-has x [] ys e h = cc
minus-has x (y ∷ xs) ys e h = elim (Bool-cases (has y ys)) [
  | inl p ↦ elim (Bool-cases (x == y)) [
    | inl q ↦ rw ((eq_iff x y).0 q) p
    | inr q ↦ minus-has x xs ys (rw p at e) (rw q at h)
  ]
  | inr p ↦ cc (rw p at e)
]

pub minus_mem :
    (x : String) (xs ys : List String)
    → has x xs ≡ true
    → has x (minus xs ys) ≡ false
    → has x ys ≡ true
unfolding has minus
minus_mem x [] ys h e = cc
minus_mem x (y ∷ xs) ys h e = ground (arith, eq_iff x y, minus_mem x xs ys)

pub append-nil_left {ℓ} : {A : Type ℓ} (xs ys : List A) → xs ++ ys ≡ [] → xs ≡ []
append-nil_left [] ys e = refl
append-nil_left (x ∷ xs) ys e = cc

pub append-nil_right {ℓ} : {A : Type ℓ} (xs ys : List A) → xs ++ ys ≡ [] → ys ≡ []
append-nil_right [] ys e = e
append-nil_right (x ∷ xs) ys e = cc

-- len(set(xs)) == len(xs)
unfoldable pub distinct : List String → Bool
unfolding has
distinct [] = true
distinct (x ∷ xs) = not (has x xs) && distinct xs
