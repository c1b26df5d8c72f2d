-- ===== src/Prelude/Pigeonhole.antt =====
-- Two sets that together are larger than a third one that holds both have an element in common.
use Prim.Native.Nat.{◌+◌, ◌≤◌, ◌<◌}
use Prim.Native.String.{String}
use mathlib.Core.Path.{◌≡◌, refl, sym, ◌∙◌}
use mathlib.Core.Logic.{◌⊎◌, inl, inr}
use mathlib.Core.Bool.{true, false, not, ◌||◌, ◌&&◌}
use mathlib.Core.List.{List, [], ◌∷◌, ◌++◌}
use native.Mathlib.Omega.{arith}
use proofos.Prelude.Tests.{◌==◌, eq_iff, eq_refl, if◌then◌else◌, Bool-cases}
use proofos.Prelude.Lists.{length}
use proofos.Prelude.Sets.{has, distinct}

unfoldable without : String → List String → List String
without x [] = []
without x (y ∷ ys) = if x == y then without x ys else y ∷ without x ys

has-without : (x y : String) (zs : List String) → has y (without x zs) ≡ (not (x == y) && has y zs)
unfolding has without
has-without x y [] = ground arith
has-without x y (z ∷ zs) = ground (arith, eq_iff x y, eq_iff x z, eq_iff y z, has-without x y zs)

length-without_le : (x : String) (zs : List String) → length (without x zs) ≤ length zs
unfolding without
length-without_le x [] = ground arith
length-without_le x (z ∷ zs) = ground (arith, length-without_le x zs)

length-without :
    (x : String) (zs : List String) → has x zs ≡ true → length (without x zs) < length zs
unfolding has without
length-without x [] h = cc
length-without x (z ∷ zs) h = ground (arith, length-without_le x zs, length-without x zs)

length-subset :
    (xs zs : List String)
    → distinct xs ≡ true
    → ((w : String) → has w xs ≡ true → has w zs ≡ true)
    → length xs ≤ length zs
unfolding has distinct
length-subset [] zs d s = ground arith
length-subset (x ∷ xs) zs d s =
    let x_in = s x (rw eq_refl) in
    let shorter = length-without x zs x_in in
    let rest = length-subset xs (without x zs) (ground arith) (λ w h. kept w h) in omega arith
  where
    kept : (w : String) → has w xs ≡ true → has w (without x zs) ≡ true
    kept w h = elim (Bool-cases (x == w)) [
      | inl e ↦ ground (arith, eq_iff x w)
      | inr e ↦ rw (has-without x w zs, e) (s w (rw h (ground arith)))
    ]

has-append : (w : String) (xs ys : List String) → has w (xs ++ ys) ≡ (has w xs || has w ys)
unfolding has
has-append w [] ys = refl
has-append w (x ∷ xs) ys = ground (arith, has-append w xs ys)

distinct-append :
    (xs ys : List String)
    → distinct xs ≡ true
    → distinct ys ≡ true
    → ((w : String) → has w xs ≡ true → has w ys ≡ false)
    → distinct (xs ++ ys) ≡ true
unfolding has distinct
distinct-append [] ys d e s = e
distinct-append (x ∷ xs) ys d e s =
    let apart = s x (rw eq_refl) in
    let rest = distinct-append xs ys (ground arith) e (λ w h. s w (rw h (ground arith))) in
    ground (arith, has-append x xs ys)

length-append : (xs ys : List String) → length (xs ++ ys) ≡ length xs + length ys
length-append [] ys = ground arith
length-append (x ∷ xs) ys = ground (arith, length-append xs ys)

find_common :
    (xs ys : List String)
    → ((w : String) × (has w xs ≡ true) × (has w ys ≡ true))
      ⊎ ((w : String) → has w xs ≡ true → has w ys ≡ false)
unfolding has
find_common [] ys = inr (λ w h. cc)
find_common (x ∷ xs) ys = elim (Bool-cases (has x ys)) [
  | inl e ↦ inl (x, rw eq_refl, e)
  | inr e ↦ elim (find_common xs ys) [
    | inl (w, a, b) ↦ inl (w, rw a (ground arith), b)
    | inr apart ↦ inr (λ w h. elim (Bool-cases (w == x)) [
      | inl q ↦ rw ((eq_iff w x).0 q) e
      | inr q ↦ apart w (rw q at h)
    ])
  ]
]

pub pigeonhole :
    (xs ys zs : List String)
    → distinct xs ≡ true
    → distinct ys ≡ true
    → ((w : String) → has w xs ≡ true → has w zs ≡ true)
    → ((w : String) → has w ys ≡ true → has w zs ≡ true)
    → length zs < length xs + length ys
    → (w : String) × (has w xs ≡ true) × (has w ys ≡ true)
pigeonhole xs ys zs d e s t l = elim (find_common xs ys) [
  | inl found ↦ found
  | inr apart ↦
      let both =
        length-subset (xs ++ ys) zs (distinct-append xs ys d e apart)
          (λ w h. either w (sym (has-append w xs ys) ∙ h)) in
      absurd (too_many (rw length-append at both))
]
  where
    either : (w : String) → (has w xs || has w ys) ≡ true → has w zs ≡ true
    either w h = elim (Bool-cases (has w xs)) [ inl a ↦ s w a | inr a ↦ t w (rw a at h) ]

    too_many : length xs + length ys ≤ length zs → ⊥
    too_many m = omega arith
