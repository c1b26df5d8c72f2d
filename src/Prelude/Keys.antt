-- ===== src/Prelude/Keys.antt =====
-- What a dictionary's keys and values say of it, and what sorting keeps of a list of texts.
use Prim.Native.Nat.{suc}
use Prim.Native.String.{String}
use mathlib.Core.Path.{◌≡◌, refl, ap}
use mathlib.Core.Logic.{inl, inr}
use mathlib.Core.Bool.{Bool, true, not, ◌||◌, ◌&&◌}
use mathlib.Core.Option.{some}
use mathlib.Core.List.{List, [], ◌∷◌}
use native.Mathlib.Omega.{arith}
use proofos.Prelude.Tests.{◌==◌, eq_iff, Bool-cases}
use proofos.Prelude.Lists.{◌∈◌, length}
use proofos.Prelude.Sets.{has, distinct}
use proofos.Prelude.Sort.{insert, sorted_by}
use proofos.Prelude.Assoc.{Dict, get, put, keys, values}

module _ {ℓ} {V : Type ℓ} where
  pub length-keys : (d : Dict V) → length (keys d) ≡ length d
  length-keys [] = refl
  length-keys ((k, v) ∷ d) = ap suc (length-keys d)

  pub get-keys : (k : String) (d : Dict V) → has k (keys d) ≡ true → (v : V) × (get k d ≡ some v)
  unfolding has get
  get-keys k [] h = cc
  get-keys k ((j, v) ∷ d) h = elim (Bool-cases (j == k)) [
    | inl e ↦ (v, rw e)
    | inr e ↦ let r = get-keys k d (ground (arith, eq_iff j k, eq_iff k j)) in (r.0, rw e r.1)
  ]

  pub keys-put :
      (j k : String) (v : V) (d : Dict V) → has j (keys (put k v d)) ≡ (j == k || has j (keys d))
  unfolding has put
  keys-put j k v [] = refl
  keys-put j k v ((i, w) ∷ d) = ground (arith, eq_iff i k, eq_iff j i, eq_iff j k, keys-put j k v d)

  pub distinct-put :
      (k : String) (v : V) (d : Dict V)
      → distinct (keys d) ≡ true
      → distinct (keys (put k v d)) ≡ true
  unfolding distinct has put
  distinct-put k v [] h = refl
  distinct-put k v ((i, w) ∷ d) h = ground (arith, eq_iff i k, keys-put i k v d, distinct-put k v d)

pub get-values : {V : Type 0} (k : String) (d : Dict V) {v : V} → get k d ≡ some v → v ∈ values d
unfolding get
get-values k [] h = cc
get-values k ((j, w) ∷ d) h = elim (Bool-cases (j == k)) [
  | inl e ↦ inl (cc (rw e at h))
  | inr e ↦ inr (get-values k d (rw e at h))
]

module _ (le : String → String → Bool) where
  has-insert : (x y : String) (ys : List String) → has x (insert le y ys) ≡ (x == y || has x ys)
  unfolding has insert
  has-insert x y [] = refl
  has-insert x y (z ∷ zs) = ground (arith, has-insert x y zs)

  pub has-sorted : (x : String) (xs : List String) → has x (sorted_by le xs) ≡ has x xs
  unfolding has sorted_by
  has-sorted x [] = refl
  has-sorted x (y ∷ ys) = rw (has-insert x y (sorted_by le ys), has-sorted x ys)

  distinct-insert :
      (y : String) (ys : List String) → distinct (insert le y ys) ≡ (not (has y ys) && distinct ys)
  unfolding distinct has insert
  distinct-insert y [] = refl
  distinct-insert y (z ∷ zs) =
      ground (arith, eq_iff y z, eq_iff z y, has-insert z y zs, distinct-insert y zs)

  pub distinct-sorted : (xs : List String) → distinct (sorted_by le xs) ≡ distinct xs
  unfolding distinct sorted_by
  distinct-sorted [] = refl
  distinct-sorted (y ∷ ys) =
      rw (distinct-insert y (sorted_by le ys), has-sorted y ys, distinct-sorted ys)

  length-insert : (y : String) (ys : List String) → length (insert le y ys) ≡ suc (length ys)
  unfolding insert
  length-insert y [] = refl
  length-insert y (z ∷ zs) = ground (arith, length-insert y zs)

  pub length-sorted : (xs : List String) → length (sorted_by le xs) ≡ length xs
  unfolding sorted_by
  length-sorted [] = refl
  length-sorted (y ∷ ys) = rw (length-insert y (sorted_by le ys), length-sorted ys)
