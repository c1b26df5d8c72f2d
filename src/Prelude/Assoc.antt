-- ===== src/Prelude/Assoc.antt =====
-- A Python `dict` with text keys, as an association list in insertion order.
use Prim.Native.String.{String}
use mathlib.Core.Path.{◌≡◌, refl}
use mathlib.Core.Logic.{◌⊎◌, inl, inr}
use mathlib.Core.Bool.{Bool, true, false}
use mathlib.Core.Option.{Option, none, some}
use mathlib.Core.List.{List, [], ◌∷◌}
use native.Mathlib.Omega.{arith}
use proofos.Prelude.Tests.{◌==◌, eq_iff, eq_refl, if◌then◌else◌}

abbrev pub Dict {ℓ} : Type ℓ → Type ℓ
Dict V = List (String × V)

-- list(d), and list(d.values())
abbrev pub keys {ℓ} : {V : Type ℓ} → Dict V → List String
keys [] = []
keys ((k, v) ∷ d) = k ∷ keys d

abbrev pub values {ℓ} : {V : Type ℓ} → Dict V → List V
values [] = []
values ((k, v) ∷ d) = v ∷ values d

module _ {ℓ} {V : Type ℓ} where
  -- d.get(k)
  unfoldable pub get : String → Dict V → Option V
  get k [] = none
  get k ((j, v) ∷ d) = if j == k then some v else get k d

  -- d[k] = v: a key keeps its place
  unfoldable pub put : String → V → Dict V → Dict V
  put k v [] = (k, v) ∷ []
  put k v ((j, w) ∷ d) = if j == k then (j, v) ∷ d else (j, w) ∷ put k v d

  pub get-put :
      (k j : String) (v : V) (d : Dict V) → get j (put k v d) ≡ (if k == j then some v else get j d)
  unfolding get put
  get-put k j v [] = refl
  get-put k j v ((i, w) ∷ d) = ground (arith, eq_iff k j, eq_iff i k, eq_iff i j, get-put k j v d)

  -- What is found after a write: what was written, or what was there.
  pub get-put_cases :
      (k j : String) (v : V) (d : Dict V) {w : V}
      → get j (put k v d) ≡ some w
      → ((k ≡ j) × (v ≡ w)) ⊎ (get j d ≡ some w)
  get-put_cases k j v d h = by_key (k == j) refl (rw get-put at h)
    where
      by_key :
          (b : Bool) {w : V}
          → (k == j) ≡ b
          → (if b then some v else get j d) ≡ some w
          → ((k ≡ j) × (v ≡ w)) ⊎ (get j d ≡ some w)
      by_key true e p = inl ((eq_iff k j).0 e, cc)
      by_key false e p = inr p

  pub get-put_self : (k : String) (v : V) (d : Dict V) → get k (put k v d) ≡ some v
  get-put_self k v d = rw (get-put, eq_refl)
