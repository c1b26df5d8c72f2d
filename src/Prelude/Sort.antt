-- ===== src/Prelude/Sort.antt =====
-- Python's sorted(): a stable sort by a test, here by insertion.
use Prim.Native.String.{String, compare}
use mathlib.Core.Bool.{Bool}
use mathlib.Core.List.{List, [], ◌∷◌}
use text.Mathlib.Text.{is_le}
use proofos.Prelude.Tests.{if◌then◌else◌}

-- a <= b on texts: by code points, which is the order of their bytes
abbrev pub leb_text : String → String → Bool
leb_text a b = is_le (compare a b)

module _ {ℓ} {A : Type ℓ} (le : A → A → Bool) where
  unfoldable pub insert : A → List A → List A
  insert x [] = x ∷ []
  insert x (y ∷ ys) = if le x y then x ∷ y ∷ ys else y ∷ insert x ys

  unfoldable pub sorted_by : List A → List A
  unfolding insert
  sorted_by [] = []
  sorted_by (x ∷ xs) = insert x (sorted_by xs)
