-- ===== src/Integrity.antt =====
-- proofos/integrity.py. `content_hash` is SHA-256 of the canonical JSON of a record's fields; both
-- come from Python's libraries, so it is a parameter of what uses it, a function of the fields.
use native.Mathlib.Decide.{ℕ_discrete}
use proofos.Prelude.{String, ◌≡◌, ◌≢◌, ◌⊎◌, inl, inr, Bool, Option, List}
use proofos.Prelude.Tests.{◌==◌, eq_iff, Bool-cases}
use proofos.Prelude.Int.{ℤ}

-- A text or a number inside an object.
pub data Scalar : Type 0 where
  scalar_text : String → Scalar
  scalar_number : ℤ → Scalar

-- The values that the records put under their keys; a literal is NaN or an infinity; a requirement list is a list of objects with a
-- kind and a maximal age, a policy one with a name, its witnesses and a threshold, and a vote a pair of
-- objects.
pub data Json : Type 0 where
  null : Json
  text : String → Json
  flag : Bool → Json
  number : ℤ → Json
  literal : String → Json
  object : List (String × String) → Json
  texts : List String → Json
  requirement_list : List (String × Option ℤ) → Json
  pair_list : List (String × String) → Json
  policy : String → List (String × String) → ℤ → Json
  vote_list : List (List (String × Scalar) × List (String × Scalar)) → Json

abbrev pub Fields : Type 0
Fields = List (String × Json)

abbrev pub Hash : Type 0
Hash = Fields → String

-- Two different contents with one digest.
pub record Collision (content_hash : Hash) : Type 0 where
  pub left : Fields
  pub right : Fields
  pub differ : left ≢ right
  pub same_digest : content_hash left ≡ content_hash right

String-discrete : Discrete String
String-discrete a b = elim (Bool-cases (a == b)) [
  | inl e ↦ yes ((eq_iff a b).0 e)
  | inr e ↦ no (λ p. cc ((eq_iff a b).1 p, e))
]

pub Fields-discrete : Discrete Fields
Fields-discrete = hlevel (String-discrete, ℕ_discrete)

-- Two contents with one digest are equal, or a collision.
pub equal_or_Collision :
    (content_hash : Hash) (a b : Fields)
    → content_hash a ≡ content_hash b
    → (a ≡ b) ⊎ Collision content_hash
equal_or_Collision content_hash a b h = elim (Fields-discrete a b) [
  | yes p ↦ inl p
  | no n ↦ inr (record { left = a; right = b; differ = n; same_digest = h })
]
