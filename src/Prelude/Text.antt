-- ===== src/Prelude/Text.antt =====
-- `str.strip` of Python, and the texts that it leaves empty.
use Prim.Native.Nat.{ℕ}
use Prim.Native.Char.{Char, code}
use Prim.Native.String.{String}
use mathlib.Core.Path.{◌≡◌, refl}
use mathlib.Core.Logic.{◌⊎◌, inl, inr}
use mathlib.Core.Bool.{Bool, true, false, ◌&&◌, ◌||◌}
use native.Mathlib.Omega.{arith}
use proofos.Prelude.Tests.{leb, nat_eq, if◌then◌else◌, Bool-cases}

-- str.isspace, for one character
unfoldable pub is_space : ℕ → Bool
is_space c =
    (leb 9 c && leb c 13)
    || (leb 28 c && leb c 32)
    || nat_eq c 0x85
    || nat_eq c 0xa0
    || nat_eq c 0x1680
    || (leb 0x2000 c && leb c 0x200a)
    || nat_eq c 0x2028
    || nat_eq c 0x2029
    || nat_eq c 0x202f
    || nat_eq c 0x205f
    || nat_eq c 0x3000

unfoldable pub is_empty : String → Bool
is_empty String.[] = true
is_empty (String.◌∷◌ c s) = false

unfoldable pub lstrip : String → String
lstrip String.[] = String.[]
lstrip (String.◌∷◌ c s) = if is_space (code c) then lstrip s else String.◌∷◌ c s

unfoldable pub rstrip : String → String
rstrip String.[] = String.[]
rstrip (String.◌∷◌ c s) =
    let rest = rstrip s in
    if is_space (code c) && is_empty rest then String.[] else String.◌∷◌ c rest

unfoldable pub strip : String → String
unfolding lstrip rstrip is_space is_empty
strip s = rstrip (lstrip s)

-- `not s.strip()`
unfoldable pub blank : String → Bool
unfolding strip is_empty
blank s = is_empty (strip s)

rstrip_shape :
    (c : Char) (s : String)
    → ((rstrip (String.◌∷◌ c s) ≡ String.[]) × (is_space (code c) ≡ true))
      ⊎ (rstrip (String.◌∷◌ c s) ≡ String.◌∷◌ c (rstrip s))
unfolding rstrip
rstrip_shape c s = elim (Bool-cases (is_space (code c) && is_empty (rstrip s))) [
  | inl e ↦ inl (rw e, ground arith)
  | inr e ↦ inr (rw e)
]

rstrip-rstrip : (s : String) → rstrip (rstrip s) ≡ rstrip s
unfolding rstrip
rstrip-rstrip String.[] = refl
rstrip-rstrip (String.◌∷◌ c s) = elim (Bool-cases (is_space (code c) && is_empty (rstrip s))) [
  | inl e ↦ rw e
  | inr e ↦ rw (e, rstrip, rstrip-rstrip s, e)
]

lstrip_shape :
    (s : String)
    → (lstrip s ≡ String.[])
      ⊎ ((c : Char) × (t : String) × (lstrip s ≡ String.◌∷◌ c t) × (is_space (code c) ≡ false))
unfolding lstrip
lstrip_shape String.[] = inl refl
lstrip_shape (String.◌∷◌ c s) = elim (Bool-cases (is_space (code c))) [
  | inl e ↦ rw e (lstrip_shape s)
  | inr e ↦ inr (c, s, rw e, e)
]

lstrip-solid :
    (c : Char) (t : String)
    → is_space (code c) ≡ false
    → lstrip (rstrip (String.◌∷◌ c t)) ≡ rstrip (String.◌∷◌ c t)
unfolding lstrip
lstrip-solid c t e = elim (rstrip_shape c t) [ inl p ↦ cc (p.1, e) | inr p ↦ rw (p, e) ]

-- Stripping a stripped text changes nothing.
pub strip-strip : (s : String) → strip (strip s) ≡ strip s
unfolding strip
strip-strip s = elim (lstrip_shape s) [
  | inl e ↦ rw e (unfold lstrip rstrip in refl)
  | inr (c, t, e, solid) ↦ rw (e, lstrip-solid c t solid) (rstrip-rstrip (String.◌∷◌ c t))
]
