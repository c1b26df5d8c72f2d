-- ===== src/Prelude/Time.antt =====
-- Python's floats as times, in clock ticks, with NaN and the infinities, and how Python compares them:
-- every comparison with NaN is false.
use proofos.Prelude.{◌≡◌, refl, ◌↔◌, ◌⊎◌, inl, inr, Bool, true, false, not, arith}
use proofos.Prelude.Tests.{if◌then◌else◌, Bool-cases}
use proofos.Prelude.Int.{ℤ, ◌≤ℤ◌, leb_ℤ, leb_ℤ_iff}

pub data Time : Type 0 where
  tick : ℤ → Time
  infinite minus_infinite not_a_number : Time

-- a <= b
unfoldable pub leb_time : Time → Time → Bool
leb_time not_a_number b = false
leb_time minus_infinite not_a_number = false
leb_time minus_infinite minus_infinite = true
leb_time minus_infinite (tick b) = true
leb_time minus_infinite infinite = true
leb_time (tick a) not_a_number = false
leb_time (tick a) minus_infinite = false
leb_time (tick a) (tick b) = leb_ℤ a b
leb_time (tick a) infinite = true
leb_time infinite not_a_number = false
leb_time infinite minus_infinite = false
leb_time infinite (tick b) = false
leb_time infinite infinite = true

-- a == b
unfoldable pub eq_time : Time → Time → Bool
unfolding leb_time
eq_time a b = if leb_time a b then leb_time b a else false

-- a > b
unfoldable pub gt_time : Time → Time → Bool
unfolding leb_time
gt_time a b = if leb_time b a then not (leb_time a b) else false

abbrev pub IsNumber : Time → Type 0
IsNumber not_a_number = ⊥
IsNumber minus_infinite = Unit
IsNumber (tick a) = Unit
IsNumber infinite = Unit

-- An earlier or equal time; NaN is before and after nothing.
abbrev pub IsBefore : Time → Time → Type 0
IsBefore not_a_number b = ⊥
IsBefore minus_infinite not_a_number = ⊥
IsBefore minus_infinite minus_infinite = Unit
IsBefore minus_infinite (tick b) = Unit
IsBefore minus_infinite infinite = Unit
IsBefore (tick a) not_a_number = ⊥
IsBefore (tick a) minus_infinite = ⊥
IsBefore (tick a) (tick b) = a ≤ℤ b
IsBefore (tick a) infinite = Unit
IsBefore infinite not_a_number = ⊥
IsBefore infinite minus_infinite = ⊥
IsBefore infinite (tick b) = ⊥
IsBefore infinite infinite = Unit

leb_time-IsBefore : (a b : Time) → leb_time a b ≡ true → IsBefore a b
unfolding leb_time
leb_time-IsBefore not_a_number b h = cc
leb_time-IsBefore minus_infinite not_a_number h = cc
leb_time-IsBefore minus_infinite minus_infinite h = tt
leb_time-IsBefore minus_infinite (tick b) h = tt
leb_time-IsBefore minus_infinite infinite h = tt
leb_time-IsBefore (tick a) not_a_number h = cc
leb_time-IsBefore (tick a) minus_infinite h = cc
leb_time-IsBefore (tick a) (tick b) h = (leb_ℤ_iff a b).0 h
leb_time-IsBefore (tick a) infinite h = tt
leb_time-IsBefore infinite not_a_number h = cc
leb_time-IsBefore infinite minus_infinite h = cc
leb_time-IsBefore infinite (tick b) h = cc
leb_time-IsBefore infinite infinite h = tt

IsBefore-leb_time : (a b : Time) → IsBefore a b → leb_time a b ≡ true
unfolding leb_time
IsBefore-leb_time not_a_number b h = absurd h
IsBefore-leb_time minus_infinite not_a_number h = absurd h
IsBefore-leb_time minus_infinite minus_infinite h = refl
IsBefore-leb_time minus_infinite (tick b) h = refl
IsBefore-leb_time minus_infinite infinite h = refl
IsBefore-leb_time (tick a) not_a_number h = absurd h
IsBefore-leb_time (tick a) minus_infinite h = absurd h
IsBefore-leb_time (tick a) (tick b) h = (leb_ℤ_iff a b).1 h
IsBefore-leb_time (tick a) infinite h = refl
IsBefore-leb_time infinite not_a_number h = absurd h
IsBefore-leb_time infinite minus_infinite h = absurd h
IsBefore-leb_time infinite (tick b) h = absurd h
IsBefore-leb_time infinite infinite h = refl

pub leb_time_iff : (a b : Time) → (leb_time a b ≡ true) ↔ IsBefore a b
leb_time_iff a b = (leb_time-IsBefore a b, IsBefore-leb_time a b)

pub eq_time_iff : (a b : Time) → (eq_time a b ≡ true) ↔ (IsBefore a b × IsBefore b a)
unfolding eq_time
eq_time_iff a b = (forward, backward)
  where
    forward : (if leb_time a b then leb_time b a else false) ≡ true → IsBefore a b × IsBefore b a
    forward h = (leb_time-IsBefore a b (ground arith), leb_time-IsBefore b a (ground arith))

    backward : IsBefore a b × IsBefore b a → (if leb_time a b then leb_time b a else false) ≡ true
    backward h = rw (IsBefore-leb_time a b h.0) (IsBefore-leb_time b a h.1)

-- What stands on a side of a comparison is a number.
pub IsNumber-before : (a b : Time) → IsBefore a b → IsNumber a
IsNumber-before not_a_number b h = absurd h
IsNumber-before minus_infinite b h = tt
IsNumber-before (tick a) b h = tt
IsNumber-before infinite b h = tt

least_time : (b : Time) → IsNumber b → IsBefore minus_infinite b
least_time not_a_number n = absurd n
least_time minus_infinite n = tt
least_time (tick b) n = tt
least_time infinite n = tt

pub IsBefore-refl : (a : Time) → IsNumber a → IsBefore a a
IsBefore-refl not_a_number n = absurd n
IsBefore-refl minus_infinite n = tt
IsBefore-refl (tick a) n = omega arith
IsBefore-refl infinite n = tt

IsNumber-after : (a b : Time) → IsBefore a b → IsNumber b
IsNumber-after not_a_number b h = absurd h
IsNumber-after minus_infinite not_a_number h = absurd h
IsNumber-after (tick a) not_a_number h = absurd h
IsNumber-after infinite not_a_number h = absurd h
IsNumber-after a minus_infinite h = tt
IsNumber-after a (tick b) h = tt
IsNumber-after a infinite h = tt

pub IsBefore-trans : (a b c : Time) → IsBefore a b → IsBefore b c → IsBefore a c
IsBefore-trans not_a_number b c h k = absurd h
IsBefore-trans minus_infinite b c h k = least_time c (IsNumber-after b c k)
IsBefore-trans (tick a) not_a_number c h k = absurd h
IsBefore-trans (tick a) minus_infinite c h k = absurd h
IsBefore-trans (tick a) (tick b) not_a_number h k = absurd k
IsBefore-trans (tick a) (tick b) minus_infinite h k = absurd k
IsBefore-trans (tick a) (tick b) (tick c) h k = omega arith
IsBefore-trans (tick a) (tick b) infinite h k = tt
IsBefore-trans (tick a) infinite not_a_number h k = absurd k
IsBefore-trans (tick a) infinite minus_infinite h k = absurd k
IsBefore-trans (tick a) infinite (tick c) h k = absurd k
IsBefore-trans (tick a) infinite infinite h k = tt
IsBefore-trans infinite not_a_number c h k = absurd h
IsBefore-trans infinite minus_infinite c h k = absurd h
IsBefore-trans infinite (tick b) c h k = absurd h
IsBefore-trans infinite infinite c h k = k

-- Of two numbers, one is before the other.
IsBefore-of_not : (a b : Time) → IsNumber a → IsNumber b → leb_time a b ≡ false → IsBefore b a
unfolding leb_time
IsBefore-of_not not_a_number b n m h = absurd n
IsBefore-of_not minus_infinite not_a_number n m h = absurd m
IsBefore-of_not minus_infinite minus_infinite n m h = cc
IsBefore-of_not minus_infinite (tick b) n m h = cc
IsBefore-of_not minus_infinite infinite n m h = cc
IsBefore-of_not (tick a) not_a_number n m h = absurd m
IsBefore-of_not (tick a) minus_infinite n m h = tt
IsBefore-of_not (tick a) (tick b) n m h = ground arith
IsBefore-of_not (tick a) infinite n m h = cc
IsBefore-of_not infinite not_a_number n m h = absurd m
IsBefore-of_not infinite minus_infinite n m h = tt
IsBefore-of_not infinite (tick b) n m h = tt
IsBefore-of_not infinite infinite n m h = cc

pub gt_time-IsBefore : (a b : Time) → gt_time a b ≡ true → IsBefore b a
unfolding gt_time
gt_time-IsBefore a b h = leb_time-IsBefore b a (ground arith)

pub not_gt_time : (a b : Time) → IsNumber a → IsNumber b → gt_time a b ≡ false → IsBefore a b
unfolding gt_time
not_gt_time a b n m h = elim (Bool-cases (leb_time b a)) [
  | inl e ↦ leb_time-IsBefore a b (ground arith)
  | inr e ↦ IsBefore-of_not b a m n e
]

-- What passes a test `a > b` is NaN or not later.
pub nan_or_IsBefore :
    (a b : Time) → IsNumber b → gt_time a b ≡ false → (a ≡ not_a_number) ⊎ IsBefore a b
nan_or_IsBefore not_a_number b m h = inl refl
nan_or_IsBefore minus_infinite b m h = inr (not_gt_time minus_infinite b tt m h)
nan_or_IsBefore (tick a) b m h = inr (not_gt_time (tick a) b tt m h)
nan_or_IsBefore infinite b m h = inr (not_gt_time infinite b tt m h)

pub nan_or_after :
    (a b : Time) → IsNumber b → gt_time b a ≡ false → (a ≡ not_a_number) ⊎ IsBefore b a
nan_or_after not_a_number b m h = inl refl
nan_or_after minus_infinite b m h = inr (not_gt_time b minus_infinite m tt h)
nan_or_after (tick a) b m h = inr (not_gt_time b (tick a) m tt h)
nan_or_after infinite b m h = inr (not_gt_time b infinite m tt h)
