-- ===== src/Prelude/Hex.antt =====
-- The regular expression ^[0-9a-f]{64}$ of a SHA-256 digest, under `fullmatch`.
use Prim.Native.Nat.{ℕ, suc}
use Prim.Native.Char.{code}
use Prim.Native.String.{String}
use mathlib.Core.Bool.{Bool, true, ◌&&◌, ◌||◌}
use proofos.Prelude.Tests.{leb, nat_eq}

abbrev is_hex : ℕ → Bool
is_hex c = (leb 48 c && leb c 57) || (leb 97 c && leb c 102)

unfoldable all_hex : String → Bool
all_hex String.[] = true
all_hex (String.◌∷◌ c s) = is_hex (code c) && all_hex s

unfoldable count : String → ℕ
count String.[] = 0
count (String.◌∷◌ c s) = suc (count s)

unfoldable pub is_digest : String → Bool
unfolding all_hex count
is_digest s = nat_eq (count s) 64 && all_hex s
