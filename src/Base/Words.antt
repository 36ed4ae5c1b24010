-- ===== src/Base/Words.antt =====
-- Byte strings, and the machine words that the program writes into them.
use Prim.Native.Nat.{ℕ, zero, suc, ◌+◌, ◌*◌, ◌/◌, ◌%◌, ◌^◌, ◌<◌}
use mathlib.Core.Path.{◌≡◌, refl, ap}
use mathlib.Core.List.{List, [], ◌∷◌}
use native.Mathlib.Omega.{arith}
use native.Mathlib.Nat.{div-lt_iff_lt-mul, pow-suc}
use eth_historian.Base.Lists.{length}

-- `[u8]`, `Vec<u8>`, `Bytes`: each element is below 256.
abbrev pub Bytes : Type 0
Bytes = List ℕ

-- `[u8; 32]`
abbrev pub B256 : Type 0
B256 = Bytes

-- The first `w` little-endian bytes of a number: `to_le_bytes` of an unsigned type of `w` bytes.
unfoldable pub to_le_bytes : ℕ → ℕ → Bytes
to_le_bytes zero n = []
to_le_bytes (suc w) n = (n % 256) ∷ to_le_bytes w (n / 256)

-- `from_le_bytes`
unfoldable pub from_le_bytes : Bytes → ℕ
from_le_bytes [] = 0
from_le_bytes (b ∷ bs) = b + 256 * from_le_bytes bs

pub length-to_le_bytes : (w n : ℕ) → length (to_le_bytes w n) ≡ w
unfolding to_le_bytes
length-to_le_bytes zero n = refl
length-to_le_bytes (suc w) n = ap suc (length-to_le_bytes w (n / 256))

below_quotient : (w n : ℕ) → n < 256 ^ suc w → n / 256 < 256 ^ w
below_quotient w n h = (div-lt_iff_lt-mul (omega arith)).1 (rw (← pow-suc) h)

pub from_le_bytes-to_le_bytes : (w n : ℕ) → n < 256 ^ w → from_le_bytes (to_le_bytes w n) ≡ n
unfolding to_le_bytes from_le_bytes
from_le_bytes-to_le_bytes zero n h = omega arith
from_le_bytes-to_le_bytes (suc w) n h =
    omega (arith, from_le_bytes-to_le_bytes w (n / 256) (below_quotient w n h))
