-- ===== src/Base/Display.antt =====
-- `Display` and `LowerHex` of integers, as the standard library prints them.
use Prim.Native.String.{String, char_at, ◌++◌}
use Prim.Native.Nat.{ℕ, zero, suc, ◌/◌, ◌%◌}
use eth_historian.Base.Tests.{ltb, if◌then◌else◌}

-- The digits of `n` in front of `acc`; each takes one unit of the fuel.
unfoldable pub digits : ℕ → ℕ → ℕ → String → String
digits radix zero n acc = acc
digits radix (suc fuel) n acc =
    let rest =
      digits radix fuel (n / radix) (String.◌∷◌ (char_at "0123456789abcdef" (n % radix)) acc) in
    if ltb n radix then String.◌∷◌ (char_at "0123456789abcdef" n) acc else rest

-- `{}` and `{:x}` of a `u64`, which has at most 20 decimal and 16 hexadecimal digits.
abbrev pub display : ℕ → String
display n = digits 10 20 n ""

abbrev pub lower_hex : ℕ → String
lower_hex n = digits 16 16 n ""

-- The integers, as the type `i64` has them.
pub data ℤ : Type 0 where
  pos : ℕ → ℤ
  negsuc : ℕ → ℤ

-- `{}` of an `i64`.
abbrev pub display_int : ℤ → String
display_int (pos n) = display n
display_int (negsuc n) = "-" ++ display (suc n)
