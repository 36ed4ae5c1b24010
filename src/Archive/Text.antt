-- ===== src/Archive/Text.antt =====
-- The parsers inside `raw_block_to_alloy_header` (src/sources/archive_rpc.rs), with what they use of the
-- standard library: `trim_start_matches` and `u64::from_str_radix`. `hex::decode` is a parameter.
use Prim.Native.String.{len, ◌++◌ as ◌<+>◌}
use Prim.Native.Char.{Char, code}
use eth_historian.Base.{
  display, ℕ, ◌+◌, ◌-◌, ◌*◌, ◌%◌, ◌^◌, ◌++◌, ◌&&◌, String, ltb, leb, ◌==◌, if◌then◌else◌, Option,
  none, some, reverse, replicate, length, Outcome, ok, err, panic, map_err, ◌>>=◌, Bytes, B256,
  from_le_bytes,
}
use eth_historian.Errors.{Error, data_source, hex}

-- `s.trim_start_matches("0x")` takes off every leading "0x".
unfoldable pub trim_0x : String → String
trim_0x String.[] = String.[]
trim_0x (String.◌∷◌ c String.[]) = String.◌∷◌ c String.[]
trim_0x (String.◌∷◌ c (String.◌∷◌ d s)) =
    let rest = trim_0x s in
    if (code c == 48) && (code d == 120) then rest else String.◌∷◌ c (String.◌∷◌ d s)

-- `c.to_digit(16)`
unfoldable pub to_digit : Char → Option ℕ
to_digit c =
    if leb 48 (code c) && leb (code c) 57
    then some (code c - 48)
    else if leb 97 (code c) && leb (code c) 102
    then some (code c - 87)
    else if leb 65 (code c) && leb (code c) 70
    then some (code c - 55)
    else none

-- The digits after those that gave `result`: `checked_mul(16)`, `to_digit`, `checked_add`.
unfoldable pub radix_loop : ℕ → String → Outcome String ℕ
unfolding to_digit
radix_loop result String.[] = ok result
radix_loop result (String.◌∷◌ c s) = elim (to_digit c) [
  | none ↦ err "invalid digit found in string"
  | some x ↦
      let rest = radix_loop (result * 16 + x) s in
      if ltb (result * 16 + x) (2 ^ 64) then rest else err "number too large to fit in target type"
]

-- `u64::from_str_radix(src, 16)`; one leading plus sign is allowed, if a digit follows.
unfoldable pub from_str_radix : String → Outcome String ℕ
unfolding radix_loop
from_str_radix String.[] = err "cannot parse integer from empty string"
from_str_radix (String.◌∷◌ c String.[]) = radix_loop 0 (String.◌∷◌ c String.[])
from_str_radix (String.◌∷◌ c (String.◌∷◌ d s)) =
    if code c == 43
    then radix_loop 0 (String.◌∷◌ d s)
    else radix_loop 0 (String.◌∷◌ c (String.◌∷◌ d s))

-- `U256::from_be_bytes`
abbrev pub from_be_bytes : Bytes → ℕ
from_be_bytes bytes = from_le_bytes (reverse bytes)

-- The copies into arrays of a fixed size.
abbrev pub of_size : ℕ → String → Bytes → Outcome Error Bytes
of_size n expected bytes =
    if length bytes == n
    then ok bytes
    else err (data_source (expected <+> ", got " <+> display (length bytes) <+> " bytes"))

module _ (decode : String → Outcome String Bytes) where
  -- `hex::decode(..)?`
  abbrev pub hex_bytes : String → Outcome Error Bytes
  hex_bytes s = map_err hex (decode s)

  unfoldable pub parse_b256 : String → String → Outcome Error B256
  unfolding trim_0x
  parse_b256 s field = do
    bytes ← hex_bytes (trim_0x s)
    of_size 32 ("expected 32-byte hex for " <+> field) bytes

  unfoldable pub parse_addr : String → Outcome Error Bytes
  unfolding trim_0x
  parse_addr s = do
    bytes ← hex_bytes (trim_0x s)
    of_size 20 "expected 20-byte hex for address" bytes

  unfoldable pub parse_bytes : String → Outcome Error Bytes
  unfolding trim_0x
  parse_bytes s = hex_bytes (trim_0x s)

  unfoldable pub parse_bloom : String → Outcome Error Bytes
  unfolding trim_0x
  parse_bloom s = do
    raw ← hex_bytes (trim_0x s)
    of_size 256 "expected 256-byte hex for logs_bloom" raw

  unfoldable pub parse_b64 : String → Outcome Error Bytes
  unfolding trim_0x
  parse_b64 s = do raw ← hex_bytes (trim_0x s); of_size 8 "expected 8-byte hex for nonce" raw

  -- An even number of digits.
  abbrev pub padded_hex : String → String
  padded_hex trimmed = if len trimmed % 2 == 1 then "0" <+> trimmed else trimmed

  -- `32 - raw.len()` wraps below zero, and the slice that starts there panics.
  unfoldable pub parse_u256 : String → Outcome Error ℕ
  unfolding trim_0x from_le_bytes
  parse_u256 s =
      if len (trim_0x s) == 0
      then ok 0
      else (hex_bytes (padded_hex (trim_0x s)) >>= λ raw.
          if leb (length raw) 32
          then ok (from_be_bytes (replicate (32 - length raw) 0 ++ raw))
          else panic)

unfoldable pub parse_u64 : String → String → Outcome Error ℕ
unfolding trim_0x from_str_radix
parse_u64 s field =
    map_err (λ e. data_source ("parsing u64 for " <+> field <+> ": " <+> e))
      (from_str_radix (trim_0x s))
