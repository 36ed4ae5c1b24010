-- ===== src/Archive/Quantity.antt =====
-- The quantities of an execution RPC: what `{:x}` prints, `parse_u64` (src/sources/archive_rpc.rs) reads.
use Prim.Native.String.{char_at, ◌++◌ as ◌<+>◌}
use Prim.Native.String.append.{nil, cons}
use Prim.Native.Char.{Char, code}
use native.Mathlib.Nat.{pow-suc}
use eth_historian.Base.{
  ℕ, zero, suc, ◌+◌, ◌*◌, ◌/◌, ◌%◌, ◌^◌, ◌≤◌, ◌<◌, ◌≡◌, refl, ap, sym, ◌∙◌, subst, String, Bool,
  Bool-cases, inl, inr, true, false, not, ◌&&◌, ltb, ◌==◌, ==_iff, Option, none, some, ok, map_err,
  digits, lower_hex, arith,
}
use eth_historian.Archive.RawBlock.{RawBlock}
use eth_historian.Errors.{Error, data_source}
use eth_historian.Archive.Text.{to_digit, radix_loop, from_str_radix, trim_0x, parse_u64}
use eth_historian.Archive.Bounds.{ltb→lt}

both : (a b : Bool) → (a && b) ≡ true → (a ≡ true) × (b ≡ true)
both true true h = (refl, refl)
both true false h = cc
both false b h = cc

-- A property of numbers that is tested below a bound.
all_below : (ℕ → Bool) → ℕ → Bool
all_below test zero = true
all_below test (suc n) = test n && all_below test n

all_below_lem :
    (test : ℕ → Bool) (n : ℕ) → all_below test n ≡ true → (i : ℕ) → i < n → test i ≡ true
unfolding all_below
all_below_lem test zero h i l = absurd (omega arith)
all_below_lem test (suc n) h i l = elim (Bool-cases (i == n)) [
  | inl same ↦ ap test ((==_iff i n).0 same) ∙ (both _ _ h).0
  | inr other ↦ all_below_lem test n (both _ _ h).1 i (ground arith)
]

abbrev hex_digit : ℕ → Char
hex_digit d = char_at "0123456789abcdef" d

abbrev is_digit : Option ℕ → ℕ → Bool
is_digit none d = false
is_digit (some x) d = x == d

abbrev reads_back : ℕ → Bool
reads_back d =
    is_digit (to_digit (hex_digit d)) d
    && (not (code (hex_digit d) == 120) && not (code (hex_digit d) == 43))

all_read_back : all_below reads_back 16 ≡ true
unfolding all_below to_digit
all_read_back = refl

lt→ltb : (a b : ℕ) → a < b → ltb a b ≡ true
lt→ltb a b h = ground arith

ltb_false→le : (a b : ℕ) → ltb a b ≡ false → b ≤ a
ltb_false→le a b h = ground arith

negated : (b : Bool) → not b ≡ true → b ≡ false
negated true h = cc
negated false h = refl

is_digit-true : (o : Option ℕ) (d : ℕ) → is_digit o d ≡ true → o ≡ some d
is_digit-true none d h = cc
is_digit-true (some x) d h = ap some ((==_iff x d).0 h)

digit_lem :
    (d : ℕ)
    → d < 16
    → (to_digit (hex_digit d) ≡ some d)
      × ((code (hex_digit d) == 120) ≡ false)
      × ((code (hex_digit d) == 43) ≡ false)
digit_lem d h =
    let (digit, other) = both _ _ (all_below_lem reads_back 16 all_read_back d h) in
    let (x, plus) = both _ _ other in (is_digit-true _ d digit, negated _ x, negated _ plus)

-- No "x" and no plus sign.
abbrev IsPlain : String → Type 0
IsPlain String.[] = Unit
IsPlain (String.◌∷◌ c s) = ((code c == 120) ≡ false) × ((code c == 43) ≡ false) × IsPlain s

and_false : (a b : Bool) → b ≡ false → (a && b) ≡ false
and_false true b h = h
and_false false b h = refl

trim_plain : (s : String) → IsPlain s → trim_0x s ≡ s
unfolding trim_0x
trim_plain String.[] h = refl
trim_plain (String.◌∷◌ c String.[]) h = refl
trim_plain (String.◌∷◌ c (String.◌∷◌ d s)) (_, _, (x, _, _)) =
    rw (and_false (code c == 48) (code d == 120) x) refl

radix_plain :
    (c : Char) (s : String)
    → IsPlain (String.◌∷◌ c s)
    → from_str_radix (String.◌∷◌ c s) ≡ radix_loop 0 (String.◌∷◌ c s)
unfolding from_str_radix
radix_plain c String.[] h = refl
radix_plain c (String.◌∷◌ d s) (_, plus, _) = rw plus refl

-- The digits of `n` before `acc`, and what the loop makes of them.
abbrev Printed : String → ℕ → String → Type 0
Printed out n acc =
    (c : Char) × (s : String) × (out ≡ String.◌∷◌ c s)
    × IsPlain out
    × (radix_loop 0 out ≡ radix_loop n acc)

one_digit :
    (result n : ℕ) (acc : String)
    → n < 16
    → result * 16 + n < 2 ^ 64
    → radix_loop result (String.◌∷◌ (hex_digit n) acc) ≡ radix_loop (result * 16 + n) acc
unfolding radix_loop
one_digit result n acc h small =
    rw (radix_loop, (digit_lem n h).0, lt→ltb (result * 16 + n) (2 ^ 64) small) refl

quotient : (n p : ℕ) → n < p * 16 → n / 16 < p
quotient n p h = omega arith

joined : (n : ℕ) → n / 16 * 16 + n % 16 ≡ n
joined n = omega arith

first_digit :
    (n : ℕ) (acc : String) → n < 16 → radix_loop 0 (String.◌∷◌ (hex_digit n) acc) ≡ radix_loop n acc
first_digit n acc h =
    one_digit 0 n acc h (omega arith) ∙ ap (λ m. radix_loop m acc) {x = 0 * 16 + n} (omega arith)

digits_lem :
    (fuel n : ℕ) (acc : String)
    → n < 16 ^ suc fuel
    → n < 2 ^ 64
    → IsPlain acc
    → Printed (digits 16 (suc fuel) n acc) n acc
unfolding digits
digits_lem zero n acc h u64 plain =
    let small : n < 16 = omega arith in
    let (_, x, plus) = digit_lem n small in
    rw (lt→ltb n 16 small) (hex_digit n, acc, refl, (x, plus, plain), first_digit n acc small)
digits_lem (suc fuel) n acc h u64 plain = elim (Bool-cases (ltb n 16)) [
  | inl last ↦
      let small = ltb→lt n 16 last in
      let (_, x, plus) = digit_lem n small in
      rw last (hex_digit n, acc, refl, (x, plus, plain), first_digit n acc small)
  | inr more ↦
      let low : n % 16 < 16 = omega arith in
      let (_, x, plus) = digit_lem (n % 16) low in
      let above =
        digits_lem fuel (n / 16) (String.◌∷◌ (hex_digit (n % 16)) acc)
          (quotient n (16 ^ suc fuel) (subst (λ p. n < p) (pow-suc 16 (suc fuel)) h)) (omega arith)
          (x, plus, plain) in
      rw more (
        above.0,
        above.1,
        above.2,
        above.3,
        above.4
            ∙ one_digit (n / 16) (n % 16) acc low (omega arith)
            ∙ ap (λ m. radix_loop m acc) (joined n),
      )
]

prefixed : (s : String) → trim_0x ("0x" <+> s) ≡ trim_0x s
unfolding trim_0x
prefixed s = ap trim_0x (
    cons (char_at "0" 0) "x" s
    ∙ ap (String.◌∷◌ (char_at "0" 0))
        (cons (char_at "x" 0) "" s ∙ ap (String.◌∷◌ (char_at "x" 0)) (nil s)))

abbrev number_error : String → String → Error
number_error field e = data_source ("parsing u64 for " <+> field <+> ": " <+> e)

-- What `{:x}` prints of a 64-bit number after "0x", `parse_u64` reads back.
pub parse_u64-lower_hex :
    (n : ℕ) (field : String) → n < 2 ^ 64 → parse_u64 ("0x" <+> lower_hex n) field ≡ ok n
unfolding parse_u64
parse_u64-lower_hex n field h =
    let (c, s, e, plain, value) = digits_lem 15 n "" (omega arith) h tt in
    ap (λ text. map_err (number_error field) (from_str_radix text))
      (prefixed (lower_hex n) ∙ trim_plain (lower_hex n) plain ∙ e)
    ∙ ap (map_err (number_error field))
        (radix_plain c s (subst IsPlain e plain) ∙ ap (radix_loop 0) (sym e) ∙ value)
