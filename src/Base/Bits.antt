-- ===== src/Base/Bits.antt =====
-- The bits of an index, as the loops of merkle/proof.rs read them: `(index >> i) & 0x01`.
use Prim.Native.Nat.{ℕ, zero, suc, ◌+◌, ◌*◌, ◌/◌, ◌%◌, ◌^◌, ◌≤◌, ◌<◌}
use mathlib.Core.Path.{◌≡◌, ap, ◌∙◌, sym}
use native.Mathlib.Omega.{arith}
use native.Mathlib.Nat.{
  div-div-eq-div-mul, two-pow-succ, pow-le-pow_right, mod-eq_of_lt, div-add-mod, mod-lt, div-one,
  div-eq_of_lt, add-mul-mod_self_left,
}

-- `x >> k` on a `usize`: a release build takes the shift amount modulo 64.
abbrev pub shr : ℕ → ℕ → ℕ
shr x k = x / 2 ^ (k % 64)

-- `(index >> i) & 0x01`
unfoldable pub ith_bit : ℕ → ℕ → ℕ
ith_bit index i = shr index i % 2

pub ith_bit_lem : (index i : ℕ) → i < 64 → ith_bit index i ≡ index / 2 ^ i % 2
unfolding ith_bit
ith_bit_lem index i h = rw (mod-eq_of_lt h)

pub pow_pos : (d : ℕ) → 0 < 2 ^ d
pow_pos zero = omega arith
pow_pos (suc d) = omega (arith, two-pow-succ d, pow_pos d)

pub pow-suc_two : (d : ℕ) → 2 ^ suc d ≡ 2 ^ d + 2 ^ d
pow-suc_two d = two-pow-succ d

pub pow_mono : (i j : ℕ) → i ≤ j → 2 ^ i ≤ 2 ^ j
pow_mono i j h = pow-le-pow_right (omega arith) h

pub div-pow-suc : (n i : ℕ) → n / 2 ^ i / 2 ≡ n / 2 ^ suc i
div-pow-suc n i = div-div-eq-div-mul n (2 ^ i) 2 ∙ ap (λ m. n / m) (omega (arith, two-pow-succ i))

pub div-two-pow : (n i : ℕ) → n / 2 / 2 ^ i ≡ n / 2 ^ suc i
div-two-pow n i = div-div-eq-div-mul n 2 (2 ^ i) ∙ ap (λ m. n / m) (omega (arith, two-pow-succ i))

pub div-pow-add : (n i j : ℕ) → n / 2 ^ i / 2 ^ j ≡ n / 2 ^ (i + j)
div-pow-add n i zero = div-one (n / 2 ^ i) ∙ ap (λ k. n / 2 ^ k) (omega arith)
div-pow-add n i (suc j) =
    sym (div-pow-suc (n / 2 ^ i) j)
    ∙ ap (λ m. m / 2) (div-pow-add n i j)
    ∙ div-pow-suc n (i + j)
    ∙ ap (λ k. n / 2 ^ k) (omega arith)

pub mod_two : (n : ℕ) → n % 2 < 2
mod_two n = omega arith

-- Below twice `p`: one binary digit and a remainder.
digit-lt : (b r p : ℕ) → b < 2 → r < p → b * p + r < p + p
digit-lt zero r p hb hr = omega arith
digit-lt (suc zero) r p hb hr = omega arith
digit-lt (suc (suc b)) r p hb hr = absurd (omega arith)

split_twice : (q p r : ℕ) → p * q + r ≡ q % 2 * p + r + (p + p) * (q / 2)
split_twice q p r =
    let e : q ≡ q / 2 + q / 2 + q % 2 = omega arith in omega (arith, ap (λ (t : ℕ). p * t) e)

mod-twice : (n p : ℕ) → 0 < p → n % (p + p) ≡ n / p % 2 * p + n % p
mod-twice n p h =
    ap (λ m. m % (p + p)) (sym (div-add-mod n p) ∙ split_twice (n / p) p (n % p))
    ∙ add-mul-mod_self_left (n / p % 2 * p + n % p) (p + p) (n / p / 2)
    ∙ mod-eq_of_lt (digit-lt (n / p % 2) (n % p) p (mod_two (n / p)) (mod-lt n h))

-- The low `d + 1` bits are bit `d` and the low `d` bits.
pub mod-pow-suc : (n d : ℕ) → n % 2 ^ suc d ≡ n / 2 ^ d % 2 * 2 ^ d + n % 2 ^ d
mod-pow-suc n d = ap (λ m. n % m) (two-pow-succ d) ∙ mod-twice n (2 ^ d) (pow_pos d)

-- Below `2 ^ d` no bit at `d` or above is set.
pub div-pow_small : (n d : ℕ) → n < 2 ^ d → n / 2 ^ d ≡ 0
div-pow_small n d h = div-eq_of_lt h

-- A power of two that a `usize` holds.
pub pow-fits : (d : ℕ) → d < 64 → 2 ^ d % 2 ^ 64 ≡ 2 ^ d
pow-fits d h = mod-eq_of_lt (omega (arith, two-pow-succ d, pow_mono (suc d) 64 h, pow_pos d))
