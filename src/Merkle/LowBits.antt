-- ===== src/Merkle/LowBits.antt =====
-- A branch of `d` nodes reads the low `d` bits of its index only (src/merkle/proof.rs); so a generalized
-- index, which has a higher bit set, walks as the plain index does.
use eth_historian.Base.{
  ℕ, suc, ◌+◌, ◌*◌, ◌/◌, ◌%◌, ◌^◌, ◌<◌, ◌≡◌, refl, sym, ap, ap₂, ◌∙◌, List, [], ◌∷◌, ◌++◌, false,
  ◌==◌, if◌then◌else◌, length, pow-suc_two, arith, B256,
}
use native.Mathlib.Nat.{mul-add, mul-add-div_right, div-eq_of_lt}
use eth_historian.Merkle.Hashing.{Hashing}
use eth_historian.Merkle.Climb.{parent, climb, climb-append}

doubled : (k n d : ℕ) → k * 2 ^ suc d + n ≡ k * 2 ^ d * 2 + n
doubled k n d = rw (pow-suc_two d, mul-add k (2 ^ d) (2 ^ d)) (omega arith)

halved : (m n : ℕ) → (m * 2 + n) / 2 ≡ m + n / 2
halved m n = omega arith

above : (k i p : ℕ) → i < p → (k * p + i) / p ≡ k
above k i p h = mul-add-div_right (omega arith) k i ∙ omega (arith, div-eq_of_lt h)

-- Above 13 levels the index of a mixed-in node is 2.
top : (i : ℕ) → i < 8192 → ((2 * 2 ^ 13 + i) / 2 ^ 13 % 2 == 1) ≡ false
top i h = let two : (2 * 2 ^ 13 + i) / 2 ^ 13 ≡ 2 = omega arith in rw two refl

module _ (H : Hashing) where
  parent-low : (k n : ℕ) (a x : B256) → parent H (k * 2 + n) a x ≡ parent H n a x
  parent-low k n a x =
      ap (λ b. if b then H.hash32_concat x a else H.hash32_concat a x)
        (ap (λ m. m == 1) (omega arith))

  pub climb-low :
      (k n : ℕ) (a : B256) (xs : List B256) → climb H (k * 2 ^ length xs + n) a xs ≡ climb H n a xs
  climb-low k n a [] = refl
  climb-low k n a (x ∷ xs) =
      ap (λ m. climb H (m / 2) (parent H m a x) xs) (doubled k n (length xs))
      ∙ ap₂ (λ m acc. climb H m acc xs) (halved (k * 2 ^ length xs) n)
          (parent-low (k * 2 ^ length xs) n a x)
      ∙ climb-low k (n / 2) (parent H n a x) xs

  -- A branch of 13 nodes below one more node on the right.
  pub climb-mixed :
      (i : ℕ) (a above : B256) (branch : List B256)
      → i < 8192
      → length branch ≡ 13
      → climb H (2 * 2 ^ 13 + i) a (branch ++ above ∷ [])
        ≡ H.hash32_concat (climb H i a branch) above
  climb-mixed i a above branch h l =
      ap (λ d. climb H (2 * 2 ^ d + i) a (branch ++ above ∷ [])) (sym l)
      ∙ climb-append H (2 * 2 ^ length branch + i) a branch (above ∷ [])
      ∙ rw (climb-low 2 i a branch, l)
          (ap
            (λ b.
              if b
              then H.hash32_concat above (climb H i a branch)
              else H.hash32_concat (climb H i a branch) above)
            (top i h))

  -- A branch in two parts: the upper part starts where the lower one ends.
  pub climb-split :
      (k i d : ℕ) (a : B256) (low up : List B256)
      → length low ≡ d
      → i < 2 ^ d
      → climb H (k * 2 ^ d + i) a (low ++ up) ≡ climb H k (climb H i a low) up
  climb-split k i d a low up l h =
      climb-append H (k * 2 ^ d + i) a low up
      ∙ ap₂ (λ m acc. climb H m acc up) (ap (λ e. (k * 2 ^ d + i) / 2 ^ e) l ∙ above k i (2 ^ d) h)
          (ap (λ e. climb H (k * 2 ^ e + i) a low) (sym l) ∙ climb-low k i a low)
