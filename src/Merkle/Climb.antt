-- ===== src/Merkle/Climb.antt =====
-- The walk from a leaf to the root, without indices into the branch: the description of
-- `merkle_root_from_branch` that the other proofs about src/merkle/proof.rs use.
use eth_historian.Base.{
  ℕ, ◌+◌, ◌/◌, ◌%◌, ◌^◌, ◌≤◌, ◌<◌, ◌≡◌, refl, sym, ap, ◌∙◌, List, [], ◌∷◌, ◌++◌, false, ◌==◌,
  if◌then◌else◌, bytes_eq, ok, length, take, take_all, ith_bit, ith_bit_lem, div-pow-suc,
  div-two-pow, Bool-cases, inl, inr, ==_iff, arith, B256,
}
use native.Mathlib.Nat.{div-one}
use eth_historian.Merkle.Hashing.{Hashing, IsLawful}
use eth_historian.Merkle.Verify.{branch_loop, verify_merkle_proof}

module _ (H : Hashing) where
  -- The parent of `acc` and its sibling `x`; `n` is odd where `acc` is the right child.
  abbrev pub parent : ℕ → B256 → B256 → B256
  parent n acc x = if n % 2 == 1 then H.hash32_concat x acc else H.hash32_concat acc x

  abbrev pub climb : ℕ → B256 → List B256 → B256
  climb n acc [] = acc
  climb n acc (x ∷ xs) = climb (n / 2) (parent n acc x) xs

  pub climb-append :
      (n : ℕ) (acc : B256) (xs ys : List B256)
      → climb n acc (xs ++ ys) ≡ climb (n / 2 ^ length xs) (climb n acc xs) ys
  climb-append n acc [] ys = ap (λ m. climb m acc ys) (sym (div-one n))
  climb-append n acc (x ∷ xs) ys =
      climb-append (n / 2) (parent n acc x) xs ys
      ∙ ap (λ m. climb m (climb (n / 2) (parent n acc x) xs) ys) (div-two-pow n (length xs))

module _ (H : Hashing) (lawful : IsLawful H) where
  loop_step :
      (index i : ℕ) (root x : B256)
      → i < 64
      → (if ith_bit index i == 1 then H.hash32_concat x root else H.hash (root ++ x))
        ≡ parent H (index / 2 ^ i) root x
  loop_step index i root x h = rw (ith_bit_lem index i h, lawful.hash32_concat_lem root x) (refl)

  branch_loop-eq-climb :
      (index i : ℕ) (root : B256) (xs : List B256)
      → i + length xs ≤ 64
      → branch_loop H index i root xs ≡ climb H (index / 2 ^ i) root xs
  unfolding branch_loop
  branch_loop-eq-climb index i root [] h = refl
  branch_loop-eq-climb index i root (x ∷ xs) h = rw (loop_step index i root x (omega arith)) (
      branch_loop-eq-climb index (i + 1) (parent H (index / 2 ^ i) root x) xs (omega arith)
      ∙ ap (λ m. climb H m (parent H (index / 2 ^ i) root x) xs)
          (ap (λ k. index / 2 ^ k) (omega arith) ∙ sym (div-pow-suc index i)))

  root-eq-climb :
      (leaf : B256) (branch : List B256) (depth index : ℕ)
      → length branch ≡ depth
      → depth ≤ 64
      → branch_loop H index 0 leaf (take depth branch) ≡ climb H index leaf branch
  root-eq-climb leaf branch depth index e h = rw (take_all depth branch (omega arith)) (
      branch_loop-eq-climb index 0 leaf branch (omega arith)
      ∙ ap (λ m. climb H m leaf branch) (div-one index))

  -- With a depth of at most 64 a branch is checked without a panic: the answer is whether it has `depth`
  -- nodes and leads from the leaf to the root.
  pub verify_merkle_proof_lem :
      {E : Type 0} (leaf : B256) (branch : List B256) (depth index : ℕ) (root : B256)
      → depth ≤ 64
      → verify_merkle_proof H {E = E} leaf branch depth index root
        ≡ ok (if length branch == depth then bytes_eq (climb H index leaf branch) root else false)
  unfolding verify_merkle_proof
  verify_merkle_proof_lem leaf branch depth index root h =
      elim (Bool-cases (length branch == depth)) [
        | inl fits ↦ rw (fits, root-eq-climb leaf branch depth index ((==_iff _ _).0 fits) h) refl
        | inr short ↦ rw short refl
      ]
