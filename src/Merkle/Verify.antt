-- ===== src/Merkle/Verify.antt =====
-- src/merkle/proof.rs: `merkle_root_from_branch` and `verify_merkle_proof`.
use eth_historian.Base.{
  ℕ, ◌+◌, List, [], ◌∷◌, ◌++◌, Bool, false, ◌==◌, if◌then◌else◌, bytes_eq, Outcome, ok, panic,
  ◌>>=◌, length, take, ith_bit, B256,
}
use eth_historian.Merkle.Hashing.{Hashing}

module _ (H : Hashing) where
  -- The `for` loop, at iteration `i`, over the nodes that are left.
  unfoldable pub branch_loop : ℕ → ℕ → B256 → List B256 → B256
  branch_loop index i merkle_root [] = merkle_root
  branch_loop index i merkle_root (x ∷ xs) =
      branch_loop index (i + 1)
        (if ith_bit index i == 1 then H.hash32_concat x merkle_root else H.hash (merkle_root ++ x))
        xs

  -- `assert_eq!(branch.len(), depth)` panics where it fails.
  unfoldable pub merkle_root_from_branch : {E : Type 0} → B256 → List B256 → ℕ → ℕ → Outcome E B256
  unfolding branch_loop
  merkle_root_from_branch leaf branch depth index =
      if length branch == depth then ok (branch_loop index 0 leaf (take depth branch)) else panic

  unfoldable pub verify_merkle_proof :
      {E : Type 0} → B256 → List B256 → ℕ → ℕ → B256 → Outcome E Bool
  unfolding merkle_root_from_branch
  verify_merkle_proof leaf branch depth index root =
      if length branch == depth
      then (do
        merkle_root ← merkle_root_from_branch leaf branch depth index
        ok (bytes_eq merkle_root root))
      else ok false
