-- ===== src/Merkle/Tree.antt =====
-- src/merkle/proof.rs: `MerkleTree` with `create`, `hash`, `left_and_right_branches` and
-- `generate_proof`, as a release build runs them (`debug_assert!` is not checked).
use eth_historian.Base.{
  ℕ, suc, ◌%◌, ◌^◌, List, [], ◌∷◌, ◌++◌, reverse, Option, none, some, Bool, true, false, leb, ◌==◌,
  if◌then◌else◌, Outcome, ok, err, panic, unwrap, ◌>>=◌, length, take, drop, get_elem?, ith_bit,
  B256,
}
use eth_historian.Merkle.Hashing.{Hashing}

pub data MerkleTree : Type 0 where
  finalized : B256 → MerkleTree
  leaf : B256 → MerkleTree
  node : B256 → MerkleTree → MerkleTree → MerkleTree
  zero : ℕ → MerkleTree

pub data InvalidSnapshot : Type 0 where
  empty_branch_with_non_zero_deposits : ℕ → InvalidSnapshot
  end_of_tree : InvalidSnapshot

pub data MerkleTreeError : Type 0 where
  leaf_reached merkle_tree_full invalid depth_too_small arith_error : MerkleTreeError
  zero_node_finalized finalized_node_pushed : MerkleTreeError
  invalid_snapshot : InvalidSnapshot → MerkleTreeError
  proof_encountered_finalized_node please_notify_the_devs : MerkleTreeError

abbrev pub max_tree_depth : ℕ
max_tree_depth = 32

-- `ZERO_NODES[i]`, for the table of `Zero(0)` to `Zero(MAX_TREE_DEPTH)`.
unfoldable pub zero_nodes : {E : Type 0} → ℕ → Outcome E MerkleTree
zero_nodes i = if leb i max_tree_depth then ok (zero i) else panic

unfoldable pub left_and_right_branches :
    {E : Type 0} → MerkleTree → Outcome E (Option (MerkleTree × MerkleTree))
unfolding zero_nodes
left_and_right_branches (finalized h) = ok none
left_and_right_branches (leaf h) = ok none
left_and_right_branches (node h l r) = ok (some (l, r))
left_and_right_branches (zero ℕ.zero) = ok none
left_and_right_branches (zero (suc d)) = do l ← zero_nodes d; r ← zero_nodes d; ok (some (l, r))

unfoldable pub is_leaf : MerkleTree → Bool
is_leaf (leaf h) = true
is_leaf _ = false

-- The pattern `&MerkleTree::Finalized(_)`.
unfoldable pub is_finalized : MerkleTree → Bool
is_finalized (finalized h) = true
is_finalized _ = false

-- `2usize.pow(depth as u32 - 1)` at depth `d + 1`.
abbrev pub subtree_capacity : ℕ → ℕ
subtree_capacity d = 2 ^ d % 2 ^ 64

-- The two halves that `create` gives its subtrees.
unfoldable pub split_leaves : List B256 → ℕ → List B256 × List B256
split_leaves leaves capacity =
    if leb (length leaves) capacity
    then (leaves, [])
    else (take capacity leaves, drop capacity leaves)

module _ (H : Hashing) where
  unfoldable pub hash : {E : Type 0} → MerkleTree → Outcome E B256
  hash (finalized h) = ok h
  hash (leaf h) = ok h
  hash (node h l r) = ok h
  hash (zero d) = unwrap (get_elem? H.zero_hashes d)

  unfoldable pub create : {E : Type 0} → List B256 → ℕ → Outcome E MerkleTree
  create [] depth = ok (zero depth)
  create (x ∷ xs) ℕ.zero = ok (leaf x)
  create (x ∷ xs) (suc d) = do
    left ← create (split_leaves (x ∷ xs) (subtree_capacity d)).0 d
    right ← create (split_leaves (x ∷ xs) (subtree_capacity d)).1 d
    left_hash ← hash left
    right_hash ← hash right
    ok (node (H.hash32_concat left_hash right_hash) left right)

  -- The `while` loop of `generate_proof`, from its current node, depth and proof.
  unfoldable pub generate_proof_loop :
      MerkleTree → ℕ → ℕ → List B256 → Outcome MerkleTreeError (MerkleTree × List B256)
  unfolding hash left_and_right_branches is_finalized
  generate_proof_loop t index ℕ.zero proof = ok (t, proof)
  generate_proof_loop t index (suc d) proof =
      if is_finalized t then err proof_encountered_finalized_node else do
        branches ← left_and_right_branches t
        (left, right) ← unwrap branches
        let right_next = ith_bit index d == 1
        sibling ← hash (if right_next then left else right)
        generate_proof_loop (if right_next then right else left) index d (proof ++ sibling ∷ [])

  unfoldable pub generate_proof : MerkleTree → ℕ → ℕ → Outcome MerkleTreeError (B256 × List B256)
  unfolding generate_proof_loop
  generate_proof t index depth = do
    (current_node, proof) ← generate_proof_loop t index depth []
    leaf_hash ← hash current_node
    ok (leaf_hash, reverse proof)
