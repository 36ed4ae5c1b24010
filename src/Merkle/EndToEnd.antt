-- ===== src/Merkle/EndToEnd.antt =====
-- `create`, `generate_proof` and `verify_merkle_proof` (src/merkle/proof.rs), one after the other.
use eth_historian.Base.{ℕ, ◌%◌, ◌^◌, ◌≤◌, ◌≡◌, ap, sym, ◌∙◌, List, ok, true, length, arith, B256}
use eth_historian.Merkle.Hashing.{Hashing, IsLawful}
use eth_historian.Merkle.Tree.{MerkleTree, create, hash, generate_proof}
use eth_historian.Merkle.Verify.{verify_merkle_proof}
use eth_historian.Merkle.Climb.{climb}
use eth_historian.Merkle.Binding.{verify_merkle_proof_iff}
use eth_historian.Merkle.Shape.{hash_lem}
use eth_historian.Merkle.Walk.{siblings, length-siblings, climb-siblings, generate_proof_lem}
use eth_historian.Merkle.Create.{
  padded, complete_root, built, built-IsTree, create_lem, root_of-built, reached-built,
}

module _ (H : Hashing) (lawful : IsLawful H) (leaves : List B256) (index d : ℕ) (h : d ≤ 33)
    (l : length leaves ≤ 2 ^ d) where
  -- The tree of the leaves, and the branch that is generated for the index.
  pub tree_and_branch :
      {E : Type 0}
      → (t : MerkleTree) × (branch : List B256) × (create H {E = E} leaves d ≡ ok t)
        × (generate_proof H t index d ≡ ok (padded H leaves (index % 2 ^ d), branch))
        × (hash H {E = E} t ≡ ok (complete_root H d (padded H leaves)))
        × (length branch ≡ d)
        × (climb H index (padded H leaves (index % 2 ^ d)) branch
            ≡ complete_root H d (padded H leaves))
  tree_and_branch {E} =
      let t = built H leaves d in
      let shaped = built-IsTree H lawful leaves d h l in
      let leaf = reached-built H lawful index leaves d h l in
      let root = root_of-built H lawful leaves d h l in
      (
        t,
        siblings H index d t,
        create_lem H lawful {E = E} leaves d h l,
        generate_proof_lem H lawful index d t (omega arith) shaped
            ∙ ap (λ x. ok (x, siblings H index d t)) leaf,
        hash_lem H lawful {E = E} d t shaped ∙ ap ok root,
        length-siblings H index d t,
        ap (λ x. climb H index x (siblings H index d t)) (sym leaf)
            ∙ climb-siblings H lawful index d t shaped
            ∙ root,
      )

  -- Over at most `2 ^ d` leaves and for any index, `create` and `generate_proof` return: the leaf is
  -- the one at the index modulo `2 ^ d`, a zero leaf past the end; the hash of the tree is the root of
  -- the complete tree over the padded leaves; and `verify_merkle_proof` accepts the leaf with the
  -- branch at that index against that hash. The depth is at most 33, as `ZERO_NODES` allows.
  pub verify-create :
      {E : Type 0}
      → (t : MerkleTree) × (branch : List B256) × (create H {E = E} leaves d ≡ ok t)
        × (generate_proof H t index d ≡ ok (padded H leaves (index % 2 ^ d), branch))
        × (hash H {E = E} t ≡ ok (complete_root H d (padded H leaves)))
        × (verify_merkle_proof H {E = E}
              (padded H leaves (index % 2 ^ d))
              branch
              d
              index
              (complete_root H d (padded H leaves))
            ≡ ok true)
  verify-create {E} =
      let built = tree_and_branch {E = E} in
      (
        built.0,
        built.1,
        built.2,
        built.3,
        built.4,
        (verify_merkle_proof_iff H lawful {E = E} (padded H leaves (index % 2 ^ d)) built.1 d index
              (complete_root H d (padded H leaves)) (omega arith)).1
            (built.5, built.6),
      )
