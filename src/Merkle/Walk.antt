-- ===== src/Merkle/Walk.antt =====
-- `MerkleTree::generate_proof` (src/merkle/proof.rs) on complete trees: it succeeds, and
-- `verify_merkle_proof` accepts what it returns.
use eth_historian.Base.{
  ℕ, zero, suc, ◌/◌, ◌%◌, ◌^◌, ◌≤◌, ◌≡◌, refl, ◌∙◌, Bool, true, false, not, Bool-cases, inl, inr,
  ◌==◌, List, [], ◌∷◌, ◌++◌, reverse, append_assoc, append-nil, ok, ◌>>=◌, length, length-append,
  ith_bit_lem, arith, B256,
}
use mathlib.Core.List.{reverse-append, reverse-reverse}
use eth_historian.Merkle.Hashing.{Hashing, IsLawful}
use eth_historian.Merkle.Tree.{
  MerkleTree, MerkleTreeError, hash, generate_proof_loop, generate_proof,
}
use eth_historian.Merkle.Verify.{verify_merkle_proof}
use eth_historian.Merkle.Climb.{parent, climb, climb-append}
use eth_historian.Merkle.Binding.{verify_merkle_proof_iff}
use eth_historian.Merkle.Shape.{
  next, root_of, IsTree, hash_lem, next-IsTree, root_of-next, branches_lem,
}

-- Bit `d` of the index: which way the walk turns at depth `d + 1`.
abbrev pub turns_right : ℕ → ℕ → Bool
turns_right index d = index / 2 ^ d % 2 == 1

-- The node that the walk reaches.
abbrev pub reached : ℕ → ℕ → MerkleTree → MerkleTree
reached index zero t = t
reached index (suc d) t = reached index d (next t (turns_right index d))

module _ (H : Hashing) where
  -- The siblings of its path, from the bottom up.
  abbrev pub siblings : ℕ → ℕ → MerkleTree → List B256
  siblings index zero t = []
  siblings index (suc d) t =
      siblings index d (next t (turns_right index d))
      ++ root_of H (next t (not (turns_right index d))) ∷ []

  pub length-siblings : (index d : ℕ) (t : MerkleTree) → length (siblings index d t) ≡ d
  length-siblings index zero t = refl
  length-siblings index (suc d) t =
      length-append (siblings index d (next t (turns_right index d))) _
      ∙ omega (arith, length-siblings index d (next t (turns_right index d)))

module _ (H : Hashing) (lawful : IsLawful H) where
  reached-IsTree : (index d : ℕ) (t : MerkleTree) → IsTree H d t → IsTree H 0 (reached index d t)
  reached-IsTree index zero t w = w
  reached-IsTree index (suc d) t w =
      reached-IsTree index d _ (next-IsTree H lawful d t (turns_right index d) w)

  -- The two sides of a turn.
  turn :
      (n : ℕ) (d : ℕ) (t : MerkleTree)
      → IsTree H (suc d) t
      → parent H n (root_of H (next t (n % 2 == 1))) (root_of H (next t (not (n % 2 == 1))))
        ≡ root_of H t
  turn n d t w = elim (Bool-cases (n % 2 == 1)) [
    | inl e ↦ rw (e, root_of-next H lawful d t w) refl
    | inr e ↦ rw (e, root_of-next H lawful d t w) refl
  ]

  -- The siblings lead from the node that is reached back to the root.
  pub climb-siblings :
      (index d : ℕ) (t : MerkleTree)
      → IsTree H d t
      → climb H index (root_of H (reached index d t)) (siblings H index d t) ≡ root_of H t
  climb-siblings index zero t w = refl
  climb-siblings index (suc d) t w =
      climb-append H index (root_of H (reached index (suc d) t))
        (siblings H index d (next t (turns_right index d))) _
      ∙ rw
          (
            length-siblings H index d (next t (turns_right index d)),
            climb-siblings index d (next t (turns_right index d))
                (next-IsTree H lawful d t (turns_right index d) w),
          )
          (turn (index / 2 ^ d) d t w)

  -- What the loop returns from depth `d` on.
  abbrev Descends : ℕ → ℕ → Type 0
  Descends index d =
      (t : MerkleTree) (proof : List B256)
      → IsTree H d t
      → generate_proof_loop H t index d proof
        ≡ ok (reached index d t, proof ++ reverse (siblings H index d t))

  round :
      (index d : ℕ) (t : MerkleTree) (proof : List B256) (b : Bool)
      → IsTree H (suc d) t
      → Descends index d
      → (hash H (next t (not b)) >>= λ sibling.
          generate_proof_loop H (next t b) index d (proof ++ sibling ∷ []))
        ≡ ok (
          reached index d (next t b),
          proof ++ reverse (siblings H index d (next t b) ++ root_of H (next t (not b)) ∷ []),
        )
  round index d t proof b w ih =
      rw
        (
          hash_lem H lawful d (next t (not b)) (next-IsTree H lawful d t (not b) w),
          ih (next t b) (proof ++ root_of H (next t (not b)) ∷ []) (next-IsTree H lawful d t b w),
          reverse-append,
          append_assoc,
        )
        refl

  loop_lem : (index d : ℕ) → d ≤ 64 → Descends index d
  unfolding generate_proof_loop
  loop_lem index zero h t proof w = rw append-nil refl
  loop_lem index (suc d) h t proof w =
      let (unfinal, found) = branches_lem H lawful {E = MerkleTreeError} d t w in
      rw (unfinal, found, ith_bit_lem index d h)
        (elim (Bool-cases (turns_right index d)) [
          | inl e ↦ rw e (round index d t proof true w (loop_lem index d (omega arith)))
          | inr e ↦ rw e (round index d t proof false w (loop_lem index d (omega arith)))
        ])

  -- On a complete tree of at most 64 levels the proof is the list of siblings of the path.
  pub generate_proof_lem :
      (index d : ℕ) (t : MerkleTree)
      → d ≤ 64
      → IsTree H d t
      → generate_proof H t index d ≡ ok (root_of H (reached index d t), siblings H index d t)
  unfolding generate_proof
  generate_proof_lem index d t h w =
      rw
        (
          loop_lem index d h t [] w,
          hash_lem H lawful 0 (reached index d t) (reached-IsTree index d t w),
          reverse-reverse,
        )
        refl

  -- `generate_proof` returns on a complete tree of at most 64 levels, whatever the index, and `verify_merkle_proof` accepts
  -- the leaf and the branch that it returns at that index, against the hash of the tree.
  pub verify-generate_proof :
      {E : Type 0} (index d : ℕ) (t : MerkleTree)
      → d ≤ 64
      → IsTree H d t
      → (leaf : B256) × (branch : List B256) × (generate_proof H t index d ≡ ok (leaf, branch))
        × (hash H {E = E} t ≡ ok (root_of H t))
        × (verify_merkle_proof H {E = E} leaf branch d index (root_of H t) ≡ ok true)
  verify-generate_proof {E} index d t h w = (
    root_of H (reached index d t),
    siblings H index d t,
    generate_proof_lem index d t h w,
    hash_lem H lawful {E = E} d t w,
    (verify_merkle_proof_iff H lawful {E = E} _ _ d index (root_of H t) h).1
        (length-siblings H index d t, climb-siblings index d t w),
  )
