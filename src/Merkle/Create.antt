-- ===== src/Merkle/Create.antt =====
-- `MerkleTree::create` (src/merkle/proof.rs): it builds the complete tree over its leaves, padded with
-- zero leaves.
use eth_historian.Base.{
  ℕ, zero, suc, ◌+◌, ◌/◌, ◌%◌, ◌^◌, ◌≤◌, ◌<◌, ◌≡◌, refl, ap, ap₂, sym, ◌∙◌, false, Bool-cases, inl,
  inr, ◌==◌, ==_iff, leb, leb→le, List, [], ◌∷◌, ok, length, length-take, length-drop, take, drop,
  take_all, drop_all, get_or, get_or-take, get_or-drop, mod-pow-suc, mod_two, pow_pos, pow-suc_two,
  pow-fits, arith, B256,
}
use native.Mathlib.Nat.{mod-lt, mod-one}
use eth_historian.Merkle.Hashing.{Hashing, IsLawful}
use eth_historian.Merkle.Tree.{
  MerkleTree, leaf, node, zero as zero_tree, create, split_leaves, subtree_capacity,
}
use eth_historian.Merkle.Shape.{zero_hash, root_of, IsTree, hash_lem, zero_hash-suc}
use eth_historian.Merkle.Walk.{reached, turns_right}

split_lem :
    (leaves : List B256) (d : ℕ)
    → d < 64
    → split_leaves leaves (subtree_capacity d) ≡ (take (2 ^ d) leaves, drop (2 ^ d) leaves)
unfolding split_leaves
split_lem leaves d h = rw (pow-fits d h) (elim (Bool-cases (leb (length leaves) (2 ^ d))) [
  | inl small ↦
      rw
        (
          small,
          take_all (2 ^ d) leaves (leb→le _ _ small),
          drop_all (2 ^ d) leaves (leb→le _ _ small),
        )
        refl
  | inr large ↦ rw large refl
])

zero_bit : (n : ℕ) → (n % 2 == 1) ≡ false → n % 2 ≡ 0
zero_bit n e = ground (arith, mod_two n)

module _ (H : Hashing) where
  -- A leaf of the padded row.
  abbrev pub padded : List B256 → ℕ → B256
  padded leaves i = get_or leaves i (zero_hash H 0)

  -- The root of the complete binary tree of depth `d` over the first `2 ^ d` values of `f`.
  unfoldable pub complete_root : ℕ → (ℕ → B256) → B256
  complete_root zero f = f 0
  complete_root (suc d) f =
      H.hash32_concat (complete_root d f) (complete_root d (λ i. f (2 ^ d + i)))

  -- What `create` returns, where it does.
  abbrev pub built : List B256 → ℕ → MerkleTree
  built [] d = zero_tree d
  built (x ∷ xs) zero = leaf x
  built (x ∷ xs) (suc d) =
      let l = built (take (2 ^ d) (x ∷ xs)) d in
      let r = built (drop (2 ^ d) (x ∷ xs)) d in
      node (H.hash32_concat (root_of H l) (root_of H r)) l r

  pub complete_root-cong :
      (d : ℕ) (f g : ℕ → B256)
      → ((i : ℕ) → i < 2 ^ d → f i ≡ g i)
      → complete_root d f ≡ complete_root d g
  unfolding complete_root
  complete_root-cong zero f g h = h 0 (omega arith)
  complete_root-cong (suc d) f g h =
      ap₂ H.hash32_concat (complete_root-cong d f g (λ i p. h i (omega (arith, pow-suc_two d))))
        (complete_root-cong d _ _ (λ i p. h (2 ^ d + i) (omega (arith, pow-suc_two d))))

module _ (H : Hashing) (lawful : IsLawful H) where
  pub built-IsTree :
      (leaves : List B256) (d : ℕ) → d ≤ 33 → length leaves ≤ 2 ^ d → IsTree H d (built H leaves d)
  built-IsTree [] d h l = (refl, h)
  built-IsTree (x ∷ xs) zero h l = tt
  built-IsTree (x ∷ xs) (suc d) h l = (
    refl,
    built-IsTree (take (2 ^ d) (x ∷ xs)) d (omega arith)
        (omega (arith, length-take (2 ^ d) (x ∷ xs))),
    built-IsTree (drop (2 ^ d) (x ∷ xs)) d (omega arith)
        (omega (arith, length-drop (2 ^ d) (x ∷ xs), pow-suc_two d)),
  )

  half_bounds :
      (leaves : List B256) (d : ℕ)
      → length leaves ≤ 2 ^ suc d
      → (length (take (2 ^ d) leaves) ≤ 2 ^ d) × (length (drop (2 ^ d) leaves) ≤ 2 ^ d)
  half_bounds leaves d l = (
    omega (arith, length-take (2 ^ d) leaves),
    omega (arith, length-drop (2 ^ d) leaves, pow-suc_two d),
  )

  -- `create` neither fails nor panics.
  pub create_lem :
      {E : Type 0} (leaves : List B256) (d : ℕ)
      → d ≤ 33
      → length leaves ≤ 2 ^ d
      → create H {E = E} leaves d ≡ ok (built H leaves d)
  unfolding create
  create_lem [] d h l = refl
  create_lem (x ∷ xs) zero h l = refl
  create_lem {E} (x ∷ xs) (suc d) h l =
      let (bl, br) = half_bounds (x ∷ xs) d l in
      let low : d ≤ 33 = omega arith in
      rw
        (
          split_lem (x ∷ xs) d (omega arith),
          create_lem {E = E} (take (2 ^ d) (x ∷ xs)) d low bl,
          create_lem {E = E} (drop (2 ^ d) (x ∷ xs)) d low br,
          hash_lem H lawful d (built H (take (2 ^ d) (x ∷ xs)) d) (built-IsTree _ d low bl),
          hash_lem H lawful d (built H (drop (2 ^ d) (x ∷ xs)) d) (built-IsTree _ d low br),
        )
        refl

  root-empty : (d : ℕ) → d ≤ 48 → complete_root H d (λ i. zero_hash H 0) ≡ zero_hash H d
  unfolding complete_root
  root-empty zero h = refl
  root-empty (suc d) h =
      ap₂ H.hash32_concat (root-empty d (omega arith)) (root-empty d (omega arith))
      ∙ sym (zero_hash-suc H lawful d (omega arith))

  -- The hash of the tree is the root of the complete tree over the padded leaves.
  pub root_of-built :
      (leaves : List B256) (d : ℕ)
      → d ≤ 33
      → length leaves ≤ 2 ^ d
      → root_of H (built H leaves d) ≡ complete_root H d (padded H leaves)
  unfolding complete_root
  root_of-built [] d h l = sym (root-empty d (omega arith))
  root_of-built (x ∷ xs) zero h l = refl
  root_of-built (x ∷ xs) (suc d) h l =
      let (bl, br) = half_bounds (x ∷ xs) d l in
      ap₂ H.hash32_concat
        (root_of-built (take (2 ^ d) (x ∷ xs)) d (omega arith) bl
          ∙ complete_root-cong H d _ _ (λ i p. get_or-take (2 ^ d) i (x ∷ xs) (zero_hash H 0) p))
        (root_of-built (drop (2 ^ d) (x ∷ xs)) d (omega arith) br
          ∙ complete_root-cong H d _ _ (λ i p. get_or-drop (2 ^ d) i (x ∷ xs) (zero_hash H 0)))

  reached-zero : (index d : ℕ) → root_of H (reached index d (zero_tree d)) ≡ zero_hash H 0
  reached-zero index zero = refl
  reached-zero index (suc d) = reached-zero index d

  -- The leaf that the walk reaches is the one at the low `d` bits of the index.
  pub reached-built :
      (index : ℕ) (leaves : List B256) (d : ℕ)
      → d ≤ 33
      → length leaves ≤ 2 ^ d
      → root_of H (reached index d (built H leaves d)) ≡ padded H leaves (index % 2 ^ d)
  reached-built index [] d h l = reached-zero index d
  reached-built index (x ∷ []) zero h l = rw (mod-one index) refl
  reached-built index (x ∷ y ∷ xs) zero h l = absurd (omega arith)
  reached-built index (x ∷ xs) (suc d) h l =
      let (bl, br) = half_bounds (x ∷ xs) d l in
      rw (mod-pow-suc index d) (elim (Bool-cases (turns_right index d)) [
        | inl e ↦
            rw (e, (==_iff _ _).0 e)
              (reached-built index (drop (2 ^ d) (x ∷ xs)) d (omega arith) br
                ∙ get_or-drop (2 ^ d) (index % 2 ^ d) (x ∷ xs) (zero_hash H 0)
                ∙ ap (padded H (x ∷ xs)) (omega arith))
        | inr e ↦
            rw (e, zero_bit (index / 2 ^ d) e)
              (reached-built index (take (2 ^ d) (x ∷ xs)) d (omega arith) bl
                ∙ get_or-take (2 ^ d) (index % 2 ^ d) (x ∷ xs) (zero_hash H 0)
                    (mod-lt index (pow_pos d))
                ∙ ap (padded H (x ∷ xs)) (omega arith))
      ])
