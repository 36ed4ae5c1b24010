-- ===== src/Merkle/Shape.antt =====
-- Which values of `MerkleTree` (src/merkle/proof.rs) are complete trees of a given depth, and the walk
-- of `generate_proof` down such a tree, as plain functions.
use eth_historian.Base.{
  ℕ, suc, ◌≤◌, ◌≡◌, refl, Bool, true, false, if◌then◌else◌, [], Option, none, some, ok, le→leb,
  get_elem?, get_elem?-some, arith, B256,
}
use eth_historian.Merkle.Hashing.{Hashing, IsLawful}
use eth_historian.Merkle.Tree.{
  MerkleTree, finalized, leaf, node, zero, hash, left_and_right_branches, is_finalized,
}

-- The child on the path; a tree without branches is its own.
abbrev pub next : MerkleTree → Bool → MerkleTree
next (node h l r) right = if right then r else l
next (zero (suc d)) right = zero d
next t right = t

abbrev or_empty : Option B256 → B256
or_empty none = []
or_empty (some z) = z

some-or_empty : (o : Option B256) {z : B256} → o ≡ some z → o ≡ some (or_empty o)
some-or_empty none h = cc
some-or_empty (some y) h = refl

module _ (H : Hashing) where
  abbrev pub zero_hash : ℕ → B256
  zero_hash d = or_empty (get_elem? H.zero_hashes d)

  -- What `hash` returns, where it does.
  abbrev pub root_of : MerkleTree → B256
  root_of (finalized h) = h
  root_of (leaf h) = h
  root_of (node h l r) = h
  root_of (zero d) = zero_hash d

  -- A complete tree: leaves at depth 0, nodes with the hash of their branches above, and zero
  -- subtrees that `ZERO_NODES` reaches.
  abbrev pub IsTree : ℕ → MerkleTree → Type 0
  IsTree d (zero k) = (k ≡ d) × (d ≤ 33)
  IsTree ℕ.zero (leaf h) = Unit
  IsTree (suc d) (node h l r) =
      (h ≡ H.hash32_concat (root_of l) (root_of r)) × IsTree d l × IsTree d r
  IsTree _ _ = ⊥

module _ (H : Hashing) (lawful : IsLawful H) where
  zero_hash-some : (d : ℕ) → d ≤ 48 → get_elem? H.zero_hashes d ≡ some (zero_hash H d)
  zero_hash-some d h =
      some-or_empty (get_elem? H.zero_hashes d)
        (get_elem?-some H.zero_hashes d (omega (arith, lawful.length_zero_hashes))).1

  pub zero_hash-suc :
      (d : ℕ) → d ≤ 47 → zero_hash H (suc d) ≡ H.hash32_concat (zero_hash H d) (zero_hash H d)
  zero_hash-suc d h =
      lawful.zero_hashes_step d _ _ (zero_hash-some d (omega arith))
        (zero_hash-some (suc d) (omega arith))

  pub hash_lem :
      {E : Type 0} (d : ℕ) (t : MerkleTree) → IsTree H d t → hash H {E = E} t ≡ ok (root_of H t)
  unfolding hash
  hash_lem d (zero k) (e, h) = rw (zero_hash-some k (omega arith)) refl
  hash_lem d (leaf h) w = refl
  hash_lem d (node h l r) w = refl
  hash_lem d (finalized h) w = refl

  pub next-IsTree : (d : ℕ) (t : MerkleTree) (b : Bool) → IsTree H (suc d) t → IsTree H d (next t b)
  next-IsTree d (node h l r) true w = w.2
  next-IsTree d (node h l r) false w = w.1
  next-IsTree d (zero ℕ.zero) b (e, h) = absurd (omega arith)
  next-IsTree ℕ.zero (zero (suc k)) b w = omega arith
  next-IsTree (suc d) (zero (suc k)) b w = omega arith
  next-IsTree d (leaf h) b w = absurd w
  next-IsTree d (finalized h) b w = absurd w

  -- The hash of a tree is the hash of its branches.
  pub root_of-next :
      (d : ℕ) (t : MerkleTree)
      → IsTree H (suc d) t
      → root_of H t ≡ H.hash32_concat (root_of H (next t false)) (root_of H (next t true))
  root_of-next d (node h l r) w = w.0
  root_of-next d (zero ℕ.zero) (e, h) = absurd (omega arith)
  root_of-next d (zero (suc k)) (e, h) = zero_hash-suc k (omega arith)
  root_of-next d (leaf h) w = absurd w
  root_of-next d (finalized h) w = absurd w

  -- One round of the loop finds the branches.
  pub branches_lem :
      {E : Type 0} (d : ℕ) (t : MerkleTree)
      → IsTree H (suc d) t
      → (is_finalized t ≡ false)
        × (left_and_right_branches {E = E} t ≡ ok (some (next t false, next t true)))
  unfolding is_finalized left_and_right_branches
  branches_lem d (node h l r) w = (refl, refl)
  branches_lem d (zero ℕ.zero) (e, h) = absurd (omega arith)
  branches_lem d (zero (suc k)) (e, h) = (refl, rw (le→leb k 32 (omega arith)) refl)
  branches_lem d (leaf h) w = absurd w
  branches_lem d (finalized h) w = absurd w
