-- ===== src/Beacon.antt =====
-- src/portal_types/consensus/proof.rs and `HistoricalBatch` of
-- src/portal_types/consensus/beacon_state.rs: the proofs of a beacon block root in the roots of its
-- period. The crate `rs_merkle` and the hash tree root of the root vectors are parameters.
pub mod Accepted
pub mod Index
pub mod Payload
pub mod BlockHash
pub mod Operations
pub mod Body
pub mod Block
pub mod Fields
pub mod InBlock
pub mod Signed
pub mod Builders
pub mod PostMerge
pub mod Rpc
pub mod Provider
use eth_historian.Base.{
  ℕ, zero, suc, ◌-◌, ◌*◌, ◌≤◌, ◌<◌, ◌^◌, ◌≡◌, List, [], ◌∷◌, ◌++◌, leb, if◌then◌else◌, ◌==◌,
  Outcome, ok, ◌>>=◌, ◌>>◌, length, take, replicate, get_or, B256,
}
use eth_historian.Merkle.Hashing.{Hashing}
use eth_historian.Merkle.Climb.{climb}
use eth_historian.Merkle.Create.{complete_root}
use eth_historian.Fingerprints.{assert}

-- 32 zero bytes.
abbrev pub zero_chunk : B256
zero_chunk = replicate 32 0

-- `rs_merkle::MerkleTree::<Sha256>::from_leaves(leaves).proof(&[index]).proof_hashes()`, and
-- `tree_hash_root` of a vector of roots.
pub record RootsHashing : Type 0 where
  pub proof_hashes : List B256 → ℕ → List B256
  pub tree_hash_root : List B256 → B256

-- What `rs_merkle` documents for a tree whose leaves are a power of two, and `tree_hash` for a vector of
-- 8192 roots: the proof hashes are the siblings of the path from the bottom up, and the root is that of
-- the complete tree.
pub record IsSound (H : Hashing) (R : RootsHashing) : Type 0 where
  pub length-proof_hashes :
      (leaves : List B256) (index d : ℕ)
      → d ≤ 32
      → length leaves ≡ 2 ^ d
      → index < 2 ^ d
      → length (R.proof_hashes leaves index) ≡ d
  pub climb-proof_hashes :
      (leaves : List B256) (index d : ℕ)
      → d ≤ 32
      → length leaves ≡ 2 ^ d
      → index < 2 ^ d
      → climb H index (get_or leaves index zero_chunk) (R.proof_hashes leaves index)
        ≡ complete_root H d (λ i. get_or leaves i zero_chunk)
  pub tree_hash_root_lem :
      (roots : List B256)
      → length roots ≡ 8192
      → R.tree_hash_root roots ≡ complete_root H 13 (λ i. get_or roots i zero_chunk)

-- `usize::next_power_of_two`, by doubling from `p`; a `usize` takes at most 63 steps.
unfoldable pub doubling : ℕ → ℕ → ℕ → ℕ
doubling zero p n = p
doubling (suc steps) p n = let rest = doubling steps (p * 2) n in if leb n p then p else rest

unfoldable pub next_power_of_two : ℕ → ℕ
unfolding doubling
next_power_of_two n = doubling 63 1 n

module _ (R : RootsHashing) where
  unfoldable pub build_merkle_proof_for_index : List B256 → ℕ → List B256
  unfolding next_power_of_two
  build_merkle_proof_for_index leaves index_to_prove =
      let full_tree_len = next_power_of_two (length leaves) in
      R.proof_hashes
        (take full_tree_len (leaves ++ replicate (full_tree_len - length leaves) zero_chunk))
        index_to_prove

pub record HistoricalBatch : Type 0 where
  pub block_roots : List B256
  pub state_roots : List B256

module _ (R : RootsHashing) where
  unfoldable pub build_block_root_proof : {E : Type 0} → HistoricalBatch → ℕ → Outcome E (List B256)
  unfolding build_merkle_proof_for_index
  build_block_root_proof batch block_root_index = do
    let proof_hashes =
        build_merkle_proof_for_index R batch.block_roots block_root_index
        ++ R.tree_hash_root batch.state_roots ∷ []
    assert (length proof_hashes == 14)
    ok proof_hashes
