-- ===== src/Beacon/BlockHash.antt =====
-- The proofs of src/portal_types/consensus/execution_payload.rs lead from the block hash to the root of
-- the payload's fields.
use eth_historian.Base.{ℕ, ◌^◌, ◌≡◌, refl, ◌∙◌, List, get_or, arith, subst, B256}
use eth_historian.Merkle.Hashing.{Hashing}
use eth_historian.Beacon.{RootsHashing, IsSound, zero_chunk, next_power_of_two}
use eth_historian.Beacon.Index.{Leads, build_merkle_proof_for_index_lem}
use eth_historian.Beacon.Payload.{
  TreeHash, IsChunked, ExecutionPayloadBellatrix, ExecutionPayloadCapella, ExecutionPayloadDeneb,
  ExecutionPayloadElectra, bellatrix_leaves, capella_leaves, deneb_leaves,
  bellatrix_block_hash_proof, capella_block_hash_proof, deneb_block_hash_proof,
  electra_block_hash_proof,
}

powers :
    (next_power_of_two 14 ≡ 2 ^ 4) × (next_power_of_two 15 ≡ 2 ^ 4) × (next_power_of_two 17 ≡ 2 ^ 5)
unfolding next_power_of_two
powers = (refl, refl, refl)

module _ (H : Hashing) (R : RootsHashing) (sound : IsSound H R) (T : TreeHash)
    (chunked : IsChunked T) where
  -- The thirteenth field, as it stands in the leaves.
  from_field :
      (d : ℕ) (leaves : List B256) (hash : B256) (branch : List B256)
      → get_or leaves 12 zero_chunk ≡ T.b256_root hash
      → Leads H R d 12 leaves (get_or leaves 12 zero_chunk) branch
      → Leads H R d 12 leaves hash branch
  from_field d leaves hash branch e leads =
      subst (λ leaf. Leads H R d 12 leaves leaf branch) (e ∙ chunked.b256_root_lem hash) leads

  pub bellatrix_lem :
      (p : ExecutionPayloadBellatrix)
      → Leads H R 4 12 (bellatrix_leaves T p) p.block_hash (bellatrix_block_hash_proof T R p)
  unfolding bellatrix_block_hash_proof
  bellatrix_lem p =
      from_field 4 (bellatrix_leaves T p) p.block_hash (bellatrix_block_hash_proof T R p) refl (
        build_merkle_proof_for_index_lem H R sound (bellatrix_leaves T p) 12 4 powers.0
          (omega arith) (omega arith) (omega arith))

  pub capella_lem :
      (p : ExecutionPayloadCapella)
      → Leads H R 4 12 (capella_leaves T p) p.block_hash (capella_block_hash_proof T R p)
  unfolding capella_block_hash_proof
  capella_lem p =
      from_field 4 (capella_leaves T p) p.block_hash (capella_block_hash_proof T R p) refl (
        build_merkle_proof_for_index_lem H R sound (capella_leaves T p) 12 4 powers.1 (omega arith)
          (omega arith) (omega arith))

  pub deneb_lem :
      (p : ExecutionPayloadDeneb)
      → Leads H R 5 12 (deneb_leaves T p) p.block_hash (deneb_block_hash_proof T R p)
  unfolding deneb_block_hash_proof
  deneb_lem p = from_field 5 (deneb_leaves T p) p.block_hash (deneb_block_hash_proof T R p) refl (
      build_merkle_proof_for_index_lem H R sound (deneb_leaves T p) 12 5 powers.2 (omega arith)
        (omega arith) (omega arith))

  pub electra_lem :
      (p : ExecutionPayloadElectra)
      → Leads H R 5 12 (deneb_leaves T p) p.block_hash (electra_block_hash_proof T R p)
  unfolding electra_block_hash_proof deneb_block_hash_proof
  electra_lem p = deneb_lem p
