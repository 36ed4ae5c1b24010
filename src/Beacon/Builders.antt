-- ===== src/Beacon/Builders.antt =====
-- The proofs that src/portal_types/execution/header_with_proof.rs builds from a beacon block and the roots
-- of its period.
use eth_historian.Base.{ℕ, ◌%◌, List, if◌then◌else◌, ◌==◌, Outcome, ok, panic, ◌>>=◌, length, B256}
use eth_historian.Types.Network.{slots_per_historical_root}
use eth_historian.Types.Header.{
  BlockProofHistoricalRoots, BlockProofHistoricalSummariesCapella,
  BlockProofHistoricalSummariesDeneb,
}
use eth_historian.Beacon.{
  RootsHashing, HistoricalBatch, build_block_root_proof, build_merkle_proof_for_index,
}
use eth_historian.Beacon.Payload.{TreeHash}
use eth_historian.Beacon.Body.{OperationHash, PayloadHash}
use eth_historian.Beacon.Block.{
  BeaconBlockBellatrix, BeaconBlockCapella, BeaconBlockDeneb, BeaconBlockElectra, BodyHash,
  bellatrix_execution_block_hash_proof, capella_execution_block_hash_proof,
  deneb_execution_block_hash_proof, electra_execution_block_hash_proof,
}
use eth_historian.Beacon.InBlock.{BlockHash}

-- `FixedVector::<B256, N>::new(list).expect(..)`, which refuses a list of another length.
abbrev pub fixed_vector : {E : Type 0} → ℕ → List B256 → Outcome E (List B256)
fixed_vector n list = if length list == n then ok list else panic

module _ (R : RootsHashing) (T : TreeHash) (O : OperationHash) (P : PayloadHash) (B : BodyHash)
    (K : BlockHash) where
  unfoldable pub build_historical_roots_proof :
      {E : Type 0}
      → ℕ
      → HistoricalBatch
      → BeaconBlockBellatrix
      → Outcome E BlockProofHistoricalRoots
  unfolding build_block_root_proof bellatrix_execution_block_hash_proof
  build_historical_roots_proof slot historical_batch beacon_block = do
    block_root_proof ← build_block_root_proof R historical_batch (slot % slots_per_historical_root)
    beacon_block_proof ← fixed_vector 14 block_root_proof
    execution_block_proof ←
        fixed_vector 11 (bellatrix_execution_block_hash_proof T O P B R beacon_block)
    ok (record {
      beacon_block_proof = beacon_block_proof;
      beacon_block_root = K.bellatrix_block_root beacon_block;
      execution_block_proof = execution_block_proof;
      slot = slot;
    })

  unfoldable pub build_capella_historical_summaries_proof :
      {E : Type 0}
      → ℕ
      → List B256
      → BeaconBlockCapella
      → Outcome E BlockProofHistoricalSummariesCapella
  unfolding build_merkle_proof_for_index capella_execution_block_hash_proof
  build_capella_historical_summaries_proof slot block_roots beacon_block = do
    beacon_block_proof ←
        fixed_vector 13
          (build_merkle_proof_for_index R block_roots (slot % slots_per_historical_root))
    execution_block_proof ←
        fixed_vector 11 (capella_execution_block_hash_proof T O P B R beacon_block)
    ok (record {
      beacon_block_proof = beacon_block_proof;
      beacon_block_root = K.capella_block_root beacon_block;
      execution_block_proof = execution_block_proof;
      slot = slot;
    })

  unfoldable pub build_deneb_historical_summaries_proof :
      {E : Type 0} → ℕ → List B256 → BeaconBlockDeneb → Outcome E BlockProofHistoricalSummariesDeneb
  unfolding build_merkle_proof_for_index deneb_execution_block_hash_proof
  build_deneb_historical_summaries_proof slot block_roots beacon_block = do
    beacon_block_proof ←
        fixed_vector 13
          (build_merkle_proof_for_index R block_roots (slot % slots_per_historical_root))
    execution_block_proof ←
        fixed_vector 12 (deneb_execution_block_hash_proof T O P B R beacon_block)
    ok (record {
      beacon_block_proof = beacon_block_proof;
      beacon_block_root = K.deneb_block_root beacon_block;
      execution_block_proof = execution_block_proof;
      slot = slot;
    })

  unfoldable pub build_electra_historical_summaries_proof :
      {E : Type 0}
      → ℕ
      → List B256
      → BeaconBlockElectra
      → Outcome E BlockProofHistoricalSummariesDeneb
  unfolding build_merkle_proof_for_index electra_execution_block_hash_proof
  build_electra_historical_summaries_proof slot block_roots beacon_block = do
    beacon_block_proof ←
        fixed_vector 13
          (build_merkle_proof_for_index R block_roots (slot % slots_per_historical_root))
    execution_block_proof ←
        fixed_vector 12 (electra_execution_block_hash_proof T O P B R beacon_block)
    ok (record {
      beacon_block_proof = beacon_block_proof;
      beacon_block_root = K.electra_block_root beacon_block;
      execution_block_proof = execution_block_proof;
      slot = slot;
    })
