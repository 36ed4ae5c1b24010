-- ===== src/Beacon/Payload.antt =====
-- src/portal_types/consensus/execution_payload.rs: the execution payload of each fork, and the proof of
-- its block hash. The crate `tree_hash` is the parameter `TreeHash`.
use eth_historian.Base.{ℕ, ◌≡◌, List, [], ◌∷◌, Bytes, B256}
use eth_historian.Beacon.{RootsHashing, build_merkle_proof_for_index}

pub record Withdrawal : Type 0 where
  pub index : ℕ
  pub validator_index : ℕ
  pub address : Bytes
  pub amount : ℕ

pub record ExecutionPayloadBellatrix : Type 0 where
  pub parent_hash : B256
  pub fee_recipient : Bytes
  pub state_root : B256
  pub receipts_root : B256
  pub logs_bloom : Bytes
  pub prev_randao : B256
  pub block_number : ℕ
  pub gas_limit : ℕ
  pub gas_used : ℕ
  pub timestamp : ℕ
  pub extra_data : Bytes
  pub base_fee_per_gas : ℕ
  pub block_hash : B256
  pub transactions : List Bytes

pub record ExecutionPayloadCapella : Type 0 where
  pub parent_hash : B256
  pub fee_recipient : Bytes
  pub state_root : B256
  pub receipts_root : B256
  pub logs_bloom : Bytes
  pub prev_randao : B256
  pub block_number : ℕ
  pub gas_limit : ℕ
  pub gas_used : ℕ
  pub timestamp : ℕ
  pub extra_data : Bytes
  pub base_fee_per_gas : ℕ
  pub block_hash : B256
  pub transactions : List Bytes
  pub withdrawals : List Withdrawal

pub record ExecutionPayloadDeneb : Type 0 where
  pub parent_hash : B256
  pub fee_recipient : Bytes
  pub state_root : B256
  pub receipts_root : B256
  pub logs_bloom : Bytes
  pub prev_randao : B256
  pub block_number : ℕ
  pub gas_limit : ℕ
  pub gas_used : ℕ
  pub timestamp : ℕ
  pub extra_data : Bytes
  pub base_fee_per_gas : ℕ
  pub block_hash : B256
  pub transactions : List Bytes
  pub withdrawals : List Withdrawal
  pub blob_gas_used : ℕ
  pub excess_blob_gas : ℕ

-- The struct of Electra has the fields of Deneb's.
abbrev pub ExecutionPayloadElectra : Type 0
ExecutionPayloadElectra = ExecutionPayloadDeneb

-- `tree_hash_root` of the fields' types.
pub record TreeHash : Type 0 where
  pub u64_root : ℕ → B256
  pub u256_root : ℕ → B256
  pub b256_root : B256 → B256
  pub address_root : Bytes → B256
  pub bloom_root : Bytes → B256
  pub extra_data_root : Bytes → B256
  pub transactions_root : List Bytes → B256
  pub withdrawals_root : List Withdrawal → B256

-- The root of 32 bytes is the bytes themselves.
pub record IsChunked (T : TreeHash) : Type 0 where
  pub b256_root_lem : (b : B256) → T.b256_root b ≡ b

module _ (T : TreeHash) where
  -- The leaves of the three layouts.
  unfoldable pub bellatrix_leaves : ExecutionPayloadBellatrix → List B256
  bellatrix_leaves p =
      T.b256_root p.parent_hash
      ∷ T.address_root p.fee_recipient
      ∷ T.b256_root p.state_root
      ∷ T.b256_root p.receipts_root
      ∷ T.bloom_root p.logs_bloom
      ∷ T.b256_root p.prev_randao
      ∷ T.u64_root p.block_number
      ∷ T.u64_root p.gas_limit
      ∷ T.u64_root p.gas_used
      ∷ T.u64_root p.timestamp
      ∷ T.extra_data_root p.extra_data
      ∷ T.u256_root p.base_fee_per_gas
      ∷ T.b256_root p.block_hash
      ∷ T.transactions_root p.transactions
      ∷ []

  unfoldable pub capella_leaves : ExecutionPayloadCapella → List B256
  capella_leaves p =
      T.b256_root p.parent_hash
      ∷ T.address_root p.fee_recipient
      ∷ T.b256_root p.state_root
      ∷ T.b256_root p.receipts_root
      ∷ T.bloom_root p.logs_bloom
      ∷ T.b256_root p.prev_randao
      ∷ T.u64_root p.block_number
      ∷ T.u64_root p.gas_limit
      ∷ T.u64_root p.gas_used
      ∷ T.u64_root p.timestamp
      ∷ T.extra_data_root p.extra_data
      ∷ T.u256_root p.base_fee_per_gas
      ∷ T.b256_root p.block_hash
      ∷ T.transactions_root p.transactions
      ∷ T.withdrawals_root p.withdrawals
      ∷ []

  unfoldable pub deneb_leaves : ExecutionPayloadDeneb → List B256
  deneb_leaves p =
      T.b256_root p.parent_hash
      ∷ T.address_root p.fee_recipient
      ∷ T.b256_root p.state_root
      ∷ T.b256_root p.receipts_root
      ∷ T.bloom_root p.logs_bloom
      ∷ T.b256_root p.prev_randao
      ∷ T.u64_root p.block_number
      ∷ T.u64_root p.gas_limit
      ∷ T.u64_root p.gas_used
      ∷ T.u64_root p.timestamp
      ∷ T.extra_data_root p.extra_data
      ∷ T.u256_root p.base_fee_per_gas
      ∷ T.b256_root p.block_hash
      ∷ T.transactions_root p.transactions
      ∷ T.withdrawals_root p.withdrawals
      ∷ T.u64_root p.blob_gas_used
      ∷ T.u64_root p.excess_blob_gas
      ∷ []

module _ (T : TreeHash) (R : RootsHashing) where
  -- `build_block_hash_proof` of each of the four structs.
  unfoldable pub bellatrix_block_hash_proof : ExecutionPayloadBellatrix → List B256
  unfolding bellatrix_leaves
  bellatrix_block_hash_proof p = build_merkle_proof_for_index R (bellatrix_leaves T p) 12

  unfoldable pub capella_block_hash_proof : ExecutionPayloadCapella → List B256
  unfolding capella_leaves
  capella_block_hash_proof p = build_merkle_proof_for_index R (capella_leaves T p) 12

  unfoldable pub deneb_block_hash_proof : ExecutionPayloadDeneb → List B256
  unfolding deneb_leaves
  deneb_block_hash_proof p = build_merkle_proof_for_index R (deneb_leaves T p) 12

  unfoldable pub electra_block_hash_proof : ExecutionPayloadElectra → List B256
  unfolding deneb_leaves
  electra_block_hash_proof p = build_merkle_proof_for_index R (deneb_leaves T p) 12
