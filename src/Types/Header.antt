-- ===== src/Types/Header.antt =====
-- src/portal_types/execution/header_with_proof.rs: a header with the proof of its era. A
-- `FixedVector<B256, N>` is a list, and its length stands in `IsSized`.
use eth_historian.Base.{ℕ, ◌≡◌, List, Option, Bytes, B256, length}

-- `alloy::consensus::Header`, with the fields that the repository's code reads or writes.
pub record Header : Type 0 where
  pub parent_hash : B256
  pub ommers_hash : B256
  pub beneficiary : Bytes
  pub state_root : B256
  pub transactions_root : B256
  pub receipts_root : B256
  pub logs_bloom : Bytes
  pub difficulty : ℕ
  pub number : ℕ
  pub gas_limit : ℕ
  pub gas_used : ℕ
  pub timestamp : ℕ
  pub extra_data : Bytes
  pub mix_hash : B256
  pub nonce : Bytes
  pub base_fee_per_gas : Option ℕ
  pub withdrawals_root : Option B256
  pub blob_gas_used : Option ℕ
  pub excess_blob_gas : Option ℕ
  pub parent_beacon_block_root : Option B256
  pub requests_hash : Option B256

-- Merge to Capella.
pub record BlockProofHistoricalRoots : Type 0 where
  pub beacon_block_proof : List B256
  pub beacon_block_root : B256
  pub execution_block_proof : List B256
  pub slot : ℕ

-- Capella to Deneb.
pub record BlockProofHistoricalSummariesCapella : Type 0 where
  pub beacon_block_proof : List B256
  pub beacon_block_root : B256
  pub execution_block_proof : List B256
  pub slot : ℕ

-- Deneb onwards.
pub record BlockProofHistoricalSummariesDeneb : Type 0 where
  pub beacon_block_proof : List B256
  pub beacon_block_root : B256
  pub execution_block_proof : List B256
  pub slot : ℕ

pub data BlockHeaderProof : Type 0 where
  historical_hashes : List B256 → BlockHeaderProof
  historical_roots : BlockProofHistoricalRoots → BlockHeaderProof
  historical_summaries_capella : BlockProofHistoricalSummariesCapella → BlockHeaderProof
  historical_summaries_deneb : BlockProofHistoricalSummariesDeneb → BlockHeaderProof

-- The lengths that the types `FixedVector<B256, U15>`, `U14`, `U13`, `U12` and `U11` fix.
abbrev pub IsSized : BlockHeaderProof → Type 0
IsSized (historical_hashes p) = length p ≡ 15
IsSized (historical_roots p) =
    (length p.beacon_block_proof ≡ 14) × (length p.execution_block_proof ≡ 11)
IsSized (historical_summaries_capella p) =
    (length p.beacon_block_proof ≡ 13) × (length p.execution_block_proof ≡ 11)
IsSized (historical_summaries_deneb p) =
    (length p.beacon_block_proof ≡ 13) × (length p.execution_block_proof ≡ 12)

pub record HeaderWithProof : Type 0 where
  pub header : Header
  pub proof : BlockHeaderProof
