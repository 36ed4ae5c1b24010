-- ===== src/State/Data.antt =====
-- The data of a beacon state: `ExecutionPayloadHeader` of src/portal_types/consensus/execution_payload.rs,
-- `Fork` and `Validator` of beacon_state.rs, and the structs of sync_committee.rs,
-- pending_balance_deposit.rs, pending_partial_withdrawal.rs and pending_consolidation.rs there.
use eth_historian.Base.{ℕ, List, Bool, Bytes, B256}
use eth_historian.Beacon.Operations.{PubKey, BlsSignature}

pub record ExecutionPayloadHeaderBellatrix : Type 0 where
  pub parent_hash : B256
  pub fee_recipient : Bytes
  pub state_root : B256
  pub receipts_root : B256
  pub logs_bloom : Bytes
  pub prev_randao : B256
  pub block_number : ℕ
  pub gas_limit : ℕ
  pub gas_used : ℕ
  pub timestamp : ℕ
  pub extra_data : Bytes
  pub base_fee_per_gas : ℕ
  pub block_hash : B256
  pub transactions_root : B256

pub record ExecutionPayloadHeaderCapella : Type 0 where
  pub parent_hash : B256
  pub fee_recipient : Bytes
  pub state_root : B256
  pub receipts_root : B256
  pub logs_bloom : Bytes
  pub prev_randao : B256
  pub block_number : ℕ
  pub gas_limit : ℕ
  pub gas_used : ℕ
  pub timestamp : ℕ
  pub extra_data : Bytes
  pub base_fee_per_gas : ℕ
  pub block_hash : B256
  pub transactions_root : B256
  pub withdrawals_root : B256

pub record ExecutionPayloadHeaderDeneb : Type 0 where
  pub parent_hash : B256
  pub fee_recipient : Bytes
  pub state_root : B256
  pub receipts_root : B256
  pub logs_bloom : Bytes
  pub prev_randao : B256
  pub block_number : ℕ
  pub gas_limit : ℕ
  pub gas_used : ℕ
  pub timestamp : ℕ
  pub extra_data : Bytes
  pub base_fee_per_gas : ℕ
  pub block_hash : B256
  pub transactions_root : B256
  pub withdrawals_root : B256
  pub blob_gas_used : ℕ
  pub excess_blob_gas : ℕ

pub record ExecutionPayloadHeaderElectra : Type 0 where
  pub parent_hash : B256
  pub fee_recipient : Bytes
  pub state_root : B256
  pub receipts_root : B256
  pub logs_bloom : Bytes
  pub prev_randao : B256
  pub block_number : ℕ
  pub gas_limit : ℕ
  pub gas_used : ℕ
  pub timestamp : ℕ
  pub extra_data : Bytes
  pub base_fee_per_gas : ℕ
  pub block_hash : B256
  pub transactions_root : B256
  pub withdrawals_root : B256
  pub blob_gas_used : ℕ
  pub excess_blob_gas : ℕ

-- `Fork`; the name is taken by the names of the forks.
pub record StateFork : Type 0 where
  pub previous_version : Bytes
  pub current_version : Bytes
  pub epoch : ℕ

pub record Validator : Type 0 where
  pub pubkey : PubKey
  pub withdrawal_credentials : B256
  pub effective_balance : ℕ
  pub slashed : Bool
  pub activation_eligibility_epoch : ℕ
  pub activation_epoch : ℕ
  pub exit_epoch : ℕ
  pub withdrawable_epoch : ℕ

pub record SyncCommittee : Type 0 where
  pub pubkeys : List PubKey
  pub aggregate_pubkey : PubKey

pub record PendingDeposit : Type 0 where
  pub pubkey : PubKey
  pub withdrawal_credentials : B256
  pub amount : ℕ
  pub signature : BlsSignature
  pub slot : ℕ

pub record PendingPartialWithdrawal : Type 0 where
  pub validator_index : ℕ
  pub amount : ℕ
  pub withdrawable_epoch : ℕ

pub record PendingConsolidation : Type 0 where
  pub source_index : ℕ
  pub target_index : ℕ
