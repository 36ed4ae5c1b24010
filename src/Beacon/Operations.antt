-- ===== src/Beacon/Operations.antt =====
-- The operations that a beacon block carries: the structs of src/portal_types/consensus/body.rs,
-- header.rs, deposit_request.rs, withdrawal_request.rs, consolidation_request.rs and
-- execution_requests.rs. A `VariableList`, a `FixedVector` and a bit field are lists.
use eth_historian.Base.{ℕ, List, Bool, Bytes, B256}

-- 48 bytes, 96 bytes and 48 bytes.
abbrev pub PubKey : Type 0
PubKey = Bytes

abbrev pub BlsSignature : Type 0
BlsSignature = Bytes

abbrev pub KzgCommitment : Type 0
KzgCommitment = Bytes

pub record Checkpoint : Type 0 where
  pub epoch : ℕ
  pub root : B256

pub record BeaconBlockHeader : Type 0 where
  pub slot : ℕ
  pub proposer_index : ℕ
  pub parent_root : B256
  pub state_root : B256
  pub body_root : B256

pub record Eth1Data : Type 0 where
  pub deposit_root : B256
  pub deposit_count : ℕ
  pub block_hash : B256

pub record SignedBeaconBlockHeader : Type 0 where
  pub message : BeaconBlockHeader
  pub signature : BlsSignature

pub record ProposerSlashing : Type 0 where
  pub signed_header_1 : SignedBeaconBlockHeader
  pub signed_header_2 : SignedBeaconBlockHeader

pub record AttestationData : Type 0 where
  pub slot : ℕ
  pub index : ℕ
  pub beacon_block_root : B256
  pub source : Checkpoint
  pub target : Checkpoint

pub record IndexedAttestationBase : Type 0 where
  pub attesting_indices : List ℕ
  pub attestation_data : AttestationData
  pub signature : BlsSignature

pub record IndexedAttestationElectra : Type 0 where
  pub attesting_indices : List ℕ
  pub attestation_data : AttestationData
  pub signature : BlsSignature

pub record AttesterSlashingBase : Type 0 where
  pub attestation_1 : IndexedAttestationBase
  pub attestation_2 : IndexedAttestationBase

pub record AttesterSlashingElectra : Type 0 where
  pub attestation_1 : IndexedAttestationElectra
  pub attestation_2 : IndexedAttestationElectra

pub record AttestationBase : Type 0 where
  pub aggregation_bits : List Bool
  pub attestation_data : AttestationData
  pub signature : BlsSignature

pub record AttestationElectra : Type 0 where
  pub aggregation_bits : List Bool
  pub attestation_data : AttestationData
  pub signature : BlsSignature
  pub committee_bits : List Bool

pub record DepositData : Type 0 where
  pub pubkey : PubKey
  pub withdrawal_credentials : B256
  pub amount : ℕ
  pub signature : BlsSignature

pub record Deposit : Type 0 where
  pub proof : List B256
  pub deposit_data : DepositData

pub record VoluntaryExit : Type 0 where
  pub epoch : ℕ
  pub validator_index : ℕ

pub record SignedVoluntaryExit : Type 0 where
  pub message : VoluntaryExit
  pub signature : BlsSignature

pub record SyncAggregate : Type 0 where
  pub sync_committee_bits : List Bool
  pub sync_committee_signature : BlsSignature

pub record BlsToExecutionChange : Type 0 where
  pub validator_index : ℕ
  pub from_bls_pubkey : PubKey
  pub to_execution_address : Bytes

pub record SignedBlsToExecutionChange : Type 0 where
  pub message : BlsToExecutionChange
  pub signature : BlsSignature

pub record DepositRequest : Type 0 where
  pub pubkey : PubKey
  pub withdrawal_credentials : B256
  pub amount : ℕ
  pub signature : BlsSignature
  pub index : ℕ

pub record WithdrawalRequest : Type 0 where
  pub source_address : Bytes
  pub validator_pubkey : PubKey
  pub amount : ℕ

pub record ConsolidationRequest : Type 0 where
  pub source_address : Bytes
  pub source_pubkey : PubKey
  pub target_pubkey : PubKey

pub record ExecutionRequests : Type 0 where
  pub deposits : List DepositRequest
  pub withdrawals : List WithdrawalRequest
  pub consolidations : List ConsolidationRequest
