-- ===== src/State.antt =====
-- src/portal_types/consensus/beacon_state.rs: the beacon state of each fork, its decoding by fork, and the
-- proofs of its historical summaries. The hash tree roots of the fields' types and the decoders that
-- `ssz_derive` generates are parameters.
pub mod Data
pub mod Fields
pub mod Summaries
use eth_historian.Base.{
  ℕ, List, [], ◌∷◌, ◌++◌, Bool, replicate, Outcome, ok, ◌>>=◌, Bytes, B256, to_le_bytes,
}
use eth_historian.Fork.{ForkName, bellatrix, capella, deneb, electra}
use eth_historian.Types.Codec.{DecodeError}
use eth_historian.Types.Summaries.{HistoricalSummary}
use eth_historian.Beacon.{RootsHashing, build_merkle_proof_for_index}
use eth_historian.Beacon.Operations.{BeaconBlockHeader, Eth1Data, Checkpoint}
use eth_historian.Beacon.Payload.{TreeHash}
use eth_historian.Beacon.Builders.{fixed_vector}
use eth_historian.State.Data.{
  ExecutionPayloadHeaderBellatrix, ExecutionPayloadHeaderCapella, ExecutionPayloadHeaderDeneb,
  ExecutionPayloadHeaderElectra, StateFork, Validator, SyncCommittee, PendingDeposit,
  PendingPartialWithdrawal, PendingConsolidation,
}

pub record BeaconStateBellatrix : Type 0 where
  pub genesis_time : ℕ
  pub genesis_validators_root : B256
  pub slot : ℕ
  pub fork : StateFork
  pub latest_block_header : BeaconBlockHeader
  pub block_roots : List B256
  pub state_roots : List B256
  pub historical_roots : List B256
  pub eth1_data : Eth1Data
  pub eth1_data_votes : List Eth1Data
  pub eth1_deposit_index : ℕ
  pub validators : List Validator
  pub balances : List ℕ
  pub randao_mixes : List B256
  pub slashings : List ℕ
  pub previous_epoch_participation : List ℕ
  pub current_epoch_participation : List ℕ
  pub justification_bits : List Bool
  pub previous_justified_checkpoint : Checkpoint
  pub current_justified_checkpoint : Checkpoint
  pub finalized_checkpoint : Checkpoint
  pub inactivity_scores : List ℕ
  pub current_sync_committee : SyncCommittee
  pub next_sync_committee : SyncCommittee
  pub latest_execution_payload_header : ExecutionPayloadHeaderBellatrix

pub record BeaconStateCapella : Type 0 where
  pub genesis_time : ℕ
  pub genesis_validators_root : B256
  pub slot : ℕ
  pub fork : StateFork
  pub latest_block_header : BeaconBlockHeader
  pub block_roots : List B256
  pub state_roots : List B256
  pub historical_roots : List B256
  pub eth1_data : Eth1Data
  pub eth1_data_votes : List Eth1Data
  pub eth1_deposit_index : ℕ
  pub validators : List Validator
  pub balances : List ℕ
  pub randao_mixes : List B256
  pub slashings : List ℕ
  pub previous_epoch_participation : List ℕ
  pub current_epoch_participation : List ℕ
  pub justification_bits : List Bool
  pub previous_justified_checkpoint : Checkpoint
  pub current_justified_checkpoint : Checkpoint
  pub finalized_checkpoint : Checkpoint
  pub inactivity_scores : List ℕ
  pub current_sync_committee : SyncCommittee
  pub next_sync_committee : SyncCommittee
  pub latest_execution_payload_header : ExecutionPayloadHeaderCapella
  pub next_withdrawal_index : ℕ
  pub next_withdrawal_validator_index : ℕ
  pub historical_summaries : List HistoricalSummary

pub record BeaconStateDeneb : Type 0 where
  pub genesis_time : ℕ
  pub genesis_validators_root : B256
  pub slot : ℕ
  pub fork : StateFork
  pub latest_block_header : BeaconBlockHeader
  pub block_roots : List B256
  pub state_roots : List B256
  pub historical_roots : List B256
  pub eth1_data : Eth1Data
  pub eth1_data_votes : List Eth1Data
  pub eth1_deposit_index : ℕ
  pub validators : List Validator
  pub balances : List ℕ
  pub randao_mixes : List B256
  pub slashings : List ℕ
  pub previous_epoch_participation : List ℕ
  pub current_epoch_participation : List ℕ
  pub justification_bits : List Bool
  pub previous_justified_checkpoint : Checkpoint
  pub current_justified_checkpoint : Checkpoint
  pub finalized_checkpoint : Checkpoint
  pub inactivity_scores : List ℕ
  pub current_sync_committee : SyncCommittee
  pub next_sync_committee : SyncCommittee
  pub latest_execution_payload_header : ExecutionPayloadHeaderDeneb
  pub next_withdrawal_index : ℕ
  pub next_withdrawal_validator_index : ℕ
  pub historical_summaries : List HistoricalSummary

pub record BeaconStateElectra : Type 0 where
  pub genesis_time : ℕ
  pub genesis_validators_root : B256
  pub slot : ℕ
  pub fork : StateFork
  pub latest_block_header : BeaconBlockHeader
  pub block_roots : List B256
  pub state_roots : List B256
  pub historical_roots : List B256
  pub eth1_data : Eth1Data
  pub eth1_data_votes : List Eth1Data
  pub eth1_deposit_index : ℕ
  pub validators : List Validator
  pub balances : List ℕ
  pub randao_mixes : List B256
  pub slashings : List ℕ
  pub previous_epoch_participation : List ℕ
  pub current_epoch_participation : List ℕ
  pub justification_bits : List Bool
  pub previous_justified_checkpoint : Checkpoint
  pub current_justified_checkpoint : Checkpoint
  pub finalized_checkpoint : Checkpoint
  pub inactivity_scores : List ℕ
  pub current_sync_committee : SyncCommittee
  pub next_sync_committee : SyncCommittee
  pub latest_execution_payload_header : ExecutionPayloadHeaderElectra
  pub next_withdrawal_index : ℕ
  pub next_withdrawal_validator_index : ℕ
  pub historical_summaries : List HistoricalSummary
  pub deposit_requests_start_index : ℕ
  pub deposit_balance_to_consume : ℕ
  pub exit_balance_to_consume : ℕ
  pub earliest_exit_epoch : ℕ
  pub consolidation_balance_to_consume : ℕ
  pub earliest_consolidation_epoch : ℕ
  pub pending_deposits : List PendingDeposit
  pub pending_partial_withdrawals : List PendingPartialWithdrawal
  pub pending_consolidations : List PendingConsolidation

pub data BeaconState : Type 0 where
  bellatrix_state : BeaconStateBellatrix → BeaconState
  capella_state : BeaconStateCapella → BeaconState
  deneb_state : BeaconStateDeneb → BeaconState
  electra_state : BeaconStateElectra → BeaconState

pub record StateSsz : Type 0 where
  pub decode_bellatrix_state : Bytes → Outcome DecodeError BeaconStateBellatrix
  pub decode_capella_state : Bytes → Outcome DecodeError BeaconStateCapella
  pub decode_deneb_state : Bytes → Outcome DecodeError BeaconStateDeneb
  pub decode_electra_state : Bytes → Outcome DecodeError BeaconStateElectra

unfoldable pub state_from_ssz_bytes : StateSsz → Bytes → ForkName → Outcome DecodeError BeaconState
state_from_ssz_bytes D bytes bellatrix = do
  state ← D.decode_bellatrix_state bytes
  ok (bellatrix_state state)
state_from_ssz_bytes D bytes capella = do
  state ← D.decode_capella_state bytes
  ok (capella_state state)
state_from_ssz_bytes D bytes deneb = do state ← D.decode_deneb_state bytes; ok (deneb_state state)
state_from_ssz_bytes D bytes electra = do
  state ← D.decode_electra_state bytes
  ok (electra_state state)

-- The accessors that `superstruct` derives for the common fields.
abbrev pub block_roots : BeaconState → List B256
block_roots (bellatrix_state s) = s.block_roots
block_roots (capella_state s) = s.block_roots
block_roots (deneb_state s) = s.block_roots
block_roots (electra_state s) = s.block_roots

abbrev pub state_roots : BeaconState → List B256
state_roots (bellatrix_state s) = s.state_roots
state_roots (capella_state s) = s.state_roots
state_roots (deneb_state s) = s.state_roots
state_roots (electra_state s) = s.state_roots

-- The first eight bytes are the number's, the others are zero.
unfoldable pub int_to_fixed_bytes32 : ℕ → B256
int_to_fixed_bytes32 int = to_le_bytes 8 int ++ replicate 24 0

-- `Epoch::tree_hash_root`
unfoldable pub epoch_root : ℕ → B256
unfolding int_to_fixed_bytes32
epoch_root epoch = int_to_fixed_bytes32 epoch

-- `tree_hash_root` of the fields' types.
pub record StateHash : Type 0 where
  pub fork_root : StateFork → B256
  pub header_root : BeaconBlockHeader → B256
  pub historical_roots_root : List B256 → B256
  pub eth1_data_root : Eth1Data → B256
  pub eth1_data_votes_root : List Eth1Data → B256
  pub validators_root : List Validator → B256
  pub balances_root : List ℕ → B256
  pub randao_mixes_root : List B256 → B256
  pub slashings_root : List ℕ → B256
  pub participation_root : List ℕ → B256
  pub bits_root : List Bool → B256
  pub checkpoint_root : Checkpoint → B256
  pub sync_committee_root : SyncCommittee → B256
  pub deneb_header_root : ExecutionPayloadHeaderDeneb → B256
  pub electra_header_root : ExecutionPayloadHeaderElectra → B256
  pub historical_summaries_root : List HistoricalSummary → B256
  pub pending_deposits_root : List PendingDeposit → B256
  pub pending_partial_withdrawals_root : List PendingPartialWithdrawal → B256
  pub pending_consolidations_root : List PendingConsolidation → B256

module _ (R : RootsHashing) (T : TreeHash) (S : StateHash) where
  unfoldable pub deneb_state_leaves : BeaconStateDeneb → List B256
  deneb_state_leaves s =
      T.u64_root s.genesis_time
      ∷ T.b256_root s.genesis_validators_root
      ∷ T.u64_root s.slot
      ∷ S.fork_root s.fork
      ∷ S.header_root s.latest_block_header
      ∷ R.tree_hash_root s.block_roots
      ∷ R.tree_hash_root s.state_roots
      ∷ S.historical_roots_root s.historical_roots
      ∷ S.eth1_data_root s.eth1_data
      ∷ S.eth1_data_votes_root s.eth1_data_votes
      ∷ T.u64_root s.eth1_deposit_index
      ∷ S.validators_root s.validators
      ∷ S.balances_root s.balances
      ∷ S.randao_mixes_root s.randao_mixes
      ∷ S.slashings_root s.slashings
      ∷ S.participation_root s.previous_epoch_participation
      ∷ S.participation_root s.current_epoch_participation
      ∷ S.bits_root s.justification_bits
      ∷ S.checkpoint_root s.previous_justified_checkpoint
      ∷ S.checkpoint_root s.current_justified_checkpoint
      ∷ S.checkpoint_root s.finalized_checkpoint
      ∷ S.balances_root s.inactivity_scores
      ∷ S.sync_committee_root s.current_sync_committee
      ∷ S.sync_committee_root s.next_sync_committee
      ∷ S.deneb_header_root s.latest_execution_payload_header
      ∷ T.u64_root s.next_withdrawal_index
      ∷ T.u64_root s.next_withdrawal_validator_index
      ∷ S.historical_summaries_root s.historical_summaries
      ∷ []

  unfoldable pub electra_state_leaves : BeaconStateElectra → List B256
  unfolding epoch_root
  electra_state_leaves s =
      T.u64_root s.genesis_time
      ∷ T.b256_root s.genesis_validators_root
      ∷ T.u64_root s.slot
      ∷ S.fork_root s.fork
      ∷ S.header_root s.latest_block_header
      ∷ R.tree_hash_root s.block_roots
      ∷ R.tree_hash_root s.state_roots
      ∷ S.historical_roots_root s.historical_roots
      ∷ S.eth1_data_root s.eth1_data
      ∷ S.eth1_data_votes_root s.eth1_data_votes
      ∷ T.u64_root s.eth1_deposit_index
      ∷ S.validators_root s.validators
      ∷ S.balances_root s.balances
      ∷ S.randao_mixes_root s.randao_mixes
      ∷ S.slashings_root s.slashings
      ∷ S.participation_root s.previous_epoch_participation
      ∷ S.participation_root s.current_epoch_participation
      ∷ S.bits_root s.justification_bits
      ∷ S.checkpoint_root s.previous_justified_checkpoint
      ∷ S.checkpoint_root s.current_justified_checkpoint
      ∷ S.checkpoint_root s.finalized_checkpoint
      ∷ S.balances_root s.inactivity_scores
      ∷ S.sync_committee_root s.current_sync_committee
      ∷ S.sync_committee_root s.next_sync_committee
      ∷ S.electra_header_root s.latest_execution_payload_header
      ∷ T.u64_root s.next_withdrawal_index
      ∷ T.u64_root s.next_withdrawal_validator_index
      ∷ S.historical_summaries_root s.historical_summaries
      ∷ T.u64_root s.deposit_requests_start_index
      ∷ T.u64_root s.deposit_balance_to_consume
      ∷ T.u64_root s.exit_balance_to_consume
      ∷ epoch_root s.earliest_exit_epoch
      ∷ T.u64_root s.consolidation_balance_to_consume
      ∷ epoch_root s.earliest_consolidation_epoch
      ∷ S.pending_deposits_root s.pending_deposits
      ∷ S.pending_partial_withdrawals_root s.pending_partial_withdrawals
      ∷ S.pending_consolidations_root s.pending_consolidations
      ∷ []

  unfoldable pub build_historical_summaries_proof_deneb : BeaconStateDeneb → List B256
  unfolding deneb_state_leaves
  build_historical_summaries_proof_deneb s =
      build_merkle_proof_for_index R (deneb_state_leaves s) 27

  -- `HistoricalSummariesProof` has 6 nodes.
  unfoldable pub build_historical_summaries_proof_electra :
      {E : Type 0} → BeaconStateElectra → Outcome E (List B256)
  unfolding electra_state_leaves
  build_historical_summaries_proof_electra s =
      fixed_vector 6 (build_merkle_proof_for_index R (electra_state_leaves s) 27)
