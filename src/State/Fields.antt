-- ===== src/State/Fields.antt =====
-- What `tree_hash_derive` reads of the beacon states of src/portal_types/consensus/beacon_state.rs: their
-- declared fields, in the order of their declarations, each with its type.
use eth_historian.Base.{ℕ, List, [], ◌∷◌, map, Bool, ◌≡◌, B256}
use eth_historian.Merkle.Hashing.{Hashing}
use eth_historian.Types.Summaries.{HistoricalSummary}
use eth_historian.Beacon.{RootsHashing}
use eth_historian.Beacon.Fields.{container_root}
use eth_historian.Beacon.Operations.{BeaconBlockHeader, Eth1Data, Checkpoint}
use eth_historian.Beacon.Payload.{TreeHash}
use eth_historian.State.{BeaconStateDeneb, BeaconStateElectra, StateHash, epoch_root}
use eth_historian.State.Data.{
  ExecutionPayloadHeaderDeneb, ExecutionPayloadHeaderElectra, StateFork, Validator, SyncCommittee,
  PendingDeposit, PendingPartialWithdrawal, PendingConsolidation,
}

-- A field, by its type.
pub data StateField : Type 0 where
  u64 : ℕ → StateField
  epoch_number : ℕ → StateField
  b256 : B256 → StateField
  period_roots : List B256 → StateField
  root_list : List B256 → StateField
  mixes : List B256 → StateField
  u64_list : List ℕ → StateField
  slashing_sums : List ℕ → StateField
  participation : List ℕ → StateField
  fork_data : StateFork → StateField
  block_header : BeaconBlockHeader → StateField
  eth1 : Eth1Data → StateField
  eth1_list : List Eth1Data → StateField
  validator_list : List Validator → StateField
  bits : List Bool → StateField
  check_point : Checkpoint → StateField
  committee : SyncCommittee → StateField
  deneb_header : ExecutionPayloadHeaderDeneb → StateField
  electra_header : ExecutionPayloadHeaderElectra → StateField
  summary_list : List HistoricalSummary → StateField
  pending_deposit_list : List PendingDeposit → StateField
  pending_withdrawal_list : List PendingPartialWithdrawal → StateField
  pending_consolidation_list : List PendingConsolidation → StateField

-- The root of a field, which depends on its type only.
abbrev pub state_field_root : RootsHashing → TreeHash → StateHash → StateField → B256
state_field_root R T S (u64 x) = T.u64_root x
state_field_root R T S (epoch_number x) = epoch_root x
state_field_root R T S (b256 x) = T.b256_root x
state_field_root R T S (period_roots x) = R.tree_hash_root x
state_field_root R T S (root_list x) = S.historical_roots_root x
state_field_root R T S (mixes x) = S.randao_mixes_root x
state_field_root R T S (u64_list x) = S.balances_root x
state_field_root R T S (slashing_sums x) = S.slashings_root x
state_field_root R T S (participation x) = S.participation_root x
state_field_root R T S (fork_data x) = S.fork_root x
state_field_root R T S (block_header x) = S.header_root x
state_field_root R T S (eth1 x) = S.eth1_data_root x
state_field_root R T S (eth1_list x) = S.eth1_data_votes_root x
state_field_root R T S (validator_list x) = S.validators_root x
state_field_root R T S (bits x) = S.bits_root x
state_field_root R T S (check_point x) = S.checkpoint_root x
state_field_root R T S (committee x) = S.sync_committee_root x
state_field_root R T S (deneb_header x) = S.deneb_header_root x
state_field_root R T S (electra_header x) = S.electra_header_root x
state_field_root R T S (summary_list x) = S.historical_summaries_root x
state_field_root R T S (pending_deposit_list x) = S.pending_deposits_root x
state_field_root R T S (pending_withdrawal_list x) = S.pending_partial_withdrawals_root x
state_field_root R T S (pending_consolidation_list x) = S.pending_consolidations_root x

abbrev pub deneb_state_fields : BeaconStateDeneb → List StateField
deneb_state_fields s =
    u64 s.genesis_time
    ∷ b256 s.genesis_validators_root
    ∷ u64 s.slot
    ∷ fork_data s.fork
    ∷ block_header s.latest_block_header
    ∷ period_roots s.block_roots
    ∷ period_roots s.state_roots
    ∷ root_list s.historical_roots
    ∷ eth1 s.eth1_data
    ∷ eth1_list s.eth1_data_votes
    ∷ u64 s.eth1_deposit_index
    ∷ validator_list s.validators
    ∷ u64_list s.balances
    ∷ mixes s.randao_mixes
    ∷ slashing_sums s.slashings
    ∷ participation s.previous_epoch_participation
    ∷ participation s.current_epoch_participation
    ∷ bits s.justification_bits
    ∷ check_point s.previous_justified_checkpoint
    ∷ check_point s.current_justified_checkpoint
    ∷ check_point s.finalized_checkpoint
    ∷ u64_list s.inactivity_scores
    ∷ committee s.current_sync_committee
    ∷ committee s.next_sync_committee
    ∷ deneb_header s.latest_execution_payload_header
    ∷ u64 s.next_withdrawal_index
    ∷ u64 s.next_withdrawal_validator_index
    ∷ summary_list s.historical_summaries
    ∷ []

abbrev pub electra_state_fields : BeaconStateElectra → List StateField
electra_state_fields s =
    u64 s.genesis_time
    ∷ b256 s.genesis_validators_root
    ∷ u64 s.slot
    ∷ fork_data s.fork
    ∷ block_header s.latest_block_header
    ∷ period_roots s.block_roots
    ∷ period_roots s.state_roots
    ∷ root_list s.historical_roots
    ∷ eth1 s.eth1_data
    ∷ eth1_list s.eth1_data_votes
    ∷ u64 s.eth1_deposit_index
    ∷ validator_list s.validators
    ∷ u64_list s.balances
    ∷ mixes s.randao_mixes
    ∷ slashing_sums s.slashings
    ∷ participation s.previous_epoch_participation
    ∷ participation s.current_epoch_participation
    ∷ bits s.justification_bits
    ∷ check_point s.previous_justified_checkpoint
    ∷ check_point s.current_justified_checkpoint
    ∷ check_point s.finalized_checkpoint
    ∷ u64_list s.inactivity_scores
    ∷ committee s.current_sync_committee
    ∷ committee s.next_sync_committee
    ∷ electra_header s.latest_execution_payload_header
    ∷ u64 s.next_withdrawal_index
    ∷ u64 s.next_withdrawal_validator_index
    ∷ summary_list s.historical_summaries
    ∷ u64 s.deposit_requests_start_index
    ∷ u64 s.deposit_balance_to_consume
    ∷ u64 s.exit_balance_to_consume
    ∷ epoch_number s.earliest_exit_epoch
    ∷ u64 s.consolidation_balance_to_consume
    ∷ epoch_number s.earliest_consolidation_epoch
    ∷ pending_deposit_list s.pending_deposits
    ∷ pending_withdrawal_list s.pending_partial_withdrawals
    ∷ pending_consolidation_list s.pending_consolidations
    ∷ []

-- `tree_hash_root` of the states.
pub record StateRoots : Type 0 where
  pub deneb_state_root : BeaconStateDeneb → B256
  pub electra_state_root : BeaconStateElectra → B256

-- The hash tree root of a state is the root of the tree over the roots of its declared fields, padded with
-- zero chunks to a power of two.
pub record AreDerived (H : Hashing) (R : RootsHashing) (T : TreeHash) (S : StateHash)
    (K : StateRoots) : Type 0 where
  pub deneb_state_lem :
      (s : BeaconStateDeneb)
      → K.deneb_state_root s
        ≡ container_root H 5 (map (state_field_root R T S) (deneb_state_fields s))
  pub electra_state_lem :
      (s : BeaconStateElectra)
      → K.electra_state_root s
        ≡ container_root H 6 (map (state_field_root R T S) (electra_state_fields s))
