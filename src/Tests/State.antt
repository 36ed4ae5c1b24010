-- ===== src/Tests/State.antt =====
-- Tests of the proofs in a beacon state.
use eth_historian.Base.{refl, map, ◌≡◌, List, [], ◌∷◌, String, ok, replicate, B256}
use eth_historian.Beacon.Operations.{BeaconBlockHeader, Eth1Data, Checkpoint}
use eth_historian.Beacon.InBlock.{Reaches}
use eth_historian.Beacon.Fields.{container_root}
use eth_historian.State.Fields.{
  StateRoots, AreDerived, state_field_root, deneb_state_fields, electra_state_fields,
}
use eth_historian.State.{
  BeaconStateDeneb, BeaconStateElectra, StateHash, build_historical_summaries_proof_deneb,
  build_historical_summaries_proof_electra,
}
use eth_historian.State.Data.{
  ExecutionPayloadHeaderDeneb, ExecutionPayloadHeaderElectra, StateFork, SyncCommittee,
}
use eth_historian.State.Summaries.{
  historical_summaries_gindex, build_historical_summaries_proof_lem,
}
use eth_historian.Tests.Data.{checksum}
use eth_historian.Tests.Period.{own_trees, own_trees-IsSound}
use eth_historian.Tests.Payload.{plain}

abbrev fork : StateFork
fork = record { previous_version = 3 ∷ []; current_version = 4 ∷ []; epoch = 269568 }

abbrev header : BeaconBlockHeader
header = record {
  slot = 1;
  proposer_index = 2;
  parent_root = 3 ∷ [];
  state_root = 4 ∷ [];
  body_root = 5 ∷ [];
}

abbrev eth1 : Eth1Data
eth1 = record { deposit_root = 6 ∷ []; deposit_count = 1; block_hash = 7 ∷ [] }

abbrev checkpoint : Checkpoint
checkpoint = record { epoch = 8; root = 9 ∷ [] }

abbrev committee : SyncCommittee
committee = record { pubkeys = []; aggregate_pubkey = [] }

abbrev deneb_header : ExecutionPayloadHeaderDeneb
deneb_header = record {
  parent_hash = 1 ∷ [];
  fee_recipient = [];
  state_root = 2 ∷ [];
  receipts_root = [];
  logs_bloom = [];
  prev_randao = [];
  block_number = 1;
  gas_limit = 2;
  gas_used = 3;
  timestamp = 4;
  extra_data = [];
  base_fee_per_gas = 5;
  block_hash = 6 ∷ [];
  transactions_root = [];
  withdrawals_root = [];
  blob_gas_used = 0;
  excess_blob_gas = 0;
}

abbrev electra_header : ExecutionPayloadHeaderElectra
electra_header = record {
  parent_hash = 1 ∷ [];
  fee_recipient = [];
  state_root = 2 ∷ [];
  receipts_root = [];
  logs_bloom = [];
  prev_randao = [];
  block_number = 1;
  gas_limit = 2;
  gas_used = 3;
  timestamp = 4;
  extra_data = [];
  base_fee_per_gas = 5;
  block_hash = 6 ∷ [];
  transactions_root = [];
  withdrawals_root = [];
  blob_gas_used = 0;
  excess_blob_gas = 0;
}

abbrev hashes : StateHash
hashes = record {
  fork_root = λ x. 20 ∷ [];
  header_root = λ x. 21 ∷ [];
  historical_roots_root = λ x. 22 ∷ [];
  eth1_data_root = λ x. 23 ∷ [];
  eth1_data_votes_root = λ x. 24 ∷ [];
  validators_root = λ x. 25 ∷ [];
  balances_root = λ x. 26 ∷ [];
  randao_mixes_root = λ x. 27 ∷ [];
  slashings_root = λ x. 28 ∷ [];
  participation_root = λ x. 29 ∷ [];
  bits_root = λ x. 30 ∷ [];
  checkpoint_root = λ x. 31 ∷ [];
  sync_committee_root = λ x. 32 ∷ [];
  deneb_header_root = λ x. 33 ∷ [];
  electra_header_root = λ x. 34 ∷ [];
  historical_summaries_root = λ x. 35 ∷ [];
  pending_deposits_root = λ x. 36 ∷ [];
  pending_partial_withdrawals_root = λ x. 37 ∷ [];
  pending_consolidations_root = λ x. 38 ∷ [];
}

abbrev deneb : BeaconStateDeneb
deneb = record {
  genesis_time = 3;
  genesis_validators_root = 5 ∷ [];
  slot = 3;
  fork = fork;
  latest_block_header = header;
  block_roots = replicate 4 (8 ∷ []);
  state_roots = replicate 4 (8 ∷ []);
  historical_roots = [];
  eth1_data = eth1;
  eth1_data_votes = [];
  eth1_deposit_index = 3;
  validators = [];
  balances = [];
  randao_mixes = [];
  slashings = [];
  previous_epoch_participation = [];
  current_epoch_participation = [];
  justification_bits = [];
  previous_justified_checkpoint = checkpoint;
  current_justified_checkpoint = checkpoint;
  finalized_checkpoint = checkpoint;
  inactivity_scores = [];
  current_sync_committee = committee;
  next_sync_committee = committee;
  latest_execution_payload_header = deneb_header;
  next_withdrawal_index = 3;
  next_withdrawal_validator_index = 3;
  historical_summaries = [];
}

abbrev electra : BeaconStateElectra
electra = record {
  genesis_time = 3;
  genesis_validators_root = 5 ∷ [];
  slot = 3;
  fork = fork;
  latest_block_header = header;
  block_roots = replicate 4 (8 ∷ []);
  state_roots = replicate 4 (8 ∷ []);
  historical_roots = [];
  eth1_data = eth1;
  eth1_data_votes = [];
  eth1_deposit_index = 3;
  validators = [];
  balances = [];
  randao_mixes = [];
  slashings = [];
  previous_epoch_participation = [];
  current_epoch_participation = [];
  justification_bits = [];
  previous_justified_checkpoint = checkpoint;
  current_justified_checkpoint = checkpoint;
  finalized_checkpoint = checkpoint;
  inactivity_scores = [];
  current_sync_committee = committee;
  next_sync_committee = committee;
  latest_execution_payload_header = electra_header;
  next_withdrawal_index = 3;
  next_withdrawal_validator_index = 3;
  historical_summaries = [];
  deposit_requests_start_index = 3;
  deposit_balance_to_consume = 3;
  exit_balance_to_consume = 3;
  earliest_exit_epoch = 3;
  consolidation_balance_to_consume = 3;
  earliest_consolidation_epoch = 3;
  pending_deposits = [];
  pending_partial_withdrawals = [];
  pending_consolidations = [];
}

abbrev roots : StateRoots
roots = record {
  deneb_state_root = λ s.
      container_root checksum 5
        (map (state_field_root own_trees plain hashes) (deneb_state_fields s));
  electra_state_root = λ s.
      container_root checksum 6
        (map (state_field_root own_trees plain hashes) (electra_state_fields s));
}

roots-AreDerived : AreDerived checksum own_trees plain hashes roots
roots-AreDerived = record { deneb_state_lem = λ s. refl; electra_state_lem = λ s. refl }

build_historical_summaries_proof_lem_example :
    Reaches checksum 5 59
      (hashes.historical_summaries_root deneb.historical_summaries)
      (build_historical_summaries_proof_deneb own_trees plain hashes deneb)
      (roots.deneb_state_root deneb)
    × ((proof : List B256) × (build_historical_summaries_proof_electra own_trees plain hashes
            {E = String} electra
          ≡ ok proof)
        × Reaches checksum 6 historical_summaries_gindex
            (hashes.historical_summaries_root electra.historical_summaries)
            proof
            (roots.electra_state_root electra))
build_historical_summaries_proof_lem_example =
    build_historical_summaries_proof_lem checksum own_trees own_trees-IsSound plain hashes roots
      roots-AreDerived deneb electra
