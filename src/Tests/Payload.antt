-- ===== src/Tests/Payload.antt =====
-- Tests of the proofs of leaves, and payloads of each fork.
use eth_historian.Base.{◌^◌, ◌≡◌, refl, List, [], ◌∷◌, get_or, arith, B256}
use eth_historian.Beacon.{zero_chunk, next_power_of_two, build_merkle_proof_for_index}
use eth_historian.Beacon.Index.{Leads, build_merkle_proof_for_index_lem}
use eth_historian.Beacon.Payload.{
  TreeHash, IsChunked, ExecutionPayloadBellatrix, ExecutionPayloadCapella, ExecutionPayloadDeneb,
}
use eth_historian.Tests.Data.{checksum}
use eth_historian.Tests.Period.{own_trees, own_trees-IsSound}

abbrev three : List B256
three = (1 ∷ []) ∷ (2 ∷ []) ∷ (3 ∷ []) ∷ []

four : next_power_of_two 3 ≡ 2 ^ 2
unfolding next_power_of_two
four = refl

build_merkle_proof_for_index_lem_example :
    Leads checksum own_trees 2 2 three
      (get_or three 2 zero_chunk)
      (build_merkle_proof_for_index own_trees three 2)
build_merkle_proof_for_index_lem_example =
    build_merkle_proof_for_index_lem checksum own_trees own_trees-IsSound three 2 2 four
      (omega arith) (omega arith) (omega arith)

abbrev pub plain : TreeHash
plain = record {
  u64_root = λ n. n ∷ [];
  u256_root = λ n. n ∷ [];
  b256_root = λ b. b;
  address_root = λ bytes. bytes;
  bloom_root = λ bytes. bytes;
  extra_data_root = λ bytes. bytes;
  transactions_root = λ list. [];
  withdrawals_root = λ list. [];
}

pub plain-IsChunked : IsChunked plain
plain-IsChunked = record { b256_root_lem = λ b. refl }

abbrev pub bellatrix : ExecutionPayloadBellatrix
bellatrix = record {
  parent_hash = 1 ∷ [];
  fee_recipient = 2 ∷ [];
  state_root = 3 ∷ [];
  receipts_root = 4 ∷ [];
  logs_bloom = 5 ∷ [];
  prev_randao = 6 ∷ [];
  block_number = 7;
  gas_limit = 8;
  gas_used = 9;
  timestamp = 10;
  extra_data = 11 ∷ [];
  base_fee_per_gas = 12;
  block_hash = 13 ∷ [];
  transactions = [];
}

abbrev pub capella : ExecutionPayloadCapella
capella = record {
  parent_hash = 1 ∷ [];
  fee_recipient = 2 ∷ [];
  state_root = 3 ∷ [];
  receipts_root = 4 ∷ [];
  logs_bloom = 5 ∷ [];
  prev_randao = 6 ∷ [];
  block_number = 7;
  gas_limit = 8;
  gas_used = 9;
  timestamp = 10;
  extra_data = 11 ∷ [];
  base_fee_per_gas = 12;
  block_hash = 14 ∷ [];
  transactions = [];
  withdrawals = [];
}

abbrev pub deneb : ExecutionPayloadDeneb
deneb = record {
  parent_hash = 1 ∷ [];
  fee_recipient = 2 ∷ [];
  state_root = 3 ∷ [];
  receipts_root = 4 ∷ [];
  logs_bloom = 5 ∷ [];
  prev_randao = 6 ∷ [];
  block_number = 7;
  gas_limit = 8;
  gas_used = 9;
  timestamp = 10;
  extra_data = 11 ∷ [];
  base_fee_per_gas = 12;
  block_hash = 15 ∷ [];
  transactions = [];
  withdrawals = [];
  blob_gas_used = 16;
  excess_blob_gas = 17;
}
