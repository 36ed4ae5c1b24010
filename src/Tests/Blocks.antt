-- ===== src/Tests/Blocks.antt =====
-- Tests of the beacon blocks: a block of each fork, with the hash tree roots of `checksum`.
use eth_historian.Base.{refl, [], ◌∷◌}
use eth_historian.Beacon.Operations.{Eth1Data, SyncAggregate, ExecutionRequests}
use eth_historian.Beacon.Body.{OperationHash, PayloadHash}
use eth_historian.Beacon.Block.{
  BeaconBlockBellatrix, BeaconBlockCapella, BeaconBlockDeneb, BeaconBlockElectra, BodyHash,
  bellatrix_execution_block_hash_proof, capella_execution_block_hash_proof,
  deneb_execution_block_hash_proof, electra_execution_block_hash_proof,
}
use eth_historian.Beacon.Payload.{
  ExecutionPayloadBellatrix, ExecutionPayloadCapella, ExecutionPayloadDeneb,
}
use eth_historian.Beacon.Fields.{
  struct_root, bellatrix_payload_fields, capella_payload_fields, deneb_payload_fields,
  bellatrix_body_fields, capella_body_fields, deneb_body_fields, electra_body_fields,
  bellatrix_block_fields, capella_block_fields, deneb_block_fields, electra_block_fields,
}
use eth_historian.Beacon.InBlock.{
  BlockHash, IsDerived, Reaches, build_execution_block_hash_proof_lem,
}
use eth_historian.Tests.Data.{checksum}
use eth_historian.Tests.Period.{own_trees, own_trees-IsSound}
use eth_historian.Tests.Payload.{plain, plain-IsChunked, bellatrix, capella, deneb}

abbrev pub operations : OperationHash
operations = record {
  signature_root = λ s. s;
  eth1_data_root = λ d. d.deposit_root;
  proposer_slashings_root = λ l. 1 ∷ [];
  attester_slashings_base_root = λ l. 2 ∷ [];
  attester_slashings_electra_root = λ l. 3 ∷ [];
  attestations_base_root = λ l. 4 ∷ [];
  attestations_electra_root = λ l. 5 ∷ [];
  deposits_root = λ l. 6 ∷ [];
  voluntary_exits_root = λ l. 7 ∷ [];
  sync_aggregate_root = λ a. a.sync_committee_signature;
  bls_changes_root = λ l. 8 ∷ [];
  kzg_commitments_root = λ l. 9 ∷ [];
  execution_requests_root = λ r. 10 ∷ [];
}

-- No field of a payload is a payload, and none of a body is a body.
abbrev no_payloads : PayloadHash
no_payloads = record {
  bellatrix_root = λ p. [];
  capella_root = λ p. [];
  deneb_root = λ p. [];
  electra_root = λ p. [];
}

abbrev no_bodies : BodyHash
no_bodies = record {
  bellatrix_body_root = λ b. [];
  capella_body_root = λ b. [];
  deneb_body_root = λ b. [];
  electra_body_root = λ b. [];
}

abbrev pub payloads : PayloadHash
payloads = record {
  bellatrix_root = λ p.
      struct_root checksum plain operations no_payloads no_bodies 4 (bellatrix_payload_fields p);
  capella_root =
      λ p. struct_root checksum plain operations no_payloads no_bodies 4 (capella_payload_fields p);
  deneb_root =
      λ p. struct_root checksum plain operations no_payloads no_bodies 5 (deneb_payload_fields p);
  electra_root =
      λ p. struct_root checksum plain operations no_payloads no_bodies 5 (deneb_payload_fields p);
}

abbrev pub bodies : BodyHash
bodies = record {
  bellatrix_body_root =
      λ b. struct_root checksum plain operations payloads no_bodies 4 (bellatrix_body_fields b);
  capella_body_root =
      λ b. struct_root checksum plain operations payloads no_bodies 4 (capella_body_fields b);
  deneb_body_root =
      λ b. struct_root checksum plain operations payloads no_bodies 4 (deneb_body_fields b);
  electra_body_root =
      λ b. struct_root checksum plain operations payloads no_bodies 4 (electra_body_fields b);
}

abbrev pub blocks : BlockHash
blocks = record {
  bellatrix_block_root =
      λ b. struct_root checksum plain operations payloads bodies 3 (bellatrix_block_fields b);
  capella_block_root =
      λ b. struct_root checksum plain operations payloads bodies 3 (capella_block_fields b);
  deneb_block_root =
      λ b. struct_root checksum plain operations payloads bodies 3 (deneb_block_fields b);
  electra_block_root =
      λ b. struct_root checksum plain operations payloads bodies 3 (electra_block_fields b);
}

pub blocks-IsDerived : IsDerived checksum plain operations payloads bodies blocks
blocks-IsDerived = record {
  bellatrix_payload_lem = λ p. refl;
  bellatrix_body_lem = λ b. refl;
  bellatrix_block_lem = λ b. refl;
  capella_payload_lem = λ p. refl;
  capella_body_lem = λ b. refl;
  capella_block_lem = λ b. refl;
  deneb_payload_lem = λ p. refl;
  deneb_body_lem = λ b. refl;
  deneb_block_lem = λ b. refl;
  electra_payload_lem = λ p. refl;
  electra_body_lem = λ b. refl;
  electra_block_lem = λ b. refl;
}

abbrev eth1 : Eth1Data
eth1 = record { deposit_root = 20 ∷ []; deposit_count = 1; block_hash = 21 ∷ [] }

abbrev sync : SyncAggregate
sync = record { sync_committee_bits = []; sync_committee_signature = 22 ∷ [] }

abbrev requests : ExecutionRequests
requests = record { deposits = []; withdrawals = []; consolidations = [] }

-- A block around an execution payload.
abbrev pub bellatrix_around : ExecutionPayloadBellatrix → BeaconBlockBellatrix
bellatrix_around payload = record {
  slot = 0;
  proposer_index = 3;
  parent_root = 4 ∷ [];
  state_root = 5 ∷ [];
  body = record {
    randao_reveal = 6 ∷ [];
    eth1_data = eth1;
    graffiti = 7 ∷ [];
    proposer_slashings = [];
    attester_slashings = [];
    attestations = [];
    deposits = [];
    voluntary_exits = [];
    sync_aggregate = sync;
    execution_payload = payload;
  };
}

-- A block around an execution payload.
abbrev pub capella_around : ExecutionPayloadCapella → BeaconBlockCapella
capella_around payload = record {
  slot = 0;
  proposer_index = 3;
  parent_root = 4 ∷ [];
  state_root = 5 ∷ [];
  body = record {
    randao_reveal = 6 ∷ [];
    eth1_data = eth1;
    graffiti = 7 ∷ [];
    proposer_slashings = [];
    attester_slashings = [];
    attestations = [];
    deposits = [];
    voluntary_exits = [];
    sync_aggregate = sync;
    execution_payload = payload;
    bls_to_execution_changes = [];
  };
}

-- A block around an execution payload.
abbrev pub deneb_around : ExecutionPayloadDeneb → BeaconBlockDeneb
deneb_around payload = record {
  slot = 0;
  proposer_index = 3;
  parent_root = 4 ∷ [];
  state_root = 5 ∷ [];
  body = record {
    randao_reveal = 6 ∷ [];
    eth1_data = eth1;
    graffiti = 7 ∷ [];
    proposer_slashings = [];
    attester_slashings = [];
    attestations = [];
    deposits = [];
    voluntary_exits = [];
    sync_aggregate = sync;
    execution_payload = payload;
    bls_to_execution_changes = [];
    blob_kzg_commitments = [];
  };
}

-- A block around an execution payload.
abbrev pub electra_around : ExecutionPayloadDeneb → BeaconBlockElectra
electra_around payload = record {
  slot = 0;
  proposer_index = 3;
  parent_root = 4 ∷ [];
  state_root = 5 ∷ [];
  body = record {
    randao_reveal = 6 ∷ [];
    eth1_data = eth1;
    graffiti = 7 ∷ [];
    proposer_slashings = [];
    attester_slashings = [];
    attestations = [];
    deposits = [];
    voluntary_exits = [];
    sync_aggregate = sync;
    execution_payload = payload;
    bls_to_execution_changes = [];
    blob_kzg_commitments = [];
    execution_requests = requests;
  };
}

build_execution_block_hash_proof_lem_example :
    Reaches checksum 11 3228 bellatrix.block_hash
      (bellatrix_execution_block_hash_proof plain operations payloads bodies own_trees
        (bellatrix_around bellatrix))
      (blocks.bellatrix_block_root (bellatrix_around bellatrix))
    × Reaches checksum 11 3228 capella.block_hash
        (capella_execution_block_hash_proof plain operations payloads bodies own_trees
          (capella_around capella))
        (blocks.capella_block_root (capella_around capella))
    × Reaches checksum 12 6444 deneb.block_hash
        (deneb_execution_block_hash_proof plain operations payloads bodies own_trees
          (deneb_around deneb))
        (blocks.deneb_block_root (deneb_around deneb))
    × Reaches checksum 12 6444 deneb.block_hash
        (electra_execution_block_hash_proof plain operations payloads bodies own_trees
          (electra_around deneb))
        (blocks.electra_block_root (electra_around deneb))
build_execution_block_hash_proof_lem_example =
    build_execution_block_hash_proof_lem checksum own_trees own_trees-IsSound plain plain-IsChunked
      operations payloads bodies blocks blocks-IsDerived (bellatrix_around bellatrix)
      (capella_around capella) (deneb_around deneb) (electra_around deneb)
