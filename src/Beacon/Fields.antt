-- ===== src/Beacon/Fields.antt =====
-- What `tree_hash_derive` reads of the structs of src/portal_types/consensus/execution_payload.rs, body.rs
-- and beacon_block.rs there: their declared fields, in the order of their declarations, each with
-- its type. The root of a struct is that of the tree over the roots of its fields.
use eth_historian.Base.{ℕ, List, [], ◌∷◌, map, get_or, Bytes, B256}
use eth_historian.Merkle.Hashing.{Hashing}
use eth_historian.Merkle.Create.{complete_root}
use eth_historian.Beacon.{zero_chunk}
use eth_historian.Beacon.Operations.{
  BlsSignature, KzgCommitment, Eth1Data, ProposerSlashing, AttesterSlashingBase,
  AttesterSlashingElectra, AttestationBase, AttestationElectra, Deposit, SignedVoluntaryExit,
  SyncAggregate, SignedBlsToExecutionChange, ExecutionRequests,
}
use eth_historian.Beacon.Payload.{
  Withdrawal, TreeHash, ExecutionPayloadBellatrix, ExecutionPayloadCapella, ExecutionPayloadDeneb,
  ExecutionPayloadElectra,
}
use eth_historian.Beacon.Body.{
  BeaconBlockBodyBellatrix, BeaconBlockBodyCapella, BeaconBlockBodyDeneb, BeaconBlockBodyElectra,
  OperationHash, PayloadHash,
}
use eth_historian.Beacon.Block.{
  BeaconBlockBellatrix, BeaconBlockCapella, BeaconBlockDeneb, BeaconBlockElectra, BodyHash,
}

-- The root of a complete tree over the leaves and zero chunks.
abbrev pub container_root : Hashing → ℕ → List B256 → B256
container_root H d leaves = complete_root H d (λ i. get_or leaves i zero_chunk)

-- A field, by its type.
pub data Field : Type 0 where
  u64 u256 : ℕ → Field
  b256 : B256 → Field
  address bloom extra_bytes : Bytes → Field
  transaction_list : List Bytes → Field
  withdrawal_list : List Withdrawal → Field
  signature : BlsSignature → Field
  eth1 : Eth1Data → Field
  proposer_slashing_list : List ProposerSlashing → Field
  attester_slashing_base_list : List AttesterSlashingBase → Field
  attester_slashing_electra_list : List AttesterSlashingElectra → Field
  attestation_base_list : List AttestationBase → Field
  attestation_electra_list : List AttestationElectra → Field
  deposit_list : List Deposit → Field
  voluntary_exit_list : List SignedVoluntaryExit → Field
  sync : SyncAggregate → Field
  bls_change_list : List SignedBlsToExecutionChange → Field
  kzg_commitment_list : List KzgCommitment → Field
  requests : ExecutionRequests → Field
  bellatrix_payload : ExecutionPayloadBellatrix → Field
  capella_payload : ExecutionPayloadCapella → Field
  deneb_payload : ExecutionPayloadDeneb → Field
  electra_payload : ExecutionPayloadElectra → Field
  bellatrix_body : BeaconBlockBodyBellatrix → Field
  capella_body : BeaconBlockBodyCapella → Field
  deneb_body : BeaconBlockBodyDeneb → Field
  electra_body : BeaconBlockBodyElectra → Field

-- The root of a field, which depends on its type only.
abbrev pub field_root : TreeHash → OperationHash → PayloadHash → BodyHash → Field → B256
field_root T O P B (u64 x) = T.u64_root x
field_root T O P B (u256 x) = T.u256_root x
field_root T O P B (b256 x) = T.b256_root x
field_root T O P B (address x) = T.address_root x
field_root T O P B (bloom x) = T.bloom_root x
field_root T O P B (extra_bytes x) = T.extra_data_root x
field_root T O P B (transaction_list x) = T.transactions_root x
field_root T O P B (withdrawal_list x) = T.withdrawals_root x
field_root T O P B (signature x) = O.signature_root x
field_root T O P B (eth1 x) = O.eth1_data_root x
field_root T O P B (proposer_slashing_list x) = O.proposer_slashings_root x
field_root T O P B (attester_slashing_base_list x) = O.attester_slashings_base_root x
field_root T O P B (attester_slashing_electra_list x) = O.attester_slashings_electra_root x
field_root T O P B (attestation_base_list x) = O.attestations_base_root x
field_root T O P B (attestation_electra_list x) = O.attestations_electra_root x
field_root T O P B (deposit_list x) = O.deposits_root x
field_root T O P B (voluntary_exit_list x) = O.voluntary_exits_root x
field_root T O P B (sync x) = O.sync_aggregate_root x
field_root T O P B (bls_change_list x) = O.bls_changes_root x
field_root T O P B (kzg_commitment_list x) = O.kzg_commitments_root x
field_root T O P B (requests x) = O.execution_requests_root x
field_root T O P B (bellatrix_payload x) = P.bellatrix_root x
field_root T O P B (capella_payload x) = P.capella_root x
field_root T O P B (deneb_payload x) = P.deneb_root x
field_root T O P B (electra_payload x) = P.electra_root x
field_root T O P B (bellatrix_body x) = B.bellatrix_body_root x
field_root T O P B (capella_body x) = B.capella_body_root x
field_root T O P B (deneb_body x) = B.deneb_body_root x
field_root T O P B (electra_body x) = B.electra_body_root x

-- The declared fields of the payloads, the bodies and the blocks. The payload of Electra is that of Deneb.
abbrev pub bellatrix_payload_fields : ExecutionPayloadBellatrix → List Field
bellatrix_payload_fields s =
    b256 s.parent_hash
    ∷ address s.fee_recipient
    ∷ b256 s.state_root
    ∷ b256 s.receipts_root
    ∷ bloom s.logs_bloom
    ∷ b256 s.prev_randao
    ∷ u64 s.block_number
    ∷ u64 s.gas_limit
    ∷ u64 s.gas_used
    ∷ u64 s.timestamp
    ∷ extra_bytes s.extra_data
    ∷ u256 s.base_fee_per_gas
    ∷ b256 s.block_hash
    ∷ transaction_list s.transactions
    ∷ []

abbrev pub capella_payload_fields : ExecutionPayloadCapella → List Field
capella_payload_fields s =
    b256 s.parent_hash
    ∷ address s.fee_recipient
    ∷ b256 s.state_root
    ∷ b256 s.receipts_root
    ∷ bloom s.logs_bloom
    ∷ b256 s.prev_randao
    ∷ u64 s.block_number
    ∷ u64 s.gas_limit
    ∷ u64 s.gas_used
    ∷ u64 s.timestamp
    ∷ extra_bytes s.extra_data
    ∷ u256 s.base_fee_per_gas
    ∷ b256 s.block_hash
    ∷ transaction_list s.transactions
    ∷ withdrawal_list s.withdrawals
    ∷ []

abbrev pub deneb_payload_fields : ExecutionPayloadDeneb → List Field
deneb_payload_fields s =
    b256 s.parent_hash
    ∷ address s.fee_recipient
    ∷ b256 s.state_root
    ∷ b256 s.receipts_root
    ∷ bloom s.logs_bloom
    ∷ b256 s.prev_randao
    ∷ u64 s.block_number
    ∷ u64 s.gas_limit
    ∷ u64 s.gas_used
    ∷ u64 s.timestamp
    ∷ extra_bytes s.extra_data
    ∷ u256 s.base_fee_per_gas
    ∷ b256 s.block_hash
    ∷ transaction_list s.transactions
    ∷ withdrawal_list s.withdrawals
    ∷ u64 s.blob_gas_used
    ∷ u64 s.excess_blob_gas
    ∷ []

abbrev pub bellatrix_body_fields : BeaconBlockBodyBellatrix → List Field
bellatrix_body_fields s =
    signature s.randao_reveal
    ∷ eth1 s.eth1_data
    ∷ b256 s.graffiti
    ∷ proposer_slashing_list s.proposer_slashings
    ∷ attester_slashing_base_list s.attester_slashings
    ∷ attestation_base_list s.attestations
    ∷ deposit_list s.deposits
    ∷ voluntary_exit_list s.voluntary_exits
    ∷ sync s.sync_aggregate
    ∷ bellatrix_payload s.execution_payload
    ∷ []

abbrev pub capella_body_fields : BeaconBlockBodyCapella → List Field
capella_body_fields s =
    signature s.randao_reveal
    ∷ eth1 s.eth1_data
    ∷ b256 s.graffiti
    ∷ proposer_slashing_list s.proposer_slashings
    ∷ attester_slashing_base_list s.attester_slashings
    ∷ attestation_base_list s.attestations
    ∷ deposit_list s.deposits
    ∷ voluntary_exit_list s.voluntary_exits
    ∷ sync s.sync_aggregate
    ∷ capella_payload s.execution_payload
    ∷ bls_change_list s.bls_to_execution_changes
    ∷ []

abbrev pub deneb_body_fields : BeaconBlockBodyDeneb → List Field
deneb_body_fields s =
    signature s.randao_reveal
    ∷ eth1 s.eth1_data
    ∷ b256 s.graffiti
    ∷ proposer_slashing_list s.proposer_slashings
    ∷ attester_slashing_base_list s.attester_slashings
    ∷ attestation_base_list s.attestations
    ∷ deposit_list s.deposits
    ∷ voluntary_exit_list s.voluntary_exits
    ∷ sync s.sync_aggregate
    ∷ deneb_payload s.execution_payload
    ∷ bls_change_list s.bls_to_execution_changes
    ∷ kzg_commitment_list s.blob_kzg_commitments
    ∷ []

abbrev pub electra_body_fields : BeaconBlockBodyElectra → List Field
electra_body_fields s =
    signature s.randao_reveal
    ∷ eth1 s.eth1_data
    ∷ b256 s.graffiti
    ∷ proposer_slashing_list s.proposer_slashings
    ∷ attester_slashing_electra_list s.attester_slashings
    ∷ attestation_electra_list s.attestations
    ∷ deposit_list s.deposits
    ∷ voluntary_exit_list s.voluntary_exits
    ∷ sync s.sync_aggregate
    ∷ electra_payload s.execution_payload
    ∷ bls_change_list s.bls_to_execution_changes
    ∷ kzg_commitment_list s.blob_kzg_commitments
    ∷ requests s.execution_requests
    ∷ []

abbrev pub bellatrix_block_fields : BeaconBlockBellatrix → List Field
bellatrix_block_fields s =
    u64 s.slot
    ∷ u64 s.proposer_index
    ∷ b256 s.parent_root
    ∷ b256 s.state_root
    ∷ bellatrix_body s.body
    ∷ []

abbrev pub capella_block_fields : BeaconBlockCapella → List Field
capella_block_fields s =
    u64 s.slot
    ∷ u64 s.proposer_index
    ∷ b256 s.parent_root
    ∷ b256 s.state_root
    ∷ capella_body s.body
    ∷ []

abbrev pub deneb_block_fields : BeaconBlockDeneb → List Field
deneb_block_fields s =
    u64 s.slot
    ∷ u64 s.proposer_index
    ∷ b256 s.parent_root
    ∷ b256 s.state_root
    ∷ deneb_body s.body
    ∷ []

abbrev pub electra_block_fields : BeaconBlockElectra → List Field
electra_block_fields s =
    u64 s.slot
    ∷ u64 s.proposer_index
    ∷ b256 s.parent_root
    ∷ b256 s.state_root
    ∷ electra_body s.body
    ∷ []

module _ (H : Hashing) (T : TreeHash) (O : OperationHash) (P : PayloadHash) (B : BodyHash) where
  -- The hash tree root of a struct with at most `2 ^ d` fields.
  abbrev pub struct_root : ℕ → List Field → B256
  struct_root d fields = container_root H d (map (field_root T O P B) fields)
