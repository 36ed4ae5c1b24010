-- ===== src/Beacon/Body.antt =====
-- src/portal_types/consensus/body.rs: the body of a beacon block in each fork, and the proof of its
-- execution payload. The hash tree roots of the fields are the parameters `OperationHash` and, for the
-- execution payloads, `PayloadHash`.
use eth_historian.Base.{List, [], ◌∷◌, B256}
use eth_historian.Beacon.{RootsHashing, build_merkle_proof_for_index}
use eth_historian.Beacon.Operations.{
  BlsSignature, KzgCommitment, Eth1Data, ProposerSlashing, AttesterSlashingBase,
  AttesterSlashingElectra, AttestationBase, AttestationElectra, Deposit, SignedVoluntaryExit,
  SyncAggregate, SignedBlsToExecutionChange, ExecutionRequests,
}
use eth_historian.Beacon.Payload.{
  TreeHash, ExecutionPayloadBellatrix, ExecutionPayloadCapella, ExecutionPayloadDeneb,
  ExecutionPayloadElectra,
}

pub record BeaconBlockBodyBellatrix : Type 0 where
  pub randao_reveal : BlsSignature
  pub eth1_data : Eth1Data
  pub graffiti : B256
  pub proposer_slashings : List ProposerSlashing
  pub attester_slashings : List AttesterSlashingBase
  pub attestations : List AttestationBase
  pub deposits : List Deposit
  pub voluntary_exits : List SignedVoluntaryExit
  pub sync_aggregate : SyncAggregate
  pub execution_payload : ExecutionPayloadBellatrix

pub record BeaconBlockBodyCapella : Type 0 where
  pub randao_reveal : BlsSignature
  pub eth1_data : Eth1Data
  pub graffiti : B256
  pub proposer_slashings : List ProposerSlashing
  pub attester_slashings : List AttesterSlashingBase
  pub attestations : List AttestationBase
  pub deposits : List Deposit
  pub voluntary_exits : List SignedVoluntaryExit
  pub sync_aggregate : SyncAggregate
  pub execution_payload : ExecutionPayloadCapella
  pub bls_to_execution_changes : List SignedBlsToExecutionChange

pub record BeaconBlockBodyDeneb : Type 0 where
  pub randao_reveal : BlsSignature
  pub eth1_data : Eth1Data
  pub graffiti : B256
  pub proposer_slashings : List ProposerSlashing
  pub attester_slashings : List AttesterSlashingBase
  pub attestations : List AttestationBase
  pub deposits : List Deposit
  pub voluntary_exits : List SignedVoluntaryExit
  pub sync_aggregate : SyncAggregate
  pub execution_payload : ExecutionPayloadDeneb
  pub bls_to_execution_changes : List SignedBlsToExecutionChange
  pub blob_kzg_commitments : List KzgCommitment

pub record BeaconBlockBodyElectra : Type 0 where
  pub randao_reveal : BlsSignature
  pub eth1_data : Eth1Data
  pub graffiti : B256
  pub proposer_slashings : List ProposerSlashing
  pub attester_slashings : List AttesterSlashingElectra
  pub attestations : List AttestationElectra
  pub deposits : List Deposit
  pub voluntary_exits : List SignedVoluntaryExit
  pub sync_aggregate : SyncAggregate
  pub execution_payload : ExecutionPayloadElectra
  pub bls_to_execution_changes : List SignedBlsToExecutionChange
  pub blob_kzg_commitments : List KzgCommitment
  pub execution_requests : ExecutionRequests

-- `tree_hash_root` of the operations.
pub record OperationHash : Type 0 where
  pub signature_root : BlsSignature → B256
  pub eth1_data_root : Eth1Data → B256
  pub proposer_slashings_root : List ProposerSlashing → B256
  pub attester_slashings_base_root : List AttesterSlashingBase → B256
  pub attester_slashings_electra_root : List AttesterSlashingElectra → B256
  pub attestations_base_root : List AttestationBase → B256
  pub attestations_electra_root : List AttestationElectra → B256
  pub deposits_root : List Deposit → B256
  pub voluntary_exits_root : List SignedVoluntaryExit → B256
  pub sync_aggregate_root : SyncAggregate → B256
  pub bls_changes_root : List SignedBlsToExecutionChange → B256
  pub kzg_commitments_root : List KzgCommitment → B256
  pub execution_requests_root : ExecutionRequests → B256

-- `tree_hash_root` of the execution payloads.
pub record PayloadHash : Type 0 where
  pub bellatrix_root : ExecutionPayloadBellatrix → B256
  pub capella_root : ExecutionPayloadCapella → B256
  pub deneb_root : ExecutionPayloadDeneb → B256
  pub electra_root : ExecutionPayloadElectra → B256

module _ (T : TreeHash) (O : OperationHash) (P : PayloadHash) where
  -- The leaves of the four layouts.
  unfoldable pub bellatrix_body_leaves : BeaconBlockBodyBellatrix → List B256
  bellatrix_body_leaves b =
      O.signature_root b.randao_reveal
      ∷ O.eth1_data_root b.eth1_data
      ∷ T.b256_root b.graffiti
      ∷ O.proposer_slashings_root b.proposer_slashings
      ∷ O.attester_slashings_base_root b.attester_slashings
      ∷ O.attestations_base_root b.attestations
      ∷ O.deposits_root b.deposits
      ∷ O.voluntary_exits_root b.voluntary_exits
      ∷ O.sync_aggregate_root b.sync_aggregate
      ∷ P.bellatrix_root b.execution_payload
      ∷ []

  unfoldable pub capella_body_leaves : BeaconBlockBodyCapella → List B256
  capella_body_leaves b =
      O.signature_root b.randao_reveal
      ∷ O.eth1_data_root b.eth1_data
      ∷ T.b256_root b.graffiti
      ∷ O.proposer_slashings_root b.proposer_slashings
      ∷ O.attester_slashings_base_root b.attester_slashings
      ∷ O.attestations_base_root b.attestations
      ∷ O.deposits_root b.deposits
      ∷ O.voluntary_exits_root b.voluntary_exits
      ∷ O.sync_aggregate_root b.sync_aggregate
      ∷ P.capella_root b.execution_payload
      ∷ O.bls_changes_root b.bls_to_execution_changes
      ∷ []

  unfoldable pub deneb_body_leaves : BeaconBlockBodyDeneb → List B256
  deneb_body_leaves b =
      O.signature_root b.randao_reveal
      ∷ O.eth1_data_root b.eth1_data
      ∷ T.b256_root b.graffiti
      ∷ O.proposer_slashings_root b.proposer_slashings
      ∷ O.attester_slashings_base_root b.attester_slashings
      ∷ O.attestations_base_root b.attestations
      ∷ O.deposits_root b.deposits
      ∷ O.voluntary_exits_root b.voluntary_exits
      ∷ O.sync_aggregate_root b.sync_aggregate
      ∷ P.deneb_root b.execution_payload
      ∷ O.bls_changes_root b.bls_to_execution_changes
      ∷ O.kzg_commitments_root b.blob_kzg_commitments
      ∷ []

  unfoldable pub electra_body_leaves : BeaconBlockBodyElectra → List B256
  electra_body_leaves b =
      O.signature_root b.randao_reveal
      ∷ O.eth1_data_root b.eth1_data
      ∷ T.b256_root b.graffiti
      ∷ O.proposer_slashings_root b.proposer_slashings
      ∷ O.attester_slashings_electra_root b.attester_slashings
      ∷ O.attestations_electra_root b.attestations
      ∷ O.deposits_root b.deposits
      ∷ O.voluntary_exits_root b.voluntary_exits
      ∷ O.sync_aggregate_root b.sync_aggregate
      ∷ P.electra_root b.execution_payload
      ∷ O.bls_changes_root b.bls_to_execution_changes
      ∷ O.kzg_commitments_root b.blob_kzg_commitments
      ∷ O.execution_requests_root b.execution_requests
      ∷ []

module _ (T : TreeHash) (O : OperationHash) (P : PayloadHash) (R : RootsHashing) where
  -- `build_execution_payload_proof` of each of the four structs.
  unfoldable pub bellatrix_execution_payload_proof : BeaconBlockBodyBellatrix → List B256
  unfolding bellatrix_body_leaves
  bellatrix_execution_payload_proof b =
      build_merkle_proof_for_index R (bellatrix_body_leaves T O P b) 9

  unfoldable pub capella_execution_payload_proof : BeaconBlockBodyCapella → List B256
  unfolding capella_body_leaves
  capella_execution_payload_proof b = build_merkle_proof_for_index R (capella_body_leaves T O P b) 9

  unfoldable pub deneb_execution_payload_proof : BeaconBlockBodyDeneb → List B256
  unfolding deneb_body_leaves
  deneb_execution_payload_proof b = build_merkle_proof_for_index R (deneb_body_leaves T O P b) 9

  unfoldable pub electra_execution_payload_proof : BeaconBlockBodyElectra → List B256
  unfolding electra_body_leaves
  electra_execution_payload_proof b = build_merkle_proof_for_index R (electra_body_leaves T O P b) 9
