-- ===== src/Beacon/Block.antt =====
-- src/portal_types/consensus/beacon_block.rs: the beacon block of each fork with its signature, and the
-- proof that its execution block hash is in it. The hash tree roots of the bodies and the decoders that
-- `ssz_derive` generates are parameters.
use eth_historian.Base.{ℕ, List, [], ◌∷◌, ◌++◌, B256}
use eth_historian.Beacon.{RootsHashing, build_merkle_proof_for_index}
use eth_historian.Beacon.Operations.{BlsSignature}
use eth_historian.Beacon.Payload.{
  TreeHash, bellatrix_block_hash_proof, capella_block_hash_proof, deneb_block_hash_proof,
  electra_block_hash_proof,
}
use eth_historian.Beacon.Body.{
  BeaconBlockBodyBellatrix, BeaconBlockBodyCapella, BeaconBlockBodyDeneb, BeaconBlockBodyElectra,
  OperationHash, PayloadHash, bellatrix_execution_payload_proof, capella_execution_payload_proof,
  deneb_execution_payload_proof, electra_execution_payload_proof,
}

pub record BeaconBlockBellatrix : Type 0 where
  pub slot : ℕ
  pub proposer_index : ℕ
  pub parent_root : B256
  pub state_root : B256
  pub body : BeaconBlockBodyBellatrix

pub record BeaconBlockCapella : Type 0 where
  pub slot : ℕ
  pub proposer_index : ℕ
  pub parent_root : B256
  pub state_root : B256
  pub body : BeaconBlockBodyCapella

pub record BeaconBlockDeneb : Type 0 where
  pub slot : ℕ
  pub proposer_index : ℕ
  pub parent_root : B256
  pub state_root : B256
  pub body : BeaconBlockBodyDeneb

pub record BeaconBlockElectra : Type 0 where
  pub slot : ℕ
  pub proposer_index : ℕ
  pub parent_root : B256
  pub state_root : B256
  pub body : BeaconBlockBodyElectra

pub data BeaconBlock : Type 0 where
  bellatrix_block : BeaconBlockBellatrix → BeaconBlock
  capella_block : BeaconBlockCapella → BeaconBlock
  deneb_block : BeaconBlockDeneb → BeaconBlock
  electra_block : BeaconBlockElectra → BeaconBlock

pub record SignedBeaconBlockBellatrix : Type 0 where
  pub message : BeaconBlockBellatrix
  pub signature : BlsSignature

pub record SignedBeaconBlockCapella : Type 0 where
  pub message : BeaconBlockCapella
  pub signature : BlsSignature

pub record SignedBeaconBlockDeneb : Type 0 where
  pub message : BeaconBlockDeneb
  pub signature : BlsSignature

pub record SignedBeaconBlockElectra : Type 0 where
  pub message : BeaconBlockElectra
  pub signature : BlsSignature

pub data SignedBeaconBlock : Type 0 where
  signed_bellatrix : SignedBeaconBlockBellatrix → SignedBeaconBlock
  signed_capella : SignedBeaconBlockCapella → SignedBeaconBlock
  signed_deneb : SignedBeaconBlockDeneb → SignedBeaconBlock
  signed_electra : SignedBeaconBlockElectra → SignedBeaconBlock

-- `tree_hash_root` of the bodies.
pub record BodyHash : Type 0 where
  pub bellatrix_body_root : BeaconBlockBodyBellatrix → B256
  pub capella_body_root : BeaconBlockBodyCapella → B256
  pub deneb_body_root : BeaconBlockBodyDeneb → B256
  pub electra_body_root : BeaconBlockBodyElectra → B256

module _ (T : TreeHash) (B : BodyHash) where
  -- The leaves of the four layouts.
  unfoldable pub bellatrix_block_leaves : BeaconBlockBellatrix → List B256
  bellatrix_block_leaves b =
      T.u64_root b.slot
      ∷ T.u64_root b.proposer_index
      ∷ T.b256_root b.parent_root
      ∷ T.b256_root b.state_root
      ∷ B.bellatrix_body_root b.body
      ∷ []

  unfoldable pub capella_block_leaves : BeaconBlockCapella → List B256
  capella_block_leaves b =
      T.u64_root b.slot
      ∷ T.u64_root b.proposer_index
      ∷ T.b256_root b.parent_root
      ∷ T.b256_root b.state_root
      ∷ B.capella_body_root b.body
      ∷ []

  unfoldable pub deneb_block_leaves : BeaconBlockDeneb → List B256
  deneb_block_leaves b =
      T.u64_root b.slot
      ∷ T.u64_root b.proposer_index
      ∷ T.b256_root b.parent_root
      ∷ T.b256_root b.state_root
      ∷ B.deneb_body_root b.body
      ∷ []

  unfoldable pub electra_block_leaves : BeaconBlockElectra → List B256
  electra_block_leaves b =
      T.u64_root b.slot
      ∷ T.u64_root b.proposer_index
      ∷ T.b256_root b.parent_root
      ∷ T.b256_root b.state_root
      ∷ B.electra_body_root b.body
      ∷ []

module _ (T : TreeHash) (B : BodyHash) (R : RootsHashing) where
  -- `build_body_root_proof` of each of the four structs.
  unfoldable pub bellatrix_body_root_proof : BeaconBlockBellatrix → List B256
  unfolding bellatrix_block_leaves
  bellatrix_body_root_proof b = build_merkle_proof_for_index R (bellatrix_block_leaves T B b) 4

  unfoldable pub capella_body_root_proof : BeaconBlockCapella → List B256
  unfolding capella_block_leaves
  capella_body_root_proof b = build_merkle_proof_for_index R (capella_block_leaves T B b) 4

  unfoldable pub deneb_body_root_proof : BeaconBlockDeneb → List B256
  unfolding deneb_block_leaves
  deneb_body_root_proof b = build_merkle_proof_for_index R (deneb_block_leaves T B b) 4

  unfoldable pub electra_body_root_proof : BeaconBlockElectra → List B256
  unfolding electra_block_leaves
  electra_body_root_proof b = build_merkle_proof_for_index R (electra_block_leaves T B b) 4

module _ (T : TreeHash) (O : OperationHash) (P : PayloadHash) (B : BodyHash)
    (R : RootsHashing) where
  -- `build_execution_block_hash_proof` of each of the four structs.
  unfoldable pub bellatrix_execution_block_hash_proof : BeaconBlockBellatrix → List B256
  unfolding bellatrix_block_hash_proof bellatrix_execution_payload_proof bellatrix_body_root_proof
  bellatrix_execution_block_hash_proof b =
      bellatrix_block_hash_proof T R b.body.execution_payload
      ++ (bellatrix_execution_payload_proof T O P R b.body ++ bellatrix_body_root_proof T B R b)

  unfoldable pub capella_execution_block_hash_proof : BeaconBlockCapella → List B256
  unfolding capella_block_hash_proof capella_execution_payload_proof capella_body_root_proof
  capella_execution_block_hash_proof b =
      capella_block_hash_proof T R b.body.execution_payload
      ++ (capella_execution_payload_proof T O P R b.body ++ capella_body_root_proof T B R b)

  unfoldable pub deneb_execution_block_hash_proof : BeaconBlockDeneb → List B256
  unfolding deneb_block_hash_proof deneb_execution_payload_proof deneb_body_root_proof
  deneb_execution_block_hash_proof b =
      deneb_block_hash_proof T R b.body.execution_payload
      ++ (deneb_execution_payload_proof T O P R b.body ++ deneb_body_root_proof T B R b)

  unfoldable pub electra_execution_block_hash_proof : BeaconBlockElectra → List B256
  unfolding electra_block_hash_proof electra_execution_payload_proof electra_body_root_proof
  electra_execution_block_hash_proof b =
      electra_block_hash_proof T R b.body.execution_payload
      ++ (electra_execution_payload_proof T O P R b.body ++ electra_body_root_proof T B R b)
