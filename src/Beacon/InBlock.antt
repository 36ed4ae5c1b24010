-- ===== src/Beacon/InBlock.antt =====
-- The proofs of src/portal_types/consensus/beacon_block.rs: from the execution block hash through the
-- execution payload and the body to the root of the beacon block. What `tree_hash_derive` generates for a
-- struct is a hypothesis.
use eth_historian.Base.{
  ℕ, ◌+◌, ◌*◌, ◌^◌, ◌<◌, ◌≡◌, refl, ap, ◌∙◌, sym, List, ◌++◌, length, length-append, arith, B256,
}
use eth_historian.Merkle.Hashing.{Hashing}
use eth_historian.Merkle.Climb.{climb}
use eth_historian.Merkle.LowBits.{climb-low, climb-split}
use eth_historian.Beacon.{RootsHashing, IsSound, next_power_of_two}
use eth_historian.Beacon.Index.{Leads, build_merkle_proof_for_index_lem}
use eth_historian.Beacon.Fields.{
  container_root, struct_root, bellatrix_payload_fields, capella_payload_fields,
  deneb_payload_fields, bellatrix_body_fields, capella_body_fields, deneb_body_fields,
  electra_body_fields, bellatrix_block_fields, capella_block_fields, deneb_block_fields,
  electra_block_fields,
}
use eth_historian.Beacon.Payload.{
  TreeHash, IsChunked, ExecutionPayloadBellatrix, ExecutionPayloadCapella, ExecutionPayloadDeneb,
  ExecutionPayloadElectra, bellatrix_leaves, capella_leaves, deneb_leaves,
}
use eth_historian.Beacon.BlockHash.{
  bellatrix_lem as payload_bellatrix_lem, capella_lem as payload_capella_lem,
  deneb_lem as payload_deneb_lem, electra_lem as payload_electra_lem,
}
use eth_historian.Beacon.Body.{
  BeaconBlockBodyBellatrix, BeaconBlockBodyCapella, BeaconBlockBodyDeneb, BeaconBlockBodyElectra,
  OperationHash, PayloadHash, bellatrix_body_leaves, capella_body_leaves, deneb_body_leaves,
  electra_body_leaves, bellatrix_execution_payload_proof, capella_execution_payload_proof,
  deneb_execution_payload_proof, electra_execution_payload_proof,
}
use eth_historian.Beacon.Block.{
  BeaconBlockBellatrix, BeaconBlockCapella, BeaconBlockDeneb, BeaconBlockElectra, BodyHash,
  bellatrix_block_leaves, capella_block_leaves, deneb_block_leaves, electra_block_leaves,
  bellatrix_body_root_proof, capella_body_root_proof, deneb_body_root_proof,
  electra_body_root_proof, bellatrix_execution_block_hash_proof, capella_execution_block_hash_proof,
  deneb_execution_block_hash_proof, electra_execution_block_hash_proof,
}

-- `tree_hash_root` of the beacon blocks.
pub record BlockHash : Type 0 where
  pub bellatrix_block_root : BeaconBlockBellatrix → B256
  pub capella_block_root : BeaconBlockCapella → B256
  pub deneb_block_root : BeaconBlockDeneb → B256
  pub electra_block_root : BeaconBlockElectra → B256

-- The hash tree root of a struct is the root of the tree over the roots of its declared fields, padded with
-- zero chunks to a power of two.
pub record IsDerived (H : Hashing) (T : TreeHash) (O : OperationHash) (P : PayloadHash)
    (B : BodyHash) (K : BlockHash) : Type 0 where
  pub bellatrix_payload_lem :
      (p : ExecutionPayloadBellatrix)
      → P.bellatrix_root p ≡ struct_root H T O P B 4 (bellatrix_payload_fields p)
  pub bellatrix_body_lem :
      (b : BeaconBlockBodyBellatrix)
      → B.bellatrix_body_root b ≡ struct_root H T O P B 4 (bellatrix_body_fields b)
  pub bellatrix_block_lem :
      (b : BeaconBlockBellatrix)
      → K.bellatrix_block_root b ≡ struct_root H T O P B 3 (bellatrix_block_fields b)
  pub capella_payload_lem :
      (p : ExecutionPayloadCapella)
      → P.capella_root p ≡ struct_root H T O P B 4 (capella_payload_fields p)
  pub capella_body_lem :
      (b : BeaconBlockBodyCapella)
      → B.capella_body_root b ≡ struct_root H T O P B 4 (capella_body_fields b)
  pub capella_block_lem :
      (b : BeaconBlockCapella)
      → K.capella_block_root b ≡ struct_root H T O P B 3 (capella_block_fields b)
  pub deneb_payload_lem :
      (p : ExecutionPayloadDeneb)
      → P.deneb_root p ≡ struct_root H T O P B 5 (deneb_payload_fields p)
  pub deneb_body_lem :
      (b : BeaconBlockBodyDeneb)
      → B.deneb_body_root b ≡ struct_root H T O P B 4 (deneb_body_fields b)
  pub deneb_block_lem :
      (b : BeaconBlockDeneb) → K.deneb_block_root b ≡ struct_root H T O P B 3 (deneb_block_fields b)
  pub electra_payload_lem :
      (p : ExecutionPayloadElectra)
      → P.electra_root p ≡ struct_root H T O P B 5 (deneb_payload_fields p)
  pub electra_body_lem :
      (b : BeaconBlockBodyElectra)
      → B.electra_body_root b ≡ struct_root H T O P B 4 (electra_body_fields b)
  pub electra_block_lem :
      (b : BeaconBlockElectra)
      → K.electra_block_root b ≡ struct_root H T O P B 3 (electra_block_fields b)

sizes :
    (next_power_of_two 5 ≡ 2 ^ 3)
    × (next_power_of_two 10 ≡ 2 ^ 4)
    × (next_power_of_two 11 ≡ 2 ^ 4)
    × (next_power_of_two 12 ≡ 2 ^ 4)
    × (next_power_of_two 13 ≡ 2 ^ 4)
unfolding next_power_of_two
sizes = (refl, refl, refl, refl, refl)

module _ (H : Hashing) where
  -- A branch of `d` nodes that leads from `leaf` to `root` at an index.
  abbrev pub Reaches : ℕ → ℕ → B256 → List B256 → B256 → Type 0
  Reaches d index leaf branch root = (length branch ≡ d) × (climb H index leaf branch ≡ root)

  -- Three branches on top of each other, at the indices 12, 9 and 4, with the marker bit of a generalized
  -- index above them.
  three_levels :
      (d : ℕ) (hash payload body block : B256) (a b c : List B256)
      → 12 < 2 ^ d
      → Reaches d 12 hash a payload
      → Reaches 4 9 payload b body
      → Reaches 3 4 body c block
      → Reaches (d + 7) (201 * 2 ^ d + 12) hash (a ++ (b ++ c)) block
  three_levels d hash payload body block a b c h (la, ra) (lb, rb) (lc, rc) = (
    omega (arith, length-append a (b ++ c), length-append b c),
    climb-split H 201 12 d hash a (b ++ c) la h
        ∙ ap (λ r. climb H 201 r (b ++ c)) ra
        ∙ climb-split H 12 9 4 payload b c lb (omega arith)
        ∙ ap (λ r. climb H 12 r c) rb
        ∙ ap (λ e. climb H (1 * 2 ^ e + 4) body c) (sym lc)
        ∙ climb-low H 1 4 body c
        ∙ rc,
  )

module _ (H : Hashing) (R : RootsHashing) (sound : IsSound H R) (T : TreeHash)
    (chunked : IsChunked T) (O : OperationHash) (P : PayloadHash) (B : BodyHash) (K : BlockHash)
    (derived : IsDerived H T O P B K) where
  to_root :
      (d index : ℕ) (leaves branch : List B256) (leaf root : B256)
      → Leads H R d index leaves leaf branch
      → root ≡ container_root H d leaves
      → Reaches H d index leaf branch root
  to_root d index leaves branch leaf root (l, r) e = (l, r ∙ sym e)

  pub bellatrix_in_block :
      (b : BeaconBlockBellatrix)
      → Reaches H 11 3228 b.body.execution_payload.block_hash
          (bellatrix_execution_block_hash_proof T O P B R b)
          (K.bellatrix_block_root b)
  unfolding bellatrix_execution_block_hash_proof bellatrix_execution_payload_proof
      bellatrix_body_root_proof bellatrix_leaves bellatrix_body_leaves bellatrix_block_leaves
  bellatrix_in_block b =
      let payload = b.body.execution_payload in
      let body_leaves = bellatrix_body_leaves T O P b.body in
      let block_leaves = bellatrix_block_leaves T B b in
      three_levels H 4 _ (P.bellatrix_root payload) (B.bellatrix_body_root b.body) _ _ _ _
        (omega arith)
        (to_root 4 12 (bellatrix_leaves T payload) _ _ _
          (payload_bellatrix_lem H R sound T chunked payload)
          (derived.bellatrix_payload_lem payload))
        (to_root 4 9 body_leaves _ _ _
          (build_merkle_proof_for_index_lem H R sound body_leaves 9 4 sizes.1 (omega arith)
            (omega arith) (omega arith))
          (derived.bellatrix_body_lem b.body))
        (to_root 3 4 block_leaves _ _ _
          (build_merkle_proof_for_index_lem H R sound block_leaves 4 3 sizes.0 (omega arith)
            (omega arith) (omega arith))
          (derived.bellatrix_block_lem b))

  pub capella_in_block :
      (b : BeaconBlockCapella)
      → Reaches H 11 3228 b.body.execution_payload.block_hash
          (capella_execution_block_hash_proof T O P B R b)
          (K.capella_block_root b)
  unfolding capella_execution_block_hash_proof capella_execution_payload_proof
      capella_body_root_proof capella_leaves capella_body_leaves capella_block_leaves
  capella_in_block b =
      let payload = b.body.execution_payload in
      let body_leaves = capella_body_leaves T O P b.body in
      let block_leaves = capella_block_leaves T B b in
      three_levels H 4 _ (P.capella_root payload) (B.capella_body_root b.body) _ _ _ _ (omega arith)
        (to_root 4 12 (capella_leaves T payload) _ _ _
          (payload_capella_lem H R sound T chunked payload) (derived.capella_payload_lem payload))
        (to_root 4 9 body_leaves _ _ _
          (build_merkle_proof_for_index_lem H R sound body_leaves 9 4 sizes.2 (omega arith)
            (omega arith) (omega arith))
          (derived.capella_body_lem b.body))
        (to_root 3 4 block_leaves _ _ _
          (build_merkle_proof_for_index_lem H R sound block_leaves 4 3 sizes.0 (omega arith)
            (omega arith) (omega arith))
          (derived.capella_block_lem b))

  pub deneb_in_block :
      (b : BeaconBlockDeneb)
      → Reaches H 12 6444 b.body.execution_payload.block_hash
          (deneb_execution_block_hash_proof T O P B R b)
          (K.deneb_block_root b)
  unfolding deneb_execution_block_hash_proof deneb_execution_payload_proof deneb_body_root_proof
      deneb_leaves deneb_body_leaves deneb_block_leaves
  deneb_in_block b =
      let payload = b.body.execution_payload in
      let body_leaves = deneb_body_leaves T O P b.body in
      let block_leaves = deneb_block_leaves T B b in
      three_levels H 5 _ (P.deneb_root payload) (B.deneb_body_root b.body) _ _ _ _ (omega arith)
        (to_root 5 12 (deneb_leaves T payload) _ _ _ (payload_deneb_lem H R sound T chunked payload)
          (derived.deneb_payload_lem payload))
        (to_root 4 9 body_leaves _ _ _
          (build_merkle_proof_for_index_lem H R sound body_leaves 9 4 sizes.3 (omega arith)
            (omega arith) (omega arith))
          (derived.deneb_body_lem b.body))
        (to_root 3 4 block_leaves _ _ _
          (build_merkle_proof_for_index_lem H R sound block_leaves 4 3 sizes.0 (omega arith)
            (omega arith) (omega arith))
          (derived.deneb_block_lem b))

  pub electra_in_block :
      (b : BeaconBlockElectra)
      → Reaches H 12 6444 b.body.execution_payload.block_hash
          (electra_execution_block_hash_proof T O P B R b)
          (K.electra_block_root b)
  unfolding electra_execution_block_hash_proof electra_execution_payload_proof
      electra_body_root_proof deneb_leaves electra_body_leaves electra_block_leaves
  electra_in_block b =
      let payload = b.body.execution_payload in
      let body_leaves = electra_body_leaves T O P b.body in
      let block_leaves = electra_block_leaves T B b in
      three_levels H 5 _ (P.electra_root payload) (B.electra_body_root b.body) _ _ _ _ (omega arith)
        (to_root 5 12 (deneb_leaves T payload) _ _ _
          (payload_electra_lem H R sound T chunked payload) (derived.electra_payload_lem payload))
        (to_root 4 9 body_leaves _ _ _
          (build_merkle_proof_for_index_lem H R sound body_leaves 9 4 sizes.4 (omega arith)
            (omega arith) (omega arith))
          (derived.electra_body_lem b.body))
        (to_root 3 4 block_leaves _ _ _
          (build_merkle_proof_for_index_lem H R sound block_leaves 4 3 sizes.0 (omega arith)
            (omega arith) (omega arith))
          (derived.electra_block_lem b))

  -- In each fork the concatenated proof leads from the execution block hash to the hash tree root of the
  -- beacon block: with 11 nodes at the generalized index 3228 in Bellatrix and Capella, and with 12 nodes
  -- at 6444 in Deneb and Electra.
  pub build_execution_block_hash_proof_lem :
      (b : BeaconBlockBellatrix) (c : BeaconBlockCapella) (d : BeaconBlockDeneb)
      (e : BeaconBlockElectra)
      → Reaches H 11 3228 b.body.execution_payload.block_hash
          (bellatrix_execution_block_hash_proof T O P B R b)
          (K.bellatrix_block_root b)
        × Reaches H 11 3228 c.body.execution_payload.block_hash
            (capella_execution_block_hash_proof T O P B R c)
            (K.capella_block_root c)
        × Reaches H 12 6444 d.body.execution_payload.block_hash
            (deneb_execution_block_hash_proof T O P B R d)
            (K.deneb_block_root d)
        × Reaches H 12 6444 e.body.execution_payload.block_hash
            (electra_execution_block_hash_proof T O P B R e)
            (K.electra_block_root e)
  build_execution_block_hash_proof_lem b c d e =
      (bellatrix_in_block b, capella_in_block c, deneb_in_block d, electra_in_block e)
