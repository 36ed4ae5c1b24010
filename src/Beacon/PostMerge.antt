-- ===== src/Beacon/PostMerge.antt =====
-- The proofs of header_with_proof.rs (src/portal_types/execution) against the validator
-- (src/header_validator.rs): a header whose hash is in the beacon block at its slot is accepted.
use eth_historian.Base.{
  ℕ, ◌-◌, ◌/◌, ◌+◌, ◌*◌, ◌%◌, ◌≤◌, ◌<◌, ◌≡◌, refl, sym, ap, ◌∙◌, subst, List, ==_iff, some, ok,
  length, get_elem?, get_or, B256, arith,
}
use eth_historian.Merkle.Hashing.{Hashing, IsLawful}
use eth_historian.Merkle.Climb.{climb}
use eth_historian.Types.Network.{
  mainnet_paris_block, mainnet_shanghai_timestamp, mainnet_cancun_timestamp,
}
use eth_historian.Types.Header.{
  Header, HeaderWithProof, BlockProofHistoricalRoots, BlockProofHistoricalSummariesCapella,
  BlockProofHistoricalSummariesDeneb, historical_roots, historical_summaries_capella,
  historical_summaries_deneb, IsSized,
}
use eth_historian.Types.Summaries.{HistoricalSummary, capella_slot}
use eth_historian.Validator.{HeaderValidator, validate_header_with_proof}
use eth_historian.Validator.Accept.{
  IsAuthentic, InSummaries, summaries_iff, validate_header_with_proof_iff,
}
use eth_historian.Beacon.{
  RootsHashing, IsSound, zero_chunk, HistoricalBatch, build_merkle_proof_for_index,
}
use eth_historian.Beacon.Accepted.{
  period_branch, batch_branch, full_proof, verify-build_merkle_proof_for_index,
}
use eth_historian.Beacon.Payload.{TreeHash, IsChunked}
use eth_historian.Beacon.Body.{OperationHash, PayloadHash}
use eth_historian.Beacon.Block.{
  BeaconBlockBellatrix, BeaconBlockCapella, BeaconBlockDeneb, BeaconBlockElectra, BodyHash,
  bellatrix_execution_block_hash_proof, capella_execution_block_hash_proof,
  deneb_execution_block_hash_proof, electra_execution_block_hash_proof,
}
use eth_historian.Beacon.InBlock.{
  BlockHash, IsDerived, bellatrix_in_block, capella_in_block, deneb_in_block, electra_in_block,
}
use eth_historian.Beacon.Builders.{
  fixed_vector, build_historical_roots_proof, build_capella_historical_summaries_proof,
  build_deneb_historical_summaries_proof, build_electra_historical_summaries_proof,
}

fits_vector :
    {E : Type 0} (n : ℕ) (xs : List B256) → length xs ≡ n → fixed_vector {E = E} n xs ≡ ok xs
fits_vector n xs l = rw ((==_iff _ _).1 l) refl

module _ (H : Hashing) (lawful : IsLawful H) (R : RootsHashing) (sound : IsSound H R) (T : TreeHash)
    (chunked : IsChunked T) (O : OperationHash) (P : PayloadHash) (B : BodyHash) (K : BlockHash)
    (derived : IsDerived H T O P B K) (hash_slow : Header → B256) (v : HeaderValidator) where
  -- The validator's table has the summary of the roots of the slot's period, and the block's root is the
  -- one at the slot.
  abbrev pub IsSummarized : ℕ → List B256 → B256 → Type 0
  IsSummarized slot roots block_root =
      (length roots ≡ 8192)
      × (capella_slot ≤ slot)
      × (get_or roots (slot % 8192) zero_chunk ≡ block_root)
      × ((s : HistoricalSummary) × (get_elem? v.historical_summaries_provider.summaries
              ((slot - capella_slot) / 8192)
            ≡ some s)
          × (s.block_summary_root ≡ R.tree_hash_root roots))

  -- The branches have the lengths of the proof's type, and the validator accepts.
  abbrev pub Accepts : HeaderWithProof → Type 0
  Accepts hwp = IsSized hwp.proof × (validate_header_with_proof H hash_slow v hwp ≡ ok tt)

  accepted :
      (hwp : HeaderWithProof)
      → IsSized hwp.proof
      → IsAuthentic H hash_slow v hwp.header hwp.proof
      → Accepts hwp
  accepted hwp size authentic =
      (size, (validate_header_with_proof_iff H lawful hash_slow v hwp size).1 authentic)

  -- From a Bellatrix block, the validator accepts the header of its execution payload with the proof that
  -- `build_historical_roots_proof` returns, which does not panic: if the header lies between Paris and
  -- Shanghai, its hash is the payload's block hash, the batch has 8192 block roots with the block's own
  -- at the slot, and the table of historical roots has the batch's root at the slot's period.
  pub validate-build_historical_roots_proof :
      {E : Type 0} (header : Header) (slot : ℕ) (batch : HistoricalBatch)
      (block : BeaconBlockBellatrix)
      → mainnet_paris_block ≤ header.number
      → header.timestamp < mainnet_shanghai_timestamp
      → hash_slow header ≡ block.body.execution_payload.block_hash
      → length batch.block_roots ≡ 8192
      → get_or batch.block_roots (slot % 8192) zero_chunk ≡ K.bellatrix_block_root block
      → get_elem? v.historical_roots_acc.historical_roots (slot / 8192)
        ≡ some (
            H.hash32_concat
              (R.tree_hash_root batch.block_roots)
              (R.tree_hash_root batch.state_roots))
      → (p : BlockProofHistoricalRoots) × (build_historical_roots_proof R T O P B K {E = E} slot
            batch block
          ≡ ok p)
        × Accepts (record { header = header; proof = historical_roots p })
  unfolding build_historical_roots_proof
  validate-build_historical_roots_proof {E} header slot batch block paris shanghai hash l root
        found =
      let (built, size, climbs) = full_proof H R sound {E = E} batch slot l in
      let (size', inside) = bellatrix_in_block H R sound T chunked O P B K derived block in
      (
        _,
        rw (built, fits_vector {E = E} 14 _ size, fits_vector {E = E} 11 _ size') refl,
        accepted _ (size, size')
            (
              paris,
              shanghai,
              ap (λ h. climb H 3228 h (bellatrix_execution_block_hash_proof T O P B R block)) hash
                  ∙ inside,
              (
                _,
                found,
                ap (λ r. climb H (2 * 8192 + slot % 8192) r (batch_branch R batch slot)) (sym root)
                    ∙ climbs,
              ),
            ),
      )

  summarized :
      (slot : ℕ) (roots : List B256) (block_root : B256)
      → IsSummarized slot roots block_root
      → (length (build_merkle_proof_for_index R roots (slot % 8192)) ≡ 13)
        × InSummaries H hash_slow v slot block_root
            (build_merkle_proof_for_index R roots (slot % 8192))
  summarized slot roots block_root (l, from, root, (s, found, same)) =
      let size = (period_branch H R sound roots (slot % 8192) l (omega arith)).0 in
      let accepted =
        verify-build_merkle_proof_for_index H lawful R sound hash_slow v roots slot s l from found
          same in
      (
        size,
        subst
            (λ r.
              InSummaries H hash_slow v slot r (build_merkle_proof_for_index R roots (slot % 8192)))
            root ((summaries_iff H lawful hash_slow v slot _ _ size).0 accepted),
      )

  -- From a Capella block, the validator accepts the header of its execution payload with the proof that
  -- `build_capella_historical_summaries_proof` returns, which does not panic: if the header lies between Shanghai and Cancun,
  -- its hash is the payload's block hash, the 8192 block roots of the slot's period have the
  -- block's own at the slot, and the summary of that period has their root.
  pub validate-build_capella_historical_summaries_proof :
      {E : Type 0} (header : Header) (slot : ℕ) (roots : List B256) (block : BeaconBlockCapella)
      → mainnet_shanghai_timestamp ≤ header.timestamp
      → header.timestamp < mainnet_cancun_timestamp
      → hash_slow header ≡ block.body.execution_payload.block_hash
      → IsSummarized slot roots (K.capella_block_root block)
      → (p : BlockProofHistoricalSummariesCapella) × (build_capella_historical_summaries_proof R T O
            P B K {E = E} slot roots block
          ≡ ok p)
        × Accepts (record { header = header; proof = historical_summaries_capella p })
  unfolding build_capella_historical_summaries_proof
  validate-build_capella_historical_summaries_proof {E} header slot roots block since before hash
        known =
      let (size, covered) = summarized slot roots (K.capella_block_root block) known in
      let (size', inside) = capella_in_block H R sound T chunked O P B K derived block in
      (
        _,
        rw (fits_vector {E = E} 13 _ size, fits_vector {E = E} 11 _ size') refl,
        accepted _ (size, size')
            (
              since,
              before,
              ap (λ h. climb H 3228 h (capella_execution_block_hash_proof T O P B R block)) hash
                  ∙ inside,
              covered,
            ),
      )

  -- From a Deneb block, the validator accepts the header of its execution payload with the proof that
  -- `build_deneb_historical_summaries_proof` returns, which does not panic: if the header lies at Cancun or later,
  -- its hash is the payload's block hash, the 8192 block roots of the slot's period have the
  -- block's own at the slot, and the summary of that period has their root.
  pub validate-build_deneb_historical_summaries_proof :
      {E : Type 0} (header : Header) (slot : ℕ) (roots : List B256) (block : BeaconBlockDeneb)
      → mainnet_cancun_timestamp ≤ header.timestamp
      → hash_slow header ≡ block.body.execution_payload.block_hash
      → IsSummarized slot roots (K.deneb_block_root block)
      → (p : BlockProofHistoricalSummariesDeneb) × (build_deneb_historical_summaries_proof R T O P B
            K {E = E} slot roots block
          ≡ ok p)
        × Accepts (record { header = header; proof = historical_summaries_deneb p })
  unfolding build_deneb_historical_summaries_proof
  validate-build_deneb_historical_summaries_proof {E} header slot roots block since hash known =
      let (size, covered) = summarized slot roots (K.deneb_block_root block) known in
      let (size', inside) = deneb_in_block H R sound T chunked O P B K derived block in
      (
        _,
        rw (fits_vector {E = E} 13 _ size, fits_vector {E = E} 12 _ size') refl,
        accepted _ (size, size')
            (
              since,
              ap (λ h. climb H 6444 h (deneb_execution_block_hash_proof T O P B R block)) hash
                  ∙ inside,
              covered,
            ),
      )

  -- From an Electra block, the validator accepts the header of its execution payload with the proof that
  -- `build_electra_historical_summaries_proof` returns, which does not panic: if the header lies at Cancun or later,
  -- its hash is the payload's block hash, the 8192 block roots of the slot's period have the
  -- block's own at the slot, and the summary of that period has their root.
  validate-build_electra_historical_summaries_proof :
      {E : Type 0} (header : Header) (slot : ℕ) (roots : List B256) (block : BeaconBlockElectra)
      → mainnet_cancun_timestamp ≤ header.timestamp
      → hash_slow header ≡ block.body.execution_payload.block_hash
      → IsSummarized slot roots (K.electra_block_root block)
      → (p : BlockProofHistoricalSummariesDeneb) × (build_electra_historical_summaries_proof R T O P
            B K {E = E} slot roots block
          ≡ ok p)
        × Accepts (record { header = header; proof = historical_summaries_deneb p })
  unfolding build_electra_historical_summaries_proof
  validate-build_electra_historical_summaries_proof {E} header slot roots block since hash known =
      let (size, covered) = summarized slot roots (K.electra_block_root block) known in
      let (size', inside) = electra_in_block H R sound T chunked O P B K derived block in
      (
        _,
        rw (fits_vector {E = E} 13 _ size, fits_vector {E = E} 12 _ size') refl,
        accepted _ (size, size')
            (
              since,
              ap (λ h. climb H 6444 h (electra_execution_block_hash_proof T O P B R block)) hash
                  ∙ inside,
              covered,
            ),
      )
