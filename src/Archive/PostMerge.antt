-- ===== src/Archive/PostMerge.antt =====
-- `Verifier::verify_block_by_number` (src/api.rs) on an `ArchiveRpcSource` (src/sources/archive_rpc.rs) with a
-- beacon provider: post-merge blocks.
use eth_historian.Base.{
  ℕ, ◌/◌, ◌%◌, ◌≤◌, ◌<◌, ◌≡◌, refl, ap, ◌∙◌, List, ◌∷◌, ◌++◌, String, le→leb, some, Outcome, ok,
  length, get_elem?, get_or, B256, Bytes,
}
use eth_historian.Errors.{Error}
use eth_historian.Merkle.Hashing.{Hashing, IsLawful}
use eth_historian.Types.Network.{
  mainnet_paris_block, mainnet_shanghai_timestamp, mainnet_cancun_timestamp,
  slot_for_execution_timestamp,
}
use eth_historian.Types.Header.{
  Header, BlockHeaderProof, historical_roots, historical_summaries_capella,
  historical_summaries_deneb, IsSized,
}
use eth_historian.Types.Codec.{Ssz}
use eth_historian.Types.Decode.{IsInEra}
use eth_historian.Types.Encode.{SszEncode, as_ssz_bytes, ReadsBack}
use eth_historian.Validator.{validate_header_with_proof}
use eth_historian.Api.{
  AuthPath, DataSource, Verifier, auth_path_for, try_by_number, verify_block_by_number,
}
use eth_historian.Api.Sources.{AllFail}
use eth_historian.Api.Fallback.{verify_block_by_number_iff}
use eth_historian.Beacon.{RootsHashing, IsSound, zero_chunk, HistoricalBatch}
use eth_historian.Beacon.Payload.{TreeHash, IsChunked}
use eth_historian.Beacon.Body.{OperationHash, PayloadHash}
use eth_historian.Beacon.Block.{
  BodyHash, SignedBeaconBlock, signed_bellatrix, signed_capella, signed_deneb, signed_electra,
}
use eth_historian.Beacon.InBlock.{BlockHash, IsDerived}
use eth_historian.Beacon.PostMerge.{
  IsSummarized, validate-build_historical_roots_proof,
  validate-build_capella_historical_summaries_proof,
  validate-build_deneb_historical_summaries_proof,
}
use eth_historian.Beacon.Provider.{BeaconDataProvider}
use eth_historian.Archive.Source.{
  ArchiveRpcSource, post_merge_proof, build_post_merge_hwp, fetch_header_with_proof_by_number,
  archive_data_source,
}
use eth_historian.Archive.Verified.{Answers, fetched_raw, verified_answer}

-- The path that belongs to a fork.
abbrev pub auth_path_of : SignedBeaconBlock → AuthPath
auth_path_of (signed_bellatrix b) = AuthPath.historical_roots
auth_path_of (signed_capella b) = AuthPath.historical_summaries_capella
auth_path_of (signed_deneb b) = AuthPath.historical_summaries_deneb
auth_path_of (signed_electra b) = AuthPath.historical_summaries_deneb

-- The beacon provider answers for the slot of the header's timestamp.
abbrev pub IsServed : ArchiveRpcSource → Header → ℕ → SignedBeaconBlock → HistoricalBatch → Type 0
IsServed s header slot block batch =
    (provider : BeaconDataProvider) × (s.beacon_provider ≡ some provider)
    × (slot_for_execution_timestamp header.timestamp ≡ some slot)
    × (provider.fetch_signed_beacon_block slot ≡ ok block)
    × (provider.fetch_historical_batch slot ≡ ok batch)

module _ (H : Hashing) (lawful : IsLawful H) (R : RootsHashing) (sound : IsSound H R) (T : TreeHash)
    (chunked : IsChunked T) (O : OperationHash) (P : PayloadHash) (B : BodyHash) (K : BlockHash)
    (derived : IsDerived H T O P B K) (hash_slow : Header → B256) (v : Verifier) where
  -- The header is that of the block's execution payload, in the era of the block's fork; the batch has the
  -- block's root at the slot, and the verifier's tables have the batch's root. Blocks of Electra are left
  -- out: the header that this source makes of them lacks the hash of the requests, and so has
  -- another hash than the block.
  abbrev pub IsProvable : Header → ℕ → HistoricalBatch → SignedBeaconBlock → Type 0
  IsProvable header slot batch (signed_bellatrix b) =
      (header.timestamp < mainnet_shanghai_timestamp)
      × (hash_slow header ≡ b.message.body.execution_payload.block_hash)
      × (length batch.block_roots ≡ 8192)
      × (get_or batch.block_roots (slot % 8192) zero_chunk ≡ K.bellatrix_block_root b.message)
      × (get_elem? v.validator.historical_roots_acc.historical_roots (slot / 8192)
          ≡ some (
              H.hash32_concat (R.tree_hash_root batch.block_roots)
                (R.tree_hash_root batch.state_roots)))
  IsProvable header slot batch (signed_capella b) =
      (mainnet_shanghai_timestamp ≤ header.timestamp)
      × (header.timestamp < mainnet_cancun_timestamp)
      × (hash_slow header ≡ b.message.body.execution_payload.block_hash)
      × IsSummarized H lawful R sound T chunked O P B K derived hash_slow v.validator slot
          batch.block_roots (K.capella_block_root b.message)
  IsProvable header slot batch (signed_deneb b) =
      (mainnet_cancun_timestamp ≤ header.timestamp)
      × (hash_slow header ≡ b.message.body.execution_payload.block_hash)
      × IsSummarized H lawful R sound T chunked O P B K derived hash_slow v.validator slot
          batch.block_roots (K.deneb_block_root b.message)
  IsProvable header slot batch (signed_electra b) = ⊥

  -- A proof that the code builds and the validator accepts.
  abbrev Proves : Header → ℕ → HistoricalBatch → SignedBeaconBlock → Type 0
  Proves header slot batch block =
      (p : BlockHeaderProof) × (post_merge_proof R T O P B K slot batch block ≡ ok p)
      × IsSized p
      × IsInEra header p
      × (auth_path_for p ≡ auth_path_of block)
      × (validate_header_with_proof H hash_slow v.validator (record { header = header; proof = p })
          ≡ ok tt)

  proves :
      (header : Header) (slot : ℕ) (batch : HistoricalBatch) (block : SignedBeaconBlock)
      → mainnet_paris_block ≤ header.number
      → IsProvable header slot batch block
      → Proves header slot batch block
  unfolding post_merge_proof auth_path_for
  proves header slot batch (signed_bellatrix b) paris (shanghai, hash, l, root, found) =
      let (p, built, (size, valid)) =
        validate-build_historical_roots_proof H lawful R sound T chunked O P B K derived hash_slow
          v.validator {E = Error} header slot batch b.message paris shanghai hash l root found in
      (historical_roots p, rw built refl, size, (paris, shanghai), refl, valid)
  proves header slot batch (signed_capella b) paris (shanghai, cancun, hash, known) =
      let (p, built, (size, valid)) =
        validate-build_capella_historical_summaries_proof H lawful R sound T chunked O P B K derived
          hash_slow v.validator {E = Error} header slot batch.block_roots b.message shanghai cancun
          hash known in
      (historical_summaries_capella p, rw built refl, size, (shanghai, cancun), refl, valid)
  proves header slot batch (signed_deneb b) paris (cancun, hash, known) =
      let (p, built, (size, valid)) =
        validate-build_deneb_historical_summaries_proof H lawful R sound T chunked O P B K derived
          hash_slow v.validator {E = Error} header slot batch.block_roots b.message cancun hash
          known in
      (historical_summaries_deneb p, rw built refl, size, cancun, refl, valid)
  proves header slot batch (signed_electra b) paris none_known = absurd none_known

  module _ (decode : String → Outcome String Bytes) (S : Ssz) (E : SszEncode) where
    abbrev pub beacon_backed : ArchiveRpcSource → DataSource
    beacon_backed s = archive_data_source R T O P B K H hash_slow decode E s

    built_hwp :
        (s : ArchiveRpcSource) (header : Header) (slot : ℕ) (block : SignedBeaconBlock)
        (batch : HistoricalBatch) (p : BlockHeaderProof)
        → IsServed s header slot block batch
        → post_merge_proof R T O P B K slot batch block ≡ ok p
        → build_post_merge_hwp R T O P B K E s header
          ≡ ok (as_ssz_bytes E (record { header = header; proof = p }))
    unfolding build_post_merge_hwp
    built_hwp s header slot block batch p (provider, configured, time, block_given, batch_given)
          built =
        rw (configured, time, block_given, batch_given, built) refl

    fetched_post_merge :
        (s : ArchiveRpcSource) (n : ℕ) (header : Header) (slot : ℕ) (block : SignedBeaconBlock)
        (batch : HistoricalBatch) (p : BlockHeaderProof)
        → Answers decode s n header
        → mainnet_paris_block ≤ header.number
        → IsServed s header slot block batch
        → post_merge_proof R T O P B K slot batch block ≡ ok p
        → fetch_header_with_proof_by_number R T O P B K H hash_slow decode E s n
          ≡ ok (as_ssz_bytes E (record { header = header; proof = p }))
    unfolding fetch_header_with_proof_by_number
    fetched_post_merge s n header slot block batch p (raw, posted, parsed, number) paris served
          built =
        rw (fetched_raw s n raw posted, parsed, le→leb mainnet_paris_block header.number paris)
          (built_hwp s header slot block batch p served built)

    -- A block of Bellatrix, Capella or Deneb that an archive RPC answers for is verified, by the path of the
    -- fork of its beacon block: if the sources before it end in errors, the beacon provider has the block
    -- and the batch of roots at the slot of the header's timestamp, the header is that of the block's
    -- payload in its fork's era, the verifier's tables have the batch's root, and the header and the
    -- proof are read back from their encoding.
    pub verify_block_by_number-post_merge :
        (n : ℕ) (before after : List DataSource) (s : ArchiveRpcSource) (header : Header) (slot : ℕ)
        (block : SignedBeaconBlock) (batch : HistoricalBatch)
        → v.data_sources ≡ before ++ beacon_backed s ∷ after
        → AllFail (try_by_number H hash_slow S v n) before
        → Answers decode s n header
        → mainnet_paris_block ≤ header.number
        → IsServed s header slot block batch
        → IsProvable header slot batch block
        → ((p : BlockHeaderProof)
            → post_merge_proof R T O P B K slot batch block ≡ ok p
            → ReadsBack S E (record { header = header; proof = p }))
        → verify_block_by_number H hash_slow S v n
          ≡ ok (record { header = header; auth_path = auth_path_of block })
    unfolding archive_data_source
    verify_block_by_number-post_merge n before after s header slot block batch at failed answers
          paris served provable reads =
        let (p, built, sized, era, path, valid) = proves header slot batch block paris provable in
        (verify_block_by_number_iff H hash_slow S v n _).1 (
          before,
          beacon_backed s,
          after,
          at,
          failed,
          verified_answer H hash_slow S E v n (beacon_backed s)
                (record { header = header; proof = p })
                (fetched_post_merge s n header slot block batch p answers paris served built)
                answers.3 era (reads p built) valid
              ∙ ap (λ path. ok (record { header = header; auth_path = path })) path,
        )
