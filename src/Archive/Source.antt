-- ===== src/Archive/Source.antt =====
-- `EpochProvider`, `FilesystemEpochProvider` and `ArchiveRpcSource` of src/sources/archive_rpc.rs. The file
-- system and the HTTP client are parameters, and so is what the sources call of the crates.
use Prim.Native.String.{◌++◌ as ◌<+>◌}
use eth_historian.Base.{
  ℕ, String, leb, if◌then◌else◌, Option, none, some, display, display_int, ℤ, lower_hex, Outcome,
  ok, err, ok_or, map_err, ◌>>=◌, Bytes, B256,
}
use eth_historian.Errors.{Error, data_source, block_not_found}
use eth_historian.Merkle.Hashing.{Hashing}
use eth_historian.Types.Network.{mainnet_paris_block, slot_for_execution_timestamp}
use eth_historian.Types.Header.{
  Header, BlockHeaderProof, historical_hashes, historical_roots, historical_summaries_capella,
  historical_summaries_deneb,
}
use eth_historian.Types.Encode.{SszEncode, as_ssz_bytes}
use eth_historian.Api.{DataSource}
use eth_historian.ProofConstruction.{
  EpochAccumulator, decode_epoch_accumulator, epoch_index_of_block, construct_pre_merge_proof,
}
use eth_historian.Beacon.{RootsHashing, HistoricalBatch}
use eth_historian.Beacon.Payload.{TreeHash}
use eth_historian.Beacon.Body.{OperationHash, PayloadHash}
use eth_historian.Beacon.Block.{
  BodyHash, SignedBeaconBlock, signed_bellatrix, signed_capella, signed_deneb, signed_electra,
}
use eth_historian.Beacon.InBlock.{BlockHash}
use eth_historian.Beacon.Builders.{
  build_historical_roots_proof, build_capella_historical_summaries_proof,
  build_deneb_historical_summaries_proof, build_electra_historical_summaries_proof,
}
use eth_historian.Beacon.Provider.{BeaconDataProvider}
use eth_historian.Archive.RawBlock.{RawBlock, raw_block_to_alloy_header}

pub record EpochProvider : Type 0 where
  pub get_epoch_accumulator : ℕ → Outcome Error EpochAccumulator

-- `std::fs::read` of a file in the directory of the provider.
pub record FilesystemEpochProvider : Type 0 where
  pub read : String → Outcome String Bytes

-- The message leaves out the path and the reason.
unfoldable pub get_epoch_accumulator :
    (Bytes → Outcome String EpochAccumulator)
    → FilesystemEpochProvider
    → ℕ
    → Outcome Error EpochAccumulator
unfolding decode_epoch_accumulator
get_epoch_accumulator from_ssz_bytes provider epoch_index = do
  bytes ←
      map_err (λ _. data_source "no EpochAccumulator")
        (provider.read ("epoch_" <+> display epoch_index <+> ".bin"))
  decode_epoch_accumulator from_ssz_bytes bytes

pub record JsonRpcError : Type 0 where
  pub code : ℤ
  pub message : String

pub record JsonRpcResponse : Type 0 where
  pub result : Option RawBlock
  pub error : Option JsonRpcError

pub record ArchiveRpcSource : Type 0 where
  -- The POST of `eth_getBlockByNumber` with a block number, and its parsed answer.
  pub post : String → Outcome Error JsonRpcResponse
  pub epoch_provider : Option EpochProvider
  pub beacon_provider : Option BeaconDataProvider

unfoldable pub new : (String → Outcome Error JsonRpcResponse) → ArchiveRpcSource
new post = record { post = post; epoch_provider = none; beacon_provider = none }

unfoldable pub with_epoch_provider : ArchiveRpcSource → EpochProvider → ArchiveRpcSource
with_epoch_provider s provider = record s { epoch_provider = some provider }

unfoldable pub with_beacon_provider : ArchiveRpcSource → BeaconDataProvider → ArchiveRpcSource
with_beacon_provider s provider = record s { beacon_provider = some provider }

unfoldable pub fetch_raw_block_by_number : ArchiveRpcSource → ℕ → Outcome Error RawBlock
fetch_raw_block_by_number s block_number = do
  parsed ← s.post ("0x" <+> lower_hex block_number)
  elim parsed.error [
    | some failure ↦ err (
        data_source (
          "RPC eth_getBlockByNumber error "
          <+> display_int failure.code
          <+> ": "
          <+> failure.message))
    | none ↦ ok_or parsed.result (block_not_found block_number)
  ]

module _ (R : RootsHashing) (T : TreeHash) (O : OperationHash) (P : PayloadHash) (B : BodyHash)
    (K : BlockHash) where
  -- The proof by the fork of the block.
  unfoldable pub post_merge_proof :
      ℕ → HistoricalBatch → SignedBeaconBlock → Outcome Error BlockHeaderProof
  unfolding build_historical_roots_proof build_capella_historical_summaries_proof
      build_deneb_historical_summaries_proof build_electra_historical_summaries_proof
  post_merge_proof slot batch (signed_bellatrix b) = do
    p ← build_historical_roots_proof R T O P B K slot batch b.message
    ok (historical_roots p)
  post_merge_proof slot batch (signed_capella b) = do
    p ← build_capella_historical_summaries_proof R T O P B K slot batch.block_roots b.message
    ok (historical_summaries_capella p)
  post_merge_proof slot batch (signed_deneb b) = do
    p ← build_deneb_historical_summaries_proof R T O P B K slot batch.block_roots b.message
    ok (historical_summaries_deneb p)
  post_merge_proof slot batch (signed_electra b) = do
    p ← build_electra_historical_summaries_proof R T O P B K slot batch.block_roots b.message
    ok (historical_summaries_deneb p)

  unfoldable pub build_post_merge_hwp : SszEncode → ArchiveRpcSource → Header → Outcome Error Bytes
  unfolding post_merge_proof slot_for_execution_timestamp as_ssz_bytes
  build_post_merge_hwp E s header = do
    provider ← ok_or s.beacon_provider (
        data_source
          "ArchiveRpcSource: post-merge block requested but no BeaconDataProvider configured. Call .with_beacon_provider(..)")
    slot ← ok_or (slot_for_execution_timestamp header.timestamp) (
        data_source (
          "post-merge block "
          <+> display header.number
          <+> " has timestamp "
          <+> display header.timestamp
          <+> " before beacon genesis (mainnet only is supported)"))
    signed_block ← provider.fetch_signed_beacon_block slot
    historical_batch ← provider.fetch_historical_batch slot
    proof ← post_merge_proof slot historical_batch signed_block
    ok (as_ssz_bytes E (record { header = header; proof = proof }))

  unfoldable pub fetch_header_with_proof_by_number :
      Hashing
      → (Header → B256)
      → (String → Outcome String Bytes)
      → SszEncode
      → ArchiveRpcSource
      → ℕ
      → Outcome Error Bytes
  unfolding fetch_raw_block_by_number raw_block_to_alloy_header build_post_merge_hwp
      construct_pre_merge_proof epoch_index_of_block as_ssz_bytes
  fetch_header_with_proof_by_number H hash_slow decode E s block_number = do
    raw ← fetch_raw_block_by_number s block_number
    header ← raw_block_to_alloy_header decode raw
    if leb mainnet_paris_block header.number then build_post_merge_hwp E s header else do
      provider ← ok_or s.epoch_provider (
          data_source
            "ArchiveRpcSource: pre-merge block requested but no EpochProvider configured. Call .with_epoch_provider(..)")
      epoch_acc ← provider.get_epoch_accumulator (epoch_index_of_block header.number)
      proof ← construct_pre_merge_proof H hash_slow header epoch_acc
      ok (as_ssz_bytes E (record { header = header; proof = historical_hashes proof }))

  -- `ArchiveRpcSource` as a data source; it looks nothing up by hash.
  unfoldable pub archive_data_source :
      Hashing
      → (Header → B256)
      → (String → Outcome String Bytes)
      → SszEncode
      → ArchiveRpcSource
      → DataSource
  unfolding fetch_header_with_proof_by_number
  archive_data_source H hash_slow decode E s = record {
    fetch_header_with_proof_by_number = fetch_header_with_proof_by_number H hash_slow decode E s;
    fetch_header_with_proof_by_hash = λ hash. err (
        data_source
          "ArchiveRpcSource: lookup by hash not implemented (use eth_getBlockByHash if added)");
    name = "archive-rpc";
  }
