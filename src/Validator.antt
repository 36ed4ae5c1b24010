-- ===== src/Validator.antt =====
-- src/header_validator.rs, with the embedded accumulators of src/accumulator.rs and
-- src/historical_roots_acc.rs. The children prove what the validator accepts and when it panics.
mod Steps
mod Calm
pub mod Accept
pub mod Unique
pub mod Panics
use eth_historian.Base.{
  ℕ, ◌+◌, ◌*◌, ◌/◌, ◌%◌, List, String, Bool, true, false, not, Outcome, ok, err, panic, unwrap,
  ◌>>=◌, ◌>>◌, length, get_elem?, B256,
}
use eth_historian.Merkle.Hashing.{Hashing}
use eth_historian.Merkle.Verify.{verify_merkle_proof}
use eth_historian.Types.Network.{
  slots_per_historical_root, is_paris_active_at_block, is_shanghai_active_at_timestamp,
  is_cancun_active_at_timestamp,
}
use eth_historian.Types.Header.{
  Header, HeaderWithProof, BlockHeaderProof, BlockProofHistoricalRoots,
  BlockProofHistoricalSummariesCapella, BlockProofHistoricalSummariesDeneb, historical_hashes,
  historical_roots, historical_summaries_capella, historical_summaries_deneb,
}
use eth_historian.Types.Summaries.{
  HistoricalSummary, HistoricalSummariesProvider, SummaryError, get_historical_summary, new,
}

pub record PreMergeAccumulator : Type 0 where
  pub historical_epochs : List B256

unfoldable pub get_epoch_index_of_header : Header → ℕ
get_epoch_index_of_header header = header.number / slots_per_historical_root

pub record HistoricalRootsAccumulator : Type 0 where
  pub historical_roots : List B256

pub record HeaderValidator : Type 0 where
  pub pre_merge_acc : PreMergeAccumulator
  pub historical_roots_acc : HistoricalRootsAccumulator
  pub historical_summaries_provider : HistoricalSummariesProvider

-- The two accumulators are decoded from the embedded files.
unfoldable pub new_with_historical_summaries :
    PreMergeAccumulator → HistoricalRootsAccumulator → List HistoricalSummary → HeaderValidator
unfolding new
new_with_historical_summaries pre_merge_acc historical_roots_acc summaries = record {
  pre_merge_acc = pre_merge_acc;
  historical_roots_acc = historical_roots_acc;
  historical_summaries_provider = new summaries;
}

-- `if !test { bail!(message) }`, and `if test { bail!(message) }` with `not`.
abbrev pub ensure : Bool → String → Outcome String Unit
ensure true message = ok tt
ensure false message = err message

-- `let Ok(s) = r else { return false }`.
abbrev pub or_false :
    {E : Type 0}
    → Outcome SummaryError HistoricalSummary
    → (HistoricalSummary → Outcome E Bool)
    → Outcome E Bool
or_false (ok s) k = k s
or_false (err e) k = ok false
or_false panic k = panic

module _ (H : Hashing) (hash_slow : Header → B256) where
  unfoldable pub verify_pre_merge_header :
      HeaderValidator → Header → List B256 → Outcome String Unit
  unfolding is_paris_active_at_block get_epoch_index_of_header
  verify_pre_merge_header v header proof = do
    ensure (not (is_paris_active_at_block header.number))
        "Invalid proof type found for post-merge header."
    let header_index = header.number % slots_per_historical_root
    let gen_index = slots_per_historical_root * 2 * 2 + header_index * 2
    let epoch_index = get_epoch_index_of_header header
    epoch_hash ← unwrap (get_elem? v.pre_merge_acc.historical_epochs epoch_index)
    good ← verify_merkle_proof H (hash_slow header) proof 15 gen_index epoch_hash
    ensure good "Execution block proof verification failed for pre-Merge header"

  unfoldable pub verify_bellatrix_to_deneb_execution_block_proof :
      B256 → List B256 → B256 → Outcome String Bool
  verify_bellatrix_to_deneb_execution_block_proof execution_header_hash execution_block_proof
        block_body_root =
      verify_merkle_proof H execution_header_hash execution_block_proof
        (length execution_block_proof) 3228 block_body_root

  unfoldable pub verify_post_deneb_execution_block_proof :
      B256 → List B256 → B256 → Outcome String Bool
  verify_post_deneb_execution_block_proof execution_header_hash execution_block_proof
        block_body_root =
      verify_merkle_proof H execution_header_hash execution_block_proof
        (length execution_block_proof) 6444 block_body_root

  unfoldable pub verify_historical_roots_beacon_block_proof :
      HeaderValidator → ℕ → B256 → List B256 → Outcome String Bool
  verify_historical_roots_beacon_block_proof v slot beacon_block_root beacon_block_proof = do
    let block_root_index = slot % slots_per_historical_root
    let gen_index = 2 * slots_per_historical_root + block_root_index
    let historical_root_index = slot / slots_per_historical_root
    historical_root ←
        unwrap (get_elem? v.historical_roots_acc.historical_roots historical_root_index)
    verify_merkle_proof H beacon_block_root beacon_block_proof 14 gen_index historical_root

  unfoldable pub verify_historical_summaries_beacon_block_proof :
      HeaderValidator → ℕ → B256 → List B256 → Outcome String Bool
  unfolding get_historical_summary
  verify_historical_summaries_beacon_block_proof v slot beacon_block_root beacon_block_proof =
      or_false (get_historical_summary v.historical_summaries_provider slot) λ historical_summary.
        verify_merkle_proof H beacon_block_root beacon_block_proof 13
          (slots_per_historical_root + slot % slots_per_historical_root)
          historical_summary.block_summary_root

  unfoldable pub verify_merge_to_capella_header :
      HeaderValidator → ℕ → ℕ → B256 → BlockProofHistoricalRoots → Outcome String Unit
  unfolding is_paris_active_at_block is_shanghai_active_at_timestamp
      verify_bellatrix_to_deneb_execution_block_proof verify_historical_roots_beacon_block_proof
  verify_merge_to_capella_header v block_number block_timestamp header_hash proof = do
    ensure (is_paris_active_at_block block_number)
        "Invalid BlockProofHistoricalRoots found for pre-Merge header."
    ensure (not (is_shanghai_active_at_timestamp block_timestamp))
        "Invalid BlockProofHistoricalRoots found for post-Shanghai header."
    executed ←
        verify_bellatrix_to_deneb_execution_block_proof header_hash proof.execution_block_proof
          proof.beacon_block_root
    ensure executed "Execution block proof verification failed for Merge-Capella header"
    included ←
        verify_historical_roots_beacon_block_proof v proof.slot proof.beacon_block_root
          proof.beacon_block_proof
    ensure included "Beacon block proof verification failed for Merge-Capella header"

  unfoldable pub verify_capella_to_deneb_header :
      HeaderValidator → ℕ → B256 → BlockProofHistoricalSummariesCapella → Outcome String Unit
  unfolding is_shanghai_active_at_timestamp is_cancun_active_at_timestamp
      verify_bellatrix_to_deneb_execution_block_proof verify_historical_summaries_beacon_block_proof
  verify_capella_to_deneb_header v block_timestamp header_hash proof = do
    ensure (is_shanghai_active_at_timestamp block_timestamp)
        "Invalid BlockProofHistoricalSummariesCapella found for pre-Shanghai header."
    ensure (not (is_cancun_active_at_timestamp block_timestamp))
        "Invalid BlockProofHistoricalSummariesCapella found for post-Cancun header."
    executed ←
        verify_bellatrix_to_deneb_execution_block_proof header_hash proof.execution_block_proof
          proof.beacon_block_root
    ensure executed "Execution block proof verification failed for Capella-Deneb header"
    included ←
        verify_historical_summaries_beacon_block_proof v proof.slot proof.beacon_block_root
          proof.beacon_block_proof
    ensure included "Beacon block proof verification failed for Capella-Deneb header"

  unfoldable pub verify_post_deneb_header :
      HeaderValidator → ℕ → B256 → BlockProofHistoricalSummariesDeneb → Outcome String Unit
  unfolding is_cancun_active_at_timestamp verify_post_deneb_execution_block_proof
      verify_historical_summaries_beacon_block_proof
  verify_post_deneb_header v block_timestamp header_hash proof = do
    ensure (is_cancun_active_at_timestamp block_timestamp)
        "Invalid BlockProofHistoricalSummariesDeneb found for pre-Cancun header."
    executed ←
        verify_post_deneb_execution_block_proof header_hash proof.execution_block_proof
          proof.beacon_block_root
    ensure executed "Execution block proof verification failed for post-Deneb header"
    included ←
        verify_historical_summaries_beacon_block_proof v proof.slot proof.beacon_block_root
          proof.beacon_block_proof
    ensure included "Beacon block proof verification failed for post-Deneb header"

  abbrev pub dispatch : HeaderValidator → Header → BlockHeaderProof → Outcome String Unit
  dispatch v header (historical_hashes proof) = verify_pre_merge_header v header proof
  dispatch v header (historical_roots proof) =
      verify_merge_to_capella_header v header.number header.timestamp (hash_slow header) proof
  dispatch v header (historical_summaries_capella proof) =
      verify_capella_to_deneb_header v header.timestamp (hash_slow header) proof
  dispatch v header (historical_summaries_deneb proof) =
      verify_post_deneb_header v header.timestamp (hash_slow header) proof

  unfoldable pub validate_header_with_proof :
      HeaderValidator → HeaderWithProof → Outcome String Unit
  validate_header_with_proof v header_with_proof =
      dispatch v header_with_proof.header header_with_proof.proof
