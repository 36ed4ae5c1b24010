-- ===== src/Api.antt =====
-- src/api.rs: `VerifierBuilder`, `Verifier` and `VerifiedBlock`, with the trait `DataSource` of
-- src/sources/mod.rs. A call changes the verifier only through `set_historical_summaries`, which
-- returns the new one; `Arc` clones of a verifier share that state, so they are one verifier here.
pub mod Sources
pub mod Trust
pub mod Build
pub mod WithoutSummaries
pub mod Fallback
pub mod Agree
use eth_historian.Base.{
  ℕ, List, [], ◌∷◌, ◌++◌, String, Bool, true, false, if◌then◌else◌, ◌==◌, Option, none, some,
  Outcome, ok, err, panic, map_err, guard, ◌>>=◌, ◌>>◌, bytes_eq, Bytes, B256,
}
use eth_historian.Errors.{
  Error, no_data_source, block_not_found, data_source, ssz_decode, verification_failed,
  block_number_mismatch,
}
use eth_historian.Fingerprints.{
  Assets, pre_merge_default, historical_roots_default, assert_canonized_accumulator_fingerprints,
}
use eth_historian.Merkle.Hashing.{Hashing}
use eth_historian.Types.Header.{Header, HeaderWithProof, BlockHeaderProof}
use eth_historian.Types.Summaries.{HistoricalSummary, set_summaries}
use eth_historian.Types.Codec.{Ssz, from_ssz_bytes}
use eth_historian.Validator.{
  HeaderValidator, validate_header_with_proof, new_with_historical_summaries,
}

pub data AuthPath : Type 0 where
  historical_hashes historical_roots : AuthPath
  historical_summaries_capella historical_summaries_deneb : AuthPath

unfoldable pub auth_path_for : BlockHeaderProof → AuthPath
auth_path_for (BlockHeaderProof.historical_hashes p) = AuthPath.historical_hashes
auth_path_for (BlockHeaderProof.historical_roots p) = AuthPath.historical_roots
auth_path_for (BlockHeaderProof.historical_summaries_capella p) =
    AuthPath.historical_summaries_capella
auth_path_for (BlockHeaderProof.historical_summaries_deneb p) = AuthPath.historical_summaries_deneb

pub record VerifiedBlock : Type 0 where
  pub header : Header
  pub auth_path : AuthPath

-- The trait of src/sources/mod.rs. A call asks each source once at most, so a source is what it
-- answers to that call.
pub record DataSource : Type 0 where
  pub fetch_header_with_proof_by_number : ℕ → Outcome Error Bytes
  pub fetch_header_with_proof_by_hash : B256 → Outcome Error Bytes
  pub name : String

pub record VerifierBuilder : Type 0 where
  pub data_sources : List DataSource
  pub historical_summaries : Option (List HistoricalSummary)
  pub skip_fingerprint_check : Bool

pub record Verifier : Type 0 where
  pub validator : HeaderValidator
  pub data_sources : List DataSource

-- `VerifierBuilder::new` and `Verifier::builder`.
unfoldable pub builder : VerifierBuilder
builder = record { data_sources = []; historical_summaries = none; skip_fingerprint_check = false }

-- The builder's methods, which hand on the changed builder.
unfoldable pub add_data_source : VerifierBuilder → DataSource → VerifierBuilder
add_data_source b source = record b { data_sources = b.data_sources ++ source ∷ [] }

unfoldable pub with_historical_summaries :
    VerifierBuilder → List HistoricalSummary → VerifierBuilder
with_historical_summaries b summaries = record b { historical_summaries = some summaries }

unfoldable pub skip_fingerprint_check : VerifierBuilder → VerifierBuilder
skip_fingerprint_check b = record b { skip_fingerprint_check = true }

-- `HeaderValidator::default` starts from no summaries.
abbrev pub or_default : Option (List HistoricalSummary) → List HistoricalSummary
or_default none = []
or_default (some summaries) = summaries

unfoldable pub build : Assets → VerifierBuilder → Outcome Error Verifier
unfolding assert_canonized_accumulator_fingerprints pre_merge_default historical_roots_default
    new_with_historical_summaries
build A b = do
  if b.skip_fingerprint_check then ok tt else assert_canonized_accumulator_fingerprints A
  pre_merge_acc ← pre_merge_default A
  historical_roots_acc ← historical_roots_default A
  ok (record {
    validator =
        new_with_historical_summaries pre_merge_acc historical_roots_acc
          (or_default b.historical_summaries);
    data_sources = b.data_sources;
  })

unfoldable pub set_historical_summaries : Verifier → List HistoricalSummary → Verifier
unfolding set_summaries
set_historical_summaries v summaries = record v {
  validator = record v.validator {
    historical_summaries_provider =
        set_summaries v.validator.historical_summaries_provider summaries;
  };
}

module _ (H : Hashing) (hash_slow : Header → B256) where
  unfoldable pub block_hash : VerifiedBlock → B256
  block_hash block = hash_slow block.header

  unfoldable pub verify : Verifier → HeaderWithProof → Outcome Error VerifiedBlock
  unfolding validate_header_with_proof auth_path_for
  verify v hwp = do
    map_err (λ reason. verification_failed hwp.header.number reason)
        (validate_header_with_proof H hash_slow v.validator hwp)
    ok (record { header = hwp.header; auth_path = auth_path_for hwp.proof })

module _ (H : Hashing) (hash_slow : Header → B256) (S : Ssz) where
  -- One round of the loop in `verify_block_by_number`: it returns the verified block, or the error
  -- that goes into `last_err`.
  unfoldable pub try_by_number : Verifier → ℕ → DataSource → Outcome Error VerifiedBlock
  unfolding verify from_ssz_bytes
  try_by_number v block_number source = do
    bytes ← source.fetch_header_with_proof_by_number block_number
    hwp ← map_err (λ e. ssz_decode block_number (S.debug e)) (from_ssz_bytes S bytes)
    guard (hwp.header.number == block_number) (block_number_mismatch block_number hwp.header.number)
    verify H hash_slow v hwp

  unfoldable pub try_by_hash : Verifier → B256 → DataSource → Outcome Error VerifiedBlock
  unfolding verify from_ssz_bytes
  try_by_hash v block_hash source = do
    bytes ← source.fetch_header_with_proof_by_hash block_hash
    hwp ← map_err (λ e. ssz_decode 0 (S.debug e)) (from_ssz_bytes S bytes)
    guard (bytes_eq (hash_slow hwp.header) block_hash) (
        verification_failed hwp.header.number
          "returned header's hash does not match requested hash")
    verify H hash_slow v hwp

-- The loop over the sources. The option is `last_err`; a panic unwinds out of the loop.
unfoldable pub first_verified :
    (DataSource → Outcome Error VerifiedBlock)
    → Error
    → List DataSource
    → Option Error
    → Outcome Error VerifiedBlock
first_verified try fallback [] none = err fallback
first_verified try fallback [] (some last_err) = err last_err
first_verified try fallback (source ∷ sources) last_err = elim (try source) [
  | ok verified ↦ ok verified
  | err e ↦ first_verified try fallback sources (some e)
  | panic ↦ panic
]

abbrev pub is_empty : List DataSource → Bool
is_empty [] = true
is_empty (source ∷ sources) = false

module _ (H : Hashing) (hash_slow : Header → B256) (S : Ssz) where
  unfoldable pub verify_block_by_number : Verifier → ℕ → Outcome Error VerifiedBlock
  unfolding first_verified try_by_number
  verify_block_by_number v block_number =
      if is_empty v.data_sources
      then err no_data_source
      else first_verified (try_by_number H hash_slow S v block_number)
          (block_not_found block_number) v.data_sources none

  unfoldable pub verify_block_by_hash : Verifier → B256 → Outcome Error VerifiedBlock
  unfolding first_verified try_by_hash
  verify_block_by_hash v block_hash =
      if is_empty v.data_sources
      then err no_data_source
      else first_verified (try_by_hash H hash_slow S v block_hash)
          (data_source "no source produced bytes") v.data_sources none
