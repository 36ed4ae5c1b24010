-- ===== src/Fingerprints.antt =====
-- The embedded accumulators and their check: `PreMergeAccumulator::default` (src/accumulator.rs),
-- `HistoricalRootsAccumulator::new` (src/historical_roots_acc.rs), src/constants.rs, and
-- `assert_canonized_accumulator_fingerprints` (src/lib.rs). The embedded files, SHA-256, the SSZ
-- decoder and the tree hash are the parameter `Assets`.
use eth_historian.Base.{
  List, [], ◌∷◌, String, Bool, true, false, Option, Outcome, ok, panic, unwrap, ◌>>=◌, ◌>>◌,
  bytes_eq, Bytes, B256,
}
use eth_historian.Validator.{PreMergeAccumulator, HistoricalRootsAccumulator}

pub record Assets : Type 0 where
  -- `EmbeddedAssets::get`
  pub get : String → Option Bytes
  -- `sha2::Sha256::digest`
  pub sha256 : Bytes → Bytes
  pub pre_merge_from_ssz_bytes : Bytes → Option PreMergeAccumulator
  pub historical_roots_from_ssz_bytes : Bytes → Option (List B256)
  pub pre_merge_tree_hash_root : PreMergeAccumulator → B256
  pub historical_roots_tree_hash_root : List B256 → B256

abbrev pub default_pre_merge_acc_hash : B256
default_pre_merge_acc_hash =
    0x8e ∷ 0xac ∷ 0x39 ∷ 0x9e ∷ 0x24 ∷ 0x48 ∷ 0x0d ∷ 0xce ∷ 0x3c ∷ 0xfe ∷ 0x06 ∷ 0xf4 ∷ 0xbd ∷ 0xec
    ∷ 0xba ∷ 0x51 ∷ 0xc6 ∷ 0xe5 ∷ 0xd0 ∷ 0xc4 ∷ 0x62 ∷ 0x00 ∷ 0xe3 ∷ 0xe8 ∷ 0x61 ∷ 0x1a ∷ 0x0b
    ∷ 0x44 ∷ 0xa3 ∷ 0xa6 ∷ 0x9f ∷ 0xf9 ∷ []

abbrev pub default_historical_roots_hash : B256
default_historical_roots_hash =
    0x4d ∷ 0xf6 ∷ 0xb8 ∷ 0x97 ∷ 0x55 ∷ 0x12 ∷ 0x5d ∷ 0x4f ∷ 0x6c ∷ 0x55 ∷ 0x75 ∷ 0x03 ∷ 0x9a ∷ 0x04
    ∷ 0xe2 ∷ 0x23 ∷ 0x01 ∷ 0xa5 ∷ 0xa4 ∷ 0x9e ∷ 0xe8 ∷ 0x93 ∷ 0xc1 ∷ 0xd2 ∷ 0x7e ∷ 0x55 ∷ 0x9e
    ∷ 0x3e ∷ 0xea ∷ 0xb7 ∷ 0x3d ∷ 0xa7 ∷ []

abbrev pub merge_macc_bin_sha256 : Bytes
merge_macc_bin_sha256 =
    0xa2 ∷ 0x36 ∷ 0x8b ∷ 0xfa ∷ 0x82 ∷ 0xa8 ∷ 0x9a ∷ 0x89 ∷ 0x8b ∷ 0x31 ∷ 0xdc ∷ 0xa6 ∷ 0xf3 ∷ 0x7a
    ∷ 0xa2 ∷ 0x87 ∷ 0x91 ∷ 0x8b ∷ 0xd6 ∷ 0x71 ∷ 0xbd ∷ 0x74 ∷ 0x05 ∷ 0x89 ∷ 0x12 ∷ 0xbc ∷ 0x44
    ∷ 0x0c ∷ 0x22 ∷ 0x88 ∷ 0xd7 ∷ 0x91 ∷ []

abbrev pub historical_roots_ssz_sha256 : Bytes
historical_roots_ssz_sha256 =
    0x64 ∷ 0xed ∷ 0x2c ∷ 0xbe ∷ 0xd1 ∷ 0x3a ∷ 0x65 ∷ 0xc2 ∷ 0x24 ∷ 0xb4 ∷ 0x71 ∷ 0xf5 ∷ 0x3b ∷ 0x5f
    ∷ 0x83 ∷ 0x20 ∷ 0x30 ∷ 0xc1 ∷ 0x1e ∷ 0x73 ∷ 0x71 ∷ 0x0e ∷ 0x27 ∷ 0x02 ∷ 0x12 ∷ 0x1e ∷ 0x7b
    ∷ 0x1a ∷ 0x50 ∷ 0x82 ∷ 0xa3 ∷ 0x16 ∷ []

-- `assert_eq!` panics where it fails.
abbrev pub assert : {E : Type 0} → Bool → Outcome E Unit
assert true = ok tt
assert false = panic

module _ (A : Assets) where
  unfoldable pub pre_merge_default : {E : Type 0} → Outcome E PreMergeAccumulator
  pre_merge_default = do
    raw ← unwrap (A.get "validation_assets/merge_macc.bin")
    unwrap (A.pre_merge_from_ssz_bytes raw)

  unfoldable pub historical_roots_default : {E : Type 0} → Outcome E HistoricalRootsAccumulator
  historical_roots_default = do
    raw_bytes ← unwrap (A.get "validation_assets/historical_roots.ssz")
    historical_roots ← unwrap (A.historical_roots_from_ssz_bytes raw_bytes)
    ok (record { historical_roots = historical_roots })

  unfoldable pub assert_canonized_accumulator_fingerprints : {E : Type 0} → Outcome E Unit
  unfolding pre_merge_default historical_roots_default
  assert_canonized_accumulator_fingerprints = do
    merge_macc_bytes ← unwrap (A.get "validation_assets/merge_macc.bin")
    assert (bytes_eq (A.sha256 merge_macc_bytes) merge_macc_bin_sha256)
    historical_roots_bytes ← unwrap (A.get "validation_assets/historical_roots.ssz")
    assert (bytes_eq (A.sha256 historical_roots_bytes) historical_roots_ssz_sha256)
    pre_merge ← pre_merge_default
    assert (bytes_eq (A.pre_merge_tree_hash_root pre_merge) default_pre_merge_acc_hash)
    roots ← historical_roots_default
    assert (
        bytes_eq (A.historical_roots_tree_hash_root roots.historical_roots)
          default_historical_roots_hash)
