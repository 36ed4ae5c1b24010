-- ===== src/ProofConstruction.antt =====
-- src/proof_construction.rs, with `HeaderRecord` and `EpochAccumulator` of
-- src/portal_types/execution/accumulator.rs. The SSZ decoder of the accumulator and `Debug` of its
-- error are parameters. The message of an error that formats hashes is shortened to its first words.
pub mod RoundTrip
use eth_historian.Base.{
  ℕ, ◌/◌, ◌%◌, ◌==◌, List, [], ◌∷◌, ◌++◌, map, String, Outcome, ok, unwrap, map_err, guard, ◌>>=◌,
  ◌>>◌, length, get_elem?, bytes_eq, Bytes, B256, to_le_bytes,
}
use eth_historian.Errors.{Error, proof_construction}
use eth_historian.Merkle.Hashing.{Hashing}
use eth_historian.Merkle.Tree.{create, generate_proof}
use eth_historian.Types.Network.{slots_per_historical_root}
use eth_historian.Types.Header.{Header}

pub record HeaderRecord : Type 0 where
  pub block_hash : B256
  pub total_difficulty : ℕ

-- `VariableList<HeaderRecord, U8192>`
abbrev pub EpochAccumulator : Type 0
EpochAccumulator = List HeaderRecord

unfoldable pub decode_epoch_accumulator :
    (Bytes → Outcome String EpochAccumulator) → Bytes → Outcome Error EpochAccumulator
decode_epoch_accumulator from_ssz_bytes bytes =
    map_err (λ _. proof_construction "EpochAccumulator SSZ decode failed") (from_ssz_bytes bytes)

unfoldable pub epoch_index_of_block : ℕ → ℕ
epoch_index_of_block block_number = block_number / slots_per_historical_root

module _ (H : Hashing) where
  -- The leaf of a record; `to_le_bytes` and `as_le_slice` of a `U256` are 32 bytes.
  unfoldable pub record_leaf : HeaderRecord → B256
  record_leaf r = H.hash32_concat r.block_hash (to_le_bytes 32 r.total_difficulty)

  unfoldable pub construct_pre_merge_proof :
      (Header → B256) → Header → EpochAccumulator → Outcome Error (List B256)
  unfolding record_leaf
  construct_pre_merge_proof hash_slow header epoch_acc = do
    let hr_index = header.number % slots_per_historical_root
    header_record ← unwrap (get_elem? epoch_acc hr_index)
    guard (bytes_eq header_record.block_hash (hash_slow header))
        (proof_construction "header hash doesn't match epoch accumulator entry")
    let header_difficulty = to_le_bytes 32 header_record.total_difficulty
    merkle_tree ← create H (map record_leaf epoch_acc) 13
    (leaf, proof) ←
        map_err (λ _. proof_construction "merkle proof generation failed")
          (generate_proof H merkle_tree hr_index 13)
    guard (bytes_eq leaf (record_leaf header_record))
        (proof_construction "internal: leaf mismatch after merkle construction")
    let final_proof = header_difficulty ∷ proof ++ to_le_bytes 32 (length epoch_acc) ∷ []
    guard (length final_proof == 15) (proof_construction "proof length != 15")
    ok final_proof
