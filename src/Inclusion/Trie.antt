-- ===== src/Inclusion/Trie.antt =====
-- The checks of a Merkle Patricia proof in src/inclusion.rs. `verify_proof` and `Nibbles::unpack` of the
-- crate `alloy_trie` are the parameter `Trie`, and the RLP of an index is a parameter.
use eth_historian.Base.{ℕ, List, [], ◌∷◌, Option, some, String, Outcome, err, map_err, Bytes, B256}
use eth_historian.Errors.{Error, mpt_inclusion}

pub record Trie : Type 0 where
  pub unpack : Bytes → Bytes
  pub verify_proof : B256 → Bytes → Option Bytes → List Bytes → Outcome String Unit

module _ (M : Trie) where
  unfoldable pub verify_mpt_inclusion : B256 → Bytes → Bytes → List Bytes → Outcome Error Unit
  verify_mpt_inclusion root key value [] = err (mpt_inclusion "empty proof")
  verify_mpt_inclusion root key value (node ∷ nodes) =
      map_err mpt_inclusion (M.verify_proof root (M.unpack key) (some value) (node ∷ nodes))

  unfoldable pub verify_transaction_inclusion :
      (ℕ → Bytes) → B256 → ℕ → Bytes → List Bytes → Outcome Error Unit
  unfolding verify_mpt_inclusion
  verify_transaction_inclusion rlp_encode_index transactions_root tx_index raw_tx proof_nodes =
      verify_mpt_inclusion transactions_root (rlp_encode_index tx_index) raw_tx proof_nodes

  unfoldable pub verify_receipt_inclusion :
      (ℕ → Bytes) → B256 → ℕ → Bytes → List Bytes → Outcome Error Unit
  unfolding verify_mpt_inclusion
  verify_receipt_inclusion rlp_encode_index receipts_root receipt_index raw_receipt proof_nodes =
      verify_mpt_inclusion receipts_root (rlp_encode_index receipt_index) raw_receipt proof_nodes
