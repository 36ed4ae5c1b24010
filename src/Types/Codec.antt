-- ===== src/Types/Codec.antt =====
-- The decoding of `HeaderWithProof` (src/portal_types/execution/header_with_proof.rs) and of its header
-- (src/portal_types/execution/ssz_header.rs). The crates `ssz`, `ssz_types` and `alloy_rlp`, and the
-- code that `ssz_derive` generates, are the parameter `Ssz`.
use eth_historian.Base.{
  ℕ, ◌≡◌, String, if◌then◌else◌, List, Option, Outcome, ok, ok_or, ◌>>=◌, Bytes, B256,
}
use eth_historian.Types.Network.{
  is_paris_active_at_block, is_shanghai_active_at_timestamp, is_cancun_active_at_timestamp,
}
use eth_historian.Types.Header.{
  Header, HeaderWithProof, BlockHeaderProof, BlockProofHistoricalRoots,
  BlockProofHistoricalSummariesCapella, BlockProofHistoricalSummariesDeneb, historical_hashes,
  historical_roots, historical_summaries_capella, historical_summaries_deneb, IsSized,
}

-- `ssz::DecodeError`, of which the code builds one variant itself.
pub data DecodeError : Type 0 where
  bytes_invalid : String → DecodeError
  other : String → DecodeError

pub record Ssz : Type 0 where
  -- A decoder for two variable-length items.
  pub two_items : Bytes → Outcome DecodeError (Bytes × Bytes)
  -- `VariableList<u8, N>::from_ssz_bytes`
  pub byte_list : ℕ → Bytes → Outcome DecodeError Bytes
  -- `Header::decode` of RLP bytes.
  pub rlp_header : Bytes → Option Header
  -- `from_ssz_bytes` of the four kinds of proof.
  pub hashes : Bytes → Outcome DecodeError (List B256)
  pub roots : Bytes → Outcome DecodeError BlockProofHistoricalRoots
  pub capella : Bytes → Outcome DecodeError BlockProofHistoricalSummariesCapella
  pub deneb : Bytes → Outcome DecodeError BlockProofHistoricalSummariesDeneb
  -- `format!("{:?}", e)`
  pub debug : DecodeError → String

-- What the types of the proofs say: a decoded `FixedVector` has its length.
pub record DecodesSized (S : Ssz) : Type 0 where
  pub hashes_sized : (b : Bytes) (p : List B256) → S.hashes b ≡ ok p → IsSized (historical_hashes p)
  pub roots_sized :
      (b : Bytes) (p : BlockProofHistoricalRoots) → S.roots b ≡ ok p → IsSized (historical_roots p)
  pub capella_sized :
      (b : Bytes) (p : BlockProofHistoricalSummariesCapella)
      → S.capella b ≡ ok p
      → IsSized (historical_summaries_capella p)
  pub deneb_sized :
      (b : Bytes) (p : BlockProofHistoricalSummariesDeneb)
      → S.deneb b ≡ ok p
      → IsSized (historical_summaries_deneb p)

module _ (S : Ssz) where
  -- `ssz_header::decode::from_ssz_bytes`
  unfoldable pub header_from_ssz_bytes : Bytes → Outcome DecodeError Header
  header_from_ssz_bytes bytes = do
    rlp_encoded_header ← S.byte_list 2048 bytes
    ok_or (S.rlp_header rlp_encoded_header) (bytes_invalid "Unable to decode bytes into header.")

  -- The variant is chosen by the header's timestamp and number.
  unfoldable pub proof_from_ssz_bytes : Header → Bytes → Outcome DecodeError BlockHeaderProof
  unfolding is_cancun_active_at_timestamp is_shanghai_active_at_timestamp is_paris_active_at_block
  proof_from_ssz_bytes header proof =
      if is_cancun_active_at_timestamp header.timestamp
      then (do p ← S.deneb proof; ok (historical_summaries_deneb p))
      else if is_shanghai_active_at_timestamp header.timestamp
      then (do p ← S.capella proof; ok (historical_summaries_capella p))
      else if is_paris_active_at_block header.number
      then (do p ← S.roots proof; ok (historical_roots p))
      else (do p ← S.hashes proof; ok (historical_hashes p))

  unfoldable pub from_ssz_bytes : Bytes → Outcome DecodeError HeaderWithProof
  unfolding header_from_ssz_bytes proof_from_ssz_bytes
  from_ssz_bytes bytes = do
    (header_bytes, proof_bytes) ← S.two_items bytes
    header ← header_from_ssz_bytes header_bytes
    proof_list ← S.byte_list 1024 proof_bytes
    proof ← proof_from_ssz_bytes header proof_list
    ok (record { header = header; proof = proof })
