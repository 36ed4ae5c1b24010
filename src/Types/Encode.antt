-- ===== src/Types/Encode.antt =====
-- The encoding of `HeaderWithProof` (src/portal_types/execution/header_with_proof.rs) and of its header
-- (src/portal_types/execution/ssz_header.rs), and that the decoder reads it back. What `ssz_derive`
-- generates and `alloy_rlp` are the parameter `SszEncode`.
use eth_historian.Base.{
  ℕ, ◌≤◌, ◌≡◌, refl, ok, some, length, take, take_all, le→leb, lt→leb, Bytes, B256, List, arith,
}
use eth_historian.Types.Network.{
  mainnet_paris_block, mainnet_shanghai_timestamp, mainnet_cancun_timestamp,
}
use eth_historian.Types.Header.{
  Header, HeaderWithProof, BlockHeaderProof, BlockProofHistoricalRoots,
  BlockProofHistoricalSummariesCapella, BlockProofHistoricalSummariesDeneb, historical_hashes,
  historical_roots, historical_summaries_capella, historical_summaries_deneb,
}
use eth_historian.Types.Codec.{Ssz, header_from_ssz_bytes, proof_from_ssz_bytes, from_ssz_bytes}
use eth_historian.Types.Decode.{IsInEra}

pub record SszEncode : Type 0 where
  -- A container of two variable-length items.
  pub container : Bytes → Bytes → Bytes
  -- `alloy::rlp::encode`
  pub rlp_header : Header → Bytes
  -- `as_ssz_bytes` of the four kinds of proof.
  pub hashes : List B256 → Bytes
  pub roots : BlockProofHistoricalRoots → Bytes
  pub capella : BlockProofHistoricalSummariesCapella → Bytes
  pub deneb : BlockProofHistoricalSummariesDeneb → Bytes

module _ (E : SszEncode) where
  -- `ssz_header::encode`; `ByteList2048::from` keeps the first 2048 bytes.
  unfoldable pub header_as_ssz_bytes : Header → Bytes
  header_as_ssz_bytes header = take 2048 (E.rlp_header header)

  unfoldable pub proof_as_ssz_bytes : BlockHeaderProof → Bytes
  proof_as_ssz_bytes (historical_hashes proof) = E.hashes proof
  proof_as_ssz_bytes (historical_roots proof) = E.roots proof
  proof_as_ssz_bytes (historical_summaries_capella proof) = E.capella proof
  proof_as_ssz_bytes (historical_summaries_deneb proof) = E.deneb proof

  -- `BlockHeaderProof::ssz_bytes_len`, the length of what `ssz_append` writes.
  unfoldable pub proof_ssz_bytes_len : BlockHeaderProof → ℕ
  proof_ssz_bytes_len (historical_hashes proof) = length (E.hashes proof)
  proof_ssz_bytes_len (historical_roots proof) = length (E.roots proof)
  proof_ssz_bytes_len (historical_summaries_capella proof) = length (E.capella proof)
  proof_ssz_bytes_len (historical_summaries_deneb proof) = length (E.deneb proof)

  unfoldable pub as_ssz_bytes : HeaderWithProof → Bytes
  unfolding header_as_ssz_bytes proof_as_ssz_bytes
  as_ssz_bytes hwp = E.container (header_as_ssz_bytes hwp.header) (proof_as_ssz_bytes hwp.proof)

-- A proof decodes to itself from its own encoding.
abbrev pub ProofReadsBack : Ssz → SszEncode → BlockHeaderProof → Type 0
ProofReadsBack S E (historical_hashes p) = S.hashes (E.hashes p) ≡ ok p
ProofReadsBack S E (historical_roots p) = S.roots (E.roots p) ≡ ok p
ProofReadsBack S E (historical_summaries_capella p) = S.capella (E.capella p) ≡ ok p
ProofReadsBack S E (historical_summaries_deneb p) = S.deneb (E.deneb p) ≡ ok p

-- The crates' decoders read back what their encoders write of one header and its proof.
pub record ReadsBack (S : Ssz) (E : SszEncode) (hwp : HeaderWithProof) : Type 0 where
  pub container_lem : (a b : Bytes) → S.two_items (E.container a b) ≡ ok (a, b)
  pub byte_list_lem : (n : ℕ) (b : Bytes) → length b ≤ n → S.byte_list n b ≡ ok b
  pub header_lem : S.rlp_header (E.rlp_header hwp.header) ≡ some hwp.header
  pub header_size : length (E.rlp_header hwp.header) ≤ 2048
  pub proof_lem : ProofReadsBack S E hwp.proof
  pub proof_size : length (proof_as_ssz_bytes E hwp.proof) ≤ 1024

module _ (S : Ssz) (E : SszEncode) where
  -- In its era a proof is decoded as the variant that it is.
  in_era :
      (h : Header) (p : BlockHeaderProof)
      → IsInEra h p
      → ProofReadsBack S E p
      → proof_from_ssz_bytes S h (proof_as_ssz_bytes E p) ≡ ok p
  unfolding proof_from_ssz_bytes proof_as_ssz_bytes
  in_era h (historical_hashes p) (paris, shanghai) e =
      rw
        (
          lt→leb mainnet_cancun_timestamp h.timestamp (omega arith),
          lt→leb mainnet_shanghai_timestamp h.timestamp shanghai,
          lt→leb mainnet_paris_block h.number paris,
          e,
        )
        refl
  in_era h (historical_roots p) (paris, shanghai) e =
      rw
        (
          lt→leb mainnet_cancun_timestamp h.timestamp (omega arith),
          lt→leb mainnet_shanghai_timestamp h.timestamp shanghai,
          le→leb mainnet_paris_block h.number paris,
          e,
        )
        refl
  in_era h (historical_summaries_capella p) (shanghai, cancun) e =
      rw
        (
          lt→leb mainnet_cancun_timestamp h.timestamp cancun,
          le→leb mainnet_shanghai_timestamp h.timestamp shanghai,
          e,
        )
        refl
  in_era h (historical_summaries_deneb p) cancun e =
      rw (le→leb mainnet_cancun_timestamp h.timestamp cancun, e) refl

  header_back :
      (hwp : HeaderWithProof)
      → ReadsBack S E hwp
      → header_from_ssz_bytes S (header_as_ssz_bytes E hwp.header) ≡ ok hwp.header
  unfolding header_from_ssz_bytes header_as_ssz_bytes
  header_back hwp reads =
      rw
        (
          take_all 2048 (E.rlp_header hwp.header) reads.header_size,
          reads.byte_list_lem 2048 (E.rlp_header hwp.header) reads.header_size,
          reads.header_lem,
        )
        refl

  -- A header and a proof of its era are decoded from their own encoding, if the header's RLP has at most
  -- 2048 bytes, the proof's at most 1024, and the crates' decoders read back what the encoders write.
  pub from_ssz_bytes-as_ssz_bytes :
      (hwp : HeaderWithProof)
      → IsInEra hwp.header hwp.proof
      → ReadsBack S E hwp
      → from_ssz_bytes S (as_ssz_bytes E hwp) ≡ ok hwp
  unfolding from_ssz_bytes as_ssz_bytes
  from_ssz_bytes-as_ssz_bytes hwp era reads =
      rw
        (
          reads.container_lem (header_as_ssz_bytes E hwp.header) (proof_as_ssz_bytes E hwp.proof),
          header_back hwp reads,
          reads.byte_list_lem 1024 (proof_as_ssz_bytes E hwp.proof) reads.proof_size,
          in_era hwp.header hwp.proof era reads.proof_lem,
        )
        refl
