-- ===== src/Types/Decode.antt =====
-- What the decoder of `HeaderWithProof` (src/portal_types/execution/header_with_proof.rs) returns: a
-- proof of the variant that belongs to the header's era.
use eth_historian.Base.{
  ◌≤◌, ◌<◌, ◌≡◌, Outcome, ok, >>=-eq-ok, ◌>>=◌, ok-injective, Bytes, arith, subst,
}
use eth_historian.Types.Network.{
  mainnet_paris_block, mainnet_shanghai_timestamp, mainnet_cancun_timestamp,
}
use eth_historian.Types.Header.{
  Header, HeaderWithProof, BlockHeaderProof, historical_hashes, historical_roots,
  historical_summaries_capella, historical_summaries_deneb, IsSized,
}
use eth_historian.Types.Codec.{
  Ssz, DecodesSized, DecodeError, from_ssz_bytes, proof_from_ssz_bytes, header_from_ssz_bytes,
}

-- The era of each variant, by the header's number and timestamp.
abbrev pub IsInEra : Header → BlockHeaderProof → Type 0
IsInEra h (historical_hashes p) =
    (h.number < mainnet_paris_block) × (h.timestamp < mainnet_shanghai_timestamp)
IsInEra h (historical_roots p) =
    (mainnet_paris_block ≤ h.number) × (h.timestamp < mainnet_shanghai_timestamp)
IsInEra h (historical_summaries_capella p) =
    (mainnet_shanghai_timestamp ≤ h.timestamp) × (h.timestamp < mainnet_cancun_timestamp)
IsInEra h (historical_summaries_deneb p) = mainnet_cancun_timestamp ≤ h.timestamp

module _ (S : Ssz) (sized : DecodesSized S) where
  proof_lem :
      (h : Header) (bytes : Bytes) (p : BlockHeaderProof)
      → proof_from_ssz_bytes S h bytes ≡ ok p
      → IsSized p × IsInEra h p
  unfolding proof_from_ssz_bytes
  proof_lem h bytes (historical_hashes q) e = ground (arith, sized.hashes_sized bytes q)
  proof_lem h bytes (historical_roots q) e = ground (arith, sized.roots_sized bytes q)
  proof_lem h bytes (historical_summaries_capella q) e = ground (arith, sized.capella_sized bytes q)
  proof_lem h bytes (historical_summaries_deneb q) e = ground (arith, sized.deneb_sized bytes q)

  -- The rest of the decoder after the proof, the list of its bytes, the header and the two items.
  abbrev with_proof : Header → BlockHeaderProof → Outcome DecodeError HeaderWithProof
  with_proof h p = ok (record { header = h; proof = p })

  abbrev with_list : Header → Bytes → Outcome DecodeError HeaderWithProof
  with_list h l = proof_from_ssz_bytes S h l >>= with_proof h

  abbrev with_header : Bytes → Header → Outcome DecodeError HeaderWithProof
  with_header pb h = S.byte_list 1024 pb >>= with_list h

  abbrev with_items : Bytes × Bytes → Outcome DecodeError HeaderWithProof
  with_items items = header_from_ssz_bytes S items.0 >>= with_header items.1

  -- A decoded header comes with the proof of its era, by the header's own number and timestamp, and with
  -- the branch lengths of that proof's type.
  pub from_ssz_bytes_lem :
      (bytes : Bytes) (hwp : HeaderWithProof)
      → from_ssz_bytes S bytes ≡ ok hwp
      → IsSized hwp.proof × IsInEra hwp.header hwp.proof
  unfolding from_ssz_bytes
  from_ssz_bytes_lem bytes hwp e =
      let items = >>=-eq-ok (S.two_items bytes) with_items e in
      let header = >>=-eq-ok (header_from_ssz_bytes S items.0.0) (with_header items.0.1) items.2 in
      let list = >>=-eq-ok (S.byte_list 1024 items.0.1) (with_list header.0) header.2 in
      let proof = >>=-eq-ok (proof_from_ssz_bytes S header.0 list.0) (with_proof header.0) list.2 in
      subst (λ (w : HeaderWithProof). IsSized w.proof × IsInEra w.header w.proof)
        {x = record { header = header.0; proof = proof.0 }} (ok-injective proof.2)
        (proof_lem header.0 list.0 proof.0 proof.1)
