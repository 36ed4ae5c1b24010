-- ===== src/Portal/Verified.antt =====
-- `verify_block_by_number` and `verify_block_by_hash` of `Verifier` (src/api.rs) on a `PortalSidecarSource`
-- (src/sources/portal.rs), for a block whose header the network has with its proof.
use Prim.Native.String.{◌++◌ as ◌<+>◌}
use eth_historian.Base.{
  bytes_eq_refl, refl, ℕ, ◌≡◌, List, ◌∷◌, ◌++◌, none, some, ok, Bytes, B256, to_le_bytes,
}
use eth_historian.Fork.{hex_encode}
use eth_historian.Errors.{data_source}
use eth_historian.Merkle.Hashing.{Hashing}
use eth_historian.Types.Header.{Header, HeaderWithProof}
use eth_historian.Types.Codec.{Ssz}
use eth_historian.Types.Decode.{IsInEra}
use eth_historian.Types.Encode.{SszEncode, as_ssz_bytes, ReadsBack, from_ssz_bytes-as_ssz_bytes}
use eth_historian.Validator.{validate_header_with_proof}
use eth_historian.Api.{
  DataSource, Verifier, auth_path_for, try_by_number, verify_block_by_number, try_by_hash,
  verify_block_by_hash,
}
use eth_historian.Api.Sources.{AllFail, first_verified-first}
use eth_historian.Api.Fallback.{verify_block_by_number_iff, is_empty-append}
use eth_historian.Archive.Text.{trim_0x}
use eth_historian.Archive.Verified.{verified_answer}
use eth_historian.Portal.{PortalClient}
use eth_historian.Portal.History.{get_content, key_by_number, key_by_hash, portal_data_source}

-- What the crate `hex` promises of some bytes: their text is read back, also where "0x" stands in front.
abbrev pub ReadsHex : PortalClient → Bytes → Type 0
ReadsHex client bytes = client.decode (trim_0x ("0x" <+> client.encode bytes)) ≡ ok bytes

-- The network has the content under the key, and answers in hexadecimal.
abbrev pub Has : PortalClient → Bytes → Bytes → Type 0
Has client key content =
    client.post ("0x" <+> client.encode key)
    ≡ ok (record {
      result = some (record { content = "0x" <+> client.encode content });
      error = none;
    })

content_lem :
    (client : PortalClient) (key content : Bytes)
    → ReadsHex client content
    → Has client key content
    → get_content client key ≡ ok content
unfolding get_content hex_encode
content_lem client key content reads has = rw (has, reads) refl

module _ (H : Hashing) (hash_slow : Header → B256) (S : Ssz) (E : SszEncode) (v : Verifier) where
  -- A block is verified by its number over the Portal network: if the sources before it end in errors, the
  -- network has the encoding of the block's header with a proof under the byte 3 and the block's
  -- number in 8 bytes, hexadecimal text is read back, the proof is of the header's era and valid, and
  -- both are read back from their encoding.
  pub verify_block_by_number-portal :
      (n : ℕ) (before after : List DataSource) (client : PortalClient) (hwp : HeaderWithProof)
      → v.data_sources ≡ before ++ portal_data_source client ∷ after
      → AllFail (try_by_number H hash_slow S v n) before
      → ReadsHex client (as_ssz_bytes E hwp)
      → Has client (3 ∷ to_le_bytes 8 n) (as_ssz_bytes E hwp)
      → hwp.header.number ≡ n
      → IsInEra hwp.header hwp.proof
      → ReadsBack S E hwp
      → validate_header_with_proof H hash_slow v.validator hwp ≡ ok tt
      → verify_block_by_number H hash_slow S v n
        ≡ ok (record { header = hwp.header; auth_path = auth_path_for hwp.proof })
  unfolding portal_data_source key_by_number
  verify_block_by_number-portal n before after client hwp at failed reads has number era back
        valid =
      (verify_block_by_number_iff H hash_slow S v n _).1 (
        before,
        portal_data_source client,
        after,
        at,
        failed,
        verified_answer H hash_slow S E v n (portal_data_source client) hwp
            (content_lem client (key_by_number n) (as_ssz_bytes E hwp) reads has) number era back
            valid,
      )

  -- A block is verified by its hash over the Portal network: if the sources before it end in errors, the
  -- network has the encoding of the header with that hash and its proof under the byte 0 and the hash,
  -- hexadecimal text is read back, the proof is of the header's era and valid, and both are read back
  -- from their encoding.
  pub verify_block_by_hash-portal :
      (before after : List DataSource) (client : PortalClient) (hwp : HeaderWithProof)
      → v.data_sources ≡ before ++ portal_data_source client ∷ after
      → AllFail (try_by_hash H hash_slow S v (hash_slow hwp.header)) before
      → ReadsHex client (as_ssz_bytes E hwp)
      → Has client (0 ∷ hash_slow hwp.header) (as_ssz_bytes E hwp)
      → IsInEra hwp.header hwp.proof
      → ReadsBack S E hwp
      → validate_header_with_proof H hash_slow v.validator hwp ≡ ok tt
      → verify_block_by_hash H hash_slow S v (hash_slow hwp.header)
        ≡ ok (record { header = hwp.header; auth_path = auth_path_for hwp.proof })
  unfolding verify_block_by_hash try_by_hash portal_data_source key_by_hash
  verify_block_by_hash-portal before after client hwp at failed reads has era back valid =
      rw (at, is_empty-append before (portal_data_source client) after)
        (first_verified-first (try_by_hash H hash_slow S v (hash_slow hwp.header))
          (data_source "no source produced bytes") before (portal_data_source client) after none _
          failed
          (rw
            (
              content_lem client (key_by_hash (hash_slow hwp.header)) (as_ssz_bytes E hwp) reads
                  has,
              from_ssz_bytes-as_ssz_bytes S E hwp era back,
              bytes_eq_refl (hash_slow hwp.header),
              valid,
            )
            refl))
