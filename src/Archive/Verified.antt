-- ===== src/Archive/Verified.antt =====
-- `Verifier::verify_block_by_number` (src/api.rs) on an `ArchiveRpcSource` (src/sources/archive_rpc.rs): what
-- is fetched and built there is verified here.
use Prim.Native.String.{◌++◌ as ◌<+>◌}
use eth_historian.Base.{
  ℕ, ◌/◌, ◌%◌, ◌≤◌, ◌<◌, ◌≡◌, refl, List, ◌∷◌, ◌++◌, String, ==_iff, lt→leb, none, some, Outcome,
  ok, length, get_elem?, lower_hex, B256, Bytes,
}
use eth_historian.Merkle.Hashing.{Hashing, IsLawful}
use eth_historian.Types.Network.{mainnet_paris_block, mainnet_shanghai_timestamp}
use eth_historian.Types.Header.{Header, HeaderWithProof, historical_hashes}
use eth_historian.Types.Codec.{Ssz}
use eth_historian.Types.Decode.{IsInEra}
use eth_historian.Types.Encode.{SszEncode, as_ssz_bytes, ReadsBack, from_ssz_bytes-as_ssz_bytes}
use eth_historian.Validator.{validate_header_with_proof}
use eth_historian.Api.{
  AuthPath, DataSource, Verifier, auth_path_for, try_by_number, verify_block_by_number,
}
use eth_historian.Api.Sources.{AllFail}
use eth_historian.Api.Fallback.{verify_block_by_number_iff}
use eth_historian.ProofConstruction.{HeaderRecord, EpochAccumulator, construct_pre_merge_proof}
use eth_historian.ProofConstruction.RoundTrip.{epoch_root, validate-construct_pre_merge_proof}
use eth_historian.Beacon.{RootsHashing, IsSound}
use eth_historian.Beacon.Payload.{TreeHash, IsChunked}
use eth_historian.Beacon.Body.{OperationHash, PayloadHash}
use eth_historian.Beacon.Block.{BodyHash}
use eth_historian.Beacon.InBlock.{BlockHash, IsDerived}
use eth_historian.Archive.RawBlock.{RawBlock, raw_block_to_alloy_header}
use eth_historian.Archive.Source.{
  EpochProvider, ArchiveRpcSource, fetch_raw_block_by_number, fetch_header_with_proof_by_number,
  archive_data_source,
}

-- The RPC answers a request for block `n` with a block that parses to the header.
abbrev pub Answers : (String → Outcome String Bytes) → ArchiveRpcSource → ℕ → Header → Type 0
Answers decode s n header =
    (raw : RawBlock) × (s.post ("0x" <+> lower_hex n)
      ≡ ok (record { result = some raw; error = none }))
    × (raw_block_to_alloy_header decode raw ≡ ok header)
    × (header.number ≡ n)

pub fetched_raw :
    (s : ArchiveRpcSource) (n : ℕ) (raw : RawBlock)
    → s.post ("0x" <+> lower_hex n) ≡ ok (record { result = some raw; error = none })
    → fetch_raw_block_by_number s n ≡ ok raw
unfolding fetch_raw_block_by_number
fetched_raw s n raw e = rw e refl

module _ (H : Hashing) (hash_slow : Header → B256) (S : Ssz) (E : SszEncode) where
  pub verified_answer :
      (v : Verifier) (n : ℕ) (s : DataSource) (hwp : HeaderWithProof)
      → s.fetch_header_with_proof_by_number n ≡ ok (as_ssz_bytes E hwp)
      → hwp.header.number ≡ n
      → IsInEra hwp.header hwp.proof
      → ReadsBack S E hwp
      → validate_header_with_proof H hash_slow v.validator hwp ≡ ok tt
      → try_by_number H hash_slow S v n s
        ≡ ok (record { header = hwp.header; auth_path = auth_path_for hwp.proof })
  unfolding try_by_number
  verified_answer v n s hwp fetched number era reads valid =
      rw
        (
          fetched,
          from_ssz_bytes-as_ssz_bytes S E hwp era reads,
          (==_iff hwp.header.number n).1 number,
          valid,
        )
        refl

module _ (H : Hashing) (lawful : IsLawful H) (R : RootsHashing) (sound : IsSound H R) (T : TreeHash)
    (chunked : IsChunked T) (O : OperationHash) (P : PayloadHash) (B : BodyHash) (K : BlockHash)
    (derived : IsDerived H T O P B K) (hash_slow : Header → B256)
    (decode : String → Outcome String Bytes) (S : Ssz) (E : SszEncode) where
  abbrev pub source_of : ArchiveRpcSource → DataSource
  source_of s = archive_data_source R T O P B K H hash_slow decode E s

  -- The epoch provider has the accumulator of the header's epoch, with the header's record in it, and the
  -- verifier's table has the accumulator's root.
  abbrev pub IsRecorded : ArchiveRpcSource → Verifier → Header → EpochAccumulator → Type 0
  IsRecorded s v header acc =
      (provider : EpochProvider) × (r : HeaderRecord) × (s.epoch_provider ≡ some provider)
      × (provider.get_epoch_accumulator (header.number / 8192) ≡ ok acc)
      × (length acc ≤ 8192)
      × (get_elem? acc (header.number % 8192) ≡ some r)
      × (r.block_hash ≡ hash_slow header)
      × (get_elem? v.validator.pre_merge_acc.historical_epochs (header.number / 8192)
          ≡ some (epoch_root H acc))

  fetched_pre_merge :
      (s : ArchiveRpcSource) (n : ℕ) (header : Header) (provider : EpochProvider)
      (acc : EpochAccumulator) (proof : List B256)
      → Answers decode s n header
      → header.number < mainnet_paris_block
      → s.epoch_provider ≡ some provider
      → provider.get_epoch_accumulator (header.number / 8192) ≡ ok acc
      → construct_pre_merge_proof H hash_slow header acc ≡ ok proof
      → fetch_header_with_proof_by_number R T O P B K H hash_slow decode E s n
        ≡ ok (as_ssz_bytes E (record { header = header; proof = historical_hashes proof }))
  unfolding fetch_header_with_proof_by_number
  fetched_pre_merge s n header provider acc proof (raw, posted, parsed, number) paris configured
        given made =
      rw
        (
          fetched_raw s n raw posted,
          parsed,
          lt→leb mainnet_paris_block header.number paris,
          configured,
          given,
          made,
        )
        refl

  -- A pre-merge block that an archive RPC answers for is verified, with the proof that is built from the
  -- accumulator of its epoch: if the sources before it end in errors, the accumulator has at most
  -- 8192 records and at the block's place the record of its hash, the verifier's table has the
  -- accumulator's root, and the header and the proof are read back from their encoding.
  pub verify_block_by_number-pre_merge :
      (v : Verifier) (n : ℕ) (before after : List DataSource) (s : ArchiveRpcSource)
      (header : Header) (acc : EpochAccumulator)
      → v.data_sources ≡ before ++ source_of s ∷ after
      → AllFail (try_by_number H hash_slow S v n) before
      → Answers decode s n header
      → header.number < mainnet_paris_block
      → header.timestamp < mainnet_shanghai_timestamp
      → IsRecorded s v header acc
      → ((proof : List B256)
          → construct_pre_merge_proof H hash_slow header acc ≡ ok proof
          → ReadsBack S E (record { header = header; proof = historical_hashes proof }))
      → verify_block_by_number H hash_slow S v n
        ≡ ok (record { header = header; auth_path = AuthPath.historical_hashes })
  unfolding archive_data_source auth_path_for
  verify_block_by_number-pre_merge v n before after s header acc at failed answers paris shanghai
        (provider, r, configured, given, size, found, same, root) reads =
      let (proof, made, sized, valid) =
        validate-construct_pre_merge_proof H lawful hash_slow v.validator header acc r size found
          same paris root in
      (verify_block_by_number_iff H hash_slow S v n _).1 (
        before,
        source_of s,
        after,
        at,
        failed,
        verified_answer H hash_slow S E v n (source_of s) _
            (fetched_pre_merge s n header provider acc proof answers paris configured given made)
            answers.3 (paris, shanghai) (reads proof made) valid,
      )
