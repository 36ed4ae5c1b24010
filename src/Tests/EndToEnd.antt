-- ===== src/Tests/EndToEnd.antt =====
-- Tests of `verify_block_by_number` on an archive RPC source, before and after the merge, and of both calls on
-- a Portal source.
use eth_historian.Base.{
  ◌≤◌, ◌≡◌, refl, sym, ap, ap₂, ◌∙◌, subst, List, [], ◌∷◌, ◌++◌, none, some, Outcome, ◌>>=◌, ok,
  err, ok-injective, length, take, drop, replicate, leb, le→leb, if◌then◌else◌, Bytes, B256, arith,
}
use eth_historian.Errors.{Error}
use eth_historian.Types.Network.{slot_for_execution_timestamp}
use eth_historian.Types.Header.{
  Header, HeaderWithProof, BlockHeaderProof, BlockProofHistoricalRoots,
  BlockProofHistoricalSummariesDeneb, historical_hashes, historical_roots,
  historical_summaries_capella, historical_summaries_deneb,
}
use eth_historian.Types.Summaries.{HistoricalSummary}
use eth_historian.Types.Codec.{Ssz, DecodeError, other, from_ssz_bytes}
use eth_historian.Types.Encode.{
  SszEncode, ReadsBack, as_ssz_bytes, proof_as_ssz_bytes, from_ssz_bytes-as_ssz_bytes,
}
use eth_historian.Validator.{HeaderValidator, validate_header_with_proof}
use eth_historian.Api.{
  AuthPath, DataSource, Verifier, auth_path_for, verify_block_by_number, verify_block_by_hash,
}
use eth_historian.ProofConstruction.{construct_pre_merge_proof}
use eth_historian.ProofConstruction.RoundTrip.{validate-construct_pre_merge_proof}
use eth_historian.Beacon.{HistoricalBatch}
use eth_historian.Beacon.Block.{
  BeaconBlockBellatrix, BeaconBlockDeneb, SignedBeaconBlock, signed_bellatrix, signed_deneb,
}
use eth_historian.Beacon.PostMerge.{
  validate-build_historical_roots_proof, validate-build_deneb_historical_summaries_proof,
}
use eth_historian.Beacon.Provider.{BeaconDataProvider}
use eth_historian.Archive.Source.{ArchiveRpcSource, post_merge_proof, archive_data_source}
use eth_historian.Portal.{PortalClient}
use eth_historian.Portal.History.{portal_data_source}
use eth_historian.Portal.Verified.{verify_block_by_number-portal, verify_block_by_hash-portal}
use eth_historian.Archive.Verified.{verify_block_by_number-pre_merge}
use eth_historian.Archive.PostMerge.{auth_path_of, verify_block_by_number-post_merge}
use eth_historian.Tests.Data.{checksum, checksum-IsLawful, hash_of, zeros}
use eth_historian.Tests.Proofs.{two_records, of_two_records}
use eth_historian.Tests.Period.{own_trees, own_trees-IsSound, length-replicate}
use eth_historian.Tests.Payload.{plain, plain-IsChunked, bellatrix, deneb}
use eth_historian.Tests.Blocks.{
  operations, payloads, bodies, blocks, blocks-IsDerived, bellatrix_around, deneb_around,
}
use eth_historian.Tests.Archive.{
  zero_hex, raw_at, parsed_at, parses_early, parses_merge, parses_deneb,
}

take-append : (xs ys : Bytes) → take (length xs) (xs ++ ys) ≡ xs
take-append [] ys = refl
take-append (x ∷ xs) ys = ap (λ r. x ∷ r) (take-append xs ys)

drop-append : (xs ys : Bytes) → drop (length xs) (xs ++ ys) ≡ ys
drop-append [] ys = refl
drop-append (x ∷ xs) ys = drop-append xs ys

abbrev split_items : Bytes → Outcome DecodeError (Bytes × Bytes)
split_items [] = err (other "no length")
split_items (n ∷ rest) = ok (take n rest, drop n rest)

-- A decoder that knows one header and one proof of two kinds.
abbrev knows : Header → List B256 → BlockProofHistoricalRoots → Ssz
knows header hashes roots = record {
  two_items = split_items;
  byte_list = λ n b. if leb (length b) n then ok b else err (other "too long");
  rlp_header = λ b. some header;
  hashes = λ b. ok hashes;
  roots = λ b. ok roots;
  capella = λ b. err (other "unknown");
  deneb = λ b. err (other "unknown");
  debug = λ e. "decode error";
}

abbrev short : SszEncode
short = record {
  container = λ a b. length a ∷ (a ++ b);
  rlp_header = λ h. 0 ∷ [];
  hashes = λ p. 1 ∷ [];
  roots = λ p. 2 ∷ [];
  capella = λ p. 3 ∷ [];
  deneb = λ p. 4 ∷ [];
}

one_byte : (p : BlockHeaderProof) → length (proof_as_ssz_bytes short p) ≤ 1024
unfolding proof_as_ssz_bytes
one_byte (historical_hashes p) = omega arith
one_byte (historical_roots p) = omega arith
one_byte (historical_summaries_capella p) = omega arith
one_byte (historical_summaries_deneb p) = omega arith

knows-hashes :
    (header : Header) (hashes : List B256) (roots : BlockProofHistoricalRoots)
    → ReadsBack
        (knows header hashes roots)
        short
        (record { header = header; proof = historical_hashes hashes })
knows-hashes header hashes roots = record {
  container_lem = λ a b. ap₂ (λ x y. ok (x, y)) (take-append a b) (drop-append a b);
  byte_list_lem = λ n b h. rw (le→leb (length b) n h) refl;
  header_lem = refl;
  header_size = omega arith;
  proof_lem = refl;
  proof_size = one_byte (historical_hashes hashes);
}

knows-roots :
    (header : Header) (hashes : List B256) (roots : BlockProofHistoricalRoots)
    → ReadsBack
        (knows header hashes roots)
        short
        (record { header = header; proof = historical_roots roots })
knows-roots header hashes roots = record {
  container_lem = λ a b. ap₂ (λ x y. ok (x, y)) (take-append a b) (drop-append a b);
  byte_list_lem = λ n b h. rw (le→leb (length b) n h) refl;
  header_lem = refl;
  header_size = omega arith;
  proof_lem = refl;
  proof_size = one_byte (historical_roots roots);
}

abbrev no_roots : BlockProofHistoricalRoots
no_roots = record {
  beacon_block_proof = [];
  beacon_block_root = [];
  execution_block_proof = [];
  slot = 0;
}

abbrev early : Header
early = parsed_at 1 9

from_ssz_bytes-as_ssz_bytes_example :
    from_ssz_bytes
      (knows early (zeros 15) no_roots)
      (as_ssz_bytes short (record { header = early; proof = historical_hashes (zeros 15) }))
    ≡ ok (record { header = early; proof = historical_hashes (zeros 15) })
from_ssz_bytes-as_ssz_bytes_example =
    from_ssz_bytes-as_ssz_bytes (knows early (zeros 15) no_roots) short
      (record { header = early; proof = historical_hashes (zeros 15) }) (omega arith, omega arith)
      (knows-hashes early (zeros 15) no_roots)

abbrev rpc_of_epoch : ArchiveRpcSource
rpc_of_epoch = record {
  post = λ number. ok (record { result = some (raw_at "0x1" "0x9"); error = none });
  epoch_provider = some (record { get_epoch_accumulator = λ index. ok two_records });
  beacon_provider = none;
}

early_proof :
    (proof : List B256) × (construct_pre_merge_proof checksum hash_of early two_records ≡ ok proof)
early_proof =
    let made =
      validate-construct_pre_merge_proof checksum checksum-IsLawful hash_of of_two_records early
        two_records (record { block_hash = 1 ∷ []; total_difficulty = 40 }) (omega arith) refl refl
        (omega arith) refl in
    (made.0, made.1)

abbrev early_ssz : Ssz
early_ssz = knows early early_proof.0 no_roots

abbrev archive : SszEncode → ArchiveRpcSource → DataSource
archive E s =
    archive_data_source own_trees plain operations payloads bodies blocks checksum hash_of zero_hex
      E s

abbrev early_verifier : Verifier
early_verifier = record {
  validator = of_two_records;
  data_sources = archive short rpc_of_epoch ∷ [];
}

verify_block_by_number-pre_merge_example :
    verify_block_by_number checksum hash_of early_ssz early_verifier 1
    ≡ ok (record { header = early; auth_path = AuthPath.historical_hashes })
verify_block_by_number-pre_merge_example =
    verify_block_by_number-pre_merge checksum checksum-IsLawful own_trees own_trees-IsSound plain
      plain-IsChunked operations payloads bodies blocks blocks-IsDerived hash_of zero_hex early_ssz
      short early_verifier 1 [] [] rpc_of_epoch early two_records refl tt
      (raw_at "0x1" "0x9", refl, parses_early, refl) (omega arith) (omega arith)
      (
        record { get_epoch_accumulator = λ index. ok two_records },
        record { block_hash = 1 ∷ []; total_difficulty = 40 },
        refl,
        refl,
        omega arith,
        refl,
        refl,
        refl,
      )
      (λ proof made.
        subst
          (λ p. ReadsBack early_ssz short (record { header = early; proof = historical_hashes p }))
          (ok-injective (sym early_proof.1 ∙ made)) (knows-hashes early early_proof.0 no_roots))

abbrev early_block : HeaderWithProof
early_block = record { header = early; proof = historical_hashes early_proof.0 }

-- A network with one content.
abbrev network : PortalClient
network = record {
  post = λ key. ok (record { result = some (record { content = "0x02" }); error = none });
  encode = λ bytes. "02";
  decode = λ text. ok (as_ssz_bytes short early_block);
}

abbrev portal_verifier : Verifier
portal_verifier = record {
  validator = of_two_records;
  data_sources = portal_data_source network ∷ [];
}

early_valid : validate_header_with_proof checksum hash_of of_two_records early_block ≡ ok tt
unfolding early_proof
early_valid =
    let made =
      validate-construct_pre_merge_proof checksum checksum-IsLawful hash_of of_two_records early
        two_records (record { block_hash = 1 ∷ []; total_difficulty = 40 }) (omega arith) refl refl
        (omega arith) refl in
    made.3

verify_block_by_number-portal_example :
    verify_block_by_number checksum hash_of early_ssz portal_verifier 1
    ≡ ok (record { header = early; auth_path = auth_path_for early_block.proof })
verify_block_by_number-portal_example =
    verify_block_by_number-portal checksum hash_of early_ssz short portal_verifier 1 [] [] network
      early_block refl tt refl refl refl (omega arith, omega arith)
      (knows-hashes early early_proof.0 no_roots) early_valid

verify_block_by_hash-portal_example :
    verify_block_by_hash checksum hash_of early_ssz portal_verifier (hash_of early)
    ≡ ok (record { header = early; auth_path = auth_path_for early_block.proof })
verify_block_by_hash-portal_example =
    verify_block_by_hash-portal checksum hash_of early_ssz short portal_verifier [] [] network
      early_block refl tt refl refl (omega arith, omega arith)
      (knows-hashes early early_proof.0 no_roots) early_valid

-- The first block after the merge, as if in slot 0.
abbrev merged : Header
merged = parsed_at 15537394 1606824023

abbrev merged_block : BeaconBlockBellatrix
merged_block = bellatrix_around (record bellatrix { block_hash = hash_of merged })

abbrev full_batch : HistoricalBatch
full_batch = record {
  block_roots = replicate 8192 (blocks.bellatrix_block_root merged_block);
  state_roots = replicate 8192 (6 ∷ []);
}

abbrev merge_validator : HeaderValidator
merge_validator = record {
  pre_merge_acc = record { historical_epochs = [] };
  historical_roots_acc = record {
    historical_roots =
        checksum.hash32_concat (own_trees.tree_hash_root full_batch.block_roots)
          (own_trees.tree_hash_root full_batch.state_roots)
        ∷ [];
  };
  historical_summaries_provider = record { summaries = [] };
}

abbrev signed : SignedBeaconBlock
signed = signed_bellatrix (record { message = merged_block; signature = [] })

abbrev provider : BeaconDataProvider
provider = record {
  fetch_signed_beacon_block = λ slot. ok signed;
  fetch_historical_batch = λ slot. ok full_batch;
  name = "fixed";
}

abbrev rpc_of_beacon : ArchiveRpcSource
rpc_of_beacon = record {
  post = λ number. ok (record { result = some (raw_at "0xed14f2" "0x5fc63057"); error = none });
  epoch_provider = none;
  beacon_provider = some provider;
}

merged_slot : slot_for_execution_timestamp merged.timestamp ≡ some 0
unfolding slot_for_execution_timestamp
merged_slot = refl

merged_proof :
    (p : BlockProofHistoricalRoots) × (post_merge_proof own_trees plain operations payloads bodies
        blocks 0 full_batch signed
      ≡ ok (historical_roots p))
unfolding post_merge_proof
merged_proof =
    let made =
      validate-build_historical_roots_proof checksum checksum-IsLawful own_trees own_trees-IsSound
        plain plain-IsChunked operations payloads bodies blocks blocks-IsDerived hash_of
        merge_validator {E = Error} merged 0 full_batch merged_block (omega arith) (omega arith)
        refl (length-replicate 8192 (blocks.bellatrix_block_root merged_block)) refl refl in
    (made.0, ap (λ m. m >>= λ p. ok (historical_roots p)) made.1)

abbrev merged_ssz : Ssz
merged_ssz = knows merged [] merged_proof.0

abbrev merged_verifier : Verifier
merged_verifier = record {
  validator = merge_validator;
  data_sources = archive short rpc_of_beacon ∷ [];
}

-- The first slot of Deneb.
abbrev recent : Header
recent = parsed_at 15537394 1710338135

abbrev recent_block : BeaconBlockDeneb
recent_block = deneb_around (record deneb { block_hash = hash_of recent })

abbrev recent_batch : HistoricalBatch
recent_batch = record {
  block_roots = replicate 8192 (blocks.deneb_block_root recent_block);
  state_roots = replicate 8192 (6 ∷ []);
}

abbrev recent_summary : HistoricalSummary
recent_summary = record {
  block_summary_root = own_trees.tree_hash_root recent_batch.block_roots;
  state_summary_root = 7 ∷ [];
}

abbrev recent_validator : HeaderValidator
recent_validator = record {
  pre_merge_acc = record { historical_epochs = [] };
  historical_roots_acc = record { historical_roots = [] };
  historical_summaries_provider = record { summaries = replicate 296 recent_summary };
}

abbrev recent_signed : SignedBeaconBlock
recent_signed = signed_deneb (record { message = recent_block; signature = [] })

abbrev recent_provider : BeaconDataProvider
recent_provider = record {
  fetch_signed_beacon_block = λ slot. ok recent_signed;
  fetch_historical_batch = λ slot. ok recent_batch;
  name = "fixed";
}

abbrev rpc_of_recent : ArchiveRpcSource
rpc_of_recent = record {
  post = λ number. ok (record { result = some (raw_at "0xed14f2" "0x65f1b057"); error = none });
  epoch_provider = none;
  beacon_provider = some recent_provider;
}

recent_slot : slot_for_execution_timestamp recent.timestamp ≡ some 8626176
unfolding slot_for_execution_timestamp
recent_slot = refl

recent_proof :
    (p : BlockProofHistoricalSummariesDeneb) × (post_merge_proof own_trees plain operations payloads
        bodies blocks 8626176 recent_batch recent_signed
      ≡ ok (historical_summaries_deneb p))
unfolding post_merge_proof
recent_proof =
    let made =
      validate-build_deneb_historical_summaries_proof checksum checksum-IsLawful own_trees
        own_trees-IsSound plain plain-IsChunked operations payloads bodies blocks blocks-IsDerived
        hash_of recent_validator {E = Error} recent 8626176 recent_batch.block_roots recent_block
        (omega arith) refl
        (
          length-replicate 8192 (blocks.deneb_block_root recent_block),
          omega arith,
          refl,
          (recent_summary, refl, refl),
        ) in
    (made.0, ap (λ m. m >>= λ p. ok (historical_summaries_deneb p)) made.1)

abbrev recent_ssz : Ssz
recent_ssz = record (knows recent [] no_roots) { deneb = λ b. ok recent_proof.0 }

knows-deneb :
    ReadsBack recent_ssz short
      (record { header = recent; proof = historical_summaries_deneb recent_proof.0 })
knows-deneb = record {
  container_lem = λ a b. ap₂ (λ x y. ok (x, y)) (take-append a b) (drop-append a b);
  byte_list_lem = λ n b h. rw (le→leb (length b) n h) refl;
  header_lem = refl;
  header_size = omega arith;
  proof_lem = refl;
  proof_size = one_byte (historical_summaries_deneb recent_proof.0);
}

abbrev recent_verifier : Verifier
recent_verifier = record {
  validator = recent_validator;
  data_sources = archive short rpc_of_recent ∷ [];
}

-- A block of Bellatrix and one of Deneb.
verify_block_by_number-post_merge_example :
    (verify_block_by_number checksum hash_of merged_ssz merged_verifier 15537394
      ≡ ok (record { header = merged; auth_path = auth_path_of signed }))
    × (verify_block_by_number checksum hash_of recent_ssz recent_verifier 15537394
        ≡ ok (record { header = recent; auth_path = auth_path_of recent_signed }))
verify_block_by_number-post_merge_example = (
  verify_block_by_number-post_merge checksum checksum-IsLawful own_trees own_trees-IsSound plain
      plain-IsChunked operations payloads bodies blocks blocks-IsDerived hash_of merged_verifier
      zero_hex merged_ssz short 15537394 [] [] rpc_of_beacon merged 0 signed full_batch refl tt
      (raw_at "0xed14f2" "0x5fc63057", refl, parses_merge, refl) (omega arith)
      (provider, refl, merged_slot, refl, refl)
      (
        omega arith,
        refl,
        length-replicate 8192 (blocks.bellatrix_block_root merged_block),
        refl,
        refl,
      )
      (λ p made.
        subst (λ q. ReadsBack merged_ssz short (record { header = merged; proof = q }))
          (ok-injective (sym merged_proof.1 ∙ made)) (knows-roots merged [] merged_proof.0)),
  verify_block_by_number-post_merge checksum checksum-IsLawful own_trees own_trees-IsSound plain
      plain-IsChunked operations payloads bodies blocks blocks-IsDerived hash_of recent_verifier
      zero_hex recent_ssz short 15537394 [] [] rpc_of_recent recent 8626176 recent_signed
      recent_batch refl tt (raw_at "0xed14f2" "0x65f1b057", refl, parses_deneb, refl) (omega arith)
      (recent_provider, refl, recent_slot, refl, refl)
      (
        omega arith,
        refl,
        (
          length-replicate 8192 (blocks.deneb_block_root recent_block),
          omega arith,
          refl,
          (recent_summary, refl, refl),
        ),
      )
      (λ p made.
        subst (λ q. ReadsBack recent_ssz short (record { header = recent; proof = q }))
          (ok-injective (sym recent_proof.1 ∙ made)) knows-deneb),
)
