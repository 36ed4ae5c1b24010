-- ===== src/Tests/Sources.antt =====
-- Tests of the verifier with its sources, and of its builder.
use eth_historian.Base.{
  ◌≡◌, refl, ◌⊎◌, ◌↔◌, List, [], ◌∷◌, ◌++◌, String, false, Option, none, some, ok, err, panic,
  if◌then◌else◌, bytes_eq, ith_bit, Bytes, arith,
}
use Prim.Native.String.{compare}
use Prim.Native.Nat.{eq}
use eth_historian.Errors.{block_not_found, no_data_source, http}
use eth_historian.Fingerprints.{
  Assets, merge_macc_bin_sha256, historical_roots_ssz_sha256, default_pre_merge_acc_hash,
  default_historical_roots_hash,
}
use eth_historian.Types.Header.{HeaderWithProof, historical_roots}
use eth_historian.Types.Codec.{from_ssz_bytes}
use eth_historian.Merkle.Verify.{verify_merkle_proof}
use eth_historian.Validator.{HeaderValidator, verify_pre_merge_header}
use eth_historian.Api.{
  AuthPath, VerifiedBlock, DataSource, VerifierBuilder, Verifier, build, or_default, block_hash,
  try_by_number, try_by_hash, verify_block_by_number, verify_block_by_hash, is_empty,
}
use eth_historian.Api.Sources.{AllFail, last_error}
use eth_historian.Api.Trust.{
  IsTrusted, Passed, verify_block_by_number_sound, verify_block_by_hash_sound,
}
use eth_historian.Api.Fallback.{
  verify_block_by_number_iff, verify_block_by_number-exhausted, verify_block_by_number-aborts,
}
use eth_historian.Api.Agree.{HashesCollide, verify_block_by_number-agree}
use eth_historian.Api.Build.{IsCanonical, build-IsCanonical}
use eth_historian.Tests.Data.{
  checksum, checksum-IsLawful, header_at, hash_of, ssz, ssz-DecodesSized, roots_at,
}

abbrev small : HeaderValidator
small = record {
  pre_merge_acc = record { historical_epochs = (3 ∷ []) ∷ [] };
  historical_roots_acc = record { historical_roots = [] };
  historical_summaries_provider = record { summaries = [] };
}

-- A source that is down, and one that answers with some bytes.
abbrev down : DataSource
down = record {
  fetch_header_with_proof_by_number = λ n. err (http "timeout");
  fetch_header_with_proof_by_hash = λ h. err (http "timeout");
  name = "down";
}

abbrev answers : Bytes → DataSource
answers bytes = record {
  fetch_header_with_proof_by_number = λ n. ok bytes;
  fetch_header_with_proof_by_hash = λ h. ok bytes;
  name = "cache";
}

abbrev with_sources : List DataSource → Verifier
with_sources sources = record { validator = small; data_sources = sources }

abbrev falls_back : Verifier
falls_back = with_sources (down ∷ answers (3 ∷ 9 ∷ []) ∷ [])

abbrev third : VerifiedBlock
third = record { header = header_at 3 9; auth_path = AuthPath.historical_hashes }

third_by_number : verify_block_by_number checksum hash_of ssz falls_back 3 ≡ ok third
unfolding verify_block_by_number verify_pre_merge_header verify_merkle_proof bytes_eq ith_bit
third_by_number = refl

third_by_hash : verify_block_by_hash checksum hash_of ssz falls_back (3 ∷ []) ≡ ok third
unfolding verify_block_by_hash verify_pre_merge_header verify_merkle_proof bytes_eq ith_bit
third_by_hash = refl

verify_block_by_number_sound_example :
    (third.header.number ≡ 3)
    × IsTrusted checksum hash_of falls_back.validator third
    × ((before : List DataSource) × (s : DataSource) × (after : List DataSource)
        × (falls_back.data_sources ≡ before ++ s ∷ after)
        × AllFail (try_by_number checksum hash_of ssz falls_back 3) before
        × Passed checksum hash_of ssz falls_back (s.fetch_header_with_proof_by_number 3) third)
verify_block_by_number_sound_example =
    verify_block_by_number_sound checksum checksum-IsLawful hash_of ssz ssz-DecodesSized falls_back
      3 third third_by_number

verify_block_by_hash_sound_example :
    (hash_of third.header ≡ 3 ∷ [])
    × IsTrusted checksum hash_of falls_back.validator third
    × ((before : List DataSource) × (s : DataSource) × (after : List DataSource)
        × (falls_back.data_sources ≡ before ++ s ∷ after)
        × AllFail (try_by_hash checksum hash_of ssz falls_back (3 ∷ [])) before
        × Passed checksum hash_of ssz falls_back (s.fetch_header_with_proof_by_hash (3 ∷ [])) third)
verify_block_by_hash_sound_example =
    verify_block_by_hash_sound checksum checksum-IsLawful hash_of ssz ssz-DecodesSized falls_back
      (3 ∷ []) third third_by_hash

verify_block_by_number_iff_example :
    (verify_block_by_number checksum hash_of ssz falls_back 3 ≡ ok third) ↔ (
      (before : List DataSource) × (s : DataSource) × (after : List DataSource)
      × (falls_back.data_sources ≡ before ++ s ∷ after)
      × AllFail (try_by_number checksum hash_of ssz falls_back 3) before
      × (try_by_number checksum hash_of ssz falls_back 3 s ≡ ok third))
verify_block_by_number_iff_example =
    verify_block_by_number_iff checksum hash_of ssz falls_back 3 third

abbrev all_down : Verifier
all_down = with_sources (down ∷ down ∷ [])

all_fail : AllFail (try_by_number checksum hash_of ssz all_down 3) (down ∷ down ∷ [])
unfolding try_by_number
all_fail = ((http "timeout", refl), ((http "timeout", refl), tt))

verify_block_by_number-exhausted_example :
    verify_block_by_number checksum hash_of ssz all_down 3 ≡ (
      if is_empty all_down.data_sources
      then err no_data_source
      else err (
          last_error
            (try_by_number checksum hash_of ssz all_down 3)
            (block_not_found 3)
            all_down.data_sources))
verify_block_by_number-exhausted_example =
    verify_block_by_number-exhausted checksum hash_of ssz all_down 3 all_fail

abbrev forged : HeaderWithProof
forged = record { header = header_at 15537394 9; proof = historical_roots (roots_at 8192000) }

abbrev attacked : Verifier
attacked = with_sources (answers (15537394 ∷ 9 ∷ []) ∷ answers (3 ∷ 9 ∷ []) ∷ [])

forged_decodes : from_ssz_bytes ssz (15537394 ∷ 9 ∷ []) ≡ ok forged
unfolding from_ssz_bytes
forged_decodes = refl

verify_block_by_number-aborts_example :
    verify_block_by_number checksum hash_of ssz attacked 15537394 ≡ panic
verify_block_by_number-aborts_example =
    verify_block_by_number-aborts checksum hash_of ssz attacked 15537394 checksum-IsLawful
      ssz-DecodesSized [] (answers (15537394 ∷ 9 ∷ [])) (answers (3 ∷ 9 ∷ []) ∷ [])
      (15537394 ∷ 9 ∷ []) forged refl tt refl forged_decodes refl
      (omega arith, omega arith, refl, omega arith)

abbrev other_third : VerifiedBlock
other_third = record { header = header_at 3 10; auth_path = AuthPath.historical_hashes }

abbrev other : Verifier
other = with_sources (answers (3 ∷ 10 ∷ []) ∷ [])

other_by_number : verify_block_by_number checksum hash_of ssz other 3 ≡ ok other_third
unfolding verify_block_by_number verify_pre_merge_header verify_merkle_proof bytes_eq ith_bit
other_by_number = refl

verify_block_by_number-agree_example :
    (block_hash checksum hash_of third ≡ block_hash checksum hash_of other_third)
    ⊎ HashesCollide checksum 3
        (block_hash checksum hash_of third)
        (block_hash checksum hash_of other_third)
verify_block_by_number-agree_example =
    verify_block_by_number-agree checksum checksum-IsLawful hash_of ssz ssz-DecodesSized falls_back
      other 3 third other_third refl third_by_number other_by_number refl refl

-- Embedded files whose hashes are the ones that the check expects.
abbrev contents : String → Option Bytes
contents path = elim (compare path "validation_assets/merge_macc.bin") [
  | eq ↦ some merge_macc_bin_sha256
  | _ ↦ some historical_roots_ssz_sha256
]

abbrev canonical : Assets
canonical = record {
  get = contents;
  sha256 = λ raw. raw;
  pre_merge_from_ssz_bytes = λ raw. some (record { historical_epochs = (3 ∷ []) ∷ [] });
  historical_roots_from_ssz_bytes = λ raw. some ((4 ∷ []) ∷ []);
  pre_merge_tree_hash_root = λ acc. default_pre_merge_acc_hash;
  historical_roots_tree_hash_root = λ roots. default_historical_roots_hash;
}

abbrev one_source : VerifierBuilder
one_source = record {
  data_sources = down ∷ [];
  historical_summaries = none;
  skip_fingerprint_check = false;
}

abbrev canonical_built : Verifier
canonical_built = record {
  validator = record {
    pre_merge_acc = record { historical_epochs = (3 ∷ []) ∷ [] };
    historical_roots_acc = record { historical_roots = (4 ∷ []) ∷ [] };
    historical_summaries_provider = record { summaries = [] };
  };
  data_sources = down ∷ [];
}

builds : build canonical one_source ≡ ok canonical_built
unfolding build bytes_eq
builds = refl

build-IsCanonical_example :
    IsCanonical canonical canonical_built.validator.pre_merge_acc
      canonical_built.validator.historical_roots_acc
    × (canonical_built.validator.historical_summaries_provider.summaries
        ≡ or_default one_source.historical_summaries)
    × (canonical_built.data_sources ≡ one_source.data_sources)
build-IsCanonical_example = build-IsCanonical canonical one_source canonical_built refl builds
