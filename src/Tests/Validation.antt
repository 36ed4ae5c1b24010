-- ===== src/Tests/Validation.antt =====
-- Tests of the validator, and of a verifier without summaries.
use eth_historian.Base.{
  ◌%◌, ◌≡◌, refl, ◌⊎◌, ◌↔◌, [], ◌∷◌, String, ok, err, panic, bytes_eq, ith_bit, B256, arith,
}
use eth_historian.Merkle.Verify.{verify_merkle_proof}
use eth_historian.Errors.{verification_failed}
use eth_historian.Types.Header.{
  HeaderWithProof, historical_hashes, historical_roots, historical_summaries_capella,
}
use eth_historian.Validator.{HeaderValidator, verify_pre_merge_header, validate_header_with_proof}
use eth_historian.Validator.Accept.{IsAuthentic, validate_header_with_proof_iff}
use eth_historian.Validator.Unique.{ProofsCollide, validate_header_with_proof_unique}
use eth_historian.Validator.Panics.{
  IsOutOfRange, validate_header_with_proof-panic, forged_slot_panics,
}
use eth_historian.Api.{Verifier, verify}
use eth_historian.Api.WithoutSummaries.{verify-without_summaries}
use eth_historian.Tests.Data.{
  checksum, checksum-IsLawful, header_at, hash_of, zeros, roots_at, capella_at,
}

abbrev small : HeaderValidator
small = record {
  pre_merge_acc = record { historical_epochs = (3 ∷ []) ∷ [] };
  historical_roots_acc = record { historical_roots = (15537394 % 251 ∷ []) ∷ [] };
  historical_summaries_provider = record { summaries = [] };
}

-- A header from before the merge, and the same with other fields.
abbrev third : HeaderWithProof
third = record { header = header_at 3 9; proof = historical_hashes (zeros 15) }

abbrev other_third : HeaderWithProof
other_third = record { header = header_at 3 10; proof = historical_hashes (zeros 15) }

abbrev merged : HeaderWithProof
merged = record {
  header = header_at 15537394 1663224179;
  proof = historical_roots (roots_at 8192000);
}

abbrev shanghai : HeaderWithProof
shanghai = record {
  header = header_at 17034870 1681338455;
  proof = historical_summaries_capella (capella_at 6209536);
}

validate_header_with_proof_iff_example :
    (validate_header_with_proof checksum hash_of small third ≡ ok tt)
    ↔ IsAuthentic checksum hash_of small third.header third.proof
validate_header_with_proof_iff_example =
    validate_header_with_proof_iff checksum checksum-IsLawful hash_of small third refl

third_valid : validate_header_with_proof checksum hash_of small third ≡ ok tt
unfolding validate_header_with_proof verify_pre_merge_header verify_merkle_proof bytes_eq ith_bit
third_valid = refl

other_third_valid : validate_header_with_proof checksum hash_of small other_third ≡ ok tt
unfolding validate_header_with_proof verify_pre_merge_header verify_merkle_proof bytes_eq ith_bit
other_third_valid = refl

validate_header_with_proof_unique_example :
    (hash_of third.header ≡ hash_of other_third.header)
    ⊎ ProofsCollide checksum hash_of third.header third.proof other_third.header other_third.proof
validate_header_with_proof_unique_example =
    validate_header_with_proof_unique checksum checksum-IsLawful hash_of small third other_third
      refl refl refl third_valid other_third_valid

validate_header_with_proof-panic_example :
    (validate_header_with_proof checksum hash_of small merged ≡ panic)
    ↔ IsOutOfRange checksum hash_of small merged.header merged.proof
validate_header_with_proof-panic_example =
    validate_header_with_proof-panic checksum checksum-IsLawful hash_of small merged (refl, refl)

forged_slot_panics_example :
    (root : B256) × (validate_header_with_proof checksum hash_of small (record {
      header = header_at 15537394 1663224179;
      proof = historical_roots (record {
        beacon_block_proof = zeros 14;
        beacon_block_root = root;
        execution_block_proof = zeros 11;
        slot = 8192;
      });
    })
      ≡ panic)
forged_slot_panics_example =
    forged_slot_panics checksum checksum-IsLawful hash_of small (header_at 15537394 1663224179)
      (zeros 11) (zeros 14) 8192 (omega arith) (omega arith) refl refl (omega arith)

abbrev without_summaries : Verifier
without_summaries = record { validator = small; data_sources = [] }

verify-without_summaries_example :
    (reason : String) × (verify checksum hash_of without_summaries shanghai
      ≡ err (verification_failed shanghai.header.number reason))
verify-without_summaries_example =
    verify-without_summaries checksum hash_of checksum-IsLawful without_summaries shanghai
      (refl, refl) tt refl
