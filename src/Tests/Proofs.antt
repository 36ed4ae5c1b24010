-- ===== src/Tests/Proofs.antt =====
-- Tests of the Merkle trees, of the decoder and of the construction of proofs.
use eth_historian.Base.{
  ℕ, ◌≤◌, ◌≡◌, refl, ◌⊎◌, List, [], ◌∷◌, some, ok, err, panic, true, false, if◌then◌else◌, ◌==◌,
  bytes_eq, ith_bit, length, get_elem?, String, B256, arith,
}
use eth_historian.Errors.{proof_construction}
use eth_historian.Merkle.Tree.{MerkleTree, leaf, node, create, hash, generate_proof}
use eth_historian.Merkle.Verify.{verify_merkle_proof}
use eth_historian.Merkle.Climb.{climb, verify_merkle_proof_lem}
use eth_historian.Merkle.Binding.{PathsCollide, verify_merkle_proof-binds}
use eth_historian.Merkle.Shape.{root_of}
use eth_historian.Merkle.Walk.{verify-generate_proof}
use eth_historian.Merkle.Create.{padded, complete_root}
use eth_historian.Merkle.EndToEnd.{verify-create}
use eth_historian.Types.Header.{HeaderWithProof, historical_hashes, IsSized}
use eth_historian.Types.Codec.{from_ssz_bytes}
use eth_historian.Types.Decode.{IsInEra, from_ssz_bytes_lem}
use eth_historian.Types.Summaries.{HistoricalSummary, HistoricalSummariesProvider}
use eth_historian.Validator.{HeaderValidator, validate_header_with_proof}
use eth_historian.ProofConstruction.{HeaderRecord, EpochAccumulator, construct_pre_merge_proof}
use eth_historian.ProofConstruction.RoundTrip.{
  epoch_root, validate-construct_pre_merge_proof, construct_pre_merge_proof-fails,
}
use eth_historian.Tests.Data.{
  checksum, checksum-IsLawful, header_at, hash_of, ssz, ssz-DecodesSized, zeros,
}

abbrev three_leaves : List B256
three_leaves = (1 ∷ []) ∷ (2 ∷ []) ∷ (3 ∷ []) ∷ []

verify-create_example :
    (t : MerkleTree) × (branch : List B256) × (create checksum {E = String} three_leaves 2 ≡ ok t)
    × (generate_proof checksum t 2 2 ≡ ok (padded checksum three_leaves 2, branch))
    × (hash checksum {E = String} t ≡ ok (complete_root checksum 2 (padded checksum three_leaves)))
    × (verify_merkle_proof checksum {E = String}
          (padded checksum three_leaves 2)
          branch
          2
          2
          (complete_root checksum 2 (padded checksum three_leaves))
        ≡ ok true)
verify-create_example =
    verify-create checksum checksum-IsLawful three_leaves 2 2 (omega arith) (omega arith)
      {E = String}

abbrev two_leaves : MerkleTree
two_leaves = node (12 ∷ []) (leaf (5 ∷ [])) (leaf (7 ∷ []))

verify-generate_proof_example :
    (l : B256) × (branch : List B256) × (generate_proof checksum two_leaves 1 1 ≡ ok (l, branch))
    × (hash checksum {E = String} two_leaves ≡ ok (root_of checksum two_leaves))
    × (verify_merkle_proof checksum {E = String} l branch 1 1 (root_of checksum two_leaves)
        ≡ ok true)
verify-generate_proof_example =
    verify-generate_proof checksum checksum-IsLawful {E = String} 1 1 two_leaves (omega arith)
      (refl, tt, tt)

abbrev byte : ℕ → B256
byte n = n ∷ []

abbrev one_node : ℕ → List B256
one_node n = byte n ∷ []

verify_merkle_proof_lem_example :
    verify_merkle_proof checksum {E = String} (byte 7) (one_node 5) 1 1 (byte 12)
    ≡ ok (
        if length (one_node 5) == 1
        then bytes_eq (climb checksum 1 (byte 7) (one_node 5)) (byte 12)
        else false)
verify_merkle_proof_lem_example =
    verify_merkle_proof_lem checksum checksum-IsLawful {E = String} (byte 7) (one_node 5) 1 1
      (byte 12) (omega arith)

accepts_seven :
    verify_merkle_proof checksum {E = String} (byte 7) (one_node 5) 1 1 (byte 12) ≡ ok true
unfolding verify_merkle_proof bytes_eq ith_bit
accepts_seven = refl

accepts_eight :
    verify_merkle_proof checksum {E = String} (byte 8) (one_node 4) 1 1 (byte 12) ≡ ok true
unfolding verify_merkle_proof bytes_eq ith_bit
accepts_eight = refl

verify_merkle_proof-binds_example :
    ((byte 7 ≡ byte 8) × (one_node 5 ≡ one_node 4))
    ⊎ PathsCollide checksum 1 (byte 7) (one_node 5) (byte 8) (one_node 4)
verify_merkle_proof-binds_example =
    verify_merkle_proof-binds checksum checksum-IsLawful {E = String} 1 1 (byte 12) (byte 7)
      (byte 8) (one_node 5) (one_node 4) (omega arith) accepts_seven accepts_eight

abbrev early : HeaderWithProof
early = record { header = header_at 3 9; proof = historical_hashes (zeros 15) }

decodes : from_ssz_bytes ssz (3 ∷ 9 ∷ []) ≡ ok early
unfolding from_ssz_bytes
decodes = refl

from_ssz_bytes_lem_example : IsSized early.proof × IsInEra early.header early.proof
from_ssz_bytes_lem_example = from_ssz_bytes_lem ssz ssz-DecodesSized (3 ∷ 9 ∷ []) early decodes

abbrev one_summary : HistoricalSummariesProvider
one_summary = record {
  summaries = record { block_summary_root = 7 ∷ []; state_summary_root = 8 ∷ [] } ∷ [];
}

abbrev first_summary : HistoricalSummary
first_summary = record { block_summary_root = 7 ∷ []; state_summary_root = 8 ∷ [] }

abbrev pub two_records : EpochAccumulator
two_records =
    record { block_hash = 0 ∷ []; total_difficulty = 17 }
    ∷ record { block_hash = 1 ∷ []; total_difficulty = 40 }
    ∷ []

abbrev pub of_two_records : HeaderValidator
of_two_records = record {
  pre_merge_acc = record { historical_epochs = epoch_root checksum two_records ∷ [] };
  historical_roots_acc = record { historical_roots = [] };
  historical_summaries_provider = one_summary;
}

validate-construct_pre_merge_proof_example :
    (proof : List B256) × (construct_pre_merge_proof checksum hash_of (header_at 1 9) two_records
      ≡ ok proof)
    × (length proof ≡ 15)
    × (validate_header_with_proof checksum hash_of of_two_records
          (record { header = header_at 1 9; proof = historical_hashes proof })
        ≡ ok tt)
validate-construct_pre_merge_proof_example =
    validate-construct_pre_merge_proof checksum checksum-IsLawful hash_of of_two_records
      (header_at 1 9) two_records (record { block_hash = 1 ∷ []; total_difficulty = 40 })
      (omega arith) refl refl (omega arith) refl

construct_pre_merge_proof-fails_example :
    ((r : HeaderRecord) × (get_elem? two_records 2 ≡ some r)
      × (r.block_hash ≡ byte 2)
      × (proof : List B256) × (construct_pre_merge_proof checksum hash_of
            (header_at 2 9)
            two_records
          ≡ ok proof))
    ⊎ ((r : HeaderRecord) × (get_elem? two_records 2 ≡ some r)
        × (¬ (r.block_hash ≡ byte 2))
        × (construct_pre_merge_proof checksum hash_of (header_at 2 9) two_records
            ≡ err (proof_construction "header hash doesn't match epoch accumulator entry")))
    ⊎ ((length two_records ≤ 2)
        × (construct_pre_merge_proof checksum hash_of (header_at 2 9) two_records ≡ panic))
construct_pre_merge_proof-fails_example =
    construct_pre_merge_proof-fails checksum checksum-IsLawful hash_of (header_at 2 9) two_records
      (omega arith)
