-- ===== src/Tests/Period.antt =====
-- Tests of the proofs of beacon block roots: `rs_merkle` is played by the trees of src/merkle/proof.rs.
use eth_historian.Base.{
  ℕ, zero, suc, ◌/◌, ◌%◌, ◌^◌, ◌≤◌, ◌<◌, ◌≡◌, refl, sym, ap, ◌∙◌, List, [], ◌∷◌, ok, true, leb,
  lt→leb, if◌then◌else◌, String, length, replicate, get_or, pow_pos, pow-suc_two, arith, B256,
}
use native.Mathlib.Nat.{mod-eq_of_lt}
use eth_historian.Merkle.Shape.{zero_hash}
use eth_historian.Merkle.Walk.{siblings, length-siblings, climb-siblings}
use eth_historian.Merkle.Climb.{climb}
use eth_historian.Merkle.Create.{
  padded, complete_root, complete_root-cong, built, built-IsTree, root_of-built, reached-built,
}
use eth_historian.Types.Summaries.{HistoricalSummary}
use eth_historian.Validator.{
  HeaderValidator, verify_historical_roots_beacon_block_proof,
  verify_historical_summaries_beacon_block_proof,
}
use eth_historian.Beacon.{
  RootsHashing, IsSound, zero_chunk, build_merkle_proof_for_index, HistoricalBatch,
  build_block_root_proof,
}
use eth_historian.Beacon.Accepted.{
  verify-build_block_root_proof, verify-build_merkle_proof_for_index,
}
use eth_historian.Tests.Data.{checksum, checksum-IsLawful, hash_of}

abbrev log2 : ℕ → ℕ → ℕ
log2 zero n = 0
log2 (suc fuel) n = let rest = log2 fuel (n / 2) in if leb n 1 then 0 else suc rest

log2-pow : (fuel d : ℕ) → d ≤ fuel → log2 fuel (2 ^ d) ≡ d
log2-pow zero d h = omega arith
log2-pow (suc fuel) zero h = refl
log2-pow (suc fuel) (suc d) h =
    let half : 2 ^ suc d / 2 ≡ 2 ^ d = omega (arith, pow-suc_two d) in
    let large : 1 < 2 ^ suc d = omega (arith, pow-suc_two d, pow_pos d) in
    rw (lt→leb _ _ large, half, log2-pow fuel d (omega arith)) refl

abbrev pub own_trees : RootsHashing
own_trees = record {
  proof_hashes = λ leaves index.
      siblings checksum index (log2 32 (length leaves))
        (built checksum leaves (log2 32 (length leaves)));
  tree_hash_root = λ roots. complete_root checksum 13 (λ i. get_or roots i zero_chunk);
}

either_default :
    (xs : List B256) (i : ℕ) (a b : B256) → i < length xs → get_or xs i a ≡ get_or xs i b
either_default [] i a b h = absurd (omega arith)
either_default (x ∷ xs) zero a b h = refl
either_default (x ∷ xs) (suc i) a b h = either_default xs i a b (omega arith)

depth_found :
    (leaves : List B256) (d : ℕ) → d ≤ 32 → length leaves ≡ 2 ^ d → log2 32 (length leaves) ≡ d
depth_found leaves d h l = ap (log2 32) l ∙ log2-pow 32 d h

climbs :
    (leaves : List B256) (index d : ℕ)
    → d ≤ 32
    → length leaves ≡ 2 ^ d
    → index < 2 ^ d
    → climb checksum index
        (get_or leaves index zero_chunk)
        (siblings checksum index d (built checksum leaves d))
      ≡ complete_root checksum d (λ i. get_or leaves i zero_chunk)
climbs leaves index d h l small =
    ap (λ leaf. climb checksum index leaf (siblings checksum index d (built checksum leaves d)))
      (either_default leaves index zero_chunk (zero_hash checksum 0) (omega arith)
        ∙ ap (padded checksum leaves) (sym (mod-eq_of_lt small))
        ∙ sym (reached-built checksum checksum-IsLawful index leaves d (omega arith) (omega arith)))
    ∙ climb-siblings checksum checksum-IsLawful index d (built checksum leaves d)
        (built-IsTree checksum checksum-IsLawful leaves d (omega arith) (omega arith))
    ∙ root_of-built checksum checksum-IsLawful leaves d (omega arith) (omega arith)
    ∙ complete_root-cong checksum d (padded checksum leaves) (λ i. get_or leaves i zero_chunk)
        (λ i p. either_default leaves i (zero_hash checksum 0) zero_chunk (omega arith))

pub own_trees-IsSound : IsSound checksum own_trees
own_trees-IsSound = record {
  length-proof_hashes = λ leaves index d h l small.
      rw (depth_found leaves d h l) (length-siblings checksum index d (built checksum leaves d));
  climb-proof_hashes =
      λ leaves index d h l small. rw (depth_found leaves d h l) (climbs leaves index d h l small);
  tree_hash_root_lem = λ roots l. refl;
}

pub length-replicate : (n : ℕ) (x : B256) → length (replicate n x) ≡ n
length-replicate zero x = refl
length-replicate (suc n) x = ap suc (length-replicate n x)

abbrev batch : HistoricalBatch
batch = record { block_roots = replicate 8192 (5 ∷ []); state_roots = replicate 8192 (6 ∷ []) }

abbrev summary : HistoricalSummary
summary = record {
  block_summary_root = own_trees.tree_hash_root batch.block_roots;
  state_summary_root = 6 ∷ [];
}

abbrev period : HeaderValidator
period = record {
  pre_merge_acc = record { historical_epochs = [] };
  historical_roots_acc = record {
    historical_roots =
        checksum.hash32_concat (own_trees.tree_hash_root batch.block_roots)
          (own_trees.tree_hash_root batch.state_roots)
        ∷ [];
  };
  historical_summaries_provider = record { summaries = summary ∷ [] };
}

verify-build_block_root_proof_example :
    (proof : List B256) × (build_block_root_proof own_trees {E = String} batch (100 % 8192)
      ≡ ok proof)
    × (verify_historical_roots_beacon_block_proof checksum hash_of period 100
          (get_or batch.block_roots (100 % 8192) zero_chunk)
          proof
        ≡ ok true)
verify-build_block_root_proof_example =
    verify-build_block_root_proof checksum checksum-IsLawful own_trees own_trees-IsSound hash_of
      period batch 100 (length-replicate 8192 (5 ∷ [])) refl

verify-build_merkle_proof_for_index_example :
    verify_historical_summaries_beacon_block_proof checksum hash_of period 6209600
      (get_or batch.block_roots (6209600 % 8192) zero_chunk)
      (build_merkle_proof_for_index own_trees batch.block_roots (6209600 % 8192))
    ≡ ok true
verify-build_merkle_proof_for_index_example =
    verify-build_merkle_proof_for_index checksum checksum-IsLawful own_trees own_trees-IsSound
      hash_of period batch.block_roots 6209600 summary (length-replicate 8192 (5 ∷ []))
      (omega arith) refl refl
