-- ===== src/Tests/Data.antt =====
-- The inputs of the tests: a checksum as the hash, headers that differ in their number and time, and an
-- SSZ decoder that reads a header's number and time from two bytes.
use eth_historian.Base.{
  ℕ, suc, ◌+◌, ◌%◌, ◌≡◌, refl, sym, ap, ◌∙◌, subst, List, [], ◌∷◌, ◌++◌, Option, none, some, ok,
  ok-injective, some-injective, replicate, get_elem?, Bytes, B256,
}
use eth_historian.Merkle.Hashing.{Hashing, IsLawful}
use eth_historian.Types.Header.{
  Header, BlockProofHistoricalRoots, BlockProofHistoricalSummariesCapella,
  BlockProofHistoricalSummariesDeneb, historical_hashes, historical_roots,
  historical_summaries_capella, historical_summaries_deneb, IsSized,
}
use eth_historian.Types.Codec.{Ssz, DecodesSized}

abbrev sum : Bytes → ℕ
sum [] = 0
sum (x ∷ xs) = x + sum xs

abbrev pub checksum : Hashing
checksum = record {
  hash = λ bytes. sum bytes % 251 ∷ [];
  hash32_concat = λ a b. sum (a ++ b) % 251 ∷ [];
  zero_hashes = replicate 49 (0 ∷ []);
}

replicated : (n i : ℕ) (x : B256) {y : B256} → get_elem? (replicate n x) i ≡ some y → x ≡ y
replicated ℕ.zero i x e = cc
replicated (suc n) ℕ.zero x e = some-injective e
replicated (suc n) (suc i) x e = replicated n i x e

zero_step :
    (d : ℕ) (z z' : B256)
    → get_elem? checksum.zero_hashes d ≡ some z
    → get_elem? checksum.zero_hashes (suc d) ≡ some z'
    → z' ≡ checksum.hash32_concat z z
zero_step d z z' e e' =
    sym (replicated 49 (suc d) (0 ∷ []) e')
    ∙ ap (λ y. checksum.hash32_concat y y) (replicated 49 d (0 ∷ []) e)

pub checksum-IsLawful : IsLawful checksum
checksum-IsLawful = record {
  hash32_concat_lem = λ a b. refl;
  length_zero_hashes = refl;
  zero_hashes_step = zero_step;
}

abbrev pub header_at : ℕ → ℕ → Header
header_at number timestamp = record {
  parent_hash = [];
  ommers_hash = [];
  beneficiary = [];
  state_root = [];
  transactions_root = [];
  receipts_root = [];
  logs_bloom = [];
  difficulty = 0;
  number = number;
  gas_limit = 0;
  gas_used = 0;
  timestamp = timestamp;
  extra_data = [];
  mix_hash = [];
  nonce = [];
  base_fee_per_gas = none;
  withdrawals_root = none;
  blob_gas_used = none;
  excess_blob_gas = none;
  parent_beacon_block_root = none;
  requests_hash = none;
}

abbrev pub hash_of : Header → B256
hash_of h = h.number % 251 ∷ []

abbrev pub zeros : ℕ → List B256
zeros n = replicate n (0 ∷ [])

-- A post-merge proof at a slot, of a header whose hash is its beacon block root.
abbrev pub roots_at : ℕ → BlockProofHistoricalRoots
roots_at slot = record {
  beacon_block_proof = zeros 14;
  beacon_block_root = 15537394 % 251 ∷ [];
  execution_block_proof = zeros 11;
  slot = slot;
}

abbrev pub capella_at : ℕ → BlockProofHistoricalSummariesCapella
capella_at slot = record {
  beacon_block_proof = zeros 13;
  beacon_block_root = 7 ∷ [];
  execution_block_proof = zeros 11;
  slot = slot;
}

abbrev pub deneb_at : ℕ → BlockProofHistoricalSummariesDeneb
deneb_at slot = record {
  beacon_block_proof = zeros 13;
  beacon_block_root = 7 ∷ [];
  execution_block_proof = zeros 12;
  slot = slot;
}

abbrev read_header : Bytes → Option Header
read_header (number ∷ timestamp ∷ []) = some (header_at number timestamp)
read_header _ = none

-- Proofs do not depend on their bytes here.
abbrev pub ssz : Ssz
ssz = record {
  two_items = λ bytes. ok (bytes, []);
  byte_list = λ limit bytes. ok bytes;
  rlp_header = read_header;
  hashes = λ bytes. ok (zeros 15);
  roots = λ bytes. ok (roots_at 8192000);
  capella = λ bytes. ok (capella_at 6209536);
  deneb = λ bytes. ok (deneb_at 6209536);
  debug = λ e. "decode error";
}

pub ssz-DecodesSized : DecodesSized ssz
ssz-DecodesSized = record {
  hashes_sized = λ bytes p e. subst (λ q. IsSized (historical_hashes q)) (ok-injective e) refl;
  roots_sized = λ bytes p e.
      subst (λ q. IsSized (historical_roots q)) {x = roots_at 8192000} (ok-injective e)
        (refl, refl);
  capella_sized = λ bytes p e.
      subst (λ q. IsSized (historical_summaries_capella q)) {x = capella_at 6209536}
        (ok-injective e) (refl, refl);
  deneb_sized = λ bytes p e.
      subst (λ q. IsSized (historical_summaries_deneb q)) {x = deneb_at 6209536} (ok-injective e)
        (refl, refl);
}
