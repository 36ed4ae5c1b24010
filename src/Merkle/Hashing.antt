-- ===== src/Merkle/Hashing.antt =====
-- The crate `ethereum_hashing`, which src/merkle/proof.rs and src/proof_construction.rs call. Its code
-- is no part of the repository, so its functions are a parameter, and what the program relies on is
-- the record `IsLawful`.
use eth_historian.Base.{ℕ, suc, ◌≡◌, List, ◌++◌, some, Bytes, B256, length, get_elem?}

pub record Hashing : Type 0 where
  -- SHA-256 of a byte string; a digest has 32 bytes.
  pub hash : Bytes → B256
  -- SHA-256 of two 32-byte strings, one after the other.
  pub hash32_concat : B256 → B256 → B256
  -- `ZERO_HASHES`, where `ZERO_HASHES[i]` is the root of a tree of `2 ^ i` zero leaves.
  pub zero_hashes : List B256

-- The documented behaviour: the two hash functions agree, and the table of zero hashes has the
-- entries 0 to 48, each the hash of the one before it with itself.
pub record IsLawful (H : Hashing) : Type 0 where
  pub hash32_concat_lem : (a b : B256) → H.hash32_concat a b ≡ H.hash (a ++ b)
  pub length_zero_hashes : length H.zero_hashes ≡ 49
  pub zero_hashes_step :
      (d : ℕ) (z z' : B256)
      → get_elem? H.zero_hashes d ≡ some z
      → get_elem? H.zero_hashes (suc d) ≡ some z'
      → z' ≡ H.hash32_concat z z
