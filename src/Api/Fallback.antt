-- ===== src/Api/Fallback.antt =====
-- Which source's answer `verify_block_by_number` (src/api.rs) returns, what it returns when no source
-- has a verified answer, and how one source can stop it.
use eth_historian.Base.{
  ℕ, ◌≡◌, refl, ap, ◌∙◌, ◌↔◌, List, [], ◌∷◌, ◌++◌, Bool, true, false, none, if◌then◌else◌, Outcome,
  ok, err, panic, ◌==◌, ==_refl, Bytes, B256,
}
use eth_historian.Errors.{Error, block_not_found, no_data_source}
use eth_historian.Merkle.Hashing.{Hashing, IsLawful}
use eth_historian.Types.Header.{Header, HeaderWithProof}
use eth_historian.Types.Codec.{Ssz, DecodesSized, from_ssz_bytes}
use eth_historian.Types.Decode.{from_ssz_bytes_lem}
use eth_historian.Validator.{validate_header_with_proof}
use eth_historian.Validator.Panics.{IsOutOfRange, validate_header_with_proof-panic}
use eth_historian.Api.{
  VerifiedBlock, DataSource, Verifier, verify, try_by_number, first_verified,
  verify_block_by_number, is_empty,
}
use eth_historian.Api.Sources.{
  AllFail, last_error, first_verified-ok, first_verified-first, first_verified-none,
  first_verified-panic,
}

pub is_empty-append :
    (before : List DataSource) (s : DataSource) (after : List DataSource)
    → is_empty (before ++ s ∷ after) ≡ false
is_empty-append [] s after = refl
is_empty-append (x ∷ before) s after = refl

none_empty :
    {A : Type 0} (c : Bool) (e : Error) (k : Outcome Error A) {a : A}
    → (if c then err e else k) ≡ ok a
    → (c ≡ false) × (k ≡ ok a)
none_empty true e k h = cc
none_empty false e k h = (refl, h)

module _ (H : Hashing) (hash_slow : Header → B256) (S : Ssz) (v : Verifier) (n : ℕ) where
  -- The call runs its loop on a list that is not empty.
  loop_runs :
      (before : List DataSource) (s : DataSource) (after : List DataSource)
      → v.data_sources ≡ before ++ s ∷ after
      → verify_block_by_number H hash_slow S v n
        ≡ first_verified
            (try_by_number H hash_slow S v n)
            (block_not_found n)
            (before ++ s ∷ after)
            none
  unfolding verify_block_by_number
  loop_runs before s after e = rw (e, is_empty-append before s after) refl

  -- `verify_block_by_number` returns a block exactly when some source's answer verifies to that block
  -- and every source before it ends in an error; the sources after it do not matter.
  pub verify_block_by_number_iff :
      (b : VerifiedBlock)
      → (verify_block_by_number H hash_slow S v n ≡ ok b) ↔ (
          (before : List DataSource) × (s : DataSource) × (after : List DataSource)
          × (v.data_sources ≡ before ++ s ∷ after)
          × AllFail (try_by_number H hash_slow S v n) before
          × (try_by_number H hash_slow S v n s ≡ ok b))
  unfolding verify_block_by_number
  verify_block_by_number_iff b = (
    λ h.
        first_verified-ok (try_by_number H hash_slow S v n) (block_not_found n) v.data_sources none
          b (none_empty (is_empty v.data_sources) no_data_source _ h).1,
    λ w.
        loop_runs w.0 w.1 w.2 w.3
        ∙ first_verified-first (try_by_number H hash_slow S v n) (block_not_found n) w.0 w.1 w.2
            none b w.4 w.5,
  )

  -- If every source ends in an error, the caller gets the error of the last one; with no source at all
  -- the error says so.
  pub verify_block_by_number-exhausted :
      AllFail (try_by_number H hash_slow S v n) v.data_sources
      → verify_block_by_number H hash_slow S v n ≡ (
          if is_empty v.data_sources
          then err no_data_source
          else err
              (last_error (try_by_number H hash_slow S v n) (block_not_found n) v.data_sources))
  unfolding verify_block_by_number
  verify_block_by_number-exhausted fails =
      ap (λ m. if is_empty v.data_sources then err no_data_source else m)
        (first_verified-none (try_by_number H hash_slow S v n) (block_not_found n) v.data_sources
          fails)

  try-panics :
      (s : DataSource) (bytes : Bytes) (hwp : HeaderWithProof)
      → s.fetch_header_with_proof_by_number n ≡ ok bytes
      → from_ssz_bytes S bytes ≡ ok hwp
      → hwp.header.number ≡ n
      → validate_header_with_proof H hash_slow v.validator hwp ≡ panic
      → try_by_number H hash_slow S v n s ≡ panic
  unfolding try_by_number verify
  try-panics s bytes hwp fetched decoded number p =
      let same : (hwp.header.number == n) ≡ true = ap (λ m. m == n) number ∙ ==_refl n in
      rw (fetched, decoded, same, p) refl

  -- One source can make the whole call panic, whatever the sources after it hold: if the sources before
  -- it fail and it answers with a header of the requested number whose proof sends the validator past
  -- the end of one of its tables, no later source is asked.
  pub verify_block_by_number-aborts :
      (lawful : IsLawful H) (sized : DecodesSized S) (before : List DataSource) (s : DataSource)
      (after : List DataSource) (bytes : Bytes) (hwp : HeaderWithProof)
      → v.data_sources ≡ before ++ s ∷ after
      → AllFail (try_by_number H hash_slow S v n) before
      → s.fetch_header_with_proof_by_number n ≡ ok bytes
      → from_ssz_bytes S bytes ≡ ok hwp
      → hwp.header.number ≡ n
      → IsOutOfRange H hash_slow v.validator hwp.header hwp.proof
      → verify_block_by_number H hash_slow S v n ≡ panic
  verify_block_by_number-aborts lawful sized before s after bytes hwp e fails fetched decoded number
        out =
      loop_runs before s after e
      ∙ first_verified-panic (try_by_number H hash_slow S v n) (block_not_found n) before s after
          none fails
          (try-panics s bytes hwp fetched decoded number (
            (validate_header_with_proof-panic H lawful hash_slow v.validator hwp
                (from_ssz_bytes_lem S sized bytes hwp decoded).0).1
              out))
