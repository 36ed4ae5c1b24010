-- ===== src/Api/Trust.antt =====
-- What the caller of `verify_block_by_number` and `verify_block_by_hash` (src/api.rs) can rely on: the
-- sources are not trusted, so the claims hold for any answers of theirs.
use eth_historian.Base.{
  map_err-ok, ℕ, ◌≡◌, refl, sym, ap, ◌∙◌, subst, List, ◌∷◌, ◌++◌, Bool, true, false, none,
  if◌then◌else◌, Outcome, ok, err, map_err, guard, ◌>>=◌, ◌>>◌, >>=-eq-ok, ok-injective, ◌==◌,
  ==_iff, bytes_eq, bytes_eq→eq, Bytes, B256,
}
use eth_historian.Errors.{
  Error, ssz_decode, verification_failed, block_number_mismatch, block_not_found, no_data_source,
  data_source,
}
use eth_historian.Merkle.Hashing.{Hashing, IsLawful}
use eth_historian.Types.Header.{Header, HeaderWithProof, BlockHeaderProof, IsSized}
use eth_historian.Types.Codec.{Ssz, DecodesSized, DecodeError, from_ssz_bytes}
use eth_historian.Types.Decode.{IsInEra, from_ssz_bytes_lem}
use eth_historian.Validator.{HeaderValidator, validate_header_with_proof}
use eth_historian.Validator.Accept.{IsAuthentic, validate_header_with_proof_iff}
use eth_historian.Api.{
  auth_path_for, VerifiedBlock, DataSource, Verifier, verify, try_by_number, try_by_hash,
  first_verified, verify_block_by_number, verify_block_by_hash, is_empty,
}
use eth_historian.Api.Sources.{AllFail, first_verified-ok}

guard-then :
    {A : Type 0} (b : Bool) (e : Error) (k : Outcome Error A) {a : A}
    → (guard b e >> k) ≡ ok a
    → (b ≡ true) × (k ≡ ok a)
guard-then true e k h = (refl, h)
guard-then false e k h = cc

if-ok :
    {A : Type 0} (c : Bool) (e : Error) (k : Outcome Error A) {a : A}
    → (if c then err e else k) ≡ ok a
    → k ≡ ok a
if-ok true e k h = cc
if-ok false e k h = h

module _ (H : Hashing) (hash_slow : Header → B256) where
  verify-ok :
      (v : Verifier) (hwp : HeaderWithProof) (b : VerifiedBlock)
      → verify H hash_slow v hwp ≡ ok b
      → (validate_header_with_proof H hash_slow v.validator hwp ≡ ok tt)
        × (record { header = hwp.header; auth_path = auth_path_for hwp.proof } ≡ b)
  unfolding verify
  verify-ok v hwp b e =
      let validated =
        map_err (λ reason. verification_failed hwp.header.number reason)
          (validate_header_with_proof H hash_slow v.validator hwp) in
      let step =
        >>=-eq-ok validated
          (λ _. ok (record { header = hwp.header; auth_path = auth_path_for hwp.proof })) e in
      (
        map_err-ok _ (validate_header_with_proof H hash_slow v.validator hwp) step.1,
        ok-injective step.2,
      )

  -- The block is authentic: some proof of the variant that its `auth_path` names is a proof for its
  -- header, which lies in the era of that variant.
  abbrev pub IsTrusted : HeaderValidator → VerifiedBlock → Type 0
  IsTrusted v b =
      (proof : BlockHeaderProof) × (b.auth_path ≡ auth_path_for proof)
      × IsSized proof
      × IsInEra b.header proof
      × IsAuthentic H hash_slow v b.header proof

module _ (H : Hashing) (hash_slow : Header → B256) (S : Ssz) where
  -- What one source's answer went through.
  abbrev pub Passed : Verifier → Outcome Error Bytes → VerifiedBlock → Type 0
  Passed v fetched b =
      (bytes : Bytes) × (hwp : HeaderWithProof) × (fetched ≡ ok bytes)
      × (from_ssz_bytes S bytes ≡ ok hwp)
      × (hwp.header ≡ b.header)
      × (verify H hash_slow v hwp ≡ ok b)

  -- A round of the loop, for either kind of request.
  abbrev round :
      Verifier
      → Outcome Error Bytes
      → (DecodeError → Error)
      → (HeaderWithProof → Bool)
      → (HeaderWithProof → Error)
      → Outcome Error VerifiedBlock
  round v fetched on_decode test on_test = do
    bytes ← fetched
    hwp ← map_err on_decode (from_ssz_bytes S bytes)
    guard (test hwp) (on_test hwp)
    verify H hash_slow v hwp

  round-ok :
      (v : Verifier) (fetched : Outcome Error Bytes) (on_decode : DecodeError → Error)
      (test : HeaderWithProof → Bool) (on_test : HeaderWithProof → Error) (b : VerifiedBlock)
      → round v fetched on_decode test on_test ≡ ok b
      → (p : Passed v fetched b) × (test p.1 ≡ true)
  round-ok v fetched on_decode test on_test b e =
      let bytes =
        >>=-eq-ok fetched
          (λ x. map_err on_decode (from_ssz_bytes S x) >>= λ w.
            guard (test w) (on_test w) >> verify H hash_slow v w)
          e in
      let hwp =
        >>=-eq-ok (map_err on_decode (from_ssz_bytes S bytes.0))
          (λ w. guard (test w) (on_test w) >> verify H hash_slow v w) bytes.2 in
      let (tested, verified) =
        guard-then (test hwp.0) (on_test hwp.0) (verify H hash_slow v hwp.0) hwp.2 in
      (
        (
          bytes.0,
          hwp.0,
          bytes.1,
          map_err-ok on_decode (from_ssz_bytes S bytes.0) hwp.1,
          ap (λ (c : VerifiedBlock). c.header) (verify-ok H hash_slow v hwp.0 b verified).1,
          verified,
        ),
        tested,
      )

  try_by_number-ok :
      (v : Verifier) (n : ℕ) (s : DataSource) (b : VerifiedBlock)
      → try_by_number H hash_slow S v n s ≡ ok b
      → (b.header.number ≡ n) × Passed v (s.fetch_header_with_proof_by_number n) b
  unfolding try_by_number
  try_by_number-ok v n s b e =
      let found =
        round-ok v (s.fetch_header_with_proof_by_number n) (λ d. ssz_decode n (S.debug d))
          (λ w. w.header.number == n) (λ w. block_number_mismatch n w.header.number) b e in
      (ap (λ (h : Header). h.number) (sym found.0.4) ∙ (==_iff _ _).0 found.1, found.0)

  try_by_hash-ok :
      (v : Verifier) (hash : B256) (s : DataSource) (b : VerifiedBlock)
      → try_by_hash H hash_slow S v hash s ≡ ok b
      → (hash_slow b.header ≡ hash) × Passed v (s.fetch_header_with_proof_by_hash hash) b
  unfolding try_by_hash
  try_by_hash-ok v hash s b e =
      let found =
        round-ok v (s.fetch_header_with_proof_by_hash hash) (λ d. ssz_decode 0 (S.debug d))
          (λ w. bytes_eq (hash_slow w.header) hash)
          (λ w.
            verification_failed w.header.number
              "returned header's hash does not match requested hash")
          b e in
      (ap hash_slow (sym found.0.4) ∙ bytes_eq→eq _ _ found.1, found.0)

module _ (H : Hashing) (lawful : IsLawful H) (hash_slow : Header → B256) (S : Ssz)
    (sized : DecodesSized S) where
  Passed-IsTrusted :
      (v : Verifier) (fetched : Outcome Error Bytes) (b : VerifiedBlock)
      → Passed H hash_slow S v fetched b
      → IsTrusted H hash_slow v.validator b
  Passed-IsTrusted v fetched b (bytes, hwp, _, decoded, _, verified) =
      let (fits, era) = from_ssz_bytes_lem S sized bytes hwp decoded in
      let (valid, same) = verify-ok H hash_slow v hwp b verified in
      subst (IsTrusted H hash_slow v.validator)
        {x = record { header = hwp.header; auth_path = auth_path_for hwp.proof }} same
        (
          hwp.proof,
          refl,
          fits,
          era,
          (validate_header_with_proof_iff H lawful hash_slow v.validator hwp fits).0 valid,
        )

  -- The block that `verify_block_by_number` returns, whatever its sources answer, has the number asked
  -- for and is authentic: its header lies in the era of the variant that `auth_path` names, and a
  -- proof of that variant leads from its hash to the verifier's tables. Some source gave its bytes,
  -- and every source before that one failed.
  pub verify_block_by_number_sound :
      (v : Verifier) (n : ℕ) (b : VerifiedBlock)
      → verify_block_by_number H hash_slow S v n ≡ ok b
      → (b.header.number ≡ n)
        × IsTrusted H hash_slow v.validator b
        × ((before : List DataSource) × (s : DataSource) × (after : List DataSource)
            × (v.data_sources ≡ before ++ s ∷ after)
            × AllFail (try_by_number H hash_slow S v n) before
            × Passed H hash_slow S v (s.fetch_header_with_proof_by_number n) b)
  unfolding verify_block_by_number
  verify_block_by_number_sound v n b e =
      let loop =
        if-ok (is_empty v.data_sources) no_data_source
          (first_verified (try_by_number H hash_slow S v n) (block_not_found n) v.data_sources none)
          e in
      let found =
        first_verified-ok (try_by_number H hash_slow S v n) (block_not_found n) v.data_sources none
          b loop in
      let (number, passed) = try_by_number-ok H hash_slow S v n found.1 b found.5 in
      (number, Passed-IsTrusted v _ b passed, (found.0, found.1, found.2, found.3, found.4, passed))

  -- The block that `verify_block_by_hash` returns, whatever its sources answer, has the hash asked for
  -- and is authentic: its header lies in the era of the variant that `auth_path` names, and a proof of
  -- that variant leads from its hash to the verifier's tables. Some source gave its bytes, and every
  -- source before that one failed.
  pub verify_block_by_hash_sound :
      (v : Verifier) (hash : B256) (b : VerifiedBlock)
      → verify_block_by_hash H hash_slow S v hash ≡ ok b
      → (hash_slow b.header ≡ hash)
        × IsTrusted H hash_slow v.validator b
        × ((before : List DataSource) × (s : DataSource) × (after : List DataSource)
            × (v.data_sources ≡ before ++ s ∷ after)
            × AllFail (try_by_hash H hash_slow S v hash) before
            × Passed H hash_slow S v (s.fetch_header_with_proof_by_hash hash) b)
  unfolding verify_block_by_hash
  verify_block_by_hash_sound v hash b e =
      let loop =
        if-ok (is_empty v.data_sources) no_data_source
          (first_verified (try_by_hash H hash_slow S v hash)
            (data_source "no source produced bytes") v.data_sources none)
          e in
      let found =
        first_verified-ok (try_by_hash H hash_slow S v hash)
          (data_source "no source produced bytes") v.data_sources none b loop in
      let (same, passed) = try_by_hash-ok H hash_slow S v hash found.1 b found.5 in
      (same, Passed-IsTrusted v _ b passed, (found.0, found.1, found.2, found.3, found.4, passed))
