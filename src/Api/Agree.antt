-- ===== src/Api/Agree.antt =====
-- Two answers to one request (src/api.rs): verifiers with the same tables agree, whatever their
-- sources say.
use eth_historian.Base.{ℕ, ◌+◌, ◌*◌, ◌%◌, ◌≡◌, refl, sym, ◌∙◌, ◌⊎◌, inl, inr, List, ok, subst, B256}
use eth_historian.Merkle.Hashing.{Hashing, IsLawful}
use eth_historian.Merkle.Binding.{PathsCollide}
use eth_historian.Types.Header.{
  Header, BlockHeaderProof, historical_hashes, historical_roots, historical_summaries_capella,
  historical_summaries_deneb, IsSized,
}
use eth_historian.Types.Codec.{Ssz, DecodesSized}
use eth_historian.Validator.{HeaderValidator}
use eth_historian.Validator.Accept.{IsAuthentic}
use eth_historian.Validator.Unique.{authentic_unique}
use eth_historian.Api.{
  AuthPath, auth_path_for, VerifiedBlock, Verifier, block_hash, verify_block_by_number,
}
use eth_historian.Api.Trust.{IsTrusted, verify_block_by_number_sound}

-- Different pairs of siblings with the same SHA-256 hash, on two branches of an epoch's tree.
abbrev pub HashesCollide : Hashing → ℕ → B256 → B256 → Type 0
HashesCollide H n a a' =
    (p : List B256) × (p' : List B256) × PathsCollide H (4 * 8192 + n % 8192 * 2) a p a' p'

hashes_proof :
    (p : BlockHeaderProof)
    → AuthPath.historical_hashes ≡ auth_path_for p
    → (l : List B256) × (p ≡ historical_hashes l)
unfolding auth_path_for
hashes_proof (historical_hashes l) e = (l, refl)
hashes_proof (historical_roots l) e = cc
hashes_proof (historical_summaries_capella l) e = cc
hashes_proof (historical_summaries_deneb l) e = cc

module _ (H : Hashing) (hash_slow : Header → B256) (v : HeaderValidator) where
  -- A trusted block from before the merge has a branch to its epoch's root.
  pre_merge_branch :
      (b : VerifiedBlock)
      → IsTrusted H hash_slow v b
      → b.auth_path ≡ AuthPath.historical_hashes
      → (l : List B256) × IsSized (historical_hashes l)
        × IsAuthentic H hash_slow v b.header (historical_hashes l)
  pre_merge_branch b (proof, path, fits, era, authentic) e =
      let (l, is) = hashes_proof proof (sym e ∙ path) in
      (l, subst IsSized is fits, subst (IsAuthentic H hash_slow v b.header) is authentic)

-- Two verifiers with the same tables, whatever their sources answer, return blocks with the same hash
-- for the same number, if both blocks are authenticated by the accumulator of the blocks before the
-- merge; unless two different pairs of siblings have the same SHA-256 hash.
pub verify_block_by_number-agree :
    (H : Hashing) (lawful : IsLawful H) (hash_slow : Header → B256) (S : Ssz)
    (sized : DecodesSized S) (v v' : Verifier) (n : ℕ) (b b' : VerifiedBlock)
    → v.validator ≡ v'.validator
    → verify_block_by_number H hash_slow S v n ≡ ok b
    → verify_block_by_number H hash_slow S v' n ≡ ok b'
    → b.auth_path ≡ AuthPath.historical_hashes
    → b'.auth_path ≡ AuthPath.historical_hashes
    → (block_hash H hash_slow b ≡ block_hash H hash_slow b')
      ⊎ HashesCollide H n (block_hash H hash_slow b) (block_hash H hash_slow b')
unfolding block_hash
verify_block_by_number-agree H lawful hash_slow S sized v v' n b b' same e e' path path' =
    let (number, trusted, _) = verify_block_by_number_sound H lawful hash_slow S sized v n b e in
    let (number', trusted', _) =
      verify_block_by_number_sound H lawful hash_slow S sized v' n b' e' in
    let (p, fits, authentic) = pre_merge_branch H hash_slow v.validator b trusted path in
    let (p', fits', authentic') =
      pre_merge_branch H hash_slow v.validator b'
        (subst (λ w. IsTrusted H hash_slow w b') (sym same) trusted') path' in
    elim (authentic_unique H hash_slow v.validator b.header (historical_hashes p) b'.header
      (historical_hashes p') fits fits' (number ∙ sym number') authentic authentic') [
        | inl hashes ↦ inl hashes
        | inr collide ↦ inr (
          p,
          p',
          subst
              (λ m.
                PathsCollide H (4 * 8192 + m % 8192 * 2) (hash_slow b.header) p
                  (hash_slow b'.header) p')
              number collide,
        )
      ]
