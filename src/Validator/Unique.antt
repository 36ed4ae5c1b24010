-- ===== src/Validator/Unique.antt =====
-- What `HeaderValidator` (src/header_validator.rs) commits to: at one position of its tables it accepts
-- one block hash, unless the two proofs show a collision of SHA-256.
use eth_historian.Base.{
  ℕ, ◌+◌, ◌-◌, ◌*◌, ◌/◌, ◌%◌, ◌≡◌, sym, ap, ◌∙◌, ◌⊎◌, inl, inr, List, ok, length, get_elem?, B256,
  some, some-injective,
}
use eth_historian.Merkle.Hashing.{Hashing, IsLawful}
use eth_historian.Merkle.Climb.{climb}
use eth_historian.Merkle.Binding.{PathsCollide, climb-injective}
use eth_historian.Types.Header.{
  Header, HeaderWithProof, BlockHeaderProof, historical_hashes, historical_roots,
  historical_summaries_capella, historical_summaries_deneb, IsSized,
}
use eth_historian.Types.Summaries.{HistoricalSummary, capella_slot}
use eth_historian.Validator.{HeaderValidator, validate_header_with_proof}
use eth_historian.Validator.Accept.{
  IsAuthentic, InRoots, InSummaries, validate_header_with_proof_iff,
}

-- Two proofs of one variant for one place: the block's number before the merge, the slot after it.
abbrev pub SamePosition : Header → BlockHeaderProof → Header → BlockHeaderProof → Type 0
SamePosition h (historical_hashes p) h' (historical_hashes p') = h.number ≡ h'.number
SamePosition h (historical_roots p) h' (historical_roots p') = p.slot ≡ p'.slot
SamePosition h (historical_summaries_capella p) h' (historical_summaries_capella p') =
    p.slot ≡ p'.slot
SamePosition h (historical_summaries_deneb p) h' (historical_summaries_deneb p') = p.slot ≡ p'.slot
SamePosition _ _ _ _ = ⊥

module _ (H : Hashing) where
  -- The two branches to the beacon block root collide, or the two to the commitment do.
  abbrev pub BranchesCollide :
      ℕ → B256 → List B256 → B256 → B256 → List B256 → B256 → ℕ → List B256 → List B256 → Type 0
  BranchesCollide gen a branch root a' branch' root' index beacon beacon' =
      PathsCollide H gen a branch a' branch' ⊎ PathsCollide H index root beacon root' beacon'

  abbrev pub ProofsCollide :
      (Header → B256) → Header → BlockHeaderProof → Header → BlockHeaderProof → Type 0
  ProofsCollide hash_slow h (historical_hashes p) h' (historical_hashes p') =
      PathsCollide H (4 * 8192 + h.number % 8192 * 2) (hash_slow h) p (hash_slow h') p'
  ProofsCollide hash_slow h (historical_roots p) h' (historical_roots p') =
      BranchesCollide 3228 (hash_slow h) p.execution_block_proof p.beacon_block_root (hash_slow h')
        p'.execution_block_proof p'.beacon_block_root (2 * 8192 + p.slot % 8192)
        p.beacon_block_proof p'.beacon_block_proof
  ProofsCollide hash_slow h (historical_summaries_capella p) h' (historical_summaries_capella p') =
      BranchesCollide 3228 (hash_slow h) p.execution_block_proof p.beacon_block_root (hash_slow h')
        p'.execution_block_proof p'.beacon_block_root (8192 + p.slot % 8192) p.beacon_block_proof
        p'.beacon_block_proof
  ProofsCollide hash_slow h (historical_summaries_deneb p) h' (historical_summaries_deneb p') =
      BranchesCollide 6444 (hash_slow h) p.execution_block_proof p.beacon_block_root (hash_slow h')
        p'.execution_block_proof p'.beacon_block_root (8192 + p.slot % 8192) p.beacon_block_proof
        p'.beacon_block_proof
  ProofsCollide hash_slow _ _ _ _ = ⊥

  -- One root at one index of two branches, then one hash below it.
  two_levels :
      (gen : ℕ) (a : B256) (branch : List B256) (root a' : B256) (branch' : List B256)
      (root' : B256) (index : ℕ) (beacon beacon' : List B256)
      → length branch ≡ length branch'
      → length beacon ≡ length beacon'
      → climb H gen a branch ≡ root
      → climb H gen a' branch' ≡ root'
      → climb H index root beacon ≡ climb H index root' beacon'
      → (a ≡ a') ⊎ BranchesCollide gen a branch root a' branch' root' index beacon beacon'
  two_levels gen a branch root a' branch' root' index beacon beacon' l k c c' same =
      elim (climb-injective H index root beacon root' beacon' k same) [
        | inr collide ↦ inr (inr collide)
        | inl (roots, _) ↦ elim (climb-injective H gen a branch a' branch' l (c ∙ roots ∙ sym c')) [
          | inr collide ↦ inr (inl collide)
          | inl (hashes, _) ↦ inl hashes
        ]
      ]

  same_root :
      (table : List B256) (i j : ℕ) (r r' : B256)
      → i ≡ j
      → get_elem? table i ≡ some r
      → get_elem? table j ≡ some r'
      → r ≡ r'
  same_root table i j r r' e p q = some-injective (sym p ∙ ap (get_elem? table) e ∙ q)

  InRoots-unique :
      (hash_slow : Header → B256) (v : HeaderValidator) (slot slot' : ℕ) (root root' : B256)
      (beacon beacon' : List B256)
      → slot ≡ slot'
      → InRoots H hash_slow v slot root beacon
      → InRoots H hash_slow v slot' root' beacon'
      → climb H (2 * 8192 + slot % 8192) root beacon
        ≡ climb H (2 * 8192 + slot % 8192) root' beacon'
  InRoots-unique hash_slow v slot slot' root root' beacon beacon' e (r, p, c) (r', q, c') =
      c
      ∙ same_root v.historical_roots_acc.historical_roots (slot / 8192) (slot' / 8192) r r'
          (ap (λ s. s / 8192) e) p q
      ∙ sym c'
      ∙ ap (λ s. climb H (2 * 8192 + s % 8192) root' beacon') (sym e)

  InSummaries-unique :
      (hash_slow : Header → B256) (v : HeaderValidator) (slot slot' : ℕ) (root root' : B256)
      (beacon beacon' : List B256)
      → slot ≡ slot'
      → InSummaries H hash_slow v slot root beacon
      → InSummaries H hash_slow v slot' root' beacon'
      → climb H (8192 + slot % 8192) root beacon ≡ climb H (8192 + slot % 8192) root' beacon'
  InSummaries-unique hash_slow v slot slot' root root' beacon beacon' e (s, _, p, c)
        (s', _, q, c') =
      c
      ∙ ap (λ (t : HistoricalSummary). t.block_summary_root)
          (some-injective (
            sym p
            ∙ ap
                (λ k.
                  get_elem? v.historical_summaries_provider.summaries ((k - capella_slot) / 8192))
                e
            ∙ q))
      ∙ sym c'
      ∙ ap (λ k. climb H (8192 + k % 8192) root' beacon') (sym e)

module _ (H : Hashing) (hash_slow : Header → B256) (v : HeaderValidator) where
  pub authentic_unique :
      (h : Header) (p : BlockHeaderProof) (h' : Header) (p' : BlockHeaderProof)
      → IsSized p
      → IsSized p'
      → SamePosition h p h' p'
      → IsAuthentic H hash_slow v h p
      → IsAuthentic H hash_slow v h' p'
      → (hash_slow h ≡ hash_slow h') ⊎ ProofsCollide H hash_slow h p h' p'
  authentic_unique h (historical_hashes p) h' (historical_hashes p') l l' e (_, (r, t, c))
        (_, (r', t', c')) =
      elim (climb-injective H (4 * 8192 + h.number % 8192 * 2) (hash_slow h) p (hash_slow h') p'
        (l ∙ sym l')
        (c
          ∙ same_root H v.pre_merge_acc.historical_epochs (h.number / 8192) (h'.number / 8192) r r'
              (ap (λ n. n / 8192) e) t t'
          ∙ sym c'
          ∙ ap (λ n. climb H (4 * 8192 + n % 8192 * 2) (hash_slow h') p') (sym e))) [
            | inl (same, _) ↦ inl same
            | inr collide ↦ inr collide
          ]
  authentic_unique h (historical_roots p) h' (historical_roots p') (l, k) (l', k') e (_, _, c, b)
        (_, _, c', b') =
      two_levels H 3228 (hash_slow h) p.execution_block_proof p.beacon_block_root (hash_slow h')
        p'.execution_block_proof p'.beacon_block_root (2 * 8192 + p.slot % 8192)
        p.beacon_block_proof p'.beacon_block_proof (k ∙ sym k') (l ∙ sym l') c c'
        (InRoots-unique H hash_slow v p.slot p'.slot p.beacon_block_root p'.beacon_block_root
          p.beacon_block_proof p'.beacon_block_proof e b b')
  authentic_unique h (historical_summaries_capella p) h' (historical_summaries_capella p') (l, k)
        (l', k') e (_, _, c, b) (_, _, c', b') =
      two_levels H 3228 (hash_slow h) p.execution_block_proof p.beacon_block_root (hash_slow h')
        p'.execution_block_proof p'.beacon_block_root (8192 + p.slot % 8192) p.beacon_block_proof
        p'.beacon_block_proof (k ∙ sym k') (l ∙ sym l') c c'
        (InSummaries-unique H hash_slow v p.slot p'.slot p.beacon_block_root p'.beacon_block_root
          p.beacon_block_proof p'.beacon_block_proof e b b')
  authentic_unique h (historical_summaries_deneb p) h' (historical_summaries_deneb p') (l, k)
        (l', k') e (_, c, b) (_, c', b') =
      two_levels H 6444 (hash_slow h) p.execution_block_proof p.beacon_block_root (hash_slow h')
        p'.execution_block_proof p'.beacon_block_root (8192 + p.slot % 8192) p.beacon_block_proof
        p'.beacon_block_proof (k ∙ sym k') (l ∙ sym l') c c'
        (InSummaries-unique H hash_slow v p.slot p'.slot p.beacon_block_root p'.beacon_block_root
          p.beacon_block_proof p'.beacon_block_proof e b b')
  authentic_unique h p h' p' l l' e a a' = absurd e

-- Two headers that the validator accepts with proofs of one variant for one position (the same block
-- number before the merge, the same slot after it) have the same hash, unless on the paths of their
-- proofs two different pairs of siblings have the same SHA-256 hash.
pub validate_header_with_proof_unique :
    (H : Hashing) (lawful : IsLawful H) (hash_slow : Header → B256) (v : HeaderValidator)
    (a b : HeaderWithProof)
    → IsSized a.proof
    → IsSized b.proof
    → SamePosition a.header a.proof b.header b.proof
    → validate_header_with_proof H hash_slow v a ≡ ok tt
    → validate_header_with_proof H hash_slow v b ≡ ok tt
    → (hash_slow a.header ≡ hash_slow b.header)
      ⊎ ProofsCollide H hash_slow a.header a.proof b.header b.proof
validate_header_with_proof_unique H lawful hash_slow v a b la lb same p q =
    authentic_unique H hash_slow v a.header a.proof b.header b.proof la lb same
      ((validate_header_with_proof_iff H lawful hash_slow v a la).0 p)
      ((validate_header_with_proof_iff H lawful hash_slow v b lb).0 q)
