-- ===== src/Validator/Accept.antt =====
-- Exactly which headers `HeaderValidator` (src/header_validator.rs) accepts.
use eth_historian.Base.{
  ℕ, ◌+◌, ◌-◌, ◌*◌, ◌/◌, ◌%◌, ◌≤◌, ◌<◌, ◌≡◌, refl, ◌↔◌, List, String, true, not, some, ok, length,
  get_elem?, B256, arith, leb, leb→le, le→leb,
}
use eth_historian.Validator.Steps.{ensure-then, checked, unwrap-then, both_checked, or_false-then}
use eth_historian.Merkle.Hashing.{Hashing, IsLawful}
use eth_historian.Merkle.Verify.{verify_merkle_proof}
use eth_historian.Merkle.Climb.{climb}
use eth_historian.Merkle.Binding.{verify_merkle_proof_iff}
use eth_historian.Types.Network.{
  mainnet_paris_block, mainnet_shanghai_timestamp, mainnet_cancun_timestamp,
}
use eth_historian.Types.Header.{
  Header, HeaderWithProof, BlockProofHistoricalRoots, BlockProofHistoricalSummariesCapella,
  BlockProofHistoricalSummariesDeneb, BlockHeaderProof, historical_hashes, historical_roots,
  historical_summaries_capella, historical_summaries_deneb, IsSized,
}
use eth_historian.Types.Summaries.{HistoricalSummary, capella_slot, get_historical_summary_iff}
use eth_historian.Validator.{
  HeaderValidator, dispatch, verify_pre_merge_header, verify_merge_to_capella_header,
  verify_capella_to_deneb_header, verify_post_deneb_header, validate_header_with_proof,
  verify_historical_roots_beacon_block_proof, verify_historical_summaries_beacon_block_proof,
}

module _ (H : Hashing) (hash_slow : Header → B256) where
  -- The execution block hash is in the beacon block (Bellatrix to Deneb).
  abbrev pub InBlockBellatrix : Header → List B256 → B256 → Type 0
  InBlockBellatrix header branch root = climb H 3228 (hash_slow header) branch ≡ root

  -- The same from Deneb on.
  abbrev pub InBlockDeneb : Header → List B256 → B256 → Type 0
  InBlockDeneb header branch root = climb H 6444 (hash_slow header) branch ≡ root

  -- The beacon block root stands at its slot in a batch of `historical_roots`.
  abbrev pub InRoots : HeaderValidator → ℕ → B256 → List B256 → Type 0
  InRoots v slot block_root branch =
      (root : B256) × (get_elem? v.historical_roots_acc.historical_roots (slot / 8192) ≡ some root)
      × (climb H (2 * 8192 + slot % 8192) block_root branch ≡ root)

  -- The beacon block root stands at its slot in a summary.
  abbrev pub InSummaries : HeaderValidator → ℕ → B256 → List B256 → Type 0
  InSummaries v slot block_root branch =
      (summary : HistoricalSummary) × (capella_slot ≤ slot)
      × (get_elem? v.historical_summaries_provider.summaries ((slot - capella_slot) / 8192)
          ≡ some summary)
      × (climb H (8192 + slot % 8192) block_root branch ≡ summary.block_summary_root)

  -- What an accepted header and its proof satisfy, era by era.
  abbrev pub IsAuthentic : HeaderValidator → Header → BlockHeaderProof → Type 0
  IsAuthentic v header (historical_hashes p) =
      (header.number < mainnet_paris_block)
      × ((root : B256) × (get_elem? v.pre_merge_acc.historical_epochs (header.number / 8192)
            ≡ some root)
          × (climb H (4 * 8192 + header.number % 8192 * 2) (hash_slow header) p ≡ root))
  IsAuthentic v header (historical_roots p) =
      (mainnet_paris_block ≤ header.number)
      × (header.timestamp < mainnet_shanghai_timestamp)
      × InBlockBellatrix header p.execution_block_proof p.beacon_block_root
      × InRoots v p.slot p.beacon_block_root p.beacon_block_proof
  IsAuthentic v header (historical_summaries_capella p) =
      (mainnet_shanghai_timestamp ≤ header.timestamp)
      × (header.timestamp < mainnet_cancun_timestamp)
      × InBlockBellatrix header p.execution_block_proof p.beacon_block_root
      × InSummaries v p.slot p.beacon_block_root p.beacon_block_proof
  IsAuthentic v header (historical_summaries_deneb p) =
      (mainnet_cancun_timestamp ≤ header.timestamp)
      × InBlockDeneb header p.execution_block_proof p.beacon_block_root
      × InSummaries v p.slot p.beacon_block_root p.beacon_block_proof

pub leb_iff : (a b : ℕ) → (leb a b ≡ true) ↔ (a ≤ b)
leb_iff a b = (leb→le a b, le→leb a b)

pub not-leb_iff : (a b : ℕ) → (not (leb a b) ≡ true) ↔ (b < a)
not-leb_iff a b = (λ h. ground arith, λ h. ground arith)

module _ (H : Hashing) (lawful : IsLawful H) (hash_slow : Header → B256) (v : HeaderValidator) where
  pub accepted_iff :
      (leaf : B256) (branch : List B256) (depth index : ℕ)
      → length branch ≡ depth
      → depth ≤ 64
      → (root : B256)
      → (verify_merkle_proof H {E = String} leaf branch depth index root ≡ ok true)
        ↔ (climb H index leaf branch ≡ root)
  accepted_iff leaf branch depth index l h root =
      let both = verify_merkle_proof_iff H lawful {E = String} leaf branch depth index root h in
      (λ g. (both.0 g).1, λ c. both.1 (l, c))

  pub roots_iff :
      (slot : ℕ) (block_root : B256) (branch : List B256)
      → length branch ≡ 14
      → (verify_historical_roots_beacon_block_proof H hash_slow v slot block_root branch ≡ ok true)
        ↔ InRoots H hash_slow v slot block_root branch
  unfolding verify_historical_roots_beacon_block_proof
  roots_iff slot block_root branch l =
      let proved = accepted_iff block_root branch 14 (2 * 8192 + slot % 8192) l (omega arith) in
      (
        λ h. let (root, e, g) = (unwrap-then _ _).0 h in (root, e, (proved root).0 g),
        λ (root, e, c). (unwrap-then _ _).1 (root, e, (proved root).1 c),
      )

  pub summaries_iff :
      (slot : ℕ) (block_root : B256) (branch : List B256)
      → length branch ≡ 13
      → (verify_historical_summaries_beacon_block_proof H hash_slow v slot block_root branch
          ≡ ok true)
        ↔ InSummaries H hash_slow v slot block_root branch
  unfolding verify_historical_summaries_beacon_block_proof
  summaries_iff slot block_root branch l =
      let proved = accepted_iff block_root branch 13 (8192 + slot % 8192) l (omega arith) in
      let found = get_historical_summary_iff v.historical_summaries_provider slot in
      (
        λ h.
            let (s, e, g) = (or_false-then _ _).0 h in
            let (from, covered) = (found s).0 e in
            (s, from, covered, (proved s.block_summary_root).0 g),
        λ (s, from, covered, c).
            (or_false-then _ _).1
              (s, (found s).1 (from, covered), (proved s.block_summary_root).1 c),
      )

  pre_merge_iff :
      (header : Header) (p : List B256)
      → length p ≡ 15
      → (verify_pre_merge_header H hash_slow v header p ≡ ok tt)
        ↔ IsAuthentic H hash_slow v header (historical_hashes p)
  unfolding verify_pre_merge_header
  pre_merge_iff header p l =
      let proved =
        accepted_iff (hash_slow header) p 15 (32768 + header.number % 8192 * 2) l (omega arith) in
      (
        λ h.
            let (era, found) = (ensure-then _ _ _).0 h in
            let (root, e, g) = (unwrap-then _ _).0 found in
            ((not-leb_iff _ _).0 era, (root, e, (proved root).0 ((checked _ _).0 g))),
        λ (era, (root, e, c)). (ensure-then _ _ _).1 (
          (not-leb_iff _ _).1 era,
          (unwrap-then _ _).1 (root, e, (checked _ _).1 ((proved root).1 c)),
        ),
      )

  merge_iff :
      (header : Header) (p : BlockProofHistoricalRoots)
      → IsSized (historical_roots p)
      → (verify_merge_to_capella_header H hash_slow v header.number header.timestamp
            (hash_slow header)
            p
          ≡ ok tt)
        ↔ IsAuthentic H hash_slow v header (historical_roots p)
  unfolding verify_merge_to_capella_header
  merge_iff header p (sized, executed) =
      let block =
        accepted_iff (hash_slow header) p.execution_block_proof (length p.execution_block_proof)
          3228 refl (omega arith) p.beacon_block_root in
      let beacon = roots_iff p.slot p.beacon_block_root p.beacon_block_proof sized in
      (
        λ h.
            let (paris, h₁) = (ensure-then _ _ _).0 h in
            let (shanghai, h₂) = (ensure-then _ _ _).0 h₁ in
            let (a, b) = (both_checked _ _ _ _).0 h₂ in
            ((leb_iff _ _).0 paris, (not-leb_iff _ _).0 shanghai, block.0 a, beacon.0 b),
        λ (paris, shanghai, a, b). (ensure-then _ _ _).1 (
          (leb_iff _ _).1 paris,
          (ensure-then _ _ _).1
              ((not-leb_iff _ _).1 shanghai, (both_checked _ _ _ _).1 (block.1 a, beacon.1 b)),
        ),
      )

  capella_iff :
      (header : Header) (p : BlockProofHistoricalSummariesCapella)
      → IsSized (historical_summaries_capella p)
      → (verify_capella_to_deneb_header H hash_slow v header.timestamp (hash_slow header) p ≡ ok tt)
        ↔ IsAuthentic H hash_slow v header (historical_summaries_capella p)
  unfolding verify_capella_to_deneb_header
  capella_iff header p (sized, executed) =
      let block =
        accepted_iff (hash_slow header) p.execution_block_proof (length p.execution_block_proof)
          3228 refl (omega arith) p.beacon_block_root in
      let beacon = summaries_iff p.slot p.beacon_block_root p.beacon_block_proof sized in
      (
        λ h.
            let (shanghai, h₁) = (ensure-then _ _ _).0 h in
            let (cancun, h₂) = (ensure-then _ _ _).0 h₁ in
            let (a, b) = (both_checked _ _ _ _).0 h₂ in
            ((leb_iff _ _).0 shanghai, (not-leb_iff _ _).0 cancun, block.0 a, beacon.0 b),
        λ (shanghai, cancun, a, b). (ensure-then _ _ _).1 (
          (leb_iff _ _).1 shanghai,
          (ensure-then _ _ _).1
              ((not-leb_iff _ _).1 cancun, (both_checked _ _ _ _).1 (block.1 a, beacon.1 b)),
        ),
      )

  deneb_iff :
      (header : Header) (p : BlockProofHistoricalSummariesDeneb)
      → IsSized (historical_summaries_deneb p)
      → (verify_post_deneb_header H hash_slow v header.timestamp (hash_slow header) p ≡ ok tt)
        ↔ IsAuthentic H hash_slow v header (historical_summaries_deneb p)
  unfolding verify_post_deneb_header
  deneb_iff header p (sized, executed) =
      let block =
        accepted_iff (hash_slow header) p.execution_block_proof (length p.execution_block_proof)
          6444 refl (omega arith) p.beacon_block_root in
      let beacon = summaries_iff p.slot p.beacon_block_root p.beacon_block_proof sized in
      (
        λ h.
            let (cancun, h₁) = (ensure-then _ _ _).0 h in
            let (a, b) = (both_checked _ _ _ _).0 h₁ in
            ((leb_iff _ _).0 cancun, block.0 a, beacon.0 b),
        λ (cancun, a, b).
            (ensure-then _ _ _).1
              ((leb_iff _ _).1 cancun, (both_checked _ _ _ _).1 (block.1 a, beacon.1 b)),
      )

  dispatch_iff :
      (header : Header) (proof : BlockHeaderProof)
      → IsSized proof
      → (dispatch H hash_slow v header proof ≡ ok tt) ↔ IsAuthentic H hash_slow v header proof
  dispatch_iff header (historical_hashes p) sized = pre_merge_iff header p sized
  dispatch_iff header (historical_roots p) sized = merge_iff header p sized
  dispatch_iff header (historical_summaries_capella p) sized = capella_iff header p sized
  dispatch_iff header (historical_summaries_deneb p) sized = deneb_iff header p sized

  -- The validator accepts a header with a proof of the lengths that its type fixes exactly when the
  -- header lies in the era of the proof's variant, the proof's branches lead from the header's hash
  -- to the beacon block root and from there to the commitment, and the commitment stands at the
  -- header's epoch, or at the slot's batch or summary, of the validator's tables.
  pub validate_header_with_proof_iff :
      (hwp : HeaderWithProof)
      → IsSized hwp.proof
      → (validate_header_with_proof H hash_slow v hwp ≡ ok tt)
        ↔ IsAuthentic H hash_slow v hwp.header hwp.proof
  unfolding validate_header_with_proof
  validate_header_with_proof_iff hwp sized = dispatch_iff hwp.header hwp.proof sized
