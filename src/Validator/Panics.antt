-- ===== src/Validator/Panics.antt =====
-- When `HeaderValidator` (src/header_validator.rs) panics: its tables are indexed by numbers that the
-- checked proof brings along, with no test of the bound.
use eth_historian.Base.{
  ℕ, ◌+◌, ◌*◌, ◌/◌, ◌%◌, ◌≤◌, ◌<◌, ◌≡◌, ◌≢◌, refl, ◌↔◌, List, String, leb, not, panic, length, B256,
  arith,
}
use eth_historian.Validator.Calm.{
  ensure-panic, checked-panic, last-panic, bind-panic, last-calm, ensure-calm, both-calm,
  or_false-ne-panic, get_elem?-none_iff,
}
use eth_historian.Merkle.Hashing.{Hashing, IsLawful}
use eth_historian.Merkle.Verify.{verify_merkle_proof}
use eth_historian.Merkle.Climb.{climb, verify_merkle_proof_lem}
use eth_historian.Types.Network.{
  mainnet_paris_block, mainnet_shanghai_timestamp, mainnet_cancun_timestamp,
}
use eth_historian.Types.Header.{
  Header, HeaderWithProof, BlockProofHistoricalRoots, BlockProofHistoricalSummariesCapella,
  BlockProofHistoricalSummariesDeneb, BlockHeaderProof, historical_hashes, historical_roots,
  historical_summaries_capella, historical_summaries_deneb, IsSized,
}
use eth_historian.Types.Summaries.{get_historical_summary, get_historical_summary-ne-panic}
use eth_historian.Validator.{
  HeaderValidator, dispatch, verify_pre_merge_header, verify_merge_to_capella_header,
  verify_capella_to_deneb_header, verify_post_deneb_header, validate_header_with_proof,
  verify_historical_roots_beacon_block_proof, verify_historical_summaries_beacon_block_proof,
}
use eth_historian.Validator.Accept.{InBlockBellatrix, accepted_iff, leb_iff, not-leb_iff}

module _ (H : Hashing) (lawful : IsLawful H) where
  verify-ne-panic :
      (leaf : B256) (branch : List B256) (depth index : ℕ) (root : B256)
      → depth ≤ 64
      → verify_merkle_proof H {E = String} leaf branch depth index root ≢ panic
  verify-ne-panic leaf branch depth index root h p =
      cc (verify_merkle_proof_lem H lawful {E = String} leaf branch depth index root h)

module _ (H : Hashing) (hash_slow : Header → B256) (v : HeaderValidator) where
  -- The index that the validator uses lies outside its table.
  abbrev pub IsOutOfRange : Header → BlockHeaderProof → Type 0
  IsOutOfRange header (historical_hashes p) =
      (header.number < mainnet_paris_block)
      × (length v.pre_merge_acc.historical_epochs ≤ header.number / 8192)
  IsOutOfRange header (historical_roots p) =
      (mainnet_paris_block ≤ header.number)
      × (header.timestamp < mainnet_shanghai_timestamp)
      × InBlockBellatrix H hash_slow header p.execution_block_proof p.beacon_block_root
      × (length v.historical_roots_acc.historical_roots ≤ p.slot / 8192)
  IsOutOfRange header (historical_summaries_capella p) = ⊥
  IsOutOfRange header (historical_summaries_deneb p) = ⊥

module _ (H : Hashing) (lawful : IsLawful H) (hash_slow : Header → B256) (v : HeaderValidator) where
  pre_merge-panic :
      (header : Header) (p : List B256)
      → (verify_pre_merge_header H hash_slow v header p ≡ panic)
        ↔ IsOutOfRange H hash_slow v header (historical_hashes p)
  unfolding verify_pre_merge_header
  pre_merge-panic header p =
      let calm = λ (root : B256). last-calm _ _ (
        verify-ne-panic H lawful (hash_slow header) p 15 (32768 + header.number % 8192 * 2) root
          (omega arith)) in
      (
        λ h.
            let (era, f) = (ensure-panic _ _ _).0 h in
            ((not-leb_iff _ _).0 era, (get_elem?-none_iff _ _).0 ((bind-panic _ _ calm).0 f)),
        λ (era, out).
            (ensure-panic _ _ _).1
              ((not-leb_iff _ _).1 era, (bind-panic _ _ calm).1 ((get_elem?-none_iff _ _).1 out)),
      )

  summaries-ne-panic :
      (slot : ℕ) (root : B256) (branch : List B256)
      → verify_historical_summaries_beacon_block_proof H hash_slow v slot root branch ≢ panic
  unfolding verify_historical_summaries_beacon_block_proof
  summaries-ne-panic slot root branch =
      or_false-ne-panic (get_historical_summary v.historical_summaries_provider slot) _
        (get_historical_summary-ne-panic v.historical_summaries_provider slot)
        λ s.
          verify-ne-panic H lawful root branch 13 (8192 + slot % 8192) s.block_summary_root
            (omega arith)

  roots-panic :
      (slot : ℕ) (root : B256) (branch : List B256)
      → (verify_historical_roots_beacon_block_proof H hash_slow v slot root branch ≡ panic)
        ↔ (length v.historical_roots_acc.historical_roots ≤ slot / 8192)
  unfolding verify_historical_roots_beacon_block_proof
  roots-panic slot root branch =
      let calm = λ (r : B256).
        verify-ne-panic H lawful root branch 14 (2 * 8192 + slot % 8192) r (omega arith) in
      (
        λ h. (get_elem?-none_iff _ _).0 ((bind-panic _ _ calm).0 h),
        λ out. (bind-panic _ _ calm).1 ((get_elem?-none_iff _ _).1 out),
      )

  merge-panic :
      (header : Header) (p : BlockProofHistoricalRoots)
      → IsSized (historical_roots p)
      → (verify_merge_to_capella_header H hash_slow v header.number header.timestamp
            (hash_slow header)
            p
          ≡ panic)
        ↔ IsOutOfRange H hash_slow v header (historical_roots p)
  unfolding verify_merge_to_capella_header
  merge-panic header p (sized, executed) =
      let block =
        accepted_iff H lawful hash_slow v (hash_slow header) p.execution_block_proof
          (length p.execution_block_proof) 3228 refl (omega arith) p.beacon_block_root in
      let calm =
        verify-ne-panic H lawful (hash_slow header) p.execution_block_proof
          (length p.execution_block_proof) 3228 p.beacon_block_root (omega arith) in
      let table = roots-panic p.slot p.beacon_block_root p.beacon_block_proof in
      (
        λ h.
            let (paris, h₁) = (ensure-panic _ _ _).0 h in
            let (shanghai, h₂) = (ensure-panic _ _ _).0 h₁ in
            let (a, b) = (checked-panic _ _ _ calm).0 h₂ in
            (
              (leb_iff _ _).0 paris,
              (not-leb_iff _ _).0 shanghai,
              block.0 a,
              table.0 ((last-panic _ _).0 b),
            ),
        λ (paris, shanghai, a, b). (ensure-panic _ _ _).1 (
          (leb_iff _ _).1 paris,
          (ensure-panic _ _ _).1 (
            (not-leb_iff _ _).1 shanghai,
            (checked-panic _ _ _ calm).1 (block.1 a, (last-panic _ _).1 (table.1 b)),
          ),
        ),
      )

  capella-ne-panic :
      (header : Header) (p : BlockProofHistoricalSummariesCapella)
      → IsSized (historical_summaries_capella p)
      → verify_capella_to_deneb_header H hash_slow v header.timestamp (hash_slow header) p ≢ panic
  unfolding verify_capella_to_deneb_header
  capella-ne-panic header p (sized, executed) =
      ensure-calm (leb mainnet_shanghai_timestamp header.timestamp)
        "Invalid BlockProofHistoricalSummariesCapella found for pre-Shanghai header." _
        (ensure-calm (not (leb mainnet_cancun_timestamp header.timestamp))
          "Invalid BlockProofHistoricalSummariesCapella found for post-Cancun header." _
          (both-calm _ _ "Execution block proof verification failed for Capella-Deneb header"
            "Beacon block proof verification failed for Capella-Deneb header"
            (verify-ne-panic H lawful (hash_slow header) p.execution_block_proof
              (length p.execution_block_proof) 3228 p.beacon_block_root (omega arith))
            (summaries-ne-panic p.slot p.beacon_block_root p.beacon_block_proof)))

  deneb-ne-panic :
      (header : Header) (p : BlockProofHistoricalSummariesDeneb)
      → IsSized (historical_summaries_deneb p)
      → verify_post_deneb_header H hash_slow v header.timestamp (hash_slow header) p ≢ panic
  unfolding verify_post_deneb_header
  deneb-ne-panic header p (sized, executed) = ensure-calm _ _ _ (
      both-calm _ _ _ _
        (verify-ne-panic H lawful (hash_slow header) p.execution_block_proof
          (length p.execution_block_proof) 6444 p.beacon_block_root (omega arith))
        (summaries-ne-panic p.slot p.beacon_block_root p.beacon_block_proof))

  dispatch-panic :
      (header : Header) (proof : BlockHeaderProof)
      → IsSized proof
      → (dispatch H hash_slow v header proof ≡ panic) ↔ IsOutOfRange H hash_slow v header proof
  dispatch-panic header (historical_hashes p) sized = pre_merge-panic header p
  dispatch-panic header (historical_roots p) sized = merge-panic header p sized
  dispatch-panic header (historical_summaries_capella p) sized =
      (capella-ne-panic header p sized, λ h. absurd h)
  dispatch-panic header (historical_summaries_deneb p) sized =
      (deneb-ne-panic header p sized, λ h. absurd h)

  -- On a header with a proof of the lengths that its type fixes the validator panics exactly when
  -- either the proof is for a block before the merge whose epoch is past the end of the accumulator;
  -- or it is a `HistoricalRoots` proof, for a header of that era, whose execution branch leads to its
  -- beacon block root, and whose slot is past the end of `historical_roots`.
  pub validate_header_with_proof-panic :
      (hwp : HeaderWithProof)
      → IsSized hwp.proof
      → (validate_header_with_proof H hash_slow v hwp ≡ panic)
        ↔ IsOutOfRange H hash_slow v hwp.header hwp.proof
  unfolding validate_header_with_proof
  validate_header_with_proof-panic hwp sized = dispatch-panic hwp.header hwp.proof sized

  -- Whoever has a header of the merge-to-Capella era can make the validator panic: for any execution
  -- branch of 11 nodes, any beacon branch of 14 and any slot past the end of `historical_roots`, the
  -- `HistoricalRoots` proof with the beacon block root that the execution branch leads to panics.
  pub forged_slot_panics :
      (header : Header) (branch beacon : List B256) (slot : ℕ)
      → mainnet_paris_block ≤ header.number
      → header.timestamp < mainnet_shanghai_timestamp
      → length branch ≡ 11
      → length beacon ≡ 14
      → length v.historical_roots_acc.historical_roots * 8192 ≤ slot
      → (root : B256) × (validate_header_with_proof H hash_slow v (record {
        header = header;
        proof = historical_roots (record {
          beacon_block_proof = beacon;
          beacon_block_root = root;
          execution_block_proof = branch;
          slot = slot;
        });
      })
          ≡ panic)
  forged_slot_panics header branch beacon slot paris shanghai l k far = (
    climb H 3228 (hash_slow header) branch,
    (validate_header_with_proof-panic _ (k, l)).1 (paris, shanghai, refl, omega arith),
  )
