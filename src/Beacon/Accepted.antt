-- ===== src/Beacon/Accepted.antt =====
-- The proofs of src/portal_types/consensus/beacon_state.rs and proof.rs against the checks of
-- src/header_validator.rs: a beacon block root of a period is accepted at its slot.
use eth_historian.Base.{
  ℕ, ◌+◌, ◌-◌, ◌*◌, ◌/◌, ◌%◌, ◌^◌, ◌≤◌, ◌<◌, ◌≡◌, refl, sym, ap, ◌∙◌, List, [], ◌∷◌, ◌++◌,
  append-nil, true, some, ok, String, length, length-append, take, replicate, take_all, get_or,
  get_elem?, ==_iff, arith, B256,
}
use eth_historian.Merkle.Hashing.{Hashing, IsLawful}
use eth_historian.Merkle.Climb.{climb}
use eth_historian.Merkle.LowBits.{climb-low, climb-mixed}
use eth_historian.Types.Header.{Header}
use eth_historian.Types.Summaries.{HistoricalSummary, capella_slot}
use eth_historian.Validator.{
  HeaderValidator, verify_historical_roots_beacon_block_proof,
  verify_historical_summaries_beacon_block_proof,
}
use eth_historian.Validator.Accept.{roots_iff, summaries_iff}
use eth_historian.Beacon.{
  RootsHashing, IsSound, zero_chunk, next_power_of_two, build_merkle_proof_for_index,
  HistoricalBatch, build_block_root_proof,
}

full_period : next_power_of_two 8192 ≡ 8192
unfolding next_power_of_two
full_period = refl

unpadded :
    (roots : List B256)
    → length roots ≡ 8192
    → take 8192 (roots ++ replicate (8192 - length roots) zero_chunk) ≡ roots
unpadded roots l =
    let none_missing : 8192 - length roots ≡ 0 = omega arith in
    ap (λ k. take 8192 (roots ++ replicate k zero_chunk)) none_missing
    ∙ ap (take 8192) (append-nil roots)
    ∙ take_all 8192 roots (omega arith)

-- The proof of the block root at a slot of a batch.
abbrev pub batch_branch : RootsHashing → HistoricalBatch → ℕ → List B256
batch_branch R batch slot =
    build_merkle_proof_for_index R batch.block_roots (slot % 8192)
    ++ R.tree_hash_root batch.state_roots ∷ []

module _ (H : Hashing) (R : RootsHashing) (sound : IsSound H R) where
  -- A full period needs no padding.
  period_proof :
      (roots : List B256) (index : ℕ)
      → length roots ≡ 8192
      → build_merkle_proof_for_index R roots index ≡ R.proof_hashes roots index
  unfolding build_merkle_proof_for_index
  period_proof roots index l =
      ap (λ n. R.proof_hashes (take n (roots ++ replicate (n - length roots) zero_chunk)) index)
        (ap next_power_of_two l ∙ full_period)
      ∙ ap (λ leaves. R.proof_hashes leaves index) (unpadded roots l)

  -- The branch of a block root in a period.
  pub period_branch :
      (roots : List B256) (index : ℕ)
      → length roots ≡ 8192
      → index < 8192
      → (length (build_merkle_proof_for_index R roots index) ≡ 13)
        × (climb H index
              (get_or roots index zero_chunk)
              (build_merkle_proof_for_index R roots index)
            ≡ R.tree_hash_root roots)
  period_branch roots index l h = rw (period_proof roots index l) (
    sound.length-proof_hashes roots index 13 (omega arith) l h,
    sound.climb-proof_hashes roots index 13 (omega arith) l h
        ∙ sym (sound.tree_hash_root_lem roots l),
  )

  -- The proof of a block root in a full batch.
  pub full_proof :
      {E : Type 0} (batch : HistoricalBatch) (slot : ℕ)
      → length batch.block_roots ≡ 8192
      → (build_block_root_proof R {E = E} batch (slot % 8192) ≡ ok (batch_branch R batch slot))
        × (length (batch_branch R batch slot) ≡ 14)
        × (climb H
              (2 * 8192 + slot % 8192)
              (get_or batch.block_roots (slot % 8192) zero_chunk)
              (batch_branch R batch slot)
            ≡ H.hash32_concat
                (R.tree_hash_root batch.block_roots)
                (R.tree_hash_root batch.state_roots))
  unfolding build_block_root_proof
  full_proof batch slot l =
      let branch = build_merkle_proof_for_index R batch.block_roots (slot % 8192) in
      let above = R.tree_hash_root batch.state_roots in
      let (fits, climbs) = period_branch batch.block_roots (slot % 8192) l (omega arith) in
      let size : length (branch ++ above ∷ []) ≡ 14 =
        omega (arith, length-append branch (above ∷ [])) in
      (
        rw ((==_iff _ _).1 size) refl,
        size,
        climb-mixed H (slot % 8192) (get_or batch.block_roots (slot % 8192) zero_chunk) above branch
              (omega arith) fits
            ∙ ap (λ r. H.hash32_concat r above) climbs,
      )

module _ (H : Hashing) (lawful : IsLawful H) (R : RootsHashing) (sound : IsSound H R)
    (hash_slow : Header → B256) (v : HeaderValidator) where
  -- For a batch of 8192 block roots `build_block_root_proof` returns 14 nodes, without the panic of its
  -- assertion, and the validator accepts the block root of any slot of the batch's period with them, if
  -- its table of historical roots has the batch's hash tree root at that period.
  pub verify-build_block_root_proof :
      (batch : HistoricalBatch) (slot : ℕ)
      → length batch.block_roots ≡ 8192
      → get_elem? v.historical_roots_acc.historical_roots (slot / 8192)
        ≡ some (
            H.hash32_concat
              (R.tree_hash_root batch.block_roots)
              (R.tree_hash_root batch.state_roots))
      → (proof : List B256) × (build_block_root_proof R {E = String} batch (slot % 8192) ≡ ok proof)
        × (verify_historical_roots_beacon_block_proof H hash_slow v slot
              (get_or batch.block_roots (slot % 8192) zero_chunk)
              proof
            ≡ ok true)
  verify-build_block_root_proof batch slot l found =
      let (built, size, climbs) = full_proof H R sound batch slot l in
      (_, built, (roots_iff H lawful hash_slow v slot _ _ size).1 (_, found, climbs))

  -- The validator accepts the block root of any slot from Capella on with the proof that
  -- `build_merkle_proof_for_index` builds from the 8192 block roots of its period, if the summary of
  -- that period has their hash tree root.
  pub verify-build_merkle_proof_for_index :
      (roots : List B256) (slot : ℕ) (s : HistoricalSummary)
      → length roots ≡ 8192
      → capella_slot ≤ slot
      → get_elem? v.historical_summaries_provider.summaries ((slot - capella_slot) / 8192) ≡ some s
      → s.block_summary_root ≡ R.tree_hash_root roots
      → verify_historical_summaries_beacon_block_proof H hash_slow v slot
          (get_or roots (slot % 8192) zero_chunk)
          (build_merkle_proof_for_index R roots (slot % 8192))
        ≡ ok true
  verify-build_merkle_proof_for_index roots slot s l from found root =
      let (fits, climbs) = period_branch H R sound roots (slot % 8192) l (omega arith) in
      let leaf = get_or roots (slot % 8192) zero_chunk in
      let branch = build_merkle_proof_for_index R roots (slot % 8192) in
      (summaries_iff H lawful hash_slow v slot leaf branch fits).1 (
        s,
        from,
        found,
        ap (λ d. climb H (1 * 2 ^ d + slot % 8192) leaf branch) (sym fits)
            ∙ climb-low H 1 (slot % 8192) leaf branch
            ∙ climbs
            ∙ sym root,
      )
