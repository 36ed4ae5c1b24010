-- ===== src/ProofConstruction/RoundTrip.antt =====
-- `construct_pre_merge_proof` (src/proof_construction.rs) against the validator of
-- src/header_validator.rs: the validator accepts what it builds.
use eth_historian.Base.{
  ℕ, zero, suc, ◌+◌, ◌*◌, ◌/◌, ◌%◌, ◌^◌, ◌≤◌, ◌<◌, ◌≡◌, ◌⊎◌, refl, sym, ap, ap₂, ◌∙◌, List, [], ◌∷◌,
  ◌++◌, map, some, none, ok, err, panic, length, length-map, length-append, get_elem?,
  get_elem?-map, get_or-get_elem?, bytes_eq, bytes_eq_refl, bytes_eq→eq, Bool-cases, inl, inr,
  Option-cases, false, true, ◌==◌, ==_iff, B256, to_le_bytes, arith,
}
use eth_historian.Errors.{Error, proof_construction}
use eth_historian.Merkle.Hashing.{Hashing, IsLawful}
use eth_historian.Merkle.Tree.{MerkleTree, create, generate_proof}
use eth_historian.Merkle.Climb.{parent, climb}
use eth_historian.Merkle.LowBits.{climb-mixed}
use eth_historian.Merkle.Binding.{B256-eq}
use eth_historian.Merkle.Create.{padded, complete_root}
use eth_historian.Merkle.EndToEnd.{tree_and_branch}
use eth_historian.Types.Network.{mainnet_paris_block}
use eth_historian.Types.Header.{Header, historical_hashes}
use eth_historian.Validator.{HeaderValidator, validate_header_with_proof}
use eth_historian.Validator.Accept.{validate_header_with_proof_iff}
use eth_historian.ProofConstruction.{
  HeaderRecord, EpochAccumulator, record_leaf, construct_pre_merge_proof,
}

below : (i : ℕ) → (4 * 8192 + i * 2) / 2 ≡ 2 * 2 ^ 13 + i
below i = omega arith

bytes_ne : (a b : B256) → ¬ (a ≡ b) → bytes_eq a b ≡ false
bytes_ne a b n = elim (Bool-cases (bytes_eq a b)) [
  | inl same ↦ absurd (n (bytes_eq→eq a b same))
  | inr differ ↦ differ
]

past_end : {A : Type 0} (xs : List A) (i : ℕ) → get_elem? xs i ≡ none → length xs ≤ i
past_end [] i e = omega arith
past_end (x ∷ xs) zero e = cc
past_end (x ∷ xs) (suc i) e = omega (arith, past_end xs i e)

module _ (H : Hashing) where
  -- The hash tree root of the accumulator: the root of its records, with their number mixed in.
  abbrev pub epoch_root : EpochAccumulator → B256
  epoch_root acc =
      H.hash32_concat (complete_root H 13 (padded H (map (record_leaf H) acc)))
        (to_le_bytes 32 (length acc))

  parent-left : (i : ℕ) (a x : B256) → parent H (4 * 8192 + i * 2) a x ≡ H.hash32_concat a x
  parent-left i a x = let even : (4 * 8192 + i * 2) % 2 ≡ 0 = omega arith in rw even refl

  -- The generalized index of a record's hash in the accumulator, over the proof's 15 nodes.
  climb-record :
      (i : ℕ) (a difficulty size : B256) (branch : List B256)
      → i < 8192
      → length branch ≡ 13
      → climb H (4 * 8192 + i * 2) a (difficulty ∷ branch ++ size ∷ [])
        ≡ H.hash32_concat (climb H i (H.hash32_concat a difficulty) branch) size
  climb-record i a difficulty size branch h l =
      ap₂ (λ m acc. climb H m acc (branch ++ size ∷ [])) (below i) (parent-left i a difficulty)
      ∙ climb-mixed H i (H.hash32_concat a difficulty) size branch h l

module _ (H : Hashing) (lawful : IsLawful H) where
  record_found :
      (acc : EpochAccumulator) (i : ℕ) (r : HeaderRecord)
      → i < 8192
      → get_elem? acc i ≡ some r
      → padded H (map (record_leaf H) acc) (i % 2 ^ 13) ≡ record_leaf H r
  record_found acc i r h e = get_or-get_elem? (map (record_leaf H) acc) (i % 2 ^ 13) _ (
      ap (get_elem? (map (record_leaf H) acc)) (omega arith)
      ∙ get_elem?-map (record_leaf H) acc i e)

  -- The branch to the record, in the tree of the accumulator.
  record_branch :
      {E : Type 0} (acc : EpochAccumulator) (i : ℕ) (r : HeaderRecord)
      → length acc ≤ 8192
      → i < 8192
      → get_elem? acc i ≡ some r
      → (t : MerkleTree) × (branch : List B256) × (create H {E = E} (map (record_leaf H) acc) 13
          ≡ ok t)
        × (generate_proof H t i 13 ≡ ok (record_leaf H r, branch))
        × (length branch ≡ 13)
        × (climb H i (record_leaf H r) branch
            ≡ complete_root H 13 (padded H (map (record_leaf H) acc)))
  record_branch {E} acc i r l h e =
      let made =
        tree_and_branch H lawful (map (record_leaf H) acc) i 13 (omega arith)
          (omega (arith, length-map (record_leaf H) acc)) {E = E} in
      let leaf = record_found acc i r h e in
      (
        made.0,
        made.1,
        made.2,
        made.3 ∙ ap (λ x. ok (x, made.1)) leaf,
        made.5,
        ap (λ x. climb H i x made.1) (sym leaf) ∙ made.6,
      )

  proof_fits :
      (difficulty size : B256) (branch : List B256)
      → length branch ≡ 13
      → (length (difficulty ∷ branch ++ size ∷ []) == 15) ≡ true
  proof_fits difficulty size branch l =
      (==_iff _ _).1 (omega (arith, length-append branch (size ∷ [])))

module _ (H : Hashing) (lawful : IsLawful H) (hash_slow : Header → B256) where
  construct_pre_merge_proof-match :
      (header : Header) (acc : EpochAccumulator) (r : HeaderRecord)
      → length acc ≤ 8192
      → get_elem? acc (header.number % 8192) ≡ some r
      → r.block_hash ≡ hash_slow header
      → (branch : List B256) × (construct_pre_merge_proof H hash_slow header acc
          ≡ ok (to_le_bytes 32 r.total_difficulty ∷ branch ++ to_le_bytes 32 (length acc) ∷ []))
        × (length branch ≡ 13)
        × (climb H (header.number % 8192) (record_leaf H r) branch
            ≡ complete_root H 13 (padded H (map (record_leaf H) acc)))
  unfolding construct_pre_merge_proof
  construct_pre_merge_proof-match header acc r l e same =
      let (t, branch, made, generated, fits, climbs) =
        record_branch H lawful {E = Error} acc (header.number % 8192) r l (omega arith) e in
      let test : bytes_eq r.block_hash (hash_slow header) ≡ true =
        ap (bytes_eq r.block_hash) (sym same) ∙ bytes_eq_refl r.block_hash in
      (
        branch,
        rw
            (
              e,
              test,
              made,
              generated,
              bytes_eq_refl (record_leaf H r),
              proof_fits H lawful (to_le_bytes 32 r.total_difficulty) (to_le_bytes 32 (length acc))
                  branch fits,
            )
            refl,
        fits,
        climbs,
      )

  reaches_root :
      (header : Header) (acc : EpochAccumulator) (r : HeaderRecord) (branch : List B256)
      → r.block_hash ≡ hash_slow header
      → length branch ≡ 13
      → climb H (header.number % 8192) (record_leaf H r) branch
        ≡ complete_root H 13 (padded H (map (record_leaf H) acc))
      → climb H
          (4 * 8192 + header.number % 8192 * 2)
          (hash_slow header)
          (to_le_bytes 32 r.total_difficulty ∷ branch ++ to_le_bytes 32 (length acc) ∷ [])
        ≡ epoch_root H acc
  unfolding record_leaf
  reaches_root header acc r branch same fits climbs =
      climb-record H (header.number % 8192) (hash_slow header) (to_le_bytes 32 r.total_difficulty)
        (to_le_bytes 32 (length acc)) branch (omega arith) fits
      ∙ ap (λ x. H.hash32_concat x (to_le_bytes 32 (length acc)))
          (ap
              (λ a.
                climb H (header.number % 8192)
                  (H.hash32_concat a (to_le_bytes 32 r.total_difficulty)) branch)
              (sym same)
            ∙ climbs)

  -- With the record of the header's block, whose hash is the header's, the construction succeeds with
  -- 15 nodes, and the validator accepts them: if the header is from before the merge and its table
  -- has the accumulator's root at the header's epoch.
  pub validate-construct_pre_merge_proof :
      (v : HeaderValidator) (header : Header) (acc : EpochAccumulator) (r : HeaderRecord)
      → length acc ≤ 8192
      → get_elem? acc (header.number % 8192) ≡ some r
      → r.block_hash ≡ hash_slow header
      → header.number < mainnet_paris_block
      → get_elem? v.pre_merge_acc.historical_epochs (header.number / 8192) ≡ some (epoch_root H acc)
      → (proof : List B256) × (construct_pre_merge_proof H hash_slow header acc ≡ ok proof)
        × (length proof ≡ 15)
        × (validate_header_with_proof H hash_slow v
              (record { header = header; proof = historical_hashes proof })
            ≡ ok tt)
  validate-construct_pre_merge_proof v header acc r l e same era found =
      let (branch, made, fits, climbs) = construct_pre_merge_proof-match header acc r l e same in
      let proof = to_le_bytes 32 r.total_difficulty ∷ branch ++ to_le_bytes 32 (length acc) ∷ [] in
      let size : length proof ≡ 15 =
        omega (arith, length-append branch (to_le_bytes 32 (length acc) ∷ [])) in
      (
        proof,
        made,
        size,
        (validate_header_with_proof_iff H lawful hash_slow v
              (record { header = header; proof = historical_hashes proof }) size).1
            (era, (epoch_root H acc, found, reaches_root header acc r branch same fits climbs)),
      )

  -- Of an accumulator of at most 8192 records one of three holds: its record at the header's place has the
  -- header's hash, and the construction succeeds; the record has another hash, and the construction
  -- returns the error for that; or there is no record at that place, and the construction panics.
  pub construct_pre_merge_proof-fails :
      (header : Header) (acc : EpochAccumulator)
      → length acc ≤ 8192
      → ((r : HeaderRecord) × (get_elem? acc (header.number % 8192) ≡ some r)
          × (r.block_hash ≡ hash_slow header)
          × (proof : List B256) × (construct_pre_merge_proof H hash_slow header acc ≡ ok proof))
        ⊎ ((r : HeaderRecord) × (get_elem? acc (header.number % 8192) ≡ some r)
            × (¬ (r.block_hash ≡ hash_slow header))
            × (construct_pre_merge_proof H hash_slow header acc
                ≡ err (proof_construction "header hash doesn't match epoch accumulator entry")))
        ⊎ ((length acc ≤ header.number % 8192)
            × (construct_pre_merge_proof H hash_slow header acc ≡ panic))
  unfolding construct_pre_merge_proof
  construct_pre_merge_proof-fails header acc l =
      elim (Option-cases (get_elem? acc (header.number % 8192))) [
        | inl missing ↦ inr (inr (past_end acc _ missing, rw missing refl))
        | inr (r, e) ↦ elim (B256-eq r.block_hash (hash_slow header)) [
          | inl same ↦
              let made = construct_pre_merge_proof-match header acc r l e same in
              inl (r, e, same, _, made.1)
          | inr differ ↦ inr (inl (r, e, differ, rw (e, bytes_ne _ _ differ) refl))
        ]
      ]
