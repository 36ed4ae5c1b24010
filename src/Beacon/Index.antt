-- ===== src/Beacon/Index.antt =====
-- `build_merkle_proof_for_index` (src/portal_types/consensus/proof.rs): its proof leads from the leaf to
-- the root of the tree over the leaves, padded with zero chunks to a power of two.
use eth_historian.Base.{
  ℕ, zero, suc, ◌-◌, ◌^◌, ◌≤◌, ◌<◌, ◌≡◌, refl, sym, ap, ◌∙◌, List, [], ◌∷◌, ◌++◌, length,
  length-append, take, take_all, replicate, get_or, arith, B256,
}
use eth_historian.Merkle.Hashing.{Hashing}
use eth_historian.Merkle.Climb.{climb}
use eth_historian.Merkle.Create.{complete_root, complete_root-cong}
use eth_historian.Beacon.{
  RootsHashing, IsSound, zero_chunk, next_power_of_two, build_merkle_proof_for_index,
}

length-chunks : (n : ℕ) (x : B256) → length (replicate n x) ≡ n
length-chunks zero x = refl
length-chunks (suc n) x = ap suc (length-chunks n x)

get_or-replicate : (k i : ℕ) (x : B256) → get_or (replicate k x) i x ≡ x
get_or-replicate zero i x = refl
get_or-replicate (suc k) zero x = refl
get_or-replicate (suc k) (suc i) x = get_or-replicate k i x

-- Padding with the default changes no look-up.
get_or-padding :
    (xs : List B256) (k i : ℕ) (x : B256) → get_or (xs ++ replicate k x) i x ≡ get_or xs i x
get_or-padding [] k i x = get_or-replicate k i x
get_or-padding (y ∷ xs) k zero x = refl
get_or-padding (y ∷ xs) k (suc i) x = get_or-padding xs k i x

-- The leaves with their padding.
abbrev full_tree : List B256 → ℕ → List B256
full_tree leaves n = take n (leaves ++ replicate (n - length leaves) zero_chunk)

module _ (leaves : List B256) (n : ℕ) (h : length leaves ≤ n) where
  length-padding : length (leaves ++ replicate (n - length leaves) zero_chunk) ≡ n
  length-padding = omega (
    arith,
    length-append leaves (replicate (n - length leaves) zero_chunk),
    length-chunks (n - length leaves) zero_chunk,
  )

  untaken : full_tree leaves n ≡ leaves ++ replicate (n - length leaves) zero_chunk
  untaken =
      take_all n (leaves ++ replicate (n - length leaves) zero_chunk)
        (omega (arith, length-padding))

  length-full_tree : length (full_tree leaves n) ≡ n
  length-full_tree = ap length untaken ∙ length-padding

  get_or-full_tree : (i : ℕ) → get_or (full_tree leaves n) i zero_chunk ≡ get_or leaves i zero_chunk
  get_or-full_tree i =
      ap (λ xs. get_or xs i zero_chunk) untaken
      ∙ get_or-padding leaves (n - length leaves) i zero_chunk

module _ (H : Hashing) (R : RootsHashing) where
  -- A branch of `d` nodes that leads from the leaf at the index to the root of the padded leaves.
  abbrev pub Leads : ℕ → ℕ → List B256 → B256 → List B256 → Type 0
  Leads d index leaves leaf branch =
      (length branch ≡ d)
      × (climb H index leaf branch ≡ complete_root H d (λ i. get_or leaves i zero_chunk))

  -- For leaves whose number rounds up to `2 ^ d`, at most `2 ^ 32`, and an index below `2 ^ d` the proof
  -- has `d` nodes and leads from the leaf at the index, a zero chunk past the end, to the root of the
  -- complete tree over the leaves and zero chunks.
  pub build_merkle_proof_for_index_lem :
      (sound : IsSound H R) (leaves : List B256) (index d : ℕ)
      → next_power_of_two (length leaves) ≡ 2 ^ d
      → length leaves ≤ 2 ^ d
      → d ≤ 32
      → index < 2 ^ d
      → Leads d index leaves
          (get_or leaves index zero_chunk)
          (build_merkle_proof_for_index R leaves index)
  unfolding build_merkle_proof_for_index
  build_merkle_proof_for_index_lem sound leaves index d power fits h small =
      let full = full_tree leaves (2 ^ d) in
      let size = length-full_tree leaves (2 ^ d) fits in
      let same = ap (λ n. R.proof_hashes (full_tree leaves n) index) power in
      (
        ap length same ∙ sound.length-proof_hashes full index d h size small,
        ap (climb H index (get_or leaves index zero_chunk)) same
            ∙ ap (λ leaf. climb H index leaf (R.proof_hashes full index))
                (sym (get_or-full_tree leaves (2 ^ d) fits index))
            ∙ sound.climb-proof_hashes full index d h size small
            ∙ complete_root-cong H d (λ i. get_or full i zero_chunk)
                (λ i. get_or leaves i zero_chunk) (λ i p. get_or-full_tree leaves (2 ^ d) fits i),
      )
