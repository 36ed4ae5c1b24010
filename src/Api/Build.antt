-- ===== src/Api/Build.antt =====
-- `VerifierBuilder::build` (src/api.rs) with the check of the embedded tables (src/lib.rs): a verifier
-- that is built without `skip_fingerprint_check` holds the canonical ones.
use eth_historian.Base.{
  ◌≡◌, refl, sym, ap, ◌∙◌, Bool, true, false, if◌then◌else◌, Outcome, ok, unwrap, ◌>>=◌, ◌>>◌,
  >>=-eq-ok, ok-injective, bytes_eq, bytes_eq→eq, Bytes, subst,
}
use eth_historian.Errors.{Error}
use eth_historian.Fingerprints.{
  Assets, assert, pre_merge_default, historical_roots_default,
  assert_canonized_accumulator_fingerprints, default_pre_merge_acc_hash,
  default_historical_roots_hash, merge_macc_bin_sha256, historical_roots_ssz_sha256,
}
use eth_historian.Validator.{
  PreMergeAccumulator, HistoricalRootsAccumulator, new_with_historical_summaries,
}
use eth_historian.Api.{VerifierBuilder, Verifier, build, or_default}

assert-then :
    {A : Type 0} (c : Bool) (k : Outcome Error A) {a : A}
    → (assert c >> k) ≡ ok a
    → (c ≡ true) × (k ≡ ok a)
assert-then true k h = (refl, h)
assert-then false k h = cc

assert-ok : (c : Bool) → assert {E = Error} c ≡ ok tt → c ≡ true
assert-ok true h = refl
assert-ok false h = cc

module _ (A : Assets) where
  -- The roots of the two tables are the canonical ones.
  abbrev pub IsCanonical : PreMergeAccumulator → HistoricalRootsAccumulator → Type 0
  IsCanonical acc roots =
      (A.pre_merge_tree_hash_root acc ≡ default_pre_merge_acc_hash)
      × (A.historical_roots_tree_hash_root roots.historical_roots ≡ default_historical_roots_hash)

  -- The rest of the check, from its last step backwards.
  abbrev on_roots : HistoricalRootsAccumulator → Outcome Error Unit
  on_roots roots = assert (
      bytes_eq (A.historical_roots_tree_hash_root roots.historical_roots)
        default_historical_roots_hash)

  abbrev on_pre_merge : PreMergeAccumulator → Outcome Error Unit
  on_pre_merge acc =
      assert (bytes_eq (A.pre_merge_tree_hash_root acc) default_pre_merge_acc_hash)
      >> (historical_roots_default A >>= on_roots)

  abbrev on_roots_bytes : Bytes → Outcome Error Unit
  on_roots_bytes raw =
      assert (bytes_eq (A.sha256 raw) historical_roots_ssz_sha256)
      >> (pre_merge_default A >>= on_pre_merge)

  abbrev on_macc_bytes : Bytes → Outcome Error Unit
  on_macc_bytes raw =
      assert (bytes_eq (A.sha256 raw) merge_macc_bin_sha256)
      >> (unwrap (A.get "validation_assets/historical_roots.ssz") >>= on_roots_bytes)

  fingerprints-ok :
      assert_canonized_accumulator_fingerprints A {E = Error} ≡ ok tt
      → (acc : PreMergeAccumulator) × (roots : HistoricalRootsAccumulator) × (pre_merge_default A
            {E = Error}
          ≡ ok acc)
        × (historical_roots_default A {E = Error} ≡ ok roots)
        × IsCanonical acc roots
  unfolding assert_canonized_accumulator_fingerprints
  fingerprints-ok e =
      let macc = >>=-eq-ok (unwrap (A.get "validation_assets/merge_macc.bin")) on_macc_bytes e in
      let (_, k₁) =
        assert-then _ (unwrap (A.get "validation_assets/historical_roots.ssz") >>= on_roots_bytes)
          macc.2 in
      let raw =
        >>=-eq-ok (unwrap (A.get "validation_assets/historical_roots.ssz")) on_roots_bytes k₁ in
      let (_, k₂) = assert-then _ (pre_merge_default A >>= on_pre_merge) raw.2 in
      let acc = >>=-eq-ok (pre_merge_default A) on_pre_merge k₂ in
      let (same, k₃) = assert-then _ (historical_roots_default A >>= on_roots) acc.2 in
      let roots = >>=-eq-ok (historical_roots_default A) on_roots k₃ in
      (
        acc.0,
        roots.0,
        acc.1,
        roots.1,
        (bytes_eq→eq _ _ same, bytes_eq→eq _ _ (assert-ok _ roots.2)),
      )

  -- The rest of `build` after its check.
  abbrev finish :
      VerifierBuilder → PreMergeAccumulator → HistoricalRootsAccumulator → Outcome Error Verifier
  finish b acc roots = ok (record {
    validator = new_with_historical_summaries acc roots (or_default b.historical_summaries);
    data_sources = b.data_sources;
  })

  abbrev load : VerifierBuilder → Outcome Error Verifier
  load b = pre_merge_default A >>= λ acc. historical_roots_default A >>= λ roots. finish b acc roots

  load-ok :
      (b : VerifierBuilder) (acc : PreMergeAccumulator) (roots : HistoricalRootsAccumulator)
      → pre_merge_default A {E = Error} ≡ ok acc
      → historical_roots_default A {E = Error} ≡ ok roots
      → load b ≡ finish b acc roots
  load-ok b acc roots p q = rw (p, q) refl

  -- Unless the check is skipped, a verifier that `build` returns has the canonical tables, by their
  -- hash tree roots; and it has the summaries and the sources that the builder was given.
  pub build-IsCanonical :
      (b : VerifierBuilder) (v : Verifier)
      → b.skip_fingerprint_check ≡ false
      → build A b ≡ ok v
      → IsCanonical v.validator.pre_merge_acc v.validator.historical_roots_acc
        × (v.validator.historical_summaries_provider.summaries ≡ or_default b.historical_summaries)
        × (v.data_sources ≡ b.data_sources)
  unfolding build new_with_historical_summaries
  build-IsCanonical b v checked e =
      let checks =
        if b.skip_fingerprint_check then ok tt else assert_canonized_accumulator_fingerprints A in
      let start = >>=-eq-ok checks (λ _. load b) e in
      let found = fingerprints-ok (
        ap (λ c. if c then ok tt else assert_canonized_accumulator_fingerprints A) (sym checked)
        ∙ start.1) in
      let same = ok-injective (sym (load-ok b found.0 found.1 found.2 found.3) ∙ start.2) in
      subst
        (λ (w : Verifier).
          IsCanonical w.validator.pre_merge_acc w.validator.historical_roots_acc
          × (w.validator.historical_summaries_provider.summaries
              ≡ or_default b.historical_summaries)
          × (w.data_sources ≡ b.data_sources))
        same (found.4, refl, refl)
