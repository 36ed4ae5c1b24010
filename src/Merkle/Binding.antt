-- ===== src/Merkle/Binding.antt =====
-- What an accepted proof of src/merkle/proof.rs commits to: at one index of one root there is one
-- leaf, unless the two paths show a collision of SHA-256.
use eth_historian.Base.{
  ℕ, ap, ◌/◌, ◌≤◌, ◌≡◌, refl, ◌∙◌, sym, ◌⊎◌, inl, inr, ◌↔◌, List, [], ◌∷◌, true, false, ◌==◌,
  Bool-cases, if◌then◌else◌, bytes_eq, bytes_eq→eq, bytes_eq_refl, ok, length, arith, B256,
}
use eth_historian.Merkle.Hashing.{Hashing, IsLawful}
use eth_historian.Merkle.Verify.{verify_merkle_proof}
use eth_historian.Merkle.Climb.{parent, climb, verify_merkle_proof_lem}

pub B256-eq : (a b : B256) → (a ≡ b) ⊎ (¬ (a ≡ b))
B256-eq a b = elim (Bool-cases (bytes_eq a b)) [
  | inl same ↦ inl (bytes_eq→eq a b same)
  | inr differ ↦ inr (λ e. cc (bytes_eq_refl a))
]

module _ (H : Hashing) where
  -- At some level of the two paths, different pairs of siblings have the same parent.
  abbrev pub PathsCollide : ℕ → B256 → List B256 → B256 → List B256 → Type 0
  PathsCollide n a [] b ys = ⊥
  PathsCollide n a (x ∷ xs) b [] = ⊥
  PathsCollide n a (x ∷ xs) b (y ∷ ys) =
      ((¬ ((a ≡ b) × (x ≡ y))) × (parent H n a x ≡ parent H n b y))
      ⊎ PathsCollide (n / 2) (parent H n a x) xs (parent H n b y) ys

  pub climb-injective :
      (n : ℕ) (a : B256) (xs : List B256) (b : B256) (ys : List B256)
      → length xs ≡ length ys
      → climb H n a xs ≡ climb H n b ys
      → ((a ≡ b) × (xs ≡ ys)) ⊎ PathsCollide n a xs b ys
  climb-injective n a [] b [] l h = inl (h, refl)
  climb-injective n a [] b (y ∷ ys) l h = absurd (omega arith)
  climb-injective n a (x ∷ xs) b [] l h = absurd (omega arith)
  climb-injective n a (x ∷ xs) b (y ∷ ys) l h =
      elim (climb-injective (n / 2) (parent H n a x) xs (parent H n b y) ys (omega arith) h) [
        | inr above ↦ inr (inr above)
        | inl (same, rest) ↦ elim (B256-eq a b) [
          | inr na ↦ inr (inl (λ e. na e.0, same))
          | inl ea ↦ elim (B256-eq x y) [
            | inr nx ↦ inr (inl (λ e. nx e.1, same))
            | inl ex ↦ inl (ea, cc)
          ]
        ]
      ]

test_iff :
    (a b : B256) (m n : ℕ) → ((if m == n then bytes_eq a b else false) ≡ true) ↔ ((m ≡ n) × (a ≡ b))
test_iff a b m n = (λ h. ground (arith, bytes_eq→eq a b), λ h. ground (arith, bytes_eq_refl a))

module _ (H : Hashing) (lawful : IsLawful H) where
  -- What acceptance says, in both directions.
  pub verify_merkle_proof_iff :
      {E : Type 0} (leaf : B256) (branch : List B256) (depth index : ℕ) (root : B256)
      → depth ≤ 64
      → (verify_merkle_proof H {E = E} leaf branch depth index root ≡ ok true)
        ↔ ((length branch ≡ depth) × (climb H index leaf branch ≡ root))
  verify_merkle_proof_iff {E} leaf branch depth index root h =
      rw (verify_merkle_proof_lem H lawful {E = E} leaf branch depth index root h) (
        let both = test_iff (climb H index leaf branch) root (length branch) depth in
        (λ p. both.0 (cc), λ p. ap ok (both.1 p)))

  -- Two proofs that are accepted for one index, one root and one depth of at most 64 are for the same leaf, and are the same
  -- branch, unless two different pairs of siblings on their paths have the same hash.
  pub verify_merkle_proof-binds :
      {E : Type 0} (depth index : ℕ) (root leaf leaf' : B256) (branch branch' : List B256)
      → depth ≤ 64
      → verify_merkle_proof H {E = E} leaf branch depth index root ≡ ok true
      → verify_merkle_proof H {E = E} leaf' branch' depth index root ≡ ok true
      → ((leaf ≡ leaf') × (branch ≡ branch')) ⊎ PathsCollide H index leaf branch leaf' branch'
  verify_merkle_proof-binds depth index root leaf leaf' branch branch' h p q =
      let (l, r) = (verify_merkle_proof_iff leaf branch depth index root h).0 p in
      let (l', r') = (verify_merkle_proof_iff leaf' branch' depth index root h).0 q in
      climb-injective H index leaf branch leaf' branch' (l ∙ sym l') (r ∙ sym r')
