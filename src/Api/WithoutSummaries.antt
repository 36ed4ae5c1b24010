-- ===== src/Api/WithoutSummaries.antt =====
-- What a verifier does before it is given any `HistoricalSummaries` (src/api.rs and
-- src/header_validator.rs), and that giving them changes nothing for earlier blocks.
use eth_historian.Base.{◌≡◌, refl, [], String, err, B256, Outcome-cases, inl, inr}
use eth_historian.Errors.{verification_failed}
use eth_historian.Merkle.Hashing.{Hashing, IsLawful}
use eth_historian.Types.Header.{
  Header, HeaderWithProof, BlockHeaderProof, historical_hashes, historical_roots,
  historical_summaries_capella, historical_summaries_deneb, IsSized,
}
use eth_historian.Validator.{HeaderValidator, validate_header_with_proof}
use eth_historian.Validator.Accept.{IsAuthentic, validate_header_with_proof_iff}
use eth_historian.Validator.Panics.{IsOutOfRange, validate_header_with_proof-panic}
use eth_historian.Api.{Verifier, verify}

-- The proofs that need a summary.
abbrev pub NeedsSummaries : BlockHeaderProof → Type 0
NeedsSummaries (historical_hashes p) = ⊥
NeedsSummaries (historical_roots p) = ⊥
NeedsSummaries (historical_summaries_capella p) = Unit
NeedsSummaries (historical_summaries_deneb p) = Unit

module _ (H : Hashing) (hash_slow : Header → B256) where
  not-IsAuthentic :
      (v : HeaderValidator) (h : Header) (p : BlockHeaderProof)
      → NeedsSummaries p
      → v.historical_summaries_provider.summaries ≡ []
      → ¬ IsAuthentic H hash_slow v h p
  not-IsAuthentic v h (historical_summaries_capella p) needs e (_, _, _, (s, _, found, _)) = cc
  not-IsAuthentic v h (historical_summaries_deneb p) needs e (_, _, (s, _, found, _)) = cc
  not-IsAuthentic v h (historical_hashes p) needs e a = needs
  not-IsAuthentic v h (historical_roots p) needs e a = needs

  in_range :
      (v : HeaderValidator) (h : Header) (p : BlockHeaderProof)
      → NeedsSummaries p
      → ¬ IsOutOfRange H hash_slow v h p
  in_range v h (historical_summaries_capella p) needs out = out
  in_range v h (historical_summaries_deneb p) needs out = out
  in_range v h (historical_hashes p) needs out = needs
  in_range v h (historical_roots p) needs out = needs

  -- A verifier without summaries refuses every header that comes with a proof for Capella or Deneb, of
  -- the lengths that its type fixes, with `VerificationFailed`.
  pub verify-without_summaries :
      (lawful : IsLawful H) (v : Verifier) (hwp : HeaderWithProof)
      → IsSized hwp.proof
      → NeedsSummaries hwp.proof
      → v.validator.historical_summaries_provider.summaries ≡ []
      → (reason : String) × (verify H hash_slow v hwp
          ≡ err (verification_failed hwp.header.number reason))
  unfolding verify
  verify-without_summaries lawful v hwp sized needs e =
      elim (Outcome-cases (validate_header_with_proof H hash_slow v.validator hwp)) [
        | inl (_, valid) ↦ absurd (
            not-IsAuthentic v.validator hwp.header hwp.proof needs e
              ((validate_header_with_proof_iff H lawful hash_slow v.validator hwp sized).0 valid))
        | inr (inl (reason, refused)) ↦ (reason, rw refused refl)
        | inr (inr panics) ↦ absurd (
            in_range v.validator hwp.header hwp.proof needs (
              (validate_header_with_proof-panic H lawful hash_slow v.validator hwp sized).0 panics))
      ]
