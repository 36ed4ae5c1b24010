-- ===== src/Api/Sources.antt =====
-- The fallback loop of `verify_block_by_number` and `verify_block_by_hash` (src/api.rs): which source
-- answers, what comes back when none does, and what a panic does.
use eth_historian.Base.{
  ◌≡◌, refl, sym, ap, ◌∙◌, List, [], ◌∷◌, ◌++◌, Option, none, some, Outcome, ok, err, panic,
  Outcome-cases, inl, inr,
}
use eth_historian.Errors.{Error}
use eth_historian.Api.{DataSource, VerifiedBlock, first_verified}

module _ (try : DataSource → Outcome Error VerifiedBlock) where
  -- Each of these sources ends in an error: no bytes, no decoding, the wrong block, or no proof.
  abbrev pub AllFail : List DataSource → Type 0
  AllFail [] = Unit
  AllFail (s ∷ ss) = ((e : Error) × (try s ≡ err e)) × AllFail ss

  -- The error of the last source, or the one before the loop.
  abbrev pub last_error : Error → List DataSource → Error
  last_error e [] = e
  last_error e (s ∷ ss) = elim (try s) [ err e' ↦ last_error e' ss | _ ↦ last_error e ss ]

  -- Sources that fail are passed over, and the first one that verifies is the answer.
  pub first_verified-first :
      (fallback : Error) (before : List DataSource) (s : DataSource) (after : List DataSource)
      (last : Option Error) (b : VerifiedBlock)
      → AllFail before
      → try s ≡ ok b
      → first_verified try fallback (before ++ s ∷ after) last ≡ ok b
  unfolding first_verified
  first_verified-first fallback [] s after last b fails h = rw (h, first_verified) refl
  first_verified-first fallback (x ∷ before) s after last b ((e, q), fails) h =
      rw (q, first_verified) (first_verified-first fallback before s after (some e) b fails h)

  -- A panic of a source, or of the check of its answer, ends the loop: no later source is asked.
  pub first_verified-panic :
      (fallback : Error) (before : List DataSource) (s : DataSource) (after : List DataSource)
      (last : Option Error)
      → AllFail before
      → try s ≡ panic
      → first_verified try fallback (before ++ s ∷ after) last ≡ panic
  unfolding first_verified
  first_verified-panic fallback [] s after last fails h = rw (h, first_verified) refl
  first_verified-panic fallback (x ∷ before) s after last ((e, q), fails) h =
      rw (q, first_verified) (first_verified-panic fallback before s after (some e) fails h)

  first_verified-fails :
      (fallback : Error) (sources : List DataSource) (e : Error)
      → AllFail sources
      → first_verified try fallback sources (some e) ≡ err (last_error e sources)
  unfolding first_verified
  first_verified-fails fallback [] e fails = refl
  first_verified-fails fallback (s ∷ sources) e ((e', q), fails) =
      rw (q, first_verified, last_error) (first_verified-fails fallback sources e' fails)

  -- If every source fails, the error is that of the last one; only with no source at all it is the
  -- fallback.
  pub first_verified-none :
      (fallback : Error) (sources : List DataSource)
      → AllFail sources
      → first_verified try fallback sources none ≡ err (last_error fallback sources)
  unfolding first_verified
  first_verified-none fallback [] fails = refl
  first_verified-none fallback (s ∷ sources) ((e, q), fails) =
      rw (q, first_verified, last_error) (first_verified-fails fallback sources e fails)

  loop-ok :
      (fallback : Error) (s : DataSource) (sources : List DataSource) (last : Option Error)
      (b : VerifiedBlock)
      → try s ≡ ok b
      → first_verified try fallback (s ∷ sources) last ≡ ok b
  unfolding first_verified
  loop-ok fallback s sources last b q = rw (q, first_verified) refl

  loop-err :
      (fallback : Error) (s : DataSource) (sources : List DataSource) (last : Option Error)
      (e : Error)
      → try s ≡ err e
      → first_verified try fallback sources (some e)
        ≡ first_verified try fallback (s ∷ sources) last
  unfolding first_verified
  loop-err fallback s sources last e q = rw (q, first_verified) refl

  loop-panic :
      (fallback : Error) (s : DataSource) (sources : List DataSource) (last : Option Error)
      → try s ≡ panic
      → first_verified try fallback (s ∷ sources) last ≡ panic
  unfolding first_verified
  loop-panic fallback s sources last q = rw (q, first_verified) refl

  -- Where the answer comes from.
  pub first_verified-ok :
      (fallback : Error) (sources : List DataSource) (last : Option Error) (b : VerifiedBlock)
      → first_verified try fallback sources last ≡ ok b
      → (before : List DataSource) × (s : DataSource) × (after : List DataSource) × (sources
          ≡ before ++ s ∷ after)
        × AllFail before
        × (try s ≡ ok b)
  unfolding first_verified
  first_verified-ok fallback [] none b h = cc
  first_verified-ok fallback [] (some e) b h = cc
  first_verified-ok fallback (s ∷ sources) last b h = elim (Outcome-cases (try s)) [
    | inl (b', q) ↦ ([], s, sources, refl, tt, q ∙ sym (loop-ok fallback s sources last b' q) ∙ h)
    | inr (inl (e, q)) ↦
        let rest =
          first_verified-ok fallback sources (some e) b
            (loop-err fallback s sources last e q ∙ h) in
        (s ∷ rest.0, rest.1, rest.2, ap (λ l. s ∷ l) rest.3, ((e, q), rest.4), rest.5)
    | inr (inr q) ↦ cc (loop-panic fallback s sources last q)
  ]
