-- ===== src/Validator/Steps.antt =====
-- The steps that the checks of src/header_validator.rs are made of: when a guard, a look-up or a branch
-- check lets the rest run.
use eth_historian.Base.{
  ◌≡◌, refl, ap, ◌∙◌, ◌↔◌, String, Bool, true, false, Option, none, some, some-injective,
  ok-injective, Outcome, ok, err, panic, unwrap, ◌>>=◌, ◌>>◌,
}
use eth_historian.Types.Summaries.{HistoricalSummary, SummaryError}
use eth_historian.Validator.{ensure, or_false}

-- A guard before the rest, and a guard on the last result.
pub ensure-then :
    (b : Bool) (message : String) (k : Outcome String Unit)
    → ((ensure b message >> k) ≡ ok tt) ↔ ((b ≡ true) × (k ≡ ok tt))
ensure-then true message k = (λ h. (refl, h), λ h. h.1)
ensure-then false message k = (λ h. cc, λ h. cc)

pub checked :
    (m : Outcome String Bool) (message : String)
    → ((m >>= λ good. ensure good message) ≡ ok tt) ↔ (m ≡ ok true)
checked (ok true) message = (λ h. refl, λ h. refl)
checked (ok false) message = (λ h. cc, λ h. cc)
checked (err e) message = (λ h. cc, λ h. cc)
checked panic message = (λ h. cc, λ h. cc)

pub checked-then :
    (m : Outcome String Bool) (message : String) (k : Outcome String Unit)
    → ((m >>= λ good. ensure good message >> k) ≡ ok tt) ↔ ((m ≡ ok true) × (k ≡ ok tt))
checked-then (ok true) message k = (λ h. (refl, h), λ h. h.1)
checked-then (ok false) message k = (λ h. cc, λ h. cc)
checked-then (err e) message k = (λ h. cc, λ h. cc)
checked-then panic message k = (λ h. cc, λ h. cc)

-- A table look-up that panics out of range, before the rest.
pub unwrap-then :
    {A B : Type 0} (o : Option A) (k : A → Outcome String B) {b : B}
    → ((unwrap o >>= k) ≡ ok b) ↔ ((a : A) × (o ≡ some a) × (k a ≡ ok b))
unwrap-then none k = (λ h. cc, λ h. cc)
unwrap-then (some a) k = (λ h. (a, refl, h), λ w. ap k (some-injective w.1) ∙ w.2)

-- The two proofs that every post-merge header brings.
pub both_checked :
    (m n : Outcome String Bool) (first second : String)
    → ((m >>= λ executed. ensure executed first >> (n >>= λ included. ensure included second))
        ≡ ok tt)
      ↔ ((m ≡ ok true) × (n ≡ ok true))
both_checked m n first second = (
  λ h. let (a, b) = (checked-then _ _ _).0 h in (a, (checked _ _).0 b),
  λ (a, b). (checked-then _ _ _).1 (a, (checked _ _).1 b),
)

pub or_false-then :
    (r : Outcome SummaryError HistoricalSummary) (k : HistoricalSummary → Outcome String Bool)
    → (or_false r k ≡ ok true) ↔ ((s : HistoricalSummary) × (r ≡ ok s) × (k s ≡ ok true))
or_false-then (ok s) k = (λ h. (s, refl, h), λ w. ap k (ok-injective w.1) ∙ w.2)
or_false-then (err e) k = (λ h. cc, λ h. cc)
or_false-then panic k = (λ h. cc, λ h. cc)
