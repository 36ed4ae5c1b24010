-- ===== src/Validator/Calm.antt =====
-- The same steps of src/header_validator.rs with a panic in sight: where one can come from.
use eth_historian.Base.{
  ℕ, zero, suc, ◌≤◌, ◌≡◌, ◌≢◌, refl, ◌↔◌, List, [], ◌∷◌, String, Bool, true, false, Option, none,
  some, Outcome, ok, err, panic, unwrap, ◌>>=◌, ◌>>◌, length, get_elem?, B256, arith,
}
use eth_historian.Types.Summaries.{HistoricalSummary, SummaryError}
use eth_historian.Validator.{ensure, or_false}

pub ensure-panic :
    (b : Bool) (message : String) (k : Outcome String Unit)
    → ((ensure b message >> k) ≡ panic) ↔ ((b ≡ true) × (k ≡ panic))
ensure-panic true message k = (λ h. (refl, h), λ h. h.1)
ensure-panic false message k = (λ h. cc, λ h. cc)

pub ensure-ne-panic : (b : Bool) (message : String) → ensure b message ≢ panic
ensure-ne-panic true message h = cc
ensure-ne-panic false message h = cc

-- A step whose own result is no panic.
pub checked-panic :
    (m : Outcome String Bool) (message : String) (k : Outcome String Unit)
    → m ≢ panic
    → ((m >>= λ good. ensure good message >> k) ≡ panic) ↔ ((m ≡ ok true) × (k ≡ panic))
checked-panic (ok true) message k n = (λ h. (refl, h), λ h. h.1)
checked-panic (ok false) message k n = (λ h. cc, λ h. cc)
checked-panic (err e) message k n = (λ h. cc, λ h. cc)
checked-panic panic message k n = absurd (n refl)

pub last-panic :
    (m : Outcome String Bool) (message : String)
    → ((m >>= λ good. ensure good message) ≡ panic) ↔ (m ≡ panic)
last-panic (ok b) message = (λ h. absurd (ensure-ne-panic b message h), λ h. cc)
last-panic (err e) message = (λ h. cc, λ h. cc)
last-panic panic message = (λ h. refl, λ h. refl)

pub bind-panic :
    {B : Type 0} (o : Option B256) (k : B256 → Outcome String B)
    → ((root : B256) → k root ≢ panic)
    → ((unwrap o >>= k) ≡ panic) ↔ (o ≡ none)
bind-panic none k n = (λ h. refl, λ h. refl)
bind-panic (some a) k n = (λ h. absurd (n a h), λ h. cc)

pub last-calm :
    (m : Outcome String Bool) (message : String)
    → m ≢ panic
    → (m >>= λ good. ensure good message) ≢ panic
last-calm m message n h = n ((last-panic m message).0 h)

-- Steps that cannot panic, one after the other.
pub ensure-calm :
    (b : Bool) (message : String) (k : Outcome String Unit)
    → k ≢ panic
    → (ensure b message >> k) ≢ panic
ensure-calm b message k n h = n ((ensure-panic b message k).0 h).1

pub both-calm :
    (m n : Outcome String Bool) (first second : String)
    → m ≢ panic
    → n ≢ panic
    → (m >>= λ executed. ensure executed first >> (n >>= λ included. ensure included second))
      ≢ panic
both-calm m n first second cm cn h =
    cn ((last-panic n second).0 ((checked-panic m first _ cm).0 h).1)

pub or_false-ne-panic :
    (r : Outcome SummaryError HistoricalSummary) (k : HistoricalSummary → Outcome String Bool)
    → r ≢ panic
    → ((s : HistoricalSummary) → k s ≢ panic)
    → or_false r k ≢ panic
or_false-ne-panic (ok s) k n m h = m s h
or_false-ne-panic (err e) k n m h = cc
or_false-ne-panic panic k n m h = n refl

pub get_elem?-none_iff : (xs : List B256) (i : ℕ) → (get_elem? xs i ≡ none) ↔ (length xs ≤ i)
get_elem?-none_iff [] i = (λ h. omega arith, λ h. refl)
get_elem?-none_iff (x ∷ xs) zero = (λ h. cc, λ h. absurd (omega arith))
get_elem?-none_iff (x ∷ xs) (suc i) =
    let rest = get_elem?-none_iff xs i in (λ h. omega (arith, rest.0 h), λ h. rest.1 (omega arith))
