-- ===== src/Base/Results.antt =====
-- What a call of a Rust function comes to: a value, an `Err`, or a panic (an index out of range, a
-- failed `assert!`, an `unwrap` of `None`). A function that returns no `Result` has no `err`.
use mathlib.Core.Path.{◌≡◌, refl}
use mathlib.Core.Option.{Option, none, some}
use mathlib.Core.Logic.{◌⊎◌, inl, inr}
use mathlib.Core.Bool.{Bool, true, false}

pub data Outcome {ℓ} (E A : Type ℓ) : Type ℓ where
  ok : A → Outcome E A
  err : E → Outcome E A
  panic : Outcome E A

infixl 5 ◌>>=◌ ◌>>◌
-- The `?` operator, and the way a panic unwinds.
abbrev pub ◌>>=◌ {ℓ} : {E A B : Type ℓ} → Outcome E A → (A → Outcome E B) → Outcome E B
ok a >>= f = f a
err e >>= f = err e
panic >>= f = panic

abbrev pub ◌>>◌ {ℓ} : {E A B : Type ℓ} → Outcome E A → Outcome E B → Outcome E B
m >> k = m >>= λ _. k

-- `option.ok_or(e)`
abbrev pub ok_or {ℓ} : {E A : Type ℓ} → Option A → E → Outcome E A
ok_or none e = err e
ok_or (some a) e = ok a

-- `option.unwrap()`, `.expect(..)`, and `v[i]` as the unwrapping of `v.get(i)`.
abbrev pub unwrap {ℓ} : {E A : Type ℓ} → Option A → Outcome E A
unwrap none = panic
unwrap (some a) = ok a

-- `result.map_err(f)`
abbrev pub map_err {ℓ} : {E F A : Type ℓ} → (E → F) → Outcome E A → Outcome F A
map_err f (ok a) = ok a
map_err f (err e) = err (f e)
map_err f panic = panic

-- `if b { return Err(e) }` goes on with `ok tt`.
abbrev pub guard : {E : Type 0} → Bool → E → Outcome E Unit
guard true e = ok tt
guard false e = err e

-- A chain that ends in `ok` has gone through its first step.
pub >>=-eq-ok {ℓ} :
    {E A B : Type ℓ} (first : Outcome E A) (rest : A → Outcome E B) {out : B}
    → (first >>= rest) ≡ ok out
    → (mid : A) × (first ≡ ok mid) × (rest mid ≡ ok out)
>>=-eq-ok panic rest chain = cc
>>=-eq-ok (err failure) rest chain = cc
>>=-eq-ok (ok mid) rest chain = (mid, refl, chain)

pub ok-injective {ℓ} : {E A : Type ℓ} {a b : A} → ◌≡◌ {A = Outcome E A} (ok a) (ok b) → a ≡ b
ok-injective h = cc

pub some-injective {ℓ} : {A : Type ℓ} {a b : A} → ◌≡◌ {A = Option A} (some a) (some b) → a ≡ b
some-injective h = cc

pub Outcome-cases {ℓ} :
    {E A : Type ℓ} (m : Outcome E A)
    → ((a : A) × (m ≡ ok a)) ⊎ ((e : E) × (m ≡ err e)) ⊎ (m ≡ panic)
Outcome-cases (ok a) = inl (a, refl)
Outcome-cases (err e) = inr (inl (e, refl))
Outcome-cases panic = inr (inr refl)

-- What a computation returns, where it returns, satisfies a predicate.
abbrev pub Yields : {E A : Type 0} → (A → Type 0) → Outcome E A → Type 0
Yields {A = A} P m = (a : A) → m ≡ ok a → P a

pub Yields->>= :
    {E A B : Type 0} {Q : A → Type 0} {P : B → Type 0} {m : Outcome E A} {f : A → Outcome E B}
    → Yields Q m
    → ((a : A) → Q a → Yields P (f a))
    → Yields P (m >>= f)
Yields->>= {m = ok a} first rest b e = rest a (first a refl) b e
Yields->>= {m = err failure} first rest b e = cc
Yields->>= {m = panic} first rest b e = cc

pub map_err-ok :
    {E F A : Type 0} (f : E → F) (m : Outcome E A) {a : A} → map_err f m ≡ ok a → m ≡ ok a
map_err-ok f (ok a) h = cc
map_err-ok f (err e) h = cc
map_err-ok f panic h = cc
