-- ===== src/Base/Result.antt =====
-- A value or a raised exception; `Err` is the type of the exceptions that the code raises.
use mathlib.Core.Path.{◌≡◌, refl}
use mathlib.Core.Logic.{◌⊎◌, inl, inr}

pub data Result {ℓ} (Err Value : Type ℓ) : Type ℓ where
  err : Err → Result Err Value
  ok : Value → Result Err Value

module _ {ℓ} {Err X Y : Type ℓ} where
  -- What follows a call runs only if the call returns.
  infixl 5 ◌>>=◌
  abbrev pub ◌>>=◌ : Result Err X → (X → Result Err Y) → Result Err Y
  err raised >>= next = err raised
  ok x >>= next = next x

  -- A chain returns only if its first call has returned.
  pub chain_returns :
      (first : Result Err X) (next : X → Result Err Y) {y : Y}
      → (first >>= next) ≡ ok y
      → (x : X) × (first ≡ ok x) × (next x ≡ ok y)
  chain_returns (err raised) next e = cc
  chain_returns (ok x) next e = (x, refl, e)

  -- A chain raises what its first call raises, or what follows.
  pub chain_raises :
      (first : Result Err X) (next : X → Result Err Y) {raised : Err}
      → (first >>= next) ≡ err raised
      → (first ≡ err raised) ⊎ ((x : X) × (first ≡ ok x) × (next x ≡ err raised))
  chain_raises (err other) next e = inl (cc)
  chain_raises (ok x) next e = inr (x, refl, e)

pub Result-cases {ℓ} :
    {Err X : Type ℓ} (r : Result Err X) → ((x : X) × (r ≡ ok x)) ⊎ ((e : Err) × (r ≡ err e))
Result-cases (err raised) = inr (raised, refl)
Result-cases (ok x) = inl (x, refl)
