-- ===== src/Base/Reader.antt =====
-- Reading the front of a text, and the chains of such readers.
use Prim.Native.Nat.{ℕ, zero, suc, ◌+◌, ◌-◌, ◌*◌, ◌/◌, ◌%◌, ◌≤◌, ◌<◌}
use mathlib.Core.Path.{◌≡◌, refl, sym}
use mathlib.Core.Bool.{◌&&◌}
use mathlib.Core.Logic.{inl, inr}
use mathlib.Core.Option.{Option, none, some}
use mathlib.Core.List.{[], ◌∷◌, ◌++◌}
use native.Mathlib.Omega.{arith}
use linkly.Base.Tests.{leb, ◌==◌, if◌then◌else◌, Bool-cases}
use linkly.Base.Text.{Text, is_digit}

-- What follows a reader runs only where the reader succeeds.
infixl 5 ◌>>=◌
abbrev pub ◌>>=◌ {ℓ} : {X Y : Type ℓ} → Option X → (X → Option Y) → Option Y
none >>= next = none
some x >>= next = next x

-- A chain succeeds only where its first reader does.
pub chain_reads {ℓ} :
    {X Y : Type ℓ} (first : Option X) (next : X → Option Y) {y : Y}
    → (first >>= next) ≡ some y
    → (x : X) × (first ≡ some x) × (next x ≡ some y)
chain_reads none next e = cc
chain_reads (some x) next e = (x, refl, e)

-- `\d{k}`, behind digits that stand for n
unfoldable pub read_digits : ℕ → ℕ → Text → Option (ℕ × Text)
unfolding is_digit
read_digits n zero s = some (n, s)
read_digits n (suc k) [] = none
read_digits n (suc k) (c ∷ s) =
    let more = read_digits (n * 10 + (c - 48)) k s in if is_digit c then more else none

-- One character of the pattern.
unfoldable pub skip : ℕ → Text → Option Text
skip c [] = none
skip c (d ∷ s) = if d == c then some s else none

-- `%02d`, `%03d` and `%04d` of a number with at most as many digits
abbrev pub two_digits : ℕ → Text
two_digits n = (48 + n / 10) ∷ (48 + n % 10) ∷ []

abbrev pub three_digits : ℕ → Text
three_digits n = (48 + n / 100) ∷ two_digits (n % 100)

abbrev pub four_digits : ℕ → Text
four_digits n = two_digits (n / 100) ++ two_digits (n % 100)

pub read-two_digits :
    (n : ℕ) (s : Text) → n < 100 → read_digits 0 2 (two_digits n ++ s) ≡ some (n, s)
unfolding read_digits
read-two_digits n s h = ground arith

pub read-four_digits :
    (n : ℕ) (s : Text) → n < 10000 → read_digits 0 4 (four_digits n ++ s) ≡ some (n, s)
unfolding read_digits
read-four_digits n s h = ground arith

-- The least number that k digits behind at most b do not reach.
abbrev pub beyond : ℕ → ℕ → ℕ
beyond b zero = suc b
beyond b (suc k) = beyond (b * 10 + 9) k

pub read_digits-beyond :
    (k n b : ℕ) (s rest : Text) (m : ℕ)
    → n ≤ b
    → read_digits n k s ≡ some (m, rest)
    → m < beyond b k
unfolding read_digits
read_digits-beyond zero n b s rest m le e = ground arith
read_digits-beyond (suc k) n b [] rest m le e = cc
read_digits-beyond (suc k) n b (c ∷ s) rest m le e = elim (Bool-cases (leb 48 c && leb c 57)) [
  | inl digit ↦
      read_digits-beyond k (n * 10 + (c - 48)) (b * 10 + 9) s rest m (ground arith) (rw digit at e)
  | inr other ↦ cc (rw other at e)
]

-- What every result of a reader satisfies.
abbrev pub Reads {ℓ κ} : {X : Type ℓ} → (X → Type κ) → Option X → Type (ℓ ⊔ κ)
Reads {X = X} P o = (x : X) → o ≡ some x → P x

pub some-Reads {ℓ κ} : {X : Type ℓ} (P : X → Type κ) (x : X) → P x → Reads P (some x)
some-Reads P x h y e = let same : x ≡ y = cc in rw (sym same) h

pub chain-Reads {ℓ κ} :
    {X Y : Type ℓ} (P : Y → Type κ) (first : Option X) (next : X → Option Y)
    → ((x : X) → first ≡ some x → Reads P (next x))
    → Reads P (first >>= next)
chain-Reads P none next h y e = cc
chain-Reads P (some x) next h y e = h x refl y e
