-- ===== src/Base/Decimal.antt =====
-- `str(n)` of a number, and that `int` reads it back.
use linkly.Base.Tests.{ltb, if◌then◌else◌, Bool-cases}
use linkly.Base.Lists.{all}
use linkly.Base.Text.{Text, is_digit, all_digits, int_from, int_of, codes}
use Prim.Native.Nat.{ℕ, zero, suc, ◌+◌, ◌-◌, ◌/◌, ◌%◌, ◌<◌, ◌^◌}
use mathlib.Core.Path.{◌≡◌, refl, ap, ◌∙◌}
use mathlib.Core.Bool.{true}
use mathlib.Core.List.{[], ◌∷◌}
use mathlib.Core.Logic.{inl, inr}
use native.Mathlib.Omega.{arith}

-- The digits of `n` in front of `rest`, the last one first.
digits_before : ℕ → ℕ → Text → Text
digits_before zero n rest = rest
digits_before (suc f) n rest =
    let more = digits_before f (n / 10) ((48 + n % 10) ∷ rest) in
    if ltb n 10 then (48 + n) ∷ rest else more

-- `"%d" % n`: a number has at most as many digits as it counts, and one more.
unfoldable pub decimal : ℕ → Text
unfolding digits_before
decimal n = digits_before (suc n) n []

int_from-digits_before :
    (f n : ℕ) (rest : Text) → n < f → int_from 0 (digits_before f n rest) ≡ int_from n rest
unfolding digits_before int_from
int_from-digits_before zero n rest h = elim h [ ]
int_from-digits_before (suc f) n rest h = elim (Bool-cases (ltb n 10)) [
  | inl small ↦ rw small (ap (λ (k : ℕ). int_from k rest) (omega arith))
  | inr large ↦ rw large (
      int_from-digits_before f (n / 10) ((48 + n % 10) ∷ rest) (ground arith)
      ∙ ap (λ (k : ℕ). int_from k rest) (omega arith))
]

pub int_of-decimal : (n : ℕ) → int_of (decimal n) ≡ n
unfolding decimal int_from
int_of-decimal n = int_from-digits_before (suc n) n [] (omega arith)

all_digits-digits_before :
    (f n : ℕ) (rest : Text)
    → n < f
    → all is_digit rest ≡ true
    → all_digits (digits_before f n rest) ≡ true
unfolding digits_before all_digits
all_digits-digits_before zero n rest h r = elim h [ ]
all_digits-digits_before (suc f) n rest h r =
    ground (arith, all_digits-digits_before f (n / 10) ((48 + n % 10) ∷ rest))

pub all_digits-decimal : (n : ℕ) → all_digits (decimal n) ≡ true
unfolding decimal is_digit
all_digits-decimal n = all_digits-digits_before (suc n) n [] (omega arith) refl

decimal_zero : decimal 0 ≡ 48 ∷ []
unfolding decimal
decimal_zero = refl

decimal_max : decimal (2 ^ 63 - 1) ≡ codes "9223372036854775807"
unfolding decimal
decimal_max = refl
