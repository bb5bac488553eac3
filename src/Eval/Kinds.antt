-- ===== src/Eval/Kinds.antt =====
-- impl/lnpl/interp.py: the values of `eval_value` are in the 64-bit range, and `_is_numeric_shaped` says
-- where it reads a number.
use linkly.Base.{
  ℕ, ◌*◌, ◌^◌, ◌≡◌, ◌↔◌, ◌⊎◌, refl, true, false, ◌||◌, Option, none, some, ◌==◌, arith, Bool-cases,
  inl, inr,
}
use linkly.Base.Result.{Result, ok, err, ◌>>=◌, Result-cases}
use linkly.Base.Text.{Text}
use linkly.Base.Int.{ℤ, pos_part, neg_part, signed, in_int64, IsInt64, in_int64_iff}
use linkly.Base.Json.{Json, null, bool, int, float, str, seq, dict}
use linkly.Lexer.Words.{ArithOp}
use linkly.Condition.Syntax.{Operand, ref, lit, Value, operand, arith_of}
use linkly.Condition.Parse.{Parsed}
use linkly.Condition.Tokens.{FitsOperand}
use linkly.Condition.Values.{FitsValue}
use linkly.Condition.Instant.{is_instant_text, looks_like_instant, encode_instant}
use linkly.Money.{MoneyError, exponent}
use linkly.Money.Pairs.{
  Number, finite, special, read_decimal, encode_number, encode_amount, encode_money,
}
use linkly.Eval.Scope.{out_of_range, Run, Scope, resolve_reference}
use linkly.Eval.Value.{
  Num, number, money, checked, checked_number, checked_instant, checked_int, int_text, eval_text,
  money_pair, eval_dict, eval_raw, eval_operand, int_arith, checked_money, eval_arith, eval_value,
  returns, parses, is_numeric_shaped,
}

-- An int in the 64-bit range, a pair with its minor units there, or no value.
abbrev pub IsInRange : Option Num → Type 0
IsInRange none = Unit
IsInRange (some (number n)) = IsInt64 n
IsInRange (some (money n currency)) = IsInt64 n

-- A value in the range, or an exception.
abbrev pub Ranges : Run (Option Num) → Type 0
Ranges (err e) = Unit
Ranges (ok r) = IsInRange r

pub checked-cases : (n : ℤ) → ((checked n ≡ ok n) × IsInt64 n) ⊎ (checked n ≡ err out_of_range)
unfolding checked
checked-cases n = elim (Bool-cases (in_int64 n)) [
  | inl inside ↦ inl (rw inside refl, (in_int64_iff n).0 inside)
  | inr outside ↦ inr (rw outside refl)
]

checked_number-Ranges : (n : ℤ) → Ranges (checked_number n)
checked_number-Ranges n = elim (checked-cases n) [
  | inl (returned, inside) ↦ rw returned inside
  | inr raised ↦ rw raised tt
]

checked_money-Ranges : (made : Result MoneyError (ℤ × Text)) → Ranges (checked_money made)
checked_money-Ranges (err e) = tt
checked_money-Ranges (ok (n, currency)) = elim (checked-cases n) [
  | inl (returned, inside) ↦ rw returned inside
  | inr raised ↦ rw raised tt
]

encode_number-Ranges :
    (read : Option Number) (e : ℕ) (currency : Text)
    → Ranges (money_pair (encode_number read e currency))
unfolding encode_number
encode_number-Ranges none e currency = tt
encode_number-Ranges (some special) e currency = tt
encode_number-Ranges (some (finite negative n x)) e currency =
    let minor = signed negative (n * 10 ^ pos_part x) in
    elim (Bool-cases (neg_part x == e)) [
      | inr off ↦ rw off tt
      | inl exact ↦ elim (Bool-cases (in_int64 minor)) [
        | inr outside ↦ rw (exact, outside) tt
        | inl inside ↦ rw (exact, inside) ((in_int64_iff minor).0 inside)
      ]
    ]

encode_amount-Ranges :
    (amount : Json) (scale : Result MoneyError ℕ) (currency : Text)
    → Ranges (money_pair (scale >>= (λ e. encode_amount amount e currency)))
encode_amount-Ranges amount (err x) currency = tt
encode_amount-Ranges (str s) (ok e) currency = encode_number-Ranges (read_decimal s) e currency
encode_amount-Ranges null (ok e) currency = tt
encode_amount-Ranges (bool b) (ok e) currency = tt
encode_amount-Ranges (int n) (ok e) currency = tt
encode_amount-Ranges (float m x) (ok e) currency = tt
encode_amount-Ranges (seq s) (ok e) currency = tt
encode_amount-Ranges (dict d) (ok e) currency = tt

eval_dict-Ranges : (amount currency : Option Json) → Ranges (eval_dict amount currency)
unfolding encode_money
eval_dict-Ranges none currency = tt
eval_dict-Ranges (some amount) none = tt
eval_dict-Ranges (some amount) (some (str currency)) =
    encode_amount-Ranges amount (exponent currency) currency
eval_dict-Ranges (some amount) (some null) = tt
eval_dict-Ranges (some amount) (some (bool b)) = tt
eval_dict-Ranges (some amount) (some (int n)) = tt
eval_dict-Ranges (some amount) (some (float m e)) = tt
eval_dict-Ranges (some amount) (some (seq s)) = tt
eval_dict-Ranges (some amount) (some (dict d)) = tt

eval_text-Ranges : (s : Text) → Ranges (eval_text s)
unfolding eval_text
eval_text-Ranges s = elim (Bool-cases (is_instant_text s || looks_like_instant s)) [
  | inl instant ↦ rw instant (of_instant (encode_instant s))
  | inr other ↦ rw other (of_int (int_text s))
]
  where
    of_instant : (r : Parsed ℤ) → Ranges (checked_instant r)
    of_instant (err e) = tt
    of_instant (ok n) = checked_number-Ranges n

    of_int : (r : Option ℤ) → Ranges (checked_int r)
    of_int none = tt
    of_int (some n) = checked_number-Ranges n

eval_raw-Ranges : (v : Json) → Ranges (eval_raw v)
unfolding eval_raw
eval_raw-Ranges null = tt
eval_raw-Ranges (bool true) = (omega arith, omega arith)
eval_raw-Ranges (bool false) = (omega arith, omega arith)
eval_raw-Ranges (int n) = checked_number-Ranges n
eval_raw-Ranges (float m e) = tt
eval_raw-Ranges (str s) = eval_text-Ranges s
eval_raw-Ranges (seq s) = tt
eval_raw-Ranges (dict d) = eval_dict-Ranges _ _

eval_operand-Ranges : (scope : Scope) (o : Operand) → FitsOperand o → Ranges (eval_operand scope o)
unfolding eval_operand
eval_operand-Ranges scope (lit n true) fits = (omega (arith, fits), omega arith)
eval_operand-Ranges scope (lit n false) fits = (omega (arith, fits), omega arith)
eval_operand-Ranges scope (ref name) fits = eval_raw-Ranges (resolve_reference scope name)

eval_arith-Ranges : (op : ArithOp) (l r : Option Num) → Ranges (eval_arith op l r)
unfolding eval_arith
eval_arith-Ranges op none r = tt
eval_arith-Ranges op (some (number a)) none = tt
eval_arith-Ranges op (some (money a c)) none = tt
eval_arith-Ranges op (some (number a)) (some (number b)) = of_result (int_arith op a b)
  where
    of_result : (r : Run ℤ) → Ranges (r >>= checked_number)
    of_result (err e) = tt
    of_result (ok n) = checked_number-Ranges n
eval_arith-Ranges ArithOp.add (some (money a c)) (some (money b d)) = checked_money-Ranges _
eval_arith-Ranges ArithOp.sub (some (money a c)) (some (money b d)) = checked_money-Ranges _
eval_arith-Ranges ArithOp.mul (some (money a c)) (some (money b d)) = tt
eval_arith-Ranges ArithOp.div (some (money a c)) (some (money b d)) = tt
eval_arith-Ranges ArithOp.add (some (money a c)) (some (number n)) = tt
eval_arith-Ranges ArithOp.sub (some (money a c)) (some (number n)) = tt
eval_arith-Ranges ArithOp.mul (some (money a c)) (some (number n)) = checked_money-Ranges _
eval_arith-Ranges ArithOp.div (some (money a c)) (some (number n)) = tt
eval_arith-Ranges ArithOp.add (some (number n)) (some (money a c)) = tt
eval_arith-Ranges ArithOp.sub (some (number n)) (some (money a c)) = tt
eval_arith-Ranges ArithOp.mul (some (number n)) (some (money a c)) = checked_money-Ranges _
eval_arith-Ranges ArithOp.div (some (number n)) (some (money a c)) = tt

value-Ranges : (scope : Scope) (v : Value) → FitsValue v → Ranges (eval_value scope v)
unfolding eval_value
value-Ranges scope (operand o) fits = eval_operand-Ranges scope o fits
value-Ranges scope (arith_of l op r) fits = elim (Result-cases (eval_operand scope l)) [
  | inr (e, raised) ↦ rw raised tt
  | inl (x, left) ↦ elim (Result-cases (eval_operand scope r)) [
    | inr (e, raised) ↦ rw (left, raised) tt
    | inl (y, right) ↦ rw (left, right) (eval_arith-Ranges op x y)
  ]
]

-- What eval_value returns of a value that the grammar can spell is in the 64-bit range: an int, the
-- minor units of a Money pair, or nothing.
pub eval_value-IsInRange :
    (scope : Scope) (v : Value) (r : Option Num)
    → FitsValue v
    → eval_value scope v ≡ ok r
    → IsInRange r
eval_value-IsInRange scope v r fits e = rw e at (value-Ranges scope v fits)

-- A number, or a number out of the 64-bit range.
abbrev pub IsNumber : Run (Option Num) → Type 0
IsNumber r = ((n : ℤ) × (r ≡ ok (some (number n)))) ⊎ (r ≡ err out_of_range)

checked-IsNumber : (n : ℤ) → IsNumber (checked_number n)
checked-IsNumber n = elim (checked-cases n) [
  | inl (returned, inside) ↦ inl (n, rw returned refl)
  | inr raised ↦ inr (rw raised refl)
]

instant-IsNumber : (r : Parsed ℤ) → (returns r ≡ true) ↔ IsNumber (checked_instant r)
instant-IsNumber (err e) = (λ h. cc h, λ h. elim h [ inl (n, f) ↦ cc f | inr f ↦ cc f ])
instant-IsNumber (ok n) = (λ h. checked-IsNumber n, λ h. refl)

parsed-IsNumber : (r : Option ℤ) → (parses r ≡ true) ↔ IsNumber (checked_int r)
parsed-IsNumber none = (λ h. cc h, λ h. elim h [ inl (n, f) ↦ cc f | inr f ↦ cc f ])
parsed-IsNumber (some n) = (λ h. checked-IsNumber n, λ h. refl)

text-IsNumber : (s : Text) → (is_numeric_shaped (str s) ≡ true) ↔ IsNumber (eval_text s)
unfolding is_numeric_shaped eval_text
text-IsNumber s = elim (Bool-cases (is_instant_text s || looks_like_instant s)) [
  | inl instant ↦ rw instant (instant-IsNumber (encode_instant s))
  | inr other ↦ rw other (parsed-IsNumber (int_text s))
]

money_pair-NoNumber : (r : Result MoneyError (ℤ × Text)) → IsNumber (money_pair r) → ⊥
money_pair-NoNumber (err e) h = elim h [ inl (n, f) ↦ cc f | inr f ↦ cc f ]
money_pair-NoNumber (ok (n, currency)) h = elim h [ inl (m, f) ↦ cc f | inr f ↦ cc f ]

dict-NoNumber : (amount currency : Option Json) → IsNumber (eval_dict amount currency) → ⊥
dict-NoNumber none currency h = elim h [ inl (n, f) ↦ cc f | inr f ↦ cc f ]
dict-NoNumber (some amount) none h = elim h [ inl (n, f) ↦ cc f | inr f ↦ cc f ]
dict-NoNumber (some amount) (some currency) h = money_pair-NoNumber (encode_money amount currency) h

-- `is-numeric` holds of a value exactly where eval_value reads it as a number, or would but for the
-- 64-bit range.
pub is_numeric_shaped_iff : (v : Json) → (is_numeric_shaped v ≡ true) ↔ IsNumber (eval_raw v)
unfolding eval_raw is_numeric_shaped
is_numeric_shaped_iff null = (λ h. cc h, λ h. elim h [ inl (n, f) ↦ cc f | inr f ↦ cc f ])
is_numeric_shaped_iff (bool b) = (λ h. inl (_, refl), λ h. refl)
is_numeric_shaped_iff (int n) = (λ h. checked-IsNumber n, λ h. refl)
is_numeric_shaped_iff (float m e) = (λ h. cc h, λ h. elim h [ inl (n, f) ↦ cc f | inr f ↦ cc f ])
is_numeric_shaped_iff (str s) = text-IsNumber s
is_numeric_shaped_iff (seq s) = (λ h. cc h, λ h. elim h [ inl (n, f) ↦ cc f | inr f ↦ cc f ])
is_numeric_shaped_iff (dict d) = (λ h. cc h, λ h. absurd (dict-NoNumber _ _ h))
