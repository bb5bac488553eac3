-- ===== src/Eval/Value.antt =====
-- impl/lnpl/interp.py: `eval_value`, `_eval_money_arith`, `_checked` and `_is_numeric_shaped`. The
-- condition and the names in the messages are left out.
use linkly.Base.{zero, Bool, true, false, ◌||◌, Option, none, some, leb, if◌then◌else◌, length}
use linkly.Base.Result.{Result, ok, err, ◌>>=◌}
use linkly.Base.Text.{Text, codes, int_of, trim_front, trim_end, read_sign, grouped_digits}
use linkly.Base.Int.{ℤ, pos, signed, ◌+ℤ◌, ◌-ℤ◌, ◌*ℤ◌, trunc_div, in_int64}
use linkly.Base.Json.{Json, null, bool, int, str, dict, find_field}
use linkly.Lexer.Words.{ArithOp}
use linkly.Condition.Syntax.{Operand, ref, lit, Value, operand, arith_of}
use linkly.Condition.Parse.{Parsed}
use linkly.Condition.Instant.{is_instant_text, looks_like_instant, encode_instant}
use linkly.Money.{MoneyError}
use linkly.Money.Pairs.{encode_money}
use linkly.Money.Pairs as Pairs
use linkly.Eval.Scope.{
  bad_instant, money_fault, out_of_range, not_numeric, division_by_zero, money_with_number,
  money_by_money, Run, Scope, resolve_reference,
}

-- An int, or a pair of minor units and a currency.
pub data Num : Type 0 where
  number : ℤ → Num
  money : ℤ → Text → Num

-- `_checked`
unfoldable pub checked : ℤ → Run ℤ
checked n = if in_int64 n then ok n else err out_of_range

abbrev pub checked_number : ℤ → Run (Option Num)
checked_number n = do m ← checked n; ok (some (number m))

-- The digits of an int: at least one, and at most 4300.
abbrev pub int_digits : Bool → Option Text → Option ℤ
int_digits negative none = none
int_digits negative (some digits) =
    if leb (length digits) 4300 then some (signed negative (int_of digits)) else none

-- `int(raw)`, where `none` stands for the ValueError
unfoldable pub int_text : Text → Option ℤ
int_text raw =
    let s = trim_front (trim_end raw) in
    int_digits (read_sign s).0 (grouped_digits false (read_sign s).1)

abbrev pub checked_instant : Parsed ℤ → Run (Option Num)
checked_instant (err e) = err (bad_instant e)
checked_instant (ok n) = checked_number n

abbrev pub checked_int : Option ℤ → Run (Option Num)
checked_int none = err not_numeric
checked_int (some n) = checked_number n

-- A str behind `isinstance(raw, str)`
unfoldable pub eval_text : Text → Run (Option Num)
eval_text raw =
    if is_instant_text raw || looks_like_instant raw
    then checked_instant (encode_instant raw)
    else checked_int (int_text raw)

abbrev pub money_pair : Result MoneyError (ℤ × Text) → Run (Option Num)
money_pair (err e) = err (money_fault e)
money_pair (ok (minor, currency)) = ok (some (money minor currency))

-- A dict with the two keys of a Money value, or another.
abbrev pub eval_dict : Option Json → Option Json → Run (Option Num)
eval_dict (some amount) (some currency) = money_pair (encode_money amount currency)
eval_dict _ _ = err not_numeric

-- `eval_value` on what a reference resolves to
unfoldable pub eval_raw : Json → Run (Option Num)
eval_raw null = ok none
eval_raw (bool b) = ok (some (number (if b then pos 1 else pos 0)))
eval_raw (int n) = checked_number n
eval_raw (str s) = eval_text s
eval_raw (dict d) = eval_dict (find_field (codes "amount") d) (find_field (codes "currency") d)
eval_raw _ = err not_numeric

-- `eval_value` of a `Lit` or a `Ref`
unfoldable pub eval_operand : Scope → Operand → Run (Option Num)
eval_operand scope (lit n is_duration) = ok (some (number (pos n)))
eval_operand scope (ref name) = eval_raw (resolve_reference scope name)

-- `result`, before its range is tested
unfoldable pub int_arith : ArithOp → ℤ → ℤ → Run ℤ
int_arith ArithOp.add a b = ok (a +ℤ b)
int_arith ArithOp.sub a b = ok (a -ℤ b)
int_arith ArithOp.mul a b = ok (a *ℤ b)
int_arith ArithOp.div a (pos zero) = err division_by_zero
int_arith ArithOp.div a b = ok (trunc_div a b)

-- The last lines of `_eval_money_arith`
abbrev pub checked_money : Result MoneyError (ℤ × Text) → Run (Option Num)
checked_money (err e) = err (money_fault e)
checked_money (ok (minor, currency)) = do m ← checked minor; ok (some (money m currency))

-- `_eval_money_arith` of two pairs
abbrev pub pair_arith : ArithOp → ℤ × Text → ℤ × Text → Run (Option Num)
pair_arith ArithOp.add a b = checked_money (Pairs.add a b)
pair_arith ArithOp.sub a b = checked_money (Pairs.sub a b)
pair_arith ArithOp.mul a b = err money_by_money
pair_arith ArithOp.div a b = err money_by_money

-- `_eval_money_arith` of a pair and an int
abbrev pub scale_pair : ArithOp → ℤ × Text → ℤ → Run (Option Num)
scale_pair ArithOp.mul a n = checked_money (Pairs.mul_int a n)
scale_pair op a n = err money_with_number

-- `eval_value` behind the two operands
unfoldable pub eval_arith : ArithOp → Option Num → Option Num → Run (Option Num)
eval_arith op none right = ok none
eval_arith op (some left) none = ok none
eval_arith op (some (number a)) (some (number b)) = do n ← int_arith op a b; checked_number n
eval_arith op (some (money a c)) (some (money b d)) = pair_arith op (a, c) (b, d)
eval_arith op (some (money a c)) (some (number n)) = scale_pair op (a, c) n
eval_arith op (some (number n)) (some (money a c)) = scale_pair op (a, c) n

-- `eval_value`
unfoldable pub eval_value : Scope → Value → Run (Option Num)
eval_value scope (operand o) = eval_operand scope o
eval_value scope (arith_of l op r) = do
  left ← eval_operand scope l
  right ← eval_operand scope r
  eval_arith op left right

abbrev pub returns : Parsed ℤ → Bool
returns (ok n) = true
returns (err e) = false

abbrev pub parses : Option ℤ → Bool
parses none = false
parses (some n) = true

-- `_is_numeric_shaped`
unfoldable pub is_numeric_shaped : Json → Bool
is_numeric_shaped (bool b) = true
is_numeric_shaped (int n) = true
is_numeric_shaped (str raw) =
    if is_instant_text raw || looks_like_instant raw
    then returns (encode_instant raw)
    else parses (int_text raw)
is_numeric_shaped _ = false
