-- ===== src/Condition/Assign/Strict.antt =====
-- impl/lnpl/condition.py: `parse_value` and `parse_value_or_aggregate` agree on values.
use linkly.Base.{arith, ◌≡◌, Bool, true, false, Option, none, some, List, [], ◌∷◌}
use linkly.Base.Result.{ok}
use linkly.Base.Text.{Text}
use linkly.Base.Words.{words}
use linkly.Lexer.Words.{AggFunc}
use linkly.Condition.Syntax.{Value, value}
use linkly.Condition.Parse.{parse_value}
use linkly.Condition.Assign.{
  parse_aggregate, parse_format_rhs, parse_rhs, parse_rhs_by, read_rhs, parse_value_or_aggregate,
  read_value, parse_value_text,
}

parse_rhs_by-value :
    (func : Option AggFunc) (is_format : Bool) (toks rest : List Text) (v : Value)
    → parse_rhs_by func is_format toks rest ≡ ok (value v)
    → parse_value toks ≡ ok v
unfolding parse_aggregate parse_format_rhs
parse_rhs_by-value (some func) is_format toks [] v e = cc
parse_rhs_by-value (some func) is_format toks (t ∷ []) v e = ground arith
parse_rhs_by-value (some func) is_format toks (t ∷ u ∷ rest) v e = cc
parse_rhs_by-value none true toks [] v e = cc
parse_rhs_by-value none true toks (t ∷ rest) v e = ground arith
parse_rhs_by-value none false toks rest v e = ground arith

read_rhs-value :
    (toks : List Text) (v : Value) → read_rhs toks ≡ ok (value v) → read_value toks ≡ ok v
unfolding parse_rhs
read_rhs-value [] v e = cc
read_rhs-value (t ∷ toks) v e = parse_rhs_by-value _ _ (t ∷ toks) toks v e

-- A text that the general reader takes for a value is read as the same value by `parse_value`, the
-- reader that refuses aggregates and formats.
pub parse_value_text-value :
    (text : Text) (v : Value)
    → parse_value_or_aggregate text ≡ ok (value v)
    → parse_value_text text ≡ ok v
unfolding parse_value_or_aggregate parse_value_text
parse_value_text-value text v e = read_rhs-value (words text) v e
