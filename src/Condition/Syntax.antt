-- ===== src/Condition/Syntax.antt =====
-- impl/lnpl/condition.py: the parsed forms and the exceptions.
use linkly.Base.{ℕ, Bool, List}
use linkly.Base.Text.{Text}
use linkly.Lexer.Words.{Comparator, ArithOp, PresenceKind, NumericKind, AggFunc}

-- `Ref` and `Lit`, the operands; a `Lit` carries `is_duration`.
pub data Operand : Type 0 where
  ref : Text → Operand
  lit : ℕ → Bool → Operand

-- `Value`: an operand, or `Arith` with exactly one operator.
pub data Value : Type 0 where
  operand : Operand → Value
  arith_of : Operand → ArithOp → Operand → Value

-- `AssignRHS`: a `Value`, an `Aggregate`, or a `FormatCall` with its template and references.
pub data AssignRhs : Type 0 where
  value : Value → AssignRhs
  aggregate : AggFunc → Text → AssignRhs
  format_call : Text → List Text → AssignRhs

-- What `_parse_term` returns: `Presence`, `NumericPredicate` or `Comparison`.
pub data Term : Type 0 where
  presence : Text → PresenceKind → Term
  numeric : Text → NumericKind → Term
  comparison : Value → Comparator → Value → Term

-- `Condition` without `None`: one term, or an `And`.
pub data Condition : Type 0 where
  single : Term → Condition
  and_of : List Term → Condition

-- `ConditionError`, one constructor for each place that raises it, and the `ValueError` of `And`.
pub data ConditionError : Type 0 where
  empty_and_side : ConditionError
  too_short : ConditionError
  presence_in_and : ConditionError
  bad_field : ConditionError
  no_comparator : ConditionError
  many_comparators : ConditionError
  missing_operand : ConditionError
  bad_arith_op : ConditionError
  nested_arith : ConditionError
  literal_range : ConditionError
  duration_range : ConditionError
  bad_operand : ConditionError
  and_value_error : ConditionError
  no_set : ConditionError
  no_to : ConditionError
  bad_target_count : ConditionError
  bad_target : ConditionError
  no_value : ConditionError
  aggregate_shape : ConditionError
  bad_aggregate_ref : ConditionError
  no_format : ConditionError
  format_shape : ConditionError
  no_from : ConditionError
  bad_template : ConditionError
  embedded_quote : ConditionError
  no_with : ConditionError
  empty_with : ConditionError
  bad_argument : ConditionError
  placeholder_count : ConditionError
  missing_template : ConditionError
  missing_value : ConditionError
  not_date_time : ConditionError
  no_zone : ConditionError
  invalid_date : ConditionError
  invalid_date_time : ConditionError
  instant_range : ConditionError
  year_range : ConditionError
