-- ===== src/Tests/Assignments.antt =====
-- impl/lnpl/condition.py at concrete assignments.
use linkly.Base.{◌≡◌, refl, true, false, [], ◌∷◌}
use linkly.Base.Result.{ok}
use linkly.Base.Text.{codes, cut_suffix, same_text, all_digits, int_from, is_space}
use linkly.Base.Words.{words}
use linkly.Lexer.Words.{ArithOp, agg_func?, arith_op?}
use linkly.Lexer.Duration.{duration_ms_or_none, duration_in, unit_head}
use linkly.Condition.Syntax.{AssignRhs, value, format_call, arith_of, ref, lit}
use linkly.Condition.Names.{is_reference_name}
use linkly.Condition.Parse.{parse_value, parse_operand}
use linkly.Condition.Print.{value_to_string}
use linkly.Condition.Assign.{
  parse_assignment, assign_tokens, split_at_to, assign_to, parse_rhs, parse_format, format_tokens,
  format_parts, parse_template_token, has_quote, parse_with_clause, parse_arguments,
  count_placeholders, parse_value_or_aggregate,
}
use linkly.Condition.Assign.Reads.{FitsRhs}
use linkly.Condition.Assign.Normal.{parse_assignment_normal}

-- stock - 2
abbrev less_stock : AssignRhs
less_stock = value (arith_of (ref (codes "stock")) ArithOp.sub (lit 2 false))

less_stock_text : parse_assignment (codes "set stock to stock - 2") ≡ ok (codes "stock", less_stock)
unfolding words parse_assignment assign_tokens split_at_to assign_to parse_rhs parse_value
    parse_operand duration_ms_or_none duration_in unit_head cut_suffix same_text agg_func? arith_op?
    is_reference_name all_digits int_from
less_stock_text = refl

parse_assignment_normal_example :
    (is_reference_name (codes "stock") ≡ true)
    × (parse_value_or_aggregate (value_to_string less_stock) ≡ ok less_stock)
parse_assignment_normal_example =
    parse_assignment_normal (codes "set stock to stock - 2") (codes "stock") less_stock
      less_stock_text

-- format "n{}" with id
abbrev label : AssignRhs
label = format_call (codes "n{}") (codes "id" ∷ [])

label_text : parse_format (codes "format name from \"n{}\" with id") ≡ ok (codes "name", label)
unfolding words parse_format format_tokens format_parts parse_template_token has_quote
    parse_with_clause parse_arguments count_placeholders cut_suffix same_text is_reference_name
label_text = refl

label-FitsRhs : FitsRhs label
unfolding has_quote is_reference_name is_space
label-FitsRhs = (refl, refl, (refl, tt))

less_stock_read : parse_value_or_aggregate (codes "stock - 2") ≡ ok less_stock
unfolding words parse_value_or_aggregate parse_rhs parse_value parse_operand duration_ms_or_none
    duration_in unit_head cut_suffix same_text agg_func? arith_op? is_reference_name all_digits
    int_from
less_stock_read = refl
