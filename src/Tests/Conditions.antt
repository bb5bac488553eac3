-- ===== src/Tests/Conditions.antt =====
-- impl/lnpl/condition.py at concrete guards.
use linkly.Base.{◌≡◌, refl, some, false, arith}
use linkly.Base.Result.{ok}
use linkly.Base.Text.{codes}
use linkly.Lexer.Words.{Comparator}
use linkly.Condition.Syntax.{Condition, single, comparison, operand, ref, lit}
use linkly.Base.Text.{cut_suffix, same_text, all_digits, int_from}
use linkly.Base.Words.{words}
use linkly.Lexer.Words.{comparator?, presence_kind?, numeric_kind?}
use linkly.Lexer.Duration.{duration_ms_or_none, duration_in, unit_head}
use linkly.Condition.Names.{is_reference_name}
use linkly.Condition.Parse.{
  parse_condition, parse_tokens, split_on_and, and_groups, check_groups, parse_groups, parse_term,
  find_comparator, parse_value, parse_operand,
}
use linkly.Condition.Print.{condition_to_string}
use linkly.Condition.Terms.{FitsCondition}
use linkly.Condition.RoundTrip.{parse_condition-condition_to_string}
use linkly.Condition.Sound.{parse_condition_normal, parse_condition-FitsCondition}

-- stock < 5
abbrev stock_guard : Condition
stock_guard =
    single (comparison (operand (ref (codes "stock"))) Comparator.lt (operand (lit 5 false)))

stock_guard_text : parse_condition (codes "  stock <  5") ≡ ok (some stock_guard)
unfolding words parse_condition parse_tokens split_on_and and_groups check_groups parse_groups
    parse_term find_comparator parse_value parse_operand duration_ms_or_none duration_in unit_head
    cut_suffix same_text comparator? presence_kind? numeric_kind? is_reference_name all_digits
    int_from
stock_guard_text = refl

parse_condition_normal_example :
    parse_condition (condition_to_string stock_guard) ≡ ok (some stock_guard)
parse_condition_normal_example =
    parse_condition_normal (codes "  stock <  5") stock_guard stock_guard_text

parse_condition-FitsCondition_example : FitsCondition stock_guard
parse_condition-FitsCondition_example =
    parse_condition-FitsCondition (codes "  stock <  5") stock_guard stock_guard_text

-- The same, with another spacing.
stock_guard_words : parse_condition (codes "stock < 5") ≡ ok (some stock_guard)
unfolding words parse_condition parse_tokens split_on_and and_groups check_groups parse_groups
    parse_term find_comparator parse_value parse_operand duration_ms_or_none duration_in unit_head
    cut_suffix same_text comparator? presence_kind? numeric_kind? is_reference_name all_digits
    int_from
stock_guard_words = refl

parse_condition-condition_to_string_example :
    parse_condition (condition_to_string stock_guard) ≡ ok (some stock_guard)
parse_condition-condition_to_string_example =
    parse_condition-condition_to_string stock_guard
      (unfold is_reference_name in (refl, omega arith))
