-- ===== src/Tests/Guards.antt =====
-- Guards over a small scope: an input field, a row, and a field that is not there.
use linkly.Base.{◌≡◌, ◌≢◌, ◌↔◌, refl, true, false, none, some, [], ◌∷◌, ◌++◌, arith}
use linkly.Base.Result.{ok, err}
use linkly.Base.Text.{codes, same_text}
use linkly.Base.Int.{pos, in_int64}
use linkly.Base.Json.{int, str, seq, no_items, dict, no_fields, field, find_field}
use linkly.Lexer.Words.{Comparator}
use linkly.Condition.Syntax.{Value, operand, ref, lit, Term, comparison}
use linkly.Eval.Scope.{Scope, no_operator, not_numeric, has_dot, partition_dot, resolve_reference}
use linkly.Eval.Value.{number, eval_raw, eval_operand, eval_value, checked, is_numeric_shaped}
use linkly.Eval.Guard.{
  TextTerms, is_text_term, compare_values, compare_ints, comparison_holds, term_holds,
  and_term_holds, terms_hold, condition_holds,
}
use linkly.Eval.Kinds.{IsInRange, IsNumber, eval_value-IsInRange, is_numeric_shaped_iff}
use linkly.Eval.Logic.{negated, comparison_holds-negated, terms_hold-raises}
use linkly.Eval.Proper.{condition_holds-no_operator}

-- Input field `stock` is 3, and a row `product` has `tags`.
abbrev shop : Scope
shop = record {
  payload = field (codes "stock") (int (pos 3)) no_fields;
  bindings =
      field (codes "product") (dict (field (codes "tags") (seq no_items) no_fields)) no_fields;
  caller = none;
  response = none;
}

abbrev no_texts : TextTerms
no_texts = record { operands = []; fields = none }

abbrev stock : Value
stock = operand (ref (codes "stock"))

abbrev five : Value
five = operand (lit 5 false)

stock_is_three : eval_value shop stock ≡ ok (some (number (pos 3)))
unfolding eval_value eval_operand resolve_reference has_dot partition_dot find_field eval_raw
    checked in_int64 same_text
stock_is_three = refl

five_is_five : eval_value shop five ≡ ok (some (number (pos 5)))
unfolding eval_value eval_operand
five_is_five = refl

eval_value-IsInRange_example : IsInRange (some (number (pos 5)))
eval_value-IsInRange_example =
    eval_value-IsInRange shop five (some (number (pos 5))) (omega arith) five_is_five

is_numeric_shaped_iff_example :
    (is_numeric_shaped (str (codes "12")) ≡ true) ↔ IsNumber (eval_raw (str (codes "12")))
is_numeric_shaped_iff_example = is_numeric_shaped_iff (str (codes "12"))

condition_holds-no_operator_example :
    condition_holds no_texts shop (some (codes "stock exists and stock < 5")) ≢ err no_operator
condition_holds-no_operator_example =
    condition_holds-no_operator no_texts shop (some (codes "stock exists and stock < 5"))

-- 3 < 5, and so not 3 >= 5.
comparison_holds-negated_example :
    comparison_holds no_texts shop stock Comparator.ge five ≡ ok false
unfolding comparison_holds is_text_term compare_values compare_ints negated
comparison_holds-negated_example =
    comparison_holds-negated no_texts shop stock five Comparator.lt (number (pos 3))
      (number (pos 5)) true refl stock_is_three five_is_five
      (rw (stock_is_three, five_is_five) refl)

abbrev low_stock : Term
low_stock = comparison stock Comparator.lt five

-- A list is no number, also where the term before it fails.
abbrev bad_term : Term
bad_term = comparison (operand (ref (codes "product.tags"))) Comparator.lt five

bad_term-raises : and_term_holds no_texts shop bad_term ≡ err not_numeric
unfolding term_holds comparison_holds is_text_term eval_value eval_operand resolve_reference has_dot
    partition_dot find_field eval_raw same_text
bad_term-raises = refl

high_stock : and_term_holds no_texts shop (comparison stock Comparator.gt five) ≡ ok false
unfolding term_holds comparison_holds is_text_term compare_values compare_ints
high_stock = rw (stock_is_three, five_is_five) refl

terms_hold-raises_example :
    terms_hold no_texts shop
      ((comparison stock Comparator.gt five ∷ []) ++ bad_term ∷ (low_stock ∷ []))
    ≡ err not_numeric
terms_hold-raises_example =
    terms_hold-raises no_texts shop (comparison stock Comparator.gt five ∷ []) (low_stock ∷ [])
      bad_term not_numeric ((false, high_stock), tt) bad_term-raises
