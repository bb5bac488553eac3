-- ===== src/Eval/Guard.antt =====
-- impl/lnpl/interp.py: `_condition_holds`, `_comparison_holds`, `_is_text_term`,
-- `_text_comparison_holds` and `_numeric_predicate_holds`, with no collector and no `money_fields`, as
-- the guards call them.
use linkly.Base.{
  Bool, true, false, ◌&&◌, ◌||◌, not, Option, none, some, List, [], ◌∷◌, if◌then◌else◌,
}
use linkly.Base.Result.{Result, ok, err, ◌>>=◌}
use linkly.Base.Text.{Text, same_text, is_in}
use linkly.Base.Int.{ℤ, ltb_ℤ, leb_ℤ, eqb_ℤ}
use linkly.Base.Json.{Json, str, is_null, same_json}
use linkly.Lexer.Words.{Comparator, PresenceKind, NumericKind}
use linkly.Condition.Syntax.{
  ref, Value, operand, Term, presence, numeric, comparison, Condition, single, and_of,
}
use linkly.Condition.Parse.{Parsed, parse_condition}
use linkly.Money.{MoneyError}
use linkly.Money.Pairs as Pairs
use linkly.Money.Pairs.{Order, less, same, more}
use linkly.Eval.Scope.{
  invalid_condition, money_fault, money_with_number, not_a_text, no_operator, Run, Scope, has_dot,
  resolve_reference, no_response,
}
use linkly.Eval.Value.{Num, number, money, eval_value, is_numeric_shaped}

-- `text_equality_operands`, empty where it is `None`, and `text_fields`.
pub record TextTerms : Type 0 where
  pub operands : List Text
  pub fields : Option (Text → Bool)

-- The comparison of two ints.
unfoldable pub compare_ints : Comparator → ℤ → ℤ → Bool
compare_ints Comparator.lt a b = ltb_ℤ a b
compare_ints Comparator.le a b = leb_ℤ a b
compare_ints Comparator.gt a b = ltb_ℤ b a
compare_ints Comparator.ge a b = leb_ℤ b a
compare_ints Comparator.eq a b = eqb_ℤ a b
compare_ints Comparator.ne a b = not (eqb_ℤ a b)

-- {'<': c < 0, '<=': c <= 0, '>': c > 0, '>=': c >= 0}[op]
abbrev pub order_holds : Comparator → Order → Bool
order_holds Comparator.lt less = true
order_holds Comparator.le less = true
order_holds Comparator.le same = true
order_holds Comparator.gt more = true
order_holds Comparator.ge more = true
order_holds Comparator.ge same = true
order_holds _ _ = false

abbrev pub ordered : Comparator → Result MoneyError Order → Run Bool
ordered op (err e) = err (money_fault e)
ordered op (ok c) = ok (order_holds op c)

-- `left == right` of two pairs
abbrev pub same_pair : ℤ × Text → ℤ × Text → Bool
same_pair (a, c) (b, d) = eqb_ℤ a b && same_text c d

unfoldable pub compare_pairs : Comparator → ℤ × Text → ℤ × Text → Run Bool
compare_pairs Comparator.eq a b = ok (same_pair a b)
compare_pairs Comparator.ne a b = ok (not (same_pair a b))
compare_pairs op a b = ordered op (Pairs.compare a b)

-- `holds`, from the two values on
unfoldable pub compare_values : Comparator → Option Num → Option Num → Run Bool
compare_values op none right = ok false
compare_values op (some left) none = ok false
compare_values op (some (number a)) (some (number b)) = ok (compare_ints op a b)
compare_values op (some (money a c)) (some (money b d)) = compare_pairs op (a, c) (b, d)
compare_values op (some (number a)) (some (money b d)) = err money_with_number
compare_values op (some (money a c)) (some (number b)) = err money_with_number

-- `cmp_node.op in ("==", "!=")`
abbrev pub is_equality : Comparator → Bool
is_equality Comparator.eq = true
is_equality Comparator.ne = true
is_equality _ = false

abbrev pub names : (Text → Bool) → Value → Bool
names test (operand (ref name)) = test name
names test _ = false

abbrev pub by_fields : Option (Text → Bool) → Value → Value → Bool
by_fields none left right = false
by_fields (some test) left right =
    names (λ name. has_dot name && test name) left
    || names (λ name. has_dot name && test name) right

-- `_is_text_term`
abbrev pub by_operands : List Text → Option (Text → Bool) → Value → Value → Bool
by_operands [] fields left right = by_fields fields left right
by_operands (name ∷ names_of) fields left right =
    names (λ n. is_in n (name ∷ names_of)) left || names (λ n. is_in n (name ∷ names_of)) right

unfoldable pub is_text_term : TextTerms → Value → Value → Bool
is_text_term texts left right = by_operands texts.operands texts.fields left right

-- `text_of`
abbrev pub text_operand : Scope → Value → Run Json
text_operand scope (operand (ref name)) =
    ok (if has_dot name then resolve_reference (no_response scope) name else str name)
text_operand scope _ = err not_a_text

-- `holds` of two texts, for `==` or `!=`
abbrev pub texts_hold : Comparator → Json → Json → Bool
texts_hold op left right =
    if is_null left || is_null right
    then false
    else elim op [ Comparator.eq ↦ same_json left right | _ ↦ not (same_json left right) ]

-- `_text_comparison_holds`
unfoldable pub text_comparison_holds : Scope → Value → Comparator → Value → Run Bool
text_comparison_holds scope l op r = do
  left ← text_operand scope l
  right ← text_operand scope r
  ok (texts_hold op left right)

abbrev pub value_comparison_holds : Scope → Value → Comparator → Value → Run Bool
value_comparison_holds scope l op r = do
  left ← eval_value scope l
  right ← eval_value scope r
  compare_values op left right

-- `_comparison_holds`
unfoldable pub comparison_holds : TextTerms → Scope → Value → Comparator → Value → Run Bool
comparison_holds texts scope l op r =
    if is_equality op && is_text_term texts l r
    then text_comparison_holds scope l op r
    else value_comparison_holds scope l op r

-- `_numeric_predicate_holds`
unfoldable pub numeric_predicate_holds : Scope → Text → NumericKind → Bool
numeric_predicate_holds scope field NumericKind.is_numeric =
    is_numeric_shaped (resolve_reference (no_response scope) field)
numeric_predicate_holds scope field NumericKind.is_not_numeric =
    not (is_numeric_shaped (resolve_reference (no_response scope) field))

abbrev pub presence_holds : PresenceKind → Json → Bool
presence_holds PresenceKind.exists raw = not (is_null raw)
presence_holds PresenceKind.missing raw = is_null raw

-- A condition that is one term.
unfoldable pub term_holds : TextTerms → Scope → Term → Run Bool
term_holds texts scope (presence field kind) =
    ok (presence_holds kind (resolve_reference scope field))
term_holds texts scope (numeric field kind) = ok (numeric_predicate_holds scope field kind)
term_holds texts scope (comparison l op r) = comparison_holds texts scope l op r

-- A term of an `And`, where a presence test has no operator
abbrev pub and_term_holds : TextTerms → Scope → Term → Run Bool
and_term_holds texts scope (presence field kind) = err no_operator
and_term_holds texts scope term = term_holds texts scope term

-- The loop of the `And`, and `all(results)`
unfoldable pub terms_hold : TextTerms → Scope → List Term → Run Bool
terms_hold texts scope [] = ok true
terms_hold texts scope (t ∷ ts) = do
  holds ← and_term_holds texts scope t
  rest ← terms_hold texts scope ts
  ok (holds && rest)

abbrev pub parsed_holds : TextTerms → Scope → Parsed (Option Condition) → Run Bool
parsed_holds texts scope (err e) = err (invalid_condition e)
parsed_holds texts scope (ok none) = ok true
parsed_holds texts scope (ok (some (single t))) = term_holds texts scope t
parsed_holds texts scope (ok (some (and_of ts))) = terms_hold texts scope ts

-- `_condition_holds`
unfoldable pub condition_holds : TextTerms → Scope → Option Text → Run Bool
condition_holds texts scope none = ok true
condition_holds texts scope (some text) = parsed_holds texts scope (parse_condition text)
