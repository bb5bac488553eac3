-- ===== src/Condition/Parse.antt =====
-- impl/lnpl/condition.py: `parse_condition` and the parsing internals.
use linkly.Base.{
  ℕ, Bool, true, false, not, List, [], ◌∷◌, ◌++◌, ltb, if◌then◌else◌, all, length, Option, none,
  some,
}
use linkly.Base.Result.{Result, ok, err, ◌>>=◌}
use linkly.Base.Text.{Text, codes, same_text, all_digits, int_of}
use linkly.Base.Words.{words}
use linkly.Lexer.Words.{
  Comparator, ArithOp, PresenceKind, NumericKind, comparator?, arith_op?, presence_kind?,
  numeric_kind?, int64_max,
}
use linkly.Lexer.Duration.{DurationError, duration_ms_or_none}
use linkly.Condition.Names.{is_reference_name}
use linkly.Condition.Syntax.{
  Operand, ref, lit, Value, operand, arith_of, Term, presence, numeric, comparison, Condition,
  single, and_of, ConditionError, empty_and_side, too_short, presence_in_and, bad_field,
  no_comparator, many_comparators, missing_operand, bad_arith_op, nested_arith, literal_range,
  duration_range, bad_operand, and_value_error,
}

-- A result of the parser.
abbrev pub Parsed : Type 0 → Type 0
Parsed A = Result ConditionError A

-- What `_parse_operand` does with the outcome of `duration_ms_or_none`.
abbrev pub duration_or_ref : Text → Result DurationError (Option ℕ) → Parsed Operand
duration_or_ref token (err e) = err duration_range
duration_or_ref token (ok (some ms)) = ok (lit ms true)
duration_or_ref token (ok none) =
    if is_reference_name token then ok (ref token) else err bad_operand

-- `_parse_operand`
unfoldable pub parse_operand : Text → Parsed Operand
parse_operand token =
    if all_digits token
    then if ltb int64_max (int_of token) then err literal_range else ok (lit (int_of token) false)
    else duration_or_ref token (duration_ms_or_none token)

-- `_parse_value` of three tokens, the operator in the middle.
abbrev pub parse_arith : Text → Option ArithOp → Text → Parsed Value
parse_arith left none right = err bad_arith_op
parse_arith left (some op) right = do
  l ← parse_operand left
  r ← parse_operand right
  ok (arith_of l op r)

-- `_parse_value`
unfoldable pub parse_value : List Text → Parsed Value
parse_value [] = err missing_operand
parse_value (token ∷ []) = do o ← parse_operand token; ok (operand o)
parse_value (left ∷ op ∷ right ∷ []) = parse_arith left (arith_op? op) right
parse_value _ = err nested_arith

-- `op_positions`: the tokens before the first comparator, the comparator, and those behind it.
unfoldable pub find_comparator : List Text → Option (List Text × Comparator × List Text)
find_comparator [] = none
find_comparator (tok ∷ toks) =
    let rest = find_comparator toks in
    elim (comparator? tok) [
      | some op ↦ some ([], op, toks)
      | none ↦ elim rest [ none ↦ none | some (left, op, right) ↦ some (tok ∷ left, op, right) ]
    ]

-- `_parse_term` from `op_positions` on.
abbrev pub parse_comparison : Option (List Text × Comparator × List Text) → Parsed Term
parse_comparison none = err no_comparator
parse_comparison (some (left, op, right)) = elim (find_comparator right) [
  | some more ↦ err many_comparators
  | none ↦ do l ← parse_value left; r ← parse_value right; ok (comparison l op r)
]

-- `_parse_term` of two tokens, by what the second one is.
abbrev pub parse_pair : Bool → Text → Text → Option PresenceKind → Option NumericKind → Parsed Term
parse_pair allow_presence field word (some kind) numeric_kind =
    if not allow_presence
    then err presence_in_and
    else if is_reference_name field
    then ok (presence field kind)
    else err bad_field
parse_pair allow_presence field word none (some kind) =
    if is_reference_name field then ok (numeric field kind) else err bad_field
parse_pair allow_presence field word none none =
    parse_comparison (find_comparator (field ∷ word ∷ []))

-- `_parse_term`
unfoldable pub parse_term : Bool → List Text → Parsed Term
parse_term allow_presence [] = err too_short
parse_term allow_presence (token ∷ []) = err too_short
parse_term allow_presence (field ∷ word ∷ []) =
    parse_pair allow_presence field word (presence_kind? word) (numeric_kind? word)
parse_term allow_presence toks = parse_comparison (find_comparator toks)

-- `_split_on_and`: the loop, with the group that is being filled.
unfoldable pub and_groups : List Text → List Text → List (List Text)
and_groups cur [] = cur ∷ []
and_groups cur (tok ∷ toks) = elim (same_text tok (codes "and")) [
  | true ↦ cur ∷ and_groups [] toks
  | false ↦ and_groups (cur ++ tok ∷ []) toks
]

-- Its check that no group is empty.
unfoldable pub check_groups : List (List Text) → Parsed (List (List Text))
check_groups [] = ok []
check_groups ([] ∷ groups) = err empty_and_side
check_groups ((tok ∷ toks) ∷ groups) = do rest ← check_groups groups; ok ((tok ∷ toks) ∷ rest)

unfoldable pub split_on_and : List Text → Parsed (List (List Text))
split_on_and tokens = check_groups (and_groups [] tokens)

-- The groups of an `and`, each parsed as a term.
unfoldable pub parse_terms : List (List Text) → Parsed (List Term)
parse_terms [] = ok []
parse_terms (group ∷ groups) = do
  term ← parse_term false group
  terms ← parse_terms groups
  ok (term ∷ terms)

-- The test of `And.__post_init__` on one term.
abbrev pub is_and_term : Term → Bool
is_and_term (presence field kind) = false
is_and_term (numeric field kind) = true
is_and_term (comparison left op right) = true

-- `And(terms)`
unfoldable pub make_and : List Term → Parsed Condition
make_and terms =
    if ltb (length terms) 2
    then err and_value_error
    else if all is_and_term terms
    then ok (and_of terms)
    else err and_value_error

-- `parse_condition` from `len(groups) == 1` on.
unfoldable pub parse_groups : List (List Text) → Parsed Condition
parse_groups (group ∷ []) = do term ← parse_term true group; ok (single term)
parse_groups groups = do terms ← parse_terms groups; make_and terms

-- `parse_condition` from `tokens = text.split()` on.
unfoldable pub parse_tokens : List Text → Parsed Condition
parse_tokens tokens = do groups ← split_on_and tokens; parse_groups groups

-- `parse_condition` on the words of the text; without any the text is no guard (`None`).
abbrev pub parse_words : List Text → Parsed (Option Condition)
parse_words [] = ok none
parse_words (tok ∷ toks) = do c ← parse_tokens (tok ∷ toks); ok (some c)

-- `parse_condition`; the tests `not text or not text.strip()` hold where `split` gives no word.
unfoldable pub parse_condition : Text → Parsed (Option Condition)
parse_condition text = parse_words (words text)
