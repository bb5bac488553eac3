-- ===== src/Condition/Assign.antt =====
-- impl/lnpl/condition.py: `parse_assignment`, `parse_format` and the readers of a right-hand side.
pub mod Reads
pub mod Fits
pub mod Normal
pub mod Strict
use linkly.Base.{
  ℕ, ◌≡◌, refl, Bool, true, false, ◌&&◌, ◌||◌, not, List, [], ◌∷◌, ◌++◌, ltb, ◌==◌, ◌+◌,
  if◌then◌else◌, all, length, Option, none, some,
}
use linkly.Base.Result.{Result, ok, err, ◌>>=◌}
use linkly.Base.Text.{Text, codes, same_text, cut_suffix}
use linkly.Base.Words.{words}
use linkly.Lexer.Words.{AggFunc, agg_func?}
use linkly.Condition.Names.{is_reference_name}
use linkly.Condition.Syntax.{
  Value, AssignRhs, value, aggregate, format_call, aggregate_shape, bad_aggregate_ref, bad_template,
  embedded_quote, no_with, empty_with, bad_argument, missing_template, missing_value, no_set, no_to,
  bad_target_count, bad_target, no_value, no_format, format_shape, no_from, placeholder_count,
}
use linkly.Condition.Parse.{Parsed, parse_value}

-- `_parse_aggregate`, the function word already read.
unfoldable pub parse_aggregate : AggFunc → List Text → Parsed AssignRhs
parse_aggregate func (name ∷ []) =
    if is_reference_name name then ok (aggregate func name) else err bad_aggregate_ref
parse_aggregate func _ = err aggregate_shape

-- `'"' in template`
unfoldable pub has_quote : Text → Bool
has_quote [] = false
has_quote (c ∷ s) = c == b'"' || has_quote s

-- The text between the quotes, if the token has one at each end.
abbrev pub unquote : Text → Option Text
unquote [] = none
unquote (c ∷ s) = if c == b'"' then cut_suffix (codes "\"") s else none

-- `_parse_template_token` on what stands between the quotes.
abbrev pub check_template : Option Text → Parsed Text
check_template none = err bad_template
check_template (some template) = if has_quote template then err embedded_quote else ok template

unfoldable pub parse_template_token : Text → Parsed Text
parse_template_token token = check_template (unquote token)

-- The loop of `_parse_with_clause`.
unfoldable pub parse_arguments : List Text → Parsed (List Text)
parse_arguments [] = ok []
parse_arguments (tok ∷ toks) =
    let rest = do args ← parse_arguments toks; ok (tok ∷ args)
    in if is_reference_name tok then rest else err bad_argument

-- `_parse_with_clause`
unfoldable pub parse_with_clause : List Text → Parsed (List Text)
parse_with_clause [] = ok []
parse_with_clause (w ∷ []) = if same_text w (codes "with") then err empty_with else err no_with
parse_with_clause (w ∷ tok ∷ toks) =
    if same_text w (codes "with") then parse_arguments (tok ∷ toks) else err no_with

-- `_parse_format_rhs`, behind the word `format`.
unfoldable pub parse_format_rhs : List Text → Parsed AssignRhs
parse_format_rhs [] = err missing_template
parse_format_rhs (token ∷ rest) = do
  template ← parse_template_token token
  args ← parse_with_clause rest
  ok (format_call template args)

abbrev pub as_value : List Text → Parsed AssignRhs
as_value toks = do v ← parse_value toks; ok (value v)

-- `_parse_value_or_aggregate`, by what the first token is.
abbrev pub parse_rhs_by : Option AggFunc → Bool → List Text → List Text → Parsed AssignRhs
parse_rhs_by (some func) is_format toks rest = parse_aggregate func rest
parse_rhs_by none true toks rest = parse_format_rhs rest
parse_rhs_by none false toks rest = as_value toks

-- `_parse_value_or_aggregate`
unfoldable pub parse_rhs : List Text → Parsed AssignRhs
parse_rhs [] = as_value []
parse_rhs (tok ∷ toks) =
    parse_rhs_by (agg_func? tok) (same_text tok (codes "format")) (tok ∷ toks) toks

-- `parse_value_or_aggregate`, from the words of the text on
abbrev pub read_rhs : List Text → Parsed AssignRhs
read_rhs [] = err missing_value
read_rhs (tok ∷ toks) = parse_rhs (tok ∷ toks)

unfoldable pub parse_value_or_aggregate : Text → Parsed AssignRhs
parse_value_or_aggregate text = read_rhs (words text)

-- `parse_value`, from the words of the text on
abbrev pub read_value : List Text → Parsed Value
read_value [] = err missing_value
read_value (tok ∷ toks) = parse_value (tok ∷ toks)

unfoldable pub parse_value_text : Text → Parsed Value
parse_value_text text = read_value (words text)

-- The tokens before the first `to`, and those behind it.
unfoldable pub split_at_to : List Text → Option (List Text × List Text)
split_at_to [] = none
split_at_to (tok ∷ toks) =
    let rest = split_at_to toks in
    if same_text tok (codes "to")
    then some ([], toks)
    else elim rest [ none ↦ none | some (before, behind) ↦ some (tok ∷ before, behind) ]

-- `parse_assignment` from `target_tokens` on
unfoldable pub assign_to : List Text → List Text → Parsed (Text × AssignRhs)
assign_to (target ∷ []) [] = if is_reference_name target then err no_value else err bad_target
assign_to (target ∷ []) (tok ∷ toks) =
    if is_reference_name target
    then (do rhs ← parse_rhs (tok ∷ toks); ok (target, rhs))
    else err bad_target
assign_to _ behind = err bad_target_count

abbrev pub assign_parts : Option (List Text × List Text) → Parsed (Text × AssignRhs)
assign_parts none = err no_to
assign_parts (some (before, behind)) = assign_to before behind

unfoldable pub assign_tokens : List Text → Parsed (Text × AssignRhs)
assign_tokens [] = err no_set
assign_tokens (tok ∷ toks) =
    if same_text tok (codes "set") then assign_parts (split_at_to toks) else err no_set

-- `parse_assignment`
unfoldable pub parse_assignment : Text → Parsed (Text × AssignRhs)
parse_assignment text = assign_tokens (words text)

-- `template.count("{}")`: the occurrences that do not overlap.
unfoldable pub count_placeholders : Text → ℕ
count_placeholders [] = 0
count_placeholders (c ∷ []) = 0
count_placeholders (c ∷ d ∷ s) =
    let here = 1 + count_placeholders s in
    let there = count_placeholders (d ∷ s) in if c == b'{' && d == b'}' then here else there

-- `_check_placeholder_count`, and then the return of `parse_format`
abbrev pub check_count : Bool → Text × AssignRhs → Parsed (Text × AssignRhs)
check_count true made = ok made
check_count false made = err placeholder_count

-- `parse_format`, from the template on
unfoldable pub format_parts : Text → Text → List Text → Parsed (Text × AssignRhs)
format_parts target token rest = do
  template ← parse_template_token token
  args ← parse_with_clause rest
  check_count (count_placeholders template == length args) (target, format_call template args)

unfoldable pub format_tokens : List Text → Parsed (Text × AssignRhs)
format_tokens [] = err no_format
format_tokens (tok ∷ target ∷ from ∷ template ∷ rest) =
    if not (same_text tok (codes "format"))
    then err no_format
    else if not (is_reference_name target)
    then err bad_target
    else if not (same_text from (codes "from"))
    then err no_from
    else format_parts target template rest
format_tokens (tok ∷ toks) =
    if same_text tok (codes "format") then err format_shape else err no_format

-- `parse_format`
unfoldable pub parse_format : Text → Parsed (Text × AssignRhs)
parse_format text = format_tokens (words text)
