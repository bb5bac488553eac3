-- ===== src/Condition/Assign/Reads.antt =====
-- impl/lnpl/condition.py: a printed right-hand side is read back.
use linkly.Base.{
  ◌≡◌, refl, ap, ◌∙◌, true, false, List, [], ◌∷◌, ◌++◌, all, All, all_of_All, all-append, none,
  append_assoc,
}
use linkly.Base.Result.{ok, ◌>>=◌}
use linkly.Base.Text.{Text, codes, same_text, cut_suffix-last, is_space}
use linkly.Base.Words.{words, is_word, join_words, words-join_words}
use linkly.Lexer.Words.{AggFunc, agg_func?, agg_text}
use linkly.Condition.Names.{is_reference_name}
use linkly.Condition.Names.Shape.{reference-is_word, no_space}
use linkly.Condition.Syntax.{Value, operand, arith_of, AssignRhs, value, aggregate, format_call}
use linkly.Condition.Parse.{parse_value}
use linkly.Condition.Print.{operand_text, value_to_string, join_with}
use linkly.Condition.Values.{
  FitsValue, value_tokens, value_tokens-IsPlain, value_text-eq-join, parse_value-value_tokens,
}
use linkly.Condition.Assign.{
  parse_aggregate, has_quote, parse_template_token, parse_arguments, parse_with_clause,
  parse_format_rhs, parse_rhs, read_rhs, parse_value_or_aggregate,
}

abbrev pub value_head : Value → Text
value_head (operand o) = operand_text o
value_head (arith_of l op r) = operand_text l

-- A word that does not select an aggregate or a format.
pub record IsFree (t : Text) : Type 0 where
  pub no_aggregate : agg_func? t ≡ none
  pub no_format : same_text t (codes "format") ≡ false

-- A right-hand side that the grammar can spell.
abbrev pub FitsRhs : AssignRhs → Type 0
FitsRhs (value v) = FitsValue v × IsFree (value_head v)
FitsRhs (aggregate func name) = is_reference_name name ≡ true
FitsRhs (format_call template args) =
    (all no_space template ≡ true)
    × (has_quote template ≡ false)
    × All (λ (a : Text). is_reference_name a ≡ true) args

abbrev quoted : Text → Text
quoted template = b'"' ∷ (template ++ codes "\"")

abbrev with_tokens : List Text → List Text
with_tokens [] = []
with_tokens (a ∷ args) = codes "with" ∷ a ∷ args

unfoldable pub rhs_tokens : AssignRhs → List Text
rhs_tokens (value v) = value_tokens v
rhs_tokens (aggregate func name) = agg_text func ∷ name ∷ []
rhs_tokens (format_call template args) = codes "format" ∷ quoted template ∷ with_tokens args

parse_arguments-refs :
    (args : List Text)
    → All (λ (a : Text). is_reference_name a ≡ true) args
    → parse_arguments args ≡ ok args
unfolding parse_arguments
parse_arguments-refs [] h = refl
parse_arguments-refs (a ∷ args) h = rw (h.0, parse_arguments-refs args h.1)

parse_with_clause-with_tokens :
    (args : List Text)
    → All (λ (a : Text). is_reference_name a ≡ true) args
    → parse_with_clause (with_tokens args) ≡ ok args
unfolding parse_with_clause same_text
parse_with_clause-with_tokens [] h = refl
parse_with_clause-with_tokens (a ∷ args) h = parse_arguments-refs (a ∷ args) h

parse_template_token-quoted :
    (template : Text)
    → has_quote template ≡ false
    → parse_template_token (quoted template) ≡ ok template
unfolding parse_template_token
parse_template_token-quoted template h = rw (cut_suffix-last b'"' template) (rw h)

parse_rhs-value :
    (v : Value)
    → IsFree (value_head v)
    → parse_rhs (value_tokens v) ≡ (parse_value (value_tokens v) >>= λ w. ok (value w))
unfolding parse_rhs value_tokens
parse_rhs-value (operand o) h = rw (h.no_aggregate, h.no_format)
parse_rhs-value (arith_of l op r) h = rw (h.no_aggregate, h.no_format)

parse_rhs-aggregate :
    (func : AggFunc) (name : Text)
    → is_reference_name name ≡ true
    → parse_rhs (agg_text func ∷ name ∷ []) ≡ ok (aggregate func name)
unfolding parse_rhs parse_aggregate agg_func?
parse_rhs-aggregate AggFunc.sum name h = rw h
parse_rhs-aggregate AggFunc.count name h = rw h
parse_rhs-aggregate AggFunc.avg name h = rw h
parse_rhs-aggregate AggFunc.min name h = rw h
parse_rhs-aggregate AggFunc.max name h = rw h

parse_rhs-rhs_tokens : (r : AssignRhs) → FitsRhs r → parse_rhs (rhs_tokens r) ≡ ok r
unfolding rhs_tokens
parse_rhs-rhs_tokens (value v) h = parse_rhs-value v h.1 ∙ rw (parse_value-value_tokens v h.0)
parse_rhs-rhs_tokens (aggregate func name) h = parse_rhs-aggregate func name h
parse_rhs-rhs_tokens (format_call template args) h =
    unfold parse_rhs agg_func? same_text parse_format_rhs in
    rw (parse_template_token-quoted template h.1, parse_with_clause-with_tokens args h.2)

read_rhs-rhs_tokens : (r : AssignRhs) → FitsRhs r → read_rhs (rhs_tokens r) ≡ ok r
unfolding rhs_tokens value_tokens
read_rhs-rhs_tokens (value (operand o)) h = parse_rhs-rhs_tokens (value (operand o)) h
read_rhs-rhs_tokens (value (arith_of l op r)) h = parse_rhs-rhs_tokens (value (arith_of l op r)) h
read_rhs-rhs_tokens (aggregate func name) h = parse_rhs-rhs_tokens (aggregate func name) h
read_rhs-rhs_tokens (format_call template args) h =
    parse_rhs-rhs_tokens (format_call template args) h

join_with-eq-join : (ws : List Text) → join_with (codes " ") ws ≡ join_words ws
unfolding join_with join_words
join_with-eq-join [] = refl
join_with-eq-join (w ∷ []) = refl
join_with-eq-join (w ∷ v ∷ ws) = rw (join_with-eq-join (v ∷ ws)) (append_assoc w (codes " ") _)

rhs_text-eq-join : (r : AssignRhs) → value_to_string r ≡ join_words (rhs_tokens r)
unfolding value_to_string rhs_tokens join_words
rhs_text-eq-join (value v) = value_text-eq-join v
rhs_text-eq-join (aggregate func name) = append_assoc (agg_text func) (codes " ") name
rhs_text-eq-join (format_call template []) = refl
rhs_text-eq-join (format_call template (a ∷ args)) = rw (join_with-eq-join (a ∷ args))

agg_text_word : (func : AggFunc) → is_word (agg_text func) ≡ true
unfolding is_space
agg_text_word AggFunc.sum = refl
agg_text_word AggFunc.count = refl
agg_text_word AggFunc.avg = refl
agg_text_word AggFunc.min = refl
agg_text_word AggFunc.max = refl

quoted_word : (template : Text) → all no_space template ≡ true → is_word (quoted template) ≡ true
unfolding is_space
quoted_word template h = all-append no_space template (codes "\"") ∙ rw h

with_tokens-words :
    (args : List Text)
    → All (λ (a : Text). is_reference_name a ≡ true) args
    → all is_word (with_tokens args) ≡ true
unfolding is_space
with_tokens-words [] h = refl
with_tokens-words (a ∷ args) h = all_of_All is_word (a ∷ args) (λ w p. reference-is_word w p) h

rhs_tokens-words : (r : AssignRhs) → FitsRhs r → all is_word (rhs_tokens r) ≡ true
unfolding rhs_tokens is_space
rhs_tokens-words (value v) h = all_of_All is_word _ (λ w p. p.word) (value_tokens-IsPlain v h.0)
rhs_tokens-words (aggregate func name) h = rw (agg_text_word func, reference-is_word name h)
rhs_tokens-words (format_call template args) h =
    rw (quoted_word template h.0) (with_tokens-words args h.2)

-- A right-hand side that the grammar can spell is what its normalized text is read as.
pub parse_value_or_aggregate-value_to_string :
    (r : AssignRhs) → FitsRhs r → parse_value_or_aggregate (value_to_string r) ≡ ok r
unfolding parse_value_or_aggregate
parse_value_or_aggregate-value_to_string r h =
    ap read_rhs
      (ap words (rhs_text-eq-join r) ∙ words-join_words (rhs_tokens r) (rhs_tokens-words r h))
    ∙ read_rhs-rhs_tokens r h
