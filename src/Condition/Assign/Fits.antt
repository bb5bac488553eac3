-- ===== src/Condition/Assign/Fits.antt =====
-- impl/lnpl/condition.py: what the reader of a right-hand side returns can be spelled by the grammar.
use linkly.Base.{
  ℕ, ◌≡◌, refl, sym, ◌∙◌, Bool, true, false, List, [], ◌∷◌, ◌++◌, all, All, all-append, arith,
  Option, none, some, append-nil, &&_left, &&_right,
}
use linkly.Base.Result.{ok}
use linkly.Base.Text.{Text, codes, same_text, all_digits, is_digit}
use linkly.Base.Decimal.{decimal, all_digits-decimal}
use linkly.Base.Words.{is_word}
use linkly.Lexer.Words.{AggFunc, agg_func?}
use linkly.Lexer.Duration.{unit_text}
use linkly.Lexer.Duration.Reads.{cut_suffix→eq}
use linkly.Condition.Names.{is_reference_name}
use linkly.Condition.Names.Shape.{no_space}
use linkly.Condition.Syntax.{
  Operand, ref, lit, Value, operand, arith_of, AssignRhs, value, aggregate, format_call,
}
use linkly.Condition.Parse.{parse_value, parse_operand}
use linkly.Condition.Print.{operand_text, duration_text}
use linkly.Condition.Sound.{parse_value-FitsValue}
use linkly.Condition.Assign.{
  parse_aggregate, has_quote, unquote, check_template, parse_template_token, parse_arguments,
  parse_with_clause, parse_format_rhs, parse_rhs, parse_rhs_by,
}
use linkly.Condition.Assign.Reads.{IsFree, value_head, FitsRhs}

-- Digits select no aggregate and no format.
digits-IsFree : (head t : Text) → all_digits head ≡ true → IsFree (head ++ t)
unfolding all_digits is_digit agg_func? same_text
digits-IsFree [] t h = cc
digits-IsFree (c ∷ head) t h = record { no_aggregate = ground arith; no_format = ground arith }

lit-IsFree : (n : ℕ) (is_duration : Bool) → IsFree (operand_text (lit n is_duration))
unfolding operand_text duration_text
lit-IsFree n true = digits-IsFree (decimal _) (unit_text _) (all_digits-decimal _)
lit-IsFree n false = rw append-nil at (digits-IsFree (decimal n) [] (all_digits-decimal n))

parse_operand-IsFree :
    (token : Text) (o : Operand)
    → parse_operand token ≡ ok o
    → IsFree token
    → IsFree (operand_text o)
unfolding parse_operand operand_text
parse_operand-IsFree token (ref name) e h = let same : name ≡ token = ground arith in rw same h
parse_operand-IsFree token (lit n d) e h = unfold operand_text in lit-IsFree n d

parse_value-IsFree :
    (tok : Text) (toks : List Text) (v : Value)
    → parse_value (tok ∷ toks) ≡ ok v
    → IsFree tok
    → IsFree (value_head v)
unfolding parse_value
parse_value-IsFree t [] (operand o) e h = parse_operand-IsFree t o (ground arith) h
parse_value-IsFree t [] (arith_of a f b) e h = ground arith
parse_value-IsFree t (op ∷ []) v e h = cc
parse_value-IsFree t (op ∷ r ∷ []) (operand o) e h = ground arith
parse_value-IsFree t (op ∷ r ∷ []) (arith_of a f b) e h = parse_operand-IsFree t a (ground arith) h
parse_value-IsFree t (op ∷ r ∷ x ∷ toks) v e h = cc

unquote_inside :
    (token : Text) {template : Text}
    → is_word token ≡ true
    → unquote token ≡ some template
    → all no_space template ≡ true
unquote_inside [] w e = cc
unquote_inside (c ∷ s) {template} w e =
    let whole : s ≡ template ++ codes "\"" = cut_suffix→eq (codes "\"") s (ground arith) in
    let spaceless : all no_space s ≡ true = &&_right (no_space c) _ w in
    &&_left (all no_space template) _
      (sym (all-append no_space template (codes "\"")) ∙ rw whole at spaceless)

check_template-eq :
    (o : Option Text) (template : Text)
    → check_template o ≡ ok template
    → (o ≡ some template) × (has_quote template ≡ false)
check_template-eq none template e = cc
check_template-eq (some inner) template e = ground arith

pub parse_template_token-fits :
    (token template : Text)
    → is_word token ≡ true
    → parse_template_token token ≡ ok template
    → (all no_space template ≡ true) × (has_quote template ≡ false)
unfolding parse_template_token
parse_template_token-fits token template w e =
    let (found, plain) = check_template-eq (unquote token) template e in
    (unquote_inside token w found, plain)

parse_arguments-fits :
    (toks args : List Text)
    → parse_arguments toks ≡ ok args
    → All (λ (a : Text). is_reference_name a ≡ true) args
unfolding parse_arguments
parse_arguments-fits [] [] e = tt
parse_arguments-fits [] (a ∷ args) e = cc
parse_arguments-fits (t ∷ toks) [] e = ground arith
parse_arguments-fits (t ∷ toks) (a ∷ args) e =
    (ground arith, parse_arguments-fits toks args (ground arith))

pub parse_with_clause-fits :
    (toks args : List Text)
    → parse_with_clause toks ≡ ok args
    → All (λ (a : Text). is_reference_name a ≡ true) args
unfolding parse_with_clause
parse_with_clause-fits [] [] e = tt
parse_with_clause-fits [] (a ∷ args) e = cc
parse_with_clause-fits (w ∷ []) args e = ground arith
parse_with_clause-fits (w ∷ t ∷ toks) args e = parse_arguments-fits (t ∷ toks) args (ground arith)

parse_format_rhs-FitsRhs :
    (toks : List Text) (r : AssignRhs)
    → all is_word toks ≡ true
    → parse_format_rhs toks ≡ ok r
    → FitsRhs r
unfolding parse_format_rhs
parse_format_rhs-FitsRhs [] r w e = cc
parse_format_rhs-FitsRhs (t ∷ toks) (format_call template args) w e =
    let (inside, plain) =
      parse_template_token-fits t template (&&_left (is_word t) _ w) (ground arith) in
    (inside, plain, parse_with_clause-fits toks args (ground arith))
parse_format_rhs-FitsRhs (t ∷ toks) (value v) w e = ground arith
parse_format_rhs-FitsRhs (t ∷ toks) (aggregate func name) w e = ground arith

parse_aggregate-FitsRhs :
    (func : AggFunc) (toks : List Text) (r : AssignRhs)
    → parse_aggregate func toks ≡ ok r
    → FitsRhs r
unfolding parse_aggregate
parse_aggregate-FitsRhs func [] r e = cc
parse_aggregate-FitsRhs func (t ∷ []) (aggregate f name) e = ground arith
parse_aggregate-FitsRhs func (t ∷ []) (value v) e = ground arith
parse_aggregate-FitsRhs func (t ∷ []) (format_call template args) e = ground arith
parse_aggregate-FitsRhs func (t ∷ u ∷ toks) r e = cc

parse_rhs_by-FitsRhs :
    (func : Option AggFunc) (is_format : Bool) (tok : Text) (toks : List Text) (r : AssignRhs)
    → agg_func? tok ≡ func
    → same_text tok (codes "format") ≡ is_format
    → all is_word (tok ∷ toks) ≡ true
    → parse_rhs_by func is_format (tok ∷ toks) toks ≡ ok r
    → FitsRhs r
parse_rhs_by-FitsRhs (some func) is_format tok toks r a f w e =
    parse_aggregate-FitsRhs func toks r e
parse_rhs_by-FitsRhs none true tok toks r a f w e =
    parse_format_rhs-FitsRhs toks r (&&_right (is_word tok) _ w) e
parse_rhs_by-FitsRhs none false tok toks (value v) a f w e =
    let parsed : parse_value (tok ∷ toks) ≡ ok v = ground arith in
    (
      parse_value-FitsValue (tok ∷ toks) v parsed,
      parse_value-IsFree tok toks v parsed (record { no_aggregate = a; no_format = f }),
    )
parse_rhs_by-FitsRhs none false tok toks (aggregate func name) a f w e = ground arith
parse_rhs_by-FitsRhs none false tok toks (format_call template args) a f w e = ground arith

pub parse_rhs-FitsRhs :
    (tok : Text) (toks : List Text) (r : AssignRhs)
    → all is_word (tok ∷ toks) ≡ true
    → parse_rhs (tok ∷ toks) ≡ ok r
    → FitsRhs r
unfolding parse_rhs
parse_rhs-FitsRhs tok toks r w e = parse_rhs_by-FitsRhs _ _ tok toks r refl refl w e
