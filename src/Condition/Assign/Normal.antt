-- ===== src/Condition/Assign/Normal.antt =====
-- impl/lnpl/condition.py: what the readers of a right-hand side return can be printed and read back.
use linkly.Base.{
  ◌≡◌, refl, true, List, [], ◌∷◌, all, arith, some, &&_right, inl, inr, Option-cases, Bool-cases,
  length,
}
use linkly.Base.Result.{ok}
use linkly.Base.Text.{Text, codes, same_text}
use linkly.Base.Words.{words, is_word, words-is_word}
use linkly.Condition.Names.{is_reference_name}
use linkly.Condition.Syntax.{AssignRhs, value, aggregate, format_call}
use linkly.Condition.Print.{value_to_string}
use linkly.Condition.Assign.{
  parse_value_or_aggregate, assign_to, assign_parts, split_at_to, assign_tokens, parse_assignment,
  format_parts, format_tokens, parse_format, count_placeholders,
}
use linkly.Condition.Assign.Reads.{FitsRhs, parse_value_or_aggregate-value_to_string}
use linkly.Condition.Assign.Fits.{
  parse_template_token-fits, parse_with_clause-fits, parse_rhs-FitsRhs,
}

-- What stands behind `to` is a part of the words.
split_at_to-words :
    (toks before behind : List Text)
    → all is_word toks ≡ true
    → split_at_to toks ≡ some (before, behind)
    → all is_word behind ≡ true
unfolding split_at_to
split_at_to-words [] before behind w e = cc
split_at_to-words (t ∷ toks) before behind w e = elim (Bool-cases (same_text t (codes "to"))) [
  | inl here ↦ let same : behind ≡ toks = ground arith in rw same (&&_right (is_word t) _ w)
  | inr there ↦ elim (Option-cases (split_at_to toks)) [
    | inl missing ↦ ground arith
    | inr ((first, rest), found) ↦
        let same : behind ≡ rest = ground arith in
        rw same (split_at_to-words toks first rest (&&_right (is_word t) _ w) found)
  ]
]

assign_to-FitsRhs :
    (before behind : List Text) (target : Text) (r : AssignRhs)
    → all is_word behind ≡ true
    → assign_to before behind ≡ ok (target, r)
    → (is_reference_name target ≡ true) × FitsRhs r
unfolding assign_to
assign_to-FitsRhs [] behind target r w e = cc
assign_to-FitsRhs (t ∷ []) [] target r w e = ground arith
assign_to-FitsRhs (t ∷ []) (tok ∷ toks) target r w e =
    (ground arith, parse_rhs-FitsRhs tok toks r w (ground arith))
assign_to-FitsRhs (t ∷ u ∷ before) behind target r w e = cc

assign_parts-FitsRhs :
    (toks : List Text) (target : Text) (r : AssignRhs)
    → all is_word toks ≡ true
    → assign_parts (split_at_to toks) ≡ ok (target, r)
    → (is_reference_name target ≡ true) × FitsRhs r
assign_parts-FitsRhs toks target r w e = elim (Option-cases (split_at_to toks)) [
  | inl missing ↦ ground arith
  | inr ((before, behind), found) ↦
      assign_to-FitsRhs before behind target r (split_at_to-words toks before behind w found)
        (rw found at e)
]

pub assign_tokens-FitsRhs :
    (toks : List Text) (target : Text) (r : AssignRhs)
    → all is_word toks ≡ true
    → assign_tokens toks ≡ ok (target, r)
    → (is_reference_name target ≡ true) × FitsRhs r
unfolding assign_tokens
assign_tokens-FitsRhs [] target r w e = cc
assign_tokens-FitsRhs (t ∷ toks) target r w e =
    assign_parts-FitsRhs toks target r (&&_right (is_word t) _ w) (ground arith)

-- A parsed assignment has a reference as its target, and its right-hand side, printed, is read back
-- as the same right-hand side.
pub parse_assignment_normal :
    (text target : Text) (r : AssignRhs)
    → parse_assignment text ≡ ok (target, r)
    → (is_reference_name target ≡ true) × (parse_value_or_aggregate (value_to_string r) ≡ ok r)
unfolding parse_assignment
parse_assignment_normal text target r e =
    let (named, fits) = assign_tokens-FitsRhs (words text) target r (words-is_word text) e in
    (named, parse_value_or_aggregate-value_to_string r fits)

format_parts-FitsRhs :
    (into token : Text) (rest : List Text) (target : Text) (r : AssignRhs)
    → is_word token ≡ true
    → format_parts into token rest ≡ ok (target, r)
    → FitsRhs r × (into ≡ target)
unfolding format_parts
format_parts-FitsRhs into token rest target (format_call template args) w e =
    let (inside, plain) = parse_template_token-fits token template w (ground arith) in
    ((inside, plain, parse_with_clause-fits rest args (ground arith)), ground arith)
format_parts-FitsRhs into token rest target (value v) w e = ground arith
format_parts-FitsRhs into token rest target (aggregate func name) w e = ground arith

-- A format step as `parse_format` returns it: the template has as many `{}` as there are arguments.
pub record IsFormat (r : AssignRhs) : Type 0 where
  pub template : Text
  pub args : List Text
  pub is_call : r ≡ format_call template args
  pub counted : count_placeholders template ≡ length args

format_parts-IsFormat :
    (into token : Text) (rest : List Text) (target : Text) (r : AssignRhs)
    → format_parts into token rest ≡ ok (target, r)
    → IsFormat r
unfolding format_parts
format_parts-IsFormat into token rest target (format_call template args) e = record {
  template = template;
  args = args;
  is_call = refl;
  counted = ground arith;
}
format_parts-IsFormat into token rest target (value v) e = ground arith
format_parts-IsFormat into token rest target (aggregate func name) e = ground arith

abbrev FitsFormat : Text → AssignRhs → Type 0
FitsFormat target r = FitsRhs r × (is_reference_name target ≡ true) × IsFormat r

format_tokens-FitsFormat :
    (toks : List Text) (target : Text) (r : AssignRhs)
    → all is_word toks ≡ true
    → format_tokens toks ≡ ok (target, r)
    → FitsFormat target r
unfolding format_tokens
format_tokens-FitsFormat [] target r w e = cc
format_tokens-FitsFormat (a ∷ []) target r w e = ground arith
format_tokens-FitsFormat (a ∷ b ∷ []) target r w e = ground arith
format_tokens-FitsFormat (a ∷ b ∷ c ∷ []) target r w e = ground arith
format_tokens-FitsFormat (a ∷ b ∷ c ∷ d ∷ rest) target r w e =
    let made : format_parts b d rest ≡ ok (target, r) = ground arith in
    let named : is_reference_name b ≡ true = ground arith in
    let (fits, same) = format_parts-FitsRhs b d rest target r (ground arith) made in
    (fits, rw (← same) named, format_parts-IsFormat b d rest target r made)

-- A parsed format step has a reference as its target and as many arguments as placeholders, and its
-- right-hand side, printed, is read back as the same right-hand side.
pub parse_format_normal :
    (text target : Text) (r : AssignRhs)
    → parse_format text ≡ ok (target, r)
    → (is_reference_name target ≡ true)
      × IsFormat r
      × (parse_value_or_aggregate (value_to_string r) ≡ ok r)
unfolding parse_format
parse_format_normal text target r e =
    let (fits, named, called) =
      format_tokens-FitsFormat (words text) target r (words-is_word text) e in
    (named, called, parse_value_or_aggregate-value_to_string r fits)
