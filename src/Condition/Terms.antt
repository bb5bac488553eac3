-- ===== src/Condition/Terms.antt =====
-- impl/lnpl/condition.py: a printed term is words that `_parse_term` reads back.
use linkly.Base.{
  ◌≤◌, ◌≡◌, refl, ◌∙◌, Bool, true, false, ◌||◌, List, [], ◌∷◌, ◌++◌, none, some, all, All, length,
}
use linkly.Base.Result.{ok}
use linkly.Base.Text.{Text}
use linkly.Lexer.Words.{
  Comparator, PresenceKind, NumericKind, comparator_text, presence_text, numeric_text, comparator?,
  presence_kind?, numeric_kind?,
}
use linkly.Condition.Names.{is_reference_name}
use linkly.Condition.Syntax.{
  Value, operand, arith_of, Term, presence, numeric, comparison, Condition, single, and_of,
}
use linkly.Condition.Parse.{find_comparator, parse_comparison, parse_term, is_and_term}
use linkly.Condition.Plain.{IsPlain}
use linkly.Condition.Values.{
  FitsValue, value_tokens, value_tokens-IsPlain, parse_value-value_tokens,
}

-- A term and a condition that the grammar can spell.
abbrev pub FitsTerm : Term → Type 0
FitsTerm (presence field kind) = is_reference_name field ≡ true
FitsTerm (numeric field kind) = is_reference_name field ≡ true
FitsTerm (comparison l op r) = FitsValue l × FitsValue r

abbrev pub FitsCondition : Condition → Type 0
FitsCondition (single term) = FitsTerm term
FitsCondition (and_of terms) =
    (2 ≤ length terms) × (all is_and_term terms ≡ true) × All FitsTerm terms

unfoldable pub term_tokens : Term → List Text
term_tokens (presence field kind) = field ∷ presence_text kind ∷ []
term_tokens (numeric field kind) = field ∷ numeric_text kind ∷ []
term_tokens (comparison l op r) = value_tokens l ++ comparator_text op ∷ value_tokens r

comparator?-comparator_text : (op : Comparator) → comparator? (comparator_text op) ≡ some op
unfolding comparator?
comparator?-comparator_text Comparator.le = refl
comparator?-comparator_text Comparator.ge = refl
comparator?-comparator_text Comparator.eq = refl
comparator?-comparator_text Comparator.ne = refl
comparator?-comparator_text Comparator.lt = refl
comparator?-comparator_text Comparator.gt = refl

find_comparator-plain :
    (left : List Text) (op : Comparator) (right : List Text)
    → All IsPlain left
    → find_comparator (left ++ comparator_text op ∷ right) ≡ some (left, op, right)
unfolding find_comparator
find_comparator-plain [] op right h = rw (comparator?-comparator_text op, find_comparator)
find_comparator-plain (tok ∷ left) op right h =
    rw (h.0.no_comparator, find_comparator-plain left op right h.1, find_comparator)

find_comparator-none : (toks : List Text) → All IsPlain toks → find_comparator toks ≡ none
unfolding find_comparator
find_comparator-none [] h = refl
find_comparator-none (tok ∷ toks) h =
    rw (h.0.no_comparator, find_comparator-none toks h.1, find_comparator)

parse_comparison-tokens :
    (l : Value) (op : Comparator) (r : Value)
    → FitsValue l
    → FitsValue r
    → parse_comparison (find_comparator (value_tokens l ++ comparator_text op ∷ value_tokens r))
      ≡ ok (comparison l op r)
parse_comparison-tokens l op r hl hr = rw (
  find_comparator-plain (value_tokens l) op (value_tokens r) (value_tokens-IsPlain l hl),
  find_comparator-none (value_tokens r) (value_tokens-IsPlain r hr),
  parse_comparison,
  parse_value-value_tokens l hl,
  parse_value-value_tokens r hr,
)

parse_term-comparison :
    (allow : Bool) (l : Value) (op : Comparator) (r : Value)
    → parse_term allow (term_tokens (comparison l op r))
      ≡ parse_comparison (find_comparator (term_tokens (comparison l op r)))
unfolding parse_term term_tokens value_tokens
parse_term-comparison allow (operand o) op (operand p) = refl
parse_term-comparison allow (operand o) op (arith_of p f q) = refl
parse_term-comparison allow (arith_of o f p) op r = refl

presence_kind?-presence_text :
    (kind : PresenceKind) → presence_kind? (presence_text kind) ≡ some kind
unfolding presence_kind?
presence_kind?-presence_text PresenceKind.exists = refl
presence_kind?-presence_text PresenceKind.missing = refl

-- A printed term is read back where it may stand.
pub parse_term-term_tokens :
    (allow : Bool) (t : Term)
    → FitsTerm t
    → (allow || is_and_term t) ≡ true
    → parse_term allow (term_tokens t) ≡ ok t
unfolding term_tokens
parse_term-term_tokens true (presence field kind) h a =
    unfold parse_term in rw (presence_kind?-presence_text kind, h)
parse_term-term_tokens false (presence field kind) h a = cc
parse_term-term_tokens allow (numeric field NumericKind.is_numeric) h a =
    unfold parse_term presence_kind? numeric_kind? in rw h
parse_term-term_tokens allow (numeric field NumericKind.is_not_numeric) h a =
    unfold parse_term presence_kind? numeric_kind? in rw h
parse_term-term_tokens allow (comparison l op r) h a =
    parse_term-comparison allow l op r ∙ parse_comparison-tokens l op r h.0 h.1
