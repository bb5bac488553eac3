-- ===== src/Condition/Raises.antt =====
-- impl/lnpl/condition.py: the `ValueError` of `And` is never raised by `parse_condition`.
use linkly.Base.{◌≢◌, refl, Bool, true, false, List, [], ◌∷◌, Option, none, some, arith, inl, inr}
use linkly.Base.Result.{err, Result-cases}
use linkly.Base.Text.{Text}
use linkly.Base.Words.{words}
use linkly.Lexer.Words.{Comparator, PresenceKind, NumericKind, presence_kind?, numeric_kind?}
use linkly.Condition.Syntax.{and_value_error}
use linkly.Condition.Parse.{
  parse_operand, parse_value, find_comparator, parse_comparison, parse_pair, parse_term,
  parse_terms, and_groups, check_groups, split_on_and, parse_groups, parse_tokens, parse_words,
  parse_condition, Parsed,
}
use linkly.Condition.Sound.{make_and-eq, check_groups-eq, and_groups-ne-nil}

abbrev NoValueError : {A : Type 0} → Parsed A → Type 0
NoValueError r = r ≢ err and_value_error

parse_operand-NoValueError : (t : Text) → NoValueError (parse_operand t)
unfolding parse_operand
parse_operand-NoValueError t e = ground arith

parse_value-NoValueError : (toks : List Text) → NoValueError (parse_value toks)
unfolding parse_value
parse_value-NoValueError [] e = cc
parse_value-NoValueError (t ∷ []) e = ground (arith, parse_operand-NoValueError t)
parse_value-NoValueError (t ∷ u ∷ []) e = cc
parse_value-NoValueError (l ∷ op ∷ r ∷ []) e =
    ground (arith, parse_operand-NoValueError l, parse_operand-NoValueError r)
parse_value-NoValueError (l ∷ op ∷ r ∷ x ∷ toks) e = cc

parse_comparison-NoValueError :
    (o : Option (List Text × Comparator × List Text)) → NoValueError (parse_comparison o)
parse_comparison-NoValueError none e = cc
parse_comparison-NoValueError (some (left, op, right)) e =
    ground (arith, parse_value-NoValueError left, parse_value-NoValueError right)

parse_pair-NoValueError :
    (allow : Bool) (f w : Text) (p : Option PresenceKind) (n : Option NumericKind)
    → NoValueError (parse_pair allow f w p n)
parse_pair-NoValueError allow f w (some kind) n e = ground arith
parse_pair-NoValueError allow f w none (some kind) e = ground arith
parse_pair-NoValueError allow f w none none e =
    parse_comparison-NoValueError (find_comparator (f ∷ w ∷ [])) e

parse_term-NoValueError : (allow : Bool) (toks : List Text) → NoValueError (parse_term allow toks)
unfolding parse_term
parse_term-NoValueError allow [] e = cc
parse_term-NoValueError allow (a ∷ []) e = cc
parse_term-NoValueError allow (a ∷ b ∷ []) e =
    parse_pair-NoValueError allow a b (presence_kind? b) (numeric_kind? b) e
parse_term-NoValueError allow (a ∷ b ∷ c ∷ toks) e =
    parse_comparison-NoValueError (find_comparator (a ∷ b ∷ c ∷ toks)) e

parse_terms-NoValueError : (gs : List (List Text)) → NoValueError (parse_terms gs)
unfolding parse_terms
parse_terms-NoValueError [] e = cc
parse_terms-NoValueError (g ∷ gs) e =
    ground (arith, parse_term-NoValueError false g, parse_terms-NoValueError gs)

parse_groups-NoValueError : (gs : List (List Text)) → gs ≢ [] → NoValueError (parse_groups gs)
unfolding parse_groups
parse_groups-NoValueError [] ne e = ne refl
parse_groups-NoValueError (g ∷ []) ne e = ground (arith, parse_term-NoValueError true g)
parse_groups-NoValueError (g ∷ h ∷ gs) ne e = elim (Result-cases (parse_terms (g ∷ h ∷ gs))) [
  | inl (ts, parsed) ↦ ground (arith, (make_and-eq (g ∷ h ∷ gs) ts (omega arith) parsed).0)
  | inr (x, raised) ↦ ground (arith, parse_terms-NoValueError (g ∷ h ∷ gs))
]

check_groups-NoValueError : (gs : List (List Text)) → NoValueError (check_groups gs)
unfolding check_groups
check_groups-NoValueError [] e = cc
check_groups-NoValueError ([] ∷ gs) e = cc
check_groups-NoValueError ((t ∷ ts) ∷ gs) e = ground (arith, check_groups-NoValueError gs)

parse_tokens-NoValueError : (toks : List Text) → NoValueError (parse_tokens toks)
unfolding parse_tokens split_on_and
parse_tokens-NoValueError toks e = elim (Result-cases (check_groups (and_groups [] toks))) [
  | inl (gs, split) ↦
      parse_groups-NoValueError gs (rw (check_groups-eq _ gs split) (and_groups-ne-nil [] toks))
        (rw split at e)
  | inr (x, raised) ↦ ground (arith, check_groups-NoValueError (and_groups [] toks))
]

parse_words-NoValueError : (toks : List Text) → NoValueError (parse_words toks)
parse_words-NoValueError [] e = cc
parse_words-NoValueError (t ∷ toks) e = ground (arith, parse_tokens-NoValueError (t ∷ toks))

-- Whatever the text, `parse_condition` does not raise the `ValueError` of `And.__post_init__`.
pub parse_condition-NoValueError : (text : Text) → parse_condition text ≢ err and_value_error
unfolding parse_condition
parse_condition-NoValueError text e = parse_words-NoValueError (words text) e
