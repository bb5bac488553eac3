-- ===== src/Condition/Sound.antt =====
-- impl/lnpl/condition.py: what `parse_condition` returns is a condition that the grammar can spell.
use linkly.Base.{
  suc, ◌≤◌, ◌≡◌, ◌≢◌, refl, ap, Bool, true, false, ◌||◌, List, [], ◌∷◌, ◌++◌, Option, none, some,
  all, All, inl, inr, arith, length, Bool-cases, &&_intro,
}
use linkly.Base.Result.{ok, chain_returns}
use linkly.Base.Text.{Text, codes, same_text}
use linkly.Base.Words.{words}
use linkly.Lexer.Words.{Comparator, PresenceKind, NumericKind, presence_kind?, numeric_kind?}
use linkly.Lexer.Duration.Reads.{duration_ms_or_none-eq-some_iff}
use linkly.Condition.Syntax.{
  Operand, ref, lit, Value, operand, arith_of, Term, presence, numeric, comparison, Condition,
  single, and_of,
}
use linkly.Condition.Parse.{
  parse_operand, parse_value, find_comparator, parse_comparison, parse_pair, parse_term,
  parse_terms, and_groups, check_groups, split_on_and, parse_groups, make_and, is_and_term,
  parse_tokens, parse_words, parse_condition,
}
use linkly.Condition.Print.{condition_to_string}
use linkly.Condition.Tokens.{FitsOperand}
use linkly.Condition.Values.{FitsValue}
use linkly.Condition.Terms.{FitsTerm, FitsCondition}
use linkly.Condition.RoundTrip.{parse_condition-condition_to_string}

pub parse_operand-FitsOperand :
    (token : Text) (o : Operand) → parse_operand token ≡ ok o → FitsOperand o
unfolding parse_operand
parse_operand-FitsOperand token (ref name) e = ground arith
parse_operand-FitsOperand token (lit n true) e =
    ground (arith, (duration_ms_or_none-eq-some_iff token n).0)
parse_operand-FitsOperand token (lit n false) e = ground arith

pub parse_value-FitsValue : (toks : List Text) (v : Value) → parse_value toks ≡ ok v → FitsValue v
unfolding parse_value
parse_value-FitsValue [] v e = cc
parse_value-FitsValue (t ∷ []) (operand o) e = parse_operand-FitsOperand t o (ground arith)
parse_value-FitsValue (t ∷ []) (arith_of a f b) e = ground arith
parse_value-FitsValue (l ∷ op ∷ []) v e = cc
parse_value-FitsValue (l ∷ op ∷ r ∷ []) (operand o) e = ground arith
parse_value-FitsValue (l ∷ op ∷ r ∷ []) (arith_of a f b) e =
    (parse_operand-FitsOperand l a (ground arith), parse_operand-FitsOperand r b (ground arith))
parse_value-FitsValue (l ∷ op ∷ r ∷ x ∷ toks) v e = cc

parse_comparison-FitsTerm :
    (o : Option (List Text × Comparator × List Text)) (t : Term)
    → parse_comparison o ≡ ok t
    → FitsTerm t × (is_and_term t ≡ true)
parse_comparison-FitsTerm none t e = cc
parse_comparison-FitsTerm (some (left, op, right)) (presence field kind) e = ground arith
parse_comparison-FitsTerm (some (left, op, right)) (numeric field kind) e = ground arith
parse_comparison-FitsTerm (some (left, op, right)) (comparison l f r) e = (
  (parse_value-FitsValue left l (ground arith), parse_value-FitsValue right r (ground arith)),
  refl,
)

parse_pair-FitsTerm :
    (allow : Bool) (field word : Text) (p : Option PresenceKind) (n : Option NumericKind) (t : Term)
    → parse_pair allow field word p n ≡ ok t
    → FitsTerm t × ((allow || is_and_term t) ≡ true)
parse_pair-FitsTerm allow field word (some kind) n (presence f k) e = ground arith
parse_pair-FitsTerm allow field word (some kind) n (numeric f k) e = ground arith
parse_pair-FitsTerm allow field word (some kind) n (comparison l f r) e = ground arith
parse_pair-FitsTerm allow field word none (some kind) (presence f k) e = ground arith
parse_pair-FitsTerm allow field word none (some kind) (numeric f k) e = ground arith
parse_pair-FitsTerm allow field word none (some kind) (comparison l f r) e = ground arith
parse_pair-FitsTerm allow field word none none t e =
    let (fits, joins) = parse_comparison-FitsTerm (find_comparator (field ∷ word ∷ [])) t e in
    (fits, ground arith)

-- A parsed term fits, and a presence check stands only where it is allowed.
parse_term-FitsTerm :
    (allow : Bool) (toks : List Text) (t : Term)
    → parse_term allow toks ≡ ok t
    → FitsTerm t × ((allow || is_and_term t) ≡ true)
unfolding parse_term
parse_term-FitsTerm allow [] t e = cc
parse_term-FitsTerm allow (a ∷ []) t e = cc
parse_term-FitsTerm allow (a ∷ b ∷ []) t e =
    parse_pair-FitsTerm allow a b (presence_kind? b) (numeric_kind? b) t e
parse_term-FitsTerm allow (a ∷ b ∷ c ∷ toks) t e =
    let (fits, joins) = parse_comparison-FitsTerm (find_comparator (a ∷ b ∷ c ∷ toks)) t e in
    (fits, ground arith)

parse_terms-FitsTerm :
    (groups : List (List Text)) (ts : List Term)
    → parse_terms groups ≡ ok ts
    → All FitsTerm ts × (all is_and_term ts ≡ true) × (length ts ≡ length groups)
unfolding parse_terms
parse_terms-FitsTerm [] [] e = (tt, refl, refl)
parse_terms-FitsTerm [] (t ∷ ts) e = cc
parse_terms-FitsTerm (g ∷ groups) [] e = ground arith
parse_terms-FitsTerm (g ∷ groups) (t ∷ ts) e =
    let (fits, joins) = parse_term-FitsTerm false g t (ground arith) in
    let (rest, and_terms, counted) = parse_terms-FitsTerm groups ts (ground arith) in
    ((fits, rest), &&_intro (is_and_term t) _ joins and_terms, ap suc counted)

-- `And.__post_init__` is a guard that the parser never meets.
pub make_and-eq :
    (groups : List (List Text)) (ts : List Term)
    → 2 ≤ length groups
    → parse_terms groups ≡ ok ts
    → (make_and ts ≡ ok (and_of ts)) × FitsCondition (and_of ts)
unfolding make_and
make_and-eq groups ts many e =
    let (fits, and_terms, counted) = parse_terms-FitsTerm groups ts e in
    (ground arith, (ground arith, and_terms, fits))

parse_groups-FitsCondition :
    (groups : List (List Text)) (c : Condition)
    → groups ≢ []
    → parse_groups groups ≡ ok c
    → FitsCondition c
unfolding parse_groups
parse_groups-FitsCondition [] c ne e = absurd (ne refl)
parse_groups-FitsCondition (g ∷ []) (single t) ne e =
    (parse_term-FitsTerm true g t (ground arith)).0
parse_groups-FitsCondition (g ∷ []) (and_of ts) ne e = ground arith
parse_groups-FitsCondition (g ∷ h ∷ groups) c ne e =
    let (ts, parsed, made) = chain_returns (parse_terms (g ∷ h ∷ groups)) make_and e in
    let (built, fits) = make_and-eq (g ∷ h ∷ groups) ts (omega arith) parsed in
    let same : c ≡ and_of ts = cc in rw same fits

pub check_groups-eq : (gs hs : List (List Text)) → check_groups gs ≡ ok hs → hs ≡ gs
unfolding check_groups
check_groups-eq [] hs e = ground arith
check_groups-eq ([] ∷ gs) hs e = cc
check_groups-eq ((t ∷ ts) ∷ gs) hs e =
    let (rest, checked, made) = chain_returns (check_groups gs) _ e in
    cc (check_groups-eq gs rest checked)

pub and_groups-ne-nil : (cur toks : List Text) → and_groups cur toks ≢ []
unfolding and_groups
and_groups-ne-nil cur [] = λ e. cc
and_groups-ne-nil cur (t ∷ toks) = elim (Bool-cases (same_text t (codes "and"))) [
  | inl sep ↦ rw (sep, and_groups) (λ e. cc)
  | inr word ↦ rw (word, and_groups) (and_groups-ne-nil (cur ++ t ∷ []) toks)
]

parse_tokens-FitsCondition :
    (toks : List Text) (c : Condition) → parse_tokens toks ≡ ok c → FitsCondition c
unfolding parse_tokens split_on_and
parse_tokens-FitsCondition toks c e =
    let (groups, split, parsed) =
      chain_returns (check_groups (and_groups [] toks)) parse_groups e in
    parse_groups-FitsCondition groups c
      (rw (check_groups-eq _ groups split) (and_groups-ne-nil [] toks)) parsed

parse_words-FitsCondition :
    (toks : List Text) (c : Condition) → parse_words toks ≡ ok (some c) → FitsCondition c
parse_words-FitsCondition [] c e = ground arith
parse_words-FitsCondition (t ∷ toks) c e = parse_tokens-FitsCondition (t ∷ toks) c (ground arith)

-- Every condition that `parse_condition` returns can be spelled by the grammar: its references are
-- reference names, its literals lie in the 64-bit domain, and an `and` joins at least two terms none of which is a presence check.
-- A parsed condition is one that the grammar can spell: its fields are reference names, its
-- literals are in range, and an `and` joins at least two terms, none of them a presence test.
pub parse_condition-FitsCondition :
    (text : Text) (c : Condition) → parse_condition text ≡ ok (some c) → FitsCondition c
unfolding parse_condition
parse_condition-FitsCondition text c e = parse_words-FitsCondition (words text) c e

-- The normalized text of a parsed condition parses to the same condition.
pub parse_condition_normal :
    (text : Text) (c : Condition)
    → parse_condition text ≡ ok (some c)
    → parse_condition (condition_to_string c) ≡ ok (some c)
parse_condition_normal text c e =
    parse_condition-condition_to_string c (parse_condition-FitsCondition text c e)

-- Two texts whose conditions print alike have the same condition.
pub condition_to_string-injective :
    (s t : Text) (c d : Condition)
    → parse_condition s ≡ ok (some c)
    → parse_condition t ≡ ok (some d)
    → condition_to_string c ≡ condition_to_string d
    → c ≡ d
condition_to_string-injective s t c d p q same =
    cc (parse_condition_normal s c p, parse_condition_normal t d q, ap parse_condition same)
