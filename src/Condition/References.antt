-- ===== src/Condition/References.antt =====
-- impl/lnpl/condition.py: `references`.
use linkly.Base.{◌≡◌, Bool, true, Option, none, some, List, [], ◌∷◌, ◌++◌, All, All-append}
use linkly.Base.Result.{ok}
use linkly.Base.Text.{Text}
use linkly.Condition.Names.{is_reference_name}
use linkly.Condition.Syntax.{
  Operand, ref, lit, Value, operand, arith_of, AssignRhs, value, aggregate, format_call, Term,
  presence, numeric, comparison, Condition, single, and_of,
}
use linkly.Condition.Parse.{parse_condition}
use linkly.Condition.Tokens.{FitsOperand}
use linkly.Condition.Values.{FitsValue}
use linkly.Condition.Terms.{FitsTerm, FitsCondition}
use linkly.Condition.Sound.{parse_condition-FitsCondition}
use linkly.Base.Words.{words, words-is_word}
use linkly.Condition.Assign.{parse_assignment}
use linkly.Condition.Assign.Normal.{assign_tokens-FitsRhs}
use linkly.Condition.Assign.Reads.{FitsRhs}

-- `references`, by what it is given.
unfoldable pub operand_references : Operand → List Text
operand_references (ref name) = name ∷ []
operand_references (lit n is_duration) = []

unfoldable pub value_references : Value → List Text
value_references (operand o) = operand_references o
value_references (arith_of l op r) = operand_references l ++ operand_references r

unfoldable pub rhs_references : AssignRhs → List Text
rhs_references (value v) = value_references v
rhs_references (aggregate func name) = name ∷ []
rhs_references (format_call template args) = args

unfoldable pub term_references : Term → List Text
term_references (presence field kind) = field ∷ []
term_references (numeric field kind) = field ∷ []
term_references (comparison l op r) = value_references l ++ value_references r

unfoldable pub terms_references : List Term → List Text
terms_references [] = []
terms_references (t ∷ ts) = term_references t ++ terms_references ts

unfoldable pub references : Option Condition → List Text
references none = []
references (some (single t)) = term_references t
references (some (and_of ts)) = terms_references ts

abbrev pub IsReference : Text → Type 0
IsReference name = is_reference_name name ≡ true

operand_references-All : (o : Operand) → FitsOperand o → All IsReference (operand_references o)
unfolding operand_references
operand_references-All (ref name) h = (h, tt)
operand_references-All (lit n true) h = tt
operand_references-All (lit n Bool.false) h = tt

value_references-All : (v : Value) → FitsValue v → All IsReference (value_references v)
unfolding value_references
value_references-All (operand o) h = operand_references-All o h
value_references-All (arith_of l op r) h =
    All-append IsReference (operand_references l) (operand_references r)
      (operand_references-All l h.0) (operand_references-All r h.1)

term_references-All : (t : Term) → FitsTerm t → All IsReference (term_references t)
unfolding term_references
term_references-All (presence field kind) h = (h, tt)
term_references-All (numeric field kind) h = (h, tt)
term_references-All (comparison l op r) h =
    All-append IsReference (value_references l) (value_references r) (value_references-All l h.0)
      (value_references-All r h.1)

terms_references-All : (ts : List Term) → All FitsTerm ts → All IsReference (terms_references ts)
unfolding terms_references
terms_references-All [] h = tt
terms_references-All (t ∷ ts) h =
    All-append IsReference (term_references t) (terms_references ts) (term_references-All t h.0)
      (terms_references-All ts h.1)

condition_references-All : (c : Condition) → FitsCondition c → All IsReference (references (some c))
unfolding references
condition_references-All (single t) h = term_references-All t h
condition_references-All (and_of ts) h = terms_references-All ts h.2

-- Every name that `references` collects from a parsed condition is a reference name.
pub references-IsReference :
    (text : Text) (c : Condition)
    → parse_condition text ≡ ok (some c)
    → All IsReference (references (some c))
references-IsReference text c e =
    condition_references-All c (parse_condition-FitsCondition text c e)

rhs_references-All : (r : AssignRhs) → FitsRhs r → All IsReference (rhs_references r)
unfolding rhs_references
rhs_references-All (value v) h = value_references-All v h.0
rhs_references-All (aggregate func name) h = (h, tt)
rhs_references-All (format_call template args) h = h.2

-- The target of a parsed assignment and every name that `references` collects from its right-hand
-- side are reference names.
pub parse_assignment-references :
    (text target : Text) (r : AssignRhs)
    → parse_assignment text ≡ ok (target, r)
    → IsReference target × All IsReference (rhs_references r)
unfolding parse_assignment
parse_assignment-references text target r e =
    let (named, fits) = assign_tokens-FitsRhs (words text) target r (words-is_word text) e in
    (named, rhs_references-All r fits)
