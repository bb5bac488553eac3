-- ===== src/Condition/Values.antt =====
-- impl/lnpl/condition.py: a printed value is words that `_parse_value` reads back.
use linkly.Base.{◌≡◌, refl, List, [], ◌∷◌, some, All, append_assoc}
use linkly.Base.Result.{ok}
use linkly.Base.Text.{Text}
use linkly.Base.Words.{join_words}
use linkly.Lexer.Words.{ArithOp, arith_text, arith_op?}
use linkly.Condition.Syntax.{Value, operand, arith_of}
use linkly.Condition.Plain.{IsPlain, operand_text-IsPlain, arith_text-IsPlain}
use linkly.Condition.Tokens.{FitsOperand, parse_operand-operand_text}
use linkly.Condition.Parse.{parse_value}
use linkly.Condition.Print.{operand_text, value_text}

abbrev pub FitsValue : Value → Type 0
FitsValue (operand o) = FitsOperand o
FitsValue (arith_of l op r) = FitsOperand l × FitsOperand r

-- The words of a printed value.
unfoldable pub value_tokens : Value → List Text
value_tokens (operand o) = operand_text o ∷ []
value_tokens (arith_of l op r) = operand_text l ∷ arith_text op ∷ operand_text r ∷ []

pub value_tokens-IsPlain : (v : Value) → FitsValue v → All IsPlain (value_tokens v)
unfolding value_tokens
value_tokens-IsPlain (operand o) h = (operand_text-IsPlain o h, tt)
value_tokens-IsPlain (arith_of l op r) h =
    (operand_text-IsPlain l h.0, (arith_text-IsPlain op, (operand_text-IsPlain r h.1, tt)))

pub value_text-eq-join : (v : Value) → value_text v ≡ join_words (value_tokens v)
unfolding value_text value_tokens join_words
value_text-eq-join (operand o) = refl
value_text-eq-join (arith_of l op r) = simp append_assoc

arith_op?-arith_text : (op : ArithOp) → arith_op? (arith_text op) ≡ some op
unfolding arith_op?
arith_op?-arith_text ArithOp.add = refl
arith_op?-arith_text ArithOp.sub = refl
arith_op?-arith_text ArithOp.mul = refl
arith_op?-arith_text ArithOp.div = refl

pub parse_value-value_tokens : (v : Value) → FitsValue v → parse_value (value_tokens v) ≡ ok v
unfolding parse_value value_tokens
parse_value-value_tokens (operand o) h = rw (parse_operand-operand_text o h)
parse_value-value_tokens (arith_of l op r) h =
    rw (arith_op?-arith_text op, parse_operand-operand_text l h.0, parse_operand-operand_text r h.1)
