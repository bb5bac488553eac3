-- ===== src/Condition/Print.antt =====
-- impl/lnpl/condition.py: `value_to_string` and `condition_to_string`.
use linkly.Base.{ℕ, ◌/◌, ◌%◌, true, false, ◌&&◌, not, List, [], ◌∷◌, ◌++◌, ◌==◌, if◌then◌else◌, map}
use linkly.Base.Text.{Text, codes}
use linkly.Base.Decimal.{decimal}
use linkly.Lexer.Words.{comparator_text, arith_text, presence_text, numeric_text, agg_text}
use linkly.Lexer.Duration.{DurationUnit, millis, secs, mins, hours, days, unit_text, unit_ms}
use linkly.Condition.Syntax.{
  Operand, ref, lit, Value, operand, arith_of, Term, presence, numeric, comparison, Condition,
  single, and_of, AssignRhs, value, aggregate, format_call,
}

-- _DURATION_RENDER: the largest unit first.
abbrev pub duration_render : List DurationUnit
duration_render = days ∷ hours ∷ mins ∷ secs ∷ millis ∷ []

-- The unit of the loop in `value_to_string`: the first one that divides the value, or `ms`.
unfoldable pub render_unit : List DurationUnit → ℕ → DurationUnit
render_unit [] n = millis
render_unit (u ∷ us) n =
    let rest = render_unit us n in if not (n == 0) && n % unit_ms u == 0 then u else rest

unfoldable pub duration_text : ℕ → Text
duration_text n = let u = render_unit duration_render n in decimal (n / unit_ms u) ++ unit_text u

-- `value_to_string` of a `Ref` or a `Lit`
unfoldable pub operand_text : Operand → Text
operand_text (ref name) = name
operand_text (lit n false) = decimal n
operand_text (lit n true) = duration_text n

-- `value_to_string` of a `Value`
unfoldable pub value_text : Value → Text
value_text (operand o) = operand_text o
value_text (arith_of l op r) =
    operand_text l ++ codes " " ++ (arith_text op ++ codes " " ++ operand_text r)

-- `" ".join(a.name for a in value.args)`
unfoldable pub join_with : Text → List Text → Text
join_with sep [] = []
join_with sep (w ∷ []) = w
join_with sep (w ∷ v ∷ ws) = w ++ sep ++ join_with sep (v ∷ ws)

-- `value_to_string`
unfoldable pub value_to_string : AssignRhs → Text
value_to_string (value v) = value_text v
value_to_string (aggregate func name) = agg_text func ++ codes " " ++ name
value_to_string (format_call template []) = codes "format \"" ++ template ++ codes "\""
value_to_string (format_call template (a ∷ args)) =
    codes "format \""
    ++ template
    ++ codes "\""
    ++ (codes " with " ++ join_with (codes " ") (a ∷ args))

-- `condition_to_string` of one term
unfoldable pub term_text : Term → Text
term_text (presence field kind) = field ++ codes " " ++ presence_text kind
term_text (numeric field kind) = field ++ codes " " ++ numeric_text kind
term_text (comparison l op r) =
    value_text l ++ codes " " ++ (comparator_text op ++ codes " " ++ value_text r)

-- `condition_to_string`
unfoldable pub condition_to_string : Condition → Text
condition_to_string (single term) = term_text term
condition_to_string (and_of terms) = join_with (codes " and ") (map term_text terms)
