-- ===== src/Condition/Tokens.antt =====
-- impl/lnpl/condition.py: a printed operand is one word that `_parse_operand` reads back.
use linkly.Base.{ℕ, ◌*◌, ◌/◌, ◌%◌, ◌≤◌, ◌≡◌, refl, true, false, List, [], ◌∷◌, ◌++◌, all, arith}
use linkly.Base.Result.{ok}
use linkly.Base.Text.{Text, is_digit, is_lower, all_digits}
use linkly.Base.Decimal.{decimal, all_digits-decimal, int_of-decimal}
use linkly.Lexer.Words.{int64_max}
use linkly.Lexer.Duration.{DurationUnit, millis, secs, mins, hours, days, unit_text, unit_ms}
use linkly.Lexer.Duration.Reads.{duration_ms_or_none-digits, duration-not_digit}
use linkly.Condition.Names.{is_reference_name}
use linkly.Condition.Names.Shape.{not_empty_reference, reference_starts}
use linkly.Condition.Syntax.{Operand, ref, lit}
use linkly.Condition.Parse.{parse_operand}
use linkly.Condition.Print.{duration_render, render_unit, duration_text, operand_text}

-- An operand that the grammar can spell: a reference name, or a number of the 64-bit domain.
abbrev pub FitsOperand : Operand → Type 0
FitsOperand (ref name) = is_reference_name name ≡ true
FitsOperand (lit n is_duration) = n ≤ int64_max

-- The unit that is printed divides the value.
render_unit-divides : (us : List DurationUnit) (n : ℕ) → n % unit_ms (render_unit us n) ≡ 0
unfolding render_unit
render_unit-divides [] n = omega arith
render_unit-divides (u ∷ us) n = ground (arith, render_unit-divides us n)

unit_ms_product : (u : DurationUnit) (n : ℕ) → n % unit_ms u ≡ 0 → n / unit_ms u * unit_ms u ≡ n
unit_ms_product millis n h = omega arith
unit_ms_product secs n h = omega arith
unit_ms_product mins n h = omega arith
unit_ms_product hours n h = omega arith
unit_ms_product days n h = omega arith

all-digits_unit : (head : Text) (u : DurationUnit) → all is_digit (head ++ unit_text u) ≡ false
unfolding is_digit
all-digits_unit [] millis = refl
all-digits_unit [] secs = refl
all-digits_unit [] mins = refl
all-digits_unit [] hours = refl
all-digits_unit [] days = refl
all-digits_unit (c ∷ head) u = ground (arith, all-digits_unit head u)

-- Digits and a unit are not digits alone.
all_digits-unit : (head : Text) (u : DurationUnit) → all_digits (head ++ unit_text u) ≡ false
unfolding all_digits
all_digits-unit [] u = unfold is_digit in ground (arith, all-digits_unit [] u)
all_digits-unit (c ∷ head) u = all-digits_unit (c ∷ head) u

-- A number of milliseconds, spelled in a unit that divides it.
parse_operand-duration :
    (u : DurationUnit) (n : ℕ)
    → n % unit_ms u ≡ 0
    → n ≤ int64_max
    → parse_operand (decimal (n / unit_ms u) ++ unit_text u) ≡ ok (lit n true)
unfolding parse_operand
parse_operand-duration u n e fits =
    let q = n / unit_ms u in
    rw
      (
        all_digits-unit (decimal q) u,
        duration_ms_or_none-digits (decimal q) (all_digits-decimal q) u,
        int_of-decimal q,
        unit_ms_product u n e,
      )
      (ground arith)

parse_operand-ref :
    (name : Text) → is_reference_name name ≡ true → parse_operand name ≡ ok (ref name)
unfolding parse_operand all_digits is_lower
parse_operand-ref [] h = cc not_empty_reference
parse_operand-ref (c ∷ name) h =
    ground (arith, duration-not_digit c name, reference_starts c name h)

-- The parser reads a printed operand back.
pub parse_operand-operand_text :
    (o : Operand) → FitsOperand o → parse_operand (operand_text o) ≡ ok o
unfolding parse_operand operand_text duration_text
parse_operand-operand_text (ref name) h = parse_operand-ref name h
parse_operand-operand_text (lit n false) h = rw (all_digits-decimal, int_of-decimal) (ground arith)
parse_operand-operand_text (lit n true) h =
    parse_operand-duration (render_unit duration_render n) n (render_unit-divides duration_render n)
      h
