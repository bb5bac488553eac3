-- ===== src/Condition/Plain.antt =====
-- impl/lnpl/condition.py: the words inside a printed value are no words of the grammar.
use linkly.Base.{
  ℕ, ◌≡◌, refl, true, false, not, [], ◌∷◌, ◌++◌, none, all, &&_left, arith, append-nil,
}
use linkly.Base.Text.{Text, codes, same_text, is_digit, is_lower, is_in, is_space, all_digits}
use linkly.Base.Decimal.{decimal, all_digits-decimal}
use linkly.Base.Words.{is_word}
use linkly.Lexer.Words.{ArithOp, arith_text, comparator?}
use linkly.Lexer.Duration.{DurationUnit, millis, secs, mins, hours, days, unit_text}
use linkly.Condition.Names.{is_reference_name}
use linkly.Condition.Names.Shape.{
  not_empty_reference, not_in_no_references, reference_starts, reference-is_word,
}
use linkly.Condition.Syntax.{Operand, ref, lit}
use linkly.Condition.Tokens.{FitsOperand}
use linkly.Condition.Print.{duration_render, render_unit, duration_text, operand_text}

-- What the parser needs to know of a word that stands inside a value.
pub record IsPlain (t : Text) : Type 0 where
  pub word : is_word t ≡ true
  pub no_comparator : comparator? t ≡ none
  pub no_and : same_text t (codes "and") ≡ false

-- A word that begins with a digit.
digits-IsPlain : (c : ℕ) (s : Text) → is_digit c ≡ true → is_word (c ∷ s) ≡ true → IsPlain (c ∷ s)
unfolding is_digit comparator? same_text
digits-IsPlain c s h w = record { word = w; no_comparator = ground arith; no_and = ground arith }

digits_word :
    (head t : Text)
    → all is_digit head ≡ true
    → all (λ (d : ℕ). not (is_space d)) t ≡ true
    → all (λ (d : ℕ). not (is_space d)) (head ++ t) ≡ true
unfolding is_digit is_space
digits_word [] t h k = k
digits_word (c ∷ head) t h k = ground (arith, digits_word head t)

number-IsPlain :
    (head t : Text)
    → all_digits head ≡ true
    → all (λ (d : ℕ). not (is_space d)) t ≡ true
    → IsPlain (head ++ t)
unfolding all_digits
number-IsPlain [] t h k = cc
number-IsPlain (c ∷ head) t h k =
    digits-IsPlain c (head ++ t) (&&_left (is_digit c) _ h) (digits_word (c ∷ head) t h k)

unit_no_space : (u : DurationUnit) → all (λ (d : ℕ). not (is_space d)) (unit_text u) ≡ true
unfolding is_space
unit_no_space millis = refl
unit_no_space secs = refl
unit_no_space mins = refl
unit_no_space hours = refl
unit_no_space days = refl

lower_no_comparator : (c : ℕ) (s : Text) → is_lower c ≡ true → comparator? (c ∷ s) ≡ none
unfolding is_lower comparator? same_text
lower_no_comparator c s h = ground arith

pub reference-IsPlain : (name : Text) → is_reference_name name ≡ true → IsPlain name
unfolding is_in
reference-IsPlain [] h = cc not_empty_reference
reference-IsPlain (c ∷ s) h = record {
  word = reference-is_word (c ∷ s) h;
  no_comparator = lower_no_comparator c s (reference_starts c s h);
  no_and = ground (arith, not_in_no_references (c ∷ s) h);
}

pub operand_text-IsPlain : (o : Operand) → FitsOperand o → IsPlain (operand_text o)
unfolding operand_text duration_text
operand_text-IsPlain (ref name) h = reference-IsPlain name h
operand_text-IsPlain (lit n false) h =
    rw append-nil at (number-IsPlain (decimal n) [] (all_digits-decimal n) refl)
operand_text-IsPlain (lit n true) h =
    number-IsPlain (decimal _) (unit_text _) (all_digits-decimal _)
      (unit_no_space (render_unit duration_render n))

pub arith_text-IsPlain : (op : ArithOp) → IsPlain (arith_text op)
unfolding is_space comparator? same_text
arith_text-IsPlain ArithOp.add = record { word = refl; no_comparator = refl; no_and = refl }
arith_text-IsPlain ArithOp.sub = record { word = refl; no_comparator = refl; no_and = refl }
arith_text-IsPlain ArithOp.mul = record { word = refl; no_comparator = refl; no_and = refl }
arith_text-IsPlain ArithOp.div = record { word = refl; no_comparator = refl; no_and = refl }
