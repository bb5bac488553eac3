-- ===== src/Eval/Proper.antt =====
-- impl/lnpl/interp.py: no guard reaches a presence test inside of an `And`, whose operator it would ask for.
use linkly.Base.{
  zero, suc, ◌≡◌, ◌≢◌, refl, true, ◌&&◌, ◌||◌, Option, none, some, List, [], ◌∷◌, Bool-cases,
  &&_left, &&_right, inl, inr, all,
}
use linkly.Base.Result.{Result, ok, err, ◌>>=◌, chain_raises}
use linkly.Base.Text.{Text}
use linkly.Base.Int.{ℤ, pos, negsuc}
use linkly.Base.Json.{Json, null, bool, int, float, str, seq, dict}
use linkly.Lexer.Words.{Comparator, ArithOp}
use linkly.Condition.Syntax.{
  Operand, ref, lit, Value, operand, arith_of, Term, presence, numeric, comparison, Condition,
  single, and_of,
}
use linkly.Condition.Parse.{Parsed, parse_condition, is_and_term}
use linkly.Condition.Sound.{parse_condition-FitsCondition}
use linkly.Condition.Instant.{is_instant_text, looks_like_instant, encode_instant}
use linkly.Money.{MoneyError}
use linkly.Money.Pairs.{Order}
use linkly.Eval.Scope.{no_operator, Run, Scope}
use linkly.Eval.Value.{
  Num, number, money, checked, checked_number, checked_instant, checked_int, int_text, eval_text,
  money_pair, eval_dict, eval_raw, eval_operand, int_arith, checked_money, scale_pair, eval_arith,
  eval_value,
}
use linkly.Eval.Kinds.{checked-cases}
use linkly.Eval.Guard.{
  TextTerms, ordered, compare_pairs, compare_values, is_equality, is_text_term, text_operand,
  text_comparison_holds, comparison_holds, and_term_holds, terms_hold, term_holds, condition_holds,
  parsed_holds,
}

abbrev Proper : {A : Type 0} → Run A → Type 0
Proper r = r ≢ err no_operator

chain-Proper :
    {A B : Type 0} (first : Run A) (next : A → Run B)
    → Proper first
    → ((x : A) → Proper (next x))
    → Proper (first >>= next)
chain-Proper first next h k e = elim (chain_raises first next e) [
  | inl raised ↦ h raised
  | inr (x, returned, raised) ↦ k x raised
]

checked-Proper : (n : ℤ) → Proper (checked n)
checked-Proper n = elim (checked-cases n) [
  | inl (returned, inside) ↦ rw returned (λ e. cc e)
  | inr raised ↦ rw raised (λ e. cc e)
]

number-Proper : (n : ℤ) → Proper (checked_number n)
number-Proper n = chain-Proper (checked n) _ (checked-Proper n) (λ m e. cc e)

text-Proper : (s : Text) → Proper (eval_text s)
unfolding eval_text
text-Proper s = elim (Bool-cases (is_instant_text s || looks_like_instant s)) [
  | inl instant ↦ rw instant (of_instant (encode_instant s))
  | inr other ↦ rw other (of_int (int_text s))
]
  where
    of_instant : (r : Parsed ℤ) → Proper (checked_instant r)
    of_instant (err x) = λ e. cc e
    of_instant (ok n) = number-Proper n

    of_int : (r : Option ℤ) → Proper (checked_int r)
    of_int none = λ e. cc e
    of_int (some n) = number-Proper n

pair-Proper : (r : Result MoneyError (ℤ × Text)) → Proper (money_pair r)
pair-Proper (err x) = λ e. cc e
pair-Proper (ok (n, c)) = λ e. cc e

dict-Proper : (amount currency : Option Json) → Proper (eval_dict amount currency)
dict-Proper none c = λ e. cc e
dict-Proper (some a) none = λ e. cc e
dict-Proper (some a) (some c) = pair-Proper _

raw-Proper : (v : Json) → Proper (eval_raw v)
unfolding eval_raw
raw-Proper null = λ e. cc e
raw-Proper (bool b) = λ e. cc e
raw-Proper (int n) = number-Proper n
raw-Proper (float m x) = λ e. cc e
raw-Proper (str s) = text-Proper s
raw-Proper (seq s) = λ e. cc e
raw-Proper (dict d) = dict-Proper _ _

operand-Proper : (scope : Scope) (o : Operand) → Proper (eval_operand scope o)
unfolding eval_operand
operand-Proper scope (lit n b) = λ e. cc e
operand-Proper scope (ref name) = raw-Proper _

int_arith-Proper : (op : ArithOp) (a b : ℤ) → Proper (int_arith op a b)
unfolding int_arith
int_arith-Proper ArithOp.add a b = λ e. cc e
int_arith-Proper ArithOp.sub a b = λ e. cc e
int_arith-Proper ArithOp.mul a b = λ e. cc e
int_arith-Proper ArithOp.div a (pos zero) = λ e. cc e
int_arith-Proper ArithOp.div a (pos (suc n)) = λ e. cc e
int_arith-Proper ArithOp.div a (negsuc n) = λ e. cc e

money-Proper : (r : Result MoneyError (ℤ × Text)) → Proper (checked_money r)
money-Proper (err x) = λ e. cc e
money-Proper (ok (n, c)) = chain-Proper (checked n) _ (checked-Proper n) (λ m e. cc e)

scale-Proper : (op : ArithOp) (a : ℤ × Text) (n : ℤ) → Proper (scale_pair op a n)
scale-Proper ArithOp.mul a n = money-Proper _
scale-Proper ArithOp.add a n = λ e. cc e
scale-Proper ArithOp.sub a n = λ e. cc e
scale-Proper ArithOp.div a n = λ e. cc e

arith-Proper : (op : ArithOp) (l r : Option Num) → Proper (eval_arith op l r)
unfolding eval_arith
arith-Proper op none r = λ e. cc e
arith-Proper op (some (number a)) none = λ e. cc e
arith-Proper op (some (money a c)) none = λ e. cc e
arith-Proper op (some (number a)) (some (number b)) =
    chain-Proper (int_arith op a b) _ (int_arith-Proper op a b) number-Proper
arith-Proper ArithOp.add (some (money a c)) (some (money b d)) = money-Proper _
arith-Proper ArithOp.sub (some (money a c)) (some (money b d)) = money-Proper _
arith-Proper ArithOp.mul (some (money a c)) (some (money b d)) = λ e. cc e
arith-Proper ArithOp.div (some (money a c)) (some (money b d)) = λ e. cc e
arith-Proper op (some (money a c)) (some (number n)) = scale-Proper op (a, c) n
arith-Proper op (some (number n)) (some (money a c)) = scale-Proper op (a, c) n

value-Proper : (scope : Scope) (v : Value) → Proper (eval_value scope v)
unfolding eval_value
value-Proper scope (operand o) = operand-Proper scope o
value-Proper scope (arith_of l op r) =
    chain-Proper (eval_operand scope l) _ (operand-Proper scope l)
      (λ x. chain-Proper (eval_operand scope r) _ (operand-Proper scope r) (arith-Proper op x))

ordered-Proper : (op : Comparator) (r : Result MoneyError Order) → Proper (ordered op r)
ordered-Proper op (err x) = λ e. cc e
ordered-Proper op (ok o) = λ e. cc e

pairs-Proper : (op : Comparator) (a b : ℤ × Text) → Proper (compare_pairs op a b)
unfolding compare_pairs
pairs-Proper Comparator.lt a b = ordered-Proper Comparator.lt _
pairs-Proper Comparator.le a b = ordered-Proper Comparator.le _
pairs-Proper Comparator.gt a b = ordered-Proper Comparator.gt _
pairs-Proper Comparator.ge a b = ordered-Proper Comparator.ge _
pairs-Proper Comparator.eq a b = λ e. cc e
pairs-Proper Comparator.ne a b = λ e. cc e

values-Proper : (op : Comparator) (l r : Option Num) → Proper (compare_values op l r)
unfolding compare_values
values-Proper op none r = λ e. cc e
values-Proper op (some (number a)) none = λ e. cc e
values-Proper op (some (money a c)) none = λ e. cc e
values-Proper op (some (number a)) (some (number b)) = λ e. cc e
values-Proper op (some (money a c)) (some (money b d)) = pairs-Proper op (a, c) (b, d)
values-Proper op (some (number a)) (some (money b d)) = λ e. cc e
values-Proper op (some (money a c)) (some (number b)) = λ e. cc e

text_operand-Proper : (scope : Scope) (v : Value) → Proper (text_operand scope v)
text_operand-Proper scope (operand (ref name)) = λ e. cc e
text_operand-Proper scope (operand (lit n b)) = λ e. cc e
text_operand-Proper scope (arith_of l op r) = λ e. cc e

comparison-Proper :
    (texts : TextTerms) (scope : Scope) (l r : Value) (op : Comparator)
    → Proper (comparison_holds texts scope l op r)
unfolding comparison_holds text_comparison_holds
comparison-Proper texts scope l r op =
    elim (Bool-cases (is_equality op && is_text_term texts l r)) [
      | inl text ↦ rw text (
          chain-Proper (text_operand scope l) _ (text_operand-Proper scope l) (λ x.
            chain-Proper (text_operand scope r) _ (text_operand-Proper scope r) (λ y e. cc e)))
      | inr other ↦ rw other (
          chain-Proper (eval_value scope l) _ (value-Proper scope l)
            (λ x. chain-Proper (eval_value scope r) _ (value-Proper scope r) (values-Proper op x)))
    ]

term-Proper : (texts : TextTerms) (scope : Scope) (t : Term) → Proper (term_holds texts scope t)
unfolding term_holds
term-Proper texts scope (presence field kind) = λ e. cc e
term-Proper texts scope (numeric field kind) = λ e. cc e
term-Proper texts scope (comparison l op r) = comparison-Proper texts scope l r op

and_term-Proper :
    (texts : TextTerms) (scope : Scope) (t : Term)
    → is_and_term t ≡ true
    → Proper (and_term_holds texts scope t)
and_term-Proper texts scope (presence field kind) h = absurd (cc h)
and_term-Proper texts scope (numeric field kind) h = term-Proper texts scope (numeric field kind)
and_term-Proper texts scope (comparison l op r) h = term-Proper texts scope (comparison l op r)

terms-Proper :
    (texts : TextTerms) (scope : Scope) (ts : List Term)
    → all is_and_term ts ≡ true
    → Proper (terms_hold texts scope ts)
unfolding terms_hold
terms-Proper texts scope [] h = λ e. cc e
terms-Proper texts scope (t ∷ ts) h =
    chain-Proper (and_term_holds texts scope t) _
      (and_term-Proper texts scope t (&&_left (is_and_term t) _ h))
      (λ b.
        chain-Proper (terms_hold texts scope ts) _
          (terms-Proper texts scope ts (&&_right (is_and_term t) _ h)) (λ c e. cc e))

parsed-Proper :
    (texts : TextTerms) (scope : Scope) (text : Text) (r : Parsed (Option Condition))
    → parse_condition text ≡ r
    → Proper (parsed_holds texts scope r)
parsed-Proper texts scope text (err x) h = λ e. cc e
parsed-Proper texts scope text (ok none) h = λ e. cc e
parsed-Proper texts scope text (ok (some (single t))) h = term-Proper texts scope t
parsed-Proper texts scope text (ok (some (and_of ts))) h =
    terms-Proper texts scope ts (parse_condition-FitsCondition text (and_of ts) h).1

-- Whatever the condition and the scope, _condition_holds asks no presence test for its operator: it
-- raises no AttributeError.
pub condition_holds-no_operator :
    (texts : TextTerms) (scope : Scope) (condition : Option Text)
    → condition_holds texts scope condition ≢ err no_operator
unfolding condition_holds
condition_holds-no_operator texts scope none = λ e. cc e
condition_holds-no_operator texts scope (some text) =
    parsed-Proper texts scope text (parse_condition text) refl
