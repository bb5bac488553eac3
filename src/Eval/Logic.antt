-- ===== src/Eval/Logic.antt =====
-- impl/lnpl/interp.py: what `_condition_holds` says of negated comparisons and of an `And`.
use linkly.Base.{
  ◌≡◌, ◌↔◌, refl, sym, ap, ◌∙◌, Bool, true, false, ◌&&◌, not, some, List, [], ◌∷◌, ◌++◌, arith,
  &&_left, &&_right, All,
}
use linkly.Base.Result.{Result, ok, err, chain_returns}
use linkly.Base.Text.{Text}
use linkly.Base.Int.{ℤ}
use linkly.Lexer.Words.{Comparator}
use linkly.Condition.Syntax.{Value, Term}
use linkly.Money.{MoneyError}
use linkly.Money.Pairs.{Order, less, same, more}
use linkly.Eval.Scope.{RunError, Run, Scope}
use linkly.Eval.Value.{Num, number, money, eval_value}
use linkly.Eval.Guard.{
  TextTerms, compare_ints, order_holds, ordered, same_pair, compare_pairs, compare_values,
  is_equality, is_text_term, comparison_holds, and_term_holds, terms_hold,
}

-- The comparator that says the opposite.
unfoldable pub negated : Comparator → Comparator
negated Comparator.lt = Comparator.ge
negated Comparator.le = Comparator.gt
negated Comparator.gt = Comparator.le
negated Comparator.ge = Comparator.lt
negated Comparator.eq = Comparator.ne
negated Comparator.ne = Comparator.eq

ints-negated :
    (op : Comparator) (a b : ℤ) → compare_ints (negated op) a b ≡ not (compare_ints op a b)
unfolding compare_ints negated
ints-negated Comparator.lt a b = ground arith
ints-negated Comparator.le a b = ground arith
ints-negated Comparator.gt a b = ground arith
ints-negated Comparator.ge a b = ground arith
ints-negated Comparator.eq a b = refl
ints-negated Comparator.ne a b = ground arith

order-negated :
    (op : Comparator) (o : Order)
    → is_equality op ≡ false
    → order_holds (negated op) o ≡ not (order_holds op o)
unfolding negated
order-negated Comparator.lt less h = refl
order-negated Comparator.lt same h = refl
order-negated Comparator.lt more h = refl
order-negated Comparator.le less h = refl
order-negated Comparator.le same h = refl
order-negated Comparator.le more h = refl
order-negated Comparator.gt less h = refl
order-negated Comparator.gt same h = refl
order-negated Comparator.gt more h = refl
order-negated Comparator.ge less h = refl
order-negated Comparator.ge same h = refl
order-negated Comparator.ge more h = refl
order-negated Comparator.eq o h = absurd (cc h)
order-negated Comparator.ne o h = absurd (cc h)

ordered-negated :
    (op : Comparator) (r : Result MoneyError Order) (b : Bool)
    → is_equality op ≡ false
    → ordered op r ≡ ok b
    → ordered (negated op) r ≡ ok (not b)
ordered-negated op (err x) b h e = absurd (cc e)
ordered-negated op (ok o) b h e =
    let holds : order_holds op o ≡ b = cc e in ap ok (order-negated op o h ∙ ap not holds)

not-not : (b : Bool) → not (not b) ≡ b
not-not true = refl
not-not false = refl

pairs-negated :
    (op : Comparator) (x y : ℤ × Text) (b : Bool)
    → compare_pairs op x y ≡ ok b
    → compare_pairs (negated op) x y ≡ ok (not b)
unfolding compare_pairs negated
pairs-negated Comparator.lt x y b e = ordered-negated Comparator.lt _ b refl e
pairs-negated Comparator.le x y b e = ordered-negated Comparator.le _ b refl e
pairs-negated Comparator.gt x y b e = ordered-negated Comparator.gt _ b refl e
pairs-negated Comparator.ge x y b e = ordered-negated Comparator.ge _ b refl e
pairs-negated Comparator.eq x y b e =
    let holds : same_pair x y ≡ b = cc e in ap (λ (c : Bool). ok (not c)) holds
pairs-negated Comparator.ne x y b e =
    let holds : not (same_pair x y) ≡ b = cc e in
    ap ok (sym (not-not (same_pair x y)) ∙ ap not holds)

values-negated :
    (op : Comparator) (x y : Num) (b : Bool)
    → compare_values op (some x) (some y) ≡ ok b
    → compare_values (negated op) (some x) (some y) ≡ ok (not b)
unfolding compare_values
values-negated op (number a) (number c) b e =
    let holds : compare_ints op a c ≡ b = cc e in ap ok (ints-negated op a c ∙ ap not holds)
values-negated op (money a c) (money d f) b e = pairs-negated op (a, c) (d, f) b e
values-negated op (number a) (money d f) b e = absurd (cc e)
values-negated op (money a c) (number d) b e = absurd (cc e)

-- Where neither side is a Text term and both sides have a value, a comparison that holds or does not
-- hold is the opposite of the one with the opposite comparator.
pub comparison_holds-negated :
    (texts : TextTerms) (scope : Scope) (l r : Value) (op : Comparator) (x y : Num) (b : Bool)
    → is_text_term texts l r ≡ false
    → eval_value scope l ≡ ok (some x)
    → eval_value scope r ≡ ok (some y)
    → comparison_holds texts scope l op r ≡ ok b
    → comparison_holds texts scope l (negated op) r ≡ ok (not b)
unfolding comparison_holds
comparison_holds-negated texts scope l r op x y b plain left right e =
    let compared : compare_values op (some x) (some y) ≡ ok b =
      rw (plain, no_text (is_equality op), left, right) at e in
    rw (plain, no_text (is_equality (negated op)), left, right) (values-negated op x y b compared)
  where
    no_text : (b : Bool) → (b && false) ≡ false
    no_text true = refl
    no_text false = refl

-- Every term of an `And` returns.
abbrev pub Returns : Run Bool → Type 0
Returns r = (b : Bool) × (r ≡ ok b)

-- An `And` holds exactly where each of its terms holds.
pub terms_hold_iff :
    (texts : TextTerms) (scope : Scope) (ts : List Term)
    → (terms_hold texts scope ts ≡ ok true) ↔ All (λ t. and_term_holds texts scope t ≡ ok true) ts
unfolding terms_hold
terms_hold_iff texts scope [] = (λ e. tt, λ h. refl)
terms_hold_iff texts scope (t ∷ ts) = (
  λ e.
      let (b, first, next) = chain_returns (and_term_holds texts scope t) _ e in
      let (c, rest, both) = chain_returns (terms_hold texts scope ts) _ next in
      let all_hold : (b && c) ≡ true = cc both in
      (
        first ∙ ap ok (&&_left b c all_hold),
        (terms_hold_iff texts scope ts).0 (rest ∙ ap ok (&&_right b c all_hold)),
      ),
  λ h. rw (h.0, (terms_hold_iff texts scope ts).1 h.1) refl,
)

-- A fault of a term surfaces, whether the terms before it hold or not, and whatever stands behind it.
pub terms_hold-raises :
    (texts : TextTerms) (scope : Scope) (before behind : List Term) (t : Term) (fault : RunError)
    → All (λ u. Returns (and_term_holds texts scope u)) before
    → and_term_holds texts scope t ≡ err fault
    → terms_hold texts scope (before ++ t ∷ behind) ≡ err fault
unfolding terms_hold
terms_hold-raises texts scope [] behind t fault returned e = rw e refl
terms_hold-raises texts scope (u ∷ before) behind t fault ((b, h), returned) e =
    rw (h, terms_hold-raises texts scope before behind t fault returned e) refl
