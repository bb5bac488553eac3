-- ===== src/Money/Literal.antt =====
-- impl/lnpl/money.py: `encode_money` of a literal that `parse_money_literal` accepts, and the results of
-- `sub` and `mul_int`.
use linkly.Base.{
  ◌≡◌, ◌≢◌, ◌↔◌, refl, sym, ap, ◌∙◌, true, false, some, [], ◌∷◌, ◌++◌, ◌==◌, if◌then◌else◌, arith,
  Bool-cases, inl, inr, append-nil, all, length,
}
use linkly.Base.Result.{ok, err}
use linkly.Base.Text.{Text, is_digit, int_of, same_text, same_text_refl, same_text→eq}
use linkly.Base.Int.{ℤ, pos, ◌-ℤ◌, in_int64, IsInt64, in_int64_iff}
use linkly.Base.Json.{str}
use linkly.Money.{amount_text, outside_domain, parse_money_literal}
use linkly.Money.Scale.{parse_money_literal_iff}
use linkly.Money.Number.{read_decimal-amount}
use linkly.Money.Pairs.{read_decimal, encode_number, encode_money, in_domain, sub}
use linkly.Money.Wire.{encode_number-exact}

-- The digits of an amount, without the dot.
unfoldable pub drop_dot : Text → Text
drop_dot [] = []
drop_dot (c ∷ s) = let rest = drop_dot s in if c == b'.' then rest else c ∷ rest

drop_dot-digits : (w s : Text) → all is_digit w ≡ true → drop_dot (w ++ s) ≡ w ++ drop_dot s
unfolding drop_dot is_digit
drop_dot-digits [] s h = refl
drop_dot-digits (c ∷ w) s h = ground (arith, drop_dot-digits w s)

drop_dot-amount :
    (whole fraction : Text)
    → all is_digit whole ≡ true
    → all is_digit fraction ≡ true
    → drop_dot (amount_text whole fraction) ≡ whole ++ fraction
unfolding drop_dot
drop_dot-amount whole [] w f =
    rw (ap drop_dot (sym (append-nil whole))) (drop_dot-digits whole [] w)
drop_dot-amount whole (c ∷ fraction) w f =
    drop_dot-digits whole (b'.' ∷ c ∷ fraction) w
    ∙ ap (λ (t : Text). whole ++ t)
        (ap drop_dot (sym (append-nil (c ∷ fraction)))
          ∙ drop_dot-digits (c ∷ fraction) [] f
          ∙ append-nil (c ∷ fraction))

-- A literal that parse_money_literal accepts is encoded with its digits as the minor units, unless
-- these are past the 64-bit range; encode_money raises nothing else of it.
pub encode_money-parsed :
    (token amount currency : Text)
    → parse_money_literal token ≡ ok (some (amount, currency))
    → encode_money (str amount) (str currency) ≡ (
        if in_int64 (pos (int_of (drop_dot amount)))
        then ok (pos (int_of (drop_dot amount)), currency)
        else err outside_domain)
unfolding encode_money
encode_money-parsed token amount currency e =
    let m = (parse_money_literal_iff token amount currency).0 e in
    let g = m.groups in
    rw (m.amount_is, m.currency_is, m.scale)
      (spelled-encodes g.whole g.fraction g.currency m.spelled.some_whole m.spelled.whole_digits
        m.spelled.fraction_digits)
  where
    spelled-encodes :
        (whole fraction cur : Text)
        → whole ≢ []
        → all is_digit whole ≡ true
        → all is_digit fraction ≡ true
        → encode_number (read_decimal (amount_text whole fraction)) (length fraction) cur ≡ (
            if in_int64 (pos (int_of (drop_dot (amount_text whole fraction))))
            then ok (pos (int_of (drop_dot (amount_text whole fraction))), cur)
            else err outside_domain)
    spelled-encodes [] fraction cur some_whole w f = absurd (some_whole refl)
    spelled-encodes (c ∷ whole) fraction cur some_whole w f =
        rw (read_decimal-amount c whole fraction w f, drop_dot-amount (c ∷ whole) fraction w f)
          (encode_number-exact false (int_of ((c ∷ whole) ++ fraction)) (length fraction) cur)

in_domain_iff :
    (n m : ℤ) (c currency : Text)
    → (in_domain n c ≡ ok (m, currency)) ↔ ((m ≡ n) × (currency ≡ c) × IsInt64 n)
unfolding in_domain
in_domain_iff n m c currency = (
  λ e. elim (Bool-cases (in_int64 n)) [
    | inl inside ↦
        let made : ok (n, c) ≡ ok (m, currency) = rw inside at e in
        (cc made, cc made, (in_int64_iff n).0 inside)
    | inr outside ↦ absurd (cc (rw outside at e))
  ],
  λ h. rw (h.0, h.1, (in_int64_iff n).1 h.2) refl,
)

-- sub returns exactly where both currencies are the same and the difference is in the 64-bit range;
-- it is then the difference, in that currency.
pub sub_iff :
    (a b m : ℤ) (a_currency b_currency currency : Text)
    → (sub (a, a_currency) (b, b_currency) ≡ ok (m, currency))
      ↔ ((a_currency ≡ b_currency) × (m ≡ a -ℤ b) × (currency ≡ a_currency) × IsInt64 (a -ℤ b))
unfolding sub
sub_iff a b m ca cb currency = (
  λ e. elim (Bool-cases (same_text ca cb)) [
    | inl same ↦
        let (value, unit, inside) = (in_domain_iff (a -ℤ b) m ca currency).0 (rw same at e) in
        (same_text→eq ca cb same, value, unit, inside)
    | inr apart ↦ absurd (cc (rw apart at e))
  ],
  λ h. rw (sym h.0, same_text_refl ca) ((in_domain_iff (a -ℤ b) m ca currency).1 (h.1, h.2, h.3)),
)
