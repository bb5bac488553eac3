-- ===== src/Money/Number.antt =====
-- impl/lnpl/money.py: what `encode_money` reads of an amount in plain digits.
use linkly.Base.{
  ℕ, ◌≡◌, refl, ◌∙◌, Bool, true, false, ◌&&◌, not, some, [], ◌∷◌, ◌++◌, ◌==◌, arith, append-nil,
  all, all-append, length, &&_left, &&_right,
}
use linkly.Base.Text.{
  Text, is_space, is_digit, is_upper, int_of, same_text, trim_front, trim_end, read_sign,
}
use linkly.Base.Int.{pos, ◌-ℤ◌}
use linkly.Money.{span_digits, amount_text}
use linkly.Money.Literals.{span_digits-append}
use linkly.Money.Pairs.{
  finite, drop_underscores, lower_char, lower_text, is_special, read_unsigned, read_decimal,
}

-- A character that `Decimal` does not drop.
is_plain : ℕ → Bool
is_plain c = not (is_space c) && not (c == b'_')

trim_end-plain : (s : Text) → all is_plain s ≡ true → trim_end s ≡ s
unfolding trim_end is_plain
trim_end-plain [] h = refl
trim_end-plain (c ∷ []) h = ground arith
trim_end-plain (c ∷ d ∷ s) h = rw (trim_end-plain (d ∷ s) (&&_right (is_plain c) _ h)) refl

trim_front-plain : (s : Text) → all is_plain s ≡ true → trim_front s ≡ s
unfolding trim_front is_plain
trim_front-plain [] h = refl
trim_front-plain (c ∷ s) h = ground arith

drop_underscores-plain : (s : Text) → all is_plain s ≡ true → drop_underscores s ≡ s
unfolding drop_underscores is_plain
drop_underscores-plain [] h = refl
drop_underscores-plain (c ∷ s) h = ground (arith, drop_underscores-plain s)

all-plain : (s : Text) → all is_digit s ≡ true → all is_plain s ≡ true
unfolding is_plain is_digit is_space
all-plain [] h = refl
all-plain (c ∷ s) h = ground (arith, all-plain s)

amount-plain :
    (whole fraction : Text)
    → all is_digit whole ≡ true
    → all is_digit fraction ≡ true
    → all is_plain (amount_text whole fraction) ≡ true
amount-plain whole [] w f = all-plain whole w
amount-plain whole (c ∷ fraction) w f =
    all-append is_plain whole _
    ∙ rw (all-plain whole w) (unfold is_plain is_space in all-plain (c ∷ fraction) f)

span_digits-all : (w : Text) → all is_digit w ≡ true → span_digits w ≡ (w, [])
unfolding span_digits
span_digits-all [] h = refl
span_digits-all (c ∷ w) h =
    rw (&&_left (is_digit c) _ h, span_digits-all w (&&_right (is_digit c) _ h)) refl

dot_no_digit : is_digit b'.' ≡ false
dot_no_digit = unfold is_digit in refl

special-first :
    (d : ℕ) (t : Text)
    → (d == b'i') ≡ false
    → (d == b'n') ≡ false
    → (d == b's') ≡ false
    → is_special (d ∷ t) ≡ false
unfolding is_special same_text
special-first d [] i n s = rw (i, s) refl
special-first d (a ∷ []) i n s = rw (i, s) refl
special-first d (a ∷ b ∷ t) i n s = rw (i, n, s) refl

not_special : (c : ℕ) (s : Text) → is_digit c ≡ true → is_special (lower_text (c ∷ s)) ≡ false
unfolding lower_text lower_char is_digit is_upper
not_special c s h =
    special-first (lower_char c) (lower_text s) (ground arith) (ground arith) (ground arith)

read_unsigned-amount :
    (negative : Bool) (c : ℕ) (whole fraction : Text)
    → all is_digit (c ∷ whole) ≡ true
    → all is_digit fraction ≡ true
    → read_unsigned negative (amount_text (c ∷ whole) fraction)
      ≡ some (finite negative (int_of ((c ∷ whole) ++ fraction)) (pos 0 -ℤ pos (length fraction)))
unfolding read_unsigned
read_unsigned-amount negative c whole [] w f =
    rw
      (
        not_special c whole (&&_left (is_digit c) _ w),
        span_digits-all (c ∷ whole) w,
        append-nil (c ∷ whole),
      )
      refl
read_unsigned-amount negative c whole (d ∷ fraction) w f =
    rw
      (
        not_special c (whole ++ b'.' ∷ d ∷ fraction) (&&_left (is_digit c) _ w),
        span_digits-append (c ∷ whole) b'.' (d ∷ fraction) w dot_no_digit,
        span_digits-all (d ∷ fraction) f,
      )
      refl

read_sign-digit : (c : ℕ) (s : Text) → is_digit c ≡ true → read_sign (c ∷ s) ≡ (false, c ∷ s)
unfolding read_sign is_digit
read_sign-digit c s h = ground arith

stripped : (s : Text) → all is_plain s ≡ true → drop_underscores (trim_front (trim_end s)) ≡ s
stripped s h = rw (trim_end-plain s h, trim_front-plain s h) (drop_underscores-plain s h)

-- The number that an amount in plain digits is, with a sign or without.
pub read_decimal-amount :
    (c : ℕ) (whole fraction : Text)
    → all is_digit (c ∷ whole) ≡ true
    → all is_digit fraction ≡ true
    → read_decimal (amount_text (c ∷ whole) fraction)
      ≡ some (finite false (int_of ((c ∷ whole) ++ fraction)) (pos 0 -ℤ pos (length fraction)))
unfolding read_decimal
read_decimal-amount c whole fraction w f =
    rw
      (
        stripped (amount_text (c ∷ whole) fraction) (amount-plain (c ∷ whole) fraction w f),
        sign-of fraction,
      )
      (read_unsigned-amount false c whole fraction w f)
  where
    sign-of :
        (fraction : Text)
        → read_sign (amount_text (c ∷ whole) fraction) ≡ (false, amount_text (c ∷ whole) fraction)
    sign-of [] = read_sign-digit c whole (&&_left (is_digit c) _ w)
    sign-of (d ∷ f) = read_sign-digit c _ (&&_left (is_digit c) _ w)

pub read_decimal-negative :
    (c : ℕ) (whole fraction : Text)
    → all is_digit (c ∷ whole) ≡ true
    → all is_digit fraction ≡ true
    → read_decimal (b'-' ∷ amount_text (c ∷ whole) fraction)
      ≡ some (finite true (int_of ((c ∷ whole) ++ fraction)) (pos 0 -ℤ pos (length fraction)))
unfolding read_decimal read_sign
read_decimal-negative c whole fraction w f =
    let plain : all is_plain (b'-' ∷ amount_text (c ∷ whole) fraction) ≡ true =
      unfold is_plain is_space in amount-plain (c ∷ whole) fraction w f in
    rw (stripped _ plain) (read_unsigned-amount true c whole fraction w f)
