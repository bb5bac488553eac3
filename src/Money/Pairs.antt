-- ===== src/Money/Pairs.antt =====
-- impl/lnpl/money.py: `encode_money` and the pairs of minor units and currency, and `_decode_money` of
-- impl/lnpl/interp.py. What Python's `Decimal` reads of a str is written out for ASCII text.
use linkly.Base.{
  ℕ, zero, suc, ◌+◌, ◌-◌, ◌*◌, ◌^◌, Bool, true, false, ◌&&◌, ◌||◌, not, Option, none, some, [], ◌∷◌,
  ◌++◌, ◌==◌, if◌then◌else◌, all, length,
}
use linkly.Base.Result.{Result, ok, err, ◌>>=◌}
use linkly.Base.Text.{
  Text, codes, same_text, is_digit, is_upper, int_of, trim_front, trim_end, read_sign,
}
use linkly.Base.Decimal.{decimal}
use linkly.Base.Int.{ℤ, pos, pos_part, neg_part, signed, abs, ltb_ℤ, ◌+ℤ◌, ◌-ℤ◌, ◌*ℤ◌, in_int64}
use linkly.Base.Json.{Json, str}
use linkly.Money.{
  MoneyError, bad_currency, not_text, not_decimal, not_finite, wrong_places, outside_domain,
  currency_mismatch, money_range, exponent, span_digits,
}

abbrev pub Money : Type 0 → Type 0
Money A = Result MoneyError A

-- What `Decimal` makes of a text: a number with its sign, its digits and its exponent, or an infinity
-- or a NaN.
pub data Number : Type 0 where
  finite : Bool → ℕ → ℤ → Number
  special : Number

-- `s.strip().replace("_", "")`
unfoldable pub drop_underscores : Text → Text
drop_underscores [] = []
drop_underscores (c ∷ s) = let rest = drop_underscores s in if c == b'_' then rest else c ∷ rest

unfoldable pub lower_char : ℕ → ℕ
lower_char c = if is_upper c then c + 32 else c

unfoldable pub lower_text : Text → Text
lower_text [] = []
lower_text (c ∷ s) = lower_char c ∷ lower_text s

abbrev pub is_nan : Text → Bool
is_nan (a ∷ b ∷ c ∷ s) = a == b'n' && b == b'a' && c == b'n' && all is_digit s
is_nan _ = false

abbrev pub is_signalling : Text → Bool
is_signalling [] = false
is_signalling (c ∷ s) = c == b's' && is_nan s

-- `Inf`, `Infinity`, `NaN` and `sNaN` in lower case, a NaN with digits behind it
unfoldable pub is_special : Text → Bool
is_special s =
    same_text s (codes "inf") || same_text s (codes "infinity") || is_nan s || is_signalling s

-- The digits of an exponent, with nothing behind them.
abbrev pub exponent_digits : Bool → Text × Text → Option ℤ
exponent_digits negative ([], rest) = none
exponent_digits negative (c ∷ digits, []) = some (signed negative (int_of (c ∷ digits)))
exponent_digits negative (c ∷ digits, d ∷ rest) = none

-- `(E[-+]?\d+)?` and the end
abbrev pub exponent_part : Text → Option ℤ
exponent_part [] = some (pos 0)
exponent_part (c ∷ s) =
    if c == b'e' || c == b'E'
    then exponent_digits (read_sign s).0 (span_digits (read_sign s).1)
    else none

abbrev pub fraction_part : Text → Text × Text
fraction_part [] = ([], [])
fraction_part (c ∷ s) = if c == b'.' then span_digits s else ([], c ∷ s)

-- `(?=\d|\.\d)`
abbrev pub has_digits : Text → Text → Bool
has_digits [] [] = false
has_digits [] (c ∷ fraction) = true
has_digits (c ∷ whole) fraction = true

abbrev pub with_exponent : Bool → Text → Text → Option ℤ → Option Number
with_exponent negative whole fraction none = none
with_exponent negative whole fraction (some e) =
    if has_digits whole fraction
    then some (finite negative (int_of (whole ++ fraction)) (e -ℤ pos (length fraction)))
    else none

unfoldable pub read_unsigned : Bool → Text → Option Number
read_unsigned negative s =
    let whole = (span_digits s).0 in
    let fraction = fraction_part (span_digits s).1 in
    if is_special (lower_text s)
    then some special
    else with_exponent negative whole fraction.0 (exponent_part fraction.1)

-- `Decimal(amount)`, where `none` stands for the exception
unfoldable pub read_decimal : Text → Option Number
read_decimal amount =
    let s = drop_underscores (trim_front (trim_end amount)) in
    read_unsigned (read_sign s).0 (read_sign s).1

-- `encode_money` behind the call of `Decimal`
unfoldable pub encode_number : Option Number → ℕ → Text → Money (ℤ × Text)
encode_number none exp currency = err not_decimal
encode_number (some special) exp currency = err not_finite
encode_number (some (finite negative n e)) exp currency =
    let minor = signed negative (n * 10 ^ pos_part e) in
    if not (neg_part e == exp)
    then err wrong_places
    else if in_int64 minor
    then ok (minor, currency)
    else err outside_domain

abbrev pub encode_amount : Json → ℕ → Text → Money (ℤ × Text)
encode_amount (str amount) exp currency = encode_number (read_decimal amount) exp currency
encode_amount _ exp currency = err not_text

-- `encode_money`
unfoldable pub encode_money : Json → Json → Money (ℤ × Text)
encode_money amount (str currency) = do exp ← exponent currency; encode_amount amount exp currency
encode_money amount _ = err bad_currency

-- The sign of `compare`: `-1`, `0` or `1`
pub data Order : Type 0 where
  less same more : Order

-- `(a_minor > b_minor) - (a_minor < b_minor)`
unfoldable pub order_of : ℤ → ℤ → Order
order_of a b = if ltb_ℤ a b then less else if ltb_ℤ b a then more else same

-- `compare`
unfoldable pub compare : ℤ × Text → ℤ × Text → Money Order
compare (a, a_currency) (b, b_currency) =
    if same_text a_currency b_currency then ok (order_of a b) else err currency_mismatch

-- `add`
unfoldable pub add : ℤ × Text → ℤ × Text → Money (ℤ × Text)
add (a, a_currency) (b, b_currency) =
    if same_text a_currency b_currency then ok (a +ℤ b, a_currency) else err currency_mismatch

-- `_in_domain`
unfoldable pub in_domain : ℤ → Text → Money (ℤ × Text)
in_domain minor currency = if in_int64 minor then ok (minor, currency) else err money_range

-- `sub`
unfoldable pub sub : ℤ × Text → ℤ × Text → Money (ℤ × Text)
sub (a, a_currency) (b, b_currency) =
    if same_text a_currency b_currency then in_domain (a -ℤ b) a_currency else err currency_mismatch

-- `mul_int`
unfoldable pub mul_int : ℤ × Text → ℤ → Money (ℤ × Text)
mul_int (a, currency) n = in_domain (a *ℤ n) currency

-- `digits[:-exp] + "." + digits[-exp:]`, where n digits are in front of the dot
unfoldable pub put_dot : ℕ → Text → Text
put_dot zero s = b'.' ∷ s
put_dot (suc n) [] = b'.' ∷ []
put_dot (suc n) (c ∷ s) = c ∷ put_dot n s

-- `digits.rjust(width, "0")`, where `missing` is the width that is left
unfoldable pub put_zeros : ℕ → Text → Text
put_zeros zero s = s
put_zeros (suc missing) s = b'0' ∷ put_zeros missing s

unfoldable pub place_dot : ℕ → Text → Text
place_dot zero digits = digits
place_dot (suc e) digits =
    let padded = put_zeros (suc (suc e) - length digits) digits in
    put_dot (length padded - suc e) padded

abbrev pub sign_text : ℤ → Text
sign_text minor = if ltb_ℤ minor (pos 0) then b'-' ∷ [] else []

-- `_decode_money`: the amount of the dict, whose currency is the argument
unfoldable pub decode_money : ℤ → Text → Money Text
decode_money minor currency = do
  exp ← exponent currency
  ok (sign_text minor ++ place_dot exp (decimal (abs minor)))
