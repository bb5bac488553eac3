-- ===== src/Tests/Prices.antt =====
-- impl/lnpl/money.py at a concrete token.
use linkly.Base.{◌≡◌, ◌↔◌, refl, some, arith, if◌then◌else◌}
use linkly.Base.Result.{ok, err}
use linkly.Base.Text.{Text, codes, is_in, is_upper, is_digit, int_of}
use linkly.Base.Int.{pos, negsuc, in_int64}
use linkly.Base.Json.{str}
use linkly.Money.{
  is_alpha3, exponent, span_digits, currency_end, match_literal, parse_money_literal,
  outside_domain,
}
use linkly.Money.Pairs.{encode_money, decode_money}
use linkly.Money.Wire.{encode_money-decode_money}
use linkly.Money.Literal.{drop_dot, encode_money-parsed}
use linkly.Money.Scale.{IsMoney, parse_money_literal_iff}

parse_money_literal_iff_example :
    (parse_money_literal (codes "12.50USD") ≡ ok (some (codes "12.50", codes "USD")))
    ↔ IsMoney (codes "12.50USD") (codes "12.50") (codes "USD")
parse_money_literal_iff_example =
    parse_money_literal_iff (codes "12.50USD") (codes "12.50") (codes "USD")

three_places : exponent (codes "KWD") ≡ ok 3
unfolding exponent is_alpha3 is_upper is_in
three_places = refl

-- A negative amount in a currency with three decimals.
encode_money-decode_money_example :
    (amount : Text) × (decode_money (negsuc 4) (codes "KWD") ≡ ok amount)
    × (encode_money (str amount) (str (codes "KWD")) ≡ ok (negsuc 4, codes "KWD"))
encode_money-decode_money_example =
    encode_money-decode_money (negsuc 4) (codes "KWD") 3 three_places (omega arith, omega arith)

twelve_fifty : parse_money_literal (codes "12.50USD") ≡ ok (some (codes "12.50", codes "USD"))
unfolding parse_money_literal match_literal span_digits is_digit currency_end exponent is_alpha3
    is_upper is_in
twelve_fifty = refl

encode_money-parsed_example : encode_money (str (codes "12.50")) (str (codes "USD")) ≡ (
    if in_int64 (pos (int_of (drop_dot (codes "12.50"))))
    then ok (pos (int_of (drop_dot (codes "12.50"))), codes "USD")
    else err outside_domain)
encode_money-parsed_example =
    encode_money-parsed (codes "12.50USD") (codes "12.50") (codes "USD") twelve_fifty
