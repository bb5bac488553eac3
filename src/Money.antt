-- ===== src/Money.antt =====
-- impl/lnpl/money.py: the currencies, `exponent` and `parse_money_literal`.
pub mod Literals
pub mod Scale
pub mod Pairs
pub mod Number
pub mod Wire
pub mod Literal
use linkly.Base.{
  ℕ, ◌≡◌, Bool, true, false, ◌&&◌, Option, none, some, List, [], ◌∷◌, ◌++◌, ◌==◌, if◌then◌else◌,
  length,
}
use linkly.Base.Result.{Result, ok, err, ◌>>=◌}
use linkly.Base.Text.{Text, codes, is_digit, is_upper, is_in}

-- MoneyEncodePrecisionError at its two places in `exponent` and its five in `encode_money`,
-- MoneyLiteralScaleError, MoneyCurrencyMismatchError and MoneyRangeError.
pub data MoneyError : Type 0 where
  bad_currency : MoneyError
  inactive_currency : MoneyError
  not_text : MoneyError
  not_decimal : MoneyError
  not_finite : MoneyError
  wrong_places : MoneyError
  outside_domain : MoneyError
  literal_scale : MoneyError
  currency_mismatch : MoneyError
  money_range : MoneyError

-- CURRENCY_EXPONENT: the codes with exponent 0, and those with exponent 3.
abbrev pub no_decimals : List Text
no_decimals =
    codes "BIF"
    ∷ codes "CLP"
    ∷ codes "DJF"
    ∷ codes "GNF"
    ∷ codes "ISK"
    ∷ codes "JPY"
    ∷ codes "KMF"
    ∷ codes "KRW"
    ∷ codes "PYG"
    ∷ codes "RWF"
    ∷ codes "UGX"
    ∷ codes "VND"
    ∷ codes "VUV"
    ∷ codes "XAF"
    ∷ codes "XOF"
    ∷ codes "XPF"
    ∷ []

abbrev pub three_decimals : List Text
three_decimals =
    codes "BHD"
    ∷ codes "IQD"
    ∷ codes "JOD"
    ∷ codes "KWD"
    ∷ codes "LYD"
    ∷ codes "OMR"
    ∷ codes "TND"
    ∷ []

-- _ACTIVE_CURRENCY_CODES
abbrev pub active_codes : List Text
active_codes =
    codes "AED"
    ∷ codes "AFN"
    ∷ codes "ALL"
    ∷ codes "AMD"
    ∷ codes "AOA"
    ∷ codes "ARS"
    ∷ codes "AUD"
    ∷ codes "AWG"
    ∷ codes "AZN"
    ∷ codes "BAM"
    ∷ codes "BBD"
    ∷ codes "BDT"
    ∷ codes "BHD"
    ∷ codes "BIF"
    ∷ codes "BMD"
    ∷ codes "BND"
    ∷ codes "BOB"
    ∷ codes "BOV"
    ∷ codes "BRL"
    ∷ codes "BSD"
    ∷ codes "BTN"
    ∷ codes "BWP"
    ∷ codes "BYN"
    ∷ codes "BZD"
    ∷ codes "CAD"
    ∷ codes "CDF"
    ∷ codes "CHE"
    ∷ codes "CHF"
    ∷ codes "CHW"
    ∷ codes "CLF"
    ∷ codes "CLP"
    ∷ codes "CNY"
    ∷ codes "COP"
    ∷ codes "COU"
    ∷ codes "CRC"
    ∷ codes "CUP"
    ∷ codes "CVE"
    ∷ codes "CZK"
    ∷ codes "DJF"
    ∷ codes "DKK"
    ∷ codes "DOP"
    ∷ codes "DZD"
    ∷ codes "EGP"
    ∷ codes "ERN"
    ∷ codes "ETB"
    ∷ codes "EUR"
    ∷ codes "FJD"
    ∷ codes "FKP"
    ∷ codes "GBP"
    ∷ codes "GEL"
    ∷ codes "GHS"
    ∷ codes "GIP"
    ∷ codes "GMD"
    ∷ codes "GNF"
    ∷ codes "GTQ"
    ∷ codes "GYD"
    ∷ codes "HKD"
    ∷ codes "HNL"
    ∷ codes "HTG"
    ∷ codes "HUF"
    ∷ codes "IDR"
    ∷ codes "ILS"
    ∷ codes "INR"
    ∷ codes "IQD"
    ∷ codes "IRR"
    ∷ codes "ISK"
    ∷ codes "JMD"
    ∷ codes "JOD"
    ∷ codes "JPY"
    ∷ codes "KES"
    ∷ codes "KGS"
    ∷ codes "KHR"
    ∷ codes "KMF"
    ∷ codes "KPW"
    ∷ codes "KRW"
    ∷ codes "KWD"
    ∷ codes "KYD"
    ∷ codes "KZT"
    ∷ codes "LAK"
    ∷ codes "LBP"
    ∷ codes "LKR"
    ∷ codes "LRD"
    ∷ codes "LSL"
    ∷ codes "LYD"
    ∷ codes "MAD"
    ∷ codes "MDL"
    ∷ codes "MGA"
    ∷ codes "MKD"
    ∷ codes "MMK"
    ∷ codes "MNT"
    ∷ codes "MOP"
    ∷ codes "MRU"
    ∷ codes "MUR"
    ∷ codes "MVR"
    ∷ codes "MWK"
    ∷ codes "MXN"
    ∷ codes "MXV"
    ∷ codes "MYR"
    ∷ codes "MZN"
    ∷ codes "NAD"
    ∷ codes "NGN"
    ∷ codes "NIO"
    ∷ codes "NOK"
    ∷ codes "NPR"
    ∷ codes "NZD"
    ∷ codes "OMR"
    ∷ codes "PAB"
    ∷ codes "PEN"
    ∷ codes "PGK"
    ∷ codes "PHP"
    ∷ codes "PKR"
    ∷ codes "PLN"
    ∷ codes "PYG"
    ∷ codes "QAR"
    ∷ codes "RON"
    ∷ codes "RSD"
    ∷ codes "RUB"
    ∷ codes "RWF"
    ∷ codes "SAR"
    ∷ codes "SBD"
    ∷ codes "SCR"
    ∷ codes "SDG"
    ∷ codes "SEK"
    ∷ codes "SGD"
    ∷ codes "SHP"
    ∷ codes "SLE"
    ∷ codes "SOS"
    ∷ codes "SRD"
    ∷ codes "SSP"
    ∷ codes "STN"
    ∷ codes "SVC"
    ∷ codes "SYP"
    ∷ codes "SZL"
    ∷ codes "THB"
    ∷ codes "TJS"
    ∷ codes "TMT"
    ∷ codes "TND"
    ∷ codes "TOP"
    ∷ codes "TRY"
    ∷ codes "TTD"
    ∷ codes "TWD"
    ∷ codes "TZS"
    ∷ codes "UAH"
    ∷ codes "UGX"
    ∷ codes "USD"
    ∷ codes "USN"
    ∷ codes "UYI"
    ∷ codes "UYU"
    ∷ codes "UYW"
    ∷ codes "UZS"
    ∷ codes "VED"
    ∷ codes "VES"
    ∷ codes "VND"
    ∷ codes "VUV"
    ∷ codes "XAF"
    ∷ codes "XAG"
    ∷ codes "XAU"
    ∷ codes "XBA"
    ∷ codes "XBB"
    ∷ codes "XBC"
    ∷ codes "XBD"
    ∷ codes "XCD"
    ∷ codes "XDR"
    ∷ codes "XOF"
    ∷ codes "XPD"
    ∷ codes "XPF"
    ∷ codes "XPT"
    ∷ codes "XSU"
    ∷ codes "XTS"
    ∷ codes "XUA"
    ∷ codes "XXX"
    ∷ codes "YER"
    ∷ codes "ZAR"
    ∷ codes "ZMW"
    ∷ codes "ZWG"
    ∷ []

-- _ALPHA3_RE, without the newline that its `$` lets through: no table has such a code
unfoldable pub is_alpha3 : Text → Bool
is_alpha3 (a ∷ b ∷ c ∷ []) = is_upper a && is_upper b && is_upper c
is_alpha3 _ = false

-- `exponent`
unfoldable pub exponent : Text → Result MoneyError ℕ
exponent currency =
    if is_alpha3 currency
    then (if is_in currency no_decimals
        then ok 0
        else if is_in currency three_decimals
        then ok 3
        else if is_in currency active_codes
        then ok 2
        else err inactive_currency)
    else err bad_currency

-- What `\d*` takes from the front of a text, and the rest.
unfoldable pub span_digits : Text → Text × Text
span_digits [] = ([], [])
span_digits (c ∷ s) =
    let rest = span_digits s in if is_digit c then (c ∷ rest.0, rest.1) else ([], c ∷ s)

-- `([A-Z]{3})$`, which a newline may follow
unfoldable pub currency_end : Text → Option Text
currency_end (a ∷ b ∷ c ∷ []) = if is_alpha3 (a ∷ b ∷ c ∷ []) then some (a ∷ b ∷ c ∷ []) else none
currency_end (a ∷ b ∷ c ∷ d ∷ []) =
    if is_alpha3 (a ∷ b ∷ c ∷ []) && d == 10 then some (a ∷ b ∷ c ∷ []) else none
currency_end _ = none

-- The groups of _MONEY_LITERAL_RE; an absent fraction is empty.
pub record Groups : Type 0 where
  pub whole : Text
  pub fraction : Text
  pub currency : Text

abbrev pub groups_end : Text → Text → Option Text → Option Groups
groups_end whole fraction none = none
groups_end whole fraction (some currency) =
    some (record { whole = whole; fraction = fraction; currency = currency })

abbrev pub fraction_groups : Text → Text → Text → Option Groups
fraction_groups whole [] s = none
fraction_groups whole (c ∷ fraction) s = groups_end whole (c ∷ fraction) (currency_end s)

abbrev pub groups_from : Text → Text → Option Groups
groups_from [] s = none
groups_from (c ∷ whole) [] = none
groups_from (c ∷ whole) (d ∷ s) =
    if d == b'.'
    then fraction_groups (c ∷ whole) (span_digits s).0 (span_digits s).1
    else groups_end (c ∷ whole) [] (currency_end (d ∷ s))

unfoldable pub match_literal : Text → Option Groups
match_literal token = groups_from (span_digits token).0 (span_digits token).1

-- `amount` of the result
abbrev pub amount_text : Text → Text → Text
amount_text whole [] = whole
amount_text whole (c ∷ fraction) = whole ++ b'.' ∷ (c ∷ fraction)

abbrev pub check_scale : Groups → ℕ → Result MoneyError (Option (Text × Text))
check_scale g exp =
    if length g.fraction == exp
    then ok (some (amount_text g.whole g.fraction, g.currency))
    else err literal_scale

abbrev pub literal_of : Option Groups → Result MoneyError (Option (Text × Text))
literal_of none = ok none
literal_of (some g) = do exp ← exponent g.currency; check_scale g exp

-- `parse_money_literal`: the amount and the currency
unfoldable pub parse_money_literal : Text → Result MoneyError (Option (Text × Text))
parse_money_literal token = literal_of (match_literal token)
