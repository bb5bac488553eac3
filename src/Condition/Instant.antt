-- ===== src/Condition/Instant.antt =====
-- impl/lnpl/condition.py: `INSTANT_RE`, `is_instant_text`, `looks_like_instant`, `encode_instant` and
-- `decode_instant`, and what these use of Python's `calendar` and `datetime`.
pub mod Bounds
pub mod Civil
pub mod Decode
use linkly.Base.{
  ℕ, ◌+◌, ◌-◌, ◌*◌, ◌/◌, ◌%◌, ◌≡◌, refl, Bool, true, false, ◌&&◌, ◌||◌, not, Option, none, some,
  List, [], ◌∷◌, ◌++◌, ltb, leb, ◌==◌, if◌then◌else◌,
}
use linkly.Base.Text.{Text, codes, is_digit, int_of}
use linkly.Base.Int.{ℤ, pos, negsuc, sub_ℕ, ◌+ℤ◌, ◌-ℤ◌, in_int64}
use linkly.Base.Reader.{◌>>=◌, read_digits, skip, two_digits, three_digits, four_digits}
use linkly.Base.Result.{Result, ok, err}
use linkly.Condition.Syntax.{
  ConditionError, not_date_time, no_zone, invalid_date, invalid_date_time, instant_range,
  year_range,
}
use linkly.Condition.Parse.{Parsed}

-- The groups 1 to 6 of INSTANT_RE.
pub record Moment : Type 0 where
  pub year : ℕ
  pub month : ℕ
  pub day : ℕ
  pub hour : ℕ
  pub minute : ℕ
  pub second : ℕ

-- The groups 7 to 11: the digits of the fraction, and either `Z` or a sign with hours and minutes.
pub data Zone : Type 0 where
  zulu : Zone
  offset : Bool → ℕ → ℕ → Zone

-- `[Tt ]`
unfoldable pub skip_t : Text → Option Text
skip_t [] = none
skip_t (c ∷ s) = if c == b'T' || c == b't' || c == b' ' then some s else none

abbrev pub dated : Text → Option ((ℕ × ℕ × ℕ) × Text)
dated s = do
  (year, s) ← read_digits 0 4 s
  s ← skip b'-' s
  (month, s) ← read_digits 0 2 s
  s ← skip b'-' s
  (day, s) ← read_digits 0 2 s
  some ((year, month, day), s)

abbrev pub timed : Text → Option ((ℕ × ℕ × ℕ) × Text)
timed s = do
  (hour, s) ← read_digits 0 2 s
  s ← skip b':' s
  (minute, s) ← read_digits 0 2 s
  s ← skip b':' s
  (second, s) ← read_digits 0 2 s
  some ((hour, minute, second), s)

-- _INSTANT_SHAPE_RE, with the groups, and the text behind the match
unfoldable pub read_shape : Text → Option (Moment × Text)
read_shape s = do
  ((y, mo, d), s) ← dated s
  s ← skip_t s
  ((h, mi, sec), s) ← timed s
  some (record { year = y; month = mo; day = d; hour = h; minute = mi; second = sec }, s)

-- `\d*`
unfoldable pub front_digits : Text → Text × Text
front_digits [] = ([], [])
front_digits (c ∷ s) =
    let rest = front_digits s in if is_digit c then (c ∷ rest.0, rest.1) else ([], c ∷ s)

-- `(\.\d+)?`: the digits, which are none where the group is absent
abbrev pub fraction_of : Text → Text × Text → Text × Text
fraction_of s ([], rest) = ([], s)
fraction_of s (c ∷ digits, rest) = (c ∷ digits, rest)

unfoldable pub read_fraction : Text → Text × Text
read_fraction [] = ([], [])
read_fraction (c ∷ s) = if c == b'.' then fraction_of (c ∷ s) (front_digits s) else ([], c ∷ s)

-- `$`, which a newline may follow
unfoldable pub at_end : Text → Bool
at_end [] = true
at_end (c ∷ []) = c == 10
at_end _ = false

-- `:?`
unfoldable pub skip_colon : Text → Text
skip_colon [] = []
skip_colon (c ∷ s) = if c == b':' then s else c ∷ s

abbrev pub numeric_zone : Bool → Text → Option Zone
numeric_zone plus s = do
  (hours, s) ← read_digits 0 2 s
  (minutes, s) ← read_digits 0 2 (skip_colon s)
  if at_end s then some (offset plus hours minutes) else none

-- `(?:(Z|z)|([+-])(\d{2}):?(\d{2}))$`
unfoldable pub read_zone : Text → Option Zone
read_zone [] = none
read_zone (c ∷ s) =
    if c == b'Z' || c == b'z'
    then (if at_end s then some zulu else none)
    else if c == b'+' || c == b'-'
    then numeric_zone (c == b'+') s
    else none

-- INSTANT_RE: the groups
unfoldable pub match_instant : Text → Option (Moment × Text × Zone)
match_instant raw = do
  (moment, s) ← read_shape raw
  zone ← read_zone (read_fraction s).1
  some (moment, (read_fraction s).0, zone)

abbrev pub matched {ℓ} : {A : Type ℓ} → Option A → Bool
matched none = false
matched (some _) = true

-- `is_instant_text`, of a str
unfoldable pub is_instant_text : Text → Bool
is_instant_text raw = matched (match_instant raw)

-- `looks_like_instant`, of a str
unfoldable pub looks_like_instant : Text → Bool
looks_like_instant raw = matched (read_shape raw)

-- `calendar.isleap`
unfoldable pub is_leap : ℕ → Bool
is_leap y = y % 4 == 0 && (not (y % 100 == 0) || y % 400 == 0)

-- The days of a leap year or another year before its month, as in `datetime`.
unfoldable pub days_before_month : Bool → ℕ → ℕ
days_before_month leap m =
    let extra = if leap then 1 else 0 in
    if leb m 1
    then 0
    else if m == 2
    then 31
    else if m == 3
    then 59 + extra
    else if m == 4
    then 90 + extra
    else if m == 5
    then 120 + extra
    else if m == 6
    then 151 + extra
    else if m == 7
    then 181 + extra
    else if m == 8
    then 212 + extra
    else if m == 9
    then 243 + extra
    else if m == 10
    then 273 + extra
    else if m == 11
    then 304 + extra
    else 334 + extra

unfoldable pub days_before_year : ℕ → ℕ
days_before_year y = (y - 1) * 365 + (y - 1) / 4 - (y - 1) / 100 + (y - 1) / 400

-- `date(year, month, 1).toordinal()`, where that is a date
unfoldable pub month_ordinal : ℕ → ℕ → ℕ
month_ordinal y m = days_before_year y + days_before_month (is_leap y) m + 1

-- `date(1970, 1, 1).toordinal()`
abbrev pub epoch_ordinal : ℕ
epoch_ordinal = 719163

-- `_ord2ymd` of `datetime`: the month and the day of the day of a year that r days precede
unfoldable pub month_day : Bool → ℕ → ℕ × ℕ
month_day leap r =
    let m = (r + 50) / 32 in
    let before = days_before_month leap m in
    if leb before r then (m, r - before + 1) else (m - 1, r - days_before_month leap (m - 1) + 1)

abbrev pub with_year : ℕ → ℕ × ℕ → ℕ × ℕ × ℕ
with_year y (m, d) = (y, m, d)

-- The date of n400 times 400 years, n100 times 100, n4 times 4, n1 years and r days.
unfoldable pub date_of : ℕ → ℕ → ℕ → ℕ → ℕ → ℕ × ℕ × ℕ
date_of n400 n100 n4 n1 r =
    let year = n400 * 400 + 1 + n100 * 100 + n4 * 4 + n1 in
    if n1 == 4 || n100 == 4
    then (year - 1, 12, 31)
    else with_year year (month_day (n1 == 3 && (not (n4 == 24) || n100 == 3)) r)

-- `_ord2ymd`
unfoldable pub civil : ℕ → ℕ × ℕ × ℕ
civil ordinal =
    let n = ordinal - 1 in
    let r400 = n % 146097 in
    let r100 = r400 % 36524 in
    let r4 = r100 % 1461 in date_of (n / 146097) (r400 / 36524) (r100 / 1461) (r4 / 365) (r4 % 365)

-- The milliseconds of a day, and those from the day before year 1 to the epoch.
abbrev pub day_ms : ℕ
day_ms = 86400000

abbrev pub epoch_ms : ℕ
epoch_ms = epoch_ordinal * day_ms

-- `int((frac or ".0")[1:].ljust(3, "0")[:3])`
unfoldable pub millis_of : Text → ℕ
millis_of [] = 0
millis_of (a ∷ []) = int_of (a ∷ 48 ∷ 48 ∷ [])
millis_of (a ∷ b ∷ []) = int_of (a ∷ b ∷ 48 ∷ [])
millis_of (a ∷ b ∷ c ∷ s) = int_of (a ∷ b ∷ c ∷ [])

-- The milliseconds since the day before year 1, and `total` without the offset. `timegm` is the sum
-- of the ordinal and the day, whatever the day is.
unfoldable pub moment_ms : Moment → ℕ → ℕ
moment_ms t millis =
    (month_ordinal t.year t.month + t.day - 1) * day_ms
    + (t.hour * 3600 + t.minute * 60 + t.second) * 1000
    + millis

-- `total`, from the offset on
unfoldable pub shifted : Zone → ℕ → ℤ
shifted zulu n = sub_ℕ n epoch_ms
shifted (offset plus h m) n =
    if plus
    then sub_ℕ n epoch_ms -ℤ pos ((h * 3600 + m * 60) * 1000)
    else sub_ℕ n epoch_ms +ℤ pos ((h * 3600 + m * 60) * 1000)

-- `date(year, month, 1)` is a date.
unfoldable pub is_month : Moment → Bool
is_month t = leb 1 t.year && leb 1 t.month && leb t.month 12

-- The test of the ranges, where the month is one.
unfoldable pub in_ranges : Moment → Bool
in_ranges t = leb 1 t.day && leb t.day 31 && leb t.hour 23 && leb t.minute 59 && leb t.second 60

-- `encode_instant`, from the groups on
unfoldable pub encode_groups : Moment → ℕ → Zone → Parsed ℤ
encode_groups t millis zone =
    let total = shifted zone (moment_ms t millis) in
    if not (is_month t)
    then err invalid_date
    else if not (in_ranges t)
    then err invalid_date_time
    else if in_int64 total
    then ok total
    else err instant_range

abbrev pub encode_match : Option (Moment × Text × Zone) → Text → Parsed ℤ
encode_match none raw = if looks_like_instant raw then err no_zone else err not_date_time
encode_match (some (t, fraction, zone)) raw = encode_groups t (millis_of fraction) zone

-- `encode_instant`, of a str
unfoldable pub encode_instant : Text → Parsed ℤ
encode_instant raw = encode_match (match_instant raw) raw

-- The format of `decode_instant`, for a time of day in milliseconds
abbrev pub instant_text : ℕ × ℕ × ℕ → ℕ → Text
instant_text (y, m, d) t =
    four_digits y
    ++ b'-'
      ∷ (two_digits m
          ++ b'-'
            ∷ (two_digits d
                ++ b'T'
                  ∷ (two_digits (t / 3600000)
                      ++ b':'
                        ∷ (two_digits (t / 60000 % 60)
                            ++ b':'
                              ∷ (two_digits (t / 1000 % 60)
                                  ++ b'.' ∷ (three_digits (t % 1000) ++ b'Z' ∷ []))))))

-- The last ordinal of a `datetime`; the first is 1.
abbrev pub max_ordinal : ℕ
max_ordinal = 3652059

-- `decode_instant`, of an int: n counts the milliseconds from the day before year 1
unfoldable pub decode_from : ℤ → Parsed Text
decode_from (negsuc n) = err year_range
decode_from (pos n) =
    if leb day_ms n && ltb n ((max_ordinal + 1) * day_ms)
    then ok (instant_text (civil (n / day_ms)) (n % day_ms))
    else err year_range

unfoldable pub decode_instant : ℤ → Parsed Text
decode_instant ms = decode_from (ms +ℤ pos epoch_ms)
