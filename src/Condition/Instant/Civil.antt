-- ===== src/Condition/Instant/Civil.antt =====
-- impl/lnpl/condition.py, Python's `datetime`: the date of an ordinal has that ordinal.
use linkly.Base.{
  ℕ, zero, suc, ◌+◌, ◌*◌, ◌≤◌, ◌<◌, ◌≡◌, refl, Bool, true, false, ◌&&◌, ◌||◌, not, leb, ◌==◌, arith,
  Bool-cases, &&_left, &&_right, inl, inr,
}
use linkly.Condition.Instant.{
  is_leap, days_before_month, days_before_year, month_ordinal, month_day, date_of, civil,
}

-- A test of the numbers below a bound.
all_below : ℕ → (ℕ → Bool) → Bool
all_below zero p = true
all_below (suc n) p = p n && all_below n p

all_below-holds : (n : ℕ) (p : ℕ → Bool) → all_below n p ≡ true → (k : ℕ) → k < n → p k ≡ true
unfolding all_below
all_below-holds zero p h k lt = absurd (omega (arith, lt))
all_below-holds (suc n) p h k lt = elim (Bool-cases (k == n)) [
  | inl same ↦ let here : k ≡ n = ground arith in rw here (&&_left (p n) (all_below n p) h)
  | inr other ↦ all_below-holds n p (&&_right (p n) (all_below n p) h) k (ground arith)
]

-- A month and a day that r days of the year precede.
fits_day : Bool → ℕ → Bool
fits_day leap r =
    let md = month_day leap r in
    days_before_month leap md.0 + md.1 == r + 1
    && leb 1 md.0
    && leb md.0 12
    && leb 1 md.1
    && leb md.1 31

plain_days : all_below 365 (fits_day false) ≡ true
unfolding all_below fits_day month_day days_before_month
plain_days = refl

leap_days : all_below 365 (fits_day true) ≡ true
unfolding all_below fits_day month_day days_before_month
leap_days = refl

-- The date of an ordinal, or one that may be.
pub record IsDate (ordinal y m d : ℕ) : Type 0 where
  pub first_year : 1 ≤ y
  pub first_month : 1 ≤ m
  pub last_month : m ≤ 12
  pub first_day : 1 ≤ d
  pub last_day : d ≤ 31
  pub counts : month_ordinal y m + d ≡ ordinal + 1

abbrev pub IsDateOf : ℕ → ℕ × ℕ × ℕ → Type 0
IsDateOf ordinal (y, m, d) = IsDate ordinal y m d

month_day-fits : (leap : Bool) (r : ℕ) → r < 365 → fits_day leap r ≡ true
month_day-fits true r lt = all_below-holds 365 (fits_day true) leap_days r lt
month_day-fits false r lt = all_below-holds 365 (fits_day false) plain_days r lt

-- The years before a year, by the cycles of the calendar.
days_before_year-eq :
    (a b c d : ℕ)
    → b ≤ 3
    → c ≤ 24
    → d ≤ 3
    → days_before_year (a * 400 + 1 + b * 100 + c * 4 + d)
      ≡ 146097 * a + 36524 * b + 1461 * c + 365 * d
unfolding days_before_year
days_before_year-eq a b c d hb hc hd = omega (arith, hb, hc, hd)

is_leap-eq :
    (a b c d : ℕ)
    → b ≤ 3
    → c ≤ 24
    → d ≤ 3
    → is_leap (a * 400 + 1 + b * 100 + c * 4 + d) ≡ (d == 3 && (not (c == 24) || b == 3))
unfolding is_leap
is_leap-eq a b c d hb hc hd = ground arith

fits-IsDate :
    (leap : Bool) (r y before : ℕ)
    → fits_day leap r ≡ true
    → 1 ≤ y
    → is_leap y ≡ leap
    → days_before_year y ≡ before
    → IsDate (before + r + 1) y (month_day leap r).0 (month_day leap r).1
unfolding fits_day month_ordinal
fits-IsDate leap r y before fits hy hl hb = record {
  first_year = hy;
  first_month = ground arith;
  last_month = ground arith;
  first_day = ground arith;
  last_day = ground arith;
  counts = rw (hl, hb) (ground arith);
}

date_of-IsDate :
    (a b c d r : ℕ)
    → b ≤ 3
    → c ≤ 24
    → d ≤ 3
    → r < 365
    → IsDateOf (146097 * a + 36524 * b + 1461 * c + 365 * d + r + 1) (date_of a b c d r)
unfolding date_of
date_of-IsDate a b c d r hb hc hd hr =
    let leap = d == 3 && (not (c == 24) || b == 3) in
    let usual : (d == 4 || b == 4) ≡ false = ground arith in
    rw usual (
      fits-IsDate leap r (a * 400 + 1 + b * 100 + c * 4 + d) _ (month_day-fits leap r hr)
        (omega arith) (is_leap-eq a b c d hb hc hd) (days_before_year-eq a b c d hb hc hd))

-- The last day of a year of 366 days.
last_day-IsDate :
    (ordinal y : ℕ)
    → 1 ≤ y
    → is_leap y ≡ true
    → days_before_year y + 366 ≡ ordinal
    → IsDate ordinal y 12 31
unfolding month_ordinal days_before_month
last_day-IsDate ordinal y hy hl e = record {
  first_year = hy;
  first_month = omega arith;
  last_month = omega arith;
  first_day = omega arith;
  last_day = omega arith;
  counts = rw hl (omega (arith, e));
}

last_of_cycle : (a : ℕ) → IsDateOf (146097 * a + 146096 + 1) (date_of a 4 0 0 0)
unfolding date_of is_leap days_before_year
last_of_cycle a = last_day-IsDate _ _ (omega arith) (ground arith) (omega arith)

last_of_four :
    (a b c r : ℕ)
    → b ≤ 3
    → c < 24
    → IsDateOf (146097 * a + 36524 * b + 1461 * c + 1460 + 1) (date_of a b c 4 r)
unfolding date_of is_leap days_before_year
last_of_four a b c r hb hc =
    last_day-IsDate _ _ (omega arith) (ground arith) (omega (arith, hb, hc))

cycles-IsDate :
    (o a b c d r : ℕ)
    → o ≡ 146097 * a + 36524 * b + 1461 * c + 365 * d + r + 1
    → r < 365
    → 365 * d + r < 1461
    → 1461 * c + 365 * d + r < 36524
    → 36524 * b + 1461 * c + 365 * d + r < 146097
    → IsDateOf o (date_of a b c d r)
cycles-IsDate o a b c d r e hr hd hc hb = elim (Bool-cases (b == 4)) [
  | inl cycle ↦
      let hb4 : b ≡ 4 = ground arith in
      let hc0 : c ≡ 0 = omega (arith, hb, hb4) in
      let hd0 : d ≡ 0 = omega (arith, hb, hb4) in
      let hr0 : r ≡ 0 = omega (arith, hb, hb4) in
      let eo : o ≡ 146097 * a + 146096 + 1 = omega (arith, e, hb4, hc0, hd0, hr0) in
      rw (eo, hb4, hc0, hd0, hr0) (last_of_cycle a)
  | inr no_cycle ↦
      let hb3 : b ≤ 3 = ground arith in
      elim (Bool-cases (d == 4)) [
        | inl four ↦
            let hd4 : d ≡ 4 = ground arith in
            let eo : o ≡ 146097 * a + 36524 * b + 1461 * c + 1460 + 1 = omega (arith, e, hd4, hd) in
            rw (eo, hd4) (last_of_four a b c r hb3 (omega (arith, hd4, hc)))
        | inr usual ↦ rw e (date_of-IsDate a b c d r hb3 (omega (arith, hc)) (ground arith) hr)
      ]
]

-- The date that `_ord2ymd` gives an ordinal has that ordinal.
pub civil-IsDate : (o : ℕ) → 1 ≤ o → IsDateOf o (civil o)
unfolding civil
civil-IsDate o h =
    cycles-IsDate o _ _ _ _ _ (omega (arith, h)) (omega arith) (omega arith) (omega arith)
      (omega arith)
