-- ===== src/Condition/Instant/Bounds.antt =====
-- impl/lnpl/condition.py: the values of `encode_instant` are far inside the 64-bit range.
use linkly.Base.{
  ℕ, ◌^◌, ◌≤◌, ◌<◌, ◌≡◌, ◌≢◌, refl, sym, Bool, ◌||◌, ◌==◌, Option, true, false, none, some, ◌∷◌, [],
  all, if◌then◌else◌, arith, Bool-cases, inl, inr,
}
use linkly.Base.Text.{Text, int_from, is_digit}
use linkly.Base.Int.{ℤ, pos_part, neg_part, ◌+ℤ◌, ◌-ℤ◌, in_int64}
use linkly.Base.Reader.{read_digits, skip, Reads, some-Reads, chain-Reads, read_digits-beyond}
use linkly.Base.Result.{ok, err}
use linkly.Condition.Syntax.{instant_range}
use linkly.Condition.Parse.{Parsed}
use linkly.Condition.Instant.{
  Moment, Zone, zulu, offset, dated, skip_t, timed, read_shape, read_fraction, numeric_zone,
  skip_colon, at_end, read_zone, front_digits, fraction_of, match_instant, millis_of, is_leap,
  days_before_month, days_before_year, month_ordinal, moment_ms, shifted, is_month, in_ranges,
  encode_groups, encode_match, encode_instant, looks_like_instant,
}

dated-year : (s : Text) → Reads (λ r. r.0.0 < 10000) (dated s)
dated-year s = chain-Reads _ (read_digits 0 4 s) _ (λ year e.
    chain-Reads _ (skip b'-' year.1) _ (λ s2 e2. chain-Reads _ (read_digits 0 2 s2) _ (λ month e3.
      chain-Reads _ (skip b'-' month.1) _ (λ s4 e4.
        chain-Reads _ (read_digits 0 2 s4) _
          (λ day e5. some-Reads _ _ (read_digits-beyond 4 0 0 s year.1 year.0 (omega arith) e))))))

read_shape-year : (s : Text) → Reads (λ r. r.0.year < 10000) (read_shape s)
unfolding read_shape
read_shape-year s = chain-Reads _ (dated s) _ (λ date e.
    chain-Reads _ (skip_t date.1) _
      (λ s2 e2. chain-Reads _ (timed s2) _ (λ time e3. some-Reads _ _ (dated-year s date e))))

abbrev SmallZone : Zone → Type 0
SmallZone zulu = Unit
SmallZone (offset plus h m) = (h < 100) × (m < 100)

numeric_zone-Small : (plus : Bool) (s : Text) → Reads SmallZone (numeric_zone plus s)
numeric_zone-Small plus s = chain-Reads _ (read_digits 0 2 s) _ (λ hours e.
    chain-Reads _ (read_digits 0 2 (skip_colon hours.1)) _ (λ minutes f.
      ended-Small plus hours.0 minutes.0 (at_end minutes.1)
        (read_digits-beyond 2 0 0 s hours.1 hours.0 (omega arith) e)
        (read_digits-beyond 2 0 0 _ minutes.1 minutes.0 (omega arith) f)))
  where
    ended-Small :
        (plus : Bool) (h m : ℕ) (ended : Bool)
        → h < 100
        → m < 100
        → Reads SmallZone (if ended then some (offset plus h m) else none)
    ended-Small plus h m true hh hm zone e = some-Reads SmallZone (offset plus h m) (hh, hm) zone e
    ended-Small plus h m false hh hm zone e = cc

read_zone-Small : (s : Text) → Reads SmallZone (read_zone s)
unfolding read_zone
read_zone-Small [] zone e = cc
read_zone-Small (c ∷ s) zone e = elim (Bool-cases (c == b'Z' || c == b'z')) [
  | inl is_z ↦ elim (Bool-cases (at_end s)) [
    | inl ended ↦ let made : zulu ≡ zone = cc (rw (is_z, ended) at e) in rw (sym made) tt
    | inr more ↦ cc (rw (is_z, more) at e)
  ]
  | inr no_z ↦ elim (Bool-cases (c == b'+' || c == b'-')) [
    | inl signed ↦ numeric_zone-Small (c == b'+') s zone (rw (no_z, signed) at e)
    | inr other ↦ cc (rw (no_z, other) at e)
  ]
]

front_digits-all : (s : Text) → all is_digit (front_digits s).0 ≡ true
unfolding front_digits
front_digits-all [] = refl
front_digits-all (c ∷ s) = ground (arith, front_digits-all s)

read_fraction-all : (s : Text) → all is_digit (read_fraction s).0 ≡ true
unfolding read_fraction
read_fraction-all [] = refl
read_fraction-all (c ∷ s) = elim (Bool-cases (c == b'.')) [
  | inl dot ↦ rw dot (fraction-all (c ∷ s) (front_digits s) (front_digits-all s))
  | inr other ↦ rw other refl
]
  where
    fraction-all :
        (s : Text) (parts : Text × Text)
        → all is_digit parts.0 ≡ true
        → all is_digit (fraction_of s parts).0 ≡ true
    fraction-all s ([], rest) h = refl
    fraction-all s (c ∷ digits, rest) h = h

millis_of-bound : (s : Text) → all is_digit s ≡ true → millis_of s < 1000
unfolding millis_of int_from is_digit
millis_of-bound [] h = omega arith
millis_of-bound (a ∷ []) h = ground arith
millis_of-bound (a ∷ b ∷ []) h = ground arith
millis_of-bound (a ∷ b ∷ c ∷ s) h = ground arith

days_before_month-bound : (leap : Bool) (m : ℕ) → days_before_month leap m ≤ 335
unfolding days_before_month
days_before_month-bound leap m = ground arith

years-bound : (y : ℕ) → y < 10000 → days_before_year y < 3652059
unfolding days_before_year
years-bound y h = omega (arith, h)

ranges :
    (t : Moment)
    → in_ranges t ≡ true
    → (t.day ≤ 31) × (t.hour ≤ 23) × (t.minute ≤ 59) × (t.second ≤ 60)
unfolding in_ranges
ranges t h = ground arith

-- The milliseconds from the day before year 1, where the fields are in their ranges.
moment_ms-bound :
    (t : Moment) (millis : ℕ)
    → t.year < 10000
    → in_ranges t ≡ true
    → millis < 1000
    → moment_ms t millis < 400000000000000
unfolding moment_ms month_ordinal
moment_ms-bound t millis hy hr hm =
    let (hd, hh, hmi, hs) = ranges t hr in
    omega (
      arith,
      hm,
      hd,
      hh,
      hmi,
      hs,
      days_before_month-bound (is_leap t.year) t.month,
      years-bound t.year hy,
    )

-- Milliseconds that an `int64` holds with room to spare.
abbrev pub IsNear : ℤ → Type 0
IsNear n = (pos_part n < 2 ^ 50) × (neg_part n < 2 ^ 50)

shifted-IsNear :
    (zone : Zone) (n : ℕ) → SmallZone zone → n < 400000000000000 → IsNear (shifted zone n)
unfolding shifted ◌+ℤ◌ ◌-ℤ◌
shifted-IsNear zulu n h hn = ground arith
shifted-IsNear (offset true h m) n (hh, hm) hn = ground arith
shifted-IsNear (offset false h m) n (hh, hm) hn = ground arith

near-in_int64 : (n : ℤ) → IsNear n → in_int64 n ≡ true
unfolding in_int64
near-in_int64 n h = ground (arith, h.0, h.1)

-- A value near the epoch, or an exception other than the one for values out of the 64-bit range.
abbrev pub StaysNear : Parsed ℤ → Type 0
StaysNear (ok n) = IsNear n
StaysNear (err e) = e ≢ instant_range

encode_groups-StaysNear :
    (t : Moment) (millis : ℕ) (zone : Zone)
    → t.year < 10000
    → SmallZone zone
    → millis < 1000
    → StaysNear (encode_groups t millis zone)
unfolding encode_groups
encode_groups-StaysNear t millis zone hy hz hm = elim (Bool-cases (is_month t)) [
  | inr no_month ↦ rw no_month (λ e. cc)
  | inl month ↦ elim (Bool-cases (in_ranges t)) [
    | inr outside ↦ rw (month, outside) (λ e. cc)
    | inl inside ↦
        let near = shifted-IsNear zone _ hz (moment_ms-bound t millis hy inside hm) in
        rw (month, inside, near-in_int64 _ near) near
  ]
]

encode_match-StaysNear :
    (raw : Text) (found : Option (Moment × Text × Zone))
    → found ≡ match_instant raw
    → StaysNear (encode_match found raw)
unfolding match_instant
encode_match-StaysNear raw none e = elim (Bool-cases (looks_like_instant raw)) [
  | inl shaped ↦ rw shaped (λ e. cc)
  | inr shapeless ↦ rw shapeless (λ e. cc)
]
encode_match-StaysNear raw (some (t, fraction, zone)) e =
    let facts =
      chain-Reads (λ g. (g.0.year < 10000) × SmallZone g.2 × (millis_of g.1 < 1000))
        (read_shape raw) _
        (λ shape f. chain-Reads _ (read_zone (read_fraction shape.1).1) _ (λ zone g.
          some-Reads _ _ (
            read_shape-year raw shape f,
            read_zone-Small _ zone g,
            millis_of-bound _ (read_fraction-all shape.1),
          )))
        (t, fraction, zone) (sym e) in
    encode_groups-StaysNear t (millis_of fraction) zone facts.0 facts.1 facts.2

-- Whatever the text, encode_instant returns a value that is less than 2^50 ms from the epoch, or raises
-- another exception than the one for values out of the 64-bit range.
pub encode_instant-StaysNear : (raw : Text) → StaysNear (encode_instant raw)
unfolding encode_instant
encode_instant-StaysNear raw = encode_match-StaysNear raw (match_instant raw) refl
