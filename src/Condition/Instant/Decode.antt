-- ===== src/Condition/Instant/Decode.antt =====
-- impl/lnpl/condition.py: `encode_instant` reads what `decode_instant` writes.
use linkly.Base.{
  ℕ, ◌+◌, ◌-◌, ◌*◌, ◌/◌, ◌%◌, ◌≤◌, ◌<◌, ◌≡◌, refl, ◌∙◌, ap, ◌&&◌, true, some, [], ◌∷◌, ◌++◌, leb,
  arith, ltb,
}
use linkly.Base.Text.{Text, int_from, is_digit}
use linkly.Base.Int.{ℤ, pos, pos_part, neg_part, ◌+ℤ◌, sub_ℕ, in_int64}
use linkly.Base.Reader.{skip, three_digits, read-two_digits, read-four_digits}
use linkly.Base.Result.{ok}
use linkly.Condition.Instant.{
  Moment, days_before_year, month_ordinal, zulu, skip_t, read_shape, front_digits, read_fraction,
  at_end, read_zone, match_instant, millis_of, moment_ms, shifted, is_month, in_ranges,
  encode_groups, encode_instant, instant_text, decode_from, decode_instant, day_ms, epoch_ms, civil,
  max_ordinal,
}
use linkly.Condition.Instant.Civil.{IsDate, civil-IsDate}

abbrev moment : ℕ → ℕ → ℕ → ℕ → Moment
moment y m d t = record {
  year = y;
  month = m;
  day = d;
  hour = t / 3600000;
  minute = t / 60000 % 60;
  second = t / 1000 % 60;
}

read_fraction-digits :
    (n : ℕ)
    → n < 1000
    → read_fraction (b'.' ∷ (three_digits n ++ b'Z' ∷ [])) ≡ (three_digits n, b'Z' ∷ [])
unfolding read_fraction front_digits is_digit
read_fraction-digits n h = ground arith

match_instant-text :
    (y m d t : ℕ)
    → y < 10000
    → m < 100
    → d < 100
    → t < day_ms
    → match_instant (instant_text (y, m, d) t)
      ≡ some (moment y m d t, three_digits (t % 1000), zulu)
unfolding match_instant read_shape skip skip_t read_zone at_end
match_instant-text y m d t hy hm hd ht =
    rw
      (
        read-four_digits y _ hy,
        read-two_digits m _ hm,
        read-two_digits d _ hd,
        read-two_digits (t / 3600000) _ (omega (arith, ht)),
        read-two_digits (t / 60000 % 60) _ (omega arith),
        read-two_digits (t / 1000 % 60) _ (omega arith),
        read_fraction-digits (t % 1000) (omega arith),
      )
      refl

millis_of-digits : (n : ℕ) → n < 1000 → millis_of (three_digits n) ≡ n
unfolding millis_of int_from
millis_of-digits n h = omega (arith, h)

-- The milliseconds of a date at a time of day.
moment_ms-eq :
    (o y m d t : ℕ) → IsDate o y m d → moment_ms (moment y m d t) (t % 1000) ≡ o * day_ms + t
unfolding moment_ms
moment_ms-eq o y m d t h = omega (arith, h.counts)

encode-text :
    (o y m d t : ℕ)
    → IsDate o y m d
    → y < 10000
    → t < day_ms
    → encode_instant (instant_text (y, m, d) t) ≡ encode_groups (moment y m d t) (t % 1000) zulu
unfolding encode_instant
encode-text o y m d t h hy ht =
    rw
      (
        match_instant-text y m d t hy (omega (arith, h.last_month)) (omega (arith, h.last_day)) ht,
        millis_of-digits (t % 1000) (omega arith),
      )
      refl

encode_groups-moment :
    (o y m d t : ℕ)
    → IsDate o y m d
    → t < day_ms
    → o ≤ max_ordinal
    → encode_groups (moment y m d t) (t % 1000) zulu ≡ ok (sub_ℕ (o * day_ms + t) epoch_ms)
unfolding encode_groups is_month in_ranges shifted in_int64
encode_groups-moment o y m d t h ht ho =
    rw (moment_ms-eq o y m d t h)
      (ground (arith, h.first_year, h.first_month, h.last_month, h.first_day, h.last_day))

year-bound : (o y m d : ℕ) → IsDate o y m d → o ≤ max_ordinal → y < 10000
unfolding month_ordinal days_before_year
year-bound o y m d h ho = omega (arith, h.counts, h.first_day, ho)

-- An instant from year 1 to year 9999, in milliseconds since the epoch.
abbrev pub IsCivilMs : ℤ → Type 0
IsCivilMs ms = (neg_part ms ≤ 62135596800000) × (pos_part ms < 253402300800000)

lift-eq :
    (ms : ℤ)
    → IsCivilMs ms
    → (n : ℕ) × (ms +ℤ pos epoch_ms ≡ pos n)
      × (sub_ℕ n epoch_ms ≡ ms)
      × (day_ms ≤ n)
      × (n < (max_ordinal + 1) * day_ms)
unfolding ◌+ℤ◌
lift-eq ms h = (
  pos_part ms + epoch_ms - neg_part ms,
  ground (arith, h.0),
  ground (arith, h.0),
  ground (arith, h.0),
  ground (arith, h.0, h.1),
)

civil-encodes :
    (o t : ℕ)
    → 1 ≤ o
    → o ≤ max_ordinal
    → t < day_ms
    → encode_instant (instant_text (civil o) t) ≡ ok (sub_ℕ (o * day_ms + t) epoch_ms)
civil-encodes o t ho hm ht =
    let h = civil-IsDate o ho in
    encode-text o _ _ _ t h (year-bound o _ _ _ h hm) ht ∙ encode_groups-moment o _ _ _ t h ht hm

-- Every int of milliseconds from year 1 to year 9999 has a text by decode_instant, and encode_instant
-- reads that text as the same int.
pub encode_instant-decode_instant :
    (ms : ℤ)
    → IsCivilMs ms
    → (text : Text) × (decode_instant ms ≡ ok text) × (encode_instant text ≡ ok ms)
unfolding decode_instant decode_from
encode_instant-decode_instant ms h =
    let (n, lifted, back, low, high) = lift-eq ms h in
    let inside : (leb day_ms n && ltb n ((max_ordinal + 1) * day_ms)) ≡ true = ground arith in
    (
      instant_text (civil (n / day_ms)) (n % day_ms),
      rw (lifted, inside) refl,
      civil-encodes (n / day_ms) (n % day_ms) (omega (arith, low)) (omega (arith, high))
            (omega arith)
          ∙ ap (λ (k : ℕ). ok (sub_ℕ k epoch_ms)) (omega arith)
          ∙ ap ok back,
    )
