-- ===== src/Money/Wire.antt =====
-- impl/lnpl/money.py and `_decode_money` of impl/lnpl/interp.py: the minor units of an amount.
use linkly.Base.{
  ℕ, zero, suc, ◌+◌, ◌-◌, ◌*◌, ◌≤◌, ◌≡◌, refl, sym, ap, ◌∙◌, Bool, true, false, ◌&&◌, some, [], ◌∷◌,
  ◌++◌, ◌==◌, if◌then◌else◌, arith, append-nil, all, all-append, length, length-append, &&_left,
  &&_right,
}
use linkly.Base.Result.{ok, err}
use linkly.Base.Text.{Text, is_digit, int_of, int_from, all_digits}
use linkly.Base.Decimal.{decimal, int_of-decimal, all_digits-decimal}
use linkly.Base.Int.{
  ℤ, pos, negsuc, pos_part, neg_part, signed, abs, ◌-ℤ◌, in_int64, IsInt64, in_int64_iff,
}
use linkly.Base.Json.{str}
use linkly.Money.{exponent, amount_text, outside_domain}
use linkly.Money.Number.{read_decimal-amount, read_decimal-negative}
use linkly.Money.Pairs.{
  finite, read_decimal, encode_number, encode_money, put_dot, put_zeros, place_dot, sign_text,
  decode_money,
}

minus-parts : (k : ℕ) → (pos_part (pos 0 -ℤ pos k) ≡ 0) × (neg_part (pos 0 -ℤ pos k) ≡ k)
unfolding ◌-ℤ◌
minus-parts k = (ground arith, ground arith)

-- A number with the places of its currency is encoded unless it is outside of the range.
pub encode_number-exact :
    (negative : Bool) (n k : ℕ) (currency : Text)
    → encode_number (some (finite negative n (pos 0 -ℤ pos k))) k currency ≡ (
        if in_int64 (signed negative n)
        then ok (signed negative n, currency)
        else err outside_domain)
unfolding encode_number
encode_number-exact negative n k currency =
    let (positive, places) = minus-parts k in
    let times_one : n * 1 ≡ n = omega arith in
    let same : (k == k) ≡ true = ground arith in rw (positive, places, times_one, same) refl

put_dot-split :
    (n : ℕ) (s : Text)
    → n ≤ length s
    → (w : Text) × (f : Text) × (put_dot n s ≡ w ++ b'.' ∷ f) × (w ++ f ≡ s) × (length w ≡ n)
unfolding put_dot
put_dot-split zero s h = ([], s, refl, refl, refl)
put_dot-split (suc n) [] h = absurd (omega (arith, h))
put_dot-split (suc n) (c ∷ s) h =
    let (w, f, dotted, whole, count) = put_dot-split n s (omega (arith, h)) in
    (c ∷ w, f, rw dotted refl, rw whole refl, ap (λ (k : ℕ). suc k) count)

put_zeros-eq :
    (m : ℕ) (s : Text)
    → all is_digit s ≡ true
    → (length (put_zeros m s) ≡ m + length s)
      × (all is_digit (put_zeros m s) ≡ true)
      × (int_of (put_zeros m s) ≡ int_of s)
unfolding put_zeros int_from is_digit
put_zeros-eq zero s h = (omega arith, h, refl)
put_zeros-eq (suc m) s h =
    let (count, digits, value) = put_zeros-eq m s h in (omega (arith, count), digits, value)

-- An amount that is spelled in plain digits with e places, worth n units.
record Placed (e n : ℕ) (text : Text) : Type 0 where
  first : ℕ
  whole : Text
  fraction : Text
  spelled : text ≡ amount_text (first ∷ whole) fraction
  whole_digits : all is_digit (first ∷ whole) ≡ true
  fraction_digits : all is_digit fraction ≡ true
  places : length fraction ≡ e
  value : int_of ((first ∷ whole) ++ fraction) ≡ n

split-Placed :
    (e n : ℕ) (s w f text : Text)
    → text ≡ w ++ b'.' ∷ f
    → w ++ f ≡ s
    → length s ≡ length w + suc e
    → 1 ≤ length w
    → all is_digit s ≡ true
    → int_of s ≡ n
    → Placed (suc e) n text
split-Placed e n s [] f text dotted whole count some_whole digits value =
    absurd (omega (arith, some_whole))
split-Placed e n s (c ∷ w) [] text dotted whole count some_whole digits value =
    absurd (omega (arith, count, length-append (c ∷ w) [], ap length whole))
split-Placed e n s (c ∷ w) (d ∷ f) text dotted whole count some_whole digits value =
    let each : (all is_digit (c ∷ w) && all is_digit (d ∷ f)) ≡ true =
      sym (all-append is_digit (c ∷ w) (d ∷ f)) ∙ ap (all is_digit) whole ∙ digits in
    record {
      first = c;
      whole = w;
      fraction = d ∷ f;
      spelled = dotted;
      whole_digits = &&_left _ (all is_digit (d ∷ f)) each;
      fraction_digits = &&_right (all is_digit (c ∷ w)) _ each;
      places = omega (arith, count, length-append (c ∷ w) (d ∷ f), ap length whole);
      value = ap int_of whole ∙ value;
    }

place_dot-Placed :
    (e n : ℕ) (c : ℕ) (s : Text)
    → all is_digit (c ∷ s) ≡ true
    → int_of (c ∷ s) ≡ n
    → Placed e n (place_dot e (c ∷ s))
unfolding place_dot
place_dot-Placed zero n c s digits value = record {
  first = c;
  whole = s;
  fraction = [];
  spelled = refl;
  whole_digits = digits;
  fraction_digits = refl;
  places = refl;
  value = ap int_of (append-nil (c ∷ s)) ∙ value;
}
place_dot-Placed (suc e) n c s digits value =
    let missing = suc (suc e) - length (c ∷ s) in
    let (count, padded_digits, padded_value) = put_zeros-eq missing (c ∷ s) digits in
    let padded = put_zeros missing (c ∷ s) in
    let (w, f, dotted, whole, front) = put_dot-split (length padded - suc e) padded (omega arith) in
    split-Placed e n padded w f _ dotted whole (omega (arith, count, front))
      (omega (arith, count, front)) padded_digits (padded_value ∙ value)

decimal-Placed : (e n : ℕ) → Placed e n (place_dot e (decimal n))
decimal-Placed e n = from-digits (decimal n) (all_digits-decimal n) (int_of-decimal n)
  where
    from-digits : (s : Text) → all_digits s ≡ true → int_of s ≡ n → Placed e n (place_dot e s)
    from-digits [] digits value = absurd (unfold all_digits in cc digits)
    from-digits (c ∷ s) digits value = place_dot-Placed e n c s (unfold all_digits in digits) value

Placed-reads :
    (e n : ℕ) (text : Text)
    → Placed e n text
    → (read_decimal text ≡ some (finite false n (pos 0 -ℤ pos e)))
      × (read_decimal (b'-' ∷ text) ≡ some (finite true n (pos 0 -ℤ pos e)))
Placed-reads e n text p =
    rw (p.spelled, sym p.value, sym p.places)
      (
        read_decimal-amount p.first p.whole p.fraction p.whole_digits p.fraction_digits,
        read_decimal-negative p.first p.whole p.fraction p.whole_digits p.fraction_digits,
      )

encode-decoded :
    (minor : ℤ) (e : ℕ) (currency : Text)
    → in_int64 minor ≡ true
    → encode_number (read_decimal (sign_text minor ++ place_dot e (decimal (abs minor)))) e currency
      ≡ ok (minor, currency)
encode-decoded (pos n) e currency inside =
    let plain : abs (pos n) ≡ n = omega arith in
    let no_sign : sign_text (pos n) ≡ [] = ground arith in
    rw (no_sign, plain, (Placed-reads e n _ (decimal-Placed e n)).0)
      (encode_number-exact false n e currency ∙ rw inside refl)
encode-decoded (negsuc n) e currency inside =
    let plain : abs (negsuc n) ≡ suc n = omega arith in
    let minus_sign : sign_text (negsuc n) ≡ b'-' ∷ [] = ground arith in
    let minus : signed true (suc n) ≡ negsuc n = ground arith in
    rw (minus_sign, plain, (Placed-reads e (suc n) _ (decimal-Placed e (suc n))).1)
      (encode_number-exact true (suc n) e currency ∙ rw (minus, inside) refl)

-- For an active currency and minor units in the 64-bit range, _decode_money returns an amount, and
-- encode_money reads it back as the same minor units.
pub encode_money-decode_money :
    (minor : ℤ) (currency : Text) (e : ℕ)
    → exponent currency ≡ ok e
    → IsInt64 minor
    → (amount : Text) × (decode_money minor currency ≡ ok amount)
      × (encode_money (str amount) (str currency) ≡ ok (minor, currency))
unfolding decode_money encode_money
encode_money-decode_money minor currency e scale inside = (
  sign_text minor ++ place_dot e (decimal (abs minor)),
  rw scale refl,
  rw scale (encode-decoded minor e currency ((in_int64_iff minor).1 inside)),
)
