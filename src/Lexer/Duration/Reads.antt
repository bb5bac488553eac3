-- ===== src/Lexer/Duration/Reads.antt =====
-- impl/lnpl/lexer.py: which tokens are durations, and what they are worth.
use mathlib.Core.Option
use linkly.Base.{
  ℕ, ◌*◌, ◌≤◌, ◌≡◌, ◌↔◌, refl, sym, ap, ◌∙◌, inl, inr, true, false, Option, none, some, List, [],
  ◌∷◌, ◌++◌, arith, ltb, if◌then◌else◌, Bool-cases, Option-cases, all, append-nil,
}
use linkly.Base.Result.{Result, ok, err}
use linkly.Base.Text.{
  Text, codes, all_digits, is_digit, int_of, cut_suffix, same_text, same_text→eq,
}
use linkly.Lexer.Words.{int64_max}
use linkly.Lexer.Duration.{
  DurationUnit, millis, secs, mins, hours, days, unit_text, unit_ms, duration_scan, unit_head,
  is_duration_in, is_duration, DurationError, overflow, duration_in, duration_ms_or_none,
}

-- Digits do not end a suffix that begins with another character.
cut_suffix-digits :
    (x : ℕ) (u head t : Text)
    → is_digit x ≡ false
    → all is_digit head ≡ true
    → cut_suffix (x ∷ u) (head ++ t) ≡ Option.map (λ (w : Text). head ++ w) (cut_suffix (x ∷ u) t)
unfolding cut_suffix is_digit
cut_suffix-digits x u [] t nx hs = ground arith
cut_suffix-digits x u (c ∷ head) t nx hs = ground (arith, cut_suffix-digits x u head t)

-- What cut_suffix finds is a suffix.
pub cut_suffix→eq : (u t : Text) {head : Text} → cut_suffix u t ≡ some head → t ≡ head ++ u
unfolding cut_suffix
cut_suffix→eq u [] e = ground (arith, same_text→eq [] u)
cut_suffix→eq u (c ∷ t) {head} e = elim (Bool-cases (same_text (c ∷ t) u)) [
  | inl here ↦ ground (arith, same_text→eq (c ∷ t) u)
  | inr there ↦
      let (w, found, whole) = (Option.map-eq-some_iff _ _).0 (rw (there, cut_suffix) at e) in
      rw (← whole) (ap (λ (r : Text). c ∷ r) (cut_suffix→eq u t found))
]

digits-all : (head : Text) → all_digits head ≡ true → all is_digit head ≡ true
unfolding all_digits
digits-all [] e = refl
digits-all (c ∷ head) e = e

-- What a unit test reads off digits and a rest that it can see through.
after_digits : DurationUnit → Text → Text → Option Text
unfolding unit_head
after_digits v head t = elim (cut_suffix (unit_text v) t) [
  | none ↦ none
  | some w ↦ if all_digits (head ++ w) then some (head ++ w) else none
]

join_found :
    (head : Text) (o : Option Text)
    → ◌≡◌ {A = Option Text}
        (elim (Option.map (λ (w : Text). head ++ w) o) [
          | none ↦ none
          | some w ↦ if all_digits w then some w else none
        ])
        (elim o [
          | none ↦ none
          | some w ↦ if all_digits (head ++ w) then some (head ++ w) else none
        ])
join_found head none = refl
join_found head (some w) = refl

unit_head-digits :
    (v : DurationUnit) (head t : Text)
    → all is_digit head ≡ true
    → unit_head (head ++ t) v ≡ after_digits v head t
unfolding after_digits is_digit
unit_head-digits millis head t h =
    rw (cut_suffix-digits b'm' (codes "s") head t refl h, unit_head) (join_found head _)
unit_head-digits secs head t h =
    rw (cut_suffix-digits b's' [] head t refl h, unit_head) (join_found head _)
unit_head-digits mins head t h =
    rw (cut_suffix-digits b'm' [] head t refl h, unit_head) (join_found head _)
unit_head-digits hours head t h =
    rw (cut_suffix-digits b'h' [] head t refl h, unit_head) (join_found head _)
unit_head-digits days head t h =
    rw (cut_suffix-digits b'd' [] head t refl h, unit_head) (join_found head _)

-- The outcome for a count of units.
abbrev pub count_of_units : DurationUnit → ℕ → Result DurationError (Option ℕ)
count_of_units u n =
    if ltb int64_max (n * unit_ms u) then err overflow else ok (some (n * unit_ms u))

duration_in-hit :
    (u : DurationUnit) (us : List DurationUnit) (tok : Text) {head : Text}
    → unit_head tok u ≡ some head
    → duration_in (u ∷ us) tok ≡ count_of_units u (int_of head)
unfolding duration_in
duration_in-hit u us tok e = rw (e, duration_in)

duration_in-miss :
    (u : DurationUnit) (us : List DurationUnit) (tok : Text)
    → unit_head tok u ≡ none
    → duration_in (u ∷ us) tok ≡ duration_in us tok
unfolding duration_in
duration_in-miss u us tok e = rw (e, duration_in)

module _ (head : Text) (numeric : all_digits head ≡ true) where
  unit_head_self : (u : DurationUnit) → unit_head (head ++ unit_text u) u ≡ some head
  unfolding after_digits cut_suffix
  unit_head_self millis =
      rw (unit_head-digits millis head (codes "ms") (digits-all head numeric), append-nil, numeric)
  unit_head_self secs =
      rw (unit_head-digits secs head (codes "s") (digits-all head numeric), append-nil, numeric)
  unit_head_self mins =
      rw (unit_head-digits mins head (codes "m") (digits-all head numeric), append-nil, numeric)
  unit_head_self hours =
      rw (unit_head-digits hours head (codes "h") (digits-all head numeric), append-nil, numeric)
  unit_head_self days =
      rw (unit_head-digits days head (codes "d") (digits-all head numeric), append-nil, numeric)

  miss :
      (v u : DurationUnit)
      → cut_suffix (unit_text v) (unit_text u) ≡ none
      → unit_head (head ++ unit_text u) v ≡ none
  unfolding after_digits
  miss v u e =
      unit_head-digits v head (unit_text u) (digits-all head numeric) ∙ rw (e, after_digits)

  -- Digits followed by a unit are that many units, or the overflow.
  pub duration_ms_or_none-digits :
      (u : DurationUnit)
      → duration_ms_or_none (head ++ unit_text u) ≡ count_of_units u (int_of head)
  unfolding duration_ms_or_none cut_suffix
  duration_ms_or_none-digits millis = duration_in-hit millis _ _ (unit_head_self millis)
  duration_ms_or_none-digits secs =
      duration_in-miss millis _ _ (miss millis secs refl)
      ∙ duration_in-hit secs _ _ (unit_head_self secs)
  duration_ms_or_none-digits mins =
      duration_in-miss millis _ _ (miss millis mins refl)
      ∙ duration_in-miss secs _ _ (miss secs mins refl)
      ∙ duration_in-hit mins _ _ (unit_head_self mins)
  duration_ms_or_none-digits hours =
      duration_in-miss millis _ _ (miss millis hours refl)
      ∙ duration_in-miss secs _ _ (miss secs hours refl)
      ∙ duration_in-miss mins _ _ (miss mins hours refl)
      ∙ duration_in-hit hours _ _ (unit_head_self hours)
  duration_ms_or_none-digits days =
      duration_in-miss millis _ _ (miss millis days refl)
      ∙ duration_in-miss secs _ _ (miss secs days refl)
      ∙ duration_in-miss mins _ _ (miss mins days refl)
      ∙ duration_in-miss hours _ _ (miss hours days refl)
      ∙ duration_in-hit days _ _ (unit_head_self days)

-- A unit test that succeeds has read digits and the unit.
unit_head→eq :
    (u : DurationUnit) (tok : Text) {head : Text}
    → unit_head tok u ≡ some head
    → (tok ≡ head ++ unit_text u) × (all_digits head ≡ true)
unfolding unit_head
unit_head→eq u tok {head} e = elim (Option-cases (cut_suffix (unit_text u) tok)) [
  | inl missed ↦ ground arith
  | inr (w, found) ↦ ground (arith, cut_suffix→eq (unit_text u) tok found)
]

-- `tok` is digits and a unit that are worth `n` milliseconds.
pub record IsWorth (tok : Text) (n : ℕ) : Type 0 where
  pub digits : Text
  pub unit : DurationUnit
  pub spelled : tok ≡ digits ++ unit_text unit
  pub numeric : all_digits digits ≡ true
  pub value : n ≡ int_of digits * unit_ms unit

duration_in_sound :
    (us : List DurationUnit) (tok : Text) (n : ℕ)
    → duration_in us tok ≡ ok (some n)
    → IsWorth tok n × (n ≤ int64_max)
duration_in_sound [] tok n e = unfold duration_in in cc e
duration_in_sound (u ∷ us) tok n e = elim (Option-cases (unit_head tok u)) [
  | inl missed ↦ duration_in_sound us tok n (sym (duration_in-miss u us tok missed) ∙ e)
  | inr (head, found) ↦
      let (spelled, numeric) = unit_head→eq u tok found in
      let counted = sym (duration_in-hit u us tok found) ∙ e in
      (
        record {
          digits = head;
          unit = u;
          spelled = spelled;
          numeric = numeric;
          value = ground (arith, counted);
        },
        ground (arith, counted),
      )
]

-- A token has a duration exactly when it is digits and a unit, worth at most 2^63 - 1 ms; the
-- duration is then their product.
pub duration_ms_or_none-eq-some_iff :
    (tok : Text) (n : ℕ)
    → (duration_ms_or_none tok ≡ ok (some n)) ↔ (IsWorth tok n × (n ≤ int64_max))
unfolding duration_ms_or_none
duration_ms_or_none-eq-some_iff tok n = (
  duration_in_sound duration_scan tok n,
  λ (w, fits).
      rw w.spelled (duration_ms_or_none-digits w.digits w.numeric w.unit ∙ ground (arith, w.value)),
)

is_duration_in_iff :
    (us : List DurationUnit) (tok : Text)
    → (is_duration_in us tok ≡ false) ↔ (duration_in us tok ≡ ok none)
unfolding is_duration_in duration_in
is_duration_in_iff [] tok = (λ _. refl, λ _. refl)
is_duration_in_iff (u ∷ us) tok = ground (arith, is_duration_in_iff us tok)

-- `is_duration` says yes exactly where `duration_ms_or_none` returns a value or overflows.
pub is_duration_iff : (tok : Text) → (is_duration tok ≡ false) ↔ (duration_ms_or_none tok ≡ ok none)
unfolding is_duration duration_ms_or_none
is_duration_iff tok = is_duration_in_iff duration_scan tok

unit_head-not_digit :
    (u : DurationUnit) (c : ℕ) (t : Text) → is_digit c ≡ false → unit_head (c ∷ t) u ≡ none
unfolding all_digits
unit_head-not_digit u c t other = elim (Option-cases (unit_head (c ∷ t) u)) [
  | inl missed ↦ missed
  | inr (head, found) ↦
      let (spelled, numeric) = unit_head→eq u (c ∷ t) found in
      absurd (starts_digit head spelled numeric)
]
  where
    starts_digit : (head : Text) → c ∷ t ≡ head ++ unit_text u → all_digits head ≡ true → ⊥
    starts_digit [] spelled numeric = cc numeric
    starts_digit (e ∷ head) spelled numeric = ground arith

duration_in-not_digit :
    (us : List DurationUnit) (c : ℕ) (t : Text)
    → is_digit c ≡ false
    → duration_in us (c ∷ t) ≡ ok none
duration_in-not_digit [] c t other = unfold duration_in in refl
duration_in-not_digit (u ∷ us) c t other =
    duration_in-miss u us (c ∷ t) (unit_head-not_digit u c t other)
    ∙ duration_in-not_digit us c t other

-- A token that does not begin with a digit is no duration.
pub duration-not_digit :
    (c : ℕ) (t : Text) → is_digit c ≡ false → duration_ms_or_none (c ∷ t) ≡ ok none
unfolding duration_ms_or_none
duration-not_digit c t other = duration_in-not_digit duration_scan c t other
