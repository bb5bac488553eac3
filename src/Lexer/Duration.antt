-- ===== src/Lexer/Duration.antt =====
-- impl/lnpl/lexer.py: `is_duration`, `duration_ms_or_none` and `parse_duration_ms`.
pub mod Reads
use linkly.Base.{
  ℕ, ◌*◌, ◌≡◌, refl, Bool, true, false, Option, none, some, List, [], ◌∷◌, ltb, if◌then◌else◌,
}
use linkly.Base.Result.{Result, ok, err}
use linkly.Base.Text.{Text, codes, all_digits, int_of, int_from, cut_suffix}
use linkly.Lexer.Words.{int64_max}

-- DURATION_UNIT_MS: the units.
pub data DurationUnit : Type 0 where
  millis secs mins hours days : DurationUnit

abbrev pub unit_text : DurationUnit → Text
unit_text millis = codes "ms"
unit_text secs = codes "s"
unit_text mins = codes "m"
unit_text hours = codes "h"
unit_text days = codes "d"

abbrev pub unit_ms : DurationUnit → ℕ
unit_ms millis = 1
unit_ms secs = 1000
unit_ms mins = 60000
unit_ms hours = 3600000
unit_ms days = 86400000

-- DURATION_SCAN: sorted by the length of the suffix, the longest first, and otherwise in order.
abbrev pub duration_scan : List DurationUnit
duration_scan = millis ∷ secs ∷ mins ∷ hours ∷ days ∷ []

-- The exceptions of the duration functions: OverflowError, and the two LexErrors.
pub data DurationError : Type 0 where
  overflow : DurationError
  lex_overflow : DurationError
  not_a_duration : DurationError

-- One turn of the loops: the digits in front of the unit, if `tok` is digits and then the unit.
unfoldable pub unit_head : Text → DurationUnit → Option Text
unit_head tok unit = elim (cut_suffix (unit_text unit) tok) [
  | none ↦ none
  | some head ↦ if all_digits head then some head else none
]

unfoldable pub is_duration_in : List DurationUnit → Text → Bool
is_duration_in [] tok = false
is_duration_in (unit ∷ units) tok =
    let rest = is_duration_in units tok in
    elim (unit_head tok unit) [ none ↦ rest | some head ↦ true ]

unfoldable pub is_duration : Text → Bool
is_duration tok = is_duration_in duration_scan tok

unfoldable pub duration_in : List DurationUnit → Text → Result DurationError (Option ℕ)
duration_in [] tok = ok none
duration_in (unit ∷ units) tok =
    let rest = duration_in units tok in
    elim (unit_head tok unit) [
      | none ↦ rest
      | some head ↦
          if ltb int64_max (int_of head * unit_ms unit)
          then err overflow
          else ok (some (int_of head * unit_ms unit))
    ]

unfoldable pub duration_ms_or_none : Text → Result DurationError (Option ℕ)
duration_ms_or_none tok = duration_in duration_scan tok

-- What `parse_duration_ms` makes of the outcome: an overflow is raised again as a LexError.
lex_duration : Result DurationError (Option ℕ) → Result DurationError ℕ
lex_duration (err e) = err lex_overflow
lex_duration (ok none) = err not_a_duration
lex_duration (ok (some value)) = ok value

unfoldable pub parse_duration_ms : Text → Result DurationError ℕ
unfolding lex_duration
parse_duration_ms tok = lex_duration (duration_ms_or_none tok)

three_seconds : parse_duration_ms (codes "3s") ≡ ok 3000
unfolding parse_duration_ms duration_ms_or_none duration_in unit_head cut_suffix all_digits int_from
three_seconds = refl
