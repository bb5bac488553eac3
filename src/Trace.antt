-- ===== src/Trace.antt =====
-- impl/lnpl/tracecontext.py: the whole module.
pub mod Fields
pub mod Headers
pub mod Fresh
use linkly.Base.{
  ℕ, zero, suc, ◌+◌, ◌≡◌, Bool, true, false, ◌&&◌, ◌||◌, not, Option, none, some, List, [], ◌∷◌,
  ◌++◌, leb, ◌==◌, if◌then◌else◌, all, length,
}
use linkly.Base.Result.{Result, ok, err}
use linkly.Base.Text.{Text, codes, same_text}

-- What `parse_traceparent` returns.
pub record TraceContext : Type 0 where
  pub version : Text
  pub trace_id : Text
  pub parent_id : Text
  pub flags : Text

-- The `ValueError`s of `format_traceparent`.
pub data FormatError : Type 0 where
  bad_trace_id bad_span_id bad_flags : FormatError

-- `c in _HEX`
unfoldable pub is_hex : ℕ → Bool
is_hex c = (leb 48 c && leb c 57) || (leb 97 c && leb c 102)

-- `_is_lower_hex`
unfoldable pub is_lower_hex : Text → ℕ → Bool
is_lower_hex value n = length value == n && all is_hex value

-- The parts of a text whose first character was read.
abbrev pub extend_first : ℕ → List Text → List Text
extend_first c [] = (c ∷ []) ∷ []
extend_first c (part ∷ parts) = (c ∷ part) ∷ parts

-- `raw.split("-")`
unfoldable pub split_dash : Text → List Text
split_dash [] = [] ∷ []
split_dash (c ∷ s) = let rest = split_dash s in if c == b'-' then [] ∷ rest else extend_first c rest

-- `"0" * n`
abbrev pub zeros : ℕ → Text
zeros zero = []
zeros (suc n) = b'0' ∷ zeros n

-- The checks of `parse_traceparent` on the first four parts.
unfoldable pub is_accepted : TraceContext → Bool
is_accepted c =
    is_lower_hex c.version 2
    && is_lower_hex c.trace_id 32
    && is_lower_hex c.parent_id 16
    && is_lower_hex c.flags 2
    && not (same_text c.version (codes "ff"))
    && not (same_text c.trace_id (zeros 32))
    && not (same_text c.parent_id (zeros 16))

abbrev pub from_parts : List Text → Option TraceContext
from_parts (version ∷ trace_id ∷ parent_id ∷ flags ∷ rest) =
    let c : TraceContext = record {
      version = version;
      trace_id = trace_id;
      parent_id = parent_id;
      flags = flags;
    } in
    if is_accepted c then some c else none
from_parts _ = none

-- `parse_traceparent`, of a header value that is there
unfoldable pub parse_traceparent : Text → Option TraceContext
parse_traceparent [] = none
parse_traceparent (c ∷ s) = from_parts (split_dash (c ∷ s))

-- `format_traceparent`
unfoldable pub format_traceparent : Text → Text → Text → Result FormatError Text
format_traceparent trace_id span_id flags =
    if not (is_lower_hex trace_id 32)
    then err bad_trace_id
    else if not (is_lower_hex span_id 16)
    then err bad_span_id
    else if not (is_lower_hex flags 2)
    then err bad_flags
    else ok (codes "00-" ++ trace_id ++ codes "-" ++ span_id ++ codes "-" ++ flags)

-- The loops of `new_trace_id` and `new_span_id`: of the draws of `uuid4().hex`, from a place on, the first
-- that is not all zeros, and the place behind it; none where the fuel ran out. A span identifier takes 16
-- characters of a draw.
unfoldable pub first_live : (ℕ → Text) → Text → ℕ → ℕ → Option (Text × ℕ)
first_live draws dead zero at = none
first_live draws dead (suc fuel) at =
    let rest = first_live draws dead fuel (at + 1) in
    if same_text (draws at) dead then rest else some (draws at, at + 1)

unfoldable pub take : ℕ → Text → Text
take zero s = []
take (suc n) [] = []
take (suc n) (c ∷ s) = c ∷ take n s

unfoldable pub new_trace_id : (ℕ → Text) → ℕ → ℕ → Option (Text × ℕ)
new_trace_id draws fuel at = first_live draws (zeros 32) fuel at

unfoldable pub new_span_id : (ℕ → Text) → ℕ → ℕ → Option (Text × ℕ)
new_span_id draws fuel at = first_live (λ n. take 16 (draws n)) (zeros 16) fuel at
