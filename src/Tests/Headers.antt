-- ===== src/Tests/Headers.antt =====
-- impl/lnpl/tracecontext.py at a concrete header value.
use linkly.Base.{ℕ, ◌+◌, ◌<◌, ◌≡◌, ◌≢◌, ◌↔◌, refl, some, true, arith}
use linkly.Base.Result.{ok}
use linkly.Base.Text.{Text, codes, same_text}
use linkly.Trace.{
  TraceContext, zeros, take, new_trace_id, new_span_id, is_hex, is_lower_hex, parse_traceparent,
  format_traceparent,
}
use linkly.Trace.Fields.{header_text, IsTail, IsTrace, same_text-false→}
use linkly.Trace.Fresh.{new_ids-accepted}
use linkly.Trace.Headers.{context, parse_traceparent_iff, parse_traceparent-format_traceparent}

abbrev trace_seven : Text
trace_seven = codes "70000000000000000000000000000000"

abbrev span_a : Text
span_a = codes "a000000000000000"

abbrev sampled : TraceContext
sampled = record {
  version = codes "00";
  trace_id = trace_seven;
  parent_id = span_a;
  flags = codes "01";
}

abbrev sampled_text : Text
sampled_text = codes "00-70000000000000000000000000000000-a000000000000000-01"

sampled_formatted : format_traceparent trace_seven span_a (codes "01") ≡ ok sampled_text
unfolding format_traceparent is_lower_hex is_hex
sampled_formatted = refl

trace_seven_nonzero : trace_seven ≢ zeros 32
unfolding same_text
trace_seven_nonzero = same_text-false→ trace_seven (zeros 32) refl

span_a_nonzero : span_a ≢ zeros 16
unfolding same_text
span_a_nonzero = same_text-false→ span_a (zeros 16) refl

parse_traceparent-format_traceparent_example : parse_traceparent sampled_text ≡ some sampled
parse_traceparent-format_traceparent_example =
    parse_traceparent-format_traceparent trace_seven span_a (codes "01") sampled_text
      sampled_formatted trace_seven_nonzero span_a_nonzero

parse_traceparent_iff_example :
    (parse_traceparent sampled_text ≡ some sampled)
    ↔ ((tail : Text) × IsTail tail × (sampled_text ≡ header_text sampled tail) × IsTrace sampled)
parse_traceparent_iff_example = parse_traceparent_iff sampled_text sampled

abbrev fixed_draw : ℕ → Text
fixed_draw n = codes "a0000000000000000000000000000007"

fixed_draw_hex : (n : ℕ) → is_lower_hex (fixed_draw n) 32 ≡ true
unfolding is_lower_hex is_hex
fixed_draw_hex n = refl

fixed_span_nonzero : (n : ℕ) → take 16 (fixed_draw n) ≢ zeros 16
unfolding same_text take
fixed_span_nonzero n = same_text-false→ (take 16 (fixed_draw n)) (zeros 16) refl

new_ids-accepted_example :
    (trace_id span_id header : Text) × (next last : ℕ) × (new_trace_id fixed_draw 1 0
      ≡ some (trace_id, next))
    × (0 < next)
    × (new_span_id fixed_draw 1 (next + 0) ≡ some (span_id, last))
    × (next + 0 < last)
    × (format_traceparent trace_id span_id (codes "01") ≡ ok header)
    × (parse_traceparent header ≡ some (context (codes "00") trace_id span_id (codes "01")))
new_ids-accepted_example =
    new_ids-accepted fixed_draw 1 0 0 fixed_draw_hex
      (λ at. (at, omega arith, omega arith, fixed_span_nonzero at))
