-- ===== src/Trace/Headers.antt =====
-- impl/lnpl/tracecontext.py: `parse_traceparent` against the shape of a header value, and what
-- `format_traceparent` writes.
use linkly.Base.{
  ℕ, ◌≡◌, ◌≢◌, ◌↔◌, refl, sym, ap, ◌∙◌, true, some, List, [], ◌∷◌, ◌++◌, ◌==◌, all, length, arith,
  append-nil, append_assoc, Bool-cases, inl, inr, &&_right,
}
use linkly.Base.Result.{ok}
use linkly.Base.Text.{Text, codes}
use linkly.Trace.{
  TraceContext, is_hex, is_lower_hex, split_dash, zeros, is_accepted, from_parts, parse_traceparent,
  format_traceparent,
}
use linkly.Trace.Fields.{
  join_dash, join_dash-split_dash, split_dash-hex, split_dash-append, tail_text, header_text,
  IsTail, IsTrace, is_accepted_iff,
}

abbrev pub context : Text → Text → Text → Text → TraceContext
context v t p f = record { version = v; trace_id = t; parent_id = p; flags = f }

from_parts-eq :
    (parts : List Text) (c : TraceContext)
    → from_parts parts ≡ some c
    → (rest : List Text) × (parts ≡ c.version ∷ c.trace_id ∷ c.parent_id ∷ c.flags ∷ rest)
      × (is_accepted c ≡ true)
from_parts-eq [] c e = cc
from_parts-eq (v ∷ []) c e = cc
from_parts-eq (v ∷ t ∷ []) c e = cc
from_parts-eq (v ∷ t ∷ p ∷ []) c e = cc
from_parts-eq (v ∷ t ∷ p ∷ f ∷ rest) c e = elim (Bool-cases (is_accepted (context v t p f))) [
  | inl good ↦
      let same : context v t p f ≡ c = cc (rw good at e) in
      (rest, rw (sym same) refl, rw same at good)
  | inr bad ↦ absurd (cc (rw bad at e))
]

join_dash-tail : (f : Text) (rest : List Text) → join_dash (f ∷ rest) ≡ f ++ tail_text rest
unfolding join_dash
join_dash-tail f [] = sym (append-nil f)
join_dash-tail f (w ∷ ws) = refl

tail_text-IsTail : (rest : List Text) → IsTail (tail_text rest)
tail_text-IsTail [] = inl refl
tail_text-IsTail (w ∷ ws) = inr (join_dash (w ∷ ws), refl)

join_dash-header :
    (c : TraceContext) (rest : List Text)
    → join_dash (c.version ∷ c.trace_id ∷ c.parent_id ∷ c.flags ∷ rest)
      ≡ header_text c (tail_text rest)
unfolding join_dash
join_dash-header c rest = rw (sym (join_dash-tail c.flags rest)) refl

hex_only : (w : Text) (n : ℕ) → is_lower_hex w n ≡ true → all is_hex w ≡ true
unfolding is_lower_hex
hex_only w n h = &&_right (length w == n) (all is_hex w) h

split_dash-flags :
    (f tail : Text)
    → all is_hex f ≡ true
    → IsTail tail
    → (rest : List Text) × (split_dash (f ++ tail) ≡ f ∷ rest)
split_dash-flags f tail h (inl empty) = ([], rw (empty, append-nil f) (split_dash-hex f h))
split_dash-flags f tail h (inr (more, dash)) =
    (split_dash more, rw dash (split_dash-append f more h))

from_parts-split_dash :
    (c : TraceContext) (tail : Text)
    → IsTrace c
    → IsTail tail
    → from_parts (split_dash (header_text c tail)) ≡ some c
from_parts-split_dash c tail t shape =
    let (rest, last) = split_dash-flags c.flags tail (hex_only c.flags 2 t.flags_hex) shape in
    rw
      (
        split_dash-append c.version _ (hex_only c.version 2 t.version_hex),
        split_dash-append c.trace_id _ (hex_only c.trace_id 32 t.trace_hex),
        split_dash-append c.parent_id _ (hex_only c.parent_id 16 t.parent_hex),
        last,
        (is_accepted_iff c).1 t,
      )
      refl

parse_traceparent-parts :
    (w : Text) (x : ℕ) (s : Text)
    → parse_traceparent (w ++ x ∷ s) ≡ from_parts (split_dash (w ++ x ∷ s))
unfolding parse_traceparent
parse_traceparent-parts [] x s = refl
parse_traceparent-parts (c ∷ w) x s = refl

parse_traceparent_sound :
    (c : TraceContext) (r : Text)
    → parse_traceparent r ≡ some c
    → (tail : Text) × IsTail tail × (r ≡ header_text c tail) × IsTrace c
unfolding parse_traceparent
parse_traceparent_sound c [] e = cc
parse_traceparent_sound c (x ∷ s) e =
    let (rest, parts, good) = from_parts-eq (split_dash (x ∷ s)) c e in
    (
      tail_text rest,
      tail_text-IsTail rest,
      sym (join_dash-split_dash (x ∷ s)) ∙ ap join_dash parts ∙ join_dash-header c rest,
      (is_accepted_iff c).0 good,
    )

-- A header value is read as a context exactly where it spells it: the four fields, in lowercase hex
-- of the right lengths, joined by dashes, with the version not `ff` and no identifier zero, and then
-- nothing or a dash and any text.
pub parse_traceparent_iff :
    (raw : Text) (c : TraceContext)
    → (parse_traceparent raw ≡ some c)
      ↔ ((tail : Text) × IsTail tail × (raw ≡ header_text c tail) × IsTrace c)
parse_traceparent_iff raw c = (
  parse_traceparent_sound c raw,
  λ (tail, shape, spelled, t).
      rw spelled (parse_traceparent-parts c.version b'-' _ ∙ from_parts-split_dash c tail t shape),
)

formatted_text :
    (t s f : Text)
    → codes "00-" ++ t ++ codes "-" ++ s ++ codes "-" ++ f
      ≡ header_text (context (codes "00") t s f) []
formatted_text t s f = simp (append_assoc, append-nil)

-- What `format_traceparent` writes is read back as version 00 with the same identifiers and flags,
-- where neither identifier is all zeros.
pub parse_traceparent-format_traceparent :
    (trace_id span_id flags header : Text)
    → format_traceparent trace_id span_id flags ≡ ok header
    → trace_id ≢ zeros 32
    → span_id ≢ zeros 16
    → parse_traceparent header ≡ some (context (codes "00") trace_id span_id flags)
unfolding format_traceparent
parse_traceparent-format_traceparent trace_id span_id flags header e live_trace live_span =
    (parse_traceparent_iff header (context (codes "00") trace_id span_id flags)).1 (
      [],
      inl refl,
      (ground arith) ∙ formatted_text trace_id span_id flags,
      record {
        version_hex = unfold is_lower_hex is_hex in refl;
        trace_hex = ground arith;
        parent_hex = ground arith;
        flags_hex = ground arith;
        version_known = λ same. cc;
        trace_nonzero = live_trace;
        parent_nonzero = live_span;
      },
    )
