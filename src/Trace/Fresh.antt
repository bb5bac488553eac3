-- ===== src/Trace/Fresh.antt =====
-- impl/lnpl/tracecontext.py: the identifiers that the runtime draws make a header that it accepts.
use linkly.Base.{
  ℕ, zero, suc, ◌+◌, ◌≤◌, ◌<◌, ◌≡◌, ◌≢◌, refl, sym, ap, ◌∙◌, true, some, [], ◌∷◌, ◌++◌, arith,
  Bool-cases, inl, inr,
}
use linkly.Base.Result.{ok}
use linkly.Base.Text.{Text, codes, same_text, same_text→eq}
use linkly.Trace.{
  is_hex, is_lower_hex, zeros, parse_traceparent, format_traceparent, first_live, take,
  new_trace_id, new_span_id,
}
use linkly.Trace.Fields.{same_text-false→}
use linkly.Trace.Headers.{context, parse_traceparent-format_traceparent}

-- A draw that is found: which one, and that it lives.
first_live-found :
    (draws : ℕ → Text) (dead : Text) (fuel at k : ℕ)
    → at ≤ k
    → k < at + fuel
    → draws k ≢ dead
    → (n : ℕ) × (at ≤ n)
      × (first_live draws dead fuel at ≡ some (draws n, n + 1))
      × (draws n ≢ dead)
unfolding first_live
first_live-found draws dead zero at k le lt live = absurd (omega (arith, le, lt))
first_live-found draws dead (suc fuel) at k le lt live =
    elim (Bool-cases (same_text (draws at) dead)) [
      | inr other ↦ (at, omega arith, rw other refl, same_text-false→ (draws at) dead other)
      | inl gone ↦
          let (n, behind, found, lives) =
            first_live-found draws dead fuel (at + 1) k
              (later (λ same. live (ap draws (sym same) ∙ same_text→eq (draws at) dead gone)))
              (omega (arith, lt)) live in
          (n, omega (arith, behind), rw gone found, lives)
    ]
  where
    later : at ≢ k → at + 1 ≤ k
    later ne = omega (arith, le, ne)

take-hex : (n m : ℕ) (s : Text) → n ≤ m → is_lower_hex s m ≡ true → is_lower_hex (take n s) n ≡ true
unfolding take is_lower_hex
take-hex zero m s le h = refl
take-hex (suc n) m [] le h = ground (arith, le)
take-hex (suc n) zero (c ∷ s) le h = absurd (omega (arith, le))
take-hex (suc n) (suc m) (c ∷ s) le h =
    let shorter : is_lower_hex s m ≡ true = ground (arith, h) in
    ground (arith, h, take-hex n m s (omega (arith, le)) shorter)

format_traceparent-ok :
    (t s f : Text)
    → is_lower_hex t 32 ≡ true
    → is_lower_hex s 16 ≡ true
    → is_lower_hex f 2 ≡ true
    → format_traceparent t s f ≡ ok (codes "00-" ++ t ++ codes "-" ++ s ++ codes "-" ++ f)
unfolding format_traceparent
format_traceparent-ok t s f ht hs hf = rw (ht, hs, hf) refl

-- Of any `fuel` draws in a row, one has 16 first characters that are not all zeros.
abbrev pub Lives : (ℕ → Text) → ℕ → Type 0
Lives draws fuel = (at : ℕ) → (k : ℕ) × (at ≤ k) × (k < at + fuel) × (take 16 (draws k) ≢ zeros 16)

-- A draw whose first 16 characters are not all zeros is not all zeros.
whole-live : (s : Text) → take 16 s ≢ zeros 16 → s ≢ zeros 32
unfolding take
whole-live s live same = live (ap (take 16) same)

-- Where `uuid4().hex` is 32 lowercase hex characters, and of any `fuel` draws in a row one has 16 first
-- characters that are not all zeros, both loops end, each with draws of its own: from any place in the
-- sequence of draws the first loop leaves a later place, and the second one starts there or any `gap`
-- draws behind it. The header value made of the two identifiers is accepted and read as just these.
pub new_ids-accepted :
    (draws : ℕ → Text) (fuel at gap : ℕ)
    → ((n : ℕ) → is_lower_hex (draws n) 32 ≡ true)
    → Lives draws fuel
    → (trace_id span_id header : Text) × (next last : ℕ) × (new_trace_id draws fuel at
        ≡ some (trace_id, next))
      × (at < next)
      × (new_span_id draws fuel (next + gap) ≡ some (span_id, last))
      × (next + gap < last)
      × (format_traceparent trace_id span_id (codes "01") ≡ ok header)
      × (parse_traceparent header ≡ some (context (codes "00") trace_id span_id (codes "01")))
unfolding new_trace_id new_span_id
new_ids-accepted draws fuel at gap hex lives =
    let (j, aj, lj, livej) = lives at in
    let (n, an, traced, live_trace) =
      first_live-found draws (zeros 32) fuel at j aj lj (whole-live (draws j) livej) in
    let (k, ak, lk, livek) = lives (n + 1 + gap) in
    let (m, am, spanned, live_span) =
      first_live-found (λ i. take 16 (draws i)) (zeros 16) fuel (n + 1 + gap) k ak lk livek in
    let span_hex = take-hex 16 32 (draws m) (omega arith) (hex m) in
    let formatted =
      format_traceparent-ok (draws n) (take 16 (draws m)) (codes "01") (hex n) span_hex
        (unfold is_lower_hex is_hex in refl) in
    (
      draws n,
      take 16 (draws m),
      _,
      n + 1,
      m + 1,
      traced,
      omega (arith, an),
      spanned,
      omega (arith, am),
      formatted,
      parse_traceparent-format_traceparent (draws n) (take 16 (draws m)) (codes "01") _ formatted
          live_trace live_span,
    )
