-- ===== src/Trace/Fields.antt =====
-- impl/lnpl/tracecontext.py: which header values are read, and as what.
use linkly.Base.{
  ℕ, ◌≡◌, ◌≢◌, ◌↔◌, ◌⊎◌, refl, ap, ◌∙◌, true, false, List, [], ◌∷◌, ◌++◌, ◌==◌, all, arith,
  Bool-cases, inl, inr, &&_left, &&_right,
}
use linkly.Base.Text.{Text, codes, same_text, same_text→eq, same_text_refl}
use linkly.Trace.{TraceContext, is_hex, is_lower_hex, extend_first, split_dash, zeros, is_accepted}

-- `"-".join(parts)`
unfoldable pub join_dash : List Text → Text
join_dash [] = []
join_dash (w ∷ []) = w
join_dash (w ∷ v ∷ ws) = w ++ b'-' ∷ join_dash (v ∷ ws)

join_dash-extend_first :
    (c : ℕ) (parts : List Text) → join_dash (extend_first c parts) ≡ c ∷ join_dash parts
unfolding join_dash
join_dash-extend_first c [] = refl
join_dash-extend_first c (w ∷ []) = refl
join_dash-extend_first c (w ∷ v ∷ ws) = refl

extend_first-ne-nil : (c : ℕ) (parts : List Text) → extend_first c parts ≢ []
extend_first-ne-nil c [] e = cc
extend_first-ne-nil c (w ∷ ws) e = cc

split_dash-ne-nil : (s : Text) → split_dash s ≢ []
unfolding split_dash
split_dash-ne-nil [] e = cc
split_dash-ne-nil (c ∷ s) e = elim (Bool-cases (c == b'-')) [
  | inl dash ↦ cc (rw dash at e)
  | inr other ↦ extend_first-ne-nil c (split_dash s) (rw other at e)
]

join_dash-after_dash :
    (parts : List Text) → parts ≢ [] → join_dash ([] ∷ parts) ≡ b'-' ∷ join_dash parts
unfolding join_dash
join_dash-after_dash [] ne = absurd (ne refl)
join_dash-after_dash (w ∷ ws) ne = refl

pub join_dash-split_dash : (s : Text) → join_dash (split_dash s) ≡ s
unfolding split_dash
join_dash-split_dash [] = unfold join_dash in refl
join_dash-split_dash (c ∷ s) = elim (Bool-cases (c == b'-')) [
  | inl dash ↦
      let is_dash : c ≡ b'-' = ground arith in
      rw dash (
        join_dash-after_dash (split_dash s) (split_dash-ne-nil s)
        ∙ rw (join_dash-split_dash s, is_dash) refl)
  | inr other ↦
      rw other (join_dash-extend_first c (split_dash s) ∙ ap (λ t. c ∷ t) (join_dash-split_dash s))
]

hex_no_dash : (c : ℕ) → is_hex c ≡ true → (c == b'-') ≡ false
unfolding is_hex
hex_no_dash c h = ground arith

pub split_dash-hex : (w : Text) → all is_hex w ≡ true → split_dash w ≡ w ∷ []
unfolding split_dash
split_dash-hex [] h = refl
split_dash-hex (c ∷ w) h =
    rw
      (
        hex_no_dash c (&&_left (is_hex c) (all is_hex w) h),
        split_dash-hex w (&&_right (is_hex c) (all is_hex w) h),
      )
      refl

pub split_dash-append :
    (w s : Text) → all is_hex w ≡ true → split_dash (w ++ b'-' ∷ s) ≡ w ∷ split_dash s
unfolding split_dash
split_dash-append [] s h = refl
split_dash-append (c ∷ w) s h =
    rw
      (
        hex_no_dash c (&&_left (is_hex c) (all is_hex w) h),
        split_dash-append w s (&&_right (is_hex c) (all is_hex w) h),
      )
      refl

-- The four fields, and what a later version of the format may append behind another dash.
abbrev pub tail_text : List Text → Text
tail_text [] = []
tail_text (w ∷ ws) = b'-' ∷ join_dash (w ∷ ws)

abbrev pub header_text : TraceContext → Text → Text
header_text c tail =
    c.version ++ b'-' ∷ (c.trace_id ++ b'-' ∷ (c.parent_id ++ b'-' ∷ (c.flags ++ tail)))

-- What may stand behind the flags: nothing, or a dash and any text.
abbrev pub IsTail : Text → Type 0
IsTail tail = (tail ≡ []) ⊎ ((more : Text) × (tail ≡ b'-' ∷ more))

-- A context that a peer may send.
pub record IsTrace (c : TraceContext) : Type 0 where
  pub version_hex : is_lower_hex c.version 2 ≡ true
  pub trace_hex : is_lower_hex c.trace_id 32 ≡ true
  pub parent_hex : is_lower_hex c.parent_id 16 ≡ true
  pub flags_hex : is_lower_hex c.flags 2 ≡ true
  pub version_known : c.version ≢ codes "ff"
  pub trace_nonzero : c.trace_id ≢ zeros 32
  pub parent_nonzero : c.parent_id ≢ zeros 16

same_text-false : (s t : Text) → s ≢ t → same_text s t ≡ false
same_text-false s t ne = elim (Bool-cases (same_text s t)) [
  | inl same ↦ absurd (ne (same_text→eq s t same))
  | inr other ↦ other
]

pub same_text-false→ : (s t : Text) → same_text s t ≡ false → s ≢ t
same_text-false→ s t other e = cc (other, ap (λ x. same_text x t) e, same_text_refl t)

pub is_accepted_iff : (c : TraceContext) → (is_accepted c ≡ true) ↔ IsTrace c
unfolding is_accepted
is_accepted_iff c = (
  λ h. record {
    version_hex = ground arith;
    trace_hex = ground arith;
    parent_hex = ground arith;
    flags_hex = ground arith;
    version_known = same_text-false→ _ _ (ground arith);
    trace_nonzero = same_text-false→ _ _ (ground arith);
    parent_nonzero = same_text-false→ _ _ (ground arith);
  },
  λ t.
      rw
        (
          t.version_hex,
          t.trace_hex,
          t.parent_hex,
          t.flags_hex,
          same_text-false _ _ t.version_known,
          same_text-false _ _ t.trace_nonzero,
          same_text-false _ _ t.parent_nonzero,
        )
        refl,
)
