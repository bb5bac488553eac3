-- ===== src/Money/Literals.antt =====
-- impl/lnpl/money.py: which tokens are money literals.
use linkly.Base.{
  ℕ, ◌≡◌, ◌≢◌, ◌↔◌, ◌⊎◌, refl, sym, ap, ◌∙◌, true, false, ◌&&◌, some, [], ◌∷◌, ◌++◌, ◌==◌, arith,
  Bool-cases, Option-cases, inl, inr, append-nil, append_assoc, all, &&_left, &&_right,
}
use linkly.Base.Text.{Text, is_digit, is_upper}
use linkly.Money.{
  is_alpha3, span_digits, currency_end, Groups, fraction_groups, groups_from, match_literal,
  amount_text,
}

-- A token that spells the groups, a newline at the end left aside.
pub record Spells (token : Text) (g : Groups) : Type 0 where
  pub some_whole : g.whole ≢ []
  pub whole_digits : all is_digit g.whole ≡ true
  pub fraction_digits : all is_digit g.fraction ≡ true
  pub letters : is_alpha3 g.currency ≡ true
  pub tail : Text
  pub ends : (tail ≡ []) ⊎ (tail ≡ 10 ∷ [])
  pub text : token ≡ amount_text g.whole g.fraction ++ (g.currency ++ tail)

span_digits-split :
    (s : Text)
    → ((span_digits s).0 ++ (span_digits s).1 ≡ s) × (all is_digit (span_digits s).0 ≡ true)
unfolding span_digits
span_digits-split [] = (refl, refl)
span_digits-split (c ∷ s) = elim (Bool-cases (is_digit c)) [
  | inl digit ↦
      let (whole, digits) = span_digits-split s in rw digit (rw whole refl, rw digit digits)
  | inr other ↦ rw other (refl, refl)
]

currency_end-eq :
    (s cur : Text)
    → currency_end s ≡ some cur
    → (is_alpha3 cur ≡ true)
      × ((tail : Text) × ((tail ≡ []) ⊎ (tail ≡ 10 ∷ [])) × (s ≡ cur ++ tail))
unfolding currency_end
currency_end-eq [] cur e = cc
currency_end-eq (a ∷ []) cur e = cc
currency_end-eq (a ∷ b ∷ []) cur e = cc
currency_end-eq (a ∷ b ∷ c ∷ []) cur e = elim (Bool-cases (is_alpha3 (a ∷ b ∷ c ∷ []))) [
  | inl good ↦
      let same : a ∷ b ∷ c ∷ [] ≡ cur = cc (rw good at e) in
      (rw same at good, ([], inl refl, same ∙ sym (append-nil cur)))
  | inr bad ↦ absurd (cc (rw bad at e))
]
currency_end-eq (a ∷ b ∷ c ∷ d ∷ []) cur e =
    elim (Bool-cases (is_alpha3 (a ∷ b ∷ c ∷ []) && d == 10)) [
      | inl good ↦
          let same : a ∷ b ∷ c ∷ [] ≡ cur = cc (rw good at e) in
          let letters : is_alpha3 (a ∷ b ∷ c ∷ []) ≡ true = &&_left _ (d == 10) good in
          let newline : d ≡ 10 =
            ground (arith, &&_right (is_alpha3 (a ∷ b ∷ c ∷ [])) (d == 10) good) in
          (rw same at letters, (10 ∷ [], inr refl, rw newline (ap (λ t. t ++ 10 ∷ []) same)))
      | inr bad ↦ absurd (cc (rw bad at e))
    ]
currency_end-eq (a ∷ b ∷ c ∷ d ∷ f ∷ s) cur e = cc

groups_from-Spells :
    (whole s : Text) (g : Groups)
    → all is_digit whole ≡ true
    → groups_from whole s ≡ some g
    → Spells (whole ++ s) g
groups_from-Spells [] s g w e = absurd (cc e)
groups_from-Spells (c ∷ whole) [] g w e = absurd (cc e)
groups_from-Spells (c ∷ whole) (d ∷ s) g w e = elim (Bool-cases (d == b'.')) [
  | inl dot ↦
      let is_dot : d ≡ b'.' = ground arith in
      rw is_dot
        (with_fraction (span_digits s).0 (span_digits s).1 (span_digits-split s) (rw dot at e))
  | inr other ↦ elim (Option-cases (currency_end (d ∷ s))) [
    | inl missing ↦ absurd (cc (rw (other, missing) at e))
    | inr (cur, found) ↦
        let (letters, (tail, ends, text)) = currency_end-eq (d ∷ s) cur found in
        let same : record { whole = c ∷ whole; fraction = []; currency = cur } ≡ g =
          cc (rw (other, found) at e) in
        rw (sym same) (record {
          some_whole = λ h. cc h;
          whole_digits = w;
          fraction_digits = refl;
          letters = letters;
          tail = tail;
          ends = ends;
          text = rw text refl;
        })
  ]
]
  where
    with_fraction :
        (f r : Text)
        → (f ++ r ≡ s) × (all is_digit f ≡ true)
        → fraction_groups (c ∷ whole) f r ≡ some g
        → Spells ((c ∷ whole) ++ b'.' ∷ s) g
    with_fraction [] r split h = absurd (cc h)
    with_fraction (x ∷ f) r split h = elim (Option-cases (currency_end r)) [
      | inl missing ↦ absurd (cc (rw missing at h))
      | inr (cur, found) ↦
          let (letters, (tail, ends, text)) = currency_end-eq r cur found in
          let same : record { whole = c ∷ whole; fraction = x ∷ f; currency = cur } ≡ g =
            cc (rw found at h) in
          rw (sym same) (record {
            some_whole = λ h. cc h;
            whole_digits = w;
            fraction_digits = split.1;
            letters = letters;
            tail = tail;
            ends = ends;
            text =
                rw (sym split.0 ∙ ap (λ t. (x ∷ f) ++ t) text)
                  (sym (append_assoc (c ∷ whole) (b'.' ∷ x ∷ f) (cur ++ tail)));
          })
    ]

match_literal-Spells : (token : Text) (g : Groups) → match_literal token ≡ some g → Spells token g
unfolding match_literal
match_literal-Spells token g e =
    let (whole, digits) = span_digits-split token in
    rw whole at (groups_from-Spells (span_digits token).0 (span_digits token).1 g digits e)

pub span_digits-append :
    (w : Text) (x : ℕ) (s : Text)
    → all is_digit w ≡ true
    → is_digit x ≡ false
    → span_digits (w ++ x ∷ s) ≡ (w, x ∷ s)
unfolding span_digits
span_digits-append [] x s w other = rw other refl
span_digits-append (c ∷ w) x s h other =
    rw
      (
        &&_left (is_digit c) (all is_digit w) h,
        span_digits-append w x s (&&_right (is_digit c) (all is_digit w) h) other,
      )
      refl

currency_end-append :
    (cur tail : Text)
    → is_alpha3 cur ≡ true
    → (tail ≡ []) ⊎ (tail ≡ 10 ∷ [])
    → currency_end (cur ++ tail) ≡ some cur
unfolding currency_end
currency_end-append [] tail l t = unfold is_alpha3 in cc l
currency_end-append (a ∷ []) tail l t = unfold is_alpha3 in cc l
currency_end-append (a ∷ b ∷ []) tail l t = unfold is_alpha3 in cc l
currency_end-append (a ∷ b ∷ c ∷ []) tail l (inl none_left) = rw (none_left, l) refl
currency_end-append (a ∷ b ∷ c ∷ []) tail l (inr newline) = rw (newline, l) refl
currency_end-append (a ∷ b ∷ c ∷ d ∷ s) tail l t = unfold is_alpha3 in cc l

-- A currency begins with a letter.
currency_first :
    (cur tail : Text)
    → is_alpha3 cur ≡ true
    → (a : ℕ) × (s : Text) × (cur ++ tail ≡ a ∷ s) × (is_digit a ≡ false) × ((a == b'.') ≡ false)
unfolding is_alpha3 is_digit is_upper
currency_first [] tail l = absurd (cc l)
currency_first (a ∷ []) tail l = absurd (cc l)
currency_first (a ∷ b ∷ []) tail l = absurd (cc l)
currency_first (a ∷ b ∷ c ∷ []) tail l = (a, b ∷ c ∷ tail, refl, ground arith, ground arith)
currency_first (a ∷ b ∷ c ∷ d ∷ s) tail l = absurd (cc l)

groups_from-append :
    (whole cur tail : Text)
    → whole ≢ []
    → is_alpha3 cur ≡ true
    → (tail ≡ []) ⊎ (tail ≡ 10 ∷ [])
    → groups_from whole (cur ++ tail)
      ≡ some (record { whole = whole; fraction = []; currency = cur })
groups_from-append [] cur tail ne l t = absurd (ne refl)
groups_from-append (c ∷ whole) cur tail ne l t =
    let (a, s, text, not_digit, not_dot) = currency_first cur tail l in
    rw (text, not_dot, (sym (ap currency_end text) ∙ currency_end-append cur tail l t)) refl

Spells-match_literal :
    (whole fraction cur tail : Text)
    → whole ≢ []
    → all is_digit whole ≡ true
    → all is_digit fraction ≡ true
    → is_alpha3 cur ≡ true
    → (tail ≡ []) ⊎ (tail ≡ 10 ∷ [])
    → match_literal (amount_text whole fraction ++ (cur ++ tail))
      ≡ some (record { whole = whole; fraction = fraction; currency = cur })
unfolding match_literal
Spells-match_literal whole [] cur tail ne w f l t =
    let (a, s, text, not_digit, not_dot) = currency_first cur tail l in
    let split : span_digits (whole ++ (cur ++ tail)) ≡ (whole, cur ++ tail) =
      rw text (span_digits-append whole a s w not_digit) in
    rw split (groups_from-append whole cur tail ne l t)
Spells-match_literal [] (x ∷ fraction) cur tail ne w f l t = absurd (ne refl)
Spells-match_literal (c ∷ whole) (x ∷ fraction) cur tail ne w f l t =
    let (a, s, text, not_digit, not_dot) = currency_first cur tail l in
    let front : span_digits (((c ∷ whole) ++ b'.' ∷ (x ∷ fraction)) ++ (cur ++ tail))
        ≡ (c ∷ whole, b'.' ∷ ((x ∷ fraction) ++ (cur ++ tail))) =
      rw (append_assoc (c ∷ whole) (b'.' ∷ x ∷ fraction) (cur ++ tail))
        (span_digits-append (c ∷ whole) b'.' ((x ∷ fraction) ++ (cur ++ tail)) w dot_no_digit) in
    let back : span_digits ((x ∷ fraction) ++ (cur ++ tail)) ≡ (x ∷ fraction, cur ++ tail) =
      rw text (span_digits-append (x ∷ fraction) a s f not_digit) in
    rw (front, back, currency_end-append cur tail l t) refl
  where
    dot_no_digit : is_digit b'.' ≡ false
    dot_no_digit = unfold is_digit in refl

pub match_literal_iff :
    (token : Text) (g : Groups) → (match_literal token ≡ some g) ↔ Spells token g
match_literal_iff token g = (
  match_literal-Spells token g,
  λ h. rw h.text (
      Spells-match_literal g.whole g.fraction g.currency h.tail h.some_whole h.whole_digits
        h.fraction_digits h.letters h.ends),
)
