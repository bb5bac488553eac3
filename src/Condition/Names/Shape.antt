-- ===== src/Condition/Names/Shape.antt =====
-- impl/lnpl/condition.py: what the characters of a reference name are.
use linkly.Base.{
  ℕ, ◌≡◌, refl, Bool, true, false, not, List, [], ◌∷◌, ◌==◌, all, arith, Bool-cases, inl, inr,
  &&_left, &&_right, &&_intro,
}
use linkly.Base.Text.{Text, is_lower, is_alnum, is_space, is_in}
use linkly.Base.Words.{is_word}
use linkly.Condition.Names.{is_camel_name, put_front, split_on, no_references, is_reference_name}

abbrev pub no_space : ℕ → Bool
no_space c = not (is_space c)

alnum_no_space : (c : ℕ) → is_alnum c ≡ true → no_space c ≡ true
unfolding is_alnum is_space
alnum_no_space c h = ground arith

camel_alnum : (s : Text) → is_camel_name s ≡ true → all is_alnum s ≡ true
unfolding is_camel_name
camel_alnum [] h = refl
camel_alnum (c ∷ s) h = &&_right (is_lower c) _ h

all-camel_alnum :
    (ws : List Text) → all is_camel_name ws ≡ true → all (λ (w : Text). all is_alnum w) ws ≡ true
all-camel_alnum [] h = refl
all-camel_alnum (w ∷ ws) h =
    &&_intro _ _ (camel_alnum w (&&_left (is_camel_name w) _ h))
      (all-camel_alnum ws (&&_right (is_camel_name w) _ h))

put_front_alnum :
    (c : ℕ) (ws : List Text)
    → all (λ (w : Text). all is_alnum w) (put_front c ws) ≡ true
    → (is_alnum c ≡ true) × (all (λ (w : Text). all is_alnum w) ws ≡ true)
put_front_alnum c [] h = ground arith
put_front_alnum c (w ∷ ws) h = ground arith

split_on-no_space :
    (s : Text) → all (λ (w : Text). all is_alnum w) (split_on b'.' s) ≡ true → all no_space s ≡ true
unfolding split_on
split_on-no_space [] h = refl
split_on-no_space (c ∷ s) h = elim (Bool-cases (c == b'.')) [
  | inl dot ↦
      &&_intro (no_space c) _ (unfold is_space in ground arith)
        (split_on-no_space s (rw (dot, split_on) at h))
  | inr other ↦
      let (first, rest) = put_front_alnum c _ (rw (other, split_on) at h) in
      &&_intro (no_space c) _ (alnum_no_space c first) (split_on-no_space s rest)
]

camel_starts :
    (c : ℕ) (ws : List Text) → all is_camel_name (put_front c ws) ≡ true → is_lower c ≡ true
unfolding is_camel_name
camel_starts c [] h = ground arith
camel_starts c (w ∷ ws) h = ground arith

module _ (s : Text) (named : is_reference_name s ≡ true) where
  pub not_in_no_references : is_in s no_references ≡ false
  unfolding is_reference_name
  not_in_no_references = ground arith

  all-segments : all is_camel_name (split_on b'.' s) ≡ true
  unfolding is_reference_name
  all-segments = ground arith

  pub reference_no_space : all no_space s ≡ true
  reference_no_space = split_on-no_space s (all-camel_alnum _ all-segments)

pub not_empty_reference : is_reference_name [] ≡ false
unfolding is_reference_name
not_empty_reference = refl

-- A reference name begins with a lower-case letter.
pub reference_starts : (c : ℕ) (s : Text) → is_reference_name (c ∷ s) ≡ true → is_lower c ≡ true
unfolding split_on
reference_starts c s h = elim (Bool-cases (c == b'.')) [
  | inl dot ↦ unfold is_camel_name in cc (rw (dot, split_on) at (all-segments (c ∷ s) h))
  | inr other ↦ camel_starts c _ (rw (other, split_on) at (all-segments (c ∷ s) h))
]

pub reference-is_word : (s : Text) → is_reference_name s ≡ true → is_word s ≡ true
reference-is_word [] h = cc not_empty_reference
reference-is_word (c ∷ s) h = reference_no_space (c ∷ s) h
