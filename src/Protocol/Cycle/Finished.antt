-- ===== src/Protocol/Cycle/Finished.antt =====
-- impl/lnpl/protocol.py: the nodes that `_ownership_cycle` has finished stand in an order in which the
-- children of each one stand behind it, and each node on its stack waits for the one above it.
use linkly.Base.{
  ◌≡◌, ◌⊎◌, refl, sym, ap, ◌∙◌, Bool, true, false, Option, none, some, List, [], ◌∷◌, Bool-cases,
  inl, inr,
}
use linkly.Base.Text.{Text, is_in, same_text, same_text_refl, same_text→eq}
use linkly.Protocol.Cycle.{
  Colour, grey, black, Mark, Shade, mark_of, paint, Frame, Search, found, searched, no_index, stuck,
}
use linkly.Protocol.Cycle.Colours.{recolour, mark_of-paint, mark_of-paint_other, either}
use linkly.Protocol.Cycle.Owned.{ids, Owns, Kept}

abbrev pub is_there : Option Shade → Bool
is_there none = false
is_there (some shade) = true

is_there-paint :
    (id k : Text) (c : Colour) (marks : List Mark)
    → is_there (mark_of k (paint id c marks)) ≡ is_there (mark_of k marks)
is_there-paint id k c marks = elim (Bool-cases (same_text id k)) [
  | inr apart ↦ ap is_there (mark_of-paint_other id k c marks apart)
  | inl same ↦
      rw (sym (same_text→eq id k same), mark_of-paint id c marks) (by_shade (mark_of id marks))
]
  where
    by_shade : (o : Option Shade) → is_there (recolour c o) ≡ is_there o
    by_shade none = refl
    by_shade (some shade) = refl

pub head-is_in : (k : Text) (l : List Text) → is_in k (k ∷ l) ≡ true
unfolding is_in
head-is_in k l = rw (same_text_refl k) refl

pub empty-is_in : (k : Text) → is_in k [] ≡ true → ⊥
unfolding is_in
empty-is_in k h = cc h

pub tail-is_in : (k x : Text) (l : List Text) → is_in k l ≡ true → is_in k (x ∷ l) ≡ true
unfolding is_in
tail-is_in k x l h = either (same_text k x) h

pub is_in-cases :
    (k x : Text) (l : List Text) → is_in k (x ∷ l) ≡ true → (k ≡ x) ⊎ (is_in k l ≡ true)
unfolding is_in
is_in-cases k x l h = elim (Bool-cases (same_text k x)) [
  | inl same ↦ inl (same_text→eq k x same)
  | inr apart ↦ inr (rw apart at h)
]

module _ (family : Text → List Text) (known : Text → Bool) where
  abbrev pub Behind : Text → List Text → Type 0
  Behind id order = (k : Text) → Owns family id k → known k ≡ true → is_in k order ≡ true

  -- The children of each node stand behind it.
  abbrev pub Ordered : List Text → Type 0
  Ordered [] = Unit
  Ordered (id ∷ order) = Behind id order × Ordered order

  abbrev pub Blacks : List Mark → List Text → Type 0
  Blacks marks order =
      (k : Text) (kids : List Text) → mark_of k marks ≡ some (black, kids) → is_in k order ≡ true

  abbrev pub Top : Text → List Text → List Text → Type 0
  Top id kids order =
      (k : Text)
      → Owns family id k
      → known k ≡ true
      → (is_in k kids ≡ true) ⊎ (is_in k order ≡ true)

  -- A node below b has the children left that are not finished, but for b.
  abbrev pub Deep : Text → List Frame → List Text → Type 0
  Deep b [] order = Unit
  Deep b ((id, kids) ∷ stack) order = Top id kids (b ∷ order) × Deep id stack order

  abbrev pub Pending : List Frame → List Text → Type 0
  Pending [] order = Unit
  Pending ((id, kids) ∷ stack) order = Top id kids order × Deep id stack order

  pub record Sound (marks : List Mark) (stack : List Frame) (order : List Text) : Type 0 where
    pub kept : Kept family marks
    pub there : (k : Text) → is_there (mark_of k marks) ≡ known k
    pub blacks : Blacks marks order
    pub ordered : Ordered order
    pub pending : Pending stack order

  -- What a search leaves that began with a stack and an order.
  pub record Left (stack : List Frame) (order : List Text) (marks : List Mark) : Type 0 where
    pub finished : List Text
    pub sound : Sound marks [] finished
    pub keeps : (k : Text) → is_in k order ≡ true → is_in k finished ≡ true
    pub empties : (k : Text) → is_in k (ids stack) ≡ true → known k ≡ true → is_in k finished ≡ true

  abbrev pub Done : List Frame → List Text → Search → Type 0
  Done stack order (searched marks) = Left stack order marks
  Done stack order _ = Unit

  Top-grow : (id x : Text) (kids order : List Text) → Top id kids order → Top id kids (x ∷ order)
  Top-grow id x kids order h k o t = elim (h k o t) [
    | inl left ↦ inl left
    | inr there ↦ inr (tail-is_in k x order there)
  ]

  Deep-grow :
      (b x : Text) (stack : List Frame) (order : List Text)
      → Deep b stack order
      → Deep b stack (x ∷ order)
  Deep-grow b x [] order h = tt
  Deep-grow b x ((id, kids) ∷ stack) order h = (swapped, Deep-grow id x stack order h.1)
    where
      swapped : Top id kids (b ∷ x ∷ order)
      swapped k o t = elim (h.0 k o t) [
        | inl left ↦ inl left
        | inr there ↦ elim (is_in-cases k b order there) [
          | inl same ↦ inr (rw same (head-is_in b (x ∷ order)))
          | inr in_order ↦ inr (tail-is_in k b (x ∷ order) (tail-is_in k x order in_order))
        ]
      ]

  pub pop-Pending :
      (id : Text) (stack : List Frame) (order : List Text)
      → Deep id stack order
      → Pending stack (id ∷ order)
  pop-Pending id [] order h = tt
  pop-Pending id ((up, kids) ∷ stack) order h = (h.0, Deep-grow up id stack order h.1)

  pub paint-there :
      (id : Text) (c : Colour) (marks : List Mark)
      → ((k : Text) → is_there (mark_of k marks) ≡ known k)
      → (k : Text) → is_there (mark_of k (paint id c marks)) ≡ known k
  paint-there id c marks h k = is_there-paint id k c marks ∙ h k

  pub open-Blacks :
      (kid : Text) (marks : List Mark) (order : List Text)
      → Blacks marks order
      → Blacks (paint kid grey marks) order
  open-Blacks kid marks order h k kids e = elim (Bool-cases (same_text kid k)) [
    | inr apart ↦ h k kids (sym (mark_of-paint_other kid k grey marks apart) ∙ e)
    | inl same ↦
        let equal = ap (λ (t : Text). mark_of t (paint kid grey marks)) (same_text→eq kid k same) in
        absurd (by_shade (mark_of kid marks) (sym (mark_of-paint kid grey marks) ∙ equal ∙ e))
  ]
    where
      by_shade : (o : Option Shade) → recolour grey o ≡ some (black, kids) → ⊥
      by_shade none e = cc e
      by_shade (some shade) e = cc e

  pub close-Blacks :
      (id : Text) (marks : List Mark) (order : List Text)
      → Blacks marks order
      → Blacks (paint id black marks) (id ∷ order)
  close-Blacks id marks order h k kids e = elim (Bool-cases (same_text id k)) [
    | inl same ↦ rw (same_text→eq id k same) (head-is_in k order)
    | inr apart ↦
        tail-is_in k id order (h k kids (sym (mark_of-paint_other id k black marks apart) ∙ e))
  ]

  -- The frames that a search still has may be fewer, and the order longer.
  pub weaker :
      (s s1 : List Frame) (order more : List Text) (out : Search)
      → ((k : Text) → is_in k order ≡ true → is_in k more ≡ true)
      → ((k : Text)
          → is_in k (ids s) ≡ true
          → known k ≡ true
          → (is_in k (ids s1) ≡ true) ⊎ (is_in k more ≡ true))
      → Done s1 more out
      → Done s order out
  weaker s s1 order more (searched marks) grows fewer d = record {
    finished = d.finished;
    sound = d.sound;
    keeps = λ k h. d.keeps k (grows k h);
    empties =
        λ k h t. elim (fewer k h t) [ inl up ↦ d.empties k up t | inr there ↦ d.keeps k there ];
  }
  weaker s s1 order more (found c) grows fewer d = tt
  weaker s s1 order more no_index grows fewer d = tt
  weaker s s1 order more stuck grows fewer d = tt
