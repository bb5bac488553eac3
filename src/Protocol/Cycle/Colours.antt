-- ===== src/Protocol/Cycle/Colours.antt =====
-- impl/lnpl/protocol.py: how an entry of `colour` changes what `_ownership_cycle` reads of a document.
use linkly.Base.{
  suc, ◌+◌, ◌≤◌, ◌≡◌, refl, sym, ap, ◌∙◌, Bool, true, false, ◌||◌, Option, none, some, List, [],
  ◌∷◌, length, arith, Bool-cases, inl, inr, All,
}
use linkly.Base.Text.{Text, is_in, same_text, same_text_refl, same_text→eq}
use linkly.Protocol.Cycle.{Colour, white, grey, black, Mark, Shade, mark_of, paint, weight}

abbrev pub kids_of : Option Shade → List Text
kids_of none = []
kids_of (some shade) = shade.1

abbrev pub recolour : Colour → Option Shade → Option Shade
recolour c none = none
recolour c (some shade) = some (c, shade.1)

pub flipped : (s t : Text) → same_text s t ≡ false → same_text t s ≡ false
flipped s t h = elim (Bool-cases (same_text t s)) [
  | inr apart ↦ apart
  | inl same ↦
      let equal = same_text→eq t s same in
      absurd (cc (sym h ∙ ap (same_text s) equal ∙ same_text_refl s))
]

pub mark_of-paint :
    (id : Text) (c : Colour) (marks : List Mark)
    → mark_of id (paint id c marks) ≡ recolour c (mark_of id marks)
unfolding mark_of paint
mark_of-paint id c [] = refl
mark_of-paint id c (m ∷ marks) = elim (Bool-cases (same_text m.id id)) [
  | inl same ↦ rw (same, same) refl
  | inr apart ↦ rw (apart, apart) (mark_of-paint id c marks)
]

pub mark_of-paint_other :
    (id k : Text) (c : Colour) (marks : List Mark)
    → same_text id k ≡ false
    → mark_of k (paint id c marks) ≡ mark_of k marks
unfolding mark_of paint
mark_of-paint_other id k c [] h = refl
mark_of-paint_other id k c (m ∷ marks) h = elim (Bool-cases (same_text m.id id)) [
  | inl same ↦
      let equal = same_text→eq m.id id same in
      let other : same_text m.id k ≡ false = ap (λ (t : Text). same_text t k) equal ∙ h in
      rw (same, other) refl
  | inr apart ↦ elim (Bool-cases (same_text m.id k)) [
    | inl here ↦ rw (apart, here) refl
    | inr there ↦ rw (apart, there) (mark_of-paint_other id k c marks h)
  ]
]

pub kids-paint :
    (id k : Text) (c : Colour) (marks : List Mark)
    → kids_of (mark_of k (paint id c marks)) ≡ kids_of (mark_of k marks)
kids-paint id k c marks = elim (Bool-cases (same_text id k)) [
  | inr apart ↦ ap kids_of (mark_of-paint_other id k c marks apart)
  | inl same ↦
      rw (sym (same_text→eq id k same), mark_of-paint id c marks) (by_shade (mark_of id marks))
]
  where
    by_shade : (o : Option Shade) → kids_of (recolour c o) ≡ kids_of o
    by_shade none = refl
    by_shade (some shade) = refl

pub weight-paint_black :
    (id : Text) (marks : List Mark) → weight (paint id black marks) ≤ weight marks
unfolding weight paint
weight-paint_black id [] = omega arith
weight-paint_black id (m ∷ marks) = elim (Bool-cases (same_text m.id id)) [
  | inl same ↦ rw same (omega arith)
  | inr apart ↦ let more = weight-paint_black id marks in rw apart (omega (arith, more))
]

pub weight-paint_grey :
    (id : Text) (kids : List Text) (marks : List Mark)
    → mark_of id marks ≡ some (white, kids)
    → weight (paint id grey marks) + suc (length kids) ≡ weight marks
unfolding weight paint mark_of
weight-paint_grey id kids [] h = absurd (cc h)
weight-paint_grey id kids (m ∷ marks) h = elim (Bool-cases (same_text m.id id)) [
  | inl same ↦
      let shade : some (m.colour, m.kids) ≡ some (white, kids) = rw same at h in
      let colour : m.colour ≡ white = cc shade in
      let equal : m.kids ≡ kids = cc shade in rw (same, colour, equal) (omega arith)
  | inr apart ↦
      let more = weight-paint_grey id kids marks (rw apart at h) in rw apart (omega (arith, more))
]

pub either : (b : Bool) {c : Bool} → c ≡ true → (b || c) ≡ true
either true h = refl
either false h = h

pub members :
    (l whole : List Text)
    → ((k : Text) → is_in k l ≡ true → is_in k whole ≡ true)
    → All (λ k. is_in k whole ≡ true) l
unfolding is_in
members [] whole h = tt
members (x ∷ l) whole h = (
  h x (rw (same_text_refl x) refl),
  members l whole (λ k inside. h k (either (same_text k x) inside)),
)
