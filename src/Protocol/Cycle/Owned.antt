-- ===== src/Protocol/Cycle/Owned.antt =====
-- impl/lnpl/protocol.py: `_ownership_cycle` returns, and what it returns is a cycle of owners.
use linkly.Base.{
  ℕ, zero, suc, ◌+◌, ◌<◌, ◌≡◌, ◌⊎◌, refl, sym, ap, ◌∙◌, true, Option, none, some, List, [], ◌∷◌,
  ◌++◌, length, arith, Bool-cases, inl, inr, All,
}
use linkly.Base.Text.{Text, is_in, same_text, same_text_refl, same_text→eq}
use linkly.Base.Assoc.{Assoc, lookup}
use linkly.Protocol.Cycle.{
  Colour, white, grey, black, Mark, Shade, mark_of, paint, Frame, Search, found, searched, no_index,
  stuck, cycle_up, visit, advance, follow, walk, weight, from_root, next_root, search_roots,
  sorted_ids, all_white, list_of, ownership_cycle,
}
use linkly.Protocol.Cycle.Colours.{
  kids_of, recolour, mark_of-paint, mark_of-paint_other, flipped, kids-paint, weight-paint_black,
  weight-paint_grey, either, members,
}

unfoldable pub ids : List Frame → List Text
ids [] = []
ids ((id, kids) ∷ stack) = id ∷ ids stack

unfoldable load : List Frame → ℕ
load [] = 0
load ((id, kids) ∷ stack) = suc (length kids) + load stack

module _ (family : Text → List Text) where
  -- A node that has another one among its children.
  abbrev pub Owns : Text → Text → Type 0
  Owns a b = is_in b (family a) ≡ true

  -- Each node owns the one behind it.
  abbrev pub Linked : List Text → Type 0
  Linked [] = Unit
  Linked (a ∷ []) = Unit
  Linked (a ∷ b ∷ l) = Owns a b × Linked (b ∷ l)

  -- A list that begins and ends with the same node, in which each node owns the one behind it.
  pub record IsCycle (cycle : List Text) : Type 0 where
    pub start : Text
    pub between : List Text
    pub whole : cycle ≡ start ∷ between ++ start ∷ []
    pub linked : Linked cycle

  abbrev pub OwnedBy : Text → List Frame → Type 0
  OwnedBy b [] = Unit
  OwnedBy b ((id, kids) ∷ stack) = Owns id b

  abbrev Stands : List Frame → Type 0
  Stands [] = Unit
  Stands ((id, kids) ∷ stack) = All (λ k. Owns id k) kids × (OwnedBy id stack × Stands stack)

  abbrev pub Kept : List Mark → Type 0
  Kept marks = (k : Text) → kids_of (mark_of k marks) ≡ family k

  abbrev pub Greys : List Mark → List Frame → Type 0
  Greys marks stack =
      (k : Text) (kids : List Text)
      → mark_of k marks ≡ some (grey, kids)
      → is_in k (ids stack) ≡ true

  abbrev pub Answer : Search → Type 0
  Answer (found cycle) = IsCycle cycle
  Answer (searched marks) = Kept marks × Greys marks []
  Answer no_index = ⊥
  Answer stuck = ⊥

  cycle_up-Answer :
      (kid b : Text) (stack : List Frame) (acc between : List Text)
      → b ∷ acc ≡ between ++ kid ∷ []
      → Linked (b ∷ acc)
      → OwnedBy b stack
      → Stands stack
      → is_in kid (ids stack) ≡ true
      → Answer (cycle_up kid stack (b ∷ acc))
  unfolding cycle_up is_in ids
  cycle_up-Answer kid b [] acc between e l o s h = absurd (cc h)
  cycle_up-Answer kid b ((id, kids) ∷ stack) acc between e l o s h =
      elim (Bool-cases (same_text id kid)) [
        | inl same ↦ rw same (record {
          start = id;
          between = between;
          whole =
              ap (λ (t : List Text). id ∷ t) e
              ∙ ap (λ (t : Text). id ∷ between ++ t ∷ []) (sym (same_text→eq id kid same));
          linked = (o, l);
        })
        | inr apart ↦
            let deeper : is_in kid (ids stack) ≡ true = rw (flipped id kid apart) at h in
            rw apart (
              cycle_up-Answer kid id stack (b ∷ acc) (id ∷ between)
                (ap (λ (t : List Text). id ∷ t) e) (o, l) s.1.0 s.1.1 deeper)
      ]

  record Good (n : ℕ) (marks : List Mark) (stack : List Frame) : Type 0 where
    enough : weight marks + load stack < n
    kept : Kept marks
    greys : Greys marks stack
    stands : Stands stack

  pub paint-Kept :
      (id : Text) (c : Colour) (marks : List Mark) → Kept marks → Kept (paint id c marks)
  paint-Kept id c marks kept k = kids-paint id k c marks ∙ kept k

  open-Greys :
      (kid : Text) (rest : List Text) (marks : List Mark) (stack : List Frame)
      → Greys marks stack
      → Greys (paint kid grey marks) ((kid, rest) ∷ stack)
  unfolding is_in ids
  open-Greys kid rest marks stack greys k kids h = elim (Bool-cases (same_text kid k)) [
    | inl same ↦ rw (same_text→eq kid k same, same_text_refl k) refl
    | inr apart ↦
        either (same_text k kid)
          (greys k kids (sym (mark_of-paint_other kid k grey marks apart) ∙ h))
  ]

  close-Greys :
      (id : Text) (rest : List Text) (marks : List Mark) (stack : List Frame)
      → Greys marks ((id, rest) ∷ stack)
      → Greys (paint id black marks) stack
  unfolding is_in ids
  close-Greys id rest marks stack greys k kids h = elim (Bool-cases (same_text id k)) [
    | inl same ↦
        let equal = same_text→eq id k same in
        let painted = mark_of-paint id black marks in
        absurd (
          by_shade (mark_of id marks)
            (sym painted ∙ ap (λ (t : Text). mark_of t (paint id black marks)) equal ∙ h))
    | inr apart ↦
        let inside = greys k kids (sym (mark_of-paint_other id k black marks apart) ∙ h) in
        rw (flipped id k apart) at inside
  ]
    where
      by_shade : (o : Option Shade) → recolour black o ≡ some (grey, kids) → ⊥
      by_shade none e = cc e
      by_shade (some shade) e = cc e

  owned_kids :
      (id : Text) (c : Colour) (kids : List Text) (marks : List Mark)
      → Kept marks
      → mark_of id marks ≡ some (c, kids)
      → All (λ k. Owns id k) kids
  owned_kids id c kids marks kept h =
      let same : family id ≡ kids = sym (kept id) ∙ ap kids_of h in
      rw same (members kids kids (λ k inside. inside))

  module _ (n : ℕ)
      (more : (m : List Mark) (s : List Frame) → Good n m s → Answer (walk n m s)) where
    visit-Answer :
        (id kid : Text) (kids : List Text) (marks : List Mark) (stack : List Frame)
        (o : Option Shade)
        → mark_of kid marks ≡ o
        → Owns id kid
        → Good n marks ((id, kids) ∷ stack)
        → Answer (follow (visit kid o marks ((id, kids) ∷ stack)) (walk n))
    unfolding load
    visit-Answer id kid kids marks stack none h o g = more marks ((id, kids) ∷ stack) g
    visit-Answer id kid kids marks stack (some (black, theirs)) h o g =
        more marks ((id, kids) ∷ stack) g
    visit-Answer id kid kids marks stack (some (grey, theirs)) h o g =
        cycle_up-Answer kid kid ((id, kids) ∷ stack) [] [] refl tt o g.stands (g.greys kid theirs h)
    visit-Answer id kid kids marks stack (some (white, theirs)) h o g =
        let lighter = weight-paint_grey kid theirs marks h in
        let room = g.enough in
        more (paint kid grey marks) ((kid, theirs) ∷ (id, kids) ∷ stack) (record {
          enough = omega (arith, lighter, room);
          kept = paint-Kept kid grey marks g.kept;
          greys = open-Greys kid theirs marks ((id, kids) ∷ stack) g.greys;
          stands = (owned_kids kid white theirs marks g.kept h, (o, g.stands));
        })

    advance-Answer :
        (marks : List Mark) (stack : List Frame)
        → Good (suc n) marks stack
        → Answer (follow (advance marks stack) (walk n))
    unfolding load ids
    advance-Answer marks [] g = (g.kept, g.greys)
    advance-Answer marks ((id, []) ∷ stack) g =
        let lighter = weight-paint_black id marks in
        let room = g.enough in
        more (paint id black marks) stack (record {
          enough = omega (arith, lighter, room);
          kept = paint-Kept id black marks g.kept;
          greys = close-Greys id [] marks stack g.greys;
          stands = g.stands.1.1;
        })
    advance-Answer marks ((id, kid ∷ kids) ∷ stack) g =
        let room = g.enough in
        visit-Answer id kid kids marks stack (mark_of kid marks) refl g.stands.0.0 (record {
          enough = omega (arith, room);
          kept = g.kept;
          greys = g.greys;
          stands = (g.stands.0.1, g.stands.1);
        })

  walk-Answer :
      (n : ℕ) (marks : List Mark) (stack : List Frame)
      → Good n marks stack
      → Answer (walk n marks stack)
  unfolding walk
  walk-Answer zero marks stack g = let room = g.enough in absurd (omega (arith, room))
  walk-Answer (suc n) marks stack g = advance-Answer n (walk-Answer n) marks stack g

  abbrev pub Rootless : List Mark → Type 0
  Rootless marks = Kept marks × Greys marks []

  pub from_root-Answer :
      (root : Text) (o : Option Shade) (marks : List Mark)
      → mark_of root marks ≡ o
      → Rootless marks
      → Answer (from_root root o marks)
  unfolding load
  from_root-Answer root none marks h r = r
  from_root-Answer root (some (grey, kids)) marks h r = r
  from_root-Answer root (some (black, kids)) marks h r = r
  from_root-Answer root (some (white, kids)) marks h r =
      let lighter = weight-paint_grey root kids marks h in
      walk-Answer (suc (weight marks)) (paint root grey marks) ((root, kids) ∷ []) (record {
        enough = omega (arith, lighter);
        kept = paint-Kept root grey marks r.0;
        greys = open-Greys root kids marks [] r.1;
        stands = (owned_kids root white kids marks r.0 h, (tt, tt));
      })

  next_root-Answer :
      (first : Search) (more : List Mark → Search)
      → Answer first
      → ((marks : List Mark) → Rootless marks → Answer (more marks))
      → Answer (next_root first more)
  next_root-Answer (found cycle) more h k = h
  next_root-Answer (searched marks) more h k = k marks h
  next_root-Answer no_index more h k = absurd h
  next_root-Answer stuck more h k = absurd h

  pub search_roots-Answer :
      (roots : List Text) (marks : List Mark) → Rootless marks → Answer (search_roots roots marks)
  unfolding search_roots
  search_roots-Answer [] marks r = r
  search_roots-Answer (root ∷ roots) marks r =
      next_root-Answer (from_root root (mark_of root marks) marks) (search_roots roots)
        (from_root-Answer root (mark_of root marks) marks refl r) (search_roots-Answer roots)

  listed :
      (s : Search)
      → Answer s
      → (cycle : List Text) × (list_of s ≡ some cycle) × ((cycle ≡ []) ⊎ IsCycle cycle)
  listed (found cycle) a = (cycle, refl, inr a)
  listed (searched marks) a = ([], refl, inl refl)
  listed no_index a = absurd a
  listed stuck a = absurd a

-- The children of a node, none where it is missing.
abbrev pub children_in : Assoc (List Text) → Text → List Text
children_in merged id = elim (lookup id merged) [ none ↦ [] | some kids ↦ kids ]

abbrev pub in_white : Option (List Text) → Option Shade
in_white none = none
in_white (some kids) = some (white, kids)

pub mark_of-all_white :
    (k : Text) (merged : Assoc (List Text))
    → mark_of k (all_white merged) ≡ in_white (lookup k merged)
unfolding mark_of all_white lookup
mark_of-all_white k [] = refl
mark_of-all_white k ((id, kids) ∷ merged) = elim (Bool-cases (same_text id k)) [
  | inl same ↦ rw same refl
  | inr apart ↦ rw apart (mark_of-all_white k merged)
]

pub all_white-Rootless :
    (merged : Assoc (List Text)) → Rootless (children_in merged) (all_white merged)
all_white-Rootless merged = (
  λ k. ap kids_of (mark_of-all_white k merged) ∙ by_entry (lookup k merged),
  λ k kids h. absurd (no_grey (lookup k merged) kids (sym (mark_of-all_white k merged) ∙ h)),
)
  where
    by_entry :
        (o : Option (List Text)) → kids_of (in_white o) ≡ elim o [ none ↦ [] | some kids ↦ kids ]
    by_entry none = refl
    by_entry (some kids) = refl

    no_grey : (o : Option (List Text)) (kids : List Text) → in_white o ≡ some (grey, kids) → ⊥
    no_grey none kids e = cc e
    no_grey (some theirs) kids e = cc e

-- Whatever the children are, _ownership_cycle returns a list, and that list is empty or a cycle: it
-- begins and ends with the same node, and each node in it owns the one behind it.
pub ownership_cycle-IsCycle :
    (merged : Assoc (List Text))
    → (cycle : List Text) × (ownership_cycle merged ≡ some cycle)
      × ((cycle ≡ []) ⊎ IsCycle (children_in merged) cycle)
unfolding ownership_cycle
ownership_cycle-IsCycle merged =
    let marks = all_white merged in
    let family = children_in merged in
    listed family (search_roots (sorted_ids marks) marks)
      (search_roots-Answer family (sorted_ids marks) marks (all_white-Rootless merged))
