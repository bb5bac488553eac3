-- ===== src/Protocol/Cycle/Acyclic.antt =====
-- impl/lnpl/protocol.py: a search of `_ownership_cycle` that ends without a cycle has finished what it
-- could reach.
use linkly.Base.{
  ◌≡◌, ◌⊎◌, refl, sym, ap, ◌∙◌, Bool, true, Option, none, some, List, [], ◌∷◌, Bool-cases, inl, inr,
  zero, suc, ℕ,
}
use linkly.Base.Text.{Text, is_in, same_text}
use linkly.Protocol.Cycle.{
  Colour, white, grey, black, Mark, Shade, mark_of, paint, Frame, Search, found, searched, no_index,
  stuck, cycle_up, visit, advance, follow, walk, weight, from_root, next_root, search_roots,
}
use linkly.Protocol.Cycle.Colours.{kids_of}
use linkly.Protocol.Cycle.Owned.{ids, Kept, Rootless, Answer, paint-Kept, from_root-Answer}
use linkly.Protocol.Cycle.Finished.{
  is_there, head-is_in, empty-is_in, tail-is_in, is_in-cases, Behind, Top, Sound, Left, Done,
  pop-Pending, paint-there, open-Blacks, close-Blacks, weaker,
}

-- The roots that are left, as nodes whose children are done.
unfoldable pub frames : List Text → List Frame
frames [] = []
frames (root ∷ roots) = (root, []) ∷ frames roots

module _ (family : Text → List Text) (known : Text → Bool) where
  cycle_up-Done :
      (kid : Text) (frames stack : List Frame) (order acc : List Text)
      → Done family known stack order (cycle_up kid frames acc)
  unfolding cycle_up
  cycle_up-Done kid [] stack order acc = tt
  cycle_up-Done kid ((id, kids) ∷ frames) stack order acc = elim (Bool-cases (same_text id kid)) [
    | inl same ↦ rw same tt
    | inr apart ↦ rw apart (cycle_up-Done kid frames stack order (id ∷ acc))
  ]

  -- The next child is no child that the node waits for.
  skip-Top :
      (id kid : Text) (kids order : List Text)
      → Top family known id (kid ∷ kids) order
      → (known kid ≡ true → is_in kid order ≡ true)
      → Top family known id kids order
  skip-Top id kid kids order h done k o t = elim (h k o t) [
    | inr there ↦ inr there
    | inl left ↦ elim (is_in-cases k kid kids left) [
      | inl same ↦ inr (rw same (done (rw same at t)))
      | inr later ↦ inl later
    ]
  ]

  push-Top :
      (id kid : Text) (kids order : List Text)
      → Top family known id (kid ∷ kids) order
      → Top family known id kids (kid ∷ order)
  push-Top id kid kids order h k o t = elim (h k o t) [
    | inr there ↦ inr (tail-is_in k kid order there)
    | inl left ↦ elim (is_in-cases k kid kids left) [
      | inl same ↦ inr (rw same (head-is_in kid order))
      | inr later ↦ inl later
    ]
  ]

  kids-Top :
      (kid : Text) (c : Colour) (kids : List Text) (marks : List Mark) (order : List Text)
      → Kept family marks
      → mark_of kid marks ≡ some (c, kids)
      → Top family known kid kids order
  kids-Top kid c kids marks order kept h k o t =
      let same : kids ≡ family kid = sym (ap kids_of h) ∙ kept kid in inl (rw same o)

  drop_kid :
      (id kid : Text) (kids : List Text) (marks : List Mark) (stack : List Frame)
      (order : List Text)
      → Sound family known marks ((id, kid ∷ kids) ∷ stack) order
      → (known kid ≡ true → is_in kid order ≡ true)
      → Sound family known marks ((id, kids) ∷ stack) order
  drop_kid id kid kids marks stack order s done = record {
    kept = s.kept;
    there = s.there;
    blacks = s.blacks;
    ordered = s.ordered;
    pending = (skip-Top id kid kids order s.pending.0 done, s.pending.1);
  }

  module _ (n : ℕ)
      (more : (m : List Mark) (s : List Frame) (order : List Text)
        → Sound family known m s order
        → Done family known s order (walk n m s)) where
    visit-Done :
        (id kid : Text) (kids : List Text) (marks : List Mark) (stack : List Frame)
        (order : List Text) (o : Option Shade)
        → mark_of kid marks ≡ o
        → Sound family known marks ((id, kid ∷ kids) ∷ stack) order
        → Done family known
            ((id, kids) ∷ stack)
            order
            (follow (visit kid o marks ((id, kids) ∷ stack)) (walk n))
    unfolding ids
    visit-Done id kid kids marks stack order none h s = more marks ((id, kids) ∷ stack) order (
        drop_kid id kid kids marks stack order s
          (λ t. absurd (cc (sym t ∙ sym (s.there kid) ∙ ap is_there h))))
    visit-Done id kid kids marks stack order (some (black, theirs)) h s =
        more marks ((id, kids) ∷ stack) order
          (drop_kid id kid kids marks stack order s (λ t. s.blacks kid theirs h))
    visit-Done id kid kids marks stack order (some (grey, theirs)) h s =
        cycle_up-Done kid ((id, kids) ∷ stack) ((id, kids) ∷ stack) order (kid ∷ [])
    visit-Done id kid kids marks stack order (some (white, theirs)) h s =
        weaker family known ((id, kids) ∷ stack) ((kid, theirs) ∷ (id, kids) ∷ stack) order order _
          (λ k there. there) (λ k there t. inl (pushed k there))
          (more (paint kid grey marks) ((kid, theirs) ∷ (id, kids) ∷ stack) order (record {
            kept = paint-Kept family kid grey marks s.kept;
            there = paint-there family known kid grey marks s.there;
            blacks = open-Blacks family known kid marks order s.blacks;
            ordered = s.ordered;
            pending = (
              kids-Top kid white theirs marks order s.kept h,
              (push-Top id kid kids order s.pending.0, s.pending.1),
            );
          }))
      where
        pushed :
            (k : Text)
            → is_in k (ids ((id, kids) ∷ stack)) ≡ true
            → is_in k (ids ((kid, theirs) ∷ (id, kids) ∷ stack)) ≡ true
        pushed k there = tail-is_in k kid (id ∷ ids stack) there

    advance-Done :
        (marks : List Mark) (stack : List Frame) (order : List Text)
        → Sound family known marks stack order
        → Done family known stack order (follow (advance marks stack) (walk n))
    unfolding ids
    advance-Done marks [] order s = record {
      finished = order;
      sound = s;
      keeps = λ k h. h;
      empties = λ k h t. absurd (empty-is_in k h);
    }
    advance-Done marks ((id, []) ∷ stack) order s =
        weaker family known ((id, []) ∷ stack) stack order (id ∷ order) _
          (λ k h. tail-is_in k id order h) (λ k h t. popped k h)
          (more (paint id black marks) stack (id ∷ order) (record {
            kept = paint-Kept family id black marks s.kept;
            there = paint-there family known id black marks s.there;
            blacks = close-Blacks family known id marks order s.blacks;
            ordered = (behind, s.ordered);
            pending = pop-Pending family known id stack order s.pending.1;
          }))
      where
        popped :
            (k : Text)
            → is_in k (id ∷ ids stack) ≡ true
            → (is_in k (ids stack) ≡ true) ⊎ (is_in k (id ∷ order) ≡ true)
        popped k h = elim (is_in-cases k id (ids stack) h) [
          | inl same ↦ inr (rw same (head-is_in id order))
          | inr there ↦ inl there
        ]

        behind : Behind family known id order
        behind k o t = elim (s.pending.0 k o t) [
          | inl left ↦ absurd (empty-is_in k left)
          | inr there ↦ there
        ]
    advance-Done marks ((id, kid ∷ kids) ∷ stack) order s =
        weaker family known ((id, kid ∷ kids) ∷ stack) ((id, kids) ∷ stack) order order _ (λ k h. h)
          (λ k h t. inl h) (visit-Done id kid kids marks stack order (mark_of kid marks) refl s)

  walk-Done :
      (n : ℕ) (marks : List Mark) (stack : List Frame) (order : List Text)
      → Sound family known marks stack order
      → Done family known stack order (walk n marks stack)
  unfolding walk
  walk-Done zero marks stack order s = tt
  walk-Done (suc n) marks stack order s = advance-Done n (walk-Done n) marks stack order s

  from_root-Done :
      (root : Text) (o : Option Shade) (marks : List Mark) (order : List Text)
      → mark_of root marks ≡ o
      → Rootless family marks
      → Sound family known marks [] order
      → Done family known ((root, []) ∷ []) order (from_root root o marks)
  unfolding ids
  from_root-Done root o marks order h r s = by_shade o h
    where
      only : (k : Text) → is_in k (root ∷ []) ≡ true → k ≡ root
      only k there = elim (is_in-cases k root [] there) [
        | inl same ↦ same
        | inr inside ↦ absurd (empty-is_in k inside)
      ]

      stays :
          (known root ≡ true → is_in root order ≡ true)
          → Left family known ((root, []) ∷ []) order marks
      stays done = record {
        finished = order;
        sound = s;
        keeps = λ k there. there;
        empties = λ k there t. let same = only k there in rw same (done (rw same at t));
      }

      by_shade :
          (o : Option Shade)
          → mark_of root marks ≡ o
          → Done family known ((root, []) ∷ []) order (from_root root o marks)
      by_shade none h = stays (λ t. absurd (cc (sym t ∙ sym (s.there root) ∙ ap is_there h)))
      by_shade (some (black, kids)) h = stays (λ t. s.blacks root kids h)
      by_shade (some (grey, kids)) h = absurd (empty-is_in root (r.1 root kids h))
      by_shade (some (white, kids)) h =
          weaker family known ((root, []) ∷ []) ((root, kids) ∷ []) order order _ (λ k there. there)
            (λ k there t. inl there)
            (walk-Done (suc (weight marks)) (paint root grey marks) ((root, kids) ∷ []) order
              (record {
                kept = paint-Kept family root grey marks s.kept;
                there = paint-there family known root grey marks s.there;
                blacks = open-Blacks family known root marks order s.blacks;
                ordered = s.ordered;
                pending = (kids-Top root white kids marks order s.kept h, tt);
              }))

  next_root-Done :
      (root : Text) (roots order : List Text) (first : Search) (more : List Mark → Search)
      → Answer family first
      → Done family known ((root, []) ∷ []) order first
      → ((m : List Mark) (finished : List Text)
          → Rootless family m
          → Sound family known m [] finished
          → Done family known (frames roots) finished (more m))
      → Done family known ((root, []) ∷ frames roots) order (next_root first more)
  unfolding ids
  next_root-Done root roots order (searched m) more a d rest =
      weaker family known ((root, []) ∷ frames roots) (frames roots) order d.finished (more m)
        d.keeps by_root (rest m d.finished a d.sound)
    where
      by_root :
          (k : Text)
          → is_in k (root ∷ ids (frames roots)) ≡ true
          → known k ≡ true
          → (is_in k (ids (frames roots)) ≡ true) ⊎ (is_in k d.finished ≡ true)
      by_root k there t = elim (is_in-cases k root (ids (frames roots)) there) [
        | inr later ↦ inl later
        | inl same ↦
            let it : known root ≡ true = rw same at t in
            inr (rw same (d.empties root (head-is_in root []) it))
      ]
  next_root-Done root roots order (found c) more a d rest = tt
  next_root-Done root roots order no_index more a d rest = tt
  next_root-Done root roots order stuck more a d rest = tt

  pub search_roots-Done :
      (roots : List Text) (marks : List Mark) (order : List Text)
      → Rootless family marks
      → Sound family known marks [] order
      → Done family known (frames roots) order (search_roots roots marks)
  unfolding search_roots frames ids
  search_roots-Done [] marks order r s = record {
    finished = order;
    sound = s;
    keeps = λ k h. h;
    empties = λ k h t. absurd (empty-is_in k h);
  }
  search_roots-Done (root ∷ roots) marks order r s =
      next_root-Done root roots order (from_root root (mark_of root marks) marks)
        (search_roots roots) (from_root-Answer family root (mark_of root marks) marks refl r)
        (from_root-Done root (mark_of root marks) marks order refl r s)
        (λ m finished rootless sound. search_roots-Done roots m finished rootless sound)
