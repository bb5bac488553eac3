-- ===== src/Protocol/Cycle/Exact.antt =====
-- impl/lnpl/protocol.py: `_ownership_cycle` returns the empty list exactly where no cycle is.
use linkly.Base.{
  ◌≡◌, ◌↔◌, refl, sym, ap, ◌∙◌, Bool, true, Option, none, some, List, [], ◌∷◌, ◌++◌, Bool-cases,
  inl, inr,
}
use linkly.Base.Text.{Text, is_in, same_text, same_text→eq}
use linkly.Base.Json.{text_lt}
use linkly.Base.Assoc.{Assoc, lookup}
use linkly.Protocol.Cycle.{
  black, Mark, mark_of, Search, found, searched, no_index, stuck, search_roots, place_id,
  sorted_ids, all_white, list_of, ownership_cycle,
}
use linkly.Protocol.Cycle.Owned.{
  ids, Owns, Linked, Answer, IsCycle, search_roots-Answer, children_in, in_white, mark_of-all_white,
  all_white-Rootless, ownership_cycle-IsCycle,
}
use linkly.Protocol.Cycle.Finished.{
  is_there, head-is_in, empty-is_in, tail-is_in, is_in-cases, Behind, Ordered, Sound, Done,
}
use linkly.Protocol.Cycle.Acyclic.{frames, search_roots-Done}

module _ (family : Text → List Text) (known : Text → Bool) where
  closed :
      (a b : Text) (order : List Text)
      → Ordered family known order
      → is_in a order ≡ true
      → Owns family a b
      → known b ≡ true
      → is_in b order ≡ true
  closed a b [] o h owns t = absurd (empty-is_in a h)
  closed a b (x ∷ order) o h owns t = elim (is_in-cases a x order h) [
    | inl same ↦ tail-is_in b x order (o.0 b (rw same at owns) t)
    | inr later ↦ tail-is_in b x order (closed a b order o.1 later owns t)
  ]

  module _ (owners : (a b : Text) → Owns family a b → known a ≡ true) where
    next_known :
        (b : Text) (l : List Text) (z : Text) → Linked family (b ∷ l ++ z ∷ []) → known b ≡ true
    next_known b [] z linked = owners b z linked.0
    next_known b (c ∷ l) z linked = owners b c linked.0

    lasts :
        (b : Text) (l : List Text) (z : Text) (order : List Text)
        → Ordered family known order
        → is_in b order ≡ true
        → Linked family (b ∷ l ++ z ∷ [])
        → known z ≡ true
        → is_in z order ≡ true
    lasts b [] z order o h linked t = closed b z order o h linked.0 t
    lasts b (c ∷ l) z order o h linked t =
        lasts c l z order o (closed b c order o h linked.0 (next_known c l z linked.1)) linked.1 t

    none_ordered :
        (start : Text) (between order : List Text)
        → Ordered family known order
        → is_in start order ≡ true
        → Linked family (start ∷ between ++ start ∷ [])
        → ⊥
    none_ordered start between [] o h linked = empty-is_in start h
    none_ordered start between (x ∷ order) o h linked = elim (is_in-cases start x order h) [
      | inr later ↦ none_ordered start between order o.1 later linked
      | inl same ↦
          none_ordered start between order o.1 (around between linked (rw (sym same) at o.0)) linked
    ]
      where
        around :
            (between : List Text)
            → Linked family (start ∷ between ++ start ∷ [])
            → Behind family known start order
            → is_in start order ≡ true
        around [] linked behind = behind start linked.0 (owners start start linked.0)
        around (c ∷ l) linked behind =
            lasts c l start order o.1 (behind c linked.0 (next_known c l start linked.1)) linked.1
              (owners start c linked.0)

place_id-head : (id : Text) (l : List Text) → is_in id (place_id id l) ≡ true
unfolding place_id
place_id-head id [] = head-is_in id []
place_id-head id (next ∷ l) = elim (Bool-cases (text_lt next id)) [
  | inl later ↦ rw later (tail-is_in id next (place_id id l) (place_id-head id l))
  | inr here ↦ rw here (head-is_in id (next ∷ l))
]

place_id-keeps : (k id : Text) (l : List Text) → is_in k l ≡ true → is_in k (place_id id l) ≡ true
unfolding place_id
place_id-keeps k id [] h = absurd (empty-is_in k h)
place_id-keeps k id (next ∷ l) h = elim (Bool-cases (text_lt next id)) [
  | inr here ↦ rw here (tail-is_in k id (next ∷ l) h)
  | inl later ↦ rw later (elim (is_in-cases k next l h) [
    | inl same ↦ rw same (head-is_in next (place_id id l))
    | inr inside ↦ tail-is_in k next (place_id id l) (place_id-keeps k id l inside)
  ])
]

sorted_ids-has :
    (k : Text) (marks : List Mark)
    → is_there (mark_of k marks) ≡ true
    → is_in k (sorted_ids marks) ≡ true
unfolding sorted_ids mark_of
sorted_ids-has k [] h = absurd (cc h)
sorted_ids-has k (m ∷ marks) h = elim (Bool-cases (same_text m.id k)) [
  | inl same ↦ rw (same_text→eq m.id k same) (place_id-head k (sorted_ids marks))
  | inr apart ↦ place_id-keeps k m.id (sorted_ids marks) (sorted_ids-has k marks (rw apart at h))
]

frames-has : (k : Text) (l : List Text) → is_in k l ≡ true → is_in k (ids (frames l)) ≡ true
unfolding frames ids
frames-has k [] h = h
frames-has k (root ∷ l) h = elim (is_in-cases k root l h) [
  | inl same ↦ rw same (head-is_in root (ids (frames l)))
  | inr inside ↦ tail-is_in k root (ids (frames l)) (frames-has k l inside)
]

in_white-owner :
    (o : Option (List Text)) (b : Text)
    → is_in b (elim o [ none ↦ [] | some kids ↦ kids ]) ≡ true
    → is_there (in_white o) ≡ true
in_white-owner none b h = absurd (empty-is_in b h)
in_white-owner (some kids) b h = refl

in_white-no_black :
    (o : Option (List Text)) (kids : List Text) → in_white o ≡ some (black, kids) → ⊥
in_white-no_black none kids e = cc e
in_white-no_black (some theirs) kids e = cc e

module _ (merged : Assoc (List Text)) where
  abbrev known_in : Text → Bool
  known_in k = is_there (mark_of k (all_white merged))

  owner-known : (a b : Text) → Owns (children_in merged) a b → known_in a ≡ true
  owner-known a b h =
      ap is_there (mark_of-all_white a merged) ∙ in_white-owner (lookup a merged) b h

  all_white-Sound : Sound (children_in merged) known_in (all_white merged) [] []
  all_white-Sound = record {
    kept = (all_white-Rootless merged).0;
    there = λ k. refl;
    blacks = λ k kids h.
        absurd (in_white-no_black (lookup k merged) kids (sym (mark_of-all_white k merged) ∙ h));
    ordered = tt;
    pending = tt;
  }

  Done-acyclic :
      (s : Search)
      → Answer (children_in merged) s
      → Done (children_in merged) known_in (frames (sorted_ids (all_white merged))) [] s
      → list_of s ≡ some []
      → (cycle : List Text) → IsCycle (children_in merged) cycle
      → ⊥
  Done-acyclic (found c) a d e cycle it = let whole = a.whole in cc (whole, e)
  Done-acyclic no_index a d e cycle it = a
  Done-acyclic stuck a d e cycle it = a
  Done-acyclic (searched m) a d e cycle it =
      let marks = all_white merged in
      let linked : Linked (children_in merged) (it.start ∷ it.between ++ it.start ∷ []) =
        rw it.whole at it.linked in
      let t =
        next_known (children_in merged) known_in owner-known it.start it.between it.start linked in
      let there = frames-has it.start (sorted_ids marks) (sorted_ids-has it.start marks t) in
      none_ordered (children_in merged) known_in owner-known it.start it.between d.finished
        d.sound.ordered (d.empties it.start there t) linked

-- _ownership_cycle returns the empty list exactly where the document has no cycle of owners.
pub ownership_cycle-nil_iff :
    (merged : Assoc (List Text))
    → (ownership_cycle merged ≡ some [])
      ↔ ((cycle : List Text) → IsCycle (children_in merged) cycle → ⊥)
unfolding ownership_cycle
ownership_cycle-nil_iff merged =
    let family = children_in merged in
    let marks = all_white merged in
    let roots = sorted_ids marks in
    let rootless = all_white-Rootless merged in
    (
      λ e.
          Done-acyclic merged (search_roots roots marks)
            (search_roots-Answer family roots marks rootless)
            (search_roots-Done family (known_in merged) roots marks [] rootless
              (all_white-Sound merged))
            e,
      λ h.
          let (cycle, returned, which) = ownership_cycle-IsCycle merged in
          elim which [ inl nothing ↦ returned ∙ ap some nothing | inr it ↦ absurd (h cycle it) ],
    )
