-- ===== src/Runtime/Repository/Copies.antt =====
-- impl/lnpl/interp.py: the comprehensions of `begin` copy every row into a dict of its own.
use linkly.Base.{
  ℕ, ◌≤◌, ◌<◌, ◌≡◌, refl, ◌∙◌, some, List, [], ◌∷◌, ◌==◌, length, arith, Bool-cases, inl, inr,
}
use linkly.Base.Assoc.{Assoc, AllValues, AllValues-map}
use linkly.Runtime.Repository.{
  Entry, dict_at, none_row, plain_row, Row, Table, row_at, copy_entry, copy_table, copy_rows,
}
use linkly.Runtime.Repository.Heap.{
  view_entry, view_table, view_rows, Where, AllWhere, Same, Where-map, AllWhere-map,
  view_entry-Same, view_table-Same, view_rows-Same, row_at-older, row_at-newest,
}

module _ {V : Type 0} where
  abbrev pub Below : List (Row V) → ℕ → Type 0
  Below h a = a < length h

  abbrev pub Between : List (Row V) → List (Row V) → ℕ → Type 0
  Between h k a = (length h ≤ a) × (a < length k)

  -- A heap with the rows of another, and maybe more.
  pub record Extends (h k : List (Row V)) : Type 0 where
    pub grows : length h ≤ length k
    pub keeps : Same (Below h) h k

  pub Extends-refl : (h : List (Row V)) → Extends h h
  Extends-refl h = record { grows = omega arith; keeps = λ a w. refl }

  pub Extends-cons : (r : Row V) (h : List (Row V)) → Extends h (r ∷ h)
  Extends-cons r h = record { grows = omega arith; keeps = λ a w. row_at-older r h a w }

  pub Extends-trans : {h k l : List (Row V)} → Extends h k → Extends k l → Extends h l
  Extends-trans {h} {k} x y = record {
    grows = omega (arith, x.grows, y.grows);
    keeps = λ a w. y.keeps a (omega (arith, w, x.grows)) ∙ x.keeps a w;
  }

  row_at-Below : (h : List (Row V)) (a : ℕ) → a < length h → (r : Row V) × (row_at h a ≡ some r)
  unfolding row_at
  row_at-Below [] a lt = absurd (omega (arith, lt))
  row_at-Below (r ∷ h) a lt = elim (Bool-cases (length h == a)) [
    | inl here ↦ (r, rw here refl)
    | inr older ↦ let (q, found) = row_at-Below h a (ground arith) in (q, rw older found)
  ]

  -- A copied entry: what it shows and where it lies.
  pub copy_entry-eq :
      (h : List (Row V)) (e : Entry V)
      → Where (Below h) e
      → Extends h (copy_entry h e).0
        × (view_entry (copy_entry h e).0 (copy_entry h e).1 ≡ view_entry h e)
        × Where (Between h (copy_entry h e).0) (copy_entry h e).1
  unfolding copy_entry
  copy_entry-eq h (dict_at a) w =
      let (r, found) = row_at-Below h a w in
      rw found (Extends-cons r h, rw (row_at-newest r h) refl, (omega arith, omega arith))
  copy_entry-eq h none_row w = (Extends-refl h, refl, tt)
  copy_entry-eq h (plain_row v) w = (Extends-refl h, refl, tt)

  copy_table-eq :
      (h : List (Row V)) (t : Table V)
      → AllValues (Where (Below h)) t
      → Extends h (copy_table h t).0
        × (view_table (copy_table h t).0 (copy_table h t).1 ≡ view_table h t)
        × AllValues (Where (Between h (copy_table h t).0)) (copy_table h t).1
  unfolding copy_table
  copy_table-eq h [] w = (Extends-refl h, refl, tt)
  copy_table-eq h ((key, e) ∷ t) w =
      let h1 = (copy_entry h e).0 in
      let e1 = (copy_entry h e).1 in
      let h2 = (copy_table h1 t).0 in
      let (x, shown, lies) = copy_entry-eq h e w.0 in
      let (y, rest, all_lie) =
        copy_table-eq h1 t (AllValues-map t (Where-map (λ a b. omega (arith, b, x.grows))) w.1) in
      let first : view_entry h2 e1 ≡ view_entry h e =
        view_entry-Same h1 h2 e1 y.keeps (Where-map (λ a b. b.1) e1 lies) ∙ shown in
      let others : view_table h2 (copy_table h1 t).1 ≡ view_table h t =
        rest ∙ view_table-Same h h1 t x.keeps w.1 in
      (
        Extends-trans x y,
        rw (first, others) refl,
        (
          Where-map (λ a b. (b.0, omega (arith, b.1, y.grows))) e1 lies,
          AllValues-map (copy_table h1 t).1 (Where-map (λ a b. (omega (arith, b.0, x.grows), b.1)))
              all_lie,
        ),
      )

  -- The copies of the tables show what the tables show, and lie in the new part of the heap.
  pub copy_rows-eq :
      (h : List (Row V)) (ts : Assoc (Table V))
      → AllWhere (Below h) ts
      → Extends h (copy_rows h ts).0
        × (view_rows (copy_rows h ts).0 (copy_rows h ts).1 ≡ view_rows h ts)
        × AllWhere (Between h (copy_rows h ts).0) (copy_rows h ts).1
  unfolding copy_rows
  copy_rows-eq h [] w = (Extends-refl h, refl, tt)
  copy_rows-eq h ((entity, t) ∷ ts) w =
      let h1 = (copy_table h t).0 in
      let t1 = (copy_table h t).1 in
      let h2 = (copy_rows h1 ts).0 in
      let (x, shown, lies) = copy_table-eq h t w.0 in
      let (y, rest, all_lie) =
        copy_rows-eq h1 ts (AllWhere-map ts (λ a b. omega (arith, b, x.grows)) w.1) in
      let first : view_table h2 t1 ≡ view_table h t =
        view_table-Same h1 h2 t1 y.keeps (AllValues-map t1 (Where-map (λ a b. b.1)) lies) ∙ shown in
      let others : view_rows h2 (copy_rows h1 ts).1 ≡ view_rows h ts =
        rest ∙ view_rows-Same h h1 ts x.keeps w.1 in
      (
        Extends-trans x y,
        rw (first, others) refl,
        (
          AllValues-map t1 (Where-map (λ a b. (b.0, omega (arith, b.1, y.grows)))) lies,
          AllWhere-map (copy_rows h1 ts).1 (λ a b. (omega (arith, b.0, x.grows), b.1)) all_lie,
        ),
      )
