-- ===== src/Runtime/Repository/Seeds.antt =====
-- impl/lnpl/interp.py: `seed` leaves the rows that are there as they are.
use linkly.Base.{
  ℕ, ◌<◌, ◌≡◌, ◌⊎◌, refl, true, some, List, [], ◌∷◌, length, arith, Bool-cases, inl, inr,
}
use linkly.Base.Text.{Text, same_text, same_text→eq}
use linkly.Base.Assoc.{
  Assoc, AllValues, AllValues-map, lookup, set_key, set_default, lookup-set_key, lookup-set_other,
  lookup-set_default,
}
use linkly.Runtime.Repository.{
  Entry, Row, Table, Repo, row_at, copy_entry, table_of, seed_table, seed_rows, seed,
}
use linkly.Runtime.Repository.Heap.{Where, AllWhere, Where-map, AllWhere-map}
use linkly.Runtime.Repository.Copies.{Below, Extends, Extends-refl, Extends-trans, copy_entry-eq}

module _ {V : Type 0} where
  seed_table-keeps :
      (h : List (Row V)) (t src : Table V) (key : Text) (e : Entry V)
      → AllValues (Where (Below h)) src
      → lookup key t ≡ some e
      → Extends h (seed_table h t src).0 × (lookup key (seed_table h t src).1 ≡ some e)
  unfolding seed_table
  seed_table-keeps h t [] key e w found = (Extends-refl h, found)
  seed_table-keeps h t ((k, f) ∷ src) key e w found =
      let h1 = (copy_entry h f).0 in
      let e1 = (copy_entry h f).1 in
      let (x, shown, lies) = copy_entry-eq h f w.0 in
      let (y, kept) =
        seed_table-keeps h1 (set_default k e1 t) src key e
          (AllValues-map src (Where-map (λ a b. omega (arith, b, x.grows))) w.1)
          (lookup-set_default key k e1 e t found) in
      (Extends-trans x y, kept)

  seed_table-grows :
      (h : List (Row V)) (t src : Table V)
      → AllValues (Where (Below h)) src
      → Extends h (seed_table h t src).0
  unfolding seed_table
  seed_table-grows h t [] w = Extends-refl h
  seed_table-grows h t ((k, f) ∷ src) w =
      let h1 = (copy_entry h f).0 in
      let e1 = (copy_entry h f).1 in
      let (x, shown, lies) = copy_entry-eq h f w.0 in
      Extends-trans x (
        seed_table-grows h1 (set_default k e1 t) src
          (AllValues-map src (Where-map (λ a b. omega (arith, b, x.grows))) w.1))

  -- The tables behind one turn of the outer loop.
  table_of-set_key :
      (entity other : Text) (rows : Assoc (Table V)) (t : Table V)
      → ((same_text other entity ≡ true) × (table_of entity (set_key other t rows) ≡ t))
        ⊎ (table_of entity (set_key other t rows) ≡ table_of entity rows)
  unfolding table_of
  table_of-set_key entity other rows t = elim (Bool-cases (same_text other entity)) [
    | inl same ↦ inl (same, rw (same_text→eq other entity same, lookup-set_key entity t rows) refl)
    | inr apart ↦ inr (rw (lookup-set_other entity other t rows apart) refl)
  ]

  seed_rows-keeps :
      (h : List (Row V)) (rows source : Assoc (Table V)) (entity key : Text) (e : Entry V)
      → AllWhere (Below h) source
      → lookup key (table_of entity rows) ≡ some e
      → Extends h (seed_rows h rows source).0
        × (lookup key (table_of entity (seed_rows h rows source).1) ≡ some e)
  unfolding seed_rows
  seed_rows-keeps h rows [] entity key e w found = (Extends-refl h, found)
  seed_rows-keeps h rows ((other, src) ∷ more) entity key e w found =
      let h1 = (seed_table h (table_of other rows) src).0 in
      let t = (seed_table h (table_of other rows) src).1 in
      let x = seed_table-grows h (table_of other rows) src w.0 in
      let there : lookup key (table_of entity (set_key other t rows)) ≡ some e =
        elim (table_of-set_key entity other rows t) [
          | inl (same, whole) ↦
              rw whole
                (seed_table-keeps h (table_of other rows) src key e w.0
                  (rw (same_text→eq other entity same) found)).1
          | inr untouched ↦ rw untouched found
        ] in
      let (y, kept) =
        seed_rows-keeps h1 (set_key other t rows) more entity key e
          (AllWhere-map more (λ a b. omega (arith, b, x.grows)) w.1) there in
      (Extends-trans x y, kept)

  -- A row that a table holds stays the same entry under a `seed` with rows of the heap, and no dict
  -- that was there changes.
  pub seed-keeps :
      (s : Repo V) (source : Assoc (Table V)) (entity key : Text) (e : Entry V)
      → AllWhere (Below s.heap) source
      → lookup key (table_of entity s.rows) ≡ some e
      → (lookup key (table_of entity (seed s source).rows) ≡ some e)
        × ((a : ℕ) → a < length s.heap → row_at (seed s source).heap a ≡ row_at s.heap a)
  unfolding seed
  seed-keeps s source entity key e w found =
      let (x, kept) = seed_rows-keeps s.heap s.rows source entity key e w found in (kept, x.keeps)
