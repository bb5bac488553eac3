-- ===== src/Runtime/Repository/Rollback.antt =====
-- impl/lnpl/interp.py: `rollback` brings back what `begin` saw, whatever a run did in between.
use linkly.Base.{
  ℕ, ◌<◌, ◌≤◌, ◌≡◌, refl, ◌∙◌, Option, none, some, List, length, arith, Option-cases, inl, inr,
}
use linkly.Base.Result.{ok}
use linkly.Base.Text.{Text}
use linkly.Base.Assoc.{
  Assoc, AllValues, AllValues-map, lookup, set_key, drop_key, lookup-AllValues, set_key-AllValues,
  drop_key-AllValues,
}
use linkly.Runtime.Repository.{
  Entry, dict_at, Row, Table, Repo, Operation, read, query, create, update, delete, write_row,
  copy_rows, table_of, run_on, noted, execute, persist, build_row, assign_field, begin, rollback,
  row_reply, new_repo,
}
use linkly.Runtime.Repository.Heap.{
  Content, view_rows, Where, AllWhere, Where-map, AllWhere-map, view_rows-Same, row_at-write_row,
}
use linkly.Runtime.Repository.Copies.{Below, Between, copy_rows-eq}
use linkly.Runtime.Repository.Transaction.{
  IsValid, view, Apart, Step, ran, persisted, built, assigned, Steps, done, next, IsOpen,
  table_of-Where, put-IsOpen, build-IsOpen, assign-IsOpen,
}

module _ {V : Type 0} (text_value : Text → V) (h k : List (Row V))
    (start : Assoc (Assoc (Content V))) where
  noted-IsOpen :
      (s : Repo V) (entity : Text) (op : Operation)
      → IsOpen h k start s
      → IsOpen h k start (noted s entity op)
  unfolding noted
  noted-IsOpen s entity op o =
      put-IsOpen h k entity (table_of entity s.rows) o
        (table_of-Where h k (Below s.heap) entity s.rows o.valid)
        (table_of-Where h k (Apart h k) entity s.rows o.apart)

  run_on-IsOpen :
      (op : Operation) (entity key : Text) (t : Table V) (found : Option (Entry V)) (s : Repo V)
      → AllValues (Where (Below s.heap)) t
      → AllValues (Where (Apart h k)) t
      → IsOpen h k start s
      → IsOpen h k start (run_on text_value op entity key t found s).0
  run_on-IsOpen read entity key t found s below apart o = o
  run_on-IsOpen query entity key t found s below apart o = o
  run_on-IsOpen create entity key t (some e) s below apart o = o
  run_on-IsOpen create entity key t none s below apart o =
      put-IsOpen h k entity (set_key key (dict_at (length s.heap)) t) (build-IsOpen h k _ o)
        (set_key-AllValues (Where _) key _ t (omega arith)
          (AllValues-map t (Where-map (λ a b. omega (arith, b))) below))
        (set_key-AllValues (Where (Apart h k)) key _ t (inr o.room) apart)
  run_on-IsOpen update entity key t found s below apart o = o
  run_on-IsOpen delete entity key t found s below apart o =
      put-IsOpen h k entity (drop_key key t) o
        (drop_key-AllValues (Where (Below s.heap)) key t below)
        (drop_key-AllValues (Where (Apart h k)) key t apart)

  Step-IsOpen : {s t : Repo V} → Step h k text_value s t → IsOpen h k start s → IsOpen h k start t
  unfolding execute persist build_row assign_field noted
  Step-IsOpen (ran s entity op key) o =
      run_on-IsOpen op entity key (table_of entity s.rows) (lookup key (table_of entity s.rows))
        (noted s entity op) (table_of-Where h k (Below s.heap) entity s.rows o.valid)
        (table_of-Where h k (Apart h k) entity s.rows o.apart) (noted-IsOpen s entity op o)
  Step-IsOpen (persisted s entity key e apart below) o =
      put-IsOpen h k entity (set_key key e (table_of entity s.rows)) o
        (set_key-AllValues (Where (Below s.heap)) key e (table_of entity s.rows) below
          (table_of-Where h k (Below s.heap) entity s.rows o.valid))
        (set_key-AllValues (Where (Apart h k)) key e (table_of entity s.rows) apart
          (table_of-Where h k (Apart h k) entity s.rows o.apart))
  Step-IsOpen (built s r) o = build-IsOpen h k r o
  Step-IsOpen (assigned s a field v away) o = assign-IsOpen h k a field v away o

  Steps-IsOpen : {s t : Repo V} → Steps h k text_value s t → IsOpen h k start s → IsOpen h k start t
  Steps-IsOpen done o = o
  Steps-IsOpen (next step steps) o = Steps-IsOpen steps (Step-IsOpen step o)

module _ {V : Type 0} (text_value : Text → V) where
  -- A reply with a row is the one that the key has.
  pub run_on-replied :
      (op : Operation) (entity key : Text) (t : Table V) (found : Option (Entry V)) (s : Repo V)
      (e : Entry V)
      → (run_on text_value op entity key t found s).1 ≡ ok (row_reply (some e))
      → found ≡ some e
  run_on-replied read entity key t found s e h = cc
  run_on-replied query entity key t found s e h = cc
  run_on-replied create entity key t none s e h = cc
  run_on-replied create entity key t (some x) s e h = cc
  run_on-replied update entity key t found s e h = cc
  run_on-replied delete entity key t found s e h = cc

  -- The state behind `begin`.
  abbrev begun : Repo V → Repo V
  begun s = record s {
    heap = (copy_rows s.heap s.rows).0;
    snapshot = some (copy_rows s.heap s.rows).1;
  }

  begin-begun : (s t : Repo V) → begin s ≡ ok t → t ≡ begun s
  unfolding begin
  begin-begun s t e = elim (Option-cases s.snapshot) [
    | inl closed ↦ cc
    | inr (saved, opened) ↦ absurd (cc)
  ]

  begun-IsOpen : (s : Repo V) → IsValid s → IsOpen s.heap (begun s).heap (view s) (begun s)
  begun-IsOpen s valid =
      let (x, shown, lies) = copy_rows-eq s.heap s.rows valid in
      record {
        saved = (copy_rows s.heap s.rows).1;
        is_saved = refl;
        lies = lies;
        room = omega arith;
        shows = shown;
        valid = AllWhere-map s.rows (λ a b. omega (arith, b, x.grows)) valid;
        apart = AllWhere-map s.rows (λ a b. inl b) valid;
      }

  begin-IsOpen : (s t : Repo V) → IsValid s → begin s ≡ ok t → IsOpen s.heap t.heap (view s) t
  begin-IsOpen s t valid e = rw (begin-begun s t e) (begun-IsOpen s valid)

  pub opened-IsOpen :
      (s t u : Repo V)
      → IsValid s
      → begin s ≡ ok t
      → Steps s.heap t.heap text_value t u
      → IsOpen s.heap t.heap (view s) u
  opened-IsOpen s t u valid opened steps =
      Steps-IsOpen text_value s.heap t.heap (view s) steps (begin-IsOpen s t valid opened)

  -- Where the table entries are rows of the heap and `begin` succeeds, after any steps that address no
  -- dict of the snapshot `rollback` leaves tables that show what they showed at `begin`: the same
  -- entities, keys and rows, also where a row was written in place. The table entries are rows of the
  -- heap again and no transaction is open.
  pub rollback-restores :
      (s t u : Repo V)
      → IsValid s
      → begin s ≡ ok t
      → Steps s.heap t.heap text_value t u
      → (view (rollback u) ≡ view s) × IsValid (rollback u) × ((rollback u).snapshot ≡ none)
  unfolding rollback
  rollback-restores s t u valid opened steps =
      let o = opened-IsOpen s t u valid opened steps in
      rw o.is_saved (o.shows, AllWhere-map o.saved (λ a b. omega (arith, b.1, o.room)) o.lies, refl)

  pub begin-grows : (s t : Repo V) → IsValid s → begin s ≡ ok t → length s.heap ≤ length t.heap
  begin-grows s t valid e =
      let (x, shown, lies) = copy_rows-eq s.heap s.rows valid in rw (begin-begun s t e) x.grows

  -- In a transaction that began with table entries that are rows of the heap, after any steps that
  -- address no dict of the snapshot, an operation hands out no dict of the snapshot either.
  pub execute-Apart :
      (s t u : Repo V) (entity : Text) (op : Operation) (key : Text) (e : Entry V)
      → IsValid s
      → begin s ≡ ok t
      → Steps s.heap t.heap text_value t u
      → (execute text_value u entity op key).1 ≡ ok (row_reply (some e))
      → Where (Apart s.heap t.heap) e
  unfolding execute
  execute-Apart s t u entity op key e valid opened steps replied =
      let o = opened-IsOpen s t u valid opened steps in
      lookup-AllValues (Where (Apart s.heap t.heap)) key (table_of entity u.rows) e
        (table_of-Where s.heap t.heap (Apart s.heap t.heap) entity u.rows o.apart)
        (run_on-replied op entity key (table_of entity u.rows) (lookup key (table_of entity u.rows))
          (noted u entity op) e replied)

-- A new repository shows the rows of the heap that it was given, and no write into one of the dicts
-- that were there before changes what it shows.
pub new_repo-view :
    {V : Type 0} (h : List (Row V)) (rows : Assoc (Table V)) (a : ℕ) (field : Text) (v : V)
    → AllWhere (Below h) rows
    → a < length h
    → (view (new_repo h rows) ≡ view_rows h rows)
      × (view (assign_field (new_repo h rows) a field v) ≡ view_rows h rows)
unfolding new_repo assign_field
new_repo-view h rows a field v valid old =
    let (x, shown, lies) = copy_rows-eq h rows valid in
    let k = (copy_rows h rows).0 in
    (
      shown,
      view_rows-Same {P = Between h k} k (write_row k a field v) (copy_rows h rows).1
            (λ b w. row_at-write_row k b a field v (λ same. omega (arith, same, old, w.0))) lies
          ∙ shown,
    )
