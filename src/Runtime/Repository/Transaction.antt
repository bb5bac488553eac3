-- ===== src/Runtime/Repository/Transaction.antt =====
-- impl/lnpl/interp.py: what a run does between `begin` and the end of its transaction.
use linkly.Base.{
  ℕ, ◌≤◌, ◌<◌, ◌≡◌, ◌≢◌, ◌⊎◌, ◌∙◌, Option, some, List, ◌∷◌, length, arith, Option-cases, inl, inr,
}
use linkly.Base.Text.{Text}
use linkly.Base.Assoc.{Assoc, AllValues, lookup, set_key, lookup-AllValues, set_key-AllValues}
use linkly.Runtime.Repository.{
  Entry, Row, Table, Repo, Operation, write_row, table_of, execute, persist, build_row,
  assign_field,
}
use linkly.Runtime.Repository.Heap.{
  Content, view_rows, Where, AllWhere, Same, AllWhere-map, view_rows-Same, row_at-older,
  row_at-write_row, length-write_row,
}
use linkly.Runtime.Repository.Copies.{Below, Between}

module _ {V : Type 0} where
  -- The entries of the tables are rows of the heap.
  abbrev pub IsValid : Repo V → Type 0
  IsValid s = AllWhere (Below s.heap) s.rows

  abbrev pub view : Repo V → Assoc (Assoc (Content V))
  view s = view_rows s.heap s.rows

  module _ (h k : List (Row V)) where
    -- An address that is not one of those that `begin` gave out, from the heap h to the heap k.
    abbrev pub Apart : ℕ → Type 0
    Apart a = (a < length h) ⊎ (length k ≤ a)

    -- What a run does with its repository in a transaction: operations, `persist` of a row, a dict
    -- that it builds, and assignments to a field of a row. It knows no dict of the snapshot.
    pub data Step (text_value : Text → V) : Repo V → Repo V → Type 0 where
      ran :
          (s : Repo V) (entity : Text) (op : Operation) (key : Text)
          → Step text_value s (execute text_value s entity op key).0
      persisted :
          (s : Repo V) (entity key : Text) (e : Entry V)
          → Where Apart e
          → Where (Below s.heap) e
          → Step text_value s (persist s entity key e)
      built : (s : Repo V) (r : Row V) → Step text_value s (build_row s r)
      assigned :
          (s : Repo V) (a : ℕ) (field : Text) (v : V)
          → Apart a
          → Step text_value s (assign_field s a field v)

    pub data Steps (text_value : Text → V) : Repo V → Repo V → Type 0 where
      done : {s : Repo V} → Steps text_value s s
      next : {s t u : Repo V} → Step text_value s t → Steps text_value t u → Steps text_value s u

    -- A transaction that is open, with the copies between h and k, over tables that showed `start`.
    pub record IsOpenAt (start : Assoc (Assoc (Content V))) (heap : List (Row V))
        (rows : Assoc (Table V)) (snapshot : Option (Assoc (Table V))) : Type 0 where
      pub saved : Assoc (Table V)
      pub is_saved : snapshot ≡ some saved
      pub lies : AllWhere (Between h k) saved
      pub room : length k ≤ length heap
      pub shows : view_rows heap saved ≡ start
      pub valid : AllWhere (Below heap) rows
      pub apart : AllWhere Apart rows

    abbrev pub IsOpen : Assoc (Assoc (Content V)) → Repo V → Type 0
    IsOpen start s = IsOpenAt start s.heap s.rows s.snapshot

    pub table_of-Where :
        (P : ℕ → Type 0) (entity : Text) (rows : Assoc (Table V))
        → AllWhere P rows
        → AllValues (Where P) (table_of entity rows)
    unfolding table_of
    table_of-Where P entity rows w = elim (Option-cases (lookup entity rows)) [
      | inl missing ↦ rw missing tt
      | inr (t, found) ↦ rw found (lookup-AllValues (AllValues (Where P)) entity rows t w found)
    ]

    pub put-IsOpen :
        {start : Assoc (Assoc (Content V))} {heap : List (Row V)} {rows : Assoc (Table V)}
        {snapshot : Option (Assoc (Table V))} (entity : Text) (t : Table V)
        → IsOpenAt start heap rows snapshot
        → AllValues (Where (Below heap)) t
        → AllValues (Where Apart) t
        → IsOpenAt start heap (set_key entity t rows) snapshot
    put-IsOpen {heap = heap} {rows = rows} entity t o below apart = record {
      saved = o.saved;
      is_saved = o.is_saved;
      lies = o.lies;
      room = o.room;
      shows = o.shows;
      valid = set_key-AllValues (AllValues (Where (Below heap))) entity t rows below o.valid;
      apart = set_key-AllValues (AllValues (Where Apart)) entity t rows apart o.apart;
    }

    -- A heap that keeps the rows of the snapshot.
    heap-IsOpen :
        {start : Assoc (Assoc (Content V))} {heap : List (Row V)} {rows : Assoc (Table V)}
        {snapshot : Option (Assoc (Table V))} (after : List (Row V))
        → IsOpenAt start heap rows snapshot
        → length heap ≤ length after
        → Same (Between h k) heap after
        → IsOpenAt start after rows snapshot
    heap-IsOpen {heap = heap} {rows = rows} after o grows same = record {
      saved = o.saved;
      is_saved = o.is_saved;
      lies = o.lies;
      room = omega (arith, grows, o.room);
      shows = view_rows-Same heap after o.saved same o.lies ∙ o.shows;
      valid = AllWhere-map rows (λ a b. omega (arith, b, grows)) o.valid;
      apart = o.apart;
    }

    pub build-IsOpen :
        {start : Assoc (Assoc (Content V))} {heap : List (Row V)} {rows : Assoc (Table V)}
        {snapshot : Option (Assoc (Table V))} (r : Row V)
        → IsOpenAt start heap rows snapshot
        → IsOpenAt start (r ∷ heap) rows snapshot
    build-IsOpen {heap = heap} r o =
        heap-IsOpen (r ∷ heap) o (omega arith)
          (λ a b. row_at-older r heap a (omega (arith, b.1, o.room)))

    pub assign-IsOpen :
        {start : Assoc (Assoc (Content V))} {heap : List (Row V)} {rows : Assoc (Table V)}
        {snapshot : Option (Assoc (Table V))} (a : ℕ) (field : Text) (v : V)
        → Apart a
        → IsOpenAt start heap rows snapshot
        → IsOpenAt start (write_row heap a field v) rows snapshot
    assign-IsOpen {heap = heap} a field v away o =
        heap-IsOpen (write_row heap a field v) o (omega (arith, length-write_row heap a field v))
          (λ b lies. row_at-write_row heap b a field v (ne b lies away))
      where
        ne : (b : ℕ) → Between h k b → Apart a → b ≢ a
        ne b lies (inl lt) same = omega (arith, same, lt, lies.0)
        ne b lies (inr le) same = omega (arith, same, le, lies.1)
