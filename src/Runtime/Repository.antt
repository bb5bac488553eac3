-- ===== src/Runtime/Repository.antt =====
-- impl/lnpl/interp.py: `FakeRepository`, and the assignment that writes into a bound row.
-- A row is a Python dict that the tables and the bindings of a run share. So rows lie in a heap, and
-- a table entry is the address of a row: the number of rows that are older.
pub mod Heap
pub mod Copies
pub mod Transaction
pub mod Rollback
pub mod Seeds
use linkly.Base.{
  ℕ, ◌≡◌, Bool, true, false, Option, none, some, List, [], ◌∷◌, ◌++◌, ◌==◌, if◌then◌else◌, length,
}
use linkly.Base.Result.{Result, ok, err}
use linkly.Base.Text.{Text, codes}
use linkly.Base.Assoc.{Assoc, lookup, set_key, set_default, drop_key}

-- What `execute` returns of a read, or of another operation.
pub data RepoError : Type 0 where
  create_conflicts : Text → RepoError
  already_open : RepoError

pub data Operation : Type 0 where
  read query create update delete : Operation

-- A value of a table: a dict, `None`, or a row that is no dict. The fields of a row have values in V.
pub data Entry (V : Type 0) : Type 0 where
  dict_at : ℕ → Entry V
  none_row : Entry V
  plain_row : V → Entry V

abbrev pub Row : Type 0 → Type 0
Row V = Assoc V

abbrev pub Table : Type 0 → Type 0
Table V = Assoc (Entry V)

-- The heap, the newest row first, and the attributes `rows`, `calls` and `_snapshot`.
pub record Repo (V : Type 0) : Type 0 where
  pub heap : List (Row V)
  pub rows : Assoc (Table V)
  pub calls : List (Text × Operation)
  pub snapshot : Option (Assoc (Table V))

-- What `execute` returns: `table.get(key)`, or {"affected": n}.
pub data Reply (V : Type 0) : Type 0 where
  row_reply : Option (Entry V) → Reply V
  affected : ℕ → Reply V

module _ {V : Type 0} where
  -- The row at an address.
  unfoldable pub row_at : List (Row V) → ℕ → Option (Row V)
  row_at [] a = none
  row_at (r ∷ h) a = let rest = row_at h a in if length h == a then some r else rest

  -- `row[field] = value` on the row at an address.
  unfoldable pub write_row : List (Row V) → ℕ → Text → V → List (Row V)
  write_row [] a field value = []
  write_row (r ∷ h) a field value =
      let rest = write_row h a field value in
      if length h == a then set_key field value r ∷ h else r ∷ rest

  -- `dict(row) if isinstance(row, dict) else row`
  abbrev copy_dict : List (Row V) → Entry V → Option (Row V) → List (Row V) × Entry V
  copy_dict h e none = (h, e)
  copy_dict h e (some r) = (r ∷ h, dict_at (length h))

  unfoldable pub copy_entry : List (Row V) → Entry V → List (Row V) × Entry V
  copy_entry h (dict_at a) = copy_dict h (dict_at a) (row_at h a)
  copy_entry h none_row = (h, none_row)
  copy_entry h (plain_row v) = (h, plain_row v)

  -- The two comprehensions of `begin`.
  unfoldable pub copy_table : List (Row V) → Table V → List (Row V) × Table V
  copy_table h [] = (h, [])
  copy_table h ((key, e) ∷ t) =
      let (h1, e1) = copy_entry h e in let (h2, t1) = copy_table h1 t in (h2, (key, e1) ∷ t1)

  unfoldable pub copy_rows : List (Row V) → Assoc (Table V) → List (Row V) × Assoc (Table V)
  copy_rows h [] = (h, [])
  copy_rows h ((entity, t) ∷ ts) =
      let (h1, t1) = copy_table h t in let (h2, ts1) = copy_rows h1 ts in (h2, (entity, t1) ∷ ts1)

  -- `__init__`, on rows whose dicts lie in the heap.
  unfoldable pub new_repo : List (Row V) → Assoc (Table V) → Repo V
  new_repo h rows =
      let (h1, copies) = copy_rows h rows in
      record { heap = h1; rows = copies; calls = []; snapshot = none }

  -- `self.rows.setdefault(entity_id, {})`: the table.
  abbrev pub found_table : Option (Table V) → Table V
  found_table none = []
  found_table (some t) = t

  unfoldable pub table_of : Text → Assoc (Table V) → Table V
  table_of entity rows = found_table (lookup entity rows)

  -- The loops of `seed`.
  unfoldable pub seed_table : List (Row V) → Table V → Table V → List (Row V) × Table V
  seed_table h t [] = (h, t)
  seed_table h t ((key, e) ∷ src) =
      let (h1, e1) = copy_entry h e in seed_table h1 (set_default key e1 t) src

  unfoldable pub seed_rows :
      List (Row V) → Assoc (Table V) → Assoc (Table V) → List (Row V) × Assoc (Table V)
  seed_rows h rows [] = (h, rows)
  seed_rows h rows ((entity, src) ∷ more) =
      let (h1, t) = seed_table h (table_of entity rows) src in
      seed_rows h1 (set_key entity t rows) more

  -- `seed`, on rows whose dicts lie in the heap.
  unfoldable pub seed : Repo V → Assoc (Table V) → Repo V
  seed s source =
      let (h, rows) = seed_rows s.heap s.rows source in record s { heap = h; rows = rows }

  -- `1 if existed else 0`, for the outcome of `table.pop(key, None)`
  abbrev pub popped : Option (Entry V) → ℕ
  popped none = 0
  popped (some none_row) = 0
  popped (some _) = 1

  -- `1 if key in table else 0`
  abbrev pub contained : Option (Entry V) → ℕ
  contained none = 0
  contained (some e) = 1

  -- `execute` behind the two lines that note the call and make the table.
  abbrev pub run_on :
      (Text → V)
      → Operation
      → Text
      → Text
      → Table V
      → Option (Entry V)
      → Repo V
      → Repo V × Result RepoError (Reply V)
  run_on text_value read entity key t found s = (s, ok (row_reply found))
  run_on text_value query entity key t found s = (s, ok (row_reply found))
  run_on text_value create entity key t (some e) s = (s, err (create_conflicts entity))
  run_on text_value create entity key t none s = (
    record s {
      heap = ((codes "id", text_value key) ∷ []) ∷ s.heap;
      rows = set_key entity (set_key key (dict_at (length s.heap)) t) s.rows;
    },
    ok (affected 1),
  )
  run_on text_value update entity key t found s = (s, ok (affected (contained found)))
  run_on text_value delete entity key t found s =
      (record s { rows = set_key entity (drop_key key t) s.rows }, ok (affected (popped found)))

  -- Those two lines.
  unfoldable pub noted : Repo V → Text → Operation → Repo V
  noted s entity op = record s {
    calls = s.calls ++ (entity, op) ∷ [];
    rows = set_key entity (table_of entity s.rows) s.rows;
  }

  -- `execute`
  unfoldable pub execute :
      (Text → V) → Repo V → Text → Operation → Text → Repo V × Result RepoError (Reply V)
  execute text_value s entity op key =
      run_on text_value op entity key (table_of entity s.rows) (lookup key (table_of entity s.rows))
        (noted s entity op)

  -- `persist`
  unfoldable pub persist : Repo V → Text → Text → Entry V → Repo V
  persist s entity key row = record s {
    rows = set_key entity (set_key key row (table_of entity s.rows)) s.rows;
  }

  -- A dict that the interpreter builds, at the next address.
  unfoldable pub build_row : Repo V → Row V → Repo V
  build_row s r = record s { heap = r ∷ s.heap }

  -- `row[field] = value` of an assignment, on a dict that a read has bound.
  unfoldable pub assign_field : Repo V → ℕ → Text → V → Repo V
  assign_field s a field value = record s { heap = write_row s.heap a field value }

  -- `begin`
  abbrev pub begin_at : Option (Assoc (Table V)) → Repo V → Result RepoError (Repo V)
  begin_at (some saved) s = err already_open
  begin_at none s =
      let (h, copies) = copy_rows s.heap s.rows in
      ok (record s { heap = h; snapshot = some copies })

  unfoldable pub begin : Repo V → Result RepoError (Repo V)
  begin s = begin_at s.snapshot s

  -- `commit`
  unfoldable pub commit : Repo V → Repo V
  commit s = record s { snapshot = none }

  -- `rollback`
  abbrev pub rollback_at : Option (Assoc (Table V)) → Repo V → Repo V
  rollback_at none s = s
  rollback_at (some saved) s = record s { rows = saved; snapshot = none }

  unfoldable pub rollback : Repo V → Repo V
  rollback s = rollback_at s.snapshot s
