-- ===== src/Policy/Query.antt =====
-- impl/lnpl/repo_policy.py: `_row_matches` and `apply_predicate`, and `query` of `FakeRepository` in
-- impl/lnpl/interp.py, on the rows that a table shows.
pub mod Sorted
use linkly.Base.{
  ℕ, zero, suc, ◌≡◌, Bool, true, false, ◌&&◌, ◌||◌, not, Option, none, some, List, [], ◌∷◌, ◌++◌,
  map, if◌then◌else◌,
}
use linkly.Base.Result.{Result, ok, err, ◌>>=◌}
use linkly.Base.Text.{Text, same_text}
use linkly.Base.Json.{Json, Fields, get, is_null, same_json, lt_json, text_lt}
use linkly.Lexer.Words.{Comparator}

-- The TypeError of a comparison.
pub data QueryError : Type 0 where
  not_comparable : QueryError

abbrev pub Query : Type 0 → Type 0
Query A = Result QueryError A

abbrev pub or_raise : Option Bool → Query Bool
or_raise none = err not_comparable
or_raise (some b) = ok b

abbrev pub negate : Option Bool → Option Bool
negate none = none
negate (some b) = some (not b)

-- _PREDICATE_OPS
unfoldable pub test_values : Comparator → Json → Json → Query Bool
test_values Comparator.eq a b = ok (same_json a b)
test_values Comparator.ne a b = ok (not (same_json a b))
test_values Comparator.lt a b = or_raise (lt_json a b)
test_values Comparator.le a b = or_raise (negate (lt_json b a))
test_values Comparator.gt a b = or_raise (lt_json b a)
test_values Comparator.ge a b = or_raise (negate (lt_json a b))

-- A term of a predicate: the field, the comparator and the value.
pub record Test : Type 0 where
  pub name : Text
  pub op : Comparator
  pub value : Json

-- `_row_matches`
unfoldable pub row_matches : Fields → List Test → Query Bool
row_matches row [] = ok true
row_matches row (t ∷ ts) =
    let more = row_matches row ts in
    let actual = get t.name row in
    if is_null actual || is_null t.value
    then ok false
    else do holds ← test_values t.op actual t.value; if holds then more else ok false

-- `[row for row in rows if _row_matches(row, predicate)]`
unfoldable pub matching : List Test → List Fields → Query (List Fields)
matching tests [] = ok []
matching tests (row ∷ rows) = do
  holds ← row_matches row tests
  rest ← matching tests rows
  ok (if holds then row ∷ rest else rest)

-- `r.get(field) is not None`, and `is None`
unfoldable pub with_field : Bool → Text → List Fields → List Fields
with_field wanted name [] = []
with_field true name (row ∷ rows) =
    let rest = with_field true name rows in if is_null (get name row) then rest else row ∷ rest
with_field false name (row ∷ rows) =
    let rest = with_field false name rows in if is_null (get name row) then row ∷ rest else rest

-- A later row goes in front of an earlier one, by the order of the field.
abbrev pub goes_first : Text → Bool → Fields → Fields → Query Bool
goes_first name true late early = or_raise (lt_json (get name early) (get name late))
goes_first name false late early = or_raise (lt_json (get name late) (get name early))

-- The rows sorted behind a row find its place; a stable sort keeps the order of equal rows.
unfoldable pub place : Text → Bool → Fields → List Fields → Query (List Fields)
place name desc row [] = ok (row ∷ [])
place name desc row (next ∷ rows) =
    let later = place name desc row rows in
    do
      first ← goes_first name desc next row
      if first then (do placed ← later; ok (next ∷ placed)) else ok (row ∷ next ∷ rows)

-- `sorted(present, key=..., reverse=desc)`
unfoldable pub sort_rows : Text → Bool → List Fields → Query (List Fields)
sort_rows name desc [] = ok []
sort_rows name desc (row ∷ rows) = do sorted ← sort_rows name desc rows; place name desc row sorted

-- `rows[:limit]`
unfoldable pub take_rows : ℕ → List Fields → List Fields
take_rows zero rows = []
take_rows (suc n) [] = []
take_rows (suc n) (row ∷ rows) = row ∷ take_rows n rows

abbrev pub order_rows : Option (Text × Bool) → List Fields → Query (List Fields)
order_rows none rows = ok rows
order_rows (some (name, desc)) rows = do
  sorted ← sort_rows name desc (with_field true name rows)
  ok (sorted ++ with_field false name rows)

abbrev pub limit_rows : Option ℕ → List Fields → List Fields
limit_rows none rows = rows
limit_rows (some n) rows = take_rows n rows

-- `apply_predicate`, where no predicate is an empty one
unfoldable pub apply_predicate :
    List Fields → List Test → Option (Text × Bool) → Option ℕ → Query (List Fields)
apply_predicate rows tests order limit = do
  kept ← matching tests rows
  ordered ← order_rows order kept
  ok (limit_rows limit ordered)

-- `sorted(table.items())`: no two keys are the same
unfoldable pub place_key : Text → Fields → List (Text × Fields) → List (Text × Fields)
place_key key row [] = (key, row) ∷ []
place_key key row ((k, r) ∷ items) =
    let rest = place_key key row items in
    if text_lt k key then (k, r) ∷ rest else (key, row) ∷ (k, r) ∷ items

unfoldable pub by_key : List (Text × Fields) → List (Text × Fields)
by_key [] = []
by_key ((key, row) ∷ items) = place_key key row (by_key items)

abbrev pub rows_of : List (Text × Fields) → List Fields
rows_of [] = []
rows_of ((key, row) ∷ items) = row ∷ rows_of items

-- `query`
unfoldable pub query :
    List (Text × Fields) → List Test → Option (Text × Bool) → Option ℕ → Query (List Fields)
query table tests order limit = apply_predicate (rows_of (by_key table)) tests order limit
