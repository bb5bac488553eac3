-- ===== src/Tests/Stores.antt =====
-- impl/lnpl/interp.py: the in-memory repository and cache at concrete rows and keys.
use linkly.Base.{ℕ, ◌<◌, ◌≡◌, refl, none, some, List, [], ◌∷◌, arith, inl, ltb, if◌then◌else◌, ◌+◌}
use linkly.Base.Result.{ok}
use linkly.Base.Text.{Text, codes, same_text}
use linkly.Base.Assoc.{Assoc, lookup, set_key}
use linkly.Runtime.Repository.{
  dict_at, Row, Table, Repo, Operation, row_reply, begin, rollback, execute, assign_field, row_at,
  write_row, copy_entry, copy_table, copy_rows, table_of, noted, seed,
}
use linkly.Runtime.Repository.Heap.{Where}
use linkly.Runtime.Repository.Transaction.{IsValid, view, Apart, assigned, Steps, done, next}
use linkly.Runtime.Repository.Rollback.{rollback-restores, execute-Apart}
use linkly.Runtime.Repository.Seeds.{seed-keeps}
use linkly.Runtime.Cache.{Cache, new_cache, get, set}
use linkly.Runtime.Cache.Live.{Calls, get-set}

-- Fields have a text as their value.
abbrev as_is : Text → Text
as_is t = t

abbrev one_row : List (Row Text)
one_row = ((codes "stock", codes "5") ∷ []) ∷ []

abbrev one_table : Assoc (Table Text)
one_table = (codes "Product", (codes "p1", dict_at 0) ∷ []) ∷ []

abbrev seeded : Repo Text
seeded = record { heap = one_row; rows = one_table; calls = []; snapshot = none }

abbrev in_transaction : Repo Text
in_transaction = record seeded {
  heap = ((codes "stock", codes "5") ∷ []) ∷ ((codes "stock", codes "5") ∷ []) ∷ [];
  snapshot = some ((codes "Product", (codes "p1", dict_at 1) ∷ []) ∷ []);
}

in_transaction_begun : begin seeded ≡ ok in_transaction
unfolding begin copy_rows copy_table copy_entry row_at
in_transaction_begun = refl

-- The row that a read binds is written in place.
abbrev deducted : Repo Text
deducted = assign_field in_transaction 0 (codes "stock") (codes "4")

deduction : Steps seeded.heap in_transaction.heap as_is in_transaction deducted
deduction = next (assigned in_transaction 0 (codes "stock") (codes "4") (inl (omega arith))) done

rollback-restores_example :
    (view (rollback deducted) ≡ view seeded)
    × IsValid (rollback deducted)
    × ((rollback deducted).snapshot ≡ none)
rollback-restores_example =
    rollback-restores as_is seeded in_transaction deducted ((omega arith, tt), tt)
      in_transaction_begun deduction

product_read :
    (execute as_is deducted (codes "Product") Operation.read (codes "p1")).1
    ≡ ok (row_reply (some (dict_at 0)))
unfolding execute noted table_of lookup set_key same_text assign_field write_row
product_read = refl

execute-Apart_example : Where {V = Text} (Apart seeded.heap in_transaction.heap) (dict_at 0)
execute-Apart_example =
    execute-Apart as_is seeded in_transaction deducted (codes "Product") Operation.read (codes "p1")
      (dict_at 0) ((omega arith, tt), tt) in_transaction_begun deduction product_read

abbrev warm_cache : Cache Text
warm_cache = record { store = (codes "k", (codes "v", 130)) ∷ []; hits = 0; misses = 0 }

warm_cache-set : set new_cache 100 (codes "k") (codes "v") (some 30) ≡ ok warm_cache
unfolding set set_key
warm_cache-set = refl

get-set_example :
    ((get (get warm_cache 110 (codes "k")).0 129 (codes "k")).1
      ≡ (if ltb 129 (100 + 30) then some (codes "v") else none))
    × ((get warm_cache 110 (codes "k")).0.hits + (get warm_cache 110 (codes "k")).0.misses
        ≡ warm_cache.hits + warm_cache.misses + 1)
get-set_example =
    get-set new_cache warm_cache (get warm_cache 110 (codes "k")).0 100 129 (codes "k") (codes "v")
      30 1 warm_cache-set (Calls.reads 110 (codes "k") Calls.done)

-- A caller's dict for a key that is there, and one for a new key.
abbrev more_rows : Assoc (Table Text)
more_rows = (codes "Product", (codes "p1", dict_at 0) ∷ (codes "p2", dict_at 0) ∷ []) ∷ []

product_there : lookup (codes "p1") (table_of (codes "Product") seeded.rows) ≡ some (dict_at 0)
unfolding table_of lookup same_text
product_there = refl

seed-keeps_example :
    (lookup (codes "p1") (table_of (codes "Product") (seed seeded more_rows).rows)
      ≡ some (dict_at 0))
    × ((a : ℕ) → a < 1 → row_at (seed seeded more_rows).heap a ≡ row_at one_row a)
seed-keeps_example =
    seed-keeps seeded more_rows (codes "Product") (codes "p1") (dict_at 0)
      ((omega arith, (omega arith, tt)), tt) product_there
