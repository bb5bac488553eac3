-- ===== src/Runtime/Client/Clean.antt =====
-- impl/lnpl/interp.py: code that has only the rows that it was handed out in a transaction reaches no dict
-- of the snapshot.
use linkly.Base.{
  ℕ, zero, suc, ◌≤◌, ◌≡◌, refl, Option, none, some, List, [], ◌∷◌, ◌++◌, length, arith, All,
  All-append, inr,
}
use linkly.Base.Result.{Result, ok, err}
use linkly.Base.Text.{Text}
use linkly.Base.Assoc.{AllValues, lookup, lookup-AllValues}
use mathlib.Core.Path.{subst}
use linkly.Runtime.Repository.{
  Entry, dict_at, none_row, plain_row, Row, Table, Repo, Operation, read, query, create, update,
  delete, RepoError, Reply, row_reply, affected, write_row, table_of, run_on, noted, execute,
  persist, build_row, assign_field, begin,
}
use linkly.Runtime.Repository.Heap.{Where, Where-map, length-write_row}
use linkly.Runtime.Repository.Copies.{Below}
use linkly.Runtime.Repository.Transaction.{
  IsValid, Apart, Step, ran, persisted, built, assigned, Steps, done, next, table_of-Where,
}
use linkly.Runtime.Repository.Rollback.{opened-IsOpen, execute-Apart, run_on-replied}
use linkly.Runtime.Client.{
  Program, finish, call, query_rows, look, build, persist_row, assign, entry_at, replied, entries,
  persist_entry, assign_entry, run_program,
}

module _ {V : Type 0} where
  snoc-Steps :
      {text_value : Text → V} (h k : List (Row V)) {a b c : Repo V}
      → Steps h k text_value a b
      → Step h k text_value b c
      → Steps h k text_value a c
  snoc-Steps h k done step = next step done
  snoc-Steps h k (next first steps) step = next first (snoc-Steps h k steps step)

  entries-All : (P : Entry V → Type 0) (t : Table V) → AllValues P t → All P (entries t)
  entries-All P [] w = tt
  entries-All P ((key, e) ∷ t) w = (w.0, entries-All P t w.1)

  entry_at-All :
      (P : Entry V → Type 0) (held : List (Entry V)) (n : ℕ) (e : Entry V)
      → All P held
      → entry_at held n ≡ some e
      → P e
  entry_at-All P [] n e w h = absurd (cc h)
  entry_at-All P (x ∷ held) zero e w h = let same : x ≡ e = cc h in subst P same w.0
  entry_at-All P (x ∷ held) (suc n) e w h = entry_at-All P held n e w.1 h

  module _ (text_value : Text → V) (s t : Repo V) where
    -- A row that the code may have: it is in the heap, and no dict of the snapshot.
    abbrev pub Reachable : List (Row V) → Entry V → Type 0
    Reachable heap e = Where (Apart s.heap t.heap) e × Where (Below heap) e

    pub record Clean (u : Repo V) (held : List (Entry V)) : Type 0 where
      pub steps : Steps s.heap t.heap text_value t u
      pub holds : All (Reachable u.heap) held

    grown :
        (heap after : List (Row V)) (held : List (Entry V))
        → length heap ≤ length after
        → All (Reachable heap) held
        → All (Reachable after) held
    grown heap after [] le w = tt
    grown heap after (e ∷ held) le w =
        ((w.0.0, Where-map (λ a b. omega (arith, b, le)) e w.0.1), grown heap after held le w.1)

    run_on-grows :
        (op : Operation) (entity key : Text) (rows : Table V) (found : Option (Entry V))
        (u : Repo V)
        → length u.heap ≤ length (run_on text_value op entity key rows found u).0.heap
    run_on-grows read entity key rows found u = omega arith
    run_on-grows query entity key rows found u = omega arith
    run_on-grows create entity key rows (some e) u = omega arith
    run_on-grows create entity key rows none u = omega arith
    run_on-grows update entity key rows found u = omega arith
    run_on-grows delete entity key rows found u = omega arith

    execute-grows :
        (u : Repo V) (entity : Text) (op : Operation) (key : Text)
        → length u.heap ≤ length (execute text_value u entity op key).0.heap
    unfolding execute noted
    execute-grows u entity op key =
        run_on-grows op entity key (table_of entity u.rows) (lookup key (table_of entity u.rows))
          (noted u entity op)

    module _ (valid : IsValid s) (opened : begin s ≡ ok t) where
      execute-Reachable :
          (u : Repo V) (entity : Text) (op : Operation) (key : Text) (e : Entry V)
          → Steps s.heap t.heap text_value t u
          → (execute text_value u entity op key).1 ≡ ok (row_reply (some e))
          → Reachable u.heap e
      unfolding execute
      execute-Reachable u entity op key e steps h =
          let o = opened-IsOpen text_value s t u valid opened steps in
          let rows = table_of entity u.rows in
          (
            execute-Apart text_value s t u entity op key e valid opened steps h,
            lookup-AllValues (Where (Below u.heap)) key rows e
                (table_of-Where s.heap t.heap (Below u.heap) entity u.rows o.valid)
                (run_on-replied text_value op entity key rows (lookup key rows) (noted u entity op)
                  e h),
          )

      replied-Reachable :
          (u : Repo V) (heap : List (Row V)) (reply : Result RepoError (Reply V))
          → ((e : Entry V) → reply ≡ ok (row_reply (some e)) → Reachable heap e)
          → All (Reachable heap) (replied reply)
      replied-Reachable u heap (ok (row_reply (some e))) f = (f e refl, tt)
      replied-Reachable u heap (ok (row_reply none)) f = tt
      replied-Reachable u heap (ok (affected n)) f = tt
      replied-Reachable u heap (err e) f = tt

      call-Clean :
          (u : Repo V) (held : List (Entry V)) (entity : Text) (op : Operation) (key : Text)
          → Clean u held
          → let out = execute text_value u entity op key in Clean out.0 (held ++ replied out.1)
      call-Clean u held entity op key c =
          let out = execute text_value u entity op key in
          let more = execute-grows u entity op key in
          let handed =
            replied-Reachable u u.heap out.1 (λ e. execute-Reachable u entity op key e c.steps) in
          record {
            steps = snoc-Steps s.heap t.heap c.steps (ran u entity op key);
            holds =
                grown u.heap out.0.heap (held ++ replied out.1) more
                  (All-append (Reachable u.heap) held (replied out.1) c.holds handed);
          }

      query-Clean :
          (u : Repo V) (held : List (Entry V)) (entity : Text)
          → Clean u held
          → Clean u (held ++ entries (table_of entity u.rows))
      query-Clean u held entity c =
          let o = opened-IsOpen text_value s t u valid opened c.steps in
          let rows = table_of entity u.rows in
          record {
            steps = c.steps;
            holds = All-append (Reachable u.heap) held (entries rows) c.holds (
                both (entries rows)
                  (entries-All (Where (Apart s.heap t.heap)) rows
                    (table_of-Where s.heap t.heap (Apart s.heap t.heap) entity u.rows o.apart))
                  (entries-All (Where (Below u.heap)) rows
                    (table_of-Where s.heap t.heap (Below u.heap) entity u.rows o.valid)));
          }
        where
          both :
              (l : List (Entry V))
              → All (Where (Apart s.heap t.heap)) l
              → All (Where (Below u.heap)) l
              → All (Reachable u.heap) l
          both [] a b = tt
          both (e ∷ l) a b = ((a.0, b.0), both l a.1 b.1)

      build-Clean :
          (u : Repo V) (held : List (Entry V)) (row : Row V)
          → Clean u held
          → Clean (build_row u row) (held ++ dict_at (length u.heap) ∷ [])
      unfolding build_row
      build-Clean u held row c =
          let o = opened-IsOpen text_value s t u valid opened c.steps in
          let room = o.room in
          record {
            steps = snoc-Steps s.heap t.heap c.steps (built u row);
            holds =
                All-append (Reachable (row ∷ u.heap)) held (dict_at (length u.heap) ∷ [])
                  (grown u.heap (row ∷ u.heap) held (omega arith) c.holds)
                  ((inr room, omega arith), tt);
          }

      persist-Clean :
          (u : Repo V) (held : List (Entry V)) (entity key : Text) (o : Option (Entry V))
          → ((e : Entry V) → o ≡ some e → Reachable u.heap e)
          → Clean u held
          → Clean (persist_entry u entity key o) held
      unfolding persist
      persist-Clean u held entity key none f c = c
      persist-Clean u held entity key (some e) f c =
          let reach = f e refl in
          record {
            steps = snoc-Steps s.heap t.heap c.steps (persisted u entity key e reach.0 reach.1);
            holds = c.holds;
          }

      assign-Clean :
          (u : Repo V) (held : List (Entry V)) (field : Text) (v : V) (o : Option (Entry V))
          → ((e : Entry V) → o ≡ some e → Reachable u.heap e)
          → Clean u held
          → Clean (assign_entry u o field v) held
      unfolding assign_field
      assign-Clean u held field v none f c = c
      assign-Clean u held field v (some none_row) f c = c
      assign-Clean u held field v (some (plain_row x)) f c = c
      assign-Clean u held field v (some (dict_at a)) f c =
          let same = length-write_row u.heap a field v in
          record {
            steps = snoc-Steps s.heap t.heap c.steps (assigned u a field v (f (dict_at a) refl).0);
            holds = grown u.heap (write_row u.heap a field v) held (omega (arith, same)) c.holds;
          }

      -- Code that starts with rows that it may have does to the repository what the steps of a
      -- transaction may do, and ends with rows that it may have.
      pub run_program-Clean :
          {X A : Type 0} (p : Program V X A) (u : Repo V) (held : List (Entry V))
          → Clean u held
          → let out = run_program text_value p u held in Clean out.0.repo out.0.held
      unfolding run_program
      run_program-Clean (finish own a) u held c = c
      run_program-Clean (call entity op key more) u held c =
          let out = execute text_value u entity op key in
          run_program-Clean (more out.1) out.0 (held ++ replied out.1)
            (call-Clean u held entity op key c)
      run_program-Clean (query_rows entity more) u held c =
          run_program-Clean (more _) u _ (query-Clean u held entity c)
      run_program-Clean (look n more) u held c = run_program-Clean (more _) u held c
      run_program-Clean (build row more) u held c =
          run_program-Clean more _ _ (build-Clean u held row c)
      run_program-Clean (persist_row entity key n more) u held c = run_program-Clean more _ held (
          persist-Clean u held entity key (entry_at held n)
            (λ e. entry_at-All (Reachable u.heap) held n e c.holds) c)
      run_program-Clean (assign n field v more) u held c = run_program-Clean more _ held (
          assign-Clean u held field v (entry_at held n)
            (λ e. entry_at-All (Reachable u.heap) held n e c.holds) c)
