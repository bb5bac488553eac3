-- ===== src/Runtime/Client.antt =====
-- impl/lnpl/interp.py: how the code of a step reaches a `FakeRepository` in a transaction. It has the row
-- dicts that a call handed out, or that it has built, and no other: it names each by its number.
pub mod Clean
use linkly.Base.{ℕ, zero, suc, Option, none, some, List, [], ◌∷◌, ◌++◌, length}
use linkly.Base.Result.{Result, ok, err}
use linkly.Base.Text.{Text}
use linkly.Runtime.Repository.{
  Entry, dict_at, Row, Table, Repo, Operation, RepoError, Reply, row_reply, row_at, table_of,
  execute, persist, build_row, assign_field, begin, commit, rollback,
}
use linkly.Eval.Scope.{RunError, Scope}
use linkly.Runtime.World.{Step, Attempted, Raised, run_error, World}

-- Code over a repository that ends with a new state of its own and a result: calls of `execute`, `query`
-- and `persist`, dicts that are built, fields that are read and written.
pub data Program (V X A : Type 0) : Type 0 where
  finish : X → A → Program V X A
  call : Text → Operation → Text → (Result RepoError (Reply V) → Program V X A) → Program V X A
  query_rows : Text → (ℕ → Program V X A) → Program V X A
  look : ℕ → (Option (Row V) → Program V X A) → Program V X A
  build : Row V → Program V X A → Program V X A
  persist_row : Text → Text → ℕ → Program V X A → Program V X A
  assign : ℕ → Text → V → Program V X A → Program V X A

-- The repository, the rows that the code has, the oldest first, and what else the runtime has.
pub record State (V X : Type 0) : Type 0 where
  pub repo : Repo V
  pub held : List (Entry V)
  pub own : X

module _ {V : Type 0} where
  abbrev pub entry_at : List (Entry V) → ℕ → Option (Entry V)
  entry_at [] n = none
  entry_at (e ∷ held) zero = some e
  entry_at (e ∷ held) (suc n) = entry_at held n

  -- A row that a call has replied
  abbrev pub replied : Result RepoError (Reply V) → List (Entry V)
  replied (ok (row_reply (some e))) = e ∷ []
  replied _ = []

  abbrev pub entries : Table V → List (Entry V)
  entries [] = []
  entries ((key, e) ∷ t) = e ∷ entries t

  -- The fields of a row, where it is a dict
  abbrev pub fields_of : Repo V → Option (Entry V) → Option (Row V)
  fields_of s (some (dict_at a)) = row_at s.heap a
  fields_of s _ = none

  abbrev pub persist_entry : Repo V → Text → Text → Option (Entry V) → Repo V
  persist_entry s entity key none = s
  persist_entry s entity key (some e) = persist s entity key e

  abbrev pub assign_entry : Repo V → Option (Entry V) → Text → V → Repo V
  assign_entry s (some (dict_at a)) field v = assign_field s a field v
  assign_entry s _ field v = s

module _ {V X A : Type 0} (text_value : Text → V) where
  unfoldable pub run_program : Program V X A → Repo V → List (Entry V) → State V X × A
  unfolding execute persist build_row assign_field table_of row_at
  run_program (finish own a) s held = (record { repo = s; held = held; own = own }, a)
  run_program (call entity op key more) s held =
      let (s1, reply) = execute text_value s entity op key in
      run_program (more reply) s1 (held ++ replied reply)
  run_program (query_rows entity more) s held =
      let rows = entries (table_of entity s.rows) in
      run_program (more (length rows)) s (held ++ rows)
  run_program (look n more) s held = run_program (more (fields_of s (entry_at held n))) s held
  run_program (build row more) s held =
      run_program more (build_row s row) (held ++ dict_at (length s.heap) ∷ [])
  run_program (persist_row entity key n more) s held =
      run_program more (persist_entry s entity key (entry_at held n)) held
  run_program (assign n field v more) s held =
      run_program more (assign_entry s (entry_at held n) field v) held

-- What runs over the repository: the code of the steps and the blocks, the clock, and what the guards, the
-- notes and the terms of a response read.
pub record Client (V X Err : Type 0) : Type 0 where
  pub text_value : Text → V
  pub now : X → ℕ
  pub advance : ℕ → X → X
  pub scope : State V X → Scope
  pub fault : RunError → Err
  pub bad_mode : Err
  pub bad_kind : Err
  pub is_open : RepoError → Err
  pub step : Option ℕ → Step → X → Program V X (Option (Raised Err))
  pub block :
      Option ℕ → List Step → X → Program V X (Result (Raised Err) (List (Option (Attempted Err))))
  pub notes : Step → State V X → Option (Raised Err)
  pub terms : Step → State V X → Option (Raised Err)

module _ {V X Err : Type 0} (c : Client V X Err) where
  abbrev pub begun_state : Result RepoError (Repo V) → State V X → State V X × Option (Raised Err)
  begun_state (err e) s = (s, some (run_error (c.is_open e)))
  begun_state (ok repo) s = (record s { repo = repo }, none)

  -- A run over a `FakeRepository`, whose `commit` and `rollback` raise nothing, as do the lines behind them.
  abbrev pub repo_world : World (State V X) Err
  repo_world = record {
    now = λ s. c.now s.own;
    advance = λ ms s. record s { own = c.advance ms s.own };
    scope = c.scope;
    fault = c.fault;
    bad_mode = c.bad_mode;
    bad_kind = c.bad_kind;
    run_step =
        λ deadline step s. run_program c.text_value (c.step deadline step s.own) s.repo s.held;
    run_block =
        λ deadline steps s. run_program c.text_value (c.block deadline steps s.own) s.repo s.held;
    notes = c.notes;
    terms = c.terms;
    begin = λ s. begun_state (begin s.repo) s;
    commit = λ s. (record s { repo = commit s.repo }, none);
    rollback = λ s. (record s { repo = rollback s.repo }, none);
  }
