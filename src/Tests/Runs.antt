-- ===== src/Tests/Runs.antt =====
-- A run over the in-memory repository: its only step creates a row, writes into a row in place, and fails.
use linkly.Base.{
  ℕ, ◌+◌, ◌≡◌, ◌⊎◌, refl, Option, true, false, none, some, [], ◌∷◌, ltb, if◌then◌else◌, arith,
}
use linkly.Base.Result.{Result, ok, err}
use linkly.Base.Text.{Text, codes, same_text}
use linkly.Base.Words.{words}
use linkly.Lexer.Words.{PresenceKind, comparator?, presence_kind?, numeric_kind?}
use linkly.Condition.Syntax.{single, presence}
use linkly.Condition.Names.{is_reference_name}
use linkly.Condition.Parse.{
  parse_condition, parse_tokens, split_on_and, and_groups, check_groups, parse_groups, parse_term,
  find_comparator, parse_value, parse_operand,
}
use linkly.Base.Json.{Fields, no_fields, field, bool, find_field}
use linkly.Base.Assoc.{lookup, set_key}
use linkly.Runtime.Repository.{
  Operation, already_open, dict_at, begin, copy_rows, copy_entry, copy_table, noted, execute,
  row_at, write_row, table_of, assign_field,
}
use linkly.Runtime.Steps.{try_step}
use linkly.Runtime.Repository.Transaction.{view}
use linkly.Runtime.Client.{Program, finish, call, assign, State, Client, run_program, repo_world}
use linkly.Eval.Scope.{resolve_reference, has_dot, partition_dot}
use linkly.Eval.Guard.{condition_holds, term_holds}
use linkly.Runtime.World.{
  Mode, GuardNode, Raised, run_error, other_error, Items, item, no_items, step_item, World, Policy,
  Report, Flow, goes, empty_report, Run,
}
use linkly.Runtime.Run.{run_workflow, until_loop, holds}
use linkly.Runtime.Run.Atomic.{Ends, run_workflow-Ends}
use linkly.Runtime.Run.OnRepo.{Completed, Escaped, run_workflow-atomic}
use linkly.Runtime.Run.Rounds.{Stops, until_loop-Stops}

abbrev as_is : Text → Text
as_is t = t

abbrev Shop : Type 0
Shop = State Text ℕ

-- The scope has a field once the clock has moved.
abbrev seen : ℕ → Fields
seen now = if ltb 0 now then field (codes "ready") (bool true) no_fields else no_fields

-- Creates an order, reads the product, sets its stock in place and takes 5 ms.
abbrev save : ℕ → Option (Raised ℕ) → Program Text ℕ (Option (Raised ℕ))
save now e = call (codes "Order") Operation.create (codes "o1") (λ made.
    call (codes "Product") Operation.read (codes "p1")
      (λ product. assign 0 (codes "stock") (codes "4") (finish (now + 5) e)))

abbrev clerk : Option (Raised ℕ) → Client Text ℕ ℕ
clerk e = record {
  text_value = as_is;
  now = λ now. now;
  advance = λ ms now. now + ms;
  scope =
      λ s. record { payload = seen s.own; bindings = no_fields; caller = none; response = none };
  fault = λ e. 3;
  bad_mode = 1;
  bad_kind = 2;
  is_open = λ e. 0;
  step = λ d step now. save now e;
  block = λ d steps now. finish now (ok []);
  notes = λ step s. none;
  terms = λ step s. none;
}

abbrev failing : Client Text ℕ ℕ
failing = clerk (some (run_error 7))

abbrev tiny : World Shop ℕ
tiny = repo_world failing

abbrev plain : Policy
plain = record { retry = 0; timeout = none }

abbrev body : Items
body = item (step_item (record { name = codes "save"; effects = [] })) no_items

abbrev one_order : Shop
one_order = record {
  repo = record {
    heap = ((codes "stock", codes "5") ∷ []) ∷ [];
    rows = (codes "Product", (codes "p1", dict_at 0) ∷ []) ∷ [];
    calls = [];
    snapshot = none;
  };
  held = [];
  own = 0;
}

run_workflow-Ends_example :
    (final : Shop) × (out : Result (Raised ℕ) (Report ℕ)) × (run_workflow tiny plain body one_order
      ≡ (final, some out))
    × Ends tiny plain one_order final (some out)
run_workflow-Ends_example = run_workflow-Ends tiny plain body one_order

run_workflow-atomic_example :
    (final : Shop) × (out : Result (Raised ℕ) (Report ℕ)) × (run_workflow tiny plain body one_order
      ≡ (final, some out))
    × (Completed out ⊎ (Escaped out ⊎ (view final.repo ≡ view one_order.repo)))
run_workflow-atomic_example =
    run_workflow-atomic failing plain one_order body ((omega arith, tt), tt) tt

abbrev ready_guard : GuardNode
ready_guard = record {
  id = codes "g1";
  mode = Mode.until_mode;
  condition = some (codes "ready exists");
  alternatives = [];
  count = 0;
  text_ops = [];
}

abbrev TinyRun : Type 0
TinyRun = Run Shop ℕ

abbrev at_start : TinyRun
at_start = (one_order, empty_report ℕ)

-- A body that takes 5 ms.
abbrev tick : TinyRun → TinyRun × Flow ℕ
tick run = ((record run.0 { own = run.0.own + 5 }, run.1), goes)

ready_exists :
    parse_condition (codes "ready exists")
    ≡ ok (some (single (presence (codes "ready") PresenceKind.exists)))
unfolding words parse_condition parse_tokens split_on_and and_groups check_groups parse_groups
    parse_term find_comparator parse_value parse_operand same_text comparator? presence_kind?
    numeric_kind? is_reference_name
ready_exists = refl

not_ready : holds tiny plain none ready_guard 0 ready_guard.condition one_order ≡ ok false
unfolding holds condition_holds term_holds resolve_reference has_dot partition_dot find_field
not_ready = rw ready_exists refl

until_loop-Stops_example :
    Stops tiny plain none ready_guard none tick 16 false at_start
      (until_loop tiny plain none ready_guard none tick 16 false at_start)
until_loop-Stops_example = until_loop-Stops tiny plain none ready_guard none tick 16 false at_start

abbrev broken : Client Text ℕ ℕ
broken = clerk (some (other_error 7))

abbrev broken_run : Shop × Option (Result (Raised ℕ) (Report ℕ))
broken_run = run_workflow (repo_world broken) plain body one_order

-- An exception that is no RunError keeps what was written in place, and leaves the transaction open.
broken_run_keeps :
    (broken_run.1 ≡ some (err (other_error 7)))
    × (row_at broken_run.0.repo.heap 0 ≡ some ((codes "stock", codes "4") ∷ []))
    × (begin broken_run.0.repo ≡ err already_open)
unfolding run_workflow begin copy_rows try_step run_program lookup set_key same_text noted execute
    row_at write_row table_of assign_field copy_entry copy_table
broken_run_keeps = (refl, refl, refl)
