-- ===== src/Runtime/Run.antt =====
-- impl/lnpl/interp.py: `run_workflow` with its loop over the items of a workflow, and `_flatten_items`.
-- Spans, logs and the building of the response are left out.
pub mod Reach
pub mod Atomic
pub mod OnRepo
pub mod Rounds
use linkly.Base.{
  ℕ, zero, suc, ◌+◌, ◌≡◌, Bool, true, false, ◌&&◌, ◌||◌, not, Option, none, some, List, [], ◌∷◌,
  ◌++◌, ltb, leb, if◌then◌else◌,
}
use linkly.Base.Result.{Result, ok, err, ◌>>=◌}
use linkly.Base.Text.{Text}
use linkly.Eval.Scope.{RunError, no_operator, Scope}
use linkly.Eval.Guard.{TextTerms, condition_holds}
use linkly.Runtime.World.{
  Step, Mode, GuardNode, when_mode, repeat_mode, until_mode, other_mode, Item, step_item,
  concurrency, pipeline, guard, other_item, Items, no_items, item, Raised, run_error, other_error,
  World, Policy, Failure, raised, deadline_exceeded, Report, empty_report, Flow, goes, stops, stuck,
  raises, until_round_cap, deadline_from, is_past, is_reached, Run,
}
use linkly.Runtime.Steps.{run_one, run_parallel}

module _ {S Err : Type 0} (w : World S Err) (policy : Policy) (deadline : Option ℕ) where
  -- The names of the operands that condition i compares as text
  unfoldable pub text_ops_at : List (List Text) → ℕ → List Text
  text_ops_at [] i = []
  text_ops_at (ops ∷ more) zero = ops
  text_ops_at (ops ∷ more) (suc i) = text_ops_at more i

  -- The AttributeError of a guard is no RunError.
  abbrev pub raised_by : RunError → Raised Err
  raised_by no_operator = other_error (w.fault no_operator)
  raised_by e = run_error (w.fault e)

  abbrev pub as_error : Result RunError Bool → Result (Raised Err) Bool
  as_error (err e) = err (raised_by e)
  as_error (ok b) = ok b

  unfoldable pub holds : GuardNode → ℕ → Option Text → S → Result (Raised Err) Bool
  holds g i text s = as_error (
      condition_holds (record { operands = text_ops_at g.text_ops i; fields = none }) (w.scope s)
        text)

  -- `any(holds_per_text)`, with every condition evaluated
  unfoldable pub any_holds : GuardNode → ℕ → List Text → S → Result (Raised Err) Bool
  any_holds g i [] s = ok false
  any_holds g i (text ∷ texts) s = do
    here ← holds g i (some text) s
    later ← any_holds g (i + 1) texts s
    ok (here || later)

  -- The condition and the alternatives of a `when`
  unfoldable pub fires : GuardNode → S → Result (Raised Err) Bool
  fires g s = do
    here ← holds g 0 g.condition s
    later ← any_holds g 1 g.alternatives s
    ok (here || later)

  abbrev pub skip : GuardNode → Bool → Run S Err → Run S Err
  skip g branch (s, r) = (s, record r { skipped = r.skipped ++ (g.id, branch) ∷ [] })

  -- What follows an item runs only where the loop goes on.
  abbrev pub after :
      Run S Err × Flow Err → (Run S Err → Run S Err × Flow Err) → Run S Err × Flow Err
  after (run, goes) next = next run
  after (run, stops) next = (run, stops)
  after (run, stuck) next = (run, stuck)
  after (run, raises e) next = (run, raises e)

  -- A `when` guard, where `first` and `second` run its two children; `then` is the branch true.
  abbrev pub run_when :
      GuardNode
      → Bool
      → Result (Raised Err) Bool
      → (Run S Err → Run S Err × Flow Err)
      → (Run S Err → Run S Err × Flow Err)
      → Run S Err
      → Run S Err × Flow Err
  run_when g has_otherwise (err e) first second run = (run, raises e)
  run_when g has_otherwise (ok false) first second run = second (skip g true run)
  run_when g has_otherwise (ok true) first second run =
      after (first run) (λ run1. (if has_otherwise then skip g false run1 else run1, goes))

  -- `for _ in range(count)`
  unfoldable pub repeat_loop :
      ℕ → (Run S Err → Run S Err × Flow Err) → Run S Err → Run S Err × Flow Err
  repeat_loop zero body run = (run, goes)
  repeat_loop (suc n) body run = after (body run) (repeat_loop n body)

  -- The `while` loop of an `until`, with the rounds that are left, and whether one has run.
  abbrev pub end_rounds : GuardNode → Bool → Run S Err → Run S Err × Flow Err
  end_rounds g some_round run = (if some_round then run else skip g true run, goes)

  abbrev pub until_next :
      GuardNode
      → Bool
      → Result (Raised Err) Bool
      → Bool
      → (Run S Err → Run S Err × Flow Err)
      → Run S Err
      → Run S Err × Flow Err
  until_next g some_round (err e) reached next run = (run, raises e)
  until_next g some_round (ok true) reached next run = end_rounds g some_round run
  until_next g some_round (ok false) true next run = end_rounds g some_round run
  until_next g some_round (ok false) false next run = next run

  unfoldable pub until_loop :
      GuardNode
      → Option ℕ
      → (Run S Err → Run S Err × Flow Err)
      → ℕ
      → Bool
      → Run S Err
      → Run S Err × Flow Err
  until_loop g limit body zero some_round run =
      until_next g some_round (holds g 0 g.condition run.0) true (end_rounds g some_round) run
  until_loop g limit body (suc left) some_round run =
      until_next g some_round (holds g 0 g.condition run.0) (is_reached limit (w.now run.0))
        (λ run1. after (body run1) (until_loop g limit body left true)) run

  abbrev pub guard_by :
      GuardNode
      → Mode
      → Bool
      → (Run S Err → Run S Err × Flow Err)
      → (Run S Err → Run S Err × Flow Err)
      → (Run S Err → Run S Err × Flow Err)
      → Run S Err
      → Run S Err × Flow Err
  guard_by g when_mode has_otherwise body first second run =
      run_when g has_otherwise (fires g run.0) first second run
  guard_by g repeat_mode has_otherwise body first second run = repeat_loop g.count body run
  guard_by g until_mode has_otherwise body first second run =
      until_loop g (deadline_from policy.timeout (w.now run.0)) body until_round_cap false run
  guard_by g other_mode has_otherwise body first second run = (run, raises (run_error w.bad_mode))

  -- A Guard, whose children `body` runs, `first` the first and `second` the second.
  abbrev pub run_guard :
      GuardNode
      → Bool
      → (Run S Err → Run S Err × Flow Err)
      → (Run S Err → Run S Err × Flow Err)
      → (Run S Err → Run S Err × Flow Err)
      → Run S Err
      → Run S Err × Flow Err
  run_guard g has_otherwise body first second run =
      guard_by g g.mode has_otherwise body first second run

  -- `len(inner_ids) > 1`
  abbrev pub has_second : Items → Bool
  has_second no_items = false
  has_second (item i no_items) = false
  has_second (item i (item j rest)) = true

  -- `_flatten_items` with the loop that runs what it yields
  unfoldable mutual
    unfolding fires repeat_loop until_loop run_one run_parallel

    pub run_item : Item → Run S Err → Run S Err × Flow Err
    run_item (step_item step) run = run_one w policy deadline step run
    run_item (concurrency steps) run = run_parallel w policy deadline steps run
    run_item (pipeline items) run = run_items items run
    run_item (guard g items) run =
        run_guard g (has_second items) (λ r. run_items items r) (λ r. run_first items r)
          (λ r. run_second items r) run
    run_item other_item run = (run, raises (run_error w.bad_kind))

    pub run_items : Items → Run S Err → Run S Err × Flow Err
    run_items no_items run = (run, goes)
    run_items (item i rest) run = after (run_item i run) (λ r. run_items rest r)

    -- `inner_ids[:1]`
    pub run_first : Items → Run S Err → Run S Err × Flow Err
    run_first no_items run = (run, goes)
    run_first (item i rest) run = run_item i run

    -- `inner_ids[1:2]`
    pub run_second : Items → Run S Err → Run S Err × Flow Err
    run_second no_items run = (run, goes)
    run_second (item i rest) run = run_first rest run

  -- The loop over `response_terms`: the first step whose terms raise
  unfoldable pub respond_terms : List Step → S → Option (Text × Raised Err)
  respond_terms [] s = none
  respond_terms (step ∷ steps) s =
      let later = respond_terms steps s in
      elim (w.terms step s) [ none ↦ later | some e ↦ some (step.name, e) ]

  -- What a commit or a rollback leaves: the report, or its exception.
  abbrev pub closed : Option (Raised Err) → Report Err → Result (Raised Err) (Report Err)
  closed none r = ok r
  closed (some e) r = err e

  -- The `commit` or the `rollback`, by `result["status"]`
  abbrev pub close_by :
      Option (Text × Failure Err) → Run S Err → S × Result (Raised Err) (Report Err)
  close_by none (s, r) = ((w.commit s).0, closed (w.commit s).1 r)
  close_by (some f) (s, r) =
      ((w.rollback s).0, closed (w.rollback s).1 (record r { failed = some f }))

  abbrev pub close_faults :
      Option (Text × Raised Err) → Run S Err → S × Result (Raised Err) (Report Err)
  close_faults none run = close_by none run
  close_faults (some (name, run_error e)) run = close_by (some (name, raised e)) run
  close_faults (some (name, other_error e)) (s, r) = (s, err (other_error e))

  abbrev pub close_terms :
      Option (Text × Failure Err) → Run S Err → S × Result (Raised Err) (Report Err)
  close_terms (some f) run = close_by (some f) run
  close_terms none (s, r) = close_faults (respond_terms r.finished s) (s, r)

  -- `raise`, where the rollback has raised nothing itself
  abbrev pub first_raised : Option (Raised Err) → Raised Err → Raised Err
  first_raised none e = e
  first_raised (some x) e = x

  abbrev pub returned :
      S × Result (Raised Err) (Report Err) → S × Option (Result (Raised Err) (Report Err))
  returned (s, out) = (s, some out)

  -- Behind the loop: `except RunError` rolls back, another exception leaves as it is; no result where a
  -- loop is stuck
  abbrev pub close_run : Run S Err × Flow Err → S × Option (Result (Raised Err) (Report Err))
  close_run ((s, r), raises (run_error e)) =
      ((w.rollback s).0, some (err (first_raised (w.rollback s).1 (run_error e))))
  close_run ((s, r), raises (other_error e)) = (s, some (err (other_error e)))
  close_run ((s, r), stuck) = (s, none)
  close_run ((s, r), stops) = returned (close_terms r.failed (s, r))
  close_run ((s, r), goes) = returned (close_terms r.failed (s, r))

-- `run_workflow` from `begin` on: what stands before it reads the document, and changes nothing. `begin`
-- may raise before anything has run.
abbrev pub begin_run :
    {S Err : Type 0}
    → World S Err
    → Policy
    → Items
    → ℕ
    → S × Option (Raised Err)
    → S × Option (Result (Raised Err) (Report Err))
begin_run w policy items now (s, some e) = (s, some (err e))
begin_run {Err = Err} w policy items now (s, none) =
    let deadline = deadline_from policy.timeout now in
    close_run w policy deadline (run_items w policy deadline items (s, empty_report Err))

unfoldable pub run_workflow :
    {S Err : Type 0}
    → World S Err
    → Policy
    → Items
    → S
    → S × Option (Result (Raised Err) (Report Err))
unfolding run_items respond_terms
run_workflow w policy items s = begin_run w policy items (w.now s) (w.begin s)
