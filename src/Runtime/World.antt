-- ===== src/Runtime/World.antt =====
-- impl/lnpl/interp.py: what `run_workflow` reads and reports: the items of a workflow, the policies, and
-- the operations of the runtime. A node of the body stands with its children in place of their ids.
use linkly.Base.{ℕ, ◌+◌, Bool, false, Option, none, some, List, [], ltb, leb}
use linkly.Base.Result.{Result}
use linkly.Base.Text.{Text}
use linkly.Eval.Scope.{RunError, Scope}
use linkly.Runtime.Retry.{Effect}

-- A WorkflowStep with the effects that the retry rule looks at.
pub record Step : Type 0 where
  pub name : Text
  pub effects : List Effect

pub data Mode : Type 0 where
  when_mode repeat_mode until_mode other_mode : Mode

-- A Guard node. `text_ops` holds `textEqualityOperands` for each condition, the first one's first.
pub record GuardNode : Type 0 where
  pub id : Text
  pub mode : Mode
  pub condition : Option Text
  pub alternatives : List Text
  pub count : ℕ
  pub text_ops : List (List Text)

-- The nodes of a workflow's body, by their kind.
mutual
  pub data Item : Type 0 where
    step_item : Step → Item
    concurrency : List Step → Item
    pipeline : Items → Item
    guard : GuardNode → Items → Item
    other_item : Item

  pub data Items : Type 0 where
    no_items : Items
    item : Item → Items → Items

-- An exception: a RunError, or one that `except RunError` does not catch.
pub data Raised (Err : Type 0) : Type 0 where
  run_error : Err → Raised Err
  other_error : Err → Raised Err

-- What the runtime does for a run, with the exception that it raises: `_run_step`, the clock, the scope
-- of the guards, the values of a step's notes, the three calls of the repository's transaction,
-- `_respond_terms` for a step, and the thread pool of a parallel block. The commit and the rollback stand
-- with what follows them up to the end of the method: invalidations, discarded writes, the result. The
-- pool leaves an outcome for each step that it ran to its end; a step that was cancelled, or whose
-- exception was no RunError, has none.
pub record Attempted (Err : Type 0) : Type 0 where
  pub attempts : ℕ
  pub error : Option Err
  pub start : ℕ

pub record World (S Err : Type 0) : Type 0 where
  pub now : S → ℕ
  pub advance : ℕ → S → S
  pub scope : S → Scope
  pub fault : RunError → Err
  pub bad_mode : Err
  pub bad_kind : Err
  pub run_step : Option ℕ → Step → S → S × Option (Raised Err)
  pub run_block : Option ℕ → List Step → S → S × Result (Raised Err) (List (Option (Attempted Err)))
  pub notes : Step → S → Option (Raised Err)
  pub terms : Step → S → Option (Raised Err)
  pub begin : S → S × Option (Raised Err)
  pub commit : S → S × Option (Raised Err)
  pub rollback : S → S × Option (Raised Err)

-- `con["retry"]` and `con["timeout_ms"]`
pub record Policy : Type 0 where
  pub retry : ℕ
  pub timeout : Option ℕ

pub data Failure (Err : Type 0) : Type 0 where
  raised : Err → Failure Err
  deadline_exceeded : Failure Err

-- `result`: `failed_step` with its reason where `status` is "failed", the entries of `steps` with their
-- attempts, and `skipped` as guards with the branch. `finished` holds the steps without an error.
pub record Report (Err : Type 0) : Type 0 where
  pub failed : Option (Text × Failure Err)
  pub steps : List (Text × ℕ)
  pub skipped : List (Text × Bool)
  pub finished : List Step

abbrev pub empty_report : (Err : Type 0) → Report Err
empty_report Err = record { failed = none; steps = []; skipped = []; finished = [] }

-- How the loop goes on: to the next item, out by `break`, or out by an exception; `stuck` stands for
-- a retry loop whose fuel ran out.
pub data Flow (Err : Type 0) : Type 0 where
  goes stops stuck : Flow Err
  raises : Raised Err → Flow Err

-- _UNTIL_ROUND_CAP
abbrev pub until_round_cap : ℕ
until_round_cap = 16

-- `deadline`, from a clock
abbrev pub deadline_from : Option ℕ → ℕ → Option ℕ
deadline_from none now = none
deadline_from (some timeout) now = some (now + timeout)

-- `deadline is not None and now > deadline`
abbrev pub is_past : Option ℕ → ℕ → Bool
is_past none now = false
is_past (some deadline) now = ltb deadline now

-- `deadline is not None and now >= deadline`
abbrev pub is_reached : Option ℕ → ℕ → Bool
is_reached none now = false
is_reached (some deadline) now = leb deadline now

-- The state of the runtime with the report so far
abbrev pub Run : Type 0 → Type 0 → Type 0
Run S Err = S × Report Err
