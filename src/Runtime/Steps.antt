-- ===== src/Runtime/Steps.antt =====
-- impl/lnpl/interp.py: how `run_workflow` runs a step with its retries, and what `_run_parallel_block`
-- does with the outcomes of its steps. Spans and logs are left out.
use linkly.Base.{
  ℕ, zero, suc, ◌+◌, Bool, true, false, ◌&&◌, Option, none, some, List, [], ◌∷◌, ◌++◌, ltb,
  if◌then◌else◌,
}
use linkly.Base.Result.{Result, ok, err}
use linkly.Base.Text.{Text}
use linkly.Runtime.Retry.{max_step_attempts, backoff_ms, retryable}
use linkly.Runtime.World.{
  Step, Attempted, Raised, run_error, other_error, World, Policy, raised, deadline_exceeded, Report,
  Flow, goes, stops, stuck, raises, is_past, Run,
}

module _ {S Err : Type 0} (w : World S Err) (policy : Policy) (deadline : Option ℕ) where
  -- What the attempts of a step leave: how many were made, and the exception of the last one.
  abbrev pub Tried : Type 0
  Tried = S × Option (ℕ × Option (Raised Err))

  -- What follows attempt n, where `retries` is what `_retryable` says.
  abbrev pub try_more : ℕ → S → Option (Raised Err) → Bool → Tried → Tried
  try_more n s none retries again = (s, some (n, none))
  try_more n s (some (other_error e)) retries again = (s, some (n, some (other_error e)))
  try_more n s (some (run_error e)) true again = again
  try_more n s (some (run_error e)) false again = (s, some (n, some (run_error e)))

  -- The `while True` loop of a step, from the attempt `n + 1` on: the attempts made and the error. No
  -- result means that the fuel ran out.
  unfoldable pub try_step : ℕ → ℕ → Step → S → Tried
  try_step zero n step s = (s, none)
  try_step (suc fuel) n step s =
      let (s1, error) = w.run_step deadline step s in
      let again = try_step fuel (n + 1) step (w.advance (backoff_ms (n + 1)) s1) in
      try_more (n + 1) s1 error (retryable step.effects policy.retry (n + 1) (w.now s1) deadline)
        again

  -- A step without an error, behind its notes
  abbrev pub end_step : Step → S → Report Err → Option (Raised Err) → Run S Err × Flow Err
  end_step step s r (some e) = ((s, r), raises e)
  end_step step s r none =
      if is_past deadline (w.now s)
      then ((s, record r { failed = some (step.name, deadline_exceeded) }), stops)
      else ((s, r), goes)

  -- The lines of the loop body behind the retries.
  abbrev pub note_step :
      Step → S → Report Err → Option (ℕ × Option (Raised Err)) → Run S Err × Flow Err
  note_step step s r none = ((s, r), stuck)
  note_step step s r (some (n, some (other_error e))) = ((s, r), raises (other_error e))
  note_step step s r (some (n, some (run_error e))) = (
    (s, record r { steps = r.steps ++ (step.name, n) ∷ []; failed = some (step.name, raised e) }),
    stops,
  )
  note_step step s r (some (n, none)) =
      end_step step s
        (record r { steps = r.steps ++ (step.name, n) ∷ []; finished = r.finished ++ step ∷ [] })
        (w.notes step s)

  -- The loop body for a step
  unfoldable pub run_one : Step → Run S Err → Run S Err × Flow Err
  run_one step (s, r) =
      let (s1, tried) = try_step max_step_attempts 0 step s in note_step step s1 r tried

  -- The earliest failure so far: its start, its step and its error.
  abbrev pub earlier :
      Option (ℕ × Text × Err) → Step → Attempted Err → Err → Option (ℕ × Text × Err)
  earlier none step a e = some (a.start, step.name, e)
  earlier (some (start, name, first)) step a e =
      if ltb a.start start then some (a.start, step.name, e) else some (start, name, first)

  abbrev pub note_outcome :
      Step
      → Attempted Err
      → Option Err
      → Report Err × Option (ℕ × Text × Err)
      → Report Err × Option (ℕ × Text × Err)
  note_outcome step a none (r, first) = (
    record r {
      steps = r.steps ++ (step.name, a.attempts) ∷ [];
      finished = r.finished ++ step ∷ [];
    },
    first,
  )
  note_outcome step a (some e) (r, first) =
      (record r { steps = r.steps ++ (step.name, a.attempts) ∷ [] }, earlier first step a e)

  -- The loop over the steps of a block in their written order
  unfoldable pub note_outcomes :
      List Step
      → List (Option (Attempted Err))
      → Report Err × Option (ℕ × Text × Err)
      → Report Err × Option (ℕ × Text × Err)
  note_outcomes (step ∷ steps) (some a ∷ outcomes) acc =
      note_outcomes steps outcomes (note_outcome step a a.error acc)
  note_outcomes (step ∷ steps) (none ∷ outcomes) acc = note_outcomes steps outcomes acc
  note_outcomes _ _ acc = acc

  -- `bool(outcomes)`
  unfoldable pub any_outcome : List (Option (Attempted Err)) → Bool
  any_outcome [] = false
  any_outcome (some a ∷ outcomes) = true
  any_outcome (none ∷ outcomes) = any_outcome outcomes

  -- `steps[-1]["name"]`
  unfoldable pub last_name : List Step → Text
  last_name [] = []
  last_name (step ∷ []) = step.name
  last_name (step ∷ next ∷ steps) = last_name (next ∷ steps)

  abbrev pub settle_block :
      List Step → Bool → S → Report Err × Option (ℕ × Text × Err) → Run S Err × Flow Err
  settle_block steps ran s (r, some (start, name, e)) =
      ((s, record r { failed = some (name, raised e) }), stops)
  settle_block steps ran s (r, none) =
      if ran && is_past deadline (w.now s)
      then ((s, record r { failed = some (last_name steps, deadline_exceeded) }), stops)
      else ((s, r), goes)

  abbrev pub after_pool :
      List Step
      → Report Err
      → S × Result (Raised Err) (List (Option (Attempted Err)))
      → Run S Err × Flow Err
  after_pool steps r (s, err e) = ((s, r), raises e)
  after_pool steps r (s, ok outcomes) =
      settle_block steps (any_outcome outcomes) s (note_outcomes steps outcomes (r, none))

  -- `_run_parallel_block` behind the pool, and the test of `result["status"]`
  unfoldable pub run_parallel : List Step → Run S Err → Run S Err × Flow Err
  run_parallel steps (s, r) = after_pool steps r (w.run_block deadline steps s)
