-- ===== src/Runtime/Run/Reach.antt =====
-- impl/lnpl/interp.py: the states that the loop of `run_workflow` reaches are made of steps, blocks and
-- waits, whatever the guards say.
use linkly.Base.{
  ℕ, zero, suc, ◌+◌, ◌≡◌, ◌≢◌, ◌⊎◌, refl, arith, Bool, true, false, ◌&&◌, Option, none, some, List,
  if◌then◌else◌, Bool-cases, inl, inr,
}
use linkly.Base.Result.{Result, ok, err}
use linkly.Base.Text.{Text}
use linkly.Runtime.Retry.{max_step_attempts, backoff_ms, retryable}
use linkly.Runtime.World.{
  Step, Mode, GuardNode, when_mode, repeat_mode, until_mode, other_mode, Item, step_item,
  concurrency, pipeline, guard, other_item, Items, no_items, item, Attempted, Raised, run_error,
  other_error, World, Policy, Report, Flow, goes, stops, stuck, raises, until_round_cap, is_past,
  is_reached, Run,
}
use linkly.Runtime.Steps.{
  Tried, after_pool, try_more, try_step, end_step, note_step, run_one, settle_block, run_parallel,
}
use linkly.Runtime.Run.{
  holds, skip, after, run_when, repeat_loop, end_rounds, until_next, until_loop, guard_by,
  run_guard, run_item, run_items, run_first, run_second,
}

module _ {S Err : Type 0} (w : World S Err) (policy : Policy) (deadline : Option ℕ) where
  -- A state that a step, a block or a wait makes of another.
  pub data Reach (s : S) : S → Type 0 where
    here : Reach s s
    stepped : (t : S) (step : Step) → Reach s t → Reach s (w.run_step deadline step t).0
    blocked : (t : S) (steps : List Step) → Reach s t → Reach s (w.run_block deadline steps t).0
    waited : (t : S) (ms : ℕ) → Reach s t → Reach s (w.advance ms t)

  abbrev Reaching : S → Run S Err × Flow Err → Type 0
  Reaching s out = Reach s out.0.0 × (out.1 ≢ stuck)

  module _ (s : S) where
    more-Reach :
        (n : ℕ) (t : S) (error : Option (Raised Err)) (retries : Bool)
        (again : Tried w policy deadline)
        → Reach s t
        → Reach s again.0
        → Reach s (try_more w policy deadline n t error retries again).0
    more-Reach n t none retries again h k = h
    more-Reach n t (some (other_error e)) retries again h k = h
    more-Reach n t (some (run_error e)) true again h k = k
    more-Reach n t (some (run_error e)) false again h k = h

    try_step-Reach :
        (fuel n : ℕ) (step : Step) (t : S)
        → Reach s t
        → Reach s (try_step w policy deadline fuel n step t).0
    unfolding try_step
    try_step-Reach zero n step t h = h
    try_step-Reach (suc fuel) n step t h =
        let ran = stepped t step h in
        more-Reach (n + 1) _ (w.run_step deadline step t).1 _ _ ran
          (try_step-Reach fuel (n + 1) step _ (waited _ (backoff_ms (n + 1)) ran))

    -- The fuel of the retry loop is enough: attempt 100 is never retried.
    last_attempt :
        (step : Step) (n now : ℕ)
        → n ≡ 99
        → retryable step.effects policy.retry (n + 1) now deadline ≡ false
    unfolding retryable
    last_attempt step n now e = rw e refl

    more-tried :
        (n : ℕ) (t : S) (error : Option (Raised Err)) (retries : Bool)
        (again : Tried w policy deadline)
        → (retries ≡ false) ⊎ (again.1 ≢ none)
        → (try_more w policy deadline n t error retries again).1 ≢ none
    more-tried n t none retries again h e = cc e
    more-tried n t (some (other_error x)) retries again h e = cc e
    more-tried n t (some (run_error x)) true again (inl refused) e = cc refused
    more-tried n t (some (run_error x)) true again (inr later) e = later e
    more-tried n t (some (run_error x)) false again h e = cc e

    try_step-tried :
        (fuel n : ℕ) (step : Step) (t : S)
        → fuel + n ≡ 99
        → (try_step w policy deadline (suc fuel) n step t).1 ≢ none
    unfolding try_step
    try_step-tried zero n step t e =
        let s1 = (w.run_step deadline step t).0 in
        more-tried (n + 1) s1 (w.run_step deadline step t).1
          (retryable step.effects policy.retry (n + 1) (w.now s1) deadline)
          (try_step w policy deadline zero (n + 1) step (w.advance (backoff_ms (n + 1)) s1))
          (inl (last_attempt step n (w.now s1) (omega (arith, e))))
    try_step-tried (suc fuel) n step t e =
        let s1 = (w.run_step deadline step t).0 in
        let s2 = w.advance (backoff_ms (n + 1)) s1 in
        more-tried (n + 1) s1 (w.run_step deadline step t).1
          (retryable step.effects policy.retry (n + 1) (w.now s1) deadline)
          (try_step w policy deadline (suc fuel) (n + 1) step s2)
          (inr (try_step-tried fuel (n + 1) step s2 (omega (arith, e))))

    end_step-Reach :
        (step : Step) (t : S) (r : Report Err) (noted : Option (Raised Err))
        → Reach s t
        → Reaching s (end_step w policy deadline step t r noted)
    end_step-Reach step t r (some e) h = (h, λ e. cc e)
    end_step-Reach step t r none h = elim (Bool-cases (is_past deadline (w.now t))) [
      | inl past ↦ rw past (h, λ e. cc e)
      | inr inside ↦ rw inside (h, λ e. cc e)
    ]

    note-Reach :
        (step : Step) (t : S) (r : Report Err) (tried : Option (ℕ × Option (Raised Err)))
        → tried ≢ none
        → Reach s t
        → Reaching s (note_step w policy deadline step t r tried)
    note-Reach step t r none tried h = absurd (tried refl)
    note-Reach step t r (some (n, some (run_error e))) tried h = (h, λ e. cc e)
    note-Reach step t r (some (n, some (other_error e))) tried h = (h, λ e. cc e)
    note-Reach step t r (some (n, none)) tried h = end_step-Reach step t _ (w.notes step t) h

    one-Reach :
        (step : Step) (run : Run S Err)
        → Reach s run.0
        → Reaching s (run_one w policy deadline step run)
    unfolding run_one
    one-Reach step (t, r) h =
        note-Reach step _ r _ (try_step-tried 99 0 step t (omega arith))
          (try_step-Reach max_step_attempts 0 step t h)

    settle-Reach :
        (steps : List Step) (ran : Bool) (t : S) (acc : Report Err × Option (ℕ × Text × Err))
        → Reach s t
        → Reaching s (settle_block w policy deadline steps ran t acc)
    settle-Reach steps ran t (r, some (start, name, e)) h = (h, λ e. cc e)
    settle-Reach steps ran t (r, none) h = elim (Bool-cases (ran && is_past deadline (w.now t))) [
      | inl past ↦ rw past (h, λ e. cc e)
      | inr inside ↦ rw inside (h, λ e. cc e)
    ]

    pool-Reach :
        (steps : List Step) (r : Report Err)
        (out : S × Result (Raised Err) (List (Option (Attempted Err))))
        → Reach s out.0
        → Reaching s (after_pool w policy deadline steps r out)
    pool-Reach steps r (t, err e) h = (h, λ e. cc e)
    pool-Reach steps r (t, ok outcomes) h = settle-Reach steps _ t _ h

    parallel-Reach :
        (steps : List Step) (run : Run S Err)
        → Reach s run.0
        → Reaching s (run_parallel w policy deadline steps run)
    unfolding run_parallel
    parallel-Reach steps (t, r) h =
        pool-Reach steps r (w.run_block deadline steps t) (blocked t steps h)

    -- A part of the loop that reaches only states that are reached.
    abbrev Goes : (Run S Err → Run S Err × Flow Err) → Type 0
    Goes body = (run : Run S Err) → Reach s run.0 → Reaching s (body run)

    after-Reach :
        (out : Run S Err × Flow Err) (next : Run S Err → Run S Err × Flow Err)
        → Reaching s out
        → Goes next
        → Reaching s (after w policy deadline out next)
    after-Reach (run, goes) next h k = k run h.0
    after-Reach (run, stops) next h k = h
    after-Reach (run, stuck) next h k = h
    after-Reach (run, raises e) next h k = h

    repeat-Reach :
        (n : ℕ) (body : Run S Err → Run S Err × Flow Err)
        → Goes body
        → Goes (repeat_loop w policy deadline n body)
    unfolding repeat_loop
    repeat-Reach zero body k run h = (h, λ e. cc e)
    repeat-Reach (suc n) body k run h = after-Reach (body run) _ (k run h) (repeat-Reach n body k)

    end-Reach :
        (g : GuardNode) (some_round : Bool) → Goes (end_rounds w policy deadline g some_round)
    end-Reach g true run h = (h, λ e. cc e)
    end-Reach g false run h = (h, λ e. cc e)

    next-Reach :
        (g : GuardNode) (some_round : Bool) (held : Result (Raised Err) Bool) (reached : Bool)
        (next : Run S Err → Run S Err × Flow Err)
        → Goes next
        → Goes (until_next w policy deadline g some_round held reached next)
    next-Reach g some_round (err e) reached next k run h = (h, λ e. cc e)
    next-Reach g some_round (ok true) reached next k run h = end-Reach g some_round run h
    next-Reach g some_round (ok false) true next k run h = end-Reach g some_round run h
    next-Reach g some_round (ok false) false next k run h = k run h

    until-Reach :
        (g : GuardNode) (limit : Option ℕ) (body : Run S Err → Run S Err × Flow Err) (left : ℕ)
        (some_round : Bool)
        → Goes body
        → Goes (until_loop w policy deadline g limit body left some_round)
    unfolding until_loop
    until-Reach g limit body zero some_round k run h =
        next-Reach g some_round (holds w policy deadline g 0 g.condition run.0) true _
          (end-Reach g some_round) run h
    until-Reach g limit body (suc left) some_round k run h =
        next-Reach g some_round (holds w policy deadline g 0 g.condition run.0)
          (is_reached limit (w.now run.0)) _
          (λ run1 h1. after-Reach (body run1) _ (k run1 h1) (until-Reach g limit body left true k))
          run h

    when-Reach :
        (g : GuardNode) (has_otherwise : Bool) (held : Result (Raised Err) Bool)
        (first second : Run S Err → Run S Err × Flow Err)
        → Goes first
        → Goes second
        → Goes (run_when w policy deadline g has_otherwise held first second)
    when-Reach g has_otherwise (err e) first second k l run h = (h, λ e. cc e)
    when-Reach g has_otherwise (ok false) first second k l run h =
        l (skip w policy deadline g true run) h
    when-Reach g has_otherwise (ok true) first second k l run h =
        after-Reach (first run) _ (k run h) (end_when has_otherwise)
      where
        end_when :
            (b : Bool)
            → Goes (λ run1. (if b then skip w policy deadline g false run1 else run1, goes))
        end_when true run h = (h, λ e. cc e)
        end_when false run h = (h, λ e. cc e)

    guard-Reach :
        (g : GuardNode) (has_otherwise : Bool)
        (body first second : Run S Err → Run S Err × Flow Err)
        → Goes body
        → Goes first
        → Goes second
        → Goes (run_guard w policy deadline g has_otherwise body first second)
    guard-Reach g has_otherwise body first second k l m run h = by_mode g.mode
      where
        by_mode :
            (mode : Mode)
            → Reaching s (guard_by w policy deadline g mode has_otherwise body first second run)
        by_mode when_mode = when-Reach g has_otherwise _ first second l m run h
        by_mode repeat_mode = repeat-Reach g.count body k run h
        by_mode until_mode = until-Reach g _ body until_round_cap false k run h
        by_mode other_mode = (h, λ e. cc e)

    mutual
      unfolding run_items

      item-Reach : (i : Item) → Goes (run_item w policy deadline i)
      item-Reach (step_item step) run h = one-Reach step run h
      item-Reach (concurrency steps) run h = parallel-Reach steps run h
      item-Reach (pipeline items) run h = items-Reach items run h
      item-Reach (guard g items) run h =
          guard-Reach g _ _ _ _ (items-Reach items) (first-Reach items) (second-Reach items) run h
      item-Reach other_item run h = (h, λ e. cc e)

      pub items-Reach : (is : Items) → Goes (run_items w policy deadline is)
      items-Reach no_items run h = (h, λ e. cc e)
      items-Reach (item i rest) run h =
          after-Reach (run_item w policy deadline i run) _ (item-Reach i run h) (items-Reach rest)

      first-Reach : (is : Items) → Goes (run_first w policy deadline is)
      first-Reach no_items run h = (h, λ e. cc e)
      first-Reach (item i rest) run h = item-Reach i run h

      second-Reach : (is : Items) → Goes (run_second w policy deadline is)
      second-Reach no_items run h = (h, λ e. cc e)
      second-Reach (item i rest) run h = first-Reach rest run h
