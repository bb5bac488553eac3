-- ===== src/Runtime/Retry.antt =====
-- impl/lnpl/interp.py: `_retryable`, `_backoff_ms` and the loop of `_execute_step_with_retry`.
pub mod Bounds
use linkly.Base.{
  ℕ, zero, suc, ◌+◌, ◌-◌, ◌*◌, ◌^◌, Bool, true, false, ◌&&◌, ◌||◌, not, Option, none, some, List,
  [], ◌∷◌, ltb, leb, if◌then◌else◌, all,
}
use linkly.Base.Text.{Text, codes, is_in}
use Prim.Native.Nat.{min}

-- MAX_STEP_ATTEMPTS
abbrev pub max_step_attempts : ℕ
max_step_attempts = 100

-- The kinds of effect nodes that the retry rule looks at; all other kinds are one.
pub data EffectKind : Type 0 where
  repository_call cache_access network_call event_emit rejection other_effect : EffectKind

-- An effect node: its kind and its operation, if it has one.
pub record Effect : Type 0 where
  pub kind : EffectKind
  pub operation : Option Text

abbrev pub operation_in : Option Text → List Text → Bool
operation_in none ops = false
operation_in (some op) ops = is_in op ops

-- `key in IDEMPOTENT_OPS`
unfoldable pub is_idempotent : Effect → Bool
is_idempotent e = elim e.kind [
  | repository_call ↦
      operation_in e.operation (codes "read" ∷ codes "query" ∷ codes "delete" ∷ codes "update" ∷ [])
  | cache_access ↦ operation_in e.operation (codes "get" ∷ codes "set" ∷ codes "invalidate" ∷ [])
  | _ ↦ false
]

-- One turn of the loop of `_retryable` over the children: false where it returns False.
unfoldable pub effect_retries : Effect → Bool
effect_retries e = elim e.kind [
  | repository_call ↦ is_idempotent e
  | cache_access ↦ is_idempotent e
  | network_call ↦ false
  | event_emit ↦ false
  | rejection ↦ false
  | other_effect ↦ true
]

-- `_backoff_ms`
unfoldable pub backoff_ms : ℕ → ℕ
backoff_ms attempt = min (100 * 2 ^ (attempt - 1)) 1000

abbrev pub past_deadline : Option ℕ → ℕ → Bool
past_deadline none at = false
past_deadline (some deadline) at = leb deadline at

-- `_retryable`: the effects of the step, the declared `retry`, the attempts made, the clock and the
-- deadline.
unfoldable pub retryable : List Effect → ℕ → ℕ → ℕ → Option ℕ → Bool
retryable effects retry attempts now deadline =
    if leb max_step_attempts attempts
    then false
    else if ltb retry attempts
    then false
    else if past_deadline deadline (now + backoff_ms attempts)
    then false
    else all effect_retries effects

-- How the loop ended: `attempts` and the error as it reports them, the clock, and the clock at
-- each call of `_run_step`, the last call first.
pub record Outcome {ℓ} (Err : Type ℓ) : Type ℓ where
  pub attempts : ℕ
  pub error : Option Err
  pub now : ℕ
  pub ran : List ℕ

-- What surrounds the loop: `_run_step` of an attempt at a clock, with its error and the clock
-- after it, and whether the cancel event is set before an attempt.
module _ {ℓ} {Err : Type ℓ} (run_step : ℕ → ℕ → Option Err × ℕ) (cancelled : ℕ → Bool)
    (effects : List Effect) (retry : ℕ) (deadline : Option ℕ) where
  -- The `while True` loop; no outcome means that the fuel ran out.
  unfoldable pub attempt_step : ℕ → ℕ → Option Err → ℕ → List ℕ → Option (Outcome Err)
  attempt_step zero attempts error now ran = none
  attempt_step (suc fuel) attempts error now ran =
      let n = attempts + 1 in
      let (raised, after) = run_step n now in
      let again = attempt_step fuel n raised (after + backoff_ms n) (now ∷ ran) in
      if ltb 1 n && cancelled n
      then some (record { attempts = n; error = error; now = now; ran = ran })
      else elim raised [
        | none ↦ some (record { attempts = n; error = none; now = after; ran = now ∷ ran })
        | some e ↦
            if retryable effects retry n after deadline
            then again
            else some (record { attempts = n; error = some e; now = after; ran = now ∷ ran })
      ]

  -- `_execute_step_with_retry`, for a clock that stands at `now`.
  unfoldable pub execute_step : ℕ → Option (Outcome Err)
  execute_step now = attempt_step max_step_attempts 0 none now []
