-- ===== src/Runtime/Retry/Bounds.antt =====
-- impl/lnpl/interp.py: the retry loop ends, and how often and until when it runs a step.
use linkly.Base.{
  ℕ, ◌+◌, ◌≤◌, ◌<◌, ◌≡◌, ◌⊎◌, Bool, true, false, Option, none, some, List, [], ◌∷◌, all, length,
}
use linkly.Runtime.Retry.{max_step_attempts, Effect, effect_retries, Outcome}

abbrev pub BeforeDeadline : Option ℕ → ℕ → Type 0
BeforeDeadline none t = Unit
BeforeDeadline (some d) t = t < d

-- All calls but the first began before the deadline. The calls are listed with the last one first.
abbrev pub RetriesBefore : Option ℕ → List ℕ → Type 0
RetriesBefore deadline [] = Unit
RetriesBefore deadline (t ∷ []) = Unit
RetriesBefore deadline (t ∷ u ∷ ts) = BeforeDeadline deadline t × RetriesBefore deadline (u ∷ ts)

-- What holds of the calls that a loop has made.
pub record IsBounded (effects : List Effect) (retry : ℕ) (deadline : Option ℕ) (ran : List ℕ)
    : Type 0 where
  pub within_retry : length ran ≤ retry + 1
  pub within_cap : length ran ≤ max_step_attempts
  pub unsafe_once : all effect_retries effects ≡ false → length ran ≤ 1
  pub in_time : RetriesBefore deadline ran

-- A loop that is about to make one more attempt, after `ran`.
record IsReady (effects : List Effect) (retry : ℕ) (deadline : Option ℕ) (attempts now : ℕ)
    (ran : List ℕ) : Type 0 where
  counted : length ran ≡ attempts
  below_cap : attempts < max_step_attempts
  below_retry : attempts ≤ retry
  safe : (attempts ≡ 0) ⊎ (all effect_retries effects ≡ true)
  on_time : (attempts ≡ 0) ⊎ BeforeDeadline deadline now
  in_time : RetriesBefore deadline ran

module _ {ℓ} {Err : Type ℓ} (run_step : ℕ → ℕ → Option Err × ℕ) (cancelled : ℕ → Bool)
    (effects : List Effect) (retry : ℕ) (deadline : Option ℕ) where
  -- How the loop may end: `attempts` counts the calls, and one more if the event stopped it.
  pub record Ends (o : Outcome Err) : Type 0 where
    pub bounded : IsBounded effects retry deadline o.ran
    pub once : 1 ≤ length o.ran
    pub counted :
        (o.attempts ≡ length o.ran)
        ⊎ ((o.attempts ≡ length o.ran + 1) × (cancelled o.attempts ≡ true))
