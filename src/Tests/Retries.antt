-- ===== src/Tests/Retries.antt =====
-- impl/lnpl/interp.py: the retry loop on a step that fails once.
use linkly.Base.{ℕ, Bool, false, Option, none, some, List, [], ◌∷◌, ◌+◌, leb, if◌then◌else◌}
use linkly.Base.Text.{codes}
use linkly.Runtime.Retry.{Effect, EffectKind}

abbrev fails_once : ℕ → ℕ → Option ℕ × ℕ
fails_once attempt now = (if leb attempt 1 then some 7 else none, now + 5)

abbrev never : ℕ → Bool
never attempt = false

abbrev reads : List Effect
reads = record { kind = EffectKind.repository_call; operation = some (codes "read") } ∷ []
