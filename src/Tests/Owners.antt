-- ===== src/Tests/Owners.antt =====
-- Two nodes that own each other behind a root, and a document without a loop.
use linkly.Base.{◌≡◌, ◌⊎◌, ◌↔◌, refl, some, List, [], ◌∷◌}
use linkly.Base.Text.{Text, codes}
use linkly.Base.Assoc.{Assoc}
use linkly.Protocol.Cycle.{walk, search_roots, ownership_cycle}
use linkly.Protocol.Cycle.Owned.{children_in, IsCycle, ownership_cycle-IsCycle}
use linkly.Protocol.Cycle.Exact.{ownership_cycle-nil_iff}

abbrev looped : Assoc (List Text)
looped =
    (codes "s", codes "w" ∷ [])
    ∷ (codes "w", codes "gone" ∷ codes "p" ∷ [])
    ∷ (codes "p", codes "w" ∷ [])
    ∷ []

loop_found : ownership_cycle looped ≡ some (codes "p" ∷ codes "w" ∷ codes "p" ∷ [])
unfolding ownership_cycle search_roots walk
loop_found = refl

no_loop : ownership_cycle ((codes "s", codes "w" ∷ []) ∷ (codes "w", []) ∷ []) ≡ some []
unfolding ownership_cycle search_roots walk
no_loop = refl

ownership_cycle-IsCycle_example :
    (cycle : List Text) × (ownership_cycle looped ≡ some cycle)
    × ((cycle ≡ []) ⊎ IsCycle (children_in looped) cycle)
ownership_cycle-IsCycle_example = ownership_cycle-IsCycle looped

ownership_cycle-nil_iff_example :
    (ownership_cycle looped ≡ some [])
    ↔ ((cycle : List Text) → IsCycle (children_in looped) cycle → ⊥)
ownership_cycle-nil_iff_example = ownership_cycle-nil_iff looped
