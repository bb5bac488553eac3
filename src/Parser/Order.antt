-- ===== src/Parser/Order.antt =====
-- impl/lnpl/parser.py: every step line of a workflow body ends up in the body, once and in order.
use linkly.Base.{
  ◌≡◌, refl, sym, ◌∙◌, Bool, true, false, Option, none, some, List, [], ◌∷◌, ◌++◌, arith,
  append_assoc, append-nil,
}
use linkly.Base.Result.{ok, chain_returns}
use linkly.Lexer.Lines.{Line}
use linkly.Parser.State.{Guard, Body, empty_body}
use linkly.Parser.Body.{
  Head, merge, opens, guards, alternative, otherwise, other, head_of, alternative_at, append_by,
  append_workflow_item, append_lines, finish_body,
}
use linkly.Parser.Contents.{step_lines, IsShared}
use linkly.Parser.Adds.{
  is_armed, Adds, merge_line-Adds, block_line-Adds, guard_line-Adds, add_alternative-Adds,
  otherwise_line-Adds, attach_step-Adds,
}

-- The step that a line is, if it is one; the flag says that a guard waits for its item.
abbrev pub line_steps : Head → Bool → Line → List Line
line_steps alternative false l = l ∷ []
line_steps other armed l = l ∷ []
line_steps _ armed l = []

-- Whether a guard waits behind the line.
abbrev pub next_armed : Head → Bool → Bool
next_armed (guards mode) armed = true
next_armed alternative armed = armed
next_armed _ armed = false

-- The step lines among the lines of a body, read off the first words alone.
abbrev pub steps_of : Bool → List Line → List Line
steps_of armed [] = []
steps_of armed (l ∷ ls) =
    line_steps (head_of l.tokens) armed l ++ steps_of (next_armed (head_of l.tokens) armed) ls

alternative_at-Adds :
    (g : Option Guard) (s t : Body) (l : Line)
    → s.pending_guard ≡ g
    → IsShared s
    → alternative_at g s l ≡ ok t
    → Adds s t (line_steps alternative (is_armed g) l) (next_armed alternative (is_armed g))
alternative_at-Adds none s t l e h r = attach_step-Adds s t l h r
alternative_at-Adds (some g) s t l e h r = add_alternative-Adds g s t l e h r

append_by-Adds :
    (k : Head) (s t : Body) (l : Line)
    → IsShared s
    → append_by k s l ≡ ok t
    → Adds s t (line_steps k (is_armed s.pending_guard) l) (next_armed k (is_armed s.pending_guard))
append_by-Adds merge s t l h r = merge_line-Adds s t h r
append_by-Adds (opens kind) s t l h r = block_line-Adds kind s t l h r
append_by-Adds (guards mode) s t l h r = guard_line-Adds mode s t l h r
append_by-Adds alternative s t l h r = alternative_at-Adds s.pending_guard s t l refl h r
append_by-Adds otherwise s t l h r = otherwise_line-Adds s t l h r
append_by-Adds other s t l h r = attach_step-Adds s t l h r

append_lines_lem :
    (s t : Body) (ls : List Line)
    → IsShared s
    → append_lines s ls ≡ ok t
    → IsShared t × (step_lines t ≡ step_lines s ++ steps_of (is_armed s.pending_guard) ls)
unfolding append_lines append_workflow_item
append_lines_lem s t [] h r =
    let same : t ≡ s = ground arith in rw same (h, sym (append-nil (step_lines s)))
append_lines_lem s t (l ∷ ls) h r =
    let (next, first, rest) = chain_returns (append_by (head_of l.tokens) s l) _ r in
    let added = append_by-Adds (head_of l.tokens) s next l h first in
    let (shared, whole) = append_lines_lem next t ls added.shared rest in
    (shared, whole ∙ rw (added.lines, added.flag) (append_assoc (step_lines s) _ _))

finish_body-step_lines : (s t : Body) → finish_body s ≡ ok t → step_lines t ≡ step_lines s
unfolding finish_body
finish_body-step_lines s t r = ground arith

-- A workflow body that is accepted holds exactly the lines that are steps, each once and in the
-- order of the source, whatever blocks, guards and `otherwise` items they stand in.
pub finish_body-steps :
    (ls : List Line) (s t : Body)
    → append_lines empty_body ls ≡ ok s
    → finish_body s ≡ ok t
    → step_lines t ≡ steps_of false ls
finish_body-steps ls s t built finished =
    finish_body-step_lines s t finished
    ∙ (append_lines_lem empty_body s ls
        (record { held = refl; open_top = tt; slot_top = tt; wait_top = tt; one_waits = tt })
        built).1

-- However far a body is read, every block is held by exactly one item, the open block is the newest,
-- and at most one of an open block, a waiting guard and a waiting `otherwise` is there.
pub append_lines-IsShared :
    (ls : List Line) (s : Body) → append_lines empty_body ls ≡ ok s → IsShared s
append_lines-IsShared ls s built =
    (append_lines_lem empty_body s ls
      (record { held = refl; open_top = tt; slot_top = tt; wait_top = tt; one_waits = tt }) built).0
