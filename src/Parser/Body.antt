-- ===== src/Parser/Body.antt =====
-- impl/lnpl/parser.py: `_append_workflow_item`, `_otherwise_line`, and what `parse` does with the
-- body of a workflow at the end.
mod Attach
unfoldable pub use Attach.*
use linkly.Base.{
  ℕ, Bool, true, false, not, Option, none, some, List, [], ◌∷◌, ◌++◌, ltb, ◌==◌, if◌then◌else◌,
  length,
}
use linkly.Base.Result.{Result, ok, err, ◌>>=◌}
use linkly.Base.Text.{Text, codes, same_text, all_digits}
use linkly.Base.Words.{join_words}
use linkly.Lexer.Lines.{Line}
use linkly.Condition.Syntax.{Condition}
use linkly.Condition.Parse.{Parsed, parse_condition}
use linkly.Parser.State.{
  BlockKind, parallel, pipeline, GuardMode, when, until, repeat, Block, Guard, Content, step, block,
  plain, guarded, PendingOtherwise, Visual, Body, block_at, add_step, set_otherwise, slot_filled,
  ParseError, merge_without_parallel, nested_block, pipeline_names, parallel_names,
  guard_needs_argument, repeat_needs_count, invalid_condition, guard_in_parallel,
  guard_after_otherwise, guard_after_guard, or_after_other_mode, or_needs_condition,
  otherwise_takes_no_words, otherwise_in_parallel, otherwise_after_guard, second_otherwise,
  otherwise_refused_mode, otherwise_without_guard, inside_guard_layout, inside_pipeline_layout,
  unclosed_parallel, guard_guards_nothing, otherwise_owns_nothing,
}

-- What the first word of a line selects.
pub data Head : Type 0 where
  merge : Head
  opens : BlockKind → Head
  guards : GuardMode → Head
  alternative : Head
  otherwise : Head
  other : Head

unfoldable pub head_of : List Text → Head
head_of [] = other
head_of (t ∷ toks) =
    if same_text t (codes "merge")
    then merge
    else if same_text t (codes "parallel")
    then opens parallel
    else if same_text t (codes "pipeline")
    then opens pipeline
    else if same_text t (codes "when")
    then guards when
    else if same_text t (codes "until")
    then guards until
    else if same_text t (codes "repeat")
    then guards repeat
    else if same_text t (codes "or")
    then alternative
    else if same_text t (codes "otherwise")
    then otherwise
    else other

-- `merge`
unfoldable pub merge_line : Body → Built
merge_line s =
    if is_parallel (opened s)
    then ok (record s { open_block = none })
    else err merge_without_parallel

-- The name of a block: the second token, if there is one.
abbrev pub second_token : List Text → Option Text
second_token (t ∷ u ∷ toks) = some u
second_token _ = none

-- The dict of a new block.
abbrev pub new_block : BlockKind → Line → Block
new_block kind line = record {
  kind = kind;
  lineno = line.lineno;
  steps = [];
  name = second_token line.tokens;
  indent = line.indent;
}

-- A new block in the store, attached, and then the open one.
unfoldable pub open_new_block : BlockKind → Body → Line → Built
open_new_block kind s line = do
  placed ←
      attach_outside (record s { blocks = new_block kind line ∷ s.blocks; open_block = none })
        (block (length s.blocks)) line
  ok (record placed { open_block = some (length s.blocks) })

abbrev pub too_many_names : BlockKind → List Text → Option ParseError
too_many_names pipeline toks = if ltb 2 (length toks) then some pipeline_names else none
too_many_names parallel toks = if ltb 1 (length toks) then some parallel_names else none

-- `parallel` and `pipeline`
unfoldable pub block_line : BlockKind → Body → Line → Built
block_line kind s line =
    if is_parallel (opened s) then err nested_block else elim (too_many_names kind line.tokens) [
      | some e ↦ err e
      | none ↦ do checked ← check_pipeline_layout s line; open_new_block kind checked line
    ]

-- `" ".join(line.tokens[1:])`
abbrev pub argument : List Text → Text
argument [] = []
argument (t ∷ toks) = join_words toks

-- The checks on the words of a guard line; none for a count of `repeat`.
abbrev pub condition_fault : Parsed (Option Condition) → Option ParseError
condition_fault (err e) = some (invalid_condition e)
condition_fault (ok c) = none

abbrev pub guard_fault : GuardMode → List Text → Option ParseError
guard_fault repeat (t ∷ n ∷ toks) = if all_digits n then none else some repeat_needs_count
guard_fault when (t ∷ n ∷ toks) = condition_fault (parse_condition (join_words (n ∷ toks)))
guard_fault until (t ∷ n ∷ toks) = condition_fault (parse_condition (join_words (n ∷ toks)))
guard_fault mode _ = some guard_needs_argument

-- The dict of a pending guard.
abbrev pub new_guard : GuardMode → Line → Guard
new_guard mode line = record {
  mode = mode;
  arg = argument line.tokens;
  lineno = line.lineno;
  indent = line.indent;
  alternatives = [];
}

-- A guard line when its words are right and no `parallel` is open.
abbrev pub arm_guard : Option PendingOtherwise → Option Guard → GuardMode → Body → Line → Built
arm_guard (some p) g mode s line = err guard_after_otherwise
arm_guard none (some g) mode s line = err guard_after_guard
arm_guard none none mode s line = do
  checked ← check_guard_layout s line
  ok (record checked { pending_guard = some (new_guard mode line) })

-- `when`, `until` and `repeat`
unfoldable pub guard_line : GuardMode → Body → Line → Built
guard_line mode s line = elim (guard_fault mode line.tokens) [
  | some e ↦ err e
  | none ↦ if is_parallel (opened s) then err guard_in_parallel else do
    checked ← check_pipeline_layout s line
    arm_guard checked.pending_otherwise checked.pending_guard mode
        (record checked { open_block = none }) line
]

-- `or` under a pending guard.
abbrev pub alternative_fault : List Text → Option ParseError
alternative_fault (t ∷ n ∷ toks) = condition_fault (parse_condition (join_words (n ∷ toks)))
alternative_fault _ = some or_needs_condition

unfoldable pub add_alternative : Guard → Body → Line → Built
add_alternative g s line = elim g.mode [
  | when ↦ elim (alternative_fault line.tokens) [
    | some e ↦ err e
    | none ↦ ok (record s {
      pending_guard =
          some (record g { alternatives = g.alternatives ++ argument line.tokens ∷ [] });
    })
  ]
  | until ↦ err or_after_other_mode
  | repeat ↦ err or_after_other_mode
]

-- `or`: an alternative of the pending guard, or else an ordinary step.
abbrev pub alternative_at : Option Guard → Body → Line → Built
alternative_at (some g) s line = add_alternative g s line
alternative_at none s line = attach_step s line

-- `_otherwise_line`, from the test of the pending guard on.
abbrev pub otherwise_by :
    Option Guard → Option PendingOtherwise → Option ℕ → Option (GuardMode × ℕ) → Body → Line → Built
otherwise_by (some g) p slot refused s line = err otherwise_after_guard
otherwise_by none (some p) slot refused s line = err second_otherwise
otherwise_by none none (some k) refused s line =
    if slot_filled s.items k then err second_otherwise else elim refused [
      | some r ↦ err otherwise_refused_mode
      | none ↦ ok (record s {
        pending_otherwise = some (record { slot = k; lineno = line.lineno; indent = line.indent });
      })
    ]
otherwise_by none none none (some r) s line = err otherwise_refused_mode
otherwise_by none none none none s line = err otherwise_without_guard

-- `_otherwise_line`
unfoldable pub otherwise_line : Body → Line → Built
otherwise_line s line =
    if not (length line.tokens == 1)
    then err otherwise_takes_no_words
    else if is_parallel (opened s)
    then err otherwise_in_parallel
    else do
      checked ← check_pipeline_layout s line
      laid ← check_guard_layout (record checked { open_block = none }) line
      otherwise_by laid.pending_guard laid.pending_otherwise laid.otherwise_slot
          laid.otherwise_refused laid line

-- `_append_workflow_item`, by the first word.
abbrev pub append_by : Head → Body → Line → Built
append_by merge s line = merge_line s
append_by (opens kind) s line = block_line kind s line
append_by (guards mode) s line = guard_line mode s line
append_by alternative s line = alternative_at s.pending_guard s line
append_by otherwise s line = otherwise_line s line
append_by other s line = attach_step s line

unfoldable pub append_workflow_item : Body → Line → Built
append_workflow_item s line = append_by (head_of line.tokens) s line

-- The lines of a body in turn.
unfoldable pub append_lines : Body → List Line → Built
append_lines s [] = ok s
append_lines s (line ∷ lines) = do next ← append_workflow_item s line; append_lines next lines

-- The loop at the end of `parse`, for one workflow.
unfoldable pub finish_body : Body → Built
finish_body s = if is_parallel (opened s) then err unclosed_parallel else elim s.pending_guard [
  | some g ↦ err guard_guards_nothing
  | none ↦ elim s.pending_otherwise [
    | some p ↦ err otherwise_owns_nothing
    | none ↦ ok (record s {
      open_block = none;
      otherwise_slot = none;
      otherwise_refused = none;
      guard_visual = none;
    })
  ]
]
