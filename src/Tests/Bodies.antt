-- ===== src/Tests/Bodies.antt =====
-- impl/lnpl/parser.py at a concrete workflow body.
use linkly.Base.{ℕ, ◌≡◌, refl, false, none, some, List, [], ◌∷◌}
use linkly.Base.Result.{ok}
use linkly.Base.Text.{Text, codes, same_text, all_digits}
use linkly.Base.Words.{join_words}
use linkly.Lexer.Lines.{Line}
use linkly.Parser.State.{
  Body, GuardMode, BlockKind, step, block, plain, guarded, empty_body, block_at, add_step,
}
use linkly.Parser.Body.{
  append_lines, append_workflow_item, head_of, opened, check_pipeline_layout, check_guard_layout,
  attach_guarded, attach_plain, attach_outside, attach_step, merge_line, open_new_block, block_line,
  guard_line, finish_body,
}
use linkly.Parser.Contents.{IsShared, step_lines}
use linkly.Parser.Order.{steps_of, finish_body-steps, append_lines-IsShared}

abbrev line_at : ℕ → List Text → Line
line_at n toks = record { lineno = n; tokens = toks; raw = []; indent = 2 }

abbrev body_lines : List Line
body_lines =
    line_at 1 (codes "parallel" ∷ [])
    ∷ line_at 2 (codes "charge" ∷ codes "Card" ∷ [])
    ∷ line_at 3 (codes "merge" ∷ [])
    ∷ line_at 4 (codes "repeat" ∷ codes "3" ∷ [])
    ∷ line_at 5 (codes "send" ∷ codes "Mail" ∷ [])
    ∷ []

abbrev body_built : Body
body_built = record {
  items =
      guarded
        (record {
          mode = GuardMode.repeat;
          arg = codes "3";
          lineno = 4;
          indent = 2;
          alternatives = [];
        })
        (step (line_at 5 (codes "send" ∷ codes "Mail" ∷ []))) none
      ∷ plain (block 0)
      ∷ [];
  blocks =
      record {
        kind = BlockKind.parallel;
        lineno = 1;
        steps = line_at 2 (codes "charge" ∷ codes "Card" ∷ []) ∷ [];
        name = none;
        indent = 2;
      }
      ∷ [];
  open_block = none;
  pending_guard = none;
  pending_otherwise = none;
  otherwise_slot = none;
  otherwise_refused = some (GuardMode.repeat, 4);
  guard_visual = none;
}

body_lines_built : append_lines empty_body body_lines ≡ ok body_built
unfolding append_lines append_workflow_item head_of opened check_pipeline_layout check_guard_layout
    attach_guarded attach_plain attach_outside attach_step merge_line open_new_block block_line
    guard_line block_at add_step same_text all_digits join_words
body_lines_built = refl

abbrev body_finished : Body
body_finished = record body_built { otherwise_refused = none }

body_lines_finished : finish_body body_built ≡ ok body_finished
unfolding finish_body opened
body_lines_finished = refl

finish_body-steps_example : step_lines body_finished ≡ steps_of false body_lines
finish_body-steps_example =
    finish_body-steps body_lines body_built body_finished body_lines_built body_lines_finished

append_lines-IsShared_example : IsShared body_built
append_lines-IsShared_example = append_lines-IsShared body_lines body_built body_lines_built
