-- ===== src/Parser/State.antt =====
-- impl/lnpl/parser.py: the items of a workflow body and the scratch state of `Decl.extra`.
-- A block is shared: `_open_block` and the item that holds it are one dict. So blocks lie in a
-- store, and an item and the open block name a place in it. In the same way the slots of an
-- `otherwise` name the place of a guard item. A place is the number of entries that are older.
use linkly.Base.{
  ℕ, Bool, true, false, Option, none, some, List, [], ◌∷◌, ◌++◌, ◌==◌, if◌then◌else◌, length,
}
use linkly.Base.Text.{Text}
use linkly.Lexer.Lines.{Line}
use linkly.Condition.Syntax.{ConditionError}

pub data BlockKind : Type 0 where
  parallel pipeline : BlockKind

pub data GuardMode : Type 0 where
  when until repeat : GuardMode

-- block: {"type", "lineno", "steps", "name", "indent"}
pub record Block : Type 0 where
  pub kind : BlockKind
  pub lineno : ℕ
  pub steps : List Line
  pub name : Option Text
  pub indent : ℕ

-- `_pending_guard`: {"mode", "arg", "lineno", "indent", "alternatives"}
pub record Guard : Type 0 where
  pub mode : GuardMode
  pub arg : Text
  pub lineno : ℕ
  pub indent : ℕ
  pub alternatives : List Text

-- {"item": "step"} and {"item": "block"}, the block by its place.
pub data Content : Type 0 where
  step : Line → Content
  block : ℕ → Content

-- An entry of `decl.items`; a guard item has its `otherwise` and `otherwise_lineno`.
pub data Item : Type 0 where
  plain : Content → Item
  guarded : Guard → Content → Option (Content × ℕ) → Item

-- `_pending_otherwise`: {"slot", "lineno", "indent"}
pub record PendingOtherwise : Type 0 where
  pub slot : ℕ
  pub lineno : ℕ
  pub indent : ℕ

-- `_guard_visual`: {"column", "lineno", "mode"}; no mode stands for `otherwise`.
pub record Visual : Type 0 where
  pub column : ℕ
  pub lineno : ℕ
  pub mode : Option GuardMode

-- The items and blocks, the newest first, and the scratch entries of `decl.extra`.
pub record Body : Type 0 where
  pub items : List Item
  pub blocks : List Block
  pub open_block : Option ℕ
  pub pending_guard : Option Guard
  pub pending_otherwise : Option PendingOtherwise
  pub otherwise_slot : Option ℕ
  pub otherwise_refused : Option (GuardMode × ℕ)
  pub guard_visual : Option Visual

abbrev pub empty_body : Body
empty_body = record {
  items = [];
  blocks = [];
  open_block = none;
  pending_guard = none;
  pending_otherwise = none;
  otherwise_slot = none;
  otherwise_refused = none;
  guard_visual = none;
}

-- `ParseError`, one constructor for each place that raises it in the body of a workflow.
pub data ParseError : Type 0 where
  merge_without_parallel : ParseError
  nested_block : ParseError
  pipeline_names : ParseError
  parallel_names : ParseError
  guard_needs_argument : ParseError
  repeat_needs_count : ParseError
  invalid_condition : ConditionError → ParseError
  guard_in_parallel : ParseError
  guard_after_otherwise : ParseError
  guard_after_guard : ParseError
  or_after_other_mode : ParseError
  or_needs_condition : ParseError
  otherwise_takes_no_words : ParseError
  otherwise_in_parallel : ParseError
  otherwise_after_guard : ParseError
  second_otherwise : ParseError
  otherwise_refused_mode : ParseError
  otherwise_without_guard : ParseError
  inside_guard_layout : ParseError
  inside_pipeline_layout : ParseError
  unclosed_parallel : ParseError
  guard_guards_nothing : ParseError
  otherwise_owns_nothing : ParseError

-- The block at a place.
unfoldable pub block_at : List Block → ℕ → Option Block
block_at [] a = none
block_at (b ∷ bs) a = if length bs == a then some b else block_at bs a

-- `open_block["steps"].append(line)`
unfoldable pub add_step : List Block → ℕ → Line → List Block
add_step [] a line = []
add_step (b ∷ bs) a line =
    if length bs == a
    then record b { steps = b.steps ++ line ∷ [] } ∷ bs
    else b ∷ add_step bs a line

-- `slot["otherwise"] = item`, `slot["otherwise_lineno"] = lineno`
abbrev pub fill_item : Item → Content → ℕ → Item
fill_item (plain c) item lineno = plain c
fill_item (guarded g c old) item lineno = guarded g c (some (item, lineno))

unfoldable pub set_otherwise : List Item → ℕ → Content → ℕ → List Item
set_otherwise [] k item lineno = []
set_otherwise (i ∷ is) k item lineno =
    if length is == k then fill_item i item lineno ∷ is else i ∷ set_otherwise is k item lineno

-- Whether the slot at a place has an `otherwise` already.
abbrev pub item_filled : Item → Bool
item_filled (plain c) = false
item_filled (guarded g c none) = false
item_filled (guarded g c (some o)) = true

unfoldable pub slot_filled : List Item → ℕ → Bool
slot_filled [] k = false
slot_filled (i ∷ is) k = if length is == k then item_filled i else slot_filled is k
