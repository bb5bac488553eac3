-- ===== src/Parser/Body/Attach.antt =====
-- impl/lnpl/parser.py: the layout checks and `_attach`.
use linkly.Base.{ℕ, Bool, true, false, Option, none, some, ◌∷◌, ltb, if◌then◌else◌, length}
use linkly.Base.Result.{Result, ok, err, ◌>>=◌}
use linkly.Lexer.Lines.{Line}
use linkly.Parser.State.{
  parallel, pipeline, GuardMode, when, until, repeat, Block, Guard, Content, step, plain, guarded,
  PendingOtherwise, Visual, Body, block_at, add_step, set_otherwise, ParseError,
  inside_guard_layout, inside_pipeline_layout,
}

abbrev pub Built : Type 0
Built = Result ParseError Body

-- The open block itself.
unfoldable pub opened : Body → Option Block
opened s = elim s.open_block [ none ↦ none | some a ↦ block_at s.blocks a ]

abbrev pub is_parallel : Option Block → Bool
is_parallel none = false
is_parallel (some b) = elim b.kind [ parallel ↦ true | pipeline ↦ false ]

abbrev pub is_deeper_pipeline : Option Block → ℕ → Bool
is_deeper_pipeline none indent = false
is_deeper_pipeline (some b) indent = elim b.kind [
  | parallel ↦ false
  | pipeline ↦ ltb b.indent indent
]

-- `_check_pipeline_layout`
unfoldable pub check_pipeline_layout : Body → Line → Built
check_pipeline_layout s line =
    if is_deeper_pipeline (opened s) line.indent then err inside_pipeline_layout else ok s

abbrev pub below_visual : Option Visual → ℕ → Bool
below_visual none indent = false
below_visual (some v) indent = ltb v.column indent

-- `_check_guard_layout`
unfoldable pub check_guard_layout : Body → Line → Built
check_guard_layout s line =
    if below_visual s.guard_visual line.indent
    then err inside_guard_layout
    else ok (record s { guard_visual = none })

-- The `_guard_visual` of an item that stands deeper than its guard.
abbrev pub visual_for : Option Visual → ℕ → ℕ → Option GuardMode → ℕ → Option Visual
visual_for old column lineno mode indent =
    if ltb column indent
    then some (record { column = column; lineno = lineno; mode = mode })
    else old

-- `_attach` under a pending guard.
unfoldable pub attach_guarded : Body → Guard → Content → Line → Body
attach_guarded s g c line = record s {
  items = guarded g c none ∷ s.items;
  pending_guard = none;
  otherwise_slot = elim g.mode [ when ↦ some (length s.items) | until ↦ none | repeat ↦ none ];
  otherwise_refused = elim g.mode [
    | when ↦ none
    | until ↦ some (until, g.lineno)
    | repeat ↦ some (repeat, g.lineno)
  ];
  guard_visual = visual_for s.guard_visual g.indent g.lineno (some g.mode) line.indent;
}

-- `_attach` at top level.
unfoldable pub attach_plain : Body → Content → Line → Built
attach_plain s c line = do
  checked ← check_guard_layout (record s { otherwise_slot = none; otherwise_refused = none }) line
  ok (record checked { items = plain c ∷ checked.items })

-- `_attach` as the item of an `otherwise`.
unfoldable pub attach_otherwise : Body → PendingOtherwise → Content → Line → Body
attach_otherwise s p c line = record s {
  items = set_otherwise s.items p.slot c p.lineno;
  pending_otherwise = none;
  guard_visual = visual_for s.guard_visual p.indent p.lineno none line.indent;
}

-- `_attach`, the item not inside an open block.
abbrev pub attach_by : Option PendingOtherwise → Option Guard → Body → Content → Line → Built
attach_by (some p) g s c line = ok (attach_otherwise s p c line)
attach_by none (some g) s c line = ok (attach_guarded s g c line)
attach_by none none s c line = attach_plain s c line

unfoldable pub attach_outside : Body → Content → Line → Built
attach_outside s c line = attach_by s.pending_otherwise s.pending_guard s c line

-- `_attach` of a step.
abbrev pub attach_step_at : Option ℕ → Body → Line → Built
attach_step_at (some a) s line = ok (record s { blocks = add_step s.blocks a line })
attach_step_at none s line = attach_outside s (step line) line

unfoldable pub attach_step : Body → Line → Built
attach_step s line = attach_step_at s.open_block s line
