-- ===== src/Parser/Adds.antt =====
-- impl/lnpl/parser.py: what each line of a workflow body adds to it.
use linkly.Base.{
  ℕ, ◌≡◌, refl, sym, Bool, true, false, Option, none, some, List, [], ◌∷◌, ◌++◌, length, arith,
  Option-cases, inl, inr, append-nil,
}
use linkly.Base.Result.{ok, chain_returns}
use linkly.Lexer.Lines.{Line}
use linkly.Parser.State.{
  BlockKind, GuardMode, Block, Guard, Content, step, block, Item, plain, guarded, PendingOtherwise,
  Visual, Body, add_step, slot_filled,
}
use linkly.Parser.Body.{
  check_pipeline_layout, check_guard_layout, attach_outside, attach_step_at, attach_step,
  merge_line, new_block, open_new_block, block_line, opened, guard_line, new_guard, argument,
  add_alternative, otherwise_line, otherwise_by,
}
use linkly.Parser.Contents.{
  contents, step_lines, Holds, OpenTop, SlotTop, WaitTop, OneWaits, IsShared, length-add_step,
  lines_in-add_step, lines_in-new_block,
}
use linkly.Parser.Placed.{Placed, attach_by-Placed}

abbrev pub is_armed : Option Guard → Bool
is_armed none = false
is_armed (some g) = true

-- What a line does to a body: the steps that it adds, and whether a guard waits behind it.
pub record Adds (s t : Body) (new : List Line) (armed : Bool) : Type 0 where
  pub shared : IsShared t
  pub lines : step_lines t ≡ step_lines s ++ new
  pub flag : is_armed t.pending_guard ≡ armed

-- A body in which content was placed.
Placed-IsShared :
    (s t : Body) (c : Content)
    → Placed s t c
    → s.open_block ≡ none
    → Holds (length s.blocks) (c ∷ contents s.items)
    → IsShared t
Placed-IsShared s t c p closed held = record {
  held = rw (p.stored, p.held) held;
  open_top = rw (p.closed, closed) tt;
  slot_top = p.slot;
  wait_top = rw p.answered tt;
  one_waits = rw (p.closed, closed, p.unarmed) tt;
}

OneWaits-open :
    (a : ℕ) (g : Option Guard) (p : Option PendingOtherwise) → OneWaits (some a) g p → g ≡ none
OneWaits-open a none p h = refl
OneWaits-open a (some g) p h = absurd h

-- Closing the open block leaves at most one that waits.
OneWaits-close :
    (o : Option ℕ) (g : Option Guard) (p : Option PendingOtherwise)
    → OneWaits o g p
    → OneWaits none g p
OneWaits-close none g p h = h
OneWaits-close (some a) none none h = tt
OneWaits-close (some a) none (some p) h = absurd h
OneWaits-close (some a) (some g) p h = absurd h

add_step-Adds :
    (s : Body) (l : Line) (a : ℕ) (cs : List Content)
    → IsShared s
    → s.open_block ≡ some a
    → contents s.items ≡ cs
    → OpenTop (some a) cs
    → Adds s (record s { blocks = add_step s.blocks a l }) (l ∷ []) false
add_step-Adds s l a [] h e same top = absurd top
add_step-Adds s l a (step k ∷ cs) h e same top = absurd top
add_step-Adds s l a (block b ∷ cs) h e same top =
    let whole : contents s.items ≡ block a ∷ cs = rw top same in
    record {
      shared = record {
        held = rw length-add_step h.held;
        open_top = h.open_top;
        slot_top = h.slot_top;
        wait_top = h.wait_top;
        one_waits = h.one_waits;
      };
      lines = rw whole (lines_in-add_step s.blocks a l cs (rw whole at h.held));
      flag = rw (OneWaits-open a s.pending_guard s.pending_otherwise (rw e at h.one_waits));
    }

attach_step_at-Adds :
    (o : Option ℕ) (s t : Body) (l : Line)
    → s.open_block ≡ o
    → IsShared s
    → attach_step_at o s l ≡ ok t
    → Adds s t (l ∷ []) false
unfolding attach_outside
attach_step_at-Adds (some a) s t l e h r =
    let same : t ≡ record s { blocks = add_step s.blocks a l } = ground arith in
    rw same (add_step-Adds s l a (contents s.items) h e refl (rw e at h.open_top))
attach_step_at-Adds none s t l e h r =
    let p =
      attach_by-Placed s.pending_otherwise s.pending_guard s t (step l) l refl refl
        (rw e at h.one_waits) h.wait_top h.slot_top r in
    record {
      shared = Placed-IsShared s t (step l) p e h.held;
      lines = rw (p.stored, p.held);
      flag = rw p.unarmed;
    }

pub attach_step-Adds :
    (s t : Body) (l : Line) → IsShared s → attach_step s l ≡ ok t → Adds s t (l ∷ []) false
unfolding attach_step
attach_step-Adds s t l h r = attach_step_at-Adds s.open_block s t l refl h r

-- The body with a new, empty block, not yet attached.
abbrev with_block : Body → Block → Body
with_block s b = record s { blocks = b ∷ s.blocks; open_block = none }

new_block-Adds :
    (s t : Body) (b : Block)
    → IsShared s
    → b.steps ≡ []
    → Placed (with_block s b) t (block (length s.blocks))
    → Adds s (record t { open_block = some (length s.blocks) }) [] false
new_block-Adds s t b h empty p = record {
  shared = record {
    held = rw (p.stored, p.held) (refl, h.held);
    open_top = rw p.held refl;
    slot_top = p.slot;
    wait_top = rw p.answered tt;
    one_waits = rw (p.unarmed, p.answered) tt;
  };
  lines =
      rw (p.stored, p.held, append-nil)
        (lines_in-new_block b s.blocks (contents s.items) h.held empty);
  flag = rw p.unarmed;
}

open_new_block-Adds :
    (kind : BlockKind) (s t : Body) (l : Line)
    → IsShared s
    → open_new_block kind s l ≡ ok t
    → Adds s t [] false
unfolding open_new_block attach_outside
open_new_block-Adds kind s t l h r =
    let start = with_block s (new_block kind l) in
    let (placed, attached, made) =
      chain_returns (attach_outside start (block (length s.blocks)) l) _ r in
    let p =
      attach_by-Placed start.pending_otherwise start.pending_guard start placed
        (block (length s.blocks)) l refl refl
        (OneWaits-close s.open_block s.pending_guard s.pending_otherwise h.one_waits) h.wait_top
        h.slot_top attached in
    let same : t ≡ record placed { open_block = some (length s.blocks) } = ground (arith, made) in
    rw same (new_block-Adds s placed (new_block kind l) h refl p)

pub block_line-Adds :
    (kind : BlockKind) (s t : Body) (l : Line)
    → IsShared s
    → block_line kind s l ≡ ok t
    → Adds s t [] false
unfolding block_line check_pipeline_layout
block_line-Adds kind s t l h r = open_new_block-Adds kind s t l h (ground arith)

-- A body that differs in what waits alone.
waiting-Adds :
    (s : Body) (g : Option Guard) (p : Option PendingOtherwise) (o : Option ℕ) (v : Option Visual)
    (armed : Bool)
    → IsShared s
    → OpenTop o (contents s.items)
    → WaitTop p s.items
    → OneWaits o g p
    → is_armed g ≡ armed
    → Adds s
        (record s { pending_guard = g; pending_otherwise = p; open_block = o; guard_visual = v })
        []
        armed
waiting-Adds s g p o v armed h top wait one flag = record {
  shared = record {
    held = h.held;
    open_top = top;
    slot_top = h.slot_top;
    wait_top = wait;
    one_waits = one;
  };
  lines = sym (append-nil (step_lines s));
  flag = flag;
}

pub merge_line-Adds : (s t : Body) → IsShared s → merge_line s ≡ ok t → Adds s t [] false
unfolding merge_line opened
merge_line-Adds s t h r = elim (Option-cases s.open_block) [
  | inl closed ↦ absurd (ground arith)
  | inr (a, is_open) ↦
      let same : t ≡ record s { open_block = none } = ground arith in
      rw same (
        waiting-Adds s s.pending_guard s.pending_otherwise none s.guard_visual false h tt h.wait_top
          (OneWaits-close s.open_block s.pending_guard s.pending_otherwise h.one_waits)
          (rw (OneWaits-open a s.pending_guard s.pending_otherwise (rw is_open at h.one_waits))))
]

pub guard_line-Adds :
    (mode : GuardMode) (s t : Body) (l : Line)
    → IsShared s
    → guard_line mode s l ≡ ok t
    → Adds s t [] true
unfolding guard_line check_pipeline_layout check_guard_layout
guard_line-Adds mode s t l h r =
    let unanswered : s.pending_otherwise ≡ none = ground arith in
    let same : t ≡ record s {
      pending_guard = some (new_guard mode l);
      pending_otherwise = none;
      open_block = none;
      guard_visual = none;
    } =
      ground arith in
    rw same (waiting-Adds s (some (new_guard mode l)) none none none true h tt tt tt refl)

OneWaits-guard :
    (o : Option ℕ) (g k : Guard) (p : Option PendingOtherwise)
    → OneWaits o (some g) p
    → OneWaits o (some k) p
OneWaits-guard none g k none h = tt
OneWaits-guard none g k (some p) h = absurd h
OneWaits-guard (some a) g k p h = absurd h

pub add_alternative-Adds :
    (g : Guard) (s t : Body) (l : Line)
    → s.pending_guard ≡ some g
    → IsShared s
    → add_alternative g s l ≡ ok t
    → Adds s t [] true
unfolding add_alternative
add_alternative-Adds g s t l e h r =
    let more : Guard = record g { alternatives = g.alternatives ++ argument l.tokens ∷ [] } in
    let same : t ≡ record s { pending_guard = some more } = ground arith in
    rw same (
      waiting-Adds s (some more) s.pending_otherwise s.open_block s.guard_visual true h h.open_top
        h.wait_top (OneWaits-guard s.open_block g more s.pending_otherwise (rw e at h.one_waits))
        refl)

WaitTop-slot :
    (k lineno indent : ℕ) (is : List Item)
    → SlotTop (some k) is
    → slot_filled is k ≡ false
    → WaitTop (some (record { slot = k; lineno = lineno; indent = indent })) is
unfolding slot_filled
WaitTop-slot k lineno indent [] h e = absurd h
WaitTop-slot k lineno indent (plain c ∷ is) h e = absurd h
WaitTop-slot k lineno indent (guarded g c none ∷ is) h e = h
WaitTop-slot k lineno indent (guarded g c (some o) ∷ is) h e = ground arith

otherwise_at-Adds :
    (g : Option Guard) (p : Option PendingOtherwise) (slot : Option ℕ) (s t : Body) (l : Line)
    → s.pending_guard ≡ g
    → s.otherwise_slot ≡ slot
    → IsShared s
    → otherwise_by g p slot s.otherwise_refused
        (record s { open_block = none; guard_visual = none })
        l
      ≡ ok t
    → Adds s t [] false
otherwise_at-Adds (some g) p slot s t l eg es h r = ground arith
otherwise_at-Adds none (some p) slot s t l eg es h r = ground arith
otherwise_at-Adds none none none s t l eg es h r = ground arith
otherwise_at-Adds none none (some k) s t l eg es h r =
    let wait : PendingOtherwise = record { slot = k; lineno = l.lineno; indent = l.indent } in
    let same : t
        ≡ record s { pending_otherwise = some wait; open_block = none; guard_visual = none } =
      ground arith in
    rw same (
      waiting-Adds s s.pending_guard (some wait) none none false h tt
        (WaitTop-slot k l.lineno l.indent s.items (rw es at h.slot_top) (ground arith)) (rw eg tt)
        (rw eg))

pub otherwise_line-Adds :
    (s t : Body) (l : Line) → IsShared s → otherwise_line s l ≡ ok t → Adds s t [] false
unfolding otherwise_line check_pipeline_layout check_guard_layout
otherwise_line-Adds s t l h r =
    otherwise_at-Adds s.pending_guard s.pending_otherwise s.otherwise_slot s t l refl refl h
      (ground arith)
