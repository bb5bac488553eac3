-- ===== src/Parser/Contents.antt =====
-- impl/lnpl/parser.py: the contents of a body in the order of the source, and the invariant of its
-- shared objects: every block is held by one item, and what is open or waits is the newest.
use linkly.Base.{
  ℕ, suc, ◌≤◌, ◌≡◌, refl, sym, ap, ◌∙◌, Option, none, some, List, [], ◌∷◌, ◌++◌, length, arith,
  append_assoc, append-nil,
}
use linkly.Lexer.Lines.{Line}
use linkly.Parser.State.{
  Block, Guard, Content, step, block, Item, plain, guarded, PendingOtherwise, Body, block_at,
  add_step,
}

abbrev pub item_contents : Item → List Content
item_contents (plain c) = c ∷ []
item_contents (guarded g c none) = c ∷ []
item_contents (guarded g c (some (o, lineno))) = o ∷ c ∷ []

-- What the items hold, the newest first.
abbrev pub contents : List Item → List Content
contents [] = []
contents (i ∷ is) = item_contents i ++ contents is

abbrev pub block_lines : Option Block → List Line
block_lines none = []
block_lines (some b) = b.steps

abbrev pub content_lines : List Block → Content → List Line
content_lines bs (step l) = l ∷ []
content_lines bs (block a) = block_lines (block_at bs a)

-- The step lines that contents hold, in the order of the source.
abbrev pub lines_in : List Block → List Content → List Line
lines_in bs [] = []
lines_in bs (c ∷ cs) = lines_in bs cs ++ content_lines bs c

abbrev pub step_lines : Body → List Line
step_lines s = lines_in s.blocks (contents s.items)

-- The contents hold the blocks below `n`, each once, in the order of their places.
abbrev pub Holds : ℕ → List Content → Type 0
Holds n [] = n ≡ 0
Holds n (step l ∷ cs) = Holds n cs
Holds n (block a ∷ cs) = (n ≡ suc a) × Holds a cs

abbrev pub OpenTop : Option ℕ → List Content → Type 0
OpenTop none cs = Unit {0}
OpenTop (some a) [] = ⊥
OpenTop (some a) (step l ∷ cs) = ⊥
OpenTop (some a) (block b ∷ cs) = a ≡ b

abbrev pub SlotTop : Option ℕ → List Item → Type 0
SlotTop none is = Unit {0}
SlotTop (some k) [] = ⊥
SlotTop (some k) (plain c ∷ is) = ⊥
SlotTop (some k) (guarded g c o ∷ is) = length is ≡ k

abbrev pub WaitTop : Option PendingOtherwise → List Item → Type 0
WaitTop none is = Unit {0}
WaitTop (some p) [] = ⊥
WaitTop (some p) (plain c ∷ is) = ⊥
WaitTop (some p) (guarded g c (some o) ∷ is) = ⊥
WaitTop (some p) (guarded g c none ∷ is) = length is ≡ p.slot

-- At most one of an open block, a waiting guard and a waiting `otherwise`.
abbrev pub OneWaits : Option ℕ → Option Guard → Option PendingOtherwise → Type 0
OneWaits none none p = Unit {0}
OneWaits none (some g) none = Unit {0}
OneWaits (some a) none none = Unit {0}
OneWaits none (some g) (some p) = ⊥
OneWaits (some a) (some g) p = ⊥
OneWaits (some a) none (some p) = ⊥

pub record IsSharedAt (bs : List Block) (is : List Item) (open_block : Option ℕ) (g : Option Guard)
    (p : Option PendingOtherwise) (slot : Option ℕ) : Type 0 where
  pub held : Holds (length bs) (contents is)
  pub open_top : OpenTop open_block (contents is)
  pub slot_top : SlotTop slot is
  pub wait_top : WaitTop p is
  pub one_waits : OneWaits open_block g p

abbrev pub IsShared : Body → Type 0
IsShared s =
    IsSharedAt s.blocks s.items s.open_block s.pending_guard s.pending_otherwise s.otherwise_slot

-- A new block changes nothing of what is held already.
pub lines_in-new :
    (n : ℕ) (b : Block) (bs : List Block) (cs : List Content)
    → Holds n cs
    → n ≤ length bs
    → lines_in (b ∷ bs) cs ≡ lines_in bs cs
unfolding block_at
lines_in-new n b bs [] h le = refl
lines_in-new n b bs (step l ∷ cs) h le = rw (lines_in-new n b bs cs h le)
lines_in-new n b bs (block a ∷ cs) h le = rw (lines_in-new a b bs cs h.1 (omega arith), elsewhere)
  where
    elsewhere : block_at (b ∷ bs) a ≡ block_at bs a
    elsewhere = ground arith

pub length-add_step : (bs : List Block) (a : ℕ) (l : Line) → length (add_step bs a l) ≡ length bs
unfolding add_step
length-add_step [] a l = refl
length-add_step (b ∷ bs) a l = ground (arith, length-add_step bs a l)

block_at-newest :
    (b : Block) (bs : List Block) (a : ℕ) → length bs ≡ a → block_at (b ∷ bs) a ≡ some b
unfolding block_at
block_at-newest b bs a e = ground arith

add_step-newest :
    (b : Block) (bs : List Block) (a : ℕ) (l : Line)
    → length bs ≡ a
    → add_step (b ∷ bs) a l ≡ record b { steps = b.steps ++ l ∷ [] } ∷ bs
unfolding add_step
add_step-newest b bs a l e = ground arith

-- A step that the newest block takes is the last line.
pub lines_in-add_step :
    (bs : List Block) (a : ℕ) (l : Line) (cs : List Content)
    → Holds (length bs) (block a ∷ cs)
    → lines_in (add_step bs a l) (block a ∷ cs) ≡ lines_in bs (block a ∷ cs) ++ l ∷ []
lines_in-add_step [] a l cs h = absurd (omega arith)
lines_in-add_step (b ∷ bs) a l cs h =
    let newest : length bs ≡ a = omega arith in
    let below : Holds (length bs) cs = rw newest h.1 in
    ap (λ (stored : List Block). lines_in stored (block a ∷ cs)) (add_step-newest b bs a l newest)
    ∙ rw
        (
          block_at-newest b bs a newest,
          block_at-newest (record b { steps = b.steps ++ l ∷ [] }) bs a newest,
          lines_in-new (length bs) b bs cs below (omega arith),
          lines_in-new (length bs) (record b { steps = b.steps ++ l ∷ [] }) bs cs below
              (omega arith),
        )
        (sym (append_assoc (lines_in bs cs) b.steps (l ∷ [])))

-- The new block is empty.
pub lines_in-new_block :
    (b : Block) (bs : List Block) (cs : List Content)
    → Holds (length bs) cs
    → b.steps ≡ []
    → lines_in (b ∷ bs) (block (length bs) ∷ cs) ≡ lines_in bs cs
lines_in-new_block b bs cs h e =
    rw (block_at-newest b bs (length bs) refl, e, append-nil)
      (lines_in-new (length bs) b bs cs h (omega arith))
