-- ===== src/Parser/Placed.antt =====
-- impl/lnpl/parser.py: what `_attach` places outside a block is the last of the contents.
use linkly.Base.{ℕ, ◌≡◌, refl, ap, Option, none, some, List, [], ◌∷◌, length, arith}
use linkly.Base.Result.{ok}
use linkly.Lexer.Lines.{Line}
use linkly.Parser.State.{
  GuardMode, when, until, repeat, Guard, Content, Item, plain, guarded, PendingOtherwise, Body,
  set_otherwise, fill_item,
}
use linkly.Parser.Body.{
  check_pipeline_layout, check_guard_layout, attach_guarded, attach_plain, attach_otherwise,
  attach_by,
}
use linkly.Parser.Contents.{contents, SlotTop, WaitTop, OneWaits}

-- A line that places content `c`: the body that comes out holds it last, and nothing waits.
pub record Placed (s t : Body) (c : Content) : Type 0 where
  pub held : contents t.items ≡ c ∷ contents s.items
  pub stored : t.blocks ≡ s.blocks
  pub unarmed : t.pending_guard ≡ none
  pub answered : t.pending_otherwise ≡ none
  pub closed : t.open_block ≡ s.open_block
  pub slot : SlotTop t.otherwise_slot t.items

set_otherwise-newest :
    (i : Item) (is : List Item) (k : ℕ) (c : Content) (lineno : ℕ)
    → length is ≡ k
    → set_otherwise (i ∷ is) k c lineno ≡ fill_item i c lineno ∷ is
unfolding set_otherwise
set_otherwise-newest i is k c lineno e = ground arith

contents-set_otherwise :
    (p : PendingOtherwise) (is : List Item) (c : Content)
    → WaitTop (some p) is
    → contents (set_otherwise is p.slot c p.lineno) ≡ c ∷ contents is
contents-set_otherwise p [] c w = absurd w
contents-set_otherwise p (plain d ∷ is) c w = absurd w
contents-set_otherwise p (guarded g d (some o) ∷ is) c w = absurd w
contents-set_otherwise p (guarded g d none ∷ is) c w =
    ap contents (set_otherwise-newest (guarded g d none) is p.slot c p.lineno w)

SlotTop-set_otherwise :
    (p : PendingOtherwise) (is : List Item) (c : Content) (slot : Option ℕ)
    → WaitTop (some p) is
    → SlotTop slot is
    → SlotTop slot (set_otherwise is p.slot c p.lineno)
SlotTop-set_otherwise p [] c slot w h = absurd w
SlotTop-set_otherwise p (plain d ∷ is) c slot w h = absurd w
SlotTop-set_otherwise p (guarded g d (some o) ∷ is) c slot w h = absurd w
SlotTop-set_otherwise p (guarded g d none ∷ is) c none w h = tt
SlotTop-set_otherwise p (guarded g d none ∷ is) c (some k) w h =
    rw (set_otherwise-newest (guarded g d none) is p.slot c p.lineno w) h

pub check_guard_layout-eq :
    (s t : Body) (l : Line) → check_guard_layout s l ≡ ok t → t ≡ record s { guard_visual = none }
unfolding check_guard_layout
check_guard_layout-eq s t l e = ground arith

pub check_pipeline_layout-eq : (s t : Body) (l : Line) → check_pipeline_layout s l ≡ ok t → t ≡ s
unfolding check_pipeline_layout
check_pipeline_layout-eq s t l e = ground arith

attach_plain-Placed :
    (s t : Body) (c : Content) (l : Line)
    → s.pending_guard ≡ none
    → s.pending_otherwise ≡ none
    → attach_plain s c l ≡ ok t
    → Placed s t c
unfolding attach_plain check_guard_layout
attach_plain-Placed s t c l unarmed answered e = record {
  held = ground arith;
  stored = ground arith;
  unarmed = ground arith;
  answered = ground arith;
  closed = ground arith;
  slot = let emptied : t.otherwise_slot ≡ none = ground arith in rw emptied tt;
}

attach_guarded-Placed :
    (s : Body) (g : Guard) (c : Content) (l : Line)
    → s.pending_otherwise ≡ none
    → Placed s (attach_guarded s g c l) c
unfolding attach_guarded
attach_guarded-Placed s g c l answered = record {
  held = refl;
  stored = refl;
  unarmed = refl;
  answered = answered;
  closed = refl;
  slot = SlotTop-when g.mode;
}
  where
    SlotTop-when :
        (mode : GuardMode)
        → SlotTop
            (elim mode [ when ↦ some (length s.items) | until ↦ none | repeat ↦ none ])
            (guarded g c none ∷ s.items)
    SlotTop-when when = refl
    SlotTop-when until = tt
    SlotTop-when repeat = tt

attach_otherwise-Placed :
    (s : Body) (p : PendingOtherwise) (c : Content) (l : Line)
    → s.pending_guard ≡ none
    → WaitTop (some p) s.items
    → SlotTop s.otherwise_slot s.items
    → Placed s (attach_otherwise s p c l) c
unfolding attach_otherwise
attach_otherwise-Placed s p c l unarmed waits slot = record {
  held = contents-set_otherwise p s.items c waits;
  stored = refl;
  unarmed = unarmed;
  answered = refl;
  closed = refl;
  slot = SlotTop-set_otherwise p s.items c s.otherwise_slot waits slot;
}

-- Outside a block, whatever is attached is the last of the contents.
pub attach_by-Placed :
    (p : Option PendingOtherwise) (g : Option Guard) (s t : Body) (c : Content) (l : Line)
    → s.pending_otherwise ≡ p
    → s.pending_guard ≡ g
    → OneWaits none g p
    → WaitTop p s.items
    → SlotTop s.otherwise_slot s.items
    → attach_by p g s c l ≡ ok t
    → Placed s t c
attach_by-Placed (some p) (some g) s t c l ep eg one waits slot e = absurd one
attach_by-Placed (some p) none s t c l ep eg one waits slot e =
    let same : t ≡ attach_otherwise s p c l = ground arith in
    rw same (attach_otherwise-Placed s p c l eg waits slot)
attach_by-Placed none (some g) s t c l ep eg one waits slot e =
    let same : t ≡ attach_guarded s g c l = ground arith in
    rw same (attach_guarded-Placed s g c l ep)
attach_by-Placed none none s t c l ep eg one waits slot e = attach_plain-Placed s t c l eg ep e
