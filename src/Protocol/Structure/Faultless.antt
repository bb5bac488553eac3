-- ===== src/Protocol/Structure/Faultless.antt =====
-- impl/lnpl/protocol.py: what a document has in which `_structure_fault` finds nothing.
use linkly.Base.{
  ◌≡◌, ◌⊎◌, refl, ap, ◌∙◌, Bool, true, false, ◌||◌, not, Option, none, some, List, [], ◌∷◌,
  if◌then◌else◌, Bool-cases, inl, inr, all, All,
}
use linkly.Base.Result.{Result, ok}
use linkly.Base.Text.{Text, codes, same_text, is_in, same_text→eq}
use linkly.Base.Assoc.{Assoc, lookup}
use linkly.Protocol.Cycle.{ownership_cycle}
use linkly.Protocol.Cycle.Owned.{IsCycle, children_in, ownership_cycle-IsCycle}
use linkly.Protocol.Cycle.Exact.{ownership_cycle-nil_iff}
use linkly.Protocol.Structure.{
  DocNode, node_references, entry_kinds, allowed_under, Fault, cycle, NoReturn, has_repeat, is_key,
  kind_allowed, counts_fit, is_when, nodes_of, ids_of, owned, child_lists, resolves, has_owner,
  children_fit, count_fits, late_fault, by_cycle, structure_fault, id_unique, dangling, ownership,
  orphan, v5_children, guard_cardinality,
}

-- No name stands in the list twice.
abbrev pub Distinct : List Text → Type 0
Distinct [] = Unit
Distinct (s ∷ l) = (is_in s l ≡ false) × Distinct l

has_repeat-Distinct : (l : List Text) → has_repeat l ≡ false → Distinct l
unfolding has_repeat
has_repeat-Distinct [] h = tt
has_repeat-Distinct (s ∷ l) h = elim (Bool-cases (is_in s l)) [
  | inl twice ↦ absurd (cc (rw twice at h))
  | inr once ↦ (once, has_repeat-Distinct l (rw once at h))
]

all-All :
    {A : Type 0} (p : A → Bool) {P : A → Type 0} (l : List A)
    → ((x : A) → p x ≡ true → P x)
    → all p l ≡ true
    → All P l
all-All p [] f h = tt
all-All p (x ∷ l) f h = elim (Bool-cases (p x)) [
  | inl holds ↦ (f x holds, all-All p l f (rw holds at h))
  | inr fails ↦ absurd (cc (rw fails at h))
]

module _ (merged : Assoc DocNode) where
  abbrev pub Resolves : DocNode → Type 0
  Resolves n = All (λ ref. is_key (lookup ref merged) ≡ true) (node_references n)

  abbrev pub HasOwner : DocNode → Type 0
  HasOwner n = (is_in n.kind entry_kinds ≡ true) ⊎ (is_in n.id (owned (nodes_of merged)) ≡ true)

  -- A child of a kind that is not empty has one that its parent allows.
  abbrev pub KindFits : Text → Text → Type 0
  KindFits parent child =
      (c : DocNode)
      → lookup child merged ≡ some c
      → (c.kind ≡ []) ⊎ (is_in c.kind (allowed_under parent) ≡ true)

  abbrev pub ChildrenFit : DocNode → Type 0
  ChildrenFit n = All (KindFits n.kind) n.children

  abbrev pub CountFits : DocNode → Type 0
  CountFits n =
      same_text n.kind (codes "Guard") ≡ true → counts_fit (is_when n.mode) n.children ≡ true

  -- The structure rules of a document.
  pub record IsStructured : Type 0 where
    pub ids_once : Distinct (ids_of (nodes_of merged))
    pub resolved : All Resolves (nodes_of merged)
    pub one_owner : Distinct (owned (nodes_of merged))
    pub owners : All HasOwner (nodes_of merged)
    pub acyclic : (cycle : List Text) → IsCycle (children_in (child_lists merged)) cycle → ⊥
    pub children : All ChildrenFit (nodes_of merged)
    pub counts : All CountFits (nodes_of merged)

check_passed :
    (b : Bool) (f : Fault) (rest : Result NoReturn (Option Fault))
    → (if b then ok (some f) else rest) ≡ ok none
    → (b ≡ false) × (rest ≡ ok none)
check_passed true f rest h = absurd (cc h)
check_passed false f rest h = (refl, h)

check_returns :
    (b : Bool) (f : Fault) (rest : Result NoReturn (Option Fault))
    → (o : Option Fault) × (rest ≡ ok o)
    → (o : Option Fault) × ((if b then ok (some f) else rest) ≡ ok o)
check_returns true f rest h = (some f, refl)
check_returns false f rest h = h

not-false : (b : Bool) → not b ≡ false → b ≡ true
not-false true h = refl
not-false false h = absurd (cc h)

or-cases : (b c : Bool) → (b || c) ≡ true → (b ≡ true) ⊎ (c ≡ true)
or-cases true c h = inl refl
or-cases false c h = inr h

fits-KindFits :
    (merged : Assoc DocNode) (parent child : Text)
    → kind_allowed parent (lookup child merged) ≡ true
    → KindFits merged parent child
fits-KindFits merged parent child h c found = elim (or-cases _ _ (rw found at h)) [
  | inl empty ↦ inl (same_text→eq c.kind [] empty)
  | inr allowed ↦ inr allowed
]

count-CountFits :
    (merged : Assoc DocNode) (n : DocNode) → count_fits merged n ≡ true → CountFits merged n
count-CountFits merged n h guards = rw guards at h

by_cycle-returns :
    (merged : Assoc DocNode) (found : Option (List Text)) (ids : List Text)
    → found ≡ some ids
    → (o : Option Fault) × (by_cycle merged found ≡ ok o)
by_cycle-returns merged found [] e = rw e (late_fault merged, refl)
by_cycle-returns merged found (id ∷ ids) e = rw e (some (cycle (id ∷ ids)), refl)

by_cycle-none :
    (merged : Assoc DocNode) (found : Option (List Text))
    → by_cycle merged found ≡ ok none
    → (found ≡ some []) × (late_fault merged ≡ none)
by_cycle-none merged none h = absurd (cc h)
by_cycle-none merged (some (id ∷ ids)) h = absurd (cc h)
by_cycle-none merged (some []) h = (refl, cc h)

late-none :
    (merged : Assoc DocNode)
    → late_fault merged ≡ none
    → (all (children_fit merged) (nodes_of merged) ≡ true)
      × (all (count_fits merged) (nodes_of merged) ≡ true)
late-none merged h = by_tests _ _ h
  where
    by_tests :
        (b c : Bool)
        → (if not b then some v5_children else if not c then some guard_cardinality else none)
          ≡ none
        → (b ≡ true) × (c ≡ true)
    by_tests true true e = (refl, refl)
    by_tests true false e = absurd (cc e)
    by_tests false c e = absurd (cc e)

structure_fault-returns :
    (merged : Assoc DocNode) → (o : Option Fault) × (structure_fault merged ≡ ok o)
unfolding structure_fault
structure_fault-returns merged =
    let (ids, returned, which) = ownership_cycle-IsCycle (child_lists merged) in
    let nodes = nodes_of merged in
    check_returns (has_repeat (ids_of nodes)) id_unique _ (
      check_returns (not (all (resolves merged) nodes)) dangling _ (
        check_returns (has_repeat (owned nodes)) ownership _ (
          check_returns (not (all (has_owner merged) nodes)) orphan _
            (by_cycle-returns merged (ownership_cycle (child_lists merged)) ids returned))))

none-IsStructured :
    (merged : Assoc DocNode) → structure_fault merged ≡ ok none → IsStructured merged
unfolding structure_fault
none-IsStructured merged h =
    let nodes = nodes_of merged in
    let (once, h1) = check_passed _ _ _ h in
    let (refs, h2) = check_passed _ _ _ h1 in
    let (one, h3) = check_passed _ _ _ h2 in
    let (owns, h4) = check_passed _ _ _ h3 in
    let (no_cycle, late) = by_cycle-none merged (ownership_cycle (child_lists merged)) h4 in
    let (kinds, counts) = late-none merged late in
    record {
      ids_once = has_repeat-Distinct (ids_of nodes) once;
      resolved =
          all-All (resolves merged) nodes
            (λ n.
              all-All (λ ref. is_key (lookup ref merged)) (node_references n) (λ ref holds. holds))
            (not-false _ refs);
      one_owner = has_repeat-Distinct (owned nodes) one;
      owners = all-All (has_owner merged) nodes (λ n. or-cases _ _) (not-false _ owns);
      acyclic = (ownership_cycle-nil_iff (child_lists merged)).0 no_cycle;
      children =
          all-All (children_fit merged) nodes
            (λ n. all-All _ n.children (fits-KindFits merged n.kind)) kinds;
      counts = all-All (count_fits merged) nodes (count-CountFits merged) counts;
    }

-- _structure_fault returns, and where it finds no fault the document has the structure: every id once,
-- references that resolve, at most one owner of each node, no unowned node but those of an entry kind, no
-- cycle of owners, children of the kinds that their parents allow, and guards with as many children as
-- their modes allow.
pub structure_fault-IsStructured :
    (merged : Assoc DocNode)
    → (fault : Option Fault) × (structure_fault merged ≡ ok fault)
      × (fault ≡ none → IsStructured merged)
structure_fault-IsStructured merged =
    let (fault, returned) = structure_fault-returns merged in
    (fault, returned, λ e. none-IsStructured merged (returned ∙ ap ok e))
