-- ===== src/Protocol/Structure.antt =====
-- impl/lnpl/protocol.py: `node_references` and `_structure_fault`, on the fields of a node that they read.
pub mod Faultless
use linkly.Base.{
  ◌≡◌, Bool, true, false, ◌&&◌, ◌||◌, not, Option, none, some, List, [], ◌∷◌, ◌++◌, if◌then◌else◌,
  all,
}
use linkly.Base.Result.{Result, ok, err}
use linkly.Base.Text.{Text, codes, same_text, is_in}
use linkly.Base.Assoc.{Assoc, lookup}
use linkly.Base.Json.{Json, str, seq, dict, Items, no_items, item, get}
use linkly.Protocol.Cycle.{ownership_cycle}

pub record DocNode : Type 0 where
  pub id : Text
  pub kind : Text
  pub children : List Text
  pub requires : Json
  pub constraints : Json
  pub entity : Json
  pub event : Json
  pub source : Json
  pub mode : Json

-- `isinstance(v, str)`
abbrev pub texts_of : Json → List Text
texts_of (str s) = s ∷ []
texts_of _ = []

unfoldable pub item_texts : Items → List Text
item_texts no_items = []
item_texts (item v items) = texts_of v ++ item_texts items

abbrev pub named_refs : Json → List Text
named_refs (seq items) = item_texts items
named_refs v = texts_of v

abbrev pub source_refs : Json → List Text
source_refs (dict d) = texts_of (get (codes "ref") d)
source_refs _ = []

-- `node_references`
unfoldable pub node_references : DocNode → List Text
unfolding item_texts
node_references n =
    n.children
    ++ named_refs n.requires
    ++ named_refs n.constraints
    ++ named_refs n.entity
    ++ named_refs n.event
    ++ source_refs n.source

-- ENTRY_KINDS
abbrev pub entry_kinds : List Text
entry_kinds =
    codes "Entity"
    ∷ codes "Service"
    ∷ codes "Workflow"
    ∷ codes "Event"
    ∷ codes "Capability"
    ∷ codes "Policy"
    ∷ codes "Security"
    ∷ codes "Performance"
    ∷ []

-- CHILDREN_ALLOWED, without the kinds that allow none
abbrev pub children_allowed : Assoc (List Text)
children_allowed =
    (codes "Entity", codes "Validation" ∷ [])
    ∷ (codes "Service", codes "Workflow" ∷ codes "Pipeline" ∷ codes "BusinessRule" ∷ [])
    ∷ (
      codes "Workflow",
      codes "WorkflowStep" ∷ codes "Guard" ∷ codes "Concurrency" ∷ codes "Pipeline" ∷ [],
    )
    ∷ (
      codes "WorkflowStep",
      codes "Validation"
          ∷ codes "BusinessRule"
          ∷ codes "NetworkCall"
          ∷ codes "RepositoryCall"
          ∷ codes "CacheAccess"
          ∷ codes "Transaction"
          ∷ codes "Authorization"
          ∷ codes "EventEmit"
          ∷ codes "Concurrency"
          ∷ codes "Pipeline"
          ∷ [],
    )
    ∷ (codes "Guard", codes "WorkflowStep" ∷ codes "Concurrency" ∷ codes "Pipeline" ∷ [])
    ∷ (codes "Pipeline", codes "WorkflowStep" ∷ [])
    ∷ (codes "Concurrency", codes "WorkflowStep" ∷ [])
    ∷ (
      codes "Transaction",
      codes "RepositoryCall"
          ∷ codes "NetworkCall"
          ∷ codes "CacheAccess"
          ∷ codes "EventEmit"
          ∷ codes "BusinessRule"
          ∷ codes "Validation"
          ∷ [],
    )
    ∷ []

abbrev pub or_no_kinds : Option (List Text) → List Text
or_no_kinds none = []
or_no_kinds (some kinds) = kinds

-- `CHILDREN_ALLOWED.get(kind, set())`
unfoldable pub allowed_under : Text → List Text
unfolding lookup
allowed_under kind = or_no_kinds (lookup kind children_allowed)

-- The faults, without their messages; a document where `_ownership_cycle` does not return has none.
pub data Fault : Type 0 where
  id_unique dangling ownership orphan v5_children guard_cardinality : Fault
  cycle : List Text → Fault

pub data NoReturn : Type 0 where
  no_return : NoReturn

-- A name that stands in the list twice
unfoldable pub has_repeat : List Text → Bool
unfolding is_in
has_repeat [] = false
has_repeat (s ∷ l) = is_in s l || has_repeat l

abbrev pub is_key : Option DocNode → Bool
is_key none = false
is_key (some n) = true

abbrev pub kind_allowed : Text → Option DocNode → Bool
kind_allowed parent none = true
kind_allowed parent (some child) =
    same_text child.kind [] || is_in child.kind (allowed_under parent)

-- `children_count in allowed`, for a Guard
abbrev pub counts_fit : Bool → List Text → Bool
counts_fit two [] = false
counts_fit two (one ∷ []) = true
counts_fit two (one ∷ other ∷ []) = two
counts_fit two (one ∷ other ∷ more) = false

abbrev pub is_when : Json → Bool
is_when (str s) = same_text s (codes "when")
is_when _ = false

abbrev pub nodes_of : Assoc DocNode → List DocNode
nodes_of [] = []
nodes_of ((key, n) ∷ merged) = n ∷ nodes_of merged

abbrev pub ids_of : List DocNode → List Text
ids_of [] = []
ids_of (n ∷ nodes) = n.id ∷ ids_of nodes

-- The nodes that `children` lists name, with every mention
unfoldable pub owned : List DocNode → List Text
owned [] = []
owned (n ∷ nodes) = n.children ++ owned nodes

unfoldable pub child_lists : Assoc DocNode → Assoc (List Text)
child_lists [] = []
child_lists ((key, n) ∷ merged) = (key, n.children) ∷ child_lists merged

module _ (merged : Assoc DocNode) where
  abbrev pub resolves : DocNode → Bool
  resolves n = all (λ ref. is_key (lookup ref merged)) (node_references n)

  abbrev pub has_owner : DocNode → Bool
  has_owner n = is_in n.kind entry_kinds || is_in n.id (owned (nodes_of merged))

  abbrev pub children_fit : DocNode → Bool
  children_fit n = all (λ child. kind_allowed n.kind (lookup child merged)) n.children

  abbrev pub count_fits : DocNode → Bool
  count_fits n = not (same_text n.kind (codes "Guard")) || counts_fit (is_when n.mode) n.children

  -- The checks behind the cycle
  abbrev pub late_fault : Option Fault
  late_fault =
      if not (all children_fit (nodes_of merged))
      then some v5_children
      else if not (all count_fits (nodes_of merged))
      then some guard_cardinality
      else none

  abbrev pub by_cycle : Option (List Text) → Result NoReturn (Option Fault)
  by_cycle none = err no_return
  by_cycle (some []) = ok late_fault
  by_cycle (some (id ∷ ids)) = ok (some (cycle (id ∷ ids)))

-- `_structure_fault`
unfoldable pub structure_fault : Assoc DocNode → Result NoReturn (Option Fault)
unfolding has_repeat node_references owned child_lists allowed_under
structure_fault merged =
    let nodes = nodes_of merged in
    if has_repeat (ids_of nodes)
    then ok (some id_unique)
    else if not (all (resolves merged) nodes)
    then ok (some dangling)
    else if has_repeat (owned nodes)
    then ok (some ownership)
    else if not (all (has_owner merged) nodes)
    then ok (some orphan)
    else by_cycle merged (ownership_cycle (child_lists merged))
