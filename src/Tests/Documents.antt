-- ===== src/Tests/Documents.antt =====
-- A service with a workflow whose guard has two children, and the same guard in another mode.
use linkly.Base.{◌≡◌, Option, none, some, List, [], ◌∷◌, refl}
use linkly.Base.Result.{ok}
use linkly.Base.Text.{Text, codes, same_text, is_in}
use linkly.Base.Assoc.{Assoc, lookup}
use linkly.Base.Json.{null, str, seq, item, no_items}
use linkly.Protocol.Cycle.{ownership_cycle}
use linkly.Protocol.Structure.{DocNode, Fault, guard_cardinality, structure_fault}
use linkly.Protocol.Structure.Faultless.{IsStructured, structure_fault-IsStructured}

abbrev plain_node : Text → Text → List Text → DocNode
plain_node id kind children = record {
  id = id;
  kind = kind;
  children = children;
  requires = null;
  constraints = null;
  entity = null;
  event = null;
  source = null;
  mode = null;
}

abbrev with_guard : Text → Assoc DocNode
with_guard mode =
    (
      codes "s",
      record (plain_node (codes "s") (codes "Service") (codes "w" ∷ [])) {
        constraints = seq (item (str (codes "p")) no_items);
      },
    )
    ∷ (codes "p", plain_node (codes "p") (codes "Policy") [])
    ∷ (codes "w", plain_node (codes "w") (codes "Workflow") (codes "g" ∷ []))
    ∷ (
      codes "g",
      record (plain_node (codes "g") (codes "Guard") (codes "a" ∷ codes "b" ∷ [])) {
        mode = str mode;
      },
    )
    ∷ (codes "a", plain_node (codes "a") (codes "WorkflowStep") [])
    ∷ (codes "b", plain_node (codes "b") (codes "WorkflowStep") [])
    ∷ []

when_fits : structure_fault (with_guard (codes "when")) ≡ ok none
unfolding structure_fault ownership_cycle lookup same_text is_in
when_fits = refl

until_is_refused : structure_fault (with_guard (codes "until")) ≡ ok (some guard_cardinality)
unfolding structure_fault ownership_cycle lookup same_text is_in
until_is_refused = refl

structure_fault-IsStructured_example :
    (fault : Option Fault) × (structure_fault (with_guard (codes "when")) ≡ ok fault)
    × (fault ≡ none → IsStructured (with_guard (codes "when")))
structure_fault-IsStructured_example = structure_fault-IsStructured (with_guard (codes "when"))
