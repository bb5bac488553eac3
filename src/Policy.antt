-- ===== src/Policy.antt =====
-- impl/lnpl/repo_policy.py: what a workflow calls of the repository, and the rows that the default seed
-- puts there. A node stands with its children in place of their ids, or is missing.
pub mod Seeded
pub mod Query
use linkly.Base.{
  ℕ, ◌≡◌, Bool, true, false, ◌&&◌, ◌||◌, Option, none, some, List, [], ◌∷◌, ◌++◌, ◌==◌,
  if◌then◌else◌,
}
use linkly.Base.Text.{Text, codes, same_text}
use linkly.Base.Assoc.{Assoc, lookup, set_default}
use linkly.Base.Json.{Json, Fields, no_fields, field, get, is_null}
use linkly.Runtime.Repository.{Operation}
use linkly.Eval.Scope.{partition_dot, payload_namespace, row_key}

-- A RepositoryCall, and the kinds of the nodes in a step.
pub record Call : Type 0 where
  pub entity : Text
  pub operation : Operation
  pub lookup_ref : Option Text

pub data Effect : Type 0 where
  repository_call : Call → Effect
  event_emit : Text → Effect
  other_effect : Effect
  missing_effect : Effect

-- A WorkflowStep, or a node that holds others.
mutual
  pub data Node : Type 0 where
    step : List Effect → Node
    container : Nodes → Node
    missing_node : Node

  pub data Nodes : Type 0 where
    no_nodes : Nodes
    node : Node → Nodes → Nodes

abbrev pub call_of : Effect → List (Text × Operation)
call_of (repository_call c) = (c.entity, c.operation) ∷ []
call_of _ = []

unfoldable pub step_calls : List Effect → List (Text × Operation)
step_calls [] = []
step_calls (e ∷ es) = call_of e ++ step_calls es

-- `walk` of `repository_calls`
unfoldable mutual
  unfolding step_calls

  pub node_calls : Node → List (Text × Operation)
  node_calls (step effects) = step_calls effects
  node_calls (container nodes) = nodes_calls nodes
  node_calls missing_node = []

  pub nodes_calls : Nodes → List (Text × Operation)
  nodes_calls no_nodes = []
  nodes_calls (node n ns) = node_calls n ++ nodes_calls ns

-- The children of the workflow node, where the id names a Workflow.
abbrev pub calls_of : Option Nodes → List (Text × Operation)
calls_of none = []
calls_of (some body) = nodes_calls body

-- `repository_calls`
unfoldable pub repository_calls : Option Nodes → List (Text × Operation)
unfolding nodes_calls
repository_calls workflow = calls_of workflow

abbrev pub is_read : Operation → Bool
is_read Operation.read = true
is_read _ = false

abbrev pub is_create : Operation → Bool
is_create Operation.create = true
is_create _ = false

-- `child["entity"] == entity_id and child["operation"] == "read"`
abbrev pub reads_of : Text → Effect → Option Call
reads_of entity (repository_call c) =
    if same_text c.entity entity && is_read c.operation then some c else none
reads_of entity _ = none

abbrev pub or_else : Option Call → Option Call → Option Call
or_else none later = later
or_else (some c) later = some c

unfoldable pub step_first_read : Text → List Effect → Option Call
step_first_read entity [] = none
step_first_read entity (e ∷ es) = or_else (reads_of entity e) (step_first_read entity es)

-- `first_read` of `lookup_key_source`
unfoldable mutual
  unfolding step_first_read

  pub node_first_read : Text → Node → Option Call
  node_first_read entity (step effects) = step_first_read entity effects
  node_first_read entity (container nodes) = first_read entity nodes
  node_first_read entity missing_node = none

  pub first_read : Text → Nodes → Option Call
  first_read entity no_nodes = none
  first_read entity (node n ns) = or_else (node_first_read entity n) (first_read entity ns)

abbrev pub lookup_of : Option Call → Option Text
lookup_of none = none
lookup_of (some c) = c.lookup_ref

abbrev pub source_in : Option Nodes → Text → Option Text
source_in none entity = none
source_in (some body) entity = lookup_of (first_read entity body)

-- `lookup_key_source`
unfoldable pub lookup_key_source : Option Nodes → Text → Option Text
unfolding first_read
lookup_key_source workflow entity = source_in workflow entity

abbrev pub event_of : Effect → List Text
event_of (event_emit event) = event ∷ []
event_of _ = []

unfoldable pub step_events : List Effect → List Text
step_events [] = []
step_events (e ∷ es) = event_of e ++ step_events es

-- `walk` of `event_emissions`
unfoldable mutual
  unfolding step_events

  pub node_events : Node → List Text
  node_events (step effects) = step_events effects
  node_events (container nodes) = nodes_events nodes
  node_events missing_node = []

  pub nodes_events : Nodes → List Text
  nodes_events no_nodes = []
  nodes_events (node n ns) = node_events n ++ nodes_events ns

abbrev pub events_of : Option Nodes → List Text
events_of none = []
events_of (some body) = nodes_events body

-- `event_emissions`
unfoldable pub event_emissions : Option Nodes → List Text
unfolding nodes_events
event_emissions workflow = events_of workflow

-- The loop of `seeded_entities`: the first `read` or `create` of each entity
unfoldable pub first_ops : List (Text × Operation) → Assoc Operation → Assoc Operation
first_ops [] first = first
first_ops ((entity, op) ∷ calls) first =
    if is_read op || is_create op
    then first_ops calls (set_default entity op first)
    else first_ops calls first

-- The comprehension at the end of `seeded_entities`
unfoldable pub read_first : Assoc Operation → List Text
read_first [] = []
read_first ((entity, op) ∷ first) =
    let rest = read_first first in if is_read op then entity ∷ rest else rest

-- `seeded_entities`
unfoldable pub seeded_entities : Option Nodes → List Text
unfolding repository_calls
seeded_entities workflow = read_first (first_ops (repository_calls workflow) [])

-- `source.startswith(prefix)`
unfoldable pub starts_with : Text → Text → Bool
starts_with [] s = true
starts_with (c ∷ p) [] = false
starts_with (c ∷ p) (d ∷ s) = d == c && starts_with p s

module _ (repr : Json → Text) where
  -- The key of the row of `by input.<field>`, where the payload has the field
  abbrev pub value_key : Text → Json → Option Text
  value_key entity v =
      if is_null v then none else some (row_key repr entity (field (codes "id") v no_fields))

  -- The key of an entity's row in `default_rows`; no key where the entity gets no row
  unfoldable pub default_key : Text → Option Text → Fields → Option Text
  unfolding starts_with partition_dot
  default_key entity none payload = some (row_key repr entity payload)
  default_key entity (some source) payload =
      if starts_with (payload_namespace ++ b'.' ∷ []) source
      then value_key entity (get (partition_dot source).1 payload)
      else some (row_key repr entity payload)

  abbrev pub put_row :
      Text → Option Text → Fields → List (Text × Text × Fields) → List (Text × Text × Fields)
  put_row entity none payload rows = rows
  put_row entity (some key) payload rows = (entity, key, payload) ∷ rows

  unfoldable pub rows_for : Option Nodes → List Text → Fields → List (Text × Text × Fields)
  unfolding default_key lookup_key_source
  rows_for workflow [] payload = []
  rows_for workflow (entity ∷ entities) payload =
      put_row entity (default_key entity (lookup_key_source workflow entity) payload) payload
        (rows_for workflow entities payload)

  -- `default_rows`: the entity, the key and the row
  unfoldable pub default_rows : Option Nodes → Fields → List (Text × Text × Fields)
  unfolding rows_for seeded_entities
  default_rows workflow payload = rows_for workflow (seeded_entities workflow) payload
