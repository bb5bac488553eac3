-- ===== src/Eval/Scope.antt =====
-- impl/lnpl/interp.py: `caller_view`, `resolve_reference`, `_resolve_lookup_key` and the exceptions, and
-- `row_key` of impl/lnpl/repo_policy.py. A row in the scope is a dict, or another value.
use linkly.Base.{
  suc, Bool, true, false, ◌||◌, not, Option, none, some, [], ◌∷◌, ◌++◌, ◌==◌, if◌then◌else◌,
}
use linkly.Base.Result.{Result, ok, err}
use linkly.Base.Text.{Text, codes, same_text}
use linkly.Base.Decimal.{decimal}
use linkly.Base.Int.{pos, negsuc}
use linkly.Base.Json.{
  Json, null, bool, int, str, seq, dict, item, no_items, Fields, no_fields, field, find_field, get,
}
use linkly.Condition.Syntax.{ConditionError}
use linkly.Money.{MoneyError}

-- The causes of a `RunError` here, and the AttributeError of a term that is no comparison.
pub data RunError : Type 0 where
  invalid_condition : ConditionError → RunError
  bad_instant : ConditionError → RunError
  money_fault : MoneyError → RunError
  out_of_range : RunError
  not_numeric : RunError
  division_by_zero : RunError
  money_with_number : RunError
  money_by_money : RunError
  not_a_text : RunError
  no_lookup_value : RunError
  no_operator : RunError

abbrev pub Run : Type 0 → Type 0
Run A = Result RunError A

-- What a reference is resolved in.
pub record Scope : Type 0 where
  pub payload : Fields
  pub bindings : Fields
  pub caller : Option Fields
  pub response : Option Fields

-- `"." in name`
unfoldable pub has_dot : Text → Bool
has_dot [] = false
has_dot (c ∷ s) = c == b'.' || has_dot s

-- `name.partition(".")`, the two texts around the dot
unfoldable pub partition_dot : Text → Text × Text
partition_dot [] = ([], [])
partition_dot (c ∷ s) =
    let rest = partition_dot s in if c == b'.' then ([], s) else (c ∷ rest.0, rest.1)

-- CALLER_NAMESPACE
abbrev pub caller_namespace : Text
caller_namespace = codes "caller"

-- PAYLOAD_NAMESPACE
abbrev pub payload_namespace : Text
payload_namespace = codes "input"

-- `response[name]` where the response has it, and the payload's field otherwise
abbrev pub bare_value : Option Fields → Text → Fields → Json
bare_value none name payload = get name payload
bare_value (some response) name payload = elim (find_field name response) [
  | none ↦ get name payload
  | some v ↦ v
]

abbrev pub caller_value : Option Fields → Text → Json
caller_value none key = null
caller_value (some caller) key = get key caller

abbrev pub row_value : Json → Text → Json
row_value (dict row) key = get key row
row_value _ key = null

-- `resolve_reference`
unfoldable pub resolve_reference : Scope → Text → Json
resolve_reference scope name =
    let (binding, key) = partition_dot name in
    if not (has_dot name)
    then bare_value scope.response name scope.payload
    else if same_text binding caller_namespace
    then caller_value scope.caller key
    else if same_text binding payload_namespace
    then get key scope.payload
    else row_value (get binding scope.bindings) key

-- The scope without `response`, which some calls do not pass on.
abbrev pub no_response : Scope → Scope
no_response scope = record scope { response = none }

-- The role of a `role` claim
abbrev pub role_claim : Json → Json
role_claim (str role) = str role
role_claim _ = null

-- The role of a `roles` claim: the only element of a list, where it is a str
abbrev pub only_role : Json → Json
only_role (seq (item (str role) no_items)) = str role
only_role _ = null

abbrev pub role_of : Option Json → Json → Json
role_of (some role) roles = role_claim role
role_of none roles = only_role roles

-- `caller_view`
abbrev pub view_claims : Fields → Fields
view_claims claims = field (codes "subject") (get (codes "sub") claims) (
    field (codes "role") (role_of (find_field (codes "role") claims) (get (codes "roles") claims))
      no_fields)

unfoldable pub caller_view : Option Fields → Option Fields
caller_view none = none
caller_view (some claims) = some (view_claims claims)

-- `repr` of a float, a list or a dict is an argument.
module _ (repr : Json → Text) where
  -- `"%s" % value`
  unfoldable pub text_of : Json → Text
  text_of null = codes "None"
  text_of (bool true) = codes "True"
  text_of (bool false) = codes "False"
  text_of (int (pos n)) = decimal n
  text_of (int (negsuc n)) = b'-' ∷ decimal (suc n)
  text_of (str s) = s
  text_of v = repr v

  -- `payload.get("id", "-")`
  abbrev pub id_of : Option Json → Json
  id_of none = str (codes "-")
  id_of (some v) = v

  -- `row_key`
  unfoldable pub row_key : Text → Fields → Text
  row_key entity payload = entity ++ b'#' ∷ text_of (id_of (find_field (codes "id") payload))

  abbrev pub lookup_row : Text → Json → Run Text
  lookup_row entity null = err no_lookup_value
  lookup_row entity v = ok (row_key entity (field (codes "id") v no_fields))

  -- `_resolve_lookup_key`
  unfoldable pub resolve_lookup_key : Text → Option Text → Scope → Run Text
  resolve_lookup_key entity none scope = ok (row_key entity scope.payload)
  resolve_lookup_key entity (some name) scope =
      lookup_row entity (resolve_reference (no_response scope) name)
