-- ===== src/Tests/Seeds.antt =====
-- The seed of a workflow that reads a product before it creates one and an order, and a query over
-- three rows, one without a price.
use linkly.Base.{ℕ, ◌≡◌, ◌↔◌, inr, refl, true, false, none, some, [], ◌∷◌}
use linkly.Base.Result.{ok}
use linkly.Base.Text.{Text, codes, is_in, same_text}
use linkly.Base.Int.{pos}
use linkly.Base.Assoc.{lookup, set_key, set_default}
use linkly.Base.Decimal.{decimal}
use linkly.Base.Json.{Json, int, Fields, no_fields, field, find_field, lt_json}
use linkly.Lexer.Words.{Comparator}
use linkly.Runtime.Repository.{Operation}
use linkly.Eval.Scope.{Scope, partition_dot, text_of, row_key, resolve_lookup_key}
use linkly.Policy.{
  repository_call, event_emit, step, container, Nodes, no_nodes, node, repository_calls,
  event_emissions, first_ops, read_first, seeded_entities, starts_with, default_key, default_rows,
}
use linkly.Policy.Seeded.{first_use, seeded_entities_iff, default_key-resolve_lookup_key}
use linkly.Policy.Query.{
  Test, test_values, row_matches, matching, with_field, place, sort_rows, take_rows, place_key,
  by_key, apply_predicate, query,
}
use linkly.Policy.Query.Sorted.{IsOrdered, apply_predicate-IsOrdered}

abbrev product : Text
product = codes "product"

abbrev order : Text
order = codes "order"

abbrev checkout : Nodes
checkout =
    node
      (step (
        repository_call (record {
          entity = product;
          operation = Operation.read;
          lookup_ref = some (codes "input.sku");
        })
        ∷ []))
      (node
        (container (
          node
            (step (
              repository_call
                (record { entity = order; operation = Operation.create; lookup_ref = none })
              ∷ event_emit (codes "ordered")
              ∷ repository_call
                  (record { entity = order; operation = Operation.read; lookup_ref = none })
              ∷ []))
            no_nodes))
        no_nodes)

abbrev digits_of : Json → Text
digits_of v = codes "7"

abbrev input : Fields
input = field (codes "sku") (int (pos 7)) no_fields

checkout_seeds : seeded_entities (some checkout) ≡ product ∷ []
unfolding seeded_entities read_first first_ops set_default lookup set_key same_text
checkout_seeds = refl

checkout_events : event_emissions (some checkout) ≡ codes "ordered" ∷ []
unfolding event_emissions
checkout_events = refl

checkout_rows :
    default_rows digits_of (some checkout) input ≡ (product, codes "product#7", input) ∷ []
unfolding default_rows find_field row_key same_text read_first first_ops set_default lookup set_key
    text_of decimal
checkout_rows = refl

seeded_entities_iff_example :
    (is_in product (seeded_entities (some checkout)) ≡ true)
    ↔ (first_use product (repository_calls (some checkout)) ≡ some Operation.read)
seeded_entities_iff_example = seeded_entities_iff (some checkout) product

abbrev by_sku : Scope
by_sku = record { payload = input; bindings = no_fields; caller = none; response = none }

default_key-resolve_lookup_key_example :
    resolve_lookup_key digits_of product (some (codes "input.sku")) by_sku ≡ ok (codes "product#7")
unfolding default_key find_field row_key same_text starts_with partition_dot text_of decimal
default_key-resolve_lookup_key_example =
    default_key-resolve_lookup_key digits_of product (codes "sku") (codes "product#7")
      (some (codes "input.sku")) by_sku (inr refl) refl

abbrev priced : ℕ → Fields
priced n = field (codes "price") (int (pos n)) no_fields

abbrev free : Fields
free = no_fields

abbrev dear : Test
dear = record { name = codes "price"; op = Comparator.gt; value = int (pos 2) }

-- Two rows are dear enough; the row without a price never matches.
dear_rows :
    query
      ((codes "b", priced 5)
        ∷ (codes "a", priced 9)
        ∷ (codes "c", free)
        ∷ (codes "d", priced 1)
        ∷ [])
      (dear ∷ [])
      (some (codes "price", false))
      (some 1)
    ≡ ok (priced 5 ∷ [])
unfolding query test_values find_field same_text lt_json apply_predicate matching by_key place_key
    row_matches sort_rows with_field place take_rows
dear_rows = refl

apply_predicate-IsOrdered_example :
    IsOrdered
      (codes "price")
      true
      []
      (priced 5 ∷ free ∷ priced 9 ∷ [])
      (some 2)
      (priced 9 ∷ priced 5 ∷ [])
unfolding apply_predicate find_field same_text lt_json matching row_matches sort_rows with_field
    place take_rows
apply_predicate-IsOrdered_example =
    apply_predicate-IsOrdered (codes "price") true [] (priced 5 ∷ free ∷ priced 9 ∷ [])
      (priced 9 ∷ priced 5 ∷ []) (some 2) (tt, (tt, (tt, tt))) refl
