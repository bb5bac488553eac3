-- ===== src/Tests/Names.antt =====
-- impl/lnpl/resolve.py at a document with two entities of one bare name.
use linkly.Base.{◌≡◌, ◌↔◌, ◌⊎◌, true, none, some, List, [], ◌∷◌, all}
use linkly.Base.Result.{ok}
use linkly.Base.Text.{codes}
use linkly.Resolve.{Node, is_exact, is_bare, resolve_node}
use linkly.Resolve.Only.{IsOnly, fails, resolve_node-some_iff, resolve_node-none_iff}

abbrev billing_order : Node
billing_order = record {
  kind = codes "Entity";
  name = codes "Order";
  id = codes "n1";
  namespace = some (codes "billing");
}

abbrev two_orders : List Node
two_orders =
    billing_order
    ∷ record billing_order { id = codes "n2"; namespace = some (codes "shipping") }
    ∷ []

resolve_node-some_iff_example :
    (resolve_node two_orders (codes "Entity") (codes "billing.Order") ≡ ok (some billing_order)) ↔ (
      IsOnly (is_exact (codes "Entity") (codes "billing.Order")) billing_order two_orders
      ⊎ ((all (fails (is_exact (codes "Entity") (codes "billing.Order"))) two_orders ≡ true)
          × IsOnly (is_bare (codes "Entity") (codes "billing.Order")) billing_order two_orders))
resolve_node-some_iff_example =
    resolve_node-some_iff two_orders (codes "Entity") (codes "billing.Order") billing_order

resolve_node-none_iff_example :
    (resolve_node two_orders (codes "Entity") (codes "Invoice") ≡ ok none) ↔ (
      (all (fails (is_exact (codes "Entity") (codes "Invoice"))) two_orders ≡ true)
      × (all (fails (is_bare (codes "Entity") (codes "Invoice"))) two_orders ≡ true))
resolve_node-none_iff_example = resolve_node-none_iff two_orders (codes "Entity") (codes "Invoice")
