-- ===== src/Resolve.antt =====
-- impl/lnpl/resolve.py: which node of a document a short or a qualified name names.
pub mod Only
use linkly.Base.{
  ◌≡◌, Bool, true, false, ◌&&◌, Option, none, some, List, [], ◌∷◌, ◌++◌, if◌then◌else◌,
}
use linkly.Base.Result.{Result, ok, err}
use linkly.Base.Text.{Text, codes, same_text}

-- The entries of a node that are read: "kind", "name", "id", and "namespace" if it has one.
pub record Node : Type 0 where
  pub kind : Text
  pub name : Text
  pub id : Text
  pub namespace : Option Text

-- `AmbiguousName`: several nodes share the qualified name, or the bare name. It lists the nodes.
pub data AmbiguousName : Type 0 where
  same_qualified : List Node → AmbiguousName
  same_bare : List Node → AmbiguousName

abbrev pub with_namespace : Option Text → Text → Text
with_namespace none name = name
with_namespace (some []) name = name
with_namespace (some (c ∷ space)) name = c ∷ (space ++ codes "." ++ name)

-- `qualified_name`
unfoldable pub qualified_name : Node → Text
qualified_name n = with_namespace n.namespace n.name

-- The tests of the comprehensions, that on the kind included.
unfoldable pub is_exact : Text → Text → Node → Bool
is_exact kind name n = same_text n.kind kind && same_text (qualified_name n) name

unfoldable pub is_bare : Text → Text → Node → Bool
is_bare kind name n = same_text n.kind kind && same_text n.name name

-- `[n for n in nodes if p(n)]`
unfoldable pub select : (Node → Bool) → List Node → List Node
select p [] = []
select p (n ∷ ns) = let rest = select p ns in if p n then n ∷ rest else rest

-- `resolve_node` from the bare names on, and the whole of it.
abbrev pub resolve_bare : List Node → Result AmbiguousName (Option Node)
resolve_bare [] = ok none
resolve_bare (n ∷ []) = ok (some n)
resolve_bare (n ∷ m ∷ ns) = err (same_bare (n ∷ m ∷ ns))

abbrev pub resolve_exact : List Node → List Node → Result AmbiguousName (Option Node)
resolve_exact [] bare = resolve_bare bare
resolve_exact (n ∷ []) bare = ok (some n)
resolve_exact (n ∷ m ∷ ns) bare = err (same_qualified (n ∷ m ∷ ns))

unfoldable pub resolve_node : List Node → Text → Text → Result AmbiguousName (Option Node)
resolve_node nodes kind name =
    resolve_exact (select (is_exact kind name) nodes) (select (is_bare kind name) nodes)
