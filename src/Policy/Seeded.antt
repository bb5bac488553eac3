-- ===== src/Policy/Seeded.antt =====
-- impl/lnpl/repo_policy.py: which entities the default seed puts rows for, and under which key.
use linkly.Base.{
  ◌≡◌, ◌↔◌, ◌⊎◌, refl, sym, ap, ◌∙◌, Bool, true, false, ◌&&◌, ◌||◌, Option, none, some, List, [],
  ◌∷◌, ◌++◌, if◌then◌else◌, arith, Bool-cases, Option-cases, inl, inr,
}
use linkly.Base.Result.{ok}
use linkly.Base.Text.{Text, codes, is_in, same_text, same_text_refl, same_text→eq}
use linkly.Base.Assoc.{Assoc, lookup, set_key, set_default, lookup-set_key, lookup-set_other}
use linkly.Base.Json.{Json, null, bool, int, float, str, seq, dict, get}
use linkly.Runtime.Repository.{Operation}
use linkly.Eval.Scope.{
  Scope, has_dot, partition_dot, resolve_reference, lookup_row, resolve_lookup_key,
}
use linkly.Policy.{
  Nodes, repository_calls, is_read, is_create, first_ops, read_first, seeded_entities, starts_with,
  value_key, default_key,
}

-- Of the calls on an entity that read or create it, the operation of the first.
pub first_use : Text → List (Text × Operation) → Option Operation
first_use e [] = none
first_use e ((entity, op) ∷ calls) =
    let rest = first_use e calls in
    if same_text entity e && (is_read op || is_create op) then some op else rest

abbrev earlier : Option Operation → Option Operation → Option Operation
earlier none later = later
earlier (some op) later = some op

module _ {A : Type 0} where
  -- Every key of the dict stands there once.
  abbrev Unique : Assoc A → Type 0
  Unique [] = Unit
  Unique ((k, v) ∷ d) = (lookup k d ≡ none) × Unique d

  set_key-Unique : (key : Text) (v : A) (d : Assoc A) → Unique d → Unique (set_key key v d)
  unfolding set_key lookup
  set_key-Unique key v [] u = (refl, tt)
  set_key-Unique key v ((k, x) ∷ d) u = elim (Bool-cases (same_text k key)) [
    | inl here ↦ rw here u
    | inr there ↦
        rw there
          (lookup-set_other k key v d (flipped k key there) ∙ u.0, set_key-Unique key v d u.1)
  ]
    where
      flipped : (s t : Text) → same_text s t ≡ false → same_text t s ≡ false
      flipped s t h = elim (Bool-cases (same_text t s)) [
        | inr apart ↦ apart
        | inl same ↦
            let equal = same_text→eq t s same in
            absurd (cc (sym h ∙ ap (same_text s) equal ∙ same_text_refl s))
      ]

  set_default-Unique : (key : Text) (v : A) (d : Assoc A) → Unique d → Unique (set_default key v d)
  unfolding set_default
  set_default-Unique key v d u = elim (Option-cases (lookup key d)) [
    | inl missing ↦ rw missing (set_key-Unique key v d u)
    | inr (w, found) ↦ rw found u
  ]

first_ops-Unique :
    (calls : List (Text × Operation)) (first : Assoc Operation)
    → Unique first
    → Unique (first_ops calls first)
unfolding first_ops
first_ops-Unique [] first u = u
first_ops-Unique ((entity, op) ∷ calls) first u = elim (Bool-cases (is_read op || is_create op)) [
  | inl counts ↦
      rw counts (
        first_ops-Unique calls (set_default entity op first) (set_default-Unique entity op first u))
  | inr other ↦ rw other (first_ops-Unique calls first u)
]

lookup-first_default :
    (e entity : Text) (op : Operation) (first : Assoc Operation) (later : Option Operation)
    → earlier (lookup e (set_default entity op first)) later
      ≡ earlier (lookup e first) (if same_text entity e then some op else later)
unfolding set_default
lookup-first_default e entity op first later = elim (Bool-cases (same_text entity e)) [
  | inl same ↦
      let equal = same_text→eq entity e same in
      elim (Option-cases (lookup e first)) [
        | inr (x, found) ↦ rw (same, equal, found, found) refl
        | inl missing ↦ rw (same, equal, missing, lookup-set_key e op first) refl
      ]
  | inr apart ↦ elim (Option-cases (lookup entity first)) [
    | inr (x, found) ↦ rw (apart, found) refl
    | inl missing ↦ rw (apart, missing, lookup-set_other e entity op first apart) refl
  ]
]

lookup-first_ops :
    (e : Text) (calls : List (Text × Operation)) (first : Assoc Operation)
    → lookup e (first_ops calls first) ≡ earlier (lookup e first) (first_use e calls)
unfolding first_ops first_use
lookup-first_ops e [] first = none_later (lookup e first)
  where
    none_later : (o : Option Operation) → o ≡ earlier o none
    none_later none = refl
    none_later (some op) = refl
lookup-first_ops e ((entity, op) ∷ calls) first = elim (Bool-cases (is_read op || is_create op)) [
  | inl counts ↦
      rw (counts, and_true (same_text entity e))
        (lookup-first_ops e calls (set_default entity op first)
          ∙ lookup-first_default e entity op first (first_use e calls))
  | inr other ↦ rw (other, and_false (same_text entity e)) (lookup-first_ops e calls first)
]
  where
    and_true : (b : Bool) → (b && true) ≡ b
    and_true b = ground arith

    and_false : (b : Bool) → (b && false) ≡ false
    and_false b = ground arith

is_read-eq : (op : Operation) → is_read op ≡ true → op ≡ Operation.read
is_read-eq Operation.read h = refl
is_read-eq Operation.query h = absurd (cc h)
is_read-eq Operation.create h = absurd (cc h)
is_read-eq Operation.update h = absurd (cc h)
is_read-eq Operation.delete h = absurd (cc h)

read_first-lookup :
    (e : Text) (d : Assoc Operation)
    → is_in e (read_first d) ≡ true
    → Unique d
    → lookup e d ≡ some Operation.read
unfolding read_first is_in lookup
read_first-lookup e [] h u = absurd (cc h)
read_first-lookup e ((k, op) ∷ d) h u = elim (Bool-cases (same_text k e)) [
  | inl same ↦ elim (Bool-cases (is_read op)) [
    | inl reads ↦ rw same (ap some (is_read-eq op reads))
    | inr other ↦
        let later : is_in e (read_first d) ≡ true = rw other at h in
        let found = read_first-lookup e d later u.1 in
        absurd (cc (sym u.0 ∙ ap (λ (t : Text). lookup t d) (same_text→eq k e same) ∙ found))
  ]
  | inr apart ↦ elim (Bool-cases (is_read op)) [
    | inl reads ↦ rw apart (read_first-lookup e d (skipped k d apart (rw reads at h)) u.1)
    | inr other ↦ rw apart (read_first-lookup e d (rw other at h) u.1)
  ]
]
  where
    skipped :
        (k : Text) (d : Assoc Operation)
        → same_text k e ≡ false
        → (same_text e k || is_in e (read_first d)) ≡ true
        → is_in e (read_first d) ≡ true
    skipped k d apart h = elim (Bool-cases (same_text e k)) [
      | inr other ↦ rw other at h
      | inl same ↦
          let equal = same_text→eq e k same in
          absurd (cc (sym apart ∙ ap (same_text k) equal ∙ same_text_refl k))
    ]

lookup-read_first :
    (e : Text) (d : Assoc Operation)
    → lookup e d ≡ some Operation.read
    → is_in e (read_first d) ≡ true
unfolding read_first is_in lookup
lookup-read_first e [] h = absurd (cc h)
lookup-read_first e ((k, op) ∷ d) h = elim (Bool-cases (same_text k e)) [
  | inl same ↦
      let reads : op ≡ Operation.read = cc (rw same at h) in
      rw (reads, same_text→eq k e same, same_text_refl e) refl
  | inr apart ↦
      let later = lookup-read_first e d (rw apart at h) in
      elim (Bool-cases (is_read op)) [
        | inl reads ↦ rw reads (either (same_text e k) later)
        | inr other ↦ rw other later
      ]
]
  where
    either : (b : Bool) {c : Bool} → c ≡ true → (b || c) ≡ true
    either true h = refl
    either false h = h

-- An entity gets a row from the default seed exactly where the first call that reads or creates it is a
-- read, in the order of the workflow.
pub seeded_entities_iff :
    (workflow : Option Nodes) (e : Text)
    → (is_in e (seeded_entities workflow) ≡ true)
      ↔ (first_use e (repository_calls workflow) ≡ some Operation.read)
unfolding seeded_entities first_use lookup
seeded_entities_iff workflow e =
    let calls = repository_calls workflow in
    let first = lookup-first_ops e calls [] in
    (
      λ h. sym first ∙ read_first-lookup e (first_ops calls []) h (first_ops-Unique calls [] tt),
      λ h. lookup-read_first e (first_ops calls []) (first ∙ h),
    )

-- Where an entity's first read has no lookup, or one by a field of the input, the key of its default
-- row is the key that this read asks for in a scope with the same payload.
pub default_key-resolve_lookup_key :
    (repr : Json → Text) (entity f key : Text) (source : Option Text) (scope : Scope)
    → (source ≡ none) ⊎ (source ≡ some (codes "input." ++ f))
    → default_key repr entity source scope.payload ≡ some key
    → resolve_lookup_key repr entity source scope ≡ ok key
unfolding default_key starts_with partition_dot resolve_lookup_key resolve_reference has_dot
    same_text
default_key-resolve_lookup_key repr entity f key source scope (inl bare) e =
    rw bare (cc (rw bare at e))
default_key-resolve_lookup_key repr entity f key source scope (inr by_input) e =
    rw by_input (by_value (get f scope.payload) (rw by_input at e))
  where
    by_value : (v : Json) → value_key repr entity v ≡ some key → lookup_row repr entity v ≡ ok key
    by_value null h = absurd (cc h)
    by_value (bool b) h = cc h
    by_value (int n) h = cc h
    by_value (float m x) h = cc h
    by_value (str s) h = cc h
    by_value (seq s) h = cc h
    by_value (dict d) h = cc h
