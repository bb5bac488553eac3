-- ===== src/Resolve/Only.antt =====
-- impl/lnpl/resolve.py: `resolve_node` never guesses.
use linkly.Base.{
  ◌≡◌, ◌↔◌, ◌⊎◌, refl, Bool, true, false, not, none, some, List, [], ◌∷◌, ◌++◌, all, arith,
  Bool-cases, inl, inr, &&_right,
}
use linkly.Base.Result.{ok}
use linkly.Base.Text.{Text}
use linkly.Resolve.{Node, is_exact, is_bare, select, resolve_exact, resolve_node}

abbrev pub fails : (Node → Bool) → Node → Bool
fails p n = not (p n)

-- The node is the one and only place in the list where the test holds.
pub record IsOnly (p : Node → Bool) (n : Node) (nodes : List Node) : Type 0 where
  pub before : List Node
  pub after : List Node
  pub place : nodes ≡ before ++ n ∷ after
  pub holds : p n ≡ true
  pub none_before : all (fails p) before ≡ true
  pub none_after : all (fails p) after ≡ true

module _ (p : Node → Bool) where
  select-none : (nodes : List Node) → (select p nodes ≡ []) ↔ (all (fails p) nodes ≡ true)
  unfolding select
  select-none [] = (λ e. refl, λ e. refl)
  select-none (m ∷ nodes) = elim (Bool-cases (p m)) [
    | inl hit ↦ (λ e. absurd (cc (rw hit at e)), λ e. absurd (cc (rw hit at e)))
    | inr missed ↦ (
      λ e. rw missed ((select-none nodes).0 (rw missed at e)),
      λ e. rw missed ((select-none nodes).1 (rw missed at e)),
    )
  ]

  select-IsOnly : (nodes : List Node) (n : Node) → select p nodes ≡ n ∷ [] → IsOnly p n nodes
  unfolding select
  select-IsOnly [] n e = absurd (cc e)
  select-IsOnly (m ∷ nodes) n e = elim (Bool-cases (p m)) [
    | inl hit ↦
        let found : m ∷ select p nodes ≡ n ∷ [] = rw hit at e in
        let same : m ≡ n = cc found in
        record {
          before = [];
          after = nodes;
          place = rw same refl;
          holds = rw same at hit;
          none_before = refl;
          none_after = (select-none nodes).0 (cc found);
        }
    | inr missed ↦
        let o = select-IsOnly nodes n (rw missed at e) in
        record {
          before = m ∷ o.before;
          after = o.after;
          place = rw o.place refl;
          holds = o.holds;
          none_before = rw missed o.none_before;
          none_after = o.none_after;
        }
  ]

  only-select :
      (before : List Node) (n : Node) (after : List Node)
      → p n ≡ true
      → all (fails p) before ≡ true
      → all (fails p) after ≡ true
      → select p (before ++ n ∷ after) ≡ n ∷ []
  unfolding select
  only-select [] n after hit b a = rw (hit, (select-none after).1 a) refl
  only-select (m ∷ before) n after hit b a =
      let missed : p m ≡ false = ground arith in
      rw missed (only-select before n after hit (&&_right (fails p m) _ b) a)

  select-eq-single : (nodes : List Node) (n : Node) → (select p nodes ≡ n ∷ []) ↔ IsOnly p n nodes
  select-eq-single nodes n = (
    select-IsOnly nodes n,
    λ o. rw o.place (only-select o.before n o.after o.holds o.none_before o.none_after),
  )

resolve_exact-some :
    (exact bare : List Node) (n : Node)
    → (resolve_exact exact bare ≡ ok (some n))
      ↔ ((exact ≡ n ∷ []) ⊎ ((exact ≡ []) × (bare ≡ n ∷ [])))
resolve_exact-some [] [] n = ground arith
resolve_exact-some [] (m ∷ []) n = ground arith
resolve_exact-some [] (m ∷ k ∷ bare) n = ground arith
resolve_exact-some (m ∷ []) bare n = ground arith
resolve_exact-some (m ∷ k ∷ exact) bare n = ground arith

-- `resolve_node` returns a node exactly where it is the only node of the kind with that qualified
-- name, or no node of the kind has it as its qualified name and the node is the only one of the kind
-- with that bare name.
pub resolve_node-some_iff :
    (nodes : List Node) (kind name : Text) (n : Node)
    → (resolve_node nodes kind name ≡ ok (some n)) ↔ (
        IsOnly (is_exact kind name) n nodes
        ⊎ ((all (fails (is_exact kind name)) nodes ≡ true) × IsOnly (is_bare kind name) n nodes))
unfolding resolve_node
resolve_node-some_iff nodes kind name n = (
  λ e. elim ((resolve_exact-some _ _ n).0 e) [
    | inl one ↦ inl ((select-eq-single (is_exact kind name) nodes n).0 one)
    | inr (missing, one) ↦ inr (
      (select-none (is_exact kind name) nodes).0 missing,
      (select-eq-single (is_bare kind name) nodes n).0 one,
    )
  ],
  λ h. (resolve_exact-some _ _ n).1 (elim h [
    | inl o ↦ inl ((select-eq-single (is_exact kind name) nodes n).1 o)
    | inr (missing, o) ↦ inr (
      (select-none (is_exact kind name) nodes).1 missing,
      (select-eq-single (is_bare kind name) nodes n).1 o,
    )
  ]),
)

resolve_exact-none :
    (exact bare : List Node) → (resolve_exact exact bare ≡ ok none) ↔ ((exact ≡ []) × (bare ≡ []))
resolve_exact-none [] [] = ground arith
resolve_exact-none [] (m ∷ []) = ground arith
resolve_exact-none [] (m ∷ k ∷ bare) = ground arith
resolve_exact-none (m ∷ []) bare = ground arith
resolve_exact-none (m ∷ k ∷ exact) bare = ground arith

-- `resolve_node` says that a name is undeclared exactly where no node of the kind has it, neither as
-- its qualified nor as its bare name.
pub resolve_node-none_iff :
    (nodes : List Node) (kind name : Text)
    → (resolve_node nodes kind name ≡ ok none) ↔ (
        (all (fails (is_exact kind name)) nodes ≡ true)
        × (all (fails (is_bare kind name)) nodes ≡ true))
unfolding resolve_node
resolve_node-none_iff nodes kind name = (
  λ e.
      let (exact, bare) = (resolve_exact-none _ _).0 e in
      (
        (select-none (is_exact kind name) nodes).0 exact,
        (select-none (is_bare kind name) nodes).0 bare,
      ),
  λ (exact, bare). (resolve_exact-none _ _).1 (
    (select-none (is_exact kind name) nodes).1 exact,
    (select-none (is_bare kind name) nodes).1 bare,
  ),
)
