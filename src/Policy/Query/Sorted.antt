-- ===== src/Policy/Query/Sorted.antt =====
-- impl/lnpl/repo_policy.py: the rows that `apply_predicate` returns in an order.
use linkly.Base.{
  ℕ, ◌≡◌, ◌≢◌, ◌⊎◌, refl, sym, ap, ◌∙◌, Bool, true, false, Option, none, some, List, [], ◌∷◌, ◌++◌,
  if◌then◌else◌, arith, Bool-cases, inl, inr, All,
}
use linkly.Base.Result.{ok, ◌>>=◌, chain_returns}
use linkly.Base.Text.{Text}
use linkly.Base.Int.{ℤ}
use linkly.Base.Json.{
  Json, null, bool, int, float, str, seq, dict, Fields, get, is_null, lt_json, text_lt, numbers_lt,
  as_number,
}
use mathlib.Core.List.{Perm, perm_middle}
use mathlib.Core.List.Perm
use linkly.Policy.Query.{
  or_raise, Test, matching, row_matches, with_field, goes_first, place, sort_rows, order_rows,
  limit_rows, apply_predicate,
}

-- A value that is no list.
abbrev pub NoList : Json → Type 0
NoList (seq s) = ⊥
NoList _ = Unit

text_lt-asym : (s t : Text) → text_lt s t ≡ true → text_lt t s ≡ false
unfolding text_lt
text_lt-asym s [] h = absurd (cc h)
text_lt-asym [] (b ∷ t) h = refl
text_lt-asym (a ∷ s) (b ∷ t) h = ground (arith, text_lt-asym s t)

some-eq : {b c : Bool} → some b ≡ some c → b ≡ c
some-eq e = cc e

numbers_lt-asym : (a b : Option (ℤ × ℤ)) → numbers_lt a b ≡ some true → numbers_lt b a ≢ some true
numbers_lt-asym (some (m, e)) (some (n, f)) h k =
    let one = some-eq h in let other = some-eq k in absurd (ground arith)
numbers_lt-asym none b h k = absurd (cc h)
numbers_lt-asym (some a) none h k = absurd (cc h)

lt_json-asym : (v w : Json) → NoList v → lt_json v w ≡ some true → lt_json w v ≢ some true
unfolding lt_json
lt_json-asym null w h e = absurd (cc e)
lt_json-asym (dict d) w h e = absurd (cc e)
lt_json-asym (seq s) w h e = absurd h
lt_json-asym (str s) (bool c) h e = absurd (cc e)
lt_json-asym (str s) (int k) h e = absurd (cc e)
lt_json-asym (str s) (float l y) h e = absurd (cc e)
lt_json-asym (str s) null h e = absurd (cc e)
lt_json-asym (str s) (dict f) h e = absurd (cc e)
lt_json-asym (str s) (str t) h e = λ f. cc (sym (text_lt-asym s t (cc e)) ∙ some-eq f)
lt_json-asym (str s) (seq t) h e = absurd (cc e)
lt_json-asym (bool b) (bool c) h e = numbers_lt-asym (as_number (bool b)) (as_number (bool c)) e
lt_json-asym (bool b) (int k) h e = numbers_lt-asym (as_number (bool b)) (as_number (int k)) e
lt_json-asym (bool b) (float l y) h e =
    numbers_lt-asym (as_number (bool b)) (as_number (float l y)) e
lt_json-asym (bool b) null h e = absurd (cc e)
lt_json-asym (bool b) (dict f) h e = absurd (cc e)
lt_json-asym (bool b) (str t) h e = absurd (cc e)
lt_json-asym (bool b) (seq t) h e = absurd (cc e)
lt_json-asym (int n) (bool c) h e = numbers_lt-asym (as_number (int n)) (as_number (bool c)) e
lt_json-asym (int n) (int k) h e = numbers_lt-asym (as_number (int n)) (as_number (int k)) e
lt_json-asym (int n) (float l y) h e = numbers_lt-asym (as_number (int n)) (as_number (float l y)) e
lt_json-asym (int n) null h e = absurd (cc e)
lt_json-asym (int n) (dict f) h e = absurd (cc e)
lt_json-asym (int n) (str t) h e = absurd (cc e)
lt_json-asym (int n) (seq t) h e = absurd (cc e)
lt_json-asym (float m x) (bool c) h e =
    numbers_lt-asym (as_number (float m x)) (as_number (bool c)) e
lt_json-asym (float m x) (int k) h e = numbers_lt-asym (as_number (float m x)) (as_number (int k)) e
lt_json-asym (float m x) (float l y) h e =
    numbers_lt-asym (as_number (float m x)) (as_number (float l y)) e
lt_json-asym (float m x) null h e = absurd (cc e)
lt_json-asym (float m x) (dict f) h e = absurd (cc e)
lt_json-asym (float m x) (str t) h e = absurd (cc e)
lt_json-asym (float m x) (seq t) h e = absurd (cc e)

raise-some : (o : Option Bool) → or_raise o ≡ ok true → o ≡ some true
raise-some none e = absurd (cc e)
raise-some (some b) e = cc e

goes_first-asym :
    (name : Text) (desc : Bool) (row next : Fields)
    → NoList (get name row)
    → NoList (get name next)
    → goes_first name desc next row ≡ ok true
    → goes_first name desc row next ≢ ok true
goes_first-asym name true row next h k e f =
    lt_json-asym (get name row) (get name next) h (raise-some _ e) (raise-some _ f)
goes_first-asym name false row next h k e f =
    lt_json-asym (get name next) (get name row) k (raise-some _ e) (raise-some _ f)

-- A value that may follow another one in the order: it is not less, or not greater.
abbrev pub Follows : Bool → Json → Json → Type 0
Follows false v w = lt_json w v ≢ some true
Follows true v w = lt_json v w ≢ some true

goes_first-Follows :
    (name : Text) (desc : Bool) (row next : Fields)
    → goes_first name desc next row ≢ ok true
    → Follows desc (get name row) (get name next)
goes_first-Follows name false row next h = λ e. h (ap or_raise e)
goes_first-Follows name true row next h = λ e. h (ap or_raise e)

module _ (name : Text) (desc : Bool) where
  -- Every row may follow the one before it.
  abbrev pub InOrder : List Fields → Type 0
  InOrder [] = Unit
  InOrder (row ∷ []) = Unit
  InOrder (row ∷ next ∷ rows) = Follows desc (get name row) (get name next) × InOrder (next ∷ rows)

  abbrev pub NoLists : List Fields → Type 0
  NoLists rows = All (λ row. NoList (get name row)) rows

  -- The row that a place begins with is the new one, or the one that was first.
  abbrev Begins : Fields → List Fields → List Fields → Type 0
  Begins row [] out = out ≡ row ∷ []
  Begins row (next ∷ rows) out = (l : List Fields) × ((out ≡ row ∷ l) ⊎ (out ≡ next ∷ l))

  put_front-InOrder :
      (next row : Fields) (rows placed : List Fields)
      → Follows desc (get name next) (get name row)
      → InOrder (next ∷ rows)
      → Begins row rows placed
      → InOrder placed
      → InOrder (next ∷ placed)
  put_front-InOrder next row [] placed h o begins i = rw begins (h, tt)
  put_front-InOrder next row (x ∷ rows) placed h o (l, inl front) i = rw front (h, rw front at i)
  put_front-InOrder next row (x ∷ rows) placed h o (l, inr same) i = rw same (o.0, rw same at i)

  tail-InOrder : (row : Fields) (rows : List Fields) → InOrder (row ∷ rows) → InOrder rows
  tail-InOrder row [] h = tt
  tail-InOrder row (next ∷ rows) h = h.1

  place-facts :
      (row : Fields) (rows out : List Fields)
      → NoList (get name row)
      → NoLists rows
      → InOrder rows
      → place name desc row rows ≡ ok out
      → Begins row rows out × InOrder out × Perm out (row ∷ rows) × NoLists out
  unfolding place
  place-facts row [] out h k o e =
      let made : row ∷ [] ≡ out = cc e in rw (sym made) (refl, tt, Perm.refl _, (h, tt))
  place-facts row (next ∷ rows) out h k o e =
      let (b, compared, rest) = chain_returns (goes_first name desc next row) _ e in
      by_test b (λ placed found. place-facts row rows placed h k.1 (tail-InOrder next rows o) found)
        compared rest
    where
      by_test :
          (b : Bool)
          → ((placed : List Fields)
              → place name desc row rows ≡ ok placed
              → Begins row rows placed × InOrder placed × Perm placed (row ∷ rows) × NoLists placed)
          → goes_first name desc next row ≡ ok b
          → (if b
              then (do placed ← place name desc row rows; ok (next ∷ placed))
              else ok (row ∷ next ∷ rows))
            ≡ ok out
          → Begins row (next ∷ rows) out × InOrder out × Perm out (row ∷ next ∷ rows) × NoLists out
      by_test true more compared rest =
          let (placed, found, made) = chain_returns (place name desc row rows) _ rest in
          let (begins, ordered, same, lists) = more placed found in
          let whole : next ∷ placed ≡ out = cc made in
          rw (sym whole) (
            (placed, inr refl),
            put_front-InOrder next row rows placed
                (goes_first-Follows name desc next row
                  (goes_first-asym name desc row next h k.0 compared))
                o begins ordered,
            Perm.trans (Perm.cons next same) (Perm.swap row next rows),
            (k.0, lists),
          )
      by_test false more compared rest =
          let whole : row ∷ next ∷ rows ≡ out = cc rest in
          rw (sym whole) (
            (next ∷ rows, inl refl),
            (goes_first-Follows name desc row next (λ f. cc (sym compared ∙ f)), o),
            Perm.refl _,
            (h, k),
          )

  sort-facts :
      (rows out : List Fields)
      → NoLists rows
      → sort_rows name desc rows ≡ ok out
      → InOrder out × Perm out rows × NoLists out
  unfolding sort_rows
  sort-facts [] out h e = let made : [] ≡ out = cc e in rw (sym made) (tt, Perm.refl [], tt)
  sort-facts (row ∷ rows) out h e =
      let (sorted, found, placed) = chain_returns (sort_rows name desc rows) _ e in
      let (ordered, same, lists) = sort-facts rows sorted h.1 found in
      let (begins, o, p, l) = place-facts row sorted out h.0 lists ordered placed in
      (o, Perm.trans p (Perm.cons row same), l)

  with_field-facts :
      (rows : List Fields)
      → NoLists rows
      → Perm (with_field true name rows ++ with_field false name rows) rows
        × NoLists (with_field true name rows)
  unfolding with_field
  with_field-facts [] h = (Perm.refl [], tt)
  with_field-facts (row ∷ rows) h =
      let (same, lists) = with_field-facts rows h.1 in
      elim (Bool-cases (is_null (get name row))) [
        | inl absent ↦ rw absent (
          Perm.trans (perm_middle (with_field true name rows) (with_field false name rows))
              (Perm.cons row same),
          lists,
        )
        | inr there ↦ rw there (Perm.cons row same, (h.0, lists))
      ]

  matching-NoLists :
      (tests : List Test) (rows kept : List Fields)
      → NoLists rows
      → matching tests rows ≡ ok kept
      → NoLists kept
  unfolding matching
  matching-NoLists tests [] kept h e = let made : [] ≡ kept = cc e in rw (sym made) tt
  matching-NoLists tests (row ∷ rows) kept h e =
      let (b, tested, next) = chain_returns (row_matches row tests) _ e in
      let (rest, found, made) = chain_returns (matching tests rows) _ next in
      by_test b rest (matching-NoLists tests rows rest h.1 found) (cc made)
    where
      by_test :
          (b : Bool) (rest : List Fields)
          → NoLists rest
          → (if b then row ∷ rest else rest) ≡ kept
          → NoLists kept
      by_test true rest l made = rw (sym made) (h.0, l)
      by_test false rest l made = rw (sym made) l

  -- What an ordered query returns of some rows, up to a limit.
  pub record IsOrdered (tests : List Test) (rows : List Fields) (limit : Option ℕ)
      (out : List Fields) : Type 0 where
    pub kept : List Fields
    pub sorted : List Fields
    pub matched : matching tests rows ≡ ok kept
    pub parts : out ≡ limit_rows limit (sorted ++ with_field false name kept)
    pub same : Perm (sorted ++ with_field false name kept) kept
    pub ordered : InOrder sorted

  -- Where no row has a list in the field, apply_predicate returns in an order the first `limit` rows, or
  -- all of them without a limit, of a list that has the rows that match, each as often as before: first
  -- those that have the field, none of them less than its predecessor, or greater where the order is
  -- descending, and then those that have it not, in the order in which they stood.
  pub apply_predicate-IsOrdered :
      (tests : List Test) (rows out : List Fields) (limit : Option ℕ)
      → NoLists rows
      → apply_predicate rows tests (some (name, desc)) limit ≡ ok out
      → IsOrdered tests rows limit out
  unfolding apply_predicate
  apply_predicate-IsOrdered tests rows out limit h e =
      let (kept, matched, next) = chain_returns (matching tests rows) _ e in
      let (whole, split, made) = chain_returns (order_rows (some (name, desc)) kept) _ next in
      let (sorted, found, joined) =
        chain_returns (sort_rows name desc (with_field true name kept)) _ split in
      let (parted, lists) = with_field-facts kept (matching-NoLists tests rows kept h matched) in
      let (ordered, again, l) = sort-facts (with_field true name kept) sorted lists found in
      let ordered_rows : whole ≡ sorted ++ with_field false name kept = cc joined in
      let cut : limit_rows limit whole ≡ out = cc made in
      record {
        kept = kept;
        sorted = sorted;
        matched = matched;
        parts = sym cut ∙ ap (limit_rows limit) ordered_rows;
        same = Perm.trans (Perm.append again (Perm.refl _)) parted;
        ordered = ordered;
      }
