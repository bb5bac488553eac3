-- ===== src/Runtime/Repository/Heap.antt =====
-- impl/lnpl/interp.py: what the rows at the addresses of a table are, and what leaves them alone.
use linkly.Base.{ℕ, ◌<◌, ◌≡◌, ◌≢◌, refl, Option, some, List, [], ◌∷◌, length, arith}
use linkly.Base.Text.{Text}
use linkly.Base.Assoc.{Assoc, AllValues, AllValues-map}
use linkly.Runtime.Repository.{Entry, dict_at, none_row, plain_row, Row, Table, row_at, write_row}

-- What a reader of a table sees at a key, whatever the addresses are.
pub data Content (V : Type 0) : Type 0 where
  dict_of : Option (Row V) → Content V
  none_of : Content V
  plain_of : V → Content V

module _ {V : Type 0} where
  abbrev pub view_entry : List (Row V) → Entry V → Content V
  view_entry h (dict_at a) = dict_of (row_at h a)
  view_entry h none_row = none_of
  view_entry h (plain_row v) = plain_of v

  abbrev pub view_table : List (Row V) → Table V → Assoc (Content V)
  view_table h [] = []
  view_table h ((key, e) ∷ t) = (key, view_entry h e) ∷ view_table h t

  abbrev pub view_rows : List (Row V) → Assoc (Table V) → Assoc (Assoc (Content V))
  view_rows h [] = []
  view_rows h ((entity, t) ∷ ts) = (entity, view_table h t) ∷ view_rows h ts

  -- The address of an entry, if it has one, is among those of P.
  abbrev pub Where : (ℕ → Type 0) → Entry V → Type 0
  Where P (dict_at a) = P a
  Where P none_row = Unit
  Where P (plain_row v) = Unit

  abbrev pub AllWhere : (ℕ → Type 0) → Assoc (Table V) → Type 0
  AllWhere P rows = AllValues (AllValues (Where P)) rows

  -- Two heaps with the same rows at the addresses of P.
  abbrev pub Same : (ℕ → Type 0) → List (Row V) → List (Row V) → Type 0
  Same P h k = (a : ℕ) → P a → row_at k a ≡ row_at h a

  pub Where-map : {P Q : ℕ → Type 0} → ((a : ℕ) → P a → Q a) → (e : Entry V) → Where P e → Where Q e
  Where-map f (dict_at a) w = f a w
  Where-map f none_row w = tt
  Where-map f (plain_row v) w = tt

  pub AllWhere-map :
      {P Q : ℕ → Type 0} (ts : Assoc (Table V))
      → ((a : ℕ) → P a → Q a)
      → AllWhere P ts
      → AllWhere Q ts
  AllWhere-map ts f w = AllValues-map ts (λ t u. AllValues-map t (λ e. Where-map f e) u) w

  pub view_entry-Same :
      {P : ℕ → Type 0} (h k : List (Row V)) (e : Entry V)
      → Same P h k
      → Where P e
      → view_entry k e ≡ view_entry h e
  view_entry-Same h k (dict_at a) same w = rw (same a w) refl
  view_entry-Same h k none_row same w = refl
  view_entry-Same h k (plain_row v) same w = refl

  pub view_table-Same :
      {P : ℕ → Type 0} (h k : List (Row V)) (t : Table V)
      → Same P h k
      → AllValues (Where P) t
      → view_table k t ≡ view_table h t
  view_table-Same h k [] same w = refl
  view_table-Same h k ((key, e) ∷ t) same w =
      rw (view_entry-Same h k e same w.0, view_table-Same h k t same w.1)

  pub view_rows-Same :
      {P : ℕ → Type 0} (h k : List (Row V)) (ts : Assoc (Table V))
      → Same P h k
      → AllWhere P ts
      → view_rows k ts ≡ view_rows h ts
  view_rows-Same h k [] same w = refl
  view_rows-Same h k ((entity, t) ∷ ts) same w =
      rw (view_table-Same h k t same w.0, view_rows-Same h k ts same w.1)

  -- A new row changes no older one.
  pub row_at-older :
      (r : Row V) (h : List (Row V)) (a : ℕ) → a < length h → row_at (r ∷ h) a ≡ row_at h a
  unfolding row_at
  row_at-older r h a lt = ground arith

  pub row_at-newest : (r : Row V) (h : List (Row V)) → row_at (r ∷ h) (length h) ≡ some r
  unfolding row_at
  row_at-newest r h = ground arith

  pub length-write_row :
      (h : List (Row V)) (a : ℕ) (field : Text) (v : V) → length (write_row h a field v) ≡ length h
  unfolding write_row
  length-write_row [] a field v = refl
  length-write_row (r ∷ h) a field v = ground (arith, length-write_row h a field v)

  -- A write leaves the other rows alone.
  pub row_at-write_row :
      (h : List (Row V)) (a b : ℕ) (field : Text) (v : V)
      → a ≢ b
      → row_at (write_row h b field v) a ≡ row_at h a
  unfolding write_row row_at
  row_at-write_row [] a b field v ne = refl
  row_at-write_row (r ∷ h) a b field v ne =
      ground (arith, length-write_row h b field v, row_at-write_row h a b field v ne)
