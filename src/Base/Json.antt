-- ===== src/Base/Json.antt =====
-- The Python values of a payload or a row: `None`, bool, int, float, str, list and dict. A float is
-- finite: m times 2 to the power of e. A dict has every key once.
use Prim.Native.Nat.{ℕ, ◌+◌, ◌^◌}
use mathlib.Core.Bool.{Bool, true, false, ◌&&◌, ◌||◌}
use mathlib.Core.List.{[], ◌∷◌}
use mathlib.Core.Option.{Option, none, some}
use linkly.Base.Tests.{if◌then◌else◌, ◌==◌, ltb}
use linkly.Base.Text.{Text, same_text}
use linkly.Base.Int.{ℤ, pos, pos_part, neg_part, ltb_ℤ, eqb_ℤ, ◌*ℤ◌}

mutual
  pub data Json : Type 0 where
    null : Json
    bool : Bool → Json
    int : ℤ → Json
    float : ℤ → ℤ → Json
    str : Text → Json
    seq : Items → Json
    dict : Fields → Json

  pub data Items : Type 0 where
    no_items : Items
    item : Json → Items → Items

  pub data Fields : Type 0 where
    no_fields : Fields
    field : Text → Json → Fields → Fields

-- `d[key]`, where `key in d`
unfoldable pub find_field : Text → Fields → Option Json
find_field key no_fields = none
find_field key (field k v d) =
    let rest = find_field key d in if same_text k key then some v else rest

-- A key that is missing is read as `None`.
abbrev pub or_null : Option Json → Json
or_null none = null
or_null (some v) = v

-- `d.get(key)`
abbrev pub get : Text → Fields → Json
get key d = or_null (find_field key d)

-- `key in d`
abbrev pub is_found : Option Json → Bool
is_found none = false
is_found (some v) = true

unfoldable pub has_field : Text → Fields → Bool
unfolding find_field
has_field key d = is_found (find_field key d)

-- `v is None`
abbrev pub is_null : Json → Bool
is_null null = true
is_null _ = false

-- `d[key] = value`
unfoldable pub put_field : Text → Json → Fields → Fields
put_field key v no_fields = field key v no_fields
put_field key v (field k w d) =
    let rest = put_field key v d in if same_text k key then field k v d else field k w rest

abbrev pub count_fields : Fields → ℕ
count_fields no_fields = 0
count_fields (field k v d) = 1 + count_fields d

-- A number as m times 2 to the power of e: True is 1 and False is 0.
abbrev pub as_number : Json → Option (ℤ × ℤ)
as_number (bool b) = some (if b then (pos 1, pos 0) else (pos 0, pos 0))
as_number (int n) = some (n, pos 0)
as_number (float m e) = some (m, e)
as_number _ = none

-- The two numbers times the same power of 2, as integers.
abbrev pub aligned : ℤ × ℤ → ℤ × ℤ → ℤ × ℤ
aligned (m, e) (n, f) =
    (m *ℤ pos (2 ^ (pos_part e + neg_part f)), n *ℤ pos (2 ^ (pos_part f + neg_part e)))

abbrev pub numbers_same : Option (ℤ × ℤ) → Option (ℤ × ℤ) → Bool
numbers_same (some a) (some b) = eqb_ℤ (aligned a b).0 (aligned a b).1
numbers_same _ _ = false

-- `v == w`
unfoldable mutual
  unfolding find_field has_field ◌*ℤ◌ same_text

  pub same_json : Json → Json → Bool
  same_json null null = true
  same_json (str s) (str t) = same_text s t
  same_json (seq s) (seq t) = same_items s t
  same_json (dict d) (dict e) = count_fields d == count_fields e && within_fields d e
  same_json v w = numbers_same (as_number v) (as_number w)

  pub same_items : Items → Items → Bool
  same_items no_items no_items = true
  same_items (item v s) (item w t) = same_json v w && same_items s t
  same_items _ _ = false

  -- Every key of the one dict is in the other, with the same value.
  pub within_fields : Fields → Fields → Bool
  within_fields no_fields e = true
  within_fields (field k v d) e = has_field k e && same_json v (get k e) && within_fields d e

-- `s < t`
unfoldable pub text_lt : Text → Text → Bool
text_lt s [] = false
text_lt [] (b ∷ t) = true
text_lt (a ∷ s) (b ∷ t) = ltb a b || (a == b && text_lt s t)

abbrev pub numbers_lt : Option (ℤ × ℤ) → Option (ℤ × ℤ) → Option Bool
numbers_lt (some a) (some b) = some (ltb_ℤ (aligned a b).0 (aligned a b).1)
numbers_lt _ _ = none

-- `v < w`, where `none` stands for the TypeError
unfoldable mutual
  unfolding same_json ◌*ℤ◌ text_lt

  pub lt_json : Json → Json → Option Bool
  lt_json (str s) (str t) = some (text_lt s t)
  lt_json (seq s) (seq t) = lt_items s t
  lt_json v w = numbers_lt (as_number v) (as_number w)

  pub lt_items : Items → Items → Option Bool
  lt_items s no_items = some false
  lt_items no_items (item w t) = some true
  lt_items (item v s) (item w t) = if same_json v w then lt_items s t else lt_json v w
