-- ===== src/Condition/Names.antt =====
-- impl/lnpl/condition.py: `_is_camel_name` and `_is_reference_name`.
pub mod Shape
use linkly.Base.{
  ℕ, ◌≡◌, refl, Bool, true, false, ◌&&◌, List, [], ◌∷◌, ltb, ◌==◌, if◌then◌else◌, all, length,
}
use linkly.Base.Text.{Text, codes, is_lower, is_alnum, is_in}

unfoldable pub is_camel_name : Text → Bool
unfolding is_lower is_alnum
is_camel_name [] = false
is_camel_name (c ∷ s) = is_lower c && all is_alnum (c ∷ s)

-- `c` in front of the first of the parts.
abbrev pub put_front : ℕ → List Text → List Text
put_front c [] = (c ∷ []) ∷ []
put_front c (w ∷ ws) = (c ∷ w) ∷ ws

-- `s.split(sep)` for one character.
unfoldable pub split_on : ℕ → Text → List Text
split_on sep [] = [] ∷ []
split_on sep (c ∷ s) = let rest = split_on sep s in if c == sep then [] ∷ rest else put_front c rest

-- The words of the grammar that are no references.
abbrev pub no_references : List Text
no_references =
    codes "and"
    ∷ codes "to"
    ∷ codes "exists"
    ∷ codes "missing"
    ∷ codes "is-numeric"
    ∷ codes "is-not-numeric"
    ∷ []

unfoldable pub is_reference_name : Text → Bool
unfolding is_in split_on is_camel_name
is_reference_name s =
    if is_in s no_references
    then false
    else let segments = split_on b'.' s in
      if ltb 2 (length segments) then false else all is_camel_name segments

two_segments :
    (is_reference_name (codes "product.stock") ≡ true)
    × (is_reference_name (codes "a.b.c") ≡ false)
    × (is_reference_name (codes "and") ≡ false)
unfolding is_reference_name
two_segments = (refl, refl, refl)
