-- ===== src/Base/Text.antt =====
-- Text as the list of its code points, and what the program uses of Python's `str`, for ASCII text.
use Prim.Native.Nat.{ℕ, ◌+◌, ◌-◌, ◌*◌}
use Prim.Native.Char.{code}
use Prim.Native.String.{String}
use mathlib.Core.Path.{◌≡◌, refl, ap₂}
use mathlib.Core.Bool.{Bool, true, false, ◌&&◌, ◌||◌}
use mathlib.Core.Option.{Option, none, some}
use mathlib.Core.Option
use mathlib.Core.List.{List, [], ◌∷◌, ◌++◌}
use native.Mathlib.Omega.{arith}
use linkly.Base.Tests.{leb, ◌==◌, if◌then◌else◌, &&_left, &&_right, ==_iff}
use linkly.Base.Lists.{all}

abbrev pub Text : Type 0
Text = List ℕ

-- A literal of the source as text.
abbrev pub codes : String → Text
codes String.[] = []
codes (String.◌∷◌ c s) = code c ∷ codes s

-- `s == t`
unfoldable pub same_text : Text → Text → Bool
same_text [] [] = true
same_text [] (d ∷ t) = false
same_text (c ∷ s) [] = false
same_text (c ∷ s) (d ∷ t) = c == d && same_text s t

-- `s in words`
unfoldable pub is_in : Text → List Text → Bool
unfolding same_text
is_in s [] = false
is_in s (w ∷ ws) = same_text s w || is_in s ws

unfoldable pub is_digit : ℕ → Bool
is_digit c = leb 48 c && leb c 57

unfoldable pub is_lower : ℕ → Bool
is_lower c = leb 97 c && leb c 122

unfoldable pub is_upper : ℕ → Bool
is_upper c = leb 65 c && leb c 90

unfoldable pub is_alnum : ℕ → Bool
unfolding is_digit is_lower is_upper
is_alnum c = is_digit c || is_lower c || is_upper c

-- What `str.split` and `str.strip` take for white space.
unfoldable pub is_space : ℕ → Bool
is_space c = (leb 9 c && leb c 13) || (leb 28 c && leb c 32)

-- `s.isdigit()`
unfoldable pub all_digits : Text → Bool
unfolding is_digit
all_digits [] = false
all_digits (c ∷ s) = is_digit c && all is_digit s

-- The value of the digits `s` behind the digits that `n` stands for.
unfoldable pub int_from : ℕ → Text → ℕ
int_from n [] = n
int_from n (c ∷ s) = int_from (n * 10 + (c - 48)) s

-- `int(s)` where `s.isdigit()`
abbrev pub int_of : Text → ℕ
int_of s = int_from 0 s

-- `s.endswith(u)`, and then `s[:-len(u)]`, the part before it.
unfoldable pub cut_suffix : Text → Text → Option Text
unfolding same_text
cut_suffix u [] = if same_text [] u then some [] else none
cut_suffix u (c ∷ s) =
    let rest = Option.map (λ (h : Text). c ∷ h) (cut_suffix u s) in
    if same_text (c ∷ s) u then some [] else rest

-- The text without the white space in front.
unfoldable pub trim_front : Text → Text
trim_front [] = []
trim_front (c ∷ s) = let rest = trim_front s in if is_space c then rest else c ∷ s

-- The text without the white space at the end.
unfoldable pub trim_end : Text → Text
trim_end [] = []
trim_end (c ∷ s) = elim (trim_end s) [ [] ↦ if is_space c then [] else c ∷ [] | d ∷ t ↦ c ∷ d ∷ t ]

-- A sign in front, if there is one: is it a minus, and the rest.
unfoldable pub read_sign : Text → Bool × Text
read_sign [] = (false, [])
read_sign (c ∷ s) =
    if c == b'-' then (true, s) else if c == b'+' then (false, s) else (false, c ∷ s)

-- The digits of a text where `_` may stand between two of them; `last` tells if the last was a digit.
unfoldable pub grouped_digits : Bool → Text → Option Text
unfolding is_digit
grouped_digits last [] = if last then some [] else none
grouped_digits last (c ∷ s) =
    let more = Option.map (λ (t : Text). c ∷ t) (grouped_digits true s) in
    let behind = grouped_digits false s in
    if is_digit c then more else if c == 95 && last then behind else none

pub same_text_refl : (s : Text) → same_text s s ≡ true
unfolding same_text
same_text_refl [] = refl
same_text_refl (c ∷ s) = ground (arith, same_text_refl s)

pub same_text→eq : (s t : Text) → same_text s t ≡ true → s ≡ t
unfolding same_text
same_text→eq [] [] h = refl
same_text→eq [] (d ∷ t) h = cc
same_text→eq (c ∷ s) [] h = cc
same_text→eq (c ∷ s) (d ∷ t) h =
    ap₂ ◌∷◌ ((==_iff c d).0 (&&_left (c == d) (same_text s t) h))
      (same_text→eq s t (&&_right (c == d) (same_text s t) h))

-- A last character is cut off again.
pub cut_suffix-last : (q : ℕ) (t : Text) → cut_suffix (q ∷ []) (t ++ q ∷ []) ≡ some t
unfolding cut_suffix
cut_suffix-last q [] = rw (same_text_refl (q ∷ []))
cut_suffix-last q (c ∷ t) = rw (longer q t) (ground (arith, cut_suffix-last q t))
  where
    longer : (q : ℕ) (t : Text) → same_text (t ++ q ∷ []) [] ≡ false
    longer q [] = refl
    longer q (d ∷ t) = refl
