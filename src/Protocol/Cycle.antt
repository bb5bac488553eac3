-- ===== src/Protocol/Cycle.antt =====
-- impl/lnpl/protocol.py: `_ownership_cycle`. A document stands as its ids with their children, each id
-- once, and the colour of a node beside them. The path of ids is that of the stack, the newest first.
pub mod Colours
pub mod Owned
pub mod Finished
pub mod Acyclic
pub mod Exact
use linkly.Base.{
  ℕ, zero, suc, ◌+◌, ◌≡◌, Bool, true, false, Option, none, some, List, [], ◌∷◌, ◌++◌, if◌then◌else◌,
  length,
}
use linkly.Base.Text.{Text, same_text}
use linkly.Base.Json.{text_lt}

pub data Colour : Type 0 where
  white grey black : Colour

-- A node of `merged` with its entry in `colour`
pub record Mark : Type 0 where
  pub id : Text
  pub colour : Colour
  pub kids : List Text

abbrev pub Shade : Type 0
Shade = Colour × List Text

-- `colour[id]` and `merged[id]`, where `id in merged`
unfoldable pub mark_of : Text → List Mark → Option Shade
unfolding same_text
mark_of id [] = none
mark_of id (m ∷ marks) =
    let rest = mark_of id marks in if same_text m.id id then some (m.colour, m.kids) else rest

-- `colour[id] = c`
unfoldable pub paint : Text → Colour → List Mark → List Mark
unfolding same_text
paint id c [] = []
paint id c (m ∷ marks) =
    let rest = paint id c marks in
    if same_text m.id id then record m { colour = c } ∷ marks else m ∷ rest

-- An entry of the stack: a node and the children that are left.
abbrev pub Frame : Type 0
Frame = Text × List Text

-- What the search returns: a cycle, no cycle with the colours so far, the ValueError of `path.index`, or
-- that the fuel ran out.
pub data Search : Type 0 where
  found : List Text → Search
  searched : List Mark → Search
  no_index stuck : Search

pub data Move : Type 0 where
  go : List Mark → List Frame → Move
  leave : Search → Move

-- `path[path.index(kid):] + [kid]`, from the end of the path
unfoldable pub cycle_up : Text → List Frame → List Text → Search
cycle_up kid [] acc = no_index
cycle_up kid ((id, kids) ∷ stack) acc =
    let more = cycle_up kid stack (id ∷ acc) in if same_text id kid then found (id ∷ acc) else more

abbrev pub visit : Text → Option Shade → List Mark → List Frame → Move
visit kid none marks stack = go marks stack
visit kid (some (grey, kids)) marks stack = leave (cycle_up kid stack (kid ∷ []))
visit kid (some (white, kids)) marks stack = go (paint kid grey marks) ((kid, kids) ∷ stack)
visit kid (some (black, kids)) marks stack = go marks stack

-- What the loops do with the next child of the newest node
abbrev pub advance : List Mark → List Frame → Move
advance marks [] = leave (searched marks)
advance marks ((id, []) ∷ stack) = go (paint id black marks) stack
advance marks ((id, kid ∷ kids) ∷ stack) = visit kid (mark_of kid marks) marks ((id, kids) ∷ stack)

abbrev pub follow : Move → (List Mark → List Frame → Search) → Search
follow (leave s) more = s
follow (go marks stack) more = more marks stack

-- `while stack`, with its inner loop
unfoldable pub walk : ℕ → List Mark → List Frame → Search
unfolding paint mark_of cycle_up
walk zero marks stack = stuck
walk (suc n) marks stack = follow (advance marks stack) (walk n)

-- The turns that the white nodes and their children are good for
abbrev pub owed : Colour → List Text → ℕ
owed white kids = suc (length kids)
owed _ kids = 0

unfoldable pub weight : List Mark → ℕ
weight [] = 0
weight (m ∷ marks) = owed m.colour m.kids + weight marks

abbrev pub from_root : Text → Option Shade → List Mark → Search
from_root root (some (white, kids)) marks =
    walk (suc (weight marks)) (paint root grey marks) ((root, kids) ∷ [])
from_root root _ marks = searched marks

abbrev pub next_root : Search → (List Mark → Search) → Search
next_root (searched marks) more = more marks
next_root s more = s

-- `for root in sorted(merged)`
unfoldable pub search_roots : List Text → List Mark → Search
unfolding walk weight
search_roots [] marks = searched marks
search_roots (root ∷ roots) marks =
    next_root (from_root root (mark_of root marks) marks) (search_roots roots)

-- `sorted(merged)`
unfoldable pub place_id : Text → List Text → List Text
unfolding text_lt
place_id id [] = id ∷ []
place_id id (next ∷ ids) =
    let rest = place_id id ids in if text_lt next id then next ∷ rest else id ∷ next ∷ ids

unfoldable pub sorted_ids : List Mark → List Text
unfolding place_id
sorted_ids [] = []
sorted_ids (m ∷ marks) = place_id m.id (sorted_ids marks)

-- `dict.fromkeys(merged, white)`
unfoldable pub all_white : List (Text × List Text) → List Mark
all_white [] = []
all_white ((id, kids) ∷ merged) = record { id = id; colour = white; kids = kids } ∷ all_white merged

-- What `_ownership_cycle` returns: a list, or nothing where it does not return one.
abbrev pub list_of : Search → Option (List Text)
list_of (found cycle) = some cycle
list_of (searched marks) = some []
list_of no_index = none
list_of stuck = none

-- `_ownership_cycle`
unfoldable pub ownership_cycle : List (Text × List Text) → Option (List Text)
unfolding search_roots sorted_ids all_white
ownership_cycle merged =
    let marks = all_white merged in list_of (search_roots (sorted_ids marks) marks)
