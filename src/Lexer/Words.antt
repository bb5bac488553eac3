-- ===== src/Lexer/Words.antt =====
-- impl/lnpl/lexer.py: the closed word tables of the language, each as an enumeration or a list.
use linkly.Base.{ℕ, ◌-◌, ◌^◌, Option, none, some, List, [], ◌∷◌, if◌then◌else◌}
use linkly.Base.Text.{Text, codes, same_text}

-- RESERVED
abbrev pub reserved : List Text
reserved = codes "if" ∷ codes "for" ∷ codes "while" ∷ codes "switch" ∷ []

-- INT64_MAX
abbrev pub int64_max : ℕ
int64_max = 2 ^ 63 - 1

-- COMPARATORS
pub data Comparator : Type 0 where
  le ge eq ne lt gt : Comparator

abbrev pub comparator_text : Comparator → Text
comparator_text Comparator.le = codes "<="
comparator_text Comparator.ge = codes ">="
comparator_text Comparator.eq = codes "=="
comparator_text Comparator.ne = codes "!="
comparator_text Comparator.lt = codes "<"
comparator_text Comparator.gt = codes ">"

-- The comparator that a token is, if it is one.
unfoldable pub comparator? : Text → Option Comparator
unfolding same_text
comparator? t =
    if same_text t (codes "<=")
    then some Comparator.le
    else if same_text t (codes ">=")
    then some Comparator.ge
    else if same_text t (codes "==")
    then some Comparator.eq
    else if same_text t (codes "!=")
    then some Comparator.ne
    else if same_text t (codes "<")
    then some Comparator.lt
    else if same_text t (codes ">")
    then some Comparator.gt
    else none

-- ARITH_OPS
pub data ArithOp : Type 0 where
  add sub mul div : ArithOp

abbrev pub arith_text : ArithOp → Text
arith_text ArithOp.add = codes "+"
arith_text ArithOp.sub = codes "-"
arith_text ArithOp.mul = codes "*"
arith_text ArithOp.div = codes "/"

unfoldable pub arith_op? : Text → Option ArithOp
unfolding same_text
arith_op? t =
    if same_text t (codes "+")
    then some ArithOp.add
    else if same_text t (codes "-")
    then some ArithOp.sub
    else if same_text t (codes "*")
    then some ArithOp.mul
    else if same_text t (codes "/")
    then some ArithOp.div
    else none

-- PRESENCE_KINDS
pub data PresenceKind : Type 0 where
  exists missing : PresenceKind

abbrev pub presence_text : PresenceKind → Text
presence_text PresenceKind.exists = codes "exists"
presence_text PresenceKind.missing = codes "missing"

unfoldable pub presence_kind? : Text → Option PresenceKind
unfolding same_text
presence_kind? t =
    if same_text t (codes "exists")
    then some PresenceKind.exists
    else if same_text t (codes "missing")
    then some PresenceKind.missing
    else none

-- NUMERIC_PREDICATE_KINDS
pub data NumericKind : Type 0 where
  is_numeric is_not_numeric : NumericKind

abbrev pub numeric_text : NumericKind → Text
numeric_text NumericKind.is_numeric = codes "is-numeric"
numeric_text NumericKind.is_not_numeric = codes "is-not-numeric"

unfoldable pub numeric_kind? : Text → Option NumericKind
unfolding same_text
numeric_kind? t =
    if same_text t (codes "is-numeric")
    then some NumericKind.is_numeric
    else if same_text t (codes "is-not-numeric")
    then some NumericKind.is_not_numeric
    else none

-- AGG_FUNCS
pub data AggFunc : Type 0 where
  sum count avg min max : AggFunc

abbrev pub agg_text : AggFunc → Text
agg_text AggFunc.sum = codes "sum"
agg_text AggFunc.count = codes "count"
agg_text AggFunc.avg = codes "avg"
agg_text AggFunc.min = codes "min"
agg_text AggFunc.max = codes "max"

unfoldable pub agg_func? : Text → Option AggFunc
unfolding same_text
agg_func? t =
    if same_text t (codes "sum")
    then some AggFunc.sum
    else if same_text t (codes "count")
    then some AggFunc.count
    else if same_text t (codes "avg")
    then some AggFunc.avg
    else if same_text t (codes "min")
    then some AggFunc.min
    else if same_text t (codes "max")
    then some AggFunc.max
    else none
