-- ===== src/Parser/Source/Lookups.antt =====
-- impl/lnpl/parser.py: the two dict lookups of `parse` never miss.
use linkly.Base.{◌≡◌, ◌≢◌, Option, none, some, List, [], ◌∷◌, ◌++◌, Bool-cases, inl, inr}
use linkly.Base.Result.{Result, ok, err, chain_returns, chain_raises, Result-cases}
use linkly.Base.Text.{Text}
use linkly.Base.Assoc.{set_key, lookup-set_key}
use linkly.Lexer.Lines.{Line, tokenize}
use linkly.Parser.State.{Body, ParseError}
use linkly.Parser.Body.{finish_body}
use linkly.Parser.Source.{
  Kind, entity, service, workflow, event, capability, refine, Clause, clause_text, given, when,
  expect, Decl, key_error, Parsing, declare_words, open_clause, append_clause, section_line,
  leaves_block, clause_line, with_body, plain_line, content_line, Spec, Source, bare_clause,
  inner_line, kind_of, line_by, parse_line, parse_lines, finish_decls, parse,
}
use linkly.Parser.Source.Keys.{
  HasClause, HasOpen, declare_words-no_miss, open_clause-no_miss, open_clause-HasClause,
}

append_clause-no_miss :
    (d : Decl) (c : Clause) (line : Line)
    → HasClause (some c) d
    → append_clause d c line ≢ err key_error
append_clause-no_miss d c line (ls, found) h = cc (rw found at h)

append_clause-HasClause :
    (d e : Decl) (c : Clause) (line : Line)
    → HasClause (some c) d
    → append_clause d c line ≡ ok e
    → HasClause (some c) e
append_clause-HasClause d e c line (ls, found) h =
    let same : e.clauses ≡ set_key (clause_text c) (ls ++ line ∷ []) d.clauses =
      cc (rw found at h) in
    (ls ++ line ∷ [], rw same (lookup-set_key (clause_text c) (ls ++ line ∷ []) d.clauses))

-- Neither misses, and the declaration keeps its entry.
record IsKept (c : Option Clause) (r : Parsing Decl) : Type 0 where
  no_miss : r ≢ err key_error
  keeps : (e : Decl) → r ≡ ok e → HasClause c e

append_clause-IsKept :
    (d : Decl) (c : Clause) (line : Line)
    → HasClause (some c) d
    → IsKept (some c) (append_clause d c line)
append_clause-IsKept d c line has = record {
  no_miss = append_clause-no_miss d c line has;
  keeps = λ e h. append_clause-HasClause d e c line has h;
}

section_line-IsKept :
    (d : Decl) (c : Clause) (line : Line) (bs : List Spec)
    → HasClause (some c) d
    → IsKept (some c) (section_line d c line bs)
section_line-IsKept d c line [] has = append_clause-IsKept d c line has
section_line-IsKept d c line (b ∷ bs) (ls, found) =
    elim (Bool-cases (leaves_block b.section_indent b.indent line.indent)) [
      | inl leaves ↦ rw leaves (record { no_miss = λ h. cc h; keeps = λ e h. absurd (cc h) })
      | inr stays ↦ rw stays (record {
        no_miss = λ h. cc h;
        keeps = λ e h. let same : e.clauses ≡ d.clauses = cc h in (ls, rw same found);
      })
    ]

clause_line-IsKept :
    (k : Kind) (d : Decl) (c : Clause) (line : Line)
    → HasClause (some c) d
    → IsKept (some c) (clause_line k d c line)
clause_line-IsKept workflow d given line has = section_line-IsKept d given line d.specs has
clause_line-IsKept workflow d when line has = section_line-IsKept d when line d.specs has
clause_line-IsKept workflow d expect line has = section_line-IsKept d expect line d.specs has
clause_line-IsKept workflow d Clause.field line has = append_clause-IsKept d Clause.field line has
clause_line-IsKept workflow d Clause.goal line has = append_clause-IsKept d Clause.goal line has
clause_line-IsKept workflow d Clause.policy line has = append_clause-IsKept d Clause.policy line has
clause_line-IsKept workflow d Clause.security line has =
    append_clause-IsKept d Clause.security line has
clause_line-IsKept workflow d Clause.performance line has =
    append_clause-IsKept d Clause.performance line has
clause_line-IsKept workflow d Clause.database line has =
    append_clause-IsKept d Clause.database line has
clause_line-IsKept workflow d Clause.expose line has = append_clause-IsKept d Clause.expose line has
clause_line-IsKept workflow d Clause.spec line has = append_clause-IsKept d Clause.spec line has
clause_line-IsKept entity d c line has = append_clause-IsKept d c line has
clause_line-IsKept service d c line has = append_clause-IsKept d c line has
clause_line-IsKept event d c line has = append_clause-IsKept d c line has
clause_line-IsKept capability d c line has = append_clause-IsKept d c line has
clause_line-IsKept refine d c line has = append_clause-IsKept d c line has

with_body-no_miss : (d : Decl) (r : Result ParseError Body) → with_body d r ≢ err key_error
with_body-no_miss d (err x) h = cc
with_body-no_miss d (ok b) h = cc

plain_line-no_miss : (k : Kind) (d : Decl) (line : Line) → plain_line k d line ≢ err key_error
plain_line-no_miss workflow d line h = with_body-no_miss d _ h
plain_line-no_miss refine d line h = cc
plain_line-no_miss capability d line h = elim (Bool-cases d.is_http) [
  | inl http ↦ cc (rw http at h)
  | inr other ↦ cc (rw other at h)
]
plain_line-no_miss event d line h = cc
plain_line-no_miss service d line h = cc
plain_line-no_miss entity d line h = cc

content_line-IsKept :
    (d : Decl) (c : Option Clause) (line : Line) → HasClause c d → IsKept c (content_line d c line)
content_line-IsKept d none line has = record {
  no_miss = plain_line-no_miss d.kind d line;
  keeps = λ e h. tt;
}
content_line-IsKept d (some c) line has = clause_line-IsKept d.kind d c line has

inner_line-IsSafe :
    (s : Source) (line : Line) (c : Option Clause) (ds : List Decl)
    → HasOpen s.clause ds
    → (inner_line s line c ds ≢ err key_error)
      × ((t : Source) → inner_line s line c ds ≡ ok t → HasOpen t.clause t.decls)
inner_line-IsSafe s line c [] has = (λ h. cc h, λ t h. absurd (cc h))
inner_line-IsSafe s line (some c) (d ∷ ds) has = (
  λ h. elim (chain_raises (open_clause d c line) _ h) [
    | inl raised ↦ open_clause-no_miss d c line raised
    | inr (e, opened, made) ↦ cc made
  ],
  λ t h.
      let (e, opened, made) = chain_returns (open_clause d c line) _ h in
      let same : t ≡ record { decls = e ∷ ds; clause = some c } = cc made in
      rw same (open_clause-HasClause d e c line opened),
)
inner_line-IsSafe s line none (d ∷ ds) has = (
  λ h. elim (chain_raises (content_line d s.clause line) _ h) [
    | inl raised ↦ (content_line-IsKept d s.clause line has).no_miss raised
    | inr (e, added, made) ↦ cc made
  ],
  λ t h.
      let (e, added, made) = chain_returns (content_line d s.clause line) _ h in
      let same : t ≡ record { decls = e ∷ ds; clause = s.clause } = cc made in
      rw same ((content_line-IsKept d s.clause line has).keeps e added),
)

line_by-IsSafe :
    (s : Source) (line : Line) (k : Option Kind) (toks : List Text)
    → HasOpen s.clause s.decls
    → (line_by s line k toks ≢ err key_error)
      × ((t : Source) → line_by s line k toks ≡ ok t → HasOpen t.clause t.decls)
line_by-IsSafe s line (some k) (w ∷ rest) has = (
  λ h. elim (chain_raises (declare_words k line.lineno rest) _ h) [
    | inl raised ↦ declare_words-no_miss k line.lineno rest raised
    | inr (e, declared, made) ↦ cc made
  ],
  λ t h.
      let (d, declared, made) = chain_returns (declare_words k line.lineno rest) _ h in
      let same : t ≡ record { decls = d ∷ s.decls; clause = none } = cc made in rw same tt,
)
line_by-IsSafe s line (some k) [] has = inner_line-IsSafe s line none s.decls has
line_by-IsSafe s line none toks has = inner_line-IsSafe s line (bare_clause toks) s.decls has

parse_lines-no_miss :
    (s : Source) (lines : List Line)
    → HasOpen s.clause s.decls
    → parse_lines s lines ≢ err key_error
unfolding parse_lines parse_line
parse_lines-no_miss s [] has h = cc
parse_lines-no_miss s (line ∷ lines) has h =
    let safe = line_by-IsSafe s line (kind_of line.tokens) line.tokens has in
    elim (chain_raises (line_by s line (kind_of line.tokens) line.tokens) _ h) [
      | inl raised ↦ safe.0 raised
      | inr (next, first, rest) ↦ parse_lines-no_miss next lines (safe.1 next first) rest
    ]

finish_decls-no_miss : (ds : List Decl) → finish_decls ds ≢ err key_error
unfolding finish_decls
finish_decls-no_miss [] h = cc
finish_decls-no_miss (d ∷ ds) h = elim (chain_raises (finish_decls ds) _ h) [
  | inl raised ↦ finish_decls-no_miss ds raised
  | inr (older, finished, more) ↦ elim (chain_raises (with_body d (finish_body d.body)) _ more) [
    | inl raised ↦ with_body-no_miss d _ raised
    | inr (e, closed, made) ↦ cc made
  ]
]

-- Whatever the source, `parse` raises no KeyError: a clause keyword that a workflow refuses has an
-- owner in CLAUSE_OWNER, and `cur.clauses` has an entry for the clause that is open.
pub parse-no_key_error : (source : Text) → parse source ≢ err key_error
unfolding parse
parse-no_key_error source h = elim (Result-cases (tokenize source)) [
  | inr (e, failed) ↦ cc (rw failed at h)
  | inl (lines, read) ↦
      elim (chain_raises (parse_lines (record { decls = []; clause = none }) lines) _
        (rw read at h)) [
          | inl raised ↦ parse_lines-no_miss _ lines tt raised
          | inr (s, parsed, finished) ↦ finish_decls-no_miss s.decls finished
        ]
]
