-- ===== src/Parser/Source/Heads.antt =====
-- impl/lnpl/parser.py: which declarations `parse` returns.
use linkly.Base.{
  ℕ, ◌≡◌, refl, sym, ◌∙◌, true, false, Option, none, some, List, [], ◌∷◌, ◌++◌, if◌then◌else◌,
  arith, Bool-cases, inl, inr, append_assoc, append-nil,
}
use linkly.Base.Result.{Result, ok, err, chain_returns}
use linkly.Base.Text.{Text}
use linkly.Lexer.Lines.{Line, tokenize}
use linkly.Parser.State.{Body, ParseError}
use linkly.Parser.Body.{finish_body}
use linkly.Parser.Source.{
  Kind, entity, service, workflow, event, capability, refine, Clause, given, when, expect, Decl,
  new_decl, event_on, decl_words, http_decl, is_http_head, declare_words, clause_specs, open_clause,
  append_found, append_clause, section_line, leaves_block, clause_line, with_body, plain_line,
  content_line, Spec, Source, bare_clause, inner_line, kind_of, line_by, parse_line, parse_lines,
  finish_decls, parse,
}

-- The kind, the name and the line of a declaration.
abbrev pub Heading : Type 0
Heading = Kind × Text × ℕ

abbrev pub heading : Decl → Heading
heading d = (d.kind, d.name, d.lineno)

-- The word that names the declaration that a line opens.
abbrev pub name_in : Kind → List Text → Text
name_in k (name ∷ next ∷ rest) = if is_http_head k name then next else name
name_in k (name ∷ []) = name
name_in k [] = []

abbrev pub line_heading : Line → Option Kind → List Text → List Heading
line_heading line (some k) (t ∷ rest) = (k, name_in k rest, line.lineno) ∷ []
line_heading line _ toks = []

-- The headings of the lines that begin with a top-level keyword.
abbrev pub headings : List Line → List Heading
headings [] = []
headings (line ∷ lines) = line_heading line (kind_of line.tokens) line.tokens ++ headings lines

-- The headings of declarations, the oldest first.
abbrev pub decl_headings : List Decl → List Heading
decl_headings [] = []
decl_headings (d ∷ ds) = decl_headings ds ++ heading d ∷ []

event_on-heading : (d e : Decl) (toks : List Text) → event_on d toks ≡ ok e → heading e ≡ heading d
event_on-heading d e [] h = cc
event_on-heading d e (t ∷ []) h = ground arith
event_on-heading d e (t ∷ u ∷ []) h = ground arith
event_on-heading d e (t ∷ u ∷ a ∷ []) h = ground arith
event_on-heading d e (t ∷ u ∷ a ∷ b ∷ []) h = ground arith
event_on-heading d e (t ∷ u ∷ a ∷ b ∷ c ∷ []) h = ground arith
event_on-heading d e (t ∷ u ∷ a ∷ b ∷ c ∷ f ∷ rest) h = ground arith

decl_words-heading :
    (k : Kind) (d e : Decl) (toks : List Text) → decl_words k d toks ≡ ok e → heading e ≡ heading d
decl_words-heading event d e [] h = cc
decl_words-heading event d e (t ∷ rest) h = event_on-heading d e rest (ground arith)
decl_words-heading capability d e [] h = cc
decl_words-heading capability d e (v ∷ rest) h = cc
decl_words-heading refine d e [] h = cc
decl_words-heading refine d e (t ∷ []) h = cc
decl_words-heading refine d e (t ∷ b ∷ []) h = ground arith
decl_words-heading refine d e (t ∷ b ∷ c ∷ rest) h = cc
decl_words-heading entity d e [] h = cc
decl_words-heading entity d e (t ∷ rest) h = cc
decl_words-heading service d e [] h = cc
decl_words-heading service d e (t ∷ rest) h = cc
decl_words-heading workflow d e [] h = cc
decl_words-heading workflow d e (t ∷ rest) h = cc

is_http_head-capability : (k : Kind) (t : Text) → is_http_head k t ≡ true → k ≡ capability
is_http_head-capability capability t h = refl
is_http_head-capability entity t h = cc
is_http_head-capability service t h = cc
is_http_head-capability workflow t h = cc
is_http_head-capability event t h = cc
is_http_head-capability refine t h = cc

declare_words-heading :
    (k : Kind) (n : ℕ) (toks : List Text) (e : Decl)
    → declare_words k n toks ≡ ok e
    → heading e ≡ (k, name_in k toks, n)
declare_words-heading k n [] e h = cc
declare_words-heading k n (name ∷ rest) e h = elim (Bool-cases (is_http_head k name)) [
  | inl http ↦ http_case rest http (rw http at h)
  | inr plain ↦ plain_case rest plain (rw plain at h)
]
  where
    http_case :
        (ws : List Text)
        → is_http_head k name ≡ true
        → http_decl n ws ≡ ok e
        → heading e ≡ (k, name_in k (name ∷ ws), n)
    http_case [] http h = cc
    http_case (w ∷ []) http h = rw (http, is_http_head-capability k name http) (cc)
    http_case (w ∷ v ∷ ws) http h = cc

    plain_case :
        (ws : List Text)
        → is_http_head k name ≡ false
        → decl_words k (new_decl k name n) ws ≡ ok e
        → heading e ≡ (k, name_in k (name ∷ ws), n)
    plain_case [] plain h = decl_words-heading k (new_decl k name n) e [] h
    plain_case (w ∷ ws) plain h = rw plain (decl_words-heading k (new_decl k name n) e (w ∷ ws) h)

append_found-heading :
    (d e : Decl) (c : Clause) (line : Line) (o : Option (List Line))
    → append_found d c line o ≡ ok e
    → heading e ≡ heading d
append_found-heading d e c line none h = cc
append_found-heading d e c line (some ls) h = cc

append_clause-heading :
    (d e : Decl) (c : Clause) (line : Line) → append_clause d c line ≡ ok e → heading e ≡ heading d
append_clause-heading d e c line h = append_found-heading d e c line _ h

section_line-heading :
    (d e : Decl) (c : Clause) (line : Line) (bs : List Spec)
    → section_line d c line bs ≡ ok e
    → heading e ≡ heading d
section_line-heading d e c line [] h = append_clause-heading d e c line h
section_line-heading d e c line (b ∷ bs) h =
    elim (Bool-cases (leaves_block b.section_indent b.indent line.indent)) [
      | inl leaves ↦ absurd (cc (rw leaves at h))
      | inr stays ↦ cc (rw stays at h)
    ]

clause_line-heading :
    (k : Kind) (d e : Decl) (c : Clause) (line : Line)
    → clause_line k d c line ≡ ok e
    → heading e ≡ heading d
clause_line-heading workflow d e given line h = section_line-heading d e given line d.specs h
clause_line-heading workflow d e when line h = section_line-heading d e when line d.specs h
clause_line-heading workflow d e expect line h = section_line-heading d e expect line d.specs h
clause_line-heading workflow d e Clause.field line h = append_clause-heading d e Clause.field line h
clause_line-heading workflow d e Clause.goal line h = append_clause-heading d e Clause.goal line h
clause_line-heading workflow d e Clause.policy line h =
    append_clause-heading d e Clause.policy line h
clause_line-heading workflow d e Clause.security line h =
    append_clause-heading d e Clause.security line h
clause_line-heading workflow d e Clause.performance line h =
    append_clause-heading d e Clause.performance line h
clause_line-heading workflow d e Clause.database line h =
    append_clause-heading d e Clause.database line h
clause_line-heading workflow d e Clause.expose line h =
    append_clause-heading d e Clause.expose line h
clause_line-heading workflow d e Clause.spec line h = append_clause-heading d e Clause.spec line h
clause_line-heading entity d e c line h = append_clause-heading d e c line h
clause_line-heading service d e c line h = append_clause-heading d e c line h
clause_line-heading event d e c line h = append_clause-heading d e c line h
clause_line-heading capability d e c line h = append_clause-heading d e c line h
clause_line-heading refine d e c line h = append_clause-heading d e c line h

with_body-heading :
    (d e : Decl) (r : Result ParseError Body) → with_body d r ≡ ok e → heading e ≡ heading d
with_body-heading d e (err x) h = cc
with_body-heading d e (ok b) h = cc

plain_line-heading :
    (k : Kind) (d e : Decl) (line : Line) → plain_line k d line ≡ ok e → heading e ≡ heading d
plain_line-heading workflow d e line h = with_body-heading d e _ h
plain_line-heading refine d e line h = cc
plain_line-heading capability d e line h = elim (Bool-cases d.is_http) [
  | inl http ↦ cc (rw http at h)
  | inr other ↦ absurd (cc (rw other at h))
]
plain_line-heading event d e line h = cc
plain_line-heading service d e line h = cc
plain_line-heading entity d e line h = cc

content_line-heading :
    (d e : Decl) (c : Option Clause) (line : Line)
    → content_line d c line ≡ ok e
    → heading e ≡ heading d
content_line-heading d e none line h = plain_line-heading d.kind d e line h
content_line-heading d e (some c) line h = clause_line-heading d.kind d e c line h

open_clause-heading :
    (d e : Decl) (c : Clause) (line : Line) → open_clause d c line ≡ ok e → heading e ≡ heading d
unfolding open_clause
open_clause-heading d e c line h =
    let (bs, checked, made) = chain_returns (clause_specs d.kind c line d.specs) _ h in cc made

inner_line-headings :
    (s t : Source) (line : Line) (c : Option Clause) (ds : List Decl)
    → inner_line s line c ds ≡ ok t
    → decl_headings t.decls ≡ decl_headings ds
inner_line-headings s t line c [] h = cc
inner_line-headings s t line (some c) (d ∷ ds) h =
    let (e, opened, made) = chain_returns (open_clause d c line) _ h in
    let same : t.decls ≡ e ∷ ds = cc made in rw (same, open_clause-heading d e c line opened) refl
inner_line-headings s t line none (d ∷ ds) h =
    let (e, added, made) = chain_returns (content_line d s.clause line) _ h in
    let same : t.decls ≡ e ∷ ds = cc made in
    rw (same, content_line-heading d e s.clause line added) refl

line_by-headings :
    (s t : Source) (line : Line) (k : Option Kind) (toks : List Text)
    → line_by s line k toks ≡ ok t
    → decl_headings t.decls ≡ decl_headings s.decls ++ line_heading line k toks
line_by-headings s t line (some k) (w ∷ rest) h =
    let (d, declared, made) = chain_returns (declare_words k line.lineno rest) _ h in
    let same : t.decls ≡ d ∷ s.decls = cc made in
    rw (same, declare_words-heading k line.lineno rest d declared) refl
line_by-headings s t line (some k) [] h =
    inner_line-headings s t line none s.decls h ∙ sym (append-nil (decl_headings s.decls))
line_by-headings s t line none toks h =
    inner_line-headings s t line (bare_clause toks) s.decls h
    ∙ sym (append-nil (decl_headings s.decls))

parse_lines-headings :
    (s t : Source) (lines : List Line)
    → parse_lines s lines ≡ ok t
    → decl_headings t.decls ≡ decl_headings s.decls ++ headings lines
unfolding parse_lines parse_line
parse_lines-headings s t [] h =
    let same : t ≡ s = cc in rw same (sym (append-nil (decl_headings s.decls)))
parse_lines-headings s t (line ∷ lines) h =
    let (next, first, rest) =
      chain_returns (line_by s line (kind_of line.tokens) line.tokens) _ h in
    parse_lines-headings next t lines rest
    ∙ rw (line_by-headings s next line (kind_of line.tokens) line.tokens first)
        (append_assoc (decl_headings s.decls) _ (headings lines))

finish_decls-headings :
    (ds es : List Decl) → finish_decls ds ≡ ok es → decl_headings es ≡ decl_headings ds
unfolding finish_decls
finish_decls-headings [] es h = let same : es ≡ [] = cc in rw same refl
finish_decls-headings (d ∷ ds) es h =
    let (older, finished, more) = chain_returns (finish_decls ds) _ h in
    let (e, closed, made) = chain_returns (with_body d (finish_body d.body)) _ more in
    let same : es ≡ e ∷ older = cc made in
    rw (same, finish_decls-headings ds older finished, with_body-heading d e _ closed) refl

-- `parse` returns a declaration for each line that begins with a top-level keyword, in the order of
-- the source, with the kind, the name and the number of that line, and no other declaration.
pub parse-headings :
    (source : Text) (lines : List Line) (ds : List Decl)
    → tokenize source ≡ ok lines
    → parse source ≡ ok ds
    → decl_headings ds ≡ headings lines
unfolding parse
parse-headings source lines ds read h =
    let (s, parsed, finished) = chain_returns (parse_lines _ lines) _ (rw read at h) in
    finish_decls-headings s.decls ds finished ∙ parse_lines-headings _ s lines parsed
