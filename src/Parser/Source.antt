-- ===== src/Parser/Source.antt =====
-- impl/lnpl/parser.py: `parse`, its declarations, clauses and `spec` blocks.
mod Declare
unfoldable pub use Declare.*
pub mod Heads
pub mod Keys
pub mod Lookups
use linkly.Base.{
  ℕ, ◌≡◌, Bool, true, false, ◌&&◌, not, Option, none, some, List, [], ◌∷◌, ◌++◌, ltb, leb, ◌==◌,
  if◌then◌else◌, length, map,
}
use linkly.Base.Result.{Result, ok, err, ◌>>=◌}
use linkly.Base.Text.{Text, codes, same_text, is_in}
use linkly.Base.Assoc.{Assoc, lookup, set_key, set_default}
use linkly.Lexer.Lines.{Line, LexError, tokenize}
use linkly.Parser.State.{Body, ParseError, empty_body}
use linkly.Parser.Body.{append_workflow_item, finish_body}

-- The checks on a clause that opens in a workflow, and its effect on the blocks.
abbrev pub section_in : Clause → Line → List Spec → Parsing (List Spec)
section_in c line [] = err section_without_spec
section_in c line (b ∷ bs) =
    if is_in (clause_text c) (map clause_text b.opened)
    then err second_section
    else ok (record b { opened = c ∷ b.opened; section_indent = some line.indent } ∷ bs)

abbrev pub new_spec : Line → Spec
new_spec line = record {
  given_lines = [];
  when_lines = [];
  expect_lines = [];
  lineno = line.lineno;
  opened = [];
  indent = line.indent;
  section_indent = none;
}

abbrev pub owned : Option Kind → SourceError
owned none = key_error
owned (some k) = clause_owned_by k

abbrev pub workflow_specs : Clause → Line → List Spec → Parsing (List Spec)
workflow_specs spec line bs = ok (new_spec line ∷ bs)
workflow_specs c line bs =
    if is_workflow_clause c then section_in c line bs else err (owned (clause_owner c))

-- What a bare clause keyword does to the blocks, or why it may not stand in the declaration.
unfoldable pub clause_specs : Kind → Clause → Line → List Spec → Parsing (List Spec)
clause_specs entity field line bs = ok bs
clause_specs entity _ line bs = err entity_clause
clause_specs service c line bs = if is_service_clause c then ok bs else err service_clause
clause_specs workflow c line bs = workflow_specs c line bs
clause_specs _ c line bs = err no_clauses

-- `cur.clauses.setdefault(head, [])`, the blocks done.
unfoldable pub open_clause : Decl → Clause → Line → Parsing Decl
open_clause d c line = do
  bs ← clause_specs d.kind c line d.specs
  ok (record d { specs = bs; clauses = set_default (clause_text c) [] d.clauses })

-- `cur.clauses[cur_clause].append(line)`
abbrev pub append_found : Decl → Clause → Line → Option (List Line) → Parsing Decl
append_found d c line none = err key_error
append_found d c line (some ls) =
    ok (record d { clauses = set_key (clause_text c) (ls ++ line ∷ []) d.clauses })

abbrev pub append_clause : Decl → Clause → Line → Parsing Decl
append_clause d c line = append_found d c line (lookup (clause_text c) d.clauses)

-- A line inside the newest block of a workflow.
abbrev pub add_section : Spec → Clause → Line → Spec
add_section b given line = record b { given_lines = b.given_lines ++ line ∷ [] }
add_section b when line = record b { when_lines = b.when_lines ++ line ∷ [] }
add_section b _ line = record b { expect_lines = b.expect_lines ++ line ∷ [] }

abbrev pub leaves_block : Option ℕ → ℕ → ℕ → Bool
leaves_block none indent column = false
leaves_block (some section) indent column = ltb indent section && leb column indent

abbrev pub section_line : Decl → Clause → Line → List Spec → Parsing Decl
section_line d c line [] = append_clause d c line
section_line d c line (b ∷ bs) =
    if leaves_block b.section_indent b.indent line.indent
    then err step_after_spec
    else ok (record d { specs = add_section b c line ∷ bs })

-- A content line under a clause.
abbrev pub clause_line : Kind → Decl → Clause → Line → Parsing Decl
clause_line workflow d given line = section_line d given line d.specs
clause_line workflow d when line = section_line d when line d.specs
clause_line workflow d expect line = section_line d expect line d.specs
clause_line k d c line = append_clause d c line

-- A content line without a clause.
abbrev pub with_body : Decl → Result ParseError Body → Parsing Decl
with_body d (err e) = err (in_body e)
with_body d (ok b) = ok (record d { body = b })

abbrev pub add_line : Decl → Line → Decl
add_line d line = record d { lines = d.lines ++ line ∷ [] }

abbrev pub plain_line : Kind → Decl → Line → Parsing Decl
plain_line workflow d line = with_body d (append_workflow_item d.body line)
plain_line refine d line = ok (add_line d line)
plain_line capability d line = if d.is_http then ok (add_line d line) else err outside_clause
plain_line event d line = ok (add_line d line)
plain_line service d line = err outside_service_clause
plain_line entity d line = err outside_entity_clause

abbrev pub content_line : Decl → Option Clause → Line → Parsing Decl
content_line d none line = plain_line d.kind d line
content_line d (some c) line = clause_line d.kind d c line

-- The declarations, the newest first, and `cur_clause`. The newest is `cur`.
pub record Source : Type 0 where
  pub decls : List Decl
  pub clause : Option Clause

abbrev pub bare_clause : List Text → Option Clause
bare_clause (t ∷ []) = clause? t
bare_clause _ = none

abbrev pub inner_line : Source → Line → Option Clause → List Decl → Parsing Source
inner_line s line c [] = err before_declaration
inner_line s line (some c) (d ∷ ds) = do
  next ← open_clause d c line
  ok (record { decls = next ∷ ds; clause = some c })
inner_line s line none (d ∷ ds) = do
  next ← content_line d s.clause line
  ok (record { decls = next ∷ ds; clause = s.clause })

-- One turn of the loop of `parse`.
abbrev pub kind_of : List Text → Option Kind
kind_of [] = none
kind_of (t ∷ rest) = kind? t

abbrev pub line_by : Source → Line → Option Kind → List Text → Parsing Source
line_by s line (some k) (t ∷ rest) = do
  d ← declare_words k line.lineno rest
  ok (record { decls = d ∷ s.decls; clause = none })
line_by s line _ toks = inner_line s line (bare_clause toks) s.decls

unfoldable pub parse_line : Source → Line → Parsing Source
parse_line s line = line_by s line (kind_of line.tokens) line.tokens

unfoldable pub parse_lines : Source → List Line → Parsing Source
parse_lines s [] = ok s
parse_lines s (line ∷ lines) = do next ← parse_line s line; parse_lines next lines

-- The loop at the end, from the first declaration on: the body of each, and its blocks' scratch
-- entries, which no later code reads.
unfoldable pub finish_decls : List Decl → Parsing (List Decl)
finish_decls [] = ok []
finish_decls (d ∷ ds) = do
  older ← finish_decls ds
  done ← with_body d (finish_body d.body)
  ok (done ∷ older)

-- `parse`, the newest declaration first
abbrev pub parse_tokenized : Result LexError (List Line) → Parsing (List Decl)
parse_tokenized (err e) = err (in_lexer e)
parse_tokenized (ok lines) = do
  s ← parse_lines (record { decls = []; clause = none }) lines
  finish_decls s.decls

unfoldable pub parse : Text → Parsing (List Decl)
parse source = parse_tokenized (tokenize source)
