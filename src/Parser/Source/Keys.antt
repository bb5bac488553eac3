-- ===== src/Parser/Source/Keys.antt =====
-- impl/lnpl/parser.py: opening a declaration or a clause misses no key.
use linkly.Base.{ℕ, ◌≡◌, ◌≢◌, Option, none, some, List, [], ◌∷◌, map, arith, Bool-cases, inl, inr}
use linkly.Base.Result.{ok, err, chain_returns, chain_raises}
use linkly.Base.Text.{Text, codes, same_text, is_in}
use linkly.Base.Assoc.{lookup, set_default, lookup-default}
use linkly.Lexer.Lines.{Line}
use linkly.Parser.Source.{
  Kind, entity, service, workflow, event, capability, refine, Clause, clause_text, given, when,
  expect, Decl, key_error, event_on, decl_words, http_decl, is_http_head, declare_words, section_in,
  workflow_specs, clause_specs, open_clause, Spec,
}

-- The declaration has an entry for the clause that is open.
abbrev pub HasClause : Option Clause → Decl → Type 0
HasClause none d = Unit
HasClause (some c) d = (ls : List Line) × (lookup (clause_text c) d.clauses ≡ some ls)

abbrev pub HasOpen : Option Clause → List Decl → Type 0
HasOpen c [] = Unit
HasOpen c (d ∷ ds) = HasClause c d

event_on-no_miss : (d : Decl) (toks : List Text) → event_on d toks ≢ err key_error
event_on-no_miss d [] h = cc
event_on-no_miss d (t ∷ []) h = ground arith
event_on-no_miss d (t ∷ u ∷ []) h = ground arith
event_on-no_miss d (t ∷ u ∷ a ∷ []) h = ground arith
event_on-no_miss d (t ∷ u ∷ a ∷ b ∷ []) h = ground arith
event_on-no_miss d (t ∷ u ∷ a ∷ b ∷ c ∷ []) h = ground arith
event_on-no_miss d (t ∷ u ∷ a ∷ b ∷ c ∷ f ∷ rest) h = ground arith

decl_words-no_miss : (k : Kind) (d : Decl) (toks : List Text) → decl_words k d toks ≢ err key_error
decl_words-no_miss event d [] h = cc
decl_words-no_miss event d (t ∷ rest) h = elim (Bool-cases (same_text t (codes "on"))) [
  | inl on ↦ event_on-no_miss d rest (rw on at h)
  | inr other ↦ cc (rw other at h)
]
decl_words-no_miss capability d [] h = cc
decl_words-no_miss capability d (v ∷ rest) h = cc
decl_words-no_miss refine d [] h = cc
decl_words-no_miss refine d (t ∷ []) h = cc
decl_words-no_miss refine d (t ∷ b ∷ []) h = ground arith
decl_words-no_miss refine d (t ∷ b ∷ c ∷ rest) h = cc
decl_words-no_miss entity d [] h = cc
decl_words-no_miss entity d (t ∷ rest) h = cc
decl_words-no_miss service d [] h = cc
decl_words-no_miss service d (t ∷ rest) h = cc
decl_words-no_miss workflow d [] h = cc
decl_words-no_miss workflow d (t ∷ rest) h = cc

http_decl-no_miss : (n : ℕ) (toks : List Text) → http_decl n toks ≢ err key_error
http_decl-no_miss n [] h = cc
http_decl-no_miss n (t ∷ []) h = cc
http_decl-no_miss n (t ∷ u ∷ rest) h = cc

pub declare_words-no_miss :
    (k : Kind) (n : ℕ) (toks : List Text) → declare_words k n toks ≢ err key_error
declare_words-no_miss k n [] h = cc
declare_words-no_miss k n (name ∷ rest) h = elim (Bool-cases (is_http_head k name)) [
  | inl http ↦ http_decl-no_miss n rest (rw http at h)
  | inr plain ↦ decl_words-no_miss k _ rest (rw plain at h)
]

section_in-no_miss :
    (c : Clause) (line : Line) (bs : List Spec) → section_in c line bs ≢ err key_error
section_in-no_miss c line [] h = cc
section_in-no_miss c line (b ∷ bs) h =
    elim (Bool-cases (is_in (clause_text c) (map clause_text b.opened))) [
      | inl second ↦ cc (rw second at h)
      | inr first ↦ cc (rw first at h)
    ]

workflow_specs-no_miss :
    (c : Clause) (line : Line) (bs : List Spec) → workflow_specs c line bs ≢ err key_error
workflow_specs-no_miss Clause.field line bs h = cc
workflow_specs-no_miss Clause.goal line bs h = cc
workflow_specs-no_miss Clause.policy line bs h = cc
workflow_specs-no_miss Clause.security line bs h = cc
workflow_specs-no_miss Clause.performance line bs h = cc
workflow_specs-no_miss Clause.database line bs h = cc
workflow_specs-no_miss Clause.expose line bs h = cc
workflow_specs-no_miss Clause.spec line bs h = cc
workflow_specs-no_miss given line bs h = section_in-no_miss given line bs h
workflow_specs-no_miss when line bs h = section_in-no_miss when line bs h
workflow_specs-no_miss expect line bs h = section_in-no_miss expect line bs h

entity_specs-no_miss :
    (c : Clause) (line : Line) (bs : List Spec) → clause_specs entity c line bs ≢ err key_error
unfolding clause_specs
entity_specs-no_miss Clause.field line bs h = cc
entity_specs-no_miss Clause.goal line bs h = cc
entity_specs-no_miss Clause.policy line bs h = cc
entity_specs-no_miss Clause.security line bs h = cc
entity_specs-no_miss Clause.performance line bs h = cc
entity_specs-no_miss Clause.database line bs h = cc
entity_specs-no_miss Clause.expose line bs h = cc
entity_specs-no_miss Clause.spec line bs h = cc
entity_specs-no_miss given line bs h = cc
entity_specs-no_miss when line bs h = cc
entity_specs-no_miss expect line bs h = cc

clause_specs-no_miss :
    (k : Kind) (c : Clause) (line : Line) (bs : List Spec)
    → clause_specs k c line bs ≢ err key_error
unfolding clause_specs
clause_specs-no_miss entity c line bs h = entity_specs-no_miss c line bs h
clause_specs-no_miss service c line bs h = ground arith
clause_specs-no_miss workflow c line bs h = workflow_specs-no_miss c line bs h
clause_specs-no_miss event c line bs h = cc
clause_specs-no_miss capability c line bs h = cc
clause_specs-no_miss refine c line bs h = cc

pub open_clause-no_miss :
    (d : Decl) (c : Clause) (line : Line) → open_clause d c line ≢ err key_error
unfolding open_clause
open_clause-no_miss d c line h = elim (chain_raises (clause_specs d.kind c line d.specs) _ h) [
  | inl raised ↦ clause_specs-no_miss d.kind c line d.specs raised
  | inr (bs, checked, made) ↦ cc made
]

pub open_clause-HasClause :
    (d e : Decl) (c : Clause) (line : Line) → open_clause d c line ≡ ok e → HasClause (some c) e
unfolding open_clause
open_clause-HasClause d e c line h =
    let (bs, checked, made) = chain_returns (clause_specs d.kind c line d.specs) _ h in
    let same : e.clauses ≡ set_default (clause_text c) [] d.clauses = cc made in
    let (ls, found) = lookup-default (clause_text c) [] d.clauses in (ls, rw same found)
