-- ===== src/Parser/Source/Declare.antt =====
-- impl/lnpl/parser.py: the keywords, `Decl`, and the lines that open a declaration.
use linkly.Base.{ℕ, Bool, true, false, Option, none, some, List, [], ◌∷◌, if◌then◌else◌}
use linkly.Base.Result.{Result, ok, err}
use linkly.Base.Text.{Text, codes, same_text, is_in}
use linkly.Base.Assoc.{Assoc}
use linkly.Lexer.Lines.{Line, LexError}
use linkly.Parser.State.{Body, ParseError, empty_body}

-- KEYWORDS_TOP
pub data Kind : Type 0 where
  entity service workflow event capability refine : Kind

unfoldable pub kind? : Text → Option Kind
kind? t =
    if same_text t (codes "entity")
    then some entity
    else if same_text t (codes "service")
    then some service
    else if same_text t (codes "workflow")
    then some workflow
    else if same_text t (codes "event")
    then some event
    else if same_text t (codes "capability")
    then some capability
    else if same_text t (codes "refine")
    then some refine
    else none

-- KEYWORDS_CLAUSE
pub data Clause : Type 0 where
  field goal policy security performance database expose spec given when expect : Clause

abbrev pub clause_text : Clause → Text
clause_text field = codes "field"
clause_text goal = codes "goal"
clause_text policy = codes "policy"
clause_text security = codes "security"
clause_text performance = codes "performance"
clause_text database = codes "database"
clause_text expose = codes "expose"
clause_text spec = codes "spec"
clause_text given = codes "given"
clause_text when = codes "when"
clause_text expect = codes "expect"

abbrev pub clause_in : List Clause → Text → Option Clause
clause_in [] t = none
clause_in (c ∷ cs) t =
    let rest = clause_in cs t in if same_text t (clause_text c) then some c else rest

unfoldable pub clause? : Text → Option Clause
clause? t =
    clause_in
      (field ∷ goal ∷ policy ∷ security ∷ performance ∷ database ∷ expose ∷ spec ∷ given ∷ when
        ∷ expect ∷ [])
      t

-- `head in SERVICE_CLAUSES`, `head in WORKFLOW_CLAUSES`, and the clauses a kind may open
abbrev pub is_service_clause : Clause → Bool
is_service_clause goal = true
is_service_clause policy = true
is_service_clause security = true
is_service_clause performance = true
is_service_clause database = true
is_service_clause expose = true
is_service_clause _ = false

abbrev pub is_workflow_clause : Clause → Bool
is_workflow_clause spec = true
is_workflow_clause given = true
is_workflow_clause when = true
is_workflow_clause expect = true
is_workflow_clause _ = false

-- CLAUSE_OWNER
abbrev pub clause_owner : Clause → Option Kind
clause_owner field = some entity
clause_owner c = if is_service_clause c then some service else none

-- A block of `cur.extra["specs"]`: its sections, and the scratch entries.
pub record Spec : Type 0 where
  pub given_lines : List Line
  pub when_lines : List Line
  pub expect_lines : List Line
  pub lineno : ℕ
  pub opened : List Clause
  pub indent : ℕ
  pub section_indent : Option ℕ

-- `Decl`: the items of a workflow are its `body`, those of the other kinds its `lines`; the `specs`
-- have the newest first. The other entries of `extra` are fields of their own.
pub record Decl : Type 0 where
  pub kind : Kind
  pub name : Text
  pub lineno : ℕ
  pub clauses : Assoc (List Line)
  pub lines : List Line
  pub body : Body
  pub specs : List Spec
  pub on_entity : Option (Text × Text)
  pub schedule : Option (Text × Text × Text)
  pub version : Option Text
  pub base : Option Text
  pub is_http : Bool

abbrev pub new_decl : Kind → Text → ℕ → Decl
new_decl k name lineno = record {
  kind = k;
  name = name;
  lineno = lineno;
  clauses = [];
  lines = [];
  body = empty_body;
  specs = [];
  on_entity = none;
  schedule = none;
  version = none;
  base = none;
  is_http = false;
}

-- What `parse` raises, one constructor for each place; `key_error` is Python's KeyError.
pub data SourceError : Type 0 where
  in_lexer : LexError → SourceError
  in_body : ParseError → SourceError
  http_name : SourceError
  no_name : SourceError
  event_source : SourceError
  schedule_source : SourceError
  entity_source : SourceError
  event_trigger : SourceError
  refine_shape : SourceError
  trailing_tokens : SourceError
  before_declaration : SourceError
  entity_clause : SourceError
  service_clause : SourceError
  no_clauses : SourceError
  clause_owned_by : Kind → SourceError
  section_without_spec : SourceError
  second_section : SourceError
  outside_service_clause : SourceError
  outside_entity_clause : SourceError
  outside_clause : SourceError
  step_after_spec : SourceError
  key_error : SourceError

abbrev pub Parsing : Type 0 → Type 0
Parsing A = Result SourceError A

-- The source of an event behind `on`.
abbrev pub event_on : Decl → List Text → Parsing Decl
event_on d (t ∷ u ∷ rest) =
    if same_text t (codes "schedule")
    then (elim rest [
      | zone_at ∷ time ∷ zone ∷ [] ↦
          if same_text zone_at (codes "at")
          then ok (record d { schedule = some (u, time, zone) })
          else err schedule_source
      | _ ↦ err schedule_source
    ])
    else elim rest [
      | [] ↦
          if is_in u (codes "create" ∷ codes "update" ∷ codes "delete" ∷ [])
          then ok (record d { on_entity = some (t, u) })
          else err event_trigger
      | _ ↦ err entity_source
    ]
event_on d (t ∷ []) =
    if same_text t (codes "schedule") then err schedule_source else err entity_source
event_on d [] = err entity_source

-- The words behind the name of a declaration.
abbrev pub decl_words : Kind → Decl → List Text → Parsing Decl
decl_words event d [] = ok d
decl_words event d (t ∷ rest) =
    if same_text t (codes "on") then event_on d rest else err event_source
decl_words capability d [] = ok d
decl_words capability d (v ∷ rest) = ok (record d { version = some v })
decl_words refine d (t ∷ b ∷ []) =
    if same_text t (codes "of") then ok (record d { base = some b }) else err refine_shape
decl_words refine d _ = err refine_shape
decl_words k d [] = ok d
decl_words k d (t ∷ rest) = err trailing_tokens

-- `capability http`
abbrev pub http_decl : ℕ → List Text → Parsing Decl
http_decl lineno (name ∷ []) = ok (record (new_decl capability name lineno) { is_http = true })
http_decl lineno _ = err http_name

abbrev pub is_http_head : Kind → Text → Bool
is_http_head capability t = same_text t (codes "http")
is_http_head _ t = false

-- A line that begins with a top-level keyword; the words are those behind it.
abbrev pub declare_words : Kind → ℕ → List Text → Parsing Decl
declare_words k lineno [] = err no_name
declare_words k lineno (name ∷ rest) =
    if is_http_head k name
    then http_decl lineno rest
    else decl_words k (new_decl k name lineno) rest
