-- ===== src/Lib.antt =====
-- A model of the core of lnpl, the declarative language whose compiler and reference interpreter
-- are the Python package impl/lnpl. A source is cut into lines of tokens (impl/lnpl/lexer.py), the
-- lines of a workflow become items, blocks and guards (impl/lnpl/parser.py), guard and assignment
-- texts become conditions and values (impl/lnpl/condition.py), and the interpreter runs the steps
-- of a workflow under the policies of its service (impl/lnpl/interp.py): it evaluates the guards on
-- 64-bit ints, instants and money (impl/lnpl/money.py), and calls the repository, whose first rows and
-- filters impl/lnpl/repo_policy.py decides. Agents change the document of the compiler through a
-- protocol that checks its structure (impl/lnpl/protocol.py). Requests carry a trace context in a header
-- (impl/lnpl/tracecontext.py), and the tools around the compiler name the nodes of its document by
-- short names (impl/lnpl/resolve.py).
--
-- Files, and what they are about:
--   Base            shared names and lemmas: native numbers, lists, text, decimal numerals, words,
--                   results that may fail. Int: integers over native numbers. Json: the values of
--                   a payload or a row. Reader: readers that take a text from the front.
--   Lexer           impl/lnpl/lexer.py. Words: the closed tables. Duration: `is_duration`,
--                   `duration_ms_or_none`, `parse_duration_ms`. Lines: `_strip_comment`, `tokenize`.
--   Condition       impl/lnpl/condition.py. Syntax: the parsed forms. Names: the shapes of names.
--                   Parse: `parse_condition`. Print: `condition_to_string`, `value_to_string`.
--                   References: `references`. Assign: `parse_assignment`, `parse_format`,
--                   `parse_value_or_aggregate`, `parse_value` (here `parse_value_text`). Instant:
--                   `encode_instant`, `decode_instant` and their shapes; Civil, Decode and Bounds
--                   hold the days of the calendar, the way back, and how far a text reaches. The
--                   other files hold the way from a printed text back to its condition.
--   Parser          impl/lnpl/parser.py. State: the items and the scratch entries of `Decl.extra`.
--                   Body: `_append_workflow_item`, `_otherwise_line`, `_attach` and the layout
--                   checks, and the end of `parse` for a workflow. Contents, Placed, Adds and Order
--                   follow the step lines through them. Source: `parse`, with its declarations,
--                   clauses and `spec` blocks; Heads follows the headings, Keys and Lookups the
--                   entries of `Decl.clauses`.
--   Runtime         impl/lnpl/interp.py. Retry: `_retryable`, `_backoff_ms` and the loop of
--                   `_execute_step_with_retry`. Repository: `FakeRepository` without its queries,
--                   and the assignment that writes into a bound row. Cache: `FakeCache`. World:
--                   the items of a workflow, its report, and a record of what the runtime does.
--                   Client: code over a repository, which makes such a record.
--                   Steps: the retries of a step, and `_run_parallel_block`. Run: the loop of
--                   `run_workflow` with `_flatten_items`; Reach and Atomic follow its states,
--                   Rounds the `until` loop, and OnRepo puts Repository below it.
--   Eval            impl/lnpl/interp.py. Scope: `resolve_reference`, `caller_view`,
--                   `_resolve_lookup_key`, and `row_key`. Value: `eval_value`,
--                   `_eval_money_arith`, `_is_numeric_shaped`. Guard: `_condition_holds` with its
--                   helpers. Kinds, Logic and Proper hold what they return and raise.
--   Policy          impl/lnpl/repo_policy.py: `repository_calls`, `lookup_key_source`,
--                   `event_emissions`, `seeded_entities`, `default_rows`; Seeded is about the last
--                   two. Query: `apply_predicate`, and `query` of `FakeRepository`; Query/Sorted is
--                   about their order.
--   Protocol        impl/lnpl/protocol.py. Cycle: `_ownership_cycle`; Colours, Finished
--                   and Acyclic follow its colours and its stack; Owned and Exact are about the list
--                   that it returns. Structure: `node_references` and `_structure_fault`; Faultless
--                   says what a document without a fault has.
--   Trace           impl/lnpl/tracecontext.py. Fields and Headers relate `parse_traceparent` and
--                   `format_traceparent` to the shape of a header value; Fresh is about the drawn
--                   identifiers.
--   Resolve         impl/lnpl/resolve.py: `qualified_name`, `resolve_node`.
--   Money           impl/lnpl/money.py: `exponent` and `parse_money_literal`. Literals and Scale say
--                   which tokens they accept. Pairs: `encode_money`, `compare`, `add`, `sub`,
--                   `mul_int`, and `_decode_money` of impl/lnpl/interp.py. Number, Wire and Literal
--                   read an amount back.
--   Tests           runs at fixed inputs
--
-- How the state corresponds. Text is a list of code points, and the predicates on characters are
-- those of Python on ASCII text; on other characters (other digits, spaces or letters) the model
-- says nothing. Python's limit of 4300 digits is written out where the evaluator reads an int of a
-- caller; elsewhere it is left out. A float is a number times a power of two, without infinities and
-- NaN. The amounts of money that are read and written are exact. An exception is a value:
-- each place that raises has a constructor of its own, and the wording of messages is left out.
-- The parser mutates the newest `Decl`, the head of a list that keeps the newest first, and the body
-- of a workflow in it is a record that the operations take and return. A block is one Python dict
-- that an item and `_open_block` share, and the slot of an `otherwise` is the guard item itself: both
-- are places in a store, the number of entries that are older. The rows of the repository are dicts
-- that its tables, its snapshot and the bindings of a run may share: they lie in a heap, and a table
-- holds their addresses. The values of their fields are a parameter. The nodes of a workflow stand with
-- their children in place of their ids. World has the clock, the repository's transaction, the steps
-- and the thread pool of a run as its operations, each with the exception that it may raise: a RunError,
-- or one that `except RunError` does not catch. Client makes a World of a repository and of any code that
-- reaches it by its calls, with the row dicts that it was handed out or has built.
--
-- Loops over a list are structural. The `while True` loop of `_execute_step_with_retry` takes fuel:
-- 100 turns, MAX_STEP_ATTEMPTS, which are enough because `_retryable` refuses when that many
-- attempts were made. `_run_step` is a function of the attempt and the clock, and the cancel event
-- is a function of the attempt: both are parameters. The clock is the virtual one. The
-- loop of a step outside of blocks takes the same fuel. An `until` loop has 16 rounds,
-- _UNTIL_ROUND_CAP, and is structural in those that are left. The search of `_ownership_cycle` takes as
-- its fuel the white nodes and their children, which each turn uses up. The loops that
-- draw identifiers take fuel too, since only chance ends them; the draws of `uuid4().hex` are a
-- parameter, one sequence in which each loop goes on behind the draws before it.
--
-- Not modelled: what a step does (`_run_effect`, with aggregates, `format` and the average of money),
-- the terms of a response and its building, spans and logs, the attributes of `Decl` that the loader sets,
-- lowering and validation, the projection of the seed for the backend, `query_sorted`, the rest of
-- the agent protocol, the backend, the servers, the drivers and the command line.
pub mod Base
pub mod Lexer
pub mod Condition
pub mod Parser
pub mod Money
pub mod Trace
pub mod Resolve
pub mod Runtime
pub mod Eval
pub mod Policy
pub mod Protocol
pub mod Tests
