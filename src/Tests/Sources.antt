-- ===== src/Tests/Sources.antt =====
-- impl/lnpl/parser.py at a concrete source.
use linkly.Base.{◌≡◌, ◌≢◌, refl, List, [], ◌∷◌}
use linkly.Base.Result.{ok, err}
use linkly.Base.Text.{Text, codes, same_text, is_in, is_space}
use linkly.Base.Assoc.{lookup, set_key, set_default}
use linkly.Base.Words.{words}
use linkly.Lexer.Lines.{
  Line, tokenize, tokenize_from, tokenize_line, split_lines, lines_from, is_break, has_char,
  strip_comment, leading_spaces, line_of, any_reserved,
}
use linkly.Parser.Body.{finish_body, opened}
use linkly.Parser.Source.{
  Decl, Kind, new_decl, parse, parse_lines, parse_line, finish_decls, kind?, clause?, open_clause,
  clause_specs, key_error,
}
use linkly.Parser.Source.Heads.{decl_headings, headings, parse-headings}
use linkly.Parser.Source.Lookups.{parse-no_key_error}

abbrev entity_source : Text
entity_source = codes "entity Card\n  field\n    id UUID"

abbrev entity_lines : List Line
entity_lines =
    record {
      lineno = 1;
      tokens = codes "entity" ∷ codes "Card" ∷ [];
      raw = codes "entity Card";
      indent = 0;
    }
    ∷ record { lineno = 2; tokens = codes "field" ∷ []; raw = codes "  field"; indent = 2 }
    ∷ record {
      lineno = 3;
      tokens = codes "id" ∷ codes "UUID" ∷ [];
      raw = codes "    id UUID";
      indent = 4;
    }
    ∷ []

entity_source_read : tokenize entity_source ≡ ok entity_lines
unfolding tokenize tokenize_from tokenize_line split_lines lines_from is_break has_char
    strip_comment leading_spaces line_of any_reserved words is_in same_text is_space
entity_source_read = refl

abbrev card : Decl
card = record (new_decl Kind.entity (codes "Card") 1) {
  clauses =
      (
        codes "field",
        record {
          lineno = 3;
          tokens = codes "id" ∷ codes "UUID" ∷ [];
          raw = codes "    id UUID";
          indent = 4;
        }
            ∷ [],
      )
      ∷ [];
}

entity_source_parsed : parse entity_source ≡ ok (card ∷ [])
unfolding parse parse_lines parse_line finish_decls kind? clause? open_clause clause_specs
    finish_body opened tokenize tokenize_from tokenize_line split_lines lines_from is_break has_char
    strip_comment leading_spaces line_of any_reserved words is_in same_text is_space lookup set_key
    set_default
entity_source_parsed = refl

parse-headings_example : decl_headings (card ∷ []) ≡ headings entity_lines
parse-headings_example =
    parse-headings entity_source entity_lines (card ∷ []) entity_source_read entity_source_parsed

parse-no_key_error_example : parse entity_source ≢ err key_error
parse-no_key_error_example = parse-no_key_error entity_source
