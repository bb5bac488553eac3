-- ===== src/Tests/Lexing.antt =====
-- impl/lnpl/lexer.py at concrete tokens and sources.
use linkly.Base.{◌≡◌, ◌↔◌, ◌≤◌, some, List, [], ◌∷◌}
use linkly.Base.Result.{ok}
use linkly.Base.Text.{codes}
use linkly.Lexer.Words.{int64_max}
use linkly.Lexer.Duration.{duration_ms_or_none}
use linkly.Lexer.Duration.Reads.{IsWorth, duration_ms_or_none-eq-some_iff}
use linkly.Lexer.Lines.{Line, split_lines, tokenize}
use linkly.Lexer.Lines.Significant.{Reads, tokenize_iff}

duration_ms_or_none-eq-some_iff_example :
    (duration_ms_or_none (codes "90m") ≡ ok (some 5400000))
    ↔ (IsWorth (codes "90m") 5400000 × (5400000 ≤ int64_max))
duration_ms_or_none-eq-some_iff_example = duration_ms_or_none-eq-some_iff (codes "90m") 5400000

abbrev two_lines : List Line
two_lines =
    record { lineno = 1; tokens = codes "a" ∷ []; raw = codes "a # b"; indent = 0 }
    ∷ record { lineno = 3; tokens = codes "c" ∷ []; raw = codes "  c"; indent = 2 }
    ∷ []

tokenize_iff_example :
    (tokenize (codes "a # b\n\n  c") ≡ ok two_lines)
    ↔ Reads 1 (split_lines (codes "a # b\n\n  c")) two_lines
tokenize_iff_example = tokenize_iff (codes "a # b\n\n  c") two_lines
