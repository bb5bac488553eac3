-- ===== src/Lexer/Lines.antt =====
-- impl/lnpl/lexer.py: `tokenize`.
pub mod Significant
use linkly.Base.{
  ℕ, ◌+◌, ◌≡◌, refl, Bool, true, false, ◌&&◌, ◌||◌, List, [], ◌∷◌, ◌++◌, leb, ◌==◌, if◌then◌else◌,
}
use linkly.Base.Result.{Result, ok, err, ◌>>=◌}
use linkly.Base.Text.{Text, codes, is_in, is_space}
use linkly.Base.Words.{words}
use linkly.Lexer.Words.{reserved}

-- `Line`: its number from 1, its tokens, the raw text and the column where it starts.
pub record Line : Type 0 where
  pub lineno : ℕ
  pub tokens : List Text
  pub raw : Text
  pub indent : ℕ

-- `LexError`, with the number of the line.
pub data LexError : Type 0 where
  tabs_forbidden : ℕ → LexError
  reserved_word : ℕ → LexError

-- Where `str.splitlines` breaks a text.
unfoldable pub is_break : ℕ → Bool
is_break c = (leb 10 c && leb c 13) || (leb 28 c && leb c 30)

-- The line that is being read, and whether the last break was a carriage return.
unfoldable pub lines_from : Bool → Text → Text → List Text
lines_from after_cr [] [] = []
lines_from after_cr (c ∷ cur) [] = (c ∷ cur) ∷ []
lines_from after_cr cur (c ∷ s) = elim (after_cr && c == 10) [
  | true ↦ lines_from false cur s
  | false ↦ elim (is_break c) [
    | true ↦ cur ∷ lines_from (c == 13) [] s
    | false ↦ lines_from false (cur ++ c ∷ []) s
  ]
]

-- `source.splitlines()`
unfoldable pub split_lines : Text → List Text
unfolding lines_from is_break
split_lines s = lines_from false [] s

-- `c in text`
unfoldable pub has_char : ℕ → Text → Bool
has_char c [] = false
has_char c (d ∷ s) = c == d || has_char c s

-- `_strip_comment`
unfoldable pub strip_comment : Text → Text
strip_comment [] = []
strip_comment (c ∷ s) = let rest = strip_comment s in if c == b'#' then [] else c ∷ rest

-- `len(body) - len(body.lstrip())`
unfoldable pub leading_spaces : Text → ℕ
leading_spaces [] = 0
leading_spaces (c ∷ s) = let rest = leading_spaces s in if is_space c then 1 + rest else 0

-- Whether a token of the line is a reserved word.
unfoldable pub any_reserved : List Text → Bool
any_reserved [] = false
any_reserved (t ∷ toks) = is_in t reserved || any_reserved toks

-- One turn of the loop of `tokenize`, the tokens of the line given; a line without any is dropped.
unfoldable pub line_of : ℕ → Text → List Text → Result LexError (List Line)
line_of i raw [] = ok []
line_of i raw (tok ∷ toks) =
    if any_reserved (tok ∷ toks)
    then err (reserved_word i)
    else ok (
        record {
          lineno = i;
          tokens = tok ∷ toks;
          raw = raw;
          indent = leading_spaces (strip_comment raw);
        }
        ∷ [])

unfoldable pub tokenize_line : ℕ → Text → Result LexError (List Line)
tokenize_line i raw =
    if has_char b'\t' raw then err (tabs_forbidden i) else line_of i raw (words (strip_comment raw))

-- The loop of `tokenize` from line `i` on.
unfoldable pub tokenize_from : ℕ → List Text → Result LexError (List Line)
tokenize_from i [] = ok []
tokenize_from i (raw ∷ raws) = do
  here ← tokenize_line i raw
  rest ← tokenize_from (i + 1) raws
  ok (here ++ rest)

-- `tokenize`
unfoldable pub tokenize : Text → Result LexError (List Line)
tokenize source = tokenize_from 1 (split_lines source)
