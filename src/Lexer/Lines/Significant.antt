-- ===== src/Lexer/Lines/Significant.antt =====
-- impl/lnpl/lexer.py: what `tokenize` returns of a source, and when it fails.
use linkly.Base.{
  ℕ, ◌+◌, ◌≡◌, ◌≢◌, ◌↔◌, refl, sym, false, List, [], ◌∷◌, ◌++◌, arith, inl, inr, Bool-cases,
}
use linkly.Base.Result.{ok, chain_returns}
use linkly.Base.Text.{Text}
use linkly.Base.Words.{words}
use linkly.Lexer.Lines.{
  Line, split_lines, has_char, strip_comment, leading_spaces, any_reserved, line_of, tokenize_line,
  tokenize_from, tokenize,
}

-- A line as the parser may rely on it.
pub record IsSignificant (l : Line) : Type 0 where
  pub no_tab : has_char b'\t' l.raw ≡ false
  pub split : l.tokens ≡ words (strip_comment l.raw)
  pub not_blank : l.tokens ≢ []
  pub column : l.indent ≡ leading_spaces (strip_comment l.raw)
  pub no_reserved : any_reserved l.tokens ≡ false

-- The raw lines, numbered from `i`, are read as the lines `ls`: what is blank without its comment
-- is dropped, and every other line is kept in place with its number.
pub data Reads : ℕ → List Text → List Line → Type 0 where
  done : {i : ℕ} → Reads i [] []
  blank :
      {i : ℕ} {raw : Text} {raws : List Text} {ls : List Line}
      → has_char b'\t' raw ≡ false
      → words (strip_comment raw) ≡ []
      → Reads (i + 1) raws ls
      → Reads i (raw ∷ raws) ls
  keep :
      {i : ℕ} {raw : Text} {raws : List Text} {l : Line} {ls : List Line}
      → IsSignificant l
      → l.lineno ≡ i
      → l.raw ≡ raw
      → Reads (i + 1) raws ls
      → Reads i (raw ∷ raws) (l ∷ ls)

line_of-Reads :
    (i : ℕ) (raw : Text) (toks : List Text) (raws : List Text) (here ls : List Line)
    → has_char b'\t' raw ≡ false
    → toks ≡ words (strip_comment raw)
    → line_of i raw toks ≡ ok here
    → Reads (i + 1) raws ls
    → Reads i (raw ∷ raws) (here ++ ls)
unfolding line_of
line_of-Reads i raw [] raws [] ls nt w e r = blank nt (sym w) r
line_of-Reads i raw [] raws (l ∷ here) ls nt w e r = cc
line_of-Reads i raw (t ∷ toks) raws [] ls nt w e r = ground arith
line_of-Reads i raw (t ∷ toks) raws (l ∷ []) ls nt w e r =
    keep
      (record {
        no_tab = ground (arith, nt);
        split = ground (arith, w);
        not_blank = ground arith;
        column = ground arith;
        no_reserved = ground arith;
      })
      (ground arith) (ground arith) r
line_of-Reads i raw (t ∷ toks) raws (l ∷ k ∷ here) ls nt w e r = ground arith

tokenize_line-Reads :
    (i : ℕ) (raw : Text) (raws : List Text) (here ls : List Line)
    → tokenize_line i raw ≡ ok here
    → Reads (i + 1) raws ls
    → Reads i (raw ∷ raws) (here ++ ls)
unfolding tokenize_line
tokenize_line-Reads i raw raws here ls e r = elim (Bool-cases (has_char b'\t' raw)) [
  | inl tab ↦ absurd (ground arith)
  | inr none_there ↦ line_of-Reads i raw _ raws here ls none_there refl (rw none_there at e) r
]

tokenize_from-Reads :
    (i : ℕ) (raws : List Text) (ls : List Line) → tokenize_from i raws ≡ ok ls → Reads i raws ls
unfolding tokenize_from
tokenize_from-Reads i [] [] e = done
tokenize_from-Reads i [] (l ∷ ls) e = cc
tokenize_from-Reads i (raw ∷ raws) ls e =
    let (here, first, more) = chain_returns (tokenize_line i raw) _ e in
    let (rest, second, made) = chain_returns (tokenize_from (i + 1) raws) _ more in
    let same : ls ≡ here ++ rest = ground arith in
    rw same (
      tokenize_line-Reads i raw raws here rest first (tokenize_from-Reads (i + 1) raws rest second))

line_of-keep :
    (l : Line) (toks : List Text)
    → toks ≡ l.tokens
    → IsSignificant l
    → line_of l.lineno l.raw toks ≡ ok (l ∷ [])
unfolding line_of
line_of-keep l [] same h = absurd (h.not_blank (sym same))
line_of-keep l (t ∷ toks) same h = rw (same, h.no_reserved, ← h.column)

tokenize_line-keep : (l : Line) → IsSignificant l → tokenize_line l.lineno l.raw ≡ ok (l ∷ [])
unfolding tokenize_line
tokenize_line-keep l h = rw h.no_tab (line_of-keep l _ (sym h.split) h)

tokenize_line-blank :
    (i : ℕ) (raw : Text)
    → has_char b'\t' raw ≡ false
    → words (strip_comment raw) ≡ []
    → tokenize_line i raw ≡ ok []
unfolding tokenize_line line_of
tokenize_line-blank i raw nt e = rw (nt, e)

Reads-tokenize_from :
    {i : ℕ} {raws : List Text} {ls : List Line} → Reads i raws ls → tokenize_from i raws ≡ ok ls
unfolding tokenize_from
Reads-tokenize_from done = refl
Reads-tokenize_from (blank {i} {raw} nt e r) =
    rw (tokenize_line-blank i raw nt e, Reads-tokenize_from r)
Reads-tokenize_from (keep {i} {raw} {raws} {l} {ls} h n same r) =
    let first : tokenize_line i raw ≡ ok (l ∷ []) = rw (← n, ← same) (tokenize_line-keep l h) in
    rw (first, Reads-tokenize_from r)

-- `tokenize` returns `ls` exactly where the source's lines, numbered from 1, are read as `ls`: no
-- line holds a tab, no kept token is reserved, and a line is dropped exactly if it is blank without its comment.
pub tokenize_iff :
    (source : Text) (ls : List Line) → (tokenize source ≡ ok ls) ↔ Reads 1 (split_lines source) ls
unfolding tokenize
tokenize_iff source ls = (tokenize_from-Reads 1 (split_lines source) ls, Reads-tokenize_from)
