-- ===== src/Condition/RoundTrip.antt =====
-- impl/lnpl/condition.py: a printed condition parses back to itself.
use linkly.Base.{
  ◌≡◌, ◌≢◌, refl, ap, ◌∙◌, true, false, List, [], ◌∷◌, some, map, all, All, all_of_All, all-append,
  arith, append_assoc, &&_left, &&_right,
}
use linkly.Base.Result.{ok}
use linkly.Base.Text.{Text, codes, is_space}
use linkly.Base.Words.{is_word, words, join_words, words-join_words, join_words-append}
use linkly.Lexer.Words.{comparator_text}
use linkly.Condition.Syntax.{
  Value, operand, arith_of, Term, presence, numeric, comparison, Condition, single, and_of,
}
use linkly.Condition.Parse.{
  parse_terms, check_groups, split_on_and, parse_groups, make_and, is_and_term, parse_tokens,
  parse_condition, parse_words,
}
use linkly.Condition.Print.{term_text, join_with, condition_to_string}
use linkly.Condition.Values.{value_tokens, value_text-eq-join}
use linkly.Condition.Terms.{FitsTerm, FitsCondition, term_tokens, parse_term-term_tokens}
use linkly.Condition.Conjunction.{
  and_tokens, condition_tokens, IsTermWord, term_tokens-IsTermWord, and_groups-and_tokens,
}

term_tokens-ne-nil : (t : Term) → term_tokens t ≢ []
unfolding term_tokens value_tokens
term_tokens-ne-nil (presence field kind) = λ e. cc
term_tokens-ne-nil (numeric field kind) = λ e. cc
term_tokens-ne-nil (comparison (operand o) op r) = λ e. cc
term_tokens-ne-nil (comparison (arith_of o f p) op r) = λ e. cc

terms-IsTermWord : (ts : List Term) → All FitsTerm ts → All (All IsTermWord) (map term_tokens ts)
terms-IsTermWord [] h = tt
terms-IsTermWord (t ∷ ts) h = (term_tokens-IsTermWord t h.0, terms-IsTermWord ts h.1)

check_groups-terms : (ts : List Term) → check_groups (map term_tokens ts) ≡ ok (map term_tokens ts)
unfolding check_groups term_tokens value_tokens
check_groups-terms [] = refl
check_groups-terms (presence field kind ∷ ts) = rw (check_groups-terms ts)
check_groups-terms (numeric field kind ∷ ts) = rw (check_groups-terms ts)
check_groups-terms (comparison (operand o) op r ∷ ts) = rw (check_groups-terms ts)
check_groups-terms (comparison (arith_of o f p) op r ∷ ts) = rw (check_groups-terms ts)

split_on_and-terms :
    (t : Term) (ts : List Term)
    → All FitsTerm (t ∷ ts)
    → split_on_and (and_tokens (map term_tokens (t ∷ ts))) ≡ ok (map term_tokens (t ∷ ts))
unfolding split_on_and
split_on_and-terms t ts h =
    ap check_groups
      (and_groups-and_tokens (term_tokens t) (map term_tokens ts) (terms-IsTermWord (t ∷ ts) h))
    ∙ check_groups-terms (t ∷ ts)

parse_terms-terms :
    (ts : List Term)
    → All FitsTerm ts
    → all is_and_term ts ≡ true
    → parse_terms (map term_tokens ts) ≡ ok ts
unfolding parse_terms
parse_terms-terms [] h a = refl
parse_terms-terms (t ∷ ts) h a = rw (
  parse_term-term_tokens false t h.0 (&&_left (is_and_term t) _ a),
  parse_terms-terms ts h.1 (&&_right (is_and_term t) _ a),
)

-- On the words of a condition the parser returns the condition.
parse_tokens-condition_tokens :
    (c : Condition) → FitsCondition c → parse_tokens (condition_tokens c) ≡ ok c
unfolding parse_tokens parse_groups and_tokens make_and
parse_tokens-condition_tokens (single t) h =
    rw (split_on_and-terms t [] (h, tt)) (rw (parse_term-term_tokens true t h refl))
parse_tokens-condition_tokens (and_of []) h = absurd (omega arith)
parse_tokens-condition_tokens (and_of (t ∷ [])) h = absurd (omega arith)
parse_tokens-condition_tokens (and_of (t ∷ u ∷ ts)) h =
    rw (split_on_and-terms t (u ∷ ts) h.2)
      (rw (parse_terms-terms (t ∷ u ∷ ts) h.2 h.1, h.1) (ground arith))

value_tokens-ne-nil : (v : Value) → value_tokens v ≢ []
unfolding value_tokens
value_tokens-ne-nil (operand o) = λ e. cc
value_tokens-ne-nil (arith_of l op r) = λ e. cc

term_text-eq-join : (t : Term) → term_text t ≡ join_words (term_tokens t)
unfolding term_text term_tokens join_words
term_text-eq-join (presence field kind) = simp append_assoc
term_text-eq-join (numeric field kind) = simp append_assoc
term_text-eq-join (comparison l op r) =
    rw
      (
        join_words-append (value_tokens l) (comparator_text op ∷ value_tokens r)
            (value_tokens-ne-nil l) (λ e. cc),
        join_words-append (comparator_text op ∷ []) (value_tokens r) (λ e. cc)
            (value_tokens-ne-nil r),
        value_text-eq-join l,
        value_text-eq-join r,
      )
      (simp append_assoc)

and_tokens-ne-nil : (t : Term) (ts : List Term) → and_tokens (map term_tokens (t ∷ ts)) ≢ []
unfolding and_tokens term_tokens value_tokens
and_tokens-ne-nil t [] = term_tokens-ne-nil t
and_tokens-ne-nil (presence field kind) (u ∷ ts) = λ e. cc
and_tokens-ne-nil (numeric field kind) (u ∷ ts) = λ e. cc
and_tokens-ne-nil (comparison (operand o) op r) (u ∷ ts) = λ e. cc
and_tokens-ne-nil (comparison (arith_of o f p) op r) (u ∷ ts) = λ e. cc

and_text-eq-join :
    (t : Term) (ts : List Term)
    → join_with (codes " and ") (map term_text (t ∷ ts))
      ≡ join_words (and_tokens (map term_tokens (t ∷ ts)))
unfolding join_with and_tokens join_words
and_text-eq-join t [] = term_text-eq-join t
and_text-eq-join t (u ∷ ts) =
    rw
      (
        join_words-append (term_tokens t) (codes "and" ∷ and_tokens (map term_tokens (u ∷ ts)))
            (term_tokens-ne-nil t) (λ e. cc),
        join_words-append (codes "and" ∷ []) (and_tokens (map term_tokens (u ∷ ts))) (λ e. cc)
            (and_tokens-ne-nil u ts),
        ← and_text-eq-join u ts,
        term_text-eq-join t,
      )
      (simp append_assoc)

and_tokens-words :
    (tss : List (List Text)) → All (All IsTermWord) tss → all is_word (and_tokens tss) ≡ true
unfolding and_tokens is_space
and_tokens-words [] h = refl
and_tokens-words (ts ∷ []) h = all_of_All is_word ts (λ w p. p.word) h.0
and_tokens-words (ts ∷ us ∷ tss) h =
    all-append is_word ts _
    ∙ rw (all_of_All is_word ts (λ w p. p.word) h.0) (and_tokens-words (us ∷ tss) h.1)

condition_tokens-words : (c : Condition) → FitsCondition c → all is_word (condition_tokens c) ≡ true
condition_tokens-words (single t) h =
    all_of_All is_word _ (λ w p. p.word) (term_tokens-IsTermWord t h)
condition_tokens-words (and_of ts) h = and_tokens-words _ (terms-IsTermWord ts h.2)

condition_tokens-ne-nil : (c : Condition) → FitsCondition c → condition_tokens c ≢ []
condition_tokens-ne-nil (single t) h = term_tokens-ne-nil t
condition_tokens-ne-nil (and_of []) h = absurd (omega arith)
condition_tokens-ne-nil (and_of (t ∷ ts)) h = and_tokens-ne-nil t ts

condition_text-eq-join :
    (c : Condition) → FitsCondition c → condition_to_string c ≡ join_words (condition_tokens c)
unfolding condition_to_string
condition_text-eq-join (single t) h = term_text-eq-join t
condition_text-eq-join (and_of []) h = absurd (omega arith)
condition_text-eq-join (and_of (t ∷ ts)) h = and_text-eq-join t ts

parse_words-eq :
    (toks : List Text) {c : Condition}
    → toks ≢ []
    → parse_tokens toks ≡ ok c
    → parse_words toks ≡ ok (some c)
parse_words-eq [] ne e = absurd (ne refl)
parse_words-eq (tok ∷ toks) ne e = rw e

-- A condition that the grammar can spell is what `parse_condition` returns for its normalized text.
pub parse_condition-condition_to_string :
    (c : Condition) → FitsCondition c → parse_condition (condition_to_string c) ≡ ok (some c)
unfolding parse_condition
parse_condition-condition_to_string c h =
    ap parse_words (
      ap words (condition_text-eq-join c h)
      ∙ words-join_words (condition_tokens c) (condition_tokens-words c h))
    ∙ parse_words-eq (condition_tokens c) (condition_tokens-ne-nil c h)
        (parse_tokens-condition_tokens c h)
