-- ===== src/Condition/Conjunction.antt =====
-- impl/lnpl/condition.py: `_split_on_and` finds the terms of a printed condition.
use linkly.Base.{
  ◌≡◌, refl, sym, ap, ◌∙◌, true, false, List, [], ◌∷◌, ◌++◌, map, All, All-append, append_assoc,
  append-nil,
}
use linkly.Base.Text.{Text, codes, same_text, is_space}
use linkly.Base.Words.{is_word}
use linkly.Lexer.Words.{
  Comparator, PresenceKind, NumericKind, comparator_text, presence_text, numeric_text,
}
use linkly.Condition.Syntax.{Term, presence, numeric, comparison, Condition, single, and_of}
use linkly.Condition.Parse.{and_groups}
use linkly.Condition.Plain.{IsPlain, reference-IsPlain}
use linkly.Condition.Values.{value_tokens, value_tokens-IsPlain}
use linkly.Condition.Terms.{FitsTerm, term_tokens}

-- The words of a printed condition.
unfoldable pub and_tokens : List (List Text) → List Text
and_tokens [] = []
and_tokens (ts ∷ []) = ts
and_tokens (ts ∷ us ∷ tss) = ts ++ codes "and" ∷ and_tokens (us ∷ tss)

abbrev pub condition_tokens : Condition → List Text
condition_tokens (single term) = term_tokens term
condition_tokens (and_of terms) = and_tokens (map term_tokens terms)

-- A word of a term: not the word `and`, and one word.
pub record IsTermWord (t : Text) : Type 0 where
  pub word : is_word t ≡ true
  pub no_and : same_text t (codes "and") ≡ false

plain_words : (ts : List Text) → All IsPlain ts → All IsTermWord ts
plain_words [] h = tt
plain_words (t ∷ ts) h = (record { word = h.0.word; no_and = h.0.no_and }, plain_words ts h.1)

comparator_word : (op : Comparator) → IsTermWord (comparator_text op)
unfolding is_space same_text
comparator_word Comparator.le = record { word = refl; no_and = refl }
comparator_word Comparator.ge = record { word = refl; no_and = refl }
comparator_word Comparator.eq = record { word = refl; no_and = refl }
comparator_word Comparator.ne = record { word = refl; no_and = refl }
comparator_word Comparator.lt = record { word = refl; no_and = refl }
comparator_word Comparator.gt = record { word = refl; no_and = refl }

presence_word : (kind : PresenceKind) → IsTermWord (presence_text kind)
unfolding is_space same_text
presence_word PresenceKind.exists = record { word = refl; no_and = refl }
presence_word PresenceKind.missing = record { word = refl; no_and = refl }

numeric_word : (kind : NumericKind) → IsTermWord (numeric_text kind)
unfolding is_space same_text
numeric_word NumericKind.is_numeric = record { word = refl; no_and = refl }
numeric_word NumericKind.is_not_numeric = record { word = refl; no_and = refl }

pub term_tokens-IsTermWord : (t : Term) → FitsTerm t → All IsTermWord (term_tokens t)
unfolding term_tokens
term_tokens-IsTermWord (presence field kind) h =
    ((plain_words (field ∷ []) (reference-IsPlain field h, tt)).0, (presence_word kind, tt))
term_tokens-IsTermWord (numeric field kind) h =
    ((plain_words (field ∷ []) (reference-IsPlain field h, tt)).0, (numeric_word kind, tt))
term_tokens-IsTermWord (comparison l op r) h =
    All-append IsTermWord (value_tokens l) _ (plain_words _ (value_tokens-IsPlain l h.0))
      (comparator_word op, plain_words _ (value_tokens-IsPlain r h.1))

and_groups-words :
    (cur ts rest : List Text)
    → All IsTermWord ts
    → and_groups cur (ts ++ rest) ≡ and_groups (cur ++ ts) rest
unfolding and_groups
and_groups-words cur [] rest h = rw append-nil
and_groups-words cur (t ∷ ts) rest h =
    rw (h.0.no_and, and_groups)
      (and_groups-words (cur ++ t ∷ []) ts rest h.1
        ∙ ap (λ (c : List Text). and_groups c rest) (append_assoc cur (t ∷ []) ts))

-- Splitting at `and` gives the terms' words back.
pub and_groups-and_tokens :
    (ts : List Text) (tss : List (List Text))
    → All (All IsTermWord) (ts ∷ tss)
    → and_groups [] (and_tokens (ts ∷ tss)) ≡ ts ∷ tss
unfolding and_tokens and_groups same_text
and_groups-and_tokens ts [] h =
    ap (and_groups []) (sym (append-nil ts)) ∙ and_groups-words [] ts [] h.0
and_groups-and_tokens ts (us ∷ tss) h =
    and_groups-words [] ts _ h.0
    ∙ ap (λ (r : List (List Text)). ts ∷ r) (and_groups-and_tokens us tss h.1)
