-- ===== src/Base/Words.antt =====
-- `str.split()` and `" ".join`, and that the one undoes the other.
use Prim.Native.Nat.{ℕ}
use mathlib.Core.Path.{◌≡◌, refl, ap, ◌∙◌, sym}
use mathlib.Core.Bool.{Bool, true, false, not}
use mathlib.Core.List.{List, [], ◌∷◌, ◌++◌, append_assoc, append-nil}
use mathlib.Core.Logic.{inl, inr, ◌≢◌}
use linkly.Base.Tests.{Bool-cases, &&_intro, &&_left, &&_right}
use linkly.Base.Lists.{all, all-append}
use linkly.Base.Text.{Text, is_space, codes}

-- A finished word, unless it is empty.
abbrev flush : Text → List Text → List Text
flush [] ws = ws
flush (c ∷ w) ws = (c ∷ w) ∷ ws

words_from : Text → Text → List Text
words_from w [] = flush w []
words_from w (c ∷ s) = elim (is_space c) [
  | true ↦ flush w (words_from [] s)
  | false ↦ words_from (w ++ c ∷ []) s
]

-- `s.split()`
unfoldable pub words : Text → List Text
unfolding words_from is_space
words s = words_from [] s

-- `" ".join(ws)`
unfoldable pub join_words : List Text → Text
join_words [] = []
join_words (w ∷ []) = w
join_words (w ∷ v ∷ ws) = w ++ 32 ∷ join_words (v ∷ ws)

-- A word as `split` gives it: not empty, and with no white space.
abbrev pub is_word : Text → Bool
is_word [] = false
is_word (c ∷ s) = all (λ (d : ℕ). not (is_space d)) (c ∷ s)

words_from-append :
    (w v s : Text)
    → all (λ (d : ℕ). not (is_space d)) v ≡ true
    → words_from w (v ++ s) ≡ words_from (w ++ v) s
unfolding words_from
words_from-append w [] s h = rw append-nil
words_from-append w (c ∷ v) s h = elim (Bool-cases (is_space c)) [
  | inl e ↦ cc (&&_left (not (is_space c)) _ h, ap not e)
  | inr e ↦
      rw (e, words_from)
        (words_from-append (w ++ c ∷ []) v s (&&_right (not (is_space c)) _ h)
          ∙ ap (λ (t : Text). words_from t s) (append_assoc w (c ∷ []) v))
]

-- A word in front of a space is the first word.
words-append_space : (w s : Text) → is_word w ≡ true → words (w ++ 32 ∷ s) ≡ w ∷ words s
unfolding words words_from
words-append_space [] s h = cc
words-append_space (c ∷ w) s h = words_from-append [] (c ∷ w) (32 ∷ s) h

words_single : (w : Text) → is_word w ≡ true → words w ≡ w ∷ []
unfolding words words_from
words_single [] h = cc
words_single (c ∷ w) h = ap words (sym (append-nil (c ∷ w))) ∙ words_from-append [] (c ∷ w) [] h

-- Splitting joined words gives the words.
pub words-join_words : (ws : List Text) → all is_word ws ≡ true → words (join_words ws) ≡ ws
unfolding words join_words
words-join_words [] h = refl
words-join_words (w ∷ []) h = words_single w (&&_left (is_word w) true h)
words-join_words (w ∷ v ∷ ws) h =
    words-append_space w (join_words (v ∷ ws)) (&&_left (is_word w) _ h)
    ∙ ap (λ (r : List Text). w ∷ r) (words-join_words (v ∷ ws) (&&_right (is_word w) _ h))

-- Joining in two steps.
pub join_words-append :
    (ws us : List Text)
    → ws ≢ []
    → us ≢ []
    → join_words (ws ++ us) ≡ join_words ws ++ 32 ∷ join_words us
unfolding join_words
join_words-append [] us h k = absurd (h refl)
join_words-append (w ∷ []) [] h k = absurd (k refl)
join_words-append (w ∷ []) (u ∷ us) h k = refl
join_words-append (w ∷ v ∷ ws) us h k =
    rw (join_words-append (v ∷ ws) us (λ e. cc) k) (sym (append_assoc w (32 ∷ _) _))

flush-is_word :
    (w : Text) (ws : List Text)
    → all (λ (d : ℕ). not (is_space d)) w ≡ true
    → all is_word ws ≡ true
    → all is_word (flush w ws) ≡ true
flush-is_word [] ws h k = k
flush-is_word (c ∷ w) ws h k = &&_intro _ _ h k

words_from-is_word :
    (w s : Text) → all (λ (d : ℕ). not (is_space d)) w ≡ true → all is_word (words_from w s) ≡ true
unfolding words_from
words_from-is_word w [] h = flush-is_word w [] h refl
words_from-is_word w (c ∷ s) h = elim (Bool-cases (is_space c)) [
  | inl e ↦ rw (e, words_from) (flush-is_word w _ h (words_from-is_word [] s refl))
  | inr e ↦
      rw (e, words_from)
        (words_from-is_word (w ++ c ∷ []) s (all-append _ w (c ∷ []) ∙ rw (h, e) refl))
]

-- What `split` gives are words.
pub words-is_word : (s : Text) → all is_word (words s) ≡ true
unfolding words
words-is_word s = words_from-is_word [] s refl

two_words : words (codes "  let  x ") ≡ codes "let" ∷ codes "x" ∷ []
unfolding words words_from
two_words = refl
