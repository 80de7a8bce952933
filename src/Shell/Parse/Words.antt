-- ===== src/Shell/Parse/Words.antt =====
-- The word loop of `parseline`: it ends, and its fuel is enough.
use cs.Base.{
  ℕ, zero, suc, ◌≤◌, ◌<◌, ◌≡◌, sym, ◌∙◌, ap, inl, inr, [], ◌∷◌, none, some, ◌==◌, length, arith,
  Option-cases, Bool-cases,
}
use cs.CString.{Bytes, space, skip_spaces, strchr-length, length-skip_spaces}
use cs.Shell.Parse.{quote, next_word, words}

pub next_word-length : (s w r : Bytes) → next_word s ≡ some (w, r) → length r < length s
unfolding next_word
next_word-length [] w r h = strchr-length space [] w r h
next_word-length (c ∷ s) w r h = elim (Bool-cases (c == quote)) [
  | inl t ↦ ground (arith, strchr-length quote s w r)
  | inr f ↦ ground (arith, strchr-length space (c ∷ s) w r)
]

words-none : (f : ℕ) (s : Bytes) → next_word s ≡ none → words (suc f) s ≡ []
unfolding words
words-none f s e = rw (e, words)

pub words-some :
    (f : ℕ) (s w r : Bytes)
    → next_word s ≡ some (w, r)
    → words (suc f) s ≡ w ∷ words f (skip_spaces r)
unfolding words
words-some f s w r e = rw (e, words)

-- Any fuel above the length of the text gives the same words: the loop has ended by its test.
pub words_fuel : (f g : ℕ) (s : Bytes) → length s < f → length s < g → words f s ≡ words g s
words_fuel zero g s h k = absurd (omega arith)
words_fuel (suc f) zero s h k = absurd (omega arith)
words_fuel (suc f) (suc g) s h k = elim (Option-cases (next_word s)) [
  | inl e ↦ words-none f s e ∙ sym (words-none g s e)
  | inr ((w, r), e) ↦
      let shorter = next_word-length s w r e in
      let no_longer = length-skip_spaces r in
      rw (words-some f s w r e, words-some g s w r e)
        (ap (◌∷◌ w) (words_fuel f g (skip_spaces r) (omega arith) (omega arith)))
]

-- There are no more words than bytes.
pub length-words : (f : ℕ) (s : Bytes) → length (words f s) ≤ length s
length-words zero s = unfold words in omega arith
length-words (suc f) s = elim (Option-cases (next_word s)) [
  | inl e ↦ rw (words-none f s e) (omega arith)
  | inr ((w, r), e) ↦ rw (words-some f s w r e) (
      omega (arith, next_word-length s w r e, length-skip_spaces r, length-words f (skip_spaces r)))
]
