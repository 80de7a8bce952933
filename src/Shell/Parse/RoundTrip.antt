-- ===== src/Shell/Parse/RoundTrip.antt =====
-- A command line that is written from its arguments is read back args them.
use cs.Base.{
  ℕ, zero, suc, ◌+◌, ◌≤◌, ◌<◌, ◌≡◌, ◌≢◌, refl, ◌∙◌, ap, true, false, List, [], ◌∷◌, ◌++◌, none,
  some, if◌then◌else◌, length, arith, map, All, replicate, append_assoc, append-nil, length-append,
  length-map,
}
use mathlib.Core.List.{map-append, concat-ne-nil}
use cs.CString.{Bytes, space, strchr, skip_spaces, length-skip_spaces, Lacks, strchr-append}
use cs.Shell.Parse.{
  maxargs, quote, set_last, next_word, words, is_ampersand, split_background, bounded, parseline,
}
use cs.Shell.Parse.Words.{next_word-length, words-some}

-- An argument args it is typed, bare or between single quotes.
pub data Arg : Type 0 where
  bare quoted : Bytes → Arg

abbrev pub value : Arg → Bytes
value (bare w) = w
value (quoted w) = w

abbrev pub token : Arg → Bytes
token (bare w) = w
token (quoted w) = quote ∷ w ++ quote ∷ []

-- What can be typed so: bare text has no space and no quote in front, quoted text no quote.
abbrev pub IsBare : Bytes → Type 0
IsBare [] = ⊥
IsBare (c ∷ s) = (c ≢ quote) × Lacks space (c ∷ s)

abbrev pub IsArg : Arg → Type 0
IsArg (bare w) = IsBare w
IsArg (quoted w) = Lacks quote w

-- Each argument with one space behind it, and args many more args its number says.
unfoldable pub spaced : List (Arg × ℕ) → Bytes
spaced [] = []
spaced ((a, k) ∷ args) = token a ++ space ∷ (replicate k space ++ spaced args)

-- The line args it is typed: the last space is the newline.
unfoldable pub line : ℕ → List (Arg × ℕ) → Bytes
line lead args = set_last (replicate lead space ++ spaced args) b'\n'

abbrev pub values : List (Arg × ℕ) → List Bytes
values = map (λ a. value a.0)

abbrev pub AreArgs : List (Arg × ℕ) → Type 0
AreArgs = All (λ a. IsArg a.0)

next_word-token :
    (a : Arg) (r : Bytes)
    → IsArg a
    → (t : Bytes) × (next_word (token a ++ space ∷ r) ≡ some (value a, t))
      × (skip_spaces t ≡ skip_spaces r)
unfolding next_word skip_spaces
next_word-token (bare []) r h = absurd h
next_word-token (bare (c ∷ s)) r (q, h) = (r, ground (arith, strchr-append space (c ∷ s) r h), refl)
next_word-token (quoted w) r h = (
  space ∷ r,
  rw (append_assoc w (quote ∷ []) (space ∷ r)) (strchr-append quote w (space ∷ r) h),
  refl,
)

skip_spaces-replicate : (k : ℕ) (s : Bytes) → skip_spaces (replicate k space ++ s) ≡ skip_spaces s
unfolding skip_spaces
skip_spaces-replicate zero s = refl
skip_spaces-replicate (suc k) s = skip_spaces-replicate k s

skip_spaces-spaced :
    (args : List (Arg × ℕ)) → AreArgs args → skip_spaces (spaced args) ≡ spaced args
unfolding skip_spaces spaced
skip_spaces-spaced [] h = refl
skip_spaces-spaced ((bare [], k) ∷ args) h = absurd h.0
skip_spaces-spaced ((bare (c ∷ s), k) ∷ args) h = ground arith
skip_spaces-spaced ((quoted w, k) ∷ args) h = refl

words-spaced :
    (f : ℕ) (args : List (Arg × ℕ))
    → AreArgs args
    → length (spaced args) < f
    → words f (spaced args) ≡ values args
unfolding spaced
words-spaced zero args h n = absurd (omega arith)
words-spaced (suc f) [] h n = unfold words spaced next_word strchr in refl
words-spaced (suc f) ((a, k) ∷ args) (ha, h) n =
    let r = replicate k space ++ spaced args in
    let (t, e, same) = next_word-token a r ha in
    let left : skip_spaces t ≡ spaced args =
      same ∙ skip_spaces-replicate k (spaced args) ∙ skip_spaces-spaced args h in
    let shorter = next_word-length (token a ++ space ∷ r) (value a) t e in
    rw (words-some f (token a ++ space ∷ r) (value a) t e, left)
      (ap (◌∷◌ (value a))
        (words-spaced f args h (omega (arith, length-skip_spaces t, ap length left))))

nil_of_append : (xs ys : Bytes) → xs ++ ys ≡ [] → ys ≡ []
nil_of_append [] ys e = e
nil_of_append (x ∷ xs) ys e = cc

append-ne-nil : (xs : Bytes) (c : ℕ) (ys : Bytes) → xs ++ c ∷ ys ≢ []
append-ne-nil [] c ys e = cc
append-ne-nil (x ∷ xs) c ys e = cc

set_last-append : (xs ys : Bytes) (x : ℕ) → ys ≢ [] → set_last (xs ++ ys) x ≡ xs ++ set_last ys x
unfolding set_last
set_last-append [] ys x n = refl
set_last-append (c ∷ []) [] x n = absurd (n refl)
set_last-append (c ∷ []) (d ∷ ys) x n = refl
set_last-append (c ∷ d ∷ xs) ys x n = ap (◌∷◌ c) (set_last-append (d ∷ xs) ys x n)

set_last-set_last : (s : Bytes) (x y : ℕ) → set_last (set_last s x) y ≡ set_last s y
unfolding set_last
set_last-set_last [] x y = refl
set_last-set_last (c ∷ []) x y = refl
set_last-set_last (c ∷ d ∷ []) x y = refl
set_last-set_last (c ∷ d ∷ e ∷ s) x y = ap (◌∷◌ c) (set_last-set_last (d ∷ e ∷ s) x y)

set_last-replicate :
    (k : ℕ) → set_last (space ∷ replicate k space) space ≡ space ∷ replicate k space
unfolding set_last
set_last-replicate zero = refl
set_last-replicate (suc k) = ap (◌∷◌ space) (set_last-replicate k)

spaced-ne-nil : (args : List (Arg × ℕ)) → args ≢ [] → spaced args ≢ []
unfolding spaced
spaced-ne-nil [] n = absurd (n refl)
spaced-ne-nil ((a, k) ∷ args) n = append-ne-nil (token a) space _

set_last-spaced : (args : List (Arg × ℕ)) → args ≢ [] → set_last (spaced args) space ≡ spaced args
unfolding spaced
set_last-spaced [] n = absurd (n refl)
set_last-spaced ((a, k) ∷ []) n = rw (
  append-nil (replicate k space),
  set_last-append (token a) (space ∷ replicate k space) space (λ e. cc),
  set_last-replicate k,
)
set_last-spaced ((a, k) ∷ b ∷ args) n =
    let rest = spaced (b ∷ args) in
    let more = spaced-ne-nil (b ∷ args) (λ e. cc) in
    rw (
      set_last-append (token a) (space ∷ (replicate k space ++ rest)) space (λ e. cc),
      set_last-append (space ∷ replicate k space) rest space more,
      set_last-spaced (b ∷ args) (λ e. cc),
    )

-- The buffer that `parseline` walks is the line with a space in place of the newline.
set_last-line :
    (lead : ℕ) (args : List (Arg × ℕ))
    → args ≢ []
    → set_last (line lead args) space ≡ replicate lead space ++ spaced args
unfolding line
set_last-line lead args n =
    set_last-set_last _ b'\n' space
    ∙ set_last-append (replicate lead space) (spaced args) space (spaced-ne-nil args n)
    ∙ ap (◌++◌ (replicate lead space)) (set_last-spaced args n)

set_last-nil : (s : Bytes) (x : ℕ) → set_last s x ≡ [] → s ≡ []
unfolding set_last
set_last-nil [] x e = refl
set_last-nil (c ∷ []) x e = cc
set_last-nil (c ∷ d ∷ s) x e = cc

parseline_step :
    (s t : Bytes)
    → skip_spaces (set_last s space) ≡ t
    → s ≢ []
    → parseline s ≡ bounded (words (suc (length t)) t)
unfolding parseline
parseline_step [] t e n = absurd (n refl)
parseline_step (c ∷ s) t e n = rw e

parseline-values :
    (lead : ℕ) (args : List (Arg × ℕ))
    → args ≢ []
    → AreArgs args
    → parseline (line lead args) ≡ bounded (values args)
parseline-values lead args n h =
    parseline_step (line lead args) (spaced args)
      (rw (set_last-line lead args n, skip_spaces-replicate) (skip_spaces-spaced args h))
      (λ e. nothing (set_last-nil _ b'\n' (unfold line in e)))
    ∙ ap bounded (words-spaced (suc (length (spaced args))) args h (omega arith))
  where
    nothing : replicate lead space ++ spaced args ≢ []
    nothing e = spaced-ne-nil args n (nil_of_append (replicate lead space) (spaced args) e)

split_background-append :
    (ws : List Bytes) (w : Bytes)
    → split_background (ws ++ w ∷ [])
      ≡ (if is_ampersand w then (ws, true) else (ws ++ w ∷ [], false))
unfolding split_background
split_background-append [] w = refl
split_background-append (v ∷ []) w = ground arith
split_background-append (v ∷ u ∷ ws) w = ground (arith, split_background-append (u ∷ ws) w)

-- A typed line, with any spaces before and between its arguments, is read as its arguments. If the
-- last one begins with an ampersand it is left out, and the job is for the background.
pub parseline-line :
    (lead : ℕ) (args : List (Arg × ℕ)) (a : Arg) (k : ℕ)
    → AreArgs (args ++ (a, k) ∷ [])
    → length args + 1 < maxargs
    → parseline (line lead (args ++ (a, k) ∷ []))
      ≡ some (
          if is_ampersand (value a)
          then (values args, true)
          else (values args ++ value a ∷ [], false))
unfolding bounded
parseline-line lead args a k h n =
    let fits : length (values args ++ value a ∷ []) < maxargs =
      omega (arith, length-append (values args) (value a ∷ []), length-map args (λ b. value b.0)) in
    let last : List (Arg × ℕ) = (a, k) ∷ [] in
    parseline-values lead (args ++ last) (concat-ne-nil (a, k) args) h
    ∙ ap bounded (map-append (λ b. value b.0) args last)
    ∙ ground (arith, split_background-append (values args) (value a))

-- A line of MAXARGS arguments or more is written past the end of `argv`.
pub parseline_overflow :
    (lead : ℕ) (args : List (Arg × ℕ))
    → AreArgs args
    → maxargs ≤ length args
    → parseline (line lead args) ≡ none
unfolding bounded
parseline_overflow lead args h n =
    parseline-values lead args (λ e. absurd (omega (arith, ap length e))) h
    ∙ ground (arith, length-map args (λ a. value a.0))
