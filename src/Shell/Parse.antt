-- ===== src/Shell/Parse.antt =====
-- `parseline` of shell-lab2/tsh.c. The buffer is the text that is still to be read; a `none` is a
-- write outside an array.
pub mod Words
pub mod RoundTrip
use cs.Base.{
  ℕ, zero, suc, ◌-◌, Bool, true, false, List, [], ◌∷◌, Option, none, some, ltb, ◌==◌, if◌then◌else◌,
  length,
}
use cs.CString.{Bytes, space, strchr, skip_spaces}

abbrev pub maxargs : ℕ
maxargs = 128

abbrev pub quote : ℕ
quote = b'\''

abbrev pub ampersand : ℕ
ampersand = b'&'

-- `buf[strlen(buf)-1] = ' '`, for a text that is not empty.
unfoldable pub set_last : Bytes → ℕ → Bytes
set_last [] x = []
set_last (c ∷ []) x = x ∷ []
set_last (c ∷ d ∷ s) x = c ∷ set_last (d ∷ s) x

-- The next argument and the text behind its delimiter, if the delimiter is there.
unfoldable pub next_word : Bytes → Option (Bytes × Bytes)
next_word [] = strchr space []
next_word (c ∷ s) = if c == quote then strchr quote s else strchr space (c ∷ s)

-- The `while (delim)` loop.
unfoldable pub words : ℕ → Bytes → List Bytes
words zero buf = []
words (suc f) buf = elim (next_word buf) [
  | none ↦ []
  | some (w, rest) ↦ w ∷ words f (skip_spaces rest)
]

-- `*arg == '&'`; the byte at the end of a text is its zero.
abbrev pub is_ampersand : Bytes → Bool
is_ampersand [] = false
is_ampersand (c ∷ s) = c == ampersand

-- `bg` and `argv[--argc] = NULL`.
unfoldable pub split_background : List Bytes → List Bytes × Bool
split_background [] = ([], true)
split_background (w ∷ []) = if is_ampersand w then ([], true) else (w ∷ [], false)
split_background (w ∷ v ∷ ws) = let (rest, bg) = split_background (v ∷ ws) in (w ∷ rest, bg)

-- `argv[argc] = NULL` is the last write of the loop, at the index `argc`.
unfoldable pub bounded : List Bytes → Option (List Bytes × Bool)
bounded argv = if ltb (length argv) maxargs then some (split_background argv) else none

unfoldable pub parseline : Bytes → Option (List Bytes × Bool)
parseline [] = none
parseline (c ∷ s) =
    let buf = skip_spaces (set_last (c ∷ s) space) in bounded (words (suc (length buf)) buf)
