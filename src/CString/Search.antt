-- ===== src/CString/Search.antt =====
-- `strstr`, the first call of `strtok`, and reading a string inside a buffer.
use cs.Base.{
  ℕ, zero, suc, ◌+◌, ◌≡◌, refl, Bool, true, false, [], ◌∷◌, ◌++◌, Option, none, some, arith, ◌==◌,
  if◌then◌else◌, ◌&&◌, length,
}
use cs.CString.{Bytes, Lacks}
use native.Mathlib.Numerals.{add-one}

unfoldable pub starts_with : Bytes → Bytes → Bool
starts_with [] s = true
starts_with (c ∷ p) [] = false
starts_with (c ∷ p) (d ∷ s) = c == d && starts_with p s

-- `strstr(s, p)`: the text from the first place on where `p` stands.
unfoldable pub strstr : Bytes → Bytes → Option Bytes
strstr p [] = if starts_with p [] then some [] else none
strstr p (c ∷ s) = if starts_with p (c ∷ s) then some (c ∷ s) else strstr p s

-- The string that begins in a buffer: what stands before its first zero.
unfoldable pub cstr : Bytes → Bytes
cstr [] = []
cstr (c ∷ s) = if c == 0 then [] else c ∷ cstr s

-- The bytes before the first `d`, and those from it on.
unfoldable pub span : ℕ → Bytes → Bytes × Bytes
span d [] = ([], [])
span d (c ∷ s) = if c == d then ([], c ∷ s) else let (w, r) = span d s in (c ∷ w, r)

-- The bytes `d` in front, and the rest.
unfoldable pub leading : ℕ → Bytes → Bytes × Bytes
leading d [] = ([], [])
leading d (c ∷ s) = if c == d then (let (w, r) = leading d s in (c ∷ w, r)) else ([], c ∷ s)

-- A token of `strtok(s, d)`: where it begins, its text, and the buffer as the call leaves it, with a
-- zero in place of the delimiter behind the token.
pub record Token : Type 0 where
  pub start : ℕ
  pub text : Bytes
  pub buffer : Bytes

cut_at : Bytes → Bytes → Bytes
cut_at front [] = front
cut_at front (d ∷ rest) = front ++ 0 ∷ rest

token_of : Bytes → Bytes × Bytes → Option Token
token_of lead ([], rest) = none
token_of lead (c ∷ w, rest) =
    some (record { start = length lead; text = c ∷ w; buffer = cut_at (lead ++ c ∷ w) rest })

unfoldable pub strtok : ℕ → Bytes → Option Token
unfolding leading span token_of cut_at
strtok d s = let (lead, rest) = leading d s in token_of lead (span d rest)

-- `&s[n]`, if it stands in the string or at its zero.
unfoldable pub advance : ℕ → Bytes → Option Bytes
advance zero s = some s
advance (suc n) [] = none
advance (suc n) (c ∷ s) = advance n s

pub advance-append : (w s : Bytes) → advance (length w) (w ++ s) ≡ some s
unfolding advance
advance-append [] s = refl
advance-append (c ∷ w) s = advance-append w s

pub span-append : (d : ℕ) (w r : Bytes) → Lacks d w → span d (w ++ d ∷ r) ≡ (w, d ∷ r)
unfolding span
span-append d [] r h = ground arith
span-append d (c ∷ w) r (n, h) = ground (arith, span-append d w r h)

pub span-Lacks : (d : ℕ) (w : Bytes) → Lacks d w → span d w ≡ (w, [])
unfolding span
span-Lacks d [] h = refl
span-Lacks d (c ∷ w) (n, h) = ground (arith, span-Lacks d w h)

-- The token of a text that begins with one.
pub strtok-append :
    (d c : ℕ) (w r : Bytes)
    → Lacks d (c ∷ w)
    → strtok d (c ∷ w ++ d ∷ r) ≡ some (record { start = 0; text = c ∷ w; buffer = c ∷ w ++ 0 ∷ r })
unfolding strtok
strtok-append d c w r h = ground (arith, span-append d (c ∷ w) r h)

pub strtok-Lacks :
    (d c : ℕ) (w : Bytes)
    → Lacks d (c ∷ w)
    → strtok d (c ∷ w) ≡ some (record { start = 0; text = c ∷ w; buffer = c ∷ w })
unfolding strtok
strtok-Lacks d c w h = ground (arith, span-Lacks d (c ∷ w) h)

pub cstr-zero : (w r : Bytes) → Lacks 0 w → cstr (w ++ 0 ∷ r) ≡ w
unfolding cstr
cstr-zero [] r h = ground arith
cstr-zero (c ∷ w) r (n, h) = ground (arith, cstr-zero w r h)

pub cstr-Lacks : (w : Bytes) → Lacks 0 w → cstr w ≡ w
unfolding cstr
cstr-Lacks [] h = refl
cstr-Lacks (c ∷ w) (n, h) = ground (arith, cstr-Lacks w h)

-- A text of one byte is found where it first stands.
pub strstr-byte : (d : ℕ) (w r : Bytes) → Lacks d w → strstr (d ∷ []) (w ++ d ∷ r) ≡ some (d ∷ r)
unfolding strstr starts_with
strstr-byte d [] r h = ground arith
strstr-byte d (c ∷ w) r (n, h) = ground (arith, strstr-byte d w r h)

pub strstr-Lacks : (d : ℕ) (w : Bytes) → Lacks d w → strstr (d ∷ []) w ≡ none
unfolding strstr starts_with
strstr-Lacks d [] h = ground arith
strstr-Lacks d (c ∷ w) (n, h) = ground (arith, strstr-Lacks d w h)

-- The text behind a delimiter.
pub advance-past : (w : Bytes) (c : ℕ) (s : Bytes) → advance (length w + 1) (w ++ c ∷ s) ≡ some s
unfolding advance
advance-past [] c s = refl
advance-past (x ∷ w) c s = rw add-one (rw add-one at (advance-past w c s))
