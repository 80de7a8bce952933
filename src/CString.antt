-- ===== src/CString.antt =====
-- The C string functions that the programs call, over the bytes before the terminating zero.
pub mod Search
pub mod Store
use Prim.Native.Char.{code}
use Prim.Native.String.{String}
use cs.Base.{
  ℕ, ◌+◌, ◌-◌, ◌*◌, ◌≤◌, ◌<◌, ◌≡◌, ◌≢◌, ◌↔◌, refl, Bool, true, false, ◌&&◌, ◌||◌, List, [], ◌∷◌,
  ◌++◌, Option, none, some, arith, leb, ◌==◌, inl, inr, Option-cases, if◌then◌else◌, All, length,
}
use cs.Base.Int.{ℤ, pos, neg}

-- The bytes of a string, or of the part of a buffer before its zero.
abbrev pub Bytes : Type 0
Bytes = List ℕ

-- The bytes of an ASCII literal.
abbrev pub codes : String → Bytes
codes String.[] = []
codes (String.◌∷◌ c s) = code c ∷ codes s

abbrev pub space : ℕ
space = b' '

-- `strcmp(a, b) == 0`
unfoldable pub str_eq : Bytes → Bytes → Bool
str_eq [] [] = true
str_eq [] (d ∷ b) = false
str_eq (c ∷ a) [] = false
str_eq (c ∷ a) (d ∷ b) = c == d && str_eq a b

pub str_eq_iff : (a b : Bytes) → (str_eq a b ≡ true) ↔ (a ≡ b)
unfolding str_eq
str_eq_iff [] [] = ground arith
str_eq_iff [] (d ∷ b) = ground arith
str_eq_iff (c ∷ a) [] = ground arith
str_eq_iff (c ∷ a) (d ∷ b) = ground (arith, str_eq_iff a b)

-- `strchr(s, c)`: the text before the first `c`, and the text behind it.
unfoldable pub strchr : ℕ → Bytes → Option (Bytes × Bytes)
strchr c [] = none
strchr c (d ∷ s) =
    if d == c
    then some ([], s)
    else elim (strchr c s) [ none ↦ none | some (p, r) ↦ some (d ∷ p, r) ]

-- No byte of the text is `c`.
abbrev pub Lacks : ℕ → Bytes → Type 0
Lacks c = All (λ d. d ≢ c)

pub strchr-append : (c : ℕ) (p r : Bytes) → Lacks c p → strchr c (p ++ c ∷ r) ≡ some (p, r)
unfolding strchr
strchr-append c [] r h = ground arith
strchr-append c (d ∷ p) r (hd, h) = ground (arith, strchr-append c p r h)

-- What follows a found byte is shorter than the text.
pub strchr-length : (c : ℕ) (s p r : Bytes) → strchr c s ≡ some (p, r) → length r < length s
unfolding strchr
strchr-length c [] p r h = ground arith
strchr-length c (d ∷ s) p r h = elim (Option-cases (strchr c s)) [
  | inl e ↦ ground arith
  | inr ((q, t), e) ↦ ground (arith, strchr-length c s q t e)
]

pub strchr-Lacks : (c : ℕ) (s : Bytes) → Lacks c s → strchr c s ≡ none
unfolding strchr
strchr-Lacks c [] h = refl
strchr-Lacks c (d ∷ s) (hd, h) = ground (arith, strchr-Lacks c s h)

-- `while (*buf && *buf == ' ') buf++`
unfoldable pub skip_spaces : Bytes → Bytes
skip_spaces [] = []
skip_spaces (c ∷ s) = if c == space then skip_spaces s else c ∷ s

pub length-skip_spaces : (s : Bytes) → length (skip_spaces s) ≤ length s
unfolding skip_spaces
length-skip_spaces [] = omega arith
length-skip_spaces (c ∷ s) = ground (arith, length-skip_spaces s)

-- `isdigit(c)`
unfoldable pub isdigit : ℕ → Bool
isdigit c = leb b'0' c && leb c b'9'

digits_value : ℕ → Bytes → ℕ
digits_value n [] = n
digits_value n (c ∷ s) =
    let rest = digits_value (n * 10 + (c - b'0')) s in if isdigit c then rest else n

skip_white : Bytes → Bytes
skip_white [] = []
skip_white (c ∷ s) = if c == space || (leb 9 c && leb c 13) then skip_white s else c ∷ s

atoi_sign : Bytes → ℤ
atoi_sign [] = pos 0
atoi_sign (c ∷ s) =
    if c == b'-'
    then neg (digits_value 0 s)
    else if c == b'+'
    then pos (digits_value 0 s)
    else pos (digits_value 0 (c ∷ s))

-- `atoi(s)`: white space, a sign, and the digits up to the first other byte. (A value outside the
-- range of `int` is undefined in C.)
unfoldable pub atoi : Bytes → ℤ
unfolding digits_value skip_white atoi_sign isdigit
atoi s = atoi_sign (skip_white s)
