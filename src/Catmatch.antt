-- ===== src/Catmatch.antt =====
-- hw1-catmatch/catmatch.c, which prints a file with a mark at each line: 1 where the line has the
-- pattern of the environment, 0 elsewhere.
pub mod Lines
mod Tests
use cs.Base.{ℕ, zero, suc, ◌-◌, List, [], ◌∷◌, ◌++◌, Option, none, some, ◌==◌, ◌||◌, if◌then◌else◌}
use cs.CString.{Bytes, space}
use cs.CString.Search.{strstr, cstr}

abbrev pub newline : ℕ
newline = 10

-- `char str[1024]`, with a zero behind what `fgets` reads.
abbrev pub line_max : ℕ
line_max = 1023

abbrev pub push : ℕ → List Bytes → List Bytes
push c [] = (c ∷ []) ∷ []
push c (l ∷ ls) = (c ∷ l) ∷ ls

-- What the calls of `fgets` read, the first of at most `suc left` bytes: up to a newline, or as much
-- as there is room for.
unfoldable pub fgets_all : ℕ → Bytes → List Bytes
fgets_all left [] = []
fgets_all zero (c ∷ s) = (c ∷ []) ∷ fgets_all (line_max - 1) s
fgets_all (suc left) (c ∷ s) =
    if c == newline then (c ∷ []) ∷ fgets_all (line_max - 1) s else push c (fgets_all left s)

-- `CATMATCH_PATTERN` may be unset.
unfoldable pub marker : Option Bytes → Bytes → ℕ
marker none str = 0
marker (some pattern) str = elim (strstr pattern str) [ none ↦ 0 | some found ↦ 1 ]

-- `printf("%d %s", marker, str)`
unfoldable pub marked : Option Bytes → Bytes → Bytes
marked pattern str = (if marker pattern str == 1 then b'1' else b'0') ∷ (space ∷ str)

unfoldable pub print_lines : Option Bytes → List Bytes → Bytes
print_lines pattern [] = newline ∷ []
print_lines pattern (l ∷ ls) = marked pattern (cstr l) ++ print_lines pattern ls

-- What is printed for a file that can be opened.
unfoldable pub catmatch : Option Bytes → Bytes → Bytes
catmatch pattern text = print_lines pattern (fgets_all (line_max - 1) text)
