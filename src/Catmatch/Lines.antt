-- ===== src/Catmatch/Lines.antt =====
-- Whole lines, and what their marks mean.
use cs.Base.{◌<◌, ◌≡◌, List, [], ◌∷◌, ◌++◌, some, length}
use cs.CString.{Bytes, Lacks}
use cs.Catmatch.{newline, line_max, marked}

-- The pattern stands somewhere in the text.
abbrev pub Occurs : Bytes → Bytes → Type 0
Occurs p s = (front : Bytes) × (back : Bytes) × (s ≡ front ++ (p ++ back))

-- Lines with a newline behind each.
abbrev pub with_newlines : List Bytes → Bytes
with_newlines [] = []
with_newlines (l ∷ ls) = l ++ newline ∷ with_newlines ls

abbrev pub IsLine : Bytes → Type 0
IsLine l = Lacks newline l × (Lacks 0 l × (length l < line_max))

-- A line with its mark.
abbrev pub marked_lines : Bytes → List Bytes → Bytes
marked_lines p [] = newline ∷ []
marked_lines p (l ∷ ls) = marked (some p) (l ++ newline ∷ []) ++ marked_lines p ls
