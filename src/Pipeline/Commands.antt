-- ===== src/Pipeline/Commands.antt =====
-- The children of a pipeline: the words, the files and the pipes that they get.
use cs.Base.{ℕ, ◌+◌, ◌≡◌, List, [], ◌∷◌, Option, none, some, false, ◌||◌}
use cs.CString.{Bytes, codes, str_eq}
use cs.Pipeline.{inherited, pipe_end, End, file, Child}
use cs.Pipeline.Walk.{Command}

-- What a command is to read from or write to, where the pipes give `other`.
abbrev pub given : Option Bytes → End → End
given none other = other
given (some f) other = file f

abbrev pub child_of : End → End → Command → Child
child_of source sink c = record {
  words = c.first ∷ c.others;
  stdin = given c.reads source;
  stdout = given c.writes sink;
}

-- The children where the first reads from `source`, and from number `i` on a pipe goes from each to
-- the next.
abbrev pub children_of : End → ℕ → List Command → List (Option Child)
children_of source i [] = []
children_of source i (c ∷ []) = some (child_of source inherited c) ∷ []
children_of source i (c ∷ (d ∷ cs)) =
    some (child_of source (pipe_end i) c) ∷ children_of (pipe_end i) (i + 1) (d ∷ cs)

-- A word that is no command of the shell itself.
abbrev pub IsProgram : Bytes → Type 0
IsProgram a =
    (str_eq a (codes "quit") ≡ false)
    × ((str_eq a (codes "fg") || (str_eq a (codes "bg") || str_eq a (codes "jobs"))) ≡ false)
