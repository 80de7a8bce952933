-- ===== src/Catmatch/Tests.antt =====
-- A run of catmatch.
use cs.Base.{List, [], ◌∷◌}
use cs.CString.{Bytes, codes}

abbrev two_lines : List Bytes
two_lines = codes "a linux b" ∷ codes "unix" ∷ []
