-- ===== src/Shell/Jobs/Listing.antt =====
-- `listjobs` prints, and changes nothing.
use cs.Base.{
  ℕ, ◌+◌, ◌≡◌, refl, List, [], ◌∷◌, ◌++◌, arith, ◌==◌, if◌then◌else◌, append_assoc, append-nil,
}
use cs.Shell.State.{Job, Shell, Output, print}
use cs.Shell.Jobs.{list_line, list_from, listjobs}

-- The lines of the jobs from the slot `i` on: the slots in use, in their order.
pub lines : ℕ → List Job → List Output
lines i [] = []
lines i (j ∷ js) = if j.pid == 0 then lines (i + 1) js else list_line i j ∷ lines (i + 1) js

list_from-lines :
    (i : ℕ) (js : List Job) (s : Shell)
    → list_from i js s ≡ record s { output = s.output ++ lines i js }
unfolding list_from lines
list_from-lines i [] s = ground (arith, append-nil s.output)
list_from-lines i (j ∷ js) s = ground (
  arith,
  list_from-lines (i + 1) js s,
  list_from-lines (i + 1) js (print (list_line i j) s),
  append_assoc s.output (list_line i j ∷ []) (lines (i + 1) js),
)

-- `listjobs` prints one line for each slot in use, in their order, and changes nothing else.
pub listjobs-lines : (s : Shell) → listjobs s ≡ record s { output = s.output ++ lines 0 s.jobs }
unfolding listjobs
listjobs-lines s = list_from-lines 0 s.jobs s

pub listjobs-jobs : (s : Shell) → ((listjobs s).jobs ≡ s.jobs) × ((listjobs s).nextjid ≡ s.nextjid)
listjobs-jobs s = rw (listjobs-lines s) (refl, refl)
