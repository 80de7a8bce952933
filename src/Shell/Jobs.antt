-- ===== src/Shell/Jobs.antt =====
-- The job list routines of shell-lab2/tsh.c. A pointer into the list is an index.
pub mod Slots
pub mod Cases
pub mod Table
pub mod Ids
pub mod Listing
use cs.Base.{
  ℕ, suc, ◌+◌, Bool, true, false, List, [], ◌∷◌, ◌++◌, Option, none, some, ltb, ◌==◌, if◌then◌else◌,
  get_elem?, set, replicate, length,
}
use cs.Base.Int.{ℤ, pos, negsuc}
use cs.CString.{Bytes}
use cs.Shell.State.{
  JobState, undef, fg, bg, st, Job, Shell, Output, added, too_many, listed, internal_error, maxjobs,
  print,
}

abbrev pub is_fg : JobState → Bool
is_fg fg = true
is_fg _ = false

-- `clearjob`, which leaves `pgid` as it is.
abbrev pub clearjob : Job → Job
clearjob j = record j { pid = 0; jid = 0; state = undef; cmdline = [] }

clear_all : List Job → List Job
clear_all [] = []
clear_all (j ∷ js) = clearjob j ∷ clear_all js

unfoldable pub initjobs : Shell → Shell
unfolding clear_all
initjobs s = record s { jobs = clear_all s.jobs }

-- The loops over the list that end at the first slot with a property.
unfoldable pub index_of : (Job → Bool) → List Job → Option ℕ
index_of p [] = none
index_of p (j ∷ js) =
    if p j then some 0 else elim (index_of p js) [ none ↦ none | some i ↦ some (suc i) ]

larger : ℕ → ℕ → ℕ
larger m j = if ltb m j then j else m

-- The loop of `maxjid`, with `max` in the first argument.
unfoldable pub maxjid_from : ℕ → List Job → ℕ
unfolding larger
maxjid_from m [] = m
maxjid_from m (j ∷ js) = maxjid_from (larger m j.jid) js

unfoldable pub maxjid : List Job → ℕ
maxjid js = maxjid_from 0 js

abbrev pub is_free : Job → Bool
is_free j = j.pid == 0

abbrev pub has_pid : ℕ → Job → Bool
has_pid p j = j.pid == p

abbrev pub has_jid : ℕ → Job → Bool
has_jid n j = j.jid == n

-- `nextjid++`, and back to 1 past MAXJOBS.
abbrev pub jid_after : ℕ → ℕ
jid_after n = if ltb maxjobs (n + 1) then 1 else n + 1

abbrev pub new_job : Shell → ℕ → ℕ → JobState → Bytes → Job
new_job s pid pgid state cmdline = record {
  pid = pid;
  pgid = pgid;
  jid = s.nextjid;
  state = state;
  cmdline = cmdline;
}

-- The slot `i` is filled, and reported if `verbose` is set.
abbrev pub fill : Shell → ℕ → Job → Shell
fill s i j = record s {
  jobs = set s.jobs i j;
  nextjid = jid_after s.nextjid;
  output = if s.verbose then s.output ++ added j.jid j.pid j.cmdline ∷ [] else s.output;
}

unfoldable pub addjob : Shell → ℕ → ℕ → JobState → Bytes → Shell × Bool
addjob s pid pgid state cmdline = if ltb pid 1 then (s, false) else elim (index_of is_free s.jobs) [
  | none ↦ (print too_many s, false)
  | some i ↦ (fill s i (new_job s pid pgid state cmdline), true)
]

abbrev pub clear_at : ℕ → List Job → List Job
clear_at i js = elim (get_elem? js i) [ none ↦ js | some j ↦ set js i (clearjob j) ]

unfoldable pub deletejob : Shell → ℕ → Shell × Bool
deletejob s pid = if ltb pid 1 then (s, false) else elim (index_of (has_pid pid) s.jobs) [
  | none ↦ (s, false)
  | some i ↦ let js = clear_at i s.jobs in (record s { jobs = js; nextjid = maxjid js + 1 }, true)
]

abbrev pub pid_at : List Job → ℕ → ℕ
pid_at js i = elim (get_elem? js i) [ none ↦ 0 | some j ↦ j.pid ]

abbrev pub jid_at : List Job → ℕ → ℕ
jid_at js i = elim (get_elem? js i) [ none ↦ 0 | some j ↦ j.jid ]

abbrev pub cmdline_at : List Job → ℕ → Bytes
cmdline_at js i = elim (get_elem? js i) [ none ↦ [] | some j ↦ j.cmdline ]

unfoldable pub fgpid : List Job → ℕ
fgpid js = elim (index_of (λ j. is_fg j.state) js) [ none ↦ 0 | some i ↦ pid_at js i ]

unfoldable pub getjobpid : List Job → ℤ → Option ℕ
getjobpid js (negsuc n) = none
getjobpid js (pos pid) = if ltb pid 1 then none else index_of (has_pid pid) js

unfoldable pub getjobjid : List Job → ℤ → Option ℕ
getjobjid js (negsuc n) = none
getjobjid js (pos jid) = if ltb jid 1 then none else index_of (has_jid jid) js

unfoldable pub pid2jid : List Job → ℕ → ℕ
pid2jid js pid =
    if ltb pid 1 then 0 else elim (index_of (has_pid pid) js) [ none ↦ 0 | some i ↦ jid_at js i ]

-- The `switch` of `listjobs`, at the slot `i`.
pub list_line : ℕ → Job → Output
list_line i j = elim j.state [
  | undef ↦ internal_error i j.jid j.pid j.cmdline
  | other ↦ listed j.jid j.pid other j.cmdline
]

list_from : ℕ → List Job → Shell → Shell
unfolding list_line
list_from i [] s = s
list_from i (j ∷ js) s = list_from (i + 1) js (if j.pid == 0 then s else print (list_line i j) s)

unfoldable pub listjobs : Shell → Shell
unfolding list_from
listjobs s = list_from 0 s.jobs s

-- `job->state = x` through a pointer.
unfoldable pub set_state : ℕ → JobState → Shell → Shell
set_state i x s = elim (get_elem? s.jobs i) [
  | none ↦ s
  | some j ↦ record s { jobs = set s.jobs i (record j { state = x }) }
]
