-- ===== src/Shell/State.antt =====
-- The data of shell-lab2/tsh.c: the job list, the globals, and what the shell does to the outside.
use cs.Base.{ℕ, Bool, List, [], ◌∷◌, ◌++◌}
use cs.Base.Int.{ℤ}
use cs.CString.{Bytes}

-- UNDEF, FG, BG, ST
pub data JobState : Type 0 where
  undef fg bg st : JobState

-- `struct job_t`. A pid that reaches the list comes from `fork` or `waitpid`, and is not negative.
pub record Job : Type 0 where
  pub pid : ℕ
  pub pgid : ℕ
  pub jid : ℕ
  pub state : JobState
  pub cmdline : Bytes

-- The signals that the shell sends.
pub data Signal : Type 0 where
  sigint sigtstp sigcont : Signal

-- A line that the shell prints, one constructor for each `printf`, or a call of `kill`.
pub data Output : Type 0 where
  added : ℕ → ℕ → Bytes → Output  -- Added job [%d] %d %s
  too_many : Output  -- Tried to create too many jobs
  listed : ℕ → ℕ → JobState → Bytes → Output  -- [%d] (%d) Running %s
  internal_error : ℕ → ℕ → ℕ → Bytes → Output  -- listjobs: Internal error: job[%d]
  stopped : ℕ → ℕ → ℕ → Output  -- Job [%d] (%d) stopped by signal %d
  terminated : ℕ → ℕ → ℕ → Output  -- Job [%d] (%d) terminated by signal %d
  running : ℕ → ℕ → Bytes → Output  -- [%d] (%d) %s
  needs_argument : Bytes → Output  -- %s command requires PID or %%job id argument
  no_such_job : Bytes → Output  -- %s: No such job
  bad_argument : Bytes → Output  -- %s: argument must be a PID or %%job id
  no_such_process : ℤ → Output  -- (%d): No such process
  failed : Bytes → Output  -- %s: %s, of unix_error
  kills : ℤ → Signal → Output  -- kill(pid, sig)

-- What `waitpid` tells of a child: stopped by a signal, ended by a signal, or ended with a code.
pub data Status : Type 0 where
  wifstopped wifsignaled wifexited : ℕ → Status

-- A signal that reaches the shell: SIGCHLD with the children that its handler finds, SIGINT, SIGTSTP.
pub data Interrupt : Type 0 where
  sigchld : List (ℕ × Status) → Interrupt
  ctrl_c ctrl_z : Interrupt

-- The globals, and the output so far, the oldest first.
pub record Shell : Type 0 where
  pub jobs : List Job
  pub nextjid : ℕ
  pub verbose : Bool
  pub output : List Output

abbrev pub maxjobs : ℕ
maxjobs = 16

abbrev pub print : Output → Shell → Shell
print o s = record s { output = s.output ++ o ∷ [] }

-- How a routine that may wait ends: it returns, with the signals that are still to come; it waits
-- for a signal that does not come; it ends the shell; or it follows a null pointer or writes
-- outside an array.
pub data Outcome : Type 0 where
  returns : Shell → List Interrupt → Outcome
  blocked : Shell → Outcome
  exits : ℕ → Shell → Outcome
  faults : Outcome
