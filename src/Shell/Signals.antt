-- ===== src/Shell/Signals.antt =====
-- The signal handlers and `waitfg` of shell-lab2/tsh.c.
pub mod Change
pub mod Foreground
pub mod Wait
use cs.Base.{ℕ, Bool, true, false, List, [], ◌∷◌, Option, none, some, ◌==◌, if◌then◌else◌, ◌>>=◌}
use cs.Base.Int.{pos, neg}
use cs.Shell.State.{
  st, Shell, Signal, sigint, sigtstp, stopped, terminated, kills, print, Status, wifstopped,
  wifsignaled, wifexited, Interrupt, sigchld, ctrl_c, ctrl_z, Outcome, returns, blocked, faults,
}
use cs.Shell.Jobs.{fgpid, getjobpid, pid2jid, deletejob, set_state}

-- The body of the loop of `sigchld_handler`, at one child. A `none` is a null pointer.
unfoldable pub reap : ℕ → Status → Shell → Option Shell
reap pid (wifstopped sig) s = do
  i ← getjobpid s.jobs (pos pid)
  let t = set_state i st s
  some (print (stopped (pid2jid t.jobs pid) pid sig) t)
reap pid (wifsignaled sig) s =
    some (deletejob (print (terminated (pid2jid s.jobs pid) pid sig) s) pid).0
reap pid (wifexited code) s = some (deletejob s pid).0

-- The children are those that `waitpid` returns before it returns 0 or -1.
unfoldable pub sigchld_handler : List (ℕ × Status) → Shell → Option Shell
sigchld_handler [] s = some s
sigchld_handler ((pid, status) ∷ rest) s = do t ← reap pid status s; sigchld_handler rest t

-- `sigint_handler` and `sigtstp_handler`.
unfoldable pub forward : Signal → Shell → Shell
forward sig s = let pid = fgpid s.jobs in if pid == 0 then s else print (kills (neg pid) sig) s

unfoldable pub handle : Interrupt → Shell → Option Shell
handle (sigchld children) s = sigchld_handler children s
handle ctrl_c s = some (forward sigint s)
handle ctrl_z s = some (forward sigtstp s)

-- Several signals in turn.
unfoldable pub deliver : List Interrupt → Shell → Option Shell
deliver [] s = some s
deliver (x ∷ xs) s = do t ← handle x s; deliver xs t

-- `waitfg`: each round of `sleep` takes in one signal.
unfoldable pub waitfg : ℕ → List Interrupt → Shell → Outcome
waitfg pid [] s = if fgpid s.jobs == pid then blocked s else returns s []
waitfg pid (x ∷ xs) s =
    if fgpid s.jobs == pid
    then elim (handle x s) [ none ↦ faults | some t ↦ waitfg pid xs t ]
    else returns s (x ∷ xs)
