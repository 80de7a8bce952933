-- ===== src/Shell/Control.antt =====
-- The built-in commands and `eval` of shell-lab2/tsh.c.
pub mod Quiet
pub mod BgFg
pub mod Prompt
pub mod Race
pub mod Arguments
use cs.Base.{
  ℕ, suc, Bool, true, false, not, List, [], ◌∷◌, Option, none, some, ltb, ◌==◌, if◌then◌else◌,
  ◌>>=◌, get_elem?, get_or,
}
use cs.Base.Int.{ℤ, pos, neg}
use cs.CString.{Bytes, codes, str_eq, isdigit, atoi}
use cs.Shell.State.{
  JobState, fg, bg, Shell, sigcont, needs_argument, no_such_job, bad_argument, no_such_process,
  running, kills, failed, print, Interrupt, Outcome, returns, blocked, exits, faults,
}
use cs.Shell.Jobs.{
  addjob, getjobpid, getjobjid, pid2jid, pid_at, jid_at, cmdline_at, set_state, listjobs, initjobs,
}
use cs.Shell.Parse.{parseline}
use cs.Shell.Signals.{deliver, waitfg}

-- What happens outside while a command runs: the signals that come at the call of `kill` or at the
-- unblocking of SIGCHLD, those that come later, what `fork` returns, and whether `setpgid` succeeds.
pub record World : Type 0 where
  pub at_call : List Interrupt
  pub later : List Interrupt
  pub child : ℕ
  pub setpgid : Bool

abbrev pub is_fg_cmd : Bytes → Bool
is_fg_cmd = str_eq (codes "fg")

abbrev pub is_bg_cmd : Bytes → Bool
is_bg_cmd = str_eq (codes "bg")

-- The signals that come at a call, and then the rest of the routine.
abbrev pub then_run : Option Shell → (Shell → Outcome) → Outcome
then_run none k = faults
then_run (some s) k = k s

-- `do_bgfg` from the job at the index `i` on, found by its job id.
unfoldable pub resume_jid : Bytes → ℕ → World → Shell → Outcome
resume_jid cmd i w s =
    let pid = pid_at s.jobs i in
    let s1 = if is_fg_cmd cmd then set_state i fg s else s in
    let s2 =
      if is_bg_cmd cmd
      then print (running (jid_at s1.jobs i) pid (cmdline_at s1.jobs i)) (set_state i bg s1)
      else s1 in
    then_run (deliver w.at_call (print (kills (neg pid) sigcont) s2))
      λ s3. if is_fg_cmd cmd then waitfg (pid_at s3.jobs i) w.later s3 else returns s3 w.later

-- The same, found by its process id: the signals come before the state is changed.
unfoldable pub resume_pid : Bytes → ℕ → World → Shell → Outcome
resume_pid cmd i w s =
    let pid = pid_at s.jobs i in
    then_run (deliver w.at_call (print (kills (neg pid) sigcont) s)) λ s1.
      let waiting = waitfg (pid_at s1.jobs i) w.later (set_state i fg s1) in
      let s2 = set_state i bg s1 in
      if is_fg_cmd cmd
      then waiting
      else if is_bg_cmd cmd
      then returns (print (running (jid_at s2.jobs i) pid (cmdline_at s2.jobs i)) s2) w.later
      else returns s1 w.later

-- `&arg[1]`
unfoldable pub behind_first : Bytes → Bytes
behind_first [] = []
behind_first (c ∷ r) = r

-- `do_bgfg` for the argument `arg`; the byte behind the end of a text is its zero.
unfoldable pub bgfg_arg : Bytes → Bytes → World → Shell → Outcome
bgfg_arg cmd arg w s =
    if get_or arg 0 0 == b'%'
    then elim (getjobjid s.jobs (atoi (behind_first arg))) [
      | none ↦ returns (print (no_such_job arg) s) w.later
      | some i ↦ resume_jid cmd i w s
    ]
    else if not (isdigit (get_or arg 1 0))
    then returns (print (bad_argument cmd) s) w.later
    else elim (getjobpid s.jobs (atoi arg)) [
      | none ↦ returns (print (no_such_process (atoi arg)) s) w.later
      | some i ↦ resume_pid cmd i w s
    ]

unfoldable pub do_bgfg : Bytes → List Bytes → World → Shell → Outcome
do_bgfg cmd [] w s = returns (print (needs_argument cmd) s) w.later
do_bgfg cmd (arg ∷ args) w s = bgfg_arg cmd arg w s

-- `builtin_cmd`; a `none` is FALSE.
unfoldable pub builtin_cmd : Bytes → List Bytes → World → Shell → Option Outcome
builtin_cmd cmd args w s =
    if str_eq cmd (codes "quit")
    then some (exits 0 s)
    else if str_eq cmd (codes "fg")
    then some (do_bgfg cmd args w s)
    else if str_eq cmd (codes "bg")
    then some (do_bgfg cmd args w s)
    else if str_eq cmd (codes "jobs")
    then some (returns (listjobs s) w.later)
    else none

-- `eval` from `fork` on, in the parent. SIGCHLD is blocked until the job is in the list.
unfoldable pub launch : Bool → Bytes → World → Shell → Outcome
launch background cmdline w s =
    if not w.setpgid
    then exits 1 (print (failed (codes "Setpgid error")) s)
    else let s1 = (addjob s w.child 0 (if background then bg else fg) cmdline).0 in
      then_run (deliver w.at_call s1) λ s2.
        waitfg w.child w.later
          (if background then print (running (pid2jid s2.jobs w.child) w.child cmdline) s2 else s2)

eval_argv : List Bytes × Bool → Bytes → World → Shell → Outcome
eval_argv ([], background) cmdline w s = returns s w.later
eval_argv (cmd ∷ args, background) cmdline w s = elim (builtin_cmd cmd args w s) [
  | none ↦ launch background cmdline w s
  | some out ↦ out
]

unfoldable pub eval : Bytes → World → Shell → Outcome
unfolding eval_argv
eval cmdline w s = elim (parseline cmdline) [
  | none ↦ faults
  | some parsed ↦ eval_argv parsed cmdline w s
]

-- The loop of `main` over the lines read. The signals that a command leaves come at the prompt.
unfoldable pub read_eval : List (Bytes × World) → Shell → Outcome
read_eval [] s = exits 0 s
read_eval ((cmdline, w) ∷ rest) s = elim (eval cmdline w s) [
  | returns t later ↦ then_run (deliver later t) (read_eval rest)
  | other ↦ other
]
