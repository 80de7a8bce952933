-- ===== src/Shell/Signals/Wait.antt =====
-- When `waitfg` ends, and when a signal handler follows a null pointer.
use cs.Base.{ℕ, ◌≤◌, ◌≡◌, ◌≢◌, ◌↔◌, refl, inl, inr, List, [], ◌∷◌, none, some, arith, Option-cases}
use cs.Shell.State.{st, Job, Shell, print, stopped, Status, wifexited, wifstopped, wifsignaled}
use cs.Shell.Jobs.{pid2jid, index_of, has_pid, set_state, getjobpid}
use cs.Shell.Jobs.Slots.{job_of}
use cs.Shell.Jobs.Table.{job_of-none}
use cs.Shell.Signals.{reap}

job_of-some : (js : List Job) (p i : ℕ) → index_of (has_pid p) js ≡ some i → job_of p js ≢ none
unfolding job_of index_of
job_of-some [] p i h e = cc
job_of-some (j ∷ js) p i h e = elim (Option-cases (index_of (has_pid p) js)) [
  | inl n ↦ ground arith
  | inr (k, n) ↦ ground (arith, job_of-some js p k n)
]

-- At one child the handler follows a null pointer exactly when the child stopped and has no job.
pub reap_faults :
    (pid : ℕ) (status : Status) (s : Shell)
    → 1 ≤ pid
    → (reap pid status s ≡ none)
      ↔ (((sig : ℕ) × (status ≡ wifstopped sig)) × (job_of pid s.jobs ≡ none))
unfolding reap getjobpid
reap_faults pid (wifexited code) s n = (λ e. cc, λ (d, e). cc)
reap_faults pid (wifsignaled sig) s n = (λ e. cc, λ (d, e). cc)
reap_faults pid (wifstopped sig) s n = elim (Option-cases (index_of (has_pid pid) s.jobs)) [
  | inl e ↦ (λ h. ((sig, refl), job_of-none s.jobs pid e), λ h. ground arith)
  | inr (i, e) ↦ (λ h. absurd (ground arith), λ h. absurd (job_of-some s.jobs pid i e h.1))
]

abbrev stop_at : ℕ → ℕ → ℕ → Shell → Shell
stop_at pid sig i s = let t = set_state i st s in print (stopped (pid2jid t.jobs pid) pid sig) t
