-- ===== src/Shell/Signals/Change.antt =====
-- What a signal can do to the job list, as a step relation.
use cs.Base.{
  false, sym, ◌⊎◌, subst, ◌≢◌, ℕ, ◌+◌, ◌≤◌, ◌≡◌, refl, inl, inr, List, [], ◌∷◌, some, arith, ◌==◌,
  Bool-cases, Option-cases, get_elem?, set, ltb,
}
use cs.Base.Int.{pos}
use cs.Shell.State.{
  st, Job, Shell, Status, wifstopped, wifsignaled, wifexited, Interrupt, sigchld, ctrl_c, ctrl_z,
  Signal, sigint, sigtstp, terminated, print, returns,
}
use cs.Shell.Jobs.{
  is_fg, has_pid, clearjob, maxjid, fgpid, getjobpid, set_state, pid2jid, deletejob,
}
use cs.Shell.Jobs.Slots.{index_of-some}
use cs.Shell.Jobs.Cases.{deletejob_cases}
use cs.Shell.Signals.{reap, sigchld_handler, forward, handle, deliver, waitfg}

-- The list is left alone, a job is stopped, or a job is cleared and the next job id set.
pub data Change (s t : Shell) : Type 0 where
  same : t.jobs ≡ s.jobs → t.nextjid ≡ s.nextjid → Change s t
  stop :
      (i : ℕ) (j : Job)
      → get_elem? s.jobs i ≡ some j
      → 1 ≤ j.pid
      → t.jobs ≡ set s.jobs i (record j { state = st })
      → t.nextjid ≡ s.nextjid
      → Change s t
  clear :
      (i : ℕ) (j : Job)
      → get_elem? s.jobs i ≡ some j
      → t.jobs ≡ set s.jobs i (clearjob j)
      → t.nextjid ≡ maxjid t.jobs + 1
      → Change s t

deletejob-Change :
    (r s : Shell) (pid : ℕ) → r.jobs ≡ s.jobs → r.nextjid ≡ s.nextjid → Change s (deletejob r pid).0
deletejob-Change r s pid e n =
    deletejob_cases (λ d. Change s d.0) r pid (same e n)
      λ i j g. clear i j (ground arith) (ground arith) refl

getjobpid-some :
    (js : List Job) (pid i : ℕ)
    → getjobpid js (pos pid) ≡ some i
    → (j : Job) × (get_elem? js i ≡ some j) × (j.pid ≡ pid) × (1 ≤ pid)
unfolding getjobpid
getjobpid-some js pid i h = elim (Bool-cases (ltb pid 1)) [
  | inl t ↦ absurd (ground arith)
  | inr f ↦
      let (j, g, b) = index_of-some (has_pid pid) js i (ground arith) in
      (j, g, ground arith, ground arith)
]

-- Every report of a child makes one such change.
pub reap-Change :
    (pid : ℕ) (status : Status) (s t : Shell) → reap pid status s ≡ some t → Change s t
unfolding reap set_state
reap-Change pid (wifstopped sig) s t h = elim (Option-cases (getjobpid s.jobs (pos pid))) [
  | inl e ↦ absurd (ground arith)
  | inr (i, e) ↦
      let (j, g, b, n) = getjobpid-some s.jobs pid i e in
      stop i j g (omega arith) (ground arith) (ground arith)
]
reap-Change pid (wifsignaled sig) s t h =
    subst (Change s) (cc)
      (deletejob-Change (print (terminated (pid2jid s.jobs pid) pid sig) s) s pid refl refl)
reap-Change pid (wifexited code) s t h = subst (Change s) (cc) (deletejob-Change s s pid refl refl)

module _ {ℓ} (P : Shell → Type ℓ) (keep : (s t : Shell) → Change s t → P s → P t) where
  sigchld_handler_inv :
      (cs : List (ℕ × Status)) (s t : Shell) → sigchld_handler cs s ≡ some t → P s → P t
  unfolding sigchld_handler
  sigchld_handler_inv [] s t e h = subst P (cc) h
  sigchld_handler_inv ((pid, status) ∷ cs) s t e h = elim (Option-cases (reap pid status s)) [
    | inl n ↦ absurd (ground arith)
    | inr (r, n) ↦
        sigchld_handler_inv cs r t (ground arith) (keep s r (reap-Change pid status s r n) h)
  ]

  forward_inv : (sig : Signal) (s : Shell) → P s → P (forward sig s)
  unfolding forward
  forward_inv sig s h = keep s _ (same (ground arith) (ground arith)) h

  pub handle_inv : (x : Interrupt) (s t : Shell) → handle x s ≡ some t → P s → P t
  unfolding handle
  handle_inv (sigchld cs) s t e h = sigchld_handler_inv cs s t e h
  handle_inv ctrl_c s t e h = subst P (cc) (forward_inv sigint s h)
  handle_inv ctrl_z s t e h = subst P (cc) (forward_inv sigtstp s h)

  -- What every change keeps, any sequence of signals keeps.
  pub deliver_inv : (xs : List Interrupt) (s t : Shell) → deliver xs s ≡ some t → P s → P t
  unfolding deliver
  deliver_inv [] s t e h = subst P (cc) h
  deliver_inv (x ∷ xs) s t e h = elim (Option-cases (handle x s)) [
    | inl n ↦ absurd (ground arith)
    | inr (r, n) ↦ deliver_inv xs r t (ground arith) (handle_inv x s r n h)
  ]

  -- So does a wait, which ends only when the foreground job is another one.
  pub waitfg_inv :
      (pid : ℕ) (xs : List Interrupt) (s t : Shell) (rest : List Interrupt)
      → waitfg pid xs s ≡ returns t rest
      → P s
      → P t × (fgpid t.jobs ≢ pid)
  unfolding waitfg
  waitfg_inv pid [] s t rest e h = elim (Bool-cases (fgpid s.jobs == pid)) [
    | inl b ↦ absurd (ground arith)
    | inr b ↦ let done : s ≡ t = ground arith in (subst P done h, ground arith)
  ]
  waitfg_inv pid (x ∷ xs) s t rest e h = elim (Bool-cases (fgpid s.jobs == pid)) [
    | inl b ↦ elim (Option-cases (handle x s)) [
      | inl n ↦ absurd (ground arith)
      | inr (r, n) ↦ waitfg_inv pid xs r t rest (ground arith) (handle_inv x s r n h)
    ]
    | inr b ↦ let done : s ≡ t = ground arith in (subst P done h, ground arith)
  ]

-- What survives the replacement of a job by one outside the foreground, under its process or none,
-- survives every change.
pub Change_jobs {ℓ} :
    (P : List Job → Type ℓ)
    → ((js : List Job) (i : ℕ) (j new : Job)
        → get_elem? js i ≡ some j
        → is_fg new.state ≡ false
        → (new.pid ≡ 0) ⊎ (new.pid ≡ j.pid)
        → P js
        → P (set js i new))
    → (s t : Shell) → Change s t
    → P s.jobs
    → P t.jobs
Change_jobs P keep s t (same e n) h = subst P (sym e) h
Change_jobs P keep s t (stop i j g b e n) h =
    subst P (sym e) (keep s.jobs i j (record j { state = st }) g refl (inr refl) h)
Change_jobs P keep s t (clear i j g e n) h =
    subst P (sym e) (keep s.jobs i j (clearjob j) g refl (inl refl) h)
