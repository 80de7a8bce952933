-- ===== src/Shell/Control/Race.antt =====
-- The race of `do_bgfg` with SIGCHLD: the job is gone when `waitfg(job->pid)` reads its process.
use cs.Base.{
  ℕ, ◌≤◌, ◌≡◌, ◌≢◌, refl, ap, ◌⊎◌, inl, inr, false, List, [], ◌∷◌, some, arith, Option-cases,
  get_elem?, set, get_elem?-set_self, get_elem?-set_ne, get_elem?-lt,
}
use native.Mathlib.Decide.{ℕ_discrete}
use cs.Base.Int.{neg}
use cs.CString.{codes, str_eq}
use cs.Shell.State.{
  JobState, fg, Job, Shell, Interrupt, sigchld, wifexited, returns, print, kills, sigcont,
}
use cs.Shell.Jobs.{clearjob, is_fg, pid_at, set_state, deletejob}
use cs.Shell.Jobs.Slots.{Absent, Distinct, Absent-of_none, All-set, All-get}
use cs.Shell.Jobs.Cases.{deletejob_cases}
use cs.Shell.Jobs.Table.{deletejob-job_of}
use cs.Shell.Signals.{deliver, handle, sigchld_handler, reap}
use cs.Shell.Signals.Change.{Change_jobs, deliver_inv}
use cs.Shell.Signals.Foreground.{FgIs-of_OnlyAt, deliver-OnlyAt, waitfg_zero}
use cs.Shell.Control.{World, resume_jid}
use cs.Shell.Control.Quiet.{AtPrompt, then_run-Returns, set_state-Ok, set_state-OnlyAt}

-- The process has no job, and the slot that held it holds no other.
record Gone (i p : ℕ) (js : List Job) : Type 0 where
  absent : Absent p js
  slot : (pid_at js i ≡ 0) ⊎ (pid_at js i ≡ p)

pid_at-set :
    (js : List Job) (i k p : ℕ) (j new : Job)
    → get_elem? js k ≡ some j
    → (new.pid ≡ 0) ⊎ (new.pid ≡ j.pid)
    → (pid_at js i ≡ 0) ⊎ (pid_at js i ≡ p)
    → (pid_at (set js k new) i ≡ 0) ⊎ (pid_at (set js k new) i ≡ p)
pid_at-set js i k p j new g c h = elim (ℕ_discrete k i) [
  | yes e ↦
      let here = get_elem?-set_self js k new (get_elem?-lt js k j g) in
      ground (arith, here, ap (get_elem? js) e, ap (get_elem? (set js k new)) e)
  | no ne ↦ ground (arith, get_elem?-set_ne js new ne)
]

Gone-set :
    (i p : ℕ)
    → p ≢ 0
    → (js : List Job) (k : ℕ) (j new : Job) → get_elem? js k ≡ some j
    → is_fg new.state ≡ false
    → (new.pid ≡ 0) ⊎ (new.pid ≡ j.pid)
    → Gone i p js
    → Gone i p (set js k new)
Gone-set i p z js k j new g f c h =
    let apart = All-get _ js k j h.absent g in
    record {
      absent = All-set _ js k new h.absent (ground arith);
      slot = pid_at-set js i k p j new g c h.slot;
    }

-- Such a slot is free.
Gone-zero : (i p : ℕ) (js : List Job) → p ≢ 0 → Gone i p js → pid_at js i ≡ 0
Gone-zero i p js z h = elim (Option-cases (get_elem? js i)) [
  | inl e ↦ rw (e, pid_at)
  | inr (j, e) ↦ ground (arith, All-get _ js i j h.absent e, h.slot)
]

deletejob-Gone :
    (s : Shell) (i p : ℕ)
    → p ≢ 0
    → Distinct s.jobs
    → pid_at s.jobs i ≡ p
    → Gone i p (deletejob s p).0.jobs
deletejob-Gone s i p z d e = record {
  absent = Absent-of_none p _ (ground (arith, deletejob-job_of s p p d z z));
  slot =
      deletejob_cases (λ r. (pid_at r.0.jobs i ≡ 0) ⊎ (pid_at r.0.jobs i ≡ p)) s p (inr e)
        λ k j g. pid_at-set s.jobs i k p j (clearjob j) g (inl refl) (inr e);
}

pid_at-set_state :
    (s : Shell) (i : ℕ) (x : JobState) → pid_at (set_state i x s).jobs i ≡ pid_at s.jobs i
unfolding set_state
pid_at-set_state s i x = elim (Option-cases (get_elem? s.jobs i)) [
  | inl e ↦ rw (e, set_state)
  | inr (j, e) ↦
      let here = get_elem?-set_self s.jobs i (record j { state = x }) (get_elem?-lt s.jobs i j e) in
      rw (e, set_state, pid_at) (ground arith)
]

deliver-exit :
    (p code : ℕ) (xs : List Interrupt) (s t : Shell)
    → deliver (sigchld ((p, wifexited code) ∷ []) ∷ xs) s ≡ some t
    → deliver xs (deletejob s p).0 ≡ some t
unfolding deliver handle sigchld_handler reap
deliver-exit p code xs s t e = e

-- `fg` of a job by its id never returns if the job ends, and is reaped, before `waitfg(job->pid)` is
-- called: the process read is then 0, and `fgpid` is 0 from then on. This holds whatever signals
-- come afterwards.
pub fg_hangs :
    (i code : ℕ) (xs : List Interrupt) (w : World) (s t : Shell) (rest : List Interrupt)
    → AtPrompt s
    → 1 ≤ pid_at s.jobs i
    → w.at_call ≡ sigchld ((pid_at s.jobs i, wifexited code) ∷ []) ∷ xs
    → resume_jid (codes "fg") i w s ≢ returns t rest
unfolding resume_jid str_eq
fg_hangs i code xs w s t rest a n e d =
    let p = pid_at s.jobs i in
    let s2 = print (kills (neg p) sigcont) (set_state i fg s) in
    then_run-Returns (λ _. ⊥) (deliver w.at_call s2) _
      (λ s3 m t' rest' r.
        let z : p ≢ 0 = λ q. omega arith in
        let ok = set_state-Ok s i fg (inl n) (λ x. cc) a.ok in
        let left = deliver-exit p code xs s2 s3 (rw e at m) in
        let gone =
          deliver_inv (λ u. Gone i p u.jobs) (Change_jobs (Gone i p) (Gone-set i p z)) xs
            (deletejob s2 p).0 s3 left
            (deletejob-Gone s2 i p z ok.valid.distinct (pid_at-set_state s i fg)) in
        let free = Gone-zero i p s3.jobs z gone in
        let only =
          FgIs-of_OnlyAt i p s3.jobs
            (deliver-OnlyAt i p w.at_call s2 s3 m (set_state-OnlyAt s i fg a.quiet)) in
        waitfg_zero w.later s3 t' rest' (rw free at only) (rw free at r))
      t rest d
