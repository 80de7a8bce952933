-- ===== src/Shell/Jobs/Table.antt =====
-- The contract of the job list: a map from processes to jobs that holds MAXJOBS of them.
use cs.Base.{
  false, ◌⊎◌, ℕ, suc, ◌≤◌, ◌≡◌, ◌≢◌, refl, inl, inr, List, [], ◌∷◌, none, some, arith, ltb, ◌==◌,
  if◌then◌else◌, Option-cases, get_elem?, set, length, length-set, All,
}
use cs.CString.{Bytes}
use cs.Shell.State.{JobState, undef, Job, Shell, maxjobs}
use cs.Shell.Jobs.{is_fg, index_of, is_free, has_pid, clearjob, addjob, deletejob, new_job}
use cs.Shell.Jobs.Cases.{deletejob_cases}
use cs.Shell.Jobs.Slots.{
  job_of, Absent, Distinct, IsSlot, job_of-clear, All-set, All-get, DistinctBy-set_new,
  DistinctBy-set,
}

pub record IsValid (js : List Job) : Type 0 where
  pub full : length js ≡ maxjobs
  pub distinct : Distinct js
  pub slots : All IsSlot js

-- The number of slots in use.
unfoldable pub occupied : List Job → ℕ
occupied [] = 0
occupied (j ∷ js) = if j.pid == 0 then occupied js else suc (occupied js)

occupied-le : (js : List Job) → occupied js ≤ length js
unfolding occupied
occupied-le [] = omega arith
occupied-le (j ∷ js) = ground (arith, occupied-le js)

full_of_none : (js : List Job) → index_of is_free js ≡ none → occupied js ≡ length js
unfolding occupied index_of
full_of_none [] h = refl
full_of_none (j ∷ js) h = ground (arith, full_of_none js)

occupied-set_free :
    (js : List Job) (i : ℕ) (new : Job)
    → index_of is_free js ≡ some i
    → new.pid ≢ 0
    → (occupied (set js i new) ≡ suc (occupied js)) × (suc (occupied js) ≤ length js)
unfolding occupied index_of
occupied-set_free [] i new h n = cc
occupied-set_free (j ∷ js) i new h n = elim (Option-cases (index_of is_free js)) [
  | inl e ↦ ground (arith, occupied-le js)
  | inr (k, e) ↦ ground (arith, occupied-set_free js k new e n, occupied-le js)
]

-- `addjob` accepts a process exactly when fewer than MAXJOBS slots are in use, and then one more is.
pub addjob_capacity :
    (s : Shell) (pid pgid : ℕ) (state : JobState) (cmdline : Bytes)
    → length s.jobs ≡ maxjobs
    → pid ≢ 0
    → let (t, added) = addjob s pid pgid state cmdline in
      (added ≡ ltb (occupied s.jobs) maxjobs)
      × (occupied t.jobs ≡ (if added then suc (occupied s.jobs) else occupied s.jobs))
unfolding addjob
addjob_capacity s pid pgid state cmdline full n = elim (Option-cases (index_of is_free s.jobs)) [
  | inl e ↦ ground (arith, full_of_none s.jobs e)
  | inr (i, e) ↦
      let new = new_job s pid pgid state cmdline in
      ground (arith, occupied-set_free s.jobs i new e n)
]

-- `addjob` keeps the list valid, and the next job id positive.
pub addjob-IsValid :
    (s : Shell) (pid pgid : ℕ) (state : JobState) (cmdline : Bytes)
    → IsValid s.jobs
    → 1 ≤ s.nextjid
    → Absent pid s.jobs
    → state ≢ undef
    → IsValid (addjob s pid pgid state cmdline).0.jobs
      × (1 ≤ (addjob s pid pgid state cmdline).0.nextjid)
unfolding addjob
addjob-IsValid s pid pgid state cmdline v n a u = elim (Option-cases (index_of is_free s.jobs)) [
  | inl e ↦ ground arith
  | inr (i, e) ↦
      let new = new_job s pid pgid state cmdline in
      ground (
        arith,
        length-set s.jobs i new,
        DistinctBy-set_new (λ j. j.pid) s.jobs i new a v.distinct,
        All-set IsSlot s.jobs i new v.slots,
      )
]

pub job_of-none : (js : List Job) (p : ℕ) → index_of (has_pid p) js ≡ none → job_of p js ≡ none
unfolding job_of index_of
job_of-none [] p h = refl
job_of-none (j ∷ js) p h = ground (arith, job_of-none js p)

-- `deletejob` forgets its process, and leaves every other process's job as it was.
pub deletejob-job_of :
    (s : Shell) (pid q : ℕ)
    → Distinct s.jobs
    → pid ≢ 0
    → q ≢ 0
    → job_of q (deletejob s pid).0.jobs ≡ (if pid == q then none else job_of q s.jobs)
unfolding deletejob
deletejob-job_of s pid q d n z = elim (Option-cases (index_of (has_pid pid) s.jobs)) [
  | inl e ↦ ground (arith, job_of-none s.jobs pid e)
  | inr (i, e) ↦ ground (arith, job_of-clear s.jobs i pid q e d n z)
]

pub clear-IsValid :
    (js : List Job) (i : ℕ) (j : Job)
    → get_elem? js i ≡ some j
    → IsValid js
    → IsValid (set js i (clearjob j))
clear-IsValid js i j e v = record {
  full = ground (arith, length-set js i (clearjob j), v.full);
  distinct = DistinctBy-set (λ k. k.pid) js i j (clearjob j) e (inl refl) v.distinct;
  slots = All-set IsSlot js i (clearjob j) v.slots (inl (refl, refl, refl));
}

-- `deletejob` keeps the list valid.
pub deletejob-IsValid : (s : Shell) (pid : ℕ) → IsValid s.jobs → IsValid (deletejob s pid).0.jobs
deletejob-IsValid s pid v =
    deletejob_cases (λ r. IsValid r.0.jobs) s pid v (λ i j e. clear-IsValid s.jobs i j e v)

-- A change of state keeps the list valid, if the slot holds a job or the new state is not the
-- foreground.
pub restate-IsValid :
    (js : List Job) (i : ℕ) (x : JobState) (j : Job)
    → get_elem? js i ≡ some j
    → (1 ≤ j.pid) ⊎ (is_fg x ≡ false)
    → x ≢ undef
    → IsValid js
    → IsValid (set js i (record j { state = x }))
restate-IsValid js i x j e n u v =
    let new : Job = record j { state = x } in
    record {
      full = ground (arith, length-set js i new, v.full);
      distinct = DistinctBy-set (λ k. k.pid) js i j new e (inr refl) v.distinct;
      slots = All-set IsSlot js i new v.slots (ground (arith, All-get IsSlot js i j v.slots e));
    }
