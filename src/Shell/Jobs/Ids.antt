-- ===== src/Shell/Jobs/Ids.antt =====
-- Job ids: `nextjid` against the ids in the list.
use cs.Base.{ℕ, ◌≤◌, ◌<◌, ◌≡◌, refl, inl, true, List, [], ◌∷◌, arith, set, All}
use cs.CString.{Bytes}
use cs.Shell.State.{JobState, Job, Shell, maxjobs}
use cs.Shell.Jobs.{larger, clearjob, maxjid_from, maxjid, addjob, deletejob, new_job}
use cs.Shell.Jobs.Slots.{DistinctBy, All-set, DistinctBy-set}
use cs.Shell.Jobs.Cases.{addjob_cases, deletejob_cases}

-- The next job id is above every id in the list.
abbrev pub Fresh : Shell → Type 0
Fresh s = All (λ j. j.jid < s.nextjid) s.jobs

-- No job id is in two slots.
abbrev pub DistinctIds : List Job → Type 0
DistinctIds = DistinctBy (λ j. j.jid)

All-mono {ℓ κ} :
    {P : Job → Type ℓ} {Q : Job → Type κ} (js : List Job)
    → ((j : Job) → P j → Q j)
    → All P js
    → All Q js
All-mono [] f h = tt
All-mono (j ∷ js) f (hj, h) = (f j hj, All-mono js f h)

maxjid_from-le : (m : ℕ) (js : List Job) → m ≤ maxjid_from m js
unfolding maxjid_from
maxjid_from-le m [] = omega arith
maxjid_from-le m (j ∷ js) = ground (arith, maxjid_from-le j.jid js, maxjid_from-le m js)

maxjid_from-All : (m : ℕ) (js : List Job) → All (λ j. j.jid ≤ maxjid_from m js) js
unfolding maxjid_from
maxjid_from-All m [] = tt
maxjid_from-All m (j ∷ js) = (
  ground (arith, maxjid_from-le j.jid js, maxjid_from-le m js),
  maxjid_from-All (larger m j.jid) js,
)

-- After a deletion the next job id is above every id in the list.
pub deletejob-Fresh : (s : Shell) (pid : ℕ) → (deletejob s pid).1 ≡ true → Fresh (deletejob s pid).0
unfolding maxjid
deletejob-Fresh s pid =
    deletejob_cases (λ r. r.1 ≡ true → Fresh r.0) s pid (λ h. cc)
      λ i j e h.
        let js = set s.jobs i (clearjob j) in
        All-mono js (λ k le. omega arith) (maxjid_from-All 0 js)

-- While the next id is below MAXJOBS an added job leaves it above every id in the list.
pub addjob-Fresh :
    (s : Shell) (pid pgid : ℕ) (state : JobState) (cmdline : Bytes)
    → Fresh s
    → s.nextjid < maxjobs
    → Fresh (addjob s pid pgid state cmdline).0
addjob-Fresh s pid pgid state cmdline f n =
    addjob_cases (λ r. Fresh r.0) s pid pgid state cmdline f f
      λ i e.
        let new = new_job s pid pgid state cmdline in
        All-set _ s.jobs i new (All-mono s.jobs (λ k lt. ground arith) f) (ground arith)

-- A deletion keeps the ids distinct.
pub deletejob-DistinctIds :
    (s : Shell) (pid : ℕ) → DistinctIds s.jobs → DistinctIds (deletejob s pid).0.jobs
deletejob-DistinctIds s pid d =
    deletejob_cases (λ r. DistinctIds r.0.jobs) s pid d
      λ i j e. DistinctBy-set (λ k. k.jid) s.jobs i j (clearjob j) e (inl refl) d
