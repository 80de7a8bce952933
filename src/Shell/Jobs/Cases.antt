-- ===== src/Shell/Jobs/Cases.antt =====
-- A property of what `addjob` and `deletejob` return, from the property on each path through them.
use cs.Base.{
  ℕ, ◌+◌, ◌≡◌, inl, inr, Bool, true, false, some, ltb, Bool-cases, Option-cases, get_elem?, set,
}
use cs.CString.{Bytes}
use cs.Shell.State.{JobState, Job, Shell, too_many, print}
use cs.Shell.Jobs.{
  index_of, is_free, has_pid, clearjob, clear_at, maxjid, addjob, deletejob, new_job, fill,
}
use cs.Shell.Jobs.Slots.{index_of-some}

pub addjob_cases {ℓ} :
    (P : Shell × Bool → Type ℓ) (s : Shell) (pid pgid : ℕ) (state : JobState) (cmdline : Bytes)
    → P (s, false)
    → P (print too_many s, false)
    → ((i : ℕ)
        → index_of is_free s.jobs ≡ some i
        → P (fill s i (new_job s pid pgid state cmdline), true))
    → P (addjob s pid pgid state cmdline)
unfolding addjob
addjob_cases P s pid pgid state cmdline bad full ok = elim (Bool-cases (ltb pid 1)) [
  | inl t ↦ rw (t, addjob) bad
  | inr f ↦ elim (Option-cases (index_of is_free s.jobs)) [
    | inl e ↦ rw (f, e, addjob) full
    | inr (i, e) ↦ rw (f, e, addjob) (ok i e)
  ]
]

-- The list with the slot `i` cleared.
abbrev pub deleted : Shell → ℕ → Job → Shell
deleted s i j =
    let js = set s.jobs i (clearjob j) in record s { jobs = js; nextjid = maxjid js + 1 }

pub deletejob_cases {ℓ} :
    (P : Shell × Bool → Type ℓ) (s : Shell) (pid : ℕ)
    → P (s, false)
    → ((i : ℕ) (j : Job) → get_elem? s.jobs i ≡ some j → P (deleted s i j, true))
    → P (deletejob s pid)
unfolding deletejob
deletejob_cases P s pid bad ok = elim (Bool-cases (ltb pid 1)) [
  | inl t ↦ rw (t, deletejob) bad
  | inr f ↦ elim (Option-cases (index_of (has_pid pid) s.jobs)) [
    | inl e ↦ rw (f, e, deletejob) bad
    | inr (i, e) ↦
        let (j, g, b) = index_of-some (has_pid pid) s.jobs i e in
        rw (f, e, g, deletejob, clear_at) (ok i j g)
  ]
]
