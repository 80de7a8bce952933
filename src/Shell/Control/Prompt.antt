-- ===== src/Shell/Control/Prompt.antt =====
-- The prompt: whatever command was run, no job is left in the foreground.
use cs.Base.{
  ℕ, zero, suc, ◌≡◌, ◌≢◌, refl, subst, inl, inr, Bool, true, false, List, [], ◌∷◌, some, arith,
  if◌then◌else◌, Bool-cases, Option-cases, All, not, replicate,
}
use cs.CString.{Bytes, codes, str_eq, str_eq_iff}
use cs.Shell.State.{
  JobState, undef, fg, bg, Job, Shell, Interrupt, Output, Outcome, returns, maxjobs, print, running,
}
use cs.Shell.Jobs.{is_fg, addjob, pid2jid, new_job, listjobs, initjobs}
use cs.Shell.Jobs.Slots.{IsSlot, Distinct, Absent, All-set}
use cs.Shell.Jobs.Cases.{addjob_cases}
use cs.Shell.Jobs.Table.{addjob-IsValid}
use cs.Shell.Jobs.Listing.{listjobs-jobs}
use cs.Shell.Signals.{deliver, waitfg}
use cs.Shell.Signals.Foreground.{
  Ok, NoFg, FgIs, FgIs-of_NoFg, deliver-Ok, deliver-NoFg, deliver-FgIs, waitfg-NoFg,
}
use cs.Shell.Parse.{parseline}
use cs.Shell.Control.{World, builtin_cmd, launch, eval_argv, eval}
use cs.Shell.Control.Quiet.{AtPrompt, Returns, returned, then_run-Returns, print-Ok}
use cs.Shell.Control.BgFg.{do_bgfg-AtPrompt}

-- The wait that ends `eval`.
wait_new :
    (background : Bool) (o : Output) (p : ℕ) (xs : List Interrupt) (s : Shell)
    → Ok s
    → FgIs p s.jobs
    → Returns AtPrompt (waitfg p xs (if background then print o s else s))
wait_new true o p xs s v h t rest e =
    let (v', q) = waitfg-NoFg p xs (print o s) t rest e (print-Ok s o v) h in
    record { ok = v'; quiet = q }
wait_new false o p xs s v h t rest e =
    let (v', q) = waitfg-NoFg p xs s t rest e v h in record { ok = v'; quiet = q }

abbrev state_of : Bool → JobState
state_of background = if background then bg else fg

state_of-ne : (b : Bool) → state_of b ≢ undef
state_of-ne true e = cc
state_of-ne false e = cc

addjob-FgIs :
    (s : Shell) (pid pgid : ℕ) (state : JobState) (cmdline : Bytes)
    → NoFg s.jobs
    → FgIs pid (addjob s pid pgid state cmdline).0.jobs
addjob-FgIs s pid pgid state cmdline h =
    let none_else = FgIs-of_NoFg pid s.jobs h in
    addjob_cases (λ r. FgIs pid r.0.jobs) s pid pgid state cmdline none_else none_else
      λ i e. All-set _ s.jobs i (new_job s pid pgid state cmdline) none_else (inr refl)

-- `eval` from `fork` on: the new job is the only one in the foreground, if it is there at all.
launch-AtPrompt :
    (background : Bool) (cmdline : Bytes) (w : World) (s : Shell)
    → AtPrompt s
    → Absent w.child s.jobs
    → Returns AtPrompt (launch background cmdline w s)
unfolding launch
launch-AtPrompt background cmdline w s a new = elim (Bool-cases (not w.setpgid)) [
  | inl refused ↦ rw (refused, launch) (λ t rest e. cc)
  | inr made ↦
      let s1 = (addjob s w.child 0 (state_of background) cmdline).0 in
      let (valid, positive) =
        addjob-IsValid s w.child 0 (state_of background) cmdline a.ok.valid a.ok.positive new
          (state_of-ne background) in
      let only = addjob-FgIs s w.child 0 (state_of background) cmdline a.quiet in
      rw (made, launch)
        (then_run-Returns AtPrompt (deliver w.at_call s1) _ λ s2 e.
          wait_new background (running (pid2jid s2.jobs w.child) w.child cmdline) w.child w.later s2
            (deliver-Ok w.at_call s1 s2 e (record { valid = valid; positive = positive }))
            (deliver-FgIs w.child w.at_call s1 s2 e only))
]

listjobs-AtPrompt : (s : Shell) → AtPrompt s → AtPrompt (listjobs s)
listjobs-AtPrompt s a =
    let (same, next) = listjobs-jobs s in
    record {
      ok = record { valid = rw same a.ok.valid; positive = rw next a.ok.positive };
      quiet = rw same a.quiet;
    }

builtin_cmd-AtPrompt :
    (cmd : Bytes) (args : List Bytes) (w : World) (s : Shell) (out : Outcome)
    → AtPrompt s
    → builtin_cmd cmd args w s ≡ some out
    → Returns AtPrompt out
unfolding builtin_cmd
builtin_cmd-AtPrompt cmd args w s out a e = elim (Bool-cases (str_eq cmd (codes "quit"))) [
  | inl quit ↦ λ t rest d. ground arith
  | inr n1 ↦ elim (Bool-cases (str_eq cmd (codes "fg"))) [
    | inl is_fg ↦
        subst (Returns AtPrompt) (ground arith)
          (do_bgfg-AtPrompt cmd args w s (inl ((str_eq_iff cmd (codes "fg")).0 is_fg)) a)
    | inr n2 ↦ elim (Bool-cases (str_eq cmd (codes "bg"))) [
      | inl is_bg ↦
          subst (Returns AtPrompt) (ground arith)
            (do_bgfg-AtPrompt cmd args w s (inr ((str_eq_iff cmd (codes "bg")).0 is_bg)) a)
      | inr n3 ↦ elim (Bool-cases (str_eq cmd (codes "jobs"))) [
        | inl jobs ↦
            subst (Returns AtPrompt) (ground arith)
              (returned AtPrompt _ w.later (listjobs-AtPrompt s a))
        | inr n4 ↦ absurd (ground arith)
      ]
    ]
  ]
]

eval_argv-AtPrompt :
    (parsed : List Bytes × Bool) (cmdline : Bytes) (w : World) (s : Shell)
    → AtPrompt s
    → Absent w.child s.jobs
    → Returns AtPrompt (eval_argv parsed cmdline w s)
unfolding eval_argv
eval_argv-AtPrompt ([], background) cmdline w s a new = returned AtPrompt s w.later a
eval_argv-AtPrompt (cmd ∷ args, background) cmdline w s a new =
    elim (Option-cases (builtin_cmd cmd args w s)) [
      | inl e ↦ rw (e, eval_argv) (launch-AtPrompt background cmdline w s a new)
      | inr (out, e) ↦ rw (e, eval_argv) (builtin_cmd-AtPrompt cmd args w s out a e)
    ]

-- Whatever line is typed and whatever signals come, a command that is done leaves the job list valid
-- and no job in the foreground, if it began so and `fork` returned a process that has no job.
pub eval-AtPrompt :
    (cmdline : Bytes) (w : World) (s t : Shell) (rest : List Interrupt)
    → AtPrompt s
    → Absent w.child s.jobs
    → eval cmdline w s ≡ returns t rest
    → AtPrompt t
unfolding eval
eval-AtPrompt cmdline w s t rest a new e = elim (Option-cases (parseline cmdline)) [
  | inl bad ↦ absurd (ground arith)
  | inr (parsed, p) ↦ eval_argv-AtPrompt parsed cmdline w s a new t rest (ground arith)
]

-- The globals when the program starts, with or without `-v`.
abbrev pub boot : Bool → Shell
boot verbose = record {
  jobs = replicate maxjobs empty;
  nextjid = 1;
  verbose = verbose;
  output = [];
}
  where
    empty : Job
    empty = record { pid = 0; pgid = 0; jid = 0; state = undef; cmdline = [] }

-- The states in which `main` reads a line: the first, and after each command the one that the
-- signals leave which come while the shell reads.
pub data Prompts : Shell → Type 0 where
  first : (verbose : Bool) → Prompts (initjobs (boot verbose))
  after :
      {s : Shell} (cmdline : Bytes) (w : World) (t u : Shell) (later : List Interrupt)
      → Prompts s
      → Absent w.child s.jobs
      → eval cmdline w s ≡ returns t later
      → deliver later t ≡ some u
      → Prompts u

module _ {ℓ} (P : Job → Type ℓ) (j : Job) (h : P j) where
  All-replicate : (n : ℕ) → All P (replicate n j)
  All-replicate zero = tt
  All-replicate (suc n) = (h, All-replicate n)

Distinct-replicate : (n : ℕ) (j : Job) → j.pid ≡ 0 → Distinct (replicate n j)
Distinct-replicate zero j e = tt
Distinct-replicate (suc n) j e = (inl e, Distinct-replicate n j e)

initjobs-AtPrompt : (verbose : Bool) → AtPrompt (initjobs (boot verbose))
unfolding initjobs
initjobs-AtPrompt verbose =
    let clear : Job = record { pid = 0; pgid = 0; jid = 0; state = undef; cmdline = [] } in
    record {
      ok = record {
        valid = record {
          full = refl;
          distinct = Distinct-replicate maxjobs clear refl;
          slots = All-replicate IsSlot clear (inl (refl, refl, refl)) maxjobs;
        };
        positive = omega arith;
      };
      quiet = All-replicate (λ j. is_fg j.state ≡ false) clear refl maxjobs;
    }

-- At every prompt of the shell the job list is valid and no job is in the foreground.
pub Prompts-AtPrompt : {s : Shell} → Prompts s → AtPrompt s
Prompts-AtPrompt (first verbose) = initjobs-AtPrompt verbose
Prompts-AtPrompt (after cmdline w t u later r new e d) =
    let a = eval-AtPrompt cmdline w _ t later (Prompts-AtPrompt r) new e in
    record { ok = deliver-Ok later t u d a.ok; quiet = deliver-NoFg later t u d a.quiet }
