-- ===== src/Shell/Control/Quiet.antt =====
-- What a routine of the shell may return, and what a change of a job's state keeps.
use cs.Base.{
  ℕ, ◌≤◌, ◌≡◌, ◌≢◌, refl, subst, ◌⊎◌, inl, inr, false, List, Option, none, some, arith,
  Option-cases, get_elem?,
}
use cs.Shell.State.{JobState, undef, fg, Shell, Interrupt, Output, Outcome, returns, print}
use cs.Shell.Jobs.{is_fg, pid_at, set_state}
use cs.Shell.Jobs.Slots.{All-set}
use cs.Shell.Jobs.Table.{restate-IsValid}
use cs.Shell.Signals.{waitfg}
use cs.Shell.Signals.Foreground.{
  Ok, NoFg, FgIs, OnlyAt, OnlyAt-of_NoFg, OnlyAt-of_none, FgIs-of_OnlyAt, FgIs-of_NoFg, waitfg-NoFg,
}
use cs.Shell.Control.{then_run}

-- The globals are valid, and no job is in the foreground.
pub record AtPrompt (s : Shell) : Type 0 where
  pub ok : Ok s
  pub quiet : NoFg s.jobs

-- What a routine may return: the states with the property.
abbrev pub Returns : (Shell → Type 0) → Outcome → Type 0
Returns P out = (t : Shell) (rest : List Interrupt) → out ≡ returns t rest → P t

pub then_run-Returns :
    (P : Shell → Type 0) (m : Option Shell) (k : Shell → Outcome)
    → ((s : Shell) → m ≡ some s → Returns P (k s))
    → Returns P (then_run m k)
then_run-Returns P none k h t rest e = cc
then_run-Returns P (some s) k h t rest e = h s refl t rest e

pub returned :
    (P : Shell → Type 0) (s : Shell) (xs : List Interrupt) → P s → Returns P (returns s xs)
returned P s xs h t rest e = subst P (cc) h

-- A wait for the process of a slot that alone may be in the foreground.
pub wait_at :
    (i p : ℕ) (xs : List Interrupt) (s : Shell)
    → Ok s
    → OnlyAt i p s.jobs
    → Returns AtPrompt (waitfg (pid_at s.jobs i) xs s)
wait_at i p xs s v h t rest e =
    let (v', q) = waitfg-NoFg (pid_at s.jobs i) xs s t rest e v (FgIs-of_OnlyAt i p s.jobs h) in
    record { ok = v'; quiet = q }

pub set_state-Ok :
    (s : Shell) (i : ℕ) (x : JobState)
    → (1 ≤ pid_at s.jobs i) ⊎ (is_fg x ≡ false)
    → x ≢ undef
    → Ok s
    → Ok (set_state i x s)
unfolding set_state
set_state-Ok s i x n u v = elim (Option-cases (get_elem? s.jobs i)) [
  | inl e ↦ rw (e, set_state) v
  | inr (j, e) ↦
      rw (e, set_state)
        (record {
          valid = restate-IsValid s.jobs i x j e (ground arith) u v.valid;
          positive = v.positive;
        })
]

pub set_state-NoFg :
    (s : Shell) (i : ℕ) (x : JobState) → is_fg x ≡ false → NoFg s.jobs → NoFg (set_state i x s).jobs
unfolding set_state
set_state-NoFg s i x n h = elim (Option-cases (get_elem? s.jobs i)) [
  | inl e ↦ rw (e, set_state) h
  | inr (j, e) ↦ rw (e, set_state) (All-set _ s.jobs i (record j { state = x }) h n)
]

pub set_state-OnlyAt :
    (s : Shell) (i : ℕ) (x : JobState)
    → NoFg s.jobs
    → OnlyAt i (pid_at s.jobs i) (set_state i x s).jobs
unfolding set_state
set_state-OnlyAt s i x h = elim (Option-cases (get_elem? s.jobs i)) [
  | inl e ↦ rw (e, set_state) (OnlyAt-of_none i _ s.jobs e h)
  | inr (j, e) ↦
      rw (e, set_state, pid_at) (OnlyAt-of_NoFg i j.pid s.jobs (record j { state = x }) refl h)
]

pub FgIs-set_state :
    (s : Shell) (i : ℕ) → NoFg s.jobs → FgIs (pid_at s.jobs i) (set_state i fg s).jobs
unfolding set_state
FgIs-set_state s i h = elim (Option-cases (get_elem? s.jobs i)) [
  | inl e ↦ rw (e, set_state) (FgIs-of_NoFg _ s.jobs h)
  | inr (j, e) ↦
      rw (e, set_state, pid_at)
        (All-set _ s.jobs i (record j { state = fg }) (FgIs-of_NoFg j.pid s.jobs h) (inr refl))
]

pub print-Ok : (s : Shell) (o : Output) → Ok s → Ok (print o s)
print-Ok s o v = record { valid = v.valid; positive = v.positive }

pub print-AtPrompt : (s : Shell) (o : Output) → AtPrompt s → AtPrompt (print o s)
print-AtPrompt s o a = record { ok = print-Ok s o a.ok; quiet = a.quiet }
