-- ===== src/Shell/Signals/Foreground.antt =====
-- Which jobs are in the foreground, and what the signals and `waitfg` do to that.
use cs.Base.{
  none, ℕ, zero, suc, ◌≤◌, ◌≡◌, ◌≢◌, refl, sym, subst, ◌⊎◌, inl, inr, false, List, [], ◌∷◌, some,
  arith, Option-cases, get_elem?, set, All,
}
use cs.Shell.State.{st, Job, Shell, Interrupt, returns}
use cs.Shell.Jobs.{is_fg, index_of, fgpid, pid_at}
use cs.Shell.Jobs.Slots.{index_of-some, index_of-none, All-set, All-get}
use cs.Shell.Jobs.Table.{IsValid, clear-IsValid, restate-IsValid}
use cs.Shell.Signals.{deliver, waitfg}
use cs.Shell.Signals.Change.{Change, same, stop, clear, Change_jobs, deliver_inv, waitfg_inv}

-- The invariant of the globals.
pub record Ok (s : Shell) : Type 0 where
  pub valid : IsValid s.jobs
  pub positive : 1 ≤ s.nextjid

-- No job is in the foreground.
abbrev pub NoFg : List Job → Type 0
NoFg = All (λ j. is_fg j.state ≡ false)

-- No process but `p` is in the foreground.
abbrev pub FgIs : ℕ → List Job → Type 0
FgIs p = All (λ j. (is_fg j.state ≡ false) ⊎ (j.pid ≡ p))

-- Only the slot `i` may be in the foreground, and it holds the process `p` or is free.
abbrev pub OnlyAt : ℕ → ℕ → List Job → Type 0
OnlyAt i p [] = Unit
OnlyAt zero p (j ∷ js) = (((j.pid ≡ 0) × (is_fg j.state ≡ false)) ⊎ (j.pid ≡ p)) × NoFg js
OnlyAt (suc i) p (j ∷ js) = (is_fg j.state ≡ false) × OnlyAt i p js

Change-Ok : (s t : Shell) → Change s t → Ok s → Ok t
Change-Ok s t (same e n) v = record {
  valid = subst IsValid (sym e) v.valid;
  positive = ground arith;
}
Change-Ok s t (stop i j g b e n) v = record {
  valid = subst IsValid (sym e) (restate-IsValid s.jobs i st j g (inr refl) (λ x. cc) v.valid);
  positive = ground arith;
}
Change-Ok s t (clear i j g e n) v = record {
  valid = subst IsValid (sym e) (clear-IsValid s.jobs i j g v.valid);
  positive = omega arith;
}

OnlyAt-set :
    (i p : ℕ) (js : List Job) (k : ℕ) (j new : Job)
    → get_elem? js k ≡ some j
    → is_fg new.state ≡ false
    → (new.pid ≡ 0) ⊎ (new.pid ≡ j.pid)
    → OnlyAt i p js
    → OnlyAt i p (set js k new)
OnlyAt-set i p [] k j new g f c h = tt
OnlyAt-set zero p (x ∷ js) zero j new g f c h = ground arith
OnlyAt-set zero p (x ∷ js) (suc k) j new g f c h = (h.0, All-set _ js k new h.1 f)
OnlyAt-set (suc i) p (x ∷ js) zero j new g f c h = (f, h.1)
OnlyAt-set (suc i) p (x ∷ js) (suc k) j new g f c h = (h.0, OnlyAt-set i p js k j new g f c h.1)

-- A job of the process `p` that is put at the index `i` is the only one in the foreground.
pub OnlyAt-of_NoFg :
    (i p : ℕ) (js : List Job) (new : Job) → new.pid ≡ p → NoFg js → OnlyAt i p (set js i new)
OnlyAt-of_NoFg i p [] new e h = tt
OnlyAt-of_NoFg zero p (x ∷ js) new e h = (inr e, h.1)
OnlyAt-of_NoFg (suc i) p (x ∷ js) new e h = (h.0, OnlyAt-of_NoFg i p js new e h.1)

pub OnlyAt-of_none : (i p : ℕ) (js : List Job) → get_elem? js i ≡ none → NoFg js → OnlyAt i p js
OnlyAt-of_none i p [] e h = tt
OnlyAt-of_none zero p (x ∷ js) e h = cc
OnlyAt-of_none (suc i) p (x ∷ js) e h = (h.0, OnlyAt-of_none i p js e h.1)

pub FgIs-of_NoFg : (p : ℕ) (js : List Job) → NoFg js → FgIs p js
FgIs-of_NoFg p [] h = tt
FgIs-of_NoFg p (j ∷ js) h = (inl h.0, FgIs-of_NoFg p js h.1)

-- So the process that the slot holds now is the only one in the foreground.
pub FgIs-of_OnlyAt : (i p : ℕ) (js : List Job) → OnlyAt i p js → FgIs (pid_at js i) js
FgIs-of_OnlyAt i p [] h = tt
FgIs-of_OnlyAt zero p (j ∷ js) h = (inr refl, FgIs-of_NoFg j.pid js h.1)
FgIs-of_OnlyAt (suc i) p (j ∷ js) h = (inl h.0, FgIs-of_OnlyAt i p js h.1)

FgIs-set :
    (p : ℕ) (js : List Job) (i : ℕ) (new : Job)
    → (is_fg new.state ≡ false) ⊎ (new.pid ≡ p)
    → FgIs p js
    → FgIs p (set js i new)
FgIs-set p js i new f h = All-set _ js i new h f

-- `fgpid` finds the process in the foreground.
pub NoFg-of_fgpid : (p : ℕ) (js : List Job) → FgIs p js → fgpid js ≢ p → NoFg js
unfolding fgpid
NoFg-of_fgpid p js h n = elim (Option-cases (index_of (λ j. is_fg j.state) js)) [
  | inl e ↦ index_of-none (λ j. is_fg j.state) js e
  | inr (i, e) ↦
      let (j, g, b) = index_of-some (λ k. is_fg k.state) js i e in
      absurd (n (ground (arith, All-get _ js i j h g)))
]

pub fgpid-zero : (js : List Job) → FgIs 0 js → fgpid js ≡ 0
unfolding fgpid
fgpid-zero js h = elim (Option-cases (index_of (λ j. is_fg j.state) js)) [
  | inl e ↦ ground arith
  | inr (i, e) ↦
      let (j, g, b) = index_of-some (λ k. is_fg k.state) js i e in
      ground (arith, All-get _ js i j h g)
]

pub deliver-Ok : (xs : List Interrupt) (s t : Shell) → deliver xs s ≡ some t → Ok s → Ok t
deliver-Ok = deliver_inv Ok Change-Ok

pub deliver-NoFg :
    (xs : List Interrupt) (s t : Shell) → deliver xs s ≡ some t → NoFg s.jobs → NoFg t.jobs
deliver-NoFg =
    deliver_inv (λ s. NoFg s.jobs) (Change_jobs NoFg (λ js i j new g f c h. All-set _ js i new h f))

pub FgIs-Change : (p : ℕ) (s t : Shell) → Change s t → FgIs p s.jobs → FgIs p t.jobs
FgIs-Change p = Change_jobs (FgIs p) (λ js i j new g f c h. FgIs-set p js i new (inl f) h)

pub deliver-FgIs :
    (p : ℕ) (xs : List Interrupt) (s t : Shell)
    → deliver xs s ≡ some t
    → FgIs p s.jobs
    → FgIs p t.jobs
deliver-FgIs p = deliver_inv (λ s. FgIs p s.jobs) (FgIs-Change p)

pub deliver-OnlyAt :
    (i p : ℕ) (xs : List Interrupt) (s t : Shell)
    → deliver xs s ≡ some t
    → OnlyAt i p s.jobs
    → OnlyAt i p t.jobs
deliver-OnlyAt i p =
    deliver_inv (λ s. OnlyAt i p s.jobs) (Change_jobs (OnlyAt i p) (OnlyAt-set i p))

-- Where `p` is the only process in the foreground, `waitfg p` returns with none there, and keeps the
-- globals valid.
pub waitfg-NoFg :
    (p : ℕ) (xs : List Interrupt) (s t : Shell) (rest : List Interrupt)
    → waitfg p xs s ≡ returns t rest
    → Ok s
    → FgIs p s.jobs
    → Ok t × NoFg t.jobs
waitfg-NoFg p xs s t rest e v h =
    let (v', n) = waitfg_inv Ok Change-Ok p xs s t rest e v in
    let (h', n') = waitfg_inv (λ s. FgIs p s.jobs) (FgIs-Change p) p xs s t rest e h in
    (v', NoFg-of_fgpid p t.jobs h' n')

-- `waitfg 0` never returns where no process but 0 is in the foreground, whatever signals come.
pub waitfg_zero :
    (xs : List Interrupt) (s t : Shell) (rest : List Interrupt)
    → FgIs 0 s.jobs
    → waitfg 0 xs s ≢ returns t rest
waitfg_zero xs s t rest h e =
    let (h', n) = waitfg_inv (λ s. FgIs 0 s.jobs) (FgIs-Change 0) 0 xs s t rest e h in
    n (fgpid-zero t.jobs h')
