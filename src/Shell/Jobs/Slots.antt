-- ===== src/Shell/Jobs/Slots.antt =====
-- What the loops over the job list find, and the list seen as a map from process to job.
use native.Mathlib.Decide.{ℕ_discrete}
use cs.Base.{
  ℕ, zero, suc, ◌+◌, ◌≤◌, ◌≡◌, ◌≢◌, refl, sym, subst, ◌⊎◌, inl, inr, Bool, true, false, List, [],
  ◌∷◌, Option, none, some, arith, ◌==◌, if◌then◌else◌, Bool-cases, Option-cases, get_elem?, set,
  All,
}
use cs.Shell.State.{undef, Job}
use cs.Shell.Jobs.{index_of, is_free, has_pid, is_fg, clear_at}

-- The job of a process: what the list means, whatever the order of its slots.
unfoldable pub job_of : ℕ → List Job → Option Job
job_of p [] = none
job_of p (j ∷ js) = if j.pid == p then some j else job_of p js

module _ (key : Job → ℕ) where
  -- No slot has the key.
  abbrev pub AbsentBy : ℕ → List Job → Type 0
  AbsentBy p = All (λ j. key j ≢ p)

  -- No key but 0 is in two slots.
  abbrev pub DistinctBy : List Job → Type 0
  DistinctBy [] = Unit {0}
  DistinctBy (j ∷ js) = ((key j ≡ 0) ⊎ AbsentBy (key j) js) × DistinctBy js

-- No slot holds the process.
abbrev pub Absent : ℕ → List Job → Type 0
Absent = AbsentBy (λ j. j.pid)

-- No process is in two slots.
abbrev pub Distinct : List Job → Type 0
Distinct = DistinctBy (λ j. j.pid)

-- A slot is free and not in the foreground, or holds a job with a process, a job id and a state.
abbrev pub IsSlot : Job → Type 0
IsSlot j =
    ((j.pid ≡ 0) × (j.jid ≡ 0) × (is_fg j.state ≡ false))
    ⊎ ((1 ≤ j.pid) × (1 ≤ j.jid) × (j.state ≢ undef))

-- The number of jobs in the foreground.
abbrev pub fg_one : Job → ℕ
fg_one j = if is_fg j.state then 1 else 0

unfoldable pub fg_count : List Job → ℕ
fg_count [] = 0
fg_count (j ∷ js) = fg_one j + fg_count js

pub index_of-some :
    (p : Job → Bool) (js : List Job) (i : ℕ)
    → index_of p js ≡ some i
    → (j : Job) × (get_elem? js i ≡ some j) × (p j ≡ true)
unfolding index_of
index_of-some p [] i h = cc
index_of-some p (j ∷ js) i h = elim (Bool-cases (p j)) [
  | inl t ↦ (j, ground arith, t)
  | inr f ↦ elim (Option-cases (index_of p js)) [
    | inl e ↦ absurd (ground arith)
    | inr (k, e) ↦ let (x, g, b) = index_of-some p js k e in (x, ground arith, b)
  ]
]

pub index_of-none :
    (p : Job → Bool) (js : List Job) → index_of p js ≡ none → All (λ j. p j ≡ false) js
unfolding index_of
index_of-none p [] h = tt
index_of-none p (j ∷ js) h = ground (arith, index_of-none p js)

pub job_of-Absent : (p : ℕ) (js : List Job) → Absent p js → job_of p js ≡ none
unfolding job_of
job_of-Absent p [] h = refl
job_of-Absent p (j ∷ js) (hj, h) = ground (arith, job_of-Absent p js h)

pub Absent-of_none : (p : ℕ) (js : List Job) → job_of p js ≡ none → Absent p js
unfolding job_of
Absent-of_none p [] h = tt
Absent-of_none p (j ∷ js) h = ground (arith, Absent-of_none p js)

-- A job put into the first free slot is found, and hides no other.
pub job_of-set_free :
    (js : List Job) (i q : ℕ) (new : Job)
    → index_of is_free js ≡ some i
    → Absent new.pid js
    → q ≢ 0
    → job_of q (set js i new) ≡ (if new.pid == q then some new else job_of q js)
unfolding job_of index_of
job_of-set_free [] i q new h a z = cc
job_of-set_free (j ∷ js) i q new h (aj, a) z = elim (Option-cases (index_of is_free js)) [
  | inl e ↦ ground arith
  | inr (k, e) ↦ ground (arith, job_of-set_free js k q new e a z)
]

-- With distinct processes the slot that is cleared was its process's only one.
pub job_of-clear :
    (js : List Job) (i p q : ℕ)
    → index_of (has_pid p) js ≡ some i
    → Distinct js
    → p ≢ 0
    → q ≢ 0
    → job_of q (clear_at i js) ≡ (if p == q then none else job_of q js)
unfolding job_of index_of
job_of-clear [] i p q h d zp z = cc
job_of-clear (j ∷ js) i p q h (dj, d) zp z = elim (Option-cases (index_of (has_pid p) js)) [
  | inl e ↦ ground (arith, job_of-Absent q js)
  | inr (k, e) ↦ ground (arith, job_of-clear js k p q e d zp z, job_of-Absent q js)
]

module _ {ℓ} (P : Job → Type ℓ) where
  pub All-set : (js : List Job) (i : ℕ) (j : Job) → All P js → P j → All P (set js i j)
  All-set [] i j h hj = tt
  All-set (x ∷ js) zero j h hj = (hj, h.1)
  All-set (x ∷ js) (suc i) j h hj = (h.0, All-set js i j h.1 hj)

  pub All-get : (js : List Job) (i : ℕ) (j : Job) → All P js → get_elem? js i ≡ some j → P j
  All-get [] i j h e = cc
  All-get (x ∷ js) zero j h e = subst P (cc) h.0
  All-get (x ∷ js) (suc i) j h e = All-get js i j h.1 e

module _ (key : Job → ℕ) where
  -- A new key keeps the keys distinct in whichever slot it is put.
  pub DistinctBy-set_new :
      (js : List Job) (i : ℕ) (new : Job)
      → AbsentBy key (key new) js
      → DistinctBy key js
      → DistinctBy key (set js i new)
  DistinctBy-set_new [] i new a d = tt
  DistinctBy-set_new (j ∷ js) zero new (aj, a) (dj, d) = (inr a, d)
  DistinctBy-set_new (j ∷ js) (suc i) new (aj, a) (dj, d) = (
    elim dj [ inl z ↦ inl z | inr b ↦ inr (All-set _ js i new b (λ e. aj (sym e))) ],
    DistinctBy-set_new js i new a d,
  )

  AbsentBy-set :
      (js : List Job) (i p : ℕ) (j new : Job)
      → get_elem? js i ≡ some j
      → (key new ≡ 0) ⊎ (key new ≡ key j)
      → AbsentBy key p js
      → (p ≡ 0) ⊎ AbsentBy key p (set js i new)
  AbsentBy-set js i p j new e h a = elim (ℕ_discrete p 0) [
    | yes z ↦ inl z
    | no z ↦
        let apart : key j ≢ p = All-get (λ k. key k ≢ p) js i j a e in
        inr (All-set _ js i new a (ground arith))
  ]

  -- Clearing a slot, or changing it under its key, keeps the keys distinct.
  pub DistinctBy-set :
      (js : List Job) (i : ℕ) (j new : Job)
      → get_elem? js i ≡ some j
      → (key new ≡ 0) ⊎ (key new ≡ key j)
      → DistinctBy key js
      → DistinctBy key (set js i new)
  DistinctBy-set [] i j new e h d = tt
  DistinctBy-set (x ∷ js) zero j new e h (dx, d) = (
    elim h [
      | inl z ↦ inl z
      | inr same ↦ elim dx [
        | inl z ↦ inl (ground arith)
        | inr a ↦ inr (subst (λ p. AbsentBy key p js) (ground arith) a)
      ]
    ],
    d,
  )
  DistinctBy-set (x ∷ js) (suc i) j new e h (dx, d) = (
    elim dx [ inl z ↦ inl z | inr a ↦ AbsentBy-set js i (key x) j new e h a ],
    DistinctBy-set js i j new e h d,
  )

pub fg_count-set :
    (js : List Job) (i : ℕ) (j new : Job)
    → get_elem? js i ≡ some j
    → fg_count (set js i new) + fg_one j ≡ fg_count js + fg_one new
unfolding fg_count
fg_count-set [] i j new e = cc
fg_count-set (x ∷ js) zero j new e = ground arith
fg_count-set (x ∷ js) (suc i) j new e = omega (arith, fg_count-set js i j new e)
