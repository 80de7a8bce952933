-- ===== src/Shell/Main.antt =====
-- What shell-lab2/tsh.c does around its loop: the options and the handlers of `main`, and the child of
-- `eval`.
use cs.Base.{
  ℕ, ◌≡◌, refl, Bool, true, false, not, ◌&&◌, ◌||◌, List, [], ◌∷◌, Option, none, some, ◌==◌,
  if◌then◌else◌, Bool-cases, inl, inr, arith,
}
use cs.CString.{Bytes}
use cs.Shell.State.{Outcome}
use cs.Shell.Jobs.{initjobs}
use cs.Shell.Control.{World, read_eval}
use cs.Shell.Control.Prompt.{boot}

-- `verbose` and `emit_prompt`
pub record Options : Type 0 where
  pub verbose : Bool
  pub emit_prompt : Bool

-- The loop over the results of getopt; `none` is a call of usage, which ends the program.
unfoldable pub set_options : List ℕ → Options → Option Options
set_options [] o = some o
set_options (c ∷ cs) o =
    let loud = set_options cs (record o { verbose = true }) in
    let silent = set_options cs (record o { emit_prompt = false }) in
    if c == b'v' then loud else if c == b'p' then silent else none

-- How the program ends, or the loop with its prompt or without.
pub data Started : Type 0 where
  usage signal_error : Started
  loops : Bool → Outcome → Started

-- `main`, where `installs` says whether every call of sigaction succeeds.
unfoldable pub main : List ℕ → Bool → List (Bytes × World) → Started
main options installs lines =
    elim (set_options options (record { verbose = false; emit_prompt = true })) [
      | none ↦ usage
      | some o ↦
          if installs
          then loops o.emit_prompt (read_eval lines (initjobs (boot o.verbose)))
          else signal_error
    ]

-- The child: it runs the command, or ends with 1 behind a message.
pub data ChildEnd : Type 0 where
  executes : List Bytes → ChildEnd
  setpgid_error : ChildEnd
  not_found : Bytes → ChildEnd

-- The child of `eval`, by whether its calls of setpgid and execve succeed.
unfoldable pub child_branch : Bool → Bool → Bytes → List Bytes → ChildEnd
child_branch setpgid execve cmd args =
    if setpgid then if execve then executes (cmd ∷ args) else not_found cmd else setpgid_error

abbrev pub has_option : ℕ → List ℕ → Bool
has_option c [] = false
has_option c (d ∷ ds) = (d == c) || has_option c ds

abbrev pub are_options : List ℕ → Bool
are_options [] = true
are_options (c ∷ cs) = ((c == b'v') || (c == b'p')) && are_options cs

or-false : (b : Bool) → (b || false) ≡ b
or-false true = refl
or-false false = refl

or-true : (b : Bool) → (b || true) ≡ true
or-true true = refl
or-true false = refl

and-true : (b : Bool) → (b && true) ≡ b
and-true true = refl
and-true false = refl

and-false : (b : Bool) → (b && false) ≡ false
and-false true = refl
and-false false = refl

set_options-has :
    (cs : List ℕ) (v p : Bool)
    → set_options cs (record { verbose = v; emit_prompt = p }) ≡ (
        if are_options cs
        then some (record {
          verbose = v || has_option b'v' cs;
          emit_prompt = p && not (has_option b'p' cs);
        })
        else none)
unfolding set_options
set_options-has [] v p = rw (or-false v, and-true p) refl
set_options-has (c ∷ cs) v p = elim (Bool-cases (c == b'v')) [
  | inl h ↦
      let n : (c == b'p') ≡ false = ground arith in rw (h, n, or-true v) (set_options-has cs true p)
  | inr h ↦ elim (Bool-cases (c == b'p')) [
    | inl k ↦ rw (h, k, and-false p) (set_options-has cs v false)
    | inr k ↦ rw (h, k) refl
  ]
]

-- With no other options than v and p the shell runs, with its prompt exactly where p is not given and
-- with additional messages exactly where v is; with any other it shows its usage.
pub main-options :
    (options : List ℕ) (lines : List (Bytes × World))
    → main options true lines ≡ (
        if are_options options
        then loops
            (not (has_option b'p' options))
            (read_eval lines (initjobs (boot (has_option b'v' options))))
        else usage)
unfolding main
main-options options lines =
    let e = set_options-has options false true in
    elim (Bool-cases (are_options options)) [
      | inl h ↦ rw (main, e, h) refl
      | inr h ↦ rw (main, e, h) refl
    ]
