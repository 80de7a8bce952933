-- ===== src/Shell/Tests.antt =====
-- Runs of the shell, and its theorems at inputs that meet their hypotheses.
use cs.Base.{
  ℕ, zero, suc, ◌+◌, ◌≤◌, ◌≡◌, ◌≢◌, refl, inr, true, false, List, [], ◌∷◌, none, some, arith,
  replicate,
}
use cs.CString.{Bytes, codes, str_eq}
use cs.Shell.State.{
  JobState, undef, bg, st, Job, Shell, Interrupt, sigchld, wifexited, returns, running,
}
use cs.Shell.Jobs.{
  index_of, is_free, has_pid, has_jid, addjob, deletejob, initjobs, fgpid, listjobs, list_line,
  pid_at,
}
use cs.Shell.Jobs.Slots.{job_of}
use cs.Shell.Jobs.Table.{IsValid, addjob-IsValid, deletejob-job_of}
use cs.Shell.Jobs.Ids.{Fresh, deletejob-Fresh}
use cs.Shell.Parse.{parseline, words, maxargs}
use cs.Shell.Parse.Words.{words_fuel}
use cs.Shell.Parse.RoundTrip.{Arg, bare, quoted, line, parseline-line, parseline_overflow}
use cs.Shell.Signals.{waitfg, deliver}
use cs.Shell.Control.{World, eval, resume_jid, do_bgfg}
use cs.Shell.Control.Quiet.{AtPrompt}
use cs.Shell.Control.Prompt.{boot, first, after, Prompts-AtPrompt}
use cs.Shell.Control.Race.{fg_hangs}
use cs.Shell.Main.{main, usage, loops, child_branch, not_found, main-options}

abbrev free_job : Job
free_job = record { pid = 0; pgid = 0; jid = 0; state = undef; cmdline = [] }

-- The list with `n` jobs in the background, with the processes 100, 101 and so on.
filled : ℕ → Shell → Shell
filled zero s = s
filled (suc n) s = (addjob (filled n s) (100 + n) 0 bg (codes "sleep 9 &\n")).0

two_args :
    parseline (codes "  ls -l 'a b'\n") ≡ some (codes "ls" ∷ codes "-l" ∷ codes "a b" ∷ [], false)
unfolding parseline cs.Shell.Parse.set_last cs.Shell.Parse.bounded cs.Shell.Parse.words
    cs.Shell.Parse.next_word cs.Shell.Parse.split_background cs.CString.skip_spaces
    cs.CString.strchr
two_args = refl

parseline-line_example :
    parseline
      (line 1 ((bare (codes "ls"), 0) ∷ (quoted (codes "a b"), 2) ∷ (bare (codes "&"), 0) ∷ []))
    ≡ some (codes "ls" ∷ codes "a b" ∷ [], true)
parseline-line_example =
    parseline-line 1 ((bare (codes "ls"), 0) ∷ (quoted (codes "a b"), 2) ∷ []) (bare (codes "&")) 0
      (omega arith) (omega arith)

abbrev many : List (Arg × ℕ)
many = replicate 128 (bare (codes "a"), 0)

parseline_overflow_example : parseline (line 0 many) ≡ none
parseline_overflow_example = parseline_overflow 0 many (omega arith) (omega arith)

words_fuel_example : words 9 (codes "ls -l ") ≡ words 7 (codes "ls -l ")
words_fuel_example = words_fuel 9 7 (codes "ls -l ") (omega arith) (omega arith)

abbrev sleeper : JobState → Job
sleeper x = record { pid = 100; pgid = 0; jid = 1; state = x; cmdline = codes "sleep 9\n" }

-- One job, in the first slot.
abbrev one : JobState → Shell
one x = record {
  jobs = sleeper x ∷ replicate 15 free_job;
  nextjid = 2;
  verbose = false;
  output = [];
}

one-IsValid : (x : JobState) → x ≢ undef → IsValid (one x).jobs
one-IsValid x n = record {
  full = refl;
  distinct = omega arith;
  slots = (inr (omega arith, omega arith, n), ground arith);
}

one-AtPrompt : AtPrompt (one st)
one-AtPrompt = record {
  ok = record { valid = one-IsValid st (λ e. cc); positive = omega arith };
  quiet = ground arith;
}

addjob-IsValid_example :
    IsValid (addjob (one bg) 101 0 bg (codes "ls &\n")).0.jobs
    × (1 ≤ (addjob (one bg) 101 0 bg (codes "ls &\n")).0.nextjid)
addjob-IsValid_example =
    addjob-IsValid (one bg) 101 0 bg (codes "ls &\n") (one-IsValid bg (λ e. cc)) (omega arith)
      (omega arith) (λ e. cc)

deletejob-job_of_example : job_of 100 (deletejob (one bg) 100).0.jobs ≡ none
deletejob-job_of_example =
    deletejob-job_of (one bg) 100 100 (omega arith) (λ e. omega arith) (λ e. omega arith)

deletejob-Fresh_example : Fresh (deletejob (one bg) 100).0
unfolding deletejob index_of
deletejob-Fresh_example = deletejob-Fresh (one bg) 100 refl

-- Sixteen jobs, of which the second and third end, and one new job: its id is 17, and the next is 1.
wrapped : Shell
unfolding filled
wrapped =
    let full = filled 16 (boot false) in
    let two_left = (deletejob (deletejob full 101).0 102).0 in
    (addjob two_left 116 0 bg (codes "ls &\n")).0

-- A child with the number 100, and no signal but those given.
abbrev world : List Interrupt → World
world xs = record { at_call = xs; later = []; child = 100; setpgid = true }

fg_hangs_example :
    resume_jid (codes "fg") 0 (world (sigchld ((100, wifexited 0) ∷ []) ∷ [])) (one st)
    ≢ returns (one st) []
fg_hangs_example =
    fg_hangs 0 0 [] (world (sigchld ((100, wifexited 0) ∷ []) ∷ [])) (one st) (one st) []
      one-AtPrompt (omega arith) refl

-- What `sleep 9 &` leaves.
abbrev started : Shell
started = record {
  jobs =
      record { pid = 100; pgid = 0; jid = 1; state = bg; cmdline = codes "sleep 9 &\n" }
      ∷ replicate 15 free_job;
  nextjid = 2;
  verbose = false;
  output = running 1 100 (codes "sleep 9 &\n") ∷ [];
}

eval-started : eval (codes "sleep 9 &\n") (world []) (initjobs (boot false)) ≡ returns started []
unfolding initjobs eval parseline cs.Shell.Parse.set_last cs.Shell.Parse.bounded
    cs.Shell.Parse.words cs.Shell.Parse.next_word cs.Shell.Parse.split_background
    cs.CString.skip_spaces cs.CString.strchr cs.Shell.Control.builtin_cmd cs.Shell.Control.launch
    str_eq addjob index_of deliver waitfg fgpid cs.Shell.Jobs.pid2jid
eval-started = refl

Prompts-AtPrompt_example : AtPrompt started
unfolding initjobs deliver
Prompts-AtPrompt_example = Prompts-AtPrompt (
    after (codes "sleep 9 &\n") (world []) started started [] (first false) (omega arith)
      eval-started refl)

-- The options `-p` and `-v`, and an input that is at its end at once.
silent_and_loud :
    main (b'p' ∷ b'v' ∷ []) true []
    ≡ loops false (cs.Shell.Control.read_eval [] (initjobs (boot true)))
silent_and_loud = main-options (b'p' ∷ b'v' ∷ []) []

help : main (b'v' ∷ b'h' ∷ []) true [] ≡ usage
help = main-options (b'v' ∷ b'h' ∷ []) []

child_of_ls : child_branch true false (codes "ls") [] ≡ not_found (codes "ls")
unfolding child_branch
child_of_ls = refl
