-- ===== src/Pipeline.antt =====
-- The shell of shell-lab1/tsh.c, which runs pipelines: parseargs and eval. Its parseline is that of
-- shell-lab2/tsh.c.
pub mod Walk
pub mod Commands
pub mod Descriptors
pub mod Parent
mod Tests
use cs.Base.{
  ℕ, zero, suc, ◌+◌, ◌-◌, Bool, true, false, List, [], ◌∷◌, ◌++◌, Option, none, some, ◌==◌,
  if◌then◌else◌, ◌||◌, ◌>>=◌, length, drop, get_elem?,
}
use cs.CString.{Bytes, codes, str_eq}
use cs.Shell.Parse.{parseline}

-- A command of a pipeline by indices into argv: its first word, and the files for its standard input
-- and output, `none` for -1.
pub record Cmd : Type 0 where
  pub cmd : ℕ
  pub stdin_redir : Option ℕ
  pub stdout_redir : Option ℕ

-- argv, in which a null pointer ends the words of a command, and the commands.
pub record Args : Type 0 where
  pub argv : List (Option Bytes)
  pub cmds : List Cmd

pub data Kind : Type 0 where
  input output pipe plain : Kind

unfoldable pub kind : Bytes → Kind
kind a =
    if str_eq a (codes "<")
    then input
    else if str_eq a (codes ">")
    then output
    else if str_eq a (codes "|")
    then pipe
    else plain

abbrev pub new_cmd : ℕ → Cmd
new_cmd k = record { cmd = k; stdin_redir = none; stdout_redir = none }

unfoldable pub last_word : Kind → Bytes → Option Bytes
last_word plain a = some a
last_word input a = none
last_word output a = none
last_word pipe a = none

-- The loop: the arguments that are left, argv up to here, the current command, and those before it.
unfoldable pub walk : List Bytes → List (Option Bytes) → Cmd → List Cmd → Args
walk [] argv cur before = record { argv = argv; cmds = before ++ cur ∷ [] }
walk (a ∷ []) argv cur before = record {
  argv = argv ++ last_word (kind a) a ∷ [];
  cmds = before ++ cur ∷ [];
}
walk (a ∷ (f ∷ rest)) argv cur before = elim (kind a) [
  | input ↦
      walk rest (argv ++ none ∷ some f ∷ []) (record cur { stdin_redir = some (length argv + 1) })
        before
  | output ↦
      walk rest (argv ++ none ∷ some f ∷ []) (record cur { stdout_redir = some (length argv + 1) })
        before
  | pipe ↦ walk rest (argv ++ none ∷ some f ∷ []) (new_cmd (length argv + 1)) (before ++ cur ∷ [])
  | plain ↦ walk (f ∷ rest) (argv ++ some a ∷ []) cur before
]

unfoldable pub parseargs : List Bytes → Args
parseargs [] = record { argv = []; cmds = [] }
parseargs (a ∷ rest) = walk rest (some a ∷ []) (new_cmd 0) []

-- Where a child reads from or writes to: the shell's own, a file, or the pipe of a number.
pub data End : Type 0 where
  inherited : End
  file : Bytes → End
  pipe_end : ℕ → End

-- A child: the words for execve, its input and its output.
pub record Child : Type 0 where
  pub words : List Bytes
  pub stdin : End
  pub stdout : End

-- The words from a place on, up to the null pointer.
unfoldable pub words_from : List (Option Bytes) → List Bytes
words_from [] = []
words_from (none ∷ l) = []
words_from (some a ∷ l) = a ∷ words_from l

-- The name in argv; a null pointer or a place behind the end makes `fopen` fail, which is `none`.
unfoldable pub file_at : List (Option Bytes) → ℕ → Option End
file_at argv k = elim (get_elem? argv k) [
  | none ↦ none
  | some w ↦ elim w [ none ↦ none | some a ↦ some (file a) ]
]

-- The file of a redirection, or else what the pipes give.
unfoldable pub end_of : List (Option Bytes) → Option ℕ → End → Option End
end_of argv none other = some other
end_of argv (some k) other = file_at argv k

-- The input of child `i`, and its output where `more` children follow.
unfoldable pub pipe_in : ℕ → End
pipe_in zero = inherited
pipe_in (suc i) = pipe_end i

unfoldable pub pipe_out : ℕ → ℕ → End
pipe_out i zero = inherited
pipe_out i (suc more) = pipe_end i

unfoldable pub child : List (Option Bytes) → ℕ → ℕ → Cmd → Option Child
child argv i more c = do
  stdin ← end_of argv c.stdin_redir (pipe_in i)
  stdout ← end_of argv c.stdout_redir (pipe_out i more)
  some (record { words = words_from (drop c.cmd argv); stdin = stdin; stdout = stdout })

-- The children from number `i` on, which the parent puts in the group of the first and waits for.
unfoldable pub children : List (Option Bytes) → ℕ → List Cmd → List (Option Child)
children argv i [] = []
children argv i (c ∷ cs) = child argv i (length cs) c ∷ children argv (i + 1) cs

-- What a line does.
pub data Evaluated : Type 0 where
  nothing builtin quits unsafe : Evaluated
  pipeline : List (Option Child) → Evaluated

unfoldable pub run_argv : List Bytes → Evaluated
run_argv [] = nothing
run_argv (a ∷ rest) =
    if str_eq a (codes "quit")
    then quits
    else if str_eq a (codes "fg") || (str_eq a (codes "bg") || str_eq a (codes "jobs"))
    then builtin
    else (let r = parseargs (a ∷ rest) in pipeline (children r.argv 0 r.cmds))

-- `eval`: the line is parsed, and its arguments are run; whether it asks for the background is not
-- looked at.
unfoldable pub eval_line : Bytes → Evaluated
eval_line cmdline = elim (parseline cmdline) [ none ↦ unsafe | some r ↦ run_argv r.0 ]
