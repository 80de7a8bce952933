-- ===== src/Pipeline/Descriptors.antt =====
-- The calls of pipe, fopen, dup2 and close in `eval` of shell-lab1/tsh.c: what the file descriptors of
-- the shell and of each child stand for.
pub mod Table
pub mod Pipes
pub mod Ends
pub mod Children
use cs.Base.{
  ℕ, zero, suc, ◌+◌, ◌-◌, Bool, true, false, ◌&&◌, List, [], ◌∷◌, ◌++◌, Option, none, some, ltb,
  if◌then◌else◌, ◌>>=◌, get_elem?, set,
}
use cs.CString.{Bytes}
use cs.Pipeline.{Cmd}

-- A stream of the shell, an opened file, or an end of the pipe with a number.
pub data Object : Type 0 where
  stream : ℕ → Object
  opened : Bytes → Object
  read_end write_end : ℕ → Object

abbrev pub Table : Type 0
Table = List (Option Object)

-- What a descriptor stands for; none where it is not open.
abbrev pub object_at : Table → ℕ → Option Object
object_at t fd = elim (get_elem? t fd) [ none ↦ none | some o ↦ o ]

-- The lowest descriptor that is free.
unfoldable pub open_lowest : Object → Table → ℕ × Table
open_lowest o [] = (0, some o ∷ [])
open_lowest o (none ∷ t) = (0, some o ∷ t)
open_lowest o (some x ∷ t) = let (fd, u) = open_lowest o t in (suc fd, some x ∷ u)

-- `Dup2` and `Close`, which end the program at a descriptor that is not open.
unfoldable pub dup2 : ℕ → ℕ → Table → Option Table
dup2 old new t = do o ← object_at t old; some (set t new (some o))

unfoldable pub close : ℕ → Table → Option Table
close fd t = do o ← object_at t fd; some (set t fd none)

-- `Pipe(pipes[k])`
unfoldable pub make_pipe : ℕ → Table → (ℕ × ℕ) × Table
make_pipe k t =
    let (r, t1) = open_lowest (read_end k) t in
    let (w, t2) = open_lowest (write_end k) t1 in ((r, w), t2)

-- `n` pipes from number `k` on.
unfoldable pub make_pipes : ℕ → ℕ → Table → List (ℕ × ℕ) × Table
make_pipes zero k t = ([], t)
make_pipes (suc n) k t =
    let (p, t1) = make_pipe k t in let (ps, t2) = make_pipes n (k + 1) t1 in (p ∷ ps, t2)

abbrev pub name_at : List (Option Bytes) → ℕ → Option Bytes
name_at argv k = elim (get_elem? argv k) [ none ↦ none | some w ↦ w ]

-- `Fopen`, `Dup2` and `Fclose`, if there is a redirection.
unfoldable pub redirect : List (Option Bytes) → Option ℕ → ℕ → Table → Option Table
redirect argv none target t = some t
redirect argv (some k) target t = do
  name ← name_at argv k
  let f = open_lowest (opened name) t
  joined ← dup2 f.0 target f.1
  close f.0 joined

abbrev pub is_none : Option ℕ → Bool
is_none none = true
is_none (some k) = false

-- The output goes to the pipe behind, but for the last child and for a redirection.
unfoldable pub join_out : ℕ → ℕ → Option ℕ → List (ℕ × ℕ) → Table → Option Table
join_out i n redir pipes t =
    if ltb i (n - 1) && is_none redir then (do p ← get_elem? pipes i; dup2 p.1 1 t) else some t

-- The input comes from the pipe before, but for the first child and for a redirection.
unfoldable pub join_in : ℕ → Option ℕ → List (ℕ × ℕ) → Table → Option Table
join_in i redir pipes t =
    if ltb 0 i && is_none redir then (do p ← get_elem? pipes (i - 1); dup2 p.0 0 t) else some t

-- Both ends of every pipe are closed.
unfoldable pub close_all : List (ℕ × ℕ) → Table → Option Table
close_all [] t = some t
close_all ((r, w) ∷ ps) t = do t1 ← close r t; t2 ← close w t1; close_all ps t2

-- What a child of `n` has open when it calls execve; none where a call fails.
unfoldable pub child_table : List (Option Bytes) → ℕ → ℕ → Cmd → List (ℕ × ℕ) → Table → Option Table
child_table argv i n c pipes t = do
  t1 ← redirect argv c.stdin_redir 0 t
  t2 ← redirect argv c.stdout_redir 1 t1
  t3 ← join_out i n c.stdout_redir pipes t2
  t4 ← join_in i c.stdin_redir pipes t3
  close_all pipes t4

-- The shell between two lines.
abbrev pub shell_table : Table
shell_table = some (stream 0) ∷ some (stream 1) ∷ some (stream 2) ∷ []

-- What child `i` of `n` has open, and the shell once it has closed the pipes.
unfoldable pub child_descriptors : List (Option Bytes) → ℕ → ℕ → Cmd → Option Table
child_descriptors argv i n c =
    let made = make_pipes (n - 1) 0 shell_table in child_table argv i n c made.0 made.1

unfoldable pub shell_descriptors : ℕ → Option Table
shell_descriptors n = let made = make_pipes (n - 1) 0 shell_table in close_all made.0 made.1

-- The loop over the commands from number `i` on, of `n`: what each child has open.
unfoldable pub child_tables : List (Option Bytes) → ℕ → ℕ → List Cmd → List (Option Table)
child_tables argv n i [] = []
child_tables argv n i (c ∷ cs) = child_descriptors argv i n c ∷ child_tables argv n (i + 1) cs
