-- ===== src/Pipeline/Parent.antt =====
-- The parent in `eval` of shell-lab1/tsh.c: the group of the children, the wait for them, and the loop
-- of `main` around it.
use cs.Base.{
  ℕ, ◌≡◌, refl, ap, Bool, true, false, List, [], ◌∷◌, ◌++◌, map, Option, none, some, if◌then◌else◌,
  ◌>>=◌,
}
use cs.CString.{Bytes}
use cs.Pipeline.{Evaluated, nothing, builtin, quits, unsafe, pipeline, eval_line}

-- `Setpgid` and `Waitpid`
pub data Call : Type 0 where
  setpgid : ℕ → ℕ → Call
  waitpid : ℕ → Call

-- The calls of Setpgid in the loop, for each child with whether it succeeds; `none` where the program
-- ends with an error.
unfoldable pub put_in_group : ℕ → List (ℕ × Bool) → Option (List Call)
put_in_group group [] = some []
put_in_group group ((pid, succeeds) ∷ rest) = do
  calls ← put_in_group group rest
  if succeeds then some (setpgid pid group ∷ calls) else none

-- The calls of Waitpid.
unfoldable pub wait_all : List (ℕ × Bool) → List Call
wait_all [] = []
wait_all ((pid, succeeds) ∷ rest) = waitpid pid ∷ wait_all rest

-- The group is that of the first child.
unfoldable pub parent_calls : List (ℕ × Bool) → Option (List Call)
parent_calls [] = some []
parent_calls ((pid, succeeds) ∷ rest) = do
  calls ← put_in_group pid ((pid, succeeds) ∷ rest)
  some (calls ++ wait_all ((pid, succeeds) ∷ rest))

abbrev pub is_end : Evaluated → Bool
is_end quits = true
is_end unsafe = true
is_end nothing = false
is_end builtin = false
is_end (pipeline cs) = false

-- The loop of `main`, to the end of the input or of the program.
unfoldable pub run_lines : List Bytes → List Evaluated
run_lines [] = []
run_lines (line ∷ lines) =
    let done = eval_line line in
    let rest = run_lines lines in if is_end done then done ∷ [] else done ∷ rest

-- The children when all calls succeed.
abbrev pub all_succeed : List ℕ → List (ℕ × Bool)
all_succeed = map (λ (pid : ℕ). (pid, true))

put_in_group-all :
    (group : ℕ) (pids : List ℕ)
    → put_in_group group (all_succeed pids) ≡ some (map (λ (pid : ℕ). setpgid pid group) pids)
unfolding put_in_group
put_in_group-all group [] = refl
put_in_group-all group (pid ∷ pids) = rw (put_in_group-all group pids, ◌>>=◌) refl

wait_all-map : (pids : List ℕ) → wait_all (all_succeed pids) ≡ map (λ (pid : ℕ). waitpid pid) pids
unfolding wait_all
wait_all-map [] = refl
wait_all-map (pid ∷ pids) = ap (λ (l : List Call). waitpid pid ∷ l) (wait_all-map pids)

-- Where all calls succeed, every child is put in the group of the first, and then each is waited for
-- once, in their order.
pub parent_calls-all :
    (pid : ℕ) (pids : List ℕ)
    → parent_calls (all_succeed (pid ∷ pids))
      ≡ some
          (map (λ (p : ℕ). setpgid p pid) (pid ∷ pids) ++ map (λ (p : ℕ). waitpid p) (pid ∷ pids))
unfolding parent_calls
parent_calls-all pid pids =
    rw (put_in_group-all pid (pid ∷ pids), ◌>>=◌, wait_all-map (pid ∷ pids)) refl
