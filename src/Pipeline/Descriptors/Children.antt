-- ===== src/Pipeline/Descriptors/Children.antt =====
-- Each child of a pipeline has its ends at its descriptors, and the shell keeps none.
use cs.Base.{
  ℕ, zero, suc, ◌+◌, ◌-◌, ◌<◌, ◌≤◌, ◌≡◌, inl, inr, refl, sym, ap, ◌∙◌, Bool, true, false, List, [],
  ◌∷◌, Option, none, some, length, arith, ◌>>=◌, ltb, Bool-cases, Option-cases, append-nil,
  if◌then◌else◌, ◌&&◌,
}
use cs.CString.{Bytes}
use cs.Pipeline.{Cmd, End, file, end_of, pipe_in, pipe_out, child, children, Args}
use cs.Pipeline.Descriptors.{
  Object, stream, opened, read_end, write_end, Table, redirect, join_out, join_in, child_table,
  child_tables, shell_table, child_descriptors, shell_descriptors, make_pipes, name_at, is_none,
}
use cs.Pipeline.Descriptors.Table.{
  fulls, spare, pipe_numbers, pipe_objects, dup2-fulls, get_elem?-fulls,
}
use cs.Pipeline.Descriptors.Pipes.{make_pipes-full, pipe-placed}
use cs.Pipeline.Descriptors.Ends.{
  source_of, sink_of, HasOnly, Implements, AllImplement, with_pipes, close_all-HasOnly,
  redirect-refused, redirect-joins, end_of-joins,
}

join_in-some : (i k : ℕ) (ps : List (ℕ × ℕ)) (t : Table) → join_in i (some k) ps t ≡ some t
unfolding join_in
join_in-some i k ps t = elim (Bool-cases (ltb 0 i)) [
  | inl e ↦ rw (e, ◌&&◌, if◌then◌else◌) refl
  | inr e ↦ rw (e, ◌&&◌, if◌then◌else◌) refl
]

join_out-some : (i n k : ℕ) (ps : List (ℕ × ℕ)) (t : Table) → join_out i n (some k) ps t ≡ some t
unfolding join_out
join_out-some i n k ps t = elim (Bool-cases (ltb i (n - 1))) [
  | inl e ↦ rw (e, ◌&&◌, if◌then◌else◌) refl
  | inr e ↦ rw (e, ◌&&◌, if◌then◌else◌) refl
]

join_in-none :
    (m i : ℕ) (b : Object) (d : Bool)
    → i ≤ m
    → join_in i none (pipe_numbers 3 m) (with_pipes m (stream 0) b d)
      ≡ some (with_pipes m (source_of (pipe_in i)) b d)
unfolding join_in pipe_in
join_in-none m zero b d h = refl
join_in-none m (suc i) b d h =
    let l = stream 0 ∷ b ∷ stream 2 ∷ pipe_objects 0 m in
    let (r, w, e, er, ew) = pipe-placed m 0 i (stream 0 ∷ b ∷ stream 2 ∷ []) (omega arith) in
    let z : suc i - 1 ≡ i = omega arith in
    let lt : ltb 0 (suc i) ≡ true = ground arith in
    let o : 0 + i ≡ i = omega arith in
    let at = get_elem?-fulls l (spare d) r (read_end i) (rw o at er) in
    rw (lt, ◌&&◌, is_none, if◌then◌else◌, z, e, ◌>>=◌)
      (dup2-fulls l (spare d) r 0 (read_end i) at (omega arith))

join_out-none :
    (m i : ℕ) (a : Object) (d : Bool)
    → i ≤ m
    → join_out i (suc m) none (pipe_numbers 3 m) (with_pipes m a (stream 1) d)
      ≡ some (with_pipes m a (sink_of (pipe_out i (m - i))) d)
unfolding join_out pipe_out
join_out-none m i a d h =
    let l = a ∷ stream 1 ∷ stream 2 ∷ pipe_objects 0 m in
    let z : suc m - 1 ≡ m = omega arith in
    elim (Bool-cases (ltb i m)) [
      | inl lt ↦
          let b : i < m = ground arith in
          let (r, w, e, er, ew) = pipe-placed m 0 i (a ∷ stream 1 ∷ stream 2 ∷ []) b in
          let o : 0 + i ≡ i = omega arith in
          let at = get_elem?-fulls l (spare d) w (write_end i) (rw o at ew) in
          let n : m - i ≡ suc (m - i - 1) = omega arith in
          rw (z, lt, ◌&&◌, is_none, if◌then◌else◌, e, ◌>>=◌, n)
            (dup2-fulls l (spare d) w 1 (write_end i) at (omega arith))
      | inr ge ↦
          let n : m - i ≡ 0 = ground arith in rw (z, ge, ◌&&◌, is_none, if◌then◌else◌, n) refl
    ]

-- How the input of a child is joined, and how its output is.
data Inward (argv : List (Option Bytes)) (m i : ℕ) (redir : Option ℕ) : Type 0 where
  refused :
      ((t : Table) → redirect argv redir 0 t ≡ none)
      → end_of argv redir (pipe_in i) ≡ none
      → Inward argv m i redir
  joined :
      (a : Object) (d : Bool) (e : End)
      → redirect argv redir 0 (with_pipes m (stream 0) (stream 1) false)
        ≡ some (with_pipes m a (stream 1) d)
      → end_of argv redir (pipe_in i) ≡ some e
      → ((b : Object) (d2 : Bool)
          → join_in i redir (pipe_numbers 3 m) (with_pipes m a b d2)
            ≡ some (with_pipes m (source_of e) b d2))
      → Inward argv m i redir

data Outward (argv : List (Option Bytes)) (m i : ℕ) (redir : Option ℕ) : Type 0 where
  refused :
      ((t : Table) → redirect argv redir 1 t ≡ none)
      → end_of argv redir (pipe_out i (m - i)) ≡ none
      → Outward argv m i redir
  joined :
      (e : End)
      → ((a : Object) (d : Bool)
          → (b : Object) × (d2 : Bool) × (redirect argv redir 1 (with_pipes m a (stream 1) d)
              ≡ some (with_pipes m a b d2))
            × (join_out i (suc m) redir (pipe_numbers 3 m) (with_pipes m a b d2)
                ≡ some (with_pipes m a (sink_of e) d2)))
      → end_of argv redir (pipe_out i (m - i)) ≡ some e
      → Outward argv m i redir

inward : (argv : List (Option Bytes)) (m i : ℕ) (redir : Option ℕ) → i ≤ m → Inward argv m i redir
unfolding redirect end_of
inward argv m i none h =
    Inward.joined (stream 0) false (pipe_in i) refl refl (λ b d2. join_in-none m i b d2 h)
inward argv m i (some k) h = elim (Option-cases (name_at argv k)) [
  | inl e ↦
      Inward.refused (λ t. (redirect-refused argv k 0 t (pipe_in i) e).0)
        (redirect-refused argv k 0 [] (pipe_in i) e).1
  | inr (f, e) ↦
      let l = stream 0 ∷ stream 1 ∷ stream 2 ∷ pipe_objects 0 m in
      Inward.joined (opened f) true (file f) (redirect-joins argv k 0 l false f e (omega arith))
        (end_of-joins argv k f (pipe_in i) e)
        (λ b d2. join_in-some i k (pipe_numbers 3 m) (with_pipes m (opened f) b d2))
]

outward : (argv : List (Option Bytes)) (m i : ℕ) (redir : Option ℕ) → i ≤ m → Outward argv m i redir
unfolding redirect end_of
outward argv m i none h =
    Outward.joined (pipe_out i (m - i)) (λ a d. (stream 1, d, refl, join_out-none m i a d h)) refl
outward argv m i (some k) h = elim (Option-cases (name_at argv k)) [
  | inl e ↦
      Outward.refused (λ t. (redirect-refused argv k 1 t (pipe_in i) e).0)
        (redirect-refused argv k 1 [] (pipe_out i (m - i)) e).1
  | inr (f, e) ↦
      Outward.joined (file f)
        (λ a d.
          let l = a ∷ stream 1 ∷ stream 2 ∷ pipe_objects 0 m in
          (
            opened f,
            true,
            redirect-joins argv k 1 l d f e (omega arith),
            join_out-some i (suc m) k (pipe_numbers 3 m) (with_pipes m a (opened f) true),
          ))
        (end_of-joins argv k f (pipe_out i (m - i)) e)
]

made :
    (m : ℕ)
    → make_pipes m 0 shell_table ≡ (pipe_numbers 3 m, with_pipes m (stream 0) (stream 1) false)
made m =
    let l = stream 0 ∷ stream 1 ∷ stream 2 ∷ pipe_objects 0 m in
    make_pipes-full m 0 (stream 0 ∷ stream 1 ∷ stream 2 ∷ [])
    ∙ ap (λ (t : Table). (pipe_numbers 3 m, t)) (sym (append-nil (fulls l)))

child_descriptors-child :
    (argv : List (Option Bytes)) (m i : ℕ) (c : Cmd)
    → i ≤ m
    → Implements (child_descriptors argv i (suc m) c) (child argv i (m - i) c)
unfolding child_descriptors child_table child
child_descriptors-child argv m i c h =
    let z : suc m - 1 ≡ m = omega arith in
    let t = with_pipes m (stream 0) (stream 1) false in
    elim (inward argv m i c.stdin_redir h) [
      | refused n e ↦ rw (z, made m, n t, e, ◌>>=◌) tt
      | joined a d e r q j ↦ elim (outward argv m i c.stdout_redir h) [
        | refused n e2 ↦ rw (z, made m, r, q, ◌>>=◌, n (with_pipes m a (stream 1) d), e2) tt
        | joined e2 f g ↦
            let (b, d2, r2, jo) = f a d in
            let (u, cl, only) = close_all-HasOnly m (source_of e) (sink_of e2) d2 in
            rw (z, made m, r, q, ◌>>=◌, r2, g, jo, j (sink_of e2) d2, cl) only
      ]
    ]

shell_descriptors-restores :
    (n : ℕ)
    → (t : Table) × (shell_descriptors n ≡ some t) × HasOnly t (stream 0) (stream 1) (stream 2)
unfolding shell_descriptors
shell_descriptors-restores n =
    let (u, cl, only) = close_all-HasOnly (n - 1) (stream 0) (stream 1) false in
    (u, rw (made (n - 1)) cl, only)

child_tables-children :
    (argv : List (Option Bytes)) (n i : ℕ) (cs : List Cmd)
    → i + length cs ≡ n
    → AllImplement (child_tables argv n i cs) (children argv i cs)
unfolding child_tables children
child_tables-children argv n i [] h = tt
child_tables-children argv n i (c ∷ cs) h =
    let m = n - 1 in
    let e : suc m ≡ n = omega arith in
    let q : m - i ≡ length cs = omega arith in
    (
      rw (e, q) at (child_descriptors-child argv m i c (omega arith)),
      child_tables-children argv n (i + 1) cs (omega arith),
    )

-- When a child calls execve, it has exactly three descriptors open: descriptor 0 is what its input is
-- to be, the file that its command names or else the read end of the pipe of the child before, or what
-- the shell reads where there is none; descriptor 1 is what its output is to be, in the same way; and
-- descriptor 2 is that of the shell. No other end of a pipe and no opened file is left. A child fails
-- in these calls exactly where it has no such input or output. The shell that has closed the pipes has
-- its own three descriptors open, as before, and no other.
pub child_tables-Implements :
    (r : Args)
    → AllImplement (child_tables r.argv (length r.cmds) 0 r.cmds) (children r.argv 0 r.cmds)
      × ((t : Table) × (shell_descriptors (length r.cmds) ≡ some t)
          × HasOnly t (stream 0) (stream 1) (stream 2))
child_tables-Implements r = (
  child_tables-children r.argv (length r.cmds) 0 r.cmds (omega arith),
  shell_descriptors-restores (length r.cmds),
)
