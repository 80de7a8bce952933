-- ===== src/Pipeline/Descriptors/Pipes.antt =====
-- The pipes of a pipeline in a table of descriptors.
use cs.Base.{
  ℕ, zero, suc, ◌+◌, ◌<◌, ◌≡◌, refl, sym, ap, ◌∙◌, false, List, [], ◌∷◌, ◌++◌, Option, none, some,
  length, get_elem?, arith, append_assoc, append-nil, length-append, ◌>>=◌,
}
use cs.Pipeline.Descriptors.{
  Object, read_end, write_end, Table, open_lowest, close, make_pipe, make_pipes, close_all,
}
use cs.Pipeline.Descriptors.Table.{
  fulls, pipe_numbers, pipe_objects, closed, open_lowest-fulls, close-append,
}

append-nil_fulls : (l : List Object) → fulls l ++ [] ≡ fulls l
append-nil_fulls [] = refl
append-nil_fulls (x ∷ l) = ap (λ (t : Table). some x ∷ t) (append-nil_fulls l)

fulls-append : (l : List Object) (o : Object) → fulls l ++ some o ∷ [] ≡ fulls (l ++ o ∷ [])
fulls-append [] o = refl
fulls-append (x ∷ l) o = ap (λ (t : Table). some x ∷ t) (fulls-append l o)

open_lowest-full :
    (l : List Object) (o : Object) → open_lowest o (fulls l) ≡ (length l, fulls (l ++ o ∷ []))
open_lowest-full l o =
    ap (open_lowest o) (sym (append-nil_fulls l))
    ∙ (open_lowest-fulls l false o ∙ ap (λ (t : Table). (length l, t)) (fulls-append l o))

make_pipe-full :
    (l : List Object) (k : ℕ)
    → make_pipe k (fulls l) ≡ ((length l, length l + 1), fulls (l ++ read_end k ∷ write_end k ∷ []))
unfolding make_pipe
make_pipe-full l k =
    let e = append_assoc l (read_end k ∷ []) (write_end k ∷ []) in
    let n = length-append l (read_end k ∷ []) in
    rw
      (open_lowest-full l (read_end k), open_lowest-full (l ++ read_end k ∷ []) (write_end k), e, n)
      refl

pub make_pipes-full :
    (m k : ℕ) (l : List Object)
    → make_pipes m k (fulls l) ≡ (pipe_numbers (length l) m, fulls (l ++ pipe_objects k m))
unfolding make_pipes
make_pipes-full zero k l = rw (append-nil l) refl
make_pipes-full (suc m) k l =
    let l2 = l ++ read_end k ∷ write_end k ∷ [] in
    let e = append_assoc l (read_end k ∷ write_end k ∷ []) (pipe_objects (k + 1) m) in
    let n = length-append l (read_end k ∷ write_end k ∷ []) in
    rw (make_pipe-full l k, make_pipes-full m (k + 1) l2, e, n) refl

-- Behind the table `p`, the second descriptor is closed.
close-second :
    (p s : Table) (x : Option Object) (o : Object)
    → close (length p + 1) (p ++ x ∷ some o ∷ s) ≡ some (p ++ x ∷ none ∷ s)
close-second p s x o =
    let n = length-append p (x ∷ []) in
    let a1 = append_assoc p (x ∷ []) (some o ∷ s) in
    let a2 = append_assoc p (x ∷ []) (none ∷ s) in
    rw (n, a1, a2) at (close-append (p ++ x ∷ []) s o)

pub close_all-pipes :
    (m k : ℕ) (p s : Table)
    → close_all (pipe_numbers (length p) m) (p ++ (fulls (pipe_objects k m) ++ s))
      ≡ some (p ++ (closed m ++ s))
unfolding close_all
close_all-pipes zero k p s = refl
close_all-pipes (suc m) k p s =
    let p2 = p ++ none ∷ none ∷ [] in
    let rest = fulls (pipe_objects (k + 1) m) ++ s in
    let n = length-append p (none ∷ none ∷ []) in
    let a1 = append_assoc p (none ∷ none ∷ []) rest in
    let a2 = append_assoc p (none ∷ none ∷ []) (closed m ++ s) in
    let all = rw (n, a1, a2) at (close_all-pipes m (k + 1) p2 s) in
    rw
      (
        close-append p (some (write_end k) ∷ rest) (read_end k),
        close-second p rest none (write_end k),
        ◌>>=◌,
      )
      all

get_elem?-append : (p s : List Object) (x : Object) → get_elem? (p ++ x ∷ s) (length p) ≡ some x
get_elem?-append [] s x = refl
get_elem?-append (y ∷ p) s x = get_elem?-append p s x

get_elem?-second :
    (p s : List Object) (x y : Object) → get_elem? (p ++ x ∷ y ∷ s) (length p + 1) ≡ some y
get_elem?-second p s x y =
    let n = length-append p (x ∷ []) in
    let a = append_assoc p (x ∷ []) (y ∷ s) in rw (n, a) at (get_elem?-append (p ++ x ∷ []) s y)

-- The ends of a pipe are where its numbers say.
pub pipe-placed :
    (m k i : ℕ) (p : List Object)
    → i < m
    → (r w : ℕ) × (get_elem? (pipe_numbers (length p) m) i ≡ some (r, w))
      × (get_elem? (p ++ pipe_objects k m) r ≡ some (read_end (k + i)))
      × (get_elem? (p ++ pipe_objects k m) w ≡ some (write_end (k + i)))
pipe-placed zero k i p h = elim h [ ]
pipe-placed (suc m) k zero p h =
    let rest = pipe_objects (k + 1) m in
    let z : k + 0 ≡ k = omega arith in
    rw z (
      length p,
      length p + 1,
      refl,
      get_elem?-append p (write_end k ∷ rest) (read_end k),
      get_elem?-second p rest (read_end k) (write_end k),
    )
pipe-placed (suc m) k (suc i) p h =
    let p2 = p ++ read_end k ∷ write_end k ∷ [] in
    let n = length-append p (read_end k ∷ write_end k ∷ []) in
    let a = append_assoc p (read_end k ∷ write_end k ∷ []) (pipe_objects (k + 1) m) in
    let z : k + 1 + i ≡ k + suc i = omega arith in
    rw (n, a, z) at (pipe-placed m (k + 1) i p2 (omega arith))
