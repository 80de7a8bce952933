-- ===== src/Pipeline/Descriptors/Ends.antt =====
-- What the children of a pipeline and the shell have open in the end.
use cs.Base.{
  ℕ, zero, suc, ◌<◌, ◌≡◌, refl, ◌∙◌, Bool, true, false, List, [], ◌∷◌, ◌++◌, Option, none, some,
  length, get_elem?, set, ◌>>=◌, length-map, length-set,
}
use cs.CString.{Bytes}
use cs.Pipeline.{Child, End, inherited, file, pipe_end, file_at, end_of}
use cs.Pipeline.Descriptors.{
  Object, stream, opened, read_end, write_end, Table, object_at, redirect, close_all, name_at,
}
use cs.Pipeline.Descriptors.Table.{
  fulls, spare, pipe_numbers, pipe_objects, closed, open_lowest-fulls, close-append, dup2-fulls,
}
use cs.Pipeline.Descriptors.Pipes.{close_all-pipes}

-- What a child is to have at descriptor 0 and at descriptor 1.
abbrev pub source_of : End → Object
source_of inherited = stream 0
source_of (file f) = opened f
source_of (pipe_end k) = read_end k

abbrev pub sink_of : End → Object
sink_of inherited = stream 1
sink_of (file f) = opened f
sink_of (pipe_end k) = write_end k

-- These three are open, and nothing else.
abbrev pub HasOnly : Table → Object → Object → Object → Type 0
HasOnly t a b c = (fd : ℕ) → object_at t fd ≡ object_at (fulls (a ∷ b ∷ c ∷ [])) fd

-- The table has what the child is to have; where the one fails, so does the other.
abbrev pub Implements : Option Table → Option Child → Type 0
Implements none none = Unit
Implements (some t) (some ch) = HasOnly t (source_of ch.stdin) (sink_of ch.stdout) (stream 2)
Implements _ _ = ⊥

abbrev pub AllImplement : List (Option Table) → List (Option Child) → Type 0
AllImplement [] [] = Unit
AllImplement (t ∷ ts) (ch ∷ chs) = Implements t ch × AllImplement ts chs
AllImplement _ _ = ⊥

-- The open table while there are `m` pipes.
abbrev pub with_pipes : ℕ → Object → Object → Bool → Table
with_pipes m a b d = fulls (a ∷ b ∷ stream 2 ∷ pipe_objects 0 m) ++ spare d

object_at-closed : (m : ℕ) (d : Bool) (fd : ℕ) → object_at (closed m ++ spare d) fd ≡ none
object_at-closed zero false fd = refl
object_at-closed zero true zero = refl
object_at-closed zero true (suc fd) = refl
object_at-closed (suc m) d zero = refl
object_at-closed (suc m) d (suc zero) = refl
object_at-closed (suc m) d (suc (suc fd)) = object_at-closed m d fd

closed-HasOnly :
    (m : ℕ) (a b : Object) (d : Bool)
    → HasOnly (fulls (a ∷ b ∷ stream 2 ∷ []) ++ (closed m ++ spare d)) a b (stream 2)
closed-HasOnly m a b d zero = refl
closed-HasOnly m a b d (suc zero) = refl
closed-HasOnly m a b d (suc (suc zero)) = refl
closed-HasOnly m a b d (suc (suc (suc fd))) = object_at-closed m d fd

pub close_all-HasOnly :
    (m : ℕ) (a b : Object) (d : Bool)
    → (t : Table) × (close_all (pipe_numbers 3 m) (with_pipes m a b d) ≡ some t)
      × HasOnly t a b (stream 2)
close_all-HasOnly m a b d =
    let p = fulls (a ∷ b ∷ stream 2 ∷ []) in
    (p ++ (closed m ++ spare d), close_all-pipes m 0 p (spare d), closed-HasOnly m a b d)

-- The file of a name, if there is one.
abbrev named : Option Bytes → Option End
named none = none
named (some f) = some (file f)

abbrev file_in : Option (Option Bytes) → Option End
file_in o = elim o [ none ↦ none | some w ↦ elim w [ none ↦ none | some a ↦ some (file a) ] ]

abbrev name_in : Option (Option Bytes) → Option Bytes
name_in o = elim o [ none ↦ none | some w ↦ w ]

file_in-named : (o : Option (Option Bytes)) → file_in o ≡ named (name_in o)
file_in-named none = refl
file_in-named (some none) = refl
file_in-named (some (some f)) = refl

file_at-named : (argv : List (Option Bytes)) (k : ℕ) → file_at argv k ≡ named (name_at argv k)
unfolding file_at
file_at-named argv k = file_in-named (get_elem? argv k)

pub redirect-refused :
    (argv : List (Option Bytes)) (k target : ℕ) (t : Table) (other : End)
    → name_at argv k ≡ none
    → (redirect argv (some k) target t ≡ none) × (end_of argv (some k) other ≡ none)
unfolding redirect end_of
redirect-refused argv k target t other h = (rw (h, ◌>>=◌) refl, rw (file_at-named argv k, h) refl)

object_at-end :
    (l : List Object) (o : Object) → object_at (fulls l ++ some o ∷ []) (length l) ≡ some o
object_at-end [] o = refl
object_at-end (x ∷ l) o = object_at-end l o

pub redirect-joins :
    (argv : List (Option Bytes)) (k target : ℕ) (l : List Object) (d : Bool) (f : Bytes)
    → name_at argv k ≡ some f
    → target < length l
    → redirect argv (some k) target (fulls l ++ spare d)
      ≡ some (fulls (set l target (opened f)) ++ spare true)
unfolding redirect
redirect-joins argv k target l d f h b =
    let o = opened f in
    let l2 = set l target o in
    let n : length (fulls l2) ≡ length l =
      length-map l2 (λ (x : Object). some x) ∙ length-set l target o in
    let joined = dup2-fulls l (some o ∷ []) (length l) target o (object_at-end l o) b in
    rw (h, ◌>>=◌, open_lowest-fulls l d o, joined) (rw n at (close-append (fulls l2) [] o))

pub end_of-joins :
    (argv : List (Option Bytes)) (k : ℕ) (f : Bytes) (other : End)
    → name_at argv k ≡ some f
    → end_of argv (some k) other ≡ some (file f)
unfolding end_of
end_of-joins argv k f other h = rw (file_at-named argv k, h) refl
