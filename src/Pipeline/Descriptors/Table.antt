-- ===== src/Pipeline/Descriptors/Table.antt =====
-- Tables whose descriptors are all open but for the last, which a file was opened at and closed.
use cs.Base.{
  ℕ, zero, suc, ◌+◌, ◌<◌, ◌≡◌, refl, ap, Bool, true, false, List, [], ◌∷◌, ◌++◌, map, Option, none,
  some, length, get_elem?, set, arith, ◌>>=◌,
}
use cs.Pipeline.Descriptors.{
  Object, read_end, write_end, Table, object_at, open_lowest, dup2, close,
}

-- The table in which all these are open.
abbrev pub fulls : List Object → Table
fulls = map (λ (o : Object). some o)

abbrev pub spare : Bool → Table
spare false = []
spare true = none ∷ []

-- The numbers of `m` pipes from a descriptor on, and what they stand for.
abbrev pub pipe_numbers : ℕ → ℕ → List (ℕ × ℕ)
pipe_numbers b zero = []
pipe_numbers b (suc m) = (b, b + 1) ∷ pipe_numbers (b + 2) m

abbrev pub pipe_objects : ℕ → ℕ → List Object
pipe_objects k zero = []
pipe_objects k (suc m) = read_end k ∷ write_end k ∷ pipe_objects (k + 1) m

abbrev pub closed : ℕ → Table
closed zero = []
closed (suc m) = none ∷ none ∷ closed m

pub open_lowest-fulls :
    (l : List Object) (b : Bool) (o : Object)
    → open_lowest o (fulls l ++ spare b) ≡ (length l, fulls l ++ some o ∷ [])
unfolding open_lowest
open_lowest-fulls [] false o = refl
open_lowest-fulls [] true o = refl
open_lowest-fulls (x ∷ l) b o = rw (open_lowest-fulls l b o) refl

pub get_elem?-fulls :
    (l : List Object) (s : Table) (i : ℕ) (o : Object)
    → get_elem? l i ≡ some o
    → object_at (fulls l ++ s) i ≡ some o
get_elem?-fulls [] s i o h = cc
get_elem?-fulls (x ∷ l) s zero o h = h
get_elem?-fulls (x ∷ l) s (suc i) o h = get_elem?-fulls l s i o h

set-fulls :
    (l : List Object) (s : Table) (i : ℕ) (o : Object)
    → i < length l
    → set (fulls l ++ s) i (some o) ≡ fulls (set l i o) ++ s
set-fulls [] s i o h = elim h [ ]
set-fulls (x ∷ l) s zero o h = refl
set-fulls (x ∷ l) s (suc i) o h = ap (λ (t : Table). some x ∷ t) (set-fulls l s i o (omega arith))

pub dup2-fulls :
    (l : List Object) (s : Table) (i k : ℕ) (o : Object)
    → object_at (fulls l ++ s) i ≡ some o
    → k < length l
    → dup2 i k (fulls l ++ s) ≡ some (fulls (set l k o) ++ s)
unfolding dup2
dup2-fulls l s i k o e h = rw (e, ◌>>=◌, set-fulls l s k o h) refl

pub object_at-append : (p s : Table) (x : Option Object) → object_at (p ++ x ∷ s) (length p) ≡ x
object_at-append [] s x = refl
object_at-append (y ∷ p) s x = object_at-append p s x

set-append : (p s : Table) (x y : Option Object) → set (p ++ x ∷ s) (length p) y ≡ p ++ y ∷ s
set-append [] s x y = refl
set-append (z ∷ p) s x y = ap (λ (t : Table). z ∷ t) (set-append p s x y)

pub close-append :
    (p s : Table) (o : Object) → close (length p) (p ++ some o ∷ s) ≡ some (p ++ none ∷ s)
unfolding close
close-append p s o = rw (object_at-append p s (some o), ◌>>=◌, set-append p s (some o) none) refl
