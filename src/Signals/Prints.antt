-- ===== src/Signals/Prints.antt =====
-- What a statement of the signal program prints and keeps.
use cs.Base.{
  ℕ, zero, suc, ◌+◌, ◌≡◌, refl, Bool, true, false, List, [], ◌∷◌, ◌++◌, Option, none, some, ◌==◌,
  if◌then◌else◌, inl, inr, Bool-cases, arith,
}
use cs.Signals.{
  Signal, Stmt, puts, Line, line, foo_line, errno_line, status_line, Frame, Process, has, arrive,
  forked, waited_nohang, waited, exec, is_wait, int, unset_line, sleeps, raise_int, put_foo,
  set_foo, fork_child, wait_nohang, flip_block, term_default, wait_print,
}

-- A predicate on what a step gives, if it gives anything.
abbrev pub Holds : (Process → Type 0) → Option Process → Type 0
Holds P none = Unit
Holds P (some q) = P q

pub Holds-map :
    {P Q : Process → Type 0} (o : Option Process)
    → ((q : Process) → P q → Q q)
    → Holds P o
    → Holds Q o
Holds-map none f h = tt
Holds-map (some q) f h = f q h

pub unless-Holds :
    (P : Process → Type 0) (b : Bool) (o : Option Process)
    → Holds P o
    → Holds P (if b then none else o)
unless-Holds P true o h = tt
unless-Holds P false o h = h

-- How often a number is printed, and how often it is still to be printed.
abbrev pub is_line : ℕ → Line → ℕ
is_line k (line n) = if n == k then 1 else 0
is_line k _ = 0

abbrev pub printed : ℕ → List Line → ℕ
printed k [] = 0
printed k (l ∷ ls) = is_line k l + printed k ls

abbrev pub is_puts : ℕ → Stmt → ℕ
is_puts k (puts n) = if n == k then 1 else 0
is_puts k _ = 0

abbrev pub due : ℕ → List Stmt → ℕ
due k [] = 0
due k (x ∷ xs) = is_puts k x + due k xs

abbrev pub owed : ℕ → List Frame → ℕ
owed k [] = 0
owed k (f ∷ fs) = due k f.rest + owed k fs

pub printed-end :
    (k : ℕ) (ls : List Line) (l : Line) → printed k (ls ++ l ∷ []) ≡ printed k ls + is_line k l
printed-end k [] l = omega arith
printed-end k (m ∷ ls) l = omega (arith, printed-end k ls l)

-- What a statement keeps, and what it prints.
abbrev pub Same : Stmt → Process → Process → Type 0
Same x p q =
    (q.frames ≡ p.frames)
    × (q.mask ≡ p.mask)
    × (q.set ≡ p.set)
    × ((k : ℕ) → printed k q.out ≡ printed k p.out + is_puts k x)

pub arrive-Same :
    (s : Signal) (x : Stmt) (p : Process) → ((k : ℕ) → is_puts k x ≡ 0) → Same x p (arrive s p)
unfolding arrive
arrive-Same s x p h = elim (Bool-cases (has s p.pending)) [
  | inl e ↦ rw (e, if◌then◌else◌) (refl, refl, refl, λ k. omega (arith, h k))
  | inr e ↦ rw (e, if◌then◌else◌) (refl, refl, refl, λ k. omega (arith, h k))
]

waited_nohang-Same : (r z : ℕ) (p : Process) → Same wait_nohang p (waited_nohang r z p)
unfolding waited_nohang
waited_nohang-Same r (suc z) p = (refl, refl, refl, λ k. omega arith)
waited_nohang-Same (suc r) zero p = (refl, refl, refl, λ k. omega arith)
waited_nohang-Same zero zero p = (refl, refl, refl, λ k. printed-end k p.out (errno_line 10))

forked-Same : (rs : List (Option ℕ)) (p : Process) → Holds (Same fork_child p) (forked rs p)
unfolding forked
forked-Same [] p = tt
forked-Same (none ∷ rs) p = (refl, refl, refl, λ k. omega arith)
forked-Same (some pid ∷ rs) p = (refl, refl, refl, λ k. omega arith)

waited-Same : (r z : ℕ) (p : Process) → Holds (Same wait_print p) (waited r z p)
unfolding waited
waited-Same r (suc z) p = (refl, refl, refl, λ k. printed-end k p.out (status_line 7))
waited-Same (suc r) zero p = tt
waited-Same zero zero p = (refl, refl, refl, λ k. printed-end k p.out unset_line)

pub exec-Same : (x : Stmt) (p : Process) → Holds (Same x p) (exec x p)
unfolding exec
exec-Same (puts n) p = (refl, refl, refl, λ k. printed-end k p.out (line n))
exec-Same sleeps p = (refl, refl, refl, λ k. omega arith)
exec-Same raise_int p = arrive-Same int raise_int p (λ k. refl)
exec-Same put_foo p = (refl, refl, refl, λ k. printed-end k p.out (foo_line p.foo))
exec-Same set_foo p = (refl, refl, refl, λ k. omega arith)
exec-Same fork_child p = forked-Same p.forks p
exec-Same wait_nohang p = waited_nohang-Same p.running p.zombies p
exec-Same flip_block p = (refl, refl, refl, λ k. omega arith)
exec-Same term_default p = (refl, refl, refl, λ k. omega arith)
exec-Same wait_print p = waited-Same p.running p.zombies p

pub is_wait-quiet : (x : Stmt) (k : ℕ) → is_wait x ≡ true → is_puts k x ≡ 0
is_wait-quiet (puts n) k h = cc
is_wait-quiet sleeps k h = refl
is_wait-quiet raise_int k h = refl
is_wait-quiet put_foo k h = refl
is_wait-quiet set_foo k h = refl
is_wait-quiet fork_child k h = refl
is_wait-quiet wait_nohang k h = refl
is_wait-quiet flip_block k h = refl
is_wait-quiet term_default k h = refl
is_wait-quiet wait_print k h = refl
