-- ===== src/Signals/Runs.antt =====
-- What holds in all runs of the signal program.
use cs.Base.{
  ℕ, ◌+◌, ◌≤◌, ◌≡◌, refl, subst, false, List, [], ◌∷◌, map, Option, some, >>=-eq-some, length,
  arith,
}
use cs.Signals.{
  Signal, Stmt, handler, Frame, Process, has, Event, next, started, hup, int, quit, term, pwr, usr1,
  stkflt, sys, usr2, chld, arrives,
}
use cs.Signals.Killer.{Order, kill, sleep, run_events, run_orders}
use cs.Signals.Prints.{Holds, printed, due, owed}
use cs.Signals.Kept.{Ordered, OrderedAll, Kept, next-Kept}

-- The states that the program comes to.
pub data Reaches (forks : List (Option ℕ)) : Process → Type 0 where
  starts : Reaches forks (started forks)
  steps : {p q : Process} (e : Event) → Reaches forks p → next e p ≡ some q → Reaches forks q

Holds-of : (P : Process → Type 0) {o : Option Process} {q : Process} → o ≡ some q → Holds P o → P q
Holds-of P e h = subst (λ (o : Option Process). Holds P o) e h

Reaches-Kept :
    (a b : ℕ) {forks : List (Option ℕ)} {p : Process}
    → ((s : Signal) → due a (handler s) ≡ due b (handler s))
    → ((s : Signal) → Ordered a b (handler s))
    → Reaches forks p
    → Kept a b p
Reaches-Kept a b v o starts = (refl, refl, tt)
Reaches-Kept a b v o (steps {p} e r h) =
    Holds-of (Kept a b) h (next-Kept a b e p v o (Reaches-Kept a b v o r))

even_12 : (s : Signal) → due 1 (handler s) ≡ due 2 (handler s)
unfolding handler
even_12 hup = refl
even_12 int = refl
even_12 quit = refl
even_12 term = refl
even_12 pwr = refl
even_12 usr1 = refl
even_12 stkflt = refl
even_12 sys = refl
even_12 usr2 = refl
even_12 chld = refl

handler-Ordered_12 : (s : Signal) → Ordered 1 2 (handler s)
unfolding handler
handler-Ordered_12 hup = ground arith
handler-Ordered_12 int = ground arith
handler-Ordered_12 quit = ground arith
handler-Ordered_12 term = ground arith
handler-Ordered_12 pwr = ground arith
handler-Ordered_12 usr1 = ground arith
handler-Ordered_12 stkflt = ground arith
handler-Ordered_12 sys = ground arith
handler-Ordered_12 usr2 = ground arith
handler-Ordered_12 chld = ground arith

even_89 : (s : Signal) → due 8 (handler s) ≡ due 9 (handler s)
unfolding handler
even_89 hup = refl
even_89 int = refl
even_89 quit = refl
even_89 term = refl
even_89 pwr = refl
even_89 usr1 = refl
even_89 stkflt = refl
even_89 sys = refl
even_89 usr2 = refl
even_89 chld = refl

handler-Ordered_89 : (s : Signal) → Ordered 8 9 (handler s)
unfolding handler
handler-Ordered_89 hup = ground arith
handler-Ordered_89 int = ground arith
handler-Ordered_89 quit = ground arith
handler-Ordered_89 term = ground arith
handler-Ordered_89 pwr = ground arith
handler-Ordered_89 usr1 = ground arith
handler-Ordered_89 stkflt = ground arith
handler-Ordered_89 sys = ground arith
handler-Ordered_89 usr2 = ground arith
handler-Ordered_89 chld = ground arith

-- No signal stands twice in the list.
abbrev pub Apart : List Signal → Type 0
Apart [] = Unit
Apart (s ∷ l) = (has s l ≡ false) × Apart l

abbrev pub sigs : List Frame → List Signal
sigs = map (λ (f : Frame). f.sig)

due-Ordered :
    (a b : ℕ) (l : List Stmt) → Ordered a b l → (due a l ≤ due b l) × (due b l ≤ due a l + 1)
due-Ordered a b [] o = (omega arith, omega arith)
due-Ordered a b (x ∷ l) (y, z, o) = (y, z)

owed-OrderedAll :
    (a b : ℕ) (fs : List Frame)
    → OrderedAll a b fs
    → (owed a fs ≤ owed b fs) × (owed b fs ≤ owed a fs + length fs)
owed-OrderedAll a b [] o = (omega arith, omega arith)
owed-OrderedAll a b (f ∷ fs) (l, o) =
    let (x, y) = owed-OrderedAll a b fs o in
    let (z, w) = due-Ordered a b f.rest l in (omega arith, omega arith)

printed-Kept :
    (a b : ℕ) (p : Process)
    → Kept a b p
    → (printed b p.out ≤ printed a p.out) × (printed a p.out ≤ printed b p.out + length p.frames)
printed-Kept a b p (n, v, o) =
    let (x, y) = owed-OrderedAll a b p.frames o in (omega arith, omega arith)

-- Whatever signals come, and whenever, there are never more lines 2 than lines 1 nor more lines 9 than
-- lines 8, and at most as many of them are missing as handlers run; so none is where `main` goes on.
pub Reaches-printed :
    {forks : List (Option ℕ)} {p : Process}
    → Reaches forks p
    → (printed 2 p.out ≤ printed 1 p.out)
      × (printed 1 p.out ≤ printed 2 p.out + length p.frames)
      × (printed 9 p.out ≤ printed 8 p.out)
      × (printed 8 p.out ≤ printed 9 p.out + length p.frames)
Reaches-printed {p = p} r =
    let (x, y) = printed-Kept 1 2 p (Reaches-Kept 1 2 even_12 handler-Ordered_12 r) in
    let (z, w) = printed-Kept 8 9 p (Reaches-Kept 8 9 even_89 handler-Ordered_89 r) in (x, y, z, w)

run_events-Reaches :
    {forks : List (Option ℕ)} (es : List Event) (p : Process) {q : Process}
    → Reaches forks p
    → run_events es p ≡ some q
    → Reaches forks q
unfolding run_events
run_events-Reaches {forks = forks} [] p r h = Holds-of (Reaches forks) h r
run_events-Reaches (e ∷ es) p r h =
    let (q, e1, e2) = >>=-eq-some (next e p) (run_events es) h in
    run_events-Reaches es q (steps e r e1) e2

-- A run of a scenario is one of the program, whatever happens during the sleeps.
pub run_orders-Reaches :
    {forks : List (Option ℕ)} (os : List Order) (naps : List (List Event)) (p : Process)
    {q : Process}
    → Reaches forks p
    → run_orders os naps p ≡ some q
    → Reaches forks q
unfolding run_orders
run_orders-Reaches {forks = forks} [] naps p r h = Holds-of (Reaches forks) h r
run_orders-Reaches (kill s ∷ os) naps p r h =
    let (q, e1, e2) = >>=-eq-some (next (arrives s) p) (run_orders os naps) h in
    run_orders-Reaches os naps q (steps (arrives s) r e1) e2
run_orders-Reaches (sleep n ∷ os) [] p r h = cc
run_orders-Reaches (sleep n ∷ os) (es ∷ naps) p r h =
    let (q, e1, e2) = >>=-eq-some (run_events es p) (run_orders os naps) h in
    run_orders-Reaches os naps q (run_events-Reaches es p r e1) e2
