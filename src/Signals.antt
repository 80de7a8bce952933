-- ===== src/Signals.antt =====
-- The signal program of hw4-signals/signals.c: its handlers, and the process that takes signals, as a
-- machine that runs one statement at a time.
pub mod Killer
pub mod Prints
pub mod Kept
pub mod Runs
mod Tests
use cs.Base.{
  ℕ, zero, suc, ◌+◌, Bool, true, false, ◌&&◌, not, List, [], ◌∷◌, ◌++◌, Option, none, some, ltb,
  ◌==◌, if◌then◌else◌, ◌>>=◌,
}

pub data Signal : Type 0 where
  hup int quit term pwr usr1 stkflt sys usr2 chld : Signal

unfoldable pub number : Signal → ℕ
number hup = 1
number int = 2
number quit = 3
number usr1 = 10
number usr2 = 12
number term = 15
number stkflt = 16
number chld = 17
number pwr = 30
number sys = 31

-- The statements of the handlers.
pub data Stmt : Type 0 where
  puts : ℕ → Stmt
  sleeps raise_int put_foo set_foo fork_child wait_nohang flip_block term_default wait_print : Stmt

-- The handlers as `main` installs them.
unfoldable pub handler : Signal → List Stmt
handler hup = puts 1 ∷ sleeps ∷ puts 2 ∷ []
handler int = puts 1 ∷ sleeps ∷ puts 2 ∷ []
handler quit = puts 8 ∷ raise_int ∷ sleeps ∷ puts 9 ∷ []
handler term = put_foo ∷ []
handler pwr = set_foo ∷ []
handler usr1 = fork_child ∷ []
handler stkflt = wait_nohang ∷ []
handler sys = flip_block ∷ []
handler usr2 = term_default ∷ []
handler chld = wait_print ∷ []

-- What is printed: a number of the text, foo, an error number, the exit status of a child, and a status
-- that was never set.
pub data Line : Type 0 where
  line : ℕ → Line
  foo_line : Option ℕ → Line
  errno_line : ℕ → Line
  status_line : ℕ → Line
  unset_line : Line

-- A handler that has started: its signal, the statements left, and the mask to return to.
pub record Frame : Type 0 where
  pub sig : Signal
  pub rest : List Stmt
  pub saved : List Signal

-- `foo` is none for -1; `set` is the variable mask of `main`; `running` and `zombies` count the
-- children that run and those that ended; `forks` are the results of fork to come, none for a failure.
pub record Process : Type 0 where
  pub foo : Option ℕ
  pub block : Bool
  pub set : List Signal
  pub mask : List Signal
  pub pending : List Signal
  pub frames : List Frame
  pub term_dies : Bool
  pub running : ℕ
  pub zombies : ℕ
  pub forks : List (Option ℕ)
  pub i : ℕ
  pub over : Bool
  pub out : List Line

abbrev pub has : Signal → List Signal → Bool
has s [] = false
has s (t ∷ ts) = if number s == number t then true else has s ts

abbrev pub remove : Signal → List Signal → List Signal
remove s [] = []
remove s (t ∷ ts) = if number s == number t then ts else t ∷ remove s ts

-- A signal that is pending already is not kept twice.
unfoldable pub arrive : Signal → Process → Process
arrive s p = if has s p.pending then p else record p { pending = s ∷ p.pending }

abbrev pub print : Line → Process → Process
print l p = record p { out = p.out ++ l ∷ [] }

-- `foo` of `sig_handler4`
unfoldable pub at_six : Option ℕ → Option ℕ
at_six none = none
at_six (some n) = if ltb 0 n then some 6 else some n

-- The call of fork; the child exits with 7.
unfoldable pub forked : List (Option ℕ) → Process → Option Process
forked [] p = none
forked (none ∷ rs) p = some (record p { foo = none; forks = rs })
forked (some pid ∷ rs) p = some (record p { foo = some pid; forks = rs; running = p.running + 1 })

-- waitpid with WNOHANG; the error number is that of a process without children.
unfoldable pub waited_nohang : ℕ → ℕ → Process → Process
waited_nohang running (suc z) p = record p { zombies = z }
waited_nohang (suc r) zero p = p
waited_nohang zero zero p = print (errno_line 10) p

-- waitpid without it, which has no result while a child runs and none has ended.
unfoldable pub waited : ℕ → ℕ → Process → Option Process
waited running (suc z) p = some (print (status_line 7) (record p { zombies = z }))
waited (suc r) zero p = none
waited zero zero p = some (print unset_line p)

unfoldable pub exec : Stmt → Process → Option Process
exec (puts k) p = some (print (line k) p)
exec sleeps p = some p
exec raise_int p = some (arrive int p)
exec put_foo p = some (print (foo_line p.foo) p)
exec set_foo p = some (record p { foo = at_six p.foo })
exec fork_child p = forked p.forks p
exec wait_nohang p = some (waited_nohang p.running p.zombies p)
exec flip_block p = some (record p { block = not p.block })
exec term_default p = some (record p { term_dies = true })
exec wait_print p = waited p.running p.zombies p

-- The signals that `main` blocks.
unfoldable pub blocked : Bool → List Signal
blocked true = int ∷ chld ∷ []
blocked false = []

-- One round of the loop of `main`, or the end of the program behind the last.
unfoldable pub main_round : Process → Process
main_round p =
    if ltb p.i 30
    then record p { set = blocked p.block; mask = blocked p.block; i = p.i + 1 }
    else record p { over = true }

-- A handler starts with its signal blocked.
unfoldable pub start : Signal → Process → Process
start s p = record p {
  pending = remove s p.pending;
  frames = record { sig = s; rest = handler s; saved = p.mask } ∷ p.frames;
  mask = s ∷ p.mask;
}

abbrev pub is_term : Signal → Bool
is_term s = number s == 15

unfoldable pub begin : Signal → Process → Option Process
begin s p =
    if has s p.pending && not (has s p.mask)
    then if is_term s && p.term_dies then some (record p { over = true }) else some (start s p)
    else none

-- The next statement, the return of a handler, or a round of `main` where no handler runs.
unfoldable pub go : List Frame → Process → Option Process
go [] p = some (main_round p)
go (f ∷ fs) p = elim f.rest [
  | [] ↦ some (record p { frames = fs; mask = f.saved })
  | x ∷ xs ↦ exec x (record p { frames = record f { rest = xs } ∷ fs })
]

abbrev pub is_wait : Stmt → Bool
is_wait wait_print = true
is_wait _ = false

-- A call of waitpid that waits for a child that runs fails when a signal interrupts it.
abbrev pub waits : ℕ → ℕ → Bool
waits (suc r) zero = true
waits zero zero = false
waits r (suc z) = false

unfoldable pub interrupt : List Frame → Process → Option Process
interrupt [] p = none
interrupt (f ∷ fs) p = elim f.rest [
  | [] ↦ none
  | x ∷ xs ↦
      if is_wait x && waits p.running p.zombies
      then some (print unset_line (record p { frames = record f { rest = xs } ∷ fs }))
      else none
]

unfoldable pub child_end : ℕ → Process → Option Process
child_end zero p = none
child_end (suc r) p = some (arrive chld (record p { running = r; zombies = p.zombies + 1 }))

-- What comes next: a signal, the start of the handler of a pending one, a statement, the end of a child,
-- or the interruption of a wait.
pub data Event : Type 0 where
  arrives begins : Signal → Event
  goes child_ends interrupts : Event

unfoldable pub react : Event → Process → Option Process
react (arrives s) p = some (arrive s p)
react (begins s) p = begin s p
react goes p = go p.frames p
react interrupts p = interrupt p.frames p
react child_ends p = child_end p.running p

-- Nothing happens once the program is over.
unfoldable pub next : Event → Process → Option Process
next e p = if p.over then none else react e p

-- The process as `main` starts its loop.
abbrev pub started : List (Option ℕ) → Process
started forks = record {
  foo = none;
  block = false;
  set = [];
  mask = [];
  pending = [];
  frames = [];
  term_dies = false;
  running = 0;
  zombies = 0;
  forks = forks;
  i = 0;
  over = false;
  out = [];
}
