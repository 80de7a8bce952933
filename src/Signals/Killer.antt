-- ===== src/Signals/Killer.antt =====
-- The program hw4-signals/killer.c, which sends the signals of a scenario.
use cs.Base.{ℕ, List, [], ◌∷◌, Option, none, some, ◌>>=◌, ◌==◌, if◌then◌else◌}
use cs.Signals.{Signal, hup, int, quit, term, pwr, usr1, stkflt, sys, Event, arrives, next, Process}

-- A call of kill, or of sleep.
pub data Order : Type 0 where
  kill : Signal → Order
  sleep : ℕ → Order

-- The calls for the first byte of the scenario.
unfoldable pub scenario : ℕ → List Order
scenario c =
    if c == 50
    then kill hup ∷ sleep 5 ∷ []
    else if c == 51
    then kill hup ∷ sleep 5 ∷ kill hup ∷ sleep 5 ∷ []
    else if c == 52
    then kill hup ∷ sleep 1 ∷ kill int ∷ sleep 5 ∷ []
    else if c == 53
    then kill hup ∷ sleep 5 ∷ kill usr1 ∷ sleep 1 ∷ kill stkflt ∷ sleep 1 ∷ []
    else if c == 54
    then kill hup
      ∷ sleep 5
      ∷ kill sys
      ∷ sleep 1
      ∷ kill usr1
      ∷ sleep 1
      ∷ kill pwr
      ∷ sleep 1
      ∷ kill term
      ∷ sleep 1
      ∷ []
    else if c == 55
    then kill sys ∷ sleep 1 ∷ kill quit ∷ sleep 5 ∷ kill sys ∷ sleep 5 ∷ []
    else []

-- Events one after the other.
unfoldable pub run_events : List Event → Process → Option Process
run_events [] p = some p
run_events (e ∷ es) p = do q ← next e p; run_events es q

-- The scenario, where what happens in the process during each sleep is given.
unfoldable pub run_orders : List Order → List (List Event) → Process → Option Process
run_orders [] naps p = some p
run_orders (kill s ∷ os) naps p = do q ← next (arrives s) p; run_orders os naps q
run_orders (sleep n ∷ os) [] p = none
run_orders (sleep n ∷ os) (es ∷ naps) p = do q ← run_events es p; run_orders os naps q
