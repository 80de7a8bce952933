-- ===== src/Signals/Tests.antt =====
-- Runs of the signal program.
use cs.Base.{ℕ, ◌≡◌, refl, ◌≤◌, ◌+◌, false, List, [], ◌∷◌, Option, none, some}
use cs.Signals.{
  react, arrive, begin, number, start, go, handler, exec, main_round, blocked, forked, waited,
  waited_nohang, child_end, at_six, sleeps, puts, hup, int, quit, sys, usr1, stkflt, chld, Event,
  arrives, begins, goes, child_ends, Line, line, status_line, errno_line, unset_line, Process,
  started, next,
}
use cs.Signals.Killer.{scenario, run_orders, run_events}
use cs.Signals.Prints.{printed}
use cs.Signals.Runs.{Reaches, Reaches-printed, run_orders-Reaches}

abbrev output : Option Process → Option (List Line)
output none = none
output (some p) = some p.out

-- SIGINT in the middle of the handler of SIGHUP.
abbrev naps_4 : List (List Event)
naps_4 =
    (begins hup ∷ goes ∷ [])
    ∷ (begins int ∷ goes ∷ goes ∷ goes ∷ goes ∷ goes ∷ goes ∷ goes ∷ [])
    ∷ []

-- In between the process is in both handlers.
abbrev naps_4_inside : List (List Event)
naps_4_inside = (begins hup ∷ goes ∷ []) ∷ (begins int ∷ goes ∷ []) ∷ []

abbrev naps_5 : List (List Event)
naps_5 =
    (begins hup ∷ goes ∷ goes ∷ goes ∷ goes ∷ [])
    ∷ (begins usr1 ∷ goes ∷ goes ∷ child_ends ∷ begins chld ∷ goes ∷ goes ∷ [])
    ∷ (begins stkflt ∷ goes ∷ goes ∷ [])
    ∷ []

abbrev naps_7 : List (List Event)
naps_7 =
    (begins sys ∷ goes ∷ goes ∷ goes ∷ [])
    ∷ (begins quit ∷ goes ∷ goes ∷ goes ∷ goes ∷ goes ∷ [])
    ∷ (begins sys ∷ goes ∷ goes ∷ goes ∷ begins int ∷ goes ∷ goes ∷ goes ∷ goes ∷ [])
    ∷ []

abbrev ran : ℕ → List (List Event) → List (Option ℕ) → Option (List Line)
ran c naps forks = output (run_orders (scenario c) naps (started forks))

scenario_4 : ran 52 naps_4 [] ≡ some (line 1 ∷ line 1 ∷ line 2 ∷ line 2 ∷ [])
unfolding run_orders scenario next react run_events arrive begin number start go handler exec
    main_round blocked forked waited waited_nohang child_end at_six
scenario_4 = refl

scenario_5 :
    ran 53 naps_5 (some 9 ∷ []) ≡ some (line 1 ∷ line 2 ∷ status_line 7 ∷ errno_line 10 ∷ [])
unfolding run_orders scenario next react run_events arrive begin number start go handler exec
    main_round blocked forked waited waited_nohang child_end at_six
scenario_5 = refl

scenario_7 : ran 55 naps_7 [] ≡ some (line 8 ∷ line 9 ∷ line 1 ∷ line 2 ∷ [])
unfolding run_orders scenario next react run_events arrive begin number start go handler exec
    main_round blocked forked waited waited_nohang child_end at_six
scenario_7 = refl

-- The handler of SIGSTKFLT takes the child whose end is blocked, and that of SIGCHLD prints a status that
-- was never set.
unset_status :
    output (
      run_events
        (arrives sys
          ∷ begins sys
          ∷ goes
          ∷ goes
          ∷ goes
          ∷ arrives usr1
          ∷ begins usr1
          ∷ goes
          ∷ goes
          ∷ child_ends
          ∷ arrives stkflt
          ∷ begins stkflt
          ∷ goes
          ∷ goes
          ∷ arrives sys
          ∷ begins sys
          ∷ goes
          ∷ goes
          ∷ goes
          ∷ begins chld
          ∷ goes
          ∷ [])
        (started (some 9 ∷ [])))
    ≡ some (unset_line ∷ [])
unfolding run_orders scenario next react run_events arrive begin number start go handler exec
    main_round blocked forked waited waited_nohang child_end at_six
unset_status = refl

abbrev in_both : Process
in_both = record {
  foo = none;
  block = false;
  set = [];
  mask = int ∷ hup ∷ [];
  pending = [];
  frames =
      record { sig = int; rest = sleeps ∷ puts 2 ∷ []; saved = hup ∷ [] }
      ∷ record { sig = hup; rest = sleeps ∷ puts 2 ∷ []; saved = [] }
      ∷ [];
  term_dies = false;
  running = 0;
  zombies = 0;
  forks = [];
  i = 0;
  over = false;
  out = line 1 ∷ line 1 ∷ [];
}

in_both_reached : run_orders (scenario 52) naps_4_inside (started []) ≡ some in_both
unfolding run_orders scenario next react run_events arrive begin number start go handler exec
    main_round blocked forked waited waited_nohang child_end at_six
in_both_reached = refl

Reaches-printed_example :
    (0 ≤ 2) × (2 ≤ 0 + 2) × (printed 9 in_both.out ≤ printed 8 in_both.out) × (0 ≤ 0 + 2)
Reaches-printed_example =
    Reaches-printed
      (run_orders-Reaches (scenario 52) naps_4_inside (started []) Reaches.starts in_both_reached)
