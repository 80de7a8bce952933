-- ===== src/Pipeline/Tests.antt =====
-- A run of the first shell.
use cs.Base.{◌≡◌, refl, [], ◌∷◌, ◌++◌, none, some}
use cs.CString.{Bytes, codes, str_eq, strchr, skip_spaces}
use cs.Shell.Parse.{parseline, words, next_word, set_last, split_background, bounded}
use cs.Pipeline.{kind, Child, End, inherited, eval_line, Args, parseargs, walk, last_word}
use cs.Pipeline.Walk.{Command}
use cs.Pipeline.Descriptors.{
  stream, opened, read_end, write_end, Table, child_tables, child_descriptors, child_table,
  redirect, join_in, join_out, close_all, make_pipes, make_pipe, open_lowest, dup2, close,
  shell_descriptors,
}
use cs.Pipeline.Descriptors.Ends.{AllImplement, HasOnly}
use cs.Pipeline.Descriptors.Children.{child_tables-Implements}
use cs.Pipeline.Parent.{setpgid, waitpid, parent_calls, all_succeed, run_lines, parent_calls-all}

abbrev from_file : Command
from_file = record { first = codes "cat"; others = []; reads = some (codes "f"); writes = none }

abbrev to_file : Command
to_file = record {
  first = codes "sort";
  others = codes "-r" ∷ [];
  reads = none;
  writes = some (codes "g");
}

abbrev two_commands : Bytes
two_commands = codes "cat < f | sort -r > g" ++ 10 ∷ []

abbrev two_args : Args
two_args = record {
  argv =
      some (codes "cat")
      ∷ none
      ∷ some (codes "f")
      ∷ none
      ∷ some (codes "sort")
      ∷ some (codes "-r")
      ∷ none
      ∷ some (codes "g")
      ∷ [];
  cmds =
      record { cmd = 0; stdin_redir = some 2; stdout_redir = none }
      ∷ record { cmd = 4; stdin_redir = none; stdout_redir = some 7 }
      ∷ [];
}

two_args_parsed :
    parseargs (
      codes "cat"
      ∷ codes "<"
      ∷ codes "f"
      ∷ codes "|"
      ∷ codes "sort"
      ∷ codes "-r"
      ∷ codes ">"
      ∷ codes "g"
      ∷ [])
    ≡ two_args
unfolding parseargs walk kind str_eq
two_args_parsed = refl

child_tables-Implements_example :
    AllImplement
      (child_tables two_args.argv 2 0 two_args.cmds)
      (cs.Pipeline.children two_args.argv 0 two_args.cmds)
    × ((t : Table) × (shell_descriptors 2 ≡ some t) × HasOnly t (stream 0) (stream 1) (stream 2))
child_tables-Implements_example = child_tables-Implements two_args

two_children :
    child_tables two_args.argv 2 0 two_args.cmds
    ≡ some
        (some (opened (codes "f")) ∷ some (write_end 0) ∷ some (stream 2) ∷ none ∷ none ∷ none ∷ [])
      ∷ some (
          some (read_end 0) ∷ some (opened (codes "g")) ∷ some (stream 2) ∷ none ∷ none ∷ none ∷ [])
      ∷ []
unfolding child_tables child_descriptors child_table redirect join_in join_out close_all make_pipes
    make_pipe open_lowest dup2 close
two_children = refl

-- Of two children, the second is put in the group of the first.
two_waits :
    parent_calls (all_succeed (71 ∷ 72 ∷ []))
    ≡ some (setpgid 71 71 ∷ setpgid 72 71 ∷ waitpid 71 ∷ waitpid 72 ∷ [])
two_waits = parent_calls-all 71 (72 ∷ [])

-- Nothing behind `quit` is run.
two_lines : run_lines ((codes "quit" ++ 10 ∷ []) ∷ two_commands ∷ []) ≡ cs.Pipeline.quits ∷ []
unfolding run_lines eval_line cs.Pipeline.run_argv parseline words next_word set_last
    split_background bounded skip_spaces strchr str_eq
two_lines = refl
