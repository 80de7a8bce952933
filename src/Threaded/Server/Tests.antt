-- ===== src/Threaded/Server/Tests.antt =====
-- A run of the server with one worker.
use cs.Base.{List, [], ◌∷◌}
use cs.Threaded.Tests.{site_calls}
use cs.Threaded.Sbuf.{idle}
use cs.Threaded.Server.{Server, free, Turn, accepts, main_moves, worker_moves, serves}

-- Two clients come, one is taken and served, and the other is in the buffer.
abbrev turns : List Turn
turns =
    accepts 5
    ∷ main_moves
    ∷ main_moves
    ∷ main_moves
    ∷ main_moves
    ∷ main_moves
    ∷ worker_moves 0
    ∷ accepts 6
    ∷ worker_moves 0
    ∷ worker_moves 0
    ∷ worker_moves 0
    ∷ worker_moves 0
    ∷ main_moves
    ∷ main_moves
    ∷ main_moves
    ∷ main_moves
    ∷ main_moves
    ∷ serves 0 site_calls
    ∷ []

abbrev at_end : Server
at_end = record {
  world = record {
    sbuf = record { buf = 6 ∷ 5 ∷ []; n = 2; front = 1; rear = 2; mutex = 1; slots = 1; items = 1 };
    threads = idle ∷ idle ∷ [];
    stored = 5 ∷ 6 ∷ [];
    loaded = 5 ∷ [];
  };
  main = free;
  workers = free ∷ [];
  accepted = 5 ∷ 6 ∷ [];
  closed = 5 ∷ [];
}
