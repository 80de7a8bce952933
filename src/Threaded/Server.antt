-- ===== src/Threaded/Server.antt =====
-- `main` and `thread` of the proxy with threads: the main thread accepts clients and inserts their
-- descriptors in the bounded buffer; each worker removes one, serves it and closes it, and again.
pub mod Steps
pub mod Held
pub mod Insert
pub mod Remove
pub mod Served
mod Tests
use cs.Base.{
  ℕ, zero, suc, List, [], ◌∷◌, ◌++◌, Option, none, some, ◌>>=◌, replicate, get_elem?, set,
}
use cs.Threaded.{Result, ok, waiting, exits, unsafe, Calls, act_as_server_and_client}
use cs.Threaded.Sbuf.{Pc, insert_unlocked, remove_unlocked, insert, remove, World, move}
use cs.Threaded.Sbuf.Runs.{begin}

abbrev pub nthreads : ℕ
nthreads = 100

abbrev pub sbufsize : ℕ
sbufsize = 20

-- What a thread has to do: the main thread to insert a descriptor, a worker to serve one. A free one
-- waits in `accept` or is in `sbuf_remove`.
pub data Job : Type 0 where
  free : Job
  busy : ℕ → Job

-- Thread 0 of the buffer's users is the main thread, thread `i + 1` is worker `i`.
pub record Server : Type 0 where
  pub world : World
  pub main : Job
  pub workers : List Job
  pub accepted : List ℕ
  pub closed : List ℕ

-- Who goes on, and what the system reports to it.
pub data Turn : Type 0 where
  accepts : ℕ → Turn
  main_moves : Turn
  worker_moves : ℕ → Turn
  serves : ℕ → Calls → Turn

-- After the threads have been created; a buffer of `n` places and `m` workers.
abbrev pub boot : ℕ → ℕ → Server
boot n m = record {
  world = begin n (suc m);
  main = free;
  workers = replicate m free;
  accepted = [];
  closed = [];
}

-- `sbuf_insert` returns at its last move.
abbrev pub after_insert : Pc → Job → Job
after_insert insert_unlocked j = free
after_insert _ j = j

-- `sbuf_remove` returns a descriptor at its last move.
abbrev pub after_remove : Pc → Job
after_remove (remove_unlocked fd) = busy fd
after_remove _ = free

unfoldable pub accept_step : ℕ → Job → Server → Option Server
accept_step fd (busy g) s = none
accept_step fd free s = some (record s { main = busy fd; accepted = s.accepted ++ fd ∷ [] })

unfoldable pub main_step : Job → Server → Option Server
main_step free s = none
main_step (busy fd) s = do
  pc ← get_elem? s.world.threads 0
  w ← move (insert fd) 0 s.world
  some (record s { world = w; main = after_insert pc (busy fd) })

unfoldable pub worker_step : ℕ → Job → Server → Option Server
worker_step i (busy fd) s = none
worker_step i free s = do
  pc ← get_elem? s.world.threads (suc i)
  w ← move remove (suc i) s.world
  some (record s { world = w; workers = set s.workers i (after_remove pc) })

-- Where the service of a client does not end, the worker stays in it.
abbrev pub close_after : Result (ℕ × (List ℕ × List ℕ)) → ℕ → ℕ → Server → Option Server
close_after (ok r) i fd s =
    some (record s { workers = set s.workers i free; closed = s.closed ++ fd ∷ [] })
close_after waiting i fd s = none
close_after exits i fd s = none
close_after unsafe i fd s = none

unfoldable pub serve_step : Calls → ℕ → Job → Server → Option Server
serve_step r i free s = none
serve_step r i (busy fd) s = close_after (act_as_server_and_client r) i fd s

unfoldable pub turn : Turn → Server → Option Server
turn (accepts fd) s = accept_step fd s.main s
turn main_moves s = main_step s.main s
turn (worker_moves i) s = do job ← get_elem? s.workers i; worker_step i job s
turn (serves i r) s = do job ← get_elem? s.workers i; serve_step r i job s

-- Any interleaving of the threads; `none` where one is named that cannot go on.
unfoldable pub run : List Turn → Server → Option Server
run [] s = some s
run (t ∷ ts) s = do next ← turn t s; run ts next
