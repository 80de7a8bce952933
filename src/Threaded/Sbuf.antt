-- ===== src/Threaded/Sbuf.antt =====
-- The bounded buffer of sbuf.c (hw6-concurrency and proxy-lab1 have the same file), for threads that
-- call it at any times: a semaphore is a number, and a move is what one thread does up to its next
-- call of a semaphore.
pub mod Fifo
pub mod Modulo
pub mod Moves
pub mod Runs
use cs.Base.{
  ℕ, zero, suc, ◌+◌, ◌%◌, List, [], ◌∷◌, ◌++◌, Option, none, some, ◌>>=◌, replicate, get_elem?, set,
}

pub record Sbuf : Type 0 where
  pub buf : List ℕ
  pub n : ℕ
  pub front : ℕ
  pub rear : ℕ
  pub mutex : ℕ
  pub slots : ℕ
  pub items : ℕ

unfoldable pub sbuf_init : ℕ → Sbuf
sbuf_init n = record {
  buf = replicate n 0;
  n = n;
  front = 0;
  rear = 0;
  mutex = 1;
  slots = n;
  items = 0;
}

-- Where a thread stands: outside, or behind the named call of `sbuf_insert(item)` or `sbuf_remove`.
pub data Pc : Type 0 where
  idle : Pc
  insert_slot insert_locked : ℕ → Pc
  insert_stored insert_unlocked remove_item remove_locked : Pc
  remove_loaded remove_unlocked : ℕ → Pc

-- `sem_wait`, which blocks at zero.
unfoldable pub sem_wait : ℕ → Option ℕ
sem_wait zero = none
sem_wait (suc k) = some k

-- What a thread calls when it is outside.
pub data Call : Type 0 where
  insert : ℕ → Call
  remove : Call

-- `sp->buf[(++sp->rear) % sp->n] = item`
unfoldable pub store_item : ℕ → Sbuf → Sbuf
store_item item s = record s { buf = set s.buf ((s.rear + 1) % s.n) item; rear = s.rear + 1 }

-- `item = sp->buf[(++sp->front) % sp->n]`
unfoldable pub load_item : Sbuf → Option (ℕ × Sbuf)
load_item s = do
  item ← get_elem? s.buf ((s.front + 1) % s.n)
  some (item, record s { front = s.front + 1 })

-- The next move of a thread, or none where it waits.
unfoldable pub advance_thread : Call → Pc → Sbuf → Option (Pc × Sbuf)
advance_thread (insert item) idle s = do
  slots ← sem_wait s.slots
  some (insert_slot item, record s { slots = slots })
advance_thread remove idle s = do
  items ← sem_wait s.items
  some (remove_item, record s { items = items })
advance_thread c (insert_slot item) s = do
  mutex ← sem_wait s.mutex
  some (insert_locked item, record s { mutex = mutex })
advance_thread c (insert_locked item) s = some (insert_stored, store_item item s)
advance_thread c insert_stored s = some (insert_unlocked, record s { mutex = s.mutex + 1 })
advance_thread c insert_unlocked s = some (idle, record s { items = s.items + 1 })
advance_thread c remove_item s = do
  mutex ← sem_wait s.mutex
  some (remove_locked, record s { mutex = mutex })
advance_thread c remove_locked s = do got ← load_item s; some (remove_loaded got.0, got.1)
advance_thread c (remove_loaded item) s =
    some (remove_unlocked item, record s { mutex = s.mutex + 1 })
advance_thread c (remove_unlocked item) s = some (idle, record s { slots = s.slots + 1 })

-- All the threads, with what was stored and what was loaded so far, in order.
pub record World : Type 0 where
  pub sbuf : Sbuf
  pub threads : List Pc
  pub stored : List ℕ
  pub loaded : List ℕ

abbrev pub with_stored : Pc → List ℕ → List ℕ
with_stored (insert_locked item) l = l ++ item ∷ []
with_stored _ l = l

abbrev pub with_loaded : Pc → List ℕ → List ℕ
with_loaded (remove_loaded item) l = l ++ item ∷ []
with_loaded _ l = l

-- A move of thread `i`.
unfoldable pub move : Call → ℕ → World → Option World
move c i w = do
  pc ← get_elem? w.threads i
  next ← advance_thread c pc w.sbuf
  some (record {
    sbuf = next.1;
    threads = set w.threads i next.0;
    stored = with_stored pc w.stored;
    loaded = with_loaded next.0 w.loaded;
  })
