-- ===== src/Threaded/Server/Steps.antt =====
-- What one move of a thread of the buffer does to its place and to what was stored and loaded.
use cs.Base.{ℕ, ◌≡◌, sym, some, >>=-eq-some, get_elem?}
use cs.Threaded.Sbuf.{
  Sbuf, Pc, idle, insert_slot, insert_locked, insert_stored, insert_unlocked, remove_item,
  remove_locked, remove_loaded, remove_unlocked, Call, insert, remove, sem_wait, load_item,
  advance_thread, World, move,
}
use cs.Threaded.Sbuf.Runs.{moved}

-- The places in `sbuf_insert(fd)`, and in `sbuf_remove`.
abbrev pub Inserts : ℕ → Pc → Type 0
Inserts fd idle = Unit
Inserts fd (insert_slot x) = x ≡ fd
Inserts fd (insert_locked x) = x ≡ fd
Inserts fd insert_stored = Unit
Inserts fd insert_unlocked = Unit
Inserts fd remove_item = ⊥
Inserts fd remove_locked = ⊥
Inserts fd (remove_loaded x) = ⊥
Inserts fd (remove_unlocked x) = ⊥

abbrev pub Removes : Pc → Type 0
Removes idle = Unit
Removes remove_item = Unit
Removes remove_locked = Unit
Removes (remove_loaded x) = Unit
Removes (remove_unlocked x) = Unit
Removes (insert_slot x) = ⊥
Removes (insert_locked x) = ⊥
Removes insert_stored = ⊥
Removes insert_unlocked = ⊥

abbrev pub next_insert : ℕ → Pc → Pc
next_insert fd idle = insert_slot fd
next_insert fd (insert_slot x) = insert_locked x
next_insert fd (insert_locked x) = insert_stored
next_insert fd insert_stored = insert_unlocked
next_insert fd pc = idle

-- The next place in `sbuf_remove`.
abbrev pub NextRemove : Pc → Pc → Type 0
NextRemove idle pc = pc ≡ remove_item
NextRemove remove_item pc = pc ≡ remove_locked
NextRemove remove_locked pc = (x : ℕ) × (pc ≡ remove_loaded x)
NextRemove (remove_loaded x) pc = pc ≡ remove_unlocked x
NextRemove (remove_unlocked x) pc = pc ≡ idle
NextRemove (insert_slot x) pc = ⊥
NextRemove (insert_locked x) pc = ⊥
NextRemove insert_stored pc = ⊥
NextRemove insert_unlocked pc = ⊥

pub advance_thread-Inserts :
    (fd : ℕ) (pc : Pc) (s : Sbuf) (pc' : Pc) (s' : Sbuf)
    → Inserts fd pc
    → advance_thread (insert fd) pc s ≡ some (pc', s')
    → pc' ≡ next_insert fd pc
unfolding advance_thread
advance_thread-Inserts fd idle s pc' s' h e =
    let (k, _, q) = >>=-eq-some (sem_wait s.slots) _ e in cc
advance_thread-Inserts fd (insert_slot x) s pc' s' h e =
    let (k, _, q) = >>=-eq-some (sem_wait s.mutex) _ e in cc
advance_thread-Inserts fd (insert_locked x) s pc' s' h e = cc
advance_thread-Inserts fd insert_stored s pc' s' h e = cc
advance_thread-Inserts fd insert_unlocked s pc' s' h e = cc
advance_thread-Inserts fd remove_item s pc' s' h e = absurd h
advance_thread-Inserts fd remove_locked s pc' s' h e = absurd h
advance_thread-Inserts fd (remove_loaded x) s pc' s' h e = absurd h
advance_thread-Inserts fd (remove_unlocked x) s pc' s' h e = absurd h

pub advance_thread-Removes :
    (pc : Pc) (s : Sbuf) (pc' : Pc) (s' : Sbuf)
    → Removes pc
    → advance_thread remove pc s ≡ some (pc', s')
    → NextRemove pc pc'
unfolding advance_thread
advance_thread-Removes idle s pc' s' h e = let (k, _, q) = >>=-eq-some (sem_wait s.items) _ e in cc
advance_thread-Removes remove_item s pc' s' h e =
    let (k, _, q) = >>=-eq-some (sem_wait s.mutex) _ e in cc
advance_thread-Removes remove_locked s pc' s' h e =
    let (k, _, q) = >>=-eq-some (load_item s) _ e in (k.0, cc)
advance_thread-Removes (remove_loaded x) s pc' s' h e = cc
advance_thread-Removes (remove_unlocked x) s pc' s' h e = cc
advance_thread-Removes (insert_slot x) s pc' s' h e = absurd h
advance_thread-Removes (insert_locked x) s pc' s' h e = absurd h
advance_thread-Removes insert_stored s pc' s' h e = absurd h
advance_thread-Removes insert_unlocked s pc' s' h e = absurd h

-- The parts of a move.
pub move-parts :
    (c : Call) (i : ℕ) (w w' : World)
    → move c i w ≡ some w'
    → (pc : Pc) × (pc' : Pc) × (s : Sbuf) × (get_elem? w.threads i ≡ some pc)
      × (advance_thread c pc w.sbuf ≡ some (pc', s))
      × (w' ≡ moved w i pc pc' s)
unfolding move
move-parts c i w w' e =
    let (pc, g, e1) = >>=-eq-some (get_elem? w.threads i) _ e in
    let (next, a, e2) = >>=-eq-some (advance_thread c pc w.sbuf) _ e1 in
    let same : moved w i pc next.0 next.1 ≡ w' = cc in (pc, next.0, next.1, g, a, sym same)
