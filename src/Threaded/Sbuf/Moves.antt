-- ===== src/Threaded/Sbuf/Moves.antt =====
-- A move of a thread keeps the counts and the queue.
use cs.Base.{
  ℕ, zero, suc, ◌+◌, ◌%◌, ◌<◌, ◌≡◌, inl, inr, sym, ◌∙◌, List, Option, none, some, Option-cases,
  arith, length-set,
}
use cs.Threaded.Sbuf.{
  Sbuf, Pc, idle, insert_slot, insert_locked, insert_stored, insert_unlocked, remove_item,
  remove_locked, remove_loaded, remove_unlocked, sem_wait, Call, insert, remove, store_item,
  advance_thread, with_stored, with_loaded,
}
use cs.Threaded.Sbuf.Fifo.{
  slot_held, item_held, lock_held, IsCounted, IsQueue, IsQueue-semaphores, store_item-ring,
  load_item-ring,
}

sem_wait-some : (k j : ℕ) → sem_wait k ≡ some j → k ≡ suc j
unfolding sem_wait
sem_wait-some zero j h = ground arith
sem_wait-some (suc k) j h = ground arith

-- What a move keeps, for the holdings `a`, `b` and `c` of the other threads.
abbrev pub Kept : ℕ → ℕ → ℕ → ℕ → List ℕ → List ℕ → Option (Pc × Sbuf) → Type 0
Kept n a b c st ld none = Unit
Kept n a b c st ld (some (pc, s)) =
    IsCounted n (a + slot_held pc) (b + item_held pc) (c + lock_held pc) s
    × IsQueue st (with_loaded pc ld) s

module _ (n a b c : ℕ) where
  store-IsCounted :
      (x : ℕ) (s : Sbuf)
      → IsCounted n
          (a + slot_held (insert_locked x))
          (b + item_held (insert_locked x))
          (c + lock_held (insert_locked x))
          s
      → IsCounted n
          (a + slot_held insert_stored)
          (b + item_held insert_stored)
          (c + lock_held insert_stored)
          (store_item x s)
  unfolding store_item
  store-IsCounted x s k = record {
    places = k.places;
    size = length-set s.buf ((s.rear + 1) % s.n) x ∙ k.size;
    slots_sum = omega (arith, k.slots_sum);
    items_sum = omega (arith, k.items_sum);
    lock_sum = k.lock_sum;
  }

module _ (n a b c : ℕ) (st ld : List ℕ) where
  pub advance_thread-Kept :
      (cl : Call) (pc : Pc) (s : Sbuf)
      → 0 < n
      → IsCounted n (a + slot_held pc) (b + item_held pc) (c + lock_held pc) s
      → IsQueue st ld s
      → Kept n a b c (with_stored pc st) ld (advance_thread cl pc s)
  unfolding advance_thread
  advance_thread-Kept (insert x) idle s p k v = elim (Option-cases (sem_wait s.slots)) [
    | inl e ↦ rw (e, advance_thread) tt
    | inr (j, e) ↦
        let q = sem_wait-some s.slots j e in
        rw (e, advance_thread)
          (
            record {
              places = k.places;
              size = k.size;
              slots_sum = omega (arith, q, k.slots_sum);
              items_sum = k.items_sum;
              lock_sum = k.lock_sum;
            },
            IsQueue-semaphores v,
          )
  ]
  advance_thread-Kept remove idle s p k v = elim (Option-cases (sem_wait s.items)) [
    | inl e ↦ rw (e, advance_thread) tt
    | inr (j, e) ↦
        let q = sem_wait-some s.items j e in
        rw (e, advance_thread)
          (
            record {
              places = k.places;
              size = k.size;
              slots_sum = k.slots_sum;
              items_sum = omega (arith, q, k.items_sum);
              lock_sum = k.lock_sum;
            },
            IsQueue-semaphores v,
          )
  ]
  advance_thread-Kept cl (insert_slot x) s p k v = elim (Option-cases (sem_wait s.mutex)) [
    | inl e ↦ rw (e, advance_thread) tt
    | inr (j, e) ↦
        let q = sem_wait-some s.mutex j e in
        rw (e, advance_thread)
          (
            record {
              places = k.places;
              size = k.size;
              slots_sum = k.slots_sum;
              items_sum = k.items_sum;
              lock_sum = omega (arith, q, k.lock_sum);
            },
            IsQueue-semaphores v,
          )
  ]
  advance_thread-Kept cl remove_item s p k v = elim (Option-cases (sem_wait s.mutex)) [
    | inl e ↦ rw (e, advance_thread) tt
    | inr (j, e) ↦
        let q = sem_wait-some s.mutex j e in
        rw (e, advance_thread)
          (
            record {
              places = k.places;
              size = k.size;
              slots_sum = k.slots_sum;
              items_sum = k.items_sum;
              lock_sum = omega (arith, q, k.lock_sum);
            },
            IsQueue-semaphores v,
          )
  ]
  advance_thread-Kept cl (insert_locked x) s p k v = (
    store-IsCounted n a b c x s k,
    store_item-ring s st x ld v (omega (arith, k.items_sum)) (omega (arith, k.slots_sum, k.places))
        (k.size ∙ sym k.places),
  )
  advance_thread-Kept cl insert_stored s p k v = (
    record {
      places = k.places;
      size = k.size;
      slots_sum = k.slots_sum;
      items_sum = k.items_sum;
      lock_sum = omega (arith, k.lock_sum);
    },
    IsQueue-semaphores v,
  )
  advance_thread-Kept cl insert_unlocked s p k v = (
    record {
      places = k.places;
      size = k.size;
      slots_sum = k.slots_sum;
      items_sum = omega (arith, k.items_sum);
      lock_sum = k.lock_sum;
    },
    IsQueue-semaphores v,
  )
  advance_thread-Kept cl remove_locked s p k v =
      let (x, (e, w)) = load_item-ring s st ld v (omega (arith, k.items_sum)) in
      rw (e, advance_thread)
        (
          record {
            places = k.places;
            size = k.size;
            slots_sum = omega (arith, k.slots_sum);
            items_sum = omega (arith, k.items_sum);
            lock_sum = k.lock_sum;
          },
          w,
        )
  advance_thread-Kept cl (remove_loaded x) s p k v = (
    record {
      places = k.places;
      size = k.size;
      slots_sum = k.slots_sum;
      items_sum = k.items_sum;
      lock_sum = omega (arith, k.lock_sum);
    },
    IsQueue-semaphores v,
  )
  advance_thread-Kept cl (remove_unlocked x) s p k v = (
    record {
      places = k.places;
      size = k.size;
      slots_sum = omega (arith, k.slots_sum);
      items_sum = k.items_sum;
      lock_sum = k.lock_sum;
    },
    IsQueue-semaphores v,
  )
