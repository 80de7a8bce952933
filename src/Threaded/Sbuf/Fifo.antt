-- ===== src/Threaded/Sbuf/Fifo.antt =====
-- The buffer is a queue: whatever the threads do, the items loaded are those stored, in order.
use cs.Base.{
  ℕ, suc, ◌+◌, ◌%◌, ◌≤◌, ◌<◌, ◌≡◌, inl, inr, refl, sym, ap, ◌∙◌, List, [], ◌∷◌, ◌++◌, some, length,
  get_elem?, take, arith, length-append, get_elem?-set_self, get_elem?-set_ne, get_elem?-lt,
}
use native.Mathlib.Nat.{mod-lt}
use cs.Threaded.Sbuf.{
  Sbuf, Pc, idle, insert_slot, insert_locked, insert_stored, insert_unlocked, remove_item,
  remove_locked, remove_loaded, remove_unlocked, store_item, load_item,
}
use cs.Threaded.Sbuf.Modulo.{mod_ne, get_elem?-snoc, take-snoc, get_elem?-exists, take-append_le}

-- What a thread holds of each semaphore.
abbrev pub slot_held : Pc → ℕ
slot_held (insert_slot x) = 1
slot_held (insert_locked x) = 1
slot_held (remove_loaded x) = 1
slot_held (remove_unlocked x) = 1
slot_held idle = 0
slot_held insert_stored = 0
slot_held insert_unlocked = 0
slot_held remove_item = 0
slot_held remove_locked = 0

abbrev pub item_held : Pc → ℕ
item_held insert_stored = 1
item_held insert_unlocked = 1
item_held remove_item = 1
item_held remove_locked = 1
item_held idle = 0
item_held (insert_slot x) = 0
item_held (insert_locked x) = 0
item_held (remove_loaded x) = 0
item_held (remove_unlocked x) = 0

abbrev pub lock_held : Pc → ℕ
lock_held (insert_locked x) = 1
lock_held insert_stored = 1
lock_held remove_locked = 1
lock_held (remove_loaded x) = 1
lock_held idle = 0
lock_held (insert_slot x) = 0
lock_held insert_unlocked = 0
lock_held remove_item = 0
lock_held (remove_unlocked x) = 0

-- The counts of a buffer with `a`, `b` and `c` of the semaphores held.
pub record IsCounted (n a b c : ℕ) (s : Sbuf) : Type 0 where
  pub places : s.n ≡ n
  pub size : length s.buf ≡ n
  pub slots_sum : s.slots + a + s.rear ≡ n + s.front
  pub items_sum : s.items + b + s.front ≡ s.rear
  pub lock_sum : s.mutex + c ≡ 1

-- The items stored and not yet loaded are in the ring.
pub record IsQueue (stored loaded : List ℕ) (s : Sbuf) : Type 0 where
  pub stored_all : length stored ≡ s.rear
  pub loaded_first : loaded ≡ take s.front stored
  pub ring :
      (j x : ℕ)
      → s.front ≤ j
      → get_elem? stored j ≡ some x
      → get_elem? s.buf ((j + 1) % s.n) ≡ some x

-- The semaphores are no part of the queue.
pub IsQueue-semaphores :
    {st ld : List ℕ} {s : Sbuf} {mutex slots items : ℕ}
    → IsQueue st ld s
    → IsQueue st ld (record s { mutex = mutex; slots = slots; items = items })
IsQueue-semaphores v = record {
  stored_all = v.stored_all;
  loaded_first = v.loaded_first;
  ring = v.ring;
}

pub store_item-ring :
    (s : Sbuf) (l : List ℕ) (x : ℕ) (loaded : List ℕ)
    → IsQueue l loaded s
    → s.front ≤ s.rear
    → s.rear < s.front + s.n
    → length s.buf ≡ s.n
    → IsQueue (l ++ x ∷ []) loaded (store_item x s)
unfolding store_item
store_item-ring s l x loaded v f r z = record {
  stored_all = omega (arith, length-append l (x ∷ []), v.stored_all);
  loaded_first =
      v.loaded_first ∙ sym (take-append_le s.front l (x ∷ []) (omega (arith, v.stored_all)));
  ring = λ j y h e. elim (get_elem?-snoc l x y j e) [
    | inl g ↦
        let lt = get_elem?-lt l j y g in
        get_elem?-set_ne s.buf x (λ q.
          mod_ne s.n (j + 1) (s.rear + 1) (omega (arith, lt, v.stored_all)) (omega arith) (sym q))
        ∙ v.ring j y h g
    | inr (g, q) ↦
        let k : j + 1 ≡ s.rear + 1 = omega (arith, g, v.stored_all) in
        rw (k, sym q)
          (get_elem?-set_self s.buf ((s.rear + 1) % s.n) x
            (omega (arith, mod-lt (s.rear + 1) {m = s.n} (omega arith), z)))
  ];
}

pub load_item-ring :
    (s : Sbuf) (l loaded : List ℕ)
    → IsQueue l loaded s
    → s.front < s.rear
    → (x : ℕ) × ((load_item s ≡ some (x, record s { front = s.front + 1 }))
        × IsQueue l (loaded ++ x ∷ []) (record s { front = s.front + 1 }))
unfolding load_item
load_item-ring s l loaded v h =
    let (x, e) = get_elem?-exists l s.front (omega (arith, v.stored_all)) in
    let r = v.ring s.front x (omega arith) e in
    let t : suc s.front ≡ s.front + 1 = omega arith in
    (
      x,
      (
        rw (r, load_item) refl,
        record {
          stored_all = v.stored_all;
          loaded_first =
              ap (λ (k : List ℕ). k ++ x ∷ []) v.loaded_first
              ∙ (take-snoc l s.front x e ∙ ap (λ (k : ℕ). take k l) t);
          ring = λ j y g q. v.ring j y (omega arith) q;
        },
      ),
    )
