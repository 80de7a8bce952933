-- ===== src/Threaded/Sbuf/Runs.antt =====
-- All runs of any number of threads over one buffer.
use cs.Base.{
  ℕ, zero, suc, ◌+◌, ◌-◌, ◌≤◌, ◌<◌, ◌≡◌, refl, sym, subst, List, [], none, some, Option-cases, inl,
  inr, get_elem?, set, arith, replicate, length-replicate,
}
use cs.Threaded.Sbuf.{
  Sbuf, sbuf_init, Pc, idle, Call, advance_thread, World, with_stored, with_loaded, move,
}
use cs.Threaded.Sbuf.Modulo.{total, total-set, total-get}
use cs.Threaded.Sbuf.Moves.{Kept, advance_thread-Kept}
use cs.Threaded.Sbuf.Fifo.{slot_held, item_held, lock_held, IsCounted, IsQueue}

pub record IsWorld (n : ℕ) (w : World) : Type 0 where
  pub counted :
      IsCounted n
        (total slot_held w.threads)
        (total item_held w.threads)
        (total lock_held w.threads)
        w.sbuf
  pub queue : IsQueue w.stored w.loaded w.sbuf

-- `m` threads outside, and an empty buffer of `n` places.
abbrev pub begin : ℕ → ℕ → World
begin n m = record { sbuf = sbuf_init n; threads = replicate m idle; stored = []; loaded = [] }

-- What any sequence of moves of the threads reaches.
pub data Reaches (n m : ℕ) : World → Type 0 where
  start : Reaches n m (begin n m)
  then_move :
      {w w' : World} (c : Call) (i : ℕ) → Reaches n m w → move c i w ≡ some w' → Reaches n m w'

none_ne_some : {w : World} → none ≡ some w → ⊥
none_ne_some h = cc

total-idle : (f : Pc → ℕ) (m : ℕ) → f idle ≡ 0 → total f (replicate m idle) ≡ 0
total-idle f zero h = refl
total-idle f (suc m) h = omega (arith, h, total-idle f m h)

begin-IsWorld : (n m : ℕ) → IsWorld n (begin n m)
unfolding sbuf_init
begin-IsWorld n m = record {
  counted = record {
    places = refl;
    size = length-replicate n 0;
    slots_sum = omega (arith, total-idle slot_held m refl);
    items_sum = omega (arith, total-idle item_held m refl);
    lock_sum = omega (arith, total-idle lock_held m refl);
  };
  queue = record { stored_all = refl; loaded_first = refl; ring = λ j x h e. ground arith };
}

-- The sum of the others, and the thread's own part.
total-rest :
    (f : Pc → ℕ) (ts : List Pc) (i : ℕ) (pc : Pc)
    → get_elem? ts i ≡ some pc
    → (a : ℕ) × ((total f ts ≡ a + f pc) × ((pc' : Pc) → total f (set ts i pc') ≡ a + f pc'))
total-rest f ts i pc e =
    let g = total-get f ts i pc e in
    (total f ts - f pc, (omega (arith, g), λ pc'. omega (arith, g, total-set f ts i pc pc' e)))

-- The world once thread `i` has moved from `pc` to `pc'`.
abbrev pub moved : World → ℕ → Pc → Pc → Sbuf → World
moved w i pc pc' s = record {
  sbuf = s;
  threads = set w.threads i pc';
  stored = with_stored pc w.stored;
  loaded = with_loaded pc' w.loaded;
}

moved-IsWorld :
    (n : ℕ) (c : Call) (i : ℕ) (w : World) (pc pc' : Pc) (s : Sbuf)
    → 0 < n
    → IsWorld n w
    → get_elem? w.threads i ≡ some pc
    → advance_thread c pc w.sbuf ≡ some (pc', s)
    → IsWorld n (moved w i pc pc' s)
moved-IsWorld n c i w pc pc' s p v e q =
    let (a, (ea, sa)) = total-rest slot_held w.threads i pc e in
    let (b, (eb, sb)) = total-rest item_held w.threads i pc e in
    let (d, (ed, sd)) = total-rest lock_held w.threads i pc e in
    let k : IsCounted n (a + slot_held pc) (b + item_held pc) (d + lock_held pc) w.sbuf =
      rw (sym ea, sym eb, sym ed) v.counted in
    let (counted, queue) : Kept n a b d (with_stored pc w.stored) w.loaded (some (pc', s)) =
      subst (Kept n a b d (with_stored pc w.stored) w.loaded) q
        (advance_thread-Kept n a b d w.stored w.loaded c pc w.sbuf p k v.queue) in
    record { counted = rw (sa pc', sb pc', sd pc') counted; queue = queue }

move-IsWorld :
    (n : ℕ) (c : Call) (i : ℕ) (w w' : World)
    → 0 < n
    → IsWorld n w
    → move c i w ≡ some w'
    → IsWorld n w'
unfolding move
move-IsWorld n c i w w' p v e = elim (Option-cases (get_elem? w.threads i)) [
  | inl g ↦ let r = rw (g, move) at e in absurd (none_ne_some r)
  | inr (pc, g) ↦ elim (Option-cases (advance_thread c pc w.sbuf)) [
    | inl q ↦ let r = rw (g, q, move) at e in absurd (none_ne_some r)
    | inr ((pc', s), q) ↦
        let r : some (moved w i pc pc' s) ≡ some w' = rw (g, q, move) at e in
        let t : moved w i pc pc' s ≡ w' = cc in
        subst (IsWorld n) t (moved-IsWorld n c i w pc pc' s p v g q)
  ]
]

Reaches-IsWorld : (n m : ℕ) (w : World) → 0 < n → Reaches n m w → IsWorld n w
Reaches-IsWorld n m _ p start = begin-IsWorld n m
Reaches-IsWorld n m w' p (then_move {w = w} c i h e) =
    move-IsWorld n c i w w' p (Reaches-IsWorld n m w p h) e

-- At most one thread is between the two calls for the lock.
pub Reaches-exclusive :
    (n m : ℕ) (w : World) → 0 < n → Reaches n m w → total lock_held w.threads ≤ 1
Reaches-exclusive n m w p h =
    let k = (Reaches-IsWorld n m w p h).counted in omega (arith, k.lock_sum)
