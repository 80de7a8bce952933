-- ===== src/Threaded/Server/Insert.antt =====
-- The steps of the main thread.
use cs.Base.{
  ℕ, suc, ◌≡◌, refl, sym, ap, ◌∙◌, subst, List, [], ◌∷◌, ◌++◌, some, >>=-eq-some, get_elem?, arith,
  append-nil, get_elem?-set_self, get_elem?-set_ne, get_elem?-lt,
}
use cs.Threaded.Sbuf.{
  Sbuf, Pc, idle, insert_slot, insert_locked, insert_stored, insert_unlocked, remove_item,
  remove_locked, remove_loaded, remove_unlocked, insert, move, with_stored, with_loaded,
}
use cs.Threaded.Sbuf.Modulo.{total-set}
use cs.Threaded.Sbuf.Runs.{moved, Reaches, then_move}
use cs.Threaded.Server.{Job, free, busy, Server, after_insert, accept_step, main_step}
use cs.Threaded.Server.Steps.{Inserts, next_insert, advance_thread-Inserts, move-parts}
use cs.Threaded.Server.Held.{count, taken, pending, MainAt, Conserves}

-- A move of the main thread within `sbuf_insert(fd)`.
module _ (fd : ℕ) where
  insert-pending :
      (pc : Pc) (l : List ℕ)
      → Inserts fd pc
      → l ++ pending (busy fd) pc
        ≡ with_stored pc l ++ pending (after_insert pc (busy fd)) (next_insert fd pc)
  insert-pending idle l h = refl
  insert-pending (insert_slot x) l h = refl
  insert-pending (insert_locked x) l h = rw h (sym (append-nil (l ++ fd ∷ [])))
  insert-pending insert_stored l h = refl
  insert-pending insert_unlocked l h = refl
  insert-pending remove_item l h = absurd h
  insert-pending remove_locked l h = absurd h
  insert-pending (remove_loaded x) l h = absurd h
  insert-pending (remove_unlocked x) l h = absurd h

  insert-MainAt : (pc : Pc) → Inserts fd pc → MainAt (after_insert pc (busy fd)) (next_insert fd pc)
  insert-MainAt idle h = refl
  insert-MainAt (insert_slot x) h = h
  insert-MainAt (insert_locked x) h = tt
  insert-MainAt insert_stored h = tt
  insert-MainAt insert_unlocked h = refl
  insert-MainAt remove_item h = absurd h
  insert-MainAt remove_locked h = absurd h
  insert-MainAt (remove_loaded x) h = absurd h
  insert-MainAt (remove_unlocked x) h = absurd h

  insert-taken :
      (x : ℕ) (pc : Pc) → Inserts fd pc → (taken x pc ≡ 0) × (taken x (next_insert fd pc) ≡ 0)
  insert-taken x idle h = (refl, refl)
  insert-taken x (insert_slot y) h = (refl, refl)
  insert-taken x (insert_locked y) h = (refl, refl)
  insert-taken x insert_stored h = (refl, refl)
  insert-taken x insert_unlocked h = (refl, refl)
  insert-taken x remove_item h = absurd h
  insert-taken x remove_locked h = absurd h
  insert-taken x (remove_loaded y) h = absurd h
  insert-taken x (remove_unlocked y) h = absurd h

  insert-loaded : (pc : Pc) (l : List ℕ) → Inserts fd pc → with_loaded (next_insert fd pc) l ≡ l
  insert-loaded idle l h = refl
  insert-loaded (insert_slot y) l h = refl
  insert-loaded (insert_locked y) l h = refl
  insert-loaded insert_stored l h = refl
  insert-loaded insert_unlocked l h = refl
  insert-loaded remove_item l h = refl
  insert-loaded remove_locked l h = refl
  insert-loaded (remove_loaded y) l h = refl
  insert-loaded (remove_unlocked y) l h = refl

pub accept_step-Conserves :
    (n m fd : ℕ) (j : Job) (s t : Server)
    → Conserves n m s
    → s.main ≡ j
    → accept_step fd j s ≡ some t
    → Conserves n m t
unfolding accept_step
accept_step-Conserves n m fd (busy g) s t v q e = cc
accept_step-Conserves n m fd free s t v q e =
    let here : v.pc ≡ idle = subst (λ j. MainAt j v.pc) q v.main_at in
    let all : s.accepted ≡ s.world.stored ++ [] =
      v.all_in ∙ ap (λ j. s.world.stored ++ pending j v.pc) q in
    let same : record s { main = busy fd; accepted = s.accepted ++ fd ∷ [] } ≡ t = cc in
    subst (λ t. Conserves n m t) same
      (record {
        reach = v.reach;
        pc = idle;
        place = v.place ∙ ap some here;
        main_at = tt;
        all_in = ap (λ l. l ++ fd ∷ []) (all ∙ append-nil s.world.stored);
        removes = v.removes;
        counts = v.counts;
      })

main_moved-Conserves :
    (n m fd : ℕ) (s : Server) (pc : Pc) (sb : Sbuf)
    → Conserves n m s
    → get_elem? s.world.threads 0 ≡ some pc
    → Inserts fd pc
    → s.accepted ≡ s.world.stored ++ pending (busy fd) pc
    → Reaches n (suc m) (moved s.world 0 pc (next_insert fd pc) sb)
    → Conserves n m (record s {
      world = moved s.world 0 pc (next_insert fd pc) sb;
      main = after_insert pc (busy fd);
    })
main_moved-Conserves n m fd s pc sb v g h all r =
    let ts = s.world.threads in
    let pc' = next_insert fd pc in
    record {
      reach = r;
      pc = pc';
      place = get_elem?-set_self ts 0 pc' (get_elem?-lt ts 0 pc g);
      main_at = insert-MainAt fd pc h;
      all_in = all ∙ insert-pending fd pc s.world.stored h;
      removes = λ i p e. v.removes i p (sym (get_elem?-set_ne ts pc' (λ z. omega arith)) ∙ e);
      counts = λ x.
          let k = insert-taken fd x pc h in
          ap (λ l. count x l) (insert-loaded fd pc s.world.loaded h)
          ∙ (v.counts x ∙ omega (arith, total-set (taken x) ts 0 pc pc' g, k.0, k.1));
    }

pub main_step-Conserves :
    (n m : ℕ) (j : Job) (s t : Server)
    → Conserves n m s
    → s.main ≡ j
    → main_step j s ≡ some t
    → Conserves n m t
unfolding main_step
main_step-Conserves n m free s t v q e = cc
main_step-Conserves n m (busy fd) s t v q e =
    let (pc0, g0, e1) = >>=-eq-some (get_elem? s.world.threads 0) _ e in
    let (w, mv, e2) = >>=-eq-some (move (insert fd) 0 s.world) _ e1 in
    let (pc, pc', sb, g, a, ww) = move-parts (insert fd) 0 s.world w mv in
    let at : Inserts fd v.pc = subst (λ j. MainAt j v.pc) q v.main_at in
    let here : v.pc ≡ pc = cc in
    let here0 : pc0 ≡ pc = cc in
    let in_ : Inserts fd pc = subst (λ p. Inserts fd p) here at in
    let next = advance_thread-Inserts fd pc s.world.sbuf pc' sb in_ a in
    let all : s.accepted ≡ s.world.stored ++ pending (busy fd) pc =
      v.all_in ∙ (λ i. s.world.stored ++ pending (q i) (here i)) in
    let world = ww ∙ ap (λ p. moved s.world 0 pc p sb) next in
    let r = subst (λ w. Reaches n (suc m) w) world (then_move (insert fd) 0 v.reach mv) in
    let same : record s { world = w; main = after_insert pc0 (busy fd) } ≡ t = cc in
    let old : record s { world = w; main = after_insert pc0 (busy fd) } ≡ record s {
      world = moved s.world 0 pc (next_insert fd pc) sb;
      main = after_insert pc (busy fd);
    } =
      λ i. record s { world = world i; main = after_insert (here0 i) (busy fd) } in
    subst (λ t. Conserves n m t) (sym old ∙ same)
      (main_moved-Conserves n m fd s pc sb v g in_ all r)
