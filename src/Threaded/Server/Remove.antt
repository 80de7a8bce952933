-- ===== src/Threaded/Server/Remove.antt =====
-- The steps of a worker in `sbuf_remove`.
use cs.Base.{
  ℕ, suc, ◌+◌, ◌≡◌, refl, sym, ap, ◌∙◌, subst, List, [], ◌++◌, some, >>=-eq-some, get_elem?, set,
  arith, ◌==◌, ==_iff, get_elem?-set_self, get_elem?-set_ne, get_elem?-lt, Bool-cases, inl, inr,
}
use cs.Threaded.Sbuf.{
  Sbuf, Pc, idle, insert_slot, insert_locked, insert_stored, insert_unlocked, remove_item,
  remove_locked, remove_loaded, remove_unlocked, remove, move, with_stored, with_loaded,
}
use cs.Threaded.Sbuf.Modulo.{total-set}
use cs.Threaded.Sbuf.Runs.{moved, Reaches, then_move}
use cs.Threaded.Server.{Job, free, busy, Server, after_remove, worker_step}
use cs.Threaded.Server.Steps.{Removes, NextRemove, advance_thread-Removes, move-parts}
use cs.Threaded.Server.Held.{count, taken, served, pending, Conserves, count-snoc}

-- A move of a worker within `sbuf_remove`.
remove-kept :
    (x : ℕ) (pc pc' : Pc) (l : List ℕ)
    → Removes pc
    → NextRemove pc pc'
    → Removes pc'
      × (count x (with_loaded pc' l) + taken x pc
          ≡ count x l + (taken x pc' + served x (after_remove pc)))
remove-kept x idle pc' l h e = rw e (tt, omega arith)
remove-kept x remove_item pc' l h e = rw e (tt, omega arith)
remove-kept x remove_locked pc' l h (y, e) = rw e (tt, omega (arith, count-snoc x l y))
remove-kept x (remove_loaded y) pc' l h e = rw e (tt, omega arith)
remove-kept x (remove_unlocked y) pc' l h e = rw e (tt, omega arith)
remove-kept x (insert_slot y) pc' l h e = absurd h
remove-kept x (insert_locked y) pc' l h e = absurd h
remove-kept x insert_stored pc' l h e = absurd h
remove-kept x insert_unlocked pc' l h e = absurd h

remove-stored : (pc : Pc) (l : List ℕ) → Removes pc → with_stored pc l ≡ l
remove-stored idle l h = refl
remove-stored remove_item l h = refl
remove-stored remove_locked l h = refl
remove-stored (remove_loaded x) l h = refl
remove-stored (remove_unlocked x) l h = refl
remove-stored (insert_slot x) l h = absurd h
remove-stored (insert_locked x) l h = absurd h
remove-stored insert_stored l h = absurd h
remove-stored insert_unlocked l h = absurd h

worker_moved-Conserves :
    (n m i : ℕ) (s : Server) (pc pc' : Pc) (sb : Sbuf)
    → Conserves n m s
    → get_elem? s.world.threads (suc i) ≡ some pc
    → get_elem? s.workers i ≡ some free
    → NextRemove pc pc'
    → Reaches n (suc m) (moved s.world (suc i) pc pc' sb)
    → Conserves n m (record s {
      world = moved s.world (suc i) pc pc' sb;
      workers = set s.workers i (after_remove pc);
    })
worker_moved-Conserves n m i s pc pc' sb v g f h r =
    let ts = s.world.threads in
    let rm = v.removes i pc g in
    record {
      reach = r;
      pc = v.pc;
      place = get_elem?-set_ne ts pc' (λ z. omega arith) ∙ v.place;
      main_at = v.main_at;
      all_in =
          v.all_in ∙ ap (λ l. l ++ pending s.main v.pc) (sym (remove-stored pc s.world.stored rm));
      removes = λ j p e. elim (Bool-cases (i == j)) [
        | inl q ↦
            let here =
              subst (λ k. get_elem? (set ts (suc i) pc') (suc k) ≡ some p) (sym ((==_iff i j).0 q))
                e in
            let self = get_elem?-set_self ts (suc i) pc' (get_elem?-lt ts (suc i) pc g) in
            let same : pc' ≡ p = cc in subst (λ p. Removes p) same (remove-kept 0 pc pc' [] rm h).0
        | inr q ↦ v.removes j p (sym (get_elem?-set_ne ts pc' (λ z. ground arith)) ∙ e)
      ];
      counts = λ x. omega (
        arith,
        v.counts x,
        (remove-kept x pc pc' s.world.loaded rm h).1,
        total-set (taken x) ts (suc i) pc pc' g,
        total-set (served x) s.workers i free (after_remove pc) f,
      );
    }

pub worker_step-Conserves :
    (n m i : ℕ) (job : Job) (s t : Server)
    → Conserves n m s
    → get_elem? s.workers i ≡ some job
    → worker_step i job s ≡ some t
    → Conserves n m t
unfolding worker_step
worker_step-Conserves n m i (busy fd) s t v f e = cc
worker_step-Conserves n m i free s t v f e =
    let (pc0, g0, e1) = >>=-eq-some (get_elem? s.world.threads (suc i)) _ e in
    let (w, mv, e2) = >>=-eq-some (move remove (suc i) s.world) _ e1 in
    let (pc, pc', sb, g, a, ww) = move-parts remove (suc i) s.world w mv in
    let here0 : pc0 ≡ pc = cc in
    let next = advance_thread-Removes pc s.world.sbuf pc' sb (v.removes i pc g) a in
    let r = subst (λ w. Reaches n (suc m) w) ww (then_move remove (suc i) v.reach mv) in
    let same : record s { world = w; workers = set s.workers i (after_remove pc0) } ≡ t = cc in
    let old : record s { world = w; workers = set s.workers i (after_remove pc0) } ≡ record s {
      world = moved s.world (suc i) pc pc' sb;
      workers = set s.workers i (after_remove pc);
    } =
      λ k. record s { world = ww k; workers = set s.workers i (after_remove (here0 k)) } in
    subst (λ t. Conserves n m t) (sym old ∙ same)
      (worker_moved-Conserves n m i s pc pc' sb v g f next r)
