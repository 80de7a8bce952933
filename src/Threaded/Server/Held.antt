-- ===== src/Threaded/Server/Held.antt =====
-- Where a descriptor is between `accept` and `close`.
use cs.Base.{
  ℕ, zero, suc, ◌+◌, ◌≡◌, refl, subst, List, [], ◌∷◌, ◌++◌, some, get_elem?, replicate, arith, ◌==◌,
  if◌then◌else◌,
}
use cs.Threaded.Sbuf.{
  Pc, idle, insert_slot, insert_locked, insert_stored, insert_unlocked, remove_item, remove_locked,
  remove_loaded, remove_unlocked,
}
use cs.Threaded.Sbuf.Modulo.{total}
use cs.Threaded.Sbuf.Runs.{Reaches, start}
use cs.Threaded.Server.{Job, free, busy, Server, boot}
use cs.Threaded.Server.Steps.{Inserts, Removes}

-- One for the descriptor `x`, and how often it stands in a list.
abbrev pub is : ℕ → ℕ → ℕ
is x y = if x == y then 1 else 0

abbrev pub count : ℕ → List ℕ → ℕ
count x l = total (is x) l

-- A worker that has taken `x` from the buffer, or serves it.
abbrev pub taken : ℕ → Pc → ℕ
taken x (remove_loaded y) = is x y
taken x (remove_unlocked y) = is x y
taken x idle = 0
taken x (insert_slot y) = 0
taken x (insert_locked y) = 0
taken x insert_stored = 0
taken x insert_unlocked = 0
taken x remove_item = 0
taken x remove_locked = 0

abbrev pub served : ℕ → Job → ℕ
served x free = 0
served x (busy y) = is x y

-- What the main thread has accepted and not stored.
abbrev pub pending : Job → Pc → List ℕ
pending (busy fd) idle = fd ∷ []
pending (busy fd) (insert_slot x) = fd ∷ []
pending (busy fd) (insert_locked x) = fd ∷ []
pending (busy fd) pc = []
pending free pc = []

abbrev pub MainAt : Job → Pc → Type 0
MainAt free pc = pc ≡ idle
MainAt (busy fd) pc = Inserts fd pc

pub record Conserves (n m : ℕ) (s : Server) : Type 0 where
  pub reach : Reaches n (suc m) s.world
  pub pc : Pc
  pub place : get_elem? s.world.threads 0 ≡ some pc
  pub main_at : MainAt s.main pc
  pub all_in : s.accepted ≡ s.world.stored ++ pending s.main pc
  pub removes : (i : ℕ) (pc : Pc) → get_elem? s.world.threads (suc i) ≡ some pc → Removes pc
  pub counts :
      (x : ℕ)
      → count x s.world.loaded
        ≡ count x s.closed + (total (taken x) s.world.threads + total (served x) s.workers)

pub count-snoc : (x : ℕ) (l : List ℕ) (y : ℕ) → count x (l ++ y ∷ []) ≡ count x l + is x y
count-snoc x [] y = omega arith
count-snoc x (z ∷ l) y = omega (arith, count-snoc x l y)

total-replicate : {A : Type 0} (f : A → ℕ) (a : A) (m : ℕ) → f a ≡ 0 → total f (replicate m a) ≡ 0
total-replicate f a zero h = refl
total-replicate f a (suc m) h = omega (arith, h, total-replicate f a m h)

replicate-Removes : (m i : ℕ) (pc : Pc) → get_elem? (replicate m idle) i ≡ some pc → Removes pc
replicate-Removes zero i pc h = ground arith
replicate-Removes (suc m) zero pc h = let e : idle ≡ pc = cc in subst (λ p. Removes p) e tt
replicate-Removes (suc m) (suc i) pc h = replicate-Removes m i pc h

pub boot-Conserves : (n m : ℕ) → Conserves n m (boot n m)
boot-Conserves n m = record {
  reach = start;
  pc = idle;
  place = refl;
  main_at = refl;
  all_in = refl;
  removes = λ i pc h. replicate-Removes m i pc h;
  counts = λ x.
      omega (arith, total-replicate (taken x) idle m refl, total-replicate (served x) free m refl);
}
