-- ===== src/Signals/Kept.antt =====
-- What each step of the signal program keeps: the nested masks, and what is still to be printed.
use cs.Base.{
  ℕ, zero, suc, ◌+◌, ◌≤◌, ◌≡◌, refl, false, ◌&&◌, List, [], ◌∷◌, ltb, if◌then◌else◌, inl, inr,
  Bool-cases, arith,
}
use cs.Signals.{
  Signal, Stmt, handler, Line, Frame, Process, has, arrive, exec, main_round, start, is_term, begin,
  go, is_wait, waits, interrupt, child_end, Event, react, next, chld, arrives, begins, goes,
  child_ends, interrupts, unset_line, sleeps,
}
use cs.Signals.Prints.{
  Holds, Holds-map, unless-Holds, printed, due, owed, printed-end, Same, arrive-Same, exec-Same,
  is_wait-quiet,
}

-- The mask is that of `main` and the signals of the handlers that run, each of which blocks its own.
abbrev pub Nested : List Frame → List Signal → List Signal → Type 0
Nested [] mask set = mask ≡ set
Nested (f ∷ fs) mask set =
    (mask ≡ f.sig ∷ f.saved) × (has f.sig f.saved ≡ false) × Nested fs f.saved set

module _ (a b : ℕ) where
  -- The number `b` comes at most once behind each `a`, and no `a` alone is left.
  abbrev pub Ordered : List Stmt → Type 0
  Ordered [] = Unit
  Ordered (x ∷ xs) =
      (due a (x ∷ xs) ≤ due b (x ∷ xs)) × (due b (x ∷ xs) ≤ due a (x ∷ xs) + 1) × Ordered xs

  abbrev pub OrderedAll : List Frame → Type 0
  OrderedAll [] = Unit
  OrderedAll (f ∷ fs) = Ordered f.rest × OrderedAll fs

  abbrev pub Even : List Line → List Frame → Type 0
  Even out fs = printed a out + owed a fs ≡ printed b out + owed b fs

  abbrev pub Kept : Process → Type 0
  Kept p = Nested p.frames p.mask p.set × Even p.out p.frames × OrderedAll p.frames

  frame-Kept :
      (s : Signal) (l : List Stmt) (m : List Signal) (fs : List Frame) (p : Process)
      → Nested (record { sig = s; rest = l; saved = m } ∷ fs) p.mask p.set
      → Even p.out (record { sig = s; rest = l; saved = m } ∷ fs)
      → Ordered l × OrderedAll fs
      → Holds Kept (go (record { sig = s; rest = l; saved = m } ∷ fs) p)
  unfolding go
  frame-Kept s [] m fs p (e, h, n) v (_, o) = (n, omega (arith, v), o)
  frame-Kept s (x ∷ xs) m fs p n v ((_, _, l), o) =
      let f : Frame = record { sig = s; rest = xs; saved = m } in
      let p2 = record p { frames = f ∷ fs } in
      Holds-map {P = Same x p2} {Q = Kept} (exec x p2)
        (λ q (ef, em, es, ep). rw (ef, em, es) (n, omega (arith, ep a, ep b, v), (l, o)))
        (exec-Same x p2)

  go-Kept :
      (fs : List Frame) (p : Process)
      → p.frames ≡ fs
      → Nested fs p.mask p.set
      → Even p.out fs
      → OrderedAll fs
      → Holds Kept (go fs p)
  unfolding go main_round
  go-Kept [] p e n v o = elim (Bool-cases (ltb p.i 30)) [
    | inl h ↦ rw (h, if◌then◌else◌, e) (refl, v, tt)
    | inr h ↦ rw (h, if◌then◌else◌, e) (n, v, tt)
  ]
  go-Kept (f ∷ fs) p e n v o = frame-Kept f.sig f.rest f.saved fs p n v o

  Same-Kept : (p q : Process) → Kept p → Same sleeps p q → Kept q
  Same-Kept p q (n, v, o) (ef, em, es, ep) = rw (ef, em, es) (n, omega (arith, ep a, ep b, v), o)

  start-Kept :
      (s : Signal) (p : Process)
      → due a (handler s) ≡ due b (handler s)
      → Ordered (handler s)
      → has s p.mask ≡ false
      → Kept p
      → Kept (start s p)
  unfolding start
  start-Kept s p d l h (n, v, o) = ((refl, h, n), omega (arith, d, v), (l, o))

  begin-Kept :
      (s : Signal) (p : Process)
      → due a (handler s) ≡ due b (handler s)
      → Ordered (handler s)
      → Kept p
      → Holds Kept (begin s p)
  unfolding begin
  begin-Kept s p d l k = elim (Bool-cases (has s p.mask)) [
    | inl h ↦ elim (Bool-cases (has s p.pending)) [ inl g ↦ rw (g, h) tt | inr g ↦ rw g tt ]
    | inr h ↦ elim (Bool-cases (has s p.pending)) [
      | inl g ↦ elim (Bool-cases (is_term s && p.term_dies)) [
        | inl t ↦ rw (g, h, t) k
        | inr t ↦ rw (g, h, t) (start-Kept s p d l h k)
      ]
      | inr g ↦ rw g tt
    ]
  ]

  interrupt-Kept :
      (s : Signal) (l : List Stmt) (m : List Signal) (fs : List Frame) (p : Process)
      → Nested (record { sig = s; rest = l; saved = m } ∷ fs) p.mask p.set
      → Even p.out (record { sig = s; rest = l; saved = m } ∷ fs)
      → Ordered l × OrderedAll fs
      → Holds Kept (interrupt (record { sig = s; rest = l; saved = m } ∷ fs) p)
  unfolding interrupt
  interrupt-Kept s [] m fs p n v o = tt
  interrupt-Kept s (x ∷ xs) m fs p n v ((_, _, l), o) = elim (Bool-cases (is_wait x)) [
    | inl w ↦ elim (Bool-cases (waits p.running p.zombies)) [
      | inl t ↦
          let e = λ (k : ℕ). printed-end k p.out unset_line in
          let z = λ (k : ℕ). is_wait-quiet x k w in
          rw (w, t, ◌&&◌, if◌then◌else◌) (n, omega (arith, e a, e b, z a, z b, v), (l, o))
      | inr t ↦ rw (w, t, ◌&&◌, if◌then◌else◌) tt
    ]
    | inr w ↦ rw (w, ◌&&◌, if◌then◌else◌) tt
  ]

  arrive-Kept : (s : Signal) (p : Process) → Kept p → Kept (arrive s p)
  arrive-Kept s p k = Same-Kept p (arrive s p) k (arrive-Same s sleeps p (λ j. refl))

  child_end-Kept : (n : ℕ) (p : Process) → Kept p → Holds Kept (child_end n p)
  unfolding child_end
  child_end-Kept zero p k = tt
  child_end-Kept (suc r) p k =
      arrive-Kept chld (record p { running = r; zombies = p.zombies + 1 }) k

  wait-Kept :
      (fs : List Frame) (p : Process)
      → Nested fs p.mask p.set
      → Even p.out fs
      → OrderedAll fs
      → Holds Kept (interrupt fs p)
  unfolding interrupt
  wait-Kept [] p n v o = tt
  wait-Kept (f ∷ fs) p n v o = interrupt-Kept f.sig f.rest f.saved fs p n v o

  react-Kept :
      (e : Event) (p : Process)
      → ((s : Signal) → due a (handler s) ≡ due b (handler s))
      → ((s : Signal) → Ordered (handler s))
      → Kept p
      → Holds Kept (react e p)
  unfolding react
  react-Kept (arrives s) p evens ordered k = arrive-Kept s p k
  react-Kept (begins s) p evens ordered k = begin-Kept s p (evens s) (ordered s) k
  react-Kept goes p evens ordered (n, v, o) = go-Kept p.frames p refl n v o
  react-Kept child_ends p evens ordered k = child_end-Kept p.running p k
  react-Kept interrupts p evens ordered (n, v, o) = wait-Kept p.frames p n v o

  pub next-Kept :
      (e : Event) (p : Process)
      → ((s : Signal) → due a (handler s) ≡ due b (handler s))
      → ((s : Signal) → Ordered (handler s))
      → Kept p
      → Holds Kept (next e p)
  unfolding next
  next-Kept e p evens ordered k =
      unless-Holds Kept p.over (react e p) (react-Kept e p evens ordered k)
