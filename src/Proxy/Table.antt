-- ===== src/Proxy/Table.antt =====
-- The table of connections under the events of `main`.
use cs.Base.{
  subst, zero, suc, ℕ, ◌<◌, ◌≡◌, refl, ap, Bool, true, List, [], ◌∷◌, map, length, get_elem?, set,
  some, length-set, length-replicate, arith, ◌==◌, ◌||◌, if◌then◌else◌, Option-cases, Bool-cases,
  inl, inr, ◌∙◌,
}
use cs.Proxy.{Conn, init_conn_state, Action, add_in, Outcome, looping, returned, max_states}
use cs.Proxy.Handlers.{connect_to_client}
use cs.Proxy.Events.{
  Reports, handle, Server, Target, listener, conn, Event, Turn, inside, next, start, turn_at,
  next_idx, accept_event, conn_event, target_event, event,
}

-- The last of a list, or `d`.
abbrev pub last_or : ℕ → List ℕ → ℕ
last_or d [] = d
last_or d (x ∷ l) = last_or x l

-- All clients that wait at one event are registered with one connection, which keeps only the socket
-- of the last: nothing else of it changes.
pub connect_to_client-last :
    (l : List ℕ) (c : Conn)
    → connect_to_client (map (λ fd. (fd, true)) l) c
      ≡ returned (record c { client_socket_fd = last_or c.client_socket_fd l }) (map add_in l)
unfolding connect_to_client
connect_to_client-last [] c = refl
connect_to_client-last (fd ∷ l) c =
    rw (connect_to_client-last l (record c { client_socket_fd = fd }), connect_to_client) refl

-- The table has all its places, the next one to use is one of them, and the listening socket is the
-- listener's.
pub record IsValid (s : Server) : Type 0 where
  pub places : length s.conn_states ≡ max_states
  pub idx : s.conn_state_idx < max_states
  pub listening : s.listen_conn_state.client_socket_fd ≡ s.listenfd

start-IsValid : (fd : ℕ) → IsValid (start fd)
unfolding start
start-IsValid fd = record {
  places = length-replicate max_states init_conn_state;
  idx = omega arith;
  listening = refl;
}

next_idx-lt : (i : ℕ) → next_idx i < max_states
unfolding next_idx
next_idx-lt i = ground arith

abbrev Holds : (Server → Type 0) → Turn → Type 0
Holds P (inside s acts) = P s
Holds P (next s acts) = P s
Holds P t = Unit

set-IsValid :
    (s : Server) (i : ℕ) (c : Conn)
    → IsValid s
    → IsValid (record s { conn_states = set s.conn_states i c })
set-IsValid s i c v = record {
  places = length-set s.conn_states i c ∙ v.places;
  idx = v.idx;
  listening = v.listening;
}

turn_at-IsValid : (s : Server) (i : ℕ) (o : Outcome) → IsValid s → Holds IsValid (turn_at s i o)
unfolding turn_at
turn_at-IsValid s i (looping c) v = set-IsValid s i c v
turn_at-IsValid s i (returned c acts) v = set-IsValid s i c v
turn_at-IsValid s i Outcome.exits v = tt
turn_at-IsValid s i Outcome.unsafe v = tt

accept_event-IsValid :
    (s : Server) (l : List (ℕ × Bool)) → IsValid s → Holds IsValid (accept_event s l)
unfolding accept_event
accept_event-IsValid s l v = elim (Option-cases (get_elem? s.conn_states s.conn_state_idx)) [
  | inl e ↦ rw (e, accept_event) tt
  | inr (c, e) ↦
      rw (e, accept_event)
        (turn_at-IsValid (record s { conn_state_idx = next_idx s.conn_state_idx }) s.conn_state_idx
          (connect_to_client l c)
          (record {
            places = v.places;
            idx = next_idx-lt s.conn_state_idx;
            listening = v.listening;
          }))
]

conn_event-IsValid :
    (s : Server) (r : Reports) (i : ℕ) → IsValid s → Holds IsValid (conn_event s r i)
unfolding conn_event
conn_event-IsValid s r i v = elim (Option-cases (get_elem? s.conn_states i)) [
  | inl e ↦ rw (e, conn_event) tt
  | inr (c, e) ↦ elim (Bool-cases (c.client_socket_fd == s.listenfd)) [
    | inl q ↦ rw (e, q, conn_event) (accept_event-IsValid s r.accepts v)
    | inr q ↦ rw (e, q, conn_event) (turn_at-IsValid s i (handle r c) v)
  ]
]

target_event-IsValid :
    (s : Server) (r : Reports) (t : Target) → IsValid s → Holds IsValid (target_event s r t)
unfolding target_event
target_event-IsValid s r listener v =
    elim (Bool-cases (s.listen_conn_state.client_socket_fd == s.listenfd)) [
      | inl q ↦ rw (q, if◌then◌else◌) (accept_event-IsValid s r.accepts v)
      | inr q ↦ rw (q, if◌then◌else◌) tt
    ]
target_event-IsValid s r (conn i) v = conn_event-IsValid s r i v

event-Holds : (s : Server) (r : Reports) (e : Event) → IsValid s → Holds IsValid (event s r e)
unfolding event
event-Holds s r e v = elim (Bool-cases (e.err || (e.hup || e.rdhup))) [
  | inl q ↦ rw (q, if◌then◌else◌) v
  | inr q ↦ rw (q, if◌then◌else◌) (target_event-IsValid s r e.target v)
]

-- The states that `main` reaches between two events.
pub data Reaches (fd : ℕ) : Server → Type 0 where
  started : Reaches fd (start fd)
  after :
      {s s' : Server} {acts : List Action} (r : Reports) (e : Event)
      → Reaches fd s
      → event s r e ≡ next s' acts
      → Reaches fd s'

Reaches-IsValid : (fd : ℕ) (s : Server) → Reaches fd s → IsValid s
Reaches-IsValid fd _ started = start-IsValid fd
Reaches-IsValid fd s (after {s = s0} r e h q) =
    subst (Holds IsValid) q (event-Holds s0 r e (Reaches-IsValid fd s0 h))

get_elem?-some : (l : List Conn) (i : ℕ) → i < length l → (c : Conn) × (get_elem? l i ≡ some c)
get_elem?-some [] i h = elim h [ ]
get_elem?-some (c ∷ l) zero h = (c, refl)
get_elem?-some (c ∷ l) (suc i) h = get_elem?-some l i (omega arith)

-- The server once the clients `l` are accepted into connection `c` of the table.
abbrev pub accepted : Server → Conn → List ℕ → Server
accepted s c l = record s {
  conn_states =
      set s.conn_states s.conn_state_idx
        (record c { client_socket_fd = last_or c.client_socket_fd l });
  conn_state_idx = next_idx s.conn_state_idx;
}

accept_event-found :
    (s : Server) (l : List ℕ) (c : Conn)
    → get_elem? s.conn_states s.conn_state_idx ≡ some c
    → accept_event s (map (λ g. (g, true)) l) ≡ next (accepted s c l) (map add_in l)
unfolding accept_event turn_at
accept_event-found s l c e = rw (e, accept_event) (rw (connect_to_client-last l c, turn_at) refl)

-- In every reachable state an event of the listening socket finds a place of the table, gives all
-- the clients that wait to it, and changes nothing of it but the client's socket: a connection that
-- is still in use there goes on, in its state and with its buffers, for another client.
pub accept_reuses :
    (fd : ℕ) (s : Server) (r : Reports) (l : List ℕ)
    → Reaches fd s
    → r.accepts ≡ map (λ g. (g, true)) l
    → (c : Conn) × ((get_elem? s.conn_states s.conn_state_idx ≡ some c)
        × (target_event s r listener ≡ next (accepted s c l) (map add_in l)))
unfolding target_event
accept_reuses fd s r l h a =
    let v = Reaches-IsValid fd s h in
    let (c, e) = get_elem?-some s.conn_states s.conn_state_idx (omega (arith, v.places, v.idx)) in
    let q : (s.listen_conn_state.client_socket_fd == s.listenfd) ≡ true =
      ground (arith, v.listening) in
    (c, (e, rw (q, if◌then◌else◌) (ap (accept_event s) a ∙ accept_event-found s l c e)))
