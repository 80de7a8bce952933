-- ===== src/Proxy/Events.antt =====
-- `main`: the table of connections, and what one event of `epoll_wait` does.
use cs.Base.{
  ℕ, ◌+◌, Bool, List, [], none, some, leb, ◌==◌, ◌||◌, if◌then◌else◌, get_elem?, set, replicate,
}
use cs.Proxy.{
  State, Conn, init_conn_state, Read, Write, Attempt, Action, Outcome, looping, returned,
  max_states,
}
use cs.Proxy.Handlers.{read_request, send_request, read_response, send_response, connect_to_client}

-- What the system calls of one handler report.
pub record Reports : Type 0 where
  pub reads : List Read
  pub writes : List Write
  pub attempts : List Attempt
  pub accepts : List (ℕ × Bool)
  pub epoll : Bool

-- The call of `init_conn_state` behind that of `send_response`.
unfoldable pub after_response : Outcome → Outcome
after_response (looping c) = looping c
after_response (returned c acts) = returned init_conn_state acts
after_response Outcome.exits = Outcome.exits
after_response Outcome.unsafe = Outcome.unsafe

-- The `switch` on the state of a connection.
unfoldable pub handle : Reports → Conn → Outcome
handle r c = elim c.state [
  | State.read_req ↦ read_request r.reads r.attempts r.epoll c
  | State.send_req ↦ send_request r.writes r.epoll c
  | State.read_res ↦ read_response r.reads r.epoll c
  | State.send_res ↦ after_response (send_response r.writes c)
]

pub record Server : Type 0 where
  pub listenfd : ℕ
  pub listen_conn_state : Conn
  pub conn_states : List Conn
  pub conn_state_idx : ℕ

-- The connection that an event points to: the listening socket's, or one of the table.
pub data Target : Type 0 where
  listener : Target
  conn : ℕ → Target

pub record Event : Type 0 where
  pub target : Target
  pub err : Bool
  pub hup : Bool
  pub rdhup : Bool

pub data Turn : Type 0 where
  inside next : Server → List Action → Turn
  exits unsafe : Turn

unfoldable pub start : ℕ → Server
start fd = record {
  listenfd = fd;
  listen_conn_state = record init_conn_state { client_socket_fd = fd };
  conn_states = replicate max_states init_conn_state;
  conn_state_idx = 0;
}

unfoldable pub turn_at : Server → ℕ → Outcome → Turn
turn_at s i (looping c) = inside (record s { conn_states = set s.conn_states i c }) []
turn_at s i (returned c acts) = next (record s { conn_states = set s.conn_states i c }) acts
turn_at s i Outcome.exits = Turn.exits
turn_at s i Outcome.unsafe = Turn.unsafe

unfoldable pub next_idx : ℕ → ℕ
next_idx i = if leb max_states (i + 1) then 0 else i + 1

-- A client wants to connect.
unfoldable pub accept_event : Server → List (ℕ × Bool) → Turn
accept_event s l = elim (get_elem? s.conn_states s.conn_state_idx) [
  | none ↦ Turn.unsafe
  | some c ↦
      turn_at (record s { conn_state_idx = next_idx s.conn_state_idx }) s.conn_state_idx
        (connect_to_client l c)
]

unfoldable pub conn_event : Server → Reports → ℕ → Turn
conn_event s r i = elim (get_elem? s.conn_states i) [
  | none ↦ Turn.unsafe
  | some c ↦
      if c.client_socket_fd == s.listenfd
      then accept_event s r.accepts
      else turn_at s i (handle r c)
]

unfoldable pub target_event : Server → Reports → Target → Turn
target_event s r listener =
    if s.listen_conn_state.client_socket_fd == s.listenfd
    then accept_event s r.accepts
    else Turn.unsafe
target_event s r (conn i) = conn_event s r i

unfoldable pub event : Server → Reports → Event → Turn
event s r e = if e.err || (e.hup || e.rdhup) then next s [] else target_event s r e.target
