-- ===== src/Proxy/Session.antt =====
-- A connection from event to event: each time `main` calls the handler of its state.
pub mod Phases
pub mod Answers
pub mod Serves
use cs.Base.{
  ℕ, ◌+◌, ◌≡◌, refl, ap, ◌∙◌, sym, true, List, [], ◌∷◌, ◌++◌, map, Option, none, some, ◌>>=◌,
  append_assoc, append-nil, ◌==◌, if◌then◌else◌, Bool-cases, inl, inr, Option-cases,
}
use cs.CString.{Bytes}
use cs.Proxy.{
  State, Conn, Read, arrived, Write, took, Attempt, Action, close, send, add_in, add_out, mod_in,
  mod_out, Outcome, looping, returned,
}
use cs.Proxy.Events.{Reports, handle, after_response}
use cs.Proxy.Handlers.{read_request, send_request, read_response, send_response}
use cs.Proxy.Transfer.{sent_on}

-- `none` where a handler does not return.
abbrev pub result : Outcome → Option (Conn × List Action)
result (returned c acts) = some (c, acts)
result (looping c) = none
result Outcome.exits = none
result Outcome.unsafe = none

-- The events of one connection, with what the system calls report in each: its state at the end, and
-- all that was asked of the system.
unfoldable pub session : List Reports → Conn → Option (Conn × List Action)
session [] c = some (c, [])
session (r ∷ rs) c = do
  done ← result (handle r c)
  more ← session rs done.0
  some (more.0, done.1 ++ more.1)

-- One more event in front.
pub session-cons :
    (r : Reports) (rs : List Reports) (c : Conn) {d e : Conn} {acts more : List Action}
    → handle r c ≡ returned d acts
    → session rs d ≡ some (e, more)
    → session (r ∷ rs) c ≡ some (e, acts ++ more)
unfolding session
session-cons r rs c h k = rw (h, result, k) refl

pub sent_on-append :
    (fd : ℕ) (xs ys : List Action) → sent_on fd (xs ++ ys) ≡ sent_on fd xs ++ sent_on fd ys
sent_on-append fd [] ys = refl
sent_on-append fd (send g bs ∷ xs) ys = elim (Bool-cases (g == fd)) [
  | inl e ↦
      rw (e, if◌then◌else◌, sent_on-append fd xs ys)
        (sym (append_assoc bs (sent_on fd xs) (sent_on fd ys)))
  | inr e ↦ rw (e, if◌then◌else◌) (sent_on-append fd xs ys)
]
sent_on-append fd (close g ∷ xs) ys = sent_on-append fd xs ys
sent_on-append fd (add_in g ∷ xs) ys = sent_on-append fd xs ys
sent_on-append fd (add_out g ∷ xs) ys = sent_on-append fd xs ys
sent_on-append fd (mod_in g ∷ xs) ys = sent_on-append fd xs ys
sent_on-append fd (mod_out g ∷ xs) ys = sent_on-append fd xs ys

-- Events with nothing but reads, and with nothing but writes.
abbrev pub reading : List Read → Reports
reading rs = record { reads = rs; writes = []; attempts = []; accepts = []; epoll = true }

abbrev pub writing : List Write → Reports
writing ws = record { reads = []; writes = ws; attempts = []; accepts = []; epoll = true }

-- The handler that a state calls.
abbrev switch : State → Reports → Conn → Outcome
switch s r c = elim s [
  | State.read_req ↦ read_request r.reads r.attempts r.epoll c
  | State.send_req ↦ send_request r.writes r.epoll c
  | State.read_res ↦ read_response r.reads r.epoll c
  | State.send_res ↦ after_response (send_response r.writes c)
]

pub handle-send_request :
    (r : Reports) (c : Conn)
    → c.state ≡ State.send_req
    → handle r c ≡ send_request r.writes r.epoll c
unfolding handle
handle-send_request r c e = ap (λ s. switch s r c) e

pub handle-read_response :
    (r : Reports) (c : Conn)
    → c.state ≡ State.read_res
    → handle r c ≡ read_response r.reads r.epoll c
unfolding handle
handle-read_response r c e = ap (λ s. switch s r c) e

pub handle-send_response :
    (r : Reports) (c : Conn)
    → c.state ≡ State.send_res
    → handle r c ≡ after_response (send_response r.writes c)
unfolding handle
handle-send_response r c e = ap (λ s. switch s r c) e
