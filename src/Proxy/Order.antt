-- ===== src/Proxy/Order.antt =====
-- The order of the states of a connection.
use cs.Base.{
  ℕ, ◌≡◌, ◌⊎◌, inl, inr, refl, ◌∙◌, Bool, true, false, List, [], ◌∷◌, Option, none, some,
  Bool-cases, Option-cases, if◌then◌else◌, ◌==◌, length, take,
}
use cs.CString.{Bytes}
use cs.CString.Search.{cstr}
use cs.Http.{is_complete_request}
use cs.Proxy.{
  State, Conn, Read, arrived, Ended, ongoing, finished, Attempt, Action, Outcome, looping, returned,
}
use cs.Proxy.Request.{reformat_client_request}
use cs.Proxy.Handlers.{
  connect_to_server, take_in, client_room, read_loop, register_server, request_read, read_request,
  request_sent, send_request, take_back, server_room, response_loop, to_client, response_read,
  read_response, send_response,
}
use cs.Proxy.Events.{Reports, handle, after_response}
use cs.Proxy.Transfer.{Returns, Returns-intro}

-- The state behind a state; a connection that is done is cleared for the next.
abbrev pub next_state : State → State
next_state State.read_req = State.send_req
next_state State.send_req = State.read_res
next_state State.read_res = State.send_res
next_state State.send_res = State.read_req

abbrev pub Follows : State → Conn → List Action → Type 0
Follows s c acts = (c.state ≡ s) ⊎ (c.state ≡ next_state s)

read_loop-state : (rs : List Read) (c : Conn) → (read_loop rs c).1.state ≡ c.state
unfolding read_loop take_in
read_loop-state [] c = refl
read_loop-state (Read.blocked ∷ rs) c = refl
read_loop-state (Read.failed ∷ rs) c = refl
read_loop-state (arrived bs ∷ rs) c =
    let next = take_in c (take (client_room c) bs) in
    elim (Bool-cases (is_complete_request (cstr next.client_request))) [
      | inl e ↦ rw (e, if◌then◌else◌) refl
      | inr e ↦ rw (e, if◌then◌else◌) (read_loop-state rs next)
    ]

response_loop-state : (rs : List Read) (c : Conn) → (response_loop rs c).1.state ≡ c.state
unfolding response_loop take_back
response_loop-state [] c = refl
response_loop-state (Read.blocked ∷ rs) c = refl
response_loop-state (Read.failed ∷ rs) c = refl
response_loop-state (arrived bs ∷ rs) c =
    let got = take (server_room c) bs in
    elim (Bool-cases (length got == 0)) [
      | inl e ↦ rw (e, if◌then◌else◌) refl
      | inr e ↦ rw (e, if◌then◌else◌) (response_loop-state rs (take_back c got))
    ]

register_server-Follows :
    (c : Conn) (epoll : Bool) (r : List Action × Option ℕ)
    → Returns (Follows State.read_req) (register_server c epoll r)
unfolding register_server
register_server-Follows c epoll (acts, none) = tt
register_server-Follows c false (acts, some fd) = tt
register_server-Follows c true (acts, some fd) = inr refl

request_read-Follows :
    (l : List Attempt) (epoll : Bool) (r : Ended × Conn)
    → r.1.state ≡ State.read_req
    → Returns (Follows State.read_req) (request_read l epoll r)
unfolding request_read
request_read-Follows l epoll (ongoing, c) h = tt
request_read-Follows l epoll (Ended.blocked, c) h = inl h
request_read-Follows l epoll (Ended.failed, c) h = inl h
request_read-Follows l epoll (finished, c) h = elim (Option-cases (reformat_client_request c)) [
  | inl e ↦ rw (e, request_read) tt
  | inr (c', e) ↦ rw (e, request_read) (register_server-Follows c' epoll (connect_to_server l))
]

request_sent-Follows :
    (epoll : Bool) (c : Conn) (r : Ended × (ℕ × Bytes))
    → c.state ≡ State.send_req
    → Returns (Follows State.send_req) (request_sent epoll c r)
unfolding request_sent
request_sent-Follows epoll c (ongoing, r) h = tt
request_sent-Follows epoll c (Ended.blocked, r) h = inl h
request_sent-Follows epoll c (Ended.failed, r) h = inl h
request_sent-Follows false c (finished, r) h = tt
request_sent-Follows true c (finished, r) h = inr refl

response_read-Follows :
    (epoll : Bool) (r : Ended × Conn)
    → r.1.state ≡ State.read_res
    → Returns (Follows State.read_res) (response_read epoll r)
unfolding response_read to_client
response_read-Follows epoll (ongoing, c) h = tt
response_read-Follows epoll (Ended.blocked, c) h = inl h
response_read-Follows epoll (Ended.failed, c) h = inl h
response_read-Follows false (finished, c) h = tt
response_read-Follows true (finished, c) h = inr refl

after_response-Follows : (o : Outcome) → Returns (Follows State.send_res) (after_response o)
unfolding after_response
after_response-Follows (looping c) = tt
after_response-Follows (returned c acts) = inr refl
after_response-Follows Outcome.exits = tt
after_response-Follows Outcome.unsafe = tt

handle-Returns :
    (r : Reports) (c : Conn) (s : State) → c.state ≡ s → Returns (Follows s) (handle r c)
unfolding handle read_request send_request read_response
handle-Returns r c State.read_req h =
    rw (h, handle)
      (request_read-Follows r.attempts r.epoll (read_loop r.reads c)
        (read_loop-state r.reads c ∙ h))
handle-Returns r c State.send_req h = rw (h, handle) (request_sent-Follows r.epoll c _ h)
handle-Returns r c State.read_res h =
    rw (h, handle)
      (response_read-Follows r.epoll (response_loop r.reads c) (response_loop-state r.reads c ∙ h))
handle-Returns r c State.send_res h =
    rw (h, handle) (after_response-Follows (send_response r.writes c))

-- Whatever the system calls report, a handler that returns leaves the connection in its state or in
-- the next one: reading the request, sending it, reading the answer, sending it, and again.
pub handle-order :
    (r : Reports) (c c' : Conn) (acts : List Action)
    → handle r c ≡ returned c' acts
    → (c'.state ≡ c.state) ⊎ (c'.state ≡ next_state c.state)
handle-order r c c' acts e =
    Returns-intro (Follows c.state) (handle r c) c' acts (handle-Returns r c c.state refl) e
