-- ===== src/Proxy/Tests.antt =====
-- Runs of the proxy.
use cs.Proxy.Order.{handle-order, next_state}
use cs.Base.{
  ℕ, zero, suc, replicate, ◌⊎◌, ◌≡◌, refl, true, false, List, [], ◌∷◌, ◌++◌, some, inr, arith,
  get_elem?, map,
}
use cs.CString.{Bytes, codes}
use cs.CString.Search.{strstr, starts_with, cstr}
use cs.Http.{end_of_headers, is_complete_request}
use cs.Http.Url.{Url, IsUrl, Fits, request_text}
use cs.Proxy.{
  State, Conn, init_conn_state, arrived, Write, took, connected, refused, Action, close, send,
  mod_in, mod_out, add_in, add_out, looping, returned,
}
use cs.Proxy.Request.{proxy_sizes}
use cs.Proxy.Handlers.{
  send_request, request_sent, write_loop, connect_to_server, read_request, read_response,
}
use cs.Proxy.Transfer.{Sends, send_request-Sends}
use cs.Proxy.Chunks.{EndsOnce}
use cs.Proxy.Forward.{forwarded, fresh, connected_to, read_request-forwards}
use cs.Proxy.Transfer.{sent_on}
use cs.Proxy.Session.{session, writing}
use cs.Proxy.Session.Phases.{AllPos, sends}
use cs.Proxy.Session.Answers.{answers}
use cs.Proxy.Session.Serves.{requesting, session-serves}
use cs.Proxy.Spins.{read_request_spins}
use cs.Proxy.Answer.{read_response-whole, response_cut_off}
use cs.Proxy.Events.{Reports, handle, Server, start, target_event, listener, next}
use cs.Proxy.Table.{accept_reuses, started, accepted}

abbrev sending : Conn
sending = record (fresh 5) {
  server_socket_fd = 6;
  server_request = codes "abc";
  bytes_to_write_server = 3;
  state = State.send_req;
}

abbrev sent : Conn
sent = record sending { bytes_written_to_server = 3; state = State.read_res }

abbrev sent_acts : List Action
sent_acts = send 6 (codes "abc") ∷ mod_in 6 ∷ []

send_request_run :
    send_request (took 2 ∷ took 5 ∷ took 1 ∷ []) true sending ≡ returned sent sent_acts
unfolding send_request request_sent write_loop
send_request_run = refl

send_request-Sends_example : Sends sending sent sent_acts
send_request-Sends_example =
    send_request-Sends (took 2 ∷ took 5 ∷ took 1 ∷ []) true sending sent sent_acts refl
      (omega arith) (omega arith) send_request_run

abbrev home : Url
home = record { host = codes "a.org"; port = some (codes "81"); path = some (codes "x") }

abbrev home_tail : Bytes
home_tail = codes "HTTP/1.0" ++ end_of_headers

home-IsUrl : IsUrl home
home-IsUrl = record {
  host_ne = ground arith;
  host_space = omega arith;
  host_slash = omega arith;
  host_colon = omega arith;
  host_zero = omega arith;
  port_space = omega arith;
  port_slash = omega arith;
  port_zero = omega arith;
  path_space = omega arith;
  path_zero = omega arith;
}

home-Fits : Fits proxy_sizes (codes "GET") home home_tail
home-Fits = record {
  request = omega arith;
  method = omega arith;
  host_port = omega arith;
  host_str = omega arith;
  hostname = omega arith;
  port = omega arith;
  uri = omega arith;
}

abbrev halves : List Bytes
halves = codes "GET http://a.org:8" ∷ (codes "1/x " ++ home_tail) ∷ []

halves-EndsOnce : EndsOnce [] halves
unfolding is_complete_request strstr starts_with cstr
halves-EndsOnce = (refl, refl)

second_address : connect_to_server (refused 6 ∷ connected 7 ∷ []) ≡ (close 6 ∷ [], some 7)
unfolding connect_to_server
second_address = refl

read_request-forwards_example :
    read_request (map arrived halves) (refused 6 ∷ connected 7 ∷ []) true (fresh 5)
    ≡ returned
        (connected_to 5 7
          (request_text (codes "GET") home home_tail)
          (codes "a.org")
          (codes "81")
          (forwarded (codes "GET") (codes "x") (codes "a.org") (codes "81")))
        (close 6 ∷ add_out 7 ∷ [])
read_request-forwards_example =
    read_request-forwards (codes "GET") home home_tail (codes "x") halves
      (refused 6 ∷ connected 7 ∷ []) 5 7 (close 6 ∷ []) home-IsUrl
      (omega arith, (omega arith, ground arith)) (omega arith) home-Fits refl (omega arith) refl
      halves-EndsOnce second_address

nothing_incomplete : is_complete_request (cstr []) ≡ false
unfolding is_complete_request strstr starts_with cstr
nothing_incomplete = refl

read_request_spins_example :
    read_request (map arrived ([] ∷ [] ∷ [])) [] true (fresh 5) ≡ looping (fresh 5)
read_request_spins_example =
    read_request_spins ([] ∷ [] ∷ []) [] true (fresh 5) refl nothing_incomplete
      (inr (refl, (refl, tt)))

read_response-whole_example :
    read_response (map arrived (codes "ab" ∷ codes "c" ∷ []) ++ arrived [] ∷ []) true sent
    ≡ returned
        (record sent {
          server_response = codes "abc";
          bytes_read_from_server = 3;
          bytes_to_write_client = 3;
          state = State.send_res;
        })
        (close 6 ∷ mod_out 5 ∷ [])
read_response-whole_example =
    read_response-whole (codes "ab" ∷ codes "c" ∷ []) sent refl refl (omega arith) (omega arith)

abbrev answering : Conn
answering = record sent {
  server_response = codes "answer";
  bytes_to_write_client = 6;
  state = State.send_res;
}

abbrev two_then_blocked : Reports
two_then_blocked = record {
  reads = [];
  writes = took 2 ∷ Write.blocked ∷ [];
  attempts = [];
  accepts = [];
  epoll = true;
}

abbrev two_clients : Reports
two_clients = record {
  reads = [];
  writes = [];
  attempts = [];
  accepts = (5, true) ∷ (6, true) ∷ [];
  epoll = true;
}

accept_reuses_example :
    (c : Conn) × ((get_elem? (start 3).conn_states (start 3).conn_state_idx ≡ some c)
      × (target_event (start 3) two_clients listener
          ≡ next (accepted (start 3) c (5 ∷ 6 ∷ [])) (add_in 5 ∷ add_in 6 ∷ [])))
accept_reuses_example = accept_reuses 3 (start 3) two_clients (5 ∷ 6 ∷ []) started refl

abbrev two_places : Server
two_places = record {
  listenfd = 3;
  listen_conn_state = fresh 3;
  conn_states = answering ∷ sending ∷ [];
  conn_state_idx = 0;
}

abbrev one_left : Server
one_left = record two_places { conn_states = init_conn_state ∷ sending ∷ [] }

cut_off_run :
    handle two_then_blocked answering ≡ returned init_conn_state (send 5 (codes "an") ∷ [])
cut_off_run = response_cut_off answering two_then_blocked 2 refl (omega arith) (omega arith) refl

handle-order_example :
    (init_conn_state.state ≡ answering.state) ⊎ (init_conn_state.state ≡ next_state answering.state)
handle-order_example =
    handle-order two_then_blocked answering init_conn_state (send 5 (codes "an") ∷ []) cut_off_run

hundreds-AllPos : (n : ℕ) → AllPos (replicate n 100)
hundreds-AllPos zero = tt
hundreds-AllPos (suc n) = (omega arith, hundreds-AllPos n)

-- The request in two reads, two writes before the server's socket blocks, and an answer in two events.
session-serves_example :
    (acts : List Action) × (session
        (requesting halves (refused 6 ∷ connected 7 ∷ [])
          ∷ sends ((2 ∷ 3 ∷ []) ∷ []) (replicate 400 100) (
              answers
                ((codes "an" ∷ []) ∷ [])
                (codes "sw" ∷ codes "er" ∷ [])
                (writing (map took (replicate 7 100)) ∷ [])))
        (fresh 5)
      ≡ some (init_conn_state, acts))
    × (sent_on 7 acts ≡ forwarded (codes "GET") (codes "x") (codes "a.org") (codes "81"))
    × (sent_on 5 acts ≡ codes "answer")
session-serves_example =
    session-serves (codes "GET") home home_tail (codes "x") halves (refused 6 ∷ connected 7 ∷ []) 5
      7 (close 6 ∷ []) ((2 ∷ 3 ∷ []) ∷ []) (replicate 400 100) (replicate 7 100)
      ((codes "an" ∷ []) ∷ []) (codes "sw" ∷ codes "er" ∷ []) home-IsUrl
      (omega arith, (omega arith, ground arith)) (omega arith) home-Fits refl (omega arith) refl
      halves-EndsOnce second_address (omega arith) (omega arith) (hundreds-AllPos 400) (omega arith)
      (omega arith) (omega arith) (omega arith) (omega arith) (hundreds-AllPos 7) (omega arith)
