-- ===== src/Proxy/Handlers.antt =====
-- The four handlers of a connection, `connect_to_server` and `connect_to_client`.
use cs.Base.{
  ℕ, ◌+◌, ◌-◌, min, Bool, true, false, List, [], ◌∷◌, ◌++◌, Option, none, some, ◌==◌, if◌then◌else◌,
  length, take, drop,
}
use cs.CString.Store.{store}
use cs.CString.{Bytes}
use cs.CString.Search.{cstr}
use cs.Http.{is_complete_request}
use cs.Proxy.{
  State, Conn, Read, arrived, Write, took, Ended, ongoing, finished, Attempt, no_socket, refused,
  connected, Action, close, send, add_in, add_out, mod_in, mod_out, Outcome, looping, returned,
  exits, unsafe, max_object_size,
}
use cs.Proxy.Request.{reformat_client_request}

-- `connect_to_server`: the sockets it closes, and the one that is connected, if there is one.
unfoldable pub connect_to_server : List Attempt → List Action × Option ℕ
connect_to_server [] = ([], none)
connect_to_server (no_socket ∷ l) = connect_to_server l
connect_to_server (refused fd ∷ l) = let (acts, r) = connect_to_server l in (close fd ∷ acts, r)
connect_to_server (connected fd ∷ l) = ([], some fd)

abbrev pub client_room : Conn → ℕ
client_room c = max_object_size - c.bytes_read_from_client

-- A `read` from the client that delivers `bs`.
unfoldable pub take_in : Conn → Bytes → Conn
take_in c bs = record c {
  client_request = store c.client_request c.bytes_read_from_client bs;
  bytes_read_from_client = c.bytes_read_from_client + length bs;
}

-- The loop of `read_request`.
unfoldable pub read_loop : List Read → Conn → Ended × Conn
read_loop [] c = (ongoing, c)
read_loop (Read.blocked ∷ rs) c = (Ended.blocked, c)
read_loop (Read.failed ∷ rs) c = (Ended.failed, c)
read_loop (arrived bs ∷ rs) c =
    let next = take_in c (take (client_room c) bs) in
    let rest = read_loop rs next in
    if is_complete_request (cstr next.client_request) then (finished, next) else rest

abbrev pub close_both : Conn → List Action
close_both c = close c.client_socket_fd ∷ close c.server_socket_fd ∷ []

-- What follows `connect_to_server`: no server, or no place in the epoll instance, ends the program.
unfoldable pub register_server : Conn → Bool → List Action × Option ℕ → Outcome
register_server c epoll (acts, none) = exits
register_server c false (acts, some fd) = exits
register_server c true (acts, some fd) =
    returned (record c { server_socket_fd = fd; state = State.send_req }) (acts ++ add_out fd ∷ [])

-- What follows the loop.
unfoldable pub request_read : List Attempt → Bool → Ended × Conn → Outcome
request_read l epoll (ongoing, c) = looping c
request_read l epoll (Ended.blocked, c) = returned c []
request_read l epoll (Ended.failed, c) = returned c (close_both c)
request_read l epoll (finished, c) = elim (reformat_client_request c) [
  | none ↦ unsafe
  | some c' ↦ register_server c' epoll (connect_to_server l)
]

-- Client to proxy. `epoll` says whether `epoll_ctl` succeeds.
unfoldable pub read_request : List Read → List Attempt → Bool → Conn → Outcome
read_request rs l epoll c = request_read l epoll (read_loop rs c)

-- A loop of writes from a buffer of `total` bytes, of which `written` are out: how it ends, how many
-- are out then, and what it sent.
unfoldable pub write_loop : List Write → Bytes → ℕ → ℕ → Ended × (ℕ × Bytes)
write_loop [] buf total written = (ongoing, (written, []))
write_loop (Write.blocked ∷ ws) buf total written = (Ended.blocked, (written, []))
write_loop (Write.failed ∷ ws) buf total written = (Ended.failed, (written, []))
write_loop (took n ∷ ws) buf total written =
    let k = min n (total - written) in
    let (e, (w, sent)) = write_loop ws buf total (written + k) in
    if k == 0 then (finished, (written, [])) else (e, (w, take k (drop written buf) ++ sent))

unfoldable pub request_sent : Bool → Conn → Ended × (ℕ × Bytes) → Outcome
request_sent epoll c (ongoing, (w, out)) = looping (record c { bytes_written_to_server = w })
request_sent epoll c (Ended.blocked, (w, out)) =
    returned (record c { bytes_written_to_server = w }) (send c.server_socket_fd out ∷ [])
request_sent epoll c (Ended.failed, (w, out)) =
    returned (record c { bytes_written_to_server = w }) (send c.server_socket_fd out ∷ close_both c)
request_sent false c (finished, (w, out)) = exits
request_sent true c (finished, (w, out)) =
    returned (record c { bytes_written_to_server = w; state = State.read_res })
      (send c.server_socket_fd out ∷ mod_in c.server_socket_fd ∷ [])

-- Proxy to server.
unfoldable pub send_request : List Write → Bool → Conn → Outcome
send_request ws epoll c =
    request_sent epoll c
      (write_loop ws c.server_request c.bytes_to_write_server c.bytes_written_to_server)

abbrev pub server_room : Conn → ℕ
server_room c = max_object_size - c.bytes_read_from_server

-- A `read` from the server that delivers `bs`.
unfoldable pub take_back : Conn → Bytes → Conn
take_back c bs = record c {
  server_response = store c.server_response c.bytes_read_from_server bs;
  bytes_read_from_server = c.bytes_read_from_server + length bs;
}

-- The loop of `read_response`: until a read delivers nothing.
unfoldable pub response_loop : List Read → Conn → Ended × Conn
response_loop [] c = (ongoing, c)
response_loop (Read.blocked ∷ rs) c = (Ended.blocked, c)
response_loop (Read.failed ∷ rs) c = (Ended.failed, c)
response_loop (arrived bs ∷ rs) c =
    let got = take (server_room c) bs in
    let rest = response_loop rs (take_back c got) in if length got == 0 then (finished, c) else rest

unfoldable pub to_client : Conn → Conn
to_client c = record c { bytes_to_write_client = c.bytes_read_from_server }

unfoldable pub response_read : Bool → Ended × Conn → Outcome
response_read epoll (ongoing, c) = looping c
response_read epoll (Ended.blocked, c) = returned (to_client c) []
response_read epoll (Ended.failed, c) = returned (to_client c) (close_both c)
response_read false (finished, c) = exits
response_read true (finished, c) =
    returned (record (to_client c) { state = State.send_res })
      (close c.server_socket_fd ∷ mod_out c.client_socket_fd ∷ [])

-- Server to proxy.
unfoldable pub read_response : List Read → Bool → Conn → Outcome
unfolding response_read to_client
read_response rs epoll c = response_read epoll (response_loop rs c)

unfoldable pub response_sent : Conn → Ended × (ℕ × Bytes) → Outcome
response_sent c (ongoing, (w, out)) = looping (record c { bytes_written_to_client = w })
response_sent c (Ended.blocked, (w, out)) =
    returned (record c { bytes_written_to_client = w }) (send c.client_socket_fd out ∷ [])
response_sent c (Ended.failed, (w, out)) =
    returned (record c { bytes_written_to_client = w })
      (send c.client_socket_fd out ∷ close c.client_socket_fd ∷ [])
response_sent c (finished, (w, out)) =
    returned (record c { bytes_written_to_client = w })
      (send c.client_socket_fd out ∷ close c.client_socket_fd ∷ [])

-- Proxy to client.
unfoldable pub send_response : List Write → Conn → Outcome
send_response ws c =
    response_sent c
      (write_loop ws c.server_response c.bytes_to_write_client c.bytes_written_to_client)

-- Every client that waits on the listening socket: each is registered with the same connection. The
-- results are those of `accept` up to its failure, each with that of `epoll_ctl`.
unfoldable pub connect_to_client : List (ℕ × Bool) → Conn → Outcome
connect_to_client [] c = returned c []
connect_to_client ((fd, false) ∷ l) c = exits
connect_to_client ((fd, true) ∷ l) c =
    elim (connect_to_client l (record c { client_socket_fd = fd })) [
      | returned c' acts ↦ returned c' (add_in fd ∷ acts)
      | looping c' ↦ looping c'
      | exits ↦ exits
      | unsafe ↦ unsafe
    ]
