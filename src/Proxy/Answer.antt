-- ===== src/Proxy/Answer.antt =====
-- The answer of a server on its way to the client.
use cs.Base.{
  ℕ, ◌+◌, ◌-◌, ◌≤◌, ◌<◌, ◌≡◌, refl, sym, ap, ◌∙◌, true, false, List, [], ◌∷◌, ◌++◌, map, concat,
  length, take, drop, All, length-append, append_assoc, append-nil, arith, if◌then◌else◌, ◌==◌, min,
}
use cs.CString.{Bytes}
use cs.Proxy.{
  Conn, State, init_conn_state, Read, arrived, Write, took, finished, send, close, mod_out,
  returned, max_object_size,
}
use cs.Proxy.Handlers.{
  take_back, server_room, response_loop, response_read, read_response, to_client, send_response,
  response_sent, write_loop,
}
use cs.CString.Store.{store-end, take-all}
use cs.Proxy.Transfer.{take-nil}
use cs.Proxy.Events.{Reports, handle, after_response}

-- The answer of a server, each read but the last bringing something.
abbrev pub answered : Conn → Bytes → Conn
answered c s = record c {
  server_response = c.server_response ++ s;
  bytes_read_from_server = c.bytes_read_from_server + length s;
}

abbrev pub AnswerCounted : Conn → Type 0
AnswerCounted c = length c.server_response ≡ c.bytes_read_from_server

pub take_back-end : (c : Conn) (b : Bytes) → AnswerCounted c → take_back c b ≡ answered c b
unfolding take_back
take_back-end c b h = rw (sym h, store-end c.server_response b) refl

pub answered-answered : (c : Conn) (b s : Bytes) → answered (answered c b) s ≡ answered c (b ++ s)
answered-answered c b s =
    let e : c.bytes_read_from_server + length b + length s
        ≡ c.bytes_read_from_server + length (b ++ s) =
      omega (arith, length-append b s) in
    rw (e, append_assoc c.server_response b s) refl

pub response_loop-chunks :
    (chunks : List Bytes) (c : Conn)
    → AnswerCounted c
    → All (λ b. 0 < length b) chunks
    → length c.server_response + length (concat chunks) ≤ max_object_size
    → response_loop (map arrived chunks ++ arrived [] ∷ []) c
      ≡ (finished, answered c (concat chunks))
unfolding response_loop
response_loop-chunks [] c h p f =
    rw (take-nil (server_room c), append-nil c.server_response)
      (let z : c.bytes_read_from_server ≡ c.bytes_read_from_server + 0 = omega arith in
        ap (λ (n : ℕ). (finished, record c { bytes_read_from_server = n })) z)
response_loop-chunks (b ∷ bs) c h (p, ps) f =
    let q : (length b == 0) ≡ false = ground arith in
    rw
      (
        take-all (server_room c) b (omega (arith, length-append b (concat bs))),
        q,
        if◌then◌else◌,
        take_back-end c b h,
        response_loop-chunks bs (answered c b) (omega (arith, length-append c.server_response b)) ps
            (omega (arith, length-append b (concat bs), length-append c.server_response b)),
        answered-answered c b (concat bs),
      )
      refl

-- An answer that fits the buffer, however it is cut in reads, is in the buffer whole once the server
-- has closed its side: the handler closes the server's socket, and the connection waits to send
-- exactly these bytes to the client.
pub read_response-whole :
    (chunks : List Bytes) (c : Conn)
    → c.server_response ≡ []
    → c.bytes_read_from_server ≡ 0
    → All (λ b. 0 < length b) chunks
    → length (concat chunks) ≤ max_object_size
    → read_response (map arrived chunks ++ arrived [] ∷ []) true c
      ≡ returned
          (record c {
            server_response = concat chunks;
            bytes_read_from_server = length (concat chunks);
            bytes_to_write_client = length (concat chunks);
            state = State.send_res;
          })
          (close c.server_socket_fd ∷ mod_out c.client_socket_fd ∷ [])
unfolding read_response response_read to_client
read_response-whole chunks c e n p f =
    let k : AnswerCounted c = ap length e ∙ sym n in
    let z : 0 + length (concat chunks) ≡ length (concat chunks) = omega arith in
    rw (response_loop-chunks chunks c k p (omega (arith, ap length e, f)), e, n, z) refl

-- A full buffer reads as the end of the answer: what the server has still to send is dropped.
pub read_response_full :
    (b : Bytes) (rs : List Read) (c : Conn)
    → c.bytes_read_from_server ≡ max_object_size
    → read_response (arrived b ∷ rs) true c
      ≡ returned
          (record c { bytes_to_write_client = max_object_size; state = State.send_res })
          (close c.server_socket_fd ∷ mod_out c.client_socket_fd ∷ [])
unfolding read_response response_read to_client response_loop
read_response_full b rs c e = rw (e, if◌then◌else◌) refl

pub response_cut_off :
    (c : Conn) (r : Reports) (n : ℕ)
    → c.state ≡ State.send_res
    → 0 < n
    → c.bytes_written_to_client + n < c.bytes_to_write_client
    → r.writes ≡ took n ∷ Write.blocked ∷ []
    → handle r c
      ≡ returned init_conn_state (
          send c.client_socket_fd (take n (drop c.bytes_written_to_client c.server_response) ++ [])
          ∷ [])
unfolding handle after_response send_response response_sent write_loop
response_cut_off c r n e p f w =
    let k : min n (c.bytes_to_write_client - c.bytes_written_to_client) ≡ n = omega arith in
    let q : (n == 0) ≡ false = ground arith in rw (e, w, handle) (rw (k, q, if◌then◌else◌) refl)
