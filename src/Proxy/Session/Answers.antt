-- ===== src/Proxy/Session/Answers.antt =====
-- The step back: the answer of the server over several events, and its way to the client.
use cs.Base.{
  ℕ, ◌+◌, ◌≤◌, ◌<◌, ◌≡◌, refl, ap, ◌∙◌, true, false, List, [], ◌∷◌, ◌++◌, map, some, concat,
  append-nil, ◌==◌, if◌then◌else◌, All, arith, length, length-append,
}
use cs.CString.{Bytes}
use cs.CString.Store.{take-all}
use cs.Proxy.{
  State, Conn, init_conn_state, Read, arrived, took, Action, close, send, mod_out, Ended, finished,
  returned, max_object_size,
}
use cs.Proxy.Handlers.{
  write_loop, response_loop, response_read, read_response, to_client, server_room, send_response,
  response_sent,
}
use cs.Proxy.Events.{Reports, handle, after_response}
use cs.Proxy.Transfer.{write_loop-Moved, write_loop-finished}
use cs.Proxy.Answer.{
  answered, AnswerCounted, take_back-end, answered-answered, response_loop-chunks,
}
use cs.Proxy.Session.{
  session, session-cons, reading, writing, handle-read_response, handle-send_response,
}
use cs.Proxy.Session.Phases.{AllPos, AllPos-Takes, write_loop-ends, Sent, Sent-one}

abbrev pub AllSome : List Bytes → Type 0
AllSome chunks = All (λ b. 0 < length b) chunks

-- The events of the reading of the answer: in each but the last the socket blocks.
abbrev pub answers : List (List Bytes) → List Bytes → List Reports → List Reports
answers [] last rest = reading (map arrived last ++ arrived [] ∷ []) ∷ rest
answers (bs ∷ pauses) last rest =
    reading (map arrived bs ++ Read.blocked ∷ []) ∷ answers pauses last rest

abbrev pub answer : List (List Bytes) → List Bytes → Bytes
answer [] last = concat last
answer (bs ∷ pauses) last = concat bs ++ answer pauses last

response_loop-paused :
    (chunks : List Bytes) (c : Conn)
    → AnswerCounted c
    → AllSome chunks
    → length c.server_response + length (concat chunks) ≤ max_object_size
    → response_loop (map arrived chunks ++ Read.blocked ∷ []) c
      ≡ (Ended.blocked, answered c (concat chunks))
unfolding response_loop
response_loop-paused [] c h p f = rw (append-nil c.server_response) (
    let z : c.bytes_read_from_server ≡ c.bytes_read_from_server + 0 = omega arith in
    ap (λ (n : ℕ). (Ended.blocked, record c { bytes_read_from_server = n })) z)
response_loop-paused (b ∷ bs) c h (p, ps) f =
    let q : (length b == 0) ≡ false = ground arith in
    rw
      (
        take-all (server_room c) b (omega (arith, length-append b (concat bs))),
        q,
        if◌then◌else◌,
        take_back-end c b h,
        response_loop-paused bs (answered c b) (omega (arith, length-append c.server_response b)) ps
            (omega (arith, length-append b (concat bs), length-append c.server_response b)),
        answered-answered c b (concat bs),
      )
      refl

-- The connection with the whole answer.
abbrev pub answered_whole : Conn → Bytes → Conn
answered_whole c s = record (to_client (answered c s)) { state = State.send_res }

answered_whole-answered :
    (c : Conn) (b s : Bytes)
    → answered_whole (to_client (answered c b)) s ≡ answered_whole c (b ++ s)
unfolding to_client
answered_whole-answered c b s =
    ap (λ (d : Conn). record (to_client d) { state = State.send_res }) (answered-answered c b s)

-- The whole step: every byte of the answer is kept once and in order.
pub read_phase :
    (pauses : List (List Bytes)) (last : List Bytes) (rest : List Reports) (c : Conn) {e : Conn}
    {more : List Action}
    → c.state ≡ State.read_res
    → AnswerCounted c
    → All AllSome pauses
    → AllSome last
    → length c.server_response + length (answer pauses last) ≤ max_object_size
    → session rest (answered_whole c (answer pauses last)) ≡ some (e, more)
    → session (answers pauses last rest) c
      ≡ some (e, close c.server_socket_fd ∷ mod_out c.client_socket_fd ∷ more)
unfolding read_response response_read
read_phase [] last rest c q k p pl f s =
    let rs = map arrived last ++ arrived [] ∷ [] in
    session-cons (reading rs) rest c
      (handle-read_response (reading rs) c q
        ∙ ap (response_read true) (response_loop-chunks last c k pl f))
      s
read_phase (bs ∷ pauses) last rest c {e} {more} q k (p, ps) pl f s =
    let rs = map arrived bs ++ Read.blocked ∷ [] in
    let n = length-append (concat bs) (answer pauses last) in
    let t = length-append c.server_response (concat bs) in
    session-cons (reading rs) (answers pauses last rest) c
      (handle-read_response (reading rs) c q
        ∙ ap (response_read true) (response_loop-paused bs c k p (omega (arith, n))))
      (read_phase pauses last rest (to_client (answered c (concat bs))) q
        (unfold to_client in omega (arith, t)) ps pl (unfold to_client in omega (arith, n, t))
        (rw (answered_whole-answered c (concat bs) (answer pauses last)) s))

-- The client gets the whole answer, and the connection is cleared for the next client.
pub client_phase :
    (ns : List ℕ) (c : Conn)
    → c.state ≡ State.send_res
    → AllPos ns
    → c.bytes_written_to_client ≤ c.bytes_to_write_client
    → c.bytes_to_write_client < length ns
    → (acts : List Action) × (handle (writing (map took ns)) c ≡ returned init_conn_state acts)
      × Sent c.client_socket_fd c.server_response c.bytes_written_to_client c.bytes_to_write_client
          acts
unfolding send_response response_sent after_response
client_phase ns c q p h k =
    let ws = map took ns in
    let total = c.bytes_to_write_client in
    let w = c.bytes_written_to_client in
    let r = write_loop ws c.server_response total w in
    let e = write_loop-ends ns c.server_response total w p h (omega arith) in
    let l = write_loop-finished ws c.server_response total w h (AllPos-Takes ns p) e in
    let m = write_loop-Moved ws c.server_response total w h in
    let same : r ≡ (finished, (total, r.1.1)) = λ i. (e i, (l i, r.1.1)) in
    (
      send c.client_socket_fd r.1.1 ∷ close c.client_socket_fd ∷ [],
      handle-send_response (writing ws) c q ∙ ap (λ o. after_response (response_sent c o)) same,
      Sent-one c.client_socket_fd c.server_response r.1.1 w total (close c.client_socket_fd ∷ [])
          (rw l at m.bytes) (λ g. refl),
    )
