-- ===== src/Proxy/Session/Serves.antt =====
-- A whole connection: from the request of the client to the last byte of the answer.
use cs.Base.{
  ℕ, ◌+◌, ◌≤◌, ◌<◌, ◌≡◌, ◌≢◌, refl, ap, ◌∙◌, sym, true, List, [], ◌∷◌, ◌++◌, map, some, concat, All,
  arith, length, append-nil,
}
use cs.CString.{Bytes, space, Lacks}
use cs.CString.Store.{take-all}
use cs.Http.Url.{Url, IsUrl, IsToken, Fits, request_text, port_or_80}
use cs.Proxy.{
  init_conn_state, arrived, took, Attempt, no_socket, refused, connected, Action, close, add_out,
  mod_out, max_object_size,
}
use cs.Proxy.Request.{proxy_sizes}
use cs.Proxy.Handlers.{connect_to_server, to_client}
use cs.Proxy.Events.{Reports, handle}
use cs.Proxy.Transfer.{sent_on}
use cs.Proxy.Chunks.{EndsOnce}
use cs.Proxy.Forward.{forwarded, fresh, connected_to, read_request-forwards}
use cs.Proxy.Session.{session, session-cons, sent_on-append, writing}
use cs.Proxy.Session.Phases.{AllPos, sums, sends, sent_whole, send_phase}
use cs.Proxy.Session.Answers.{AllSome, answers, answer, answered_whole, read_phase, client_phase}

-- Looking for a server sends nothing.
sent_on-connect_to_server : (g : ℕ) (l : List Attempt) → sent_on g (connect_to_server l).0 ≡ []
unfolding connect_to_server
sent_on-connect_to_server g [] = refl
sent_on-connect_to_server g (no_socket ∷ l) = sent_on-connect_to_server g l
sent_on-connect_to_server g (refused fd ∷ l) = sent_on-connect_to_server g l
sent_on-connect_to_server g (connected fd ∷ l) = refl

-- The event of the request, and those behind it.
abbrev pub requesting : List Bytes → List Attempt → Reports
requesting chunks l = record {
  reads = map arrived chunks;
  writes = [];
  attempts = l;
  accepts = [];
  epoll = true;
}

module _ (fd server : ℕ) (request host port text : Bytes) (stalls : List (List ℕ))
    (last back : List ℕ) (pauses : List (List Bytes)) (end : List Bytes) where
  -- What follows the request.
  behind_request :
      fd ≢ server
      → All AllPos stalls
      → AllPos last
      → sums stalls < length text
      → length text < length last
      → All AllSome pauses
      → AllSome end
      → length (answer pauses end) ≤ max_object_size
      → AllPos back
      → length (answer pauses end) < length back
      → (acts : List Action) × (session
            (sends stalls last (answers pauses end (writing (map took back) ∷ [])))
            (connected_to fd server request host port text)
          ≡ some (init_conn_state, acts))
        × (sent_on server acts ≡ text)
        × (sent_on fd acts ≡ answer pauses end)
  unfolding session to_client
  behind_request ne ps pl hs hl qs ql ha pb hb =
      let s = answer pauses end in
      let c = connected_to fd server request host port text in
      let c3 = answered_whole (sent_whole c) s in
      let final = writing (map took back) in
      let (acts4, e4, (sent4, other4)) = client_phase back c3 refl pb (omega arith) (omega arith) in
      let r4 = session-cons final [] c3 e4 refl in
      let r3 = read_phase pauses end (final ∷ []) (sent_whole c) refl refl qs ql (omega arith) r4 in
      let (acts2, e2, (sent2, other2)) =
        send_phase stalls last (answers pauses end (final ∷ [])) c refl ps pl (omega arith) hl r3 in
      let tail = close server ∷ mod_out fd ∷ (acts4 ++ []) in
      let trail = λ (g : ℕ). ap (λ l. sent_on g l) (append-nil acts4) in
      (
        acts2 ++ tail,
        e2,
        sent_on-append server acts2 tail
            ∙ (ap (λ b. sent_on server acts2 ++ b) (trail server ∙ other4 server (λ q. ne (sym q)))
                ∙ (append-nil (sent_on server acts2)
                    ∙ (sent2 ∙ take-all (length text) text (omega arith)))),
        sent_on-append fd acts2 tail
            ∙ (ap (λ b. b ++ sent_on fd tail) (other2 fd ne)
                ∙ (trail fd ∙ (sent4 ∙ take-all (0 + length s) s (omega arith)))),
      )

-- A request for an address with a path, whose parts fit their arrays, that comes in one event, however
-- cut in reads, is served whole: the server gets exactly the forwarded request, the client exactly the
-- answer of the server, and the connection is cleared. The sending of the request and the reading of
-- the answer may stop any number of times where a socket blocks; the client's socket takes the answer,
-- which fits the buffer, without blocking.
pub session-serves :
    (m : Bytes) (u : Url) (tail p : Bytes) (chunks : List Bytes) (l : List Attempt) (fd server : ℕ)
    (closes : List Action) (stalls : List (List ℕ)) (last back : List ℕ)
    (pauses : List (List Bytes)) (end : List Bytes)
    → IsUrl u
    → IsToken (0 ∷ space ∷ []) m
    → Lacks 0 tail
    → Fits proxy_sizes m u tail
    → u.path ≡ some p
    → length (forwarded m p u.host (port_or_80 u.port)) < max_object_size
    → concat chunks ≡ request_text m u tail
    → EndsOnce [] chunks
    → connect_to_server l ≡ (closes, some server)
    → fd ≢ server
    → All AllPos stalls
    → AllPos last
    → sums stalls < length (forwarded m p u.host (port_or_80 u.port))
    → length (forwarded m p u.host (port_or_80 u.port)) < length last
    → All AllSome pauses
    → AllSome end
    → length (answer pauses end) ≤ max_object_size
    → AllPos back
    → length (answer pauses end) < length back
    → (acts : List Action) × (session
          (requesting chunks l
            ∷ sends stalls last (answers pauses end (writing (map took back) ∷ [])))
          (fresh fd)
        ≡ some (init_conn_state, acts))
      × (sent_on server acts ≡ forwarded m p u.host (port_or_80 u.port))
      × (sent_on fd acts ≡ answer pauses end)
unfolding handle
session-serves m u tail p chunks l fd server closes stalls last back pauses end v t z f q h k e s ne
      ps pl hs hl qs ql ha pb hb =
    let host = u.host in
    let port = port_or_80 u.port in
    let text = forwarded m p host port in
    let rest = sends stalls last (answers pauses end (writing (map took back) ∷ [])) in
    let first = read_request-forwards m u tail p chunks l fd server closes v t z f q h k e s in
    let (acts, more, to, of) =
      behind_request fd server (request_text m u tail) host port text stalls last back pauses end ne
        ps pl hs hl qs ql ha pb hb in
    let quiet = λ (g : ℕ).
      sent_on-append g closes (add_out server ∷ [])
      ∙ (append-nil (sent_on g closes)
          ∙ (ap (λ r. sent_on g r.0) (sym s) ∙ sent_on-connect_to_server g l)) in
    let front = closes ++ add_out server ∷ [] in
    (
      front ++ acts,
      session-cons (requesting chunks l) rest (fresh fd) first more,
      rw (sent_on-append server front acts, quiet server) to,
      rw (sent_on-append fd front acts, quiet fd) of,
    )
