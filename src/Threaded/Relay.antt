-- ===== src/Threaded/Relay.antt =====
-- What a thread sends to the server and back to the client.
use cs.Base.{
  ℕ, ◌+◌, ◌≤◌, ◌<◌, ◌≡◌, refl, min, true, false, List, [], ◌∷◌, ◌++◌, map, concat, some, ◌==◌, leb,
  if◌then◌else◌, length, drop, All, arith, length-append, length-drop, take-append-drop,
  append_assoc, append-nil,
}
use cs.CString.{Bytes, space, Lacks}
use cs.CString.Store.{take-all}
use cs.Http.{is_complete_request}
use cs.Http.Url.{Url, IsUrl, IsToken, Fits, request_text, port_or_80, parts_of-url}
use cs.Proxy.{arrived, max_object_size}
use cs.Proxy.Request.{pieces}
use cs.Proxy.Handlers.{connect_to_server}
use cs.Proxy.Forward.{forwarded, strcat_all-concat}
use cs.Threaded.{
  http_request_max_size, thread_sizes, ok, get_client_request, reformat_request, write_all,
  response_loop, receive_server_response, Calls, connected_or_exit, act_as_server_and_client,
}

-- As many calls of `Write` as there are bytes are enough, if each takes at least one.
write_all-whole :
    (ws : List ℕ) (s : Bytes) → All (λ n. 0 < n) ws → length s ≤ length ws → write_all ws s ≡ ok s
unfolding write_all
write_all-whole ws [] p h = refl
write_all-whole [] (c ∷ s) p h = elim h [ ]
write_all-whole (n ∷ ws) (c ∷ s) (q, p) h =
    let k = min n (length (c ∷ s)) in
    rw
      (
        write_all-whole ws (drop k (c ∷ s)) p (omega (arith, length-drop k (c ∷ s))),
        take-append-drop k (c ∷ s),
      )
      refl

response_loop-chunks :
    (chunks : List Bytes) (buf : Bytes)
    → All (λ b. 0 < length b) chunks
    → length buf + length (concat chunks) ≤ max_object_size
    → response_loop (map arrived chunks ++ arrived [] ∷ []) buf ≡ ok (buf ++ concat chunks)
unfolding response_loop
response_loop-chunks [] buf p h = rw (append-nil buf) refl
response_loop-chunks (b ∷ bs) buf (p, ps) h =
    let q : (length b == 0) ≡ false = ground arith in
    let n = length-append buf b in
    let t : leb (length (buf ++ b)) max_object_size ≡ true =
      ground (arith, n, length-append b (concat bs)) in
    rw
      (
        take-all max_object_size b (omega (arith, length-append b (concat bs))),
        q,
        t,
        if◌then◌else◌,
        response_loop-chunks bs (buf ++ b) ps (omega (arith, n, length-append b (concat bs))),
        append_assoc buf b (concat bs),
      )
      refl

pub reformat_request-url :
    (fresh m : Bytes) (u : Url) (tail p : Bytes)
    → IsUrl u
    → IsToken (0 ∷ space ∷ []) m
    → Lacks 0 tail
    → Fits thread_sizes m u tail
    → is_complete_request (request_text m u tail) ≡ true
    → u.path ≡ some p
    → length fresh + length (forwarded m p u.host (port_or_80 u.port)) < http_request_max_size
    → reformat_request fresh (request_text m u tail)
      ≡ some (u.host, (port_or_80 u.port, fresh ++ forwarded m p u.host (port_or_80 u.port)))
unfolding reformat_request
reformat_request-url fresh m u tail p v t z f k q h =
    rw
      (
        k,
        if◌then◌else◌,
        parts_of-url thread_sizes m u tail v t z f,
        q,
        strcat_all-concat http_request_max_size fresh (pieces m p u.host (port_or_80 u.port)) h,
      )
      refl

-- Where the client's request is for an address with a path whose parts fit their arrays, the server
-- gets what its array of `malloc` held before with the new request behind it, and the client gets the
-- whole answer, however it is cut in reads, if it fits its array and each write takes a byte.
pub act_as_server_and_client-relays :
    (r : Calls) (m : Bytes) (u : Url) (tail p : Bytes) (chunks : List Bytes) (sfd : ℕ)
    → IsUrl u
    → IsToken (0 ∷ space ∷ []) m
    → Lacks 0 tail
    → Fits thread_sizes m u tail
    → is_complete_request (request_text m u tail) ≡ true
    → u.path ≡ some p
    → length r.fresh_server + length (forwarded m p u.host (port_or_80 u.port))
      < http_request_max_size
    → get_client_request r.fresh_request r.client_reads ≡ ok (request_text m u tail)
    → (connect_to_server r.attempts).1 ≡ some sfd
    → r.server_reads ≡ map arrived chunks ++ arrived [] ∷ []
    → All (λ b. 0 < length b) chunks
    → length (concat chunks) ≤ max_object_size
    → All (λ n. 0 < n) r.server_writes
    → length (r.fresh_server ++ forwarded m p u.host (port_or_80 u.port)) ≤ length r.server_writes
    → All (λ n. 0 < n) r.client_writes
    → length (concat chunks) ≤ length r.client_writes
    → act_as_server_and_client r
      ≡ ok (sfd, (r.fresh_server ++ forwarded m p u.host (port_or_80 u.port), concat chunks))
unfolding act_as_server_and_client receive_server_response connected_or_exit
act_as_server_and_client-relays r m u tail p chunks sfd v t z f k q h g a e pc fc w1 l1 w2 l2 =
    let new = r.fresh_server ++ forwarded m p u.host (port_or_80 u.port) in
    rw
      (
        g,
        reformat_request-url r.fresh_server m u tail p v t z f k q h,
        a,
        write_all-whole r.server_writes new w1 l1,
        e,
        response_loop-chunks chunks [] pc (omega (arith, fc)),
        write_all-whole r.client_writes (concat chunks) w2 l2,
      )
      refl
