-- ===== src/Proxy/Transfer.antt =====
-- What the loops of reads and writes move: each byte once and in order.
use cs.Base.{
  ℕ, zero, suc, ◌+◌, ◌-◌, ◌≤◌, ◌<◌, ◌≡◌, refl, sym, ap, min, Bool, true, false, List, [], ◌∷◌, ◌++◌,
  take, drop, All, arith, ◌==◌, append_assoc, append-nil, Bool-cases, inl, inr, if◌then◌else◌,
  subst,
}
use cs.CString.{Bytes}
use cs.Proxy.{
  Conn, Action, State, Write, took, Ended, ongoing, finished, Outcome, returned, send, mod_in,
}
use cs.Proxy.Handlers.{write_loop, send_request, request_sent, close_both}

pub take-nil : (n : ℕ) → take {A = ℕ} n [] ≡ []
take-nil zero = refl
take-nil (suc n) = refl

-- Taking more of a text.
pub take-add : (n k : ℕ) (s : Bytes) → take n s ++ take k (drop n s) ≡ take (n + k) s
take-add zero k s = ap (λ n. take n s) (omega arith)
take-add (suc n) k [] = rw (take-nil k, take-nil (suc n + k)) refl
take-add (suc n) k (c ∷ s) =
    let e : suc n + k ≡ suc (n + k) = omega arith in rw (e, take-add n k s) refl

pub record Moved (buf : Bytes) (total written w : ℕ) (sent : Bytes) : Type 0 where
  pub bytes : take written buf ++ sent ≡ take w buf
  pub lower : written ≤ w
  pub upper : w ≤ total

Moved-none :
    (buf : Bytes) (total written : ℕ) → written ≤ total → Moved buf total written written []
Moved-none buf total written h = record {
  bytes = append-nil (take written buf);
  lower = omega arith;
  upper = h;
}

Moved-more :
    (buf : Bytes) (total written k w : ℕ) (sent : Bytes)
    → Moved buf total (written + k) w sent
    → Moved buf total written w (take k (drop written buf) ++ sent)
Moved-more buf total written k w sent m = record {
  bytes =
      rw
        (
          sym (append_assoc (take written buf) (take k (drop written buf)) sent),
          take-add written k buf,
        )
        m.bytes;
  lower = omega (arith, m.lower);
  upper = m.upper;
}

pub write_loop-Moved :
    (ws : List Write) (buf : Bytes) (total written : ℕ)
    → written ≤ total
    → let r = write_loop ws buf total written in Moved buf total written r.1.0 r.1.1
unfolding write_loop
write_loop-Moved [] buf total written h = Moved-none buf total written h
write_loop-Moved (Write.blocked ∷ ws) buf total written h = Moved-none buf total written h
write_loop-Moved (Write.failed ∷ ws) buf total written h = Moved-none buf total written h
write_loop-Moved (took n ∷ ws) buf total written h =
    let k = min n (total - written) in
    let r = write_loop ws buf total (written + k) in
    let more = write_loop-Moved ws buf total (written + k) (omega arith) in
    elim (Bool-cases (k == 0)) [
      | inl q ↦ rw (q, if◌then◌else◌) (Moved-none buf total written h)
      | inr q ↦ rw (q, if◌then◌else◌) (Moved-more buf total written k r.1.0 r.1.1 more)
    ]

-- Every report of a write takes something.
abbrev pub Takes : Write → Type 0
Takes (took n) = 0 < n
Takes Write.blocked = Unit
Takes Write.failed = Unit

-- A loop that finishes has sent everything.
pub write_loop-finished :
    (ws : List Write) (buf : Bytes) (total written : ℕ)
    → written ≤ total
    → All Takes ws
    → let r = write_loop ws buf total written in r.0 ≡ finished → r.1.0 ≡ total
unfolding write_loop
write_loop-finished [] buf total written h t = λ q. ground arith
write_loop-finished (Write.blocked ∷ ws) buf total written h t = λ q. ground arith
write_loop-finished (Write.failed ∷ ws) buf total written h t = λ q. ground arith
write_loop-finished (took n ∷ ws) buf total written h (p, t) =
    let k = min n (total - written) in
    let more = write_loop-finished ws buf total (written + k) (omega arith) t in
    elim (Bool-cases (k == 0)) [
      | inl q ↦ rw (q, if◌then◌else◌) (λ _. ground arith)
      | inr q ↦ rw (q, if◌then◌else◌) more
    ]

-- The bytes that the actions send on a socket.
abbrev pub sent_on : ℕ → List Action → Bytes
sent_on fd [] = []
sent_on fd (send g bs ∷ l) = if g == fd then bs ++ sent_on fd l else sent_on fd l
sent_on fd (a ∷ l) = sent_on fd l

-- What holds of a handler that returns.
abbrev pub Returns : (Conn → List Action → Type 0) → Outcome → Type 0
Returns P (returned c acts) = P c acts
Returns P o = Unit

-- A call of `send_request` sends the bytes between the two counters, and goes on to the answer
-- exactly when everything is out.
pub record Sends (c c' : Conn) (acts : List Action) : Type 0 where
  pub bytes :
      take c.bytes_written_to_server c.server_request ++ sent_on c.server_socket_fd acts
      ≡ take c'.bytes_written_to_server c.server_request
  pub bound : c'.bytes_written_to_server ≤ c.bytes_to_write_server
  pub request_kept : c'.server_request ≡ c.server_request
  pub total_kept : c'.bytes_to_write_server ≡ c.bytes_to_write_server
  pub done : c'.state ≡ State.read_res → c'.bytes_written_to_server ≡ c.bytes_to_write_server

sent_on_self :
    (fd : ℕ) (out : Bytes) (l : List Action)
    → sent_on fd l ≡ []
    → sent_on fd (send fd out ∷ l) ≡ out
sent_on_self fd out l h =
    let e : (fd == fd) ≡ true = ground arith in rw (e, h, if◌then◌else◌) (append-nil out)

module _ (c : Conn) (w : ℕ) (out : Bytes)
    (m : Moved c.server_request c.bytes_to_write_server c.bytes_written_to_server w out) where
  Moved-sent :
      (l : List Action)
      → sent_on c.server_socket_fd l ≡ []
      → take c.bytes_written_to_server c.server_request
          ++ sent_on c.server_socket_fd (send c.server_socket_fd out ∷ l)
        ≡ take w c.server_request
  Moved-sent l h = rw (sent_on_self c.server_socket_fd out l h) m.bytes

  request_sent-Sends :
      (epoll : Bool) (e : Ended)
      → c.state ≡ State.send_req
      → (e ≡ finished → w ≡ c.bytes_to_write_server)
      → Returns (Sends c) (request_sent epoll c (e, (w, out)))
  unfolding request_sent
  request_sent-Sends epoll ongoing q f = tt
  request_sent-Sends epoll Ended.blocked q f = record {
    bytes = Moved-sent [] refl;
    bound = m.upper;
    request_kept = refl;
    total_kept = refl;
    done = λ r. ground (arith, q, r);
  }
  request_sent-Sends epoll Ended.failed q f = record {
    bytes = Moved-sent (close_both c) refl;
    bound = m.upper;
    request_kept = refl;
    total_kept = refl;
    done = λ r. ground (arith, q, r);
  }
  request_sent-Sends false finished q f = tt
  request_sent-Sends true finished q f = record {
    bytes = Moved-sent (mod_in c.server_socket_fd ∷ []) refl;
    bound = m.upper;
    request_kept = refl;
    total_kept = refl;
    done = λ r. f refl;
  }

pub Returns-intro :
    (P : Conn → List Action → Type 0) (o : Outcome) (c : Conn) (l : List Action)
    → Returns P o
    → o ≡ returned c l
    → P c l
Returns-intro P o c l h e = subst (Returns P) e h

-- A returning call of `send_request` puts on the server's socket exactly the bytes of the request
-- between the old and the new counter, in order, changes neither
-- the request nor its length, and reaches the reading of the answer only with every byte sent,
-- provided that each write that neither blocks nor fails takes at least one byte.
pub send_request-Sends :
    (ws : List Write) (epoll : Bool) (c c' : Conn) (acts : List Action)
    → c.state ≡ State.send_req
    → c.bytes_written_to_server ≤ c.bytes_to_write_server
    → All Takes ws
    → send_request ws epoll c ≡ returned c' acts
    → Sends c c' acts
unfolding send_request
send_request-Sends ws epoll c c' acts q h t e =
    let r = write_loop ws c.server_request c.bytes_to_write_server c.bytes_written_to_server in
    Returns-intro (Sends c) _ c' acts
      (request_sent-Sends c r.1.0 r.1.1
        (write_loop-Moved ws c.server_request c.bytes_to_write_server c.bytes_written_to_server h)
        epoll r.0 q
        (write_loop-finished ws c.server_request c.bytes_to_write_server c.bytes_written_to_server h
          t))
      e
