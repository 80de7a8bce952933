-- ===== src/Proxy/Session/Phases.antt =====
-- Each of the three steps behind the request, over several events.
use cs.Base.{
  ℕ, ◌+◌, ◌-◌, ◌≤◌, ◌<◌, ◌≡◌, ◌≢◌, refl, ap, ◌∙◌, sym, true, false, List, [], ◌∷◌, ◌++◌, map, some,
  min, append_assoc, append-nil, ◌==◌, if◌then◌else◌, Bool-cases, inl, inr, All, arith, length,
  take,
}
use cs.CString.{Bytes}
use cs.Proxy.{State, Conn, Write, took, Action, send, mod_in, Ended, finished, returned}
use cs.Proxy.Handlers.{write_loop, request_sent, send_request}
use cs.Proxy.Events.{Reports, handle}
use cs.Proxy.Transfer.{Takes, write_loop-Moved, write_loop-finished, sent_on}
use cs.Proxy.Session.{session, session-cons, sent_on-append, writing, handle-send_request}

abbrev pub sum : List ℕ → ℕ
sum [] = 0
sum (n ∷ ns) = n + sum ns

abbrev pub AllPos : List ℕ → Type 0
AllPos ns = All (λ n. 0 < n) ns

pub AllPos-Takes : (ns : List ℕ) → AllPos ns → All Takes (map took ns)
AllPos-Takes [] p = tt
AllPos-Takes (n ∷ ns) (q, p) = (q, AllPos-Takes ns p)

-- A loop that is stopped before everything is out.
write_loop-stopped :
    (ns : List ℕ) (buf : Bytes) (total w : ℕ)
    → AllPos ns
    → w + sum ns < total
    → let r = write_loop (map took ns ++ Write.blocked ∷ []) buf total w in
      (r.0 ≡ Ended.blocked) × (r.1.0 ≡ w + sum ns)
unfolding write_loop
write_loop-stopped [] buf total w p h = (refl, omega arith)
write_loop-stopped (n ∷ ns) buf total w (q, p) h =
    let k : min n (total - w) ≡ n = omega arith in
    let z : (n == 0) ≡ false = ground arith in
    let (e, l) = write_loop-stopped ns buf total (w + n) p (omega arith) in
    rw (k, z, if◌then◌else◌) (e, l ∙ omega arith)

-- One that is not.
pub write_loop-ends :
    (ns : List ℕ) (buf : Bytes) (total w : ℕ)
    → AllPos ns
    → w ≤ total
    → total - w < length ns
    → (write_loop (map took ns) buf total w).0 ≡ finished
unfolding write_loop
write_loop-ends [] buf total w p l h = elim h [ ]
write_loop-ends (n ∷ ns) buf total w (q, p) l h =
    let k = min n (total - w) in
    let more = write_loop-ends ns buf total (w + k) p (omega arith) in
    elim (Bool-cases (k == 0)) [
      | inl z ↦ rw (z, if◌then◌else◌) refl
      | inr z ↦ rw (z, if◌then◌else◌) (more (ground arith))
    ]

-- The events of the sending of the request: in each but the last the socket blocks.
abbrev pub sends : List (List ℕ) → List ℕ → List Reports → List Reports
sends [] last rest = writing (map took last) ∷ rest
sends (ns ∷ stalls) last rest = writing (map took ns ++ Write.blocked ∷ []) ∷ sends stalls last rest

abbrev pub sums : List (List ℕ) → ℕ
sums [] = 0
sums (ns ∷ l) = sum ns + sums l

abbrev to_server : Conn → ℕ → Conn
to_server c w = record c { bytes_written_to_server = w }

-- What a step sends on the sockets.
abbrev pub Sent : ℕ → Bytes → ℕ → ℕ → List Action → Type 0
Sent fd buf w w' acts =
    (take w buf ++ sent_on fd acts ≡ take w' buf) × ((g : ℕ) → g ≢ fd → sent_on g acts ≡ [])

pub Sent-one :
    (fd : ℕ) (buf out : Bytes) (w w' : ℕ) (more : List Action)
    → take w buf ++ out ≡ take w' buf
    → ((g : ℕ) → sent_on g more ≡ [])
    → Sent fd buf w w' (send fd out ∷ more)
Sent-one fd buf out w w' more e none =
    let here : (fd == fd) ≡ true = ground arith in
    (
      rw (here, if◌then◌else◌, none fd, append-nil out) e,
      λ g h. let there : (fd == g) ≡ false = ground arith in rw (there, if◌then◌else◌) (none g),
    )

Sent-append :
    (fd : ℕ) (buf : Bytes) (w v u : ℕ) (xs ys : List Action)
    → Sent fd buf w v xs
    → Sent fd buf v u ys
    → Sent fd buf w u (xs ++ ys)
Sent-append fd buf w v u xs ys (e, n) (f, m) = (
  rw (sent_on-append fd xs ys, sym (append_assoc (take w buf) (sent_on fd xs) (sent_on fd ys)), e)
      f,
  λ g h. rw (sent_on-append g xs ys, n g h) (m g h),
)

send_stalls :
    (ns : List ℕ) (c : Conn)
    → c.state ≡ State.send_req
    → AllPos ns
    → c.bytes_written_to_server + sum ns < c.bytes_to_write_server
    → (acts : List Action) × (handle (writing (map took ns ++ Write.blocked ∷ [])) c
        ≡ returned (to_server c (c.bytes_written_to_server + sum ns)) acts)
      × Sent c.server_socket_fd c.server_request c.bytes_written_to_server
          (c.bytes_written_to_server + sum ns)
          acts
unfolding handle send_request request_sent
send_stalls ns c q p h =
    let ws = map took ns ++ Write.blocked ∷ [] in
    let r = write_loop ws c.server_request c.bytes_to_write_server c.bytes_written_to_server in
    let (e, l) =
      write_loop-stopped ns c.server_request c.bytes_to_write_server c.bytes_written_to_server p
        h in
    let m =
      write_loop-Moved ws c.server_request c.bytes_to_write_server c.bytes_written_to_server
        (omega arith) in
    let same : r ≡ (Ended.blocked, (c.bytes_written_to_server + sum ns, r.1.1)) =
      λ i. (e i, (l i, r.1.1)) in
    (
      send c.server_socket_fd r.1.1 ∷ [],
      handle-send_request (writing ws) c q ∙ ap (request_sent true c) same,
      Sent-one c.server_socket_fd c.server_request r.1.1 c.bytes_written_to_server
          (c.bytes_written_to_server + sum ns) [] (rw l at m.bytes) (λ g. refl),
    )

abbrev pub sent_whole : Conn → Conn
sent_whole c = record c {
  bytes_written_to_server = c.bytes_to_write_server;
  state = State.read_res;
}

send_ends :
    (ns : List ℕ) (c : Conn)
    → c.state ≡ State.send_req
    → AllPos ns
    → c.bytes_written_to_server ≤ c.bytes_to_write_server
    → c.bytes_to_write_server < length ns
    → (acts : List Action) × (handle (writing (map took ns)) c ≡ returned (sent_whole c) acts)
      × Sent c.server_socket_fd c.server_request c.bytes_written_to_server c.bytes_to_write_server
          acts
unfolding send_request request_sent
send_ends ns c q p h k =
    let ws = map took ns in
    let total = c.bytes_to_write_server in
    let w = c.bytes_written_to_server in
    let r = write_loop ws c.server_request total w in
    let e = write_loop-ends ns c.server_request total w p h (omega arith) in
    let l = write_loop-finished ws c.server_request total w h (AllPos-Takes ns p) e in
    let m = write_loop-Moved ws c.server_request total w h in
    let same : r ≡ (finished, (total, r.1.1)) = λ i. (e i, (l i, r.1.1)) in
    (
      send c.server_socket_fd r.1.1 ∷ mod_in c.server_socket_fd ∷ [],
      handle-send_request (writing ws) c q ∙ ap (request_sent true c) same,
      Sent-one c.server_socket_fd c.server_request r.1.1 w total (mod_in c.server_socket_fd ∷ [])
          (rw l at m.bytes) (λ g. refl),
    )

-- The whole step: every byte of the request goes to the server once and in order, and nothing
-- anywhere else.
pub send_phase :
    (stalls : List (List ℕ)) (last : List ℕ) (rest : List Reports) (c : Conn) {e : Conn}
    {more : List Action}
    → c.state ≡ State.send_req
    → All AllPos stalls
    → AllPos last
    → c.bytes_written_to_server + sums stalls < c.bytes_to_write_server
    → c.bytes_to_write_server < length last
    → session rest (sent_whole c) ≡ some (e, more)
    → (acts : List Action) × (session (sends stalls last rest) c ≡ some (e, acts ++ more))
      × Sent c.server_socket_fd c.server_request c.bytes_written_to_server c.bytes_to_write_server
          acts
send_phase [] last rest c q p pl h k s =
    let (acts, e, sent) = send_ends last c q pl (omega arith) k in
    (acts, session-cons (writing (map took last)) rest c e s, sent)
send_phase (ns ∷ stalls) last rest c {e} {more} q (p, ps) pl h k s =
    let w = c.bytes_written_to_server in
    let (acts, e1, sent1) = send_stalls ns c q p (omega arith) in
    let (acts2, e2, sent2) =
      send_phase stalls last rest (to_server c (w + sum ns)) q ps pl (omega arith) k s in
    let ws = writing (map took ns ++ Write.blocked ∷ []) in
    (
      acts ++ acts2,
      rw (append_assoc acts acts2 more) (session-cons ws (sends stalls last rest) c e1 e2),
      Sent-append c.server_socket_fd c.server_request w (w + sum ns) c.bytes_to_write_server acts
          acts2 sent1 sent2,
    )
