-- ===== src/Proxy/Spins.antt =====
-- Reads that bring nothing.
use cs.Base.{
  ◌+◌, ◌≡◌, ◌⊎◌, inl, inr, refl, sym, Bool, false, List, [], ◌∷◌, map, length, take, All,
  append-nil, arith, if◌then◌else◌,
}
use cs.CString.{Bytes}
use cs.CString.Search.{cstr}
use cs.Http.{is_complete_request}
use cs.Proxy.{Conn, arrived, ongoing, Attempt, looping, max_object_size}
use cs.Proxy.Handlers.{take_in, client_room, read_loop, read_request, request_read}
use cs.CString.Store.{store-end, take-all}
use cs.Proxy.Chunks.{Counted}

take-zero : (s : Bytes) → length s ≡ 0 → s ≡ []
take-zero [] h = refl
take-zero (c ∷ s) h = ground arith

-- The reads deliver nothing: the buffer is full, or each is at the end of the stream.
abbrev pub Silent : Conn → List Bytes → Type 0
Silent c l = (c.bytes_read_from_client ≡ max_object_size) ⊎ All (λ s. s ≡ []) l

Silent-take :
    (c : Conn) (s : Bytes) (l : List Bytes) → Silent c (s ∷ l) → take (client_room c) s ≡ []
Silent-take c s l (inl e) = rw e refl
Silent-take c s l (inr (e, es)) = rw e (take-all (client_room c) [] (omega arith))

Silent-tail : (c : Conn) (s : Bytes) (l : List Bytes) → Silent c (s ∷ l) → Silent c l
Silent-tail c s l (inl e) = inl e
Silent-tail c s l (inr (e, es)) = inr es

take_in-nothing : (c : Conn) → Counted c → take_in c [] ≡ c
unfolding take_in
take_in-nothing c h =
    let z : c.bytes_read_from_client + 0 ≡ c.bytes_read_from_client = omega arith in
    rw (sym h, store-end c.client_request [], append-nil c.client_request) (rw (h, z) refl)

read_loop_spins :
    (l : List Bytes) (c : Conn)
    → Counted c
    → is_complete_request (cstr c.client_request) ≡ false
    → Silent c l
    → read_loop (map arrived l) c ≡ (ongoing, c)
unfolding read_loop
read_loop_spins [] c h e q = refl
read_loop_spins (s ∷ l) c h e q =
    rw (Silent-take c s l q, take_in-nothing c h, e, if◌then◌else◌)
      (read_loop_spins l c h e (Silent-tail c s l q))

-- Once the client has closed its side, or has filled the buffer, before the end of its request,
-- `read_request` never returns: after any number of further reads it still loops, with nothing changed.
pub read_request_spins :
    (l : List Bytes) (a : List Attempt) (epoll : Bool) (c : Conn)
    → Counted c
    → is_complete_request (cstr c.client_request) ≡ false
    → Silent c l
    → read_request (map arrived l) a epoll c ≡ looping c
unfolding read_request request_read
read_request_spins l a epoll c h e q = rw (read_loop_spins l c h e q, request_read) refl
