-- ===== src/Proxy/Chunks.antt =====
-- However a request arrives cut in pieces, the loop of `read_request` puts it together.
use cs.Base.{
  ◌+◌, ◌≤◌, ◌≡◌, refl, sym, true, false, List, [], ◌∷◌, ◌++◌, map, concat, length, take, arith,
  length-append, append_assoc, append-nil, if◌then◌else◌, ◌∙◌,
}
use cs.CString.{Bytes}
use cs.CString.Search.{cstr}
use cs.Http.{is_complete_request}
use cs.Proxy.{Conn, Read, arrived, finished, max_object_size}
use cs.Proxy.Handlers.{take_in, read_loop, client_room}
use cs.CString.Store.{store-end, take-all}

-- The counter is the number of bytes in the buffer.
abbrev pub Counted : Conn → Type 0
Counted c = length c.client_request ≡ c.bytes_read_from_client

-- The pieces behind `buf` end a request, and none of them before the last does.
abbrev pub EndsOnce : Bytes → List Bytes → Type 0
EndsOnce buf [] = ⊥
EndsOnce buf (b ∷ []) = is_complete_request (cstr (buf ++ b)) ≡ true
EndsOnce buf (b ∷ (d ∷ bs)) =
    (is_complete_request (cstr (buf ++ b)) ≡ false) × EndsOnce (buf ++ b) (d ∷ bs)

-- The connection once it has read a text.
abbrev pub received : Conn → Bytes → Conn
received c s = record c {
  client_request = c.client_request ++ s;
  bytes_read_from_client = c.bytes_read_from_client + length s;
}

abbrev pub Fit : Conn → Bytes → Type 0
Fit c b = length c.client_request + length b ≤ max_object_size

take_in-end :
    (c : Conn) (b : Bytes) → Counted c → Fit c b → take_in c (take (client_room c) b) ≡ received c b
unfolding take_in
take_in-end c b h f =
    rw (take-all (client_room c) b (omega arith), sym h, store-end c.client_request b) refl

module _ (c : Conn) (b : Bytes) (rs : List Read) (h : Counted c) (f : Fit c b) where
  read_loop-last :
      is_complete_request (cstr (c.client_request ++ b)) ≡ true
      → read_loop (arrived b ∷ rs) c ≡ (finished, received c b)
  unfolding read_loop
  read_loop-last e = rw (take_in-end c b h f, e, if◌then◌else◌) refl

  read_loop-more :
      is_complete_request (cstr (c.client_request ++ b)) ≡ false
      → read_loop (arrived b ∷ rs) c ≡ read_loop rs (received c b)
  unfolding read_loop
  read_loop-more e = rw (take_in-end c b h f, e, if◌then◌else◌) refl

received-received : (c : Conn) (b s : Bytes) → received (received c b) s ≡ received c (b ++ s)
received-received c b s =
    let e : c.bytes_read_from_client + length b + length s
        ≡ c.bytes_read_from_client + length (b ++ s) =
      omega (arith, length-append b s) in
    rw (e, append_assoc c.client_request b s) refl

pub read_loop-chunks :
    (chunks : List Bytes) (c : Conn)
    → Counted c
    → Fit c (concat chunks)
    → EndsOnce c.client_request chunks
    → read_loop (map arrived chunks) c ≡ (finished, received c (concat chunks))
read_loop-chunks [] c k f e = elim e [ ]
read_loop-chunks (b ∷ []) c k f e =
    read_loop-last c b [] k (omega (arith, length-append b [])) e ∙ rw (append-nil b) refl
read_loop-chunks (b ∷ (d ∷ bs)) c k f (e, es) =
    let f1 : Fit c b = omega (arith, length-append b (concat (d ∷ bs))) in
    let f2 : Fit (received c b) (concat (d ∷ bs)) =
      omega (arith, length-append b (concat (d ∷ bs)), length-append c.client_request b) in
    let k2 : Counted (received c b) = omega (arith, length-append c.client_request b) in
    read_loop-more c b (map arrived (d ∷ bs)) k f1 e
    ∙ (read_loop-chunks (d ∷ bs) (received c b) k2 f2 es
        ∙ rw (received-received c b (concat (d ∷ bs))) refl)
