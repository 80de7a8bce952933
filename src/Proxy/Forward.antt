-- ===== src/Proxy/Forward.antt =====
-- What a client's request becomes on its way to the server.
use cs.Base.{
  ℕ, ◌+◌, ◌≤◌, ◌<◌, ◌≡◌, ◌≢◌, refl, ap, true, List, [], ◌∷◌, ◌++◌, map, concat, length, arith, ltb,
  none, some, length-append, append_assoc, append-nil, if◌then◌else◌, subst, ◌∙◌, All-append,
}
use cs.CString.{Bytes, codes, space, Lacks}
use cs.CString.Search.{cstr, cstr-Lacks}
use cs.Http.{is_complete_request, slash, colon}
use cs.Http.Url.{
  Url, IsUrl, IsToken, Fits, request_text, port_or_80, parts_of-url, url_text, behind, authority,
}
use cs.Proxy.{
  Conn, State, init_conn_state, arrived, Attempt, Action, add_out, returned, max_object_size,
}
use cs.Proxy.Request.{
  proxy_sizes, eol, user_agent_hdr, conn_hdr, proxy_conn_hdr, strcat_all, pieces,
  reformat_client_request,
}
use cs.Proxy.Handlers.{connect_to_server, read_request, request_read, register_server}
use cs.Proxy.Chunks.{EndsOnce, received, read_loop-chunks}

-- The request to the server: HTTP/1.0, the host with its port, and three fixed headers.
abbrev pub forwarded : Bytes → Bytes → Bytes → Bytes → Bytes
forwarded m path host port =
    m
    ++ (codes " /"
        ++ (path
            ++ (codes " HTTP/1.0"
                ++ (eol
                    ++ (codes "Host: "
                        ++ (host
                            ++ (codes ":"
                                ++ (port
                                    ++ (eol
                                        ++ (user_agent_hdr
                                            ++ (conn_hdr
                                                ++ (proxy_conn_hdr ++ (eol ++ [])))))))))))))

pub strcat_all-concat :
    (n : ℕ) (s : Bytes) (ts : List Bytes)
    → length s + length (concat ts) < n
    → strcat_all n s ts ≡ some (s ++ concat ts)
unfolding strcat_all
strcat_all-concat n s [] h = rw (append-nil s) refl
strcat_all-concat n s (t ∷ ts) h =
    let e : ltb (length s + length t) n ≡ true = ground (arith, length-append t (concat ts)) in
    rw
      (
        e,
        if◌then◌else◌,
        strcat_all-concat n (s ++ t) ts
            (omega (arith, length-append s t, length-append t (concat ts))),
      )
      (rw (append_assoc s t (concat ts)) refl)

EndsOnce-complete :
    (buf : Bytes) (chunks : List Bytes)
    → EndsOnce buf chunks
    → is_complete_request (cstr (buf ++ concat chunks)) ≡ true
EndsOnce-complete buf [] e = elim e [ ]
EndsOnce-complete buf (b ∷ []) e = rw (append-nil b) e
EndsOnce-complete buf (b ∷ (d ∷ bs)) (e, es) =
    subst (λ s. is_complete_request (cstr s) ≡ true) (append_assoc buf b (concat (d ∷ bs)))
      (EndsOnce-complete (buf ++ b) (d ∷ bs) es)

-- The connection of a client, and what `reformat_client_request` makes of it.
abbrev pub fresh : ℕ → Conn
fresh fd = record init_conn_state { client_socket_fd = fd }

abbrev pub reformatted : Conn → Bytes → Bytes → Bytes → Conn
reformatted c host port s = record c {
  host = host;
  port = port;
  server_request = s;
  bytes_to_write_server = length s;
}

module _ (m : Bytes) (u : Url) (tail : Bytes) (v : IsUrl u) (t : IsToken (0 ∷ space ∷ []) m)
    (z : Lacks 0 tail) (f : Fits proxy_sizes m u tail) where
  reformat-path :
      (c : Conn) (p : Bytes)
      → cstr c.client_request ≡ request_text m u tail
      → is_complete_request (request_text m u tail) ≡ true
      → u.path ≡ some p
      → c.server_request ≡ []
      → length (forwarded m p u.host (port_or_80 u.port)) < max_object_size
      → reformat_client_request c
        ≡ some (reformatted c u.host (port_or_80 u.port) (forwarded m p u.host (port_or_80 u.port)))
  unfolding reformat_client_request
  reformat-path c p e k q r h =
      rw
        (
          e,
          k,
          if◌then◌else◌,
          parts_of-url proxy_sizes m u tail v t z f,
          q,
          r,
          strcat_all-concat max_object_size [] (pieces m p u.host (port_or_80 u.port))
              (omega (arith, h)),
        )
        refl

  -- Without a path the request is built from an array that was never written.
  reformat-no_path :
      (c : Conn)
      → cstr c.client_request ≡ request_text m u tail
      → is_complete_request (request_text m u tail) ≡ true
      → u.path ≡ none
      → reformat_client_request c ≡ none
  unfolding reformat_client_request
  reformat-no_path c e k q =
      rw (e, k, if◌then◌else◌, parts_of-url proxy_sizes m u tail v t z f, q) refl

request-zero :
    (m : Bytes) (u : Url) (tail : Bytes)
    → IsUrl u
    → Lacks 0 m
    → Lacks 0 tail
    → Lacks 0 (request_text m u tail)
request-zero m u tail v k z =
    let nz = λ (d : ℕ). d ≢ 0 in
    let scheme : Lacks 0 (space ∷ codes "http://") = omega arith in
    let url =
      All-append nz (authority u) (behind slash u.path)
        (All-append nz u.host (behind colon u.port) v.host_zero v.port_zero) v.path_zero in
    All-append nz m (space ∷ (codes "http://" ++ (url_text u ++ space ∷ tail))) k (
      All-append nz (space ∷ codes "http://") (url_text u ++ space ∷ tail) scheme
        (All-append nz (url_text u) (space ∷ tail) url (ground arith, z)))

-- The connection behind a forwarded request.
abbrev pub connected_to : ℕ → ℕ → Bytes → Bytes → Bytes → Bytes → Conn
connected_to fd server request host port s =
    record (reformatted (received (fresh fd) request) host port s) {
      server_socket_fd = server;
      state = State.send_req;
    }

-- However the request of a fresh connection is cut in reads, of which the last brings its end, the
-- proxy connects to the server of the address and holds for it exactly the request for the path of
-- the address, by HTTP/1.0, with the host and the port and the three fixed headers; the connection
-- then waits to send it. The address has a path, and every part fits its array.
pub read_request-forwards :
    (m : Bytes) (u : Url) (tail p : Bytes) (chunks : List Bytes) (l : List Attempt) (fd server : ℕ)
    (closes : List Action)
    → IsUrl u
    → IsToken (0 ∷ space ∷ []) m
    → Lacks 0 tail
    → Fits proxy_sizes m u tail
    → u.path ≡ some p
    → length (forwarded m p u.host (port_or_80 u.port)) < max_object_size
    → concat chunks ≡ request_text m u tail
    → EndsOnce [] chunks
    → connect_to_server l ≡ (closes, some server)
    → read_request (map arrived chunks) l true (fresh fd)
      ≡ returned
          (connected_to fd server
            (request_text m u tail)
            u.host
            (port_or_80 u.port)
            (forwarded m p u.host (port_or_80 u.port)))
          (closes ++ add_out server ∷ [])
unfolding read_request request_read register_server
read_request-forwards m u tail p chunks l fd server closes v (mz, t) z f q h k e s =
    let R = request_text m u tail in
    let cz : cstr R ≡ R = cstr-Lacks R (request-zero m u tail v mz z) in
    let done : is_complete_request R ≡ true =
      subst (λ r. is_complete_request r ≡ true) (ap cstr k ∙ cz) (EndsOnce-complete [] chunks e) in
    let fit : 0 + length (concat chunks) ≤ max_object_size = rw k (omega (arith, f.request)) in
    rw
      (
        read_loop-chunks chunks (fresh fd) refl fit e,
        k,
        reformat-path m u tail v (mz, t) z f (received (fresh fd) R) p cz done q refl h,
        request_read,
      )
      (ap
        (register_server
          (reformatted (received (fresh fd) R) u.host (port_or_80 u.port)
            (forwarded m p u.host (port_or_80 u.port)))
          true)
        s)
