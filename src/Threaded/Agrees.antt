-- ===== src/Threaded/Agrees.antt =====
-- The two proxies on one request.
use cs.Base.{
  ℕ, ◌+◌, ◌<◌, ◌≡◌, refl, ap, ◌∙◌, true, List, [], ◌∷◌, ◌++◌, concat, some, inl, inr, Bool-cases,
  ltb, if◌then◌else◌, ◌>>=◌, >>=-eq-some, length, arith, append_assoc, append-nil, length-append,
}
use cs.CString.{Bytes}
use cs.CString.Search.{cstr}
use cs.Http.{Parts, parts_of, is_complete_request}
use cs.Http.Arrays.{Within, parts_of-Below}
use cs.Proxy.{Conn, max_object_size}
use cs.Proxy.Request.{strcat_all, pieces, proxy_sizes, reformat_client_request}
use cs.Proxy.Forward.{reformatted, strcat_all-concat}
use cs.Threaded.{http_request_max_size, thread_sizes, reformat_request}

thread-Within-proxy : Within thread_sizes proxy_sizes
thread-Within-proxy = omega arith

-- A text that `strcat` has built.
strcat_all-built :
    (n : ℕ) (s : Bytes) (ts : List Bytes) {t : Bytes}
    → strcat_all n s ts ≡ some t
    → length s < n
    → (t ≡ s ++ concat ts) × (length s + length (concat ts) < n)
unfolding strcat_all
strcat_all-built n s [] h k = (rw (append-nil s) cc, omega arith)
strcat_all-built n s (u ∷ ts) h k = elim (Bool-cases (ltb (length s + length u) n)) [
  | inr q ↦ let h' = rw q at h in cc
  | inl q ↦
      let h' = rw q at h in
      let (e, l) = strcat_all-built n (s ++ u) ts h' (ground (arith, length-append s u)) in
      (
        e ∙ append_assoc s u (concat ts),
        omega (arith, l, length-append s u, length-append u (concat ts)),
      )
]

-- What an accepted request has been made of.
reformat_request-parts :
    (fresh request host port s : Bytes)
    → reformat_request fresh request ≡ some (host, (port, s))
    → (p : Parts) × (uri : Bytes) × (is_complete_request request ≡ true)
      × (parts_of thread_sizes request ≡ some p)
      × (p.uri ≡ some uri)
      × (strcat_all http_request_max_size fresh (pieces p.method uri p.hostname p.port) ≡ some s)
      × (p.hostname ≡ host)
      × (p.port ≡ port)
unfolding reformat_request
reformat_request-parts fresh request host port s h =
    elim (Bool-cases (is_complete_request request)) [
      | inr q ↦ let h' = rw q at h in cc
      | inl q ↦
          let h' = rw q at h in
          let (p, e1, h1) = >>=-eq-some (parts_of thread_sizes request) _ h' in
          let (uri, e2, h2) = >>=-eq-some p.uri _ h1 in
          let ts = pieces p.method uri p.hostname p.port in
          let (t, e3, h3) = >>=-eq-some (strcat_all http_request_max_size fresh ts) _ h2 in
          let same : t ≡ s = cc in (p, uri, q, e1, e2, e3 ∙ ap some same, cc, cc)
    ]

-- The other proxy, from the same parts.
reformat_client_request-parts :
    (c : Conn) (p : Parts) (uri : Bytes)
    → is_complete_request (cstr c.client_request) ≡ true
    → parts_of thread_sizes (cstr c.client_request) ≡ some p
    → p.uri ≡ some uri
    → c.server_request ≡ []
    → length (concat (pieces p.method uri p.hostname p.port)) < max_object_size
    → reformat_client_request c
      ≡ some (reformatted c p.hostname p.port (concat (pieces p.method uri p.hostname p.port)))
unfolding reformat_client_request
reformat_client_request-parts c p uri q e u n l =
    let ts = pieces p.method uri p.hostname p.port in
    let e' = parts_of-Below thread-Within-proxy (cstr c.client_request) p e in
    let whole = strcat_all-concat max_object_size [] ts (omega (arith, l)) in
    rw (q, if◌then◌else◌, e', ◌>>=◌, u, n, whole) refl

-- Where a thread of the first proxy accepts a request, the second proxy makes of it the same request
-- for the same host and port, without what the array of `malloc` held in the first.
pub reformat_request-agrees :
    (fresh request host port s : Bytes) (c : Conn)
    → reformat_request fresh request ≡ some (host, (port, s))
    → length fresh < http_request_max_size
    → cstr c.client_request ≡ request
    → c.server_request ≡ []
    → (s' : Bytes) × (s ≡ fresh ++ s')
      × (reformat_client_request c ≡ some (reformatted c host port s'))
reformat_request-agrees fresh request host port s c h k e n =
    let (p, uri, q, e1, u, e3, same_host, same_port) =
      reformat_request-parts fresh request host port s h in
    let ts = pieces p.method uri p.hostname p.port in
    let (built, fits) = strcat_all-built http_request_max_size fresh ts e3 k in
    let other =
      reformat_client_request-parts c p uri (rw e q) (rw e e1) u n (omega (arith, fits)) in
    (concat ts, built, other ∙ (λ i. some (reformatted c (same_host i) (same_port i) (concat ts))))
