-- ===== src/Http/Arrays.antt =====
-- The parser with larger arrays.
use cs.Base.{
  ℕ, ◌+◌, ◌≤◌, inl, inr, Option-cases, Below, Below-bind, Below-refl, arith, length, [], ◌∷◌,
}
use cs.CString.{Bytes, space, codes}
use cs.CString.Search.{strstr, strtok, advance}
use cs.Http.{Sizes, strcpy, address, cut, host_and_port, uri_of, parts_of, slash, colon}

-- No array is smaller.
pub record Within (z z' : Sizes) : Type 0 where
  pub temp_request : z.temp_request ≤ z'.temp_request
  pub method : z.method ≤ z'.method
  pub host_port_str : z.host_port_str ≤ z'.host_port_str
  pub host_str : z.host_str ≤ z'.host_str
  pub hostname : z.hostname ≤ z'.hostname
  pub port : z.port ≤ z'.port
  pub uri : z.uri ≤ z'.uri

strcpy-Below : (n k : ℕ) (s : Bytes) → n ≤ k → Below (strcpy n s) (strcpy k s)
unfolding strcpy
strcpy-Below n k s e a h = ground arith

module _ {z z' : Sizes} (w : Within z z') where
  address-Below : (request : Bytes) → Below (address z request) (address z' request)
  unfolding address
  address-Below request =
      Below-bind _ _ _ _ (strcpy-Below z.temp_request z'.temp_request request w.temp_request)
        (λ temp. Below-bind _ _ _ _ (Below-refl (strtok space temp)) (λ first.
          Below-bind _ _ _ _ (strcpy-Below z.method z'.method first.text w.method)
            (λ method. Below-refl _)))

  host_and_port-Below :
      (host_port : Bytes) → Below (host_and_port z host_port) (host_and_port z' host_port)
  unfolding host_and_port
  host_and_port-Below host_port =
      Below-bind _ _ _ _ (strcpy-Below z.host_str z'.host_str host_port w.host_str) (λ host_str.
        elim (Option-cases (strstr (colon ∷ []) host_port)) [
          | inl q ↦ rw q (
              Below-bind _ _ _ _ (strcpy-Below z.hostname z'.hostname host_str w.hostname)
                (λ hostname.
                  Below-bind _ _ _ _ (strcpy-Below z.port z'.port (codes "80") w.port)
                    (λ port. Below-refl _)))
          | inr (s, q) ↦ rw q (
              Below-bind _ _ _ _
                (strcpy-Below z.hostname z'.hostname (cut colon host_str) w.hostname)
                (λ hostname. Below-bind _ _ _ _ (Below-refl (advance 1 s)) (λ behind.
                  Below-bind _ _ _ _ (strcpy-Below z.port z'.port behind w.port)
                    (λ port. Below-refl _))))
        ])

  uri_of-Below :
      (path host_port : Bytes) → Below (uri_of z path host_port) (uri_of z' path host_port)
  unfolding uri_of
  uri_of-Below path host_port = elim (Option-cases (strstr (slash ∷ []) path)) [
    | inl q ↦ rw (q, uri_of) (Below-refl _)
    | inr (s, q) ↦
        rw (q, uri_of)
          (Below-bind _ _ _ _ (Below-refl (advance (length host_port + 1) path)) (λ behind.
            Below-bind _ _ _ _ (strcpy-Below z.uri z'.uri behind w.uri) (λ uri. Below-refl _)))
  ]

  -- What the parser finds with small arrays it finds with larger ones.
  pub parts_of-Below : (request : Bytes) → Below (parts_of z request) (parts_of z' request)
  unfolding parts_of
  parts_of-Below request = Below-bind _ _ _ _ (address-Below request) (λ found.
      Below-bind _ _ _ _ (strcpy-Below z.host_port_str z'.host_port_str found.1 w.host_port_str)
        (λ whole. Below-bind _ _ _ _ (host_and_port-Below (cut slash whole)) (λ named.
          Below-bind _ _ _ _ (uri_of-Below found.1 (cut slash whole)) (λ uri. Below-refl _))))
