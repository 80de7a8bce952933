-- ===== src/Http/Url.antt =====
-- A request for an address is taken apart into its method, host, port and path.
use cs.Base.{
  ℕ, ◌+◌, ◌<◌, ◌≡◌, ◌≢◌, refl, true, List, [], ◌∷◌, ◌++◌, Option, none, some, arith, All-append,
  length, append-nil,
}
use cs.CString.{Bytes, codes, space, Lacks}
use cs.CString.Search.{
  strtok, cstr, advance, strtok-append, strtok-Lacks, cstr-zero, cstr-Lacks, strstr-byte,
  strstr-Lacks, advance-past,
}
use cs.Http.{
  slash, colon, Sizes, strcpy, address, cut, host_and_port, uri_of, parts_of, parse_request,
  complete, is_complete_request,
}

-- An address: a host, perhaps a port, and perhaps a path behind a slash.
pub record Url : Type 0 where
  pub host : Bytes
  pub port : Option Bytes
  pub path : Option Bytes

-- Something behind its separator, if it is there.
abbrev pub behind : ℕ → Option Bytes → Bytes
behind d none = []
behind d (some s) = d ∷ s

abbrev pub authority : Url → Bytes
authority u = u.host ++ behind colon u.port

abbrev pub url_text : Url → Bytes
url_text u = authority u ++ behind slash u.path

-- The request: the method, the address behind `http://`, and what follows.
abbrev pub request_text : Bytes → Url → Bytes → Bytes
request_text m u tail = m ++ space ∷ (codes "http://" ++ (url_text u ++ space ∷ tail))

abbrev pub port_or_80 : Option Bytes → Bytes
port_or_80 none = codes "80"
port_or_80 (some p) = p

-- No byte is a separator of the part, or zero.
abbrev pub IsToken : List ℕ → Bytes → Type 0
IsToken [] s = s ≢ []
IsToken (d ∷ ds) s = Lacks d s × IsToken ds s

abbrev pub Maybe : (Bytes → Type 0) → Option Bytes → Type 0
Maybe P none = Unit
Maybe P (some s) = P s

pub record IsUrl (u : Url) : Type 0 where
  pub host_ne : u.host ≢ []
  pub host_space : Lacks space u.host
  pub host_slash : Lacks slash u.host
  pub host_colon : Lacks colon u.host
  pub host_zero : Lacks 0 u.host
  pub port_space : Lacks space (behind colon u.port)
  pub port_slash : Lacks slash (behind colon u.port)
  pub port_zero : Lacks 0 (behind colon u.port)
  pub path_space : Lacks space (behind slash u.path)
  pub path_zero : Lacks 0 (behind slash u.path)

-- Each part fits its array.
pub record Fits (z : Sizes) (m : Bytes) (u : Url) (tail : Bytes) : Type 0 where
  pub request : length (request_text m u tail) < z.temp_request
  pub method : length m < z.method
  pub host_port : length (url_text u) < z.host_port_str
  pub host_str : length (authority u) < z.host_str
  pub hostname : length u.host < z.hostname
  pub port : length (port_or_80 u.port) < z.port
  pub uri : length (behind slash u.path) < z.uri + 1

strcpy_fits : (n : ℕ) (s : Bytes) → length s < n → strcpy n s ≡ some s
unfolding strcpy
strcpy_fits n s h = ground arith

strtok-token :
    (d : ℕ) (w r : Bytes)
    → w ≢ []
    → Lacks d w
    → strtok d (w ++ d ∷ r) ≡ some (record { start = 0; text = w; buffer = w ++ 0 ∷ r })
strtok-token d [] r n h = absurd (n refl)
strtok-token d (c ∷ w) r n h = strtok-append d c w r h

-- Cutting at the first separator, where there is one or none.
cut-behind :
    (d : ℕ) (w : Bytes) (o : Option Bytes)
    → w ≢ []
    → Lacks d w
    → Lacks 0 w
    → cut d (w ++ behind d o) ≡ w
unfolding cut
cut-behind d [] o n h z = absurd (n refl)
cut-behind d (c ∷ w) none n h z =
    rw (append-nil w, strtok-Lacks d c w h, cut) (cstr-Lacks (c ∷ w) z)
cut-behind d (c ∷ w) (some r) n h z = rw (strtok-append d c w r h, cut) (cstr-zero (c ∷ w) r z)

host_and_port-url :
    (z : Sizes) (h : Bytes) (o : Option Bytes)
    → h ≢ []
    → Lacks colon h
    → Lacks 0 h
    → length (h ++ behind colon o) < z.host_str
    → length h < z.hostname
    → length (port_or_80 o) < z.port
    → host_and_port z (h ++ behind colon o) ≡ some (h, port_or_80 o)
unfolding host_and_port advance
host_and_port-url z h none n c k a b d = rw (append-nil h) (
    ground (
      arith,
      strcpy_fits z.host_str h (rw (append-nil h) at a),
      strcpy_fits z.hostname h b,
      strcpy_fits z.port (codes "80") d,
      strstr-Lacks colon h c,
    ))
host_and_port-url z h (some p) n c k a b d = ground (
  arith,
  strcpy_fits z.host_str (h ++ colon ∷ p) a,
  strcpy_fits z.hostname h b,
  strcpy_fits z.port p d,
  strstr-byte colon h p c,
  cut-behind colon h (some p) n c k,
)

cstr-tail :
    (r tail : Bytes) → Lacks 0 r → Lacks 0 tail → cstr (r ++ space ∷ tail) ≡ r ++ space ∷ tail
cstr-tail r tail h k =
    cstr-Lacks (r ++ space ∷ tail) (All-append (λ d. d ≢ 0) r (space ∷ tail) h (ground arith, k))

advance-http : (s : Bytes) → advance 7 (codes "http://" ++ s) ≡ some s
unfolding advance
advance-http s = refl

-- The method and the text between `http://` and the next space.
address-url :
    (z : Sizes) (m r tail : Bytes)
    → IsToken (0 ∷ space ∷ []) m
    → IsToken (0 ∷ space ∷ []) r
    → Lacks 0 tail
    → length (m ++ space ∷ (codes "http://" ++ (r ++ space ∷ tail))) < z.temp_request
    → length m < z.method
    → address z (m ++ space ∷ (codes "http://" ++ (r ++ space ∷ tail))) ≡ some (m, r)
unfolding address
address-url z m r tail (mz, (ms, mn)) (rz, (rs, rn)) tz f g =
    let rest : Bytes = codes "http://" ++ (r ++ space ∷ tail) in
    rw
      (
        strcpy_fits z.temp_request (m ++ space ∷ rest) f,
        strtok-token space m rest mn ms,
        strcpy_fits z.method m g,
        advance-past m 0 rest,
        advance-http (r ++ space ∷ tail),
        cstr-tail r tail rz tz,
        strtok-token space r tail rn rs,
        address,
      )
      refl

uri-url :
    (z : Sizes) (a : Bytes) (o : Option Bytes)
    → Lacks slash a
    → length (behind slash o) < z.uri + 1
    → uri_of z (a ++ behind slash o) a ≡ some o
unfolding uri_of
uri-url z a none h f = rw (append-nil a, strstr-Lacks slash a h, uri_of) refl
uri-url z a (some p) h f =
    rw (strstr-byte slash a p h, advance-past a slash p, strcpy_fits z.uri p (omega arith), uri_of)
      refl

Lacks-authority :
    (d : ℕ) (u : Url) → Lacks d u.host → Lacks d (behind colon u.port) → Lacks d (authority u)
Lacks-authority d u h p = All-append (λ c. c ≢ d) u.host (behind colon u.port) h p

Lacks-url :
    (d : ℕ) (u : Url) → Lacks d (authority u) → Lacks d (behind slash u.path) → Lacks d (url_text u)
Lacks-url d u h p = All-append (λ c. c ≢ d) (authority u) (behind slash u.path) h p

append-ne_nil : (a b : Bytes) → a ≢ [] → a ++ b ≢ []
append-ne_nil [] b h = absurd (h refl)
append-ne_nil (c ∷ a) b h = ground arith

pub parts_of-url :
    (z : Sizes) (m : Bytes) (u : Url) (tail : Bytes)
    → IsUrl u
    → IsToken (0 ∷ space ∷ []) m
    → Lacks 0 tail
    → Fits z m u tail
    → parts_of z (request_text m u tail)
      ≡ some (record { method = m; hostname = u.host; port = port_or_80 u.port; uri = u.path })
unfolding parts_of
parts_of-url z m u tail v t tz f =
    let a_zero = Lacks-authority 0 u v.host_zero v.port_zero in
    let a_space = Lacks-authority space u v.host_space v.port_space in
    let a_slash = Lacks-authority slash u v.host_slash v.port_slash in
    let an = append-ne_nil u.host (behind colon u.port) v.host_ne in
    let un = append-ne_nil (authority u) (behind slash u.path) an in
    rw
      (
        address-url z m (url_text u) tail t
            (Lacks-url 0 u a_zero v.path_zero, (Lacks-url space u a_space v.path_space, un)) tz
            f.request f.method,
        strcpy_fits z.host_port_str (url_text u) f.host_port,
        cut-behind slash (authority u) u.path an a_slash a_zero,
        host_and_port-url z u.host u.port v.host_ne v.host_colon v.host_zero f.host_str f.hostname
            f.port,
        uri-url z (authority u) u.path a_slash f.uri,
        parts_of,
      )
      refl

-- A complete request whose address is a host, perhaps a port and perhaps a path, each without the
-- separators of the parts before it and each fitting its array, is taken apart into exactly its
-- method, its host, its port or else "80", and its path; without a slash no path is written.
pub parse_request-url :
    (z : Sizes) (m : Bytes) (u : Url) (tail : Bytes)
    → IsUrl u
    → IsToken (0 ∷ space ∷ []) m
    → Lacks 0 tail
    → Fits z m u tail
    → is_complete_request (request_text m u tail) ≡ true
    → parse_request z (request_text m u tail)
      ≡ complete (record { method = m; hostname = u.host; port = port_or_80 u.port; uri = u.path })
unfolding parse_request
parse_request-url z m u tail v t tz f c =
    rw (c, parse_request) (rw (parts_of-url z m u tail v t tz f, parse_request) refl)
