-- ===== src/Proxy/Request.antt =====
-- `reformat_client_request`: the client's request, taken apart and written anew.
use cs.Base.{ℕ, ◌+◌, Option, none, some, List, [], ◌∷◌, ◌++◌, ltb, if◌then◌else◌, ◌>>=◌, length}
use cs.CString.{Bytes, codes}
use cs.CString.Search.{cstr}
use cs.Http.{Sizes, parts_of, is_complete_request}
use cs.Proxy.{Conn, max_object_size, max_host_size, max_port_size}

abbrev pub proxy_sizes : Sizes
proxy_sizes = record {
  temp_request = max_object_size;
  method = 32;
  host_port_str = max_host_size + max_port_size;
  host_str = max_host_size;
  hostname = max_host_size;
  port = max_port_size;
  uri = 4096;
}

abbrev pub eol : Bytes
eol = 13 ∷ 10 ∷ []

abbrev pub user_agent_hdr : Bytes
user_agent_hdr =
    codes "User-Agent: Mozilla/5.0 (X11; Linux x86_64; rv:10.0.3) Gecko/20120305 Firefox/10.0.3"
    ++ eol

abbrev pub conn_hdr : Bytes
conn_hdr = codes "Connection: close" ++ eol

abbrev pub proxy_conn_hdr : Bytes
proxy_conn_hdr = codes "Proxy-Connection: close" ++ eol

-- `strcat` to an array of `n` bytes, for each piece in turn.
unfoldable pub strcat_all : ℕ → Bytes → List Bytes → Option Bytes
strcat_all n s [] = some s
strcat_all n s (t ∷ ts) = if ltb (length s + length t) n then strcat_all n (s ++ t) ts else none

abbrev pub pieces : Bytes → Bytes → Bytes → Bytes → List Bytes
pieces method uri host port =
    method
    ∷ codes " /"
    ∷ uri
    ∷ codes " HTTP/1.0"
    ∷ eol
    ∷ codes "Host: "
    ∷ host
    ∷ codes ":"
    ∷ port
    ∷ eol
    ∷ user_agent_hdr
    ∷ conn_hdr
    ∷ proxy_conn_hdr
    ∷ eol
    ∷ []

-- The string in `uri` is only there if the address had a slash: the array is fresh from `malloc`.
unfoldable pub reformat_client_request : Conn → Option Conn
reformat_client_request c =
    if is_complete_request (cstr c.client_request)
    then (do
      p ← parts_of proxy_sizes (cstr c.client_request)
      uri ← p.uri
      s ← strcat_all max_object_size c.server_request (pieces p.method uri p.hostname p.port)
      some (record c {
        host = p.hostname;
        port = p.port;
        server_request = s;
        bytes_to_write_server = length s;
      }))
    else some c
