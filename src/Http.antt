-- ===== src/Http.antt =====
-- The request parser of hw6-concurrency/http_parser.c, which both proxies repeat with other buffer
-- sizes. A `none` is a read or write outside a string or a buffer, or through a null pointer.
pub mod Url
pub mod Arrays
mod Tests
use cs.Base.{
  ℕ, ◌+◌, Bool, true, false, List, [], ◌∷◌, Option, none, some, ltb, ◌==◌, if◌then◌else◌, ◌>>=◌,
  length,
}
use cs.CString.{Bytes, codes, space}
use cs.CString.Search.{strstr, strtok, cstr, advance}

abbrev pub slash : ℕ
slash = b'/'

abbrev pub colon : ℕ
colon = b':'

-- The sizes of the arrays that the parser copies to.
pub record Sizes : Type 0 where
  pub temp_request : ℕ
  pub method : ℕ
  pub host_port_str : ℕ
  pub host_str : ℕ
  pub hostname : ℕ
  pub port : ℕ
  pub uri : ℕ

-- Those of http_parser.c.
abbrev pub parser_sizes : Sizes
parser_sizes = record {
  temp_request = 500;
  method = 32;
  host_port_str = 500;
  host_str = 500;
  hostname = 512;
  port = 6;
  uri = 4096;
}

-- What the parser writes; `uri` is not written where the address has no slash.
pub record Parts : Type 0 where
  pub method : Bytes
  pub hostname : Bytes
  pub port : Bytes
  pub uri : Option Bytes

pub data Parsed : Type 0 where
  incomplete unsafe : Parsed
  complete : Parts → Parsed

abbrev pub end_of_headers : Bytes
end_of_headers = 13 ∷ 10 ∷ 13 ∷ 10 ∷ []

unfoldable pub is_complete_request : Bytes → Bool
is_complete_request request = elim (strstr end_of_headers request) [ none ↦ false | some _ ↦ true ]

-- `strcpy` to an array of `n` bytes.
unfoldable pub strcpy : ℕ → Bytes → Option Bytes
strcpy n s = if ltb (length s) n then some s else none

-- The method and the address behind `http://`.
unfoldable pub address : Sizes → Bytes → Option (Bytes × Bytes)
address z request = do
  temp ← strcpy z.temp_request request
  first ← strtok space temp
  method ← strcpy z.method first.text
  behind ← advance (length first.text + 1) first.buffer
  url ← advance 7 behind
  second ← strtok space (cstr url)
  some (method, second.text)

-- A string after `strtok(s, d)`.
unfoldable pub cut : ℕ → Bytes → Bytes
cut d s = elim (strtok d s) [ none ↦ s | some t ↦ cstr t.buffer ]

-- The host name and the port.
unfoldable pub host_and_port : Sizes → Bytes → Option (Bytes × Bytes)
host_and_port z host_port = do
  host_str ← strcpy z.host_str host_port
  elim (strstr (colon ∷ []) host_port) [
    | none ↦ do
      hostname ← strcpy z.hostname host_str
      port ← strcpy z.port (codes "80")
      some (hostname, port)
    | some port_str ↦ do
      hostname ← strcpy z.hostname (cut colon host_str)
      behind ← advance 1 port_str
      port ← strcpy z.port behind
      some (hostname, port)
  ]

-- What stands behind the first slash, if there is one.
unfoldable pub uri_of : Sizes → Bytes → Bytes → Option (Option Bytes)
uri_of z path host_port = elim (strstr (slash ∷ []) path) [
  | none ↦ some none
  | some _ ↦ do
    behind ← advance (length host_port + 1) path
    uri ← strcpy z.uri behind
    some (some uri)
]

unfoldable pub parts_of : Sizes → Bytes → Option Parts
parts_of z request = do
  found ← address z request
  whole ← strcpy z.host_port_str found.1
  let host_port = cut slash whole
  named ← host_and_port z host_port
  uri ← uri_of z found.1 host_port
  some (record { method = found.0; hostname = named.0; port = named.1; uri = uri })

unfoldable pub parse_request : Sizes → Bytes → Parsed
parse_request z request =
    if is_complete_request request
    then elim (parts_of z request) [ none ↦ unsafe | some p ↦ complete p ]
    else incomplete
