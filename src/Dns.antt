-- ===== src/Dns.antt =====
-- The resolver of dns-lab/resolver.c: the name in the query and the query itself. A `none` is a read
-- or write outside an array or a string.
pub mod Names
pub mod Query
pub mod Alias
pub mod Records
pub mod Addresses
pub mod Resolve
pub mod Asks
mod Tests
use cs.Base.{
  ℕ, zero, suc, ◌+◌, ◌-◌, ◌/◌, ◌%◌, Bool, true, false, List, [], ◌∷◌, ◌++◌, map, Option, none, some,
  ◌==◌, leb, ltb, ◌&&◌, if◌then◌else◌, ◌>>=◌, length, take, drop, get_elem?, set,
}
use cs.CString.{Bytes, str_eq}
use cs.Http.{strcpy}

abbrev pub dot : ℕ
dot = b'.'

abbrev pub max_size : ℕ
max_size = 300

abbrev pub num_header_bytes : ℕ
num_header_bytes = 12

abbrev pub lower : ℕ → ℕ
lower c = if leb b'A' c && leb c b'Z' then c + 32 else c

-- Without one trailing dot; there is no last byte in an empty name.
unfoldable pub drop_dot : Bytes → Option Bytes
drop_dot [] = none
drop_dot (c ∷ []) = if c == dot then some [] else some (c ∷ [])
drop_dot (c ∷ (d ∷ s)) = elim (drop_dot (d ∷ s)) [ none ↦ none | some r ↦ some (c ∷ r) ]

unfoldable pub canonicalize_name : Bytes → Option Bytes
canonicalize_name name =
    if str_eq name (dot ∷ []) then some name else (do name ← drop_dot name; some (map lower name))

-- The text between dots, in front and behind too.
unfoldable pub fields : ℕ → Bytes → List Bytes
fields d [] = [] ∷ []
fields d (c ∷ s) = elim (fields d s) [
  | [] ↦ []
  | w ∷ ws ↦ if c == d then [] ∷ (w ∷ ws) else (c ∷ w) ∷ ws
]

unfoldable pub non_empty : List Bytes → List Bytes
non_empty [] = []
non_empty ([] ∷ ws) = non_empty ws
non_empty ((c ∷ w) ∷ ws) = (c ∷ w) ∷ non_empty ws

-- What `strtok(s, d)` and then `strtok(NULL, d)` give until one is null.
unfoldable pub tokens : ℕ → Bytes → List Bytes
tokens d s = non_empty (fields d s)

-- `wire[offset] = b; offset++`
unfoldable pub put : ℕ → Bytes × ℕ → Option (Bytes × ℕ)
put b (wire, offset) =
    if ltb offset (length wire) then some (set wire offset b, offset + 1) else none

unfoldable pub put_all : Bytes → Bytes × ℕ → Option (Bytes × ℕ)
put_all [] here = some here
put_all (b ∷ bs) here = do next ← put b here; put_all bs next

-- A length, which an `unsigned char` holds, and the label behind it.
unfoldable pub put_label : Bytes → Bytes × ℕ → Option (Bytes × ℕ)
put_label label here = do next ← put (length label % 256) here; put_all label next

unfoldable pub put_labels : List Bytes → Bytes × ℕ → Option (Bytes × ℕ)
put_labels [] here = some here
put_labels (label ∷ labels) here = do next ← put_label label here; put_labels labels next

-- The wire with the name in it, and the length of the name there.
unfoldable pub name_ascii_to_wire : Bytes → Bytes → Option (Bytes × ℕ)
name_ascii_to_wire name wire = do
  temp ← strcpy max_size name
  labelled ← put_labels (tokens dot temp) (wire, num_header_bytes)
  done ← put 0 labelled
  some (done.0, done.1 - num_header_bytes)

-- `memcpy(&wire[offset], bs, sizeof(bs))`
unfoldable pub memcpy : ℕ → Bytes → Bytes → Option Bytes
memcpy offset bs wire = elim (put_all bs (wire, offset)) [ none ↦ none | some r ↦ some r.0 ]

-- The bytes of the header: the random id, the flags 0100, one question, and no records.
unfoldable pub header_bytes : ℕ → Bytes
header_bytes id = id / 256 % 256 ∷ (id % 256 ∷ (1 ∷ 0 ∷ 0 ∷ 1 ∷ 0 ∷ 0 ∷ 0 ∷ 0 ∷ 0 ∷ 0 ∷ []))

-- The query for `qname` in a wire, and its length; `id` is the random number.
unfoldable pub create_dns_query : ℕ → Bytes → Bytes → Option (Bytes × ℕ)
create_dns_query id qname wire = do
  headed ← memcpy 0 (header_bytes id) wire
  named ← name_ascii_to_wire qname headed
  let offset = num_header_bytes + named.1
  typed ← memcpy offset (0 ∷ 1 ∷ []) named.0
  classed ← memcpy (offset + 2) (0 ∷ 1 ∷ []) typed
  some (classed, offset + 4)
