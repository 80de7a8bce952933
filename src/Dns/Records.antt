-- ===== src/Dns/Records.antt =====
-- `rr_from_wire` and `get_answer_address`: the records of an answer. `none` is a read or write
-- outside an array, or of bytes that were never written.
use Prim.Native.Nat.{bit_or}
use cs.Base.{
  ℕ, zero, suc, ◌+◌, ◌/◌, ◌%◌, [], ◌∷◌, ◌++◌, Option, none, some, ◌==◌, leb, ltb, if◌then◌else◌,
  ◌>>=◌, length, take, drop, get_elem?,
}
use cs.CString.{Bytes, strchr}
use cs.Http.{strcpy}
use cs.Dns.{dot, max_size}
use cs.Dns.Alias.{Grab, grab_cnames, printed, onward, outside, newline}

pub record Rr : Type 0 where
  pub name : Bytes
  pub rr_type : ℕ
  pub class : ℕ
  pub ttl : ℕ
  pub rdata_len : ℕ
  pub rdata : Bytes

-- `name_ascii_from_wire`: the bytes up to a zero, in an array fresh from `malloc`, which held `fresh`
-- before; the string goes on to the first zero of the array.
unfoldable pub name_ascii_from_wire : Bytes → Bytes → ℕ → Option Bytes
name_ascii_from_wire fresh wire indexp = do
  found ← strchr 0 (drop indexp wire)
  string ← strchr 0 (found.0 ++ drop (length found.0) fresh)
  some string.0

-- `indexp[0] | indexp[1]`
unfoldable pub two_bytes : Bytes → ℕ → Option ℕ
two_bytes wire k = do a ← get_elem? wire k; b ← get_elem? wire (k + 1); some (bit_or a b)

unfoldable pub four_bytes : Bytes → ℕ → Option ℕ
four_bytes wire k = do a ← two_bytes wire k; b ← two_bytes wire (k + 2); some (bit_or a b)

-- `memcpy(data, indexp, len)` into an array of `max_size` bytes.
unfoldable pub slice : Bytes → ℕ → ℕ → Option Bytes
slice wire k len =
    if leb (k + len) (length wire)
    then (if leb len max_size then some (take len (drop k wire)) else none)
    else none

unfoldable pub rr_from_wire : Bytes → Bytes → ℕ → Option Rr
rr_from_wire fresh wire indexp = do
  name ← name_ascii_from_wire fresh wire indexp
  let k = indexp + length name
  rr_type ← two_bytes wire k
  class ← two_bytes wire (k + 2)
  ttl ← four_bytes wire (k + 4)
  rdata_len ← two_bytes wire (k + 8)
  rdata ← slice wire (k + 10) rdata_len
  some (record {
    name = name;
    rr_type = rr_type;
    class = class;
    ttl = ttl;
    rdata_len = rdata_len;
    rdata = rdata;
  })

abbrev pub record_len : Rr → ℕ
record_len r = length r.name + 10 + r.rdata_len

-- `%d` of a byte.
unfoldable pub decimal : ℕ → Bytes
decimal n =
    if ltb n 10
    then (b'0' + n) ∷ []
    else if ltb n 100
    then (b'0' + n / 10) ∷ ((b'0' + n % 10) ∷ [])
    else (b'0' + n / 100) ∷ ((b'0' + n / 10 % 10) ∷ ((b'0' + n % 10) ∷ []))

-- The address in `char ipAddress[rdata_len]`, which has a zero behind it.
unfoldable pub ip_address : Rr → Option Bytes
ip_address r = do
  a ← get_elem? r.rdata 0
  b ← get_elem? r.rdata 1
  c ← get_elem? r.rdata 2
  d ← get_elem? r.rdata 3
  strcpy r.rdata_len (decimal a ++ (dot ∷ (decimal b ++ (dot ∷ (decimal c ++ (dot ∷ decimal d))))))

-- The line that one record prints; no line where the walk stops. `fuel` bounds the walk of an alias.
pub data Line : Type 0 where
  line : Bytes → Line
  stop unsafe : Line

of_ip : Option Bytes → Line
of_ip none = unsafe
of_ip (some s) = line (s ++ newline ∷ [])

of_alias : Grab → Line
of_alias (printed s) = line s
of_alias (onward c) = unsafe
of_alias outside = unsafe

unfoldable pub answer_line : ℕ → Bytes → ℕ → Rr → Line
unfolding of_ip of_alias
answer_line fuel wire indexp r =
    if r.rr_type == 1
    then of_ip (ip_address r)
    else if r.rr_type == 5
    then of_alias (grab_cnames fuel wire (indexp + record_len r))
    else stop

-- `n` records from `indexp` on: what is printed.
unfoldable pub answers : ℕ → Bytes → Bytes → ℕ → ℕ → Rr → Option Bytes
answers fuel fresh wire zero indexp r = some []
answers fuel fresh wire (suc n) indexp r = elim (answer_line fuel wire indexp r) [
  | unsafe ↦ none
  | stop ↦ some []
  | line s ↦ do
    next ← rr_from_wire fresh wire (indexp + record_len r)
    rest ← answers fuel fresh wire n (indexp + record_len r) next
    some (s ++ rest)
]

-- The number of records is read at an index that is never set: `index` is what it happens to hold.
unfoldable pub get_answer_address : ℕ → ℕ → Bytes → Bytes → ℕ → Option Bytes
get_answer_address fuel index fresh wire indexp = do
  r ← rr_from_wire fresh wire indexp
  n ← two_bytes wire index
  answers fuel fresh wire n indexp r
