-- ===== src/Echo.antt =====
-- The programs of hw5-sockets: client.c sends its input to server.c, which sends it back.
pub mod RoundTrip
mod Tests
use cs.Base.{
  ℕ, zero, suc, ◌+◌, ◌-◌, ◌%◌, ◌^◌, List, [], ◌∷◌, ◌++◌, Option, none, some, ltb, ◌==◌,
  if◌then◌else◌, length, take, drop, replicate,
}
use cs.CString.{Bytes}
use cs.CString.Search.{cstr}

-- BUF_SIZE of the server, and the number of bytes that the client reads at most.
abbrev pub buf_size : ℕ
buf_size = 500

abbrev pub read_size : ℕ
read_size = 4096

-- Bytes that are stored at the start of an array.
abbrev pub overlay : Bytes → Bytes → Bytes
overlay bs buf = bs ++ drop (length bs) buf

-- The loop of fread over what the calls give: the number of bytes read and the array.
unfoldable pub read_input : List Bytes → ℕ → Bytes → ℕ × Bytes
read_input [] nread buf = (nread, buf)
read_input (bs ∷ rest) nread buf =
    let got = take read_size bs in
    let more = read_input rest (nread + length got) (overlay got buf) in
    if length got == 0 then (nread, buf) else more

-- A loop that waits for its next result, or its end, with the bytes sent.
pub data Sent : Type 0 where
  waits ends : Bytes → Sent

-- The loop of write; the counter is a size_t, to which -1 is added where a call fails.
unfoldable pub write_all : List (Option ℕ) → ℕ → ℕ → Bytes → Bytes → Sent
write_all [] len nread buf out = if ltb len nread then waits out else ends out
write_all (none ∷ rs) len nread buf out =
    let more = write_all rs ((len + (2 ^ 64 - 1)) % 2 ^ 64) nread buf out in
    if ltb len nread then more else ends out
write_all (some k ∷ rs) len nread buf out =
    let more = write_all rs ((len + k) % 2 ^ 64) nread buf (out ++ take k (take nread buf)) in
    if ltb len nread then more else ends out

-- The loop of read in the client: what is printed of each answer ends at its first zero; the array is
-- cleared behind it.
unfoldable pub print_back : List Bytes → Bytes → Bytes
print_back [] out_buf = []
print_back (bs ∷ rest) out_buf =
    let got = take read_size bs in
    let more = print_back rest (replicate (length out_buf) 0) in
    if length got == 0 then [] else cstr (overlay got out_buf) ++ more

-- What recv gives in the server: a failure, the end, or bytes and the result of the send behind them.
pub data Recv : Type 0 where
  fails closes : Recv
  gets : Bytes → Option ℕ → Recv

abbrev pub sent_of : Option ℕ → Bytes → Bytes
sent_of none bs = []
sent_of (some k) bs = take k bs

-- The loop of the server.
unfoldable pub serve : List Recv → Bytes → Sent
serve [] out = waits out
serve (fails ∷ rs) out = serve rs out
serve (closes ∷ rs) out = ends out
serve (gets bs sent ∷ rs) out =
    let got = take buf_size bs in
    let more = serve rs (out ++ sent_of sent got) in if length got == 0 then ends out else more
