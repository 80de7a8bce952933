-- ===== src/Threaded.antt =====
-- The proxy with threads of proxy-lab1/proxylab1-handout/proxy.c: what one thread does for one
-- client. `Read` and `Write` end the program at an error.
pub mod Relay
pub mod Agrees
pub mod Sbuf
pub mod Server
mod Tests
use cs.Base.{
  ℕ, zero, suc, ◌+◌, ◌-◌, min, Bool, true, false, List, [], ◌∷◌, ◌++◌, Option, none, some, ◌==◌,
  leb, if◌then◌else◌, ◌>>=◌, length, take, drop,
}
use cs.CString.{Bytes}
use cs.CString.Search.{cstr}
use cs.Http.{Sizes, Parts, parts_of, is_complete_request}
use cs.Proxy.{Read, arrived, Attempt, Action, max_object_size}
use cs.Proxy.Request.{strcat_all, pieces}
use cs.Proxy.Handlers.{connect_to_server}

abbrev pub http_request_max_size : ℕ
http_request_max_size = 4096

abbrev pub thread_sizes : Sizes
thread_sizes = record {
  temp_request = 500;
  method = 32;
  host_port_str = 512 + 6;
  host_str = 512;
  hostname = 512;
  port = 6;
  uri = 4096;
}

-- How a step ends: with a value, still waiting for a call to return, with the program, or outside an
-- array or through a null pointer.
pub data Result (A : Type 0) : Type 0 where
  ok : A → Result A
  waiting exits unsafe : Result A

abbrev pub bind : {A B : Type 0} → Result A → (A → Result B) → Result B
bind (ok a) f = f a
bind waiting f = waiting
bind exits f = exits
bind unsafe f = unsafe

abbrev pub or_unsafe : {A : Type 0} → Option A → Result A
or_unsafe none = unsafe
or_unsafe (some a) = ok a

-- The string in an array that held `fresh` and to which `buf` was written.
abbrev pub string_in : Bytes → Bytes → Bytes
string_in fresh buf = cstr (buf ++ drop (length buf) fresh)

-- The loop of `get_client_request`; each call may read a whole array's length, wherever it stands.
unfoldable pub client_loop : Bytes → List Read → Bytes → Result Bytes
client_loop fresh [] buf = waiting
client_loop fresh (Read.blocked ∷ rs) buf = exits
client_loop fresh (Read.failed ∷ rs) buf = exits
client_loop fresh (arrived bs ∷ rs) buf =
    let got = take max_object_size bs in
    let rest = client_loop fresh rs (buf ++ got) in
    if length got == 0
    then ok (string_in fresh buf)
    else if leb (length (buf ++ got)) max_object_size
    then (if is_complete_request (string_in fresh (buf ++ got))
        then ok (string_in fresh (buf ++ got))
        else rest)
    else unsafe

unfoldable pub get_client_request : Bytes → List Read → Result Bytes
get_client_request fresh rs = client_loop fresh rs []

-- The host, the port and the new request; `fresh` is the string that its array holds before.
unfoldable pub reformat_request : Bytes → Bytes → Option (Bytes × (Bytes × Bytes))
reformat_request fresh request =
    if is_complete_request request
    then (do
      p ← parts_of thread_sizes request
      uri ← p.uri
      s ← strcat_all http_request_max_size fresh (pieces p.method uri p.hostname p.port)
      some (p.hostname, (p.port, s)))
    else none

-- `while (chars_left > 0)`: what the calls of `Write`, of which each takes a number of bytes, send.
unfoldable pub write_all : List ℕ → Bytes → Result Bytes
write_all ws [] = ok []
write_all [] (c ∷ s) = waiting
write_all (n ∷ ws) (c ∷ s) =
    let k = min n (length (c ∷ s)) in
    bind (write_all ws (drop k (c ∷ s))) (λ rest. ok (take k (c ∷ s) ++ rest))

-- The loop of `receive_server_response`.
unfoldable pub response_loop : List Read → Bytes → Result Bytes
response_loop [] buf = waiting
response_loop (Read.blocked ∷ rs) buf = exits
response_loop (Read.failed ∷ rs) buf = exits
response_loop (arrived bs ∷ rs) buf =
    let got = take max_object_size bs in
    let rest = response_loop rs (buf ++ got) in
    if length got == 0
    then ok buf
    else if leb (length (buf ++ got)) max_object_size
    then rest
    else unsafe

unfoldable pub receive_server_response : List Read → Result Bytes
receive_server_response rs = response_loop rs []

-- What the system calls report, and what the two arrays of `malloc` hold.
pub record Calls : Type 0 where
  pub fresh_request : Bytes
  pub fresh_server : Bytes
  pub client_reads : List Read
  pub attempts : List Attempt
  pub server_writes : List ℕ
  pub server_reads : List Read
  pub client_writes : List ℕ

unfoldable pub connected_or_exit : Option ℕ → Result ℕ
connected_or_exit none = exits
connected_or_exit (some fd) = ok fd

-- What one client gets done: the server's socket, the bytes sent there, and those sent back.
unfoldable pub act_as_server_and_client : Calls → Result (ℕ × (Bytes × Bytes))
act_as_server_and_client r = bind (get_client_request r.fresh_request r.client_reads) (λ request.
    bind (or_unsafe (reformat_request r.fresh_server request)) (λ new.
      bind (connected_or_exit (connect_to_server r.attempts).1) (λ sfd.
        bind (write_all r.server_writes new.1.1) (λ out.
          bind (receive_server_response r.server_reads)
            (λ answer. bind (write_all r.client_writes answer) (λ back. ok (sfd, (out, back))))))))
