-- ===== src/Dns/Resolve.antt =====
-- `send_recv_message` and `resolve`: the query is sent to the first address of the server that can be
-- connected, and the answer behind the query is printed.
use cs.Base.{ℕ, List, [], ◌∷◌, ◌++◌, Option, none, some, length, take, drop}
use cs.CString.{Bytes}
use cs.Proxy.{Attempt, no_socket, refused, connected}
use cs.Dns.{max_size, canonicalize_name, create_dns_query}
use cs.Dns.Records.{get_answer_address}

-- What the system and the memory give to one resolution: the random id; the addresses of the server;
-- the bytes that `recv` delivers; the bytes that the arrays of `malloc` and of the stack held; and the
-- value of the index that is never set. `fuel` bounds the walk of an alias.
pub record Surroundings : Type 0 where
  pub id : ℕ
  pub attempts : List Attempt
  pub received : Bytes
  pub fresh_request : Bytes
  pub fresh_buf : Bytes
  pub fresh_name : Bytes
  pub index : ℕ
  pub fuel : ℕ

-- The first address for which `socket` and `connect` succeed.
unfoldable pub first_connected : List Attempt → Option ℕ
first_connected [] = none
first_connected (no_socket ∷ l) = first_connected l
first_connected (refused fd ∷ l) = first_connected l
first_connected (connected fd ∷ l) = some fd

-- What was sent on which socket, and the response in its array of `max_size` bytes; none where no
-- address can be connected, which ends the program.
unfoldable pub send_recv_message : Surroundings → Bytes → ℕ → Option (ℕ × (Bytes × Bytes))
send_recv_message r request requestlen = elim (first_connected r.attempts) [
  | none ↦ none
  | some sfd ↦
      let got = take max_size r.received in
      some (sfd, (take requestlen request, take max_size (got ++ drop (length got) r.fresh_buf)))
]

-- How a resolution ends: with the program, outside an array before anything is sent, or with what was
-- sent on a socket and what is printed, where the answer is read within its arrays.
pub data Resolved : Type 0 where
  exits unsafe : Resolved
  asked : ℕ → Bytes → Option Bytes → Resolved

abbrev pub of_reply : Surroundings → ℕ → Option (ℕ × (Bytes × Bytes)) → Resolved
of_reply r requestlen none = exits
of_reply r requestlen (some (sfd, (sent, response))) =
    asked sfd sent (get_answer_address r.fuel r.index r.fresh_name response requestlen)

abbrev pub of_query : Surroundings → Option (Bytes × ℕ) → Resolved
of_query r none = unsafe
of_query r (some (wire, len)) = of_reply r len (send_recv_message r wire len)

abbrev pub of_name : Surroundings → Option Bytes → Resolved
of_name r none = unsafe
of_name r (some name) = of_query r (create_dns_query r.id name r.fresh_request)

unfoldable pub resolve : Surroundings → Bytes → Resolved
resolve r qname = of_name r (canonicalize_name qname)
