-- ===== src/Dns/Asks.antt =====
-- What the resolver sends for a name.
use cs.Base.{List, ◌∷◌, ◌++◌, map, length, take, drop}
use cs.CString.{Bytes}
use cs.Dns.{max_size, lower}
use cs.Dns.Resolve.{Surroundings}

abbrev pub lowered : Bytes → List Bytes → List Bytes
lowered l ls = map lower l ∷ map (map lower) ls

-- The array with the response.
abbrev pub response : Surroundings → Bytes
response r =
    let got = take max_size r.received in take max_size (got ++ drop (length got) r.fresh_buf)
