-- ===== src/Dns/Tests.antt =====
-- Runs of the resolver.
use cs.Base.{◌≡◌, refl, List, [], ◌∷◌, ◌++◌, none, some, arith, replicate}
use cs.Base.{false}
use cs.Proxy.{refused, connected}
use cs.Dns.Resolve.{Surroundings}
use cs.CString.{Bytes, codes, strchr}
use cs.Dns.{canonicalize_name}
use cs.Dns.Names.{name_bytes}
use cs.Dns.Query.{canonicalize_name-dot}
use cs.Dns.Alias.{
  grab_cnames, printed, onward, cursor, grab_cnames-name, grab_cnames_loops, newline,
}
use cs.Dns.Records.{
  Rr, rr_from_wire, name_ascii_from_wire, two_bytes, four_bytes, slice, get_answer_address,
}
use cs.Dns.Addresses.{get_answer_address_overflow}

abbrev labels : List Bytes
labels = codes "byu" ∷ codes "edu" ∷ []

abbrev wire : Bytes
wire = replicate 40 7

canonicalize_name-dot_example : canonicalize_name (codes "BYU.Edu.") ≡ some (codes "byu.edu")
canonicalize_name-dot_example = canonicalize_name-dot (codes "BYU.Edu") (ground arith)

grab_cnames-name_example :
    grab_cnames 9 (name_bytes labels) 0 ≡ printed (codes "byu.edu" ++ newline ∷ [])
grab_cnames-name_example =
    grab_cnames-name (codes "byu") (codes "edu" ∷ []) (name_bytes labels) 0 0 (omega arith)
      (refl, (refl, (refl, (refl, (refl, (refl, (refl, (refl, (refl, tt)))))))))

grab_cnames_loops_example : grab_cnames 7 (5 ∷ 192 ∷ 1 ∷ []) 1 ≡ onward (cursor 1 false [])
grab_cnames_loops_example = grab_cnames_loops (5 ∷ 192 ∷ 1 ∷ []) 1 192 7 refl (omega arith) refl

-- A pointer, the type A, the class IN, a time, four bytes of data, and a byte behind.
abbrev reply : Bytes
reply = 192 ∷ 12 ∷ 0 ∷ 1 ∷ 0 ∷ 1 ∷ 0 ∷ 0 ∷ 1 ∷ 44 ∷ 0 ∷ 4 ∷ 93 ∷ 184 ∷ 216 ∷ 34 ∷ 0 ∷ []

abbrev reply_record : Rr
reply_record = record {
  name = 192 ∷ 12 ∷ [];
  rr_type = 1;
  class = 1;
  ttl = 45;
  rdata_len = 4;
  rdata = 93 ∷ 184 ∷ 216 ∷ 34 ∷ [];
}

reply_first : rr_from_wire (replicate 8 0) reply 0 ≡ some reply_record
unfolding rr_from_wire name_ascii_from_wire two_bytes four_bytes slice strchr
reply_first = refl

reply_count : two_bytes reply 2 ≡ some 1
unfolding two_bytes
reply_count = refl

get_answer_address_overflow_example : get_answer_address 9 2 (replicate 8 0) reply 0 ≡ none
get_answer_address_overflow_example =
    get_answer_address_overflow 9 2 0 (replicate 8 0) reply 0 reply_record reply_first reply_count
      refl (omega arith)

abbrev around : Surroundings
around = record {
  id = 513;
  attempts = refused 5 ∷ connected 6 ∷ [];
  received = [];
  fresh_request = wire;
  fresh_buf = replicate 300 0;
  fresh_name = replicate 8 0;
  index = 40;
  fuel = 9;
}
