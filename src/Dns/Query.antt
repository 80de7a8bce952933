-- ===== src/Dns/Query.antt =====
-- The whole query, and the canonical name.
use cs.Base.{ℕ, ◌≡◌, ◌≢◌, refl, false, List, [], ◌∷◌, ◌++◌, map, some, if◌then◌else◌, arith}
use cs.CString.{Bytes, str_eq}
use cs.Dns.{dot, header_bytes, tokens, lower, drop_dot, canonicalize_name}
use cs.Dns.Names.{name_bytes}

-- A query as the protocol has it: the header, one name, the type A and the class IN.
abbrev pub query_bytes : ℕ → Bytes → Bytes
query_bytes id qname = header_bytes id ++ (name_bytes (tokens dot qname) ++ (0 ∷ 1 ∷ 0 ∷ 1 ∷ []))

abbrev pub labels_query : ℕ → List Bytes → Bytes
labels_query id ls = header_bytes id ++ (name_bytes ls ++ (0 ∷ 1 ∷ 0 ∷ 1 ∷ []))

drop_dot-dot : (s : Bytes) → drop_dot (s ++ dot ∷ []) ≡ some s
unfolding drop_dot
drop_dot-dot [] = refl
drop_dot-dot (c ∷ []) = refl
drop_dot-dot (c ∷ (d ∷ s)) = rw (drop_dot-dot (d ∷ s), drop_dot) refl

str_eq-dot : (s : Bytes) → s ≢ [] → str_eq (s ++ dot ∷ []) (dot ∷ []) ≡ false
unfolding str_eq
str_eq-dot [] n = absurd (n refl)
str_eq-dot (c ∷ []) n = ground arith
str_eq-dot (c ∷ (d ∷ s)) n = ground arith

-- A name that ends in a dot gives, except for the name of the root, the same as the name without it in lower case.
pub canonicalize_name-dot :
    (s : Bytes) → s ≢ [] → canonicalize_name (s ++ dot ∷ []) ≡ some (map lower s)
unfolding canonicalize_name
canonicalize_name-dot s n = rw (str_eq-dot s n, if◌then◌else◌, drop_dot-dot s) refl
