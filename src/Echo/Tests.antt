-- ===== src/Echo/Tests.antt =====
-- Runs of the programs of hw5-sockets.
use cs.Base.{◌≡◌, refl, List, [], ◌∷◌, ◌++◌, map, some, length, replicate, arith}
use cs.CString.{Bytes, codes}
use cs.Echo.{read_input, write_all, print_back, serve, ends, gets, closes}
use cs.Echo.RoundTrip.{print_back-file, read_input-twice}

abbrev hello : Bytes
hello = codes "hello"

abbrev two_pieces : List Bytes
two_pieces = codes "he" ∷ codes "llo" ∷ []

print_back-file_example :
    (let (nread, buf) = read_input (hello ∷ []) 0 (7 ∷ []) in
      write_all (some 5 ∷ []) 0 nread buf [] ≡ ends hello)
    × (serve (map (λ (p : Bytes). gets p (some (length p))) two_pieces ++ closes ∷ []) []
        ≡ ends hello)
    × (print_back (hello ∷ []) (replicate 20000 0) ≡ hello)
print_back-file_example =
    print_back-file hello (7 ∷ []) two_pieces (hello ∷ []) 20000 (omega arith) (omega arith)
      (ground arith) (omega arith) ((omega arith, omega arith), ((omega arith, omega arith), tt))
      refl ((omega arith, omega arith), tt) refl

-- What is sent of a file that two reads bring.
twice : read_input (codes "abc" ∷ codes "de" ∷ []) 0 (codes "xxxxxxxx") ≡ (5, codes "decxxxxx")
twice =
    read_input-twice (codes "abc") (codes "de") (codes "xxxxxxxx") (omega arith, omega arith)
      (omega arith, omega arith)

-- A write that takes two bytes is followed by one from the start again.
again : write_all (some 2 ∷ some 3 ∷ []) 0 5 hello [] ≡ ends (codes "hehel")
unfolding write_all
again = refl
