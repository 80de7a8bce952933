-- ===== src/Echo/RoundTrip.antt =====
-- A short file goes to the server and comes back.
use cs.Base.{
  ℕ, zero, suc, ◌+◌, ◌-◌, ◌%◌, ◌^◌, ◌<◌, ◌≤◌, ◌≡◌, refl, ap, ◌∙◌, List, [], ◌∷◌, ◌++◌, map, some,
  ltb, ◌==◌, false, true, All, concat, length, take, drop, replicate, arith, append-nil,
  append_assoc, length-replicate,
}
use cs.CString.{Bytes, Lacks}
use cs.CString.Search.{cstr-zero}
use cs.Echo.{
  buf_size, read_size, overlay, read_input, ends, write_all, print_back, closes, gets, serve,
}

-- A read that gives something, and no more than `n` bytes.
abbrev pub IsRead : ℕ → Bytes → Type 0
IsRead n bs = (1 ≤ length bs) × (length bs ≤ n)

take-all : (n : ℕ) (bs : Bytes) → length bs ≤ n → take n bs ≡ bs
take-all zero [] h = refl
take-all (suc n) [] h = refl
take-all zero (b ∷ bs) h = absurd (omega arith)
take-all (suc n) (b ∷ bs) h = ap (λ (l : Bytes). b ∷ l) (take-all n bs (omega arith))

abbrev zeros : ℕ → Bytes
zeros m = replicate m 0

drop-zeros : (bs : Bytes) (k : ℕ) → drop (length bs) (zeros (length bs + suc k)) ≡ zeros (suc k)
drop-zeros [] k = let e : 0 + suc k ≡ suc k = omega arith in rw e refl
drop-zeros (b ∷ bs) k =
    let e : suc (length bs) + suc k ≡ suc (length bs + suc k) = omega arith in
    rw e (drop-zeros bs k)

-- The server sends back what it gets.
serve-pieces :
    (ps : List Bytes) (out : Bytes)
    → All (IsRead buf_size) ps
    → serve (map (λ (p : Bytes). gets p (some (length p))) ps ++ closes ∷ []) out
      ≡ ends (out ++ concat ps)
unfolding serve
serve-pieces [] out h = rw (append-nil out) refl
serve-pieces (p ∷ ps) out ((a, b), h) =
    let n : (length p == 0) ≡ false = ground arith in
    let e = append_assoc out p (concat ps) in
    rw (take-all buf_size p b, n, take-all (length p) p (omega arith))
      (rw e at (serve-pieces ps (out ++ p) h))

print_back-pieces :
    (ps : List Bytes) (m : ℕ)
    → read_size < m
    → All (IsRead read_size) ps
    → All (Lacks 0) ps
    → print_back ps (replicate m 0) ≡ concat ps
unfolding print_back
print_back-pieces [] m l h z = refl
print_back-pieces (p ∷ ps) m l ((a, b), h) (z, zs) =
    let k = m - length p - 1 in
    let n : (length p == 0) ≡ false = ground arith in
    let e : length p + suc k ≡ m = omega arith in
    let d = rw e at (drop-zeros p k) in
    let c = length-replicate {A = ℕ} m 0 in
    rw (take-all read_size p b, n, c, d, cstr-zero p (zeros k) z)
      (ap (λ (l : Bytes). p ++ l) (print_back-pieces ps m l h zs))

take-append : (bs r : Bytes) → take (length bs) (bs ++ r) ≡ bs
take-append [] r = refl
take-append (b ∷ bs) r = ap (λ (l : Bytes). b ∷ l) (take-append bs r)

-- One write takes the whole file.
write_all-whole :
    (file stale : Bytes)
    → 1 ≤ length file
    → length file ≤ read_size
    → write_all (some (length file) ∷ []) 0 (length file) (overlay file stale) [] ≡ ends file
unfolding write_all
write_all-whole file stale a b =
    let n1 : ltb 0 (length file) ≡ true = ground arith in
    let m : (0 + length file) % 2 ^ 64 ≡ length file = omega arith in
    let n2 : ltb (length file) (length file) ≡ false = ground arith in
    let t = take-append file (drop (length file) stale) in
    rw (n1, m, n2, t, take-all (length file) file (omega arith)) refl

read_input-once :
    (file stale : Bytes)
    → 1 ≤ length file
    → length file ≤ read_size
    → read_input (file ∷ []) 0 stale ≡ (length file, overlay file stale)
unfolding read_input
read_input-once file stale a b =
    let n : (length file == 0) ≡ false = ground arith in
    let z : 0 + length file ≡ length file = omega arith in rw (take-all read_size file b, n, z) refl

Lacks-left : (d : ℕ) (w r : Bytes) → Lacks d (w ++ r) → Lacks d w
Lacks-left d [] r h = tt
Lacks-left d (c ∷ w) r (n, h) = (n, Lacks-left d w r h)

Lacks-right : (d : ℕ) (w r : Bytes) → Lacks d (w ++ r) → Lacks d r
Lacks-right d [] r h = h
Lacks-right d (c ∷ w) r (n, h) = Lacks-right d w r h

Lacks-pieces : (ps : List Bytes) → Lacks 0 (concat ps) → All (Lacks 0) ps
Lacks-pieces [] h = tt
Lacks-pieces (p ∷ ps) h =
    (Lacks-left 0 p (concat ps) h, Lacks-pieces ps (Lacks-right 0 p (concat ps) h))

-- A file of 1 to 4096 bytes without a zero that one fread and one write take whole, where the number of
-- bytes read starts at 0, reaches the server, which in whatever pieces of at most 500 bytes it gets it
-- sends back the file, if each send takes its piece whole; and the client prints the file from whatever
-- pieces of at most 4096 bytes it is read in, if its array begins with zeros only.
pub print_back-file :
    (file stale : Bytes) (pieces back : List Bytes) (m : ℕ)
    → 1 ≤ length file
    → length file ≤ read_size
    → Lacks 0 file
    → read_size < m
    → All (IsRead buf_size) pieces
    → concat pieces ≡ file
    → All (IsRead read_size) back
    → concat back ≡ file
    → (let (nread, buf) = read_input (file ∷ []) 0 stale in
        write_all (some (length file) ∷ []) 0 nread buf [] ≡ ends file)
      × (serve (map (λ (p : Bytes). gets p (some (length p))) pieces ++ closes ∷ []) [] ≡ ends file)
      × (print_back back (replicate m 0) ≡ file)
print_back-file file stale pieces back m a b z l ps e qs f = (
  rw (read_input-once file stale a b) (write_all-whole file stale a b),
  rw e at (serve-pieces pieces [] ps),
  print_back-pieces back m l qs (Lacks-pieces back (rw f z)) ∙ f,
)

-- The second read of a file is stored over the first.
pub read_input-twice :
    (one two stale : Bytes)
    → IsRead read_size one
    → IsRead read_size two
    → read_input (one ∷ two ∷ []) 0 stale
      ≡ (length one + length two, overlay two (overlay one stale))
unfolding read_input
read_input-twice one two stale (a, b) (c, d) =
    let n : (length one == 0) ≡ false = ground arith in
    let n2 : (length two == 0) ≡ false = ground arith in
    let z : 0 + length one ≡ length one = omega arith in
    rw (take-all read_size one b, take-all read_size two d, n, n2, z) refl
