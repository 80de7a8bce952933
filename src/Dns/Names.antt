-- ===== src/Dns/Names.antt =====
-- The name in the wire, against an encoding of labels that is written down on its own.
use cs.Base.{
  Bool-cases, inl, inr, ℕ, suc, ◌+◌, ◌-◌, ◌%◌, ◌≤◌, ◌<◌, ◌≡◌, ◌≢◌, refl, sym, ap, ◌∙◌, true, List,
  [], ◌∷◌, ◌++◌, some, ltb, ◌==◌, if◌then◌else◌, length, set, All, arith, length-append, length-set,
}
use cs.CString.{Bytes, Lacks}
use cs.CString.Store.{store, store-set, store-nil, store-append, length-store}
use cs.Http.{strcpy}
use cs.Dns.{
  dot, max_size, num_header_bytes, put, put_all, put_label, put_labels, name_ascii_to_wire, tokens,
  fields, non_empty,
}

-- A label as the protocol writes it, and a name: its labels and the empty label of the root.
abbrev pub label_bytes : Bytes → Bytes
label_bytes l = (length l % 256) ∷ l

abbrev pub labels_bytes : List Bytes → Bytes
labels_bytes [] = []
labels_bytes (l ∷ ls) = label_bytes l ++ labels_bytes ls

abbrev pub name_bytes : List Bytes → Bytes
name_bytes ls = labels_bytes ls ++ 0 ∷ []

put-store : (w : Bytes) (k b : ℕ) → k < length w → put b (w, k) ≡ some (set w k b, k + 1)
unfolding put
put-store w k b h = ground arith

pub put_all-store :
    (bs w : Bytes) (k : ℕ)
    → k + length bs ≤ length w
    → put_all bs (w, k) ≡ some (store w k bs, k + length bs)
unfolding put_all
put_all-store [] w k h = let e : k + 0 ≡ k = omega arith in rw (store-nil w k, e) refl
put_all-store (b ∷ bs) w k h =
    let e : k + 1 + length bs ≡ k + suc (length bs) = omega arith in
    rw
      (
        put-store w k b (omega arith),
        put_all-store bs (set w k b) (k + 1) (omega (arith, length-set w k b)),
        store-set w k b bs (omega arith),
        e,
        put_all,
      )
      refl

put_label-store :
    (l w : Bytes) (k : ℕ)
    → k + length (label_bytes l) ≤ length w
    → put_label l (w, k) ≡ some (store w k (label_bytes l), k + length (label_bytes l))
unfolding put_label put_all
put_label-store l w k h = put_all-store (label_bytes l) w k h

put_labels-store :
    (ls : List Bytes) (w : Bytes) (k : ℕ)
    → k + length (labels_bytes ls) ≤ length w
    → put_labels ls (w, k) ≡ some (store w k (labels_bytes ls), k + length (labels_bytes ls))
unfolding put_labels
put_labels-store [] w k h = let e : k + 0 ≡ k = omega arith in rw (store-nil w k, e) refl
put_labels-store (l ∷ ls) w k h =
    let n = length-append (label_bytes l) (labels_bytes ls) in
    let e : k + length (label_bytes l) + length (labels_bytes ls)
        ≡ k + length (labels_bytes (l ∷ ls)) =
      omega (arith, n) in
    let w2 = store w k (label_bytes l) in
    let k2 = k + length (label_bytes l) in
    rw
      (
        put_label-store l w k (omega (arith, n)),
        put_labels-store ls w2 k2
            (omega (arith, n, length-store w k (label_bytes l) (omega (arith, n)))),
        store-append w k (label_bytes l) (labels_bytes ls) (omega (arith, n)),
        e,
        put_labels,
      )
      refl

-- The name is written behind the header as the protocol has it: before each label that `strtok`
-- finds between dots its length, and a zero at the end; nothing else of the wire changes, and the
-- result is the length of what was written. The name fits its copy and the wire.
pub name_ascii_to_wire-bytes :
    (name w : Bytes)
    → length name < max_size
    → num_header_bytes + length (name_bytes (tokens dot name)) ≤ length w
    → name_ascii_to_wire name w
      ≡ some (
        store w num_header_bytes (name_bytes (tokens dot name)),
        length (name_bytes (tokens dot name)),
      )
unfolding name_ascii_to_wire strcpy
name_ascii_to_wire-bytes name w h f =
    let L = labels_bytes (tokens dot name) in
    let q : ltb (length name) max_size ≡ true = ground arith in
    let n = length-append L (0 ∷ []) in
    let fit : num_header_bytes + length L < length w = omega (arith, n, f) in
    let k = length-store w num_header_bytes L (omega (arith, fit)) in
    let z : num_header_bytes + length L + 1 - num_header_bytes ≡ length (L ++ 0 ∷ []) =
      omega (arith, n) in
    let once : set (store w num_header_bytes L) (num_header_bytes + length L) 0
        ≡ store w num_header_bytes (L ++ 0 ∷ []) =
      sym (
        store-nil (set (store w num_header_bytes L) (num_header_bytes + length L) 0)
          (num_header_bytes + length L + 1))
      ∙ (store-set (store w num_header_bytes L) (num_header_bytes + length L) 0 []
            (omega (arith, k, fit))
          ∙ store-append w num_header_bytes L (0 ∷ []) (omega (arith, fit))) in
    rw
      (
        q,
        if◌then◌else◌,
        put_labels-store (tokens dot name) w num_header_bytes (omega (arith, fit)),
        put-store (store w num_header_bytes L) (num_header_bytes + length L) 0
            (omega (arith, k, fit)),
        once,
        z,
      )
      refl

-- A name of labels with dots between them.
abbrev pub dotted : Bytes → List Bytes → Bytes
dotted l [] = l
dotted l (k ∷ ks) = l ++ dot ∷ dotted k ks

abbrev pub IsLabel : Bytes → Type 0
IsLabel l = Lacks dot l × (l ≢ [])

fields-Lacks : (l : Bytes) → Lacks dot l → fields dot l ≡ l ∷ []
unfolding fields
fields-Lacks [] h = refl
fields-Lacks (c ∷ l) (n, h) = ground (arith, fields-Lacks l h)

fields-cons : (s : Bytes) → (w : Bytes) × (ws : List Bytes) × (fields dot s ≡ w ∷ ws)
unfolding fields
fields-cons [] = ([], [], refl)
fields-cons (c ∷ s) =
    let (w, ws, e) = fields-cons s in
    elim (Bool-cases (c == dot)) [
      | inl q ↦ ([], w ∷ ws, rw (e, q, fields) refl)
      | inr q ↦ (c ∷ w, ws, rw (e, q, fields) refl)
    ]

fields-append : (l s : Bytes) → Lacks dot l → fields dot (l ++ dot ∷ s) ≡ l ∷ fields dot s
unfolding fields
fields-append [] s h = let (w, ws, e) = fields-cons s in rw (e, fields) refl
fields-append (c ∷ l) s (n, h) = ground (arith, fields-append l s h)

non_empty-cons : (l : Bytes) (ls : List Bytes) → l ≢ [] → non_empty (l ∷ ls) ≡ l ∷ non_empty ls
unfolding non_empty
non_empty-cons [] ls h = absurd (h refl)
non_empty-cons (c ∷ l) ls h = refl

-- The labels of a name are found again.
pub tokens-dotted :
    (l : Bytes) (ls : List Bytes) → IsLabel l → All IsLabel ls → tokens dot (dotted l ls) ≡ l ∷ ls
unfolding tokens
tokens-dotted l [] (h, n) hs =
    rw (fields-Lacks l h, non_empty-cons l [] n) (unfold non_empty in refl)
tokens-dotted l (k ∷ ks) (h, n) (hk, hs) =
    rw (fields-append l (dotted k ks) h, non_empty-cons l (fields dot (dotted k ks)) n)
      (ap (λ (r : List Bytes). l ∷ r) (tokens-dotted k ks hk hs))
