-- ===== src/CString/Store.antt =====
-- Bytes written into the middle of a buffer.
use cs.Base.{
  ℕ, zero, suc, ◌+◌, ◌≤◌, ◌<◌, ◌≡◌, refl, sym, ap, ◌∙◌, [], ◌∷◌, ◌++◌, length, take, drop, set,
  arith, append-nil, length-set,
}
use cs.CString.{Bytes}

-- `bs` written to a buffer from its byte `k` on.
unfoldable pub store : Bytes → ℕ → Bytes → Bytes
store buf k bs = take k buf ++ (bs ++ drop (k + length bs) buf)

pub take-all : (n : ℕ) (s : Bytes) → length s ≤ n → take n s ≡ s
take-all zero [] h = refl
take-all zero (c ∷ s) h = ground arith
take-all (suc n) [] h = refl
take-all (suc n) (c ∷ s) h = rw (take-all n s (omega arith)) refl

drop-past : (n : ℕ) (s : Bytes) → length s ≤ n → drop n s ≡ []
drop-past zero [] h = refl
drop-past zero (c ∷ s) h = ground arith
drop-past (suc n) [] h = refl
drop-past (suc n) (c ∷ s) h = drop-past n s (omega arith)

-- Storing at the end of what is there.
pub store-end : (buf bs : Bytes) → store buf (length buf) bs ≡ buf ++ bs
unfolding store
store-end buf bs =
    rw
      (
        take-all (length buf) buf (omega arith),
        drop-past (length buf + length bs) buf (omega arith),
        append-nil bs,
      )
      refl

pub store-zero : (w bs : Bytes) → store w 0 bs ≡ bs ++ drop (length bs) w
unfolding store
store-zero w bs = ap (λ n. bs ++ drop n w) (omega arith)

pub store-suc :
    (x : ℕ) (w : Bytes) (k : ℕ) (bs : Bytes) → store (x ∷ w) (suc k) bs ≡ x ∷ store w k bs
unfolding store
store-suc x w k bs = let e : suc k + length bs ≡ suc (k + length bs) = omega arith in rw e refl

-- The first byte of a text, and then the others.
pub store-set :
    (w : Bytes) (k b : ℕ) (bs : Bytes)
    → k < length w
    → store (set w k b) (k + 1) bs ≡ store w k (b ∷ bs)
store-set [] k b bs h = elim h [ ]
store-set (x ∷ w) zero b bs h =
    rw (store-suc b w 0 bs, store-zero w bs, store-zero (x ∷ w) (b ∷ bs)) refl
store-set (x ∷ w) (suc k) b bs h =
    let e : suc k + 1 ≡ suc (k + 1) = omega arith in
    rw
      (
        e,
        store-suc x (set w k b) (k + 1) bs,
        store-suc x w k (b ∷ bs),
        store-set w k b bs (omega arith),
      )
      refl

pub store-nil : (w : Bytes) (k : ℕ) → store w k [] ≡ w
unfolding store
store-nil [] zero = store-zero [] []
store-nil (x ∷ w) zero = store-zero (x ∷ w) []
store-nil [] (suc k) = drop-past (suc k + 0) [] (omega arith)
store-nil (x ∷ w) (suc k) = rw (store-suc x w k [], store-nil w k) refl

-- Two texts, one behind the other.
pub store-append :
    (w : Bytes) (k : ℕ) (front bs : Bytes)
    → k + length front ≤ length w
    → store (store w k front) (k + length front) bs ≡ store w k (front ++ bs)
store-append w k [] bs h = let e : k + 0 ≡ k = omega arith in rw (e, store-nil w k) refl
store-append w k (a ∷ front) bs h =
    let e : k + suc (length front) ≡ k + 1 + length front = omega arith in
    rw
      (
        e,
        sym (store-set w k a front (omega arith)),
        sym (store-set w k a (front ++ bs) (omega arith)),
      )
      (store-append (set w k a) (k + 1) front bs (omega (arith, length-set w k a)))

pub length-store :
    (w : Bytes) (k : ℕ) (bs : Bytes) → k + length bs ≤ length w → length (store w k bs) ≡ length w
length-store w k [] h = ap length (store-nil w k)
length-store w k (b ∷ bs) h =
    rw (sym (store-set w k b bs (omega arith)))
      (length-store (set w k b) (k + 1) bs (omega (arith, length-set w k b)) ∙ length-set w k b)
