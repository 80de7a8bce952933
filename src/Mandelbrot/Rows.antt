-- ===== src/Mandelbrot/Rows.antt =====
-- The buffer of mandelbrot.c as a list of rows.
use cs.Base.{
  ℕ, zero, suc, ◌+◌, ◌*◌, ◌<◌, ◌≡◌, ◌⊎◌, inl, inr, refl, sym, ap, ◌∙◌, List, [], ◌∷◌, ◌++◌, concat,
  some, length, take, drop, set, get_elem?, All, arith, length-set, get_elem?-set_self,
  get_elem?-set_ne, take-append-drop, length-take, length-drop, Bool-cases, ==_iff, ◌==◌,
}
use cs.CString.{Bytes}
use cs.CString.Store.{store, store-zero, store-suc}
use cs.Mandelbrot.{pixel_size, color, pixel}

pub length-pixel : (maxiter k : ℕ) → length (pixel maxiter k) ≡ pixel_size
unfolding pixel color
length-pixel maxiter k = ground arith

drop-length : (a s : Bytes) → drop (length a) (a ++ s) ≡ s
drop-length [] s = refl
drop-length (c ∷ a) s = drop-length a s

store-behind :
    (a s : Bytes) (k : ℕ) (bs : Bytes) → store (a ++ s) (length a + k) bs ≡ a ++ store s k bs
store-behind [] s k bs = ap (λ n. store s n bs) (omega arith)
store-behind (c ∷ a) s k bs =
    let e : suc (length a) + k ≡ suc (length a + k) = omega arith in
    rw (e, store-suc c (a ++ s) (length a + k) bs, store-behind a s k bs) refl

-- The buffer is cut in parts of one length; a part is replaced.
abbrev pub AllOf : ℕ → List Bytes → Type 0
AllOf r bs = All (λ b. length b ≡ r) bs

pub store-set_part :
    (r : ℕ) (bs : List Bytes) (j : ℕ) (row : Bytes)
    → AllOf r bs
    → length row ≡ r
    → j < length bs
    → store (concat bs) (j * r) row ≡ concat (set bs j row)
store-set_part r [] j row p e h = elim h [ ]
store-set_part r (b ∷ bs) zero row (q, p) e h =
    let z : 0 * r ≡ 0 = omega arith in
    rw (z, store-zero (b ++ concat bs) row, e, sym q, drop-length b (concat bs)) refl
store-set_part r (b ∷ bs) (suc j) row (q, p) e h =
    let z : suc j * r ≡ length b + j * r = grind arith in
    rw (z, store-behind b (concat bs) (j * r) row, store-set_part r bs j row p e (omega arith)) refl

pub set-AllOf :
    (r : ℕ) (bs : List Bytes) (j : ℕ) (row : Bytes)
    → AllOf r bs
    → length row ≡ r
    → AllOf r (set bs j row)
set-AllOf r [] j row p e = tt
set-AllOf r (b ∷ bs) zero row (q, p) e = (e, p)
set-AllOf r (b ∷ bs) (suc j) row (q, p) e = (q, set-AllOf r bs j row p e)

-- The rows of a list, put in one after the other.
abbrev pub set_rows : (ℕ → Bytes) → List ℕ → List Bytes → List Bytes
set_rows row [] bs = bs
set_rows row (j ∷ js) bs = set_rows row js (set bs j (row j))

-- A row number is in the list.
abbrev pub Has : ℕ → List ℕ → Type 0
Has j [] = ⊥
Has j (i ∷ is) = (i ≡ j) ⊎ Has j is

module _ (row : ℕ → Bytes) where
  set_rows-keeps :
      (js : List ℕ) (bs : List Bytes) (j : ℕ)
      → j < length bs
      → get_elem? bs j ≡ some (row j)
      → get_elem? (set_rows row js bs) j ≡ some (row j)
  set_rows-keeps [] bs j h e = e
  set_rows-keeps (i ∷ js) bs j h e =
      set_rows-keeps js (set bs i (row i)) j (omega (arith, length-set bs i (row i)))
        (elim (Bool-cases (i == j)) [
          | inl q ↦ rw ((==_iff i j).0 q) (get_elem?-set_self bs j (row j) h)
          | inr q ↦ get_elem?-set_ne bs (row i) (λ z. ground (arith, z)) ∙ e
        ])

  pub set_rows-Has :
      (js : List ℕ) (bs : List Bytes) (j : ℕ)
      → j < length bs
      → Has j js
      → get_elem? (set_rows row js bs) j ≡ some (row j)
  set_rows-Has [] bs j h m = elim m [ ]
  set_rows-Has (i ∷ js) bs j h (inl e) =
      let l = length-set bs i (row i) in
      set_rows-keeps js (set bs i (row i)) j (omega (arith, l))
        (rw e (get_elem?-set_self bs j (row j) h))
  set_rows-Has (i ∷ js) bs j h (inr m) =
      set_rows-Has js (set bs i (row i)) j (omega (arith, length-set bs i (row i))) m

  pub length-set_rows : (js : List ℕ) (bs : List Bytes) → length (set_rows row js bs) ≡ length bs
  length-set_rows [] bs = refl
  length-set_rows (i ∷ js) bs = length-set_rows js (set bs i (row i)) ∙ length-set bs i (row i)

-- A text cut in parts of one length.
pub parts : (n r : ℕ) (s : Bytes) → List Bytes
parts zero r s = []
parts (suc n) r s = take r s ∷ parts n r (drop r s)

pub parts_lem :
    (n r : ℕ) (s : Bytes)
    → length s ≡ n * r
    → (concat (parts n r s) ≡ s) × AllOf r (parts n r s) × (length (parts n r s) ≡ n)
unfolding parts
parts_lem zero r [] h = (refl, tt, refl)
parts_lem zero r (c ∷ s) h = ground arith
parts_lem (suc n) r s h =
    let (e, a, l) = parts_lem n r (drop r s) (grind (arith, length-drop r s)) in
    (rw e (take-append-drop r s), (grind (arith, length-take r s), a), ap suc l)
