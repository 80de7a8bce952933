-- ===== src/Mandelbrot/Order.antt =====
-- The file of mandelbrot.c and that of orig.c.
use cs.Base.{
  ℕ, zero, suc, ◌+◌, ◌*◌, ◌^◌, ◌≤◌, ◌<◌, ◌≡◌, refl, sym, ap, ◌∙◌, true, List, [], ◌∷◌, concat, some,
  leb, ltb, if◌then◌else◌, ◌>>=◌, length, get_elem?, All, arith, length-append, length-set, set,
}
use cs.CString.{Bytes}
use cs.CString.Store.{store, store-nil, store-append, length-store, take-all}
use cs.Mandelbrot.{
  Double, Picture, pixel_size, pixel_at, orig_row, orig_rows, orig, memcpy, fill_row, fill_rows,
  byte_res, mandelbrot, count, offset_of,
}
use cs.Mandelbrot.Rows.{
  length-pixel, AllOf, store-set_part, set-AllOf, set_rows, set_rows-Has, length-set_rows, Has,
  parts, parts_lem,
}

row_fits : (j x y : ℕ) → j < y → (j * x + 0) * 6 + x * 6 ≤ x * y * 6
row_fits j x y h = grind arith

row_start : (j x : ℕ) → (j * x + 0) * 6 ≡ j * (x * 6)
row_start j x = grind arith

module _ {W : Type 0} (d : Double W) (p : Picture W) where
  length-pixel_at : (i j : ℕ) → length (pixel_at d p i j) ≡ pixel_size
  unfolding pixel_at
  length-pixel_at i j = length-pixel p.maxiter (count d p i j)

  length-orig_row : (n i j : ℕ) → length (orig_row d p n i j) ≡ n * pixel_size
  unfolding orig_row
  length-orig_row zero i j = refl
  length-orig_row (suc n) i j = omega (
    arith,
    length-append (pixel_at d p i j) (orig_row d p n (i + 1) j),
    length-pixel_at i j,
    length-orig_row n (i + 1) j,
  )

  -- A row is stored whole.
  fill_row-store :
      (n i j : ℕ) (buf : Bytes)
      → offset_of d p i j + n * pixel_size ≤ length buf
      → fill_row d p n i j buf ≡ some (store buf (offset_of d p i j) (orig_row d p n i j))
  unfolding fill_row orig_row memcpy
  fill_row-store zero i j buf h = rw (store-nil buf (offset_of d p i j)) refl
  fill_row-store (suc n) i j buf h =
      let here = offset_of d p i j in
      let px = pixel_at d p i j in
      let l = length-pixel_at i j in
      let t : leb (here + length px) (length buf) ≡ true = ground (arith, l) in
      let next : offset_of d p (i + 1) j ≡ here + length px = omega (arith, l) in
      let s = length-store buf here px (omega (arith, l)) in
      rw (t, if◌then◌else◌)
        (fill_row-store n (i + 1) j (store buf here px) (omega (arith, s))
          ∙ rw next
              (ap some (store-append buf here px (orig_row d p n (i + 1) j) (omega (arith, l)))))

  abbrev row_of : ℕ → Bytes
  row_of j = orig_row d p p.xres 0 j

  fill_rows-set_rows :
      (js : List ℕ) (bs : List Bytes)
      → AllOf (p.xres * pixel_size) bs
      → length bs ≡ p.yres
      → length (concat bs) ≡ byte_res d p
      → All (λ j. j < p.yres) js
      → fill_rows d p js (concat bs) ≡ some (concat (set_rows row_of js bs))
  unfolding fill_rows
  fill_rows-set_rows [] bs a l n h = refl
  fill_rows-set_rows (j ∷ js) bs a l n (q, h) =
      let r = p.xres * pixel_size in
      let w = length-orig_row p.xres 0 j in
      let a' = set-AllOf r bs j (row_of j) a w in
      let e = store-set_part r bs j (row_of j) a w (omega arith) in
      let s = row_start j p.xres in
      let f = row_fits j p.xres p.yres q in
      let m = length-store (concat bs) (offset_of d p 0 j) (row_of j) (omega (arith, f, w)) in
      let l' = length-set bs j (row_of j) ∙ l in
      rw (fill_row-store p.xres 0 j (concat bs) (omega (arith, f)), ◌>>=◌, s, e)
        (fill_rows-set_rows js (set bs j (row_of j)) a' l'
          (ap length (sym e) ∙ ap (λ t. length (store (concat bs) t (row_of j))) (sym s) ∙ (m ∙ n))
          h)

  -- Lists of rows with the same rows are the same.
  concat-orig_rows :
      (bs : List Bytes) (n j : ℕ)
      → length bs ≡ n
      → ((k : ℕ) → k < n → get_elem? bs k ≡ some (row_of (j + k)))
      → concat bs ≡ orig_rows d p n j
  unfolding orig_rows
  concat-orig_rows [] zero j l h = refl
  concat-orig_rows [] (suc n) j l h = ground arith
  concat-orig_rows (b ∷ bs) zero j l h = ground arith
  concat-orig_rows (b ∷ bs) (suc n) j l h =
      let z : j + 0 ≡ j = omega arith in
      let first : some b ≡ some (row_of j) = h 0 (omega arith) ∙ ap (λ k. some (row_of k)) z in
      let here : b ≡ row_of j = cc in
      let rest = concat-orig_rows bs n (j + 1) (omega arith) (λ k q.
        let y : j + suc k ≡ j + 1 + k = omega arith in
        h (suc k) (omega arith) ∙ ap (λ k. some (row_of k)) y) in
      rw (here, rest) refl

  length-orig_rows : (n j : ℕ) → length (orig_rows d p n j) ≡ n * (p.xres * pixel_size)
  unfolding orig_rows
  length-orig_rows zero j = omega arith
  length-orig_rows (suc n) j = grind (
    arith,
    length-append (row_of j) (orig_rows d p n (j + 1)),
    length-orig_row p.xres 0 j,
    length-orig_rows n (j + 1),
  )

-- Whatever the order in which the rows are run, and whatever `malloc` gives, the file is that of
-- orig.c, byte by byte, if each row runs while no other does, every row of the picture is run and no
-- other, and the size of the buffer is an `int`.
pub mandelbrot-orig :
    {W : Type 0} (d : Double W) (p : Picture W) (js : List ℕ) (fresh : Bytes)
    → byte_res d p < 2 ^ 31
    → length fresh ≡ byte_res d p
    → All (λ j. j < p.yres) js
    → ((j : ℕ) → j < p.yres → Has j js)
    → mandelbrot d p js fresh ≡ some (orig d p)
unfolding mandelbrot orig
mandelbrot-orig d p js fresh small l h every =
    let (c, a, n) = parts_lem p.yres (p.xres * pixel_size) fresh (grind arith) in
    let bs = parts p.yres (p.xres * pixel_size) fresh in
    let t : ltb (byte_res d p) (2 ^ 31) ≡ true = ground arith in
    let e = fill_rows-set_rows d p js bs a n (ap length c ∙ l) h in
    let filled = set_rows (row_of d p) js bs in
    let len = length-set_rows (row_of d p) js bs ∙ n in
    let rows = concat-orig_rows d p filled p.yres 0 len (λ k q.
      let z : 0 + k ≡ k = omega arith in
      rw z (set_rows-Has (row_of d p) js bs k (omega arith) (every k q))) in
    let whole = length-orig_rows d p p.yres 0 in
    rw (t, if◌then◌else◌, sym c)
      (rw (e, rows, take-all (byte_res d p) (orig_rows d p p.yres 0) (grind arith)) refl)
