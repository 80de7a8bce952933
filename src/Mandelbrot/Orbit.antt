-- ===== src/Mandelbrot/Orbit.antt =====
-- The inner loop of both programs and the points that it goes through.
use cs.Base.{
  ℕ, zero, suc, ◌+◌, ◌≤◌, ◌<◌, ◌≡◌, ◌⊎◌, inl, inr, refl, Bool, true, false, ltb, leb, arith,
  Bool-cases, ◌==◌, ==_iff, sym,
}
use cs.Mandelbrot.{
  Double, Picture, iterate, count, pixel_at, pixel, color, black, x_of, y_of, next_u, next_v,
}

module _ {W : Type 0} (d : Double W) (x y : W) where
  open d use {of_int, add, mul, lt}

  -- z := z ^ 2 + c from 0 on, as the two coordinates are computed.
  abbrev pub point : ℕ → W × W
  point zero = (of_int 0, of_int 0)
  point (suc n) = let z = point n in (next_u d x (mul z.0 z.0) (mul z.1 z.1), next_v d y z.0 z.1)

  -- Whether a point lies within the circle of radius 2.
  abbrev pub is_inside : W × W → Bool
  is_inside z = lt (add (mul z.0 z.0) (mul z.1 z.1)) (of_int 4)

  -- The loop, entered with the point `n`, stops with the counter `q + 1`.
  abbrev Stops : ℕ → ℕ → ℕ → Type 0
  Stops maxiter n r =
      (q : ℕ) × (r ≡ suc q)
      × (n ≤ q)
      × ((m : ℕ) → n ≤ m → m < q → is_inside (point m) ≡ true)
      × ((maxiter ≤ suc q) ⊎ (is_inside (point q) ≡ false))

  iterate-Stops :
      (f maxiter n : ℕ)
      → maxiter ≤ f + suc n
      → let z = point n in
        Stops maxiter n (iterate d f maxiter (suc n) x y z.0 z.1 (mul z.0 z.0) (mul z.1 z.1))
  unfolding iterate
  iterate-Stops zero maxiter n h =
      (n, refl, omega arith, λ m p q. absurd (omega arith), inl (omega arith))
  iterate-Stops (suc f) maxiter n h = elim (Bool-cases (ltb (suc n) maxiter)) [
    | inr past ↦ rw past (n, refl, omega arith, λ m p q. absurd (omega arith), inl (ground arith))
    | inl more ↦ elim (Bool-cases (is_inside (point n))) [
      | inr out ↦ rw (more, out) (n, refl, omega arith, λ m p q. absurd (omega arith), inr out)
      | inl in_ ↦
          let (q, e, l, all, end) = iterate-Stops f maxiter (suc n) (omega arith) in
          let k : suc n + 1 ≡ suc (suc n) = omega arith in
          rw (more, in_, k)
            (
              q,
              e,
              omega arith,
              λ m p r. elim (Bool-cases (n == m)) [
                | inl s ↦ rw (sym ((==_iff n m).0 s)) in_
                | inr s ↦ all m (ground arith) r
              ],
              end,
            )
    ]
  ]

-- The pixel is black where the first `maxiter - 1` points of its orbit are inside the circle, and else
-- shows the number of the first point outside, counted from 1.
pub pixel_at-point :
    {W : Type 0} (d : Double W) (p : Picture W) (i j : ℕ)
    → ((pixel_at d p i j ≡ black)
        × ((m : ℕ)
            → suc m < p.maxiter
            → is_inside d (x_of d p i) (y_of d p j) (point d (x_of d p i) (y_of d p j) m) ≡ true))
      ⊎ ((q : ℕ) × (pixel_at d p i j ≡ color (suc q))
          × (suc q < p.maxiter)
          × ((m : ℕ)
              → m < q
              → is_inside d (x_of d p i) (y_of d p j) (point d (x_of d p i) (y_of d p j) m) ≡ true)
          × (is_inside d (x_of d p i) (y_of d p j) (point d (x_of d p i) (y_of d p j) q) ≡ false))
unfolding pixel_at pixel count
pixel_at-point d p i j =
    let (q, e, l, all, end) =
      iterate-Stops d (x_of d p i) (y_of d p j) p.maxiter p.maxiter 0 (omega arith) in
    elim (Bool-cases (leb p.maxiter (suc q))) [
      | inl h ↦ inl (rw (e, h) refl, λ m r. all m (omega arith) (ground arith))
      | inr h ↦ inr (
        q,
        rw (e, h) refl,
        ground arith,
        λ m r. all m (omega arith) r,
        elim end [ inl r ↦ absurd (ground arith) | inr r ↦ r ],
      )
    ]
