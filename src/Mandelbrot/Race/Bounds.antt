-- ===== src/Mandelbrot/Race/Bounds.antt =====
-- The buffer of mandelbrot.c under any interleaving of its threads.
use cs.Base.{
  ℕ, ◌+◌, ◌*◌, ◌≤◌, ◌<◌, ◌≡◌, refl, ◌∙◌, true, inl, inr, some, ltb, leb, if◌then◌else◌, arith,
  Bool-cases, length, ◌==◌,
}
use cs.CString.{Bytes}
use cs.CString.Store.{store, length-store}
use cs.Mandelbrot.{Double, Picture, goes_on, memcpy, color, black, pixel_size, byte_res}
use cs.Mandelbrot.Race.{Shared, At, Thread, System, update, step, tick, copy}

place_in : (j i x y : ℕ) → j < y → i < x → (j * x + i) * 6 + 6 ≤ x * y * 6
place_in j i x y h w = grind arith

module _ {W : Type 0} (d : Double W) (p : Picture W) where
  -- Where a thread is, its column and its row are in the picture.
  abbrev pub Placed : At → Thread W → Type 0
  Placed At.row t = Unit
  Placed At.column t = t.j < t.last
  Placed At.finished t = Unit
  Placed a t = (t.i < p.xres) × (t.j < t.last)

  pub record IsSafe (s : System W) : Type 0 where
    pub size : length s.shared.buf ≡ byte_res d p
    pub place : s.shared.offset + pixel_size ≤ byte_res d p
    pub rows : (n : ℕ) → (s.threads n).last ≤ p.yres
    pub placed : (n : ℕ) → Placed (s.threads n).at (s.threads n)

  -- The same of what one step makes.
  abbrev Fine : Shared W → Thread W → Type 0
  Fine s t =
      (length s.buf ≡ byte_res d p)
      × (s.offset + pixel_size ≤ byte_res d p)
      × (t.last ≤ p.yres)
      × Placed t.at t

  module _ (s : Shared W) (t : Thread W) (z : length s.buf ≡ byte_res d p)
      (f : s.offset + pixel_size ≤ byte_res d p) (l : t.last ≤ p.yres) where
    copy-Fine :
        (bs : Bytes)
        → length bs ≡ pixel_size
        → t.j < t.last
        → (s' : Shared W) × (t' : Thread W) × (copy d p bs s t ≡ some (s', t')) × Fine s' t'
    unfolding memcpy
    copy-Fine bs e h =
        let q : leb (s.offset + length bs) (length s.buf) ≡ true = ground arith in
        (
          record s { buf = store s.buf s.offset bs },
          record t { at = At.column; i = t.i + 1 },
          rw q refl,
          (length-store s.buf s.offset bs (omega (arith, e)) ∙ z, f, l, h),
        )

    step-Fine :
        (a : At)
        → Placed a t
        → (s' : Shared W) × (t' : Thread W) × (step d p a s t ≡ some (s', t')) × Fine s' t'
    unfolding step color
    step-Fine At.row h = elim (Bool-cases (ltb t.j t.last)) [
      | inl q ↦ rw (q, if◌then◌else◌) (_, _, refl, (z, f, l, ground arith))
      | inr q ↦ rw (q, if◌then◌else◌) (_, _, refl, (z, f, l, tt))
    ]
    step-Fine At.column h = elim (Bool-cases (ltb t.i p.xres)) [
      | inl q ↦ rw (q, if◌then◌else◌) (_, _, refl, (z, f, l, (ground arith, h)))
      | inr q ↦ rw (q, if◌then◌else◌) (_, _, refl, (z, f, l, tt))
    ]
    step-Fine At.counter h = (_, _, refl, (z, f, l, h))
    step-Fine At.test h = elim (Bool-cases (goes_on d p.maxiter s.k t.u2 t.v2)) [
      | inl q ↦ rw q (_, _, refl, (z, f, l, h))
      | inr q ↦ rw q (_, _, refl, (z, f, l, h))
    ]
    step-Fine At.body h = (_, _, refl, (z, f, l, h))
    step-Fine At.raise h = (_, _, refl, (z, f, l, h))
    step-Fine At.recalculate h =
        (_, _, refl, (z, place_in t.j t.i p.xres p.yres (omega arith) h.0, l, h))
    step-Fine At.decide h = elim (Bool-cases (leb p.maxiter s.k)) [
      | inl q ↦ rw q (_, _, refl, (z, f, l, h))
      | inr q ↦ rw q (_, _, refl, (z, f, l, h))
    ]
    step-Fine At.interior h = copy-Fine black refl h.1
    step-Fine At.exterior h = copy-Fine (color s.k) refl h.1
    step-Fine At.finished h = (_, _, refl, (z, f, l, tt))

  update-IsSafe :
      (s : System W) (n : ℕ) (sh : Shared W) (th : Thread W)
      → IsSafe s
      → Fine sh th
      → IsSafe (record { shared = sh; threads = update s.threads n th })
  update-IsSafe s n sh th v (z, f, l, h) = record {
    size = z;
    place = f;
    rows = λ m. elim (Bool-cases (n == m)) [ inl q ↦ rw q l | inr q ↦ rw q (v.rows m) ];
    placed = λ m. elim (Bool-cases (n == m)) [ inl q ↦ rw q h | inr q ↦ rw q (v.placed m) ];
  }

  pub tick-IsSafe :
      (s : System W) (n : ℕ) → IsSafe s → (t : System W) × (tick d p n s ≡ some t) × IsSafe t
  unfolding tick
  tick-IsSafe s n v =
      let th = s.threads n in
      let (sh', th', e, fine) =
        step-Fine s.shared th v.size v.place (v.rows n) th.at (v.placed n) in
      (_, rw e refl, update-IsSafe s n sh' th' v fine)
