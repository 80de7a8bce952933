-- ===== src/Mandelbrot/Race/Lost.antt =====
-- Two threads of mandelbrot.c that compute a pixel at the same time.
use cs.Base.{
  ℕ, zero, suc, ◌+◌, ◌*◌, ◌≤◌, ◌<◌, ◌≡◌, ◌≢◌, refl, ap, ◌∙◌, sym, true, false, inl, inr, some, ltb,
  leb, if◌then◌else◌, arith, Bool-cases, length,
}
use cs.CString.{Bytes}
use cs.CString.Store.{store}
use cs.Mandelbrot.{
  Double, Picture, goes_on, offset_of, memcpy, x_of, y_of, next_u, next_v, color, black, pixel,
  pixel_size, byte_res,
}
use cs.Mandelbrot.Race.{Shared, At, Thread, System, update, step, tick, copy, Reaches, here, later}

module _ {W : Type 0} (d : Double W) (p : Picture W) (n : ℕ) (s : System W) where
  open d use {of_int, mul}

  -- What the steps of one thread come to, up to its next `memcpy`.
  record Gets (t : System W) (a : At) (i j : ℕ) : Type 0 where
    pub reach : Reaches d p s t
    pub at : (t.threads n).at ≡ a
    pub column : (t.threads n).i ≡ i
    pub row : (t.threads n).j ≡ j
    pub last : (t.threads n).last ≡ (s.threads n).last
    pub buf : t.shared.buf ≡ s.shared.buf
    pub others : (m : ℕ) → m ≢ n → t.threads m ≡ s.threads m

  abbrev next : System W → Shared W → Thread W → System W
  next t sh th = record { shared = sh; threads = update t.threads n th }

  update_self : (t : System W) (sh : Shared W) (th : Thread W) → (next t sh th).threads n ≡ th
  update_self t sh th = ground arith

  update_other :
      (t : System W) (sh : Shared W) (th : Thread W) (m : ℕ)
      → m ≢ n
      → (next t sh th).threads m ≡ t.threads m
  update_other t sh th m h = ground arith

  Gets-start : (a : At) → (s.threads n).at ≡ a → Gets s a (s.threads n).i (s.threads n).j
  Gets-start a e = record {
    reach = here;
    at = e;
    column = refl;
    row = refl;
    last = refl;
    buf = refl;
    others = λ m _. refl;
  }

  -- A step that leaves the buffer and the thread's rows as they are.
  go :
      {a a' : At} {i j i' j' : ℕ} (t : System W) (sh : Shared W) (th : Thread W)
      → Gets t a i j
      → step d p a t.shared (t.threads n) ≡ some (sh, th)
      → sh.buf ≡ t.shared.buf
      → th.last ≡ (t.threads n).last
      → th.at ≡ a'
      → th.i ≡ i'
      → th.j ≡ j'
      → Gets (next t sh th) a' i' j'
  unfolding tick
  go t sh th g e b l pa pi pj = record {
    reach =
        let e' = ap (λ a. step d p a t.shared (t.threads n)) g.at ∙ e in
        later g.reach n (rw e' refl);
    at = ap (λ (x : Thread W). x.at) (update_self t sh th) ∙ pa;
    column = ap (λ (x : Thread W). x.i) (update_self t sh th) ∙ pi;
    row = ap (λ (x : Thread W). x.j) (update_self t sh th) ∙ pj;
    last = ap (λ (x : Thread W). x.last) (update_self t sh th) ∙ (l ∙ g.last);
    buf = b ∙ g.buf;
    others = λ m h. update_other t sh th m h ∙ g.others m h;
  }

  -- A step of a thread in the inner loop.
  moves :
      {a : At} (a' : At) {i j : ℕ} (t : System W) (sh : Shared W) (th : Thread W)
      → Gets t a i j
      → step d p a t.shared (t.threads n) ≡ some (sh, th)
      → sh.buf ≡ t.shared.buf
      → th.last ≡ (t.threads n).last
      → th.at ≡ a'
      → th.i ≡ (t.threads n).i
      → th.j ≡ (t.threads n).j
      → Gets (next t sh th) a' i j
  moves a' t sh th g e b l pa pi pj = go t sh th g e b l pa (pi ∙ g.column) (pj ∙ g.row)

  -- The counter ends the loop.
  loop :
      (f : ℕ) {i j : ℕ} (t : System W)
      → p.maxiter ≤ f + t.shared.k
      → Gets t At.test i j
      → (t' : System W) × Gets t' At.recalculate i j
  unfolding step
  loop zero t h g =
      let e : ltb t.shared.k p.maxiter ≡ false = ground arith in
      let th = record (t.threads n) { at = At.recalculate } in
      (
        next t t.shared th,
        moves At.recalculate t t.shared th g (rw e refl) refl refl refl refl refl,
      )
  loop (suc f) t h g =
      let me = t.threads n in
      let sh = t.shared in
      elim (Bool-cases (goes_on d p.maxiter sh.k me.u2 me.v2)) [
        | inr e ↦
            let th = record me { at = At.recalculate } in
            (next t sh th, moves At.recalculate t sh th g (rw e refl) refl refl refl refl refl)
        | inl e ↦
            let th = record me { at = At.body } in
            let t1 = next t sh th in
            let g1 = moves At.body t sh th g (rw e refl) refl refl refl refl refl in
            let me1 = t1.threads n in
            let v' = next_v d sh.y me1.u me1.v in
            let u' = next_u d sh.x me1.u2 me1.v2 in
            let th1 = record me1 {
              at = At.raise;
              u = u';
              v = v';
              u2 = mul u' u';
              v2 = mul v' v';
            } in
            let t2 = next t1 sh th1 in
            let g2 = moves At.raise t1 sh th1 g1 refl refl refl refl refl refl in
            let sh2 = record sh { k = sh.k + 1 } in
            let th2 = record (t2.threads n) { at = At.test } in
            let t3 = next t2 sh2 th2 in
            loop f t3 (omega arith) (moves At.test t2 sh2 th2 g2 refl refl refl refl refl refl)
      ]

  -- A thread that is alone takes the place of the first pixel of its row.
  takes_place :
      (s.threads n).at ≡ At.row
      → (s.threads n).j < (s.threads n).last
      → 0 < p.xres
      → (t : System W) × Gets t At.decide 0 (s.threads n).j
        × (t.shared.offset ≡ offset_of d p 0 (s.threads n).j)
  unfolding step
  takes_place e h w =
      let me = s.threads n in
      let g = Gets-start At.row e in
      let more : ltb me.j me.last ≡ true = ground arith in
      let sh1 = record s.shared { y = y_of d p me.j } in
      let th1 = record me { at = At.column; i = 0 } in
      let g1 = go s sh1 th1 g (rw (more, if◌then◌else◌) refl) refl refl refl refl refl in
      let t1 = next s sh1 th1 in
      let o = of_int 0 in
      let in_row : ltb (t1.threads n).i p.xres ≡ true = rw g1.column (ground arith) in
      let sh2 = record sh1 { x = x_of d p (t1.threads n).i } in
      let th2 = record (t1.threads n) {
        at = At.counter;
        u = o;
        v = o;
        u2 = mul o o;
        v2 = mul o o;
      } in
      let g2 =
        moves At.counter t1 sh2 th2 g1 (rw (in_row, if◌then◌else◌) refl) refl refl refl refl refl in
      let t2 = next t1 sh2 th2 in
      let sh3 = record sh2 { k = 1 } in
      let th3 = record (t2.threads n) { at = At.test } in
      let g3 = moves At.test t2 sh3 th3 g2 refl refl refl refl refl refl in
      let (t4, g4) = loop p.maxiter (next t2 sh3 th3) (omega arith) g3 in
      let off = offset_of d p (t4.threads n).i (t4.threads n).j in
      let sh5 = record t4.shared { offset = off } in
      let th5 = record (t4.threads n) { at = At.decide } in
      (
        next t4 sh5 th5,
        moves At.decide t4 sh5 th5 g4 refl refl refl refl refl refl,
        rw (g4.column, g4.row) refl,
      )

  -- The `memcpy` of six bytes, behind the test of the counter.
  copied :
      {a : At} {i j : ℕ} (bs : Bytes) (t : System W)
      → Gets t a i j
      → step d p a t.shared (t.threads n) ≡ copy d p bs t.shared (t.threads n)
      → length bs ≡ pixel_size
      → t.shared.offset + pixel_size ≤ length t.shared.buf
      → (t' : System W) × Reaches d p s t'
        × ((t'.threads n).at ≡ At.column)
        × ((t'.threads n).i ≡ i + 1)
        × ((t'.threads n).j ≡ j)
        × (t'.shared.buf ≡ store t.shared.buf t.shared.offset bs)
  unfolding tick memcpy
  copied {a} bs t g e l f =
      let h : leb (t.shared.offset + length bs) (length t.shared.buf) ≡ true = ground (arith, l) in
      let sh = record t.shared { buf = store t.shared.buf t.shared.offset bs } in
      let th = record (t.threads n) { at = At.column; i = (t.threads n).i + 1 } in
      let done : step d p (t.threads n).at t.shared (t.threads n) ≡ some (sh, th) =
        ap (λ a. step d p a t.shared (t.threads n)) g.at ∙ (e ∙ rw h refl) in
      (
        next t sh th,
        later g.reach n (rw done refl),
        ap (λ (x : Thread W). x.at) (update_self t sh th),
        ap (λ (x : Thread W). x.i) (update_self t sh th) ∙ ap (λ c. c + 1) g.column,
        ap (λ (x : Thread W). x.j) (update_self t sh th) ∙ g.row,
        refl,
      )

  -- The pixel goes where the offset says.
  copies :
      (s.threads n).at ≡ At.decide
      → s.shared.offset + pixel_size ≤ length s.shared.buf
      → (t : System W) × Reaches d p s t
        × ((t.threads n).at ≡ At.column)
        × ((t.threads n).i ≡ (s.threads n).i + 1)
        × ((t.threads n).j ≡ (s.threads n).j)
        × (t.shared.buf ≡ store s.shared.buf s.shared.offset (pixel p.maxiter s.shared.k))
  unfolding step pixel color
  copies e f =
      let me = s.threads n in
      let g = Gets-start At.decide e in
      elim (Bool-cases (leb p.maxiter s.shared.k)) [
        | inl q ↦
            let th = record me { at = At.interior } in
            let g1 = moves At.interior s s.shared th g (rw q refl) refl refl refl refl refl in
            rw q (copied black (next s s.shared th) g1 refl refl f)
        | inr q ↦
            let th = record me { at = At.exterior } in
            let g1 = moves At.exterior s s.shared th g (rw q refl) refl refl refl refl refl in
            rw q (copied (color s.shared.k) (next s s.shared th) g1 refl refl f)
      ]

Reaches-trans :
    {W : Type 0} (d : Double W) (p : Picture W) {s t u : System W}
    → Reaches d p s t
    → Reaches d p t u
    → Reaches d p s u
Reaches-trans d p r here = r
Reaches-trans d p r (later q n e) = later (Reaches-trans d p r q) n e

rows_apart : (x i j : ℕ) → i < j → i * x + x ≤ j * x
rows_apart x i j h = grind arith

row_fits : (j x y : ℕ) → j < y → 0 < x → (j * x + 0) * 6 + 6 ≤ x * y * 6
row_fits j x y h w = grind arith

places_differ : (x i j : ℕ) → 0 < x → i ≢ j → (i * x + 0) * 6 ≢ (j * x + 0) * 6
places_differ x i j h k = λ e. elim (Bool-cases (ltb i j)) [
  | inl p ↦ omega (arith, rows_apart x i j (ground arith))
  | inr p ↦ omega (arith, rows_apart x j i (ground arith))
]

-- Two threads at the start of rows of theirs can come to this: one has passed the first pixel of its
-- row, which was written to the place of the other's, and nothing else of the buffer has changed.
pub lost_pixel :
    {W : Type 0} (d : Double W) (p : Picture W) (s : System W) (a b : ℕ)
    → a ≢ b
    → (s.threads a).at ≡ At.row
    → (s.threads b).at ≡ At.row
    → (s.threads a).j < (s.threads a).last
    → (s.threads b).j < (s.threads b).last
    → (s.threads a).j ≢ (s.threads b).j
    → (s.threads b).last ≤ p.yres
    → 0 < p.xres
    → length s.shared.buf ≡ byte_res d p
    → (t : System W) × Reaches d p s t
      × ((t.threads a).at ≡ At.column)
      × ((t.threads a).i ≡ 1)
      × ((t.threads a).j ≡ (s.threads a).j)
      × (offset_of d p 0 (s.threads b).j ≢ offset_of d p 0 (s.threads a).j)
      × ((k : ℕ) × (t.shared.buf
            ≡ store s.shared.buf (offset_of d p 0 (s.threads b).j) (pixel p.maxiter k)))
lost_pixel {W} d p s a b ne ra rb la lb nj ly w len =
    let (t1, g1, o1) = takes_place d p a s ra la w in
    let eb = g1.others b (λ q. ne (sym q)) in
    let (t2, g2, o2) = takes_place d p b t1 (rw eb rb) (rw eb lb) w in
    let ga = g2.others a ne in
    let ob = o2 ∙ ap (λ (t : Thread W). offset_of d p 0 t.j) eb in
    let f : t2.shared.offset + pixel_size ≤ length t2.shared.buf =
      rw (ob, g2.buf, g1.buf, len) (row_fits (s.threads b).j p.xres p.yres (omega arith) w) in
    let (t3, r3, at3, i3, j3, b3) = copies d p a t2 (rw (ga, g1.at) refl) f in
    (
      t3,
      Reaches-trans d p (Reaches-trans d p g1.reach g2.reach) r3,
      at3,
      i3 ∙ (ap (λ (t : Thread W). t.i + 1) ga ∙ ap (λ c. c + 1) g1.column),
      j3 ∙ (ap (λ (t : Thread W). t.j) ga ∙ g1.row),
      places_differ p.xres (s.threads b).j (s.threads a).j w (λ q. nj (sym q)),
      (t2.shared.k, b3 ∙ rw (ob, g2.buf, g1.buf) refl),
    )
