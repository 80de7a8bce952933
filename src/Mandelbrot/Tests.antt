-- ===== src/Mandelbrot/Tests.antt =====
-- A picture of two rows and two columns of hw7-openmp, over whole numbers in place of doubles.
use cs.Base.{
  ℕ, zero, suc, ◌+◌, ◌-◌, ◌*◌, ◌/◌, ◌<◌, ◌≡◌, ◌≢◌, ◌⊎◌, inl, inr, refl, true, false, List, [], ◌∷◌,
  ◌++◌, some, ltb, arith,
}
use cs.Base.Int.{pos, negsuc}
use cs.CString.{Bytes}
use cs.CString.Store.{store}
use cs.Mandelbrot.{
  Double, Picture, picture_of, unsigned_short, count, pixel_at, pixel, color, black, orig,
  orig_rows, orig_row, iterate, mandelbrot, offset_of,
}
use cs.Mandelbrot.Rows.{Has}
use cs.Mandelbrot.Order.{mandelbrot-orig}
use cs.Mandelbrot.Orbit.{point, is_inside, pixel_at-point}
use cs.Mandelbrot.Race.{At, Thread, System, Reaches}
use cs.Mandelbrot.Race.Lost.{lost_pixel}

abbrev whole : Double ℕ
whole = record {
  of_int = λ n. n;
  to_int = λ n. n;
  add = ◌+◌;
  sub = ◌-◌;
  mul = ◌*◌;
  div = ◌/◌;
  lt = ltb;
}

abbrev small : Picture ℕ
small = record { xmin = 0; ymax = 1; dx = 1; dy = 1; maxiter = 300; xres = 2; yres = 2 }

small_lem : picture_of whole 0 2 0 2 (pos 65836) 2 ≡ record small { ymax = 2 }
unfolding picture_of unsigned_short
small_lem = refl

unsigned_short_minus : unsigned_short (negsuc 0) ≡ 65535
unfolding unsigned_short
unsigned_short_minus = refl

orig-small :
    orig whole small
    ≡ black ++ ((0 ∷ 3 ∷ 0 ∷ 3 ∷ 0 ∷ 3 ∷ []) ++ (black ++ (0 ∷ 3 ∷ 0 ∷ 3 ∷ 0 ∷ 3 ∷ [])))
unfolding orig count orig_rows orig_row pixel_at pixel iterate color
orig-small = refl

abbrev two_rows : List ℕ
two_rows = 1 ∷ 0 ∷ []

abbrev dirty : Bytes
dirty =
    (7 ∷ 7 ∷ 7 ∷ 7 ∷ 7 ∷ 7 ∷ 7 ∷ 7 ∷ 7 ∷ 7 ∷ 7 ∷ 7 ∷ [])
    ++ (9 ∷ 9 ∷ 9 ∷ 9 ∷ 9 ∷ 9 ∷ 9 ∷ 9 ∷ 9 ∷ 9 ∷ 9 ∷ 9 ∷ [])

two_rows_all : (j : ℕ) → j < 2 → Has j two_rows
two_rows_all zero h = inr (inl refl)
two_rows_all (suc zero) h = inl refl
two_rows_all (suc (suc j)) h = absurd (omega arith)

mandelbrot-orig_example : mandelbrot whole small two_rows dirty ≡ some (orig whole small)
mandelbrot-orig_example =
    mandelbrot-orig whole small two_rows dirty (omega arith) refl (omega arith) two_rows_all

pixel_at-point_example :
    ((pixel_at whole small 1 0 ≡ black)
      × ((m : ℕ) → suc m < 300 → is_inside whole 1 1 (point whole 1 1 m) ≡ true))
    ⊎ ((q : ℕ) × (pixel_at whole small 1 0 ≡ color (suc q))
        × (suc q < 300)
        × ((m : ℕ) → m < q → is_inside whole 1 1 (point whole 1 1 m) ≡ true)
        × (is_inside whole 1 1 (point whole 1 1 q) ≡ false))
pixel_at-point_example = pixel_at-point whole small 1 0

-- Thread `n` at the start of its row `n`, for two rows.
abbrev at_row : ℕ → Thread ℕ
at_row n = record { at = At.row; i = 0; j = n; last = n + 1; u = 0; v = 0; u2 = 0; v2 = 0 }

abbrev two_threads : ℕ → Thread ℕ
two_threads zero = at_row 0
two_threads (suc zero) = at_row 1
two_threads (suc (suc n)) = record (at_row 0) { at = At.finished; last = 0 }

abbrev started : System ℕ
started = record {
  shared = record { x = 0; y = 0; k = 0; offset = 0; buf = dirty };
  threads = two_threads;
}

lost_pixel_example :
    (t : System ℕ) × Reaches whole small started t
    × ((t.threads 0).at ≡ At.column)
    × ((t.threads 0).i ≡ 1)
    × ((t.threads 0).j ≡ 0)
    × (offset_of whole small 0 1 ≢ offset_of whole small 0 0)
    × ((k : ℕ) × (t.shared.buf ≡ store dirty (offset_of whole small 0 1) (pixel 300 k)))
lost_pixel_example =
    lost_pixel whole small started 0 1 (omega arith) refl refl (omega arith) (omega arith)
      (omega arith) (omega arith) (omega arith) refl
