-- ===== src/Mandelbrot.antt =====
-- The pictures of hw7-openmp: mandelbrot.c, which fills a buffer row by row with several threads, and
-- orig.c, which writes each pixel to the file at once. A `double` is an element of an abstract type.
pub mod Rows
pub mod Order
pub mod Orbit
pub mod Race
mod Tests
use cs.Base.{
  ℕ, zero, suc, ◌+◌, ◌-◌, ◌*◌, ◌/◌, ◌%◌, ◌^◌, Bool, ◌&&◌, List, [], ◌∷◌, ◌++◌, Option, none, some,
  ltb, leb, if◌then◌else◌, ◌>>=◌, length, take,
}
use cs.Base.Int.{ℤ, pos, negsuc}
use cs.CString.{Bytes}
use cs.CString.Store.{store}

-- What the two programs do with a `double`. `of_int` is the conversion of an `int`, and `to_int` that
-- of a value which is not negative.
pub record Double (W : Type 0) : Type 0 where
  pub of_int : ℕ → W
  pub to_int : W → ℕ
  pub add : W → W → W
  pub sub : W → W → W
  pub mul : W → W → W
  pub div : W → W → W
  pub lt : W → W → Bool

-- The constants of `main` that the loops read.
pub record Picture (W : Type 0) : Type 0 where
  pub xmin : W
  pub ymax : W
  pub dx : W
  pub dy : W
  pub maxiter : ℕ
  pub xres : ℕ
  pub yres : ℕ

abbrev pub pixel_size : ℕ
pixel_size = 6

-- `(unsigned short)`
unfoldable pub unsigned_short : ℤ → ℕ
unsigned_short (pos n) = n % 2 ^ 16
unsigned_short (negsuc n) = (2 ^ 16 - 1) - n % 2 ^ 16

-- The two bytes of the counter, three times.
unfoldable pub color : ℕ → Bytes
color k =
    (k / 256 % 256) ∷ (k % 256) ∷ (k / 256 % 256) ∷ (k % 256) ∷ (k / 256 % 256) ∷ (k % 256) ∷ []

abbrev pub black : Bytes
black = 0 ∷ 0 ∷ 0 ∷ 0 ∷ 0 ∷ 0 ∷ []

unfoldable pub pixel : ℕ → ℕ → Bytes
pixel maxiter k = if leb maxiter k then black else color k

module _ {W : Type 0} (d : Double W) where
  open d use {of_int, to_int, add, sub, mul, div, lt}

  -- The window, the levels and the width are arguments; the width is not negative.
  unfoldable pub picture_of : W → W → W → W → ℤ → ℕ → Picture W
  picture_of xmin xmax ymin ymax iterations xres =
      let yres = to_int (div (mul (of_int xres) (sub ymax ymin)) (sub xmax xmin)) in
      record {
        xmin = xmin;
        ymax = ymax;
        dx = div (sub xmax xmin) (of_int xres);
        dy = div (sub ymax ymin) (of_int yres);
        maxiter = unsigned_short iterations;
        xres = xres;
        yres = yres;
      }

  abbrev pub x_of : Picture W → ℕ → W
  x_of p i = add p.xmin (mul (of_int i) p.dx)

  abbrev pub y_of : Picture W → ℕ → W
  y_of p j = sub p.ymax (mul (of_int j) p.dy)

  abbrev pub next_v : W → W → W → W
  next_v y u v = add (mul (mul (of_int 2) u) v) y

  abbrev pub next_u : W → W → W → W
  next_u x u2 v2 = add (sub u2 v2) x

  -- `k < maxiter && (u2 + v2 < 4.0)`
  abbrev pub goes_on : ℕ → ℕ → W → W → Bool
  goes_on maxiter k u2 v2 = ltb k maxiter && lt (add u2 v2) (of_int 4)

  -- The counter at the end of the inner loop. Each round raises it, so `maxiter` rounds are enough.
  unfoldable pub iterate : ℕ → ℕ → ℕ → W → W → W → W → W → W → ℕ
  iterate zero maxiter k x y u v u2 v2 = k
  iterate (suc f) maxiter k x y u v u2 v2 =
      let v' = next_v y u v in
      let u' = next_u x u2 v2 in
      let rest = iterate f maxiter (k + 1) x y u' v' (mul u' u') (mul v' v') in
      if goes_on maxiter k u2 v2 then rest else k

  -- From `u = 0.0; v = 0.0;` on.
  unfoldable pub count : Picture W → ℕ → ℕ → ℕ
  count p i j =
      let o = of_int 0 in
      iterate p.maxiter p.maxiter 1 (x_of p i) (y_of p j) o o (mul o o) (mul o o)

  unfoldable pub pixel_at : Picture W → ℕ → ℕ → Bytes
  pixel_at p i j = pixel p.maxiter (count p i j)

  -- orig.c: what `fwrite` puts into the file, for the columns from `i` on and the rows from `j` on.
  unfoldable pub orig_row : Picture W → ℕ → ℕ → ℕ → Bytes
  orig_row p zero i j = []
  orig_row p (suc n) i j = pixel_at p i j ++ orig_row p n (i + 1) j

  unfoldable pub orig_rows : Picture W → ℕ → ℕ → Bytes
  orig_rows p zero j = []
  orig_rows p (suc n) j = orig_row p p.xres 0 j ++ orig_rows p n (j + 1)

  unfoldable pub orig : Picture W → Bytes
  orig p = orig_rows p p.yres 0

  -- `(j * xres + i) * PIXEL_SIZE`
  abbrev pub offset_of : Picture W → ℕ → ℕ → ℕ
  offset_of p i j = (j * p.xres + i) * pixel_size

  -- `memcpy(buf + offset, bs, sizeof bs)`; `none` is a write outside the buffer.
  unfoldable pub memcpy : Bytes → ℕ → Bytes → Option Bytes
  memcpy buf offset bs =
      if leb (offset + length bs) (length buf) then some (store buf offset bs) else none

  -- mandelbrot.c: one row, when no other thread runs.
  unfoldable pub fill_row : Picture W → ℕ → ℕ → ℕ → Bytes → Option Bytes
  fill_row p zero i j buf = some buf
  fill_row p (suc n) i j buf = do
    buf' ← memcpy buf (offset_of p i j) (pixel_at p i j)
    fill_row p n (i + 1) j buf'

  -- The rows in the order in which they are run.
  unfoldable pub fill_rows : Picture W → List ℕ → Bytes → Option Bytes
  fill_rows p [] buf = some buf
  fill_rows p (j ∷ js) buf = do buf' ← fill_row p p.xres 0 j buf; fill_rows p js buf'

  abbrev pub byte_res : Picture W → ℕ
  byte_res p = p.xres * p.yres * pixel_size

  -- The pixels in the file; `fresh` is what `malloc` gives, and `none` is also an `int` too small for
  -- the size of the buffer.
  unfoldable pub mandelbrot : Picture W → List ℕ → Bytes → Option Bytes
  mandelbrot p js fresh =
      if ltb (byte_res p) (2 ^ 31)
      then (do buf ← fill_rows p js fresh; some (take (byte_res p) buf))
      else none
