-- ===== src/Mandelbrot/Race.antt =====
-- The parallel loop of mandelbrot.c as it is written: only `i`, `j` and the variables declared inside
-- belong to a thread; `x`, `y`, `k`, `offset` and the buffer are shared. One statement is one step.
pub mod Lost
pub mod Bounds
use cs.Base.{ℕ, zero, suc, ◌+◌, ◌<◌, ◌≡◌, ltb, leb, if◌then◌else◌, ◌==◌, Option, none, some, ◌>>=◌}
use cs.CString.{Bytes}
use cs.Mandelbrot.{
  Double, Picture, goes_on, next_u, next_v, x_of, y_of, offset_of, memcpy, black, color,
}

pub record Shared (W : Type 0) : Type 0 where
  pub x : W
  pub y : W
  pub k : ℕ
  pub offset : ℕ
  pub buf : Bytes

-- The statement that a thread has before it.
pub data At : Type 0 where
  row column counter test body raise recalculate decide interior exterior finished : At

-- The rows of a thread are those from `j` to `last`.
pub record Thread (W : Type 0) : Type 0 where
  pub at : At
  pub i : ℕ
  pub j : ℕ
  pub last : ℕ
  pub u : W
  pub v : W
  pub u2 : W
  pub v2 : W

pub record System (W : Type 0) : Type 0 where
  pub shared : Shared W
  pub threads : ℕ → Thread W

abbrev pub update {ℓ} : {A : Type ℓ} → (ℕ → A) → ℕ → A → ℕ → A
update f t a b = if t == b then a else f b

module _ {W : Type 0} (d : Double W) (p : Picture W) where
  open d use {of_int, mul}

  -- Behind the `memcpy` comes the next column.
  abbrev pub copy : Bytes → Shared W → Thread W → Option (Shared W × Thread W)
  copy bs s t = do
    buf ← memcpy d s.buf s.offset bs
    some (record s { buf = buf }, record t { at = At.column; i = t.i + 1 })

  -- One statement; `none` is a write outside the buffer.
  unfoldable pub step : At → Shared W → Thread W → Option (Shared W × Thread W)
  step At.row s t =
      if ltb t.j t.last
      then some (record s { y = y_of d p t.j }, record t { at = At.column; i = 0 })
      else some (s, record t { at = At.finished })
  step At.column s t =
      let o = of_int 0 in
      if ltb t.i p.xres
      then some (
        record s { x = x_of d p t.i },
        record t { at = At.counter; u = o; v = o; u2 = mul o o; v2 = mul o o },
      )
      else some (s, record t { at = At.row; j = t.j + 1 })
  step At.counter s t = some (record s { k = 1 }, record t { at = At.test })
  step At.test s t =
      if goes_on d p.maxiter s.k t.u2 t.v2
      then some (s, record t { at = At.body })
      else some (s, record t { at = At.recalculate })
  step At.body s t =
      let v' = next_v d s.y t.u t.v in
      let u' = next_u d s.x t.u2 t.v2 in
      some (s, record t { at = At.raise; u = u'; v = v'; u2 = mul u' u'; v2 = mul v' v' })
  step At.raise s t = some (record s { k = s.k + 1 }, record t { at = At.test })
  step At.recalculate s t =
      some (record s { offset = offset_of d p t.i t.j }, record t { at = At.decide })
  step At.decide s t =
      if leb p.maxiter s.k
      then some (s, record t { at = At.interior })
      else some (s, record t { at = At.exterior })
  step At.interior s t = copy black s t
  step At.exterior s t = copy (color s.k) s t
  step At.finished s t = some (s, record t { at = At.finished })

  -- A step of one of the threads.
  unfoldable pub tick : ℕ → System W → Option (System W)
  tick n s = do
    r ← step (s.threads n).at s.shared (s.threads n)
    some (record { shared = r.0; threads = update s.threads n r.1 })

  -- What the threads can come to, in any order of their steps.
  pub data Reaches (s : System W) : System W → Type 0 where
    here : Reaches s s
    later : {t u : System W} → Reaches s t → (n : ℕ) → tick n t ≡ some u → Reaches s u
