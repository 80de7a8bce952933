-- ===== src/Shell/Control/Arguments.antt =====
-- How `do_bgfg` reads its argument.
use cs.Base.{ℕ, ◌≡◌, ◌≢◌, List, [], ◌∷◌, arith}
use cs.CString.{Bytes, isdigit}
use cs.Shell.State.{Shell, returns, print, bad_argument}
use cs.Shell.Control.{World, bgfg_arg, do_bgfg}

-- An argument of one byte that is not a percent sign is refused, a digit too: the test reads the
-- second byte. So a process with a number of one digit cannot be named.
pub do_bgfg_one_byte :
    (cmd : Bytes) (c : ℕ) (args : List Bytes) (w : World) (s : Shell)
    → c ≢ b'%'
    → do_bgfg cmd ((c ∷ []) ∷ args) w s ≡ returns (print (bad_argument cmd) s) w.later
unfolding do_bgfg bgfg_arg isdigit
do_bgfg_one_byte cmd c args w s n = ground arith
