-- ===== src/Dns/Alias.antt =====
-- `grabCNames`: a name in the wire, with pointers to names elsewhere in it, printed with dots.
use cs.Base.{
  ℕ, zero, suc, ◌+◌, ◌%◌, ◌≤◌, ◌<◌, ◌≡◌, refl, ap, ◌∙◌, Bool, true, false, List, [], ◌∷◌, ◌++◌,
  none, some, ◌==◌, leb, ltb, if◌then◌else◌, length, get_elem?, All, arith, length-append,
  append_assoc, append-nil, subst,
}
use cs.CString.{Bytes}
use cs.Dns.{dot}
use cs.Dns.Names.{labels_bytes, name_bytes, dotted}

-- `indexp` in the wire, whether a label has begun (`i != 0`), and what is printed.
pub record Cursor : Type 0 where
  pub indexp : ℕ
  pub begun : Bool
  pub out : Bytes

pub data Grab : Type 0 where
  onward : Cursor → Grab
  printed : Bytes → Grab
  outside : Grab

abbrev pub newline : ℕ
newline = 10

-- A pointer: the next byte is where the name goes on.
unfoldable pub jump : Bytes → Cursor → Grab
jump wire c = elim (get_elem? wire (c.indexp + 1)) [
  | none ↦ outside
  | some b ↦ onward (record c { indexp = b })
]

-- One round of the loop at byte `b`.
unfoldable pub grab_byte : Bytes → Cursor → ℕ → Grab
grab_byte wire c b =
    if b == 0
    then printed (c.out ++ newline ∷ [])
    else if leb 192 b
    then jump wire c
    else if ltb b 45
    then onward (record {
      indexp = c.indexp + 1;
      begun = true;
      out = if c.begun then c.out ++ dot ∷ [] else c.out;
    })
    else onward (record c { indexp = c.indexp + 1; out = c.out ++ b ∷ [] })

unfoldable pub grab_round : Bytes → Cursor → Grab
grab_round wire c = elim (get_elem? wire c.indexp) [ none ↦ outside | some b ↦ grab_byte wire c b ]

-- At most so many rounds.
unfoldable pub grab_rounds : ℕ → Bytes → Grab → Grab
grab_rounds zero wire g = g
grab_rounds (suc fuel) wire (onward c) = grab_rounds fuel wire (grab_round wire c)
grab_rounds (suc fuel) wire (printed s) = printed s
grab_rounds (suc fuel) wire outside = outside

unfoldable pub grab_cnames : ℕ → Bytes → ℕ → Grab
grab_cnames fuel wire indexp =
    grab_rounds fuel wire (onward (record { indexp = indexp; begun = false; out = [] }))

-- The text stands in the wire from byte `k` on.
abbrev pub At : Bytes → ℕ → Bytes → Type 0
At w k [] = Unit
At w k (b ∷ s) = (get_elem? w k ≡ some b) × At w (k + 1) s

-- A byte that is printed as it is.
abbrev pub IsPlain : ℕ → Type 0
IsPlain b = (45 ≤ b) × (b < 192)

abbrev pub IsShort : Bytes → Type 0
IsShort l = All IsPlain l × ((0 < length l) × (length l < 45))

abbrev pub cursor : ℕ → Bool → Bytes → Cursor
cursor k i s = record { indexp = k; begun = i; out = s }

grab_round-plain :
    (w : Bytes) (k b : ℕ) (i : Bool) (out : Bytes)
    → get_elem? w k ≡ some b
    → 45 ≤ b
    → b < 192
    → grab_round w (cursor k i out) ≡ onward (cursor (k + 1) i (out ++ b ∷ []))
unfolding grab_round grab_byte
grab_round-plain w k b i out h p q = rw (h, grab_round) (ground arith)

grab_round-length :
    (w : Bytes) (k b : ℕ) (i : Bool) (out : Bytes)
    → get_elem? w k ≡ some b
    → 0 < b
    → b < 45
    → grab_round w (cursor k i out)
      ≡ onward (cursor (k + 1) true (if i then out ++ dot ∷ [] else out))
unfolding grab_round grab_byte
grab_round-length w k b i out h p q = rw (h, grab_round) (ground arith)

grab_round-end :
    (w : Bytes) (k : ℕ) (i : Bool) (out : Bytes)
    → get_elem? w k ≡ some 0
    → grab_round w (cursor k i out) ≡ printed (out ++ newline ∷ [])
unfolding grab_round grab_byte
grab_round-end w k i out h = rw (h, grab_round) refl

rounds-suc :
    (f : ℕ) (w : Bytes) (c : Cursor) (g : Grab)
    → grab_round w c ≡ g
    → grab_rounds (suc f) w (onward c) ≡ grab_rounds f w g
unfolding grab_rounds
rounds-suc f w c g e = ap (grab_rounds f w) e

grab_text :
    (l r w : Bytes) (k f : ℕ) (i : Bool) (out : Bytes)
    → All IsPlain l
    → At w k (l ++ r)
    → (grab_rounds (length l + f) w (onward (cursor k i out))
        ≡ grab_rounds f w (onward (cursor (k + length l) i (out ++ l))))
      × At w (k + length l) r
grab_text [] r w k f i out p h =
    let e : k + 0 ≡ k = omega arith in
    let z : 0 + f ≡ f = omega arith in rw (e, z, append-nil out) (refl, h)
grab_text (b ∷ l) r w k f i out ((p, q), ps) (h, hs) =
    let e : k + suc (length l) ≡ k + 1 + length l = omega arith in
    let z : suc (length l) + f ≡ suc (length l + f) = omega arith in
    let (more, rest) = grab_text l r w (k + 1) f i (out ++ b ∷ []) ps hs in
    rw (e, z)
      (
        rounds-suc (length l + f) w (cursor k i out) _ (grab_round-plain w k b i out h p q)
            ∙ (more ∙ rw (append_assoc out (b ∷ []) l) refl),
        rest,
      )

-- The text of a name behind `out`, with a dot in front unless it comes first.
abbrev pub with_dots : Bool → Bytes → List Bytes → Bytes
with_dots i out [] = out
with_dots i out (l ∷ ls) = with_dots true ((if i then out ++ dot ∷ [] else out) ++ l) ls

rounds-printed : (f : ℕ) (w s : Bytes) → grab_rounds f w (printed s) ≡ printed s
unfolding grab_rounds
rounds-printed zero w s = refl
rounds-printed (suc f) w s = refl

grab_round-pointer :
    (w : Bytes) (k p q : ℕ) (i : Bool) (out : Bytes)
    → get_elem? w k ≡ some p
    → 192 ≤ p
    → get_elem? w (k + 1) ≡ some q
    → grab_round w (cursor k i out) ≡ onward (cursor q i out)
unfolding grab_round grab_byte jump
grab_round-pointer w k p q i out h l e = rw (h, grab_round) (rw (e, jump) (ground arith))

with_dots-dotted :
    (out l : Bytes) (ls : List Bytes) → with_dots true (out ++ l) ls ≡ out ++ dotted l ls
with_dots-dotted out l [] = refl
with_dots-dotted out l (k ∷ ks) =
    with_dots-dotted (out ++ l ++ dot ∷ []) k ks
    ∙ rw (append_assoc (out ++ l) (dot ∷ []) (dotted k ks), append_assoc out l (dot ∷ dotted k ks))
        refl

grab_labels :
    (ls : List Bytes) (w : Bytes) (k f : ℕ) (i : Bool) (out : Bytes)
    → All IsShort ls
    → At w k (name_bytes ls)
    → grab_rounds (length (name_bytes ls) + f) w (onward (cursor k i out))
      ≡ printed (with_dots i out ls ++ newline ∷ [])
grab_labels [] w k f i out p (h, _) =
    let z : 1 + f ≡ suc f = omega arith in
    rw z (
      rounds-suc f w (cursor k i out) _ (grab_round-end w k i out h)
      ∙ rounds-printed f w (out ++ newline ∷ []))
grab_labels (l ∷ ls) w k f i out ((p, (lo, hi)), ps) (h, hs) =
    let assoc = append_assoc l (labels_bytes ls) (0 ∷ []) in
    let m : length l % 256 ≡ length l = omega arith in
    let dots = if i then out ++ dot ∷ [] else out in
    let n = length-append l (name_bytes ls) in
    let z : suc (length (l ++ name_bytes ls)) + f ≡ suc (length l + (length (name_bytes ls) + f)) =
      omega (arith, n) in
    let (text, rest) =
      grab_text l (name_bytes ls) w (k + 1) (length (name_bytes ls) + f) true dots p
        (subst (At w (k + 1)) assoc hs) in
    rw (assoc, z)
      (rounds-suc (length l + (length (name_bytes ls) + f)) w (cursor k i out) _
          (grab_round-length w k (length l) i out (h ∙ ap (λ (b : ℕ). some b) m) lo hi)
        ∙ (text ∙ grab_labels ls w (k + 1 + length l) f true (dots ++ l) ps rest))

-- A name of labels of 1 to 44 bytes, each a byte from 45 to 191, without pointers, is printed with
-- dots between its labels, and a newline; as many rounds as the name has bytes are enough.
pub grab_cnames-name :
    (l : Bytes) (ls : List Bytes) (w : Bytes) (k f : ℕ)
    → All IsShort (l ∷ ls)
    → At w k (name_bytes (l ∷ ls))
    → grab_cnames (length (name_bytes (l ∷ ls)) + f) w k ≡ printed (dotted l ls ++ newline ∷ [])
unfolding grab_cnames
grab_cnames-name l ls w k f p h =
    grab_labels (l ∷ ls) w k f false [] p h ∙ rw (with_dots-dotted [] l ls) refl

-- A pointer to itself is followed for ever: no number of rounds ends.
pub grab_cnames_loops :
    (w : Bytes) (k p f : ℕ)
    → get_elem? w k ≡ some p
    → 192 ≤ p
    → get_elem? w (k + 1) ≡ some k
    → grab_cnames f w k ≡ onward (cursor k false [])
unfolding grab_cnames grab_rounds
grab_cnames_loops w k p zero h q e = refl
grab_cnames_loops w k p (suc f) h q e =
    rounds-suc f w (cursor k false []) (onward (cursor k false []))
      (grab_round-pointer w k p k false [] h q e)
    ∙ grab_cnames_loops w k p f h q e
