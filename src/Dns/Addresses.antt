-- ===== src/Dns/Addresses.antt =====
-- An address is printed to an array of the length of its record, which is four.
use cs.Base.{
  ℕ, suc, ◌≤◌, ◌<◌, ◌≡◌, refl, ◌∷◌, ◌++◌, none, some, Option-cases, inl, inr, if◌then◌else◌, length,
  get_elem?, arith, length-append,
}
use cs.CString.{Bytes}
use cs.Http.{strcpy}
use cs.Dns.{dot}
use cs.Dns.Records.{
  Rr, decimal, ip_address, answer_line, answers, get_answer_address, rr_from_wire, two_bytes, Line,
}

length-decimal : (n : ℕ) → 0 < length (decimal n)
unfolding decimal
length-decimal n = ground arith

strcpy_short : (n : ℕ) (s : Bytes) → n ≤ length s → strcpy n s ≡ none
unfolding strcpy
strcpy_short n s h = ground arith

dotted_quad :
    (a b c d : ℕ)
    → 7 ≤ length (decimal a ++ (dot ∷ (decimal b ++ (dot ∷ (decimal c ++ (dot ∷ decimal d))))))
dotted_quad a b c d = omega (
  arith,
  length-append (decimal a) (dot ∷ (decimal b ++ (dot ∷ (decimal c ++ (dot ∷ decimal d))))),
  length-append (decimal b) (dot ∷ (decimal c ++ (dot ∷ decimal d))),
  length-append (decimal c) (dot ∷ decimal d),
  length-decimal a,
  length-decimal b,
  length-decimal c,
  length-decimal d,
)

ip_address_overflow : (r : Rr) → r.rdata_len ≤ 7 → ip_address r ≡ none
unfolding ip_address
ip_address_overflow r h = elim (Option-cases (get_elem? r.rdata 0)) [
  | inl e ↦ rw (e, ip_address) refl
  | inr (a, ea) ↦ elim (Option-cases (get_elem? r.rdata 1)) [
    | inl e ↦ rw (ea, e, ip_address) refl
    | inr (b, eb) ↦ elim (Option-cases (get_elem? r.rdata 2)) [
      | inl e ↦ rw (ea, eb, e, ip_address) refl
      | inr (c, ec) ↦ elim (Option-cases (get_elem? r.rdata 3)) [
        | inl e ↦ rw (ea, eb, ec, e, ip_address) refl
        | inr (d, ed) ↦
            rw (ea, eb, ec, ed, ip_address)
              (strcpy_short r.rdata_len _ (omega (arith, dotted_quad a b c d)))
      ]
    ]
  ]
]

-- Where the number of records is read as at least one and the first has the type A and no more than
-- seven bytes of data, of which an address has four, printing the address writes past its array.
pub get_answer_address_overflow :
    (fuel index n : ℕ) (fresh wire : Bytes) (indexp : ℕ) (r : Rr)
    → rr_from_wire fresh wire indexp ≡ some r
    → two_bytes wire index ≡ some (suc n)
    → r.rr_type ≡ 1
    → r.rdata_len ≤ 7
    → get_answer_address fuel index fresh wire indexp ≡ none
unfolding get_answer_address answers answer_line
get_answer_address_overflow fuel index n fresh wire indexp r e f t h =
    let q : answer_line fuel wire indexp r ≡ Line.unsafe =
      rw (ip_address_overflow r h, t, if◌then◌else◌) refl in
    rw (e, f, q, answers) refl
