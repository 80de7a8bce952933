-- ===== src/Threaded/Sbuf/Modulo.antt =====
-- Places of a ring, and sums over the threads.
use native.Mathlib.Nat.{mul-le-mul_left, div-add-mod, mul-suc}
use cs.Base.{
  ℕ, zero, suc, ◌+◌, ◌*◌, ◌/◌, ◌%◌, ◌≤◌, ◌<◌, ◌≡◌, ◌≢◌, ◌⊎◌, inl, inr, refl, ap, List, [], ◌∷◌,
  ◌++◌, some, length, get_elem?, set, take, arith,
}

cases_le : (a b : ℕ) → (a ≤ b) ⊎ (b < a)
cases_le a b = ground arith

-- Two counters less than `n` apart have their items at different places.
pub mod_ne : (n a b : ℕ) → a < b → b < a + n → a % n ≢ b % n
mod_ne n a b h k e = elim (cases_le (b / n) (a / n)) [
  | inl q ↦ let m = mul-le-mul_left n q in omega (arith, div-add-mod a n, div-add-mod b n, m, e)
  | inr q ↦
      let m : n * suc (a / n) ≤ n * (b / n) = mul-le-mul_left n q in
      omega (arith, div-add-mod a n, div-add-mod b n, m, mul-suc n (a / n), e)
]

module _ {ℓ} {A : Type ℓ} where
  abbrev pub total : (A → ℕ) → List A → ℕ
  total f [] = 0
  total f (x ∷ xs) = f x + total f xs

  pub total-set :
      (f : A → ℕ) (xs : List A) (i : ℕ) (x y : A)
      → get_elem? xs i ≡ some x
      → total f (set xs i y) + f x ≡ total f xs + f y
  total-set f [] i x y h = ground arith
  total-set f (z ∷ xs) zero x y h = let e : z ≡ x = cc in omega (arith, ap f e)
  total-set f (z ∷ xs) (suc i) x y h = omega (arith, total-set f xs i x y h)

  pub total-get :
      (f : A → ℕ) (xs : List A) (i : ℕ) (x : A) → get_elem? xs i ≡ some x → f x ≤ total f xs
  total-get f [] i x h = ground arith
  total-get f (z ∷ xs) zero x h = let e : z ≡ x = cc in omega (arith, ap f e)
  total-get f (z ∷ xs) (suc i) x h = omega (arith, total-get f xs i x h)

module _ {ℓ} {A : Type ℓ} where
  pub get_elem?-snoc :
      (l : List A) (x y : A) (j : ℕ)
      → get_elem? (l ++ x ∷ []) j ≡ some y
      → (get_elem? l j ≡ some y) ⊎ ((j ≡ length l) × (x ≡ y))
  get_elem?-snoc [] x y zero h = inr (refl, ground arith)
  get_elem?-snoc [] x y (suc j) h = ground arith
  get_elem?-snoc (z ∷ l) x y zero h = inl h
  get_elem?-snoc (z ∷ l) x y (suc j) h = elim (get_elem?-snoc l x y j h) [
    | inl e ↦ inl e
    | inr (e, q) ↦ inr (ap suc e, q)
  ]

  pub take-snoc :
      (l : List A) (k : ℕ) (x : A) → get_elem? l k ≡ some x → take k l ++ x ∷ [] ≡ take (suc k) l
  take-snoc [] k x h = ground arith
  take-snoc (z ∷ l) zero x h = let e : x ≡ z = cc in ap (λ (t : A). t ∷ []) e
  take-snoc (z ∷ l) (suc k) x h = ap (λ (r : List A). z ∷ r) (take-snoc l k x h)

  pub get_elem?-exists : (l : List A) (k : ℕ) → k < length l → (x : A) × (get_elem? l k ≡ some x)
  get_elem?-exists [] k h = elim h [ ]
  get_elem?-exists (z ∷ l) zero h = (z, refl)
  get_elem?-exists (z ∷ l) (suc k) h = get_elem?-exists l k (omega arith)

  pub take-append_le : (k : ℕ) (l r : List A) → k ≤ length l → take k (l ++ r) ≡ take k l
  take-append_le zero l r h = refl
  take-append_le (suc k) [] r h = elim h [ ]
  take-append_le (suc k) (z ∷ l) r h =
      ap (λ (t : List A). z ∷ t) (take-append_le k l r (omega arith))
