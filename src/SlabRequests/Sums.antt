-- ===== src/SlabRequests/Sums.antt =====
-- Sums over the levels of the request manager.
use mcsb.Base.{ℕ, zero, suc, ◌+◌, ◌<◌, ◌≡◌, ◌≢◌, refl, ap, inl, inr, arith, ◌==◌, Bool-cases}

-- The sum over the levels below `n`.
abbrev pub sum_to : ℕ → (ℕ → ℕ) → ℕ
sum_to zero f = 0
sum_to (suc n) f = sum_to n f + f n

pub sum_to-ext : (n : ℕ) (f g : ℕ → ℕ) → ((i : ℕ) → i < n → f i ≡ g i) → sum_to n f ≡ sum_to n g
sum_to-ext zero f g same = refl
sum_to-ext (suc n) f g same =
    omega (arith, sum_to-ext n f g (λ i h. same i (omega arith)), same n (omega arith))

-- A sum that changes at `k` only.
pub sum_to-change :
    (n k : ℕ) (f g : ℕ → ℕ)
    → k < n
    → ((i : ℕ) → i ≢ k → f i ≡ g i)
    → sum_to n f + g k ≡ sum_to n g + f k
sum_to-change zero k f g h same = absurd (omega arith)
sum_to-change (suc n) k f g h same = elim (Bool-cases (k == n)) [
  | inl last ↦
      let e : k ≡ n = ground arith in
      let below : sum_to n f ≡ sum_to n g = sum_to-ext n f g (λ i lt. same i (λ q. omega arith)) in
      ground (arith, below, e, ap f e, ap g e)
  | inr earlier ↦
      omega (arith, sum_to-change n k f g (ground arith) same, same n (λ q. ground arith))
]

pub sum_to-zero : (n : ℕ) (f : ℕ → ℕ) → sum_to n f ≡ 0 → (i : ℕ) → i < n → f i ≡ 0
sum_to-zero zero f z i h = absurd (omega arith)
sum_to-zero (suc n) f z i h = elim (Bool-cases (i == n)) [
  | inl last ↦ let e : i ≡ n = ground arith in omega (arith, ap f e)
  | inr earlier ↦ sum_to-zero n f (omega arith) i (ground arith)
]
