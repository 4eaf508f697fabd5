-- ===== src/SlabTracker/Invariant.antt =====
-- The tracker's counts of held slabs and its vectors.
use mcsb.Base.{
  ℕ, zero, suc, ◌^◌, ◌≤◌, ◌<◌, ◌≡◌, Bool, true, false, not, List, [], ◌∷◌, some, arith, ◌==◌, bit,
  length, get_elem?, set, total, total-le-length,
}
use mcsb.SlabTracker.{Tracker}

abbrev pub used : ℕ → ℕ
used c = bit (not (c == 0))

-- Every count of the list is a `uint16_t`.
abbrev pub Small : List ℕ → Type 0
Small [] = Unit {0}
Small (c ∷ cs) = (c < 2 ^ 16) × Small cs

pub Small-set : (cs : List ℕ) (i v : ℕ) → v < 2 ^ 16 → Small cs → Small (set cs i v)
Small-set [] i v h s = tt
Small-set (c ∷ cs) zero v h s = (h, s.1)
Small-set (c ∷ cs) (suc i) v h s = (s.0, Small-set cs i v h s.1)

pub Small-get_elem? : (cs : List ℕ) (i c : ℕ) → Small cs → get_elem? cs i ≡ some c → c < 2 ^ 16
Small-get_elem? [] i c s e = absurd (ground arith)
Small-get_elem? (c' ∷ cs) zero c s e = ground arith
Small-get_elem? (c' ∷ cs) (suc i) c s e = Small-get_elem? cs i c s.1 e

-- The producer's half: as many slabs are counted as flags are set.
pub record IsProd (t : Tracker) : Type 0 where
  pub held : t.prod_slabs_held ≡ total bit t.prod_refcnt
  pub size : length t.prod_refcnt < 2 ^ 32

-- The consumer's half: as many slabs are counted as have references.
pub record IsCons (t : Tracker) : Type 0 where
  pub held : t.cons_slabs_held ≡ total used t.cons_refcnt
  pub small : Small t.cons_refcnt
  pub size : length t.cons_refcnt < 2 ^ 32

pub bit-le-one : (b : Bool) → bit b ≤ 1
bit-le-one true = omega arith
bit-le-one false = omega arith

pub prod_held-le : (t : Tracker) → IsProd t → t.prod_slabs_held ≤ length t.prod_refcnt
prod_held-le t p = omega (arith, p.held, total-le-length bit t.prod_refcnt bit-le-one)

pub cons_held-le : (t : Tracker) → IsCons t → t.cons_slabs_held ≤ length t.cons_refcnt
cons_held-le t p =
    omega (arith, p.held, total-le-length used t.cons_refcnt (λ c. bit-le-one (not (c == 0))))
