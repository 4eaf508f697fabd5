-- ===== src/Base/Count.antt =====
-- Lists of hooks as an intrusive list sees them: how often an item occurs, and taking one out.
use Prim.Native.Nat.{ℕ, zero, suc, ◌+◌, ◌-◌, ◌≤◌}
use mathlib.Core.Path.{◌≡◌, refl}
use mathlib.Core.Logic.{◌≢◌, inl, inr}
use mathlib.Core.Bool.{Bool, true, false}
use mathlib.Core.List.{List, [], ◌∷◌, ◌++◌}
use native.Mathlib.Omega.{arith}
use mcsb.Base.Tests.{◌==◌, ltb, if◌then◌else◌, bit, Bool-cases}
use mcsb.Base.Lists.{length, take, drop, total}

abbrev pub count : ℕ → List ℕ → ℕ
count x [] = 0
count x (y ∷ ys) = bit (x == y) + count x ys

abbrev pub mem : ℕ → List ℕ → Bool
mem x xs = ltb 0 (count x xs)

-- `erase` by hook: the item leaves the list, the others keep their order.
abbrev pub erase : ℕ → List ℕ → List ℕ
erase x [] = []
erase x (y ∷ ys) = if x == y then ys else y ∷ erase x ys

pub count-append : (x : ℕ) (xs ys : List ℕ) → count x (xs ++ ys) ≡ count x xs + count x ys
count-append x [] ys = omega arith
count-append x (y ∷ xs) ys = omega (arith, count-append x xs ys)

pub count-erase : (z x : ℕ) (xs : List ℕ) → count z (erase x xs) ≡ count z xs - bit (z == x)
count-erase z x [] = ground arith
count-erase z x (y ∷ xs) = ground (arith, count-erase z x xs)

pub count-le-length : (x : ℕ) (xs : List ℕ) → count x xs ≤ length xs
count-le-length x [] = omega arith
count-le-length x (y ∷ xs) = ground (arith, count-le-length x xs)

pub length-erase : (x : ℕ) (xs : List ℕ) → length (erase x xs) ≡ length xs - bit (mem x xs)
length-erase x [] = refl
length-erase x (y ∷ xs) = ground (arith, length-erase x xs, count-le-length x xs)

pub count-take-drop :
    (x n : ℕ) (xs : List ℕ) → count x (take n xs) + count x (drop n xs) ≡ count x xs
count-take-drop x zero xs = omega arith
count-take-drop x (suc n) [] = omega arith
count-take-drop x (suc n) (y ∷ xs) = omega (arith, count-take-drop x n xs)

-- No item stands twice.
abbrev pub Distinct : List ℕ → Type 0
Distinct [] = Unit {0}
Distinct (x ∷ xs) = (mem x xs ≡ false) × Distinct xs

pub Distinct-of_count : (xs : List ℕ) → ((x : ℕ) → count x xs ≤ 1) → Distinct xs
Distinct-of_count [] h = tt
Distinct-of_count (x ∷ xs) h =
    (ground (arith, h x), Distinct-of_count xs (λ y. ground (arith, h y)))

pub total-erase :
    (w : ℕ → ℕ) (x : ℕ) (xs : List ℕ) → mem x xs ≡ true → total w (erase x xs) + w x ≡ total w xs
total-erase w x [] h = ground arith
total-erase w x (y ∷ xs) h = elim (Bool-cases (x == y)) [
  | inl same ↦ rw same (ground arith)
  | inr other ↦ rw other (ground (arith, total-erase w x xs (ground arith)))
]

-- A weight that is changed at an item that does not occur.
pub total-congr :
    (w w' : ℕ → ℕ) (a : ℕ) (xs : List ℕ)
    → mem a xs ≡ false
    → ((b : ℕ) → b ≢ a → w b ≡ w' b)
    → total w xs ≡ total w' xs
total-congr w w' a [] new same = refl
total-congr w w' a (b ∷ xs) new same =
    ground (arith, same b (λ e. ground arith), total-congr w w' a xs (ground arith) same)

pub total-ext : (w w' : ℕ → ℕ) (xs : List ℕ) → ((b : ℕ) → w b ≡ w' b) → total w xs ≡ total w' xs
total-ext w w' [] same = refl
total-ext w w' (b ∷ xs) same = ground (arith, same b, total-ext w w' xs same)
