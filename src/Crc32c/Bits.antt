-- ===== src/Crc32c/Bits.antt =====
-- `^` and `&` of src/crc32c.cc as arithmetic: the binary digits, lowest first.
use mcsb.Base.{ℕ, zero, suc, ◌+◌, ◌-◌, ◌*◌, ◌/◌, ◌%◌, ◌^◌, ◌≤◌, ◌<◌, ◌≡◌, refl, ap, ◌∙◌, arith}
use Prim.Native.Nat.{bit_and, bit_and-bitwise, bit_xor, bit_xor-bitwise, digits, min, differ}
use native.Mathlib.Nat.{pow-suc, one-le-pow}

-- `&`, for as many digits as the first number says.
abbrev digits_and : ℕ → ℕ → ℕ → ℕ
digits_and = digits (λ b. zero) min

digits_and-zero : (n a : ℕ) → digits_and n a 0 ≡ 0
digits_and-zero zero a = refl
digits_and-zero (suc n) zero = refl
digits_and-zero (suc n) (suc a) = omega (arith, digits_and-zero n (suc a / 2))

-- A shift by one place more.
pub shifted_once_more : (bits x : ℕ) → 2 * (x * 2 ^ bits) ≡ x * 2 ^ suc bits
shifted_once_more bits x =
    let double : 2 ^ suc bits ≡ 2 ^ bits * 2 = pow-suc 2 bits in
    let there : x * 2 ^ suc bits ≡ x * (2 ^ bits * 2) = ap (λ p. x * p) double in omega arith

digits_and_step :
    (n a b : ℕ)
    → a ≤ suc n
    → digits_and (suc n) a b ≡ digits_and n (a / 2) (b / 2) * 2 + min (a % 2) (b % 2)
digits_and_step zero zero b h = omega arith
digits_and_step (suc n) zero b h = omega arith
digits_and_step n (suc a) b h = refl

digits_and_parts :
    (places n high low a : ℕ)
    → low < 2 ^ places
    → a ≡ high * 2 ^ places + low
    → a ≤ n
    → digits_and n a (2 ^ places - 1) ≡ low
digits_and_parts zero n high low a small e h = ground (arith, digits_and-zero n a)
digits_and_parts (suc places) zero high low a small e h = omega arith
digits_and_parts (suc places) (suc n) high low a small e h =
    let twice = pow-suc 2 places in
    let some = one-le-pow places 2 in
    let more = shifted_once_more places high in
    let mask : (2 ^ suc places - 1) / 2 ≡ 2 ^ places - 1 = omega arith in
    let ih =
      digits_and_parts places n high (low / 2) (a / 2) (omega arith) (omega arith) (omega arith) in
    let rest : digits_and n (a / 2) ((2 ^ suc places - 1) / 2) ≡ low / 2 =
      ap (λ t. digits_and n (a / 2) t) mask ∙ ih in
    omega (arith, digits_and_step n a (2 ^ suc places - 1) h)

-- `^`, for as many digits as the first number says.
abbrev digits_xor : ℕ → ℕ → ℕ → ℕ
digits_xor = digits (λ b. b) differ

differ-mod : (a b : ℕ) → differ (a % 2) (b % 2) ≡ (a + b) % 2
differ-mod a b = small (a % 2) (b % 2) (omega arith) (omega arith) ∙ omega arith
  where
    small : (x y : ℕ) → x < 2 → y < 2 → differ x y ≡ (x + y) % 2
    small zero zero h h' = refl
    small zero (suc zero) h h' = refl
    small (suc zero) zero h h' = refl
    small (suc zero) (suc zero) h h' = refl
    small zero (suc (suc y)) h h' = absurd (omega arith)
    small (suc zero) (suc (suc y)) h h' = absurd (omega arith)
    small (suc (suc x)) y h h' = absurd (omega arith)

-- A digit more makes no difference.
digits_xor_count : (n m a b : ℕ) → a ≤ n → a ≤ m → digits_xor n a b ≡ digits_xor m a b
digits_xor_count zero zero a b h h' = refl
digits_xor_count zero (suc m) zero b h h' = refl
digits_xor_count (suc n) zero zero b h h' = refl
digits_xor_count (suc n) (suc m) zero b h h' = refl
digits_xor_count zero m (suc a) b h h' = absurd (omega arith)
digits_xor_count (suc n) zero (suc a) b h h' = absurd (omega arith)
digits_xor_count (suc n) (suc m) (suc a) b h h' =
    ap (λ t. t * 2 + differ (suc a % 2) (b % 2))
      (digits_xor_count n m (suc a / 2) (b / 2) (omega arith) (omega arith))

pub bit_xor_zero : (b : ℕ) → bit_xor 0 b ≡ b
bit_xor_zero b = λ i. bit_xor-bitwise 0 b i

pub bit_xor_step : (a b : ℕ) → bit_xor a b ≡ bit_xor (a / 2) (b / 2) * 2 + (a + b) % 2
bit_xor_step zero b = omega (arith, bit_xor_zero b, bit_xor_zero (b / 2))
bit_xor_step (suc a) b =
    let whole : bit_xor (suc a) b ≡ digits_xor (suc a) (suc a) b =
      λ i. bit_xor-bitwise (suc a) b i in
    let half : bit_xor (suc a / 2) (b / 2) ≡ digits_xor (suc a / 2) (suc a / 2) (b / 2) =
      λ i. bit_xor-bitwise (suc a / 2) (b / 2) i in
    whole
    ∙ ap (λ t. t * 2 + differ (suc a % 2) (b % 2))
        (digits_xor_count a (suc a / 2) (suc a / 2) (b / 2) (omega arith) (omega arith))
    ∙ omega (arith, half, differ-mod (suc a) b)

-- By induction on a bound of the numbers.
bit_xor_comm_below : (n a b : ℕ) → a ≤ n → b ≤ n → bit_xor a b ≡ bit_xor b a
bit_xor_comm_below zero zero zero h h' = refl
bit_xor_comm_below zero (suc a) b h h' = absurd (omega arith)
bit_xor_comm_below zero zero (suc b) h h' = absurd (omega arith)
bit_xor_comm_below (suc n) a b h h' = omega (
  arith,
  bit_xor_step a b,
  bit_xor_step b a,
  bit_xor_comm_below n (a / 2) (b / 2) (omega arith) (omega arith),
)

pub bit_xor_comm : (a b : ℕ) → bit_xor a b ≡ bit_xor b a
bit_xor_comm a b = bit_xor_comm_below (a + b) a b (omega arith) (omega arith)

pub bit_xor_half : (a b : ℕ) → bit_xor a b / 2 ≡ bit_xor (a / 2) (b / 2)
bit_xor_half a b = omega (arith, bit_xor_step a b)

pub bit_xor_odd : (a b : ℕ) → bit_xor a b % 2 ≡ (a + b) % 2
bit_xor_odd a b = omega (arith, bit_xor_step a b)

bit_xor_assoc_below :
    (n a b c : ℕ) → a ≤ n → b ≤ n → c ≤ n → bit_xor (bit_xor a b) c ≡ bit_xor a (bit_xor b c)
bit_xor_assoc_below zero zero zero zero h h' h'' = refl
bit_xor_assoc_below zero (suc a) b c h h' h'' = absurd (omega arith)
bit_xor_assoc_below zero zero (suc b) c h h' h'' = absurd (omega arith)
bit_xor_assoc_below zero zero zero (suc c) h h' h'' = absurd (omega arith)
bit_xor_assoc_below (suc n) a b c h h' h'' =
    let left : bit_xor (bit_xor a b / 2) (c / 2) ≡ bit_xor (bit_xor (a / 2) (b / 2)) (c / 2) =
      ap (λ t. bit_xor t (c / 2)) (bit_xor_half a b) in
    let right : bit_xor (a / 2) (bit_xor b c / 2) ≡ bit_xor (a / 2) (bit_xor (b / 2) (c / 2)) =
      ap (λ t. bit_xor (a / 2) t) (bit_xor_half b c) in
    let ih =
      bit_xor_assoc_below n (a / 2) (b / 2) (c / 2) (omega arith) (omega arith) (omega arith) in
    omega (
      arith,
      bit_xor_step (bit_xor a b) c,
      bit_xor_step a (bit_xor b c),
      bit_xor_odd a b,
      bit_xor_odd b c,
    )

pub bit_xor_assoc : (a b c : ℕ) → bit_xor (bit_xor a b) c ≡ bit_xor a (bit_xor b c)
bit_xor_assoc a b c =
    bit_xor_assoc_below (a + b + c) a b c (omega arith) (omega arith) (omega arith)

bit_xor_self_below : (n a : ℕ) → a ≤ n → bit_xor a a ≡ 0
bit_xor_self_below zero zero h = refl
bit_xor_self_below zero (suc a) h = absurd (omega arith)
bit_xor_self_below (suc n) a h =
    omega (arith, bit_xor_step a a, bit_xor_self_below n (a / 2) (omega arith))

pub bit_xor_self : (a : ℕ) → bit_xor a a ≡ 0
bit_xor_self a = bit_xor_self_below a a (omega arith)

-- The bits below and above a place.
pub bit_xor_parts :
    (places high low : ℕ)
    → low < 2 ^ places
    → bit_xor low (high * 2 ^ places) ≡ high * 2 ^ places + low
bit_xor_parts zero high low small =
    let none : low ≡ 0 = omega arith in
    ap (λ x. bit_xor x (high * 1)) none ∙ bit_xor_zero (high * 1) ∙ omega arith
bit_xor_parts (suc places) high low small = omega (
  arith,
  bit_xor_step low (high * 2 ^ suc places),
  shifted_once_more places high,
  pow-suc 2 places,
  ap (λ t. bit_xor (low / 2) t) (half high places),
  bit_xor_parts places high (low / 2) (omega (arith, pow-suc 2 places)),
)
  where
    half : (high places : ℕ) → high * 2 ^ suc places / 2 ≡ high * 2 ^ places
    half high places = omega (arith, shifted_once_more places high)

-- Masking off all but the low bits leaves a remainder.
pub bit_and_low : (k a : ℕ) → bit_and a (2 ^ k - 1) ≡ a % 2 ^ k
bit_and_low k a =
    let whole : bit_and a (2 ^ k - 1) ≡ digits_and a a (2 ^ k - 1) =
      λ i. bit_and-bitwise a (2 ^ k - 1) i in
    let some = one-le-pow k 2 in
    let fields = digits_and_parts k a (a / 2 ^ k) (a % 2 ^ k) a in ground arith
