-- ===== src/Crc32c/Table.antt =====
-- The table of src/crc32c.cc: a lookup and a shift do what eight rounds of the polynomial division do.
use mcsb.Base.{
  ℕ, zero, suc, ◌+◌, ◌*◌, ◌/◌, ◌%◌, ◌^◌, ◌<◌, ◌≡◌, refl, ap, sym, ◌∙◌, ◌==◌, false, if◌then◌else◌,
  Bool-cases, inl, inr, get_or, arith,
}
use Prim.Native.Nat.{bit_and, bit_xor}
use mcsb.Crc32c.{initialize_crc_table, entries_from, shift_bits, table_byte, each_byte}
use mcsb.Crc32c.Bits.{
  bit_xor_half, bit_xor_odd, bit_xor_zero, bit_xor_assoc, bit_xor_comm, bit_xor_self, bit_xor_parts,
  bit_and_low, shifted_once_more,
}

-- A byte added bit by bit: the definition of the checksum.
abbrev pub bitwise_byte : ℕ → ℕ → ℕ → ℕ
bitwise_byte poly crc b = shift_bits 8 poly (bit_xor crc b)

-- What a round adds for the bit that it shifts out.
abbrev carry : ℕ → ℕ → ℕ
carry poly crc = if crc % 2 == 1 then poly else 0

-- A round, without its test.
abbrev shift : ℕ → ℕ → ℕ
shift poly crc = bit_xor (carry poly crc) (crc / 2)

shift_bits-shift :
    (bits poly crc : ℕ) → shift_bits (suc bits) poly crc ≡ shift_bits bits poly (shift poly crc)
unfolding shift_bits
shift_bits-shift bits poly crc =
    let mask : bit_and crc 1 ≡ crc % 2 = bit_and_low 1 crc in
    elim (Bool-cases (crc % 2 == 1)) [
      | inl e ↦ rw (mask, e) refl
      | inr e ↦ rw (mask, e) (ap (λ t. shift_bits bits poly t) (sym (bit_xor_zero (crc / 2))))
    ]

-- Exclusive or of two pairs, pair by pair.
bit_xor_exchange :
    (a b c d : ℕ) → bit_xor (bit_xor a b) (bit_xor c d) ≡ bit_xor (bit_xor a c) (bit_xor b d)
bit_xor_exchange a b c d =
    bit_xor_assoc a b (bit_xor c d)
    ∙ ap (λ t. bit_xor a t)
        (sym (bit_xor_assoc b c d) ∙ ap (λ t. bit_xor t d) (bit_xor_comm b c) ∙ bit_xor_assoc c b d)
    ∙ sym (bit_xor_assoc a c (bit_xor b d))

carry-xor : (poly a b : ℕ) → carry poly (bit_xor a b) ≡ bit_xor (carry poly a) (carry poly b)
carry-xor poly a b = ground (
  arith,
  bit_xor_odd a b,
  bit_xor_zero poly,
  bit_xor_zero 0,
  bit_xor_self poly,
  bit_xor_comm poly 0,
)

shift-xor : (poly a b : ℕ) → shift poly (bit_xor a b) ≡ bit_xor (shift poly a) (shift poly b)
shift-xor poly a b =
    ap (λ t. bit_xor t (bit_xor a b / 2)) (carry-xor poly a b)
    ∙ ap (λ t. bit_xor (bit_xor (carry poly a) (carry poly b)) t) (bit_xor_half a b)
    ∙ bit_xor_exchange (carry poly a) (carry poly b) (a / 2) (b / 2)

shift_bits-xor :
    (bits poly a b : ℕ)
    → shift_bits bits poly (bit_xor a b) ≡ bit_xor (shift_bits bits poly a) (shift_bits bits poly b)
unfolding shift_bits
shift_bits-xor zero poly a b = refl
shift_bits-xor (suc bits) poly a b =
    shift_bits-shift bits poly (bit_xor a b)
    ∙ ap (λ t. shift_bits bits poly t) (shift-xor poly a b)
    ∙ shift_bits-xor bits poly (shift poly a) (shift poly b)
    ∙ sym (ap (λ t. bit_xor t (shift_bits bits poly (shift poly b))) (shift_bits-shift bits poly a))
    ∙ sym (ap (λ t. bit_xor (shift_bits (suc bits) poly a) t) (shift_bits-shift bits poly b))

-- Rounds that shift out zeros only.
shift_bits-even : (bits poly q : ℕ) → shift_bits bits poly (q * 2 ^ bits) ≡ q
unfolding shift_bits
shift_bits-even zero poly q = omega arith
shift_bits-even (suc bits) poly q =
    let twice = shifted_once_more bits q in
    let even : (q * 2 ^ suc bits % 2 == 1) ≡ false = ground arith in
    let half : q * 2 ^ suc bits / 2 ≡ q * 2 ^ bits = omega arith in
    let shifted : shift poly (q * 2 ^ suc bits) ≡ q * 2 ^ bits =
      rw even (bit_xor_zero (q * 2 ^ suc bits / 2) ∙ half) in
    shift_bits-shift bits poly (q * 2 ^ suc bits)
    ∙ ap (λ t. shift_bits bits poly t) shifted
    ∙ shift_bits-even bits poly q

get_or-entries_from :
    (count i poly k : ℕ)
    → k < count
    → get_or (entries_from count i poly) k 0 ≡ shift_bits 8 poly (i + k)
unfolding entries_from
get_or-entries_from zero i poly k h = absurd (omega arith)
get_or-entries_from (suc count) i poly zero h = ap (λ t. shift_bits 8 poly t) (omega arith)
get_or-entries_from (suc count) i poly (suc k) h =
    get_or-entries_from count (i + 1) poly k (omega arith) ∙ ap (λ t. shift_bits 8 poly t) sum
  where
    sum : i + 1 + k ≡ i + suc k
    sum = omega arith

-- A number shifted right by `n` places.
abbrev halves : ℕ → ℕ → ℕ
halves zero a = a
halves (suc n) a = halves n (a / 2)

halves-xor : (n a b : ℕ) → halves n (bit_xor a b) ≡ bit_xor (halves n a) (halves n b)
halves-xor zero a b = refl
halves-xor (suc n) a b = ap (λ t. halves n t) (bit_xor_half a b) ∙ halves-xor n (a / 2) (b / 2)

-- A byte leaves what lies above it.
bit_xor_above : (crc b : ℕ) → b < 256 → bit_xor crc b / 256 ≡ crc / 256
bit_xor_above crc b h =
    let none : halves 8 b ≡ 0 = omega arith in
    let left : bit_xor crc b / 256 ≡ halves 8 (bit_xor crc b) = omega arith in
    let right : halves 8 crc ≡ crc / 256 = omega arith in
    left
    ∙ halves-xor 8 crc b
    ∙ ap (λ t. bit_xor (halves 8 crc) t) none
    ∙ bit_xor_comm (halves 8 crc) 0
    ∙ bit_xor_zero (halves 8 crc)
    ∙ right

-- Eight rounds work on the low byte alone.
shift_bits-byte :
    (poly x : ℕ) → shift_bits 8 poly x ≡ bit_xor (shift_bits 8 poly (x % 256)) (x / 256)
shift_bits-byte poly x =
    let split : x ≡ bit_xor (x % 256) (x / 256 * 2 ^ 8) =
      omega (arith, bit_xor_parts 8 (x / 256) (x % 256) (omega arith)) in
    ap (λ t. shift_bits 8 poly t) split
    ∙ shift_bits-xor 8 poly (x % 256) (x / 256 * 2 ^ 8)
    ∙ ap (λ t. bit_xor (shift_bits 8 poly (x % 256)) t) (shift_bits-even 8 poly (x / 256))

-- A round of `update_crc32c` on a byte, with the table that `initialize_crc_table` makes of any
-- polynomial, is the division by that polynomial over the eight bits of the byte.
pub table_byte-bitwise :
    (poly crc b : ℕ)
    → b < 256
    → table_byte (initialize_crc_table poly) crc b ≡ bitwise_byte poly crc b
unfolding initialize_crc_table table_byte
table_byte-bitwise poly crc b h =
    let x = bit_xor crc b in
    let entry : get_or (entries_from 256 0 poly) (x % 256) 0 ≡ shift_bits 8 poly (x % 256) =
      get_or-entries_from 256 0 poly (x % 256) (omega arith)
      ∙ ap (λ t. shift_bits 8 poly t) (omega arith) in
    ap (λ t. bit_xor (get_or (entries_from 256 0 poly) t 0) (crc / 256)) (bit_and_low 8 x)
    ∙ ap (λ t. bit_xor t (crc / 256)) entry
    ∙ ap (λ t. bit_xor (shift_bits 8 poly (x % 256)) t) (sym (bit_xor_above crc b h))
    ∙ sym (shift_bits-byte poly x)

-- Two ways to add a byte that agree on bytes agree on a buffer.
pub each_byte_same :
    (memory : ℕ → ℕ) (f g : ℕ → ℕ → ℕ)
    → ((a : ℕ) → memory a < 256)
    → ((c b : ℕ) → b < 256 → f c b ≡ g c b)
    → (len crc at : ℕ) → each_byte memory f len crc at ≡ each_byte memory g len crc at
unfolding each_byte
each_byte_same memory f g h same zero crc at = refl
each_byte_same memory f g h same (suc len) crc at =
    ap (λ c. each_byte memory f len c (at + 1)) (same crc (memory at) (h at))
    ∙ each_byte_same memory f g h same len (g crc (memory at)) (at + 1)
