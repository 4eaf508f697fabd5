-- ===== src/Crc32c.antt =====
-- src/crc32c.cc: the checksum of a buffer in memory, by a table or by the processor's instruction for it. The memory
-- is a function from addresses to bytes; the two forms of the instruction are parameters.
use mcsb.Base.{
  ℕ, zero, suc, ◌+◌, ◌-◌, ◌*◌, ◌/◌, ◌%◌, ◌^◌, ◌==◌, Bool, true, false, not, ◌&&◌, List, [], ◌∷◌,
  if◌then◌else◌, leb, get_or, is_nil,
}
use Prim.Native.Nat.{bit_and, bit_xor}
pub mod Bits
pub mod Sse42
pub mod Table
pub mod Agrees
mod Tests

-- `kPolynomialCRC32C`.
abbrev pub polynomial : ℕ
polynomial = 2197175160

-- The inner loop of `initialize_crc_table`, for `bits` rounds.
pub shift_bits : ℕ → ℕ → ℕ → ℕ
shift_bits zero poly crc = crc
shift_bits (suc bits) poly crc =
    shift_bits bits poly (if bit_and crc 1 == 1 then bit_xor poly (crc / 2) else crc / 2)

-- The outer loop, for `count` entries from the one numbered `i` on.
pub entries_from : ℕ → ℕ → ℕ → List ℕ
unfolding shift_bits
entries_from zero i poly = []
entries_from (suc count) i poly = shift_bits 8 poly i ∷ entries_from count (i + 1) poly

pub initialize_crc_table : ℕ → List ℕ
unfolding entries_from
initialize_crc_table poly = entries_from 256 0 poly

-- A loop over bytes: where it stands, the bytes left as a `size_t`, and the checksum so far.
pub record Run : Type 0 where
  pub crc : ℕ
  pub at : ℕ
  pub left : ℕ

-- One round of the loop of `update_crc32c`.
pub table_byte : List ℕ → ℕ → ℕ → ℕ
table_byte table crc b = bit_xor (get_or table (bit_and (bit_xor crc b) 255) 0) (crc / 256)

-- The two static variables, `crc32c_table` and `isAccelerated`.
pub record Crc : Type 0 where
  pub crc32c_table : List ℕ
  pub is_accelerated : Bool

-- `have_sse42` is the bit that the CPUID instruction tells.
pub crc32c_is_accelerated : Bool → Bool → Crc → Crc
crc32c_is_accelerated have_sse42 use_accelerated s = record {
  crc32c_table =
      if get_or s.crc32c_table 0 0 == 0 then s.crc32c_table else initialize_crc_table polynomial;
  is_accelerated = use_accelerated && have_sse42;
}

module _ (memory : ℕ → ℕ) where
  -- `len` bytes from an address on, byte by byte.
  pub each_byte : (ℕ → ℕ → ℕ) → ℕ → ℕ → ℕ → ℕ
  each_byte add zero crc at = crc
  each_byte add (suc len) crc at = each_byte add len (add crc (memory at)) (at + 1)

  -- `*((uint32_t*)b)` on a little-endian machine.
  abbrev pub word : ℕ → ℕ
  word a = memory a + 256 * memory (a + 1) + 65536 * memory (a + 2) + 16777216 * memory (a + 3)

  module _ (sse42_uint8 sse42_uint32 : ℕ → ℕ → ℕ) where
    -- The first loop, up to an aligned address: its last test decrements `len` even when it is zero.
    pub align : ℕ → Run → Run
    align zero r = r
    align (suc rounds) r =
        let next : Run = record {
          crc = sse42_uint8 r.crc (memory r.at);
          at = r.at + 1;
          left = r.left - 1;
        } in
        let rest = align rounds next in
        if bit_and r.at 3 == 0
        then r
        else if r.left == 0
        then record r { left = 2 ^ 64 - 1 }
        else rest

    -- The second loop, by words.
    pub words : ℕ → Run → Run
    words zero r = r
    words (suc rounds) r =
        let next : Run = record {
          crc = sse42_uint32 r.crc (word r.at);
          at = r.at + 4;
          left = r.left - 4;
        } in
        let rest = words rounds next in if leb 4 r.left then rest else r

    -- No more than three bytes stand before an aligned address, and each word takes four.
    pub update_crc32c_sse42 : ℕ → ℕ → ℕ → ℕ
    unfolding align words each_byte
    update_crc32c_sse42 crc buf len =
        let r = align 4 (record { crc = crc; at = buf; left = len }) in
        let r' = words (r.left / 4) r in each_byte sse42_uint8 r'.left r'.crc r'.at

    -- The checksum and the static variables afterwards; `use_accelerated` has the default `true`.
    pub update_crc32c : Bool → ℕ → ℕ → ℕ → Crc → ℕ × Crc
    unfolding crc32c_is_accelerated
    update_crc32c have_sse42 crc buf len s =
        let s' =
          if get_or s.crc32c_table 0 0 == 0 then s else crc32c_is_accelerated have_sse42 true s in
        if s.is_accelerated
        then (update_crc32c_sse42 crc buf len, s)
        else if s'.is_accelerated
        then (update_crc32c_sse42 crc buf len, s')
        else (each_byte (table_byte s'.crc32c_table) len crc buf, s')

    pub crc32c : Bool → ℕ → ℕ → Crc → ℕ × Crc
    unfolding update_crc32c
    crc32c have_sse42 buf len s =
        let (crc, s') = update_crc32c have_sse42 (2 ^ 32 - 1) buf len s in
        (bit_xor crc (2 ^ 32 - 1), s')
