-- ===== src/Crc32c/Agrees.antt =====
-- src/crc32c.cc: the checksum does not depend on the processor, nor on what was computed before.
use mcsb.Base.{
  ℕ, ◌+◌, ◌≤◌, ◌<◌, ◌≡◌, refl, ap, ◌∙◌, ◌==◌, Bool, true, false, Bool-cases, inl, inr, ◌⊎◌, get_or,
}
use mcsb.Crc32c.{
  Crc, polynomial, initialize_crc_table, entries_from, shift_bits, table_byte, each_byte, word,
  update_crc32c, update_crc32c_sse42,
}
use mcsb.Crc32c.Table.{bitwise_byte, table_byte-bitwise, each_byte_same}
use mcsb.Crc32c.Sse42.{ahead, update_crc32c_sse42-each_byte}

-- The static variables before the first call, or after one.
abbrev pub IsStarted : Crc → Type 0
IsStarted s =
    ((get_or s.crc32c_table 0 0 == 0) ≡ false × s.is_accelerated ≡ false)
    ⊎ s.crc32c_table ≡ initialize_crc_table polynomial

-- The mark of a table that is filled in.
table-filled : (get_or (initialize_crc_table polynomial) 0 0 == 0) ≡ true
unfolding initialize_crc_table entries_from shift_bits
table-filled = refl

module _ (memory : ℕ → ℕ) (byte : (a : ℕ) → memory a < 256) (add add4 : ℕ → ℕ → ℕ)
    (one : (c b : ℕ) → b < 256 → add c b ≡ bitwise_byte polynomial c b)
    (four : (c a : ℕ)
      → add4 c (word memory a)
        ≡ add
            (add (add (add c (memory a)) (memory (a + 1))) (memory (a + 2)))
            (memory (a + 3))) where
  -- If memory holds bytes, the processor's instruction for a byte divides by the polynomial bit by
  -- bit, the one for a word does what it does for the four bytes, and the buffer holds the bytes
  -- before the next aligned address, then `update_crc32c` gives the checksum of the buffer's bytes
  -- in order, bit by bit, whether the processor has the instruction or not, both before the first
  -- call and with the table filled in; the table is filled in afterwards.
  pub update_crc32c-Agrees :
      (have_sse42 : Bool) (crc buf len : ℕ) (s : Crc)
      → IsStarted s
      → ahead buf ≤ len
      → let after = update_crc32c memory add add4 have_sse42 crc buf len s in
        after.0 ≡ each_byte memory (bitwise_byte polynomial) len crc buf
        × after.1.crc32c_table ≡ initialize_crc_table polynomial
  unfolding update_crc32c
  update_crc32c-Agrees have_sse42 crc buf len s started h =
      let fast : update_crc32c_sse42 memory add add4 crc buf len
          ≡ each_byte memory (bitwise_byte polynomial) len crc buf =
        update_crc32c_sse42-each_byte memory add add4 four crc buf len h
        ∙ each_byte_same memory add (bitwise_byte polynomial) byte one len crc buf in
      let slow : each_byte memory (table_byte (initialize_crc_table polynomial)) len crc buf
          ≡ each_byte memory (bitwise_byte polynomial) len crc buf =
        each_byte_same memory (table_byte (initialize_crc_table polynomial))
          (bitwise_byte polynomial) byte (table_byte-bitwise polynomial) len crc buf in
      elim started [
        | inl (fresh, off) ↦ elim (Bool-cases have_sse42) [
          | inl has ↦ rw (off, fresh, has) (fast, refl)
          | inr not ↦ rw (off, fresh, not) (slow, refl)
        ]
        | inr e ↦
            let filled : (get_or s.crc32c_table 0 0 == 0) ≡ true = rw e table-filled in
            elim (Bool-cases s.is_accelerated) [
              | inl on ↦ rw on (fast, e)
              | inr off ↦
                  rw (off, filled)
                    (ap (λ t. each_byte memory (table_byte t) len crc buf) e ∙ slow, e)
            ]
      ]
