-- ===== src/Crc32c/Tests.antt =====
-- A buffer that starts one byte behind an aligned address, and the theorems of the checksum at it.
use mcsb.Base.{ℕ, ◌+◌, ◌-◌, ◌/◌, ◌%◌, ◌^◌, ◌≡◌, refl, true, false, [], ◌∷◌, inl, arith}
use mcsb.Crc32c.{
  Crc, polynomial, initialize_crc_table, entries_from, shift_bits, table_byte, each_byte, word,
  align, update_crc32c, crc32c, crc32c_is_accelerated,
}
use mcsb.Crc32c.Sse42.{align-wraps}
use mcsb.Crc32c.Table.{bitwise_byte, table_byte-bitwise}
use mcsb.Crc32c.Agrees.{update_crc32c-Agrees}

abbrev bytes : ℕ → ℕ
bytes a = a % 256

-- The processor's instruction for a byte.
abbrev add_byte : ℕ → ℕ → ℕ
add_byte = bitwise_byte polynomial

-- The processor's instruction for a word, by its bytes.
abbrev add_word : ℕ → ℕ → ℕ
add_word c w =
    add_byte (add_byte (add_byte (add_byte c (w % 256)) (w / 256 % 256)) (w / 65536 % 256))
      (w / 16777216 % 256)

add_word-four :
    (c a : ℕ)
    → add_word c (word bytes a)
      ≡ add_byte
          (add_byte (add_byte (add_byte c (bytes a)) (bytes (a + 1))) (bytes (a + 2)))
          (bytes (a + 3))
add_word-four c a =
    let b0 : word bytes a % 256 ≡ bytes a = omega arith in
    let b1 : word bytes a / 256 % 256 ≡ bytes (a + 1) = omega arith in
    let b2 : word bytes a / 65536 % 256 ≡ bytes (a + 2) = omega arith in
    let b3 : word bytes a / 16777216 % 256 ≡ bytes (a + 3) = omega arith in
    simp (b0, b1, b2, b3) refl

-- The variables as the program starts.
abbrev started : Crc
started = record { crc32c_table = 1 ∷ []; is_accelerated = false }

abbrev first_update : ℕ × Crc
first_update = update_crc32c bytes add_byte add_word true (2 ^ 32 - 1) 49 9 started

update_crc32c-Agrees_example :
    first_update.0 ≡ each_byte bytes (bitwise_byte polynomial) 9 (2 ^ 32 - 1) 49
    × first_update.1.crc32c_table ≡ initialize_crc_table polynomial
update_crc32c-Agrees_example =
    update_crc32c-Agrees bytes (λ a. omega arith) add_byte add_word (λ c b h. refl) add_word-four
      true (2 ^ 32 - 1) 49 9 started (inl (refl, refl)) (omega arith)

align-wraps_example :
    (align bytes add_byte add_word 4 (record { crc = 0; at = 1; left = 2 })).left ≡ 2 ^ 64 - 1
align-wraps_example =
    align-wraps bytes add_byte add_word 4 (record { crc = 0; at = 1; left = 2 }) (omega arith)
      (omega arith)

table_byte-bitwise_example :
    table_byte (initialize_crc_table polynomial) 305419896 97 ≡ bitwise_byte polynomial 305419896 97
table_byte-bitwise_example = table_byte-bitwise polynomial 305419896 97 (omega arith)

-- The checksum of "123456789", at the addresses that its characters number.
check_value : (crc32c bytes add_byte add_word false 49 9 started).0 ≡ 3808858755
unfolding crc32c update_crc32c crc32c_is_accelerated initialize_crc_table entries_from shift_bits
    table_byte each_byte
check_value = refl
