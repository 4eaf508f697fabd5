-- ===== src/Crc32c/Sse42.antt =====
-- The accelerated update of src/crc32c.cc against the one byte by byte, and where it runs past the buffer.
use mcsb.Base.{
  ℕ, zero, suc, ◌+◌, ◌-◌, ◌/◌, ◌%◌, ◌^◌, ◌≤◌, ◌<◌, ◌≡◌, refl, ap, sym, ◌∙◌, ◌==◌, false, leb,
  Bool-cases, inl, inr, arith,
}
use Prim.Native.Nat.{bit_and}
use mcsb.Crc32c.Bits.{bit_and_low}
use mcsb.Crc32c.{Run, each_byte, word, align, words, update_crc32c_sse42}

pub bit_and-three : (a : ℕ) → bit_and a 3 ≡ a % 4
bit_and-three a = bit_and_low 2 a

-- The bytes from an address up to the next aligned one.
abbrev pub ahead : ℕ → ℕ
ahead at = (4 - at % 4) % 4

module _ (memory : ℕ → ℕ) (add : ℕ → ℕ → ℕ) where
  -- Four bytes at once.
  each_byte_four :
      (n c a : ℕ)
      → each_byte memory add (suc (suc (suc (suc n)))) c a
        ≡ each_byte memory add n
            (add (add (add (add c (memory a)) (memory (a + 1))) (memory (a + 2))) (memory (a + 3)))
            (a + 4)
  unfolding each_byte
  each_byte_four n c a =
      let two : a + 1 + 1 ≡ a + 2 = omega arith in
      let three : a + 2 + 1 ≡ a + 3 = omega arith in
      let all : a + 3 + 1 ≡ a + 4 = omega arith in rw (two, three, all) refl

  module _ (add4 : ℕ → ℕ → ℕ)
      (four : (c a : ℕ)
        → add4 c (word memory a)
          ≡ add
              (add (add (add c (memory a)) (memory (a + 1))) (memory (a + 2)))
              (memory (a + 3))) where
    -- What is still to come of a run.
    abbrev finish : Run → ℕ
    finish r = each_byte memory add r.left r.crc r.at

    words-finish : (rounds : ℕ) (r : Run) → finish (words memory add add4 rounds r) ≡ finish r
    unfolding words
    words-finish zero r = refl
    words-finish (suc rounds) r = elim (Bool-cases (leb 4 r.left)) [
      | inr h ↦ rw h refl
      | inl h ↦
          let long : r.left ≡ suc (suc (suc (suc (r.left - 4)))) = ground arith in
          let next : Run = record {
            crc = add4 r.crc (word memory r.at);
            at = r.at + 4;
            left = r.left - 4;
          } in
          let last : finish next ≡ finish r =
            ap (λ c. each_byte memory add (r.left - 4) c (r.at + 4)) (four r.crc r.at)
            ∙ sym (each_byte_four (r.left - 4) r.crc r.at)
            ∙ ap (λ n. each_byte memory add n r.crc r.at) (sym long) in
          rw h (words-finish rounds next ∙ last)
    ]

    align-finish :
        (rounds : ℕ) (r : Run)
        → ahead r.at ≤ r.left
        → finish (align memory add add4 rounds r) ≡ finish r
    unfolding align each_byte
    align-finish zero r h = refl
    align-finish (suc rounds) r h = elim (Bool-cases (bit_and r.at 3 == 0)) [
      | inl e ↦ rw e refl
      | inr e ↦
          let mask = bit_and-three r.at in
          let some : (r.left == 0) ≡ false = ground arith in
          let long : r.left ≡ suc (r.left - 1) = ground arith in
          let next : Run = record {
            crc = add r.crc (memory r.at);
            at = r.at + 1;
            left = r.left - 1;
          } in
          let last : finish next ≡ finish r =
            ap (λ n. each_byte memory add n r.crc r.at) (sym long) in
          rw (e, some) (align-finish rounds next (ground arith) ∙ last)
    ]

    -- Where the instruction for a word does what four instructions for its bytes do and the buffer holds the bytes
    -- before the next aligned address, the accelerated checksum is the one that the instruction for a byte gives over
    -- the buffer's bytes in order.
    pub update_crc32c_sse42-each_byte :
        (crc buf len : ℕ)
        → ahead buf ≤ len
        → update_crc32c_sse42 memory add add4 crc buf len ≡ each_byte memory add len crc buf
    unfolding update_crc32c_sse42
    update_crc32c_sse42-each_byte crc buf len h =
        let start : Run = record { crc = crc; at = buf; left = len } in
        let r = align memory add add4 4 start in
        words-finish (r.left / 4) r ∙ align-finish 4 start h

  -- Four rounds bring the first loop to its end: the address is aligned or the length has wrapped round.
  align-ends :
      (add4 : ℕ → ℕ → ℕ) (rounds : ℕ) (r : Run)
      → ahead r.at < rounds
      → ahead r.at ≤ r.left
      → (align memory add add4 rounds r).at % 4 ≡ 0
  unfolding align
  align-ends add4 zero r fits h = absurd (omega arith)
  align-ends add4 (suc rounds) r fits h = elim (Bool-cases (bit_and r.at 3 == 0)) [
    | inl e ↦ let mask = bit_and-three r.at in rw e (ground arith)
    | inr e ↦
        let mask = bit_and-three r.at in
        let some : (r.left == 0) ≡ false = ground arith in
        let next : Run = record {
          crc = add r.crc (memory r.at);
          at = r.at + 1;
          left = r.left - 1;
        } in
        rw (e, some) (align-ends add4 rounds next (ground arith) (ground arith))
  ]

  -- With more rounds than bytes, a buffer that ends before the next aligned address makes the first
  -- loop of `update_crc32c_sse42` leave a length of 2 ^ 64 - 1.
  pub align-wraps :
      (add4 : ℕ → ℕ → ℕ) (rounds : ℕ) (r : Run)
      → r.left < rounds
      → r.left < ahead r.at
      → (align memory add add4 rounds r).left ≡ 2 ^ 64 - 1
  unfolding align
  align-wraps add4 zero r fits h = absurd (omega arith)
  align-wraps add4 (suc rounds) r fits h =
      let mask = bit_and-three r.at in
      let off : (bit_and r.at 3 == 0) ≡ false = ground arith in
      elim (Bool-cases (r.left == 0)) [
        | inl e ↦ rw (off, e) refl
        | inr e ↦
            let next : Run = record {
              crc = add r.crc (memory r.at);
              at = r.at + 1;
              left = r.left - 1;
            } in
            rw (off, e) (align-wraps add4 rounds next (ground arith) (ground arith))
      ]
