-- ===== src/MessageSegments/Payload/Copies.antt =====
-- `CopyToBuffer` on a chain that spells a list.
use mcsb.Base.{
  ℕ, zero, suc, true, ◌+◌, ◌-◌, ◌^◌, ◌≤◌, ◌<◌, ◌≡◌, refl, ap, sym, ◌∙◌, List, [], ◌∷◌, Option, some,
  arith, u64, leb, ltb, length, total, if◌then◌else◌, Bool-cases, inl, inr, ◌⊎◌,
}
use mcsb.MessageSegments.{Segment}
use mcsb.MessageSegments.Chains.{Spells}
use mcsb.MessageSegments.Payload.{memcpy, bytes_to_copy, copy_from, copy_to_buffer}

module _ (seg : ℕ → Segment) where
  -- The byte with a number in the segments laid end to end.
  abbrev pub payload : List ℕ → (ℕ → ℕ) → ℕ → ℕ
  payload [] memory i = 0
  payload (a ∷ segs) memory i =
      if ltb i (seg a).size
      then memory ((seg a).buf + i)
      else payload segs memory (i - (seg a).size)

  -- Segments smaller than 2 ^ 32 bytes that share no byte with the `room` bytes from `dst` on.
  abbrev pub Apart : ℕ → ℕ → List ℕ → Type 0
  Apart dst room [] = dst ≡ dst
  Apart dst room (a ∷ segs) =
      ((seg a).size < 2 ^ 32 × ((seg a).buf + (seg a).size ≤ dst ⊎ dst + room ≤ (seg a).buf))
      × Apart dst room segs

  abbrev pub least : ℕ → ℕ → ℕ
  least m n = if leb m n then m else n

  -- What a copy of `segs` to `dst`, with `room` bytes for it, leaves.
  abbrev pub Copied : ℕ → ℕ → List ℕ → (ℕ → ℕ) → (ℕ → ℕ) → Type 0
  Copied dst room segs memory after =
      ((i : ℕ)
        → i < least (total (λ a. (seg a).size) segs) room
        → after (dst + i) ≡ payload segs memory i)
      × ((x : ℕ) → x < dst ⊎ dst + room ≤ x → after x ≡ memory x)

  Apart-shrinks :
      (dst room n : ℕ) (segs : List ℕ)
      → n ≤ room
      → Apart dst room segs
      → Apart (dst + n) (room - n) segs
  Apart-shrinks dst room n [] h p = refl
  Apart-shrinks dst room n (a ∷ segs) h ((small, inl before), p) =
      ((small, inl (omega arith)), Apart-shrinks dst room n segs h p)
  Apart-shrinks dst room n (a ∷ segs) h ((small, inr behind), p) =
      ((small, inr (omega arith)), Apart-shrinks dst room n segs h p)

  memcpy-outside :
      (dst src n : ℕ) (memory : ℕ → ℕ) (x : ℕ)
      → x < dst ⊎ dst + n ≤ x
      → memcpy dst src n memory x ≡ memory x
  unfolding memcpy
  memcpy-outside dst src n memory x h = ground arith

  memcpy-inside :
      (dst src n : ℕ) (memory : ℕ → ℕ) (i : ℕ)
      → i < n
      → memcpy dst src n memory (dst + i) ≡ memory (src + i)
  unfolding memcpy
  memcpy-inside dst src n memory i h =
      let back : dst + i - dst ≡ i = omega arith in
      let low : leb dst (dst + i) ≡ true = ground arith in
      let high : ltb (dst + i) (dst + n) ≡ true = ground arith in rw (low, high, back) refl

  payload-memcpy :
      (dst src n room : ℕ) (memory : ℕ → ℕ) (segs : List ℕ) (i : ℕ)
      → n ≤ room
      → Apart dst room segs
      → payload segs (memcpy dst src n memory) i ≡ payload segs memory i
  payload-memcpy dst src n room memory [] i h p = refl
  payload-memcpy dst src n room memory (a ∷ segs) i h ((small, apart), p) =
      elim (Bool-cases (ltb i (seg a).size)) [
        | inl e ↦ rw e (memcpy-outside dst src n memory ((seg a).buf + i) (ground arith))
        | inr e ↦ rw e (payload-memcpy dst src n room memory segs (i - (seg a).size) h p)
      ]

  -- The copy of a segment and the copy of what follows it.
  Copied-more :
      (a : ℕ) (segs : List ℕ) (dst room n : ℕ) (memory after : ℕ → ℕ)
      → n ≡ least (seg a).size room
      → Apart dst room (a ∷ segs)
      → Copied (dst + n) (room - n) segs (memcpy dst (seg a).buf n memory) after
      → Copied dst room (a ∷ segs) memory after
  Copied-more a segs dst room n memory after e p (inside, outside) = (in_both, out_both)
    where
      fits : n ≤ room
      fits = ground arith

      in_both :
          (i : ℕ)
          → i < least (total (λ b. (seg b).size) (a ∷ segs)) room
          → after (dst + i) ≡ payload (a ∷ segs) memory i
      in_both i h = elim (Bool-cases (ltb i (seg a).size)) [
        | inl l ↦
            let low : i < n = ground arith in
            rw l
              (outside (dst + i) (inl (omega arith)) ∙ memcpy-inside dst (seg a).buf n memory i low)
        | inr l ↦
            let whole : n ≡ (seg a).size = ground arith in
            let place : dst + n + (i - n) ≡ dst + i = ground arith in
            let there : after (dst + i) ≡ payload segs (memcpy dst (seg a).buf n memory) (i - n) =
              ap after (sym place) ∙ inside (i - n) (ground arith) in
            rw l (
              there
              ∙ payload-memcpy dst (seg a).buf n room memory segs (i - n) fits p.1
              ∙ ap (λ k. payload segs memory (i - k)) whole)
      ]

      out_both : (x : ℕ) → x < dst ⊎ dst + room ≤ x → after x ≡ memory x
      out_both x (inl h) =
          outside x (inl (omega arith)) ∙ memcpy-outside dst (seg a).buf n memory x (inl h)
      out_both x (inr h) =
          outside x (inr (omega (arith, fits)))
          ∙ memcpy-outside dst (seg a).buf n memory x (inr (omega (arith, fits)))

  -- Nothing is copied of an empty list.
  Copied-none : (dst room : ℕ) (memory : ℕ → ℕ) → Copied dst room [] memory memory
  Copied-none dst room memory = ((λ i h. absurd (ground arith)), (λ x h. refl))

  copy_from-Copied :
      (fuel maxlen dst done room : ℕ) (next : Option ℕ) (segs : List ℕ) (memory : ℕ → ℕ)
      → Spells seg next segs
      → length segs ≤ fuel
      → done + room ≡ maxlen
      → maxlen < 2 ^ 63
      → Apart dst room segs
      → (after : ℕ → ℕ) × ((copy_from seg fuel maxlen dst done next memory
            ≡ some (done + least (total (λ a. (seg a).size) segs) room, after))
          × Copied dst room segs memory after)
  unfolding copy_from
  copy_from-Copied fuel maxlen dst done room next [] memory e enough all small p =
      (memory, (rw e (ap (λ n. some (n, memory)) (ground arith)), Copied-none dst room memory))
  copy_from-Copied zero maxlen dst done room next (a ∷ segs) memory e enough all small p =
      absurd (omega arith)
  copy_from-Copied (suc fuel) maxlen dst done room next (a ∷ segs) memory e enough all small p =
      let n = bytes_to_copy seg maxlen done a in
      let n_is : n ≡ least (seg a).size room = ground arith in
      let fits : n ≤ room = ground arith in
      let sum : u64 (done + n) ≡ done + n = omega arith in
      let memory' = memcpy dst (seg a).buf n memory in
      let (after, (returns, copied)) =
        copy_from-Copied fuel maxlen (dst + n) (done + n) (room - n) (seg a).next segs memory' e.1
          (omega arith) (omega arith) small (Apart-shrinks dst room n segs fits p.1) in
      let bytes : done + n + least (total (λ b. (seg b).size) segs) (room - n)
          ≡ done + least (total (λ b. (seg b).size) (a ∷ segs)) room =
        ground arith in
      let whole : copy_from seg (suc fuel) maxlen dst done next memory
          ≡ some (done + least (total (λ b. (seg b).size) (a ∷ segs)) room, after) =
        rw e.0 (
          ap (λ t. copy_from seg fuel maxlen (dst + n) t (seg a).next memory') sum
          ∙ returns
          ∙ ap (λ k. some (k, after)) bytes) in
      (after, (whole, Copied-more a segs dst room n memory after n_is p copied))

  -- For a chain that spells a list of segments smaller than 2 ^ 32 bytes, with rounds enough for
  -- them, and a destination of fewer than 2 ^ 63 bytes that shares no byte with them,
  -- `CopyToBuffer` returns the sum of their sizes or the destination's length, whichever is less;
  -- so many bytes of the segments, laid end to end, stand at the destination afterwards, and no
  -- byte outside it has changed.
  pub copy_to_buffer-Copied :
      (fuel dst maxlen a : ℕ) (segs : List ℕ) (memory : ℕ → ℕ)
      → Spells seg (some a) segs
      → length segs ≤ fuel
      → maxlen < 2 ^ 63
      → Apart dst maxlen segs
      → (after : ℕ → ℕ) × ((copy_to_buffer seg fuel dst maxlen a memory
            ≡ some (least (total (λ b. (seg b).size) segs) maxlen, after))
          × Copied dst maxlen segs memory after)
  unfolding copy_to_buffer
  copy_to_buffer-Copied fuel dst maxlen a segs memory e enough small p =
      let (after, (returns, copied)) =
        copy_from-Copied fuel maxlen dst 0 maxlen (some a) segs memory e enough (omega arith) small
          p in
      (after, (returns ∙ ap (λ k. some (k, after)) (omega arith), copied))
