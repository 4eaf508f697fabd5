-- ===== src/MessageSegments/Payload.antt =====
-- src/MessageSegment.cc: the payload of a received message, checked and copied. The memory is a function from
-- addresses to bytes; the checksum is a parameter.
use mcsb.Base.{
  ℕ, zero, suc, ◌+◌, ◌-◌, ◌^◌, ◌==◌, Bool, true, false, not, ◌&&◌, Option, none, some, ltb, leb,
  if◌then◌else◌, u32, u64,
}
use mcsb.MessageSegments.{Segment}
pub mod Copies

-- `memcpy`.
pub memcpy : ℕ → ℕ → ℕ → (ℕ → ℕ) → ℕ → ℕ
memcpy dst src n memory x =
    if leb dst x && ltb x (dst + n) then memory (src + (x - dst)) else memory x

module _ (seg : ℕ → Segment) where
  -- What a round of `CopyToBuffer` copies of the segment `a`, with `total` bytes copied.
  abbrev pub bytes_to_copy : ℕ → ℕ → ℕ → ℕ
  bytes_to_copy maxlen total a =
      let whole = u32 (seg a).size in
      if ltb maxlen (u64 (total + whole)) then u32 (2 ^ 64 + maxlen - total) else whole

  -- The loop of `CopyToBuffer`: the bytes copied and the memory afterwards.
  pub copy_from : ℕ → ℕ → ℕ → ℕ → Option ℕ → (ℕ → ℕ) → Option (ℕ × (ℕ → ℕ))
  copy_from fuel maxlen dst total none memory = some (total, memory)
  copy_from zero maxlen dst total (some a) memory = none
  copy_from (suc fuel) maxlen dst total (some a) memory =
      let n = bytes_to_copy maxlen total a in
      copy_from fuel maxlen (dst + n) (u64 (total + n)) (seg a).next
        (memcpy dst (seg a).buf n memory)

  pub copy_to_buffer : ℕ → ℕ → ℕ → ℕ → (ℕ → ℕ) → Option (ℕ × (ℕ → ℕ))
  unfolding copy_from
  copy_to_buffer fuel dst maxlen a memory = copy_from fuel maxlen dst 0 (some a) memory

  -- The loop of `ValidCRC`, with the checksum that each segment's block info holds.
  unfoldable pub valid_crc_from :
      (crc32c : ℕ → ℕ → ℕ) (info_crc : ℕ → ℕ) (ignore_zeros all_segs : Bool)
      → ℕ
      → Option ℕ
      → Option Bool
  valid_crc_from crc32c info_crc ignore_zeros all_segs fuel none = some true
  valid_crc_from crc32c info_crc ignore_zeros all_segs zero (some a) = none
  valid_crc_from crc32c info_crc ignore_zeros all_segs (suc fuel) (some a) =
      let rest = valid_crc_from crc32c info_crc ignore_zeros all_segs fuel (seg a).next in
      let go_on = if all_segs then rest else some true in
      if ignore_zeros && (info_crc a == 0)
      then go_on
      else if crc32c (seg a).buf (seg a).size == info_crc a
      then go_on
      else some false

  unfoldable pub valid_crc :
      (crc32c : ℕ → ℕ → ℕ) (info_crc : ℕ → ℕ) (ignore_zeros all_segs : Bool) → ℕ → ℕ → Option Bool
  unfolding valid_crc_from
  valid_crc crc32c info_crc ignore_zeros all_segs fuel a =
      valid_crc_from crc32c info_crc ignore_zeros all_segs fuel (some a)
