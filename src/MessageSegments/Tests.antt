-- ===== src/MessageSegments/Tests.antt =====
-- A chain of three segments, asked with two places.
use mcsb.Base.{
  ℕ, ◌+◌, ◌%◌, inl, true, false, ◌==◌, ◌≡◌, refl, List, [], ◌∷◌, none, some, arith, if◌then◌else◌,
}
use mcsb.MessageSegments.{Segment, num_segments, total_size, get_iovec, needs}
use mcsb.MessageSegments.Chains.{pieces, chain-Functions}
use mcsb.MessageSegments.Payload.{copy_to_buffer, valid_crc, valid_crc_from}
use mcsb.MessageSegments.Payload.Copies.{Copied, copy_to_buffer-Copied}

abbrev chain : ℕ → Segment
chain a =
    if a == 4
    then record { buf = 64; size = 32; next = some 2 }
    else if a == 2
    then record { buf = 128; size = 32; next = some 9 }
    else record { buf = 512; size = 5; next = none }

abbrev chain_segs : List ℕ
chain_segs = 4 ∷ 2 ∷ 9 ∷ []

chain-Functions_example :
    (num_segments chain 3 4 ≡ some 3)
    × (total_size chain 3 4 ≡ some 69)
    × (get_iovec chain 3 2 4 ≡ some (needs 3 (pieces chain (4 ∷ 2 ∷ []))))
chain-Functions_example =
    chain-Functions chain 3 2 4 chain_segs (refl, (refl, (refl, refl))) (omega arith) (omega arith)
      (omega arith)

abbrev bytes : ℕ → ℕ
bytes x = x % 256

copy_to_buffer-Copied_example :
    (after : ℕ → ℕ) × ((copy_to_buffer chain 3 1000 40 4 bytes ≡ some (40, after))
      × Copied chain 1000 40 chain_segs bytes after)
copy_to_buffer-Copied_example =
    copy_to_buffer-Copied chain 3 1000 40 4 chain_segs bytes (refl, (refl, (refl, refl)))
      (omega arith) (omega arith)
      (
        (omega arith, inl (omega arith)),
        ((omega arith, inl (omega arith)), ((omega arith, inl (omega arith)), refl)),
      )

-- A wrong checksum counts only where it is looked at.
valid_crc_first :
    valid_crc chain (λ buf size. buf + size) (λ a. if a == 4 then 96 else 7) true false 3 4
    ≡ some true
unfolding valid_crc valid_crc_from
valid_crc_first = refl

valid_crc_all :
    valid_crc chain (λ buf size. buf + size) (λ a. if a == 4 then 96 else 7) true true 3 4
    ≡ some false
unfolding valid_crc valid_crc_from
valid_crc_all = refl
