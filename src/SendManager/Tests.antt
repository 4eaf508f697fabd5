-- ===== src/SendManager/Tests.antt =====
-- The send manager's theorems on two slabs of four blocks.
use mcsb.Base.{
  ℕ, ◌≡◌, refl, true, false, [], ◌∷◌, none, some, arith, ◌==◌, count, if◌then◌else◌, ok, final,
}
use mcsb.SendManager.{
  SendManager, reset_slab, numbers_from, add_msg_seg_block, find_room, pick_slab, settle_slab,
  trim_working, stock_segs, use_segment, use_slab, link_after, add_whole_slabs, add_part_slab,
  get_multi_slab, get_segment, blocks_for, get_message_descriptor, release_segment,
  release_message_descriptor, flush_working_slabs,
}
use mcsb.SendManager.Pool.{Inv, count-numbers_from, flush_working_slabs-Inv}
use mcsb.SendManager.Segments.{Got, get_segment-Got}
use mcsb.SendManager.Chains.{Answer, get_message_descriptor-Answer, blocks_for_wraps}
use mcsb.SendManager.Release.{Freed, release_segment-Freed}
use mcsb.SendManager.RoundTrip.{release_message_descriptor-get_message_descriptor}

-- Slab 0 is worked on: the segment 0 has its block 0. The slabs 1 and 2 are free.
abbrev pool : SendManager
pool = record {
  block_size = 8;
  slab_size = 32;
  blocks_per_slab = 4;
  max_working_slabs = 1;
  slabs_held = 3;
  free_slabs = 1 ∷ 2 ∷ [];
  working_slabs = 0 ∷ [];
  full_slabs = [];
  retired_slabs = [];
  num_slabs = 3;
  slab = λ s.
      if s == 0
      then record { blocks_used = 1; refcount = 1; working = true; buf = 1024 }
      else reset_slab 4096;
  free_segs = numbers_from 31 1;
  busy_segs = 0 ∷ [];
  num_seg_blocks = 1;
  seg = λ a. record { buf = 1024; size = 8; block_id = 0; next = none };
}

pool-Inv : Inv pool
pool-Inv = record {
  segs = λ a. ground (arith, count-numbers_from a 31 1);
  slabs = λ s. record {
    once = ground arith;
    marked = ground arith;
    counted = ground arith;
    bounded = ground arith;
    fits = ground arith;
    full = ground arith;
    idle = ground arith;
    fresh = ground arith;
    known = ground arith;
  };
  size = omega arith;
  ids = omega arith;
}

flush_working_slabs-Inv_example : Inv (flush_working_slabs pool)
flush_working_slabs-Inv_example = flush_working_slabs-Inv pool pool-Inv

get_segment-Got_example : Got 2 false pool (get_segment 2 false pool)
get_segment-Got_example = get_segment-Got 2 false pool pool-Inv (omega arith) (omega arith)

-- A message of 40 bytes takes a slab and a block.
get_message_descriptor-Answer_example :
    Answer (blocks_for 40 8) pool (get_message_descriptor 40 false pool)
get_message_descriptor-Answer_example =
    get_message_descriptor-Answer 40 false pool pool-Inv (omega arith) (omega arith) (omega arith)
      (λ e. absurd (ground arith))

blocks_for_wraps_example : blocks_for 4294967292 8 ≡ 1
blocks_for_wraps_example = blocks_for_wraps 4294967292 8 (omega arith) (omega arith) (omega arith)

release_segment-Freed_example :
    (m' : SendManager) × (release_segment 0 pool ≡ ok tt m') × Freed 0 pool m'
release_segment-Freed_example = release_segment-Freed 0 pool pool-Inv (omega arith) refl

-- The pool after a message of 40 bytes.
abbrev after_message : SendManager
after_message = final (get_message_descriptor 40 false pool)

made_message : get_message_descriptor 40 false pool ≡ ok (some 1) after_message
unfolding numbers_from add_msg_seg_block find_room pick_slab settle_slab trim_working stock_segs
    use_segment use_slab get_segment blocks_for link_after add_whole_slabs add_part_slab
    get_multi_slab get_message_descriptor
made_message = refl

release_message_descriptor-get_message_descriptor_example :
    (m'' : SendManager) × (release_message_descriptor (some 1) after_message ≡ ok tt m'')
    × (Inv m'')
    × ((z : ℕ) → count z m''.busy_segs ≡ count z (0 ∷ []))
release_message_descriptor-get_message_descriptor_example =
    release_message_descriptor-get_message_descriptor 40 false pool pool-Inv (omega arith)
      (omega arith) (omega arith) (λ e. absurd (ground arith)) 1 after_message made_message
