-- ===== src/RecvManager.antt =====
-- src/ClientRecvManager.cc and src/MCSB/ClientRecvManager.h: the client's received segments, joined to
-- messages. A `RecvMsgSegment` is numbered by its place in the blocks of 32 that are allocated, and
-- `seg` says what it holds; an intrusive list is the list of its items' numbers.
use mcsb.Base.{
  ℕ, zero, suc, ◌+◌, ◌-◌, ◌*◌, Bool, true, false, not, ◌&&◌, ◌||◌, List, [], ◌∷◌, ◌++◌, Option,
  none, some, ltb, ◌==◌, if◌then◌else◌, u64, length, is_nil, update, take, drop, mem, erase, Proc,
  ok, throw, hook_fault, out_of_fuel,
}
pub mod Scan
pub mod Segments
pub mod Messages
pub mod Delivery
pub mod Release
mod Tests

-- The fields of a `BlockInfo` that are read here. It stands in shared memory, and does not change
-- while the client holds the segment.
pub record BlockInfo : Type 0 where
  pub message_id : ℕ
  pub size : ℕ
  pub segment_number : ℕ
  pub num_segments : ℕ

pub record RecvSegment : Type 0 where
  pub buf : ℕ
  pub size : ℕ
  pub block_id : ℕ
  pub next : Option ℕ
  pub block_info : BlockInfo
  pub refcnt : ℕ

pub record RecvManager : Type 0 where
  pub free_segs : List ℕ
  pub pending_segs : List ℕ
  pub busy_segs : List ℕ
  pub retired_segs : List ℕ
  pub seg : ℕ → RecvSegment
  pub pending_msg : Option ℕ
  pub num_cons_slabs : ℕ
  pub num_segments_rcvd : ℕ
  pub num_seg_blocks : ℕ

-- `NumConsSlabs(n)`.
pub limit_cons_slabs : ℕ → RecvManager → RecvManager
limit_cons_slabs n m = record m { num_cons_slabs = n }

-- `kNumSegs`.
abbrev pub segs_per_block : ℕ
segs_per_block = 32

unfoldable pub numbers_from : ℕ → ℕ → List ℕ
numbers_from zero i = []
numbers_from (suc count) i = i ∷ numbers_from count (i + 1)

pub add_msg_seg_block : RecvManager → RecvManager
unfolding numbers_from
add_msg_seg_block m = record m {
  num_seg_blocks = m.num_seg_blocks + 1;
  free_segs = m.free_segs ++ numbers_from segs_per_block (m.num_seg_blocks * segs_per_block);
}

-- A segment as it comes in: its block, where the block is mapped, and its info.
pub record Arrival : Type 0 where
  pub block_id : ℕ
  pub block_ptr : ℕ
  pub info : BlockInfo

-- The front free segment is filled out and put behind the pending ones.
pub fill_segment : Arrival → RecvManager → RecvManager
fill_segment x m = elim m.free_segs [
  | [] ↦ m
  | a ∷ rest ↦ record m {
    free_segs = rest;
    pending_segs = m.pending_segs ++ (a ∷ []);
    seg = update m.seg a (record {
      buf = x.block_ptr;
      size = x.info.size;
      block_id = x.block_id;
      next = none;
      block_info = x.info;
      refcnt = 1;
    });
  }
]

pub add_segment : Arrival → RecvManager → RecvManager
unfolding add_msg_seg_block fill_segment
add_segment x m = fill_segment x (if is_nil m.free_segs then add_msg_seg_block m else m)

-- The loop over the arrivals, and the count behind it.
pub add_each : List Arrival → RecvManager → RecvManager
unfolding add_segment
add_each [] m = m
add_each (x ∷ xs) m = add_each xs (add_segment x m)

pub add_segments : List Arrival → RecvManager → RecvManager
unfolding add_each
add_segments xs m =
    let m' = add_each xs m in
    record m' { num_segments_rcvd = u64 (m'.num_segments_rcvd + length xs) }

-- The segments after the first that match it, counted from `matches` up to `matches + left`.
pub count_matches : (ℕ → RecvSegment) → BlockInfo → ℕ → ℕ → List ℕ → ℕ
count_matches seg first zero matches segs = matches
count_matches seg first (suc left) matches [] = matches
count_matches seg first (suc left) matches (b ∷ segs) =
    let info = (seg b).block_info in
    let more = count_matches seg first left (matches + 1) segs in
    if info.num_segments == first.num_segments
      && (info.segment_number == matches && info.message_id == first.message_id)
    then more
    else matches

-- The `next` pointers of a message's segments.
pub link_segments : List ℕ → (ℕ → RecvSegment) → ℕ → RecvSegment
link_segments [] seg = seg
link_segments (a ∷ []) seg = update seg a (record (seg a) { next = none })
link_segments (a ∷ b ∷ segs) seg =
    link_segments (b ∷ segs) (update seg a (record (seg a) { next = some b }))

-- The front segment begins no message that can be held.
abbrev pub unusable : ℕ → BlockInfo → Bool
unusable num_cons_slabs info =
    not (info.segment_number == 0)
    || (info.num_segments == 0 || ltb num_cons_slabs info.num_segments)

-- The front pending segment `a` is dropped: it goes to the retired ones.
abbrev pub drop_front : ℕ → List ℕ → RecvManager → RecvManager
drop_front a rest m = record m { pending_segs = rest; retired_segs = m.retired_segs ++ (a ∷ []) }

-- The first `n` pending segments become a message.
abbrev pub deliver : ℕ → List ℕ → RecvManager → RecvManager
deliver n segs m = record m {
  pending_segs = drop n segs;
  busy_segs = m.busy_segs ++ take n segs;
  seg = link_segments (take n segs) m.seg;
}

-- The loop of `GetMessageDescriptor` over the pending segments.
pub next_message : List ℕ → RecvManager → Option ℕ × RecvManager
unfolding count_matches link_segments
next_message [] m = (none, m)
next_message (a ∷ rest) m =
    let info = (m.seg a).block_info in
    let n = info.num_segments in
    let dropped = next_message rest (drop_front a rest m) in
    if unusable m.num_cons_slabs info
    then dropped
    else if ltb (length (a ∷ rest)) n
    then (none, m)
    else if ltb (count_matches m.seg info (n - 1) 1 rest) n
    then dropped
    else (some a, deliver n (a ∷ rest) m)

-- The message that `PendingMessage` has set aside goes first.
pub message_after : Option ℕ → RecvManager → Option ℕ × RecvManager
unfolding next_message
message_after (some a) m = (some a, record m { pending_msg = none })
message_after none m = next_message m.pending_segs m

pub get_message_descriptor : RecvManager → Option ℕ × RecvManager
unfolding message_after
get_message_descriptor m = message_after m.pending_msg m

pub message_pending : Option ℕ → RecvManager → Bool × RecvManager
unfolding get_message_descriptor
message_pending (some a) m = (true, m)
message_pending none m =
    let (desc, m') = get_message_descriptor m in
    (elim desc [ none ↦ false | some a ↦ true ], record m' { pending_msg = desc })

pub pending_message : RecvManager → Bool × RecvManager
unfolding message_pending
pending_message m = message_pending m.pending_msg m

-- The loop of `ReleaseMessageDescriptor` along the `next` pointers.
pub release_from : ℕ → Option ℕ → Proc RecvManager (Unit {0})
release_from fuel none m = ok tt m
release_from zero (some a) m = throw out_of_fuel m
release_from (suc fuel) (some a) m =
    let rest =
      release_from fuel (m.seg a).next
        (record m { busy_segs = erase a m.busy_segs; retired_segs = m.retired_segs ++ (a ∷ []) }) in
    if mem a m.busy_segs then rest else throw hook_fault m

-- Each round takes a segment off the busy ones, so these rounds are enough.
pub release_message_descriptor : Option ℕ → Proc RecvManager (Unit {0})
unfolding release_from
release_message_descriptor desc m = release_from (length m.busy_segs + 1) desc m

-- The blockIDs that go back to the manager, at most `max_count`.
pub get_retired_segments : ℕ → RecvManager → List ℕ × RecvManager
get_retired_segments zero m = ([], m)
get_retired_segments (suc max_count) m = elim m.retired_segs [
  | [] ↦ ([], m)
  | a ∷ rest ↦
      let (ids, m') =
        get_retired_segments max_count
          (record m { retired_segs = rest; free_segs = m.free_segs ++ (a ∷ []) }) in
      ((m.seg a).block_id ∷ ids, m')
]

pub new_recv_manager : RecvManager
unfolding add_msg_seg_block
new_recv_manager = add_msg_seg_block (record {
  free_segs = [];
  pending_segs = [];
  busy_segs = [];
  retired_segs = [];
  seg = λ a. record {
    buf = 0;
    size = 0;
    block_id = 0;
    next = none;
    block_info = record { message_id = 0; size = 0; segment_number = 0; num_segments = 0 };
    refcnt = 1;
  };
  pending_msg = none;
  num_cons_slabs = 0;
  num_segments_rcvd = 0;
  num_seg_blocks = 0;
})
