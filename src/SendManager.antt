-- ===== src/SendManager.antt =====
-- src/ClientSendManager.cc and src/MCSB/ClientSendManager.h: the client's pool of producer slabs, and the
-- allocation of messages in them. A slab is its slabID; a segment is numbered by its place in the
-- blocks of 32 that are allocated; an intrusive list is the list of its items' numbers.
use mcsb.Base.{
  ℕ, zero, suc, ◌+◌, ◌-◌, ◌*◌, ◌/◌, ◌==◌, Bool, true, false, not, ◌&&◌, ◌||◌, List, [], ◌∷◌, ◌++◌,
  Option, none, some, ltb, leb, if◌then◌else◌, u32, u64, sub32, length, is_nil, update, mem, erase,
  Outcome, Proc, ok, throw, ◌>>=◌, ◌>>◌, range_fault, assert_failed, divide_fault, hook_fault,
  null_fault, is_none, too_many_blocks, out_of_fuel,
}
pub mod Pool
pub mod Alloc
pub mod Segments
pub mod Messages
pub mod Chains
pub mod Release
pub mod RoundTrip
pub mod Supply
mod Tests

pub record SlabInfo : Type 0 where
  pub blocks_used : ℕ
  pub refcount : ℕ
  pub working : Bool
  pub buf : ℕ

pub record SendSegment : Type 0 where
  pub buf : ℕ
  pub size : ℕ
  pub block_id : ℕ
  pub next : Option ℕ

pub record SendManager : Type 0 where
  pub block_size : ℕ
  pub slab_size : ℕ
  pub blocks_per_slab : ℕ
  pub max_working_slabs : ℕ
  pub slabs_held : ℕ
  pub free_slabs : List ℕ
  pub working_slabs : List ℕ
  pub full_slabs : List ℕ
  pub retired_slabs : List ℕ
  pub num_slabs : ℕ
  pub slab : ℕ → SlabInfo
  pub free_segs : List ℕ
  pub busy_segs : List ℕ
  pub num_seg_blocks : ℕ
  pub seg : ℕ → SendSegment

-- `SlabInfo::Reset`, which the constructor calls too.
abbrev pub reset_slab : ℕ → SlabInfo
reset_slab p = record { blocks_used = 0; refcount = 0; working = false; buf = p }

abbrev pub put_slab : ℕ → SlabInfo → SendManager → SendManager
put_slab s info m = record m { slab = update m.slab s info }

-- `kNumSegs`.
abbrev pub segs_per_block : ℕ
segs_per_block = 32

unfoldable pub numbers_from : ℕ → ℕ → List ℕ
numbers_from zero i = []
numbers_from (suc count) i = i ∷ numbers_from count (i + 1)

pub add_msg_seg_block : SendManager → SendManager
unfolding numbers_from
add_msg_seg_block m = record m {
  num_seg_blocks = m.num_seg_blocks + 1;
  free_segs = m.free_segs ++ numbers_from segs_per_block (m.num_seg_blocks * segs_per_block);
}

-- The assignments stand before the `assert`.
pub set_size_params : ℕ → ℕ → Proc SendManager (Unit {0})
set_size_params block_sz slab_sz m =
    let sized = record m {
      block_size = block_sz;
      slab_size = slab_sz;
      blocks_per_slab = slab_sz / block_sz;
    } in
    if block_sz == 0
    then throw divide_fault (record m { block_size = block_sz; slab_size = slab_sz })
    else if slab_sz == u32 (slab_sz / block_sz * block_sz)
    then ok tt sized
    else throw assert_failed sized

pub set_num_total_slabs : ℕ → SendManager → SendManager
set_num_total_slabs total m = if leb total m.num_slabs then m else record m {
  num_slabs = total;
  slab = λ s. if ltb s m.num_slabs then m.slab s else reset_slab 0;
}

-- Whether the slab stands in a list.
pub attached : ℕ → SendManager → Bool
attached id m =
    mem id m.free_slabs || mem id m.working_slabs || mem id m.full_slabs || mem id m.retired_slabs

-- A round of the loop of `AddFreeSlabs`. `push_back` asserts that the slab stands in no list.
pub add_free_slab : ℕ → ℕ → Proc SendManager (Unit {0})
unfolding set_num_total_slabs attached
add_free_slab id p m =
    let grown = if leb m.num_slabs id then set_num_total_slabs (u32 (id + 1)) m else m in
    if not (ltb id grown.num_slabs)
    then throw range_fault grown
    else if attached id grown
    then throw assert_failed grown
    else ok tt
        (put_slab id (reset_slab p) (record grown { free_slabs = grown.free_slabs ++ (id ∷ []) }))

pub add_free_loop : List (ℕ × ℕ) → Proc SendManager (Unit {0})
unfolding add_free_slab
add_free_loop [] = λ m. ok tt m
add_free_loop ((id, p) ∷ rest) = add_free_slab id p >> add_free_loop rest

pub add_free_slabs : List (ℕ × ℕ) → Proc SendManager (Unit {0})
unfolding add_free_loop
add_free_slabs slabs =
    add_free_loop slabs >> λ m. ok tt (record m { slabs_held = u32 (m.slabs_held + length slabs) })

pub take_retired : ℕ → SendManager → List ℕ × SendManager
take_retired zero m = ([], m)
take_retired (suc max_count) m = elim m.retired_slabs [
  | [] ↦ ([], m)
  | s ∷ rest ↦
      let (ids, m') = take_retired max_count (record m { retired_slabs = rest }) in (s ∷ ids, m')
]

pub get_retired_slabs : ℕ → SendManager → List ℕ × SendManager
unfolding take_retired
get_retired_slabs max_count m =
    let (ids, m') = take_retired max_count m in
    (ids, record m' { slabs_held = sub32 m'.slabs_held (length ids) })

-- A working slab that is no longer worked on.
pub retire_working : ℕ → List ℕ → SendManager → SendManager
retire_working s rest m =
    let rested =
      put_slab s (record (m.slab s) { working = false }) (record m { working_slabs = rest }) in
    if (m.slab s).refcount == 0
    then record rested { retired_slabs = m.retired_slabs ++ (s ∷ []) }
    else record rested { full_slabs = m.full_slabs ++ (s ∷ []) }

-- The loop of `MaxWorkingSlabs`, on the working slabs.
pub reduce_working : List ℕ → SendManager → SendManager
unfolding retire_working
reduce_working [] m = m
reduce_working (s ∷ rest) m =
    let reduced = reduce_working rest (retire_working s rest m) in
    if ltb m.max_working_slabs (length (s ∷ rest)) then reduced else m

pub set_max_working_slabs : ℕ → SendManager → SendManager
unfolding reduce_working
set_max_working_slabs max_slabs m =
    reduce_working m.working_slabs (record m { max_working_slabs = max_slabs })

pub flush_working_slabs : SendManager → SendManager
unfolding set_max_working_slabs
flush_working_slabs m = set_max_working_slabs m.max_working_slabs (set_max_working_slabs 0 m)

-- The first working slab with room.
pub find_room : ℕ → SendManager → List ℕ → Option ℕ
find_room n m [] = none
find_room n m (s ∷ slabs) =
    let further = find_room n m slabs in
    if leb n (sub32 m.blocks_per_slab (m.slab s).blocks_used) then some s else further

-- The front free slab becomes the last working slab.
pub harvest : Bool → SendManager → Option (ℕ × SendManager)
harvest no_free_slabs m = elim m.free_slabs [
  | [] ↦ none
  | s ∷ rest ↦
      if no_free_slabs
      then none
      else some (
        s,
        put_slab s (record (m.slab s) { working = true })
            (record m { free_slabs = rest; working_slabs = m.working_slabs ++ (s ∷ []) }),
      )
]

pub pick_slab : ℕ → Bool → SendManager → Option (ℕ × SendManager)
unfolding find_room harvest
pick_slab n no_free_slabs m =
    elim (if ltb n m.blocks_per_slab then find_room n m m.working_slabs else none) [
      | some s ↦ some (s, m)
      | none ↦ harvest no_free_slabs m
    ]

-- The segment `a` for `n` blocks of the slab `s`, and the slab after `SlabInfo::Alloc`.
abbrev pub alloc_segment : ℕ → ℕ → ℕ → List ℕ → SendManager → SendManager
alloc_segment s n a rest m = record m {
  free_segs = rest;
  busy_segs = m.busy_segs ++ (a ∷ []);
  slab = update m.slab s (record (m.slab s) {
    blocks_used = u32 ((m.slab s).blocks_used + n);
    refcount = u32 ((m.slab s).refcount + 1);
  });
  seg = update m.seg a (record {
    buf = (m.slab s).buf + u32 ((m.slab s).blocks_used * m.block_size);
    size = u32 (n * m.block_size);
    block_id = u32 (s * m.blocks_per_slab + (m.slab s).blocks_used);
    next = none;
  });
}

-- A slab without room leaves the working ones.
pub settle_slab : ℕ → SendManager → SendManager
settle_slab s m =
    if sub32 m.blocks_per_slab (m.slab s).blocks_used == 0
    then record m {
      working_slabs = erase s m.working_slabs;
      slab = update m.slab s (record (m.slab s) { working = false });
      full_slabs = m.full_slabs ++ (s ∷ []);
    }
    else m

pub trim_working : SendManager → SendManager
unfolding set_max_working_slabs
trim_working m = set_max_working_slabs m.max_working_slabs m

-- A new block of descriptors, if there is no free one.
pub stock_segs : SendManager → SendManager
unfolding add_msg_seg_block
stock_segs m = if is_nil m.free_segs then add_msg_seg_block m else m

-- The descriptor is taken before `Alloc` asserts.
pub use_segment : ℕ → ℕ → Proc SendManager (Option ℕ)
unfolding settle_slab trim_working
use_segment n s m = elim m.free_segs [
  | [] ↦ throw hook_fault m
  | a ∷ rest ↦
      if (m.slab s).working
      then ok (some a) (trim_working (settle_slab s (alloc_segment s n a rest m)))
      else throw assert_failed (record m { free_segs = rest; busy_segs = m.busy_segs ++ (a ∷ []) })
]

-- `GetSegment` from where the slab is known.
pub use_slab : ℕ → ℕ → Proc SendManager (Option ℕ)
unfolding stock_segs use_segment
use_slab n s m = use_segment n s (stock_segs m)

pub get_segment : ℕ → Bool → Proc SendManager (Option ℕ)
unfolding pick_slab use_slab
get_segment n no_free_slabs m =
    if ltb m.blocks_per_slab n
    then throw too_many_blocks m
    else elim (pick_slab n no_free_slabs m) [ none ↦ ok none m | some (s, m') ↦ use_slab n s m' ]

-- The blocks for `len` bytes, one at least.
pub blocks_for : ℕ → ℕ → ℕ
blocks_for len block_size =
    let n = u32 (sub32 len 1 + block_size) / block_size in if n == 0 then 1 else n

abbrev pub or_else : Option ℕ → Option ℕ → Option ℕ
or_else none d = d
or_else (some a) d = some a

-- `segN` in front of `segN->next`.
abbrev pub link_from : Option ℕ → Option ℕ → Option ℕ → Option ℕ
link_from none last next = next
link_from (some a) last next = last

-- `segN->next = next`, where there is a `segN`.
pub link_after : ℕ → Option ℕ → SendManager → SendManager
link_after a next m = record m { seg = update m.seg a (record (m.seg a) { next = next }) }

-- The loop for the whole slabs of a message: `first` is `seg0`, `last` is `segN`. The segment that
-- is the first of all is linked to itself, until the next round.
pub add_whole_slabs : ℕ → Option ℕ → Option ℕ → Proc SendManager (Option ℕ)
unfolding get_segment link_after
add_whole_slabs zero first last = λ m. ok first m
add_whole_slabs (suc count) first last = (λ m. get_segment m.blocks_per_slab false m) >>= λ next.
    λ m. elim (link_from first last next) [
      | none ↦ throw null_fault m
      | some a ↦ add_whole_slabs count (or_else first next) next (link_after a next m)
    ]

-- The segment for the part of a slab, if there is such a part.
pub add_part_slab : ℕ → Bool → Proc SendManager (Option ℕ)
unfolding get_segment
add_part_slab n no_free_slabs m = if n == 0 then ok none m else get_segment n no_free_slabs m

-- A message of `whole` slabs and `part` blocks.
pub get_multi_slab : ℕ → ℕ → Proc SendManager (Option ℕ)
unfolding add_whole_slabs add_part_slab
get_multi_slab whole part m =
    if ltb (length m.free_slabs) whole
    then ok none m
    else (add_part_slab part (whole == length m.free_slabs) >>= λ first. λ m'.
          if is_none first && not (part == 0)
          then ok none m'
          else add_whole_slabs whole first first m')
        m

pub get_message_descriptor : ℕ → Bool → Proc SendManager (Option ℕ)
unfolding blocks_for get_segment get_multi_slab
get_message_descriptor len contiguous m =
    let n = blocks_for len m.block_size in
    if m.block_size == 0
    then ok none m
    else if contiguous || leb n m.blocks_per_slab
    then get_segment n false m
    else if m.blocks_per_slab == 0
    then throw divide_fault m
    else get_multi_slab (n / m.blocks_per_slab) (n - n / m.blocks_per_slab * m.blocks_per_slab) m

-- A slab that is not worked on retires with its last segment.
pub retire_unused : ℕ → Proc SendManager (Unit {0})
retire_unused s m =
    if not (m.slab s).working && (m.slab s).refcount == 0
    then if mem s m.full_slabs
      then ok tt (record m {
        full_slabs = erase s m.full_slabs;
        retired_slabs = m.retired_slabs ++ (s ∷ []);
      })
      else throw hook_fault m
    else ok tt m

-- A round of the loop of `ReleaseMessageDescriptor`.
pub release_segment : ℕ → Proc SendManager (Unit {0})
unfolding retire_unused
release_segment a m =
    let s = (m.seg a).block_id / m.blocks_per_slab in
    let lowered = put_slab s (record (m.slab s) { refcount = sub32 (m.slab s).refcount 1 }) m in
    if m.blocks_per_slab == 0
    then throw divide_fault m
    else if leb m.num_slabs s
    then throw range_fault m
    else if mem a m.busy_segs
    then retire_unused s
        (record lowered { busy_segs = erase a m.busy_segs; free_segs = m.free_segs ++ (a ∷ []) })
    else throw hook_fault lowered

pub release_from : ℕ → Option ℕ → Proc SendManager (Unit {0})
unfolding release_segment
release_from fuel none = λ m. ok tt m
release_from zero (some a) = λ m. throw out_of_fuel m
release_from (suc fuel) (some a) = release_segment a >> λ m. release_from fuel (m.seg a).next m

-- Each round takes a segment off the busy ones, so these rounds are enough.
pub release_message_descriptor : Option ℕ → Proc SendManager (Unit {0})
unfolding release_from
release_message_descriptor desc m = release_from (length m.busy_segs + 1) desc m

pub new_send_manager : SendManager
unfolding add_msg_seg_block
new_send_manager = add_msg_seg_block (record {
  block_size = 0;
  slab_size = 0;
  blocks_per_slab = 0;
  max_working_slabs = 1;
  slabs_held = 0;
  free_slabs = [];
  working_slabs = [];
  full_slabs = [];
  retired_slabs = [];
  num_slabs = 0;
  slab = λ s. reset_slab 0;
  free_segs = [];
  busy_segs = [];
  num_seg_blocks = 0;
  seg = λ a. record { buf = 0; size = 0; block_id = 0; next = none };
})
