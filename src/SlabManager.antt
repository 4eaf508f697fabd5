-- ===== src/SlabManager.antt =====
-- apps/MCSBManager/SlabManager.cc, with MCSB/SlabManager.h and MCSB/WantedSegment.h beside it.
-- Slabs and wanted segments are numbered: a slab by its slabID, a segment by its place in the blocks
-- of 256 that are allocated. `info` and `seg` say what each holds, and an intrusive list is the list
-- of its items' numbers. `arg` is the object behind the `void*` of the state change handler, so that
-- a handler can change its own state, or call the manager again.
use mcsb.Base.{
  ℕ, zero, suc, ◌+◌, ◌-◌, ◌*◌, ◌/◌, ◌≡◌, Bool, true, false, not, ◌&&◌, ◌||◌, List, [], ◌∷◌, ◌++◌,
  ltb, leb, ◌==◌, if◌then◌else◌, u32, length, is_nil, update, mem, erase, Proc, Outcome, ok, throw,
  and_then, final, pure, ◌>>=◌, ◌>>◌, invalid_slab, not_held_or_wanted, refcnt_underflow,
  free_but_held, free_but_wanted, no_wanted_slabs, no_wanted_segs, erase_empty, divide_fault,
  hook_fault,
}
pub mod Places
pub mod Refcounts
pub mod Sharing
pub mod Wanted
pub mod Reservation
pub mod Growth
pub mod Frame
pub mod FrameHeld
mod Tests

-- The ways a slab can change its list, `kFreeToHeld` to `kWantedToHeld`.
pub data Change : Type 0 where
  free_to_held held_to_free held_to_wanted wanted_to_free wanted_to_held : Change

-- `int prodClientID`, which is -1 for no producer.
pub data ProdClient : Type 0 where
  nobody : ProdClient
  client : ℕ → ProdClient

pub record SlabInfo : Type 0 where
  pub held_refcnt : ℕ
  pub prod_client_id : ProdClient
  pub prod_arg : ℕ
  pub wanted_segs : List ℕ

pub record WantedSegment : Type 0 where
  pub client_id : ℕ
  pub block_id : ℕ

-- `share n` is `ceil(pctNonreservable/100*n)`, computed in floating point.
pub record SlabManager (W : Type 0) : Type 0 where
  pub slabs_per_buf : ℕ
  pub num_buffers : ℕ
  pub share : ℕ → ℕ
  pub num_slabs_reserved : ℕ
  pub num_slabs_nonreservable : ℕ
  pub info : ℕ → SlabInfo
  pub free_slabs : List ℕ
  pub held_slabs : List ℕ
  pub wanted_slabs : List ℕ
  pub num_seg_blocks : ℕ
  pub seg : ℕ → WantedSegment
  pub free_wanted_segs : List ℕ
  pub which_state_change : Change → Bool
  pub arg : W

-- `SlabInfo(id)`.
abbrev pub new_info : SlabInfo
new_info = record { held_refcnt = 0; prod_client_id = nobody; prod_arg = 0; wanted_segs = [] }

-- `infoVec[id/slabsPerBuf][id%slabsPerBuf]` exists.
unfoldable pub is_slab : ℕ → ℕ → ℕ → Bool
is_slab slabs_per_buf num_buffers id =
    not (slabs_per_buf == 0) && ltb (id / slabs_per_buf) num_buffers

-- A handler: the change and the slab, after the slab has moved.
abbrev pub Handler : Type 0 → Type 0
Handler W = Change → ℕ → Proc (SlabManager W) (Unit {0})

module _ {W : Type 0} where
  abbrev pub num_slabs : SlabManager W → ℕ
  num_slabs m = u32 (m.slabs_per_buf * m.num_buffers)

  abbrev pub put_info : ℕ → SlabInfo → SlabManager W → SlabManager W
  put_info id s m = record m { info = update m.info id s }

  -- The slabs of a new buffer from the one numbered `slab` in it on; the buffer's first slabID is
  -- `base`.
  pub add_slabs : ℕ → ℕ → ℕ → SlabManager W → SlabManager W
  add_slabs zero base slab m = m
  add_slabs (suc count) base slab m =
      let id = u32 (base + slab) in
      add_slabs count base (slab + 1)
        (record m { info = update m.info id new_info; free_slabs = m.free_slabs ++ (id ∷ []) })

  -- The loop over the new buffers, `count` of them.
  pub add_buffers : ℕ → SlabManager W → SlabManager W
  unfolding add_slabs
  add_buffers zero m = m
  add_buffers (suc count) m = add_buffers count (
      add_slabs m.slabs_per_buf (m.num_buffers * m.slabs_per_buf) 0
        (record m { num_buffers = m.num_buffers + 1 }))

  -- `NumBuffers(n)`; it returns `n` on every branch.
  pub set_num_buffers : ℕ → Proc (SlabManager W) ℕ
  unfolding add_buffers
  set_num_buffers n m =
      if leb n m.num_buffers
      then ok n m
      else (let m' = add_buffers (n - m.num_buffers) m in
          ok n (record m' { num_slabs_nonreservable = m'.share (num_slabs m') }))

  -- 0 and -1 are `true` and `false`. The sum is one of `uint32_t`s.
  pub get_slab_reservation : ℕ → SlabManager W → Bool × SlabManager W
  get_slab_reservation n m =
      if n == 0
      then (true, m)
      else if ltb (num_slabs m) (u32 (m.num_slabs_reserved + m.num_slabs_nonreservable + n))
      then (false, m)
      else (true, record m { num_slabs_reserved = u32 (m.num_slabs_reserved + n) })

  pub release_slab_reservation : ℕ → SlabManager W → Bool × SlabManager W
  release_slab_reservation n m =
      if n == 0
      then (true, m)
      else if ltb m.num_slabs_reserved n
      then (false, m)
      else (true, record m { num_slabs_reserved = m.num_slabs_reserved - n })

  pub get_slab_info : ℕ → Proc (SlabManager W) SlabInfo
  get_slab_info id m =
      if m.slabs_per_buf == 0
      then throw divide_fault m
      else if ltb (id / m.slabs_per_buf) m.num_buffers
      then ok (m.info id) m
      else throw invalid_slab m

  -- `SlabInfo::GetFreeSlab` and `SetProducerParams`.
  pub take_free : ℕ → ProdClient → ℕ → Proc (SlabManager W) (Unit {0})
  take_free id who what m =
      let s = m.info id in
      if not (s.held_refcnt == 0)
      then throw free_but_held m
      else if not (is_nil s.wanted_segs)
      then throw free_but_wanted m
      else ok tt (
          put_info id
            (record s {
              held_refcnt = u32 (s.held_refcnt + 1);
              prod_client_id = who;
              prod_arg = what;
            })
            m)

  abbrev pub push_held : ℕ → Proc (SlabManager W) (Unit {0})
  push_held id m = ok tt (record m { held_slabs = m.held_slabs ++ (id ∷ []) })

  abbrev pub push_free : ℕ → Proc (SlabManager W) (Unit {0})
  push_free id m = ok tt (record m { free_slabs = m.free_slabs ++ (id ∷ []) })

  abbrev pub push_wanted : ℕ → Proc (SlabManager W) (Unit {0})
  push_wanted id m = ok tt (record m { wanted_slabs = m.wanted_slabs ++ (id ∷ []) })

  pub erase_held : ℕ → Proc (SlabManager W) (Unit {0})
  erase_held id m =
      if mem id m.held_slabs
      then ok tt (record m { held_slabs = erase id m.held_slabs })
      else throw hook_fault m

  pub erase_wanted : ℕ → Proc (SlabManager W) (Unit {0})
  erase_wanted id m =
      if mem id m.wanted_slabs
      then ok tt (record m { wanted_slabs = erase id m.wanted_slabs })
      else throw hook_fault m

  -- `SetProducerParams()` with its defaults.
  abbrev pub clear_producer : ℕ → Proc (SlabManager W) (Unit {0})
  clear_producer id m =
      ok tt (put_info id (record (m.info id) { prod_client_id = nobody; prod_arg = 0 }) m)

  abbrev pub increment_held : ℕ → Proc (SlabManager W) (Unit {0})
  increment_held id m =
      let s = m.info id in
      ok tt (put_info id (record s { held_refcnt = u32 (s.held_refcnt + 1) }) m)

  -- `SlabInfo::DecrementHeld`: on an underflow the count is cleared before the throw.
  pub decrement_held : ℕ → ℕ → Proc (SlabManager W) ℕ
  decrement_held id amount m =
      let s = m.info id in
      if ltb s.held_refcnt amount
      then throw refcnt_underflow (put_info id (record s { held_refcnt = 0 }) m)
      else ok (s.held_refcnt - amount)
          (put_info id (record s { held_refcnt = s.held_refcnt - amount }) m)

module _ {W : Type 0} (handler : Handler W) where
  -- What is installed beside the function: the changes that it is told of, and its argument.
  pub set_slab_state_change_handler : (Change → Bool) → W → SlabManager W → SlabManager W
  set_slab_state_change_handler which arg m = record m { which_state_change = which; arg = arg }

  pub call_state_change_handler : Change → ℕ → Proc (SlabManager W) (Unit {0})
  call_state_change_handler which id m =
      if m.which_state_change which then handler which id m else ok tt m

  -- One slab of `GetFreeSlabs`, whose loop condition has found `id` at the front.
  pub get_free_slab : ℕ → List ℕ → ProdClient → ℕ → Proc (SlabManager W) (Unit {0})
  unfolding take_free
  get_free_slab id rest who what m =
      (take_free id who what >> push_held id >> call_state_change_handler free_to_held id)
        (record m { free_slabs = rest })

  -- The slabIDs that are given out, in order.
  pub get_free_slabs : ℕ → ProdClient → ℕ → Proc (SlabManager W) (List ℕ)
  unfolding get_free_slab
  get_free_slabs zero who what m = ok [] m
  get_free_slabs (suc mxcount) who what m = elim m.free_slabs [
    | [] ↦ ok [] m
    | id ∷ rest ↦
        and_then (get_free_slab id rest who what m)
          λ _. get_free_slabs mxcount who what >>= λ ids. pure (id ∷ ids)
  ]

  pub increment_slab : ℕ → Proc (SlabManager W) (Unit {0})
  unfolding get_slab_info erase_wanted
  increment_slab id = do
    s ← get_slab_info id
    if not (s.held_refcnt == 0)
        then increment_held id
        else if is_nil s.wanted_segs
        then (λ m. throw not_held_or_wanted m)
        else (erase_wanted id
            >> push_held id
            >> call_state_change_handler wanted_to_held id
            >> increment_held id)

  pub increment_held_refcnt : List ℕ → Proc (SlabManager W) (Unit {0})
  unfolding increment_slab
  increment_held_refcnt [] m = ok tt m
  increment_held_refcnt (id ∷ ids) m = and_then (increment_slab id m) λ _. increment_held_refcnt ids

  -- What becomes of a slab that nobody holds any more.
  pub let_go : ℕ → Proc (SlabManager W) (Unit {0})
  unfolding erase_held
  let_go id m =
      let wanted = not (is_nil (m.info id).wanted_segs) in
      (if wanted
          then erase_held id >> push_wanted id >> call_state_change_handler held_to_wanted id
          else (erase_held id
              >> clear_producer id
              >> push_free id
              >> call_state_change_handler held_to_free id))
        m

  pub decrement_slab : ℕ → ℕ → Proc (SlabManager W) (Unit {0})
  unfolding get_slab_info decrement_held let_go
  decrement_slab id amount = do
    s ← get_slab_info id
    n ← decrement_held id amount
    if n == 0 then let_go id else pure tt

  -- The slabIDs with their amounts.
  pub decrement_held_refcnt : List (ℕ × ℕ) → Proc (SlabManager W) (Unit {0})
  unfolding decrement_slab
  decrement_held_refcnt [] m = ok tt m
  decrement_held_refcnt ((id, amount) ∷ rest) m =
      and_then (decrement_slab id amount m) λ _. decrement_held_refcnt rest

-- `kNumSegs` of `AddWantedSegmentBlock`.
abbrev pub segs_per_block : ℕ
segs_per_block = 256

-- The numbers of `count` new segments, from `i` on.
unfoldable pub numbers_from : ℕ → ℕ → List ℕ
numbers_from zero i = []
numbers_from (suc count) i = i ∷ numbers_from count (i + 1)

module _ {W : Type 0} where
  pub add_wanted_segment_block : SlabManager W → SlabManager W
  unfolding numbers_from
  add_wanted_segment_block m = record m {
    num_seg_blocks = m.num_seg_blocks + 1;
    free_wanted_segs =
        m.free_wanted_segs ++ numbers_from segs_per_block (m.num_seg_blocks * segs_per_block);
  }

  -- The front of the free segments, filled out and pushed on the slab.
  abbrev pub give_segment : ℕ → ℕ → ℕ → Proc (SlabManager W) ℕ
  give_segment client_id block_id id m = elim m.free_wanted_segs [
    | [] ↦ throw hook_fault m
    | a ∷ rest ↦
        let s = m.info id in
        ok a (record m {
          seg = update m.seg a (record { client_id = client_id; block_id = block_id });
          free_wanted_segs = rest;
          info = update m.info id (record s { wanted_segs = s.wanted_segs ++ (a ∷ []) });
        })
  ]

  pub get_wanted_segment : ℕ → ℕ → ℕ → Proc (SlabManager W) ℕ
  get_wanted_segment client_id block_id id = do
    s ← get_slab_info id
    if s.held_refcnt == 0 && is_nil s.wanted_segs then (λ m. throw not_held_or_wanted m) else (λ m.
        give_segment client_id block_id id
          (if is_nil m.free_wanted_segs then add_wanted_segment_block m else m))

  -- `SlabInfo::Erase`.
  pub erase_segment : ℕ → ℕ → Proc (SlabManager W) (Unit {0})
  erase_segment a id m =
      let s = m.info id in
      if is_nil s.wanted_segs
      then throw erase_empty m
      else if mem a s.wanted_segs
      then ok tt (put_info id (record s { wanted_segs = erase a s.wanted_segs }) m)
      else throw hook_fault m

  pub front_wanted_segment : Proc (SlabManager W) ℕ
  front_wanted_segment m = elim m.wanted_slabs [
    | [] ↦ throw no_wanted_slabs m
    | id ∷ ids ↦ elim (m.info id).wanted_segs [ [] ↦ throw no_wanted_segs m | a ∷ rest ↦ ok a m ]
  ]

module _ {W : Type 0} (handler : Handler W) where
  abbrev pub push_free_segment : ℕ → Proc (SlabManager W) (Unit {0})
  push_free_segment a m = ok tt (record m { free_wanted_segs = m.free_wanted_segs ++ (a ∷ []) })

  -- What becomes of a slab that has lost a wanted segment.
  pub settle : ℕ → Proc (SlabManager W) (Unit {0})
  unfolding erase_wanted
  settle id m =
      let s = m.info id in
      (if is_nil s.wanted_segs && s.held_refcnt == 0
          then (erase_wanted id
              >> clear_producer id
              >> push_free id
              >> call_state_change_handler handler wanted_to_free id)
          else pure tt)
        m

  pub release_wanted_segment : ℕ → ℕ → Proc (SlabManager W) (Unit {0})
  unfolding settle
  release_wanted_segment a id = do
    _ ← get_slab_info id
    erase_segment a id
    push_free_segment a
    settle id
