-- ===== src/SendManager/Segments.antt =====
-- `GetSegment`: the segment that it returns, what else it changes, and when it returns none.
use mcsb.Base.{
  ℕ, ◌+◌, ◌*◌, ◌≤◌, ◌<◌, ◌≡◌, ◌≢◌, refl, ap, subst, ◌∙◌, inl, inr, Bool, true, false, not, List, [],
  ◌∷◌, ◌++◌, Option, none, some, arith, ltb, bit, ◌==◌, u32, sub32, length, is_nil, mem, Nil-cases,
  Bool-cases, Option-cases, Outcome, ok,
}
use mcsb.SendManager.{
  SendManager, SendSegment, add_msg_seg_block, numbers_from, segs_per_block, find_room, harvest,
  pick_slab, alloc_segment, settle_slab, retire_working, reduce_working, set_max_working_slabs,
  trim_working, stock_segs, use_segment, use_slab, get_segment,
}
use mcsb.SendManager.Pool.{Inv, settle_slab-Inv, trim_working-Inv}
use mcsb.SendManager.Alloc.{Roomy, pick_slab-Roomy, stocked-Roomy, alloc_segment-Housed, some-pair}

-- What the moves of slabs leave alone: the segments, the free slabs and the sizes.
record View : Type 0 where
  pub busy_segs : List ℕ
  pub seg : ℕ → SendSegment
  pub free_slabs : List ℕ
  pub block_size : ℕ
  pub blocks_per_slab : ℕ

abbrev view : SendManager → View
view m = record {
  busy_segs = m.busy_segs;
  seg = m.seg;
  free_slabs = m.free_slabs;
  block_size = m.block_size;
  blocks_per_slab = m.blocks_per_slab;
}

retire_working-view :
    (s : ℕ) (rest : List ℕ) (m : SendManager) → view (retire_working s rest m) ≡ view m
unfolding retire_working
retire_working-view s rest m = elim (Bool-cases ((m.slab s).refcount == 0)) [
  | inl unused ↦ rw unused refl
  | inr used ↦ rw used refl
]

reduce_working-view : (slabs : List ℕ) (m : SendManager) → view (reduce_working slabs m) ≡ view m
unfolding reduce_working
reduce_working-view [] m = refl
reduce_working-view (s ∷ rest) m = elim (Bool-cases (ltb m.max_working_slabs (length (s ∷ rest)))) [
  | inr few ↦ rw few refl
  | inl many ↦
      rw many (reduce_working-view rest (retire_working s rest m) ∙ retire_working-view s rest m)
]

settle_slab-view : (s : ℕ) (m : SendManager) → view (settle_slab s m) ≡ view m
unfolding settle_slab
settle_slab-view s m = elim (Bool-cases (sub32 m.blocks_per_slab (m.slab s).blocks_used == 0)) [
  | inl none_left ↦ rw none_left refl
  | inr room ↦ rw room refl
]

trim_working-view : (m : SendManager) → view (trim_working m) ≡ view m
unfolding trim_working set_max_working_slabs
trim_working-view m = reduce_working-view m.working_slabs m

-- `a` is a new segment of `n` blocks, behind the busy ones; the other segments are as they were, and
-- one free slab is used at most, none at all if that is not allowed.
pub record NewSegment (n : ℕ) (no_free_slabs : Bool) (m : SendManager) (a : ℕ) (m' : SendManager)
    : Type 0 where
  pub inv : Inv m'
  pub busy : m'.busy_segs ≡ m.busy_segs ++ (a ∷ [])
  pub new : mem a m.busy_segs ≡ false
  pub others : (b : ℕ) → b ≢ a → m'.seg b ≡ m.seg b
  pub next : (m'.seg a).next ≡ none
  pub size : (m'.seg a).size ≡ u32 (n * m.block_size)
  pub free_slabs : length m.free_slabs ≤ length m'.free_slabs + bit (not no_free_slabs)
  pub block_size : m'.block_size ≡ m.block_size
  pub blocks_per_slab : m'.blocks_per_slab ≡ m.blocks_per_slab

-- It returns: no segment and an unchanged pool if there is no slab for it, or else a new one.
pub data Got (n : ℕ) (no_free_slabs : Bool) (m : SendManager) (r : Outcome SendManager (Option ℕ))
    : Type 0 where
  no_slab : pick_slab n no_free_slabs m ≡ none → r ≡ ok none m → Got n no_free_slabs m r
  made :
      (a : ℕ) (m' : SendManager)
      → r ≡ ok (some a) m'
      → NewSegment n no_free_slabs m a m'
      → Got n no_free_slabs m r

-- The segment that is made in the slab `s`, the slabs not settled yet.
placed-NewSegment :
    (n s a : ℕ) (rest : List ℕ) (m : SendManager)
    → Roomy n s m
    → 0 < n
    → m.free_segs ≡ a ∷ rest
    → NewSegment n true m a (trim_working (settle_slab s (alloc_segment s n a rest m)))
placed-NewSegment n s a rest m r pos e =
    let m1 = alloc_segment s n a rest m in
    let h = alloc_segment-Housed s n a rest m r pos e in
    let same : view (trim_working (settle_slab s m1)) ≡ view m1 =
      trim_working-view (settle_slab s m1) ∙ settle_slab-view s m1 in
    record {
      inv = trim_working-Inv (settle_slab s m1) (settle_slab-Inv s m1 h.inv h.worked h.used);
      busy = ap (λ (w : View). w.busy_segs) same;
      new = ground (arith, r.inv.segs a);
      others = λ b ne. ap (λ (w : View). w.seg b) same ∙ ground arith;
      next = ap (λ (w : View). (w.seg a).next) same ∙ ground arith;
      size = ap (λ (w : View). (w.seg a).size) same ∙ ground arith;
      free_slabs = ground (arith, ap (λ (w : View). w.free_slabs) same);
      block_size = ap (λ (w : View). w.block_size) same;
      blocks_per_slab = ap (λ (w : View). w.blocks_per_slab) same;
    }

-- Picking a slab leaves the segments and sizes alone, and takes one free slab at most.
record Picked (no_free_slabs : Bool) (m m' : SendManager) : Type 0 where
  pub busy : m'.busy_segs ≡ m.busy_segs
  pub seg : m'.seg ≡ m.seg
  pub free_slabs : length m.free_slabs ≤ length m'.free_slabs + bit (not no_free_slabs)
  pub block_size : m'.block_size ≡ m.block_size
  pub blocks_per_slab : m'.blocks_per_slab ≡ m.blocks_per_slab

harvest-Picked :
    (s : ℕ) (b : Bool) (m m' : SendManager) → harvest b m ≡ some (s, m') → Picked b m m'
unfolding harvest
harvest-Picked s b m m' found = by_front m.free_slabs refl b found
  where
    by_front :
        (fs : List ℕ) → m.free_slabs ≡ fs → (b : Bool) → harvest b m ≡ some (s, m') → Picked b m m'
    by_front [] e b found = absurd (cc)
    by_front (z ∷ rest) e true found = cc
    by_front (z ∷ rest) e false found =
        let (same_s, same_m) = some-pair (rw (e, harvest) at found) in
        subst (Picked false m) same_m (record {
          busy = refl;
          seg = refl;
          free_slabs = ground arith;
          block_size = refl;
          blocks_per_slab = refl;
        })

pick_slab-Picked :
    (n s : ℕ) (b : Bool) (m m' : SendManager) → pick_slab n b m ≡ some (s, m') → Picked b m m'
unfolding pick_slab
pick_slab-Picked n s b m m' found = elim (Bool-cases (ltb n m.blocks_per_slab)) [
  | inr whole ↦ harvest-Picked s b m m' (rw (whole, pick_slab) at found)
  | inl part ↦ elim (Option-cases (find_room n m m.working_slabs)) [
    | inl full ↦ harvest-Picked s b m m' (rw (part, full, pick_slab) at found)
    | inr (z, roomy) ↦
        let (same_s, same_m) = some-pair (rw (part, roomy, pick_slab) at found) in
        subst (Picked b m) same_m (record {
          busy = refl;
          seg = refl;
          free_slabs = ground arith;
          block_size = refl;
          blocks_per_slab = refl;
        })
  ]
]

-- The new segment, told of the pool from before the slab was picked.
from_Picked :
    (n a : ℕ) (b : Bool) (m m1 m2 : SendManager)
    → Picked b m m1
    → NewSegment n true m1 a m2
    → NewSegment n b m a m2
from_Picked n a b m m1 m2 p s = record {
  inv = s.inv;
  busy = s.busy ∙ ap (λ q. q ++ (a ∷ [])) p.busy;
  new = subst (λ q. mem a q ≡ false) p.busy s.new;
  others = λ c ne. s.others c ne ∙ ap (λ (q : ℕ → SendSegment). q c) p.seg;
  next = s.next;
  size = s.size ∙ ap (λ q. u32 (n * q)) p.block_size;
  free_slabs = ground (arith, s.free_slabs, p.free_slabs);
  block_size = s.block_size ∙ p.block_size;
  blocks_per_slab = s.blocks_per_slab ∙ p.blocks_per_slab;
}

add_msg_seg_block-stock :
    (m : SendManager) → (rest : List ℕ) × (a : ℕ) × ((add_msg_seg_block m).free_segs ≡ a ∷ rest)
unfolding add_msg_seg_block numbers_from
add_msg_seg_block-stock m = elim (Nil-cases m.free_segs) [
  | inl empty ↦ (
    _,
    m.num_seg_blocks * 32,
    ap (λ q. q ++ numbers_from segs_per_block (m.num_seg_blocks * segs_per_block)) empty,
  )
  | inr (a, rest, e) ↦
      (_, a, ap (λ q. q ++ numbers_from segs_per_block (m.num_seg_blocks * segs_per_block)) e)
]

-- With a free segment in stock.
stocked-Got :
    (n s a : ℕ) (rest : List ℕ) (b : Bool) (m m1 : SendManager)
    → Picked b m m1
    → Roomy n s m1
    → 0 < n
    → m1.free_segs ≡ a ∷ rest
    → Got n b m (use_segment n s m1)
unfolding use_segment
stocked-Got n s a rest b m m1 p r pos e =
    let working : (m1.slab s).working ≡ true = (r.inv.slabs s).marked ∙ r.worked in
    made a (trim_working (settle_slab s (alloc_segment s n a rest m1))) (rw (e, working) refl)
      (from_Picked n a b m m1 _ p (placed-NewSegment n s a rest m1 r pos e))

block-Picked : (b : Bool) (m m1 : SendManager) → Picked b m m1 → Picked b m (add_msg_seg_block m1)
unfolding add_msg_seg_block
block-Picked b m m1 p = record {
  busy = p.busy;
  seg = p.seg;
  free_slabs = p.free_slabs;
  block_size = p.block_size;
  blocks_per_slab = p.blocks_per_slab;
}

stock-empty : (m : SendManager) → is_nil m.free_segs ≡ true → stock_segs m ≡ add_msg_seg_block m
unfolding stock_segs
stock-empty m empty = rw empty refl

stock-there : (m : SendManager) → is_nil m.free_segs ≡ false → stock_segs m ≡ m
unfolding stock_segs
stock-there m there = rw there refl

use_slab-Got :
    (n s : ℕ) (b : Bool) (m m1 : SendManager)
    → Picked b m m1
    → Roomy n s m1
    → 0 < n
    → Got n b m (use_slab n s m1)
unfolding use_slab
use_slab-Got n s b m m1 p r pos = elim (Nil-cases m1.free_segs) [
  | inr (a, rest, e) ↦ rw (stock-there m1 (ap is_nil e)) (stocked-Got n s a rest b m m1 p r pos e)
  | inl empty ↦
      let (rest, a, e) = add_msg_seg_block-stock m1 in
      rw (stock-empty m1 (ap is_nil empty)) (
        stocked-Got n s a rest b m (add_msg_seg_block m1) (block-Picked b m m1 p)
          (stocked-Roomy n s m1 r) pos e)
]

-- Under the pool's invariant, `GetSegment` for at least one and at most a slab's blocks returns: no
-- segment, with nothing changed, if no slab can be picked, or else a new busy segment of that size
-- at the end of the busy ones, with the other segments as they were, one free slab used at most,
-- and the invariant kept.
pub get_segment-Got :
    (n : ℕ) (no_free_slabs : Bool) (m : SendManager)
    → Inv m
    → 0 < n
    → n ≤ m.blocks_per_slab
    → Got n no_free_slabs m (get_segment n no_free_slabs m)
unfolding get_segment
get_segment-Got n b m v pos small =
    let fits : ltb m.blocks_per_slab n ≡ false = ground arith in
    elim (Option-cases (pick_slab n b m)) [
      | inl nowhere ↦ no_slab nowhere (rw (fits, nowhere) refl)
      | inr ((s, m1), there) ↦
          rw (fits, there)
            (use_slab-Got n s b m m1 (pick_slab-Picked n s b m m1 there)
              (pick_slab-Roomy n s b m m1 v small there) pos)
    ]
