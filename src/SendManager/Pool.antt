-- ===== src/SendManager/Pool.antt =====
-- The pool of slabs: the list that each slab stands in, and what its count of segments says. The
-- moves of slabs in `MaxWorkingSlabs`, `GetSegment` and `GetRetiredSlabs`.
use mcsb.Base.{
  ℕ, zero, suc, ◌+◌, ◌*◌, ◌/◌, ◌≤◌, ◌<◌, ◌^◌, ◌≡◌, refl, inl, inr, true, List, [], ◌∷◌, ◌++◌, ◌&&◌,
  arith, sub32, ltb, leb, bit, ◌==◌, length, total, count, mem, count-append, count-erase,
  Bool-cases,
}
use mcsb.SendManager.{
  SendManager, numbers_from, segs_per_block, add_msg_seg_block, retire_working, reduce_working,
  set_max_working_slabs, flush_working_slabs, settle_slab, trim_working,
}

-- The slab that a segment lies in.
abbrev pub slab_of : SendManager → ℕ → ℕ
slab_of m a = (m.seg a).block_id / m.blocks_per_slab

-- The busy segments in the slab `s`.
abbrev pub live : SendManager → ℕ → ℕ
live m s = total (λ a. bit (slab_of m a == s)) m.busy_segs

abbrev pub places : SendManager → ℕ → ℕ
places m s =
    count s m.free_slabs + count s m.working_slabs + count s m.full_slabs + count s m.retired_slabs

-- The slab `s` stands in one list at most. It is marked while it is worked on; its count is that of
-- its busy segments, and no more than its used blocks, which are no more than it has. A full slab has
-- a segment, a slab neither worked on nor full has none, and a free slab has no used block.
pub record SlabFits (m : SendManager) (s : ℕ) : Type 0 where
  pub once : places m s ≤ 1
  pub marked : (m.slab s).working ≡ mem s m.working_slabs
  pub counted : (m.slab s).refcount ≡ live m s
  pub bounded : (m.slab s).refcount ≤ (m.slab s).blocks_used
  pub fits : (m.slab s).blocks_used ≤ m.blocks_per_slab
  pub full : 0 < count s m.full_slabs → 0 < (m.slab s).refcount
  pub idle : count s m.working_slabs + count s m.full_slabs ≡ 0 → (m.slab s).refcount ≡ 0
  pub fresh : 0 < count s m.free_slabs → (m.slab s).blocks_used ≡ 0
  pub known : m.num_slabs ≤ s → places m s ≡ 0

pub record Inv (m : SendManager) : Type 0 where
  pub segs :
      (a : ℕ)
      → count a m.free_segs + count a m.busy_segs ≡ bit (ltb a (m.num_seg_blocks * segs_per_block))
  pub slabs : (s : ℕ) → SlabFits m s
  pub size : m.blocks_per_slab < 2 ^ 32
  pub ids : m.num_slabs * m.blocks_per_slab ≤ 2 ^ 32

-- Nothing of it is about the limit on working slabs or the free segments.
refit :
    (max_slabs blocks : ℕ) (frees : List ℕ) (m : SendManager) (s : ℕ)
    → SlabFits m s
    → SlabFits
        (record m { max_working_slabs = max_slabs; free_segs = frees; num_seg_blocks = blocks })
        s
refit max_slabs blocks frees m s f = record {
  once = f.once;
  marked = f.marked;
  counted = f.counted;
  bounded = f.bounded;
  fits = f.fits;
  full = f.full;
  idle = f.idle;
  fresh = f.fresh;
  known = f.known;
}

retire_working-Inv :
    (s : ℕ) (rest : List ℕ) (m : SendManager)
    → m.working_slabs ≡ s ∷ rest
    → Inv m
    → Inv (retire_working s rest m)
unfolding retire_working
retire_working-Inv s rest m e v = elim (Bool-cases ((m.slab s).refcount == 0)) [
  | inl unused ↦ rw unused (record {
    segs = v.segs;
    slabs = λ z. record {
      once = ground (arith, (v.slabs z).once, count-append z m.retired_slabs (s ∷ []));
      marked = ground (arith, (v.slabs z).marked, (v.slabs s).once);
      counted = ground (arith, (v.slabs z).counted);
      bounded = ground (arith, (v.slabs z).bounded);
      fits = ground (arith, (v.slabs z).fits);
      full = ground (arith, (v.slabs z).full);
      idle = ground (arith, (v.slabs z).idle);
      fresh = ground (arith, (v.slabs z).fresh);
      known = ground (arith, (v.slabs z).known, count-append z m.retired_slabs (s ∷ []));
    };
    size = v.size;
    ids = v.ids;
  })
  | inr used ↦ rw used (record {
    segs = v.segs;
    slabs = λ z. record {
      once = ground (arith, (v.slabs z).once, count-append z m.full_slabs (s ∷ []));
      marked = ground (arith, (v.slabs z).marked, (v.slabs s).once);
      counted = ground (arith, (v.slabs z).counted);
      bounded = ground (arith, (v.slabs z).bounded);
      fits = ground (arith, (v.slabs z).fits);
      full = ground (arith, (v.slabs z).full, count-append z m.full_slabs (s ∷ []));
      idle = ground (arith, (v.slabs z).idle, count-append z m.full_slabs (s ∷ []));
      fresh = ground (arith, (v.slabs z).fresh);
      known = ground (arith, (v.slabs z).known, count-append z m.full_slabs (s ∷ []));
    };
    size = v.size;
    ids = v.ids;
  })
]

retired-working :
    (s : ℕ) (rest : List ℕ) (m : SendManager) → (retire_working s rest m).working_slabs ≡ rest
unfolding retire_working
retired-working s rest m = ground arith

reduce_working-Inv :
    (slabs : List ℕ) (m : SendManager)
    → m.working_slabs ≡ slabs
    → Inv m
    → Inv (reduce_working slabs m)
unfolding reduce_working retire_working
reduce_working-Inv [] m e v = v
reduce_working-Inv (s ∷ rest) m e v =
    elim (Bool-cases (ltb m.max_working_slabs (length (s ∷ rest)))) [
      | inr few ↦ rw few v
      | inl many ↦ rw many (
          reduce_working-Inv rest (retire_working s rest m) (retired-working s rest m)
            (retire_working-Inv s rest m e v))
    ]

-- `MaxWorkingSlabs` keeps the pool's invariant.
pub set_max_working_slabs-Inv :
    (max_slabs : ℕ) (m : SendManager) → Inv m → Inv (set_max_working_slabs max_slabs m)
unfolding set_max_working_slabs
set_max_working_slabs-Inv max_slabs m v =
    reduce_working-Inv m.working_slabs (record m { max_working_slabs = max_slabs }) refl
      (record {
        segs = v.segs;
        slabs = λ s. refit max_slabs m.num_seg_blocks m.free_segs m s (v.slabs s);
        size = v.size;
        ids = v.ids;
      })

pub trim_working-Inv : (m : SendManager) → Inv m → Inv (trim_working m)
unfolding trim_working
trim_working-Inv m v = set_max_working_slabs-Inv m.max_working_slabs m v

pub flush_working_slabs-Inv : (m : SendManager) → Inv m → Inv (flush_working_slabs m)
unfolding flush_working_slabs
flush_working_slabs-Inv m v =
    set_max_working_slabs-Inv m.max_working_slabs (set_max_working_slabs 0 m)
      (set_max_working_slabs-Inv 0 m v)

pub settle_slab-Inv :
    (s : ℕ) (m : SendManager)
    → Inv m
    → mem s m.working_slabs ≡ true
    → 0 < (m.slab s).refcount
    → Inv (settle_slab s m)
unfolding settle_slab
settle_slab-Inv s m v there used =
    elim (Bool-cases (sub32 m.blocks_per_slab (m.slab s).blocks_used == 0)) [
      | inr room ↦ rw room v
      | inl none_left ↦ rw none_left (record {
        segs = v.segs;
        slabs = λ z. record {
          once = ground (
            arith,
            (v.slabs z).once,
            count-append z m.full_slabs (s ∷ []),
            count-erase z s m.working_slabs,
          );
          marked =
              ground (arith, (v.slabs z).marked, (v.slabs s).once, count-erase z s m.working_slabs);
          counted = ground (arith, (v.slabs z).counted);
          bounded = ground (arith, (v.slabs z).bounded);
          fits = ground (arith, (v.slabs z).fits);
          full = ground (arith, (v.slabs z).full, count-append z m.full_slabs (s ∷ []));
          idle = ground (
            arith,
            (v.slabs z).idle,
            count-append z m.full_slabs (s ∷ []),
            count-erase z s m.working_slabs,
          );
          fresh = ground (arith, (v.slabs z).fresh);
          known = ground (
            arith,
            (v.slabs z).known,
            count-append z m.full_slabs (s ∷ []),
            count-erase z s m.working_slabs,
          );
        };
        size = v.size;
        ids = v.ids;
      })
    ]

pub count-numbers_from : (a n i : ℕ) → count a (numbers_from n i) ≡ bit (leb i a && ltb a (i + n))
unfolding numbers_from
count-numbers_from a zero i = ground arith
count-numbers_from a (suc n) i = ground (arith, count-numbers_from a n (i + 1))

pub add_msg_seg_block-Inv : (m : SendManager) → Inv m → Inv (add_msg_seg_block m)
unfolding add_msg_seg_block
add_msg_seg_block-Inv m v = record {
  segs = λ a. ground (
    arith,
    v.segs a,
    count-append a m.free_segs (numbers_from segs_per_block (m.num_seg_blocks * segs_per_block)),
    count-numbers_from a segs_per_block (m.num_seg_blocks * segs_per_block),
  );
  slabs = λ s.
      refit m.max_working_slabs (m.num_seg_blocks + 1)
        (m.free_segs ++ numbers_from segs_per_block (m.num_seg_blocks * segs_per_block)) m s
        (v.slabs s);
  size = v.size;
  ids = v.ids;
}
