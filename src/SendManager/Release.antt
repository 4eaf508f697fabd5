-- ===== src/SendManager/Release.antt =====
-- `ReleaseMessageDescriptor`: what becomes of a message's segments and of their slabs.
use mcsb.Base.{
  ℕ, zero, suc, ◌+◌, ◌/◌, ◌≤◌, ◌<◌, ◌≡◌, refl, sym, ap, subst, ◌∙◌, ◌⊎◌, inl, inr, true, false, not,
  ◌&&◌, List, [], ◌∷◌, ◌++◌, Option, none, some, arith, leb, bit, ◌==◌, sub32, length, count, mem,
  erase, length-append, count-append, count-erase, total-erase, Bool-cases, ok,
}
use mcsb.SendManager.{
  SendManager, SendSegment, put_slab, retire_unused, release_segment, release_from,
  release_message_descriptor,
}
use mcsb.SendManager.Pool.{Inv, slab_of, live}
use mcsb.SendManager.Messages.{Linked}
use mcsb.SendManager.Chains.{Chain}

-- The segment `a` is freed.
pub record Freed (a : ℕ) (m m' : SendManager) : Type 0 where
  pub inv : Inv m'
  pub busy : m'.busy_segs ≡ erase a m.busy_segs
  pub seg : m'.seg ≡ m.seg
  pub blocks_per_slab : m'.blocks_per_slab ≡ m.blocks_per_slab

-- The pool without the segment `a`, before the slab retires.
abbrev freed : ℕ → SendManager → SendManager
freed a m =
    let s = (m.seg a).block_id / m.blocks_per_slab in
    record (put_slab s (record (m.slab s) { refcount = sub32 (m.slab s).refcount 1 }) m) {
      busy_segs = erase a m.busy_segs;
      free_segs = m.free_segs ++ (a ∷ []);
    }

live-freed :
    (a : ℕ) (m : SendManager)
    → mem a m.busy_segs ≡ true
    → (s : ℕ) → live (freed a m) s + bit (slab_of m a == s) ≡ live m s
live-freed a m held s = total-erase (λ b. bit (slab_of m b == s)) a m.busy_segs held

-- The slab stays where it is.
stays-Freed :
    (a : ℕ) (m : SendManager)
    → Inv m
    → mem a m.busy_segs ≡ true
    → ((freed a m).slab (slab_of m a)).working ≡ true
      ⊎ 0 < ((freed a m).slab (slab_of m a)).refcount
    → Freed a m (freed a m)
stays-Freed a m v held why = record {
  inv = record {
    segs = λ b.
        ground (arith, v.segs b, count-append b m.free_segs (a ∷ []), count-erase b a m.busy_segs);
    slabs = λ z. record {
      once = ground (arith, (v.slabs z).once);
      marked = ground (arith, (v.slabs z).marked);
      counted = ground (
        arith,
        (v.slabs z).counted,
        (v.slabs z).bounded,
        (v.slabs z).fits,
        v.size,
        live-freed a m held z,
      );
      bounded = ground (
        arith,
        (v.slabs z).counted,
        (v.slabs z).bounded,
        (v.slabs z).fits,
        v.size,
        live-freed a m held z,
      );
      fits = ground (arith, (v.slabs z).fits);
      full = ground (arith, why, (v.slabs z).full, (v.slabs z).marked, (v.slabs z).once);
      idle = ground (arith, (v.slabs z).idle, (v.slabs z).counted, live-freed a m held z);
      fresh = ground (arith, (v.slabs z).fresh);
      known = ground (arith, (v.slabs z).known);
    };
    size = v.size;
    ids = v.ids;
  };
  busy = refl;
  seg = refl;
  blocks_per_slab = refl;
}

-- The slab goes from the full ones to the retired ones.
abbrev retired : ℕ → SendManager → SendManager
retired s m = record m {
  full_slabs = erase s m.full_slabs;
  retired_slabs = m.retired_slabs ++ (s ∷ []);
}

retires-Freed :
    (a : ℕ) (m : SendManager)
    → Inv m
    → mem a m.busy_segs ≡ true
    → mem (slab_of m a) m.full_slabs ≡ true
    → ((freed a m).slab (slab_of m a)).refcount ≡ 0
    → Freed a m (retired (slab_of m a) (freed a m))
retires-Freed a m v held full last =
    let s = slab_of m a in
    record {
      inv = record {
        segs = λ b.
            ground
              (arith, v.segs b, count-append b m.free_segs (a ∷ []), count-erase b a m.busy_segs);
        slabs = λ z. record {
          once = ground (
            arith,
            (v.slabs z).once,
            count-append z m.retired_slabs (s ∷ []),
            count-erase z s m.full_slabs,
          );
          marked = ground (arith, (v.slabs z).marked);
          counted = ground (
            arith,
            (v.slabs z).counted,
            (v.slabs z).bounded,
            (v.slabs z).fits,
            v.size,
            live-freed a m held z,
          );
          bounded = ground (
            arith,
            (v.slabs z).counted,
            (v.slabs z).bounded,
            (v.slabs z).fits,
            v.size,
            live-freed a m held z,
          );
          fits = ground (arith, (v.slabs z).fits);
          full = ground (arith, (v.slabs z).full, (v.slabs z).once, count-erase z s m.full_slabs);
          idle = ground (arith, last, (v.slabs z).idle, count-erase z s m.full_slabs);
          fresh = ground (arith, (v.slabs z).fresh);
          known = ground (
            arith,
            (v.slabs z).known,
            count-append z m.retired_slabs (s ∷ []),
            count-erase z s m.full_slabs,
          );
        };
        size = v.size;
        ids = v.ids;
      };
      busy = refl;
      seg = refl;
      blocks_per_slab = refl;
    }

-- The segment counts in its slab, so the slab is held and its count is not zero.
held-slab :
    (a : ℕ) (m : SendManager)
    → Inv m
    → mem a m.busy_segs ≡ true
    → (slab_of m a < m.num_slabs) × (0 < (m.slab (slab_of m a)).refcount)
held-slab a m v held =
    let s = slab_of m a in
    let used : 0 < (m.slab s).refcount =
      ground (arith, live-freed a m held s, (v.slabs s).counted) in
    (ground (arith, used, (v.slabs s).idle, (v.slabs s).known), used)

-- Under the pool's invariant, with slabs that have blocks, a round of `ReleaseMessageDescriptor`
-- for a busy segment returns: just that segment is taken off the busy ones, and the invariant, by
-- which a slab's count is that of its busy segments and a full slab has one, holds again.
pub release_segment-Freed :
    (a : ℕ) (m : SendManager)
    → Inv m
    → 0 < m.blocks_per_slab
    → mem a m.busy_segs ≡ true
    → (m' : SendManager) × (release_segment a m ≡ ok tt m') × Freed a m m'
unfolding release_segment retire_unused
release_segment-Freed a m v pos held =
    let s = slab_of m a in
    let (known, used) = held-slab a m v held in
    let room : (m.blocks_per_slab == 0) ≡ false = ground arith in
    let inside : leb m.num_slabs s ≡ false = ground arith in
    elim (Bool-cases (not ((freed a m).slab s).working && ((freed a m).slab s).refcount == 0)) [
      | inr stays ↦
          (freed a m, rw (room, inside, held, stays) refl, stays-Freed a m v held (ground arith))
      | inl goes ↦
          let full : mem s m.full_slabs ≡ true =
            ground (arith, used, goes, (v.slabs s).idle, (v.slabs s).marked) in
          (
            retired s (freed a m),
            rw (room, inside, held, goes, full) refl,
            retires-Freed a m v held full (ground arith),
          )
    ]

abbrev pub head : List ℕ → Option ℕ
head [] = none
head (a ∷ segs) = some a

next_of :
    (seg : ℕ → SendSegment) (a : ℕ) (segs : List ℕ)
    → Linked seg (a ∷ segs)
    → (seg a).next ≡ head segs
next_of seg a [] l = l
next_of seg a (b ∷ segs) l = l.0

tail_of : (seg : ℕ → SendSegment) (a : ℕ) (segs : List ℕ) → Linked seg (a ∷ segs) → Linked seg segs
tail_of seg a [] l = tt
tail_of seg a (b ∷ segs) l = l.1

-- A chain of busy segments is freed.
pub record Released (segs : List ℕ) (m m' : SendManager) : Type 0 where
  pub inv : Inv m'
  pub busy : (z : ℕ) → count z m'.busy_segs + count z segs ≡ count z m.busy_segs
  pub seg : m'.seg ≡ m.seg

one_round :
    (fuel a : ℕ) (m m1 : SendManager)
    → release_segment a m ≡ ok tt m1
    → release_from (suc fuel) (some a) m ≡ release_from fuel (m1.seg a).next m1
unfolding release_from
one_round fuel a m m1 run = rw run refl

release_from-Released :
    (fuel : ℕ) (segs : List ℕ) (m : SendManager)
    → Inv m
    → 0 < m.blocks_per_slab
    → length segs ≤ fuel
    → Linked m.seg segs
    → ((z : ℕ) → count z segs ≤ count z m.busy_segs)
    → (m' : SendManager) × (release_from fuel (head segs) m ≡ ok tt m') × Released segs m m'
unfolding release_from
release_from-Released fuel [] m v pos enough linked held =
    (m, refl, record { inv = v; busy = λ z. omega arith; seg = refl })
release_from-Released zero (a ∷ segs) m v pos enough linked held = absurd (omega arith)
release_from-Released (suc fuel) (a ∷ segs) m v pos enough linked held =
    let (m1, run, f) = release_segment-Freed a m v pos (ground (arith, held a)) in
    let next : (m1.seg a).next ≡ head segs =
      ap (λ (q : ℕ → SendSegment). (q a).next) f.seg ∙ next_of m.seg a segs linked in
    let (m', rest, r) =
      release_from-Released fuel segs m1 f.inv (ground (arith, f.blocks_per_slab)) (omega arith)
        (subst (λ q. Linked q segs) (sym f.seg) (tail_of m.seg a segs linked))
        (λ z. ground (arith, held z, f.busy, count-erase z a m.busy_segs)) in
    (
      m',
      one_round fuel a m m1 run ∙ ap (λ d. release_from fuel d m1) next ∙ rest,
      record {
        inv = r.inv;
        busy = λ z. ground (arith, r.busy z, f.busy, held z, count-erase z a m.busy_segs);
        seg = r.seg ∙ f.seg;
      },
    )

-- A message that `GetMessageDescriptor` has made, in slabs that have blocks, can be released:
-- `ReleaseMessageDescriptor` returns, each segment is busy as often as before the message was made,
-- and the pool's invariant holds again.
pub release-Chain :
    (n a : ℕ) (m m' : SendManager)
    → 0 < m'.blocks_per_slab
    → (c : Chain n m a m')
    → (m'' : SendManager) × (release_message_descriptor (some a) m' ≡ ok tt m'')
      × (Inv m'')
      × ((z : ℕ) → count z m''.busy_segs ≡ count z m.busy_segs)
unfolding release_message_descriptor
release-Chain n a m m' pos c =
    let (m'', run, r) =
      release_from-Released (length m'.busy_segs + 1) (a ∷ c.segs) m' c.inv pos
        (ground (arith, c.busy, length-append m.busy_segs (a ∷ c.segs))) c.linked
        (λ z. ground (arith, c.busy, count-append z m.busy_segs (a ∷ c.segs))) in
    (
      m'',
      run,
      r.inv,
      λ z. ground (arith, r.busy z, c.busy, count-append z m.busy_segs (a ∷ c.segs)),
    )
