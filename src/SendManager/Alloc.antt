-- ===== src/SendManager/Alloc.antt =====
-- `GetSegment`: the slab that it picks, and the segment that it makes there.
use native.Mathlib.Nat.{mul-le-mul_right, mod-eq_of_lt, mul-add-div_right, div-eq_of_lt}
use mcsb.Base.{
  ◌%◌, ℕ, ◌+◌, ◌*◌, ◌/◌, ◌≤◌, ◌<◌, ◌^◌, ◌≡◌, refl, ap, subst, ◌∙◌, inl, inr, Bool, true, false,
  List, [], ◌∷◌, ◌++◌, Option, none, some, arith, ltb, leb, bit, ◌==◌, sub32, total, total-append,
  count, mem, count-append, total-congr, Bool-cases, Option-cases,
}
use mcsb.SendManager.{
  SendManager, add_msg_seg_block, put_slab, find_room, harvest, pick_slab, alloc_segment,
}
use mcsb.SendManager.Pool.{Inv, slab_of, live, add_msg_seg_block-Inv}

-- A slab where a segment of `n` blocks has room.
pub record Roomy (n s : ℕ) (m : SendManager) : Type 0 where
  pub inv : Inv m
  pub worked : mem s m.working_slabs ≡ true
  pub room : (m.slab s).blocks_used + n ≤ m.blocks_per_slab

pub some-injective : {a b : ℕ} → some a ≡ some b → a ≡ b
some-injective e = cc

find_room-Roomy :
    (n : ℕ) (m : SendManager) (slabs : List ℕ) (s : ℕ)
    → Inv m
    → ((z : ℕ) → count z slabs ≤ count z m.working_slabs)
    → find_room n m slabs ≡ some s
    → Roomy n s m
unfolding find_room
find_room-Roomy n m [] s v sub found = cc
find_room-Roomy n m (b ∷ slabs) s v sub found =
    elim (Bool-cases (leb n (sub32 m.blocks_per_slab (m.slab b).blocks_used))) [
      | inr small ↦ find_room-Roomy n m slabs s v (λ z. ground (arith, sub z)) (rw small at found)
      | inl large ↦
          let same : b ≡ s = some-injective (rw large at found) in
          subst (λ z. Roomy n z m) same
            (record {
              inv = v;
              worked = ground (arith, sub b);
              room = ground (arith, v.size, (v.slabs b).fits);
            })
    ]

harvest-Inv :
    (s : ℕ) (rest : List ℕ) (m : SendManager)
    → m.free_slabs ≡ s ∷ rest
    → Inv m
    → Inv (
        put_slab s
          (record (m.slab s) { working = true })
          (record m { free_slabs = rest; working_slabs = m.working_slabs ++ (s ∷ []) }))
harvest-Inv s rest m e v = record {
  segs = v.segs;
  slabs = λ z. record {
    once = ground (arith, (v.slabs z).once, count-append z m.working_slabs (s ∷ []));
    marked = ground (arith, (v.slabs z).marked, count-append z m.working_slabs (s ∷ []));
    counted = ground (arith, (v.slabs z).counted);
    bounded = ground (arith, (v.slabs z).bounded);
    fits = ground (arith, (v.slabs z).fits);
    full = ground (arith, (v.slabs z).full);
    idle = ground (arith, (v.slabs z).idle, count-append z m.working_slabs (s ∷ []));
    fresh = ground (arith, (v.slabs z).fresh);
    known = ground (arith, (v.slabs z).known, count-append z m.working_slabs (s ∷ []));
  };
  size = v.size;
  ids = v.ids;
}

abbrev pub picked : Option (ℕ × SendManager) → ℕ × SendManager → ℕ × SendManager
picked none p = p
picked (some q) p = q

pub some-pair : {p q : ℕ × SendManager} → some p ≡ some q → (p.0 ≡ q.0) × (p.1 ≡ q.1)
some-pair {p} {q} e =
    let same : p ≡ q = ap (λ o. picked o p) e in (ap (λ r. r.0) same, ap (λ r. r.1) same)

harvest-Roomy :
    (n s : ℕ) (no_free_slabs : Bool) (m m' : SendManager)
    → Inv m
    → n ≤ m.blocks_per_slab
    → harvest no_free_slabs m ≡ some (s, m')
    → Roomy n s m'
unfolding harvest
harvest-Roomy n s no_free_slabs m m' v small found = by_front m.free_slabs refl no_free_slabs found
  where
    by_front :
        (fs : List ℕ) → m.free_slabs ≡ fs → (b : Bool) → harvest b m ≡ some (s, m') → Roomy n s m'
    by_front [] e b found = absurd (cc)
    by_front (z ∷ rest) e true found = cc
    by_front (z ∷ rest) e false found =
        let (same_s, same_m) = some-pair (rw (e, harvest) at found) in
        subst (λ t. Roomy n t m') same_s
          (subst (Roomy n z) same_m (record {
            inv = harvest-Inv z rest m e v;
            worked = ground (arith, count-append z m.working_slabs (z ∷ []));
            room = ground (arith, (v.slabs z).fresh);
          }))

pub pick_slab-Roomy :
    (n s : ℕ) (no_free_slabs : Bool) (m m' : SendManager)
    → Inv m
    → n ≤ m.blocks_per_slab
    → pick_slab n no_free_slabs m ≡ some (s, m')
    → Roomy n s m'
unfolding pick_slab
pick_slab-Roomy n s no_free_slabs m m' v small found = elim (Bool-cases (ltb n m.blocks_per_slab)) [
  | inr whole ↦ harvest-Roomy n s no_free_slabs m m' v small (rw (whole, pick_slab) at found)
  | inl part ↦ elim (Option-cases (find_room n m m.working_slabs)) [
    | inl full ↦ harvest-Roomy n s no_free_slabs m m' v small (rw (part, full, pick_slab) at found)
    | inr (z, roomy) ↦
        let (same_s, same_m) = some-pair (rw (part, roomy, pick_slab) at found) in
        subst (λ t. Roomy n t m') same_s
          (subst (Roomy n z) same_m
            (find_room-Roomy n m m.working_slabs z v (λ b. omega arith) roomy))
  ]
]

-- A block of the slab `s` has a number that fits, and `s` is found from it.
pub block_number :
    (s k size slabs : ℕ)
    → k < size
    → s < slabs
    → slabs * size ≤ 2 ^ 32
    → ((s * size + k) % 2 ^ 32 ≡ s * size + k) × ((s * size + k) / size ≡ s)
block_number s k size slabs inside known ids =
    let below : (s + 1) * size ≤ slabs * size = mul-le-mul_right size (omega arith) in
    let spread : (s + 1) * size ≡ s * size + size = omega arith in
    let positive : 0 < size = omega arith in
    (
      mod-eq_of_lt (omega arith),
      mul-add-div_right positive s k ∙ ap (λ q. s + q) (div-eq_of_lt inside) ∙ omega arith,
    )

-- The slab `s` has the segment just made in it.
pub record Housed (s : ℕ) (m : SendManager) : Type 0 where
  pub inv : Inv m
  pub worked : mem s m.working_slabs ≡ true
  pub used : 0 < (m.slab s).refcount

pub alloc_segment-Housed :
    (s n a : ℕ) (rest : List ℕ) (m : SendManager)
    → Roomy n s m
    → 0 < n
    → m.free_segs ≡ a ∷ rest
    → Housed s (alloc_segment s n a rest m)
alloc_segment-Housed s n a rest m r pos e =
    let v = r.inv in
    let m' : SendManager = alloc_segment s n a rest m in
    let (number, found) =
      block_number s (m.slab s).blocks_used m.blocks_per_slab m.num_slabs (ground (arith, r.room))
        (ground (arith, r.worked, (v.slabs s).known)) v.ids in
    let here : slab_of m' a ≡ s = ground (arith, number, found) in
    let others : (z : ℕ) → total (λ b. bit (slab_of m' b == z)) m.busy_segs ≡ live m z =
      λ z. total-congr _ _ a m.busy_segs (ground (arith, v.segs a)) (λ b ne. ground arith) in
    let lives : (z : ℕ) → live m' z ≡ live m z + bit (s == z) = λ z.
      ground
        (arith, others z, here, total-append (λ b. bit (slab_of m' b == z)) m.busy_segs (a ∷ [])) in
    record {
      inv = record {
        segs = λ b. ground (arith, v.segs b, count-append b m.busy_segs (a ∷ []));
        slabs = λ z. record {
          once = ground (arith, (v.slabs z).once);
          marked = ground (arith, (v.slabs z).marked);
          counted =
              ground (arith, (v.slabs z).counted, lives z, v.size, r.room, (v.slabs s).bounded);
          bounded = ground (arith, (v.slabs z).bounded, v.size, r.room);
          fits = ground (arith, (v.slabs z).fits, v.size, r.room);
          full = ground (arith, (v.slabs z).full, v.size, r.room, (v.slabs s).bounded);
          idle = ground (arith, (v.slabs z).idle, r.worked);
          fresh = ground (arith, (v.slabs z).fresh, r.worked, (v.slabs s).once);
          known = ground (arith, (v.slabs z).known);
        };
        size = v.size;
        ids = v.ids;
      };
      worked = r.worked;
      used = ground (arith, v.size, r.room, (v.slabs s).bounded);
    }

pub stocked-Roomy : (n s : ℕ) (m : SendManager) → Roomy n s m → Roomy n s (add_msg_seg_block m)
unfolding add_msg_seg_block
stocked-Roomy n s m r = record {
  inv = add_msg_seg_block-Inv m r.inv;
  worked = r.worked;
  room = r.room;
}
