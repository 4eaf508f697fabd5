-- ===== src/SendManager/Supply.antt =====
-- The slabs that the manager gives and takes back: `AddFreeSlabs` and `GetRetiredSlabs`.
use mcsb.Base.{
  ℕ, zero, suc, ◌+◌, ◌*◌, ◌≤◌, ◌<◌, ◌^◌, ◌≡◌, refl, ◌∙◌, inl, inr, true, false, List, [], ◌∷◌, ◌++◌,
  arith, ltb, leb, u32, count-append, Bool-cases, ok,
}
use mcsb.SendManager.{
  SendManager, reset_slab, put_slab, set_num_total_slabs, attached, add_free_slab, take_retired,
}
use mcsb.SendManager.Pool.{Inv, places}

set_num_total_slabs-Inv :
    (n : ℕ) (m : SendManager)
    → Inv m
    → n * m.blocks_per_slab ≤ 2 ^ 32
    → Inv (set_num_total_slabs n m)
unfolding set_num_total_slabs
set_num_total_slabs-Inv n m v fits = elim (Bool-cases (leb n m.num_slabs)) [
  | inl fewer ↦ rw fewer v
  | inr more ↦ rw more (record {
    segs = v.segs;
    slabs = λ z. record {
      once = (v.slabs z).once;
      marked = ground (arith, (v.slabs z).marked, (v.slabs z).known);
      counted = ground (arith, (v.slabs z).counted, (v.slabs z).known, (v.slabs z).idle);
      bounded = ground (arith, (v.slabs z).bounded);
      fits = ground (arith, (v.slabs z).fits);
      full = ground (arith, (v.slabs z).full, (v.slabs z).known);
      idle = ground (arith, (v.slabs z).idle);
      fresh = ground (arith, (v.slabs z).fresh);
      known = ground (arith, (v.slabs z).known);
    };
    size = v.size;
    ids = fits;
  })
]

-- The free slab `id` is at the end of the free ones, mapped at `p`.
abbrev supplied : ℕ → ℕ → SendManager → SendManager
supplied id p m = put_slab id (reset_slab p) (record m { free_slabs = m.free_slabs ++ (id ∷ []) })

supplied-Inv :
    (id p : ℕ) (m : SendManager)
    → Inv m
    → id < m.num_slabs
    → places m id ≡ 0
    → Inv (supplied id p m)
supplied-Inv id p m v known absent = record {
  segs = v.segs;
  slabs = λ z. record {
    once = ground (arith, (v.slabs z).once, absent, count-append z m.free_slabs (id ∷ []));
    marked = ground (arith, (v.slabs z).marked, absent);
    counted = ground (arith, (v.slabs z).counted, (v.slabs z).idle, absent);
    bounded = ground (arith, (v.slabs z).bounded);
    fits = ground (arith, (v.slabs z).fits);
    full = ground (arith, (v.slabs z).full, absent);
    idle = ground (arith, (v.slabs z).idle);
    fresh = ground (arith, (v.slabs z).fresh, count-append z m.free_slabs (id ∷ []));
    known = ground (arith, (v.slabs z).known, count-append z m.free_slabs (id ∷ []));
  };
  size = v.size;
  ids = v.ids;
}

grown-places : (n : ℕ) (m : SendManager) (s : ℕ) → places (set_num_total_slabs n m) s ≡ places m s
unfolding set_num_total_slabs
grown-places n m s = elim (Bool-cases (leb n m.num_slabs)) [
  | inl fewer ↦ rw fewer refl
  | inr more ↦ rw more refl
]

grown-num : (n : ℕ) (m : SendManager) → m.num_slabs < n → (set_num_total_slabs n m).num_slabs ≡ n
unfolding set_num_total_slabs
grown-num n m more = let b : leb n m.num_slabs ≡ false = ground arith in rw b refl

attached-places : (id : ℕ) (m : SendManager) → places m id ≡ 0 → attached id m ≡ false
unfolding attached
attached-places id m absent = ground arith

-- A round of `AddFreeSlabs` for a slab that the client does not hold, with block numbers that fit
-- in 32 bits, returns and keeps the pool's invariant.
pub add_free_slab-Inv :
    (id p : ℕ) (m : SendManager)
    → Inv m
    → places m id ≡ 0
    → id + 1 < 2 ^ 32
    → (id + 1) * m.blocks_per_slab ≤ 2 ^ 32
    → (m' : SendManager) × (add_free_slab id p m ≡ ok tt m') × (Inv m')
unfolding add_free_slab
add_free_slab-Inv id p m v absent small fits =
    let exact : u32 (id + 1) ≡ id + 1 = omega arith in
    elim (Bool-cases (leb m.num_slabs id)) [
      | inr inside ↦
          let there : ltb id m.num_slabs ≡ true = ground arith in
          let detached = attached-places id m absent in
          (
            supplied id p m,
            rw (inside, there, detached) refl,
            supplied-Inv id p m v (ground arith) absent,
          )
      | inl outside ↦
          let m1 : SendManager = set_num_total_slabs (id + 1) m in
          let known : m1.num_slabs ≡ id + 1 = grown-num (id + 1) m (ground arith) in
          let there : ltb id m1.num_slabs ≡ true = ground (arith, known) in
          let detached = attached-places id m1 (grown-places (id + 1) m id ∙ absent) in
          (
            supplied id p m1,
            rw (outside, exact, there, detached) refl,
            supplied-Inv id p m1 (set_num_total_slabs-Inv (id + 1) m v fits) (omega (arith, known))
                (grown-places (id + 1) m id ∙ absent),
          )
    ]

take_retired-Inv : (n : ℕ) (m : SendManager) → Inv m → Inv (take_retired n m).1
unfolding take_retired
take_retired-Inv zero m v = v
take_retired-Inv (suc n) m v = by_front m.retired_slabs refl (take_retired-Inv n)
  where
    by_front :
        (rs : List ℕ)
        → m.retired_slabs ≡ rs
        → ((m : SendManager) → Inv m → Inv (take_retired n m).1)
        → Inv (take_retired (suc n) m).1
    by_front [] e ih = rw (e, take_retired) v
    by_front (s ∷ rest) e ih =
        rw (e, take_retired)
          (ih (record m { retired_slabs = rest })
            (record {
              segs = v.segs;
              slabs = λ z. record {
                once = ground (arith, (v.slabs z).once);
                marked = (v.slabs z).marked;
                counted = (v.slabs z).counted;
                bounded = (v.slabs z).bounded;
                fits = (v.slabs z).fits;
                full = (v.slabs z).full;
                idle = (v.slabs z).idle;
                fresh = (v.slabs z).fresh;
                known = ground (arith, (v.slabs z).known);
              };
              size = v.size;
              ids = v.ids;
            }))
