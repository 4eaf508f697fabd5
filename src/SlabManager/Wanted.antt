-- ===== src/SlabManager/Wanted.antt =====
-- Segments that clients want but cannot hold yet: `GetWantedSegment`, `ReleaseWantedSegment` and
-- `FrontWantedSegment`.
use mcsb.Base.{
  ℕ, ◌≡◌, refl, ◌&&◌, inl, inr, true, false, List, [], ◌∷◌, ◌++◌, arith, ◌==◌, update, ◌≢◌, not,
  bit, is_nil, mem, count, count-append, count-erase, final, ok, Keeps, Bool-cases, erase,
}
use mcsb.SlabManager.{
  SlabManager, Handler, Change, is_slab, wanted_to_free, give_segment, add_wanted_segment_block,
  get_wanted_segment, erase_segment, erase_wanted, release_wanted_segment, front_wanted_segment,
  settle,
}
use mcsb.SlabManager.Places.{Placed, Inv, call-Inv}
use mcsb.SlabManager.Refcounts.{get_slab_info-cases}

pub is_nil-append : (xs : List ℕ) (a : ℕ) → is_nil (xs ++ (a ∷ [])) ≡ false
is_nil-append [] a = refl
is_nil-append (x ∷ xs) a = refl

module _ {W : Type 0} where
  give_segment-Inv :
      (client_id block_id id : ℕ) (m : SlabManager W)
      → Inv m
      → (((m.info id).held_refcnt == 0) && is_nil (m.info id).wanted_segs) ≡ false
      → (segs : List ℕ) → m.free_wanted_segs ≡ segs
      → Inv (final (give_segment client_id block_id id m))
  give_segment-Inv client_id block_id id m v used [] e = λ z. ground (arith, v z)
  give_segment-Inv client_id block_id id m v used (a ∷ rest) e =
      λ z. ground (arith, v z, is_nil-append (m.info id).wanted_segs a)

  add_wanted_segment_block-Inv : (m : SlabManager W) → Inv m → Inv (add_wanted_segment_block m)
  unfolding add_wanted_segment_block
  add_wanted_segment_block-Inv m v z = record {
    free = (v z).free;
    held = (v z).held;
    wanted = (v z).wanted;
  }

  add_wanted_segment_block-info : (m : SlabManager W) → (add_wanted_segment_block m).info ≡ m.info
  unfolding add_wanted_segment_block
  add_wanted_segment_block-info m = refl

  -- `GetWantedSegment` keeps every slab in its list, also when it throws.
  pub get_wanted_segment-Inv :
      (client_id block_id id : ℕ) (m : SlabManager W)
      → Inv m
      → Inv (final (get_wanted_segment client_id block_id id m))
  unfolding get_wanted_segment
  get_wanted_segment-Inv client_id block_id id m v = elim (get_slab_info-cases id m) [
    | inr (e, _, bad) ↦ rw bad v
    | inl (valid, good) ↦
        rw good
          (elim (Bool-cases (((m.info id).held_refcnt == 0) && is_nil (m.info id).wanted_segs)) [
            | inl free ↦ rw free v
            | inr used ↦ rw used (elim (Bool-cases (is_nil m.free_wanted_segs)) [
              | inl empty ↦ rw empty (
                  give_segment-Inv client_id block_id id (add_wanted_segment_block m)
                    (add_wanted_segment_block-Inv m v) (rw (add_wanted_segment_block-info m) used) _
                    refl)
              | inr some ↦ rw some (give_segment-Inv client_id block_id id m v used _ refl)
            ])
          ])
  ]

  -- While every slab is in its list, a wanted list that is not empty has a segment to drop:
  -- `FrontWantedSegment` returns the oldest segment of the slab that has been wanted longest, and
  -- changes nothing.
  pub front_wanted_segment-oldest :
      (m : SlabManager W) (id : ℕ) (ids : List ℕ)
      → Inv m
      → m.wanted_slabs ≡ id ∷ ids
      → (a : ℕ) × (rest : List ℕ) × ((m.info id).wanted_segs ≡ a ∷ rest)
        × (front_wanted_segment m ≡ ok a m)
  unfolding front_wanted_segment
  front_wanted_segment-oldest m id ids v e = by_segs (m.info id).wanted_segs refl
    where
      by_segs :
          (segs : List ℕ)
          → (m.info id).wanted_segs ≡ segs
          → (a : ℕ) × (rest : List ℕ) × ((m.info id).wanted_segs ≡ a ∷ rest)
            × (front_wanted_segment m ≡ ok a m)
      by_segs [] none_want = absurd (ground (arith, v id))
      by_segs (a ∷ rest) some_want = (a, rest, some_want, ground arith)

  -- The slab `id` has lost a wanted segment, but stands where it did; all others are in place.
  record Shrunk (m : SlabManager W) (id : ℕ) : Type 0 where
    others : (z : ℕ) → z ≢ id → Placed m z
    slab : is_slab m.slabs_per_buf m.num_buffers id ≡ true
    in_held : count id m.held_slabs ≡ bit (not ((m.info id).held_refcnt == 0))
    in_wanted : count id m.wanted_slabs ≡ bit ((m.info id).held_refcnt == 0)
    not_free : count id m.free_slabs ≡ 0

  abbrev shrunk : ℕ → ℕ → SlabManager W → SlabManager W
  shrunk a id m = record m {
    info = update m.info id (record (m.info id) { wanted_segs = erase a (m.info id).wanted_segs });
    free_wanted_segs = m.free_wanted_segs ++ (a ∷ []);
  }

  module _ (handler : Handler W) (keeps : (w : Change) (i : ℕ) → Keeps Inv (handler w i)) where
    settle-Inv : (id : ℕ) (m : SlabManager W) → Shrunk m id → Inv (final (settle handler id m))
    unfolding settle erase_wanted
    settle-Inv id m s =
        elim (Bool-cases (is_nil (m.info id).wanted_segs && (m.info id).held_refcnt == 0)) [
          | inr stays ↦
              rw stays λ z. ground (arith, s.others z, s.slab, s.in_held, s.in_wanted, s.not_free)
          | inl goes ↦
              let wanted_once : count id m.wanted_slabs ≡ 1 = ground (arith, s.in_wanted) in
              rw (goes, wanted_once)
                (call-Inv handler keeps wanted_to_free id _ λ z. ground (
                  arith,
                  s.others z,
                  s.slab,
                  s.in_held,
                  wanted_once,
                  s.not_free,
                  count-append z m.free_slabs (id ∷ []),
                  count-erase z id m.wanted_slabs,
                ))
        ]

    -- With a handler that keeps every slab in its list, `ReleaseWantedSegment` does so too, also
    -- when it throws.
    pub release_wanted_segment-Inv :
        (a id : ℕ) (m : SlabManager W) → Inv m → Inv (final (release_wanted_segment handler a id m))
    unfolding release_wanted_segment erase_segment erase_wanted
    release_wanted_segment-Inv a id m v = elim (get_slab_info-cases id m) [
      | inr (e, _, bad) ↦ rw bad v
      | inl (valid, good) ↦ rw good (elim (Bool-cases (is_nil (m.info id).wanted_segs)) [
        | inl empty ↦ rw empty v
        | inr some ↦ rw some (elim (Bool-cases (mem a (m.info id).wanted_segs)) [
          | inr other ↦ rw other v
          | inl mine ↦ rw mine (
              settle-Inv id (shrunk a id m) (record {
                others = λ z ne. ground (arith, v z);
                slab = valid;
                in_held = ground (arith, v id);
                in_wanted = ground (arith, v id);
                not_free = ground (arith, v id);
              }))
        ])
      ])
    ]
