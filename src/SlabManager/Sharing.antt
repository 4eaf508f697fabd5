-- ===== src/SlabManager/Sharing.antt =====
-- `IncrementHeldRefcnt`: a slab that is held or wanted gets one more holder.
use mcsb.Base.{
  ℕ, suc, ◌+◌, ◌^◌, ◌≡◌, refl, ◌<◌, ◌⊎◌, inl, inr, true, false, List, [], ◌∷◌, arith, ◌==◌, bit,
  u32, erase, ◌++◌, Error, not_held_or_wanted, subst, length, is_nil, count, count-append,
  count-erase, final, and_then, ok, throw, Outcome, Bool-cases, false≢true, sym, ◌∙◌, ==_iff,
}
use mcsb.SlabManager.{
  SlabManager, Handler, put_info, is_slab, wanted_to_held, increment_slab, erase_wanted,
  increment_held_refcnt, call_state_change_handler,
}
use mcsb.SlabManager.Places.{Inv}
use mcsb.SlabManager.Refcounts.{get_slab_info-cases}

module _ {W : Type 0} where
  -- The lists are right, the handler is not told of wanted slabs that are held again, and `n` more
  -- holders overflow no 32-bit count.
  pub record Ready (n : ℕ) (m : SlabManager W) : Type 0 where
    pub places : Inv m
    pub quiet : m.which_state_change wanted_to_held ≡ false
    pub room : (z : ℕ) → (m.info z).held_refcnt + n < 2 ^ 32

  -- Every number is a slab that is not free.
  abbrev pub InUse : SlabManager W → List ℕ → Type 0
  InUse m [] = Unit {0}
  InUse m (id ∷ ids) =
      (is_slab m.slabs_per_buf m.num_buffers id ≡ true) × (count id m.free_slabs ≡ 0) × InUse m ids

  -- One more holder of `id`; what is a slab, and which are free, is as before.
  pub record OneMore (id : ℕ) (m m' : SlabManager W) : Type 0 where
    pub counts : (z : ℕ) → (m'.info z).held_refcnt ≡ (m.info z).held_refcnt + bit (z == id)
    pub same_size : m'.slabs_per_buf ≡ m.slabs_per_buf
    pub same_buffers : m'.num_buffers ≡ m.num_buffers
    pub same_free : m'.free_slabs ≡ m.free_slabs

  -- What the increment makes of a slab that was held, and of one that was wanted.
  abbrev shared : ℕ → SlabManager W → SlabManager W
  shared id m =
      put_info id (record (m.info id) { held_refcnt = u32 ((m.info id).held_refcnt + 1) }) m

  abbrev reheld : ℕ → SlabManager W → SlabManager W
  reheld id m =
      shared id (record m {
        wanted_slabs = erase id m.wanted_slabs;
        held_slabs = m.held_slabs ++ (id ∷ []);
      })

  weaken : {n : ℕ} {m : SlabManager W} → Ready (suc n) m → Ready n m
  weaken r = record { places = r.places; quiet = r.quiet; room = λ z. omega (arith, r.room z) }

  InUse-OneMore :
      (id : ℕ) (m m' : SlabManager W) (ids : List ℕ) → OneMore id m m' → InUse m ids → InUse m' ids
  InUse-OneMore id m m' [] o u = tt
  InUse-OneMore id m m' (i ∷ ids) o u =
      (rw (o.same_size, o.same_buffers) u.0, rw o.same_free u.1, InUse-OneMore id m m' ids o u.2)

  module _ (handler : Handler W) where
    -- The three outcomes of one increment.
    increment_slab-cases :
        (n id : ℕ) (m : SlabManager W)
        → Ready (suc n) m
        → ((is_slab m.slabs_per_buf m.num_buffers id ≡ true)
            × (((m.info id).held_refcnt == 0) ≡ false)
            × (increment_slab handler id m ≡ ok tt (shared id m)))
          ⊎ ((is_slab m.slabs_per_buf m.num_buffers id ≡ true)
              × ((m.info id).held_refcnt ≡ 0)
              × (is_nil (m.info id).wanted_segs ≡ false)
              × (increment_slab handler id m ≡ ok tt (reheld id m)))
          ⊎ ((e : Error) × (increment_slab handler id m ≡ throw e m)
              × (is_slab m.slabs_per_buf m.num_buffers id ≡ true → count id m.free_slabs ≡ 1))
    unfolding increment_slab erase_wanted call_state_change_handler
    increment_slab-cases n id m r = elim (get_slab_info-cases id m) [
      | inr (e, no_slab, bad) ↦
          inr (inr (e, rw bad, λ valid. absurd (false≢true (sym no_slab ∙ valid))))
      | inl (valid, good) ↦ elim (Bool-cases ((m.info id).held_refcnt == 0)) [
        | inr some_held ↦ inl (valid, some_held, rw (good, some_held))
        | inl none_held ↦ elim (Bool-cases (is_nil (m.info id).wanted_segs)) [
          | inl none_want ↦ inr (
              inr (
                not_held_or_wanted,
                rw (good, none_held, none_want),
                λ _. ground (arith, r.places id),
              ))
          | inr some_want ↦
              let wanted_once : count id m.wanted_slabs ≡ 1 = ground (arith, r.places id) in
              inr (
                inl (
                  valid,
                  (==_iff _ _).0 none_held,
                  some_want,
                  rw (good, none_held, some_want, wanted_once, r.quiet),
                ))
        ]
      ]
    ]

    increment_slab-Ready :
        (n id : ℕ) (m : SlabManager W)
        → Ready (suc n) m
        → Ready n (final (increment_slab handler id m))
    increment_slab-Ready n id m r = elim (increment_slab-cases n id m r) [
      | inl (valid, some_held, run) ↦ rw run (record {
        places = λ z. ground (arith, r.places z, r.room z);
        quiet = r.quiet;
        room = λ z. ground (arith, r.room z);
      })
      | inr (inl (valid, none_held, some_want, run)) ↦ rw run (record {
        places = λ z. ground (
          arith,
          r.places z,
          r.room z,
          count-append z m.held_slabs (id ∷ []),
          count-erase z id m.wanted_slabs,
        );
        quiet = r.quiet;
        room = λ z. ground (arith, r.room z);
      })
      | inr (inr (e, run, _)) ↦ rw run (weaken r)
    ]

    increment_slab-OneMore :
        (n id : ℕ) (m : SlabManager W)
        → Ready (suc n) m
        → is_slab m.slabs_per_buf m.num_buffers id ≡ true
        → count id m.free_slabs ≡ 0
        → (m' : SlabManager W) × (increment_slab handler id m ≡ ok tt m') × OneMore id m m'
    increment_slab-OneMore n id m r valid used = elim (increment_slab-cases n id m r) [
      | inl (_, some_held, run) ↦ (
        shared id m,
        run,
        record {
          counts = λ z. ground (arith, r.room z);
          same_size = refl;
          same_buffers = refl;
          same_free = refl;
        },
      )
      | inr (inl (_, none_held, some_want, run)) ↦ (
        reheld id m,
        run,
        record {
          counts = λ z. ground (arith, r.room z);
          same_size = refl;
          same_buffers = refl;
          same_free = refl;
        },
      )
      | inr (inr (e, run, free)) ↦ absurd (omega (arith, free valid))
    ]

    -- If every slab is in its list, the handler is not told of wanted slabs that are held again and
    -- no count overflows, `IncrementHeldRefcnt` keeps every slab in its list, also when it throws
    -- halfway.
    pub increment_held_refcnt-Inv :
        (ids : List ℕ) (m : SlabManager W)
        → Ready (length ids) m
        → Inv (final (increment_held_refcnt handler ids m))
    unfolding increment_held_refcnt
    increment_held_refcnt-Inv [] m r = r.places
    increment_held_refcnt-Inv (id ∷ ids) m r =
        go (increment_slab handler id m) (increment_slab-Ready (length ids) id m r)
          (increment_held_refcnt-Inv ids)
      where
        go :
            (o : Outcome (SlabManager W) (Unit {0}))
            → Ready (length ids) (final o)
            → ((m : SlabManager W)
                → Ready (length ids) m
                → Inv (final (increment_held_refcnt handler ids m)))
            → Inv (final (and_then o (λ _. increment_held_refcnt handler ids)))
        go (ok t m') ready ih = ih m' ready
        go (throw e m') ready ih = ready.places

    -- If every slab is in its list, the handler is not told of wanted slabs that are held again, no
    -- count overflows and every number is a slab that is not free, `IncrementHeldRefcnt` returns,
    -- and each slab's count grows by how often the list names it.
    pub increment_held_refcnt-adds :
        (ids : List ℕ) (m : SlabManager W)
        → Ready (length ids) m
        → InUse m ids
        → (m' : SlabManager W) × (increment_held_refcnt handler ids m ≡ ok tt m')
          × ((z : ℕ) → (m'.info z).held_refcnt ≡ (m.info z).held_refcnt + count z ids)
    unfolding increment_held_refcnt
    increment_held_refcnt-adds [] m r u = (m, refl, λ z. omega arith)
    increment_held_refcnt-adds (id ∷ ids) m r u =
        let (m1, run, more) = increment_slab-OneMore (length ids) id m r u.0 u.1 in
        let ready : Ready (length ids) m1 =
          subst (λ o. Ready (length ids) (final o)) run
            (increment_slab-Ready (length ids) id m r) in
        let (m2, runs, counts) =
          increment_held_refcnt-adds ids m1 ready (InUse-OneMore id m m1 ids more u.2) in
        (m2, ground (arith, run, runs), λ z. omega (arith, counts z, more.counts z))
