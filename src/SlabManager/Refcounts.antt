-- ===== src/SlabManager/Refcounts.antt =====
-- `GetFreeSlabs` and `DecrementHeldRefcnt`: slabs that are taken and given back.
use mathlib.Core.List.{append-nil, append_assoc}
use mcsb.Base.{
  ℕ, suc, zero, ◌-◌, ◌≡◌, refl, ◌≤◌, ◌<◌, ◌⊎◌, inl, inr, true, false, List, [], ◌∷◌, map, arith,
  ◌==◌, ltb, count-append, final, returns, and_then, ok, throw, false≢true, sym, ◌∙◌, Error,
  Outcome, update, take, drop, ◌++◌, Keeps, Bool-cases, and_then-Keeps, lt→ltb,
}
use mcsb.SlabManager.{
  SlabManager, Handler, Change, ProdClient, get_free_slab, get_free_slabs, take_free,
  call_state_change_handler, is_slab, free_to_held, get_slab_info, decrement_held, decrement_slab,
  decrement_held_refcnt, put_info,
}
use mcsb.SlabManager.Places.{Inv, let_go-Inv}

-- `amounts` left out: each count goes down by one.
abbrev pub units : List ℕ → List (ℕ × ℕ)
units ids = map (λ id. (id, 1)) ids

-- No amount is zero.
abbrev pub Positive : List (ℕ × ℕ) → Type 0
Positive [] = Unit {0}
Positive ((id, amount) ∷ rest) = (1 ≤ amount) × Positive rest

module _ {W : Type 0} where
  pub get_slab_info-cases :
      (id : ℕ) (m : SlabManager W)
      → ((is_slab m.slabs_per_buf m.num_buffers id ≡ true)
          × (get_slab_info id m ≡ ok (m.info id) m))
        ⊎ ((e : Error) × (is_slab m.slabs_per_buf m.num_buffers id ≡ false)
            × (get_slab_info id m ≡ throw e m))
  unfolding get_slab_info is_slab
  get_slab_info-cases id m = ground arith

  abbrev lowered : ℕ → ℕ → SlabManager W → SlabManager W
  lowered id amount m =
      put_info id (record (m.info id) { held_refcnt = (m.info id).held_refcnt - amount }) m

  module _ (handler : Handler W) (keeps : (w : Change) (i : ℕ) → Keeps Inv (handler w i)) where
    decrement_slab-Inv :
        (id amount : ℕ) (m : SlabManager W)
        → Inv m
        → 1 ≤ amount
        → ((m.info id).held_refcnt < amount → amount ≤ 1)
        → Inv (final (decrement_slab handler id amount m))
    unfolding decrement_slab decrement_held
    decrement_slab-Inv id amount m v pos one = elim (get_slab_info-cases id m) [
      | inr (e, _, bad) ↦ rw bad v
      | inl (valid, good) ↦ rw good (elim (Bool-cases (ltb (m.info id).held_refcnt amount)) [
        | inl under ↦ rw under λ z. ground (arith, v z)
        | inr enough ↦ rw enough (elim (Bool-cases ((m.info id).held_refcnt - amount == 0)) [
          | inl gone ↦ rw gone (
              let_go-Inv handler keeps id (lowered id amount m) (record {
                others = λ z ne. ground (arith, v z);
                slab = valid;
                unheld = ground arith;
                in_held = ground (arith, v id);
                not_free = ground (arith, v id);
                not_wanted = ground (arith, v id);
              }))
          | inr stays ↦ rw stays λ z. ground (arith, v z)
        ])
      ])
    ]

    -- With unit amounts, and a handler that leaves every slab in the list that its counts call for,
    -- `DecrementHeldRefcnt` does so too, also when it throws halfway.
    pub decrement_held_refcnt-Inv :
        (ids : List ℕ) (m : SlabManager W)
        → Inv m
        → Inv (final (decrement_held_refcnt handler (units ids) m))
    unfolding decrement_held_refcnt
    decrement_held_refcnt-Inv [] m v = v
    decrement_held_refcnt-Inv (id ∷ ids) m v =
        and_then-Keeps Inv (decrement_slab handler id 1 m) _
          (decrement_slab-Inv id 1 m v (omega arith) (λ h. omega arith))
          (λ _. decrement_held_refcnt-Inv ids)

    underflow_throws :
        (id amount : ℕ) (m : SlabManager W)
        → ltb (m.info id).held_refcnt amount ≡ true
        → returns (decrement_slab handler id amount m) ≡ false
    unfolding decrement_slab decrement_held
    underflow_throws id amount m under = elim (get_slab_info-cases id m) [
      | inr (e, _, bad) ↦ rw bad
      | inl (valid, good) ↦ rw (good, under)
    ]

    returned_slab-Inv :
        (id amount : ℕ) (m : SlabManager W)
        → Inv m
        → 1 ≤ amount
        → returns (decrement_slab handler id amount m) ≡ true
        → Inv (final (decrement_slab handler id amount m))
    returned_slab-Inv id amount m v pos h =
        decrement_slab-Inv id amount m v pos
          λ under. absurd (false≢true (sym (underflow_throws id amount m (lt→ltb _ _ under)) ∙ h))

    -- With positive amounts, and a handler that leaves every slab in the list that its counts call
    -- for, a call of `DecrementHeldRefcnt` that returns does so too.
    pub decrement_held_refcnt-returns :
        (rest : List (ℕ × ℕ)) (m : SlabManager W)
        → Positive rest
        → Inv m
        → returns (decrement_held_refcnt handler rest m) ≡ true
        → Inv (final (decrement_held_refcnt handler rest m))
    unfolding decrement_held_refcnt
    decrement_held_refcnt-returns [] m pos v h = v
    decrement_held_refcnt-returns ((id, amount) ∷ rest) m pos v h =
        step (decrement_slab handler id amount m) (returned_slab-Inv id amount m v pos.0) h
          (decrement_held_refcnt-returns rest)
      where
        step :
            (r : Outcome (SlabManager W) (Unit {0}))
            → (returns r ≡ true → Inv (final r))
            → returns (and_then r (λ _. decrement_held_refcnt handler rest)) ≡ true
            → ((m : SlabManager W)
                → Positive rest
                → Inv m
                → returns (decrement_held_refcnt handler rest m) ≡ true
                → Inv (final (decrement_held_refcnt handler rest m)))
            → Inv (final (and_then r (λ _. decrement_held_refcnt handler rest)))
        step (ok t m') inv got ih = ih m' pos.1 (inv refl) got
        step (throw e m') inv got ih = cc

  -- What `GetFreeSlabs` does to the front slab.
  abbrev taken : ℕ → List ℕ → ProdClient → ℕ → SlabManager W → SlabManager W
  taken id rest who what m = record m {
    free_slabs = rest;
    held_slabs = m.held_slabs ++ (id ∷ []);
    info =
        update m.info id
          (record { held_refcnt = 1; prod_client_id = who; prod_arg = what; wanted_segs = [] });
  }

  module _ (handler : Handler W) (who : ProdClient) (what : ℕ) where
    get_free_slab-ok :
        (id : ℕ) (rest : List ℕ) (m : SlabManager W)
        → Inv m
        → m.which_state_change free_to_held ≡ false
        → m.free_slabs ≡ id ∷ rest
        → (get_free_slab handler id rest who what m ≡ ok tt (taken id rest who what m))
          × Inv (taken id rest who what m)
    unfolding get_free_slab take_free call_state_change_handler
    get_free_slab-ok id rest m v quiet e = (
      rw (at_front.0, at_front.1, quiet),
      λ z. ground (arith, v z, at_front, count-append z m.held_slabs (id ∷ [])),
    )
      where
        at_front : ((m.info id).held_refcnt ≡ 0) × ((m.info id).wanted_segs ≡ [])
        at_front = ground (arith, v id)

    -- What `GetFreeSlabs` promises while the handler is not told of it.
    abbrev pub Gives : ℕ → SlabManager W → Type 0
    Gives mxcount m =
        (m' : SlabManager W) × (get_free_slabs handler mxcount who what m
          ≡ ok (take mxcount m.free_slabs) m')
        × (m'.free_slabs ≡ drop mxcount m.free_slabs)
        × (m'.held_slabs ≡ m.held_slabs ++ take mxcount m.free_slabs)
        × Inv m'

    Gives-suc :
        (mxcount : ℕ) (m : SlabManager W)
        → Inv m
        → m.which_state_change free_to_held ≡ false
        → ((m' : SlabManager W)
            → Inv m'
            → m'.which_state_change free_to_held ≡ false
            → Gives mxcount m')
        → (fs : List ℕ) → m.free_slabs ≡ fs
        → Gives (suc mxcount) m
    unfolding get_free_slabs
    Gives-suc mxcount m v quiet ih [] e =
        (m, ground arith, ground arith, ground (arith, append-nil m.held_slabs), v)
    Gives-suc mxcount m v quiet ih (id ∷ rest) e =
        let (run, inv) = get_free_slab-ok id rest m v quiet e in
        let (m', runs, free, held, inv') = ih (taken id rest who what m) inv quiet in
        (
          m',
          ground (arith, run, runs),
          ground (arith, free),
          ground (arith, held, append_assoc m.held_slabs (id ∷ []) (take mxcount rest)),
          inv',
        )

    -- While every slab is in its list and the handler is not told of it, `GetFreeSlabs` returns the
    -- oldest free slabs, as many as were asked for or there are, takes exactly those off the free
    -- list, appends them to the held list, and keeps every slab in its list.
    pub get_free_slabs-take :
        (mxcount : ℕ) (m : SlabManager W)
        → Inv m
        → m.which_state_change free_to_held ≡ false
        → Gives mxcount m
    unfolding get_free_slabs
    get_free_slabs-take zero m v quiet = (m, refl, refl, sym (append-nil _), v)
    get_free_slabs-take (suc mxcount) m v quiet =
        Gives-suc mxcount m v quiet (get_free_slabs-take mxcount) m.free_slabs refl
