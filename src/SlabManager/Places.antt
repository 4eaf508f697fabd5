-- ===== src/SlabManager/Places.antt =====
-- The lists that a slab stands in, by its counts.
use mcsb.Base.{
  ℕ, ◌≡◌, ◌≢◌, Bool, true, not, ◌&&◌, [], ◌∷◌, inl, inr, arith, ◌==◌, bit, is_nil, count,
  count-append, count-erase, final, Keeps, Bool-cases,
}
use mcsb.SlabManager.{
  SlabManager, Handler, Change, is_slab, held_to_wanted, held_to_free, let_go, erase_held,
  call_state_change_handler,
}

module _ {W : Type 0} where
  -- How the number `z` stands in the three lists, where `slab` says which numbers are slabs.
  pub record PlacedBy (slab : ℕ → Bool) (m : SlabManager W) (z : ℕ) : Type 0 where
    pub free :
        count z m.free_slabs
        ≡ bit (slab z && ((m.info z).held_refcnt == 0 && is_nil (m.info z).wanted_segs))
    pub held : count z m.held_slabs ≡ bit (slab z && not ((m.info z).held_refcnt == 0))
    pub wanted :
        count z m.wanted_slabs
        ≡ bit (slab z && ((m.info z).held_refcnt == 0 && not (is_nil (m.info z).wanted_segs)))

  abbrev pub Placed : SlabManager W → ℕ → Type 0
  Placed m z = PlacedBy (is_slab m.slabs_per_buf m.num_buffers) m z

  -- A slab that is free, held or wanted by its counts stands once in that list and in no other; a
  -- number that is no slab stands in none.
  abbrev pub Inv : SlabManager W → Type 0
  Inv m = (z : ℕ) → Placed m z

  -- A slab that nobody holds any more, still in the held list; all others are in place.
  pub record Leaving (m : SlabManager W) (id : ℕ) : Type 0 where
    pub others : (z : ℕ) → z ≢ id → Placed m z
    pub slab : is_slab m.slabs_per_buf m.num_buffers id ≡ true
    pub unheld : (m.info id).held_refcnt ≡ 0
    pub in_held : count id m.held_slabs ≡ 1
    pub not_free : count id m.free_slabs ≡ 0
    pub not_wanted : count id m.wanted_slabs ≡ 0

  module _ (handler : Handler W) (keeps : (w : Change) (i : ℕ) → Keeps Inv (handler w i)) where
    pub call-Inv : (w : Change) (i : ℕ) → Keeps Inv (call_state_change_handler handler w i)
    unfolding call_state_change_handler
    call-Inv w i m v = elim (Bool-cases (m.which_state_change w)) [
      | inl y ↦ rw y (keeps w i m v)
      | inr n ↦ rw n v
    ]

    pub let_go-Inv : (id : ℕ) (m : SlabManager W) → Leaving m id → Inv (final (let_go handler id m))
    unfolding let_go erase_held
    let_go-Inv id m l = elim (Bool-cases (is_nil (m.info id).wanted_segs)) [
      | inl none_want ↦
          rw (none_want, l.in_held)
            (call-Inv held_to_free id _ λ z. ground (
              arith,
              l.others z,
              count-append z m.free_slabs (id ∷ []),
              count-erase z id m.held_slabs,
            ))
      | inr some_want ↦
          rw (some_want, l.in_held)
            (call-Inv held_to_wanted id _ λ z. ground (
              arith,
              l.others z,
              count-append z m.wanted_slabs (id ∷ []),
              count-erase z id m.held_slabs,
            ))
    ]
