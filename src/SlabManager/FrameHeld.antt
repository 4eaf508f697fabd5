-- ===== src/SlabManager/FrameHeld.antt =====
-- The frame of `Frame` for the operations on held slabs, on wanted segments and on buffers.
use mcsb.Base.{
  ℕ, zero, suc, ◌+◌, ◌-◌, ◌*◌, refl, not, ◌&&◌, List, [], ◌∷◌, if◌then◌else◌, mem, is_nil, ltb, leb,
  ◌==◌, throw, Keeps, and_then-Keeps, seq-Keeps, if-keeps, choose-Keeps, ◌>>◌, pure, Bool-cases,
  Nil-cases, inl, inr, not_held_or_wanted,
}
use mcsb.SlabManager.{
  SlabManager, Change, wanted_to_held, held_to_wanted, held_to_free, Handler, push_held, push_free,
  push_wanted, clear_producer, erase_held, erase_wanted, get_slab_info, call_state_change_handler,
  increment_held, decrement_held, increment_slab, increment_held_refcnt, let_go, decrement_slab,
  decrement_held_refcnt, give_segment, add_wanted_segment_block, get_wanted_segment, add_slabs,
  add_buffers, set_num_buffers,
}
use mcsb.SlabManager.Frame.{Blind, erase_wanted-Keeps, get_slab_info-Keeps, call-Keeps}

module _ {κ} {W : Type 0} (P : SlabManager W → Type κ) (blind : Blind P) where
  erase_held-Keeps : (id : ℕ) → Keeps P (erase_held id)
  unfolding erase_held
  erase_held-Keeps id m p = if-keeps P (mem id m.held_slabs) _ _ (blind m _ refl refl refl p) p

  give_segment-Keeps : (client block id : ℕ) → Keeps P (give_segment client block id)
  give_segment-Keeps client block id m p = elim (Nil-cases m.free_wanted_segs) [
    | inl h ↦ rw (h, give_segment) p
    | inr (a, rest, h) ↦ rw (h, give_segment) (blind m _ refl refl refl p)
  ]

  stocked : SlabManager W → SlabManager W
  stocked m = if is_nil m.free_wanted_segs then add_wanted_segment_block m else m

  stocked-P : (m : SlabManager W) → P m → P (stocked m)
  unfolding stocked add_wanted_segment_block
  stocked-P m p = elim (Bool-cases (is_nil m.free_wanted_segs)) [
    | inl h ↦ rw h (blind m _ refl refl refl p)
    | inr h ↦ rw h p
  ]

  pub get_wanted_segment-Keeps :
      (client block id : ℕ) → Keeps P (get_wanted_segment client block id)
  unfolding get_wanted_segment stocked
  get_wanted_segment-Keeps client block id m p =
      and_then-Keeps P (get_slab_info id m) _ (get_slab_info-Keeps P blind id m p) (λ s m1 p1.
        choose-Keeps P (s.held_refcnt == 0 && is_nil s.wanted_segs)
          (λ m2. throw not_held_or_wanted m2) (λ m2. give_segment client block id (stocked m2))
          (λ m2 p2. p2) (λ m2 p2. give_segment-Keeps client block id (stocked m2) (stocked-P m2 p2))
          m1 p1)

  add_slabs-P : (count base slab : ℕ) (m : SlabManager W) → P m → P (add_slabs count base slab m)
  unfolding add_slabs
  add_slabs-P zero base slab m p = p
  add_slabs-P (suc count) base slab m p =
      add_slabs-P count base (slab + 1) _ (blind m _ refl refl refl p)

  add_buffers-P : (count : ℕ) (m : SlabManager W) → P m → P (add_buffers count m)
  unfolding add_buffers
  add_buffers-P zero m p = p
  add_buffers-P (suc count) m p = add_buffers-P count _ (
      add_slabs-P m.slabs_per_buf (m.num_buffers * m.slabs_per_buf) 0 _
        (blind m _ refl refl refl p))

  pub set_num_buffers-Keeps : (n : ℕ) → Keeps P (set_num_buffers n)
  unfolding set_num_buffers
  set_num_buffers-Keeps n m p =
      let m1 = add_buffers (n - m.num_buffers) m in
      if-keeps P (leb n m.num_buffers) _ _ p
        (blind m1 _ refl refl refl (add_buffers-P (n - m.num_buffers) m p))

  module _ (handler : Handler W)
      (handler-Keeps : (which : Change) (id : ℕ) → Keeps P (handler which id)) where
    retake-Keeps :
        (id : ℕ)
        → Keeps P (
            erase_wanted id
            >> push_held id
            >> call_state_change_handler handler wanted_to_held id
            >> increment_held id)
    retake-Keeps id =
        seq-Keeps P
          (erase_wanted id >> push_held id >> call_state_change_handler handler wanted_to_held id)
          (increment_held id)
          (seq-Keeps P (erase_wanted id >> push_held id)
            (call_state_change_handler handler wanted_to_held id)
            (seq-Keeps P (erase_wanted id) (push_held id) (erase_wanted-Keeps P blind id)
              (λ m p. blind m _ refl refl refl p))
            (call-Keeps P blind handler handler-Keeps wanted_to_held id))
          (λ m p. blind m _ refl refl refl p)

    increment_slab-Keeps : (id : ℕ) → Keeps P (increment_slab handler id)
    unfolding increment_slab
    increment_slab-Keeps id m p =
        and_then-Keeps P (get_slab_info id m) _ (get_slab_info-Keeps P blind id m p) (λ s m1 p1.
          choose-Keeps P (not (s.held_refcnt == 0)) (increment_held id) _
            (λ m2 p2. blind m2 _ refl refl refl p2)
            (choose-Keeps P (is_nil s.wanted_segs) (λ m2. throw not_held_or_wanted m2) _
              (λ m2 p2. p2) (retake-Keeps id))
            m1 p1)

    pub increment_held_refcnt-Keeps : (ids : List ℕ) → Keeps P (increment_held_refcnt handler ids)
    unfolding increment_held_refcnt
    increment_held_refcnt-Keeps [] m p = p
    increment_held_refcnt-Keeps (id ∷ ids) m p =
        and_then-Keeps P (increment_slab handler id m) _ (increment_slab-Keeps id m p)
          (λ _. increment_held_refcnt-Keeps ids)

    let_go-Keeps : (id : ℕ) → Keeps P (let_go handler id)
    unfolding let_go
    let_go-Keeps id m p = elim (Bool-cases (not (is_nil (m.info id).wanted_segs))) [
      | inl h ↦ rw h (
          (seq-Keeps P (erase_held id >> push_wanted id)
              (call_state_change_handler handler held_to_wanted id)
              (seq-Keeps P (erase_held id) (push_wanted id) (erase_held-Keeps id)
                (λ m p. blind m _ refl refl refl p))
              (call-Keeps P blind handler handler-Keeps held_to_wanted id))
            m p)
      | inr h ↦ rw h (
          (seq-Keeps P (erase_held id >> clear_producer id >> push_free id)
              (call_state_change_handler handler held_to_free id)
              (seq-Keeps P (erase_held id >> clear_producer id) (push_free id)
                (seq-Keeps P (erase_held id) (clear_producer id) (erase_held-Keeps id)
                  (λ m p. blind m _ refl refl refl p))
                (λ m p. blind m _ refl refl refl p))
              (call-Keeps P blind handler handler-Keeps held_to_free id))
            m p)
    ]

    decrement_slab-Keeps : (id amount : ℕ) → Keeps P (decrement_slab handler id amount)
    unfolding decrement_slab decrement_held
    decrement_slab-Keeps id amount m p =
        and_then-Keeps P (get_slab_info id m) _ (get_slab_info-Keeps P blind id m p) (λ s m1 p1.
          and_then-Keeps P (decrement_held id amount m1) _
            (if-keeps P (ltb (m1.info id).held_refcnt amount) _ _ (blind m1 _ refl refl refl p1)
              (blind m1 _ refl refl refl p1))
            (λ n.
              choose-Keeps P (n == 0) (let_go handler id) (pure tt) (let_go-Keeps id)
                (λ m2 p2. p2)))

    pub decrement_held_refcnt-Keeps :
        (ids : List (ℕ × ℕ)) → Keeps P (decrement_held_refcnt handler ids)
    unfolding decrement_held_refcnt
    decrement_held_refcnt-Keeps [] m p = p
    decrement_held_refcnt-Keeps ((id, amount) ∷ rest) m p =
        and_then-Keeps P (decrement_slab handler id amount m) _ (decrement_slab-Keeps id amount m p)
          (λ _. decrement_held_refcnt-Keeps rest)
