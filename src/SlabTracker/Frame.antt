-- ===== src/SlabTracker/Frame.antt =====
-- What the tracker's operations leave alone: the numbers of slabs that the client has reserved.
use mcsb.Base.{
  ℕ, ◌≡◌, ◌==◌, true, false, List, [], ◌∷◌, get_elem?, ltb, length, Keeps, and_then-Keeps, if-keeps,
  Option-cases, inl, inr, u16, ◌+◌,
}
use mcsb.SlabTracker.{
  Tracker, insert_prod_slab, insert_loop, insert_prod_slabs, check_prod_slabs, drop_prod_slabs,
  erase_prod_slabs, total_num_slabs, take_cons_slab, decrement_cons_slab, undo_cons_slab,
  decrement_loop, undo_loop, decrement_cons_slabs,
}

-- The reserved numbers are these.
abbrev pub Reserves : ℕ → ℕ → Tracker → Type 0
Reserves prod cons t = (t.num_prod_slabs ≡ prod) × (t.num_cons_slabs ≡ cons)

module _ (prod cons : ℕ) where
  abbrev P : Tracker → Type 0
  P = Reserves prod cons

  insert_loop-Keeps : (ids : List ℕ) (errs : ℕ) → Keeps P (insert_loop ids errs)
  unfolding insert_loop insert_prod_slab
  insert_loop-Keeps [] errs t p = p
  insert_loop-Keeps (id ∷ ids) errs t p = elim (Option-cases (get_elem? t.prod_refcnt id)) [
    | inl h ↦ rw (h, insert_prod_slab) p
    | inr (holds, h) ↦ rw (h, insert_prod_slab) (insert_loop-Keeps ids _ _ p)
  ]

  pub insert_prod_slabs-Keeps : (ids : List ℕ) → Keeps P (insert_prod_slabs ids)
  unfolding insert_prod_slabs
  insert_prod_slabs-Keeps ids t p =
      and_then-Keeps P (insert_loop ids 0 t) _ (insert_loop-Keeps ids 0 t p)
        (λ errs t1 p1. if-keeps P (errs == 0) _ _ p1 p1)

  check_prod_slabs-Keeps : (ids : List ℕ) → Keeps P (check_prod_slabs ids)
  unfolding check_prod_slabs
  check_prod_slabs-Keeps [] t p = p
  check_prod_slabs-Keeps (id ∷ ids) t p = elim (Option-cases (get_elem? t.prod_refcnt id)) [
    | inl h ↦ rw (h, check_prod_slabs) p
    | inr (true, h) ↦ rw (h, check_prod_slabs) (check_prod_slabs-Keeps ids t p)
    | inr (false, h) ↦ rw (h, check_prod_slabs) p
  ]

  drop_prod_slabs-Reserves : (ids : List ℕ) (t : Tracker) → P t → P (drop_prod_slabs ids t)
  unfolding drop_prod_slabs
  drop_prod_slabs-Reserves [] t p = p
  drop_prod_slabs-Reserves (id ∷ ids) t p = drop_prod_slabs-Reserves ids _ p

  pub erase_prod_slabs-Keeps : (ids : List ℕ) → Keeps P (erase_prod_slabs ids)
  unfolding erase_prod_slabs
  erase_prod_slabs-Keeps ids t p = if-keeps P (ltb t.prod_slabs_held (length ids)) _ _ p (
      and_then-Keeps P (check_prod_slabs ids t) _ (check_prod_slabs-Keeps ids t p)
        (λ _ t1 p1. drop_prod_slabs-Reserves ids t1 p1))

  pub take_cons_slab-Keeps : (id : ℕ) → Keeps P (take_cons_slab id)
  unfolding take_cons_slab
  take_cons_slab-Keeps id t p = elim (Option-cases (get_elem? t.cons_refcnt id)) [
    | inl h ↦ rw (h, take_cons_slab) p
    | inr (c, h) ↦
        rw (h, take_cons_slab)
          (if-keeps P (ltb t.cons_slabs_held t.num_cons_slabs) _ _ p (if-keeps P (c == 0) _ _ p p))
  ]

  decrement_loop-Keeps : (ids : List ℕ) (errs : ℕ) → Keeps P (decrement_loop ids errs)
  unfolding decrement_loop decrement_cons_slab
  decrement_loop-Keeps [] errs t p = p
  decrement_loop-Keeps (id ∷ ids) errs t p =
      and_then-Keeps P (decrement_cons_slab id errs t) _ (one t p)
        (λ errs1 t1 p1. decrement_loop-Keeps ids errs1 t1 p1)
    where
      one : Keeps P (decrement_cons_slab id errs)
      one t p = elim (Option-cases (get_elem? t.cons_refcnt id)) [
        | inl h ↦ rw (h, decrement_cons_slab) p
        | inr (c, h) ↦ rw (h, decrement_cons_slab) (if-keeps P (u16 (c + 65535) == 0) _ _ p p)
      ]

  undo_loop-Keeps : (ids : List ℕ) → Keeps P (undo_loop ids)
  unfolding undo_loop undo_cons_slab
  undo_loop-Keeps [] t p = p
  undo_loop-Keeps (id ∷ ids) t p = elim (Option-cases (get_elem? t.cons_refcnt id)) [
    | inl h ↦ rw (h, undo_cons_slab) p
    | inr (c, h) ↦ rw (h, undo_cons_slab) (undo_loop-Keeps ids _ p)
  ]

  pub decrement_cons_slabs-Keeps : (ids : List ℕ) → Keeps P (decrement_cons_slabs ids)
  unfolding decrement_cons_slabs
  decrement_cons_slabs-Keeps ids t p =
      and_then-Keeps P (decrement_loop ids 0 t) _ (decrement_loop-Keeps ids 0 t p) (λ errs t1 p1.
        if-keeps P (errs == 0) _ _ p1
          (and_then-Keeps P (undo_loop ids t1) _ (undo_loop-Keeps ids t1 p1) (λ _ t2 p2. p2)))

  pub total_num_slabs-Reserves : (n : ℕ) (t : Tracker) → P t → P (total_num_slabs n t)
  unfolding total_num_slabs
  total_num_slabs-Reserves n t p = p
