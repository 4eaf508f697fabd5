-- ===== src/SlabTracker/Producer.antt =====
-- Producer slabs: `InsertProdSlabs` and `EraseProdSlabs`.
use mcsb.Base.{
  ℕ, zero, suc, ◌+◌, ◌^◌, ◌≤◌, ◌<◌, ◌≡◌, refl, ◌⊎◌, inl, inr, Bool, true, false, List, [], ◌∷◌,
  Option, none, some, arith, ◌==◌, ltb, bit, length, get_elem?, set, ==_iff, subst, false≢true,
  get_elem?-set_self, lt_of_get_elem?, Distinct, total, total-set, total-le-length, length-set, mem,
  get_elem?-set_ne, ok, throw, final, returns, Keeps, and_then-Keeps, Bool-cases, Option-cases,
  not_held, range_fault, too_many_erased, Error,
}
use mcsb.SlabTracker.{
  Tracker, insert_prod_slab, insert_loop, insert_prod_slabs, check_prod_slabs, erase_prod_slab,
  drop_prod_slabs, erase_prod_slabs,
}
use mcsb.SlabTracker.Invariant.{IsProd, prod_held-le, bit-le-one}

insert_prod_slab-IsProd : (id errs : ℕ) → Keeps IsProd (insert_prod_slab id errs)
unfolding insert_prod_slab
insert_prod_slab-IsProd id errs t p = elim (Option-cases (get_elem? t.prod_refcnt id)) [
  | inl e ↦ rw (e, insert_prod_slab) p
  | inr (holds, e) ↦
      rw (e, insert_prod_slab)
        (record {
          held = ground (
            arith,
            p.held,
            p.size,
            total-set bit t.prod_refcnt id true holds e,
            length-set t.prod_refcnt id true,
            total-le-length bit (set t.prod_refcnt id true) bit-le-one,
          );
          size = ground (arith, p.size, length-set t.prod_refcnt id true);
        })
]

insert_loop-IsProd : (ids : List ℕ) (errs : ℕ) → Keeps IsProd (insert_loop ids errs)
unfolding insert_loop
insert_loop-IsProd [] errs t p = p
insert_loop-IsProd (id ∷ ids) errs t p =
    and_then-Keeps IsProd (insert_prod_slab id errs t) (insert_loop ids)
      (insert_prod_slab-IsProd id errs t p) (insert_loop-IsProd ids)

-- `InsertProdSlabs` keeps the count of held slabs right, also when it throws.
pub insert_prod_slabs-IsProd :
    (ids : List ℕ) (t : Tracker) → IsProd t → IsProd (final (insert_prod_slabs ids t))
unfolding insert_prod_slabs
insert_prod_slabs-IsProd ids t p =
    and_then-Keeps IsProd (insert_loop ids 0 t) _ (insert_loop-IsProd ids 0 t p)
      (λ errs t' p'. elim (Bool-cases (errs == 0)) [ inl e ↦ rw e p' | inr e ↦ rw e p' ])

-- Every slab of the list is held.
abbrev pub AllHeld : Tracker → List ℕ → Type 0
AllHeld t [] = Unit {0}
AllHeld t (id ∷ ids) = (get_elem? t.prod_refcnt id ≡ some true) × AllHeld t ids

check_prod_slabs-cases :
    (ids : List ℕ) (t : Tracker)
    → (AllHeld t ids × (check_prod_slabs ids t ≡ ok tt t))
      ⊎ ((e : Error) × (check_prod_slabs ids t ≡ throw e t))
unfolding check_prod_slabs
check_prod_slabs-cases [] t = inl (tt, refl)
check_prod_slabs-cases (id ∷ ids) t =
    go (get_elem? t.prod_refcnt id) refl (check_prod_slabs-cases ids t)
  where
    go :
        (o : Option Bool)
        → get_elem? t.prod_refcnt id ≡ o
        → (AllHeld t ids × (check_prod_slabs ids t ≡ ok tt t))
          ⊎ ((e : Error) × (check_prod_slabs ids t ≡ throw e t))
        → (AllHeld t (id ∷ ids) × (check_prod_slabs (id ∷ ids) t ≡ ok tt t))
          ⊎ ((e : Error) × (check_prod_slabs (id ∷ ids) t ≡ throw e t))
    go none e ih = inr (range_fault, ground arith)
    go (some false) e ih = inr (not_held, ground arith)
    go (some true) e (inl (all, run)) = inl ((e, all), ground arith)
    go (some true) e (inr (err, run)) = inr (err, ground arith)

AllHeld-erase :
    (ids : List ℕ) (id : ℕ) (t : Tracker)
    → mem id ids ≡ false
    → AllHeld t ids
    → AllHeld (erase_prod_slab id t) ids
AllHeld-erase [] id t new all = tt
AllHeld-erase (i ∷ ids) id t new all = (
  ground (arith, get_elem?-set_ne t.prod_refcnt id i false, all.0),
  AllHeld-erase ids id t (ground arith) all.1,
)

drop_prod_slabs-IsProd :
    (ids : List ℕ) (t : Tracker)
    → IsProd t
    → Distinct ids
    → AllHeld t ids
    → IsProd (drop_prod_slabs ids t)
      × ((drop_prod_slabs ids t).prod_slabs_held + length ids ≡ t.prod_slabs_held)
unfolding drop_prod_slabs
drop_prod_slabs-IsProd [] t p d all = (p, omega arith)
drop_prod_slabs-IsProd (id ∷ ids) t p d all =
    let bound = prod_held-le t p in
    let change = total-set bit t.prod_refcnt id false true all.0 in
    let p1 : IsProd (erase_prod_slab id t) = record {
      held = ground (arith, p.held, p.size, bound, change);
      size = ground (arith, p.size, length-set t.prod_refcnt id false);
    } in
    let rest = drop_prod_slabs-IsProd ids _ p1 d.1 (AllHeld-erase ids id t d.0 all.1) in
    (rest.0, ground (arith, rest.1, p.held, p.size, bound, change))

erase_prod_slabs-cases :
    (ids : List ℕ) (t : Tracker)
    → ((length ids ≤ t.prod_slabs_held)
        × AllHeld t ids
        × (erase_prod_slabs ids t ≡ ok tt (drop_prod_slabs ids t)))
      ⊎ ((e : Error) × (erase_prod_slabs ids t ≡ throw e t))
unfolding erase_prod_slabs
erase_prod_slabs-cases ids t = elim (Bool-cases (ltb t.prod_slabs_held (length ids))) [
  | inl many ↦ inr (too_many_erased, rw many)
  | inr few ↦ elim (check_prod_slabs-cases ids t) [
    | inr (e, run) ↦ inr (e, rw (few, run))
    | inl (all, run) ↦ inl (ground arith, all, rw (few, run))
  ]
]

-- `EraseProdSlabs` of distinct slabs keeps the count of held slabs right: if it returns, the count
-- is lower by as many as the list names, and if it throws the tracker is as it was.
pub erase_prod_slabs-IsProd :
    (ids : List ℕ) (t : Tracker)
    → IsProd t
    → Distinct ids
    → IsProd (final (erase_prod_slabs ids t))
      × (((returns (erase_prod_slabs ids t) ≡ true)
            × ((final (erase_prod_slabs ids t)).prod_slabs_held + length ids ≡ t.prod_slabs_held))
          ⊎ ((returns (erase_prod_slabs ids t) ≡ false) × (final (erase_prod_slabs ids t) ≡ t)))
erase_prod_slabs-IsProd ids t p d = elim (erase_prod_slabs-cases ids t) [
  | inl (few, all, run) ↦
      let (p', sum) = drop_prod_slabs-IsProd ids t p d all in rw run (p', inl (refl, sum))
  | inr (e, run) ↦ rw run (p, inr (refl, refl))
]

-- Clearing a flag lowers the number of set flags by one at most.
clear_total : (bs : List Bool) (i : ℕ) → total bit bs ≤ total bit (set bs i false) + 1
clear_total [] i = omega arith
clear_total (b ∷ bs) zero = ground (arith, bit-le-one b)
clear_total (b ∷ bs) (suc i) = omega (arith, clear_total bs i)

drop_total :
    (ids : List ℕ) (t : Tracker)
    → total bit t.prod_refcnt ≤ total bit (drop_prod_slabs ids t).prod_refcnt + length ids
unfolding drop_prod_slabs
drop_total [] t = omega arith
drop_total (id ∷ ids) t =
    omega (arith, clear_total t.prod_refcnt id, drop_total ids (erase_prod_slab id t))

-- Clearing a flag that is clear already lowers it by none.
drop_total_again :
    (ids : List ℕ) (id : ℕ) (t : Tracker)
    → get_elem? t.prod_refcnt id ≡ some false
    → mem id ids ≡ true
    → total bit t.prod_refcnt < total bit (drop_prod_slabs ids t).prod_refcnt + length ids
unfolding drop_prod_slabs
drop_total_again [] id t clear again = cc
drop_total_again (i ∷ ids) id t clear again = elim (Bool-cases (id == i)) [
  | inl same ↦
      let e : id ≡ i = (==_iff id i).0 same in
      omega (
        arith,
        total-set bit t.prod_refcnt i false false
            (subst (λ k. get_elem? t.prod_refcnt k ≡ some false) e clear),
        drop_total ids (erase_prod_slab i t),
      )
  | inr other ↦ omega (
    arith,
    clear_total t.prod_refcnt i,
    drop_total_again ids id (erase_prod_slab i t)
        (ground (arith, get_elem?-set_ne t.prod_refcnt i id false)) (ground arith),
  )
]

drop_held :
    (ids : List ℕ) (t : Tracker)
    → length ids ≤ t.prod_slabs_held
    → t.prod_slabs_held < 2 ^ 32
    → (drop_prod_slabs ids t).prod_slabs_held + length ids ≡ t.prod_slabs_held
unfolding drop_prod_slabs
drop_held [] t h w = omega arith
drop_held (id ∷ ids) t h w =
    omega (arith, drop_held ids (erase_prod_slab id t) (omega arith) (omega arith))

-- Whenever `EraseProdSlabs` returns on a list whose first slab is named again, with the count of
-- held slabs right before, the count falls below the slabs still held.
pub erase_prod_slabs-repeated :
    (id : ℕ) (ids : List ℕ) (t : Tracker)
    → IsProd t
    → mem id ids ≡ true
    → returns (erase_prod_slabs (id ∷ ids) t) ≡ true
    → (final (erase_prod_slabs (id ∷ ids) t)).prod_slabs_held
      < total bit (final (erase_prod_slabs (id ∷ ids) t)).prod_refcnt
unfolding drop_prod_slabs
erase_prod_slabs-repeated id ids t p again done = elim (erase_prod_slabs-cases (id ∷ ids) t) [
  | inr (e, run) ↦ absurd (false≢true (subst (λ o. returns o ≡ true) run done))
  | inl (few, all, run) ↦
      let cleared : get_elem? (set t.prod_refcnt id false) id ≡ some false =
        get_elem?-set_self t.prod_refcnt id false (lt_of_get_elem? t.prod_refcnt id all.0) in
      rw run (
        omega (
          arith,
          p.held,
          p.size,
          prod_held-le t p,
          total-set bit t.prod_refcnt id false true all.0,
          drop_total_again ids id (erase_prod_slab id t) cleared again,
          drop_held (id ∷ ids) t few (omega (arith, p.size, prod_held-le t p)),
        ))
]
