-- ===== src/SlabTracker/Tests.antt =====
-- The slab tracker's theorems on a client that holds one producer slab and two consumer slabs.
use mcsb.Base.{
  ◌<◌, ◌≡◌, refl, true, false, [], ◌∷◌, arith, bit, total, throw, final, decrement_errors,
}
use mcsb.SlabTracker.{Tracker, erase_prod_slabs, decrement_cons_slabs}
use mcsb.SlabTracker.Invariant.{IsProd, IsCons}
use mcsb.SlabTracker.Producer.{erase_prod_slabs-repeated}
use mcsb.SlabTracker.Consumer.{decrement_cons_slabs-restores}

abbrev tracker : Tracker
tracker = record {
  num_prod_slabs = 2;
  num_cons_slabs = 3;
  prod_slabs_held = 1;
  cons_slabs_held = 2;
  prod_refcnt = true ∷ false ∷ false ∷ [];
  cons_refcnt = 0 ∷ 1 ∷ 2 ∷ [];
}

tracker-IsProd : IsProd tracker
tracker-IsProd = record { held = refl; size = omega arith }

tracker-IsCons : IsCons tracker
tracker-IsCons = record {
  held = refl;
  small = (omega arith, (omega arith, (omega arith, tt)));
  size = omega arith;
}

-- Two slabs are held.
abbrev busy_tracker : Tracker
busy_tracker = record tracker { prod_slabs_held = 2; prod_refcnt = true ∷ true ∷ false ∷ [] }

busy_tracker-IsProd : IsProd busy_tracker
busy_tracker-IsProd = record { held = refl; size = omega arith }

erase_prod_slabs-repeated_example :
    (final (erase_prod_slabs (0 ∷ 0 ∷ []) busy_tracker)).prod_slabs_held
    < total bit (final (erase_prod_slabs (0 ∷ 0 ∷ []) busy_tracker)).prod_refcnt
unfolding erase_prod_slabs
erase_prod_slabs-repeated_example =
    erase_prod_slabs-repeated 0 (0 ∷ []) busy_tracker busy_tracker-IsProd refl refl

decrement_cons_slabs-restores_example :
    decrement_cons_slabs (1 ∷ 0 ∷ 1 ∷ []) tracker ≡ throw decrement_errors tracker
unfolding decrement_cons_slabs
decrement_cons_slabs-restores_example =
    decrement_cons_slabs-restores (1 ∷ 0 ∷ 1 ∷ []) tracker tracker-IsCons.small (omega arith)
      (omega arith, (omega arith, (omega arith, tt))) refl
