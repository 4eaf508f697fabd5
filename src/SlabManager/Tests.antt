-- ===== src/SlabManager/Tests.antt =====
-- The slab manager's theorems on a buffer of two slabs.
use mcsb.Base.{
  ℕ, ◌+◌, ◌-◌, ◌≤◌, ◌<◌, ◌^◌, ◌≡◌, ◌↔◌, refl, true, false, List, [], ◌∷◌, arith, ◌==◌, count,
  if◌then◌else◌, ok, final, Keeps,
}
use mcsb.SlabManager.{
  SlabManager, Handler, Change, new_info, nobody, client, is_slab, num_slabs, decrement_held_refcnt,
  increment_held_refcnt, get_slab_reservation, release_slab_reservation,
}
use mcsb.SlabManager.Places.{Inv}
use mcsb.SlabManager.Refcounts.{units, Gives, decrement_held_refcnt-Inv, get_free_slabs-take}
use mcsb.SlabManager.Sharing.{Ready, increment_held_refcnt-adds}
use mcsb.SlabManager.Reservation.{
  Covered, get_slab_reservation-Covered, release-get, get_slab_reservation_wraps,
}

-- Slab 0 is held twice and slab 1 is wanted by a client; slabs 2 and 3 are free.
abbrev manager : SlabManager (List ℕ)
manager = record {
  slabs_per_buf = 4;
  num_buffers = 1;
  share = λ n. 1;
  num_slabs_reserved = 1;
  num_slabs_nonreservable = 1;
  info = λ i.
      if i == 0
      then record { held_refcnt = 2; prod_client_id = client 7; prod_arg = 0; wanted_segs = [] }
      else if i == 1
      then record { held_refcnt = 0; prod_client_id = nobody; prod_arg = 0; wanted_segs = 5 ∷ [] }
      else new_info;
  free_slabs = 2 ∷ 3 ∷ [];
  held_slabs = 0 ∷ [];
  wanted_slabs = 1 ∷ [];
  num_seg_blocks = 1;
  seg = λ a. record { client_id = 3; block_id = 9 };
  free_wanted_segs = 6 ∷ [];
  which_state_change = λ w. false;
  arg = [];
}

manager-Inv : Inv manager
unfolding is_slab
manager-Inv z = record { free = ground arith; held = ground arith; wanted = ground arith }

-- A handler that notes the slabs it is told of.
abbrev noting : Handler (List ℕ)
noting w i m = ok tt (record m { arg = i ∷ m.arg })

noting-Keeps : (w : Change) (i : ℕ) → Keeps Inv (noting w i)
noting-Keeps w i m v z = record { free = (v z).free; held = (v z).held; wanted = (v z).wanted }

decrement_held_refcnt-Inv_example :
    Inv (final (decrement_held_refcnt noting (units (0 ∷ 0 ∷ [])) manager))
decrement_held_refcnt-Inv_example =
    decrement_held_refcnt-Inv noting noting-Keeps (0 ∷ 0 ∷ []) manager manager-Inv

get_free_slabs-take_example : Gives noting (client 7) 0 2 manager
get_free_slabs-take_example = get_free_slabs-take noting (client 7) 0 2 manager manager-Inv refl

manager-Ready : Ready 2 manager
manager-Ready = record { places = manager-Inv; quiet = refl; room = λ z. ground arith }

increment_held_refcnt-adds_example :
    (m' : SlabManager (List ℕ)) × (increment_held_refcnt noting (0 ∷ 1 ∷ []) manager ≡ ok tt m')
    × ((z : ℕ) → (m'.info z).held_refcnt ≡ (manager.info z).held_refcnt + count z (0 ∷ 1 ∷ []))
unfolding is_slab
increment_held_refcnt-adds_example =
    increment_held_refcnt-adds noting (0 ∷ 1 ∷ []) manager manager-Ready
      (refl, refl, (refl, refl, tt))

manager-Covered : Covered manager
manager-Covered = omega arith

get_slab_reservation-Covered_example :
    Covered (get_slab_reservation 2 manager).1
    × (((get_slab_reservation 2 manager).0 ≡ true)
        ↔ (manager.num_slabs_reserved + manager.num_slabs_nonreservable + 2 ≤ num_slabs manager))
get_slab_reservation-Covered_example =
    get_slab_reservation-Covered 2 manager manager-Covered (omega arith)

release-get_example :
    release_slab_reservation 2 (get_slab_reservation 2 manager).1 ≡ (true, manager)
unfolding get_slab_reservation
release-get_example = release-get 2 manager manager-Covered (omega arith) refl

get_slab_reservation_wraps_example :
    ((get_slab_reservation (2 ^ 32 - 1) manager).0 ≡ true)
    × (num_slabs manager
        < manager.num_slabs_reserved + manager.num_slabs_nonreservable + (2 ^ 32 - 1))
get_slab_reservation_wraps_example =
    get_slab_reservation_wraps (2 ^ 32 - 1) manager manager-Covered (omega arith) (omega arith)
