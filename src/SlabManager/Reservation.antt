-- ===== src/SlabManager/Reservation.antt =====
-- `GetSlabReservation` and `ReleaseSlabReservation`.
use mcsb.Base.{
  ℕ, ◌+◌, ◌^◌, ◌≡◌, ◌↔◌, ◌≤◌, ◌<◌, refl, ◌==◌, ltb, u32, if◌then◌else◌, Bool-cases, inl, inr, true,
  arith,
}
use mcsb.SlabManager.{SlabManager, num_slabs, get_slab_reservation, release_slab_reservation}

module _ {W : Type 0} where
  abbrev pub Covered : SlabManager W → Type 0
  Covered m = m.num_slabs_reserved + m.num_slabs_nonreservable ≤ num_slabs m

  -- While the slabs cover what is reserved and nonreservable, a request that does not pass 2 ^ 32
  -- together with NumSlabs is granted exactly if the slabs cover it too, and they cover what is
  -- reserved afterwards either way.
  pub get_slab_reservation-Covered :
      (n : ℕ) (m : SlabManager W)
      → Covered m
      → n + num_slabs m < 2 ^ 32
      → Covered (get_slab_reservation n m).1
        × (((get_slab_reservation n m).0 ≡ true)
            ↔ (m.num_slabs_reserved + m.num_slabs_nonreservable + n ≤ num_slabs m))
  unfolding get_slab_reservation
  get_slab_reservation-Covered n m c fits = ground arith

  -- While the slabs cover what is reserved and nonreservable, a request that does not pass 2 ^ 32
  -- together with NumSlabs and is granted can be given back, and that leaves the manager as it was.
  pub release-get :
      (n : ℕ) (m : SlabManager W)
      → Covered m
      → n + num_slabs m < 2 ^ 32
      → (get_slab_reservation n m).0 ≡ true
      → release_slab_reservation n (get_slab_reservation n m).1 ≡ (true, m)
  unfolding get_slab_reservation release_slab_reservation
  release-get n m c fits granted = ground arith

  -- While the slabs cover what is reserved and nonreservable, a 32-bit request so large that the
  -- sum of the test wraps past 2 ^ 32 is granted, though the slabs do not cover it.
  pub get_slab_reservation_wraps :
      (n : ℕ) (m : SlabManager W)
      → Covered m
      → n < 2 ^ 32
      → 2 ^ 32 ≤ m.num_slabs_reserved + m.num_slabs_nonreservable + n
      → ((get_slab_reservation n m).0 ≡ true)
        × (num_slabs m < m.num_slabs_reserved + m.num_slabs_nonreservable + n)
  unfolding get_slab_reservation
  get_slab_reservation_wraps n m c w big = ground arith

  -- A manager that differs in the reserved slabs only.
  abbrev pub Reserving : SlabManager W → ℕ → SlabManager W → Type 0
  Reserving m n m' =
      (m'.num_slabs_reserved ≡ n)
      × (m'.which_state_change ≡ m.which_state_change)
      × (m'.arg ≡ m.arg)

  pub get_slab_reservation-Reserving :
      (n : ℕ) (m : SlabManager W)
      → m.num_slabs_reserved < 2 ^ 32
      → Reserving m
          (if (get_slab_reservation n m).0
            then u32 (m.num_slabs_reserved + n)
            else m.num_slabs_reserved)
          (get_slab_reservation n m).1
  unfolding get_slab_reservation
  get_slab_reservation-Reserving n m small = elim (Bool-cases (n == 0)) [
    | inl z ↦ rw z (ground arith, refl, refl)
    | inr h ↦
        elim (Bool-cases
          (ltb (num_slabs m) (u32 (m.num_slabs_reserved + m.num_slabs_nonreservable + n)))) [
            | inl over ↦ rw h (rw over (refl, refl, refl))
            | inr fits ↦ rw h (rw fits (refl, refl, refl))
          ]
  ]
