-- ===== src/Manager/Buffers.antt =====
-- Buffers and reservations: `ShmMapper::NumBuffers` of ShmMapper.cc, `IncreaseNumBuffers` and `GetSlabReservation` of
-- Manager.cc, `CheckBufferParams` and `HandleNumSlabs` of ClientProxy.cc.
use mcsb.Base.{
  ℕ, zero, suc, ◌+◌, ◌-◌, ◌*◌, ◌/◌, ◌^◌, ◌==◌, Bool, true, false, not, ◌&&◌, ◌||◌, List, [], ◌∷◌,
  Option, none, some, if◌then◌else◌, ltb, leb, u32, sub32, Outcome, Proc, ok, throw, and_then,
  ◌>>=◌, ◌>>◌, out_of_fuel, divide_fault, map_failed, memory_unlocked, reservation_denied,
}
use mcsb.SlabManager.{set_num_buffers, get_slab_reservation}
use mcsb.SlabTracker.{Tracker, total_num_slabs}
use mcsb.Manager.{
  Manager, ClientProxy, Rest, Env, Message, shm_name, granted_slabs, get_proxy, put_proxy, caught,
  send,
}
use mcsb.Manager.Supply.{fill_producer_slabs}
pub mod Kept

-- A number of slabs asked for beyond those there are; a smaller number is refused.
abbrev pub more : ℕ → ℕ → ℕ
more asked there = if leb (2 ^ 31) (sub32 asked there) then 0 else sub32 asked there

abbrev pub grant : ℕ → ℕ → ℕ → Manager → Manager
grant p d_prod d_cons m =
    let x = get_proxy p m in
    put_proxy p
      (record x {
        slabs = record x.slabs {
          num_prod_slabs = u32 (x.slabs.num_prod_slabs + d_prod);
          num_cons_slabs = u32 (x.slabs.num_cons_slabs + d_cons);
        };
      })
      m

module _ (env : Env) where
  -- `CreateAndMap` of the buffers from the one numbered `i` on, `count` of them.
  pub create_buffers : ℕ → ℕ → Proc Manager (Unit {0})
  create_buffers zero i m = ok tt m
  create_buffers (suc count) i m = elim (env.create_and_map i) [
    | none ↦ throw map_failed m
    | some errs ↦ create_buffers count (i + 1) (record m {
      arg = record m.arg {
        mapped = m.arg.mapped + 1;
        lock_errors = u32 (m.arg.lock_errors + errs);
      };
    })
  ]

  -- `ShmMapper::NumBuffers(n)`, which creates what is missing, or refuses and changes nothing.
  pub map_buffers : ℕ → Proc Manager (Unit {0})
  unfolding create_buffers
  map_buffers n m =
      if ltb m.arg.max_num_buffers n || ltb n m.arg.mapped
      then ok tt m
      else create_buffers (n - m.arg.mapped) m.arg.mapped m

  pub check_buffer_params : ℕ → Proc Manager (Unit {0})
  check_buffer_params p m =
      if m.arg.blocks_per_slab == 0
      then throw divide_fault m
      else (let x = get_proxy p m in
          let slabs = u32 (m.arg.mapped * m.arg.num_blocks) / m.arg.blocks_per_slab in
          caught (
            send env p shm_name (
              put_proxy p
                (record x {
                  slabs = total_num_slabs slabs x.slabs;
                  proxy_blocks_per_slab = m.arg.blocks_per_slab;
                })
                m)))

  pub check_all_clients : List (ℕ × ℕ) → Proc Manager (Unit {0})
  unfolding check_buffer_params
  check_all_clients [] m = ok tt m
  check_all_clients ((id, p) ∷ rest) m =
      and_then (check_buffer_params p m) (λ _. check_all_clients rest)

  -- The rest of `IncreaseNumBuffers`, when `n` buffers were asked for; `true` is the result 0.
  pub use_buffers : ℕ → Proc Manager Bool
  unfolding check_all_clients
  use_buffers n m =
      if not (m.arg.mapped == n)
      then ok false m
      else if not (m.arg.lock_errors == 0) && not m.arg.allow_unlocked_memory
      then throw memory_unlocked m
      else (set_num_buffers n >>= λ _ m'.
            (check_all_clients m'.arg.clients >> λ m''. ok true m'') m')
          m

  pub increase_num_buffers : ℕ → Proc Manager Bool
  unfolding map_buffers use_buffers
  increase_num_buffers n m =
      let n' = if n == 0 then u32 (m.arg.mapped + 1) else n in
      if n == m.arg.mapped then ok true m else (map_buffers n' >> use_buffers n') m

  -- The slab manager's answer and, when it refuses, one more buffer.
  pub reserve_once : ℕ → Proc Manager (Option Bool)
  unfolding increase_num_buffers
  reserve_once n m =
      let (granted, m') = get_slab_reservation n m in
      if granted
      then ok (some true) m'
      else (increase_num_buffers 0 >>= λ grown m''. ok (if grown then none else some false) m'') m'

  -- The loop, for at most `fuel` rounds; the result says whether the reservation is granted.
  pub reserve_from : ℕ → ℕ → Proc Manager Bool
  unfolding reserve_once
  reserve_from zero n m = throw out_of_fuel m
  reserve_from (suc fuel) n m =
      and_then (reserve_once n m)
        (λ answer m'. elim answer [ some granted ↦ ok granted m' | none ↦ reserve_from fuel n m' ])

  -- Each round but the last one maps one more buffer.
  pub reserve_slabs : ℕ → Proc Manager Bool
  unfolding reserve_from
  reserve_slabs n m = reserve_from (m.arg.max_num_buffers - m.arg.mapped + 1) n m

  unfoldable pub handle_num_slabs : ℕ → ℕ → ℕ → Proc Manager (Unit {0})
  unfolding reserve_slabs
  handle_num_slabs p prod cons m =
      let t = (get_proxy p m).slabs in
      let d_prod = more prod t.num_prod_slabs in
      let d_cons = more cons t.num_cons_slabs in
      (reserve_slabs (u32 (d_prod + d_cons)) >>= λ granted m1.
      let m2 = if granted then grant p d_prod d_cons m1 else m1 in
      let t2 = (get_proxy p m2).slabs in
      (send env p (granted_slabs t2.num_prod_slabs t2.num_cons_slabs)
          >> (if granted then fill_producer_slabs env p else (λ m3. throw reservation_denied m3)))
        m2)
        m
