-- ===== src/Manager/Supply.antt =====
-- Free slabs from the manager to its clients: `RequestFreeSlabs`, `ServiceSlabRequests`, `HarvestWantedSlabs` and
-- `HandleSlabStateChange` of Manager.cc, `FillProducerSlabs`, `TakeFreeSlabs` and `EraseWantedSegment` of
-- ClientProxy.cc.
use mcsb.Base.{
  ℕ, zero, suc, ◌+◌, ◌-◌, ◌*◌, ◌/◌, ◌^◌, ◌==◌, Bool, true, false, not, List, [], ◌∷◌, Option, none,
  some, if◌then◌else◌, ltb, leb, bit, u32, sub32, u64, length, min, is_nil, mem, erase, Outcome,
  Proc, ok, throw, and_then, ◌>>=◌, ◌>>◌, out_of_fuel, hook_fault, range_fault,
}
use mcsb.SlabManager.{
  Change, held_to_free, wanted_to_free, nobody, WantedSegment, Handler, segs_per_block,
  get_free_slabs, front_wanted_segment, release_wanted_segment,
}
use mcsb.SlabTracker.{Tracker, prod_slabs_needed, insert_prod_slabs}
use mcsb.SlabRequests.{
  SlabRequest, add_request, lowest_level_pending, front_request, pop_front_request,
}
use mcsb.Manager.{
  Manager, ClientProxy, ProxyStats, Rest, Env, get_proxy, put_proxy, find_client, on_tracker,
  on_rqsts,
}
use mcsb.Manager.Sockets.{send_slab_ids, send_drop_report}
pub mod Kept

abbrev pub set_pending : ℕ → ℕ → Manager → Manager
set_pending p n m = put_proxy p (record (get_proxy p m) { pending_free_slab_rqsts = n }) m

-- `char` to `int`.
abbrev pub widen_char : ℕ → ℕ
widen_char c = if leb 128 c then c + (2 ^ 32 - 256) else c

-- `LowestLevelPending` as an `unsigned`.
abbrev pub level_or_max : Option ℕ → ℕ
level_or_max none = 2 ^ 32 - 1
level_or_max (some level) = level

-- `GetFreeSlabs` tells of changes from free to held, which the manager does not ask for; the handler
-- that it is given here is never called.
abbrev pub unasked : Handler Rest
unasked which id m = throw out_of_fuel m

-- `stats.wantedSegsDropped++`, and the segment leaves the queue.
abbrev pub drop_wanted : ℕ → ℕ → ℕ → Manager → Manager
drop_wanted p a size m =
    let x = get_proxy p m in
    put_proxy p
      (record x {
        stats = record x.stats {
          wanted_segs_dropped = u64 (x.stats.wanted_segs_dropped + 1);
          wanted_bytes_dropped = u64 (x.stats.wanted_bytes_dropped + size);
        };
        wanted_queue = erase a x.wanted_queue;
      })
      m

module _ (env : Env) where
  -- The slabs are the client's, and it is told of them, whether the socket takes the message or not.
  pub take_free_slabs : ℕ → List ℕ → Proc Manager (Unit {0})
  take_free_slabs p ids = on_tracker p (insert_prod_slabs ids) >> send_slab_ids env p ids >> λ m.
      let pending = (get_proxy p m).pending_free_slab_rqsts in
      ok tt (set_pending p (if ltb pending (length ids) then 0 else pending - length ids) m)

  -- One slab of a request, and the request for the rest of it.
  pub fulfill : ℕ → SlabRequest → ℕ → Proc Manager (Unit {0})
  unfolding take_free_slabs
  fulfill level r p =
      (get_free_slabs unasked 1 nobody 0 >>= λ ids. take_free_slabs p ids)
      >> (if sub32 r.num_slabs 1 == 0
          then (λ m. ok tt m)
          else on_rqsts
              (add_request level (record { id = r.id; num_slabs = sub32 r.num_slabs 1; arg = p })))

  -- A request of a client that is gone, or whose id has another proxy by now, is dropped.
  pub serve : ℕ → SlabRequest → Proc Manager (Unit {0})
  unfolding fulfill
  serve level r m = elim (find_client r.id m) [
    | none ↦ ok tt m
    | some p ↦ if p == r.arg then fulfill level r p m else ok tt m
  ]

  pub service_once : Proc Manager (Unit {0})
  unfolding serve
  service_once m =
      let level = level_or_max (lowest_level_pending m.arg.rqsts) in
      (on_rqsts (front_request level) >>= λ r. on_rqsts (pop_front_request level) >> serve level r)
        m

  -- The loop, for at most `fuel` rounds.
  pub service_from : ℕ → Proc Manager (Unit {0})
  unfolding service_once
  service_from zero m = throw out_of_fuel m
  service_from (suc fuel) m =
      if m.arg.rqsts.num_requests == 0
      then ok tt m
      else if is_nil m.free_slabs
      then ok tt m
      else and_then (service_once m) (λ _. service_from fuel)

  -- Each round takes a request off or a free slab away.
  pub service_slab_requests : Proc Manager (Unit {0})
  unfolding service_from
  service_slab_requests m = service_from (m.arg.rqsts.num_requests + length m.free_slabs + 1) m

  pub handle_slab_state_change : Handler Rest
  unfolding service_slab_requests
  handle_slab_state_change which id m = elim which [
    | held_to_free ↦ service_slab_requests m
    | wanted_to_free ↦ service_slab_requests m
    | _ ↦ ok tt m
  ]

  -- The manager's `ReleaseWantedSegment`.
  pub release_wanted : ℕ → Proc Manager (Unit {0})
  unfolding handle_slab_state_change
  release_wanted a m =
      release_wanted_segment handle_slab_state_change a ((m.seg a).block_id / m.arg.blocks_per_slab)
        m

  pub erase_wanted_segment : ℕ → ℕ → Proc Manager (Unit {0})
  unfolding release_wanted
  erase_wanted_segment p a m =
      let size = (m.arg.block_info (m.seg a).block_id).size in
      let queue = (get_proxy p m).wanted_queue in
      if is_nil queue
      then ok tt m
      else if mem a queue
      then (release_wanted a >> send_drop_report env p 1 size) (drop_wanted p a size m)
      else throw hook_fault m

  -- One wanted segment dropped, to have more free slabs.
  pub harvest_one : Proc Manager (Unit {0})
  unfolding erase_wanted_segment
  harvest_one = front_wanted_segment >>= λ a m. elim (find_client (m.seg a).client_id m) [
    | none ↦ release_wanted a m
    | some p ↦ erase_wanted_segment p a m
  ]

  -- The loop, for at most `fuel` rounds; the difference is one of `size_t`s.
  pub harvest_from : ℕ → ℕ → ℕ → Proc Manager (Unit {0})
  unfolding harvest_one
  harvest_from zero orig count m = throw out_of_fuel m
  harvest_from (suc fuel) orig count m =
      if ltb (u64 (length m.free_slabs + 2 ^ 64 - orig)) count
      then and_then (harvest_one m) (λ _. harvest_from fuel orig count)
      else ok tt m

  -- Each round releases a wanted segment.
  pub harvest_wanted_slabs : ℕ → Proc Manager (Unit {0})
  unfolding harvest_from
  harvest_wanted_slabs count m =
      harvest_from (m.num_seg_blocks * segs_per_block + 1) (u32 (length m.free_slabs))
        (min count (length m.wanted_slabs)) m

  -- Greedy: wanted segments are dropped for the slabs that are missing.
  pub grab_free_slabs : ℕ → ℕ → Proc Manager (Unit {0})
  unfolding harvest_wanted_slabs
  grab_free_slabs n p m =
      (harvest_wanted_slabs (n - length m.free_slabs)
          >> get_free_slabs unasked n nobody 0
          >>= λ ids. take_free_slabs p ids)
        m

  -- All nice requests are queued.
  pub request_free_slabs : ℕ → ℕ → ℕ → Proc Manager (Unit {0})
  unfolding grab_free_slabs
  request_free_slabs n p nice m =
      let level = u32 (nice + bit m.arg.playback_mode) in
      if level == 0
      then grab_free_slabs n p m
      else (on_rqsts (
              add_request level (record { id = (get_proxy p m).client_id; num_slabs = n; arg = p }))
            >> service_slab_requests)
          m

  pub fill_producer_slabs : ℕ → Proc Manager (Unit {0})
  unfolding request_free_slabs
  fill_producer_slabs p m =
      let x = get_proxy p m in
      let needed = prod_slabs_needed x.slabs in
      if leb needed x.pending_free_slab_rqsts
      then ok tt m
      else request_free_slabs (needed - x.pending_free_slab_rqsts) p (widen_char x.prod_nice_level)
          (set_pending p needed m)
