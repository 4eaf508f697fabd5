-- ===== src/Manager/Supply/Kept.antt =====
-- Giving out free slabs keeps the books on reservations.
use mcsb.Base.{
  ℕ, zero, suc, ◌-◌, ◌+◌, ◌^◌, ◌==◌, List, ltb, leb, u32, u64, bit, sub32, length, is_nil, mem, ok,
  Keeps, and_then-Keeps, bind-Keeps, seq-Keeps, if-keeps, choose-Keeps, ◌>>=◌, ◌>>◌, Option-cases,
  inl, inr,
}
use mcsb.SlabManager.{
  Change, held_to_free, wanted_to_free, free_to_held, held_to_wanted, wanted_to_held, nobody,
  get_free_slabs, front_wanted_segment,
}
use mcsb.SlabManager.Frame.{
  release_wanted_segment-Keeps, front_wanted_segment-Keeps, get_free_slabs-Keeps,
}
use mcsb.SlabTracker.{insert_prod_slabs, prod_slabs_needed}
use mcsb.SlabTracker.Frame.{insert_prod_slabs-Keeps}
use mcsb.SlabRequests.{
  SlabRequest, add_request, front_request, pop_front_request, lowest_level_pending,
}
use mcsb.Manager.{Manager, Env, get_proxy, find_client, on_tracker, on_rqsts}
use mcsb.Manager.Books.{B, B-Blind, put_proxy-B, on_tracker-Keeps, on_rqsts-Keeps}
use mcsb.Manager.Sockets.{send_slab_ids, send_drop_report}
use mcsb.Manager.Sockets.Kept.{send_slab_ids-Keeps, send_drop_report-Keeps}
use mcsb.Manager.Supply.{
  set_pending, level_or_max, unasked, take_free_slabs, fulfill, serve, service_once, service_from,
  service_slab_requests, handle_slab_state_change, release_wanted, drop_wanted,
  erase_wanted_segment, harvest_one, harvest_from, harvest_wanted_slabs, grab_free_slabs,
  request_free_slabs, fill_producer_slabs,
}

module _ (r : ℕ) (f g : ℕ → ℕ) (cs : List (ℕ × ℕ)) (env : Env) where
  abbrev P : Manager → Type 0
  P = B r f g cs

  set_pending-P : (p n : ℕ) (m : Manager) → P m → P (set_pending p n m)
  set_pending-P p n m b = put_proxy-B r f g cs p _ m (b.reserves p) b

  take_free_slabs-Keeps : (p : ℕ) (ids : List ℕ) → Keeps P (take_free_slabs env p ids)
  unfolding take_free_slabs
  take_free_slabs-Keeps p ids =
      seq-Keeps P (on_tracker p (insert_prod_slabs ids) >> send_slab_ids env p ids) _
        (seq-Keeps P (on_tracker p (insert_prod_slabs ids)) (send_slab_ids env p ids)
          (on_tracker-Keeps r f g cs p (insert_prod_slabs ids)
            (λ a b. insert_prod_slabs-Keeps a b ids))
          (send_slab_ids-Keeps r f g cs env p ids))
        (λ m b. set_pending-P p _ m b)

  give-Keeps :
      (n p : ℕ) → Keeps P (get_free_slabs unasked n nobody 0 >>= λ ids. take_free_slabs env p ids)
  give-Keeps n p =
      bind-Keeps P (get_free_slabs unasked n nobody 0) (take_free_slabs env p)
        (get_free_slabs-Keeps P (B-Blind r f g cs) unasked (λ m b. b.deaf) n nobody 0)
        (take_free_slabs-Keeps p)

  fulfill-Keeps : (level : ℕ) (q : SlabRequest) (p : ℕ) → Keeps P (fulfill env level q p)
  unfolding fulfill
  fulfill-Keeps level q p =
      seq-Keeps P (get_free_slabs unasked 1 nobody 0 >>= λ ids. take_free_slabs env p ids) _
        (give-Keeps 1 p)
        (choose-Keeps P (sub32 q.num_slabs 1 == 0) (λ m. ok tt m) _ (λ m b. b)
          (on_rqsts-Keeps r f g cs _))

  serve-Keeps : (level : ℕ) (q : SlabRequest) → Keeps P (serve env level q)
  unfolding serve
  serve-Keeps level q m b = elim (Option-cases (find_client q.id m)) [
    | inl h ↦ rw (h, serve) b
    | inr (p, h) ↦
        rw (h, serve)
          (if-keeps P (p == q.arg) (fulfill env level q p m) (ok tt m) (fulfill-Keeps level q p m b)
            b)
  ]

  service_once-Keeps : Keeps P (service_once env)
  unfolding service_once
  service_once-Keeps m b =
      let level = level_or_max (lowest_level_pending m.arg.rqsts) in
      bind-Keeps P (on_rqsts (front_request level))
        (λ q. on_rqsts (pop_front_request level) >> serve env level q)
        (on_rqsts-Keeps r f g cs (front_request level))
        (λ q.
          seq-Keeps P (on_rqsts (pop_front_request level)) (serve env level q)
            (on_rqsts-Keeps r f g cs (pop_front_request level)) (serve-Keeps level q))
        m b

  service_from-Keeps : (fuel : ℕ) → Keeps P (service_from env fuel)
  unfolding service_from
  service_from-Keeps zero m b = b
  service_from-Keeps (suc fuel) m b = if-keeps P (m.arg.rqsts.num_requests == 0) (ok tt m) _ b (
      if-keeps P (is_nil m.free_slabs) (ok tt m) _ b (
        and_then-Keeps P (service_once env m) (λ _. service_from env fuel) (service_once-Keeps m b)
          (λ _. service_from-Keeps fuel)))

  pub service_slab_requests-Keeps : Keeps P (service_slab_requests env)
  unfolding service_slab_requests
  service_slab_requests-Keeps m b = service_from-Keeps _ m b

  pub handle_slab_state_change-Keeps :
      (which : Change) (id : ℕ) → Keeps P (handle_slab_state_change env which id)
  unfolding handle_slab_state_change
  handle_slab_state_change-Keeps held_to_free id m b = service_slab_requests-Keeps m b
  handle_slab_state_change-Keeps wanted_to_free id m b = service_slab_requests-Keeps m b
  handle_slab_state_change-Keeps free_to_held id m b = b
  handle_slab_state_change-Keeps held_to_wanted id m b = b
  handle_slab_state_change-Keeps wanted_to_held id m b = b

  pub release_wanted-Keeps : (a : ℕ) → Keeps P (release_wanted env a)
  unfolding release_wanted
  release_wanted-Keeps a m b =
      release_wanted_segment-Keeps P (B-Blind r f g cs) (handle_slab_state_change env)
        handle_slab_state_change-Keeps a _ m b

  erase_wanted_segment-Keeps : (p a : ℕ) → Keeps P (erase_wanted_segment env p a)
  unfolding erase_wanted_segment
  erase_wanted_segment-Keeps p a m b =
      let size = (m.arg.block_info (m.seg a).block_id).size in
      if-keeps P (is_nil (get_proxy p m).wanted_queue) (ok tt m) _ b (
        if-keeps P (mem a (get_proxy p m).wanted_queue) _ _
          (seq-Keeps P (release_wanted env a) (send_drop_report env p 1 size)
            (release_wanted-Keeps a) (send_drop_report-Keeps r f g cs env p 1 size)
            (drop_wanted p a size m) (put_proxy-B r f g cs p _ m (b.reserves p) b))
          b)

  harvest_one-Keeps : Keeps P (harvest_one env)
  unfolding harvest_one
  harvest_one-Keeps =
      bind-Keeps P front_wanted_segment _ (front_wanted_segment-Keeps P (B-Blind r f g cs))
        (λ a m b. elim (Option-cases (find_client (m.seg a).client_id m)) [
          | inl h ↦ rw (h, harvest_one) (release_wanted-Keeps a m b)
          | inr (p, h) ↦ rw (h, harvest_one) (erase_wanted_segment-Keeps p a m b)
        ])

  harvest_from-Keeps : (fuel orig count : ℕ) → Keeps P (harvest_from env fuel orig count)
  unfolding harvest_from
  harvest_from-Keeps zero orig count m b = b
  harvest_from-Keeps (suc fuel) orig count m b =
      if-keeps P (ltb (u64 (length m.free_slabs + 2 ^ 64 - orig)) count) _ (ok tt m)
        (and_then-Keeps P (harvest_one env m) (λ _. harvest_from env fuel orig count)
          (harvest_one-Keeps m b) (λ _. harvest_from-Keeps fuel orig count))
        b

  harvest_wanted_slabs-Keeps : (count : ℕ) → Keeps P (harvest_wanted_slabs env count)
  unfolding harvest_wanted_slabs
  harvest_wanted_slabs-Keeps count m b = harvest_from-Keeps _ _ _ m b

  grab_free_slabs-Keeps : (n p : ℕ) → Keeps P (grab_free_slabs env n p)
  unfolding grab_free_slabs
  grab_free_slabs-Keeps n p m b =
      bind-Keeps P
        (harvest_wanted_slabs env (n - length m.free_slabs) >> get_free_slabs unasked n nobody 0)
        (take_free_slabs env p)
        (seq-Keeps P (harvest_wanted_slabs env (n - length m.free_slabs))
          (get_free_slabs unasked n nobody 0) (harvest_wanted_slabs-Keeps (n - length m.free_slabs))
          (get_free_slabs-Keeps P (B-Blind r f g cs) unasked (λ m1 b1. b1.deaf) n nobody 0))
        (take_free_slabs-Keeps p) m b

  request_free_slabs-Keeps : (n p nice : ℕ) → Keeps P (request_free_slabs env n p nice)
  unfolding request_free_slabs
  request_free_slabs-Keeps n p nice m b =
      if-keeps P (u32 (nice + bit m.arg.playback_mode) == 0) (grab_free_slabs env n p m) _
        (grab_free_slabs-Keeps n p m b)
        (seq-Keeps P (on_rqsts (add_request _ _)) (service_slab_requests env)
          (on_rqsts-Keeps r f g cs _) service_slab_requests-Keeps m b)

  pub fill_producer_slabs-Keeps : (p : ℕ) → Keeps P (fill_producer_slabs env p)
  unfolding fill_producer_slabs
  fill_producer_slabs-Keeps p m b =
      if-keeps P
        (leb (prod_slabs_needed (get_proxy p m).slabs) (get_proxy p m).pending_free_slab_rqsts)
        (ok tt m) _ b (request_free_slabs-Keeps _ p _ _ (set_pending-P p _ m b))
