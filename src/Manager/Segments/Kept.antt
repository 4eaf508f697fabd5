-- ===== src/Manager/Segments/Kept.antt =====
-- Taking and sending segments keeps the books on reservations.
use mcsb.Base.{
  ℕ, zero, suc, ◌*◌, ◌/◌, ◌==◌, Bool, true, false, not, ◌&&◌, ◌||◌, List, [], ◌∷◌, map,
  if◌then◌else◌, leb, u32, length, is_nil, mem, ok, Keeps, and_then-Keeps, bind-Keeps, seq-Keeps,
  if-keeps, choose-Keeps, ◌>>◌, Nil-cases, inl, inr,
}
use mcsb.SlabManager.{get_wanted_segment, increment_held_refcnt, decrement_held_refcnt}
use mcsb.SlabManager.FrameHeld.{
  get_wanted_segment-Keeps, increment_held_refcnt-Keeps, decrement_held_refcnt-Keeps,
}
use mcsb.SlabTracker.{take_cons_slab, decrement_cons_slabs, erase_prod_slabs}
use mcsb.SlabTracker.Frame.{
  Reserves, take_cons_slab-Keeps, decrement_cons_slabs-Keeps, erase_prod_slabs-Keeps,
}
use mcsb.RecvManager.{BlockInfo}
use mcsb.Manager.{Manager, Env, get_proxy, on_tracker}
use mcsb.Manager.Books.{B, B-Blind, put_proxy-B, counters-B, on_tracker-Keeps}
use mcsb.Manager.Sockets.{send_block_ids, send_drop_report}
use mcsb.Manager.Sockets.Kept.{send_block_ids-Keeps, send_drop_report-Keeps}
use mcsb.Manager.Supply.{handle_slab_state_change, release_wanted, fill_producer_slabs}
use mcsb.Manager.Supply.Kept.{
  handle_slab_state_change-Keeps, release_wanted-Keeps, fill_producer_slabs-Keeps,
}
use mcsb.Manager.Segments.{
  src_client_id, dst_client_id, Incoming, wants, sort_segments, push_wanted_queue, enqueue_wanted,
  count_out, count_overage, hand_over, offer, pop_wanted, pop_from, pop_wanted_queue, send_segments,
  handle_block_ids, handle_slab_ids, store_blocks, passes_over, send_to_clients,
  take_blocks_and_info, check_cci, handle_blocks_and_info, cci_message_id,
}

sort_segments-Reserves :
    (prod cons : ℕ) (want : Incoming → Bool) (held_back : Bool) (arrivals : List Incoming)
    → Keeps (Reserves prod cons) (sort_segments want held_back arrivals)
unfolding sort_segments
sort_segments-Reserves prod cons want held_back [] t q = q
sort_segments-Reserves prod cons want held_back (a ∷ rest) t q =
    let Q = Reserves prod cons in
    if-keeps Q (not (want a)) (sort_segments want held_back rest t) _
      (sort_segments-Reserves prod cons want held_back rest t q)
      (if-keeps Q held_back _ _
        (and_then-Keeps Q (sort_segments want true rest t) _
          (sort_segments-Reserves prod cons want true rest t q) (λ r1 t1 q1. q1))
        (and_then-Keeps Q (take_cons_slab a.slab t) _ (take_cons_slab-Keeps prod cons a.slab t q)
          (λ took.
            choose-Keeps Q took _ _
              (bind-Keeps Q (sort_segments want false rest) _
                (sort_segments-Reserves prod cons want false rest) (λ r1 t1 q1. q1))
              (bind-Keeps Q (sort_segments want true rest) _
                (sort_segments-Reserves prod cons want true rest) (λ r1 t1 q1. q1)))))

module _ (r : ℕ) (f g : ℕ → ℕ) (cs : List (ℕ × ℕ)) (env : Env) where
  abbrev P : Manager → Type 0
  P = B r f g cs

  enqueue_wanted-Keeps : (p : ℕ) (segs : List Incoming) → Keeps P (enqueue_wanted p segs)
  unfolding enqueue_wanted
  enqueue_wanted-Keeps p [] m b = b
  enqueue_wanted-Keeps p (a ∷ segs) m b =
      and_then-Keeps P
        (get_wanted_segment (get_proxy p m).client_id a.block (a.block / m.arg.blocks_per_slab) m) _
        (get_wanted_segment-Keeps P (B-Blind r f g cs) _ _ _ m b)
        (λ seg m1 b1.
          enqueue_wanted-Keeps p segs (push_wanted_queue p seg a.info.size m1)
            (put_proxy-B r f g cs p _ m1 (b1.reserves p) b1))

  increment-Keeps :
      (ids : List ℕ) → Keeps P (increment_held_refcnt (handle_slab_state_change env) ids)
  increment-Keeps ids =
      increment_held_refcnt-Keeps P (B-Blind r f g cs) (handle_slab_state_change env)
        (handle_slab_state_change-Keeps r f g cs env) ids

  decrement-Keeps :
      (ids : List (ℕ × ℕ)) → Keeps P (decrement_held_refcnt (handle_slab_state_change env) ids)
  decrement-Keeps ids =
      decrement_held_refcnt-Keeps P (B-Blind r f g cs) (handle_slab_state_change env)
        (handle_slab_state_change-Keeps r f g cs env) ids

  hand_over-Keeps : (p : ℕ) (segs : List Incoming) → Keeps P (hand_over env p segs)
  unfolding hand_over
  hand_over-Keeps p segs =
      seq-Keeps P (increment_held_refcnt (handle_slab_state_change env) (map (λ a. a.slab) segs))
        (send_block_ids env p _) (increment-Keeps _) (send_block_ids-Keeps r f g cs env p _)

  offer-Keeps : (p block slab size : ℕ) → Keeps P (offer env p block slab size)
  unfolding offer
  offer-Keeps p block slab size =
      bind-Keeps P (on_tracker p (take_cons_slab slab)) _
        (on_tracker-Keeps r f g cs p (take_cons_slab slab) (λ x y. take_cons_slab-Keeps x y slab))
        (λ taken m b.
          if-keeps P taken _ _
            (seq-Keeps P
              (increment_held_refcnt (handle_slab_state_change env) (slab ∷ [])
                >> send_block_ids env p ((block, size) ∷ []))
              _
              (seq-Keeps P (increment_held_refcnt (handle_slab_state_change env) (slab ∷ []))
                (send_block_ids env p ((block, size) ∷ [])) (increment-Keeps (slab ∷ []))
                (send_block_ids-Keeps r f g cs env p ((block, size) ∷ [])))
              (λ m1 b1. b1) m b)
            (if-keeps P
              (leb (length (get_proxy p m).wanted_queue) (get_proxy p m).max_wanted_queue_size
                || m.arg.playback_mode)
              _ _ b
              (seq-Keeps P (send_drop_report env p 1 size) _
                (send_drop_report-Keeps r f g cs env p 1 size) (λ m1 b1. b1)
                (count_overage p size m) (put_proxy-B r f g cs p _ m (b.reserves p) b))))

  pop_wanted-Keeps : (p a : ℕ) → Keeps P (pop_wanted env p a)
  unfolding pop_wanted
  pop_wanted-Keeps p a m b =
      let x = get_proxy p m in
      let block = (m.seg a).block_id in
      let info = m.arg.block_info block in
      if-keeps P (x.proxy_blocks_per_slab == 0) _ _ b (
        bind-Keeps P
          (if mem info.message_id x.registered_msg_ids
            then offer env p block (block / x.proxy_blocks_per_slab) info.size
            else (λ m'. ok true m'))
          _
          (choose-Keeps P (mem info.message_id x.registered_msg_ids)
            (offer env p block (block / x.proxy_blocks_per_slab) info.size) (λ m'. ok true m')
            (offer-Keeps p block _ info.size) (λ m1 b1. b1))
          (λ out m1 b1.
            if-keeps P out _ _
              (seq-Keeps P (release_wanted env a) (λ m2. ok true m2)
                (release_wanted-Keeps r f g cs env a) (λ m2 b2. b2) (count_out p info.size m1)
                (put_proxy-B r f g cs p _ m1 (b1.reserves p) b1))
              b1)
          m b)

  pop_from-Keeps : (fuel p : ℕ) → Keeps P (pop_from env fuel p)
  unfolding pop_from
  pop_from-Keeps zero p m b = if-keeps P (is_nil (get_proxy p m).wanted_queue) _ _ b b
  pop_from-Keeps (suc fuel) p m b = elim (Nil-cases (get_proxy p m).wanted_queue) [
    | inl h ↦ rw (h, pop_from) b
    | inr (a, rest, h) ↦
        rw (h, pop_from)
          (and_then-Keeps P (pop_wanted env p a m) _ (pop_wanted-Keeps p a m b) (λ out m1 b1.
            if-keeps P out (pop_from env fuel p m1) (ok tt m1) (pop_from-Keeps fuel p m1 b1) b1))
  ]

  pop_wanted_queue-Keeps : (p : ℕ) → Keeps P (pop_wanted_queue env p)
  unfolding pop_wanted_queue
  pop_wanted_queue-Keeps p m b = pop_from-Keeps _ p m b

  send_segments-Keeps : (p : ℕ) (segs : List Incoming) → Keeps P (send_segments env p segs)
  unfolding send_segments
  send_segments-Keeps p segs m b =
      let sort =
        sort_segments (wants env (get_proxy p m)) (not (is_nil (get_proxy p m).wanted_queue))
          segs in
      bind-Keeps P (on_tracker p sort) _
        (on_tracker-Keeps r f g cs p sort (λ x y. sort_segments-Reserves x y _ _ segs))
        (λ o.
          seq-Keeps P
            ((if is_nil o.to_send then (λ m1. ok tt m1) else hand_over env p o.to_send)
              >> enqueue_wanted p o.to_want)
            _
            (seq-Keeps P (if is_nil o.to_send then (λ m1. ok tt m1) else hand_over env p o.to_send)
              (enqueue_wanted p o.to_want)
              (choose-Keeps P (is_nil o.to_send) (λ m1. ok tt m1) (hand_over env p o.to_send)
                (λ m1 b1. b1) (hand_over-Keeps p o.to_send))
              (enqueue_wanted-Keeps p o.to_want))
            (λ m1 b1. pop_wanted_queue-Keeps p _ (put_proxy-B r f g cs p _ m1 (b1.reserves p) b1)))
        m b

  pub handle_block_ids-Keeps : (p : ℕ) (blocks : List ℕ) → Keeps P (handle_block_ids env p blocks)
  unfolding handle_block_ids
  handle_block_ids-Keeps p blocks m b =
      let slabs = map (λ k. k / (get_proxy p m).proxy_blocks_per_slab) blocks in
      if-keeps P ((get_proxy p m).proxy_blocks_per_slab == 0 && not (is_nil blocks)) _ _ b (
        seq-Keeps P
          (on_tracker p (decrement_cons_slabs slabs)
            >> decrement_held_refcnt (handle_slab_state_change env) (map (λ s. (s, 1)) slabs))
          (pop_wanted_queue env p)
          (seq-Keeps P (on_tracker p (decrement_cons_slabs slabs))
            (decrement_held_refcnt (handle_slab_state_change env) _)
            (on_tracker-Keeps r f g cs p (decrement_cons_slabs slabs)
              (λ x y. decrement_cons_slabs-Keeps x y slabs))
            (decrement-Keeps _))
          (pop_wanted_queue-Keeps p) m b)

  pub handle_slab_ids-Keeps : (p : ℕ) (slabs : List ℕ) → Keeps P (handle_slab_ids env p slabs)
  unfolding handle_slab_ids
  handle_slab_ids-Keeps p slabs =
      seq-Keeps P
        (on_tracker p (erase_prod_slabs slabs)
          >> decrement_held_refcnt (handle_slab_state_change env) (map (λ s. (s, 1)) slabs))
        (fill_producer_slabs env p)
        (seq-Keeps P (on_tracker p (erase_prod_slabs slabs))
          (decrement_held_refcnt (handle_slab_state_change env) _)
          (on_tracker-Keeps r f g cs p (erase_prod_slabs slabs)
            (λ x y. erase_prod_slabs-Keeps x y slabs))
          (decrement-Keeps _))
        (fill_producer_slabs-Keeps r f g cs env p)

  store_blocks-Keeps : (bs : List (ℕ × BlockInfo)) → Keeps P (store_blocks bs)
  unfolding store_blocks
  store_blocks-Keeps [] m b = b
  store_blocks-Keeps (k ∷ bs) m b =
      if-keeps P (leb (u32 (m.arg.mapped * m.arg.num_blocks)) k.0) _ _ b (
        if-keeps P (m.arg.blocks_per_slab == 0) _ _ b (
          bind-Keeps P (store_blocks bs) _ (store_blocks-Keeps bs) (λ o m1 b1. b1) _
            (record {
              total_reserved = b.total_reserved;
              reserves = b.reserves;
              same_clients = b.same_clients;
              deaf = b.deaf;
            })))

  send_to_clients-Keeps :
      (to : List (ℕ × ℕ)) (segs : List Incoming) (group : ℕ)
      → Keeps P (send_to_clients env to segs group)
  unfolding send_to_clients
  send_to_clients-Keeps [] segs group m b = b
  send_to_clients-Keeps ((id, p) ∷ rest) segs group m b =
      and_then-Keeps P
        (if passes_over group (get_proxy p m) then ok tt m else send_segments env p segs m) _
        (if-keeps P (passes_over group (get_proxy p m)) (ok tt m) (send_segments env p segs m) b
          (send_segments-Keeps p segs m b))
        (λ _. send_to_clients-Keeps rest segs group)

  take_blocks_and_info-Keeps :
      (bs : List (ℕ × BlockInfo)) (group : ℕ) → Keeps P (take_blocks_and_info env bs group)
  unfolding take_blocks_and_info
  take_blocks_and_info-Keeps bs group =
      bind-Keeps P (store_blocks bs) _ (store_blocks-Keeps bs)
        (λ segs m b. send_to_clients-Keeps m.arg.clients segs group _ (counters-B r f g cs _ m b))

  check_cci-Keeps : (p : ℕ) (bs : List (ℕ × BlockInfo)) → Keeps P (check_cci env p bs)
  unfolding check_cci
  check_cci-Keeps p [] m b = b
  check_cci-Keeps p (k ∷ bs) m b =
      let next = check_cci-Keeps p bs m b in
      if-keeps P (not (k.1.message_id == cci_message_id)) _ _ next (
        if-keeps P (m.arg.num_blocks == 0) _ _ b (
          if-keeps P (leb m.arg.mapped (k.0 / m.arg.num_blocks)) _ _ b (
            if-keeps P (not (src_client_id env k.0 == (get_proxy p m).client_id)) _ _ b (
              if-keeps P (not ((get_proxy p m).client_id == 0) && dst_client_id env k.0 == 0) _ _ b
                next))))

  pub handle_blocks_and_info-Keeps :
      (p : ℕ) (bs : List (ℕ × BlockInfo)) → Keeps P (handle_blocks_and_info env p bs)
  unfolding handle_blocks_and_info
  handle_blocks_and_info-Keeps p bs m b =
      seq-Keeps P (check_cci env p bs >> take_blocks_and_info env bs (get_proxy p m).group_id) _
        (seq-Keeps P (check_cci env p bs) (take_blocks_and_info env bs (get_proxy p m).group_id)
          (check_cci-Keeps p bs) (take_blocks_and_info-Keeps bs (get_proxy p m).group_id))
        (λ m1 b1. put_proxy-B r f g cs p _ m1 (b1.reserves p) b1) m b
