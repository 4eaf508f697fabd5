-- ===== src/Manager/Segments.antt =====
-- Segments from one client to the others: `HandleBlocksAndInfo`, `SendSegments`, `PopWantedQueue`, `HandleBlockIDs`
-- and `HandleSlabIDs` of ClientProxy.cc, `TakeBlocksAndInfo` of Manager.cc.
use mcsb.Base.{
  ℕ, zero, suc, ◌+◌, ◌-◌, ◌*◌, ◌/◌, ◌%◌, ◌^◌, ◌==◌, Bool, true, false, not, ◌&&◌, ◌||◌, List, [],
  ◌∷◌, ◌++◌, map, Option, none, some, if◌then◌else◌, ltb, leb, u32, u64, length, drop, total,
  is_nil, mem, update, Outcome, Proc, ok, throw, and_then, ◌>>=◌, ◌>>◌, out_of_fuel, divide_fault,
  invalid_block, cci_mismatch, cci_to_manager,
}
use mcsb.SlabManager.{get_wanted_segment, increment_held_refcnt, decrement_held_refcnt}
use mcsb.SlabTracker.{Tracker, take_cons_slab, decrement_cons_slabs, erase_prod_slabs}
use mcsb.RecvManager.{BlockInfo}
use mcsb.Manager.{
  Manager, ClientProxy, ProxyStats, ManagerStats, Rest, Env, get_proxy, put_proxy, on_tracker,
}
use mcsb.Manager.Sockets.{send_block_ids, send_drop_report}
use mcsb.Manager.Supply.{handle_slab_state_change, release_wanted, fill_producer_slabs}
pub mod Order
pub mod Stored
pub mod Kept

-- `kCCIMessageID` and `kCCIBcastID`.
abbrev pub cci_message_id : ℕ
cci_message_id = 2 ^ 32 - 1

abbrev pub cci_bcast_id : ℕ
cci_bcast_id = 2 ^ 32 - 1

-- The fields of `CCIHeader` are `uint16_t`, so no destination is `kCCIBcastID`.
abbrev pub src_client_id : Env → ℕ → ℕ
src_client_id env block = env.src_client block % 2 ^ 16

abbrev pub dst_client_id : Env → ℕ → ℕ
dst_client_id env block = env.dst_client block % 2 ^ 16

-- One entry of the arrays `blockIDs`, `slabIDs` and `info`.
pub record Incoming : Type 0 where
  pub block : ℕ
  pub slab : ℕ
  pub info : BlockInfo

-- `wantMsg`.
pub wants : Env → ClientProxy → Incoming → Bool
wants env x a =
    if a.info.message_id == cci_message_id
    then dst_client_id env a.block == x.client_id || dst_client_id env a.block == cci_bcast_id
    else mem a.info.message_id x.registered_msg_ids

-- The segments to send and those to put in the wanted queue. `held_back` is `wantCount || wantedSegsPending`.
pub record Sorted : Type 0 where
  pub to_send : List Incoming
  pub to_want : List Incoming

abbrev pub also_send : Incoming → Sorted → Sorted
also_send a r = record r { to_send = a ∷ r.to_send }

abbrev pub also_want : Incoming → Sorted → Sorted
also_want a r = record r { to_want = a ∷ r.to_want }

pub sort_segments : (Incoming → Bool) → Bool → List Incoming → Proc Tracker Sorted
sort_segments want held_back [] t = ok (record { to_send = []; to_want = [] }) t
sort_segments want held_back (a ∷ segs) t =
    let skipped = sort_segments want held_back segs t in
    let behind = sort_segments want true segs t in
    if not (want a)
    then skipped
    else if held_back
    then and_then behind (λ r t'. ok (also_want a r) t')
    else and_then (take_cons_slab a.slab t) (λ took.
      if took
      then (sort_segments want false segs >>= λ r t'. ok (also_send a r) t')
      else (sort_segments want true segs >>= λ r t'. ok (also_want a r) t'))

-- `wantedQueue.push_back` and the bytes of it.
abbrev pub push_wanted_queue : ℕ → ℕ → ℕ → Manager → Manager
push_wanted_queue p a size m =
    let x = get_proxy p m in
    put_proxy p
      (record x {
        wanted_queue = x.wanted_queue ++ (a ∷ []);
        stats = record x.stats { wanted_bytes_in = u64 (x.stats.wanted_bytes_in + size) };
      })
      m

-- The manager's `GetWantedSegment`, for each segment that is put in the queue.
pub enqueue_wanted : ℕ → List Incoming → Proc Manager (Unit {0})
enqueue_wanted p [] m = ok tt m
enqueue_wanted p (a ∷ segs) m =
    and_then
      (get_wanted_segment (get_proxy p m).client_id a.block (a.block / m.arg.blocks_per_slab) m)
      (λ seg m'. enqueue_wanted p segs (push_wanted_queue p seg a.info.size m'))

abbrev pub count_in_queue : ℕ → ℕ → Manager → Manager
count_in_queue p count m =
    let x = get_proxy p m in
    put_proxy p
      (record x {
        stats = record x.stats { wanted_segs_in = u64 (x.stats.wanted_segs_in + count) };
      })
      m

-- A segment popped from the queue, or one too many in it.
abbrev pub count_out : ℕ → ℕ → Manager → Manager
count_out p size m =
    let x = get_proxy p m in
    put_proxy p
      (record x {
        stats = record x.stats {
          wanted_segs_out = u64 (x.stats.wanted_segs_out + 1);
          wanted_bytes_out = u64 (x.stats.wanted_bytes_out + size);
        };
        wanted_queue = drop 1 x.wanted_queue;
      })
      m

abbrev pub count_overage : ℕ → ℕ → Manager → Manager
count_overage p size m =
    let x = get_proxy p m in
    put_proxy p
      (record x {
        stats = record x.stats {
          wanted_segs_overage = u64 (x.stats.wanted_segs_overage + 1);
          wanted_bytes_overage = u64 (x.stats.wanted_bytes_overage + size);
        };
      })
      m

-- The blocks are checked and their infos stored, in order; the arrivals are given back.
pub store_blocks : List (ℕ × BlockInfo) → Proc Manager (List Incoming)
store_blocks [] m = ok [] m
store_blocks (b ∷ bs) m =
    let s = m.arg.manager_stats in
    if leb (u32 (m.arg.mapped * m.arg.num_blocks)) b.0
    then throw invalid_block m
    else if m.arg.blocks_per_slab == 0
    then throw divide_fault m
    else (store_blocks bs >>= λ segs m'.
          ok (record { block = b.0; slab = b.0 / m'.arg.blocks_per_slab; info = b.1 } ∷ segs) m')
        (record m {
          arg = record m.arg {
            block_info = update m.arg.block_info b.0 b.1;
            manager_stats = record s { all_rcvd_bytes = u64 (s.all_rcvd_bytes + b.1.size) };
          };
        })

-- `!proxy->Connected()`, or the group is the sender's.
abbrev pub passes_over : ℕ → ClientProxy → Bool
passes_over group x = not x.connected || (not (group == 0) && group == x.group_id)

abbrev pub count_rcvd : ℕ → Manager → Manager
count_rcvd count m =
    let s = m.arg.manager_stats in
    record m {
      arg = record m.arg {
        manager_stats = record s { all_rcvd_segs = u64 (s.all_rcvd_segs + count) };
      };
    }

module _ (env : Env) where
  -- `IncrementHeldRefcnt` and `SendBlockIDs`.
  pub hand_over : ℕ → List Incoming → Proc Manager (Unit {0})
  hand_over p segs =
      increment_held_refcnt (handle_slab_state_change env) (map (λ a. a.slab) segs)
      >> send_block_ids env p (map (λ a. (a.block, a.info.size)) segs)

  -- What is done about a registered segment at the front of the queue: `false` is the `break`.
  pub offer : ℕ → ℕ → ℕ → ℕ → Proc Manager Bool
  unfolding hand_over
  offer p block slab size = on_tracker p (take_cons_slab slab) >>= λ taken m.
      if taken
      then (increment_held_refcnt (handle_slab_state_change env) (slab ∷ [])
            >> send_block_ids env p ((block, size) ∷ [])
            >> λ m'. ok true m')
          m
      else if leb (length (get_proxy p m).wanted_queue) (get_proxy p m).max_wanted_queue_size
          || m.arg.playback_mode
      then ok false m
      else (send_drop_report env p 1 size >> λ m'. ok true m') (count_overage p size m)

  -- A round of `PopWantedQueue` with the segment `a` in front; `false` is the `break`.
  pub pop_wanted : ℕ → ℕ → Proc Manager Bool
  unfolding offer
  pop_wanted p a m =
      let x = get_proxy p m in
      let block = (m.seg a).block_id in
      let info = m.arg.block_info block in
      if x.proxy_blocks_per_slab == 0
      then throw divide_fault m
      else ((if mem info.message_id x.registered_msg_ids
              then offer p block (block / x.proxy_blocks_per_slab) info.size
              else (λ m'. ok true m'))
            >>= λ out m'.
                if out
                then (release_wanted env a >> λ m''. ok true m'') (count_out p info.size m')
                else ok false m')
          m

  -- The loop, for at most `fuel` rounds.
  pub pop_from : ℕ → ℕ → Proc Manager (Unit {0})
  unfolding pop_wanted
  pop_from zero p m = if is_nil (get_proxy p m).wanted_queue then ok tt m else throw out_of_fuel m
  pop_from (suc fuel) p m = elim (get_proxy p m).wanted_queue [
    | [] ↦ ok tt m
    | a ∷ rest ↦
        and_then (pop_wanted p a m) (λ out m'. if out then pop_from fuel p m' else ok tt m')
  ]

  -- Each round pops a segment.
  pub pop_wanted_queue : ℕ → Proc Manager (Unit {0})
  unfolding pop_from
  pop_wanted_queue p m = pop_from (length (get_proxy p m).wanted_queue) p m

  pub send_segments : ℕ → List Incoming → Proc Manager (Unit {0})
  unfolding hand_over pop_wanted_queue enqueue_wanted sort_segments
  send_segments p segs m =
      let x = get_proxy p m in
      (on_tracker p (sort_segments (wants env x) (not (is_nil x.wanted_queue)) segs) >>= λ r.
      (if is_nil r.to_send then (λ m'. ok tt m') else hand_over p r.to_send)
      >> enqueue_wanted p r.to_want
      >> λ m'. pop_wanted_queue p (count_in_queue p (length r.to_want) m'))
        m

  -- The client is done with these blocks.
  pub handle_block_ids : ℕ → List ℕ → Proc Manager (Unit {0})
  unfolding pop_wanted_queue
  handle_block_ids p blocks m =
      let bps = (get_proxy p m).proxy_blocks_per_slab in
      let slabs = map (λ b. b / bps) blocks in
      if bps == 0 && not (is_nil blocks)
      then throw divide_fault m
      else (on_tracker p (decrement_cons_slabs slabs)
            >> decrement_held_refcnt (handle_slab_state_change env) (map (λ s. (s, 1)) slabs)
            >> pop_wanted_queue p)
          m

  -- The client has released these slabs from its pool.
  pub handle_slab_ids : ℕ → List ℕ → Proc Manager (Unit {0})
  handle_slab_ids p slabs =
      on_tracker p (erase_prod_slabs slabs)
      >> decrement_held_refcnt (handle_slab_state_change env) (map (λ s. (s, 1)) slabs)
      >> fill_producer_slabs env p

  pub send_to_clients : List (ℕ × ℕ) → List Incoming → ℕ → Proc Manager (Unit {0})
  unfolding send_segments
  send_to_clients [] segs group m = ok tt m
  send_to_clients ((id, p) ∷ rest) segs group m =
      and_then (if passes_over group (get_proxy p m) then ok tt m else send_segments p segs m)
        (λ _. send_to_clients rest segs group)

  pub take_blocks_and_info : List (ℕ × BlockInfo) → ℕ → Proc Manager (Unit {0})
  unfolding store_blocks send_to_clients
  take_blocks_and_info bs group = store_blocks bs >>= λ segs m.
      let m1 = count_rcvd (length bs) m in send_to_clients m1.arg.clients segs group m1

  -- The headers of the blocks between clients.
  pub check_cci : ℕ → List (ℕ × BlockInfo) → Proc Manager (Unit {0})
  check_cci p [] m = ok tt m
  check_cci p (b ∷ bs) m =
      let id = (get_proxy p m).client_id in
      if not (b.1.message_id == cci_message_id)
      then check_cci p bs m
      else if m.arg.num_blocks == 0
      then throw divide_fault m
      else if leb m.arg.mapped (b.0 / m.arg.num_blocks)
      then throw invalid_block m
      else if not (src_client_id env b.0 == id)
      then throw cci_mismatch m
      else if not (id == 0) && dst_client_id env b.0 == 0
      then throw cci_to_manager m
      else check_cci p bs m

  pub handle_blocks_and_info : ℕ → List (ℕ × BlockInfo) → Proc Manager (Unit {0})
  unfolding check_cci take_blocks_and_info
  handle_blocks_and_info p bs m =
      (check_cci p bs >> take_blocks_and_info bs (get_proxy p m).group_id >> λ m'.
      let x = get_proxy p m' in
      ok tt (
        put_proxy p
          (record x {
            stats = record x.stats {
              rcvd_segs = u64 (x.stats.rcvd_segs + length bs);
              rcvd_bytes = u64 (x.stats.rcvd_bytes + total (λ b. b.1.size) bs);
            };
          })
          m'))
        m
