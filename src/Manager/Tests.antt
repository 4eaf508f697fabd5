-- ===== src/Manager/Tests.antt =====
-- Two clients of a small manager, and the theorems at them.
use mcsb.Base.{
  ℕ, ◌≤◌, ◌≡◌, refl, ◌==◌, if◌then◌else◌, true, false, List, [], ◌∷◌, none, some, count, lookup, ok,
  throw, final, invalid_block, arith,
}
use mcsb.SlabManager.{held_to_free, wanted_to_free, new_info}
use mcsb.SlabTracker.{Tracker}
use mcsb.SlabRequests.{SlabRequestManager}
use mcsb.GroupManager.{new_group_manager}
use mcsb.DropReporter.{reset_reporter}
use mcsb.Manager.{Manager, ClientProxy, Rest, Env, get_proxy, put_proxy}
use mcsb.Manager.Clients.{no_stats, max_client_id, next_client_id, new_client_id}
use mcsb.Manager.Clients.Ids.{moved_on, new_client_id-finds}
use mcsb.Manager.Segments.{Incoming, Sorted, sort_segments, take_blocks_and_info}
use mcsb.Manager.Segments.Order.{InOrder, sort_segments-InOrder}
use mcsb.Manager.Segments.Stored.{
  beside_infos, no_info, no_manager_stats, take_blocks_and_info-refuses,
}
use mcsb.Manager.Registrations.{
  register_list, deregister_list, handle_registration, deregister_all_msg_ids,
  send_registrations_on,
}
use mcsb.Manager.Registrations.Ids.{
  registered, Registers, Deregisters, Announced, handle_registration-Registers,
  handle_registration-Deregisters,
}
use mcsb.Manager.Registrations.Rounds.{deregister_all_msg_ids-ends, send_registrations_on_blames}
use mcsb.Manager.Ledger.{IsAccounted}
use mcsb.Manager.Requests.{num_slabs_request, handle}
use mcsb.Manager.Ledger.Requests.{handle-IsAccounted}

abbrev tracker : ℕ → ℕ → Tracker
tracker prod cons = record {
  num_prod_slabs = prod;
  num_cons_slabs = cons;
  prod_slabs_held = 0;
  cons_slabs_held = 0;
  prod_refcnt = false ∷ false ∷ [];
  cons_refcnt = 0 ∷ 0 ∷ [];
}

abbrev client : ℕ → ℕ → ℕ → List ℕ → ClientProxy
client id prod cons ids = record {
  client_id = id;
  group_id = 0;
  client_pid = 100;
  client_name = [];
  connected = true;
  slabs = tracker prod cons;
  registered_msg_ids = ids;
  want_registrations = true;
  proxy_blocks_per_slab = 4;
  prod_nice_level = 0;
  pending_free_slab_rqsts = 0;
  stats = no_stats;
  drop_reporter = reset_reporter;
  wanted_queue = [];
  max_wanted_queue_size = 1024;
}

abbrev no_requests : SlabRequestManager
no_requests = record {
  max_level = 1;
  num_requests = 0;
  request_lists = λ level. [];
  num_request_blocks = 0;
  empty_requests = [];
  req = λ a. record { id = 0; num_slabs = 0; arg = 0 };
}

abbrev rest : Rest
rest = record {
  proxy = λ p. if p == 0 then client 0 2 1 [] else client 1 1 1 (7 ∷ []);
  num_proxies = 2;
  clients = (0, 0) ∷ (1, 1) ∷ [];
  max_num_clients = 8;
  next_new_client_id = 2;
  groups = new_group_manager;
  rqsts = no_requests;
  manager_stats = no_manager_stats;
  playback_mode = false;
  blocks_per_slab = 4;
  block_info = λ b. no_info;
  num_blocks = 8;
  mapped = 1;
  max_num_buffers = 2;
  lock_errors = 0;
  allow_unlocked_memory = true;
  sent = [];
}

abbrev idle : Manager
idle = record {
  slabs_per_buf = 2;
  num_buffers = 1;
  share = λ n. 0;
  num_slabs_reserved = 5;
  num_slabs_nonreservable = 0;
  info = λ id. new_info;
  free_slabs = 0 ∷ 1 ∷ [];
  held_slabs = [];
  wanted_slabs = [];
  num_seg_blocks = 0;
  seg = λ a. record { client_id = 0; block_id = 0 };
  free_wanted_segs = [];
  which_state_change = λ c. elim c [ held_to_free ↦ true | wanted_to_free ↦ true | _ ↦ false ];
  arg = rest;
}

-- Sockets that take everything, and ones that take nothing.
abbrev env : Env
env = record {
  refuses = λ sent p msg. false;
  src_client = λ b. 0;
  dst_client = λ b. 1;
  create_and_map = λ i. some 0;
}

abbrev shut : Env
shut = record {
  refuses = λ sent p msg. true;
  src_client = λ b. 0;
  dst_client = λ b. 1;
  create_and_map = λ i. none;
}

idle-IsAccounted : IsAccounted idle
idle-IsAccounted = record { sum = refl; quiet = refl }

handle-IsAccounted_example : IsAccounted (final (handle env 1 (num_slabs_request 2 3) idle))
handle-IsAccounted_example =
    handle-IsAccounted idle idle-IsAccounted env 1 (num_slabs_request 2 3) refl

abbrev arrival : ℕ → ℕ → Incoming
arrival block slab = record { block = block; slab = slab; info = no_info }

sort_segments-InOrder_example :
    (r : Sorted) × (t' : Tracker) × (sort_segments
        (λ a. true)
        false
        (arrival 0 0 ∷ arrival 5 1 ∷ [])
        (tracker 1 1)
      ≡ ok r t')
    × InOrder false (arrival 0 0 ∷ arrival 5 1 ∷ []) r
sort_segments-InOrder_example =
    sort_segments-InOrder (λ a. true) false (arrival 0 0 ∷ arrival 5 1 ∷ []) (tracker 1 1)
      (omega arith, (omega arith, tt))

take_blocks_and_info-refuses_example :
    (m' : Manager) × (take_blocks_and_info env ((3, no_info) ∷ (8, no_info) ∷ []) 0 idle
      ≡ throw invalid_block m')
    × (beside_infos m' ≡ beside_infos idle)
take_blocks_and_info-refuses_example =
    take_blocks_and_info-refuses env ((3, no_info) ∷ (8, no_info) ∷ []) 0 idle refl refl

handle_registration-Registers_example :
    (new : List ℕ) × (after : List ℕ) × (m' : Manager) × (handle_registration env 1 register_list 1
        0
        (5 ∷ 7 ∷ [])
        idle
      ≡ ok tt m')
    × Registers (5 ∷ 7 ∷ []) (7 ∷ []) new after
    × Announced env register_list 1 0 new
        (put_proxy 1 (record (get_proxy 1 idle) { registered_msg_ids = after }) idle)
        m'
handle_registration-Registers_example =
    handle_registration-Registers env 1 1 0 (5 ∷ 7 ∷ []) idle refl refl refl

once : (k : ℕ) → count k (7 ∷ []) ≤ 1
once k = ground arith

handle_registration-Deregisters_example :
    (gone : List ℕ) × (after : List ℕ) × (m' : Manager) × (handle_registration env 1 deregister_list
        1 0
        (5 ∷ 7 ∷ [])
        idle
      ≡ ok tt m')
    × Deregisters (5 ∷ 7 ∷ []) (7 ∷ []) gone after
    × Announced env deregister_list 1 0 gone
        (put_proxy 1 (record (get_proxy 1 idle) { registered_msg_ids = after }) idle)
        m'
handle_registration-Deregisters_example =
    handle_registration-Deregisters env 1 1 0 (5 ∷ 7 ∷ []) idle refl refl once

deregister_all_msg_ids-ends_example :
    (m' : Manager) × (deregister_all_msg_ids shut 1 idle ≡ ok tt m') × (registered 1 m' ≡ [])
deregister_all_msg_ids-ends_example = deregister_all_msg_ids-ends shut 1 idle

send_registrations_on_blames_example :
    send_registrations_on shut 1 0 idle
    ≡ ok tt (put_proxy 1 (record (get_proxy 1 idle) { connected = false }) idle)
send_registrations_on_blames_example = send_registrations_on_blames shut 1 0 idle refl refl refl

new_client_id-finds_example :
    (id : ℕ) × (new_client_id idle ≡ ok id (moved_on (next_client_id id) idle))
    × (id ≤ max_client_id)
    × (lookup ◌==◌ id idle.arg.clients ≡ none)
new_client_id-finds_example = new_client_id-finds idle (omega arith) (omega arith)
