-- ===== src/Manager/Clients.antt =====
-- Clients that come and go: `AddConnectedClient`, `GetNewClientID` and `DeleteClient` of SocketDaemon.cc, the
-- constructor and the destructor of `Manager::ClientProxy`.
use mcsb.Base.{
  ℕ, ◌^◌, zero, suc, ◌+◌, ◌-◌, ◌/◌, ◌==◌, Bool, true, false, not, List, [], ◌∷◌, Option, none, some,
  if◌then◌else◌, ltb, leb, u16, u32, length, is_nil, map, lookup, insert, remove, Outcome, Proc, ok,
  throw, and_then, ◌>>=◌, ◌>>◌, out_of_fuel,
}
use mcsb.SlabManager.{release_slab_reservation, decrement_held_refcnt}
use mcsb.SlabTracker.{Tracker, empty_tracker, get_and_erase_prod_slabs, get_and_erase_cons_slabs}
use mcsb.GroupManager.{dec_group_id}
use mcsb.DropReporter.{reset_reporter}
use mcsb.Manager.{
  Manager, ClientProxy, ProxyStats, Rest, Env, Message, client_id_is, get_proxy, put_proxy,
  on_groups, caught, send,
}
use mcsb.Manager.Supply.{handle_slab_state_change, release_wanted, fill_producer_slabs}
use mcsb.Manager.Buffers.{check_buffer_params}
use mcsb.Manager.Registrations.{deregister_all_msg_ids}
pub mod Ids

-- `kMaxClientID`.
abbrev pub max_client_id : ℕ
max_client_id = 9999

abbrev pub next_client_id : ℕ → ℕ
next_client_id n = if leb max_client_id n then 0 else u16 (n + 1)

-- The loop of `GetNewClientID`, for at most `fuel` rounds.
pub new_client_id_from : ℕ → Proc Manager ℕ
new_client_id_from zero m = throw out_of_fuel m
new_client_id_from (suc fuel) m =
    let id = m.arg.next_new_client_id in
    let m1 : Manager = record m { arg = record m.arg { next_new_client_id = next_client_id id } } in
    let again = new_client_id_from fuel m1 in
    elim (lookup ◌==◌ id m.arg.clients) [ none ↦ ok id m1 | some p ↦ again ]

-- There are as many ids, from 0 on.
pub new_client_id : Proc Manager ℕ
unfolding new_client_id_from
new_client_id m = new_client_id_from (max_client_id + 1) m

abbrev pub no_stats : ProxyStats
no_stats = record {
  sent_segs = 0;
  sent_bytes = 0;
  rcvd_segs = 0;
  rcvd_bytes = 0;
  wanted_segs_in = 0;
  wanted_bytes_in = 0;
  wanted_segs_out = 0;
  wanted_bytes_out = 0;
  wanted_segs_dropped = 0;
  wanted_bytes_dropped = 0;
  wanted_segs_overage = 0;
  wanted_bytes_overage = 0;
}

pub fresh_proxy : ℕ → ClientProxy
fresh_proxy id = record {
  client_id = id;
  group_id = 0;
  client_pid = 2 ^ 32 - 1;
  client_name = [];
  connected = true;
  slabs = empty_tracker;
  registered_msg_ids = [];
  want_registrations = false;
  proxy_blocks_per_slab = 0;
  prod_nice_level = 0;
  pending_free_slab_rqsts = 0;
  stats = no_stats;
  drop_reporter = reset_reporter;
  wanted_queue = [];
  max_wanted_queue_size = 1024;
}

abbrev pub set_clients : List (ℕ × ℕ) → Manager → Manager
set_clients cs m = record m { arg = record m.arg { clients = cs } }

-- What the client reserved is given back; an error is only printed.
pub return_reservation : ℕ → Proc Manager (Unit {0})
return_reservation p m =
    let t = (get_proxy p m).slabs in
    let (failed, m') = release_slab_reservation (u32 (t.num_prod_slabs + t.num_cons_slabs)) m in
    ok tt m'

abbrev pub put_slabs : ℕ → Tracker → Manager → Manager
put_slabs p t m = put_proxy p (record (get_proxy p m) { slabs = t }) m

pub return_group : ℕ → Proc Manager (Unit {0})
return_group p m =
    let gid = (get_proxy p m).group_id in
    if gid == 0 then ok tt m else (on_groups (dec_group_id gid) >>= λ n m'. ok tt m') m

module _ (env : Env) where
  -- The constructor; the result is the new object.
  pub new_proxy : ℕ → Proc Manager ℕ
  unfolding fresh_proxy
  new_proxy id m =
      let p = m.arg.num_proxies in
      let m1 = put_proxy p (fresh_proxy id) m in
      (send env p (client_id_is id)
          >> check_buffer_params env p
          >> fill_producer_slabs env p
          >> λ m'. ok p m')
        (record m1 { arg = record m1.arg { num_proxies = p + 1 } })

  -- The `catch` around the constructor, and the new client behind it.
  abbrev pub admitted : ℕ → Outcome Manager ℕ → Outcome Manager (Unit {0})
  admitted id (ok p m) = ok tt (set_clients (insert ◌==◌ ltb id p m.arg.clients) m)
  admitted id (throw e m) = caught (throw e m)

  pub add_connected_client : Proc Manager (Unit {0})
  unfolding new_client_id new_proxy
  add_connected_client m =
      if leb m.arg.max_num_clients (length m.arg.clients)
      then ok tt m
      else and_then (new_client_id m) (λ id m1. admitted id (new_proxy id m1))

  -- The wanted segments are released, from the front on, for at most `fuel` segments.
  pub empty_queue_from : ℕ → ℕ → Proc Manager (Unit {0})
  empty_queue_from zero p m =
      if is_nil (get_proxy p m).wanted_queue then ok tt m else throw out_of_fuel m
  empty_queue_from (suc fuel) p m = elim (get_proxy p m).wanted_queue [
    | [] ↦ ok tt m
    | a ∷ rest ↦
        and_then
          (release_wanted env a (put_proxy p (record (get_proxy p m) { wanted_queue = rest }) m))
          (λ _. empty_queue_from fuel p)
  ]

  pub return_prod_slabs : ℕ → Proc Manager (Unit {0})
  return_prod_slabs p m =
      let t = (get_proxy p m).slabs in
      if t.prod_slabs_held == 0
      then ok tt m
      else (let (ids, t') = get_and_erase_prod_slabs t.prod_slabs_held t in
          caught (
            decrement_held_refcnt (handle_slab_state_change env) (map (λ s. (s, 1)) ids)
              (put_slabs p t' m)))

  pub return_cons_slabs : ℕ → Proc Manager (Unit {0})
  return_cons_slabs p m =
      let t = (get_proxy p m).slabs in
      if t.cons_slabs_held == 0
      then ok tt m
      else (let (ids, t') = get_and_erase_cons_slabs t.cons_slabs_held t in
          caught (decrement_held_refcnt (handle_slab_state_change env) ids (put_slabs p t' m)))

  -- The destructor.
  pub delete_proxy : ℕ → Proc Manager (Unit {0})
  unfolding empty_queue_from return_reservation return_prod_slabs return_cons_slabs return_group
  delete_proxy p m =
      (empty_queue_from (length (get_proxy p m).wanted_queue) p
          >> return_reservation p
          >> return_prod_slabs p
          >> return_cons_slabs p
          >> return_group p
          >> λ m'. caught (deregister_all_msg_ids env p m'))
        m

  -- The client is off the map before its proxy is deleted.
  pub delete_client : ℕ → Proc Manager (Unit {0})
  unfolding delete_proxy
  delete_client p m =
      delete_proxy p (set_clients (remove ◌==◌ (get_proxy p m).client_id m.arg.clients) m)
