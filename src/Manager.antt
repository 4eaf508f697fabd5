-- ===== src/Manager.antt =====
-- apps/MCSBManager/Manager.cc and apps/MCSBManager/ClientProxy.cc, with their headers: the state of the manager and
-- of its clients' proxies. Everything beside the slabs stands in the `arg` of the slab manager, so that
-- the slab state change handler can reach it. Proxies are numbered objects; `clients` is the map from
-- client ids to them. A send on a proxy's socket is appended to `sent`.
use mcsb.Base.{
  ℕ, Bool, true, false, not, List, ◌∷◌, Option, none, some, Outcome, Proc, ok, throw, update,
  lookup, ◌==◌, if◌then◌else◌, Error, send_failed, is_runtime_error,
}
use mcsb.SlabManager.{SlabManager}
use mcsb.SlabTracker.{Tracker}
use mcsb.SlabRequests.{SlabRequestManager}
use mcsb.GroupManager.{Name, GroupManager}
use mcsb.DropReporter.{DropReporter}
use mcsb.RecvManager.{BlockInfo}
pub mod Store
pub mod Quiet
pub mod Books
pub mod Sockets
pub mod Supply
pub mod Segments
pub mod Buffers
pub mod Registrations
pub mod Requests
pub mod Clients
pub mod Ledger
mod Tests

-- The counters of `ProxyStats`.
pub record ProxyStats : Type 0 where
  pub sent_segs : ℕ
  pub sent_bytes : ℕ
  pub rcvd_segs : ℕ
  pub rcvd_bytes : ℕ
  pub wanted_segs_in : ℕ
  pub wanted_bytes_in : ℕ
  pub wanted_segs_out : ℕ
  pub wanted_bytes_out : ℕ
  pub wanted_segs_dropped : ℕ
  pub wanted_bytes_dropped : ℕ
  pub wanted_segs_overage : ℕ
  pub wanted_bytes_overage : ℕ

-- `prod_nice_level` is a `char`, kept as its 8-bit pattern, ids are 16-bit patterns, and
-- `client_pid` is a 32-bit one.
pub record ClientProxy : Type 0 where
  pub client_id : ℕ
  pub group_id : ℕ
  pub client_pid : ℕ
  pub client_name : Name
  pub connected : Bool
  pub slabs : Tracker
  pub registered_msg_ids : List ℕ
  pub want_registrations : Bool
  pub proxy_blocks_per_slab : ℕ
  pub prod_nice_level : ℕ
  pub pending_free_slab_rqsts : ℕ
  pub stats : ProxyStats
  pub drop_reporter : DropReporter
  pub wanted_queue : List ℕ
  pub max_wanted_queue_size : ℕ

-- The counters of `ManagerStats`; the rest of it is filled in for printing only.
pub record ManagerStats : Type 0 where
  pub all_rcvd_segs : ℕ
  pub all_rcvd_bytes : ℕ
  pub all_sent_segs : ℕ
  pub all_sent_bytes : ℕ
  pub all_dropped_segs : ℕ
  pub all_dropped_bytes : ℕ

-- What is sent to a client.
pub data Message : Type 0 where
  block_ids : List ℕ → Message
  slab_ids : List ℕ → Message
  drop_report : ℕ → ℕ → Message
  granted_slabs : ℕ → ℕ → Message
  registration : ℕ → ℕ → ℕ → List ℕ → Message
  group_id_is : ℕ → Message
  client_id_is : ℕ → Message
  shm_name : Message
  manager_echo : List ℕ → Message
  sequence_token : ℕ → Message

-- The manager beside its slabs. `mapped` buffers of `num_blocks` blocks each are mapped.
pub record Rest : Type 0 where
  pub proxy : ℕ → ClientProxy
  pub num_proxies : ℕ
  pub clients : List (ℕ × ℕ)
  pub max_num_clients : ℕ
  pub next_new_client_id : ℕ
  pub groups : GroupManager
  pub rqsts : SlabRequestManager
  pub manager_stats : ManagerStats
  pub playback_mode : Bool
  pub blocks_per_slab : ℕ
  pub block_info : ℕ → BlockInfo
  pub num_blocks : ℕ
  pub mapped : ℕ
  pub max_num_buffers : ℕ
  pub lock_errors : ℕ
  pub allow_unlocked_memory : Bool
  pub sent : List (ℕ × Message)

abbrev pub Manager : Type 0
Manager = SlabManager Rest

-- What the manager meets outside: whether a send on a proxy's socket fails, after the sends before it;
-- the client ids that a client has written at the head of a block; and what comes of creating and
-- mapping a buffer, either nothing or a number of lock errors.
pub record Env : Type 0 where
  pub refuses : List (ℕ × Message) → ℕ → Message → Bool
  pub src_client : ℕ → ℕ
  pub dst_client : ℕ → ℕ
  pub create_and_map : ℕ → Option ℕ

abbrev pub get_proxy : ℕ → Manager → ClientProxy
get_proxy p m = m.arg.proxy p

abbrev pub put_proxy : ℕ → ClientProxy → Manager → Manager
put_proxy p x m = record m { arg = record m.arg { proxy = update m.arg.proxy p x } }

-- Calls of the parts of a proxy and of the manager.
abbrev pub with_tracker {ℓ} : {A : Type ℓ} → ℕ → Manager → Outcome Tracker A → Outcome Manager A
with_tracker p m (ok a t) = ok a (put_proxy p (record (get_proxy p m) { slabs = t }) m)
with_tracker p m (throw e t) = throw e (put_proxy p (record (get_proxy p m) { slabs = t }) m)

abbrev pub on_tracker {ℓ} : {A : Type ℓ} → ℕ → Proc Tracker A → Proc Manager A
on_tracker p f m = with_tracker p m (f (get_proxy p m).slabs)

abbrev pub with_rqsts {ℓ} :
    {A : Type ℓ} → Manager → Outcome SlabRequestManager A → Outcome Manager A
with_rqsts m (ok a r) = ok a (record m { arg = record m.arg { rqsts = r } })
with_rqsts m (throw e r) = throw e (record m { arg = record m.arg { rqsts = r } })

abbrev pub on_rqsts {ℓ} : {A : Type ℓ} → Proc SlabRequestManager A → Proc Manager A
on_rqsts f m = with_rqsts m (f m.arg.rqsts)

abbrev pub with_groups {ℓ} : {A : Type ℓ} → Manager → Outcome GroupManager A → Outcome Manager A
with_groups m (ok a g) = ok a (record m { arg = record m.arg { groups = g } })
with_groups m (throw e g) = throw e (record m { arg = record m.arg { groups = g } })

abbrev pub on_groups {ℓ} : {A : Type ℓ} → Proc GroupManager A → Proc Manager A
on_groups f m = with_groups m (f m.arg.groups)

-- `clients.find(id)`.
abbrev pub find_client : ℕ → Manager → Option ℕ
find_client id m = lookup ◌==◌ id m.arg.clients

-- `catch(std::runtime_error)`, after which the procedure goes on.
abbrev pub caught : Outcome Manager (Unit {0}) → Outcome Manager (Unit {0})
caught (ok a m) = ok a m
caught (throw e m) = if is_runtime_error e then ok tt m else throw e m

-- `SocketEndpoint::SendCtrlMsg` of the proxy `p`, on the socket of `q`: an endpoint that could not send
-- one message sends none any more. `connected` is `!sendFailed`.
pub send_on : Env → ℕ → ℕ → Message → Proc Manager (Unit {0})
send_on env p q msg m =
    let x = get_proxy p m in
    if not x.connected
    then throw send_failed m
    else if env.refuses m.arg.sent q msg
    then throw send_failed (put_proxy p (record x { connected = false }) m)
    else ok tt (record m { arg = record m.arg { sent = (q, msg) ∷ m.arg.sent } })

abbrev pub send : Env → ℕ → Message → Proc Manager (Unit {0})
send env p msg m = send_on env p p msg m
